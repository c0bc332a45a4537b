-- ===== src/Exec/Raising.antt =====
-- The errors that a method returns: rules for each way to put methods together.
use fabric8_cluster.Common.{Bool, true, false, if◌then◌else◌}
use fabric8_cluster.Errors.{Error, Result, ok, err, ◌>>◌}
use fabric8_cluster.Exec.{World, Exec, settle, handle, raise, ◌>>=◌}

-- An error is one of `K`.
abbrev pub Failing : {A : Type 0} → (Error → Type 0) → Result A → Type 0
Failing K (ok a) = Unit
Failing K (err e) = K e

abbrev pub Raises : {S A : Type 0} → (Error → Type 0) → Exec S A → Type 0
Raises {S} K m = (w : World S) → Failing K (m w).0

module _ {A : Type 0} (J K : Error → Type 0) (weaker : (e : Error) → J e → K e) where
  pub Failing-weaken : (r : Result A) → Failing J r → Failing K r
  Failing-weaken (ok a) f = tt
  Failing-weaken (err e) f = weaker e f

-- One check after another.
pub Failing-seq :
    {B : Type 0} (K : Error → Type 0) (m : Result Unit) (k : Result B)
    → Failing K m
    → Failing K k
    → Failing K (m >> k)
Failing-seq K (ok u) k f g = g
Failing-seq K (err e) k f g = f

module _ {S : Type 0} (K : Error → Type 0) where
  pub if-Raises :
      {A : Type 0} (b : Bool) (m n : Exec S A)
      → Raises K m
      → Raises K n
      → Raises K (if b then m else n)
  if-Raises true m n rm rn = rm
  if-Raises false m n rm rn = rn

  settle-Raises :
      {A B : Type 0} (J : Error → Type 0) (f : A → Exec S B) (g : Error → Exec S B)
      (q : Result A × World S)
      → Failing J q.0
      → ((a : A) → Raises K (f a))
      → ((e : Error) → J e → Raises K (g e))
      → Failing K (settle f g q).0
  settle-Raises J f g (ok a, w) rm rf rg = rf a w
  settle-Raises J f g (err e, w) rm rf rg = rg e rm w

  -- What `m` returns as an error is looked at by `g`.
  pub handle-Raises :
      {A B : Type 0} (J : Error → Type 0) (m : Exec S A) (f : A → Exec S B) (g : Error → Exec S B)
      → Raises J m
      → ((a : A) → Raises K (f a))
      → ((e : Error) → J e → Raises K (g e))
      → Raises K (handle m f g)
  handle-Raises J m f g rm rf rg w = settle-Raises J f g (m w) (rm w) rf rg

  pub bind-Raises :
      {A B : Type 0} (m : Exec S A) (f : A → Exec S B)
      → Raises K m
      → ((a : A) → Raises K (f a))
      → Raises K (m >>= f)
  bind-Raises m f rm rf = handle-Raises K m f raise rm rf (λ e k w. k)
