-- ===== src/Exec/Keeping.antt =====
-- What a method keeps, however it ends: rules for each way to put methods together.
use fabric8_cluster.Common.{Bool, true, false, if◌then◌else◌}
use fabric8_cluster.Errors.{Error, Result, ok, err}
use fabric8_cluster.Exec.{World, Exec, settle, handle, pure, raise, ◌>>=◌}

-- If `Q` holds before, it holds afterwards.
pub record Keeps {S A : Type 0} (Q : World S → Type 0) (m : Exec S A) : Type 0 where
  pub after : (w : World S) → Q w → Q (m w).1

module _ {S : Type 0} (Q : World S → Type 0) where
  pub pure-Keeps : {A : Type 0} (a : A) → Keeps Q (pure a)
  pure-Keeps a = record { after = λ w h. h }

  pub raise-Keeps : (A : Type 0) (e : Error) → Keeps Q (raise {A = A} e)
  raise-Keeps A e = record { after = λ w h. h }

  pub if-Keeps :
      {A : Type 0} (b : Bool) (m n : Exec S A)
      → Keeps Q m
      → Keeps Q n
      → Keeps Q (if b then m else n)
  if-Keeps true m n km kn = km
  if-Keeps false m n km kn = kn

  settle-Keeps :
      {A B : Type 0} (f : A → Exec S B) (g : Error → Exec S B) (q : Result A × World S)
      → ((a : A) → Keeps Q (f a))
      → ((e : Error) → Keeps Q (g e))
      → Q q.1
      → Q (settle f g q).1
  settle-Keeps f g (ok a, w) kf kg h = (kf a).after w h
  settle-Keeps f g (err e, w) kf kg h = (kg e).after w h

  pub handle-Keeps :
      {A B : Type 0} (m : Exec S A) (f : A → Exec S B) (g : Error → Exec S B)
      → Keeps Q m
      → ((a : A) → Keeps Q (f a))
      → ((e : Error) → Keeps Q (g e))
      → Keeps Q (handle m f g)
  handle-Keeps m f g km kf kg = record {
    after = λ w h. settle-Keeps f g (m w) kf kg (km.after w h);
  }

  pub bind-Keeps :
      {A B : Type 0} (m : Exec S A) (f : A → Exec S B)
      → Keeps Q m
      → ((a : A) → Keeps Q (f a))
      → Keeps Q (m >>= f)
  bind-Keeps {B = B} m f km kf = handle-Keeps m f raise km kf (raise-Keeps B)
