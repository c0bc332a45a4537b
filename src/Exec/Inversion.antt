-- ===== src/Exec/Inversion.antt =====
-- Taking a run of a method apart: what the first call gave, and how the run went on.
use fabric8_cluster.Common.{◌≡◌, refl, ◌⊎◌, inl, inr}
use fabric8_cluster.Errors.{Error, Result, ok, err}
use fabric8_cluster.Exec.{World, Exec, settle, handle, raise, ◌>>=◌}

module _ {S A B : Type 0} where
  settle_split :
      (f : A → Exec S B) (g : Error → Exec S B) (q : Result A × World S) (out : Result B × World S)
      → settle f g q ≡ out
      → ((a : A) × (v : World S) × (q ≡ (ok a, v)) × (f a v ≡ out))
        ⊎ ((e : Error) × (v : World S) × (q ≡ (err e, v)) × (g e v ≡ out))
  settle_split f g (ok a, v) out e = inl (a, v, refl, e)
  settle_split f g (err x, v) out e = inr (x, v, refl, e)

  pub handle_split :
      (m : Exec S A) (f : A → Exec S B) (g : Error → Exec S B) (w : World S)
      (out : Result B × World S)
      → handle m f g w ≡ out
      → ((a : A) × (v : World S) × (m w ≡ (ok a, v)) × (f a v ≡ out))
        ⊎ ((e : Error) × (v : World S) × (m w ≡ (err e, v)) × (g e v ≡ out))
  handle_split m f g w out e = settle_split f g (m w) out e

  bind_settled :
      (f : A → Exec S B) (q : Result A × World S) (b : B) (w' : World S)
      → settle f raise q ≡ (ok b, w')
      → (a : A) × (v : World S) × (q ≡ (ok a, v)) × (f a v ≡ (ok b, w'))
  bind_settled f (ok a, v) b w' e = (a, v, refl, e)
  bind_settled f (err x, v) b w' e = cc

  pub bind_ok :
      (m : Exec S A) (f : A → Exec S B) (w : World S) (b : B) (w' : World S)
      → (m >>= f) w ≡ (ok b, w')
      → (a : A) × (v : World S) × (m w ≡ (ok a, v)) × (f a v ≡ (ok b, w'))
  bind_ok m f w b w' e = bind_settled f (m w) b w' e
