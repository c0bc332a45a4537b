-- ===== src/Exec.antt =====
-- Methods that read and change the database and may return an error. What was written before the
-- error stays written, so the state comes back beside it.
pub mod Inversion
pub mod Keeping
pub mod Raising
pub mod Faults
use fabric8_cluster.Common.{ℕ, String, Bool}
use fabric8_cluster.Errors.{Error, Result, ok, err}

-- The database, how many uuids were drawn, serviceContextImpl.inTransaction of
-- application/service/factory, GormDB.txIsoLevel of gormapplication, and how many transactions the
-- database has open though no one will end them.
pub record World (S : Type 0) : Type 0 where
  pub store : S
  pub drawn : ℕ
  pub in_transaction : Bool
  pub isolation : String
  pub unended : ℕ

abbrev pub Exec : Type 0 → Type 0 → Type 0
Exec S A = World S → Result A × World S

module _ {S A B : Type 0} where
  -- `settle` runs what follows a call, by its result: `if err != nil { … }`.
  abbrev pub settle : (A → Exec S B) → (Error → Exec S B) → Result A × World S → Result B × World S
  settle f g (ok a, w) = f a w
  settle f g (err e, w) = g e w

  abbrev pub handle : Exec S A → (A → Exec S B) → (Error → Exec S B) → Exec S B
  handle m f g w = settle f g (m w)

module _ {S A : Type 0} where
  abbrev pub pure : A → Exec S A
  pure a w = (ok a, w)

  abbrev pub raise : Error → Exec S A
  raise e w = (err e, w)

module _ {S A B : Type 0} where
  infixl 5 ◌>>=◌
  abbrev pub ◌>>=◌ : Exec S A → (A → Exec S B) → Exec S B
  m >>= f = handle m f raise

module _ {S B : Type 0} where
  infixl 5 ◌>>◌
  abbrev pub ◌>>◌ : Exec S Unit → Exec S B → Exec S B
  m >> k = m >>= λ _. k
