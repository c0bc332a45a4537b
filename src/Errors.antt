-- ===== src/Errors.antt =====
-- Errors as values: what the constructors of fabric8-common/errors and pkg/errors are called with.
-- `WithStack` adds a stack trace only, so it leaves the value as it is.
use fabric8_cluster.Common.{String, Bool, true, false, ◌≡◌, refl, ◌⊎◌, inl, inr}

-- What a database statement fails with: gorm.ErrRecordNotFound, or an error of the driver.
pub data DbError : Type 0 where
  record_not_found : DbError
  driver : String → DbError

pub data Error : Type 0 where
  unauthorized : String → Error
  not_found : (entity value : String) → Error
  not_found_msg : String → Error
  bad_parameter : (name value : String) → Error
  bad_parameter_msg : String → Error
  internal_msg : String → Error
  internal : Error → Error
  database : DbError → Error
  text : String → Error
  wrapped : Error → String → Error

-- `errors.IsNotFoundError`, which looks at the cause of the error.
abbrev pub is_not_found : Error → Bool
is_not_found (not_found entity value) = true
is_not_found (not_found_msg m) = true
is_not_found (wrapped e m) = is_not_found e
is_not_found _ = false

pub data Result (A : Type 0) : Type 0 where
  ok : A → Result A
  err : Error → Result A

infixl 5 ◌>>=◌ ◌>>◌
abbrev pub ◌>>=◌ : {A B : Type 0} → Result A → (A → Result B) → Result B
ok a >>= f = f a
err e >>= f = err e

abbrev pub ◌>>◌ : {B : Type 0} → Result Unit → Result B → Result B
m >> k = m >>= λ _. k

-- The reply to a database statement.
pub data Reply (A : Type 0) : Type 0 where
  done : A → Reply A
  failed : DbError → Reply A

pub Result-cases :
    {A : Type 0} (r : Result A) → ((a : A) × (r ≡ ok a)) ⊎ ((e : Error) × (r ≡ err e))
Result-cases (ok a) = inl (a, refl)
Result-cases (err e) = inr (e, refl)

pub Reply-cases :
    {A S : Type 0} (q : Reply A × S)
    → ((a : A) × (s : S) × (q ≡ (done a, s))) ⊎ ((e : DbError) × (s : S) × (q ≡ (failed e, s)))
Reply-cases (done a, s) = inl (a, s, refl)
Reply-cases (failed e, s) = inr (e, s, refl)

pub Fetch-cases :
    {A : Type 0} (q : Reply A)
    → ((a : A) × (q ≡ done a))
      ⊎ ((q ≡ failed record_not_found) ⊎ ((m : String) × (q ≡ failed (driver m))))
Fetch-cases (done a) = inl (a, refl)
Fetch-cases (failed record_not_found) = inr (inl refl)
Fetch-cases (failed (driver m)) = inr (inr (m, refl))
