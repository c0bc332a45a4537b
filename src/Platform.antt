-- ===== src/Platform.antt =====
-- What the service calls and does not implement, as parameters: fabric8-common, net/url, the uuid
-- library, gorm with PostgreSQL. The laws that are needed stand beside each of them.
pub mod Web
pub mod Tables
pub mod Memory
use fabric8_cluster.Common.{ℕ, String, Bool, true, List, [], ◌∷◌, ◌≡◌, ◌≢◌, Among}
use fabric8_cluster.Errors.{Error}
use Web.{Urls}
use fabric8_cluster.Model.{nil_uuid}
use Tables.{Database, IsReading, IsWriting, IsConstrained, IsListing, IsTransactional}

-- The names of the service accounts in fabric8-common/auth that the code uses.
pub data Account : Type 0 where
  auth oso_proxy tenant jenkins_idler jenkins_proxy tool_chain_operator : Account

pub record Platform : Type 1 where
  pub urls : Urls
  pub db : Database
  pub open db use *
  -- `auth.IsSpecificServiceAccount`, on the request's context and the names of the accounts.
  pub Context : Type 0
  pub is_specific_service_account : Context → List Account → Bool
  -- The n-th result of `uuid.NewV4`, and `UUID.String`.
  pub new_v4 : ℕ → ℕ
  pub uuid_string : ℕ → String
  -- `%v` of an error.
  pub error_text : Error → String

-- The documented behaviour of all of them.
pub record IsLawful (P : Platform) : Type 0 where
  pub urls : Web.IsLawful P.urls
  pub reading : IsReading P.db
  pub writing : IsWriting P.db
  pub constrained : IsConstrained P.db
  pub listing : IsListing P.db
  pub transactional : IsTransactional P.db
  -- The caller is one of the accounts named, or it is not.
  pub account_among :
      (ctx : P.Context) (names : List Account)
      → P.is_specific_service_account ctx names ≡ true
      → (a : Account) × Among a names × (P.is_specific_service_account ctx (a ∷ []) ≡ true)
  pub account_named :
      (ctx : P.Context) (names : List Account) (a : Account)
      → Among a names
      → P.is_specific_service_account ctx (a ∷ []) ≡ true
      → P.is_specific_service_account ctx names ≡ true
  pub new_v4-ne-nil : (n : ℕ) → P.new_v4 n ≢ nil_uuid
