-- ===== src/Controller/Status.antt =====
-- StatusController.Show of controller/status.go.
use fabric8_cluster.Common.{
  String, ◌<>◌, Bool, true, false, not, ◌&&◌, ◌||◌, Option, none, some, ◌≡◌, ◌↔◌, ◌⊎◌, arith, refl,
  inl, inr, if◌then◌else◌,
}
use fabric8_cluster.Controller.Data.{Response, replied, service_unavailable}

pub record Status : Type 0 where
  pub commit : String
  pub build_time : String
  pub start_time : String
  pub dev_mode : Option Bool
  pub database_status : String
  pub configuration_status : String

-- The text of an error, or "OK".
abbrev pub status_of : Option String → String
status_of none = "OK"
status_of (some m) = "Error: " <> m

abbrev pub failing : Option String → Bool
failing none = false
failing (some m) = true

-- The three times are set by the build and at the start; `db_error` is the result of the ping and
-- `config_error` of DefaultConfigurationError.
module _ (commit build_time start_time : String) where
  abbrev pub status : Bool → (db_error config_error : Option String) → Status
  status dev_mode db_error config_error = record {
    commit = commit;
    build_time = build_time;
    start_time = start_time;
    dev_mode = if dev_mode then some true else none;
    database_status = status_of db_error;
    configuration_status = status_of config_error;
  }

  unfoldable pub show : Bool → (db_error config_error : Option String) → Response Status
  show dev_mode db_error config_error =
      let res = status dev_mode db_error config_error in
      if failing db_error || (failing config_error && not dev_mode)
      then service_unavailable res
      else replied res

  -- The request is answered with "OK".
  abbrev pub IsUp : Response Status → Type 0
  IsUp (replied s) = Unit
  IsUp _ = ⊥

  -- The status is answered with OK if and only if the database has no error and the configuration
  -- has none either or the developer mode is on.
  pub show_iff :
      (dev_mode : Bool) (db_error config_error : Option String)
      → IsUp (show dev_mode db_error config_error)
        ↔ ((db_error ≡ none) × ((config_error ≡ none) ⊎ (dev_mode ≡ true)))
  unfolding show
  show_iff dev_mode none none = ((λ u. (refl, inl refl)), λ h. tt)
  show_iff true none (some m) = ((λ u. (refl, inr refl)), λ h. tt)
  show_iff false none (some m) = ((λ u. absurd u), λ h. ground arith)
  show_iff dev_mode (some n) none = ((λ u. absurd u), λ h. ground arith)
  show_iff dev_mode (some n) (some m) = ((λ u. absurd u), λ h. ground arith)
