-- ===== src/Configuration/Settings.antt =====
-- NewConfigurationData, validateURL, GetClusterServiceURL and GetAuthServiceURL of
-- configuration/configuration.go. viper's settings are parameters.
pub mod Laws
use fabric8_cluster.Common.{
  String, ◌<>◌, Bool, true, false, Option, none, some, [], ◌⊎◌, inl, inr, if◌then◌else◌, ◌==◌,
  string_eq, ◌≡◌, ◌≢◌, refl, arith,
}
use fabric8_cluster.Errors.{text, Result, ok, err}
use fabric8_cluster.Platform.Web.{Urls, Url, Parsed, parsed, malformed}
use fabric8_cluster.Configuration.Files.{
  Files, ConfigurationData, append_default_config_error_message, init_cluster_config,
}

-- The settings that the code reads; `none` where `IsSet` is false.
pub record Settings : Type 0 where
  pub developer_mode_enabled : Bool
  pub postgres_password : String
  pub environment : String
  pub cluster_service_url : Option String
  pub auth_url : Option String
  pub sentry_dsn : String

unfoldable pub get_cluster_service_url : Settings → String
get_cluster_service_url v = from_setting v.cluster_service_url
  where
    from_setting : Option String → String
    from_setting (some url) = url
    from_setting none =
        if v.environment == "production"
        then "https://cluster.openshift.io"
        else if v.environment == "prod-preview"
        then "https://cluster.prod-preview.openshift.io"
        else "http://localhost"

unfoldable pub get_auth_service_url : Settings → String
get_auth_service_url v = from_setting v.auth_url
  where
    from_setting : Option String → String
    from_setting (some url) = url
    from_setting none =
        if v.developer_mode_enabled then "https://auth.prod-preview.openshift.io" else ""

Parsed-cases : (p : Parsed) → ((u : Url) × (p ≡ parsed u)) ⊎ ((m : String) × (p ≡ malformed m))
Parsed-cases (parsed u) = inl (u, refl)
Parsed-cases (malformed m) = inr (m, refl)

module _ (U : Urls) where
  -- `validateURL` of this file: the messages are only recorded.
  unfoldable pub validate_service_url : String → String → ConfigurationData → ConfigurationData
  validate_service_url url name c =
      if url == ""
      then append_default_config_error_message (name <> " url is empty") c
      else checked (U.parse url)
    where
      checked : Parsed → ConfigurationData
      checked (parsed u) = c
      checked (malformed m) =
          append_default_config_error_message ("invalid " <> name <> " url: " <> m) c

  abbrev pub warn_if : Bool → String → ConfigurationData → ConfigurationData
  warn_if b message c = if b then append_default_config_error_message message c else c

  -- "Check sensitive default configuration"
  unfoldable pub check_defaults : Settings → ConfigurationData → ConfigurationData
  check_defaults v c = warn_if (v.sentry_dsn == "") "Sentry DSN is empty" (
      validate_service_url (get_auth_service_url v) "Auth service" (
        warn_if (get_cluster_service_url v == "http://localhost")
          "environment is expected to be set to 'production' or 'prod-preview'"
          (validate_service_url (get_cluster_service_url v) "Cluster service" (
            warn_if (v.postgres_password == "mysecretpassword") "default DB password is used"
              (warn_if v.developer_mode_enabled "developer Mode is enabled" c)))))

  abbrev pub after_clusters :
      Settings → Result Unit × String × ConfigurationData → Result ConfigurationData
  after_clusters v (err e, used, c) = err e
  after_clusters v (ok u, used, c) =
      ok (check_defaults v (record c { cluster_config_file_path = used }))

  -- `main_read` is the result of reading the main file: no error, or its text.
  unfoldable pub new_configuration_data :
      Files
      → Settings
      → (main_read : Option String) → (main_file cluster_file : String) → Result ConfigurationData
  new_configuration_data F v main_read main_file cluster_file =
      if main_file == "" then configured else after_main main_read
    where
      fresh : ConfigurationData
      fresh = record {
        clusters = [];
        cluster_config_file_path = "";
        default_configuration_error = none;
      }

      configured : Result ConfigurationData
      configured =
          after_clusters v
            (init_cluster_config F cluster_file "/etc/fabric8/oso-clusters.conf" fresh)

      after_main : Option String → Result ConfigurationData
      after_main none = configured
      after_main (some m) = err (text ("Fatal error config file: " <> m <> " \n"))

  -- A warning is never taken back.
  warn_if-quiet :
      (b : Bool) (m : String) (c : ConfigurationData)
      → (warn_if b m c).default_configuration_error ≡ none
      → (b ≡ false) × (c.default_configuration_error ≡ none)
  unfolding append_default_config_error_message
  warn_if-quiet true m c e = absurd (cc)
  warn_if-quiet false m c e = (refl, e)

  validate-quiet :
      (url name : String) (c : ConfigurationData)
      → (validate_service_url url name c).default_configuration_error ≡ none
      → (url ≢ "") × (c.default_configuration_error ≡ none)
  unfolding validate_service_url append_default_config_error_message
  validate-quiet url name c e = ground (arith, e, Parsed-cases (U.parse url))

  -- If check_defaults leaves no message, the developer mode is off, the database's password is not
  -- the default one, the service's URL is neither empty nor http://localhost, the URL of Auth and
  -- the Sentry DSN are not empty, and there was no message before.
  pub check_defaults-quiet :
      (v : Settings) (c : ConfigurationData)
      → (check_defaults v c).default_configuration_error ≡ none
      → (v.developer_mode_enabled ≡ false)
        × (v.postgres_password ≢ "mysecretpassword")
        × (get_cluster_service_url v ≢ "")
        × (get_cluster_service_url v ≢ "http://localhost")
        × (get_auth_service_url v ≢ "")
        × (v.sentry_dsn ≢ "")
        × (c.default_configuration_error ≡ none)
  unfolding check_defaults
  check_defaults-quiet v c e =
      let c₁ : ConfigurationData = warn_if v.developer_mode_enabled "developer Mode is enabled" c in
      let c₂ : ConfigurationData =
        warn_if (v.postgres_password == "mysecretpassword") "default DB password is used" c₁ in
      let c₃ : ConfigurationData =
        validate_service_url (get_cluster_service_url v) "Cluster service" c₂ in
      let c₄ : ConfigurationData =
        warn_if (get_cluster_service_url v == "http://localhost")
          "environment is expected to be set to 'production' or 'prod-preview'" c₃ in
      let c₅ : ConfigurationData =
        validate_service_url (get_auth_service_url v) "Auth service" c₄ in
      let (dsn, e₁) = warn_if-quiet (v.sentry_dsn == "") "Sentry DSN is empty" c₅ e in
      let (auth, e₂) = validate-quiet (get_auth_service_url v) "Auth service" c₄ e₁ in
      let (host, e₃) =
        warn_if-quiet (get_cluster_service_url v == "http://localhost")
          "environment is expected to be set to 'production' or 'prod-preview'" c₃ e₂ in
      let (service, e₄) = validate-quiet (get_cluster_service_url v) "Cluster service" c₂ e₃ in
      let (password, e₅) =
        warn_if-quiet (v.postgres_password == "mysecretpassword") "default DB password is used" c₁
          e₄ in
      let (dev, e₆) = warn_if-quiet v.developer_mode_enabled "developer Mode is enabled" c e₅ in
      (dev, ground (arith, password), service, ground (arith, host), auth, ground (arith, dsn), e₆)
