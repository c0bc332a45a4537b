-- ===== src/Configuration/Defaults.antt =====
-- setConfigDefaults of configuration/configuration.go, and the getters over viper.
pub mod Laws
use fabric8_cluster.Common.{
  ℕ, String, ◌<>◌, Bool, true, false, Option, none, some, List, [], ◌∷◌, if◌then◌else◌,
}
use fabric8_cluster.Configuration.Settings.{Settings}
use fabric8_cluster.Configuration.Getters.{
  get_postgres_host, get_postgres_port, get_postgres_user, get_postgres_password,
  get_postgres_database, get_postgres_ssl_mode, get_postgres_connection_timeout, get_environment,
  get_sentry_dsn, developer_mode_enabled,
}
use fabric8_cluster.Configuration.Viper.{
  Viper, Setting, string, int, bool, duration, ℤ, pos, negsuc,
}

-- A key with its default.
abbrev pub Default : Type 0
Default = String × Setting

-- The calls of `SetDefault`, in their order.
unfoldable pub config_defaults : List Default
config_defaults =
    ("postgres.host", string "localhost")
    ∷ ("postgres.port", int (pos 5434))
    ∷ ("postgres.user", string "postgres")
    ∷ ("postgres.database", string "postgres")
    ∷ ("postgres.password", string "mysecretpassword")
    ∷ ("postgres.sslmode", string "disable")
    ∷ ("postgres.connection.timeout", int (pos 5))
    ∷ ("postgres.connection.maxidle", int (negsuc 0))
    ∷ ("postgres.connection.maxopen", int (negsuc 0))
    ∷ ("postgres.connection.retrysleep", duration 1000000000)
    ∷ ("postgres.transaction.timeout", duration 300000000000)
    ∷ ("http.address", string "0.0.0.0:8087")
    ∷ ("metrics.http.address", string "0.0.0.0:8087")
    ∷ ("developer.mode.enabled", bool false)
    ∷ ("log.level", string "info")
    ∷ ("clean.test.data", bool true)
    ∷ ("error.reporting.required", bool true)
    ∷ ("enable.db.logs", bool false)
    ∷ ("environment", string "local")
    ∷ ("auth.keys.path", string "/api/token/keys")
    ∷ []

module _ (V : Viper) where
  unfoldable pub set_all : List Default → V.State → V.State
  set_all [] v = v
  set_all ((k, x) ∷ ds) v = set_all ds (V.set_default k x v)

  unfoldable pub set_config_defaults : V.State → V.State
  set_config_defaults v = set_all config_defaults v

  abbrev given_string : V.State → String → Option String
  given_string v k = if V.is_set v k then some (V.get_string v k) else none

  -- The settings that the checks of the start read.
  unfoldable pub settings : V.State → Settings
  settings v = record {
    developer_mode_enabled = developer_mode_enabled V v;
    postgres_password = get_postgres_password V v;
    environment = get_environment V v;
    cluster_service_url = given_string v "clusterservice.url";
    auth_url = given_string v "auth.url";
    sentry_dsn = get_sentry_dsn V v;
  }

  unfoldable pub is_log_json : V.State → Bool
  is_log_json v =
      if V.is_set v "log.json"
      then V.get_bool v "log.json"
      else if developer_mode_enabled V v
      then false
      else true

  -- `key` is the private key that fabric8-common has for the developer mode.
  unfoldable pub get_dev_mode_private_key : String → V.State → Option String
  get_dev_mode_private_key key v = if developer_mode_enabled V v then some key else none

  -- `decimal` is `%d`.
  unfoldable pub get_postgres_config_string : (ℤ → String) → V.State → String
  get_postgres_config_string decimal v =
      "host="
      <> get_postgres_host V v
      <> " port="
      <> decimal (get_postgres_port V v)
      <> " user="
      <> get_postgres_user V v
      <> " password="
      <> get_postgres_password V v
      <> " dbname="
      <> get_postgres_database V v
      <> " sslmode="
      <> get_postgres_ssl_mode V v
      <> " connect_timeout="
      <> decimal (get_postgres_connection_timeout V v)
