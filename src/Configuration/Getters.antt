-- ===== src/Configuration/Getters.antt =====
-- The getters of configuration/configuration.go that give a value of viper as it is, and
-- GetDefaultConfigurationFile.
use fabric8_cluster.Common.{ℕ, String, Bool}
use fabric8_cluster.Configuration.Viper.{Viper, ℤ}

abbrev pub get_default_configuration_file : String
get_default_configuration_file = "config.yaml"

module _ (V : Viper) where
  abbrev pub get_postgres_host : V.State → String
  get_postgres_host v = V.get_string v "postgres.host"

  abbrev pub get_postgres_port : V.State → ℤ
  get_postgres_port v = V.get_int v "postgres.port"

  abbrev pub get_postgres_user : V.State → String
  get_postgres_user v = V.get_string v "postgres.user"

  abbrev pub get_postgres_database : V.State → String
  get_postgres_database v = V.get_string v "postgres.database"

  abbrev pub get_postgres_password : V.State → String
  get_postgres_password v = V.get_string v "postgres.password"

  abbrev pub get_postgres_ssl_mode : V.State → String
  get_postgres_ssl_mode v = V.get_string v "postgres.sslmode"

  abbrev pub get_postgres_connection_timeout : V.State → ℤ
  get_postgres_connection_timeout v = V.get_int v "postgres.connection.timeout"

  -- In nanoseconds.
  abbrev pub get_postgres_connection_retry_sleep : V.State → ℕ
  get_postgres_connection_retry_sleep v = V.get_duration v "postgres.connection.retrysleep"

  abbrev pub get_postgres_transaction_timeout : V.State → ℕ
  get_postgres_transaction_timeout v = V.get_duration v "postgres.transaction.timeout"

  abbrev pub get_postgres_connection_max_idle : V.State → ℤ
  get_postgres_connection_max_idle v = V.get_int v "postgres.connection.maxidle"

  abbrev pub get_postgres_connection_max_open : V.State → ℤ
  get_postgres_connection_max_open v = V.get_int v "postgres.connection.maxopen"

  abbrev pub get_http_address : V.State → String
  get_http_address v = V.get_string v "http.address"

  abbrev pub get_metrics_http_address : V.State → String
  get_metrics_http_address v = V.get_string v "metrics.http.address"

  abbrev pub developer_mode_enabled : V.State → Bool
  developer_mode_enabled v = V.get_bool v "developer.mode.enabled"

  abbrev pub is_clean_test_data_enabled : V.State → Bool
  is_clean_test_data_enabled v = V.get_bool v "clean.test.data"

  abbrev pub is_clean_test_data_error_reporting_required : V.State → Bool
  is_clean_test_data_error_reporting_required v = V.get_bool v "error.reporting.required"

  abbrev pub is_db_logs_enabled : V.State → Bool
  is_db_logs_enabled v = V.get_bool v "enable.db.logs"

  abbrev pub get_sentry_dsn : V.State → String
  get_sentry_dsn v = V.get_string v "sentry.dsn"

  abbrev pub get_log_level : V.State → String
  get_log_level v = V.get_string v "log.level"

  abbrev pub get_environment : V.State → String
  get_environment v = V.get_string v "environment"

  abbrev pub get_auth_keys_path : V.State → String
  get_auth_keys_path v = V.get_string v "auth.keys.path"
