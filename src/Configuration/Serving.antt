-- ===== src/Configuration/Serving.antt =====
-- What main of main.go sets by the configuration before it listens: the pool of connections, the
-- log of statements, the deadline of transactions, and which handlers stand at which address.
pub mod Laws
use fabric8_cluster.Common.{
  ℕ, zero, suc, String, Bool, true, false, ◌&&◌, Option, none, some, List, [], ◌∷◌, ◌++◌,
  if◌then◌else◌, ◌==◌, string_eq,
}
use fabric8_cluster.Configuration.Viper.{Viper, ℤ, pos, negsuc}
use fabric8_cluster.Configuration.Getters.{
  get_postgres_connection_max_idle, get_postgres_connection_max_open,
  get_postgres_transaction_timeout, get_postgres_connection_retry_sleep, developer_mode_enabled,
  get_http_address, get_metrics_http_address,
}

-- A limit is set if it is above 0; otherwise `SetMaxIdleConns` or `SetMaxOpenConns` is not called.
unfoldable pub limit : ℤ → Option ℤ
limit (pos zero) = none
limit (pos (suc n)) = some (pos (suc n))
limit (negsuc n) = none

-- `retry_sleep` is the pause between two attempts to open the database, `timeout` the deadline of
-- transactions, both in nanoseconds.
pub record DatabaseSettings : Type 0 where
  pub debug : Bool
  pub max_idle : Option ℤ
  pub max_open : Option ℤ
  pub timeout : ℕ
  pub retry_sleep : ℕ

module _ (V : Viper) where
  -- `is_debug` is `log.IsDebug()`.
  unfoldable pub database_settings : (is_debug : Bool) → V.State → DatabaseSettings
  database_settings is_debug v = record {
    debug = developer_mode_enabled V v && is_debug;
    max_idle = limit (get_postgres_connection_max_idle V v);
    max_open = limit (get_postgres_connection_max_open V v);
    timeout = get_postgres_transaction_timeout V v;
    retry_sleep = get_postgres_connection_retry_sleep V v;
  }

  -- The handlers: an address with a path. The metrics have an address of their own if it is not
  -- that of the service.
  unfoldable pub handlers : V.State → List (String × String)
  handlers v =
      (get_http_address V v, "/api/")
      ∷ (get_http_address V v, "/favicon.ico")
      ∷ (if get_http_address V v == get_metrics_http_address V v
          then (get_http_address V v, "/metrics")
          else (get_metrics_http_address V v, "/metrics"))
      ∷ []

  -- The addresses that are listened on.
  unfoldable pub listeners : V.State → List String
  listeners v =
      if get_http_address V v == get_metrics_http_address V v
      then get_http_address V v ∷ []
      else get_metrics_http_address V v ∷ get_http_address V v ∷ []
