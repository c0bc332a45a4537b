-- ===== src/Configuration/Defaults/Laws.antt =====
-- What the defaults come to where the environment and the main file are silent.
use fabric8_cluster.Common.{
  String, ◌<>◌, Bool, true, false, Option, none, some, List, [], ◌∷◌, ◌≡◌, ◌≢◌, ◌∙◌, ap, refl,
  if◌then◌else◌, ◌==◌, string_eq, ℕ,
}
use fabric8_cluster.Platform.Web.{Urls}
use fabric8_cluster.Configuration.Files.{ConfigurationData}
use fabric8_cluster.Configuration.Settings.{check_defaults, check_defaults-quiet}
use fabric8_cluster.Configuration.Viper.{
  Viper, IsLawful, Setting, string, int, duration, ℤ, pos, negsuc, or_else, resolved,
}
use fabric8_cluster.Configuration.Serving.{
  DatabaseSettings, database_settings, limit, handlers, listeners,
}
use fabric8_cluster.Configuration.Defaults.{
  Default, config_defaults, set_all, set_config_defaults, is_log_json, get_dev_mode_private_key,
  settings, get_postgres_config_string,
}

-- The default of a key in a list of them, where a later one counts.
unfoldable pub default_of : List Default → String → Option Setting
default_of [] j = none
default_of ((k, x) ∷ ds) j =
    let rest = default_of ds j in or_else rest (if j == k then some x else none)

or_else-if :
    (d e : Option Setting) (b : Bool) (x : Setting)
    → or_else d (if b then some x else e) ≡ or_else (or_else d (if b then some x else none)) e
or_else-if none e true x = refl
or_else-if none e false x = refl
or_else-if (some y) e b x = refl

-- A connection string of lib/pq.
abbrev pub postgres_at : (host port user password dbname sslmode connect_timeout : String) → String
postgres_at host port user password dbname sslmode connect_timeout =
    "host=" <> host <> " port=" <> port <> " user=" <> user <> " password=" <> password
    <> " dbname=" <> dbname <> " sslmode=" <> sslmode <> " connect_timeout=" <> connect_timeout

-- No limits, a deadline of five minutes, a pause of a second.
abbrev pub default_settings : DatabaseSettings
default_settings = record {
  debug = false;
  max_idle = none;
  max_open = none;
  timeout = 300000000000;
  retry_sleep = 1000000000;
}

-- Everything at one address.
abbrev pub default_handlers : List (String × String)
default_handlers =
    ("0.0.0.0:8087", "/api/") ∷ ("0.0.0.0:8087", "/favicon.ico") ∷ ("0.0.0.0:8087", "/metrics") ∷ []

module _ (V : Viper) (L : IsLawful V) where
  set_all-explicit :
      (ds : List Default) (v : V.State) (j : String)
      → V.explicit (set_all V ds v) j ≡ V.explicit v j
  unfolding set_all
  set_all-explicit [] v j = refl
  set_all-explicit ((k, x) ∷ ds) v j =
      set_all-explicit ds (V.set_default k x v) j ∙ L.explicit-set_default v k j x

  set_all-default :
      (ds : List Default) (v : V.State) (j : String)
      → V.default (set_all V ds v) j ≡ or_else (default_of ds j) (V.default v j)
  unfolding set_all default_of
  set_all-default [] v j = refl
  set_all-default ((k, x) ∷ ds) v j =
      set_all-default ds (V.set_default k x v) j
      ∙ ap (or_else (default_of ds j)) (L.default-set_default v k j x)
      ∙ or_else-if (default_of ds j) (V.default v j) (j == k) x

  -- What is explicit counts, and else the default in the list.
  pub set_config_defaults-resolved :
      (v : V.State) (j : String)
      → V.default v j ≡ none
      → resolved V (set_config_defaults V v) j
        ≡ or_else (V.explicit v j) (default_of config_defaults j)
  unfolding set_config_defaults
  set_config_defaults-resolved v j new =
      rw (set_all-explicit config_defaults v j, set_all-default config_defaults v j, new)
        (ap (or_else (V.explicit v j)) (or_else-none (default_of config_defaults j)))
    where
      or_else-none : (o : Option Setting) → or_else o none ≡ o
      or_else-none none = refl
      or_else-none (some x) = refl

  module _ (v : V.State) (new : (j : String) → V.default v j ≡ none)
      (silent : (j : String) → V.explicit v j ≡ none) where
    abbrev s : V.State
    s = set_config_defaults V v

    at_default : (j : String) → resolved V s j ≡ default_of config_defaults j
    at_default j =
        set_config_defaults-resolved v j (new j)
        ∙ ap (λ o. or_else o (default_of config_defaults j)) (silent j)

    text_of : (k x : String) → default_of config_defaults k ≡ some (string x) → V.get_string s k ≡ x
    text_of k x e = L.get_string_same s k x (at_default k ∙ e)

    number_of :
        (k : String) (n : ℤ) → default_of config_defaults k ≡ some (int n) → V.get_int s k ≡ n
    number_of k n e = L.get_int_same s k n (at_default k ∙ e)

    plain : V.get_bool s "developer.mode.enabled" ≡ false
    unfolding default_of config_defaults string_eq
    plain = L.get_bool_same s "developer.mode.enabled" false (at_default "developer.mode.enabled")

    unset : (k : String) → default_of config_defaults k ≡ none → V.is_set s k ≡ false
    unset k e = L.is_set_absent s k (at_default k ∙ e)

    config_string :
        (decimal : ℤ → String)
        → get_postgres_config_string V decimal s
          ≡ postgres_at "localhost"
              (decimal (pos 5434))
              "postgres"
              "mysecretpassword"
              "postgres"
              "disable"
              (decimal (pos 5))
    unfolding get_postgres_config_string default_of config_defaults string_eq
    config_string decimal =
        rw
          (
            text_of "postgres.host" "localhost" refl,
            number_of "postgres.port" (pos 5434) refl,
            text_of "postgres.user" "postgres" refl,
            text_of "postgres.password" "mysecretpassword" refl,
            text_of "postgres.database" "postgres" refl,
            text_of "postgres.sslmode" "disable" refl,
            number_of "postgres.connection.timeout" (pos 5) refl,
          )
          refl

    json : is_log_json V s ≡ true
    unfolding is_log_json default_of config_defaults string_eq
    json = rw (unset "log.json" refl, plain) refl

    no_key : (key : String) → get_dev_mode_private_key V key s ≡ none
    unfolding get_dev_mode_private_key
    no_key key = rw plain refl

    duration_of :
        (k : String) (n : ℕ)
        → default_of config_defaults k ≡ some (duration n)
        → V.get_duration s k ≡ n
    duration_of k n e = L.get_duration_same s k n (at_default k ∙ e)

    unlimited : (is_debug : Bool) → database_settings V is_debug s ≡ default_settings
    unfolding database_settings limit default_of config_defaults string_eq
    unlimited is_debug =
        rw
          (
            plain,
            number_of "postgres.connection.maxidle" (negsuc 0) refl,
            number_of "postgres.connection.maxopen" (negsuc 0) refl,
            duration_of "postgres.transaction.timeout" 300000000000 refl,
            duration_of "postgres.connection.retrysleep" 1000000000 refl,
          )
          refl

    together : (handlers V s ≡ default_handlers) × (listeners V s ≡ "0.0.0.0:8087" ∷ [])
    unfolding handlers listeners default_of config_defaults string_eq
    together =
        rw
          (
            text_of "http.address" "0.0.0.0:8087" refl,
            text_of "metrics.http.address" "0.0.0.0:8087" refl,
          )
          (refl, refl)

    reported :
        (U : Urls) (c : ConfigurationData)
        → (check_defaults U (settings V s) c).default_configuration_error ≢ none
    unfolding settings default_of config_defaults string_eq
    reported U c quiet =
        (check_defaults-quiet U (settings V s) c quiet).1
          (text_of "postgres.password" "mysecretpassword" refl)

    -- For every lawful viper that is new, so has no defaults, and for which the environment and the
    -- main file say nothing: after set_config_defaults the service connects to the database
    -- postgres on localhost:5434 with the default user and password, without TLS and with a timeout
    -- of 5 s, logs as JSON, has no key of the developer mode, sets no limits on the pool of
    -- connections, ends transactions after five minutes, waits a second between attempts to
    -- connect, listens on 0.0.0.0:8087 alone, with API and metrics, and check_defaults reports a
    -- message.
    pub silent-defaults :
        (decimal : ℤ → String) (key : String) (is_debug : Bool) (U : Urls) (c : ConfigurationData)
        → (get_postgres_config_string V decimal s
            ≡ postgres_at "localhost"
                (decimal (pos 5434))
                "postgres"
                "mysecretpassword"
                "postgres"
                "disable"
                (decimal (pos 5)))
          × (is_log_json V s ≡ true)
          × (get_dev_mode_private_key V key s ≡ none)
          × (database_settings V is_debug s ≡ default_settings)
          × (handlers V s ≡ default_handlers)
          × (listeners V s ≡ "0.0.0.0:8087" ∷ [])
          × ((check_defaults U (settings V s) c).default_configuration_error ≢ none)
    silent-defaults decimal key is_debug U c =
        let (stand, listen) = together in
        (config_string decimal, json, no_key key, unlimited is_debug, stand, listen, reported U c)
