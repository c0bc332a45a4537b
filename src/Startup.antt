-- ===== src/Startup.antt =====
-- The start of the service, in main of main.go, up to the point where it listens for requests.
-- Loggers and middleware are left out; what main sets by the configuration stands in
-- Configuration/Serving.
pub mod Connecting
pub mod Safety
pub mod Switches
use fabric8_cluster.Common.{ℕ, zero, suc, String, Bool, Option, none, some, List, if◌then◌else◌}
use fabric8_cluster.Errors.{Error, Result, ok, err}
use fabric8_cluster.Model.{Cluster}
use fabric8_cluster.Platform.{Platform}
use fabric8_cluster.Exec.{World}
use fabric8_cluster.Configuration.Files.{Files, ConfigurationData}
use fabric8_cluster.Configuration.Settings.{Settings, new_configuration_data}
use fabric8_cluster.Service.Sync.{create_or_save_cluster_from_config}
use fabric8_cluster.Service.Watcher.{Shared, values, initialize_cluster_watcher}

-- The command line and the environment: the values of the switches that are given, and
-- `os.LookupEnv`.
pub record CommandLine : Type 0 where
  pub switch : String → Option String
  pub print_config : Bool
  pub migrate_db : Bool
  pub lookup_env : String → Option String

-- `configFileFromFlags`, from whether the switch is given and the variable is set.
abbrev pub chosen : (switch variable : Option String) → String
chosen none (some path) = path
chosen none none = ""
chosen (some given) variable = ""

unfoldable pub config_file_from_flags : CommandLine → (flag_name env_name : String) → String
config_file_from_flags line flag_name env_name =
    chosen (line.switch flag_name) (line.lookup_env env_name)

-- The loop around `gorm.Open`, from attempt `n` on: the attempt that succeeds, if there is one
-- among the next ones.
unfoldable pub connect : (attempts n : ℕ) → (ℕ → Result Unit) → Option ℕ
connect zero n attempt = none
connect (suc attempts) n attempt =
    let rest = connect attempts (suc n) attempt in elim (attempt n) [ ok u ↦ some n | err e ↦ rest ]

-- What main comes to. `connecting`: the database was not opened in the attempts that were made.
pub data Outcome (P : Platform) : Type 0 where
  panicked : (message : String) → Error → Outcome P
  exited : Outcome P
  connecting : Outcome P
  listening : Shared P → Outcome P

-- What main calls: the files, viper's settings from the environment and the main file, viper's
-- reading of the main file, opening the database, migrating it, the order of `range`, fsnotify's
-- `NewWatcher` and `Add`, and `auth.DefaultManager`.
pub record Machine (P : Platform) : Type 0 where
  pub files : Files
  pub settings : (lookup_env : String → Option String) → (main_config_file : String) → Settings
  pub main_read : String → Option String
  pub open_database : ℕ → Result Unit
  pub migrate : P.State → Result P.State
  pub order : List Cluster → List Cluster
  pub new_watcher : Result Unit
  pub watch : String → Result Unit
  pub token_manager : Result Unit

module _ (P : Platform) (M : Machine P) where
  abbrev pub secured : Shared P → Result Unit → Outcome P
  secured s (err e) = panicked "failed to create token manager" e
  secured s (ok u) = listening s

  abbrev pub watched : Shared P → Result Unit → Outcome P
  watched s (err e) = panicked "failed to setup the cluster config watcher" e
  watched s (ok u) = secured s M.token_manager

  -- "Create cluster from config for the first time"
  abbrev pub synchronized : ConfigurationData → Result Unit × World P.State → Outcome P
  synchronized c (err e, w) = panicked "failed to create or save cluster" e
  synchronized c (ok u, w) =
      watched (record { config = c; world = w })
        (initialize_cluster_watcher M.files M.new_watcher M.watch c)

  -- The world with the migrated database.
  abbrev pub migrated : ConfigurationData → Bool → World P.State → Result P.State → Outcome P
  migrated c migrate_db w (err e) = panicked "failed migration" e
  migrated c migrate_db w (ok s) =
      let rest =
        synchronized c
          (create_or_save_cluster_from_config P (values M.order c) (record w { store = s })) in
      if migrate_db then exited else rest

  abbrev pub connected : ConfigurationData → Bool → World P.State → Option ℕ → Outcome P
  connected c migrate_db w none = connecting
  connected c migrate_db w (some n) = migrated c migrate_db w (M.migrate w.store)

  abbrev pub loaded : CommandLine → ℕ → World P.State → Result ConfigurationData → Outcome P
  loaded line attempts w (err e) = panicked "failed to setup the configuration" e
  loaded line attempts w (ok c) =
      let rest = connected c line.migrate_db w (connect attempts 0 M.open_database) in
      if line.print_config then exited else rest

  -- `attempts` bounds the loop that opens the database; main itself never gives up.
  unfoldable pub start : CommandLine → (attempts : ℕ) → World P.State → Outcome P
  start line attempts w = loaded line attempts w (
      new_configuration_data P.urls M.files (M.settings line.lookup_env config_file)
        (M.main_read config_file) config_file
        (config_file_from_flags line "osoClusterConfigFile" "F8_OSO_CLUSTER_CONFIG_FILE"))
    where
      config_file : String
      config_file = config_file_from_flags line "config" "F8_CONFIG_FILE_PATH"
