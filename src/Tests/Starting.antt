-- ===== src/Tests/Starting.antt =====
-- The start of the service on a concrete machine.
use fabric8_cluster.Common.{
  ℕ, ◌≡◌, ◌<◌, ◌==◌, if◌then◌else◌, refl, is_blank, some, none, false, subst, arith, nat_eq,
  string_eq,
}
use fabric8_cluster.Errors.{Error, ok, err, text}
use fabric8_cluster.Transaction.{
  in_transaction, execute_in_transaction, begin_transaction, select, entered, end_transaction,
}
use fabric8_cluster.Platform.Memory.{memory, memory-IsLawful}
use fabric8_cluster.Platform.Memory.Laws.{reliable}
use fabric8_cluster.Platform.Memory.Texts.{web}
use fabric8_cluster.Repository.Normalize.{normalize, convert_api_url}
use fabric8_cluster.Repository.Clusters as Rows
use fabric8_cluster.Repository.Clusters.Invariant.{IsClean}
use fabric8_cluster.Configuration.Keys.{parse_key, find, line, get_assigned_fields}
use fabric8_cluster.Configuration.Decoding.{decode_clusters, all_with_defaults, with_defaults}
use fabric8_cluster.Configuration.Files.{
  append_default_config_error_message, ConfigurationData, read_from_json_file, init_cluster_config,
  check_cluster_config, all_missing, missing_keys, complained, by_url, assign,
}
use fabric8_cluster.Configuration.Settings.{
  new_configuration_data, check_defaults, validate_service_url, get_auth_service_url,
  get_cluster_service_url,
}
use fabric8_cluster.Configuration.Settings.Laws.{IsLoaded, new_configuration_data-IsLoaded}
use fabric8_cluster.Service.Sync.{
  create_or_save_cluster_from_config, save_all, keep_url, delete_all, delete_gone, from_config,
}
use fabric8_cluster.Service.Watcher.{Shared, initialize_cluster_watcher}
use fabric8_cluster.Startup.{CommandLine, Machine, start, config_file_from_flags, listening}
use fabric8_cluster.Startup.Connecting.{start-listens, first_sync}
use fabric8_cluster.Startup.Safety.{IsReady, start-IsReady}
use fabric8_cluster.Tests.Data.{world, empty_log}
use fabric8_cluster.Tests.Configured.{filled, files, production}
use fabric8_cluster.Tests.Events.{in_order, in_order-IsOrder}

-- The database is not up at the first attempt.
abbrev machine : Machine memory
machine = record {
  files = files;
  settings = λ lookup_env main_config_file. production;
  main_read = λ path. none;
  open_database = λ n. if n == 0 then err (text "refused") else ok tt;
  migrate = λ s. ok s;
  order = in_order;
  new_watcher = ok tt;
  watch = λ path. ok tt;
  token_manager = ok tt;
}

-- The path comes from the environment.
abbrev command : CommandLine
command = record {
  switch = λ s. none;
  print_config = false;
  migrate_db = false;
  lookup_env =
      λ v. if v == "F8_OSO_CLUSTER_CONFIG_FILE" then some "/etc/oso-clusters.conf" else none;
}

-- Not the default path, and the service notes it.
abbrev configured : ConfigurationData
configured = record filled {
  cluster_config_file_path = "/etc/oso-clusters.conf";
  default_configuration_error = some "/etc/fabric8/oso-clusters.conf is not used";
}

loads : new_configuration_data web files production none "" "/etc/oso-clusters.conf" ≡ ok configured
unfolding new_configuration_data init_cluster_config read_from_json_file check_cluster_config
    all_missing missing_keys complained by_url assign decode_clusters all_with_defaults
    with_defaults get_assigned_fields parse_key find line nat_eq string_eq check_defaults
    validate_service_url get_auth_service_url get_cluster_service_url
    append_default_config_error_message
loads = refl

new_configuration_data-IsLoaded_example : IsLoaded configured
new_configuration_data-IsLoaded_example =
    new_configuration_data-IsLoaded web files production none "" "/etc/oso-clusters.conf" configured
      loads

first_syncs : (first_sync memory machine command (world empty_log) configured empty_log).0 ≡ ok tt
unfolding create_or_save_cluster_from_config save_all keep_url delete_all delete_gone from_config
    Rows.list Rows.delete Rows.load Rows.delete_found Rows.update Rows.create_or_save
    Rows.find_by_url Rows.create Rows.insert_normalized normalize convert_api_url is_blank
    in_transaction execute_in_transaction begin_transaction select entered end_transaction string_eq
    nat_eq
first_syncs = refl

refused : (j : ℕ) → j < 1 → (e : Error) × (machine.open_database j ≡ err e)
refused j less = let first : j ≡ 0 = omega arith in (text "refused", ground (arith, first))

abbrev served : Shared memory
served = record {
  config = configured;
  world = (first_sync memory machine command (world empty_log) configured empty_log).1;
}

start-listens_example : start memory machine command 2 (world empty_log) ≡ listening served
unfolding nat_eq string_eq config_file_from_flags initialize_cluster_watcher
start-listens_example =
    start-listens memory machine command (world empty_log) configured empty_log 1 0 loads refl refl
      refused refl refl first_syncs refl refl

empty-IsClean : IsClean memory empty_log
empty-IsClean = record { no_nil = refl; normal = λ i c e. absurd (cc) }

listens : start memory machine command 2 (world empty_log) ≡ listening served
unfolding nat_eq string_eq config_file_from_flags initialize_cluster_watcher
listens =
    start-listens memory machine command (world empty_log) configured empty_log 1 0 loads refl refl
      refused refl refl first_syncs refl refl

start-IsReady_example : IsReady memory served
start-IsReady_example =
    start-IsReady memory memory-IsLawful reliable machine in_order-IsOrder served command 2
      (world empty_log) refl
      (λ t e. let same : empty_log ≡ t = cc in subst (IsClean memory) same empty-IsClean) listens
