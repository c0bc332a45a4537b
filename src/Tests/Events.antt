-- ===== src/Tests/Events.antt =====
-- Events of the configuration at concrete files.
use fabric8_cluster.Common.{
  ◌≡◌, refl, is_blank, none, true, false, List, [], ◌∷◌, inl, nat_eq, string_eq,
}
use fabric8_cluster.Errors.{ok, err, text}
use fabric8_cluster.Model.{Cluster}
use fabric8_cluster.Transaction.{
  in_transaction, execute_in_transaction, begin_transaction, select, entered, end_transaction,
}
use fabric8_cluster.Platform.Memory.{memory, memory-IsLawful}
use fabric8_cluster.Platform.Memory.Laws.{reliable}
use fabric8_cluster.Repository.Normalize.{normalize, convert_api_url}
use fabric8_cluster.Repository.Clusters as Rows
use fabric8_cluster.Configuration.Keys.{parse_key, find, line, get_assigned_fields}
use fabric8_cluster.Configuration.Decoding.{decode_clusters, all_with_defaults, with_defaults}
use fabric8_cluster.Configuration.Files.{
  Files, Stat, ConfigurationData, read_from_json_file, init_cluster_config, check_cluster_config,
  all_missing, missing_keys, complained, complaint, by_url, assign,
}
use fabric8_cluster.Service.Sync.{
  create_or_save_cluster_from_config, save_all, keep_url, delete_all, delete_gone, from_config,
}
use fabric8_cluster.Service.Watcher.{Shared, changed, handle_event, reload_cluster_config, values}
use fabric8_cluster.Service.Watcher.Agreement.{IsOrder, Agrees, handle_event-Agrees}
use fabric8_cluster.Service.Watcher.Rejected.{missing-handle_event}
use fabric8_cluster.Tests.Data.{east}
use fabric8_cluster.Tests.Syncing.{both_world, both-IsClean}
use fabric8_cluster.Tests.Configured.{files, empty, filled, plain, keys}

-- `range` in the order of the list.
abbrev pub in_order : List Cluster → List Cluster
in_order cs = cs

pub in_order-IsOrder : IsOrder in_order
in_order-IsOrder = record { meets = λ cs c m. m; only = λ cs c m. m }

abbrev pub at_start : ConfigurationData
at_start = record empty { cluster_config_file_path = "/etc/oso-clusters.conf" }

abbrev before : Shared memory
before = record { config = at_start; world = both_world }

abbrev pub after_reload : ConfigurationData
after_reload = record filled { cluster_config_file_path = "/etc/oso-clusters.conf" }

reloads : reload_cluster_config files at_start ≡ (ok tt, after_reload)
unfolding reload_cluster_config init_cluster_config read_from_json_file check_cluster_config
    all_missing missing_keys complained by_url assign decode_clusters all_with_defaults
    with_defaults get_assigned_fields parse_key find line nat_eq string_eq
reloads = refl

syncs : (create_or_save_cluster_from_config memory (east ∷ []) both_world).0 ≡ ok tt
unfolding create_or_save_cluster_from_config save_all keep_url delete_all delete_gone from_config
    Rows.list Rows.delete Rows.load Rows.delete_found Rows.update Rows.create_or_save
    Rows.find_by_url Rows.create Rows.insert_normalized normalize convert_api_url is_blank
    in_transaction execute_in_transaction begin_transaction select entered end_transaction string_eq
    nat_eq
syncs = refl

handle_event-Agrees_example :
    Agrees memory (handle_event memory files in_order (changed true false) before)
handle_event-Agrees_example =
    handle_event-Agrees memory memory-IsLawful files in_order in_order-IsOrder true false before
      (record { clean = both-IsClean; idle = refl }) refl after_reload reloads syncs reliable

-- A file with a cluster that has no name, and what the loader says of it.
abbrev nameless : Cluster
nameless = record plain { name = "" }

abbrev bad_files : Files
bad_files = record files { read = λ path. inl (ok (nameless ∷ [], keys)) }

abbrev unnamed : Cluster
unnamed = record east { name = "" }

bad_read :
    read_from_json_file bad_files "" "/etc/oso-clusters.conf" "oso-clusters.conf"
    ≡ (ok (ok (nameless ∷ [], keys), none), "/etc/oso-clusters.conf")
unfolding read_from_json_file string_eq
bad_read = refl

bad_decoded : decode_clusters (ok (nameless ∷ [], keys)) ≡ ok (unnamed ∷ [])
unfolding decode_clusters all_with_defaults with_defaults get_assigned_fields parse_key find line
    nat_eq string_eq
bad_decoded = refl

bad_check :
    check_cluster_config (by_url (unnamed ∷ []) [])
    ≡ err (text "; key name is missing in cluster config")
unfolding check_cluster_config all_missing missing_keys complained complaint by_url assign string_eq
bad_check = refl

-- The rejected file becomes the configuration; the tables stay.
rejected :
    handle_event memory bad_files in_order (changed true false) before
    ≡ record before { config = record before.config { clusters = by_url (unnamed ∷ []) [] } }
unfolding handle_event reload_cluster_config init_cluster_config
rejected = rw (bad_read, bad_decoded, bad_check) refl

-- The file has gone; the built-in one has one cluster.
abbrev gone_files : Files
gone_files = record files {
  stat = λ path. Stat.missing;
  asset = λ name. ok (ok (plain ∷ [], keys));
}

built_in : decode_clusters (ok (plain ∷ [], keys)) ≡ ok (east ∷ [])
unfolding decode_clusters all_with_defaults with_defaults get_assigned_fields parse_key find line
    nat_eq string_eq
built_in = refl

good_check : check_cluster_config (by_url (east ∷ []) []) ≡ ok tt
unfolding check_cluster_config all_missing missing_keys complained by_url assign string_eq
good_check = refl

gone_syncs :
    (create_or_save_cluster_from_config memory
      (values in_order (reload_cluster_config gone_files at_start).1)
      both_world).0
    ≡ ok tt
unfolding reload_cluster_config init_cluster_config read_from_json_file check_cluster_config
    all_missing missing_keys complained by_url assign decode_clusters all_with_defaults
    with_defaults get_assigned_fields parse_key find line create_or_save_cluster_from_config
    save_all keep_url delete_all delete_gone from_config Rows.list Rows.delete Rows.load
    Rows.delete_found Rows.update Rows.create_or_save Rows.find_by_url Rows.create
    Rows.insert_normalized normalize convert_api_url is_blank in_transaction execute_in_transaction
    begin_transaction select entered end_transaction string_eq nat_eq
gone_syncs = refl

missing-handle_event_example :
    ((handle_event memory gone_files in_order (changed false true) before).config.clusters
      ≡ by_url (east ∷ []) [])
    × Agrees memory (handle_event memory gone_files in_order (changed false true) before)
missing-handle_event_example =
    missing-handle_event memory memory-IsLawful reliable gone_files in_order in_order-IsOrder false
      true before (record { clean = both-IsClean; idle = refl }) refl (ok (plain ∷ [], keys))
      (east ∷ []) refl refl built_in good_check gone_syncs
