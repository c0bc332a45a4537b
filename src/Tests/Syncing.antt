-- ===== src/Tests/Syncing.antt =====
-- The synchronization with the configuration at a concrete configuration.
use fabric8_cluster.Common.{inl, ◌≡◌, refl, is_blank, [], ◌∷◌, Among, nat_eq, string_eq}
use fabric8_cluster.Errors.{ok}
use fabric8_cluster.Model.{Cluster}
use fabric8_cluster.Exec.{World}
use fabric8_cluster.Transaction.{
  in_transaction, execute_in_transaction, begin_transaction, select, entered, end_transaction,
}
use fabric8_cluster.Platform.Memory.{memory, memory-IsLawful}
use fabric8_cluster.Platform.Memory.Laws.{reliable}
use fabric8_cluster.Platform.Memory.Rows.{Log, put, drop}
use fabric8_cluster.Repository.Normalize.{normalize, convert_api_url}
use fabric8_cluster.Repository.Clusters as Rows
use fabric8_cluster.Repository.Clusters.Invariant.{IsClean, create_or_save-IsClean}
use fabric8_cluster.Service.Sync.{
  create_or_save_cluster_from_config, save_all, keep_url, delete_all, delete_gone, from_config,
}
use fabric8_cluster.Service.Sync.Contents.{Holds, config_held}
use fabric8_cluster.Service.Sync.Agreement.{config_only}
use fabric8_cluster.Tests.Data.{east, east_row, west_row, world, empty_log, east_log}

-- The rows of `west`, which goes, and of `east`, which stays and changes its name.
abbrev pub renamed : Cluster
renamed = record east { name = "renamed" }

abbrev pub renamed_row : Cluster
renamed_row = record east_row { name = "renamed"; updated_at = 2 }

abbrev pub west : Cluster
west = record west_row { cluster_id = 9 }

abbrev pub both : Log
both = put (record west_row { created_at = 1; updated_at = 1 }) ∷ east_log

abbrev pub one_left : World Log
one_left = record (world (drop 9 ∷ put renamed_row ∷ both)) { drawn = 1 }

abbrev pub both_world : World Log
both_world = record (world both) { drawn = 1 }

abbrev pub east_world : World Log
east_world = record (world east_log) { drawn = 1 }

save_east : Rows.create_or_save memory east (world empty_log) ≡ (ok east_row, east_world)
unfolding Rows.create_or_save Rows.find_by_url Rows.create Rows.insert_normalized normalize
    convert_api_url is_blank string_eq nat_eq
save_east = refl

save_west : Rows.create_or_save memory west east_world ≡ (ok west_row, both_world)
unfolding Rows.create_or_save Rows.find_by_url Rows.create Rows.insert_normalized normalize
    convert_api_url is_blank string_eq nat_eq
save_west = refl

pub east-IsClean : IsClean memory east_log
east-IsClean =
    create_or_save-IsClean memory memory-IsLawful east (world empty_log) (ok east_row) east_world
      save_east (record { no_nil = refl; normal = λ i c e. absurd (cc) })

pub both-IsClean : IsClean memory both
both-IsClean =
    create_or_save-IsClean memory memory-IsLawful west east_world (ok west_row) both_world save_west
      east-IsClean

pub sync_renamed :
    create_or_save_cluster_from_config memory (renamed ∷ []) both_world ≡ (ok tt, one_left)
unfolding create_or_save_cluster_from_config save_all keep_url delete_all delete_gone from_config
    Rows.list Rows.delete Rows.load Rows.delete_found Rows.update Rows.create_or_save
    Rows.find_by_url Rows.create Rows.insert_normalized normalize convert_api_url is_blank
    in_transaction execute_in_transaction begin_transaction select entered end_transaction string_eq
    nat_eq
sync_renamed = refl

config_only_example :
    (c : Cluster) × Among c (renamed ∷ [])
    × (renamed_row.url ≡ memory.urls.add_trailing_slash c.url)
unfolding nat_eq string_eq
config_only_example =
    config_only memory memory-IsLawful reliable.durable (renamed ∷ []) both_world one_left refl
      both-IsClean reliable sync_renamed 1 renamed_row refl

config_held_example : Holds memory one_left.store renamed
config_held_example =
    config_held memory memory-IsLawful reliable.durable (renamed ∷ []) both_world one_left refl
      both-IsClean sync_renamed renamed (inl (refl, λ d m. absurd m))
