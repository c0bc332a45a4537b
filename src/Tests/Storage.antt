-- ===== src/Tests/Storage.antt =====
-- The repository and the transactions at concrete inputs.
use package.text.Mathlib.TextEquality.{eq_iff}
use fabric8_cluster.Common.{
  arith, ℕ, ◌≡◌, ◌≢◌, ◌⊎◌, refl, is_blank, some, none, true, false, [], ◌∷◌, if◌then◌else◌, ◌==◌,
  nat_eq, string_eq,
}
use fabric8_cluster.Errors.{ok, err, not_found, text, database, driver, failed}
use fabric8_cluster.Model.{Cluster, nil_uuid}
use fabric8_cluster.Exec.{World}
use fabric8_cluster.Transaction.{
  execute_in_transaction, begin_transaction, select, entered, end_transaction, returned,
}
use fabric8_cluster.Transaction.Atomicity.{execute_in_transaction_ok, execute_in_transaction_err}
use fabric8_cluster.Transaction.Leaving.{RefusesLevel}
use fabric8_cluster.Platform.{Platform}
use fabric8_cluster.Platform.Memory.{memory, memory-IsLawful}
use fabric8_cluster.Platform.Memory.Laws.{reading, writing}
use fabric8_cluster.Platform.Memory.Texts.{web, web-IsLawful}
use fabric8_cluster.Platform.Memory.Rows.{Log, put, drop}
use fabric8_cluster.Repository.Normalize.{normalize, convert_api_url}
use fabric8_cluster.Repository.Normalize.Laws.{normalize_idem}
use fabric8_cluster.Repository.Clusters.Deletion.{Removes, delete-Removes}
use fabric8_cluster.Repository.Clusters.{
  create_or_save, delete, load, find_by_url, create, insert_normalized, delete_found,
}
use fabric8_cluster.Repository.Clusters.Upsert.{Puts, create_or_save_ok}
use fabric8_cluster.Repository.Clusters.Invariant.{IsClean}
use fabric8_cluster.Tests.Data.{
  east, east_normal, east_row, west_row, world, empty_log, east_log, linked_log, write_west,
  write_and_fail,
}

normalize-east : normalize web east ≡ ok east_normal
unfolding normalize convert_api_url is_blank string_eq nat_eq
normalize-east = refl

normalize_idem_example : normalize web east_normal ≡ ok east_normal
normalize_idem_example = normalize_idem web web-IsLawful east east_normal normalize-east

abbrev saved_world : World Log
saved_world = record (world east_log) { drawn = 1 }

save_east : create_or_save memory east (world empty_log) ≡ (ok east_row, saved_world)
unfolding create_or_save find_by_url create insert_normalized normalize convert_api_url is_blank
    string_eq nat_eq
save_east = refl

create_or_save_ok_example :
    Puts memory empty_log east_log east east_row
    × (((old : Cluster) × (memory.row empty_log 1 ≡ some old)
          × (old.url ≡ memory.urls.add_trailing_slash east.url)
          × (east_row.created_at ≡ old.created_at))
        ⊎ ((memory.row empty_log 1 ≡ none)
            × (1 ≡ (if east.cluster_id == nil_uuid then memory.new_v4 0 else east.cluster_id))
            × ((i : ℕ) (d : Cluster)
                → memory.row empty_log i ≡ some d
                → d.url ≢ memory.urls.add_trailing_slash east.url)))
create_or_save_ok_example =
    create_or_save_ok memory reading writing east east_row (world empty_log) saved_world save_east

-- The row's id is taken by another row.
save_clash :
    create_or_save memory (record east { cluster_id = 9 }) (world (put west_row ∷ []))
    ≡ (err (database (driver "duplicate key or blank column")), world (put west_row ∷ []))
unfolding create_or_save find_by_url create insert_normalized normalize convert_api_url is_blank
    string_eq nat_eq
save_clash = refl

empty-IsClean : IsClean memory empty_log
empty-IsClean = record { no_nil = refl; normal = λ i c e. absurd (cc) }

delete_east : delete memory 1 (world linked_log) ≡ (ok tt, world (drop 1 ∷ linked_log))
unfolding delete load delete_found string_eq nat_eq
delete_east = refl

delete_missing :
    delete memory 9 (world linked_log) ≡ (err (not_found "cluster" "uuid"), world linked_log)
unfolding delete load delete_found string_eq nat_eq
delete_missing = refl

no_nil : memory.row linked_log nil_uuid ≡ none
unfolding create_or_save find_by_url create insert_normalized normalize convert_api_url is_blank
    string_eq nat_eq
no_nil = refl

delete_saved :
    delete memory 1 saved_world ≡ (ok tt, record saved_world { store = drop 1 ∷ east_log })
unfolding delete load delete_found string_eq nat_eq
delete_saved = refl

write_fails :
    execute_in_transaction memory write_and_fail (world east_log)
    ≡ (returned (err (text "failed")), world east_log)
unfolding execute_in_transaction begin_transaction select entered end_transaction string_eq
write_fails = refl

execute_in_transaction_err_example : (east_log ≡ east_log) × (false ≡ false)
execute_in_transaction_err_example =
    execute_in_transaction_err memory memory-IsLawful write_and_fail (world east_log)
      (world east_log) (text "failed") refl write_fails

write_works :
    execute_in_transaction memory write_west (world east_log)
    ≡ (returned (ok tt), world (put west_row ∷ east_log))
unfolding execute_in_transaction begin_transaction select entered end_transaction string_eq
write_works = refl

delete-Removes_example : Removes memory linked_log (drop 1 ∷ linked_log) 1
delete-Removes_example =
    delete-Removes memory memory-IsLawful 1 (world linked_log) (world (drop 1 ∷ linked_log)) no_nil
      delete_east

execute_in_transaction_ok_example :
    ((write_west (record (world east_log) { in_transaction = true })).0 ≡ returned (ok tt))
    × ((put west_row ∷ east_log) ≡ (memory.commit east_log (put west_row ∷ east_log)).1)
    × ◌≡◌ {A = ℕ} 0 0
    × (memory.expires east_log (put west_row ∷ east_log) ≡ false)
execute_in_transaction_ok_example =
    execute_in_transaction_ok memory memory-IsLawful write_west (world east_log)
      (world (put west_row ∷ east_log)) tt refl write_works

-- A database that refuses every isolation level.
abbrev refusing : Platform
refusing = record memory {
  db = record memory.db { set_isolation = λ s l. failed (driver "refused") };
}

abbrev serialized : World Log
serialized = record (world east_log) { isolation = "SERIALIZABLE" }

refused : RefusesLevel refusing serialized
refused = record {
  outside = refl;
  level_set = ground (arith, eq_iff "SERIALIZABLE" "");
  begins = refl;
  refusal = driver "refused";
  refuses = refl;
}
