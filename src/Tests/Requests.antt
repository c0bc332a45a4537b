-- ===== src/Tests/Requests.antt =====
-- The requests of the service at concrete inputs.
use fabric8_cluster.Common.{
  ℕ, ◌≡◌, ◌≢◌, ◌↔◌, refl, is_blank, some, none, true, false, [], ◌∷◌, All, nat_eq, string_eq,
}
use fabric8_cluster.Errors.{ok, err, unauthorized}
use fabric8_cluster.Model.{Cluster}
use fabric8_cluster.Exec.{World}
use fabric8_cluster.Transaction.{
  in_transaction, execute_in_transaction, begin_transaction, select, entered, end_transaction,
}
use fabric8_cluster.Platform.{auth, tenant, tool_chain_operator}
use fabric8_cluster.Platform.Memory.{memory, memory-IsLawful}
use fabric8_cluster.Platform.Memory.Laws.{reliable}
use fabric8_cluster.Platform.Memory.Texts.{web}
use fabric8_cluster.Platform.Memory.Rows.{Log, unlink}
use fabric8_cluster.Repository.Normalize.{normalize, convert_api_url}
use fabric8_cluster.Repository.Clusters as Rows
use fabric8_cluster.Repository.Clusters.Upsert.{Puts}
use fabric8_cluster.Repository.Clusters.Invariant.{IsClean, create_or_save-IsClean}
use fabric8_cluster.Repository.Identities as Links
use fabric8_cluster.Repository.Identities.Links.{Sets}
use fabric8_cluster.Service.Validation.{
  check, validate_url, check_url, check_optional_url, check_given, check_type,
}
use fabric8_cluster.Service.Validation.Laws.{IsValid, check_iff}
use fabric8_cluster.Service.Clusters.{
  validate, create_or_save_cluster, load, load_for_auth, find_by_url, find_by_url_for_auth, list,
  list_for_auth,
}
use fabric8_cluster.Service.Clusters.Secrets.{
  HasNoSecrets, Shows, reads-HasNoSecrets, IsHidden, AreHidden, Alike, reads-Alike,
}
use fabric8_cluster.Service.Clusters.Saving.{create_or_save_cluster_ok}
use fabric8_cluster.Service.Links.{
  link_identity_to_cluster, remove_identity_to_cluster_link, link_found, create_identity_cluster,
}
use fabric8_cluster.Service.Links.Linking.{
  Joins, link_identity_to_cluster_ok, remove_identity_to_cluster_link_ok,
}
use fabric8_cluster.Service.Links.RoundTrip.{link-remove, link-remove_unslashed}
use fabric8_cluster.Tests.Data.{east, east_row, world, empty_log, east_log, linked_log}

check_iff_example : (check web east ≡ ok tt) ↔ IsValid web east
check_iff_example = check_iff web east

reads-HasNoSecrets_example :
    Shows HasNoSecrets (load memory tenant 1 (world east_log)).0
    × Shows HasNoSecrets (find_by_url memory tenant "https://api.east.com" (world east_log)).0
    × Shows (All HasNoSecrets) (list memory tenant none (world east_log)).0
reads-HasNoSecrets_example =
    reads-HasNoSecrets memory tenant (world east_log) 1 "https://api.east.com" none

reads-Alike_example :
    Alike IsHidden
      (load_for_auth memory auth 1 (world east_log))
      (load memory tenant 1 (world east_log))
    × Alike IsHidden
        (find_by_url_for_auth memory auth "https://api.east.com" (world east_log))
        (find_by_url memory tenant "https://api.east.com" (world east_log))
    × Alike AreHidden
        (list_for_auth memory auth none (world east_log))
        (list memory tenant none (world east_log))
unfolding nat_eq
reads-Alike_example =
    reads-Alike memory tenant (world east_log) refl auth refl 1 "https://api.east.com" none

abbrev saved_world : World Log
saved_world = record (world east_log) { drawn = 1 }

save_east :
    create_or_save_cluster memory tool_chain_operator east (world empty_log)
    ≡ (ok east_row, saved_world)
unfolding in_transaction execute_in_transaction begin_transaction select entered end_transaction
    string_eq nat_eq validate check check_url check_optional_url check_given check_type validate_url
    Rows.create_or_save Rows.find_by_url Rows.create Rows.insert_normalized normalize
    convert_api_url is_blank create_or_save_cluster
save_east = refl

create_or_save_cluster_ok_example :
    (memory.is_specific_service_account tool_chain_operator (tool_chain_operator ∷ []) ≡ true)
    × IsValid web east
    × Puts memory empty_log east_log (record east { token_provider_id = "provider" }) east_row
create_or_save_cluster_ok_example =
    create_or_save_cluster_ok memory memory-IsLawful tool_chain_operator east (world empty_log)
      saved_world refl east_row reliable.durable save_east

save_refused :
    create_or_save_cluster memory tenant east (world east_log)
    ≡ (err (unauthorized "unauthorized access to cluster info"), world east_log)
unfolding create_or_save_cluster nat_eq
save_refused = refl

link_east :
    link_identity_to_cluster memory auth 7 "https://api.east.com" false (world east_log)
    ≡ (ok tt, world linked_log)
unfolding link_identity_to_cluster link_found create_identity_cluster validate_url Rows.find_by_url
    Links.create Links.load in_transaction execute_in_transaction begin_transaction select entered
    end_transaction string_eq nat_eq
link_east = refl

link_identity_to_cluster_ok_example :
    (c : Cluster) × (memory.row east_log c.cluster_id ≡ some c)
    × (c.url ≡ memory.urls.add_trailing_slash "https://api.east.com")
    × Joins memory east_log linked_log 7 c.cluster_id
    × (false ≡ false → memory.linked east_log 7 c.cluster_id ≡ false)
    × (memory.is_specific_service_account auth (auth ∷ []) ≡ true)
link_identity_to_cluster_ok_example =
    link_identity_to_cluster_ok memory memory-IsLawful auth 7 "https://api.east.com"
      (world east_log) (world linked_log) refl reliable.durable false link_east

link_refused :
    link_identity_to_cluster memory tenant 7 "https://api.east.com" true (world east_log) ≡ (
      err (unauthorized "account not authorized to create identity cluster relationship"),
      world east_log,
    )
unfolding link_identity_to_cluster link_found create_identity_cluster validate_url Rows.find_by_url
    Links.create Links.load in_transaction execute_in_transaction begin_transaction select entered
    end_transaction string_eq nat_eq
link_refused = refl

abbrev unlinked_log : Log
unlinked_log = unlink 7 1 ∷ linked_log

remove_east :
    remove_identity_to_cluster_link memory auth 7 "https://api.east.com/" (world linked_log)
    ≡ (ok tt, world unlinked_log)
unfolding remove_identity_to_cluster_link validate_url Links.delete Rows.find_by_url in_transaction
    execute_in_transaction begin_transaction select entered end_transaction string_eq nat_eq
remove_east = refl

remove_identity_to_cluster_link_ok_example :
    (i : ℕ) × (c : Cluster) × (memory.row linked_log i ≡ some c)
    × (c.url ≡ "https://api.east.com/")
    × (memory.linked linked_log 7 i ≡ true)
    × Sets memory linked_log unlinked_log 7 i false
    × (memory.is_specific_service_account auth (auth ∷ []) ≡ true)
remove_identity_to_cluster_link_ok_example =
    remove_identity_to_cluster_link_ok memory memory-IsLawful auth 7 "https://api.east.com/"
      (world linked_log) (world unlinked_log) refl reliable.durable remove_east

remove_refused :
    remove_identity_to_cluster_link memory tenant 7 "https://api.east.com/" (world linked_log) ≡ (
      err (unauthorized "account not authorized to remove identity cluster relationship"),
      world linked_log,
    )
unfolding remove_identity_to_cluster_link validate_url Links.delete Rows.find_by_url in_transaction
    execute_in_transaction begin_transaction select entered end_transaction string_eq nat_eq
remove_refused = refl

link_slashed :
    link_identity_to_cluster memory auth 7 "https://api.east.com/" false (world east_log)
    ≡ (ok tt, world linked_log)
unfolding link_identity_to_cluster link_found create_identity_cluster validate_url Rows.find_by_url
    Links.create Links.load in_transaction execute_in_transaction begin_transaction select entered
    end_transaction string_eq nat_eq
link_slashed = refl

save_row : Rows.create_or_save memory east (world empty_log) ≡ (ok east_row, saved_world)
unfolding Rows.create_or_save Rows.find_by_url Rows.create Rows.insert_normalized normalize
    convert_api_url is_blank nat_eq string_eq
save_row = refl

east-IsClean : IsClean memory east_log
east-IsClean =
    create_or_save-IsClean memory memory-IsLawful east (world empty_log) (ok east_row) saved_world
      save_row (record { no_nil = refl; normal = λ i c e. absurd (cc) })

link-remove_example :
    ((j : ℕ) → memory.row unlinked_log j ≡ memory.row east_log j)
    × ((y j : ℕ) → memory.linked unlinked_log y j ≡ memory.linked east_log y j)
link-remove_example =
    link-remove memory memory-IsLawful reliable.durable auth auth 7 "https://api.east.com/"
      (world east_log) (world linked_log) (world unlinked_log) refl refl east-IsClean link_slashed
      remove_east

abbrev no_link : World Log
no_link = world linked_log

link-remove_unslashed_example :
    (c : Cluster) × (c.url ≡ memory.urls.add_trailing_slash "https://api.east.com")
    × (memory.row
          (remove_identity_to_cluster_link memory auth 7 "https://api.east.com"
            (world linked_log)).1.store
          c.cluster_id
        ≡ some c)
    × (memory.linked
          (remove_identity_to_cluster_link memory auth 7 "https://api.east.com"
            (world linked_log)).1.store
          7
          c.cluster_id
        ≡ true)
    × ((remove_identity_to_cluster_link memory auth 7 "https://api.east.com" (world linked_log)).0
        ≢ ok tt)
unfolding nat_eq
link-remove_unslashed_example =
    link-remove_unslashed memory memory-IsLawful reliable.durable auth auth 7 "https://api.east.com"
      (world east_log) (world linked_log)
      (remove_identity_to_cluster_link memory auth 7 "https://api.east.com" (world linked_log)).1
      refl refl east-IsClean false
      (remove_identity_to_cluster_link memory auth 7 "https://api.east.com" (world linked_log)).0
      (cc) link_east refl
