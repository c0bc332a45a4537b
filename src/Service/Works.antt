-- ===== src/Service/Works.antt =====
-- The functions that clusterService hands to ExecuteInTransaction, as the goroutine runs them:
-- statement by statement, through the repositories that they take once, at their beginning.
pub mod Laws
use fabric8_cluster.Common.{ℕ, zero, String, Bool, true, false, if◌then◌else◌, ◌==◌, nat_eq}
use fabric8_cluster.Errors.{
  Error, Result, ok, err, Reply, done, failed, DbError, record_not_found, driver, database,
}
use fabric8_cluster.Model.{Cluster, nil_uuid}
use fabric8_cluster.Platform.{Platform}
use fabric8_cluster.Exec.{World, Exec, pure, raise, handle, ◌>>=◌}
use fabric8_cluster.Repository.Normalize.{normalize}
use fabric8_cluster.Repository.Clusters
use fabric8_cluster.Repository.Identities
use fabric8_cluster.Service.Links.{not_linked}
use fabric8_cluster.Service.Sync.{delete_gone}
use fabric8_cluster.Transaction.Timeout.{Todo, statement, return_with}

-- Saving a cluster, deleting one, linking an identity, and taking its link away.
pub data ServiceWork : Type 0 where
  save : Cluster → ServiceWork
  drop : (cluster_id : ℕ) → ServiceWork
  link : (identity_id cluster_id : ℕ) → ServiceWork
  unlink : (identity_id : ℕ) → (cluster_url : String) → ServiceWork

module _ (P : Platform) where
  abbrev pub finished : {A : Type 0} → Reply A → Todo P.State
  finished (done a) = return_with (ok tt)
  finished (failed d) = return_with (err (database d))

  abbrev pub look_up : String → (Reply Cluster → Todo P.State) → Todo P.State
  look_up url = statement Cluster (λ s. (P.find_by_url s (P.urls.add_trailing_slash url), s))

  abbrev pub saving : Cluster → Result Cluster → Todo P.State
  saving existing (err e) = return_with (err e)
  saving existing (ok c) =
      statement Cluster
        (λ s. P.save_cluster s (record c {
          cluster_id = existing.cluster_id;
          created_at = existing.created_at;
          updated_at = existing.updated_at;
        }))
        finished

  abbrev pub inserting : Result Cluster → Todo P.State
  inserting (err e) = return_with (err e)
  inserting (ok c) = statement Cluster (λ s. P.insert_cluster s c) finished

  -- `uuid` is the one that `uuid.NewV4` gives if it is called.
  abbrev pub identified : (uuid : ℕ) → Cluster → Cluster
  identified uuid c = if c.cluster_id == nil_uuid then record c { cluster_id = uuid } else c

  abbrev pub after_look_up : (uuid : ℕ) → Cluster → Reply Cluster → Todo P.State
  after_look_up uuid c (done existing) = saving existing (normalize P.urls c)
  after_look_up uuid c (failed record_not_found) = inserting (normalize P.urls (identified uuid c))
  after_look_up uuid c (failed (driver m)) = return_with (err (database (driver m)))

  -- A cluster that is not there is no error, neither here nor below.
  abbrev pub row_deleted : Reply ℕ → Todo P.State
  row_deleted (failed d) = return_with (err (database d))
  row_deleted (done n) = return_with (ok tt)

  abbrev pub after_load : ℕ → Reply Cluster → Todo P.State
  after_load id (done c) = statement ℕ (λ s. P.delete_cluster s id) row_deleted
  after_load id (failed record_not_found) = return_with (ok tt)
  after_load id (failed (driver m)) = return_with (err (database (driver m)))

  abbrev pub linked_or : ℕ → ℕ → Reply Unit → Todo P.State
  linked_or x i (done u) = return_with (ok tt)
  linked_or x i (failed d) = return_with (err (not_linked P x i (database d)))

  abbrev pub no_row : ℕ → String → Reply Cluster → Todo P.State
  no_row x url (failed record_not_found) = return_with (err (Identities.no_cluster P url))
  no_row x url _ = return_with (err (Identities.no_link P x url))

  abbrev pub link_deleted : ℕ → String → Reply ℕ → Todo P.State
  link_deleted x url (failed d) = return_with (err (database d))
  link_deleted x url (done n) = if n == 0 then look_up url (no_row x url) else return_with (ok tt)

  -- `CreateOrSave`
  abbrev pub save_todo : (uuid : ℕ) → Cluster → Todo P.State
  save_todo uuid c = look_up c.url (after_look_up uuid c)

  -- `Delete` of a cluster
  abbrev pub drop_todo : ℕ → Todo P.State
  drop_todo id = statement Cluster (λ s. (P.find_by_id s id, s)) (after_load id)

  -- `Create` of a link
  abbrev pub link_todo : ℕ → ℕ → Todo P.State
  link_todo x i = statement Unit (λ s. P.insert_link s x i) (linked_or x i)

  -- `Delete` of a link
  abbrev pub unlink_todo : ℕ → String → Todo P.State
  unlink_todo x url = statement ℕ (λ s. P.delete_link s x url) (link_deleted x url)

  unfoldable pub todo_of : (uuid : ℕ) → ServiceWork → Todo P.State
  todo_of uuid (save c) = save_todo uuid c
  todo_of uuid (drop id) = drop_todo id
  todo_of uuid (link x i) = link_todo x i
  todo_of uuid (unlink x url) = unlink_todo x url

  abbrev pub save_method : Cluster → Exec P.State Unit
  save_method c = Clusters.create_or_save P c >>= λ r. pure tt

  abbrev pub link_method : ℕ → ℕ → Exec P.State Unit
  link_method x i = handle (Identities.create P x i) pure (λ e. raise (not_linked P x i e))

  -- The same works as methods of the repositories.
  unfoldable pub method_of : ServiceWork → Exec P.State Unit
  method_of (save c) = save_method c
  method_of (drop id) = delete_gone P id
  method_of (link x i) = link_method x i
  method_of (unlink x url) = Identities.delete P x url
