-- ===== src/Repository/Clusters.antt =====
-- GormClusterRepository of cluster/repository/cluster_repository.go. A method that changes the
-- struct behind its argument returns the struct as it leaves it; after an error no caller reads it.
pub mod Lookup
pub mod Upsert
pub mod Deletion
pub mod Invariant
pub mod Raising
pub mod Working
use fabric8_cluster.Common.{ℕ, suc, String, ◌<>◌, Bool, true, false, Option, none, some, List, []}
use fabric8_cluster.Common.{if◌then◌else◌, ◌==◌, nat_eq}
use fabric8_cluster.Errors.{
  Error, Result, ok, err, Reply, done, failed, record_not_found, driver, not_found, not_found_msg,
  database, is_not_found,
}
use fabric8_cluster.Model.{Cluster, nil_uuid}
use fabric8_cluster.Platform.{Platform}
use fabric8_cluster.Exec.{World, Exec, pure, raise, handle, ◌>>=◌}
use fabric8_cluster.Repository.Normalize.{normalize}

-- `err == gorm.ErrRecordNotFound` gives one error, and any other failure is passed on.
abbrev pub found : {S A : Type 0} → Error → Reply A → Exec S A
found missing (done a) = pure a
found missing (failed record_not_found) = raise missing
found missing (failed e) = raise (database e)

-- A statement that writes: its reply, and the state that it leaves.
abbrev pub written : {S A : Type 0} → World S → Reply A × S → Result A × World S
written w (done a, s) = (ok a, record w { store = s })
written w (failed e, s) = (err (database e), record w { store = s })

module _ (P : Platform) where
  abbrev M : Type 0 → Type 0
  M = Exec P.State

  unfoldable pub load : ℕ → M Cluster
  load id w = found (not_found "cluster" (P.uuid_string id)) (P.find_by_id w.store id) w

  unfoldable pub find_by_url : String → M Cluster
  find_by_url url w =
      found (not_found_msg ("cluster with url '" <> url <> "' not found"))
        (P.find_by_url w.store (P.urls.add_trailing_slash url)) w

  -- `uuid.NewV4()`
  unfoldable pub draw_uuid : M ℕ
  draw_uuid w = (ok (P.new_v4 w.drawn), record w { drawn = suc w.drawn })

  abbrev normalized : Cluster → M Cluster
  normalized c w = (normalize P.urls c, w)

  -- `if c.ClusterID == uuid.Nil { c.ClusterID = uuid.NewV4() }`
  identify : Cluster → M Cluster
  unfolding draw_uuid
  identify c =
      if c.cluster_id == nil_uuid
      then (do id ← draw_uuid; pure (record c { cluster_id = id }))
      else pure c

  insert : Cluster → M Cluster
  insert c w = written w (P.insert_cluster w.store c)

  save_row : Cluster → M Cluster
  save_row c w = written w (P.save_cluster w.store c)

  -- The rest of `Create`.
  unfoldable pub insert_normalized : Cluster → M Cluster
  unfolding insert
  insert_normalized c = do c ← normalized c; insert c

  unfoldable pub create : Cluster → M Cluster
  unfolding identify
  create c = do c ← identify c; insert_normalized c

  unfoldable pub update : Cluster → Cluster → M Cluster
  unfolding save_row
  update existing c = do
    c ← normalized c
    save_row (record c {
      cluster_id = existing.cluster_id;
      created_at = existing.created_at;
      updated_at = existing.updated_at;
    })

  unfoldable pub save : Cluster → M Cluster
  save c = do existing ← load c.cluster_id; update existing c

  unfoldable pub create_or_save : Cluster → M Cluster
  create_or_save c =
      handle (find_by_url c.url) (λ existing. update existing c)
        (λ e. if is_not_found e then create c else raise e)

  -- `RowsAffected == 0`
  affected : ℕ → ℕ → M Unit
  affected id n = if n == 0 then raise (not_found "cluster" (P.uuid_string id)) else pure tt

  delete_row : ℕ → M ℕ
  delete_row id w = written w (P.delete_cluster w.store id)

  -- The rest of `Delete`.
  unfoldable pub delete_found : ℕ → M Unit
  unfolding affected delete_row
  delete_found id = do n ← delete_row id; affected id n

  unfoldable pub delete : ℕ → M Unit
  delete id = do to_delete ← load id; delete_found id

  -- `Query`, with the scopes that `List` makes: none, or `type = ?`.
  listed : Reply (List Cluster) → M (List Cluster)
  listed (done cs) = pure cs
  listed (failed record_not_found) = pure []
  listed (failed e) = raise (database e)

  unfoldable pub list : Option String → M (List Cluster)
  unfolding listed
  list cluster_type w = listed (P.find_all w.store cluster_type) w
