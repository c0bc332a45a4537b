-- ===== src/Repository/Identities.antt =====
-- GormIdentityClusterRepository of cluster/repository/identity_cluster.go.
pub mod Links
pub mod Raising
use fabric8_cluster.Common.{ℕ, String, ◌<>◌, Bool, true, false, List, [], ◌∷◌, map}
use fabric8_cluster.Common.{if◌then◌else◌, ◌==◌, nat_eq}
use fabric8_cluster.Errors.{
  Error, Reply, done, failed, record_not_found, driver, not_found_msg, database, is_not_found,
}
use fabric8_cluster.Model.{Cluster, IdentityCluster}
use fabric8_cluster.Platform.{Platform}
use fabric8_cluster.Exec.{World, Exec, pure, raise, handle, ◌>>=◌}
use fabric8_cluster.Repository.Clusters
use fabric8_cluster.Repository.Clusters.{found, written}

module _ (P : Platform) where
  abbrev M : Type 0 → Type 0
  M = Exec P.State

  unfoldable pub load : ℕ → ℕ → M IdentityCluster
  load identity_id cluster_id w = found missing (P.find_link w.store identity_id cluster_id) w
    where
      missing : Error
      missing = not_found_msg (
          "identity_cluster with identity ID "
          <> P.uuid_string identity_id
          <> " and cluster ID "
          <> P.uuid_string cluster_id
          <> " not found")

  clusters_of : List IdentityCluster → List Cluster
  clusters_of = map (λ l. l.cluster)

  rows : Reply (List IdentityCluster) → M (List Cluster)
  rows (done links) = pure (clusters_of links)
  rows (failed record_not_found) = pure []
  rows (failed e) = raise (database e)

  unfoldable pub list_clusters_for_identity : ℕ → M (List Cluster)
  unfolding rows clusters_of
  list_clusters_for_identity identity_id w = rows (P.find_links w.store identity_id) w

  unfoldable pub create : ℕ → ℕ → M Unit
  create identity_id cluster_id w = written w (P.insert_link w.store identity_id cluster_id)

  delete_rows : ℕ → String → M ℕ
  delete_rows identity_id cluster_url w = written w (P.delete_link w.store identity_id cluster_url)

  abbrev pub no_cluster : String → Error
  no_cluster cluster_url = not_found_msg (
      "nothing to delete: identity cluster not found (cluster with URL '" <> cluster_url
      <> "' not found)")

  abbrev pub no_link : ℕ → String → Error
  no_link identity_id cluster_url = not_found_msg (
      "nothing to delete: identity cluster not found (identity-id:'"
      <> P.uuid_string identity_id
      <> "', cluster-url:'"
      <> cluster_url
      <> "')")

  -- The error where no row was deleted: `FindByURL` only chooses its text.
  nothing_deleted : ℕ → String → M Unit
  nothing_deleted identity_id cluster_url =
      handle (Clusters.find_by_url P cluster_url) (λ _. raise (no_link identity_id cluster_url))
        (λ e.
          if is_not_found e
          then raise (no_cluster cluster_url)
          else raise (no_link identity_id cluster_url))

  unfoldable pub delete : ℕ → String → M Unit
  unfolding delete_rows nothing_deleted
  delete identity_id cluster_url = do
    n ← delete_rows identity_id cluster_url
    if n == 0 then nothing_deleted identity_id cluster_url else pure tt
