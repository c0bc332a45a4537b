-- ===== src/Service/Sync.antt =====
-- clusterService.CreateOrSaveClusterFromConfig. The map of GetClusters is given by the list of its
-- values, in the order in which the loop happens to meet them.
pub mod Pending
pub mod Progress
pub mod Steps
pub mod Deletions
pub mod Outcome
pub mod Agreement
pub mod Contents
use fabric8_cluster.Common.{ℕ, String, Bool, Option, none, List, [], ◌∷◌}
use fabric8_cluster.Common.{if◌then◌else◌, ◌==◌, string_eq}
use fabric8_cluster.Errors.{is_not_found}
use fabric8_cluster.Model.{Cluster, nil_uuid}
use fabric8_cluster.Platform.{Platform}
use fabric8_cluster.Exec.{World, Exec, pure, raise, handle, ◌>>=◌, ◌>>◌}
use fabric8_cluster.Repository.Clusters
use fabric8_cluster.Transaction.{in_transaction}

-- The struct that is built from a cluster of the configuration: all but its id and time stamps.
unfoldable pub from_config : Cluster → Cluster
from_config c = record c { created_at = 0; updated_at = 0; cluster_id = nil_uuid }

module _ (P : Platform) where
  abbrev M : Type 0 → Type 0
  M = Exec P.State

  -- The inner loop, which takes the first cluster with the url off `toDelete`.
  unfoldable pub keep_url : String → List Cluster → List Cluster
  keep_url url [] = []
  keep_url url (c ∷ cs) =
      if P.urls.add_trailing_slash c.url == P.urls.add_trailing_slash url
      then cs
      else c ∷ keep_url url cs

  -- The loop over the configuration; the result is what is left of `toDelete`.
  unfoldable pub save_all : List Cluster → List Cluster → M (List Cluster)
  save_all [] to_delete = pure to_delete
  save_all (c ∷ cs) to_delete =
      in_transaction P (Clusters.create_or_save P (from_config c)) >>= λ _.
      save_all cs (keep_url c.url to_delete)

  -- The work of one deletion: a cluster that is not there is no error.
  unfoldable pub delete_gone : ℕ → M Unit
  delete_gone id =
      handle (Clusters.delete P id) pure (λ e. if is_not_found e then pure tt else raise e)

  -- The loop over what is left. An error of one deletion is overwritten by the next.
  unfoldable pub delete_all : List Cluster → M Unit
  delete_all [] = pure tt
  delete_all (c ∷ cs) =
      handle (in_transaction P (delete_gone c.cluster_id)) (λ _. delete_all cs) (λ _. delete_all cs)

  unfoldable pub create_or_save_cluster_from_config : List Cluster → M Unit
  create_or_save_cluster_from_config clusters = do
    to_delete ← Clusters.list P none
    left ← save_all clusters to_delete
    delete_all left
