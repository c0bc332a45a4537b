-- ===== src/Repository/Identities/Raising.antt =====
-- The errors of the list of clusters of an identity.
use fabric8_cluster.Common.{ℕ, List}
use fabric8_cluster.Errors.{Reply, done, failed, record_not_found, driver}
use fabric8_cluster.Model.{IdentityCluster}
use fabric8_cluster.Platform.{Platform}
use fabric8_cluster.Exec.Raising.{Failing, Raises}
use fabric8_cluster.Exec.Faults.{Server}
use fabric8_cluster.Repository.Identities.{list_clusters_for_identity, rows}

pub list_clusters_for_identity-Raises :
    (P : Platform) (identity_id : ℕ) → Raises Server (list_clusters_for_identity P identity_id)
unfolding list_clusters_for_identity rows
list_clusters_for_identity-Raises P identity_id w = listed (P.find_links w.store identity_id)
  where
    listed : (q : Reply (List IdentityCluster)) → Failing Server (rows P q w).0
    listed (done links) = tt
    listed (failed record_not_found) = tt
    listed (failed (driver m)) = tt
