-- ===== src/Controller/Users.antt =====
-- UserController of controller/user.go.
use fabric8_cluster.Common.{ℕ, map, List}
use fabric8_cluster.Errors.{Result, ok, err}
use fabric8_cluster.Platform.{Platform}
use fabric8_cluster.Repository.Identities
use fabric8_cluster.Controller.Data.{
  replied, error_response, Handler, respond, ClusterData, convert_to_cluster_data,
}

-- `located` is the result of `auth.LocateIdentity`.
unfoldable pub clusters : (P : Platform) → Result ℕ → Handler P.State (List ClusterData)
clusters P (err e) w = (error_response e, w)
clusters P (ok identity_id) w =
    respond (λ cs. replied (map (convert_to_cluster_data P.urls) cs)) error_response
      (Identities.list_clusters_for_identity P identity_id w)
