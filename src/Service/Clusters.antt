-- ===== src/Service/Clusters.antt =====
-- The methods of clusterService that create, load, find, list and delete clusters.
pub mod Secrets
pub mod Saving
pub mod Working
use fabric8_cluster.Common.{ℕ, String, ◌<>◌, Bool, Option, none, some, List, [], ◌∷◌, map}
use fabric8_cluster.Common.{if◌then◌else◌, ◌==◌, nat_eq, is_blank, false}
use fabric8_cluster.Errors.{Error, Result, bad_parameter, unauthorized, wrapped, is_not_found}
use fabric8_cluster.Model.{Cluster}
use fabric8_cluster.Platform.{
  Platform, Account, auth, oso_proxy, tenant, jenkins_idler, jenkins_proxy, tool_chain_operator,
}
use fabric8_cluster.Exec.{World, Exec, pure, raise, handle, ◌>>=◌, ◌>>◌}
use fabric8_cluster.Repository.Clusters
use fabric8_cluster.Transaction.{in_transaction}
use fabric8_cluster.Service.Validation.{validate_url, check}

-- The accounts that may read clusters without their secrets.
abbrev pub readers : List Account
readers = oso_proxy ∷ tenant ∷ jenkins_idler ∷ jenkins_proxy ∷ auth ∷ []

-- "hide all sensitive info"
unfoldable pub hide : Cluster → Cluster
hide c = record c {
  sa_token = "";
  sa_username = "";
  sa_token_encrypted = false;
  token_provider_id = "";
  auth_client_id = "";
  auth_client_secret = "";
  auth_default_scope = "";
}

module _ (P : Platform) where
  abbrev M : Type 0 → Type 0
  M = Exec P.State

  -- `if !auth.IsSpecificServiceAccount(ctx, …) { return unauthorized }`
  abbrev pub guarded : {A : Type 0} → P.Context → List Account → String → M A → M A
  guarded ctx names message m =
      if P.is_specific_service_account ctx names then m else raise (unauthorized message)

  -- The end of `validate`: a blank token provider is filled in, from the row with the cluster's
  -- url or else with a new id.
  unfoldable pub complete : Cluster → M Cluster
  complete c =
      handle (Clusters.find_by_url P c.url)
        (λ existing. pure (record c { token_provider_id = existing.token_provider_id }))
        (λ e.
          if is_not_found e
          then (do
            id ← Clusters.draw_uuid P
            pure (record c { cluster_id = id; token_provider_id = P.uuid_string id }))
          else raise (wrapped e "unable to validate cluster"))

  unfoldable pub validate : Cluster → M Cluster
  validate c = do
    (λ w. (check P.urls c, w))
    if is_blank c.token_provider_id then complete c else pure c

  unfoldable pub create_or_save_cluster : P.Context → Cluster → M Cluster
  create_or_save_cluster ctx c =
      guarded ctx (tool_chain_operator ∷ []) "unauthorized access to cluster info" (
        handle (validate c) (λ c'. in_transaction P (Clusters.create_or_save P c'))
          (λ e. raise (wrapped e ("failed to create or save cluster named '" <> c.name <> "'"))))

  unfoldable pub load : P.Context → ℕ → M Cluster
  load ctx id =
      guarded ctx readers "unauthorized access to cluster info"
        (do result ← Clusters.load P id; pure (hide result))

  unfoldable pub load_for_auth : P.Context → ℕ → M Cluster
  load_for_auth ctx id =
      guarded ctx (auth ∷ []) "unauthorized access to cluster info" (Clusters.load P id)

  unfoldable pub find_valid : String → Option String → M Cluster
  find_valid url none = Clusters.find_by_url P url
  find_valid url (some m) = raise (bad_parameter "cluster-url" url)

  -- `findByURL`
  unfoldable pub find : String → M Cluster
  unfolding find_valid
  find url = find_valid url (validate_url P.urls url)

  unfoldable pub find_by_url : P.Context → String → M Cluster
  find_by_url ctx url =
      guarded ctx readers "unauthorized access to cluster info"
        (do result ← find url; pure (hide result))

  unfoldable pub find_by_url_for_auth : P.Context → String → M Cluster
  find_by_url_for_auth ctx url =
      guarded ctx (auth ∷ []) "unauthorized access to cluster info" (find url)

  unfoldable pub delete : P.Context → ℕ → M Unit
  delete ctx id =
      guarded ctx (tool_chain_operator ∷ []) "unauthorized access to delete a cluster configuration"
        (Clusters.delete P id)

  unfoldable pub list : P.Context → Option String → M (List Cluster)
  list ctx cluster_type =
      guarded ctx readers "unauthorized access to clusters info"
        (do clusters ← Clusters.list P cluster_type; pure (map hide clusters))

  unfoldable pub list_for_auth : P.Context → Option String → M (List Cluster)
  list_for_auth ctx cluster_type =
      guarded ctx (auth ∷ []) "unauthorized access to clusters info" (Clusters.list P cluster_type)
