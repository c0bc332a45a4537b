-- ===== src/Service/Links.antt =====
-- The methods of clusterService that link identities to clusters.
pub mod Linking
pub mod RoundTrip
use fabric8_cluster.Common.{ℕ, String, ◌<>◌, Bool, Option, none, some, [], ◌∷◌, if◌then◌else◌}
use fabric8_cluster.Errors.{Error, bad_parameter_msg, internal_msg, is_not_found}
use fabric8_cluster.Platform.{Platform, auth}
use fabric8_cluster.Exec.{World, Exec, pure, raise, handle, ◌>>=◌}
use fabric8_cluster.Repository.Clusters
use fabric8_cluster.Repository.Identities
use fabric8_cluster.Transaction.{in_transaction}
use fabric8_cluster.Service.Validation.{validate_url}
use fabric8_cluster.Service.Clusters.{guarded}

module _ (P : Platform) where
  abbrev M : Type 0 → Type 0
  M = Exec P.State

  abbrev pub not_linked : ℕ → ℕ → Error → Error
  not_linked identity_id cluster_id e = internal_msg (
      "failed to link identity '"
      <> P.uuid_string identity_id
      <> "' with cluster '"
      <> P.uuid_string cluster_id
      <> "': "
      <> P.error_text e)

  -- `createIdentityCluster`
  unfoldable pub create_identity_cluster : ℕ → ℕ → M Unit
  create_identity_cluster identity_id cluster_id = in_transaction P (
      handle (Identities.create P identity_id cluster_id) pure
        (λ e. raise (not_linked identity_id cluster_id e)))

  abbrev pub with_valid_url : String → Option String → M Unit → M Unit
  with_valid_url url none m = m
  with_valid_url url (some _) m =
      raise (bad_parameter_msg ("cluster-url '" <> url <> "' is invalid"))

  -- The end of `LinkIdentityToCluster`, once the cluster is found.
  unfoldable pub link_found : ℕ → Bool → ℕ → M Unit
  link_found identity_id ignore_if_exists cluster_id =
      if ignore_if_exists
      then handle (Identities.load P identity_id cluster_id) (λ _. pure tt)
          (λ e. if is_not_found e then create_identity_cluster identity_id cluster_id else raise e)
      else create_identity_cluster identity_id cluster_id

  unfoldable pub link_identity_to_cluster : P.Context → ℕ → String → Bool → M Unit
  link_identity_to_cluster ctx identity_id cluster_url ignore_if_exists =
      guarded P ctx (auth ∷ []) "account not authorized to create identity cluster relationship" (
        with_valid_url cluster_url (validate_url P.urls cluster_url) (do
          rc ← Clusters.find_by_url P cluster_url
          link_found identity_id ignore_if_exists rc.cluster_id))

  unfoldable pub remove_identity_to_cluster_link : P.Context → ℕ → String → M Unit
  remove_identity_to_cluster_link ctx identity_id cluster_url =
      guarded P ctx (auth ∷ []) "account not authorized to remove identity cluster relationship" (
        with_valid_url cluster_url (validate_url P.urls cluster_url)
          (in_transaction P (Identities.delete P identity_id cluster_url)))
