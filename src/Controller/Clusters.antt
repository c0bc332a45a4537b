-- ===== src/Controller/Clusters.antt =====
-- ClustersController of controller/clusters.go.
pub mod Views
pub mod Writes
use fabric8_cluster.Common.{
  ℕ, String, ◌<>◌, Bool, true, Option, none, some, List, [], ◌∷◌, map, if◌then◌else◌,
}
use fabric8_cluster.Errors.{Error, bad_parameter_msg, is_not_found}
use fabric8_cluster.Model.{Cluster}
use fabric8_cluster.Platform.{Platform}
use fabric8_cluster.Exec.{World}
use fabric8_cluster.Service.Clusters
use fabric8_cluster.Service.Links
use fabric8_cluster.Controller.Data.{
  Response, replied, created, no_content, error_response, Handler, respond, ClusterData,
  FullClusterData, CreateClusterData, given_or, payload_cluster, convert_to_cluster_data,
  convert_to_full_cluster_data,
}

module _ (P : Platform) where
  -- "no result found, return an empty array"
  abbrev none_found : {A : Type 0} → Error → Response (List A)
  none_found e = if is_not_found e then replied [] else error_response e

  unfoldable pub list :
      P.Context → (cluster_url cluster_type : Option String) → Handler P.State (List ClusterData)
  list ctx (some url) cluster_type w =
      respond (λ c. replied (convert_to_cluster_data P.urls c ∷ [])) none_found
        (Clusters.find_by_url P ctx url w)
  list ctx none cluster_type w =
      respond (λ cs. replied (map (convert_to_cluster_data P.urls) cs)) error_response
        (Clusters.list P ctx cluster_type w)

  unfoldable pub list_for_auth_client :
      P.Context
      → (cluster_url cluster_type : Option String) → Handler P.State (List FullClusterData)
  list_for_auth_client ctx (some url) cluster_type w =
      respond (λ c. replied (convert_to_full_cluster_data P.urls c ∷ [])) none_found
        (Clusters.find_by_url_for_auth P ctx url w)
  list_for_auth_client ctx none cluster_type w =
      respond (λ cs. replied (map (convert_to_full_cluster_data P.urls) cs)) error_response
        (Clusters.list_for_auth P ctx cluster_type w)

  unfoldable pub show : P.Context → ℕ → Handler P.State ClusterData
  show ctx id w =
      respond (λ c. replied (convert_to_cluster_data P.urls c)) error_response
        (Clusters.load P ctx id w)

  unfoldable pub show_for_auth_client : P.Context → ℕ → Handler P.State FullClusterData
  show_for_auth_client ctx id w =
      respond (λ c. replied (convert_to_full_cluster_data P.urls c)) error_response
        (Clusters.load_for_auth P ctx id w)

  -- `href` is the generated `app.ClustersHref`.
  unfoldable pub create : (String → String) → P.Context → CreateClusterData → Handler P.State Unit
  create href ctx p w =
      respond (λ c. created (href (P.uuid_string c.cluster_id))) error_response
        (Clusters.create_or_save_cluster P ctx (payload_cluster p) w)

  unfoldable pub delete : P.Context → ℕ → Handler P.State Unit
  delete ctx id w = respond (λ _. no_content) error_response (Clusters.delete P ctx id w)

  -- `parse_uuid` is `uuid.FromString`: the uuid, and whether there was no error.
  module _ (parse_uuid : String → ℕ × Bool) where
    unfoldable pub with_identity : String → (ℕ → Handler P.State Unit) → Handler P.State Unit
    with_identity identity_id k w =
        let id = (parse_uuid identity_id).0 in
        if (parse_uuid identity_id).1 then k id w else (
          error_response
              (bad_parameter_msg ("identity-id " <> P.uuid_string id <> " is not a valid UUID")),
          w,
        )

    -- A link that is there already is ignored by default.
    unfoldable pub link_identity_to_cluster :
        P.Context → (identity_id cluster_url : String) → Option Bool → Handler P.State Unit
    unfolding with_identity
    link_identity_to_cluster ctx identity_id cluster_url ignore_if_exists =
        with_identity identity_id (λ id w.
          respond (λ _. no_content) error_response
            (Links.link_identity_to_cluster P ctx id cluster_url (given_or true ignore_if_exists)
              w))

    unfoldable pub remove_identity_to_cluster_link :
        P.Context → (identity_id cluster_url : String) → Handler P.State Unit
    unfolding with_identity
    remove_identity_to_cluster_link ctx identity_id cluster_url = with_identity identity_id (λ id w.
        respond (λ _. no_content) error_response
          (Links.remove_identity_to_cluster_link P ctx id cluster_url w))
