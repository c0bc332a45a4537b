-- ===== src/Controller/Clusters/Views.antt =====
-- What the Auth service sees beside the other callers.
use fabric8_cluster.Common.{ℕ, String, Option, none, List, [], ◌∷◌, ◌≡◌, refl, true, map}
use fabric8_cluster.Errors.{Result, ok, err}
use fabric8_cluster.Model.{Cluster}
use fabric8_cluster.Platform.{Platform, IsLawful, auth}
use fabric8_cluster.Platform.Web.{Urls}
use fabric8_cluster.Exec.{World}
use fabric8_cluster.Service.Clusters
use fabric8_cluster.Service.Clusters.{hide}
use fabric8_cluster.Service.Clusters.Secrets.{map_result, reads-hide}
use fabric8_cluster.Controller.Data.{
  Response, replied, created, no_content, service_unavailable, error_response, respond, ClusterData,
  FullClusterData, convert_to_cluster_data, convert_to_full_cluster_data,
}
use fabric8_cluster.Controller.Clusters.{show, show_for_auth_client, list, list_for_auth_client}

-- The part of the full data that is not secret.
abbrev pub public_part : FullClusterData → ClusterData
public_part d = record {
  name = d.name;
  api_url = d.api_url;
  console_url = d.console_url;
  metrics_url = d.metrics_url;
  logging_url = d.logging_url;
  app_dns = d.app_dns;
  cluster_type = d.cluster_type;
  capacity_exhausted = d.capacity_exhausted;
}

module _ {A B S : Type 0} (f : A → B) where
  abbrev pub map_response : Response A × S → Response B × S
  map_response (replied a, w) = (replied (f a), w)
  map_response (created l, w) = (created l, w)
  map_response (no_content, w) = (no_content, w)
  map_response (service_unavailable a, w) = (service_unavailable (f a), w)
  map_response (error_response e, w) = (error_response e, w)

module _ (U : Urls) where
  hide-convert :
      (c : Cluster)
      → convert_to_cluster_data U (hide c) ≡ public_part (convert_to_full_cluster_data U c)
  unfolding hide convert_to_cluster_data convert_to_full_cluster_data
  hide-convert c = refl

  map-hide-convert :
      (cs : List Cluster)
      → map (convert_to_cluster_data U) (map hide cs)
        ≡ map public_part (map (convert_to_full_cluster_data U) cs)
  map-hide-convert [] = refl
  map-hide-convert (c ∷ cs) = rw (hide-convert c, map-hide-convert cs) refl

module _ (P : Platform) (L : IsLawful P) (ctx : P.Context) (w : World P.State) where
  one :
      (q : Result Cluster × World P.State)
      → respond (λ c. replied (convert_to_cluster_data P.urls c)) error_response (map_result hide q)
        ≡ map_response public_part
            (respond (λ c. replied (convert_to_full_cluster_data P.urls c)) error_response q)
  one (ok c, v) = rw (hide-convert P.urls c) refl
  one (err e, v) = refl

  all :
      (q : Result (List Cluster) × World P.State)
      → respond
          (λ cs. replied (map (convert_to_cluster_data P.urls) cs))
          error_response
          (map_result (map hide) q)
        ≡ map_response (map public_part) (
            respond (λ cs. replied (map (convert_to_full_cluster_data P.urls) cs)) error_response q)
  all (ok cs, v) = rw (map-hide-convert P.urls cs) refl
  all (err e, v) = refl

  -- On a lawful platform, for the Auth service: show, and list without a url, answer as
  -- show_for_auth_client and list_for_auth_client do, with only the part of the data that is not
  -- secret.
  pub show-public_part :
      P.is_specific_service_account ctx (auth ∷ []) ≡ true
      → (id : ℕ) (cluster_type : Option String)
      → (show P ctx id w ≡ map_response public_part (show_for_auth_client P ctx id w))
        × (list P ctx none cluster_type w
            ≡ map_response (map public_part) (list_for_auth_client P ctx none cluster_type w))
  unfolding show show_for_auth_client list list_for_auth_client
  show-public_part is_auth id cluster_type =
      let (loads, finds, lists) = reads-hide P ctx w L is_auth id "" cluster_type in
      (
        rw loads (one (Clusters.load_for_auth P ctx id w)),
        rw lists (all (Clusters.list_for_auth P ctx cluster_type w)),
      )
