-- ===== src/Service/Clusters/Secrets.antt =====
-- Who sees the secrets of a cluster.
use fabric8_cluster.Common.{
  ℕ, String, ◌≡◌, true, false, Option, List, [], ◌∷◌, map, All, Bool-cases, arith, refl, inl, inr,
}
use fabric8_cluster.Errors.{Result, ok, err}
use fabric8_cluster.Model.{Cluster}
use fabric8_cluster.Platform.{Platform, IsLawful, auth}
use fabric8_cluster.Exec.{World, settle, pure, raise}
use fabric8_cluster.Repository.Clusters
use fabric8_cluster.Service.Clusters.{
  readers, hide, find, load, load_for_auth, find_by_url, find_by_url_for_auth, list, list_for_auth,
}

-- All that `hide` is to clear.
pub record HasNoSecrets (c : Cluster) : Type 0 where
  pub no_sa_token : c.sa_token ≡ ""
  pub no_sa_username : c.sa_username ≡ ""
  pub not_encrypted : c.sa_token_encrypted ≡ false
  pub no_token_provider : c.token_provider_id ≡ ""
  pub no_client_id : c.auth_client_id ≡ ""
  pub no_client_secret : c.auth_client_secret ≡ ""
  pub no_scope : c.auth_default_scope ≡ ""

map-hide-HasNoSecrets : (cs : List Cluster) → All HasNoSecrets (map hide cs)
unfolding hide
map-hide-HasNoSecrets [] = tt
map-hide-HasNoSecrets (c ∷ cs) = (
  record {
    no_sa_token = refl;
    no_sa_username = refl;
    not_encrypted = refl;
    no_token_provider = refl;
    no_client_id = refl;
    no_client_secret = refl;
    no_scope = refl;
  },
  map-hide-HasNoSecrets cs,
)

-- `d` has what is public of `c`, and no secrets.
pub record IsHidden (c d : Cluster) : Type 0 where
  pub same_name : d.name ≡ c.name
  pub same_url : d.url ≡ c.url
  pub same_console_url : d.console_url ≡ c.console_url
  pub same_metrics_url : d.metrics_url ≡ c.metrics_url
  pub same_logging_url : d.logging_url ≡ c.logging_url
  pub same_app_dns : d.app_dns ≡ c.app_dns
  pub same_cluster_type : d.cluster_type ≡ c.cluster_type
  pub same_capacity_exhausted : d.capacity_exhausted ≡ c.capacity_exhausted
  pub same_cluster_id : d.cluster_id ≡ c.cluster_id
  pub same_created_at : d.created_at ≡ c.created_at
  pub same_updated_at : d.updated_at ≡ c.updated_at
  pub no_secrets : HasNoSecrets d

hide-IsHidden : (c : Cluster) → IsHidden c (hide c)
unfolding hide
hide-IsHidden c = record {
  same_name = refl;
  same_url = refl;
  same_console_url = refl;
  same_metrics_url = refl;
  same_logging_url = refl;
  same_app_dns = refl;
  same_cluster_type = refl;
  same_capacity_exhausted = refl;
  same_cluster_id = refl;
  same_created_at = refl;
  same_updated_at = refl;
  no_secrets = (map-hide-HasNoSecrets (c ∷ [])).0;
}

-- Two lists of clusters, one by one.
abbrev pub AreHidden : List Cluster → List Cluster → Type 0
AreHidden [] [] = Unit
AreHidden (c ∷ cs) (d ∷ ds) = IsHidden c d × AreHidden cs ds
AreHidden _ _ = ⊥

map-hide-AreHidden : (cs : List Cluster) → AreHidden cs (map hide cs)
map-hide-AreHidden [] = tt
map-hide-AreHidden (c ∷ cs) = (hide-IsHidden c, map-hide-AreHidden cs)

-- Two calls leave the same state, and give the same error or values that are related.
abbrev pub Alike : {A S : Type 0} → (A → A → Type 0) → Result A × S → Result A × S → Type 0
Alike R (ok a, w) (ok b, v) = R a b × (w ≡ v)
Alike R (err e, w) (err f, v) = (e ≡ f) × (w ≡ v)
Alike R _ _ = ⊥

module _ {S : Type 0} where
  IsHidden-Alike :
      (q : Result Cluster × World S) → Alike IsHidden q (settle (λ r. pure (hide r)) raise q)
  IsHidden-Alike (ok c, w) = (hide-IsHidden c, refl)
  IsHidden-Alike (err e, w) = (refl, refl)

  AreHidden-Alike :
      (q : Result (List Cluster) × World S)
      → Alike AreHidden q (settle (λ r. pure (map hide r)) raise q)
  AreHidden-Alike (ok cs, w) = (map-hide-AreHidden cs, refl)
  AreHidden-Alike (err e, w) = (refl, refl)

-- What a result shows to the caller, by `P`.
abbrev pub Shows : {A : Type 0} → (A → Type 0) → Result A → Type 0
Shows P (ok a) = P a
Shows P (err e) = Unit

abbrev pub map_result : {A B S : Type 0} → (A → B) → Result A × S → Result B × S
map_result f (ok a, w) = (ok (f a), w)
map_result f (err e, w) = (err e, w)

module _ {S : Type 0} where
  hidden-HasNoSecrets :
      (q : Result Cluster × World S) → Shows HasNoSecrets (settle (λ r. pure (hide r)) raise q).0
  hidden-HasNoSecrets (ok c, w) = (map-hide-HasNoSecrets (c ∷ [])).0
  hidden-HasNoSecrets (err e, w) = tt

  hidden_list-HasNoSecrets :
      (q : Result (List Cluster) × World S)
      → Shows (All HasNoSecrets) (settle (λ r. pure (map hide r)) raise q).0
  hidden_list-HasNoSecrets (ok cs, w) = map-hide-HasNoSecrets cs
  hidden_list-HasNoSecrets (err e, w) = tt

module _ (P : Platform) (ctx : P.Context) (w : World P.State) where
  -- Whoever calls, and whatever the database replies, what load, find_by_url and list return has no
  -- token, user name, token provider or auth client data.
  pub reads-HasNoSecrets :
      (id : ℕ) (url : String) (cluster_type : Option String)
      → Shows HasNoSecrets (load P ctx id w).0
        × Shows HasNoSecrets (find_by_url P ctx url w).0
        × Shows (All HasNoSecrets) (list P ctx cluster_type w).0
  unfolding load find_by_url list
  reads-HasNoSecrets id url cluster_type =
      elim (Bool-cases (P.is_specific_service_account ctx readers)) [
        | inl allowed ↦ rw allowed (
          hidden-HasNoSecrets (Clusters.load P id w),
          hidden-HasNoSecrets (find P url w),
          hidden_list-HasNoSecrets (Clusters.list P cluster_type w),
        )
        | inr refused ↦ rw refused (tt, tt, tt)
      ]

  -- On a lawful platform, for the Auth service: load, find_by_url and list do what load_for_auth,
  -- find_by_url_for_auth and list_for_auth do, with the secrets hidden in the result.
  pub reads-hide :
      IsLawful P
      → P.is_specific_service_account ctx (auth ∷ []) ≡ true
      → (id : ℕ) (url : String) (cluster_type : Option String)
      → (load P ctx id w ≡ map_result hide (load_for_auth P ctx id w))
        × (find_by_url P ctx url w ≡ map_result hide (find_by_url_for_auth P ctx url w))
        × (list P ctx cluster_type w ≡ map_result (map hide) (list_for_auth P ctx cluster_type w))
  unfolding load find_by_url list load_for_auth find_by_url_for_auth list_for_auth
  reads-hide L allowed id url cluster_type = (
    ground (arith, L.account_named ctx readers auth),
    ground (arith, L.account_named ctx readers auth),
    ground (arith, L.account_named ctx readers auth),
  )

  -- If one caller is one of the five accounts that may read, and another is the Auth service: load,
  -- find_by_url and list, called by the first, and load_for_auth, find_by_url_for_auth and
  -- list_for_auth, called by the second in the same state, leave the same state and give the same
  -- error, or the same clusters, except that those of the first have no token, user name, token
  -- provider or auth client data.
  pub reads-Alike :
      P.is_specific_service_account ctx readers ≡ true
      → (ctx' : P.Context) → P.is_specific_service_account ctx' (auth ∷ []) ≡ true
      → (id : ℕ) (url : String) (cluster_type : Option String)
      → Alike IsHidden (load_for_auth P ctx' id w) (load P ctx id w)
        × Alike IsHidden (find_by_url_for_auth P ctx' url w) (find_by_url P ctx url w)
        × Alike AreHidden (list_for_auth P ctx' cluster_type w) (list P ctx cluster_type w)
  unfolding load find_by_url list load_for_auth find_by_url_for_auth list_for_auth
  reads-Alike allowed ctx' is_auth id url cluster_type =
      rw (allowed, is_auth)
        (
          IsHidden-Alike (Clusters.load P id w),
          IsHidden-Alike (find P url w),
          AreHidden-Alike (Clusters.list P cluster_type w),
        )
