-- ===== src/Configuration/Files/Laws.antt =====
-- What a configuration file that is accepted holds.
use fabric8_cluster.Common.{
  String, ◌≡◌, ◌≢◌, ◌↔◌, refl, List, [], ◌∷◌, ◌++◌, ◌==◌, nat_eq, string_eq, arith, All, ap,
  Bool-cases, inl, inr,
}
use fabric8_cluster.Errors.{Result, ok, err}
use fabric8_cluster.Model.{Cluster}
use fabric8_cluster.Configuration.Decoding.{decode_clusters}
use fabric8_cluster.Configuration.Files.{
  Files, ConfigurationData, ReadFile, missing_keys, all_missing, complained, check_cluster_config,
  assign, by_url, read_from_json_file, append_if_any, take_clusters, configured,
  init_cluster_config,
}

-- A cluster that has all that must be configured.
pub record IsComplete (c : Cluster) : Type 0 where
  pub name_given : c.name ≢ ""
  pub url_given : c.url ≢ ""
  pub app_dns_given : c.app_dns ≢ ""
  pub sa_token_given : c.sa_token ≢ ""
  pub sa_username_given : c.sa_username ≢ ""
  pub token_provider_id_given : c.token_provider_id ≢ ""
  pub auth_client_id_given : c.auth_client_id ≢ ""
  pub auth_client_secret_given : c.auth_client_secret ≢ ""
  pub auth_default_scope_given : c.auth_default_scope ≢ ""

missing-IsComplete : (c : Cluster) → missing_keys c ≡ [] → IsComplete c
unfolding missing_keys
missing-IsComplete c e = record {
  name_given = λ h. ground (arith, e, h);
  url_given = λ h. ground (arith, e, h);
  app_dns_given = λ h. ground (arith, e, h);
  sa_token_given = λ h. ground (arith, e, h);
  sa_username_given = λ h. ground (arith, e, h);
  token_provider_id_given = λ h. ground (arith, e, h);
  auth_client_id_given = λ h. ground (arith, e, h);
  auth_client_secret_given = λ h. ground (arith, e, h);
  auth_default_scope_given = λ h. ground (arith, e, h);
}

IsComplete-missing : (c : Cluster) → IsComplete c → missing_keys c ≡ []
unfolding missing_keys
IsComplete-missing c h = ground (
  arith, h.name_given, h.url_given, h.app_dns_given, h.sa_token_given, h.sa_username_given,
  h.token_provider_id_given, h.auth_client_id_given, h.auth_client_secret_given,
  h.auth_default_scope_given,
)

All-missing : (cs : List (String × Cluster)) → (all_missing cs ≡ []) ↔ All (λ e. IsComplete e.1) cs
unfolding all_missing
All-missing [] = ((λ e. tt), λ h. refl)
All-missing ((u, c) ∷ cs) = (
  (λ e.
      let (here, rest) = append_empty (missing_keys c) (all_missing cs) e in
      (missing-IsComplete c here, (All-missing cs).0 rest)),
  λ h. rw (IsComplete-missing c h.0, (All-missing cs).1 h.1) refl,
)
  where
    append_empty : (xs ys : List String) → xs ++ ys ≡ [] → (xs ≡ []) × (ys ≡ [])
    append_empty [] ys e = (refl, e)
    append_empty (x ∷ xs) ys e = absurd (cc)

-- check_cluster_config accepts the configured clusters if and only if there is one and none of them
-- lacks a required field.
pub check_cluster_config_iff :
    (cs : List (String × Cluster))
    → (check_cluster_config cs ≡ ok tt) ↔ ((cs ≢ []) × All (λ e. IsComplete e.1) cs)
unfolding check_cluster_config complained
check_cluster_config_iff [] = ((λ e. absurd (cc)), λ h. absurd (h.0 refl))
check_cluster_config_iff (c ∷ cs) = (
  (λ e. ((λ h. absurd (cc)), (All-missing (c ∷ cs)).0 (none_left (all_missing (c ∷ cs)) e))),
  λ h. rw ((All-missing (c ∷ cs)).1 h.1) refl,
)
  where
    none_left : (ks : List String) → complained ks ≡ ok tt → ks ≡ []
    none_left [] e = refl
    none_left (k ∷ ks) e = absurd (cc)

assign-entries :
    (c : Cluster) (m : List (String × Cluster))
    → All (λ e. e.0 ≡ e.1.url) m
    → All (λ e. e.0 ≡ e.1.url) (assign c.url c m)
unfolding assign
assign-entries c [] h = (refl, tt)
assign-entries c ((v, d) ∷ m) h = elim (Bool-cases (c.url == v)) [
  | inl p ↦ rw p (refl, h.1)
  | inr n ↦ rw n (h.0, assign-entries c m h.1)
]

pub by_url-entries :
    (cs : List Cluster) (m : List (String × Cluster))
    → All (λ e. e.0 ≡ e.1.url) m
    → All (λ e. e.0 ≡ e.1.url) (by_url cs m)
unfolding by_url
by_url-entries [] m h = h
by_url-entries (c ∷ cs) m h = by_url-entries cs (assign c.url c m) (assign-entries c m h)

-- If init_cluster_config returns no error, the configuration has at least one cluster, every
-- cluster has all its required fields, and each stands under its own url.
pub init_cluster_config_ok :
    (F : Files) (path default used : String) (c c' : ConfigurationData)
    → init_cluster_config F path default c ≡ (ok tt, used, c')
    → (c'.clusters ≢ [])
      × All (λ e. IsComplete e.1) c'.clusters
      × All (λ e. e.0 ≡ e.1.url) c'.clusters
unfolding init_cluster_config
init_cluster_config_ok F path default used c c' e =
    from_read (read_from_json_file F path default "oso-clusters.conf") e
  where
    from_clusters :
        (file : String) (r : Result (List Cluster)) (d : ConfigurationData)
        → take_clusters file r d ≡ (ok tt, used, c')
        → (c'.clusters ≢ [])
          × All (λ e. IsComplete e.1) c'.clusters
          × All (λ e. e.0 ≡ e.1.url) c'.clusters
    from_clusters file (err x) d h = absurd (cc)
    from_clusters file (ok cs) d h =
        let entries : by_url cs [] ≡ c'.clusters = ap (λ z. z.2.clusters) h in
        let (filled, complete) = (check_cluster_config_iff (by_url cs [])).0 (ap (λ z. z.0) h) in
        rw (← entries) (filled, complete, by_url-entries cs [] tt)

    from_read :
        (r : ReadFile)
        → configured r c ≡ (ok tt, used, c')
        → (c'.clusters ≢ [])
          × All (λ e. IsComplete e.1) c'.clusters
          × All (λ e. e.0 ≡ e.1.url) c'.clusters
    from_read (err x, file) h = absurd (cc)
    from_read (ok (d, m), file) h = from_clusters file (decode_clusters d) (append_if_any m c) h
