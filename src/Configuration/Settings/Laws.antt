-- ===== src/Configuration/Settings/Laws.antt =====
-- The clusters of a configuration that new_configuration_data returns.
use fabric8_cluster.Common.{
  String, Bool, true, false, Option, none, some, List, [], ◌≡◌, ◌≢◌, ◌∙◌, sym, refl, ap, All, inl,
  inr, Bool-cases, ◌==◌, string_eq,
}
use fabric8_cluster.Errors.{Result, ok, err}
use fabric8_cluster.Model.{Cluster}
use fabric8_cluster.Platform.Web.{Urls}
use fabric8_cluster.Configuration.Files.{
  Files, ConfigurationData, append_default_config_error_message, init_cluster_config,
}
use fabric8_cluster.Configuration.Files.Laws.{IsComplete, init_cluster_config_ok}
use fabric8_cluster.Configuration.Settings.{
  Settings, validate_service_url, warn_if, check_defaults, after_clusters, new_configuration_data,
  Parsed-cases,
}

-- There are clusters, each is complete, and each stands under its own url.
pub record IsLoaded (c : ConfigurationData) : Type 0 where
  pub given : c.clusters ≢ []
  pub complete : All (λ e. IsComplete e.1) c.clusters
  pub keyed : All (λ e. e.0 ≡ e.1.url) c.clusters

record HasClusters (cs : List (String × Cluster)) (c : ConfigurationData) : Type 0 where
  same : c.clusters ≡ cs

module _ (U : Urls) (cs : List (String × Cluster)) where
  -- Messages leave the clusters alone.
  warn_if-HasClusters :
      (b : Bool) (m : String) (c : ConfigurationData)
      → HasClusters cs c
      → HasClusters cs (warn_if U b m c)
  unfolding append_default_config_error_message
  warn_if-HasClusters true m c h = record { same = h.same }
  warn_if-HasClusters false m c h = h

  validate_service_url-HasClusters :
      (url name : String) (c : ConfigurationData)
      → HasClusters cs c
      → HasClusters cs (validate_service_url U url name c)
  unfolding validate_service_url append_default_config_error_message
  validate_service_url-HasClusters url name c h = elim (Bool-cases (url == "")) [
    | inl blank ↦ record { same = rw blank h.same }
    | inr given ↦ elim (Parsed-cases (U.parse url)) [
      | inl (u, fine) ↦ record { same = rw (given, fine) h.same }
      | inr (m, bad) ↦ record { same = rw (given, bad) h.same }
    ]
  ]

  check_defaults-HasClusters :
      (v : Settings) (c : ConfigurationData)
      → HasClusters cs c
      → HasClusters cs (check_defaults U v c)
  unfolding check_defaults
  check_defaults-HasClusters v c h = warn_if-HasClusters _ _ _ (
      validate_service_url-HasClusters _ _ _ (
        warn_if-HasClusters _ _ _ (
          validate_service_url-HasClusters _ _ _ (
            warn_if-HasClusters (v.postgres_password == "mysecretpassword")
              "default DB password is used" _
              (warn_if-HasClusters v.developer_mode_enabled "developer Mode is enabled" c h)))))

module _ (U : Urls) (F : Files) (v : Settings) where
  after_clusters-IsLoaded :
      (path default used : String) (c c' d : ConfigurationData) (q : Result Unit)
      → init_cluster_config F path default c ≡ (q, used, c')
      → after_clusters U v (q, used, c') ≡ ok d
      → IsLoaded d
  after_clusters-IsLoaded path default used c c' d (ok u) e loaded =
      let (given, complete, keyed) = init_cluster_config_ok F path default used c c' e in
      let kept : HasClusters c'.clusters
          (check_defaults U v (record c' { cluster_config_file_path = used })) =
        check_defaults-HasClusters U c'.clusters v _ (record { same = refl }) in
      let same : c'.clusters ≡ d.clusters =
        sym kept.same ∙ ap (λ r. of_result r c'.clusters) loaded in
      record { given = rw same at given; complete = rw same at complete; keyed = rw same at keyed }
    where
      of_result : Result ConfigurationData → List (String × Cluster) → List (String × Cluster)
      of_result (ok x) cs = x.clusters
      of_result (err x) cs = cs
  after_clusters-IsLoaded path default used c c' d (err x) e loaded = absurd (cc)

  from_clusters-IsLoaded :
      (path : String) (c d : ConfigurationData)
      → after_clusters U v (init_cluster_config F path "/etc/fabric8/oso-clusters.conf" c) ≡ ok d
      → IsLoaded d
  from_clusters-IsLoaded path c d h =
      let read : Result Unit × String × ConfigurationData =
        init_cluster_config F path "/etc/fabric8/oso-clusters.conf" c in
      after_clusters-IsLoaded path "/etc/fabric8/oso-clusters.conf" read.1 c read.2 d read.0 refl h

  -- If new_configuration_data returns a configuration, it has at least one cluster, every cluster
  -- has all its required fields, and each stands under its own url.
  pub new_configuration_data-IsLoaded :
      (main_read : Option String) (main_file cluster_file : String) (c : ConfigurationData)
      → new_configuration_data U F v main_read main_file cluster_file ≡ ok c
      → IsLoaded c
  unfolding new_configuration_data
  new_configuration_data-IsLoaded none main_file cluster_file c e =
      elim (Bool-cases (main_file == "")) [
        | inl blank ↦ from_clusters-IsLoaded cluster_file _ c (rw blank at e)
        | inr given ↦ from_clusters-IsLoaded cluster_file _ c (rw given at e)
      ]
  new_configuration_data-IsLoaded (some m) main_file cluster_file c e =
      elim (Bool-cases (main_file == "")) [
        | inl blank ↦ from_clusters-IsLoaded cluster_file _ c (rw blank at e)
        | inr given ↦ let never = (rw given at e) in absurd (cc)
      ]
