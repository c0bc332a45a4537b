-- ===== src/Repository/Normalize/Raising.antt =====
-- Normalize refuses a cluster only for its URLs.
use fabric8_cluster.Common.{String, inl, inr, Bool-cases, is_blank}
use fabric8_cluster.Errors.{Error, Result, ok, err, ◌>>=◌}
use fabric8_cluster.Model.{Cluster}
use fabric8_cluster.Platform.Web.{Urls, Url, Parsed, parsed, malformed}
use fabric8_cluster.Exec.Raising.{Failing}
use fabric8_cluster.Exec.Faults.{Bad}
use fabric8_cluster.Repository.Normalize.{normalize, convert_api_url, fill, on_host, on_parsed}

bind-Failing :
    {A B : Type 0} (K : Error → Type 0) (m : Result A) (f : A → Result B)
    → Failing K m
    → ((a : A) → Failing K (f a))
    → Failing K (m >>= f)
bind-Failing K (ok a) f k g = g a
bind-Failing K (err e) f k g = k

module _ (U : Urls)
    (hosts : (host prefix : String) → Failing Bad (U.replace_domain_prefix host prefix)) where
  on_host-Failing :
      (u : Url) (new_path : String) (r : Result String)
      → Failing Bad r
      → Failing Bad (on_host U u new_path r)
  on_host-Failing u new_path (ok host) f = tt
  on_host-Failing u new_path (err e) f = f

  on_parsed-Failing :
      (prefix new_path : String) (p : Parsed) → Failing Bad (on_parsed U prefix new_path p)
  on_parsed-Failing prefix new_path (malformed m) = tt
  on_parsed-Failing prefix new_path (parsed u) =
      on_host-Failing u new_path (U.replace_domain_prefix u.host prefix) (hosts u.host prefix)

  fill-Failing :
      (given api_url prefix new_path : String) → Failing Bad (fill U given api_url prefix new_path)
  unfolding fill convert_api_url
  fill-Failing given api_url prefix new_path = elim (Bool-cases (is_blank given)) [
    | inl blank ↦ rw blank (
        bind-Failing Bad (on_parsed U prefix new_path (U.parse api_url)) _
          (on_parsed-Failing prefix new_path (U.parse api_url)) (λ u. tt))
    | inr full ↦ rw full tt
  ]

  pub normalize-Failing : (c : Cluster) → Failing Bad (normalize U c)
  unfolding normalize
  normalize-Failing c =
      let api_url = U.add_trailing_slash c.url in
      bind-Failing Bad (fill U c.console_url api_url "console" "console") _
        (fill-Failing c.console_url api_url "console" "console")
        (λ console.
          bind-Failing Bad (fill U c.metrics_url api_url "metrics" "") _
            (fill-Failing c.metrics_url api_url "metrics" "")
            (λ metrics.
              bind-Failing Bad (fill U c.logging_url api_url "console" "console") _
                (fill-Failing c.logging_url api_url "console" "console") (λ logging. tt)))
