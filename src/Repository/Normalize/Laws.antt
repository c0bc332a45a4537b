-- ===== src/Repository/Normalize/Laws.antt =====
-- What Cluster.Normalize guarantees.
use text.Mathlib.TextEquality.{eq_iff}
use fabric8_cluster.Common.{ℕ, String, ◌≡◌, ◌≢◌, refl, arith}
use fabric8_cluster.Common.{string_eq, ◌==◌, if◌then◌else◌}
use fabric8_cluster.Errors.{Result, ok, err, ◌>>=◌}
use fabric8_cluster.Model.{Cluster, oso}
use fabric8_cluster.Platform.Web.{Urls, IsLawful}
use fabric8_cluster.Repository.Normalize.{fill, normalize}

module _ (U : Urls) where
  -- All URLs end with a slash, and the type is given.
  pub record IsNormal (c : Cluster) : Type 0 where
    pub url_normal : U.add_trailing_slash c.url ≡ c.url
    pub console_url_normal : U.add_trailing_slash c.console_url ≡ c.console_url
    pub metrics_url_normal : U.add_trailing_slash c.metrics_url ≡ c.metrics_url
    pub logging_url_normal : U.add_trailing_slash c.logging_url ≡ c.logging_url
    pub app_dns_normal : U.add_trailing_slash c.app_dns ≡ c.app_dns
    pub cluster_type_given : c.cluster_type ≢ ""

  with_slash :
      (r : Result String) (out : String)
      → (r >>= λ u. ok (U.add_trailing_slash u)) ≡ ok out
      → (u : String) × (r ≡ ok u) × (out ≡ U.add_trailing_slash u)
  with_slash (ok u) out e = (u, refl, ground arith)
  with_slash (err x) out e = cc

  -- The parts that a successful Normalize puts together.
  normalize_parts :
      (c n : Cluster)
      → normalize U c ≡ ok n
      → (fill U c.console_url (U.add_trailing_slash c.url) "console" "console" ≡ ok n.console_url)
        × (fill U c.metrics_url (U.add_trailing_slash c.url) "metrics" "" ≡ ok n.metrics_url)
        × (fill U c.logging_url (U.add_trailing_slash c.url) "console" "console" ≡ ok n.logging_url)
        × (n ≡ record c {
          url = U.add_trailing_slash c.url;
          console_url = n.console_url;
          metrics_url = n.metrics_url;
          logging_url = n.logging_url;
          app_dns = U.add_trailing_slash c.app_dns;
          cluster_type = if c.cluster_type == "" then oso else c.cluster_type;
        })
  unfolding normalize
  normalize_parts c n e = ground arith

  -- Normalize looks at neither the id nor the time stamps, and leaves them alone.
  pub normalize_stamped :
      (c n : Cluster) (i a b : ℕ)
      → normalize U c ≡ ok n
      → normalize U (record c { created_at = a; updated_at = b; cluster_id = i })
        ≡ ok (record n { created_at = a; updated_at = b; cluster_id = i })
  unfolding normalize
  normalize_stamped c n i a b e = ground arith

  pub normalize-cluster_id : (c n : Cluster) → normalize U c ≡ ok n → n.cluster_id ≡ c.cluster_id
  normalize-cluster_id c n e = ground (arith, normalize_parts c n e)

  pub normalize-token_provider_id :
      (c n : Cluster) → normalize U c ≡ ok n → n.token_provider_id ≡ c.token_provider_id
  normalize-token_provider_id c n e = ground (arith, normalize_parts c n e)

  pub normalize-url : (c n : Cluster) → normalize U c ≡ ok n → n.url ≡ U.add_trailing_slash c.url
  normalize-url c n e = ground (arith, normalize_parts c n e)

oso-ne-empty : oso ≢ ""
oso-ne-empty = ground (arith, eq_iff oso "")

module _ (U : Urls) (L : IsLawful U) where
  fill_normal :
      (given api_url prefix new_path out : String)
      → fill U given api_url prefix new_path ≡ ok out
      → U.add_trailing_slash out ≡ out
  unfolding fill
  fill_normal given api_url prefix new_path out e =
      let (u, _, last) = with_slash U _ out e in rw last (L.add_trailing_slash_idem u)

  -- Filling in again what was filled in changes nothing.
  fill_again :
      (given api_url prefix new_path out : String)
      → fill U given api_url prefix new_path ≡ ok out
      → fill U out api_url prefix new_path ≡ ok out
  unfolding fill
  fill_again given api_url prefix new_path out e =
      let (u, first, last) = with_slash U _ out e in
      ground (arith, L.add_trailing_slash_idem u, L.add_trailing_slash_shown given)

  -- If slashes are added lawfully, a cluster that normalize accepts comes out with a trailing slash
  -- on every URL and on the domain, and with a type.
  pub normalize-IsNormal : (c n : Cluster) → normalize U c ≡ ok n → IsNormal U n
  normalize-IsNormal c n e =
      let (console, metrics, logging, parts) = normalize_parts U c n e in
      record {
        url_normal = ground (arith, L.add_trailing_slash_idem c.url);
        console_url_normal = fill_normal _ _ _ _ _ console;
        metrics_url_normal = fill_normal _ _ _ _ _ metrics;
        logging_url_normal = fill_normal _ _ _ _ _ logging;
        app_dns_normal = ground (arith, L.add_trailing_slash_idem c.app_dns);
        cluster_type_given = ground (arith, oso-ne-empty);
      }

  -- If slashes are added lawfully, normalize accepts each of its own results and leaves it
  -- unchanged.
  pub normalize_idem : (c n : Cluster) → normalize U c ≡ ok n → normalize U n ≡ ok n
  unfolding normalize
  normalize_idem c n e =
      let (console, metrics, logging, parts) = normalize_parts U c n e in
      ground (
        arith,
        normalize-IsNormal c n e,
        fill_again _ _ _ _ _ console,
        fill_again _ _ _ _ _ metrics,
        fill_again _ _ _ _ _ logging,
      )
