-- ===== src/Repository/Normalize.antt =====
-- cluster/repository/convert_url.go, and Cluster.Normalize of cluster_repository.go. The struct is
-- changed in place in the source; here the changed struct is the result.
pub mod Laws
pub mod Raising
use fabric8_cluster.Common.{String, if◌then◌else◌, ◌==◌, string_eq, is_blank}
use fabric8_cluster.Errors.{Result, ok, err, bad_parameter_msg, ◌>>=◌}
use fabric8_cluster.Model.{Cluster, oso}
use fabric8_cluster.Platform.Web.{Urls, Url, Parsed, parsed, malformed}

module _ (U : Urls) where
  abbrev on_host : Url → String → Result String → Result String
  on_host u new_path (ok host) = ok (U.url_string (record u { host = host; path = new_path }))
  on_host u new_path (err e) = err e

  abbrev on_parsed : String → String → Parsed → Result String
  on_parsed prefix new_path (malformed m) = err (bad_parameter_msg m)
  on_parsed prefix new_path (parsed u) = on_host u new_path (U.replace_domain_prefix u.host prefix)

  unfoldable pub convert_api_url : String → String → String → Result String
  convert_api_url api_url prefix new_path = on_parsed prefix new_path (U.parse api_url)

  -- The console, metrics and logging URLs: the one given, or one made from the API URL if it is
  -- blank; with a trailing slash.
  fill : String → String → String → String → Result String
  fill given api_url prefix new_path = do
    u ← if is_blank given then convert_api_url api_url prefix new_path else ok given
    ok (U.add_trailing_slash u)

  unfoldable pub normalize : Cluster → Result Cluster
  unfolding fill
  normalize c = do
    let api_url = U.add_trailing_slash c.url
    console_url ← fill c.console_url api_url "console" "console"
    metrics_url ← fill c.metrics_url api_url "metrics" ""
    logging_url ← fill c.logging_url api_url "console" "console"
    ok (record c {
      url = api_url;
      console_url = console_url;
      metrics_url = metrics_url;
      logging_url = logging_url;
      app_dns = U.add_trailing_slash c.app_dns;
      cluster_type = if c.cluster_type == "" then oso else c.cluster_type;
    })
