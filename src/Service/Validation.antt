-- ===== src/Service/Validation.antt =====
-- validateURL, and the checks of clusterService.validate that look at the cluster alone.
pub mod Laws
pub mod Raising
use fabric8_cluster.Common.{String, ◌<>◌, Bool, true, false, Option, none, some, ◌||◌}
use fabric8_cluster.Common.{if◌then◌else◌, ◌==◌, string_eq, is_blank}
use fabric8_cluster.Errors.{Result, ok, err, bad_parameter_msg, ◌>>◌, ◌>>=◌}
use fabric8_cluster.Model.{Cluster, osd, ocp, oso}
use fabric8_cluster.Platform.Web.{Urls, Url, Parsed, parsed, malformed}

module _ (U : Urls) where
  abbrev complaint : Parsed → Option String
  complaint (malformed m) = some m
  complaint (parsed u) =
      if u.scheme == "" || u.host == "" then some "missing scheme or host" else none

  -- The text of the error, if there is one.
  unfoldable pub validate_url : String → Option String
  validate_url url = complaint (U.parse url)

  abbrev rejected : String → String → Option String → Result Unit
  rejected kind url none = ok tt
  rejected kind url (some m) =
      err (bad_parameter_msg ("'" <> kind <> "' URL '" <> url <> "' is invalid: " <> m))

  unfoldable pub check_url : String → String → Result Unit
  check_url kind url = rejected kind url (validate_url url)

  unfoldable pub check_optional_url : String → String → Result Unit
  check_optional_url kind url = if is_blank url then ok tt else check_url kind url

  unfoldable pub check_given : String → String → Result Unit
  check_given field value =
      if is_blank value
      then err (bad_parameter_msg ("empty field '" <> field <> "' is not allowed"))
      else ok tt

  unfoldable pub check_type : String → Result Unit
  check_type t =
      if t == osd || t == ocp || t == oso
      then ok tt
      else err (
          bad_parameter_msg
            ("invalid type of cluster: '" <> t <> "' (expected 'OSO', 'OCP' or 'OSD')"))

  unfoldable pub check : Cluster → Result Unit
  check c = do
    check_given "name" c.name
    check_url "API" c.url
    check_optional_url "console" c.console_url
    check_optional_url "metrics" c.metrics_url
    check_optional_url "logging" c.logging_url
    check_type c.cluster_type
    check_given "auth-client-id" c.auth_client_id
    check_given "auth-client-secret" c.auth_client_secret
    check_given "auth-client-default-scope" c.auth_default_scope
    check_given "service-account-token" c.sa_token
    check_given "service-account-username" c.sa_username
