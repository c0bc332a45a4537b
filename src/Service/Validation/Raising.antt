-- ===== src/Service/Validation/Raising.antt =====
-- The checks refuse a cluster only for its input.
use fabric8_cluster.Common.{
  String, Bool, true, false, Option, none, some, inl, inr, if◌then◌else◌, is_blank, Bool-cases,
}
use fabric8_cluster.Errors.{ok, err, bad_parameter_msg}
use fabric8_cluster.Model.{Cluster}
use fabric8_cluster.Platform.Web.{Urls}
use fabric8_cluster.Exec.Raising.{Failing, Failing-seq}
use fabric8_cluster.Exec.Faults.{Bad}
use fabric8_cluster.Service.Validation.{
  validate_url, check, check_given, check_url, check_optional_url, check_type, rejected,
}

module _ (U : Urls) where
  rejected-Failing : (kind url : String) (o : Option String) → Failing Bad (rejected U kind url o)
  rejected-Failing kind url none = tt
  rejected-Failing kind url (some m) = tt

  refuse-Failing :
      (b : Bool) (m : String) → Failing Bad (if b then ok tt else err (bad_parameter_msg m))
  refuse-Failing true m = tt
  refuse-Failing false m = tt

  check_given-Failing : (field value : String) → Failing Bad (check_given U field value)
  unfolding check_given
  check_given-Failing field value = elim (Bool-cases (is_blank value)) [
    | inl blank ↦ rw blank tt
    | inr full ↦ rw full tt
  ]

  check_url-Failing : (kind url : String) → Failing Bad (check_url U kind url)
  unfolding check_url
  check_url-Failing kind url = rejected-Failing kind url (validate_url U url)

  check_optional_url-Failing : (kind url : String) → Failing Bad (check_optional_url U kind url)
  unfolding check_optional_url
  check_optional_url-Failing kind url = elim (Bool-cases (is_blank url)) [
    | inl blank ↦ rw blank tt
    | inr full ↦ rw full (check_url-Failing kind url)
  ]

  check_type-Failing : (t : String) → Failing Bad (check_type U t)
  unfolding check_type
  check_type-Failing t = refuse-Failing _ _

  pub check-Failing : (c : Cluster) → Failing Bad (check U c)
  unfolding check
  check-Failing c =
      Failing-seq Bad (check_given U "name" c.name) _ (check_given-Failing "name" c.name) (
        Failing-seq Bad (check_url U "API" c.url) _ (check_url-Failing "API" c.url) (
          Failing-seq Bad (check_optional_url U "console" c.console_url) _
            (check_optional_url-Failing "console" c.console_url)
            (Failing-seq Bad (check_optional_url U "metrics" c.metrics_url) _
              (check_optional_url-Failing "metrics" c.metrics_url)
              (Failing-seq Bad (check_optional_url U "logging" c.logging_url) _
                (check_optional_url-Failing "logging" c.logging_url)
                (Failing-seq Bad (check_type U c.cluster_type) _ (check_type-Failing c.cluster_type)
                  (Failing-seq Bad (check_given U "auth-client-id" c.auth_client_id) _
                    (check_given-Failing "auth-client-id" c.auth_client_id)
                    (Failing-seq Bad (check_given U "auth-client-secret" c.auth_client_secret) _
                      (check_given-Failing "auth-client-secret" c.auth_client_secret)
                      (Failing-seq Bad
                        (check_given U "auth-client-default-scope" c.auth_default_scope) _
                        (check_given-Failing "auth-client-default-scope" c.auth_default_scope)
                        (Failing-seq Bad (check_given U "service-account-token" c.sa_token) _
                          (check_given-Failing "service-account-token" c.sa_token)
                          (check_given-Failing "service-account-username" c.sa_username))))))))))
