-- ===== src/Service/Validation/Laws.antt =====
-- Which clusters pass the checks.
use fabric8_cluster.Common.{String, ◌≡◌, ◌≢◌, ◌↔◌, ◌⊎◌, true, false, none, arith}
use fabric8_cluster.Common.{is_blank, string_eq}
use fabric8_cluster.Errors.{ok}
use fabric8_cluster.Model.{Cluster, osd, ocp, oso}
use fabric8_cluster.Platform.Web.{Urls, Url, parsed}
use fabric8_cluster.Service.Validation.{
  validate_url, check, check_url, check_optional_url, check_given, check_type,
}

module _ (U : Urls) where
  -- The text parses as a URL with a scheme and a host.
  abbrev pub IsAbsolute : String → Type 0
  IsAbsolute s = (u : Url) × (U.parse s ≡ parsed u) × (u.scheme ≢ "") × (u.host ≢ "")

  abbrev pub IsGiven : String → Type 0
  IsGiven s = is_blank s ≡ false

  abbrev pub IsBlankOrAbsolute : String → Type 0
  IsBlankOrAbsolute s = (is_blank s ≡ true) ⊎ (IsGiven s × IsAbsolute s)

  -- What a cluster needs to be saved, its token provider apart.
  pub record IsValid (c : Cluster) : Type 0 where
    pub name_given : IsGiven c.name
    pub url_absolute : IsAbsolute c.url
    pub console_url_fits : IsBlankOrAbsolute c.console_url
    pub metrics_url_fits : IsBlankOrAbsolute c.metrics_url
    pub logging_url_fits : IsBlankOrAbsolute c.logging_url
    pub type_known : (c.cluster_type ≡ osd) ⊎ (c.cluster_type ≡ ocp) ⊎ (c.cluster_type ≡ oso)
    pub auth_client_id_given : IsGiven c.auth_client_id
    pub auth_client_secret_given : IsGiven c.auth_client_secret
    pub auth_default_scope_given : IsGiven c.auth_default_scope
    pub sa_token_given : IsGiven c.sa_token
    pub sa_username_given : IsGiven c.sa_username

  validate_url_iff : (s : String) → (validate_url U s ≡ none) ↔ IsAbsolute s
  unfolding validate_url
  validate_url_iff s = ground arith

  check_url_iff : (kind s : String) → (check_url U kind s ≡ ok tt) ↔ IsAbsolute s
  unfolding check_url
  check_url_iff kind s = ground (arith, validate_url_iff s)

  check_optional_url_iff :
      (kind s : String) → (check_optional_url U kind s ≡ ok tt) ↔ IsBlankOrAbsolute s
  unfolding check_optional_url
  check_optional_url_iff kind s = ground (arith, check_url_iff kind s)

  check_given_iff : (field s : String) → (check_given U field s ≡ ok tt) ↔ IsGiven s
  unfolding check_given
  check_given_iff field s = ground arith

  check_type_iff : (t : String) → (check_type U t ≡ ok tt) ↔ ((t ≡ osd) ⊎ (t ≡ ocp) ⊎ (t ≡ oso))
  unfolding check_type
  check_type_iff t = ground arith

  -- check passes a cluster if and only if its name, auth client data and service account are not
  -- blank, its API URL has a scheme and a host, its other URLs are blank or have them too, and its
  -- type is OSD, OCP or OSO.
  pub check_iff : (c : Cluster) → (check U c ≡ ok tt) ↔ IsValid c
  unfolding check
  check_iff c = (to, from)
    where
      to : check U c ≡ ok tt → IsValid c
      to h = record {
        name_given = (check_given_iff "name" c.name).0 (ground arith);
        url_absolute = (check_url_iff "API" c.url).0 (ground arith);
        console_url_fits = (check_optional_url_iff "console" c.console_url).0 (ground arith);
        metrics_url_fits = (check_optional_url_iff "metrics" c.metrics_url).0 (ground arith);
        logging_url_fits = (check_optional_url_iff "logging" c.logging_url).0 (ground arith);
        type_known = (check_type_iff c.cluster_type).0 (ground arith);
        auth_client_id_given = (check_given_iff "auth-client-id" c.auth_client_id).0 (ground arith);
        auth_client_secret_given =
            (check_given_iff "auth-client-secret" c.auth_client_secret).0 (ground arith);
        auth_default_scope_given =
            (check_given_iff "auth-client-default-scope" c.auth_default_scope).0 (ground arith);
        sa_token_given = (check_given_iff "service-account-token" c.sa_token).0 (ground arith);
        sa_username_given =
            (check_given_iff "service-account-username" c.sa_username).0 (ground arith);
      }

      from : IsValid c → check U c ≡ ok tt
      from v = rw (
        (check_given_iff "name" c.name).1 v.name_given,
        (check_url_iff "API" c.url).1 v.url_absolute,
        (check_optional_url_iff "console" c.console_url).1 v.console_url_fits,
        (check_optional_url_iff "metrics" c.metrics_url).1 v.metrics_url_fits,
        (check_optional_url_iff "logging" c.logging_url).1 v.logging_url_fits,
        (check_type_iff c.cluster_type).1 v.type_known,
        (check_given_iff "auth-client-id" c.auth_client_id).1 v.auth_client_id_given,
        (check_given_iff "auth-client-secret" c.auth_client_secret).1 v.auth_client_secret_given,
        (check_given_iff "auth-client-default-scope" c.auth_default_scope).1
            v.auth_default_scope_given,
        (check_given_iff "service-account-token" c.sa_token).1 v.sa_token_given,
        (check_given_iff "service-account-username" c.sa_username).1 v.sa_username_given,
      )
