-- ===== src/Configuration/Files.antt =====
-- initClusterConfig, checkClusterConfig, readFromJSONFile and GetClusterByURL of
-- configuration/configuration.go.
pub mod Laws
use fabric8_cluster.Common.{
  ℕ, String, ◌<>◌, Bool, true, false, ◌&&◌, ◌≡◌, ◌≢◌, ◌↔◌, refl, Option, none, some, List, [], ◌∷◌,
  ◌++◌, if◌then◌else◌, ◌==◌, nat_eq, string_eq, arith, All, ap, Bool-cases, ◌⊎◌, inl, inr,
}
use fabric8_cluster.Errors.{Error, text, Result, ok, err}
use fabric8_cluster.Model.{Cluster}
use fabric8_cluster.Configuration.Decoding.{decode_clusters}

-- What viper reads from a JSON file, as mapstructure decodes its clusters.
abbrev pub Decoded : Type 0
Decoded = Result (List Cluster × List String)

-- `os.Stat`
pub data Stat : Type 0 where
  exists missing : Stat
  unreadable : Error → Stat

-- The file system, viper's reading of JSON files, with the text of an error, and the files that
-- are built in. An error of reading a built-in file leaves no clusters.
pub record Files : Type 0 where
  pub stat : String → Stat
  pub read : String → Decoded ⊎ String
  pub asset : String → Result Decoded
  pub not_found : Error

pub record ConfigurationData : Type 0 where
  pub clusters : List (String × Cluster)
  pub cluster_config_file_path : String
  pub default_configuration_error : Option String

unfoldable pub append_default_config_error_message : String → ConfigurationData → ConfigurationData
append_default_config_error_message message c = record c {
  default_configuration_error = some (joined c.default_configuration_error);
}
  where
    joined : Option String → String
    joined none = message
    joined (some m) = m <> "; " <> message

-- The mapped fields that are not optional and are empty, in the order of the struct.
unfoldable pub missing_keys : Cluster → List String
missing_keys c = key "name" c.name (
    key "api-url" c.url (
      key "app-dns" c.app_dns (
        key "service-account-token" c.sa_token (
          key "service-account-username" c.sa_username (
            key "token-provider-id" c.token_provider_id (
              key "auth-client-id" c.auth_client_id (
                key "auth-client-secret" c.auth_client_secret
                  (key "auth-client-default-scope" c.auth_default_scope []))))))))
  where
    key : String → String → List String → List String
    key tag value rest = if value == "" then tag ∷ rest else rest

unfoldable pub all_missing : List (String × Cluster) → List String
all_missing [] = []
all_missing ((u, c) ∷ cs) = missing_keys c ++ all_missing cs

unfoldable pub complaint : String → List String → String
complaint m [] = m
complaint m (k ∷ ks) = complaint (m <> "; key " <> k <> " is missing in cluster config") ks

unfoldable pub complained : List String → Result Unit
complained [] = ok tt
complained (k ∷ ks) = err (text (complaint "" (k ∷ ks)))

unfoldable pub check_cluster_config : List (String × Cluster) → Result Unit
unfolding all_missing complained complaint
check_cluster_config [] = err (text "empty cluster config file")
check_cluster_config (c ∷ cs) = complained (all_missing (c ∷ cs))

-- Assignment to a map.
unfoldable pub assign : String → Cluster → List (String × Cluster) → List (String × Cluster)
assign u c [] = (u, c) ∷ []
assign u c ((v, d) ∷ cs) = if u == v then (u, c) ∷ cs else (v, d) ∷ assign u c cs

unfoldable pub by_url : List Cluster → List (String × Cluster) → List (String × Cluster)
by_url [] m = m
by_url (c ∷ cs) m = by_url cs (assign c.url c m)

abbrev pub path_exists : Files → String → Result String
path_exists F path = elim (F.stat path) [
  | exists ↦ ok path
  | missing ↦ ok ""
  | unreadable e ↦ err e
]

-- What `readFromJSONFile` returns beside an error: the message on defaults and the file used.
abbrev pub ReadFile : Type 0
ReadFile = Result (Decoded × Option String) × String

-- `readFromJSONFile`; `used` is the file that is returned.
unfoldable pub read_from_json_file : Files → (path default name : String) → ReadFile
read_from_json_file F path default name =
    if path == "" then unspecified (path_exists F default) else specified (F.stat path)
  where
    built_in : Result Decoded → Option String → ReadFile
    built_in (ok d) m = (ok (d, m), "./configuration/conf-files/" <> name)
    built_in (err e) m = (err e, "./configuration/conf-files/" <> name)

    from_file : String → Decoded ⊎ String → Option String → ReadFile
    from_file p (inl d) m = (ok (d, m), p)
    from_file p (inr e) m =
        (err (text ("failed to load the JSON config file (" <> p <> "): " <> e <> " \n")), p)

    loaded : String → Option String → ReadFile
    loaded p m = if p == "" then built_in (F.asset name) m else from_file p (F.read p) m

    unused : Option String
    unused = some (default <> " is not used")

    unspecified : Result String → ReadFile
    unspecified (err e) = (err e, default)
    unspecified (ok p) = loaded p (if p == "" then unused else none)

    specified : Stat → ReadFile
    specified exists = loaded path unused
    specified missing = (err F.not_found, path)
    specified (unreadable e) = (err e, path)

abbrev pub append_if_any : Option String → ConfigurationData → ConfigurationData
append_if_any none c = c
append_if_any (some m) c = append_default_config_error_message m c

abbrev pub take_clusters :
    String → Result (List Cluster) → ConfigurationData → Result Unit × String × ConfigurationData
take_clusters used (err e) c = (err e, used, c)
take_clusters used (ok cs) c =
    (check_cluster_config (by_url cs []), used, record c { clusters = by_url cs [] })

abbrev pub configured : ReadFile → ConfigurationData → Result Unit × String × ConfigurationData
configured (err e, used) c = (err e, used, c)
configured (ok (d, m), used) c = take_clusters used (decode_clusters d) (append_if_any m c)

-- `initClusterConfig`: the error, the file used, and the configuration as it is left.
unfoldable pub init_cluster_config :
    Files → (path default : String) → ConfigurationData → Result Unit × String × ConfigurationData
init_cluster_config F path default c =
    configured (read_from_json_file F path default "oso-clusters.conf") c

-- `strings.HasPrefix` and the slash are given; the entries stand in the order of the loop.
unfoldable pub get_cluster_by_url :
    (String → String → Bool) → (String → String) → String → List (String × Cluster) → Option Cluster
get_cluster_by_url has_prefix add_trailing_slash url [] = none
get_cluster_by_url has_prefix add_trailing_slash url ((u, c) ∷ cs) =
    let rest = get_cluster_by_url has_prefix add_trailing_slash url cs in
    if has_prefix (add_trailing_slash url) u then some c else rest
