-- ===== src/Configuration/Reflection.antt =====
-- What configuration/ does by reflection on the struct Cluster: getDefaultValues and the loops of
-- decodeClusters in configuration/decode_clusters.go, and the loop over the fields of
-- checkClusterConfig in configuration/configuration.go.
pub mod Laws
use fabric8_cluster.Common.{
  ℕ, suc, String, ◌<>◌, Bool, true, false, ◌||◌, not, Option, none, some, List, [], ◌∷◌,
  if◌then◌else◌, ◌==◌, string_eq, nat_eq,
}
use fabric8_cluster.Errors.{text, wrapped, Result, ok, err}
use fabric8_cluster.Model.{Cluster}
use fabric8_cluster.Configuration.Decoding.{is_assigned}

pub data Kind : Type 0 where
  string_kind bool_kind : Kind
  other_kind : (type_name : String) → Kind

-- A field of a struct: its name, the tags that are read, empty if they are not there, and its kind.
pub record StructField : Type 0 where
  pub name : String
  pub mapstructure : String
  pub optional : String
  pub default : String
  pub kind : Kind

abbrev mapped : (name mapstructure : String) → StructField
mapped name mapstructure = record {
  name = name;
  mapstructure = mapstructure;
  optional = "";
  default = "";
  kind = string_kind;
}

-- The tags of the struct Cluster, in its order.
abbrev pub cluster_fields : List StructField
cluster_fields =
    record (mapped "LifecycleHardDelete" "") { kind = other_kind "gormsupport.LifecycleHardDelete" }
    ∷ record (mapped "ClusterID" "") { kind = other_kind "uuid.UUID" }
    ∷ mapped "Name" "name"
    ∷ mapped "URL" "api-url"
    ∷ record (mapped "ConsoleURL" "console-url") { optional = "true" }
    ∷ record (mapped "MetricsURL" "metrics-url") { optional = "true" }
    ∷ record (mapped "LoggingURL" "logging-url") { optional = "true" }
    ∷ mapped "AppDNS" "app-dns"
    ∷ mapped "SAToken" "service-account-token"
    ∷ mapped "SAUsername" "service-account-username"
    ∷ record (mapped "SATokenEncrypted" "service-account-token-encrypted") {
      optional = "true";
      default = "true";
      kind = bool_kind;
    }
    ∷ mapped "TokenProviderID" "token-provider-id"
    ∷ mapped "AuthClientID" "auth-client-id"
    ∷ mapped "AuthClientSecret" "auth-client-secret"
    ∷ mapped "AuthDefaultScope" "auth-client-default-scope"
    ∷ record (mapped "Type" "type") { optional = "true"; default = "OSO" }
    ∷ record (mapped "CapacityExhausted" "capacity-exhausted") {
      optional = "true";
      kind = bool_kind;
    }
    ∷ []

pub data Value : Type 0 where
  string_value : String → Value
  bool_value : Bool → Value

-- An entry of the map of default values: the key, which is the tag `mapstructure`, the name of the
-- field, and the value.
abbrev pub DefaultValue : Type 0
DefaultValue = String × String × Value

-- `strconv.ParseBool`
unfoldable pub parse_bool : String → Option Bool
parse_bool s =
    if s == "1" || s == "t" || s == "T" || s == "TRUE" || s == "true" || s == "True"
    then some true
    else if s == "0" || s == "f" || s == "F" || s == "FALSE" || s == "false" || s == "False"
    then some false
    else none

abbrev put : DefaultValue → Result (List DefaultValue) → Result (List DefaultValue)
put d (ok ds) = ok (d ∷ ds)
put d (err e) = err e

abbrev default_of : StructField → Kind → Result (List DefaultValue) → Result (List DefaultValue)
default_of f string_kind rest = put (f.mapstructure, f.name, string_value f.default) rest
default_of f bool_kind rest = elim (parse_bool f.default) [
  | some b ↦ put (f.mapstructure, f.name, bool_value b) rest
  | none ↦ err (
      wrapped (text ("strconv.ParseBool: parsing \"" <> f.default <> "\": invalid syntax"))
        "unable to retrieve default values for type 'Cluster'")
]
default_of f (other_kind t) rest =
    err (
      text ("unable to decode clusters from config: unsupported type of field with default: " <> t))

-- `getDefaultValues`. No two fields have the same tag, so no entry replaces another.
unfoldable pub get_default_values : List StructField → Result (List DefaultValue)
unfolding parse_bool
get_default_values [] = ok []
get_default_values (f ∷ fs) =
    let rest = get_default_values fs in if f.default == "" then rest else default_of f f.kind rest

-- `FieldByName(name)` and `SetBool` or `SetString`.
unfoldable pub set_field : String → Value → Cluster → Cluster
set_field name (bool_value b) c =
    if name == "SATokenEncrypted"
    then record c { sa_token_encrypted = b }
    else if name == "CapacityExhausted"
    then record c { capacity_exhausted = b }
    else c
set_field name (string_value s) c =
    if name == "Name"
    then record c { name = s }
    else if name == "URL"
    then record c { url = s }
    else if name == "ConsoleURL"
    then record c { console_url = s }
    else if name == "MetricsURL"
    then record c { metrics_url = s }
    else if name == "LoggingURL"
    then record c { logging_url = s }
    else if name == "AppDNS"
    then record c { app_dns = s }
    else if name == "SAToken"
    then record c { sa_token = s }
    else if name == "SAUsername"
    then record c { sa_username = s }
    else if name == "TokenProviderID"
    then record c { token_provider_id = s }
    else if name == "AuthClientID"
    then record c { auth_client_id = s }
    else if name == "AuthClientSecret"
    then record c { auth_client_secret = s }
    else if name == "AuthDefaultScope"
    then record c { auth_default_scope = s }
    else if name == "Type"
    then record c { cluster_type = s }
    else c

-- The inner loop, from the cluster at index `i` on.
unfoldable pub apply_default : List (ℕ × String) → DefaultValue → ℕ → List Cluster → List Cluster
apply_default assigned d i [] = []
apply_default assigned (tag, name, value) i (c ∷ cs) =
    (if is_assigned assigned i tag then c else set_field name value c)
    ∷ apply_default assigned (tag, name, value) (suc i) cs

-- The outer loop, in the order in which `range` gives the entries.
unfoldable pub apply_defaults : List (ℕ × String) → List DefaultValue → List Cluster → List Cluster
apply_defaults assigned [] cs = cs
apply_defaults assigned (d ∷ ds) cs = apply_defaults assigned ds (apply_default assigned d 0 cs)

-- `f.String()` of the field with a name.
unfoldable pub string_field : String → Cluster → String
string_field name c =
    if name == "Name"
    then c.name
    else if name == "URL"
    then c.url
    else if name == "ConsoleURL"
    then c.console_url
    else if name == "MetricsURL"
    then c.metrics_url
    else if name == "LoggingURL"
    then c.logging_url
    else if name == "AppDNS"
    then c.app_dns
    else if name == "SAToken"
    then c.sa_token
    else if name == "SAUsername"
    then c.sa_username
    else if name == "TokenProviderID"
    then c.token_provider_id
    else if name == "AuthClientID"
    then c.auth_client_id
    else if name == "AuthClientSecret"
    then c.auth_client_secret
    else if name == "AuthDefaultScope"
    then c.auth_default_scope
    else if name == "Type"
    then c.cluster_type
    else ""

-- What the loop over the fields finds: a key without a value, or a field of a wrong type.
pub data Complaint : Type 0 where
  missing_key wrong_type : (mapstructure : String) → Complaint

abbrev complain : StructField → Kind → Cluster → List Complaint → List Complaint
complain f string_kind c rest =
    if string_field f.name c == "" then missing_key f.mapstructure ∷ rest else rest
complain f bool_kind c rest = rest
complain f (other_kind t) c rest = wrong_type f.mapstructure ∷ rest

-- The loop over the fields; those that are not mapped or are optional are skipped.
unfoldable pub field_complaints : List StructField → Cluster → List Complaint
unfolding string_field
field_complaints [] c = []
field_complaints (f ∷ fs) c =
    let rest = field_complaints fs c in
    if f.mapstructure == "" || not (f.optional == "") then rest else complain f f.kind c rest
