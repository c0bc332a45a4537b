-- ===== src/Tests/Configured.antt =====
-- The configuration and the check of existence at concrete inputs.
use fabric8_cluster.Common.{
  ◌≤◌, ◌<◌, ◌<>◌, ℕ, String, ◌≡◌, ◌≢◌, ◌↔◌, refl, some, none, true, false, if◌then◌else◌, List, [],
  ◌∷◌, All, inl, nat_eq, string_eq,
}
use fabric8_cluster.Errors.{ok, err, text}
use fabric8_cluster.Model.{Cluster, oso}
use fabric8_cluster.Platform.Memory.Texts.{web}
use fabric8_cluster.Configuration.Keys.RoundTrip.{IsDigits, value, key, parse_key-key}
use fabric8_cluster.Configuration.Keys.{max_int, parse_key, find, line, get_assigned_fields}
use fabric8_cluster.Configuration.Decoding.{
  decode_clusters, all_with_defaults, with_defaults, is_assigned, nth, decode_clusters-nth,
}
use fabric8_cluster.Configuration.Files.{
  Files, Stat, ConfigurationData, read_from_json_file, init_cluster_config, check_cluster_config,
  all_missing, missing_keys, complained, by_url, assign,
}
use fabric8_cluster.Configuration.Files.Laws.{IsComplete, check_cluster_config_iff}
use fabric8_cluster.Configuration.Settings.{
  Settings, check_defaults, validate_service_url, get_auth_service_url, get_cluster_service_url,
}
use fabric8_cluster.Tests.Data.{east}

abbrev pub keys : List String
keys = "[0]" ∷ "[0].type" ∷ "[0].api-url" ∷ []

abbrev pub assigned : List (ℕ × String)
assigned = (0, "type") ∷ (0, "api-url") ∷ []

assigned-keys : get_assigned_fields keys ≡ ok assigned
unfolding get_assigned_fields parse_key find line nat_eq string_eq
assigned-keys = refl

abbrev pub plain : Cluster
plain = record east { sa_token_encrypted = false }

decoded : decode_clusters (ok (plain ∷ [], keys)) ≡ ok (east ∷ [])
unfolding decode_clusters all_with_defaults with_defaults get_assigned_fields parse_key find line
    nat_eq string_eq
decoded = refl

decode_clusters-nth_example :
    nth (east ∷ []) 0
    ≡ some (record plain {
      sa_token_encrypted =
          if is_assigned assigned 0 "service-account-token-encrypted" then false else true;
      cluster_type = if is_assigned assigned 0 "type" then east.cluster_type else oso;
    })
decode_clusters-nth_example =
    decode_clusters-nth (plain ∷ []) (east ∷ []) keys assigned 0 plain assigned-keys decoded refl

check_cluster_config_iff_example : (check_cluster_config (("u", east) ∷ []) ≡ ok tt) ↔ (
    (◌≢◌ {A = List (String × Cluster)} (("u", east) ∷ []) [])
    × All {A = String × Cluster} (λ e. IsComplete e.1) (("u", east) ∷ []))
check_cluster_config_iff_example = check_cluster_config_iff (("u", east) ∷ [])

-- One file, which holds one cluster.
abbrev pub files : Files
files = record {
  stat = λ path. Stat.exists;
  read = λ path. inl (ok (plain ∷ [], keys));
  asset = λ name. err (text "no asset");
  not_found = text "no such file";
}

abbrev pub empty : ConfigurationData
empty = record { clusters = []; cluster_config_file_path = ""; default_configuration_error = none }

abbrev pub filled : ConfigurationData
filled = record empty { clusters = (east.url, east) ∷ [] }

configured :
    init_cluster_config files "" "/etc/oso-clusters.conf" empty
    ≡ (ok tt, "/etc/oso-clusters.conf", filled)
unfolding init_cluster_config read_from_json_file check_cluster_config all_missing missing_keys
    complained by_url assign decode_clusters all_with_defaults with_defaults get_assigned_fields
    parse_key find line nat_eq string_eq
configured = refl

abbrev pub production : Settings
production = record {
  developer_mode_enabled = false;
  postgres_password = "pw";
  environment = "production";
  cluster_service_url = none;
  auth_url = some "https://auth.openshift.io";
  sentry_dsn = "dsn";
}

quiet : (check_defaults web production empty).default_configuration_error ≡ none
unfolding check_defaults validate_service_url get_auth_service_url get_cluster_service_url nat_eq
    string_eq
quiet = refl

abbrev overflowing : String
overflowing = "9223372036854775808"

overflowing-IsDigits : IsDigits overflowing
overflowing-IsDigits = (
  refl,
  (
    refl,
    (
      refl,
      (
        refl,
        (
          refl,
          (
            refl,
            (
              refl,
              (
                refl,
                (
                  refl,
                  (
                    refl,
                    (refl, (refl, (refl, (refl, (refl, (refl, (refl, (refl, (refl, tt))))))))),
                  ),
                ),
              ),
            ),
          ),
        ),
      ),
    ),
  ),
)

parse_key-key_example :
    (value 0 overflowing ≤ max_int
      → parse_key (key overflowing "app-dns") ≡ ok (some (value 0 overflowing, "app-dns")))
    × (max_int < value 0 overflowing
        → parse_key (key overflowing "app-dns")
          ≡ err (
              text (
                "unable to parse field assigned during decoding: '" <> overflowing
                <> "' is not an integer")))
unfolding line nat_eq string_eq
parse_key-key_example =
    parse_key-key "app-dns" (λ e. absurd (cc)) refl overflowing overflowing-IsDigits
      (λ e. absurd (cc))
