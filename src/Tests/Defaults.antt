-- ===== src/Tests/Defaults.antt =====
-- A viper of two functions, and a service for which nothing is set.
use fabric8_cluster.Common.{
  ap, nat_eq, ℕ, String, Bool, true, false, Option, none, some, ◌≡◌, ◌≢◌, refl, if◌then◌else◌, ◌==◌,
  string_eq, [], ◌∷◌,
}
use fabric8_cluster.Platform.Memory.Texts.{web}
use fabric8_cluster.Configuration.Settings.{check_defaults}
use fabric8_cluster.Configuration.Viper.{
  Viper, IsLawful, Setting, string, int, bool, duration, ℤ, pos, negsuc, or_else,
}
use fabric8_cluster.Configuration.Defaults.{
  set_config_defaults, get_postgres_config_string, is_log_json, get_dev_mode_private_key, settings,
}
use fabric8_cluster.Configuration.Defaults.Laws.{
  silent-defaults, default_settings, default_handlers,
}
use fabric8_cluster.Configuration.Serving.{database_settings, handlers, listeners}
use fabric8_cluster.Tests.Configured.{empty}

-- What is explicit, and the defaults.
abbrev Store : Type 0
Store = (String → Option Setting) × (String → Option Setting)

abbrev string_in : Option Setting → String
string_in (some (string s)) = s
string_in _ = ""

abbrev int_in : Option Setting → ℤ
int_in (some (int n)) = n
int_in _ = pos 0

abbrev bool_in : Option Setting → Bool
bool_in (some (bool b)) = b
bool_in _ = false

abbrev duration_in : Option Setting → ℕ
duration_in (some (duration n)) = n
duration_in _ = 0

abbrev is_some : Option Setting → Bool
is_some none = false
is_some (some x) = true

abbrev at : Store → String → Option Setting
at v k = or_else (v.0 k) (v.1 k)

abbrev plain_viper : Viper
plain_viper = record {
  State = Store;
  set_default = λ k x v. (v.0, λ j. if j == k then some x else v.1 j);
  is_set = λ v k. is_some (at v k);
  get_string = λ v k. string_in (at v k);
  get_int = λ v k. int_in (at v k);
  get_bool = λ v k. bool_in (at v k);
  get_duration = λ v k. duration_in (at v k);
  explicit = λ v k. v.0 k;
  default = λ v k. v.1 k;
}

plain_viper-IsLawful : IsLawful plain_viper
plain_viper-IsLawful = record {
  explicit-set_default = λ v k j x. refl;
  default-set_default = λ v k j x. refl;
  is_set_absent = λ v k e. ap is_some e;
  is_set_present = λ v k x e. ap is_some e;
  get_string_same = λ v k s e. ap string_in e;
  get_string_absent = λ v k e. ap string_in e;
  get_int_same = λ v k n e. ap int_in e;
  get_bool_same = λ v k b e. ap bool_in e;
  get_duration_same = λ v k n e. ap duration_in e;
}

abbrev silent : Store
silent = ((λ k. none), λ k. none)

abbrev bare : Store
bare = set_config_defaults plain_viper silent

abbrev decimal : ℤ → String
decimal (pos n) = if n == 5 then "5" else "5434"
decimal (negsuc n) = "-1"

silent-defaults_example :
    (get_postgres_config_string plain_viper decimal bare
      ≡ "host=localhost port=5434 user=postgres password=mysecretpassword dbname=postgres sslmode=disable connect_timeout=5")
    × (is_log_json plain_viper bare ≡ true)
    × (get_dev_mode_private_key plain_viper "key" bare ≡ none)
    × (database_settings plain_viper true bare ≡ default_settings)
    × (handlers plain_viper bare ≡ default_handlers)
    × (listeners plain_viper bare ≡ "0.0.0.0:8087" ∷ [])
    × ((check_defaults web (settings plain_viper bare) empty).default_configuration_error ≢ none)
unfolding nat_eq
silent-defaults_example =
    silent-defaults plain_viper plain_viper-IsLawful silent (λ j. refl) (λ j. refl) decimal "key"
      true web empty
