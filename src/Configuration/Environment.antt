-- ===== src/Configuration/Environment.antt =====
-- GetConfigurationData of configuration/configuration.go: the paths come from the environment.
use fabric8_cluster.Common.{String, Option, none, some}
use fabric8_cluster.Errors.{Result}
use fabric8_cluster.Platform.Web.{Urls}
use fabric8_cluster.Configuration.Files.{Files, ConfigurationData}
use fabric8_cluster.Configuration.Settings.{Settings, new_configuration_data}

-- The value that `os.LookupEnv` gives, empty if the variable is not set.
abbrev pub value_of : Option String → String
value_of none = ""
value_of (some path) = path

module _ (lookup_env : String → Option String) where
  unfoldable pub get_main_config_file : String
  get_main_config_file = value_of (lookup_env "F8_CONFIG_FILE_PATH")

  unfoldable pub get_oso_cluster_config_file : String
  get_oso_cluster_config_file = value_of (lookup_env "F8_OSO_CLUSTER_CONFIG_FILE")

  -- `settings` are those that viper finds with a main file, `main_read` is the result of reading it.
  unfoldable pub get_configuration_data :
      Urls
      → Files
      → (settings : (String → Option String) → String → Settings)
      → (main_read : String → Option String) → Result ConfigurationData
  get_configuration_data U F settings main_read =
      new_configuration_data U F (settings lookup_env get_main_config_file)
        (main_read get_main_config_file) get_main_config_file get_oso_cluster_config_file
