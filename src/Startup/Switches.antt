-- ===== src/Startup/Switches.antt =====
-- The switches of the command line that name configuration files have no effect; without them the
-- environment names the files.
use fabric8_cluster.Common.{ℕ, String, none, some, Option, ◌≡◌, refl, ap, ◌∙◌}
use fabric8_cluster.Platform.{Platform}
use fabric8_cluster.Exec.{World}
use fabric8_cluster.Startup.{CommandLine, config_file_from_flags, Machine, start, loaded, chosen}
use fabric8_cluster.Configuration.Settings.{new_configuration_data}
use fabric8_cluster.Configuration.Environment.{
  get_configuration_data, get_main_config_file, get_oso_cluster_config_file, value_of,
}

module _ (P : Platform) (M : Machine P) (line : CommandLine) (attempts : ℕ) (w : World P.State)
    (config cluster_config : String) where
  -- If both configuration files are given by switches, whatever files they name, main loads the
  -- configuration with no main file and no file of clusters.
  given-ignored :
      line.switch "config" ≡ some config
      → line.switch "osoClusterConfigFile" ≡ some cluster_config
      → start P M line attempts w
        ≡ loaded P M line attempts w (
            new_configuration_data P.urls M.files
              (M.settings line.lookup_env "")
              (M.main_read "")
              ""
              "")
  unfolding start config_file_from_flags
  given-ignored main clusters = rw (main, clusters) refl

-- Without the switch the environment is read.
chosen-none : (o : Option String) → chosen none o ≡ value_of o
chosen-none none = refl
chosen-none (some path) = refl

module _ (P : Platform) (M : Machine P) (line : CommandLine) (attempts : ℕ)
    (w : World P.State) where
  -- Without the two switches, main loads what GetConfigurationData loads.
  pub unswitched-start :
      line.switch "config" ≡ none
      → line.switch "osoClusterConfigFile" ≡ none
      → start P M line attempts w
        ≡ loaded P M line attempts w
            (get_configuration_data line.lookup_env P.urls M.files M.settings M.main_read)
  unfolding start config_file_from_flags get_configuration_data get_main_config_file
      get_oso_cluster_config_file
  unswitched-start main clusters =
      rw (main, clusters)
        (ap
            (λ m. loaded P M line attempts w (
              new_configuration_data P.urls M.files (M.settings line.lookup_env m) (M.main_read m) m
                (chosen none (line.lookup_env "F8_OSO_CLUSTER_CONFIG_FILE"))))
            (chosen-none (line.lookup_env "F8_CONFIG_FILE_PATH"))
          ∙ ap
              (λ c. loaded P M line attempts w (
                new_configuration_data P.urls M.files
                  (M.settings line.lookup_env (value_of (line.lookup_env "F8_CONFIG_FILE_PATH")))
                  (M.main_read (value_of (line.lookup_env "F8_CONFIG_FILE_PATH")))
                  (value_of (line.lookup_env "F8_CONFIG_FILE_PATH")) c))
              (chosen-none (line.lookup_env "F8_OSO_CLUSTER_CONFIG_FILE")))
