-- ===== src/Service/Watcher.antt =====
-- ReloadClusterConfig of configuration/configuration.go, and the file watcher that
-- InitializeClusterWatcher of cluster/service/cluster_service.go starts. Between two events the
-- loop keeps nothing but the configuration and the database.
pub mod Agreement
pub mod Rejected
use fabric8_cluster.Common.{
  String, Bool, true, false, ◌||◌, List, map, if◌then◌else◌, ◌==◌, string_eq, ◌<>◌,
}
use fabric8_cluster.Errors.{Error, Result, ok, err}
use fabric8_cluster.Model.{Cluster}
use fabric8_cluster.Platform.{Platform}
use fabric8_cluster.Exec.{World}
use fabric8_cluster.Configuration.Files.{Files, ConfigurationData, init_cluster_config, path_exists}
use fabric8_cluster.Service.Sync.{create_or_save_cluster_from_config}

-- `ReloadClusterConfig`: the error, and the configuration as it is left. The file that was used is
-- forgotten.
unfoldable pub reload_cluster_config : Files → ConfigurationData → Result Unit × ConfigurationData
reload_cluster_config F c =
    let r = init_cluster_config F "" c.cluster_config_file_path c in (r.0, r.2)

-- The loader and the database, as the service's goroutines share them.
pub record Shared (P : Platform) : Type 0 where
  pub config : ConfigurationData
  pub world : World P.State

-- An event of fsnotify with the bits `Write` and `Remove` of its operation, an error of the
-- watcher, or a closed channel.
pub data Event : Type 0 where
  changed : (write removed : Bool) → Event
  failure : Error → Event
  closed : Event

-- The values of the map `GetClusters`, in the order in which `range` happens to meet them.
abbrev pub values : (List Cluster → List Cluster) → ConfigurationData → List Cluster
values order c = order (map (λ e. e.1) c.clusters)

module _ (P : Platform) where
  -- "Reload config if operation is Write or Remove." All errors are only logged.
  abbrev pub reloaded :
      (List Cluster → List Cluster) → World P.State → Result Unit × ConfigurationData → Shared P
  reloaded order w (err e, c) = record { config = c; world = w }
  reloaded order w (ok u, c) = record {
    config = c;
    world = (create_or_save_cluster_from_config P (values order c) w).1;
  }

  -- One round of the loop; `F` is the file system as the round finds it. Which files are watched,
  -- and adding a removed one again, is fsnotify's own state.
  unfoldable pub handle_event : Files → (List Cluster → List Cluster) → Event → Shared P → Shared P
  handle_event F order (changed write removed) s =
      if write || removed then reloaded order s.world (reload_cluster_config F s.config) else s
  handle_event F order (failure e) s = s
  handle_event F order closed s = s

-- What `InitializeClusterWatcher` returns as its error; the goroutine of its loop has been started
-- unless there is no watcher. `new_watcher` and `watch` are fsnotify's `NewWatcher` and `Add`.
unfoldable pub initialize_cluster_watcher :
    Files
    → (new_watcher : Result Unit) → (watch : String → Result Unit) → ConfigurationData
    → Result Unit
initialize_cluster_watcher F (err e) watch c = err e
initialize_cluster_watcher F (ok u) watch c = start (path_exists F config_path)
  where
    config_path : String
    config_path =
        if c.cluster_config_file_path == "./configuration/conf-files/oso-clusters.conf"
        then "./../../" <> c.cluster_config_file_path
        else c.cluster_config_file_path

    start : Result String → Result Unit
    start (err e) = err e
    start (ok p) = if p == "" then ok tt else watch p
