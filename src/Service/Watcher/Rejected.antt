-- ===== src/Service/Watcher/Rejected.antt =====
-- What the watcher does with a configuration file that is gone.
use fabric8_cluster.Common.{
  string_eq, ◌==◌, ◌<>◌, String, Bool, true, ◌≡◌, refl, List, [], ap, ◌||◌, some, ◌∙◌,
}
use fabric8_cluster.Errors.{ok}
use fabric8_cluster.Model.{Cluster}
use fabric8_cluster.Platform.{Platform, IsLawful}
use fabric8_cluster.Platform.Tables.{IsReliable}
use fabric8_cluster.Configuration.Decoding.{decode_clusters}
use fabric8_cluster.Configuration.Files.{
  Files, missing, Decoded, ConfigurationData, read_from_json_file, init_cluster_config, path_exists,
  check_cluster_config, by_url,
}
use fabric8_cluster.Service.Sync.{create_or_save_cluster_from_config}
use fabric8_cluster.Service.Watcher.Agreement.{IsOrder, Agrees, handle_event-Agrees, step}
use fabric8_cluster.Service.Invariant.{IsSound}
use fabric8_cluster.Service.Watcher.{Shared, changed, handle_event, reload_cluster_config, values}

blank_eq : ◌==◌ {A = String} "" "" ≡ true
unfolding string_eq
blank_eq = refl

module _ (F : Files) (d : Decoded) (path : String) where
  -- A file that is gone is no error for the loader: the built-in one is taken.
  missing_read :
      F.stat path ≡ missing
      → F.asset "oso-clusters.conf" ≡ ok d
      → read_from_json_file F "" path "oso-clusters.conf"
        ≡ (ok (d, some (path <> " is not used")), "./configuration/conf-files/oso-clusters.conf")
  unfolding read_from_json_file
  missing_read gone built =
      let nowhere : path_exists F path ≡ ok "" = rw (gone, path_exists) refl in
      rw (blank_eq) (rw (nowhere) (rw (blank_eq) (rw (built) refl)))

module _ (F : Files) (c : ConfigurationData) (d : Decoded) (cs : List Cluster) where
  missing-reload :
      F.stat c.cluster_config_file_path ≡ missing
      → F.asset "oso-clusters.conf" ≡ ok d
      → decode_clusters d ≡ ok cs
      → check_cluster_config (by_url cs []) ≡ ok tt
      → (reload_cluster_config F c).0 ≡ ok tt
        × ((reload_cluster_config F c).1.clusters ≡ by_url cs [])
  unfolding reload_cluster_config init_cluster_config
  missing-reload gone built decoded good =
      rw (missing_read F d c.cluster_config_file_path gone built, decoded, good) (refl, refl)

module _ (P : Platform) (L : IsLawful P) (R : IsReliable P.db) (F : Files)
    (order : List Cluster → List Cluster) (O : IsOrder order) (write removed : Bool) (s : Shared P)
    (sound : IsSound P s.world) (bits : (write || removed) ≡ true) where
  -- On a lawful platform where transactions, reads by id and deletions always succeed, `range`
  -- meets every value, and the state is sound: if a write or a removal is signalled, the
  -- configuration file is missing, the built-in file is accepted and the synchronization with it
  -- returns no error, then after handle_event the built-in clusters are the configuration, and
  -- every row is that of one of them.
  pub missing-handle_event :
      (d : Decoded) (cs : List Cluster)
      → F.stat s.config.cluster_config_file_path ≡ missing
      → F.asset "oso-clusters.conf" ≡ ok d
      → decode_clusters d ≡ ok cs
      → check_cluster_config (by_url cs []) ≡ ok tt
      → (create_or_save_cluster_from_config P
          (values order (reload_cluster_config F s.config).1)
          s.world).0
        ≡ ok tt
      → ((handle_event P F order (changed write removed) s).config.clusters ≡ by_url cs [])
        × Agrees P (handle_event P F order (changed write removed) s)
  missing-handle_event d cs gone built decoded good synced =
      let (fine, taken) = missing-reload F s.config d cs gone built decoded good in
      let c' : ConfigurationData = (reload_cluster_config F s.config).1 in
      let loaded : reload_cluster_config F s.config ≡ (ok tt, c') = (λ i. (fine i, c')) in
      (
        ap (λ z. z.config.clusters) (step P L F order O write removed s sound bits c' loaded synced)
            ∙ taken,
        handle_event-Agrees P L F order O write removed s sound bits c' loaded synced R,
      )
