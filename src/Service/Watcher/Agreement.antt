-- ===== src/Service/Watcher/Agreement.antt =====
-- After an event the table agrees with the configuration that was loaded.
use fabric8_cluster.Common.{
  ℕ, String, Bool, true, ◌≡◌, refl, List, [], ◌∷◌, map, ap, ◌||◌, inl, inr, some, Among, subst, ◌∙◌,
  All, sym,
}
use fabric8_cluster.Errors.{Result, ok}
use fabric8_cluster.Model.{Cluster}
use fabric8_cluster.Platform.{Platform, IsLawful}
use fabric8_cluster.Platform.Tables.{IsReliable}
use fabric8_cluster.Exec.{World}
use fabric8_cluster.Configuration.Files.{Files, ConfigurationData, init_cluster_config}
use fabric8_cluster.Configuration.Files.Laws.{init_cluster_config_ok}
use fabric8_cluster.Service.Sync.{create_or_save_cluster_from_config}
use fabric8_cluster.Service.Sync.Agreement.{config_saved, config_only}
use fabric8_cluster.Service.Invariant.{IsSound}
use fabric8_cluster.Service.Watcher.{
  Shared, changed, handle_event, reload_cluster_config, reloaded, values,
}

-- `range` meets every value of a map, and nothing else.
pub record IsOrder (order : List Cluster → List Cluster) : Type 0 where
  pub meets : (cs : List Cluster) (c : Cluster) → Among c cs → Among c (order cs)
  pub only : (cs : List Cluster) (c : Cluster) → Among c (order cs) → Among c cs

value-Among :
    (m : List (String × Cluster)) (u : String) (c : Cluster)
    → Among (u, c) m
    → Among c (map (λ e. e.1) m)
value-Among [] u c h = absurd h
value-Among ((v, d) ∷ m) u c (inl e) = inl (ap (λ p. p.1) e)
value-Among ((v, d) ∷ m) u c (inr h) = inr (value-Among m u c h)

Among-value :
    (m : List (String × Cluster)) (c : Cluster)
    → Among c (map (λ e. e.1) m)
    → (u : String) × Among (u, c) m
Among-value [] c h = absurd h
Among-value ((v, d) ∷ m) c (inl e) = (v, inl (ap (λ x. (v, x)) e))
Among-value ((v, d) ∷ m) c (inr h) = let (u, k) = Among-value m c h in (u, inr k)

entry-All :
    (Q : String × Cluster → Type 0) (m : List (String × Cluster)) (e : String × Cluster)
    → All Q m
    → Among e m
    → Q e
entry-All Q [] e h k = absurd k
entry-All Q (d ∷ m) e h (inl same) = subst Q (sym same) h.0
entry-All Q (d ∷ m) e h (inr k) = entry-All Q m e h.1 k

-- Every configured cluster has its row, and every row is that of a configured cluster.
pub record Agrees (P : Platform) (s : Shared P) : Type 0 where
  pub saved :
      (u : String) (c : Cluster)
      → Among (u, c) s.config.clusters
      → (r : Cluster) × (P.row s.world.store r.cluster_id ≡ some r)
        × (r.url ≡ P.urls.add_trailing_slash u)
  pub only :
      (i : ℕ) (r : Cluster)
      → P.row s.world.store i ≡ some r
      → (u : String) × (c : Cluster) × Among (u, c) s.config.clusters
        × (r.url ≡ P.urls.add_trailing_slash u)

reload-keyed :
    (F : Files) (c c' : ConfigurationData)
    → reload_cluster_config F c ≡ (ok tt, c')
    → All (λ e. e.0 ≡ e.1.url) c'.clusters
unfolding reload_cluster_config
reload-keyed F c c' e =
    let r : Result Unit × String × ConfigurationData =
      init_cluster_config F "" c.cluster_config_file_path c in
    (init_cluster_config_ok F "" c.cluster_config_file_path r.1 c c'
      (λ i. ((e i).0, r.1, (e i).1))).2

module _ (P : Platform) (L : IsLawful P) (order : List Cluster → List Cluster) (O : IsOrder order)
    (c : ConfigurationData) (keyed : All (λ e. e.0 ≡ e.1.url) c.clusters) (w w' : World P.State)
    (sound : IsSound P w) where
  -- The synchronization with a configuration that is loaded.
  pub synced-Agrees :
      IsReliable P.db
      → create_or_save_cluster_from_config P (values order c) w ≡ (ok tt, w')
      → Agrees P (record { config = c; world = w' })
  synced-Agrees R ran = record {
    saved = λ u d m.
        let (r, at, url) =
          (config_saved P L R.durable (values order c) w w' sound.idle sound.clean ran).1 d
            (O.meets _ d (value-Among c.clusters u d m)) in
        (r, at, url ∙ ap P.urls.add_trailing_slash (sym (entry-All _ c.clusters (u, d) keyed m)));
    only = λ i r at.
        let (d, m, url) =
          config_only P L R.durable (values order c) w w' sound.idle sound.clean R ran i r at in
        let (u, n) = Among-value c.clusters d (O.only _ d m) in
        (u, d, n, url ∙ ap P.urls.add_trailing_slash (sym (entry-All _ c.clusters (u, d) keyed n)));
  }

module _ (P : Platform) (L : IsLawful P) (F : Files) (order : List Cluster → List Cluster)
    (O : IsOrder order) (write removed : Bool) (s : Shared P) (sound : IsSound P s.world)
    (bits : (write || removed) ≡ true) (c' : ConfigurationData)
    (loaded : reload_cluster_config F s.config ≡ (ok tt, c'))
    (saved : (create_or_save_cluster_from_config P (values order c') s.world).0 ≡ ok tt) where
  -- The state after the event.
  pub step : handle_event P F order (changed write removed) s ≡ reloaded P order s.world (ok tt, c')
  unfolding handle_event
  step = rw (bits, loaded) refl

  ran :
      create_or_save_cluster_from_config P (values order c') s.world
      ≡ (ok tt, (create_or_save_cluster_from_config P (values order c') s.world).1)
  ran = λ i. (saved i, (create_or_save_cluster_from_config P (values order c') s.world).1)

  -- On a lawful platform where transactions, reads by id and deletions always succeed, `range`
  -- meets every value, and the state is sound: if a write or a removal is signalled, the reload
  -- returns no error and the synchronization with the clusters that it loaded returns none either,
  -- then after handle_event every configured cluster has a row at its url (with a trailing slash),
  -- and every row is that of a configured cluster.
  pub handle_event-Agrees :
      IsReliable P.db → Agrees P (handle_event P F order (changed write removed) s)
  handle_event-Agrees R =
      rw step
        (synced-Agrees P L order O c' (reload-keyed F s.config c' loaded) s.world _ sound R ran)
