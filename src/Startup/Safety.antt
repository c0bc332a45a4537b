-- ===== src/Startup/Safety.antt =====
-- A service that listens is in a safe state, and its table agrees with its configuration.
use fabric8_cluster.Common.{
  ℕ, Bool, true, false, ◌≡◌, refl, ap, subst, inl, inr, Bool-cases, Option-cases,
}
use fabric8_cluster.Errors.{Result, ok, err}
use fabric8_cluster.Platform.{Platform, IsLawful}
use fabric8_cluster.Platform.Tables.{IsReliable}
use fabric8_cluster.Exec.{World}
use fabric8_cluster.Repository.Clusters.Invariant.{IsClean}
use fabric8_cluster.Configuration.Files.{ConfigurationData}
use fabric8_cluster.Configuration.Settings.Laws.{IsLoaded, new_configuration_data-IsLoaded}
use fabric8_cluster.Service.Sync.{create_or_save_cluster_from_config}
use fabric8_cluster.Service.Invariant.{IsSound}
use fabric8_cluster.Service.Invariant.Syncing.{create_or_save_cluster_from_config-Keeps}
use fabric8_cluster.Service.Watcher.{Shared, values, initialize_cluster_watcher}
use fabric8_cluster.Service.Watcher.Agreement.{IsOrder, Agrees, synced-Agrees}
use fabric8_cluster.System.Safety.{IsSafe}
use fabric8_cluster.Startup.{
  Machine, CommandLine, start, connect, listening, secured, watched, synchronized, migrated, loaded,
}

-- The configuration has been checked, the state is safe, and the table agrees with the
-- configuration.
pub record IsReady (P : Platform) (s : Shared P) : Type 0 where
  pub configured : IsLoaded s.config
  pub safe : IsSafe P s
  pub agrees : Agrees P s

module _ (P : Platform) (L : IsLawful P) (R : IsReliable P.db) (M : Machine P) (O : IsOrder M.order)
    (s : Shared P) where
  secured-same : (t : Shared P) (q : Result Unit) → secured P M t q ≡ listening s → t ≡ s
  secured-same t (err e) h = absurd (cc)
  secured-same t (ok u) h = cc

  watched-same : (t : Shared P) (q : Result Unit) → watched P M t q ≡ listening s → t ≡ s
  watched-same t (err e) h = absurd (cc)
  watched-same t (ok u) h = secured-same t M.token_manager h

  synchronized-IsReady :
      (c : ConfigurationData) (w : World P.State) (q : Result Unit × World P.State)
      → IsLoaded c
      → IsSound P w
      → create_or_save_cluster_from_config P (values M.order c) w ≡ q
      → synchronized P M c q ≡ listening s
      → IsReady P s
  synchronized-IsReady c w (err e, w') good sound ran h = absurd (cc)
  synchronized-IsReady c w (ok u, w') good sound ran h =
      let t : Shared P = record { config = c; world = w' } in
      let kept : IsSound P w' =
        subst (IsSound P) (ap (λ q. q.1) ran)
          ((create_or_save_cluster_from_config-Keeps P L (values M.order c)).after w sound) in
      subst (IsReady P)
        (watched-same t (initialize_cluster_watcher M.files M.new_watcher M.watch c) h)
        (record {
          configured = good;
          safe = record { sound = kept; keyed = good.keyed };
          agrees = synced-Agrees P L M.order O c good.keyed w w' sound R ran;
        })

  migrated-IsReady :
      (c : ConfigurationData) (migrate_db : Bool) (w : World P.State) (q : Result P.State)
      → IsLoaded c
      → w.in_transaction ≡ false
      → ((t : P.State) → q ≡ ok t → IsClean P t)
      → migrated P M c migrate_db w q ≡ listening s
      → IsReady P s
  migrated-IsReady c migrate_db w (err e) good outside clean h = absurd (cc)
  migrated-IsReady c true w (ok t) good outside clean h = absurd (cc)
  migrated-IsReady c false w (ok t) good outside clean h =
      synchronized-IsReady c (record w { store = t }) _ good
        (record { clean = clean t refl; idle = outside }) refl h

  loaded-IsReady :
      (line : CommandLine) (attempts : ℕ) (w : World P.State) (q : Result ConfigurationData)
      → ((c : ConfigurationData) → q ≡ ok c → IsLoaded c)
      → w.in_transaction ≡ false
      → ((t : P.State) → M.migrate w.store ≡ ok t → IsClean P t)
      → loaded P M line attempts w q ≡ listening s
      → IsReady P s
  loaded-IsReady line attempts w (err e) good outside clean h = absurd (cc)
  loaded-IsReady line attempts w (ok c) good outside clean h = elim (Bool-cases line.print_config) [
    | inl print ↦ let never = (rw print at h) in absurd (cc)
    | inr serve ↦ elim (Option-cases (connect attempts 0 M.open_database)) [
      | inl nowhere ↦ let never = (rw (serve, nowhere) at h) in absurd (cc)
      | inr (n, there) ↦
          migrated-IsReady c line.migrate_db w (M.migrate w.store) (good c refl) outside clean
            (rw (serve, there) at h)
    ]
  ]

  -- On a lawful platform where transactions, reads by id and deletions always succeed, and `range`
  -- meets every value: if the migrated table is clean, no transaction is running and start ends in
  -- listening, then the configuration has clusters and all their required fields, the state is
  -- safe, and table and configuration agree: every configured cluster has a row at its url (with a
  -- trailing slash), and every row is that of a configured cluster.
  pub start-IsReady :
      (line : CommandLine) (attempts : ℕ) (w : World P.State)
      → w.in_transaction ≡ false
      → ((t : P.State) → M.migrate w.store ≡ ok t → IsClean P t)
      → start P M line attempts w ≡ listening s
      → IsReady P s
  unfolding start
  start-IsReady line attempts w outside clean h =
      loaded-IsReady line attempts w _
        (λ c e. new_configuration_data-IsLoaded P.urls M.files _ _ _ _ c e) outside clean h
