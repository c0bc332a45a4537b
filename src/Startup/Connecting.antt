-- ===== src/Startup/Connecting.antt =====
-- The service comes up as soon as the database can be opened.
use fabric8_cluster.Common.{
  String, false, ℕ, zero, suc, ◌+◌, ◌<◌, ◌≡◌, some, refl, ap, sym, ◌∙◌, arith,
}
use fabric8_cluster.Errors.{Error, Result, ok, err}
use fabric8_cluster.Platform.{Platform}
use fabric8_cluster.Exec.{World}
use fabric8_cluster.Configuration.Files.{ConfigurationData}
use fabric8_cluster.Configuration.Settings.{new_configuration_data}
use fabric8_cluster.Service.Sync.{create_or_save_cluster_from_config}
use fabric8_cluster.Service.Watcher.{values, initialize_cluster_watcher}
use fabric8_cluster.Startup.{
  connect, CommandLine, config_file_from_flags, Machine, start, listening,
}

module _ (attempt : ℕ → Result Unit) where
  first : (k n : ℕ) → attempt n ≡ ok tt → connect (suc k) n attempt ≡ some n
  unfolding connect
  first k n now = rw (now, connect) refl

  connect_from :
      (k m n : ℕ)
      → attempt (n + m) ≡ ok tt
      → ((j : ℕ) → j < m → (e : Error) × (attempt (n + j) ≡ err e))
      → connect (suc (m + k)) n attempt ≡ some (n + m)
  unfolding connect
  connect_from k zero n works fails =
      let here : n + 0 ≡ n = omega arith in
      let size : 0 + k ≡ k = omega arith in
      let now : attempt n ≡ ok tt = ap attempt (sym here) ∙ works in
      first (0 + k) n now ∙ ap some (sym here)
  connect_from k (suc m) n works fails =
      let (e, bad) = fails 0 (omega arith) in
      let here : n + 0 ≡ n = omega arith in
      let on : (j : ℕ) → suc n + j ≡ n + suc j = λ j. omega arith in
      let size : suc m + k ≡ suc (m + k) = omega arith in
      rw (ap attempt (sym here) ∙ bad, size, sym (on m), connect)
        (connect_from k m (suc n) (ap attempt (on m) ∙ works) (λ j less.
          let (x, failed) = fails (suc j) (omega arith) in (x, ap attempt (on j) ∙ failed)))

  -- If attempt m opens the database and every attempt before it fails, the loop that starts at 0
  -- with at least m + 1 attempts ends with attempt m.
  pub connect_first :
      (m k : ℕ)
      → attempt m ≡ ok tt
      → ((j : ℕ) → j < m → (e : Error) × (attempt j ≡ err e))
      → connect (suc (m + k)) 0 attempt ≡ some m
  connect_first m k works fails =
      let none_before : (j : ℕ) → 0 + j ≡ j = λ j. omega arith in
      connect_from k m 0 (ap attempt (none_before m) ∙ works)
        (λ j less. let (x, failed) = fails j less in (x, ap attempt (none_before j) ∙ failed))
      ∙ ap some (none_before m)

module _ (P : Platform) (M : Machine P) (line : CommandLine) (w : World P.State)
    (c : ConfigurationData) (s : P.State) where
  abbrev pub config_file : String
  config_file = config_file_from_flags line "config" "F8_CONFIG_FILE_PATH"

  -- The synchronization at the start, on the migrated database.
  abbrev pub first_sync : Result Unit × World P.State
  first_sync = create_or_save_cluster_from_config P (values M.order c) (record w { store = s })

  -- If the configuration loads, neither switch to exit is given, the m-th attempt is the first that
  -- opens the database, and the migration, the synchronization, the watcher and the token manager
  -- return no error, then start, allowed any number of attempts above m, ends in listening, with
  -- the configuration that was loaded and the state that the synchronization left.
  pub start-listens :
      (m k : ℕ)
      → new_configuration_data P.urls M.files
          (M.settings line.lookup_env config_file)
          (M.main_read config_file)
          config_file
          (config_file_from_flags line "osoClusterConfigFile" "F8_OSO_CLUSTER_CONFIG_FILE")
        ≡ ok c
      → line.print_config ≡ false
      → M.open_database m ≡ ok tt
      → ((j : ℕ) → j < m → (e : Error) × (M.open_database j ≡ err e))
      → M.migrate w.store ≡ ok s
      → line.migrate_db ≡ false
      → first_sync.0 ≡ ok tt
      → initialize_cluster_watcher M.files M.new_watcher M.watch c ≡ ok tt
      → M.token_manager ≡ ok tt
      → start P M line (suc (m + k)) w ≡ listening (record { config = c; world = first_sync.1 })
  unfolding start
  start-listens m k loads serves works fails moves stays syncs watches trusts =
      let opened = connect_first M.open_database m k works fails in
      rw (loads, serves, opened, moves, stays, syncs, watches, trusts) refl
