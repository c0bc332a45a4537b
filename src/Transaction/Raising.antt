-- ===== src/Transaction/Raising.antt =====
-- The errors that a transaction returns: those of its work, the database's, and the timeout.
use fabric8_cluster.Common.{
  suc, Bool, true, false, inl, inr, Bool-cases, if◌then◌else◌, ◌==◌, string_eq,
}
use fabric8_cluster.Errors.{Error, DbError, database, text, Result, ok, err, Reply, done, failed}
use fabric8_cluster.Platform.{Platform}
use fabric8_cluster.Exec.{World, Exec}
use fabric8_cluster.Exec.Raising.{Failing, Raises}
use fabric8_cluster.Transaction.{
  Run, returned, in_transaction, execute_in_transaction, begin_transaction, select, answer,
  end_transaction, entered, result, returning, begin_at_level, levelled, Beginning, started,
  not_started, left_open,
}

module _ (P : Platform) (J : Error → Type 0) (server : (d : DbError) → J (database d))
    (late : J (text "database transaction timeout!")) where
  -- The error of a beginning.
  Fails : Beginning → Type 0
  Fails started = Unit
  Fails (not_started e) = J e
  Fails (left_open e) = J e

  levelled-Fails : (q : Reply Unit) → Fails (levelled q)
  unfolding Fails
  levelled-Fails (done u) = tt
  levelled-Fails (failed d) = server d

  begin_at_level-Fails : (w : World P.State) (q : Reply Unit) → Fails (begin_at_level P w q)
  unfolding begin_at_level Fails
  begin_at_level-Fails w (failed d) = server d
  begin_at_level-Fails w (done u) = elim (Bool-cases (w.isolation == "")) [
    | inl none_set ↦ rw none_set tt
    | inr level ↦ rw level (levelled-Fails (P.set_isolation w.store w.isolation))
  ]

  select-Failing :
      {A : Type 0} (w v : World P.State) (r : Result A)
      → Failing J r
      → Failing J (result P (end_transaction P (select P w (returned r, v)))).0
  unfolding select end_transaction
  select-Failing {A} w v r f = elim (Bool-cases (P.expires w.store v.store)) [
    | inl passed ↦ rw passed late
    | inr in_time ↦ rw in_time (answered r f)
  ]
    where
      answered :
          (r : Result A)
          → Failing J r
          → Failing J (result P (end_transaction P (answer P w (returned r) v))).0
      answered (ok a) f = tt
      answered (err e) f = f

  if-Failing :
      {A : Type 0} (b : Bool) (x y : Run A × World P.State)
      → Failing J (result P x).0
      → Failing J (result P y).0
      → Failing J (result P (if b then x else y)).0
  if-Failing true x y f g = f
  if-Failing false x y f g = g

  pub in_transaction-Raises :
      {A : Type 0} (m : Exec P.State A) → Raises J m → Raises J (in_transaction P m)
  unfolding in_transaction execute_in_transaction begin_transaction entered Fails
  in_transaction-Raises {A} m rm w = if-Failing w.in_transaction _ _ (rm w) (
      after_begin (begin_at_level P w (P.begin w.store)) (begin_at_level-Fails w (P.begin w.store)))
    where
      after_begin :
          (q : Beginning)
          → Fails q
          → Failing J
              (result P (elim q as (λ x. Run A × World P.State) [
                | not_started e ↦ (returned (err e), w)
                | left_open e ↦ (returned (err e), record w { unended = suc w.unended })
                | started ↦
                    end_transaction P
                      (select P w (returning P m (record w { in_transaction = true })))
              ])).0
      after_begin started f = select-Failing w _ _ (rm (record w { in_transaction = true }))
      after_begin (not_started e) f = f
      after_begin (left_open e) f = f
