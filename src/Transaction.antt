-- ===== src/Transaction.antt =====
-- Transactions: GormDB and GormTransaction of gormapplication/application.go, ExecuteInTransaction
-- of application/service/factory/service_factory.go, and Transactional of
-- application/transaction/transaction.go.
pub mod Atomicity
pub mod Keeps
pub mod Leaving
pub mod Models
pub mod Raising
pub mod Timeout
use fabric8_cluster.Common.{ℕ, suc, String, ◌<>◌, Bool, true, false, if◌then◌else◌, ◌==◌, string_eq}
use fabric8_cluster.Errors.{Error, text, database, Result, ok, err, Reply, done, failed}
use fabric8_cluster.Platform.{Platform}
use fabric8_cluster.Exec.{World, Exec}

-- How a piece of work ends: it returns, or it panics with a message.
pub data Run (A : Type 0) : Type 0 where
  returned : Result A → Run A
  panicked : String → Run A

abbrev pub Work : Type 0 → Type 0 → Type 0
Work S A = World S → Run A × World S

-- The levels that SetTransactionIsolationLevel knows, and any other, in digits.
pub data TxIsoLevel : Type 0 where
  default_level read_committed repeatable_read serializable : TxIsoLevel
  other_level : String → TxIsoLevel

module _ {S : Type 0} where
  abbrev set_level : String → Exec S Unit
  set_level level w = (ok tt, record w { isolation = level })

  pub set_transaction_isolation_level : TxIsoLevel → Exec S Unit
  set_transaction_isolation_level read_committed w = set_level "READ COMMITTED" w
  set_transaction_isolation_level repeatable_read w = set_level "REPEATABLE READ" w
  set_transaction_isolation_level serializable w = set_level "SERIALIZABLE" w
  set_transaction_isolation_level default_level w = set_level "" w
  set_transaction_isolation_level (other_level digits) w =
      (err (text ("Unknown transaction isolation level: " <> digits)), w)

-- How `BeginTransaction` ends. `left_open`: with an error, after the database has begun a
-- transaction, which it does not end.
pub data Beginning : Type 0 where
  started : Beginning
  not_started left_open : Error → Beginning

abbrev pub levelled : Reply Unit → Beginning
levelled (done u) = started
levelled (failed e) = left_open (database e)

module _ (P : Platform) where
  unfoldable begin_at_level : World P.State → Reply Unit → Beginning
  begin_at_level w (failed e) = not_started (database e)
  begin_at_level w (done u) =
      if w.isolation == "" then started else levelled (P.set_isolation w.store w.isolation)

  -- `BeginTransaction`.
  unfoldable pub begin_transaction : World P.State → Beginning
  unfolding begin_at_level
  begin_transaction w = begin_at_level w (P.begin w.store)

  module _ {A : Type 0} where
    -- `tx.Rollback()`
    abbrev rolled_back : World P.State → World P.State → Error → Run A × World P.State
    rolled_back w v e = (returned (err e), record v { store = P.rollback w.store v.store })

    -- `tx.Commit()`, whose error is dropped.
    abbrev committed : World P.State → World P.State → A → Run A × World P.State
    committed w v a = (returned (ok a), record v { store = (P.commit w.store v.store).1 })

    -- What the goroutine puts into `errorChan`; a panic is recovered.
    abbrev pub answer : World P.State → Run A → World P.State → Run A × World P.State
    answer w (returned (ok a)) v = committed w v a
    answer w (returned (err e)) v = rolled_back w v e
    answer w (panicked m) v = rolled_back w v (text ("Unknown error: " <> m))

    -- The `select`: the deadline, or the answer.
    unfoldable pub select : World P.State → Run A × World P.State → Run A × World P.State
    select w (r, v) =
        if P.expires w.store v.store
        then rolled_back w v (text "database transaction timeout!")
        else answer w r v

    -- `Transactional` of application/transaction: it always begins a transaction.
    pub transactional : Work P.State A → Work P.State A
    unfolding select
    transactional todo w = elim (begin_transaction w) [
      | not_started e ↦ (returned (err e), w)
      | left_open e ↦ (returned (err e), record w { unended = suc w.unended })
      | started ↦ select w (todo w)
    ]

    unfoldable pub entered : Work P.State A → Work P.State A
    entered todo w = todo (record w { in_transaction = true })

    -- The deferred `endTransaction`.
    unfoldable pub end_transaction : Run A × World P.State → Run A × World P.State
    end_transaction (r, v) = (r, record v { in_transaction = false })

    -- `ExecuteInTransaction`: inside a transaction the work just runs.
    unfoldable pub execute_in_transaction : Work P.State A → Work P.State A
    unfolding entered end_transaction
    execute_in_transaction todo w =
        if w.in_transaction then todo w else elim (begin_transaction w) [
          | not_started e ↦ (returned (err e), w)
          | left_open e ↦ (returned (err e), record w { unended = suc w.unended })
          | started ↦ end_transaction (select w (entered todo w))
        ]

    -- The methods of the services do not panic.
    abbrev returning : Exec P.State A → Work P.State A
    returning m w = (returned (m w).0, (m w).1)

    abbrev pub result : Run A × World P.State → Result A × World P.State
    result (returned r, w) = (r, w)
    result (panicked m, w) = (err (text m), w)

    unfoldable pub in_transaction : Exec P.State A → Exec P.State A
    in_transaction m w = result (execute_in_transaction (returning m) w)
