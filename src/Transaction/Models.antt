-- ===== src/Transaction/Models.antt =====
-- Transactional of models/transaction.go. Unlike the other helpers it waits without a deadline, does
-- not recover from a panic, and returns the error of the commit.
use fabric8_cluster.Common.{suc, ◌≡◌, ◌≢◌, ◌⊎◌, inl, inr, refl, arith}
use fabric8_cluster.Errors.{database, Result, ok, err, Reply, done, failed}
use fabric8_cluster.Platform.{Platform, IsLawful}
use fabric8_cluster.Exec.{World}
use fabric8_cluster.Transaction.{Run, returned, panicked, Work}

abbrev reply_error : Reply Unit → Result Unit
reply_error (done u) = ok tt
reply_error (failed e) = err (database e)

module _ (P : Platform) where
  -- `tx.Commit()` puts its error into `tx.Error`.
  unfoldable commit_and_report :
      World P.State → World P.State → Reply Unit × P.State → Run Unit × World P.State
  commit_and_report w v (q, s) = (returned (reply_error q), record v { store = s })

  -- What follows the work. A panic goes on to the caller, and leaves the transaction open: nobody
  -- sees what it wrote.
  unfoldable after_work : World P.State → Run Unit × World P.State → Run Unit × World P.State
  unfolding commit_and_report
  after_work w (returned (ok u), v) = commit_and_report w v (P.commit w.store v.store)
  after_work w (returned (err e), v) =
      (returned (err e), record v { store = P.rollback w.store v.store })
  after_work w (panicked m, v) = (panicked m, record v { store = w.store; unended = suc v.unended })

  unfoldable after_begin : World P.State → Work P.State Unit → Reply Unit → Run Unit × World P.State
  unfolding after_work
  after_begin w todo (failed e) = (returned (err (database e)), w)
  after_begin w todo (done u) = after_work w (todo w)

  unfoldable pub transactional : Work P.State Unit → Work P.State Unit
  unfolding after_begin
  transactional todo w = after_begin w todo (P.begin w.store)

  abbrev succeeded : Run Unit
  succeeded = returned (ok tt)

  -- The work succeeded and is in the database, or the database is as it was.
  abbrev AllOrNothing :
      (w : World P.State) (q : Run Unit × World P.State) (r : Run Unit × World P.State) → Type 0
  AllOrNothing w q r =
      ((r.0 ≡ succeeded) × (q.0 ≡ succeeded) × (r.1.store ≡ q.1.store))
      ⊎ ((r.0 ≢ succeeded) × (r.1.store ≡ w.store))

  module _ (L : IsLawful P) (w : World P.State) where
    committed_all :
        (v : World P.State) (q : Reply Unit × P.State)
        → P.commit w.store v.store ≡ q
        → AllOrNothing w (succeeded, v) (commit_and_report w v q)
    unfolding commit_and_report
    committed_all v (done u, t) same =
        inl (refl, refl, L.transactional.commit_done w.store v.store t same)
    committed_all v (failed e, t) same =
        inr (ground arith, L.transactional.commit_failed w.store v.store t e same)

    after_work_all : (q : Run Unit × World P.State) → AllOrNothing w q (after_work w q)
    unfolding after_work
    after_work_all (returned (ok u), v) = committed_all v (P.commit w.store v.store) refl
    after_work_all (returned (err e), v) =
        inr (ground arith, L.transactional.rollback_back w.store v.store)
    after_work_all (panicked m, v) = inr (ground arith, refl)

    begun_all :
        (todo : Work P.State Unit) (q : Reply Unit) → AllOrNothing w (todo w) (after_begin w todo q)
    unfolding after_begin
    begun_all todo (failed e) = inr (ground arith, refl)
    begun_all todo (done u) = after_work_all (todo w)

    -- On a lawful platform: transactional of models either succeeds, and so did the work, whose
    -- changes are in the database, or it does not, and the database is as it was. An error to begin
    -- or to commit and a panic of the work count as not succeeding.
    pub transactional_all :
        (todo : Work P.State Unit) → AllOrNothing w (todo w) (transactional todo w)
    unfolding transactional
    transactional_all todo = begun_all todo (P.begin w.store)
