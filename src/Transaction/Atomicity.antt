-- ===== src/Transaction/Atomicity.antt =====
-- A transaction is all or nothing.
use fabric8_cluster.Common.{◌≡◌, ◌⊎◌, inl, inr, true, false, arith}
use fabric8_cluster.Common.{◌∙◌}
use fabric8_cluster.Platform.Tables.{IsDurable, IsReliable}
use fabric8_cluster.Errors.{Error, ok, err, done, Reply-cases}
use fabric8_cluster.Platform.{Platform, IsLawful}
use fabric8_cluster.Exec.{World, Exec}
use fabric8_cluster.Transaction.{
  Run, returned, panicked, Work, execute_in_transaction, in_transaction, begin_transaction, select,
  returning,
}

-- The work did not end in a panic.
abbrev Returns : {A : Type 0} → Run A → Type 0
Returns (returned r) = Unit
Returns (panicked m) = ⊥

module _ (P : Platform) (L : IsLawful P) where
  pub commit-either : (s t : P.State) → ((P.commit s t).1 ≡ t) ⊎ ((P.commit s t).1 ≡ s)
  commit-either s t = elim (Reply-cases (P.commit s t)) [
    | inl (u, v, same) ↦ inl (ground (arith, L.transactional.commit_done s t v same))
    | inr (f, v, same) ↦ inr (ground (arith, L.transactional.commit_failed s t v f same))
  ]

module _ (P : Platform) (L : IsLawful P) {A : Type 0} where
  select_err :
      (w w' : World P.State) (q : Run A × World P.State) (e : Error)
      → select P w q ≡ (returned (err e), w')
      → w'.store ≡ w.store
  unfolding select
  select_err w w' (r, v) e h = ground (arith, L.transactional.rollback_back w.store v.store)

  select_ok :
      (w w' : World P.State) (r : Run A) (v : World P.State) (a : A)
      → select P w (r, v) ≡ (returned (ok a), w')
      → (r ≡ returned (ok a))
        × (w'.store ≡ (P.commit w.store v.store).1)
        × (P.expires w.store v.store ≡ false)
  unfolding select
  select_ok w w' r v a h = ground arith

  select-Returns : (w : World P.State) (q : Run A × World P.State) → Returns (select P w q).0
  unfolding select
  select-Returns w (returned (ok a), v) = ground arith
  select-Returns w (r, v) = ground arith

  -- On a lawful platform: a transaction whose whole work is another transaction is that
  -- transaction.
  pub execute_in_transaction_nested :
      (todo : Work P.State A) (w : World P.State)
      → execute_in_transaction P (execute_in_transaction P todo) w ≡ execute_in_transaction P todo w
  unfolding execute_in_transaction
  execute_in_transaction_nested todo w = ground arith

  -- On a lawful platform and with inTransaction not set: if execute_in_transaction returns an
  -- error, the committed state of the database is as it was before and inTransaction is not set.
  pub execute_in_transaction_err :
      (todo : Work P.State A) (w w' : World P.State) (e : Error)
      → w.in_transaction ≡ false
      → execute_in_transaction P todo w ≡ (returned (err e), w')
      → (w'.store ≡ w.store) × (w'.in_transaction ≡ false)
  unfolding execute_in_transaction
  execute_in_transaction_err todo w w' e outside h = ground (
    arith,
    select_err w
        (record w' {
          in_transaction =
              (select P w (todo (record w { in_transaction = true }))).1.in_transaction;
        })
        (todo (record w { in_transaction = true })) e,
  )

  -- A panic of the work does not pass through execute_in_transaction.
  execute_in_transaction-Returns :
      (todo : Work P.State A) (w : World P.State)
      → w.in_transaction ≡ false
      → Returns (execute_in_transaction P todo w).0
        × ((execute_in_transaction P todo w).1.in_transaction ≡ false)
  unfolding execute_in_transaction
  execute_in_transaction-Returns todo w outside =
      ground (arith, select-Returns w (todo (record w { in_transaction = true })))

  -- On a lawful platform and with inTransaction not set: if execute_in_transaction returns a value,
  -- the work returned this value before the deadline, and the database is what Commit made of the
  -- state the work left.
  pub execute_in_transaction_ok :
      (todo : Work P.State A) (w w' : World P.State) (a : A)
      → w.in_transaction ≡ false
      → execute_in_transaction P todo w ≡ (returned (ok a), w')
      → let q = todo (record w { in_transaction = true }) in
        (q.0 ≡ returned (ok a))
        × (w'.store ≡ (P.commit w.store q.1.store).1)
        × (w'.drawn ≡ q.1.drawn)
        × (P.expires w.store q.1.store ≡ false)
  unfolding execute_in_transaction select
  execute_in_transaction_ok todo w w' a outside h = ground arith

  -- The same of a method of a service.
  pub in_transaction_ok :
      (m : Exec P.State A) (w w' : World P.State) (a : A)
      → w.in_transaction ≡ false
      → in_transaction P m w ≡ (ok a, w')
      → (v : World P.State) × (m (record w { in_transaction = true }) ≡ (ok a, v))
        × (w'.store ≡ (P.commit w.store v.store).1)
        × (w'.in_transaction ≡ false)
  unfolding in_transaction execute_in_transaction select
  in_transaction_ok m w w' a outside h =
      ((m (record w { in_transaction = true })).1, ground arith, ground arith, ground arith)

  pub in_transaction_err :
      (m : Exec P.State A) (w w' : World P.State) (e : Error)
      → w.in_transaction ≡ false
      → in_transaction P m w ≡ (err e, w')
      → (w'.store ≡ w.store) × (w'.in_transaction ≡ false)
  unfolding in_transaction
  in_transaction_err m w w' e outside h = ground (
    arith,
    execute_in_transaction-Returns (returning P m) w outside,
    execute_in_transaction_err (returning P m) w w' e outside,
  )

  -- If commits succeed, what the work wrote is there after the transaction.
  pub in_transaction_kept :
      IsDurable P.db
      → (m : Exec P.State A) (w w' : World P.State) (a : A) → w.in_transaction ≡ false
      → in_transaction P m w ≡ (ok a, w')
      → (v : World P.State) × (m (record w { in_transaction = true }) ≡ (ok a, v))
        × (w'.store ≡ v.store)
        × (w'.in_transaction ≡ false)
  in_transaction_kept D m w w' a outside h =
      let (v, ran, store, flag) = in_transaction_ok m w w' a outside h in
      let done_works : P.commit w.store v.store ≡ (done tt, (P.commit w.store v.store).1) =
        ground (arith, D.commit_works w.store v.store) in
      (v, ran, store ∙ L.transactional.commit_done w.store v.store _ done_works, flag)

  -- Where transactions always succeed, an error is the error of the work.
  pub in_transaction_reliable :
      IsReliable P.db
      → (m : Exec P.State A) (w w' : World P.State) (e : Error) → w.in_transaction ≡ false
      → in_transaction P m w ≡ (err e, w')
      → (v : World P.State) × (m (record w { in_transaction = true }) ≡ (err e, v))
  unfolding in_transaction execute_in_transaction select begin_transaction
  in_transaction_reliable R m w w' e outside h = (
    (m (record w { in_transaction = true })).1,
    ground (
      arith,
      R.begin_works w.store,
      R.set_isolation_works w.store w.isolation,
      R.in_time w.store (m (record w { in_transaction = true })).1.store,
    ),
  )
