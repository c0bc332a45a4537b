-- ===== src/Transaction/Timeout/Order.antt =====
-- Until endTransaction has run, every order of the steps of goroutine and caller comes to what
-- execute_in_transaction does.
use fabric8_cluster.Common.{
  Bool, true, false, Option, none, some, ◌≡◌, refl, sym, subst, ◌∙◌, inl, inr, arith,
}
use fabric8_cluster.Errors.{Result, ok, err}
use fabric8_cluster.Platform.{Platform, IsLawful}
use fabric8_cluster.Exec.{World}
use fabric8_cluster.Transaction.{Run, returned, Work}
use fabric8_cluster.Transaction.Timeout.{
  Todo, Caller, selecting, committing, rolling_back, clearing, ending, ended, Exchange, work_on,
  proceed, receive, expire, Step, works, receives, expires, proceeds, Reach, here, later, begun,
}
use fabric8_cluster.Transaction.{execute_in_transaction, begin_transaction, select, started}
use fabric8_cluster.Transaction.Timeout.Phases.{
  alone, Inside, Leads, Leads-some, Leads-map, Behind, Phase, Same, work_on-Inside, work_on-caller,
  work_on-Behind, Behind-Inside, Behind-answered, IsStopped-Inside, work_on-IsStopped,
}

module _ (P : Platform) where
  module _ (s : P.State) (q : Run Unit × P.State) (z : Exchange P.State) where
    goroutine_step :
        (c : Caller)
        → z.caller ≡ c
        → z.in_transaction ≡ true
        → Inside z.goroutine
        → ((y : Exchange P.State)
            → y.in_transaction ≡ true
            → Inside y.goroutine
            → y.store ≡ z.store
            → Phase P s q y c)
        → Leads (λ y. Phase P s q y y.caller) (work_on P z z.goroutine)
    goroutine_step c at flag inside next =
        Leads-map (λ y. Inside y.goroutine × Same P z y) (λ y. Phase P s q y y.caller)
          (work_on P z z.goroutine)
          (λ y (inside', (flag', live', held', at', store')).
            subst (Phase P s q y) (sym (at' ∙ at)) (next y (flag' ∙ flag) inside' store'))
          (work_on-Inside P z z.goroutine inside flag)

    works-Phase :
        (c : Caller)
        → z.caller ≡ c
        → Phase P s q z c
        → Leads (λ y. Phase P s q y y.caller) (work_on P z z.goroutine)
    unfolding work_on
    works-Phase selecting at (flag, live, held, store, b) =
        Leads-map (λ y. Behind P q y y.goroutine × Same P z y) (λ y. Phase P s q y y.caller)
          (work_on P z z.goroutine)
          (λ y (b', (flag', live', held', at', store')).
            subst (Phase P s q y) (sym (at' ∙ at))
              (flag' ∙ flag, live' ∙ live, held' ∙ held, store' ∙ store, b'))
          (work_on-Behind P z q z.goroutine flag live held b)
    works-Phase committing at (flag, stop, store, pending, r) =
        work_on-IsStopped P z (λ y. Phase P s q y y.caller) z.goroutine stop
    works-Phase (rolling_back e) at (flag, inside, store, why) =
        goroutine_step (rolling_back e) at flag inside
          (λ y flag' inside' store'. (flag', inside', store' ∙ store, why))
    works-Phase (clearing r) at (flag, inside, store, why) =
        goroutine_step (clearing r) at flag inside
          (λ y flag' inside' store'. (flag', inside', store' ∙ store, why))
    works-Phase (ending r) at (flag, inside, store, why) =
        goroutine_step (ending r) at flag inside
          (λ y flag' inside' store'. (flag', inside', store' ∙ store, why))
    works-Phase (ended r) at p =
        Leads-map (λ y. (y.caller ≡ z.caller) × (y.in_transaction ≡ z.in_transaction))
          (λ y. Phase P s q y y.caller) (work_on P z z.goroutine)
          (λ y (at', flag'). subst (Phase P s q y) (sym (at' ∙ at)) (flag' ∙ p))
          (work_on-caller P z z.goroutine)

    receives-Phase :
        (c : Caller) (m : Option (Result Unit))
        → z.channel ≡ m
        → Phase P s q z c
        → Leads (λ y. Phase P s q y y.caller) (receive P z c m)
    unfolding receive
    receives-Phase selecting (some (ok u)) at (flag, live, held, store, b) =
        let (stop, why, pending) = Behind-answered P z q z.goroutine (ok u) at b in
        (flag, stop, store, pending, sym why)
    receives-Phase selecting (some (err e)) at (flag, live, held, store, b) =
        let (stop, why, pending) = Behind-answered P z q z.goroutine (err e) at b in
        (flag, Behind-Inside P z q z.goroutine b, store, inr why)
    receives-Phase selecting none at p = tt
    receives-Phase committing m at p = tt
    receives-Phase (rolling_back e) m at p = tt
    receives-Phase (clearing r) m at p = tt
    receives-Phase (ending r) m at p = tt
    receives-Phase (ended r) m at p = tt

    expires-Phase :
        (c : Caller) → Phase P s q z c → Leads (λ y. Phase P s q y y.caller) (expire P z c)
    unfolding expire
    expires-Phase selecting (flag, live, held, store, b) =
        (flag, Behind-Inside P z q z.goroutine b, store, inl refl)
    expires-Phase committing p = tt
    expires-Phase (rolling_back e) p = tt
    expires-Phase (clearing r) p = tt
    expires-Phase (ending r) p = tt
    expires-Phase (ended r) p = tt

    proceeds-Phase :
        IsLawful P
        → (c : Caller) → Phase P s q z c
        → Leads (λ y. Phase P s q y y.caller) (proceed P z c)
    unfolding proceed
    proceeds-Phase L selecting p = tt
    proceeds-Phase L committing (flag, stop, store, pending, r) =
        (flag, IsStopped-Inside P z z.goroutine stop, rw (store, pending) refl, inr (sym r))
    proceeds-Phase L (rolling_back e) (flag, inside, store, why) =
        (flag, inside, L.transactional.rollback_back z.store z.pending ∙ store, why)
    proceeds-Phase L (clearing r) p = p
    proceeds-Phase L (ending r) p = refl
    proceeds-Phase L (ended r) p = tt

  module _ (L : IsLawful P) (s : P.State) (q : Run Unit × P.State) where
    pub step-Phase :
        (y z : Exchange P.State) → Phase P s q y y.caller → Step P y z → Phase P s q z z.caller
    step-Phase y z p (works e) =
        Leads-some (λ x. Phase P s q x x.caller) _ z (works-Phase s q y y.caller refl p) e
    step-Phase y z p (receives e) =
        Leads-some (λ x. Phase P s q x x.caller) _ z
          (receives-Phase s q y y.caller y.channel refl p) e
    step-Phase y z p (expires e) =
        Leads-some (λ x. Phase P s q x x.caller) _ z (expires-Phase s q y y.caller p) e
    step-Phase y z p (proceeds e) =
        Leads-some (λ x. Phase P s q x x.caller) _ z (proceeds-Phase s q y L y.caller p) e

  module _ (L : IsLawful P) (s : P.State) (todo : Todo P.State) where
    pub Reach-Phase :
        (z : Exchange P.State) → Reach P (begun P s todo) z → Phase P s (alone todo s) z z.caller
    Reach-Phase z here = (refl, refl, refl, refl, (refl, refl))
    Reach-Phase z (later {y} r step) = step-Phase L s (alone todo s) y z (Reach-Phase y r) step

-- The platform on which the deadline has passed, or not.
abbrev pub with_deadline : Bool → Platform → Platform
with_deadline b P = record P { db = record P.db { expires = λ _ _. b } }

-- The work as the model of execute_in_transaction takes it.
abbrev pub in_order : {S : Type 0} → Todo S → Work S Unit
in_order todo w = let q = alone todo w.store in (q.0, record w { store = q.1 })

module _ (P : Platform) (L : IsLawful P) (todo : Todo P.State) (w : World P.State)
    (z : Exchange P.State) (r : Result Unit) (outside : w.in_transaction ≡ false)
    (opened : begin_transaction P w ≡ started) where
  -- On a lawful platform, outside a transaction and where BeginTransaction succeeds: in whatever
  -- order the steps of the goroutine and of the caller come, when endTransaction is about to run,
  -- the result and the committed state are those that execute_in_transaction gives for the same
  -- work, run to its end, with the deadline passed or not.
  pub Reach-in_order :
      Reach P (begun P w.store todo) z
      → z.caller ≡ ending r
      → (b : Bool) × (execute_in_transaction (with_deadline b P) (in_order todo) w
          ≡ (returned r, record w { store = z.store }))
  unfolding execute_in_transaction begin_transaction select
  Reach-in_order reached at =
      let (flag, inside, store, why) =
        subst (Phase P w.store (alone todo w.store) z) at
          (Reach-Phase P L w.store todo z reached) in
      elim why [
        | inl late ↦ (
          true,
          let opened' : begin_transaction (with_deadline true P) w ≡ started = opened in
              ground (
                arith,
                late,
                store,
                outside,
                opened',
                L.transactional.rollback_back w.store (alone todo w.store).1,
              ),
        )
        | inr reply ↦ (
          false,
          let opened' : begin_transaction (with_deadline false P) w ≡ started = opened in
              ground (
                arith,
                reply,
                store,
                outside,
                opened',
                L.transactional.rollback_back w.store (alone todo w.store).1,
              ),
        )
      ]
