-- ===== src/Transaction/Timeout/Late.antt =====
-- What a work does to the database after its deadline.
use fabric8_cluster.Common.{
  true, false, Option, none, some, ◌≡◌, refl, sym, ap, subst, ◌∙◌, inl, inr, Bool-cases,
}
use fabric8_cluster.Errors.{Error, Result, ok, err, Reply}
use fabric8_cluster.Platform.{Platform, IsLawful}
use fabric8_cluster.Transaction.{Run}
use fabric8_cluster.Transaction.Timeout.{
  Todo, statement, repositories, return_with, panic_with, base, transactional, Handle, pool,
  transaction, no_handle, Goroutine, taking, choosing, running, stopped, Caller, selecting,
  committing, rolling_back, clearing, ending, ended, Exchange, timeout, send, run_on, work_on,
  proceed, receive, expire, Step, works, receives, expires, proceeds, Reach, here, later, begun,
}
use fabric8_cluster.Transaction.Timeout.Phases.{Leads, Leads-some, Leads-map, Phase, alone}
use fabric8_cluster.Transaction.Timeout.Order.{Reach-Phase}

-- The work does not call `Repositories()` again.
abbrev pub IsLast : {S : Type 0} → Todo S → Type 0
IsLast (statement A f k) = (a : Reply A) → IsLast (k a)
IsLast (repositories k) = ⊥
IsLast (return_with r) = Unit
IsLast (panic_with m) = Unit

-- The goroutine has the repositories of the transaction, or none, and does not ask for others.
abbrev pub IsHeld : {S : Type 0} → Goroutine S → Type 0
IsHeld (taking k) = ⊥
IsHeld (choosing base k) = ⊥
IsHeld (choosing transactional k) = IsLast k
IsHeld (running pool k) = ⊥
IsHeld (running transaction k) = IsLast k
IsHeld (running no_handle k) = IsLast k
IsHeld stopped = Unit

module _ (P : Platform) where
  -- The committed state is `s` unless a commit has been tried.
  Unmoved : (s : P.State) (z : Exchange P.State) → Caller → Type 0
  Unmoved s z (clearing (ok u)) = Unit
  Unmoved s z (ending (ok u)) = Unit
  Unmoved s z (ended (ok u)) = Unit
  Unmoved s z _ = z.store ≡ s

  module _ (z : Exchange P.State) where
    run_on-IsHeld :
        (h : Handle) (k : Todo P.State)
        → IsHeld (running h k)
        → Leads
            (λ y. IsHeld y.goroutine × (y.store ≡ z.store) × (y.caller ≡ z.caller))
            (run_on P z h k)
    unfolding run_on send
    run_on-IsHeld pool k held = absurd held
    run_on-IsHeld transaction (statement A f k) held = elim (Bool-cases z.live) [
      | inl live ↦ rw live (held _, refl, refl)
      | inr over ↦ rw over (held _, refl, refl)
    ]
    run_on-IsHeld transaction (repositories k) held = absurd held
    run_on-IsHeld transaction (return_with r) held = (tt, refl, refl)
    run_on-IsHeld transaction (panic_with m) held = (tt, refl, refl)
    run_on-IsHeld no_handle (statement A f k) held = (tt, refl, refl)
    run_on-IsHeld no_handle (repositories k) held = absurd held
    run_on-IsHeld no_handle (return_with r) held = (tt, refl, refl)
    run_on-IsHeld no_handle (panic_with m) held = (tt, refl, refl)

    work_on-IsHeld :
        (g : Goroutine P.State)
        → IsHeld g
        → Leads
            (λ y. IsHeld y.goroutine × (y.store ≡ z.store) × (y.caller ≡ z.caller))
            (work_on P z g)
    unfolding work_on
    work_on-IsHeld (taking k) held = absurd held
    work_on-IsHeld (choosing base k) held = absurd held
    work_on-IsHeld (choosing transactional k) held = elim (Bool-cases z.cleared) [
      | inl gone ↦ rw gone (held, refl, refl)
      | inr there ↦ rw there (held, refl, refl)
    ]
    work_on-IsHeld (running h k) held = run_on-IsHeld h k held
    work_on-IsHeld stopped held = tt

  abbrev Kept : (s : P.State) (z : Exchange P.State) → Type 0
  Kept s z = IsHeld z.goroutine × Unmoved s z z.caller

  module _ (L : IsLawful P) (s : P.State) (z : Exchange P.State) where
    Unmoved-at :
        (c : Caller) (y : Exchange P.State) → y.store ≡ z.store → Unmoved s z c → Unmoved s y c
    unfolding Unmoved
    Unmoved-at selecting y same u = same ∙ u
    Unmoved-at committing y same u = same ∙ u
    Unmoved-at (rolling_back e) y same u = same ∙ u
    Unmoved-at (clearing (ok a)) y same u = tt
    Unmoved-at (clearing (err e)) y same u = same ∙ u
    Unmoved-at (ending (ok a)) y same u = tt
    Unmoved-at (ending (err e)) y same u = same ∙ u
    Unmoved-at (ended (ok a)) y same u = tt
    Unmoved-at (ended (err e)) y same u = same ∙ u

    works-Kept : Kept s z → Leads (Kept s) (work_on P z z.goroutine)
    works-Kept (held, u) =
        Leads-map (λ y. IsHeld y.goroutine × (y.store ≡ z.store) × (y.caller ≡ z.caller)) (Kept s)
          (work_on P z z.goroutine)
          (λ y (held', store, at).
            (held', subst (Unmoved s y) (sym at) (Unmoved-at z.caller y store u)))
          (work_on-IsHeld z z.goroutine held)

    receives-Kept :
        (c : Caller) (m : Option (Result Unit))
        → IsHeld z.goroutine
        → Unmoved s z c
        → Leads (Kept s) (receive P z c m)
    unfolding receive Unmoved
    receives-Kept selecting (some (ok u)) held same = (held, same)
    receives-Kept selecting (some (err e)) held same = (held, same)
    receives-Kept selecting none held same = tt
    receives-Kept committing m held same = tt
    receives-Kept (rolling_back e) m held same = tt
    receives-Kept (clearing r) m held same = tt
    receives-Kept (ending r) m held same = tt
    receives-Kept (ended r) m held same = tt

    expires-Kept : (c : Caller) → IsHeld z.goroutine → Unmoved s z c → Leads (Kept s) (expire P z c)
    unfolding expire Unmoved
    expires-Kept selecting held same = (held, same)
    expires-Kept committing held same = tt
    expires-Kept (rolling_back e) held same = tt
    expires-Kept (clearing r) held same = tt
    expires-Kept (ending r) held same = tt
    expires-Kept (ended r) held same = tt

    proceeds-Kept :
        (c : Caller) → IsHeld z.goroutine → Unmoved s z c → Leads (Kept s) (proceed P z c)
    unfolding proceed Unmoved
    proceeds-Kept selecting held same = tt
    proceeds-Kept committing held same = (held, tt)
    proceeds-Kept (rolling_back e) held same =
        (held, L.transactional.rollback_back z.store z.pending ∙ same)
    proceeds-Kept (clearing (ok u)) held same = (held, tt)
    proceeds-Kept (clearing (err e)) held same = (held, same)
    proceeds-Kept (ending (ok u)) held same = (held, tt)
    proceeds-Kept (ending (err e)) held same = (held, same)
    proceeds-Kept (ended r) held same = tt

    step-Kept : (y : Exchange P.State) → Kept s z → Step P z y → Kept s y
    step-Kept y kept (works e) = Leads-some (Kept s) _ y (works-Kept kept) e
    step-Kept y (held, u) (receives e) =
        Leads-some (Kept s) _ y (receives-Kept z.caller z.channel held u) e
    step-Kept y (held, u) (expires e) = Leads-some (Kept s) _ y (expires-Kept z.caller held u) e
    step-Kept y (held, u) (proceeds e) = Leads-some (Kept s) _ y (proceeds-Kept z.caller held u) e

    -- While `inTransaction` is true, what an error leaves is the state of the beginning.
    Phase-Unmoved :
        (q : Run Unit × P.State) (c : Caller)
        → z.in_transaction ≡ true
        → Phase P s q z c
        → Unmoved s z c
    unfolding Unmoved
    Phase-Unmoved q selecting flag (f, live, held, store, b) = store
    Phase-Unmoved q committing flag (f, stop, store, pending, r) = store
    Phase-Unmoved q (rolling_back e) flag (f, inside, store, why) = store
    Phase-Unmoved q (clearing (ok u)) flag p = tt
    Phase-Unmoved q (clearing (err e)) flag (f, inside, store, why) = store
    Phase-Unmoved q (ending (ok u)) flag p = tt
    Phase-Unmoved q (ending (err e)) flag (f, inside, store, why) = store
    Phase-Unmoved q (ended (ok u)) flag p = tt
    Phase-Unmoved q (ended (err e)) flag p = absurd (cc)

  module _ (L : IsLawful P) (s : P.State) where
    Reach-Kept : (y z : Exchange P.State) → Kept s y → Reach P y z → Kept s z
    Reach-Kept y z kept here = kept
    Reach-Kept y z kept (later {y = x} r step) = step-Kept L s x z (Reach-Kept y x kept r) step

    -- On a lawful platform: if, while inTransaction is still set, the goroutine has taken the
    -- repositories of the transaction and does not call Repositories() again, then in whatever
    -- order the steps come, also long after ExecuteInTransaction has returned an error, the
    -- committed state is that of the beginning.
    pub late_held :
        (todo : Todo P.State) (y z : Exchange P.State) (e : Error)
        → Reach P (begun P s todo) y
        → y.in_transaction ≡ true
        → IsHeld y.goroutine
        → Reach P y z
        → z.caller ≡ ended (err e)
        → z.store ≡ s
    unfolding Unmoved
    late_held todo y z e before flag held after at =
        let phase = Reach-Phase P L s todo y before in
        let kept =
          Reach-Kept y z (held, Phase-Unmoved L s y (alone todo s) y.caller flag phase) after in
        subst (Unmoved s z) at kept.1

    -- On a lawful platform: whatever statement a work sends first, there is an order of steps in
    -- which ExecuteInTransaction has returned the timeout, no transaction is running, and then the
    -- statement's change is committed.
    pub late_written :
        {A : Type 0} (f : P.State → Reply A × P.State) (k : Reply A → Todo P.State)
        → (z : Exchange P.State) × Reach P (begun P s (statement A f k)) z
          × (z.caller ≡ ended (err timeout))
          × (z.in_transaction ≡ false)
          × (z.store ≡ (f s).1)
    unfolding work_on run_on send expire proceed
    late_written f k = (
      _,
      later
          (later
            (later
              (later (later (later (later here (expires refl)) (proceeds refl)) (proceeds refl))
                (proceeds refl))
              (works refl))
            (works refl))
          (works refl),
      refl,
      refl,
      ap (λ t. (f t).1) (L.transactional.rollback_back s s),
    )
