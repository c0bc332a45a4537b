-- ===== src/Transaction/Timeout/Once.antt =====
-- A work that takes its repositories once, at its beginning, and a deadline that passes after that.
use fabric8_cluster.Common.{true, Option, none, some, ◌≡◌, inl, inr, Bool-cases}
use fabric8_cluster.Errors.{Error, Result, err}
use fabric8_cluster.Platform.{Platform, IsLawful}
use fabric8_cluster.Transaction.{Run}
use fabric8_cluster.Transaction.Timeout.{
  Todo, statement, repositories, return_with, panic_with, base, transactional, Handle, pool,
  transaction, no_handle, Goroutine, taking, choosing, running, stopped, Caller, selecting,
  committing, rolling_back, clearing, ending, ended, Exchange, send, run_on, work_on, proceed,
  receive, expire, works, receives, expires, proceeds, Reach, here, later, begun,
}
use fabric8_cluster.Transaction.Timeout.Phases.{
  Leads, Leads-some, Phase, Inside, alone, Behind-Inside, IsStopped-Inside,
}
use fabric8_cluster.Transaction.Timeout.Order.{Reach-Phase}
use fabric8_cluster.Transaction.Timeout.Late.{IsLast, IsHeld, late_held}

-- What is left does not call `Repositories()`, but for the call that is next, if there is one.
abbrev pub IsOnce : {S : Type 0} → Goroutine S → Type 0
IsOnce (taking k) = IsLast k
IsOnce (choosing t k) = IsLast k
IsOnce (running h k) = IsLast k
IsOnce stopped = Unit

-- `Repositories()` has been called.
abbrev pub HasTaken : {S : Type 0} → Goroutine S → Type 0
HasTaken (taking k) = ⊥
HasTaken _ = Unit

module _ (P : Platform) where
  module _ (z : Exchange P.State) where
    run_on-IsOnce :
        (h : Handle) (k : Todo P.State)
        → IsLast k
        → Leads (λ y. IsOnce y.goroutine) (run_on P z h k)
    unfolding run_on send
    run_on-IsOnce pool (statement A f k) last = last _
    run_on-IsOnce transaction (statement A f k) last = elim (Bool-cases z.live) [
      | inl live ↦ rw live (last _)
      | inr over ↦ rw over (last _)
    ]
    run_on-IsOnce no_handle (statement A f k) last = tt
    run_on-IsOnce h (repositories k) last = absurd last
    run_on-IsOnce h (return_with r) last = tt
    run_on-IsOnce h (panic_with m) last = tt

    work_on-IsOnce :
        (g : Goroutine P.State) → IsOnce g → Leads (λ y. IsOnce y.goroutine) (work_on P z g)
    unfolding work_on
    work_on-IsOnce (taking k) last = last
    work_on-IsOnce (choosing base k) last = last
    work_on-IsOnce (choosing transactional k) last = last
    work_on-IsOnce (running h k) last = run_on-IsOnce h k last
    work_on-IsOnce stopped last = tt

    -- The steps of the caller leave the goroutine as it is.
    receive-kept :
        (c : Caller) (m : Option (Result Unit))
        → IsOnce z.goroutine
        → Leads (λ y. IsOnce y.goroutine) (receive P z c m)
    unfolding receive
    receive-kept selecting (some r) once = once
    receive-kept selecting none once = tt
    receive-kept committing m once = tt
    receive-kept (rolling_back e) m once = tt
    receive-kept (clearing r) m once = tt
    receive-kept (ending r) m once = tt
    receive-kept (ended r) m once = tt

    expire-kept : (c : Caller) → IsOnce z.goroutine → Leads (λ y. IsOnce y.goroutine) (expire P z c)
    unfolding expire
    expire-kept selecting once = once
    expire-kept committing once = tt
    expire-kept (rolling_back e) once = tt
    expire-kept (clearing r) once = tt
    expire-kept (ending r) once = tt
    expire-kept (ended r) once = tt

    proceed-kept :
        (c : Caller) → IsOnce z.goroutine → Leads (λ y. IsOnce y.goroutine) (proceed P z c)
    unfolding proceed
    proceed-kept selecting once = tt
    proceed-kept committing once = once
    proceed-kept (rolling_back e) once = once
    proceed-kept (clearing r) once = once
    proceed-kept (ending r) once = once
    proceed-kept (ended r) once = tt

  Once : Exchange P.State → Type 0
  Once y = IsOnce y.goroutine

  Reach-IsOnce : (y z : Exchange P.State) → Once y → Reach P y z → Once z
  unfolding Once
  Reach-IsOnce y z once here = once
  Reach-IsOnce y z once (later {y = x} r (works e)) =
      Leads-some (λ a. IsOnce a.goroutine) _ z
        (work_on-IsOnce x x.goroutine (Reach-IsOnce y x once r)) e
  Reach-IsOnce y z once (later {y = x} r (receives e)) =
      Leads-some (λ a. IsOnce a.goroutine) _ z
        (receive-kept x x.caller x.channel (Reach-IsOnce y x once r)) e
  Reach-IsOnce y z once (later {y = x} r (expires e)) =
      Leads-some (λ a. IsOnce a.goroutine) _ z (expire-kept x x.caller (Reach-IsOnce y x once r)) e
  Reach-IsOnce y z once (later {y = x} r (proceeds e)) =
      Leads-some (λ a. IsOnce a.goroutine) _ z (proceed-kept x x.caller (Reach-IsOnce y x once r)) e

  held : (g : Goroutine P.State) → Inside g → IsOnce g → HasTaken g → IsHeld g
  held (taking k) inside once has = absurd has
  held (choosing base k) inside once has = absurd inside
  held (choosing transactional k) inside once has = once
  held (running pool k) inside once has = absurd inside
  held (running transaction k) inside once has = once
  held (running no_handle k) inside once has = once
  held stopped inside once has = tt

  module _ (L : IsLawful P) (s : P.State) where
    -- While `inTransaction` is true, the goroutine is inside the transaction.
    Phase-Inside :
        (y : Exchange P.State) (q : Run Unit × P.State) (c : Caller)
        → y.in_transaction ≡ true
        → Phase P s q y c
        → Inside y.goroutine
    Phase-Inside y q selecting flag (f, live, held, store, b) = Behind-Inside P y q y.goroutine b
    Phase-Inside y q committing flag (f, stop, store, pending, r) =
        IsStopped-Inside P y y.goroutine stop
    Phase-Inside y q (rolling_back e) flag (f, inside, store, why) = inside
    Phase-Inside y q (clearing r) flag (f, inside, store, why) = inside
    Phase-Inside y q (ending r) flag (f, inside, store, why) = inside
    Phase-Inside y q (ended r) flag p = absurd (cc)

    -- On a lawful platform: if a work does not call Repositories() again after its beginning, and
    -- the goroutine has made this call while inTransaction is still set, then in whatever order the
    -- steps come, also long after ExecuteInTransaction has returned an error, the committed state
    -- is that of the beginning.
    pub late_once :
        (todo : Todo P.State) (y z : Exchange P.State) (e : Error)
        → IsLast todo
        → Reach P (begun P s todo) y
        → y.in_transaction ≡ true
        → HasTaken y.goroutine
        → Reach P y z
        → z.caller ≡ ended (err e)
        → z.store ≡ s
    unfolding Once
    late_once todo y z e last before flag has after at =
        let inside =
          Phase-Inside y (alone todo s) y.caller flag (Reach-Phase P L s todo y before) in
        let once = Reach-IsOnce (begun P s todo) y last before in
        late_held P L s todo y z e before flag (held y.goroutine inside once has) after at
