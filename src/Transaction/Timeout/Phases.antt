-- ===== src/Transaction/Timeout/Phases.antt =====
-- What holds while the transaction lasts, by what the caller does next, and what a step of the
-- goroutine keeps of it.
use fabric8_cluster.Common.{true, false, Option, none, some, ◌≡◌, refl, subst, ◌⊎◌, arith}
use fabric8_cluster.Errors.{Result, ok, err}
use fabric8_cluster.Platform.{Platform}
use fabric8_cluster.Transaction.{Run, returned, panicked}
use fabric8_cluster.Transaction.Timeout.{
  Todo, statement, repositories, return_with, panic_with, base, transactional, Handle, pool,
  transaction, no_handle, Goroutine, taking, choosing, running, stopped, Caller, selecting,
  committing, rolling_back, clearing, ending, ended, Exchange, timeout, recovered, send, run_on,
  work_on,
}

-- The work alone, in a transaction that stays open.
unfoldable pub alone : {S : Type 0} → Todo S → S → Run Unit × S
alone (statement A f k) s = alone (k (f s).0) (f s).1
alone (repositories k) s = alone k s
alone (return_with r) s = (returned r, s)
alone (panic_with m) s = (panicked m, s)

-- What comes through `errorChan`.
abbrev pub answered : Run Unit → Result Unit
answered (returned r) = r
answered (panicked m) = recovered m

-- The goroutine holds no repository outside the transaction.
abbrev pub Inside : {S : Type 0} → Goroutine S → Type 0
Inside (choosing base k) = ⊥
Inside (running pool k) = ⊥
Inside _ = Unit

abbrev pub IsStopped : {S : Type 0} → Goroutine S → Type 0
IsStopped stopped = Unit
IsStopped _ = ⊥

-- The deadline, or the answer.
abbrev pub Decision : {S : Type 0} → (q : Run Unit × S) → Result Unit → Type 0
Decision q r = (r ≡ err timeout) ⊎ (r ≡ answered q.0)

-- What Commit or Rollback leave of a transaction that began in `s`.
abbrev pub outcome : (P : Platform) (s : P.State) (q : Run Unit × P.State) → Result Unit → P.State
outcome P s q (ok u) = (P.commit s q.1).1
outcome P s q (err e) = s

-- The step, if there is one, ends well.
abbrev pub Leads {ℓ} : {A : Type ℓ} → (A → Type 0) → Option A → Type 0
Leads Q none = Unit
Leads Q (some a) = Q a

pub Leads-some {ℓ} :
    {A : Type ℓ} (Q : A → Type 0) (o : Option A) (a : A) → Leads Q o → o ≡ some a → Q a
Leads-some Q none a l e = absurd (cc)
Leads-some Q (some b) a l e = subst Q (cc) l

pub Leads-map {ℓ} :
    {A : Type ℓ} (Q R : A → Type 0) (o : Option A) → ((a : A) → Q a → R a) → Leads Q o → Leads R o
Leads-map Q R none f l = tt
Leads-map Q R (some a) f l = f a l

module _ (P : Platform) where
  -- How far the work is that comes to `q` alone.
  abbrev pub Behind : (q : Run Unit × P.State) (z : Exchange P.State) → Goroutine P.State → Type 0
  Behind q z (taking k) = (alone k z.pending ≡ q) × (z.channel ≡ none)
  Behind q z (choosing transactional k) = (alone k z.pending ≡ q) × (z.channel ≡ none)
  Behind q z (running transaction k) = (alone k z.pending ≡ q) × (z.channel ≡ none)
  Behind q z stopped = (z.channel ≡ some (answered q.0)) × (z.pending ≡ q.1)
  Behind q z _ = ⊥

  abbrev pub Phase : (s : P.State) (q : Run Unit × P.State) (z : Exchange P.State) → Caller → Type 0
  Phase s q z selecting =
      (z.in_transaction ≡ true)
      × (z.live ≡ true)
      × (z.cleared ≡ false)
      × (z.store ≡ s)
      × Behind q z z.goroutine
  Phase s q z committing =
      (z.in_transaction ≡ true)
      × IsStopped z.goroutine
      × (z.store ≡ s)
      × (z.pending ≡ q.1)
      × (answered q.0 ≡ ok tt)
  Phase s q z (rolling_back e) =
      (z.in_transaction ≡ true) × Inside z.goroutine × (z.store ≡ s) × Decision q (err e)
  Phase s q z (clearing r) =
      (z.in_transaction ≡ true) × Inside z.goroutine × (z.store ≡ outcome P s q r) × Decision q r
  Phase s q z (ending r) =
      (z.in_transaction ≡ true) × Inside z.goroutine × (z.store ≡ outcome P s q r) × Decision q r
  Phase s q z (ended r) = z.in_transaction ≡ false

  -- The goroutine changes nothing that the caller holds.
  abbrev pub Same : (z y : Exchange P.State) → Type 0
  Same z y =
      (y.in_transaction ≡ z.in_transaction)
      × (y.live ≡ z.live)
      × (y.cleared ≡ z.cleared)
      × (y.caller ≡ z.caller)
      × (y.store ≡ z.store)

  module _ (z : Exchange P.State) where
    run_on-Inside :
        (h : Handle) (k : Todo P.State)
        → Inside (running h k)
        → Leads (λ y. Inside y.goroutine × Same z y) (run_on P z h k)
    unfolding run_on send
    run_on-Inside pool k inside = absurd inside
    run_on-Inside transaction (statement A f k) inside = ground arith
    run_on-Inside no_handle (statement A f k) inside = ground arith
    run_on-Inside h (repositories k) inside = ground arith
    run_on-Inside h (return_with r) inside = ground arith
    run_on-Inside h (panic_with r) inside = ground arith

    pub work_on-Inside :
        (g : Goroutine P.State)
        → Inside g
        → z.in_transaction ≡ true
        → Leads (λ y. Inside y.goroutine × Same z y) (work_on P z g)
    unfolding work_on
    work_on-Inside (taking k) inside flag = ground arith
    work_on-Inside (choosing base k) inside flag = absurd inside
    work_on-Inside (choosing transactional k) inside flag = ground arith
    work_on-Inside (running h k) inside flag = run_on-Inside h k inside
    work_on-Inside stopped inside flag = tt

    pub work_on-caller :
        (g : Goroutine P.State)
        → Leads (λ y. (y.caller ≡ z.caller) × (y.in_transaction ≡ z.in_transaction)) (work_on P z g)
    unfolding work_on run_on send
    work_on-caller (taking k) = (refl, refl)
    work_on-caller (choosing base k) = (refl, refl)
    work_on-caller (choosing transactional k) = (refl, refl)
    work_on-caller (running h k) = ground (arith)
    work_on-caller stopped = tt

    run_on-Behind :
        (q : Run Unit × P.State) (k : Todo P.State)
        → z.live ≡ true
        → Behind q z (running transaction k)
        → Leads (λ y. Behind q y y.goroutine × Same z y) (run_on P z transaction k)
    unfolding run_on send alone
    run_on-Behind q (statement A f k) live (so, quiet) =
        rw live ((so, quiet), (refl, refl, refl, refl, refl))
    run_on-Behind q (repositories k) live (so, quiet) =
        ((so, quiet), (refl, refl, refl, refl, refl))
    run_on-Behind q (return_with r) live (so, quiet) = ground arith
    run_on-Behind q (panic_with m) live (so, quiet) = ground arith

    pub work_on-Behind :
        (q : Run Unit × P.State) (g : Goroutine P.State)
        → z.in_transaction ≡ true
        → z.live ≡ true
        → z.cleared ≡ false
        → Behind q z g
        → Leads (λ y. Behind q y y.goroutine × Same z y) (work_on P z g)
    unfolding work_on
    work_on-Behind q (taking k) flag live held (so, quiet) =
        rw flag ((so, quiet), (refl, refl, refl, refl, refl))
    work_on-Behind q (choosing base k) flag live held b = absurd b
    work_on-Behind q (choosing transactional k) flag live held (so, quiet) =
        rw held ((so, quiet), (refl, refl, refl, refl, refl))
    work_on-Behind q (running pool k) flag live held b = absurd b
    work_on-Behind q (running no_handle k) flag live held b = absurd b
    work_on-Behind q (running transaction k) flag live held b = run_on-Behind q k live b
    work_on-Behind q stopped flag live held b = tt

    pub Behind-Inside : (q : Run Unit × P.State) (g : Goroutine P.State) → Behind q z g → Inside g
    Behind-Inside q (taking k) b = tt
    Behind-Inside q (choosing base k) b = b
    Behind-Inside q (choosing transactional k) b = tt
    Behind-Inside q (running pool k) b = b
    Behind-Inside q (running transaction k) b = tt
    Behind-Inside q (running no_handle k) b = tt
    Behind-Inside q stopped b = tt

    pub Behind-answered :
        (q : Run Unit × P.State) (g : Goroutine P.State) (r : Result Unit)
        → z.channel ≡ some r
        → Behind q z g
        → IsStopped g × (r ≡ answered q.0) × (z.pending ≡ q.1)
    Behind-answered q (taking k) r sent b = absurd (ground arith)
    Behind-answered q (choosing transactional k) r sent b = absurd (ground arith)
    Behind-answered q (running transaction k) r sent b = absurd (ground arith)
    Behind-answered q stopped r sent (c, p) = (tt, ground arith, p)
    Behind-answered q (choosing base k) r sent b = absurd b
    Behind-answered q (running pool k) r sent b = absurd b
    Behind-answered q (running no_handle k) r sent b = absurd b

    pub IsStopped-Inside : (g : Goroutine P.State) → IsStopped g → Inside g
    IsStopped-Inside stopped stop = tt
    IsStopped-Inside (taking k) stop = absurd stop
    IsStopped-Inside (choosing t k) stop = absurd stop
    IsStopped-Inside (running h k) stop = absurd stop

    -- A goroutine that has stopped has no step.
    pub work_on-IsStopped :
        (Q : Exchange P.State → Type 0) (g : Goroutine P.State)
        → IsStopped g
        → Leads Q (work_on P z g)
    unfolding work_on
    work_on-IsStopped Q stopped stop = tt
    work_on-IsStopped Q (taking k) stop = absurd stop
    work_on-IsStopped Q (choosing t k) stop = absurd stop
    work_on-IsStopped Q (running h k) stop = absurd stop
