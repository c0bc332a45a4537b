-- ===== src/Transaction/Timeout.antt =====
-- ExecuteInTransaction of application/service/factory/service_factory.go as two threads: the
-- goroutine that runs the work, and the caller that waits for its answer or for the deadline. With
-- Commit, Rollback, Clusters and IdentityClusters of gormapplication/application.go.
pub mod Once
pub mod Order
pub mod Phases
pub mod Late
use fabric8_cluster.Common.{String, ◌<>◌, Bool, true, false, Option, none, some, ◌≡◌}
use fabric8_cluster.Common.{if◌then◌else◌}
use fabric8_cluster.Errors.{Error, text, Result, ok, err, Reply, done, failed, driver}
use fabric8_cluster.Platform.{Platform}

-- The function `todo`, after it has called `s.Repositories()` for the first time: it sends a
-- statement and goes on with the reply, calls `s.Repositories()` again, returns, or panics.
pub data Todo (S : Type 0) : Type 1 where
  statement : (A : Type 0) → (S → Reply A × S) → (Reply A → Todo S) → Todo S
  repositories : Todo S → Todo S
  return_with : Result Unit → Todo S
  panic_with : String → Todo S

-- What `Repositories()` gives: the field `repositories`, or `transactionalRepositories`.
pub data Taken : Type 0 where
  base transactional : Taken

-- The `db` of a repository: GormDB's, the transaction's, or nil.
pub data Handle : Type 0 where
  pool transaction no_handle : Handle

-- What the goroutine does next: `Repositories()`, `Clusters()` or `IdentityClusters()`, or a
-- statement. `stopped`: it has sent its answer.
pub data Goroutine (S : Type 0) : Type 1 where
  taking : Todo S → Goroutine S
  choosing : Taken → Todo S → Goroutine S
  running : Handle → Todo S → Goroutine S
  stopped : Goroutine S

-- What the caller does next: `select`, `Commit` or `Rollback` in the database, `g.db = nil`, the
-- deferred `endTransaction`, or nothing, since it has returned.
pub data Caller : Type 0 where
  selecting committing : Caller
  rolling_back : Error → Caller
  clearing ending ended : Result Unit → Caller

-- `store` is what is committed, `pending` what the transaction has come to. `live`: the transaction
-- is open in the database. `cleared`: the `db` of GormTransaction is nil.
pub record Exchange (S : Type 0) : Type 1 where
  pub store : S
  pub pending : S
  pub live : Bool
  pub cleared : Bool
  pub in_transaction : Bool
  pub channel : Option (Result Unit)
  pub goroutine : Goroutine S
  pub caller : Caller

abbrev pub timeout : Error
timeout = text "database transaction timeout!"

-- What the deferred `recover` makes of a panic.
abbrev pub recovered : String → Result Unit
recovered m = err (text ("Unknown error: " <> m))

abbrev pub decided : Result Unit → Caller
decided (ok u) = committing
decided (err e) = rolling_back e

module _ (P : Platform) where
  abbrev pub sent : Exchange P.State → Result Unit → Exchange P.State
  sent z r = record z { channel = some r; goroutine = stopped }

  -- A statement through a handle. A transaction that has ended refuses it, and gorm panics on nil.
  unfoldable pub send :
      Exchange P.State
      → Handle
      → {A : Type 0} (f : P.State → Reply A × P.State) → (Reply A → Todo P.State)
      → Exchange P.State
  send z pool f k = record z { store = (f z.store).1; goroutine = running pool (k (f z.store).0) }
  send z transaction f k =
      if z.live
      then record z {
        pending = (f z.pending).1;
        goroutine = running transaction (k (f z.pending).0);
      }
      else record z {
        goroutine =
            running transaction
              (k (failed (driver "sql: Transaction has already been committed or rolled back")));
      }
  send z no_handle f k =
      sent z (recovered "runtime error: invalid memory address or nil pointer dereference")

  unfoldable pub run_on : Exchange P.State → Handle → Todo P.State → Option (Exchange P.State)
  unfolding send
  run_on z h (statement A f k) = some (send z h f k)
  run_on z h (repositories k) = some (record z { goroutine = taking k })
  run_on z h (return_with r) = some (sent z r)
  run_on z h (panic_with m) = some (sent z (recovered m))

  -- The next step of the goroutine.
  unfoldable pub work_on : Exchange P.State → Goroutine P.State → Option (Exchange P.State)
  unfolding run_on
  work_on z (taking k) =
      some (record z { goroutine = choosing (if z.in_transaction then transactional else base) k })
  work_on z (choosing base k) = some (record z { goroutine = running pool k })
  work_on z (choosing transactional k) =
      some (record z { goroutine = running (if z.cleared then no_handle else transaction) k })
  work_on z (running h k) = run_on z h k
  work_on z stopped = none

  -- The next step of the caller, when it has left `select`. In database/sql, Commit and Rollback wait
  -- for the statement in flight; here a statement is one step, so they come between statements.
  unfoldable pub proceed : Exchange P.State → Caller → Option (Exchange P.State)
  proceed z committing =
      some (record z {
        store = (P.commit z.store z.pending).1;
        live = false;
        caller = clearing (ok tt);
      })
  proceed z (rolling_back e) =
      some
        (record z { store = P.rollback z.store z.pending; live = false; caller = clearing (err e) })
  proceed z (clearing r) = some (record z { cleared = true; caller = ending r })
  proceed z (ending r) = some (record z { in_transaction = false; caller = ended r })
  proceed z _ = none

  -- `case err := <-errorChan`
  unfoldable pub receive :
      Exchange P.State → Caller → Option (Result Unit) → Option (Exchange P.State)
  receive z selecting (some r) = some (record z { channel = none; caller = decided r })
  receive z _ _ = none

  -- `case <-txTimeout`, which may come at any time.
  unfoldable pub expire : Exchange P.State → Caller → Option (Exchange P.State)
  expire z selecting = some (record z { caller = rolling_back timeout })
  expire z _ = none

  pub data Step (y z : Exchange P.State) : Type 1 where
    works : work_on y y.goroutine ≡ some z → Step y z
    receives : receive y y.caller y.channel ≡ some z → Step y z
    expires : expire y y.caller ≡ some z → Step y z
    proceeds : proceed y y.caller ≡ some z → Step y z

  pub data Reach (a : Exchange P.State) : Exchange P.State → Type 1 where
    here : Reach a a
    later : {y z : Exchange P.State} → Reach a y → Step y z → Reach a z

  -- After `BeginTransaction`, when the goroutine has been started.
  abbrev pub begun : P.State → Todo P.State → Exchange P.State
  begun s todo = record {
    store = s;
    pending = s;
    live = true;
    cleared = false;
    in_transaction = true;
    channel = none;
    goroutine = taking todo;
    caller = selecting;
  }
