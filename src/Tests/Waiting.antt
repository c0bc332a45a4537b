-- ===== src/Tests/Waiting.antt =====
-- Transactions with a goroutine that is in time, and with one that is late.
use fabric8_cluster.Common.{◌≡◌, ◌≢◌, ◌⊎◌, refl, true, false, ◌∷◌, Bool, string_eq}
use fabric8_cluster.Errors.{ok, err, Reply, done}
use fabric8_cluster.Platform.Memory.{memory, memory-IsLawful}
use fabric8_cluster.Platform.Memory.Rows.{Log, put}
use fabric8_cluster.Transaction.{execute_in_transaction, begin_transaction, returned}
use fabric8_cluster.Transaction.Models
use fabric8_cluster.Transaction.Timeout.{
  Todo, statement, return_with, transactional, choosing, stopped, ending, ended, Exchange, timeout,
  send, run_on, work_on, proceed, receive, expire, works, receives, expires, proceeds, Reach, here,
  later, begun,
}
use fabric8_cluster.Transaction.Timeout.Order.{with_deadline, in_order, Reach-in_order}
use fabric8_cluster.Transaction.Timeout.Late.{IsLast, late_written}
use fabric8_cluster.Transaction.Timeout.Once.{late_once}
use fabric8_cluster.Transaction.Timeout.Phases.{alone}
use fabric8_cluster.Service.Works.{link, todo_of, method_of}
use fabric8_cluster.Service.Works.Laws.{summary, todo_of-alone}
use fabric8_cluster.Tests.Data.{west_row, world, east_log, write_and_fail}

abbrev insert_west : Log → Reply Unit × Log
insert_west s = (done tt, put west_row ∷ s)

abbrev finish : Reply Unit → Todo Log
finish a = return_with (ok tt)

-- A row is written, and the work returns.
abbrev write_once : Todo Log
write_once = statement Unit insert_west finish

abbrev first : Exchange Log
first = begun memory east_log write_once

-- The work is done, and the caller has committed it.
abbrev in_time : Exchange Log
in_time = record first {
  store = put west_row ∷ east_log;
  pending = put west_row ∷ east_log;
  live = false;
  cleared = true;
  goroutine = stopped;
  caller = ending (ok tt);
}

in_time_reached : Reach memory first in_time
unfolding work_on run_on send receive proceed
in_time_reached =
    later
      (later
        (later
          (later (later (later (later here (works refl)) (works refl)) (works refl)) (works refl))
          (receives refl))
        (proceeds refl))
      (proceeds refl)

Reach-in_order_example :
    (b : Bool) × (execute_in_transaction
        (with_deadline b memory)
        (in_order write_once)
        (world east_log)
      ≡ (returned (ok tt), world (put west_row ∷ east_log)))
unfolding begin_transaction string_eq
Reach-in_order_example =
    Reach-in_order memory memory-IsLawful write_once (world east_log) in_time (ok tt) refl refl
      in_time_reached refl

-- The work has the repositories of the transaction.
abbrev held : Exchange Log
held = record first { goroutine = choosing transactional write_once }

held_reached : Reach memory first held
unfolding work_on
held_reached = later here (works refl)

-- The caller has given up.
abbrev given_up : Exchange Log
given_up = record held {
  live = false;
  cleared = true;
  in_transaction = false;
  caller = ended (err timeout);
}

given_up_reached : Reach memory held given_up
unfolding expire proceed
given_up_reached =
    later (later (later (later here (expires refl)) (proceeds refl)) (proceeds refl))
      (proceeds refl)

late_once_example : given_up.store ≡ east_log
late_once_example =
    late_once memory memory-IsLawful east_log write_once held given_up timeout (λ a. tt)
      held_reached refl tt given_up_reached refl

late_written_example :
    (z : Exchange Log) × Reach memory first z
    × (z.caller ≡ ended (err timeout))
    × (z.in_transaction ≡ false)
    × (z.store ≡ put west_row ∷ east_log)
late_written_example = late_written memory memory-IsLawful east_log insert_west finish

transactional_all_example :
    (((Models.transactional memory write_and_fail (world east_log)).0 ≡ returned (ok tt))
      × ((write_and_fail (world east_log)).0 ≡ returned (ok tt))
      × ((Models.transactional memory write_and_fail (world east_log)).1.store
          ≡ put west_row ∷ east_log))
    ⊎ (((Models.transactional memory write_and_fail (world east_log)).0 ≢ returned (ok tt))
        × ((Models.transactional memory write_and_fail (world east_log)).1.store ≡ east_log))
transactional_all_example =
    Models.transactional_all memory memory-IsLawful (world east_log) write_and_fail

todo_of-alone_example :
    IsLast (todo_of memory 1 (link 7 1))
    × (alone (todo_of memory 1 (link 7 1)) east_log
        ≡ summary (method_of memory (link 7 1) (world east_log)))
todo_of-alone_example = todo_of-alone memory (link 7 1) (world east_log)
