-- ===== src/Jobs/WaiterExamples.antt =====
-- Two waiters on one job: the job fails, and one of them waits for another job too.
use development_bridge.Prelude.{none, some, [], ◌∷◌, ◌≡◌, refl, All}
use development_bridge.Jobs.Models.{JobDb, is_terminal}
use development_bridge.Jobs.Store.{get_by_id, create, get}
use development_bridge.Jobs.Lifecycle.{start, finish, append_output}
use development_bridge.Jobs.Calls.{restarts, cancels, run, perform}
use development_bridge.Jobs.Examples.{life, created}
use development_bridge.Jobs.Waiters.{
  Waiter, Waiters, Ready, waiter_reason, records_of, due, collect,
}
use development_bridge.Jobs.Wakeups.{undue, all_ready, collects_due, due_forever}

abbrev one_job : Waiter
one_job = record {
  waiter_id = "w1";
  job_ids = "job_1" ∷ [];
  policy = "all_terminal";
  durable = none;
}

abbrev two_jobs : Waiter
two_jobs = record {
  waiter_id = "w2";
  job_ids = "job_1" ∷ "job_2" ∷ [];
  policy = "failure_or_all_terminal";
  durable = some ("wake", "{}");
}

abbrev two_waiters : Waiters
two_waiters = record { waiting = ("w1", one_job) ∷ ("w2", two_jobs) ∷ []; firing = [] }

abbrev failed_db : JobDb
failed_db = run life created

collects_due_example :
    ((collect failed_db two_waiters).0 ≡ all_ready failed_db two_waiters.waiting)
    × ((collect failed_db two_waiters).1.waiting ≡ undue failed_db two_waiters.waiting)
    × All (λ o. due failed_db o.1 ≡ none) (collect failed_db two_waiters).1.waiting
collects_due_example = collects_due failed_db two_waiters (refl, (refl, tt))

due_job : (r : Ready) × (due failed_db one_job ≡ some r) × (r.reason ≡ "all_terminal")
unfolding run perform create get start append_output finish due records_of waiter_reason get_by_id
    is_terminal
due_job = (_, refl, refl)

due_forever_example :
    (r : Ready) × (due (run (restarts "t8" ∷ cancels "t9" "job_1" ∷ []) failed_db) one_job ≡ some r)
    × (r.reason ≡ due_job.0.reason)
due_forever_example =
    due_forever failed_db one_job (restarts "t8" ∷ cancels "t9" "job_1" ∷ []) {r = due_job.0}
      (tt, (tt, tt)) due_job.1
