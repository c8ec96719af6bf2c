-- ===== src/Jobs/Examples.antt =====
-- The theorems on the job tables at concrete inputs.
use development_bridge.Prelude.{
  String, true, false, none, some, List, [], ◌∷◌, ◌≡◌, ◌≢◌, refl, arith, first, select, eq_iff, All,
  any,
}
use development_bridge.Errors.{ok, err, raised, idempotency_conflict}
use development_bridge.Jobs.Models.{
  failed, pos, JobRecord, JobRow, JobDb, empty_db, status_eq, is_terminal,
}
use development_bridge.Jobs.Store.{
  CreateArgs, ExecutionArgs, has_id, created_row, execution_row, create, create_execution,
  execution_insert, get, get_by_id,
}
use development_bridge.Jobs.Lifecycle.{
  start, started, finish, append_output, initialize, is_running,
}
use development_bridge.Jobs.Calls.{
  StoreCall, creates, starts, outputs, finishes, restarts, perform, run, IsLifecycle,
}
use development_bridge.Jobs.Admission.{IsRetry, with_row}
use development_bridge.Jobs.Executions.{admitted}
use development_bridge.Jobs.Retries.{execution_replay, execution_conflict}
use development_bridge.Jobs.Idle.{execution_alone, active_in}
use development_bridge.Jobs.Invariant.{IsConsistent, run-IsConsistent}
use development_bridge.Jobs.Progress.{RowStep}
use development_bridge.Jobs.History.{run-job, create_replay}
use development_bridge.Jobs.Claims.{to_run, to_cancel, claim, claim_answer, claimed_once, is_queued}
use development_bridge.Jobs.Output.{drain, drain_bounded}
use development_bridge.Jobs.Restart.{initialize_interrupts}

abbrev build : CreateArgs
build = record {
  job_id = "job_1";
  now = "t1";
  project_id = "p";
  repository_id = "r";
  task_id = "build";
  request_id = "q1";
  idempotency_key = some "k";
}

abbrev build_again : CreateArgs
build_again = record build { job_id = "job_2"; now = "t9"; request_id = "q2" }

-- the build was created, has run and has failed
abbrev pub life : List StoreCall
life =
    starts "t2" "job_1"
    ∷ outputs "job_1" "stdout" (104 ∷ 105 ∷ []) 10
    ∷ finishes "t3" "job_1" failed (some (pos 2)) (some "nonzero_exit")
    ∷ []

abbrev pub created : JobDb
created = with_row empty_db (created_row build)

empty_db-IsConsistent : IsConsistent empty_db
empty_db-IsConsistent = record {
  rows = tt;
  job_keys = tt;
  spec_keys = tt;
  artifact_keys = tt;
  spec_jobs = tt;
}

life-IsLifecycle : All IsLifecycle life
unfolding is_terminal
life-IsLifecycle = (tt, (tt, (refl, tt)))

run-IsConsistent_example : IsConsistent (run (creates build ∷ life) empty_db)
run-IsConsistent_example =
    run-IsConsistent (creates build ∷ life) empty_db (tt, life-IsLifecycle) empty_db-IsConsistent

build_is_made : create build empty_db ≡ ok ((created_row build).job, true, created)
unfolding create get
build_is_made = refl

build_again-IsRetry : IsRetry build build_again
build_again-IsRetry = record { project = refl; repository = refl; task = refl; key = refl }

create_replay_example :
    (j : JobRecord) × (create build_again (run life created) ≡ ok (j, false, run life created))
    × (j.job_id ≡ "job_1")
create_replay_example =
    create_replay build build_again life empty_db {db' = created} refl build_again-IsRetry
      life-IsLifecycle build_is_made

run-job_example :
    (r : JobRow) × (first (has_id "job_1") (run life created).jobs ≡ some r)
    × RowStep (created_row build) r
run-job_example = run-job "job_1" life created life-IsLifecycle refl

abbrev failed_build : JobRecord
failed_build = record (created_row build).job {
  status = failed;
  started_at = some "t2";
  finished_at = some "t3";
  exit_code = some (pos 2);
  failure_reason = some "nonzero_exit";
  stdout = 104 ∷ 105 ∷ [];
}

found_failed : get_by_id "job_1" (run life created) ≡ some failed_build
unfolding get_by_id run perform start append_output finish
found_failed = refl

created-IsConsistent : IsConsistent created
unfolding run perform create get
created-IsConsistent = run-IsConsistent (creates build ∷ []) empty_db (tt, tt) empty_db-IsConsistent

claim_answer_example :
    ((claim to_cancel "t2" "job_1" created).0 ≡ is_queued "job_1" created)
    × (is_queued "job_1" (claim to_cancel "t2" "job_1" created).1 ≡ false)
claim_answer_example = claim_answer to_cancel "t2" "job_1" created created-IsConsistent

claimed_once_example :
    (claim to_cancel "t5" "job_1"
      (run (restarts "t4" ∷ []) (claim to_run "t2" "job_1" created).1)).0
    ≡ false
unfolding claim start
claimed_once_example =
    claimed_once to_run to_cancel "t2" "t5" "job_1" (restarts "t4" ∷ []) created
      created-IsConsistent (tt, tt) refl

drain_bounded_example :
    (r : JobRow) × (first
        (has_id "job_1")
        (drain "job_1" "stderr" 3 ((1 ∷ 2 ∷ []) ∷ (3 ∷ 4 ∷ []) ∷ []) created).jobs
      ≡ some r)
    × (r.stderr ≡ 1 ∷ 2 ∷ 3 ∷ [])
    × (r.stderr_truncated ≡ true)
drain_bounded_example =
    drain_bounded "job_1" "stderr" 3 ((1 ∷ 2 ∷ []) ∷ (3 ∷ 4 ∷ []) ∷ []) created
      {r = created_row build} refl refl refl

abbrev interrupted : JobRow
interrupted = started "t2" (created_row build)

initialize_interrupts_example :
    let (answer, db) = initialize "t9" (with_row empty_db interrupted) in
    (any is_running db.jobs ≡ false)
    × (first (has_id "job_1") db.jobs
        ≡ some (record interrupted {
          job = record interrupted.job {
            status = failed;
            finished_at = some "t9";
            failure_reason = some "interrupted_by_restart";
          };
        }))
    × (answer ≡ interrupted.job ∷ [])
    × (initialize "t10" db ≡ ([], db))
unfolding initialize status_eq
initialize_interrupts_example =
    initialize_interrupts "t9" "t10" "job_1" (with_row empty_db interrupted) {r = interrupted} refl

abbrev work : ExecutionArgs
work = record {
  job_id = "job_1";
  now = "t1";
  project_id = "p";
  repository_id = "r";
  request_id = "q1";
  idempotency_key = some "k";
  payload_json = "one";
  payload_digest = "d1";
  executor = some "cline";
  executor_model = none;
  executor_quota_state = none;
  require_repository_idle = true;
}

work_is_made :
    create_execution work empty_db ≡ ok ((execution_row work).job, true, admitted work empty_db)
unfolding create_execution execution_insert get
work_is_made = refl

execution_replay_example :
    create_execution (record work { job_id = "job_2"; now = "t5" }) (admitted work empty_db)
    ≡ ok ((execution_row work).job, false, admitted work empty_db)
execution_replay_example =
    execution_replay work (record work { job_id = "job_2"; now = "t5" }) empty_db
      {db' = admitted work empty_db} refl (record { project = refl; repository = refl; key = refl })
      refl work_is_made

digests_differ : ◌≢◌ {A = String} "d2" "d1"
digests_differ = ground (arith, eq_iff "d2" "d1")

execution_conflict_example :
    create_execution
      (record work { job_id = "job_2"; payload_digest = "d2" })
      (admitted work empty_db)
    ≡ err (raised idempotency_conflict)
execution_conflict_example =
    execution_conflict work (record work { job_id = "job_2"; payload_digest = "d2" }) empty_db
      {db' = admitted work empty_db} refl (record { project = refl; repository = refl; key = refl })
      digests_differ work_is_made

execution_alone_example :
    select (active_in "p" "r") (admitted work empty_db).jobs ≡ execution_row work ∷ []
execution_alone_example =
    execution_alone work empty_db {db' = admitted work empty_db} refl work_is_made
