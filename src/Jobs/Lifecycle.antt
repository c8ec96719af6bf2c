-- ===== src/Jobs/Lifecycle.antt =====
-- app/jobs/store.py: the statements that move a job through its life, and its output columns.
-- An UPDATE ... WHERE job_id = ? AND status = ? answers by its row count whether it took effect.
use development_bridge.Prelude.{
  ℕ, String, Bool, true, false, ◌&&◌, ◌||◌, Option, none, some, List, ◌++◌, map, ◌==◌, eqb, ltb,
  take, length, select, first, update,
}
use development_bridge.Jobs.Models.{
  JobStatus, queued, running, failed, cancelled, ℤ, JobRecord, JobRow, JobDb, status_eq, is_active,
}
use development_bridge.Jobs.Store.{has_id}

-- `initialize` beyond CREATE TABLE: the running jobs, and the tables with these jobs failed.
abbrev pub interrupt : String → JobRow → JobRow
interrupt now r = record r {
  job = record r.job {
    status = failed;
    finished_at = some now;
    failure_reason = some "interrupted_by_restart";
  };
}

abbrev pub is_running : JobRow → Bool
is_running r = status_eq r.status running

unfoldable pub initialize : String → JobDb → List JobRecord × JobDb
unfolding status_eq
initialize now db = (
  map (λ r. r.job) (select is_running db.jobs),
  record db { jobs = update is_running (interrupt now) db.jobs },
)

-- WHERE job_id = ? AND status = ?
abbrev pub has_status : String → JobStatus → JobRow → Bool
has_status id status r = has_id id r && status_eq r.status status

abbrev pub update_jobs : (JobRow → Bool) → (JobRow → JobRow) → JobDb → JobDb
update_jobs p f db = record db { jobs = update p f db.jobs }

-- `cursor.rowcount == 1`
abbrev pub changed_one : (JobRow → Bool) → JobDb → Bool
changed_one p db = eqb (length (select p db.jobs)) 1

abbrev pub started : String → JobRow → JobRow
started now r = record r { job = record r.job { status = running; started_at = some now } }

unfoldable pub start : String → String → JobDb → Bool × JobDb
unfolding status_eq
start now id db =
    (changed_one (has_status id queued) db, update_jobs (has_status id queued) (started now) db)

-- `combined[:limit]` and the flag of one stream
abbrev pub bounded : ℕ → List ℕ → List ℕ → List ℕ
bounded limit existing data' = take limit (existing ++ data')

abbrev pub overflows : ℕ → List ℕ → List ℕ → Bool → Bool
overflows limit existing data' truncated = truncated || ltb limit (length (existing ++ data'))

-- SET column = bounded, column_truncated = truncated, with the values of the row that was read
abbrev pub with_output : Bool → List ℕ → Bool → JobRow → JobRow
with_output true bytes truncated r = record r {
  job = record r.job { stdout = bytes; stdout_truncated = truncated };
}
with_output false bytes truncated r = record r {
  job = record r.job { stderr = bytes; stderr_truncated = truncated };
}

abbrev pub output_of : Bool → JobRow → List ℕ
output_of true r = r.stdout
output_of false r = r.stderr

abbrev pub truncated_of : Bool → JobRow → Bool
truncated_of true r = r.stdout_truncated
truncated_of false r = r.stderr_truncated

unfoldable pub append_output : String → String → List ℕ → ℕ → JobDb → JobDb
append_output id stream data' limit db =
    let is_stdout = stream == "stdout" in
    elim (first (has_id id) db.jobs) [
      | none ↦ db
      | some r ↦
          update_jobs (has_id id)
            (with_output is_stdout (bounded limit (output_of is_stdout r) data')
              (overflows limit (output_of is_stdout r) data' (truncated_of is_stdout r)))
            db
    ]

abbrev pub finished : JobStatus → String → Option ℤ → Option String → JobRow → JobRow
finished status now exit_code reason r = record r {
  job = record r.job {
    status = status;
    finished_at = some now;
    exit_code = exit_code;
    failure_reason = reason;
  };
}

unfoldable pub finish : String → String → JobStatus → Option ℤ → Option String → JobDb → JobDb
unfolding status_eq
finish now id status exit_code reason =
    update_jobs (has_status id running) (finished status now exit_code reason)

abbrev pub failed_row : String → String → JobRow → JobRow
failed_row now reason r = record r {
  job = record r.job { status = failed; finished_at = some now; failure_reason = some reason };
}

unfoldable pub fail_active : String → String → String → JobDb → JobDb
unfolding is_active
fail_active now id reason =
    update_jobs (λ r. has_id id r && is_active r.status) (failed_row now reason)

abbrev pub cancelled_row : String → JobRow → JobRow
cancelled_row now r = record r { job = record r.job { status = cancelled; finished_at = some now } }

unfoldable pub cancel_queued : String → String → JobDb → Bool × JobDb
unfolding status_eq
cancel_queued now id db = (
  changed_one (has_status id queued) db,
  update_jobs (has_status id queued) (cancelled_row now) db,
)
