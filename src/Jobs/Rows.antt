-- ===== src/Jobs/Rows.antt =====
-- The columns of a job row that its status determines (app/jobs/store.py).
use development_bridge.Prelude.{
  ℕ, String, Bool, true, false, Option, none, List, ◌≡◌, arith, is_some,
}
use development_bridge.Jobs.Models.{JobStatus, queued, running, ℤ, JobRow, is_terminal, status_eq}
use development_bridge.Jobs.Store.{CreateArgs, ExecutionArgs, created_row, execution_row}
use development_bridge.Jobs.Lifecycle.{
  interrupt, started, finished, failed_row, cancelled_row, with_output,
}

-- The columns that a row's status determines.
pub record IsRow (r : JobRow) : Type 0 where
  pub waiting : r.status ≡ queued → (r.started_at ≡ none) × (r.finished_at ≡ none)
  pub under_way : r.status ≡ running → (is_some r.started_at ≡ true) × (r.finished_at ≡ none)
  pub over : is_terminal r.status ≡ true → is_some r.finished_at ≡ true
  pub exited : is_some r.exit_code ≡ true → is_terminal r.status ≡ true
  pub explained : is_some r.failure_reason ≡ true → is_terminal r.status ≡ true

pub created_row-IsRow : (a : CreateArgs) → IsRow (created_row a)
unfolding is_terminal
created_row-IsRow a = ground arith

pub execution_row-IsRow : (a : ExecutionArgs) → IsRow (execution_row a)
unfolding is_terminal
execution_row-IsRow a = ground arith

pub started-IsRow :
    (now : String) (r : JobRow) → status_eq r.status queued ≡ true → IsRow r → IsRow (started now r)
unfolding is_terminal status_eq
started-IsRow now r e h = ground arith

pub finished-IsRow :
    (status : JobStatus) (now : String) (exit_code : Option ℤ) (reason : Option String) (r : JobRow)
    → is_terminal status ≡ true
    → IsRow (finished status now exit_code reason r)
unfolding is_terminal
finished-IsRow status now exit_code reason r t = ground arith

pub interrupt-IsRow : (now : String) (r : JobRow) → IsRow (interrupt now r)
unfolding is_terminal
interrupt-IsRow now r = ground arith

pub failed_row-IsRow : (now reason : String) (r : JobRow) → IsRow (failed_row now reason r)
unfolding is_terminal
failed_row-IsRow now reason r = ground arith

pub cancelled_row-IsRow : (now : String) (r : JobRow) → IsRow (cancelled_row now r)
unfolding is_terminal
cancelled_row-IsRow now r = ground arith

pub with_output-IsRow :
    (stream : Bool) (bytes : List ℕ) (truncated : Bool) (r : JobRow)
    → IsRow r
    → IsRow (with_output stream bytes truncated r)
with_output-IsRow true bytes truncated r h = ground arith
with_output-IsRow false bytes truncated r h = ground arith
