-- ===== src/Jobs/Models.antt =====
-- app/jobs/models.py, and the tables of app/jobs/store.py as lists of rows in the order of insertion.
use development_bridge.Prelude.{ℕ, String, Bool, true, false, Option, List, []}

pub data JobStatus : Type 0 where
  queued running succeeded failed cancelled : JobStatus

-- An exit code may be negative: the number of a signal. `negsuc n` is -(n + 1).
pub data ℤ : Type 0 where
  pos : ℕ → ℤ
  negsuc : ℕ → ℤ

-- Bytes are numbers, and a timestamp is the text of `_now()`.
pub record JobRecord : Type 0 where
  pub job_id : String
  pub project_id : String
  pub repository_id : String
  pub task_id : String
  pub request_id : String
  pub status : JobStatus
  pub created_at : String
  pub started_at : Option String
  pub finished_at : Option String
  pub exit_code : Option ℤ
  pub failure_reason : Option String
  pub stdout : List ℕ
  pub stderr : List ℕ
  pub stdout_truncated : Bool
  pub stderr_truncated : Bool
  pub executor : Option String
  pub executor_model : Option String
  pub executor_quota_state : Option String

-- A row of `jobs` has one more column than `_row` reads.
pub record JobRow : Type 0 where
  pub job : JobRecord
  pub open job use *
  pub idempotency_key : Option String

pub record JobArtifact : Type 0 where
  pub job_id : String
  pub artifact_id : String
  pub path : String
  pub media_type : String
  pub required : Bool
  pub available : Bool
  pub size_bytes : Option ℕ
  pub sha256 : Option String
  pub storage_path : Option String
  pub error : Option String

-- A row of `job_execution_specs`.
pub record ExecutionSpec : Type 0 where
  pub job_id : String
  pub payload_json : String
  pub payload_digest : String

-- A row of `job_terminal_waiters`. The column `job_ids_json` is the list that it encodes.
pub record WaiterRow : Type 0 where
  pub waiter_id : String
  pub project_id : String
  pub repository_id : String
  pub job_ids : List String
  pub policy : String
  pub handler_name : String
  pub payload_json : String
  pub created_at : String

-- The tables.
pub record JobDb : Type 0 where
  pub jobs : List JobRow
  pub job_artifacts : List JobArtifact
  pub job_execution_specs : List ExecutionSpec
  pub job_terminal_waiters : List WaiterRow

abbrev pub empty_db : JobDb
empty_db = record {
  jobs = [];
  job_artifacts = [];
  job_execution_specs = [];
  job_terminal_waiters = [];
}

unfoldable pub status_eq : JobStatus → JobStatus → Bool
status_eq queued queued = true
status_eq running running = true
status_eq succeeded succeeded = true
status_eq failed failed = true
status_eq cancelled cancelled = true
status_eq _ _ = false

-- the set `terminal` of `JobService._waiter_reason`
unfoldable pub is_terminal : JobStatus → Bool
is_terminal succeeded = true
is_terminal failed = true
is_terminal cancelled = true
is_terminal _ = false

-- `status IN ('queued', 'running')`
unfoldable pub is_active : JobStatus → Bool
is_active queued = true
is_active running = true
is_active _ = false
