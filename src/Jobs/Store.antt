-- ===== src/Jobs/Store.antt =====
-- app/jobs/store.py: the statements of `JobStore` on the tables. A raise inside `_connect` skips the
-- commit, so an operation that fails returns no new tables. `_now()` and `uuid4` are arguments.
use mathlib.Core.Option
use development_bridge.Prelude.{
  map, String, Bool, true, false, ◌&&◌, ◌||◌, Option, none, some, List, [], ◌∷◌, ◌==◌, same_text,
  is_some, if◌then◌else◌, any, first, insert,
}
use development_bridge.Errors.{
  Result, ◌>>=◌, ok, err, bridge_error, integrity_error, assertion_error, raised, job_not_found,
  idempotency_conflict, job_busy,
}
use development_bridge.Jobs.Models.{
  queued, JobRecord, JobRow, JobArtifact, ExecutionSpec, JobDb, is_active,
}

abbrev pub repository_exec_task_id : String
repository_exec_task_id = "__repository_exec__"

abbrev pub has_id : String → JobRow → Bool
has_id id r = r.job_id == id

-- project_id = ? AND repository_id = ?
abbrev pub in_repository : String → String → JobRow → Bool
in_repository project repository r = r.project_id == project && r.repository_id == repository

-- ... AND task_id = ? AND idempotency_key = ?
abbrev pub has_key : String → String → String → Option String → JobRow → Bool
has_key project repository task key r =
    in_repository project repository r && (r.task_id == task && same_text r.idempotency_key key)

-- job_id TEXT PRIMARY KEY, UNIQUE(project_id, repository_id, task_id, idempotency_key)
abbrev pub row_conflict : JobRow → JobRow → Bool
row_conflict new old =
    has_id new.job_id old
    || has_key new.project_id new.repository_id new.task_id new.idempotency_key old

abbrev pub spec_conflict : ExecutionSpec → ExecutionSpec → Bool
spec_conflict new old = old.job_id == new.job_id

abbrev pub artifact_conflict : JobArtifact → JobArtifact → Bool
artifact_conflict new old = old.job_id == new.job_id && old.artifact_id == new.artifact_id

-- SELECT 1 ... status IN ('queued', 'running') LIMIT 1
unfoldable pub has_active : JobDb → Bool
unfolding is_active
has_active db = any (λ r. is_active r.status) db.jobs

unfoldable pub has_active_for_repository : String → String → JobDb → Bool
unfolding is_active
has_active_for_repository project repository db =
    any (λ r. in_repository project repository r && is_active r.status) db.jobs

unfoldable pub get : String → String → String → JobDb → Result JobRecord
get project repository id db =
    elim (first (λ r. in_repository project repository r && has_id id r) db.jobs) [
      | none ↦ err (raised job_not_found)
      | some r ↦ ok r.job
    ]

unfoldable pub get_by_id : String → JobDb → Option JobRecord
get_by_id id db = Option.map (λ r. r.job) (first (has_id id) db.jobs)

-- the columns that an INSERT leaves out have their defaults
abbrev pub new_job : String → String → String → String → String → String → JobRecord
new_job id project repository task request now = record {
  job_id = id;
  project_id = project;
  repository_id = repository;
  task_id = task;
  request_id = request;
  status = queued;
  created_at = now;
  started_at = none;
  finished_at = none;
  exit_code = none;
  failure_reason = none;
  stdout = [];
  stderr = [];
  stdout_truncated = false;
  stderr_truncated = false;
  executor = none;
  executor_model = none;
  executor_quota_state = none;
}

-- The keyword arguments of `create`, with the new id and the time.
pub record CreateArgs : Type 0 where
  pub job_id : String
  pub now : String
  pub project_id : String
  pub repository_id : String
  pub task_id : String
  pub request_id : String
  pub idempotency_key : Option String

abbrev pub created_row : CreateArgs → JobRow
created_row a = record {
  job = new_job a.job_id a.project_id a.repository_id a.task_id a.request_id a.now;
  idempotency_key = a.idempotency_key;
}

-- `except sqlite3.IntegrityError` of `create`
unfoldable pub create_collided : CreateArgs → JobDb → Result (JobRecord × Bool × JobDb)
create_collided a db =
    if is_some a.idempotency_key
    then elim (first (has_key a.project_id a.repository_id a.task_id a.idempotency_key) db.jobs) [
      | none ↦ err assertion_error
      | some r ↦ ok (r.job, false, db)
    ]
    else err integrity_error

unfoldable pub create : CreateArgs → JobDb → Result (JobRecord × Bool × JobDb)
unfolding create_collided get
create a db = elim (insert row_conflict (created_row a) db.jobs) [
  | none ↦ create_collided a db
  | some jobs ↦
      let after = record db { jobs = jobs } in
      do found ← get a.project_id a.repository_id a.job_id after; ok (found, true, after)
]

-- The keyword arguments of `create_execution`, with the new id and the time.
pub record ExecutionArgs : Type 0 where
  pub job_id : String
  pub now : String
  pub project_id : String
  pub repository_id : String
  pub request_id : String
  pub idempotency_key : Option String
  pub payload_json : String
  pub payload_digest : String
  pub executor : Option String
  pub executor_model : Option String
  pub executor_quota_state : Option String
  pub require_repository_idle : Bool

abbrev pub execution_row : ExecutionArgs → JobRow
execution_row a = record {
  job =
      record (new_job a.job_id a.project_id a.repository_id repository_exec_task_id a.request_id
        a.now) {
          executor = a.executor;
          executor_model = a.executor_model;
          executor_quota_state = a.executor_quota_state;
        };
  idempotency_key = a.idempotency_key;
}

-- j LEFT JOIN job_execution_specs s ON s.job_id = j.job_id: the digest of the row's specification
abbrev pub joined_digest : JobDb → JobRow → Option String
joined_digest db r =
    Option.map (λ s. s.payload_digest) (first (λ s. s.job_id == r.job_id) db.job_execution_specs)

-- the job that holds the key, or a conflict if it was made from another specification
abbrev pub replayed : ExecutionArgs → JobDb → JobRow → Result (JobRecord × Bool × JobDb)
replayed a db r =
    if same_text (joined_digest db r) (some a.payload_digest)
    then ok (r.job, false, db)
    else err (raised idempotency_conflict)

abbrev pub has_execution_key : ExecutionArgs → JobRow → Bool
has_execution_key a = has_key a.project_id a.repository_id repository_exec_task_id a.idempotency_key

-- `except sqlite3.IntegrityError` of `create_execution`. `db` are the tables of the transaction:
-- the job row is among them where the specification's INSERT failed.
unfoldable pub execution_collided : ExecutionArgs → JobDb → Result (JobRecord × Bool × JobDb)
execution_collided a db =
    if is_some a.idempotency_key
    then elim (first (has_execution_key a) db.jobs) [
      | none ↦ err assertion_error
      | some r ↦ replayed a db r
    ]
    else err integrity_error

-- the two INSERTs, and what reads the new job back
unfoldable pub execution_insert : ExecutionArgs → JobDb → Result (JobRecord × Bool × JobDb)
unfolding execution_collided get
execution_insert a db = elim (insert row_conflict (execution_row a) db.jobs) [
  | none ↦ execution_collided a db
  | some jobs ↦
      let inserted = record db { jobs = jobs } in
      elim (insert spec_conflict
        (record {
          job_id = a.job_id;
          payload_json = a.payload_json;
          payload_digest = a.payload_digest;
        })
        db.job_execution_specs) [
          | none ↦ execution_collided a inserted
          | some specs ↦
              let after = record inserted { job_execution_specs = specs } in
              do found ← get a.project_id a.repository_id a.job_id after; ok (found, true, after)
        ]
]

unfoldable pub existing_execution : ExecutionArgs → JobDb → Option JobRow
existing_execution a db =
    if is_some a.idempotency_key then first (has_execution_key a) db.jobs else none

unfoldable pub create_execution : ExecutionArgs → JobDb → Result (JobRecord × Bool × JobDb)
unfolding existing_execution execution_insert has_active_for_repository
create_execution a db = elim (existing_execution a db) [
  | some r ↦ replayed a db r
  | none ↦
      if a.require_repository_idle && has_active_for_repository a.project_id a.repository_id db
      then err (bridge_error job_busy true)
      else execution_insert a db
]

-- `executemany` of the INSERT in `save_artifacts`: one conflict rolls all of them back.
unfoldable pub insert_artifacts : List JobArtifact → List JobArtifact → Option (List JobArtifact)
insert_artifacts [] table = some table
insert_artifacts (a ∷ rest) table = elim (insert artifact_conflict a table) [
  | none ↦ none
  | some table' ↦ insert_artifacts rest table'
]

-- the row of an artifact has the job id of the call
abbrev pub artifact_row : String → JobArtifact → JobArtifact
artifact_row id a = record a { job_id = id }

unfoldable pub save_artifacts : String → List JobArtifact → JobDb → Result JobDb
unfolding insert_artifacts
save_artifacts id artifacts db =
    elim (insert_artifacts (map (artifact_row id) artifacts) db.job_artifacts) [
      | none ↦ err integrity_error
      | some table ↦ ok (record db { job_artifacts = table })
    ]
