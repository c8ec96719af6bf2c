-- ===== src/Jobs/Waiters.antt =====
-- app/jobs/service.py: the terminal waiters of `JobService`. Each function here is what runs under the
-- lock `_terminal_lock`; the callbacks run between them, and `conclude` is what follows one callback. A
-- waiter stands without its callback, which is the caller's. `token_urlsafe` and `_now()` are arguments.
use development_bridge.Prelude.{
  ℕ, ◌+◌, String, Bool, true, false, ◌&&◌, ◌||◌, not, Option, none, some, List, [], ◌∷◌, ◌==◌,
  if◌then◌else◌, any, all, length, leb, insert, delete, is_some, Dict, lookup, put, pop,
}
use development_bridge.Errors.{
  raised, bridge_error, integrity_error, invalid_argument, policy_violation, Result, ok, err, ◌>>=◌,
  ◌>>◌, guard,
}
use development_bridge.Jobs.Models.{
  JobStatus, failed, cancelled, ℤ, JobRecord, JobDb, status_eq, is_terminal,
}
use development_bridge.Jobs.Store.{get, get_by_id}
use development_bridge.Jobs.Lifecycle.{finish, fail_active, cancel_queued}

pub record Waiter : Type 0 where
  pub waiter_id : String
  pub job_ids : List String
  pub policy : String
  -- `durable`: the handler's name and the JSON text of the payload
  pub durable : Option (String × String)

-- `_terminal_waiters` and `_firing_terminal_waiters`
pub record Waiters : Type 0 where
  pub waiting : Dict Waiter
  pub firing : Dict Waiter

-- a callback to invoke, with its arguments
pub record Ready : Type 0 where
  pub waiter : Waiter
  pub jobs : List JobRecord
  pub reason : String

abbrev pub is_failure : JobRecord → Bool
is_failure j = status_eq j.status failed || status_eq j.status cancelled

-- _waiter_reason
unfoldable pub waiter_reason : List JobRecord → String → Option String
unfolding status_eq is_terminal
waiter_reason jobs policy =
    if (policy == "failure_or_all_terminal") && any is_failure jobs
    then some "failure"
    else (if all (λ j. is_terminal j.status) jobs then some "all_terminal" else none)

-- the jobs of a waiter, where none is missing
abbrev pub with_job : Option JobRecord → Option (List JobRecord) → Option (List JobRecord)
with_job (some j) (some jobs) = some (j ∷ jobs)
with_job _ _ = none

unfoldable pub records_of : List String → JobDb → Option (List JobRecord)
records_of [] db = some []
records_of (id ∷ ids) db = with_job (get_by_id id db) (records_of ids db)

abbrev pub ready_for : Waiter → List JobRecord → Option String → Option Ready
ready_for w jobs none = none
ready_for w jobs (some reason) = some (record { waiter = w; jobs = jobs; reason = reason })

-- the test of one waiter in `_collect_terminal_callbacks`
unfoldable pub due : JobDb → Waiter → Option Ready
unfolding records_of waiter_reason
due db w = elim (records_of w.job_ids db) [
  | none ↦ none
  | some jobs ↦ ready_for w jobs (waiter_reason jobs w.policy)
]

-- the loop of `_collect_terminal_callbacks` over the items that it began with
unfoldable pub collect_items : JobDb → Dict Waiter → Waiters → List Ready × Waiters
unfolding due
collect_items db [] ws = ([], ws)
collect_items db ((id, w) ∷ items) ws = elim (due db w) [
  | none ↦ collect_items db items ws
  | some r ↦
      let (ready, after) =
        collect_items db items
          (record ws { waiting = pop id ws.waiting; firing = put id w ws.firing }) in
      (r ∷ ready, after)
]

unfoldable pub collect : JobDb → Waiters → List Ready × Waiters
collect db ws = collect_items db ws.waiting ws

-- _finish_job, _fail_active and _cancel_queued, up to the release of the lock
unfoldable pub finish_job :
    String
    → String
    → JobStatus
    → Option ℤ
    → Option String
    → JobDb
    → Waiters
    → List Ready × JobDb × Waiters
unfolding collect
finish_job now id status exit_code reason db ws =
    let after = finish now id status exit_code reason db in
    let (ready, ws') = collect after ws in (ready, after, ws')

unfoldable pub fail_job : String → String → String → JobDb → Waiters → List Ready × JobDb × Waiters
unfolding collect
fail_job now id reason db ws =
    let after = fail_active now id reason db in
    let (ready, ws') = collect after ws in (ready, after, ws')

unfoldable pub cancel_job : String → String → JobDb → Waiters → Bool × List Ready × JobDb × Waiters
unfolding collect
cancel_job now id db ws =
    let (changed, after) = cancel_queued now id db in
    if changed
    then (let (ready, ws') = collect after ws in (changed, ready, after, ws'))
    else (changed, [], after, ws)

-- DELETE FROM job_terminal_waiters WHERE waiter_id = ?
abbrev pub delete_waiter : String → JobDb → JobDb
delete_waiter id db = record db {
  job_terminal_waiters = delete (λ r. r.waiter_id == id) db.job_terminal_waiters;
}

-- self._terminal_waiters.setdefault(waiter_id, waiter)
abbrev pub set_default : String → Waiter → Dict Waiter → Dict Waiter
set_default id w d = if is_some (lookup id d) then d else put id w d

-- what follows a callback in `_invoke_terminal_callbacks`: did it raise?
unfoldable pub conclude : Bool → Waiter → JobDb → Waiters → JobDb × Waiters
conclude true w db ws = (
  db,
  record ws {
    firing = pop w.waiter_id ws.firing;
    waiting = if is_some w.durable then set_default w.waiter_id w ws.waiting else ws.waiting;
  },
)
conclude false w db ws = (
  if is_some w.durable then delete_waiter w.waiter_id db else db,
  record ws { firing = pop w.waiter_id ws.firing },
)

-- len(set(job_ids)) != len(job_ids)
abbrev pub all_unique : List String → Bool
all_unique [] = true
all_unique (id ∷ ids) = not (any (λ j. j == id) ids) && all_unique ids

abbrev pub get_all : String → String → List String → JobDb → Result (List JobRecord)
get_all project repository [] db = ok []
get_all project repository (id ∷ ids) db = do
  j ← get project repository id db
  jobs ← get_all project repository ids db
  ok (j ∷ jobs)

-- INSERT INTO job_terminal_waiters, for a durable waiter
abbrev pub save_waiter :
    String → String → String → Waiter → Option (String × String) → JobDb → Result JobDb
save_waiter now project repository w none db = ok db
save_waiter now project repository w (some (handler, payload)) db =
    elim (insert (λ new old. old.waiter_id == new.waiter_id)
      (record {
        waiter_id = w.waiter_id;
        project_id = project;
        repository_id = repository;
        job_ids = w.job_ids;
        policy = w.policy;
        handler_name = handler;
        payload_json = payload;
        created_at = now;
      })
      db.job_terminal_waiters) [
        | none ↦ err integrity_error
        | some rows ↦ ok (record db { job_terminal_waiters = rows })
      ]

abbrev pub max_terminal_waiters : ℕ
max_terminal_waiters = 256

abbrev pub wait_or_fire :
    String
    → String
    → String
    → Waiter
    → List JobRecord
    → Option String
    → JobDb
    → Waiters
    → Result (Option Ready × JobDb × Waiters)
wait_or_fire now project repository w jobs (some reason) db ws = ok (
  some (record { waiter = w; jobs = jobs; reason = reason }),
  db,
  if is_some w.durable then record ws { firing = put w.waiter_id w ws.firing } else ws,
)
wait_or_fire now project repository w jobs none db ws = do
  guard (not (leb max_terminal_waiters (length ws.waiting + length ws.firing)))
      (bridge_error policy_violation true)
  after ← save_waiter now project repository w w.durable db
  ok (none, after, record ws { waiting = put w.waiter_id w ws.waiting })

-- _register_terminal_waiter after `_require_execute`, up to the release of the lock
unfoldable pub register_waiter :
    String → String → String → Waiter → JobDb → Waiters → Result (Option Ready × JobDb × Waiters)
unfolding waiter_reason
register_waiter now project repository w db ws = do
  guard (leb 1 (length w.job_ids) && (leb (length w.job_ids) 64 && all_unique w.job_ids))
      (raised invalid_argument)
  guard ((w.policy == "all_terminal") || (w.policy == "failure_or_all_terminal"))
      (raised invalid_argument)
  jobs ← get_all project repository w.job_ids db
  wait_or_fire now project repository w jobs (waiter_reason jobs w.policy) db ws
