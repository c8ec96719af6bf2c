-- ===== src/Jobs/History.antt =====
-- What a caller of `JobStore` may rely on over any history of calls.
use development_bridge.Prelude.{
  map, ℕ, String, Bool, true, false, some, List, [], ◌∷◌, ◌≡◌, ap, subst, ◌∙◌, inl, inr, arith, All,
  first, Bool-cases, Option-cases, ◌==◌, is_some,
}
use development_bridge.Errors.{ok}
use development_bridge.Jobs.Models.{
  running, failed, cancelled, JobRow, JobRecord, JobDb, JobArtifact, is_terminal, status_eq,
  is_active,
}
use development_bridge.Jobs.Store.{
  CreateArgs, has_id, created_row, execution_row, create, save_artifacts, insert_artifacts,
  artifact_row, get_by_id,
}
use development_bridge.Jobs.Lifecycle.{
  start, append_output, finish, fail_active, cancel_queued, initialize, interrupt, started,
  finished, failed_row, cancelled_row, with_output,
}
use development_bridge.Jobs.Admission.{
  create_effect, IsRetry, create-held, held_after_create, key_of, retry-key_of,
}
use development_bridge.Jobs.Executions.{nothing, job_only, job_and_spec, execution_effect}
use development_bridge.Jobs.Calls.{
  StoreCall, creates, executes, starts, outputs, finishes, fails, cancels, restarts, captures,
  perform, run, IsLifecycle,
}
use development_bridge.Jobs.Progress.{
  RowStep, RowStep-live, Evolves, Evolves-refl, Evolves-trans, Evolves-append, Evolves-update,
  can_become, can_become_refl,
}

with_output-RowStep :
    (stream : Bool) (out : List ℕ) (flag : Bool) (r : JobRow)
    → RowStep r (with_output stream out flag r)
with_output-RowStep true out flag r = ground (arith, can_become_refl r.status)
with_output-RowStep false out flag r = ground (arith, can_become_refl r.status)

append_output-Evolves :
    (id stream : String) (bytes : List ℕ) (limit : ℕ) (db : JobDb)
    → Evolves db.jobs (append_output id stream bytes limit db).jobs
unfolding append_output
append_output-Evolves id stream bytes limit db = elim (Option-cases (first (has_id id) db.jobs)) [
  | inl e ↦ rw (e, append_output) (Evolves-refl db.jobs)
  | inr (r, e) ↦
      rw (e, append_output)
        (Evolves-update (has_id id) _ db.jobs
          (λ x _. with_output-RowStep (stream == "stdout") _ _ x))
]

save_artifacts-Evolves :
    (id : String) (new : List JobArtifact) (db : JobDb)
    → (perform (captures id new) db).jobs ≡ db.jobs
unfolding perform save_artifacts
save_artifacts-Evolves id new db =
    elim (Option-cases (insert_artifacts (map (artifact_row id) new) db.job_artifacts)) [
      | inl e ↦ rw (e, perform, save_artifacts)
      | inr (table, e) ↦ rw (e, perform, save_artifacts)
    ]

-- One call of the store changes rows only as `RowStep` allows.
perform-Evolves : (c : StoreCall) (db : JobDb) → IsLifecycle c → Evolves db.jobs (perform c db).jobs
unfolding perform start finish fail_active cancel_queued initialize status_eq is_active is_terminal
    can_become
perform-Evolves (creates a) db l = elim (create_effect a db) [
  | inl e ↦ rw e (Evolves-refl db.jobs)
  | inr (fresh, e) ↦ rw e (Evolves-append db.jobs (created_row a ∷ []))
]
perform-Evolves (executes a) db l = elim (execution_effect a db) [
  | nothing e ↦ rw e (Evolves-refl db.jobs)
  | job_only fresh e ↦ rw e (Evolves-append db.jobs (execution_row a ∷ []))
  | job_and_spec fresh new e ↦ rw e (Evolves-append db.jobs (execution_row a ∷ []))
]
perform-Evolves (starts now id) db l =
    Evolves-update _ (started now) db.jobs
      λ x t. RowStep-live x running _ _ _ _ (ground arith) (ground arith)
perform-Evolves (outputs id stream bytes limit) db l =
    append_output-Evolves id stream bytes limit db
perform-Evolves (finishes now id status exit_code reason) db l =
    Evolves-update _ (finished status now exit_code reason) db.jobs
      λ x t. RowStep-live x status _ _ _ _ (ground arith) (ground arith)
perform-Evolves (fails now id reason) db l =
    Evolves-update _ (failed_row now reason) db.jobs
      λ x t. RowStep-live x failed _ _ _ _ (ground arith) (ground arith)
perform-Evolves (cancels now id) db l =
    Evolves-update _ (cancelled_row now) db.jobs
      λ x t. RowStep-live x cancelled _ _ _ _ (ground arith) (ground arith)
perform-Evolves (restarts now) db l =
    Evolves-update _ (interrupt now) db.jobs
      λ x t. RowStep-live x failed _ _ _ _ (ground arith) (ground arith)
perform-Evolves (captures id new) db l =
    rw (save_artifacts-Evolves id new db) (Evolves-refl db.jobs)

run-Evolves :
    (cs : List StoreCall) (db : JobDb) → All IsLifecycle cs → Evolves db.jobs (run cs db).jobs
unfolding run
run-Evolves [] db l = Evolves-refl db.jobs
run-Evolves (c ∷ cs) db l =
    Evolves-trans db.jobs (perform c db).jobs (run cs (perform c db)).jobs
      (perform-Evolves c db l.0) (run-Evolves cs (perform c db) l.1)

-- a test on the columns that never change finds the same row later
first-Evolves :
    (p : JobRow → Bool) (xs ys : List JobRow) {r : JobRow}
    → ((x y : JobRow) → RowStep x y → p y ≡ p x)
    → Evolves xs ys
    → first p xs ≡ some r
    → (r' : JobRow) × (first p ys ≡ some r') × RowStep r r'
first-Evolves p [] ys k e h = ground arith
first-Evolves p (x ∷ xs) [] k e h = absurd e
first-Evolves p (x ∷ xs) (y ∷ ys) {r} k e h = elim (Bool-cases (p x)) [
  | inl t ↦ (y, ground (arith, k x y e.0), subst (λ z. RowStep z y) (ground arith) e.0)
  | inr t ↦
      let (r', found, step) = first-Evolves p xs ys {r = r} k e.1 (ground arith) in
      (r', ground (arith, k x y e.0), step)
]

-- A job that the store holds is found under its id after any history of calls in which `finish` is
-- only called with a terminal status: it belongs to the same repository, task and request, its
-- status has only moved forward, and once it is terminal its status, finish time, exit code and
-- failure reason are those that it had.
pub run-job :
    (id : String) (cs : List StoreCall) (db : JobDb) {r : JobRow}
    → All IsLifecycle cs
    → first (has_id id) db.jobs ≡ some r
    → (r' : JobRow) × (first (has_id id) (run cs db).jobs ≡ some r') × RowStep r r'
run-job id cs db {r} l h =
    first-Evolves (has_id id) db.jobs (run cs db).jobs {r = r} (λ x y s. ap (λ i. i == id) s.job_id)
      (run-Evolves cs db l) h

pub get_by_id-row :
    (id : String) (db : JobDb) {j : JobRecord}
    → get_by_id id db ≡ some j
    → (r : JobRow) × (first (has_id id) db.jobs ≡ some r) × (r.job ≡ j)
unfolding get_by_id
get_by_id-row id db {j} h = elim (Option-cases (first (has_id id) db.jobs)) [
  | inl e ↦ ground arith
  | inr (r, e) ↦ (r, e, ground arith)
]

-- Once `create` has answered for an idempotency key, a retry for the same project, repository and
-- task under the same key, after any history of calls in which `finish` is only called with a
-- terminal status, still answers with the job of the same id, reports that it created none and
-- changes nothing.
pub create_replay :
    (a b : CreateArgs) (cs : List StoreCall) (db : JobDb) {j : JobRecord} {new : Bool} {db' : JobDb}
    → is_some a.idempotency_key ≡ true
    → IsRetry a b
    → All IsLifecycle cs
    → create a db ≡ ok (j, new, db')
    → (j' : JobRecord) × (create b (run cs db') ≡ ok (j', false, run cs db'))
      × (j'.job_id ≡ j.job_id)
create_replay a b cs db {j} {new} {db'} keyed s l e =
    let (r, held, same) = held_after_create a db keyed e in
    let (r', found, step) =
      first-Evolves (key_of a) db'.jobs (run cs db').jobs {r = r}
        (λ x y t. cc (t.project_id, t.repository_id, t.task_id, t.idempotency_key))
        (run-Evolves cs db' l) held in
    (
      r'.job,
      create-held b (run cs db') {r = r'} (rw s.key keyed) (rw (retry-key_of a b s) found),
      step.job_id ∙ ap (λ (x : JobRecord). x.job_id) same,
    )
