-- ===== src/Jobs/Invariant.antt =====
-- What holds of the job tables between two calls of `JobStore`.
use development_bridge.Prelude.{
  map, ℕ, String, Bool, true, false, some, List, [], ◌∷◌, ◌++◌, ◌≡◌, refl, ap, subst, ◌∙◌, inl, inr,
  arith, eq_refl, any, All, All-append, All-update, All-map, NoConflict, NoConflict-append,
  NoConflict-update, any-append, first, update, ◌==◌, Bool-cases, Option-cases,
}
use development_bridge.Jobs.Models.{JobRow, JobDb, ExecutionSpec, JobArtifact}
use development_bridge.Jobs.Store.{
  ExecutionArgs, has_id, row_conflict, spec_conflict, artifact_conflict, created_row, execution_row,
  save_artifacts, insert_artifacts, artifact_row,
}
use development_bridge.Jobs.Lifecycle.{
  initialize, start, append_output, finish, fail_active, cancel_queued, interrupt, started,
  finished, failed_row, cancelled_row, with_output,
}
use development_bridge.Jobs.Admission.{IsFresh, create_effect}
use development_bridge.Jobs.Executions.{
  spec_of, admitted, IsFreshSpec, nothing, job_only, job_and_spec, execution_effect,
}
use development_bridge.Jobs.Calls.{
  run, StoreCall, creates, executes, starts, outputs, finishes, fails, cancels, restarts, captures,
  perform, IsLifecycle,
}
use development_bridge.Jobs.Rows.{
  IsRow, created_row-IsRow, execution_row-IsRow, started-IsRow, finished-IsRow, interrupt-IsRow,
  failed_row-IsRow, cancelled_row-IsRow, with_output-IsRow,
}

abbrev HasJob : List JobRow → ExecutionSpec → Type 0
HasJob jobs s = any (has_id s.job_id) jobs ≡ true

pub record IsConsistent (db : JobDb) : Type 0 where
  pub rows : All IsRow db.jobs
  pub job_keys : NoConflict row_conflict db.jobs
  pub spec_keys : NoConflict spec_conflict db.job_execution_specs
  pub artifact_keys : NoConflict artifact_conflict db.job_artifacts
  pub spec_jobs : All (HasJob db.jobs) db.job_execution_specs

any-update :
    (p q : JobRow → Bool) (f : JobRow → JobRow) (xs : List JobRow)
    → ((x : JobRow) → q (f x) ≡ q x)
    → any q (update p f xs) ≡ any q xs
any-update p q f [] k = refl
any-update p q f (x ∷ xs) k = ground (arith, k x, any-update p q f xs k)

-- An update of columns outside the constraints, on rows that stay right.
module _ (db : JobDb) (p : JobRow → Bool) (f : JobRow → JobRow)
    (ids : (r : JobRow) → (f r).job_id ≡ r.job_id)
    (keys : (x y : JobRow) → row_conflict (f x) y ≡ row_conflict x y)
    (keys' : (x y : JobRow) → row_conflict x (f y) ≡ row_conflict x y)
    (keep : (r : JobRow) → p r ≡ true → IsRow r → IsRow (f r)) where
  update-IsConsistent : IsConsistent db → IsConsistent (record db { jobs = update p f db.jobs })
  update-IsConsistent h = record {
    rows = All-update IsRow p f db.jobs keep h.rows;
    job_keys = NoConflict-update row_conflict p f db.jobs keys keys' h.job_keys;
    spec_keys = h.spec_keys;
    artifact_keys = h.artifact_keys;
    spec_jobs =
        All-map db.job_execution_specs
          (λ s e.
            any-update p (has_id s.job_id) f db.jobs (λ r. ap (λ id. id == s.job_id) (ids r)) ∙ e)
          h.spec_jobs;
  }

insert-IsConsistent :
    (db : JobDb) (r : JobRow)
    → IsRow r
    → any (row_conflict r) db.jobs ≡ false
    → IsConsistent db
    → IsConsistent (record db { jobs = db.jobs ++ r ∷ [] })
insert-IsConsistent db r ok_row fresh h = record {
  rows = All-append IsRow db.jobs (r ∷ []) h.rows (ok_row, tt);
  job_keys = NoConflict-append row_conflict r db.jobs h.job_keys fresh;
  spec_keys = h.spec_keys;
  artifact_keys = h.artifact_keys;
  spec_jobs =
      All-map db.job_execution_specs
        (λ s e. ground (arith, any-append (has_id s.job_id) db.jobs (r ∷ []))) h.spec_jobs;
}

admitted-IsConsistent :
    (a : ExecutionArgs) (db : JobDb)
    → IsFresh db (execution_row a)
    → IsFreshSpec db a
    → IsConsistent db
    → IsConsistent (admitted a db)
admitted-IsConsistent a db fresh new h =
    let k = insert-IsConsistent db (execution_row a) (execution_row-IsRow a) fresh h in
    record {
      rows = k.rows;
      job_keys = k.job_keys;
      spec_keys =
          NoConflict-append spec_conflict (spec_of a) db.job_execution_specs h.spec_keys new;
      artifact_keys = k.artifact_keys;
      spec_jobs = All-append _ db.job_execution_specs (spec_of a ∷ []) k.spec_jobs (
        ground
            (arith, any-append (has_id a.job_id) db.jobs (execution_row a ∷ []), eq_refl a.job_id),
        tt,
      );
    }

insert_artifacts-NoConflict :
    (new table : List JobArtifact) {table' : List JobArtifact}
    → NoConflict artifact_conflict table
    → insert_artifacts new table ≡ some table'
    → NoConflict artifact_conflict table'
unfolding insert_artifacts
insert_artifacts-NoConflict [] table u e = subst (NoConflict artifact_conflict) (ground arith) u
insert_artifacts-NoConflict (a ∷ rest) table {table'} u e =
    elim (Bool-cases (any (artifact_conflict a) table)) [
      | inl t ↦ ground arith
      | inr t ↦
          insert_artifacts-NoConflict rest (table ++ a ∷ [])
            (NoConflict-append artifact_conflict a table u t) (ground arith)
    ]

save_artifacts-IsConsistent :
    (id : String) (new : List JobArtifact) (db : JobDb)
    → IsConsistent db
    → IsConsistent (perform (captures id new) db)
unfolding perform save_artifacts
save_artifacts-IsConsistent id new db h =
    elim (Option-cases (insert_artifacts (map (artifact_row id) new) db.job_artifacts)) [
      | inl e ↦ rw (e, perform, save_artifacts) h
      | inr (table, e) ↦
          rw (e, perform, save_artifacts)
            (record {
              rows = h.rows;
              job_keys = h.job_keys;
              spec_keys = h.spec_keys;
              artifact_keys =
                  insert_artifacts-NoConflict (map (artifact_row id) new) db.job_artifacts
                    h.artifact_keys e;
              spec_jobs = h.spec_jobs;
            })
    ]

append_output-IsConsistent :
    (id stream : String) (bytes : List ℕ) (limit : ℕ) (db : JobDb)
    → IsConsistent db
    → IsConsistent (append_output id stream bytes limit db)
unfolding append_output
append_output-IsConsistent id stream bytes limit db h =
    elim (Option-cases (first (has_id id) db.jobs)) [
      | inl e ↦ rw (e, append_output) h
      | inr (r, e) ↦ rw (e, append_output) (written (stream == "stdout") _ _)
    ]
  where
    written :
        (is_stdout : Bool) (out : List ℕ) (flag : Bool)
        → IsConsistent
            (record db { jobs = update (has_id id) (with_output is_stdout out flag) db.jobs })
    written true out flag =
        update-IsConsistent db (has_id id) (with_output true out flag) (λ r. refl) (λ x y. refl)
          (λ x y. refl) (λ r _ k. with_output-IsRow true out flag r k) h
    written false out flag =
        update-IsConsistent db (has_id id) (with_output false out flag) (λ r. refl) (λ x y. refl)
          (λ x y. refl) (λ r _ k. with_output-IsRow false out flag r k) h

-- Every call of the store, whether it succeeds or raises, keeps the tables consistent: the constraints
-- on job ids, idempotency keys, specifications and artifacts, the timestamps, exit code and failure
-- reason that go with each status, and a job for each specification. `finish` is called with a terminal
-- status.
pub perform-IsConsistent :
    (c : StoreCall) (db : JobDb) → IsLifecycle c → IsConsistent db → IsConsistent (perform c db)
unfolding perform start finish fail_active cancel_queued initialize
perform-IsConsistent (creates a) db l h = elim (create_effect a db) [
  | inl e ↦ rw e h
  | inr (fresh, e) ↦ rw e (insert-IsConsistent db (created_row a) (created_row-IsRow a) fresh h)
]
perform-IsConsistent (executes a) db l h = elim (execution_effect a db) [
  | nothing e ↦ rw e h
  | job_only fresh e ↦
      rw e (insert-IsConsistent db (execution_row a) (execution_row-IsRow a) fresh h)
  | job_and_spec fresh new e ↦ rw e (admitted-IsConsistent a db fresh new h)
]
perform-IsConsistent (starts now id) db l h =
    update-IsConsistent db _ (started now) (λ r. refl) (λ x y. refl) (λ x y. refl)
      (λ r e k. started-IsRow now r (ground arith) k) h
perform-IsConsistent (outputs id stream bytes limit) db l h =
    append_output-IsConsistent id stream bytes limit db h
perform-IsConsistent (finishes now id status exit_code reason) db l h =
    update-IsConsistent db _ (finished status now exit_code reason) (λ r. refl) (λ x y. refl)
      (λ x y. refl) (λ r e k. finished-IsRow status now exit_code reason r l) h
perform-IsConsistent (fails now id reason) db l h =
    update-IsConsistent db _ (failed_row now reason) (λ r. refl) (λ x y. refl) (λ x y. refl)
      (λ r e k. failed_row-IsRow now reason r) h
perform-IsConsistent (cancels now id) db l h =
    update-IsConsistent db _ (cancelled_row now) (λ r. refl) (λ x y. refl) (λ x y. refl)
      (λ r e k. cancelled_row-IsRow now r) h
perform-IsConsistent (restarts now) db l h =
    update-IsConsistent db _ (interrupt now) (λ r. refl) (λ x y. refl) (λ x y. refl)
      (λ r e k. interrupt-IsRow now r) h
perform-IsConsistent (captures id new) db l h = save_artifacts-IsConsistent id new db h

-- Any history of calls in which `finish` is only called with a terminal status keeps consistent
-- tables consistent: the constraints on keys hold, and the columns of each job row fit its status.
pub run-IsConsistent :
    (cs : List StoreCall) (db : JobDb)
    → All IsLifecycle cs
    → IsConsistent db
    → IsConsistent (run cs db)
unfolding run
run-IsConsistent [] db l h = h
run-IsConsistent (c ∷ cs) db l h =
    run-IsConsistent cs (perform c db) l.1 (perform-IsConsistent c db l.0 h)
