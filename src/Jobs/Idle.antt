-- ===== src/Jobs/Idle.antt =====
-- `create_execution` of app/jobs/store.py admits an executor's job only to an idle repository.
use development_bridge.Prelude.{
  String, Bool, true, false, ◌&&◌, [], ◌∷◌, ◌≡◌, sym, ◌∙◌, inl, inr, arith, eq_refl, first,
  Option-cases, select, select-append, select-none,
}
use development_bridge.Errors.{ok}
use development_bridge.Jobs.Models.{JobRow, JobRecord, JobDb, is_active}
use development_bridge.Jobs.Store.{
  ExecutionArgs, in_repository, execution_row, create_execution, execution_collided,
  has_execution_key, has_active_for_repository,
}
use development_bridge.Jobs.Admission.{with_row, IsFresh}
use development_bridge.Jobs.Executions.{
  admitted, IsFreshSpec, both, row_taken, spec_taken, execution_insert-Inserts,
  create_execution-inverse,
}

-- the active jobs of a repository
abbrev pub active_in : String → String → JobRow → Bool
unfolding is_active
active_in project repository r = in_repository project repository r && is_active r.status

-- the handler of an IntegrityError never reports a new job
not_new :
    (a : ExecutionArgs) (db : JobDb) {j : JobRecord} {db' : JobDb}
    → execution_collided a db ≡ ok (j, true, db')
    → ⊥
unfolding execution_collided
not_new a db e = elim (Option-cases (first (has_execution_key a) db.jobs)) [
  | inl absent ↦ ground arith
  | inr (r, held) ↦ ground arith
]

-- An answer that reports a new job made both rows.
pub created_by_insert :
    (a : ExecutionArgs) (db : JobDb) {j : JobRecord} {db' : JobDb}
    → create_execution a db ≡ ok (j, true, db')
    → ((a.require_repository_idle && has_active_for_repository a.project_id a.repository_id db)
        ≡ false)
      × IsFresh db (execution_row a)
      × IsFreshSpec db a
      × (j ≡ (execution_row a).job)
      × (db' ≡ admitted a db)
created_by_insert a db {j} {db'} e = elim (create_execution-inverse a db) [
  | inl (r, found, f) ↦ ground arith
  | inr (inl (t, f)) ↦ cc
  | inr (inr (t, f)) ↦ elim (execution_insert-Inserts a db) [
    | both fresh spec g ↦ (t, fresh, spec, ground arith, ground arith)
    | row_taken g ↦ collided db (sym (f ∙ g) ∙ e)
    | spec_taken fresh g ↦ collided (with_row db (execution_row a)) (sym (f ∙ g) ∙ e)
  ]
]
  where
    Goal : Type 0
    Goal =
        ((a.require_repository_idle && has_active_for_repository a.project_id a.repository_id db)
          ≡ false)
        × IsFresh db (execution_row a)
        × IsFreshSpec db a
        × (j ≡ (execution_row a).job)
        × (db' ≡ admitted a db)

    collided : (d : JobDb) → execution_collided a d ≡ ok (j, true, db') → Goal
    collided d h = absurd (not_new a d h)

-- An executor's job that was admitted on the condition of an idle repository is the only queued or
-- running job of its repository.
pub execution_alone :
    (a : ExecutionArgs) (db : JobDb) {j : JobRecord} {db' : JobDb}
    → a.require_repository_idle ≡ true
    → create_execution a db ≡ ok (j, true, db')
    → select (active_in a.project_id a.repository_id) db'.jobs ≡ execution_row a ∷ []
unfolding is_active has_active_for_repository
execution_alone a db {j} {db'} idle e =
    let (free, fresh, spec, same, d) = created_by_insert a db e in
    rw d (
      select-append (active_in a.project_id a.repository_id) db.jobs (execution_row a ∷ [])
      ∙ rw (select-none (active_in a.project_id a.repository_id) db.jobs (ground arith))
          (ground (arith, eq_refl a.project_id, eq_refl a.repository_id)))
