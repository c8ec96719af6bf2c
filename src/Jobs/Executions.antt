-- ===== src/Jobs/Executions.antt =====
-- What `create_execution` of app/jobs/store.py does to the tables, branch by branch.
use development_bridge.Prelude.{
  true, false, ◌&&◌, some, [], ◌∷◌, ◌++◌, ◌≡◌, refl, inl, inr, ◌⊎◌, is_some, any, first, Bool-cases,
  Option-cases, same_text,
}
use development_bridge.Errors.{ok, err, bridge_error, job_busy}
use development_bridge.Jobs.Models.{JobRow, JobDb, ExecutionSpec}
use development_bridge.Jobs.Store.{
  ExecutionArgs, row_conflict, spec_conflict, execution_row, create_execution, execution_insert,
  execution_collided, existing_execution, replayed, joined_digest, has_execution_key,
  has_active_for_repository, get,
}
use development_bridge.Jobs.Admission.{with_row, IsFresh, get-insert}
use development_bridge.Jobs.Calls.{executes, perform, committed}

abbrev pub spec_of : ExecutionArgs → ExecutionSpec
spec_of a = record {
  job_id = a.job_id;
  payload_json = a.payload_json;
  payload_digest = a.payload_digest;
}

abbrev pub with_spec : JobDb → ExecutionSpec → JobDb
with_spec db s = record db { job_execution_specs = db.job_execution_specs ++ s ∷ [] }

-- the tables after an admitted execution
abbrev pub admitted : ExecutionArgs → JobDb → JobDb
admitted a db = with_spec (with_row db (execution_row a)) (spec_of a)

abbrev pub IsFreshSpec : JobDb → ExecutionArgs → Type 0
IsFreshSpec db a = any (spec_conflict (spec_of a)) db.job_execution_specs ≡ false

get-admitted :
    (a : ExecutionArgs) (db : JobDb)
    → IsFresh db (execution_row a)
    → get a.project_id a.repository_id a.job_id (admitted a db) ≡ ok (execution_row a).job
unfolding get
get-admitted a db fresh = get-insert (execution_row a) db fresh

-- what the two INSERTs come to
pub data Inserts (a : ExecutionArgs) (db : JobDb) : Type 0 where
  both :
      IsFresh db (execution_row a)
      → IsFreshSpec db a
      → execution_insert a db ≡ ok ((execution_row a).job, true, admitted a db)
      → Inserts a db
  row_taken : execution_insert a db ≡ execution_collided a db → Inserts a db
  spec_taken :
      IsFresh db (execution_row a)
      → execution_insert a db ≡ execution_collided a (with_row db (execution_row a))
      → Inserts a db

pub execution_insert-Inserts : (a : ExecutionArgs) (db : JobDb) → Inserts a db
unfolding execution_insert
execution_insert-Inserts a db = elim (Bool-cases (any (row_conflict (execution_row a)) db.jobs)) [
  | inl taken ↦ row_taken (rw (taken, execution_insert))
  | inr fresh ↦ elim (Bool-cases (any (spec_conflict (spec_of a)) db.job_execution_specs)) [
    | inl taken ↦ spec_taken fresh (rw (fresh, execution_insert) (rw (taken, execution_insert)))
    | inr new ↦
        both fresh new
          (rw (fresh, execution_insert) (rw (new, execution_insert) (rw (get-admitted a db fresh))))
  ]
]

-- `create_execution` where no row holds the key and the repository may take the job
pub create_execution-inverse :
    (a : ExecutionArgs) (db : JobDb)
    → ((r : JobRow) × (existing_execution a db ≡ some r)
        × (create_execution a db ≡ replayed a db r))
      ⊎ (((a.require_repository_idle && has_active_for_repository a.project_id a.repository_id db)
            ≡ true)
          × (create_execution a db ≡ err (bridge_error job_busy true)))
      ⊎ (((a.require_repository_idle && has_active_for_repository a.project_id a.repository_id db)
            ≡ false)
          × (create_execution a db ≡ execution_insert a db))
unfolding create_execution
create_execution-inverse a db = elim (Option-cases (existing_execution a db)) [
  | inr (r, e) ↦ inl (r, e, rw (e, create_execution))
  | inl e ↦
      elim (Bool-cases
        (a.require_repository_idle && has_active_for_repository a.project_id a.repository_id db)) [
          | inl t ↦ inr (inl (t, rw (e, create_execution) (rw (t, create_execution))))
          | inr t ↦ inr (inr (t, rw (e, create_execution) (rw (t, create_execution))))
        ]
]

-- what `create_execution` leaves behind: nothing, both rows, or the job row alone, where a stray
-- specification already had the new id
pub data Leaves (a : ExecutionArgs) (db db' : JobDb) : Type 0 where
  nothing : db' ≡ db → Leaves a db db'
  job_only : IsFresh db (execution_row a) → db' ≡ with_row db (execution_row a) → Leaves a db db'
  job_and_spec :
      IsFresh db (execution_row a) → IsFreshSpec db a → db' ≡ admitted a db → Leaves a db db'

replayed_leaves :
    (a : ExecutionArgs) (db base : JobDb) (r : JobRow)
    → (committed (λ t. t.2) base (replayed a db r) ≡ base)
      ⊎ (committed (λ t. t.2) base (replayed a db r) ≡ db)
replayed_leaves a db base r =
    elim (Bool-cases (same_text (joined_digest db r) (some a.payload_digest))) [
      | inl t ↦ inr (rw t)
      | inr t ↦ inl (rw t)
    ]

collided_leaves :
    (a : ExecutionArgs) (db base : JobDb)
    → (committed (λ t. t.2) base (execution_collided a db) ≡ base)
      ⊎ (committed (λ t. t.2) base (execution_collided a db) ≡ db)
unfolding execution_collided
collided_leaves a db base = elim (Bool-cases (is_some a.idempotency_key)) [
  | inr t ↦ inl (rw t)
  | inl t ↦ elim (Option-cases (first (has_execution_key a) db.jobs)) [
    | inl e ↦ inl (rw (t, e))
    | inr (r, e) ↦ rw (t, e) (replayed_leaves a db base r)
  ]
]

pub execution_effect : (a : ExecutionArgs) (db : JobDb) → Leaves a db (perform (executes a) db)
unfolding perform
execution_effect a db = elim (create_execution-inverse a db) [
  | inl (r, found, f) ↦
      rw f (elim (replayed_leaves a db db r) [ inl e ↦ nothing e | inr e ↦ nothing e ])
  | inr (inl (t, f)) ↦ rw f (nothing refl)
  | inr (inr (t, f)) ↦ elim (execution_insert-Inserts a db) [
    | both fresh spec g ↦ rw (f, g) (job_and_spec fresh spec refl)
    | row_taken g ↦
        rw (f, g) (elim (collided_leaves a db db) [ inl e ↦ nothing e | inr e ↦ nothing e ])
    | spec_taken fresh g ↦
        rw (f, g)
          (elim (collided_leaves a (with_row db (execution_row a)) db) [
            | inl e ↦ nothing e
            | inr e ↦ job_only fresh e
          ])
  ]
]
