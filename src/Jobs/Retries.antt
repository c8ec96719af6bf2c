-- ===== src/Jobs/Retries.antt =====
-- The idempotency key of `create_execution` (app/jobs/store.py) is bound to one specification.
use development_bridge.Prelude.{
  String, Bool, true, false, Option, none, some, [], ◌∷◌, ◌≡◌, ◌≢◌, refl, sym, ◌∙◌, inl, inr, arith,
  eq_iff, eq_refl, is_some, first, first-append, ◌==◌, Bool-cases, Option-cases, same_text,
}
use development_bridge.Errors.{ok, err, idempotency_conflict, raised}
use development_bridge.Jobs.Models.{JobRow, JobRecord, JobDb}
use development_bridge.Jobs.Store.{
  ExecutionArgs, execution_row, create_execution, execution_insert, execution_collided,
  existing_execution, replayed, joined_digest, has_execution_key,
}
use development_bridge.Jobs.Admission.{with_row, first_own_key}
use development_bridge.Jobs.Executions.{
  spec_of, admitted, IsFreshSpec, both, row_taken, spec_taken, execution_insert-Inserts,
  create_execution-inverse,
}

-- the row that holds the key of `a`, with a specification of the digest of `a`
abbrev pub Holds : ExecutionArgs → JobRecord → JobDb → Type 0
Holds a j db =
    (r : JobRow) × (first (has_execution_key a) db.jobs ≡ some r)
    × (r.job ≡ j)
    × (same_text (joined_digest db r) (some a.payload_digest) ≡ true)

own_digest :
    (a : ExecutionArgs) (db : JobDb)
    → IsFreshSpec db a
    → same_text (joined_digest (admitted a db) (execution_row a)) (some a.payload_digest) ≡ true
own_digest a db new =
    rw (first-append (λ s. s.job_id == a.job_id) db.job_execution_specs (spec_of a ∷ []) new)
      (rw (eq_refl a.job_id) (eq_refl a.payload_digest))

module _ (a : ExecutionArgs) {j : JobRecord} {new : Bool} {db' : JobDb}
    (keyed : is_some a.idempotency_key ≡ true) where
  held_after_replay :
      (db : JobDb) (r : JobRow)
      → first (has_execution_key a) db.jobs ≡ some r
      → replayed a db r ≡ ok (j, new, db')
      → Holds a j db'
  held_after_replay db r held e =
      elim (Bool-cases (same_text (joined_digest db r) (some a.payload_digest))) [
        | inl t ↦ let d : db' ≡ db = ground arith in (r, rw d held, ground arith, rw d t)
        | inr t ↦ ground arith
      ]

  held_after_collision : (db : JobDb) → execution_collided a db ≡ ok (j, new, db') → Holds a j db'
  unfolding execution_collided
  held_after_collision db e = elim (Option-cases (first (has_execution_key a) db.jobs)) [
    | inl absent ↦ ground arith
    | inr (r, held) ↦ held_after_replay db r held (ground arith)
  ]

  held_after_insert : (db : JobDb) → execution_insert a db ≡ ok (j, new, db') → Holds a j db'
  held_after_insert db e = elim (execution_insert-Inserts a db) [
    | both fresh spec f ↦
        let d : db' ≡ admitted a db = ground arith in
        (
          execution_row a,
          rw d (first_own_key (execution_row a) db keyed fresh),
          ground arith,
          rw d (own_digest a db spec),
        )
    | row_taken f ↦ held_after_collision db (sym f ∙ e)
    | spec_taken fresh f ↦ held_after_collision (with_row db (execution_row a)) (sym f ∙ e)
  ]

  -- the key is held after every answer of `create_execution`
  held_after_execution : (db : JobDb) → create_execution a db ≡ ok (j, new, db') → Holds a j db'
  unfolding existing_execution
  held_after_execution db e = elim (create_execution-inverse a db) [
    | inl (r, found, f) ↦ held_after_replay db r (ground arith) (sym f ∙ e)
    | inr (inl (t, f)) ↦ cc
    | inr (inr (t, f)) ↦ held_after_insert db (sym f ∙ e)
  ]

-- `b` asks for an execution in the repository of `a`, under the same key
pub record IsRetry (a b : ExecutionArgs) : Type 0 where
  pub project : b.project_id ≡ a.project_id
  pub repository : b.repository_id ≡ a.repository_id
  pub key : b.idempotency_key ≡ a.idempotency_key

execution-held :
    (a b : ExecutionArgs) (db : JobDb) (r : JobRow)
    → is_some a.idempotency_key ≡ true
    → IsRetry a b
    → first (has_execution_key a) db.jobs ≡ some r
    → create_execution b db ≡ replayed b db r
unfolding create_execution existing_execution
execution-held a b db r keyed s held = rw (found, create_execution)
  where
    found : existing_execution b db ≡ some r
    found = rw (s.project, s.repository, s.key, keyed) held

-- Once `create_execution` with an idempotency key has answered with a job, a retry in the same project
-- and repository under the same key with the same payload digest answers with that same job, reports
-- that it created none and leaves the tables as they are, also where it requires an idle repository.
pub execution_replay :
    (a b : ExecutionArgs) (db : JobDb) {j : JobRecord} {new : Bool} {db' : JobDb}
    → is_some a.idempotency_key ≡ true
    → IsRetry a b
    → b.payload_digest ≡ a.payload_digest
    → create_execution a db ≡ ok (j, new, db')
    → create_execution b db' ≡ ok (j, false, db')
execution_replay a b db {j} {new} {db'} keyed s digest e =
    let (r, held, same, bound) = held_after_execution a keyed db e in
    execution-held a b db' r keyed s held ∙ rw (digest, bound, same)

-- Once `create_execution` with an idempotency key has answered with a job, a retry in the same
-- project and repository under the same key with another payload digest raises
-- IDEMPOTENCY_CONFLICT.
pub execution_conflict :
    (a b : ExecutionArgs) (db : JobDb) {j : JobRecord} {new : Bool} {db' : JobDb}
    → is_some a.idempotency_key ≡ true
    → IsRetry a b
    → b.payload_digest ≢ a.payload_digest
    → create_execution a db ≡ ok (j, new, db')
    → create_execution b db' ≡ err (raised idempotency_conflict)
execution_conflict a b db {j} {new} {db'} keyed s digest e =
    let (r, held, same, bound) = held_after_execution a keyed db e in
    execution-held a b db' r keyed s held ∙ rw (other_digest (joined_digest db' r) bound) refl
  where
    other_digest :
        (d : Option String)
        → same_text d (some a.payload_digest) ≡ true
        → same_text d (some b.payload_digest) ≡ false
    other_digest none h = refl
    other_digest (some d) h = ground (arith, eq_iff d a.payload_digest, eq_iff d b.payload_digest)
