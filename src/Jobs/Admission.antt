-- ===== src/Jobs/Admission.antt =====
-- What `create` and `create_execution` (app/jobs/store.py) do to the tables, and their idempotency keys.
use development_bridge.Prelude.{
  Bool, true, false, ◌&&◌, some, [], ◌∷◌, ◌++◌, ◌≡◌, sym, ◌∙◌, inl, inr, ◌⊎◌, arith, eq_refl,
  is_some, any, any-false_mono, any-true_mono, any_of_first, first, first-append, Bool-cases,
  Option-cases,
}
use development_bridge.Errors.{ok}
use development_bridge.Jobs.Models.{JobRow, JobRecord, JobDb}
use development_bridge.Jobs.Store.{
  CreateArgs, has_id, in_repository, has_key, row_conflict, created_row, create, create_collided,
  get,
}
use development_bridge.Jobs.Calls.{creates, perform}

abbrev pub with_row : JobDb → JobRow → JobDb
with_row db r = record db { jobs = db.jobs ++ r ∷ [] }

abbrev pub IsFresh : JobDb → JobRow → Type 0
IsFresh db r = any (row_conflict r) db.jobs ≡ false

-- a row that was just inserted is the one that its id finds
pub get-insert :
    (r : JobRow) (db : JobDb)
    → IsFresh db r
    → get r.project_id r.repository_id r.job_id (with_row db r) ≡ ok r.job
unfolding get
get-insert r db fresh = rw (found, get)
  where
    p : JobRow → Bool
    p x = in_repository r.project_id r.repository_id x && has_id r.job_id x

    absent : any p db.jobs ≡ false
    absent = any-false_mono p (row_conflict r) db.jobs (λ x h. ground arith) fresh

    found : first p (db.jobs ++ r ∷ []) ≡ some r
    found =
        first-append p db.jobs (r ∷ []) absent
        ∙ ground (arith, eq_refl r.project_id, eq_refl r.repository_id, eq_refl r.job_id)

abbrev pub key_of : CreateArgs → JobRow → Bool
key_of a = has_key a.project_id a.repository_id a.task_id a.idempotency_key

pub create-fresh :
    (a : CreateArgs) (db : JobDb)
    → IsFresh db (created_row a)
    → create a db ≡ ok ((created_row a).job, true, with_row db (created_row a))
unfolding create
create-fresh a db fresh = rw (fresh, create) (rw (get-insert (created_row a) db fresh))

create-taken :
    (a : CreateArgs) (db : JobDb)
    → any (row_conflict (created_row a)) db.jobs ≡ true
    → create a db ≡ create_collided a db
unfolding create
create-taken a db taken = rw (taken, create)

-- a key that a row holds is a conflict, and is answered by the first such row
pub create-held :
    (a : CreateArgs) (db : JobDb) {r : JobRow}
    → is_some a.idempotency_key ≡ true
    → first (key_of a) db.jobs ≡ some r
    → create a db ≡ ok (r.job, false, db)
unfolding create_collided
create-held a db {r} keyed e =
    create-taken a db (
      any-true_mono (key_of a) (row_conflict (created_row a)) db.jobs (λ x h. ground arith)
        (any_of_first (key_of a) db.jobs e))
    ∙ rw (keyed, e)

-- a row that has a key holds it
own_key :
    (r : JobRow)
    → is_some r.idempotency_key ≡ true
    → first (has_key r.project_id r.repository_id r.task_id r.idempotency_key) (r ∷ []) ≡ some r
own_key r keyed = elim (Option-cases r.idempotency_key) [
  | inl e ↦ ground arith
  | inr (k, e) ↦
      ground (arith, eq_refl r.project_id, eq_refl r.repository_id, eq_refl r.task_id, eq_refl k)
]

pub first_own_key :
    (r : JobRow) (db : JobDb)
    → is_some r.idempotency_key ≡ true
    → IsFresh db r
    → first (has_key r.project_id r.repository_id r.task_id r.idempotency_key) (with_row db r).jobs
      ≡ some r
first_own_key r db keyed fresh =
    first-append (own r) db.jobs (r ∷ [])
      (any-false_mono (own r) (row_conflict r) db.jobs (λ x h. ground arith) fresh)
    ∙ own_key r keyed
  where
    own : JobRow → JobRow → Bool
    own r = has_key r.project_id r.repository_id r.task_id r.idempotency_key

create-inverse :
    (a : CreateArgs) (db : JobDb)
    → (IsFresh db (created_row a)
        × (create a db ≡ ok ((created_row a).job, true, with_row db (created_row a))))
      ⊎ (create a db ≡ create_collided a db)
create-inverse a db = elim (Bool-cases (any (row_conflict (created_row a)) db.jobs)) [
  | inl taken ↦ inr (create-taken a db taken)
  | inr fresh ↦ inl (fresh, create-fresh a db fresh)
]

pub create_effect :
    (a : CreateArgs) (db : JobDb)
    → (perform (creates a) db ≡ db)
      ⊎ (IsFresh db (created_row a) × (perform (creates a) db ≡ with_row db (created_row a)))
unfolding perform
create_effect a db = elim (create-inverse a db) [
  | inl (fresh, e) ↦ inr (fresh, rw e)
  | inr e ↦ inl (rw e (unfold create_collided in ground arith))
]

held_after_collision :
    (a : CreateArgs) (db : JobDb) {j : JobRecord} {new : Bool} {db' : JobDb}
    → is_some a.idempotency_key ≡ true
    → create_collided a db ≡ ok (j, new, db')
    → (r : JobRow) × (first (key_of a) db'.jobs ≡ some r) × (r.job ≡ j)
unfolding create_collided
held_after_collision a db {j} {new} {db'} keyed e = elim (Option-cases (first (key_of a) db.jobs)) [
  | inl none_held ↦ ground arith
  | inr (r, held) ↦ let d : db' ≡ db = ground arith in (r, rw d held, ground arith)
]

-- the row that holds the key once `create` has answered
pub held_after_create :
    (a : CreateArgs) (db : JobDb) {j : JobRecord} {new : Bool} {db' : JobDb}
    → is_some a.idempotency_key ≡ true
    → create a db ≡ ok (j, new, db')
    → (r : JobRow) × (first (key_of a) db'.jobs ≡ some r) × (r.job ≡ j)
held_after_create a db {j} {new} {db'} keyed e = elim (create-inverse a db) [
  | inl (fresh, f) ↦
      let d : db' ≡ with_row db (created_row a) = ground arith in
      (created_row a, rw d (first_own_key (created_row a) db keyed fresh), ground arith)
  | inr f ↦ held_after_collision a db keyed (sym f ∙ e)
]

-- `b` asks for the task of `a` under the same key
pub record IsRetry (a b : CreateArgs) : Type 0 where
  pub project : b.project_id ≡ a.project_id
  pub repository : b.repository_id ≡ a.repository_id
  pub task : b.task_id ≡ a.task_id
  pub key : b.idempotency_key ≡ a.idempotency_key

pub retry-key_of : (a b : CreateArgs) → IsRetry a b → key_of b ≡ key_of a
retry-key_of a b s = cc (s.project, s.repository, s.task, s.key)
