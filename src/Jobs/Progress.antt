-- ===== src/Jobs/Progress.antt =====
-- How the rows of `jobs` change over a history of calls of `JobStore`.
use development_bridge.Prelude.{
  String, Bool, true, false, Option, List, [], ◌∷◌, ◌++◌, ◌≡◌, refl, ap, ◌∙◌, inl, inr, arith,
  update, Bool-cases,
}
use development_bridge.Jobs.Models.{JobStatus, queued, running, ℤ, JobRow, is_terminal, status_eq}

-- The life of a job: a queued job may become anything, a running one anything but queued, and a
-- terminal one stays as it is.
unfoldable pub can_become : JobStatus → JobStatus → Bool
unfolding status_eq
can_become queued t = true
can_become running queued = false
can_become running t = true
can_become s t = status_eq s t

-- what a call may do to a row
pub record RowStep (x y : JobRow) : Type 0 where
  pub job_id : y.job_id ≡ x.job_id
  pub project_id : y.project_id ≡ x.project_id
  pub repository_id : y.repository_id ≡ x.repository_id
  pub task_id : y.task_id ≡ x.task_id
  pub request_id : y.request_id ≡ x.request_id
  pub created_at : y.created_at ≡ x.created_at
  pub idempotency_key : y.idempotency_key ≡ x.idempotency_key
  pub forward : can_become x.status y.status ≡ true
  pub finished_at : is_terminal x.status ≡ true → y.finished_at ≡ x.finished_at
  pub exit_code : is_terminal x.status ≡ true → y.exit_code ≡ x.exit_code
  pub failure_reason : is_terminal x.status ≡ true → y.failure_reason ≡ x.failure_reason

pub can_become_refl : (s : JobStatus) → can_become s s ≡ true
unfolding can_become
can_become_refl queued = refl
can_become_refl _ = refl

pub can_become_trans :
    (s t u : JobStatus) → can_become s t ≡ true → can_become t u ≡ true → can_become s u ≡ true
unfolding can_become
can_become_trans s t u p q = ground arith

pub terminal-can_become : (s t : JobStatus) → is_terminal s ≡ true → can_become s t ≡ true → t ≡ s
unfolding can_become is_terminal
terminal-can_become s t p q = ground arith

pub RowStep-refl : (x : JobRow) → RowStep x x
RowStep-refl x = record {
  job_id = refl;
  project_id = refl;
  repository_id = refl;
  task_id = refl;
  request_id = refl;
  created_at = refl;
  idempotency_key = refl;
  forward = can_become_refl x.status;
  finished_at = λ _. refl;
  exit_code = λ _. refl;
  failure_reason = λ _. refl;
}

pub RowStep-trans : (x y z : JobRow) → RowStep x y → RowStep y z → RowStep x z
RowStep-trans x y z p q = record {
  job_id = q.job_id ∙ p.job_id;
  project_id = q.project_id ∙ p.project_id;
  repository_id = q.repository_id ∙ p.repository_id;
  task_id = q.task_id ∙ p.task_id;
  request_id = q.request_id ∙ p.request_id;
  created_at = q.created_at ∙ p.created_at;
  idempotency_key = q.idempotency_key ∙ p.idempotency_key;
  forward = can_become_trans x.status y.status z.status p.forward q.forward;
  finished_at = λ t. q.finished_at (still t) ∙ p.finished_at t;
  exit_code = λ t. q.exit_code (still t) ∙ p.exit_code t;
  failure_reason = λ t. q.failure_reason (still t) ∙ p.failure_reason t;
}
  where
    still : is_terminal x.status ≡ true → is_terminal y.status ≡ true
    still t = ap is_terminal (terminal-can_become x.status y.status t p.forward) ∙ t

-- an update of the status and the columns that go with it, of a row that is not terminal
pub RowStep-live :
    (x : JobRow) (status : JobStatus) (s f : Option String) (e : Option ℤ) (why : Option String)
    → is_terminal x.status ≡ false
    → can_become x.status status ≡ true
    → RowStep x (record x {
      job = record x.job {
        status = status;
        started_at = s;
        finished_at = f;
        exit_code = e;
        failure_reason = why;
      };
    })
RowStep-live x status s f e why live go = record {
  job_id = refl;
  project_id = refl;
  repository_id = refl;
  task_id = refl;
  request_id = refl;
  created_at = refl;
  idempotency_key = refl;
  forward = go;
  finished_at = λ t. cc;
  exit_code = λ t. cc;
  failure_reason = λ t. cc;
}

-- No row is lost, and rows keep their place; new rows come below.
abbrev pub Evolves : List JobRow → List JobRow → Type 0
Evolves [] ys = Unit
Evolves (x ∷ xs) [] = ⊥
Evolves (x ∷ xs) (y ∷ ys) = RowStep x y × Evolves xs ys

pub Evolves-refl : (xs : List JobRow) → Evolves xs xs
Evolves-refl [] = tt
Evolves-refl (x ∷ xs) = (RowStep-refl x, Evolves-refl xs)

pub Evolves-trans : (xs ys zs : List JobRow) → Evolves xs ys → Evolves ys zs → Evolves xs zs
Evolves-trans [] ys zs p q = tt
Evolves-trans (x ∷ xs) [] zs p q = absurd p
Evolves-trans (x ∷ xs) (y ∷ ys) [] p q = absurd q
Evolves-trans (x ∷ xs) (y ∷ ys) (z ∷ zs) p q =
    (RowStep-trans x y z p.0 q.0, Evolves-trans xs ys zs p.1 q.1)

pub Evolves-append : (xs ys : List JobRow) → Evolves xs (xs ++ ys)
Evolves-append [] ys = tt
Evolves-append (x ∷ xs) ys = (RowStep-refl x, Evolves-append xs ys)

pub Evolves-update :
    (p : JobRow → Bool) (f : JobRow → JobRow) (xs : List JobRow)
    → ((x : JobRow) → p x ≡ true → RowStep x (f x))
    → Evolves xs (update p f xs)
Evolves-update p f [] k = tt
Evolves-update p f (x ∷ xs) k = elim (Bool-cases (p x)) [
  | inl t ↦ rw t (k x t, Evolves-update p f xs k)
  | inr t ↦ rw t (RowStep-refl x, Evolves-update p f xs k)
]
