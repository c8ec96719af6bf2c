-- ===== src/Jobs/Claims.antt =====
-- A queued job is claimed once: `start` and `cancel_queued` of app/jobs/store.py answer by their row
-- counts, and at most one such call ever answers yes.
use mathlib.Core.Option
use development_bridge.Prelude.{
  String, Bool, true, false, ◌&&◌, Option, none, some, List, [], ◌∷◌, ◌≡◌, refl, ap, sym, ◌∙◌, inl,
  inr, arith, All, first, first-update, first-matches, select, Bool-cases, Option-cases, eq_iff,
  NoConflict, if◌then◌else◌, eqb, length,
}
use development_bridge.Jobs.Models.{queued, JobRow, JobDb, status_eq}
use development_bridge.Jobs.Store.{has_id, row_conflict}
use development_bridge.Jobs.Lifecycle.{
  start, cancel_queued, has_status, changed_one, update_jobs, started, cancelled_row,
}
use development_bridge.Jobs.Calls.{StoreCall, starts, cancels, perform, run, IsLifecycle}
use development_bridge.Jobs.Invariant.{IsConsistent, run-IsConsistent, perform-IsConsistent}
use development_bridge.Jobs.Progress.{can_become}
use development_bridge.Jobs.History.{run-job}

others :
    (id : String) (q : JobRow → Bool) (x : JobRow) (xs : List JobRow)
    → has_id id x ≡ true
    → All (λ y. row_conflict y x ≡ false) xs
    → select (λ y. has_id id y && q y) xs ≡ []
others id q x [] h u = refl
others id q x (y ∷ ys) h u = ground (
  arith,
  others id q x ys h u.1,
  eq_iff x.job_id id,
  eq_iff y.job_id id,
  eq_iff x.job_id y.job_id,
)

abbrev one_row : (JobRow → Bool) → Option JobRow → List JobRow
one_row q none = []
one_row q (some r) = if q r then r ∷ [] else []

-- Under the primary key, a test beside the id selects the one row of the id, or nothing.
select_by_id :
    (id : String) (q : JobRow → Bool) (xs : List JobRow)
    → NoConflict row_conflict xs
    → select (λ y. has_id id y && q y) xs ≡ one_row q (first (has_id id) xs)
select_by_id id q [] u = refl
select_by_id id q (x ∷ xs) u = elim (Bool-cases (has_id id x)) [
  | inl t ↦ ground (arith, others id q x xs t u.0)
  | inr t ↦ ground (arith, select_by_id id q xs u.1)
]

abbrev row_is_queued : Option JobRow → Bool
unfolding status_eq
row_is_queued none = false
row_is_queued (some r) = status_eq r.status queued

-- Whether the job of this id waits in the queue.
pub is_queued : String → JobDb → Bool
is_queued id db = row_is_queued (first (has_id id) db.jobs)

-- The row count of a claim says whether the job waited in the queue.
claim_exact :
    (id : String) (db : JobDb)
    → IsConsistent db
    → changed_one (has_status id queued) db ≡ is_queued id db
unfolding is_queued status_eq
claim_exact id db h =
    ap (λ (l : List JobRow). eqb (length l) 1)
      (select_by_id id (λ y. status_eq y.status queued) db.jobs h.job_keys)
    ∙ counted (first (has_id id) db.jobs)
  where
    counted :
        (o : Option JobRow)
        → eqb (length (one_row (λ y. status_eq y.status queued) o)) 1 ≡ row_is_queued o
    counted none = refl
    counted (some r) = ground arith

-- An update that takes the job out of the queue leaves it there no more.
claimed :
    (id : String) (f : JobRow → JobRow) (db : JobDb)
    → ((r : JobRow) → has_id id (f r) ≡ has_id id r)
    → ((r : JobRow) → status_eq (f r).status queued ≡ false)
    → is_queued id (update_jobs (has_status id queued) f db) ≡ false
unfolding is_queued status_eq
claimed id f db same gone =
    ap row_is_queued (first-update (has_id id) (has_status id queued) f db.jobs same)
    ∙ settled (first (has_id id) db.jobs) (λ r e. first-matches (has_id id) db.jobs e)
  where
    settled :
        (o : Option JobRow)
        → ((r : JobRow) → o ≡ some r → has_id id r ≡ true)
        → row_is_queued (Option.map (λ r. if has_status id queued r then f r else r) o) ≡ false
    settled none k = refl
    settled (some r) k = ground (arith, k r refl, gone r)

-- a job that has left the queue does not come back
stays_claimed :
    (id : String) (cs : List StoreCall) (db : JobDb) {r : JobRow}
    → All IsLifecycle cs
    → first (has_id id) db.jobs ≡ some r
    → is_queued id db ≡ false
    → is_queued id (run cs db) ≡ false
unfolding is_queued status_eq can_become
stays_claimed id cs db {r} l h gone =
    let (r', found, step) = run-job id cs db {r = r} l h in ground (arith, step.forward)

-- The two calls that take a job out of the queue.
pub data Claim : Type 0 where
  to_run to_cancel : Claim

unfoldable pub claim : Claim → String → String → JobDb → Bool × JobDb
claim to_run = start
claim to_cancel = cancel_queued

abbrev claim_call : Claim → String → String → StoreCall
claim_call to_run now id = starts now id
claim_call to_cancel now id = cancels now id

claim-call :
    (k : Claim) (now id : String) (db : JobDb)
    → (claim k now id db).1 ≡ perform (claim_call k now id) db
unfolding claim perform
claim-call to_run now id db = refl
claim-call to_cancel now id db = refl

claim_call-IsLifecycle : (k : Claim) (now id : String) → IsLifecycle (claim_call k now id)
claim_call-IsLifecycle to_run now id = tt
claim_call-IsLifecycle to_cancel now id = tt

-- In consistent tables, `start` and `cancel_queued` answer yes exactly when the job is queued, and
-- either way it is not queued afterwards.
pub claim_answer :
    (k : Claim) (now id : String) (db : JobDb)
    → IsConsistent db
    → ((claim k now id db).0 ≡ is_queued id db) × (is_queued id (claim k now id db).1 ≡ false)
unfolding claim start cancel_queued status_eq
claim_answer to_run now id db h =
    (claim_exact id db h, claimed id (started now) db (λ r. refl) (λ r. refl))
claim_answer to_cancel now id db h =
    (claim_exact id db h, claimed id (cancelled_row now) db (λ r. refl) (λ r. refl))

queued-first :
    (id : String) (db : JobDb)
    → is_queued id db ≡ true
    → (r : JobRow) × (first (has_id id) db.jobs ≡ some r)
unfolding is_queued status_eq
queued-first id db h = elim (Option-cases (first (has_id id) db.jobs)) [
  | inl e ↦ let wrong : false ≡ true = ap row_is_queued (sym e) ∙ h in cc
  | inr (r, e) ↦ (r, e)
]

-- In consistent tables a job is claimed at most once: after one call of `start` or `cancel_queued`
-- answered yes for it, none does so again after any history of calls in which `finish` is only
-- called with a terminal status.
pub claimed_once :
    (k later_k : Claim) (now later id : String) (cs : List StoreCall) (db : JobDb)
    → IsConsistent db
    → All IsLifecycle cs
    → (claim k now id db).0 ≡ true
    → (claim later_k later id (run cs (claim k now id db).1)).0 ≡ false
claimed_once k later_k now later id cs db h l won =
    let db' = (claim k now id db).1 in
    let (r, e) = queued-first id db (sym (claim_answer k now id db h).0 ∙ won) in
    let c = claim_call k now id in
    let lc = claim_call-IsLifecycle k now id in
    let (r', e', step) = run-job id (c ∷ []) db {r = r} (lc, tt) e in
    let same : run (c ∷ []) db ≡ db' = unfold run in sym (claim-call k now id db) in
    let h' : IsConsistent db' = rw (claim-call k now id db) (perform-IsConsistent c db lc h) in
    (claim_answer later_k later id (run cs db') (run-IsConsistent cs db' l h')).0
    ∙ stays_claimed id cs db' {r = r'} l (rw same at e') (claim_answer k now id db h).1
