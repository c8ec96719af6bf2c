-- ===== src/Jobs/Wakeups.antt =====
-- Which terminal waiters of `JobService` (app/jobs/service.py) a change of a job wakes.
use development_bridge.Prelude.{
  String, true, ◌||◌, not, none, some, List, [], ◌∷◌, ◌++◌, ◌≡◌, refl, sym, ap, subst, ◌∙◌, arith,
  inl, inr, eq_refl, Bool-cases, Option-cases, any, all, All, select, Dict, put, pop, Distinct,
  pop_absent, pop-append, Distinct-pop, not_before, is_some,
}
use mathlib.Core.List.{append_assoc}
use development_bridge.Jobs.Models.{
  JobStatus, queued, running, succeeded, JobRecord, JobDb, is_terminal, status_eq, failed,
  cancelled,
}
use development_bridge.Jobs.Store.{get_by_id}
use development_bridge.Jobs.Calls.{StoreCall, run, IsLifecycle}
use development_bridge.Jobs.Progress.{terminal-can_become}
use development_bridge.Jobs.History.{run-job, get_by_id-row}
use development_bridge.Jobs.Waiters.{
  Waiter, Waiters, Ready, is_failure, waiter_reason, records_of, due, collect_items, collect,
}

-- the waiters that stay, and the callbacks of the others in the order of registration
abbrev pub undue : JobDb → Dict Waiter → Dict Waiter
undue db = select (λ o. not (is_some (due db o.1)))

abbrev pub all_ready : JobDb → Dict Waiter → List Ready
all_ready db [] = []
all_ready db ((id, w) ∷ d) =
    let rest = all_ready db d in elim (due db w) [ none ↦ rest | some r ↦ r ∷ rest ]

Distinct-suffix : {V : Type 0} (p d : Dict V) → Distinct (p ++ d) → Distinct d
Distinct-suffix [] d u = u
Distinct-suffix ((k, v) ∷ p) d u = Distinct-suffix p d u.1

pop_between :
    {V : Type 0} (k : String) (v : V) (p d : Dict V)
    → Distinct (p ++ (k, v) ∷ d)
    → pop k (p ++ (k, v) ∷ d) ≡ p ++ d
pop_between k v p d u =
    pop-append k p ((k, v) ∷ d)
    ∙ rw (pop_absent k p (not_before k v p d u), eq_refl k)
        (ap (λ z. p ++ z) (pop_absent k d (Distinct-suffix p ((k, v) ∷ d) u).0))

collect_items_lem :
    (db : JobDb) (p items : Dict Waiter) (ws : Waiters)
    → ws.waiting ≡ p ++ items
    → Distinct (p ++ items)
    → let (ready, after) = collect_items db items ws in
      (ready ≡ all_ready db items) × (after.waiting ≡ p ++ undue db items)
unfolding collect_items
collect_items_lem db p [] ws e u = (refl, e)
collect_items_lem db p ((id, w) ∷ items) ws e u = elim (Option-cases (due db w)) [
  | inl m ↦
      let (f, g) =
        collect_items_lem db (p ++ (id, w) ∷ []) items ws
          (e ∙ sym (append_assoc p ((id, w) ∷ []) items))
          (subst Distinct (sym (append_assoc p ((id, w) ∷ []) items)) u) in
      rw (m, collect_items, all_ready) (f, g ∙ append_assoc p ((id, w) ∷ []) (undue db items))
  | inr (r, m) ↦
      let between = pop_between id w p items u in
      let (f, g) =
        collect_items_lem db p items
          (record ws { waiting = pop id ws.waiting; firing = put id w ws.firing })
          (ap (λ z. pop id z) e ∙ between)
          (subst Distinct between (Distinct-pop id (p ++ (id, w) ∷ items) u)) in
      rw (m, collect_items, all_ready) (ap (λ z. r ∷ z) f, g)
]

undue-All : (db : JobDb) (d : Dict Waiter) → All (λ o. due db o.1 ≡ none) (undue db d)
undue-All db [] = tt
undue-All db ((id, w) ∷ d) = elim (Option-cases (due db w)) [
  | inl m ↦ rw m (m, undue-All db d)
  | inr (r, m) ↦ rw m (undue-All db d)
]

-- `_collect_terminal_callbacks` takes exactly the waiters that are due by the job table: their callbacks
-- are invoked, in the order of registration, and the others wait on, so that no waiter that is due is
-- left waiting. The waiters are a dict: no two have one id.
pub collects_due :
    (db : JobDb) (ws : Waiters)
    → Distinct ws.waiting
    → let (ready, after) = collect db ws in
      (ready ≡ all_ready db ws.waiting)
      × (after.waiting ≡ undue db ws.waiting)
      × All (λ o. due db o.1 ≡ none) after.waiting
unfolding collect
collects_due db ws u =
    let (f, g) = collect_items_lem db [] ws.waiting ws refl u in
    (f, g, subst (All (λ o. due db o.1 ≡ none)) (sym g) (undue-All db ws.waiting))

-- what has become of the jobs of a waiter
abbrev Successors : List JobRecord → List JobRecord → Type 0
Successors [] [] = Unit
Successors (j ∷ js) (j' ∷ js') =
    (is_terminal j.status ≡ true → j'.status ≡ j.status) × Successors js js'
Successors _ _ = ⊥

job_later :
    (id : String) (cs : List StoreCall) (db : JobDb) {j : JobRecord}
    → All IsLifecycle cs
    → get_by_id id db ≡ some j
    → (j' : JobRecord) × (get_by_id id (run cs db) ≡ some j')
      × (is_terminal j.status ≡ true → j'.status ≡ j.status)
unfolding get_by_id
job_later id cs db {j} l h =
    let (r, e, same) = get_by_id-row id db h in
    let (r', found, step) = run-job id cs db {r = r} l e in
    (
      r'.job,
      rw found refl,
      λ t.
          terminal-can_become r.status r'.status
            (ap (λ (x : JobRecord). is_terminal x.status) same ∙ t) step.forward
          ∙ ap (λ (x : JobRecord). x.status) same,
    )

records-Successors :
    (ids : List String) (cs : List StoreCall) (db : JobDb) {jobs : List JobRecord}
    → All IsLifecycle cs
    → records_of ids db ≡ some jobs
    → (jobs' : List JobRecord) × (records_of ids (run cs db) ≡ some jobs') × Successors jobs jobs'
unfolding records_of
records-Successors [] cs db {jobs} l h =
    ([], refl, let same : [] ≡ jobs = ground (arith, h) in subst (λ z. Successors z []) same tt)
records-Successors (id ∷ ids) cs db {jobs} l h = elim (Option-cases (get_by_id id db)) [
  | inl e ↦ absurd (ground (arith, h, e))
  | inr (j, e) ↦ elim (Option-cases (records_of ids db)) [
    | inl f ↦ absurd (ground (arith, h, e, f))
    | inr (js, f) ↦
        let (j', e', k) = job_later id cs db l e in
        let (js', f', s) = records-Successors ids cs db l f in
        let same : j ∷ js ≡ jobs = ground (arith, h, e, f) in
        (j' ∷ js', rw (e', f', records_of) refl, subst (λ z. Successors z (j' ∷ js')) same (k, s))
  ]
]

failed_stays :
    (a b : JobStatus)
    → (is_terminal a ≡ true → b ≡ a)
    → (status_eq a failed || status_eq a cancelled) ≡ true
    → (status_eq b failed || status_eq b cancelled) ≡ true
unfolding is_terminal status_eq
failed_stays failed b k h = rw (k refl) refl
failed_stays cancelled b k h = rw (k refl) refl
failed_stays queued b k h = absurd (ground (arith, h))
failed_stays running b k h = absurd (ground (arith, h))
failed_stays succeeded b k h = absurd (ground (arith, h))

failure_later :
    (jobs jobs' : List JobRecord)
    → Successors jobs jobs'
    → any is_failure jobs ≡ true
    → any is_failure jobs' ≡ true
unfolding is_terminal status_eq
failure_later [] [] s h = h
failure_later [] (j ∷ jobs') s h = absurd s
failure_later (j ∷ jobs) [] s h = absurd s
failure_later (j ∷ jobs) (j' ∷ jobs') s h = elim (Bool-cases (is_failure j)) [
  | inl t ↦ rw (failed_stays j.status j'.status s.0 t) refl
  | inr t ↦ ground (arith, failure_later jobs jobs' s.1)
]

all_later :
    (jobs jobs' : List JobRecord)
    → Successors jobs jobs'
    → all (λ j. is_terminal j.status) jobs ≡ true
    → (all (λ j. is_terminal j.status) jobs' ≡ true) × (any is_failure jobs' ≡ any is_failure jobs)
unfolding status_eq
all_later [] [] s h = (refl, refl)
all_later [] (j ∷ jobs') s h = absurd s
all_later (j ∷ jobs) [] s h = absurd s
all_later (j ∷ jobs) (j' ∷ jobs') s h =
    let t : is_terminal j.status ≡ true = ground (arith, h) in
    let (a, b) = all_later jobs jobs' s.1 (ground (arith, h)) in
    (rw (s.0 t, t) a, rw (s.0 t) (ap (λ z. is_failure j || z) b))

reason_later :
    (jobs jobs' : List JobRecord) (policy : String) {reason : String}
    → Successors jobs jobs'
    → waiter_reason jobs policy ≡ some reason
    → waiter_reason jobs' policy ≡ some reason
unfolding waiter_reason
reason_later jobs jobs' policy s h =
    ground (arith, h, failure_later jobs jobs' s, all_later jobs jobs' s)

due_is :
    (db : JobDb) (w : Waiter) {jobs : List JobRecord} {reason : String} {r : Ready}
    → records_of w.job_ids db ≡ some jobs
    → waiter_reason jobs w.policy ≡ some reason
    → due db w ≡ some r
    → record { waiter = w; jobs = jobs; reason = reason } ≡ r
unfolding due
due_is db w e m h = ground (arith, h, e, m)

-- Once a waiter is due it stays due, for the same reason, after any history of calls of the job
-- store in which `finish` is only called with a terminal status.
pub due_forever :
    (db : JobDb) (w : Waiter) (cs : List StoreCall) {r : Ready}
    → All IsLifecycle cs
    → due db w ≡ some r
    → (r' : Ready) × (due (run cs db) w ≡ some r') × (r'.reason ≡ r.reason)
unfolding due
due_forever db w cs {r} l h = elim (Option-cases (records_of w.job_ids db)) [
  | inl e ↦ absurd (ground (arith, h, e))
  | inr (jobs, e) ↦ elim (Option-cases (waiter_reason jobs w.policy)) [
    | inl m ↦ absurd (ground (arith, h, e, m))
    | inr (reason, m) ↦
        let (jobs', e', s) = records-Successors w.job_ids cs db l e in
        (
          record { waiter = w; jobs = jobs'; reason = reason },
          rw (e', reason_later jobs jobs' w.policy s m, due) refl,
          subst (λ (z : Ready). reason ≡ z.reason) (due_is db w e m h) refl,
        )
  ]
]
