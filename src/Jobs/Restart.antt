-- ===== src/Jobs/Restart.antt =====
-- What `initialize` of app/jobs/store.py makes of the jobs that a stopped bridge left behind.
use development_bridge.Prelude.{
  map, select, ap, ap₂, String, false, some, List, [], ◌∷◌, ◌≡◌, refl, ◌∙◌, arith, first,
  first-update, update, if◌then◌else◌, any,
}
use development_bridge.Jobs.Models.{JobRow, JobDb, running, failed, status_eq}
use development_bridge.Jobs.Store.{has_id}
use development_bridge.Jobs.Lifecycle.{initialize, interrupt, is_running}

none_running :
    (now : String) (rows : List JobRow)
    → any is_running (update is_running (interrupt now) rows) ≡ false
unfolding status_eq
none_running now [] = refl
none_running now (r ∷ rs) = ground (arith, none_running now rs)

-- no row is running, so none is found or changed
none_selected :
    (now : String) (rows : List JobRow)
    → any is_running rows ≡ false
    → (map (λ r. r.job) (select is_running rows) ≡ [])
      × (update is_running (interrupt now) rows ≡ rows)
unfolding status_eq
none_selected now [] h = (refl, refl)
none_selected now (r ∷ rs) h =
    let (f, g) = none_selected now rs (ground (arith, h)) in
    let t : is_running r ≡ false = ground (arith, h) in (rw t f, rw t (ap (λ x. r ∷ x) g))

-- `initialize` at the time `now`: it answers with the jobs that were running, as they were; then no job is
-- running; of a row that was running the job is failed, its finish time is `now`, its reason is
-- `interrupted_by_restart`, and nothing else is changed; every other row is as it was; and a further
-- `initialize` answers with no job and changes nothing.
pub initialize_interrupts :
    (now later id : String) (db : JobDb) {r : JobRow}
    → first (has_id id) db.jobs ≡ some r
    → let (answer, db') = initialize now db in
      (any is_running db'.jobs ≡ false)
      × (first (has_id id) db'.jobs
          ≡ some (
              if status_eq r.status running
              then record r {
                job = record r.job {
                  status = failed;
                  finished_at = some now;
                  failure_reason = some "interrupted_by_restart";
                };
              }
              else r))
      × (answer ≡ map (λ x. x.job) (select (λ x. status_eq x.status running) db.jobs))
      × (initialize later db' ≡ ([], db'))
unfolding initialize
initialize_interrupts now later id db {r} h =
    let none = none_running now db.jobs in
    let (f, g) = none_selected later (update is_running (interrupt now) db.jobs) none in
    (
      none,
      first-update (has_id id) is_running (interrupt now) db.jobs (λ x. refl) ∙ rw h,
      refl,
      ap₂ (λ answer rows. (answer, record db { jobs = rows })) f g,
    )
