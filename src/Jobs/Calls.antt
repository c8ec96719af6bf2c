-- ===== src/Jobs/Calls.antt =====
-- The calls of `JobStore` that change its tables, and histories of them. A call that raises is rolled
-- back.
use development_bridge.Prelude.{String, Option, ℕ, List, [], ◌∷◌, ◌≡◌, true}
use development_bridge.Errors.{Result, ok, err}
use development_bridge.Jobs.Models.{JobStatus, ℤ, JobArtifact, JobDb, is_terminal}
use development_bridge.Jobs.Store.{
  CreateArgs, ExecutionArgs, create, create_execution, save_artifacts,
}
use development_bridge.Jobs.Lifecycle.{
  initialize, start, append_output, finish, fail_active, cancel_queued,
}

pub data StoreCall : Type 0 where
  creates : CreateArgs → StoreCall
  executes : ExecutionArgs → StoreCall
  starts : String → String → StoreCall
  outputs : String → String → List ℕ → ℕ → StoreCall
  finishes : String → String → JobStatus → Option ℤ → Option String → StoreCall
  fails : String → String → String → StoreCall
  cancels : String → String → StoreCall
  restarts : String → StoreCall
  captures : String → List JobArtifact → StoreCall

abbrev pub committed {ℓ} : {A : Type ℓ} → (A → JobDb) → JobDb → Result A → JobDb
committed after db (ok a) = after a
committed after db (err e) = db

unfoldable pub perform : StoreCall → JobDb → JobDb
perform (creates a) db = committed (λ r. r.2) db (create a db)
perform (executes a) db = committed (λ r. r.2) db (create_execution a db)
perform (starts now id) db = (start now id db).1
perform (outputs id stream bytes limit) db = append_output id stream bytes limit db
perform (finishes now id status exit_code reason) db = finish now id status exit_code reason db
perform (fails now id reason) db = fail_active now id reason db
perform (cancels now id) db = (cancel_queued now id db).1
perform (restarts now) db = (initialize now db).1
perform (captures id artifacts) db = committed (λ d. d) db (save_artifacts id artifacts db)

unfoldable pub run : List StoreCall → JobDb → JobDb
run [] db = db
run (c ∷ cs) db = run cs (perform c db)

-- `JobService` finishes a job with a terminal status only (`_finish_job` in app/jobs/service.py).
abbrev pub IsLifecycle : StoreCall → Type 0
IsLifecycle (finishes _ _ status _ _) = is_terminal status ≡ true
IsLifecycle _ = Unit
