-- ===== src/Journal/Examples.antt =====
-- A journal of a few operations, for the theorems on `OperationJournal`.
use development_bridge.Prelude.{
  ℕ, ◌+◌, ◌≤◌, String, Option, none, some, List, [], ◌∷◌, ◌++◌, ◌≡◌, refl, arith, length, Dict,
}
use development_bridge.Journal.Operations.{
  Snapshot, text, json, Journal, append, trim_memory, create, update, load, open_journal, get,
  by_command, value_error,
}
use development_bridge.Journal.Calls.{JournalCall, creates, updates, perform, run}
use development_bridge.Journal.Recovery.{recovers, recovers_whole}
use development_bridge.Journal.Index.{create_found}

-- a size of ten bytes a line
abbrev ten_each : List (Option Snapshot) → ℕ
ten_each [] = 0
ten_each (l ∷ lines) = 10 + ten_each lines

abbrev queued_operation : String → String → Snapshot
queued_operation id command =
    ("operation_id", text id) ∷ ("command_id", text command) ∷ ("status", text "queued") ∷ []

abbrev calls : List JournalCall
calls =
    creates (queued_operation "o1" "c1")
    ∷ creates (queued_operation "o2" "c2")
    ∷ updates "o1" (("status", text "claimed") ∷ ("claimed_at", json "12.5") ∷ [])
    ∷ creates (queued_operation "o3" "c3")
    ∷ []

abbrev journal : Journal
journal = run ten_each calls (open_journal (some none) 2 20)

recovers_example :
    let again = open_journal journal.file 2 20 in
    (length journal.operations ≤ 2)
    × ((older : Dict Snapshot) × (journal.operations ≡ older ++ again.operations))
    × (get "o3" again ≡ get "o3" journal)
unfolding run perform create update append trim_memory open_journal load
recovers_example =
    recovers ten_each 1 20 calls "o3" (refl, (refl, ((refl, refl), (refl, tt)))) refl refl

recovers_whole_example : (open_journal journal.file 2 20).operations ≡ journal.operations
unfolding run perform create update append trim_memory open_journal load
recovers_whole_example =
    recovers_whole ten_each 1 20 calls (refl, (refl, ((refl, refl), (refl, tt)))) refl (omega arith)

-- o4 repeats the command of o3
create_found_example :
    let j = (create ten_each (queued_operation "o4" "c3") journal).1 in
    ((create ten_each (queued_operation "o4" "c3") journal).0 ≡ none)
    × (get "o4" j ≡ some (queued_operation "o4" "c3"))
    × (by_command "c3" j ≡ some (queued_operation "o4" "c3"))
    × (create ten_each (queued_operation "o4" "c3") j ≡ (some value_error, j))
unfolding run perform create update append trim_memory open_journal load
create_found_example =
    create_found ten_each (queued_operation "o4" "c3") journal (omega arith) refl refl refl
