-- ===== src/Journal/Calls.antt =====
-- Histories of the calls of `OperationJournal` that change it (app/desktop_nodes/journal.py).
use development_bridge.Prelude.{ℕ, true, String, none, List, [], ◌∷◌, Option, ◌≡◌, is_some, lookup}
use development_bridge.Journal.Operations.{Snapshot, Journal, text_at, create, update}

pub data JournalCall : Type 0 where
  creates : Snapshot → JournalCall
  updates : String → Snapshot → JournalCall

-- A new snapshot has a text as its command id, and an update leaves both ids alone: the first is an
-- argument's name already, so that Python refuses it as a keyword.
abbrev pub KeepsIds : JournalCall → Type 0
KeepsIds (creates s) = is_some (text_at "command_id" s) ≡ true
KeepsIds (updates id u) = (lookup "operation_id" u ≡ none) × (lookup "command_id" u ≡ none)

module _ (size : List (Option Snapshot) → ℕ) where
  unfoldable pub perform : JournalCall → Journal → Journal
  perform (creates s) j = (create size s j).1
  perform (updates id u) j = (update size id u j).1

  unfoldable pub run : List JournalCall → Journal → Journal
  run [] j = j
  run (c ∷ cs) j = run cs (perform c j)
