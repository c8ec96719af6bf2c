-- ===== src/Journal/Operations.antt =====
-- app/desktop_nodes/journal.py: `OperationJournal`. A snapshot is a dict of JSON values, of which the
-- journal looks at texts only. The file is its lines: a line is the snapshot that it encodes, or `none`
-- where it is not a JSON object, and blank lines are left out. The size of a file in bytes is the
-- argument `size`. Errors of the operating system are not modelled.
use development_bridge.Prelude.{
  ℕ, ◌*◌, zero, suc, max, String, Bool, false, ◌&&◌, ◌||◌, Option, none, some, List, [], ◌∷◌, ◌++◌,
  map, ◌==◌, if◌then◌else◌, ltb, is_some, length, select, Dict, lookup, put, pop,
}

pub data Value : Type 0 where
  text : String → Value
  -- the JSON text of a value that is no text
  json : String → Value

abbrev pub Snapshot : Type 0
Snapshot = Dict Value

-- value = snapshot.get(key), where isinstance(value, str)
abbrev pub text_of : Option Value → Option String
text_of none = none
text_of (some (text t)) = some t
text_of (some (json j)) = none

abbrev pub text_at : String → Snapshot → Option String
text_at key s = text_of (lookup key s)

-- {**snapshot, **updates}
abbrev pub merge : Snapshot → Snapshot → Snapshot
merge s [] = s
merge s ((k, v) ∷ updates) = merge (put k v s) updates

abbrev pub JournalFile : Type 0
JournalFile = Option (List (Option Snapshot))

-- `path` is None where `file` is; a path without a file has the file `none`.
pub record Journal : Type 0 where
  pub history_limit : ℕ
  pub max_bytes : ℕ
  pub operations : Dict Snapshot
  pub command_index : Dict String
  pub file : Option JournalFile

pub data JournalFault : Type 0 where
  key_error value_error : JournalFault

-- the last n elements, as a deque with maxlen n keeps them
abbrev pub last : {A : Type 0} → ℕ → List A → List A
last n [] = []
last n (x ∷ xs) = let rest = last n xs in if ltb (length xs) n then x ∷ xs else rest

-- xs[-n:]
abbrev pub slice_last : {A : Type 0} → ℕ → List A → List A
slice_last zero xs = xs
slice_last (suc n) xs = last (suc n) xs

-- if self._command_index.get(command_id) == operation_id: self._command_index.pop(command_id)
abbrev pub unindex : String → Option String → Dict String → Dict String
unindex id none index = index
unindex id (some c) index = elim (lookup c index) [
  | none ↦ index
  | some i ↦ if i == id then pop c index else index
]

-- the while loop of _trim_memory
abbrev pub trim : ℕ → Dict Snapshot → Dict String → Dict Snapshot × Dict String
trim limit [] index = ([], index)
trim limit ((id, s) ∷ ops) index =
    let rest = trim limit ops (unindex id (text_at "command_id" s) index) in
    if ltb (length ops) limit then ((id, s) ∷ ops, index) else rest

unfoldable pub trim_memory : Journal → Journal
trim_memory j =
    let (ops, index) = trim j.history_limit j.operations j.command_index in
    record j { operations = ops; command_index = index }

-- self._operations.pop(id, None); self._operations[id] = snapshot
abbrev pub touch : String → Snapshot → Dict Snapshot → Dict Snapshot
touch id s ops = put id s (pop id ops)

-- one line of `_load`
abbrev pub load_line : Option Snapshot → Dict Snapshot × Dict String → Dict Snapshot × Dict String
load_line none (ops, index) = (ops, index)
load_line (some s) (ops, index) = elim (text_at "operation_id" s) [
  | none ↦ (ops, index)
  | some id ↦ elim (text_at "command_id" s) [
    | none ↦ (ops, index)
    | some c ↦ (touch id s ops, put c id index)
  ]
]

abbrev pub load_lines :
    List (Option Snapshot) → Dict Snapshot × Dict String → Dict Snapshot × Dict String
load_lines [] t = t
load_lines (l ∷ lines) t = load_lines lines (load_line l t)

unfoldable pub load : Journal → Journal
unfolding trim_memory
load j = elim j.file [
  | none ↦ j
  | some none ↦ j
  | some (some lines) ↦
      let (ops, index) =
        load_lines (last (max (j.history_limit * 4) 100) lines) (j.operations, j.command_index) in
      trim_memory (record j { operations = ops; command_index = index })
]

-- __init__
unfoldable pub open_journal : Option JournalFile → ℕ → ℕ → Journal
unfolding load
open_journal file history_limit max_bytes = load (record {
  history_limit = history_limit;
  max_bytes = max_bytes;
  operations = [];
  command_index = [];
  file = file;
})

abbrev pub indexed : Option String → String → Dict String → Dict String
indexed none id index = index
indexed (some c) id index = put c id index

module _ (size : List (Option Snapshot) → ℕ) where
  -- the lines after _rotate_if_needed
  abbrev pub rotated : Journal → List (Option Snapshot) → List (Option Snapshot)
  rotated j lines =
      if ltb (size lines) j.max_bytes
      then lines
      else map (λ o. some (o.1)) (slice_last j.history_limit j.operations)

  -- _append
  unfoldable pub append : Snapshot → Journal → Journal
  append s j = elim j.file [
    | none ↦ j
    | some none ↦ record j { file = some (some (some s ∷ [])) }
    | some (some lines) ↦ record j { file = some (some (rotated j lines ++ some s ∷ [])) }
  ]

  -- A raise for a missing command id comes after the operation was stored. The two ids of a snapshot are
  -- texts, as those of each caller in service.py are: an id that is no text is answered here as a missing one.
  -- Values are JSON already, so the ValueError that `json.dumps` raises in `_append` has no branch.
  unfoldable pub create : Snapshot → Journal → Option JournalFault × Journal
  unfolding append trim_memory
  create s j = elim (text_at "operation_id" s) [
    | none ↦ (some key_error, j)
    | some id ↦
        if is_some (lookup id j.operations)
        then (some value_error, j)
        else (let stored = record j { operations = put id s j.operations } in
            elim (text_at "command_id" s) [
              | none ↦ (some key_error, stored)
              | some c ↦ (
                none,
                trim_memory (append s (record stored { command_index = put c id j.command_index })),
              )
            ])
  ]

  unfoldable pub update : String → Snapshot → Journal → Option Snapshot × Journal
  unfolding append trim_memory
  update id updates j = elim (lookup id j.operations) [
    | none ↦ (none, j)
    | some old ↦
        let s = merge old updates in
        (
          some s,
          trim_memory (
              append s (record j {
                operations = touch id s j.operations;
                command_index = indexed (text_at "command_id" s) id j.command_index;
              })),
        )
  ]

unfoldable pub get : String → Journal → Option Snapshot
get id j = lookup id j.operations

unfoldable pub by_command : String → Journal → Option Snapshot
by_command c j = elim (lookup c j.command_index) [ none ↦ none | some id ↦ lookup id j.operations ]

abbrev pub has_text : String → String → Snapshot → Bool
has_text key t s = elim (text_at key s) [ none ↦ false | some u ↦ u == t ]

unfoldable pub recent : String → ℕ → Journal → List Snapshot
recent node limit j =
    slice_last limit (select (has_text "node_id" node) (map (λ o. o.1) j.operations))

unfoldable pub uncertain : String → ℕ → Journal → List Snapshot
uncertain node limit j = slice_last limit (
    select (λ s. has_text "node_id" node s && has_text "status" "uncertain" s)
      (map (λ o. o.1) j.operations))

unfoldable pub incomplete : Journal → List Snapshot
incomplete j =
    select (λ s. has_text "status" "queued" s || has_text "status" "claimed" s)
      (map (λ o. o.1) j.operations)
