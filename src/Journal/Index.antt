-- ===== src/Journal/Index.antt =====
-- The index of `OperationJournal` by command (app/desktop_nodes/journal.py).
use development_bridge.Prelude.{
  put_absent, pop_gone, pop, lookup-append, ℕ, zero, suc, ◌<◌, String, true, false, Option, none,
  some, List, [], ◌∷◌, ◌++◌, ◌≡◌, refl, ap, ◌∙◌, arith, ◌==◌, eq_iff, eq_refl, inl, inr, Bool-cases,
  Option-cases, ltb, length, Dict, lookup, put, lookup-put, lookup-pop,
}
use development_bridge.Journal.Operations.{
  Snapshot, Journal, value_error, text_at, trim, trim_memory, unindex, append, create, get,
  by_command, merge, touch, update,
}

unindex_keeps :
    (k id c : String) (command : Option String) (index : Dict String)
    → (k == id) ≡ false
    → lookup c index ≡ some id
    → lookup c (unindex k command index) ≡ some id
unindex_keeps k id c none index n h = h
unindex_keeps k id c (some d) index n h = elim (Option-cases (lookup d index)) [
  | inl e ↦ rw (e, unindex) h
  | inr (i, e) ↦ elim (Bool-cases (i == k)) [
    | inr t ↦ rw (e, t, unindex) h
    | inl t ↦
        rw (e, t, unindex)
          (lookup-pop d c index ∙ ground (arith, eq_iff d c, eq_iff i k, eq_iff k id, h, e))
  ]
]

positive : (m : ℕ) → 0 < m → (n : ℕ) × (m ≡ suc n)
positive zero h = absurd (omega arith)
positive (suc n) h = (n, refl)

-- The newest operation stays, and so does its command.
trim-newest :
    (n : ℕ) (id c : String) (s : Snapshot) (ops : Dict Snapshot) (index : Dict String)
    → lookup id ops ≡ none
    → lookup c index ≡ some id
    → let t = trim (suc n) (ops ++ (id, s) ∷ []) index in
      (lookup id t.0 ≡ some s) × (lookup c t.1 ≡ some id)
trim-newest n id c s [] index h k =
    let t : ltb 0 (suc n) ≡ true = ground arith in rw (t, trim) (rw (eq_refl id) refl, k)
trim-newest n id c s ((j, v) ∷ ops) index h k =
    elim (Bool-cases (ltb (length (ops ++ (id, s) ∷ [])) (suc n))) [
      | inl t ↦ rw t (lookup-append id ((j, v) ∷ ops) ((id, s) ∷ []) h ∙ rw (eq_refl id) refl, k)
      | inr t ↦ rw t (
          trim-newest n id c s ops (unindex j (text_at "command_id" v) index) (ground arith)
            (unindex_keeps j id c (text_at "command_id" v) index (ground arith) k))
    ]

by_command_lem :
    (c : String) (j : Journal) {id : String} {s : Snapshot}
    → lookup c j.command_index ≡ some id
    → lookup id j.operations ≡ some s
    → by_command c j ≡ some s
unfolding by_command
by_command_lem c j h k = rw (h, by_command) k

module _ (size : List (Option Snapshot) → ℕ) where
  pub append_leaves :
      (s : Snapshot) (j : Journal)
      → ((append size s j).operations ≡ j.operations)
        × ((append size s j).command_index ≡ j.command_index)
        × ((append size s j).history_limit ≡ j.history_limit)
  unfolding append
  append_leaves s j = elim (Option-cases j.file) [
    | inl e ↦ rw (e, append) (refl, refl, refl)
    | inr (content, e) ↦ elim (Option-cases content) [
      | inl f ↦ rw (e ∙ ap some f, append) (refl, refl, refl)
      | inr (lines, f) ↦ rw (e ∙ ap some f, append) (refl, refl, refl)
    ]
  ]

  create_again :
      (s : Snapshot) (j : Journal) {id : String} {old : Snapshot}
      → text_at "operation_id" s ≡ some id
      → lookup id j.operations ≡ some old
      → create size s j ≡ (some value_error, j)
  unfolding create
  create_again s j e h = rw (e, h, create) refl

  created :
      (s : Snapshot) (j : Journal) {id c : String}
      → text_at "operation_id" s ≡ some id
      → text_at "command_id" s ≡ some c
      → lookup id j.operations ≡ none
      → create size s j ≡ (
        none,
        trim_memory (
            append size s (record j {
              operations = put id s j.operations;
              command_index = put c id j.command_index;
            })),
      )
  unfolding create
  created s j e f m = rw (e, m, f, create) refl

  -- A snapshot with a new operation id and a command id, in a journal whose history limit is not 0: the
  -- call succeeds, the operation is found by its id and by its command with this snapshot, whatever
  -- older operation had the same command, and a second create of the operation raises ValueError and
  -- changes nothing.
  pub create_found :
      (s : Snapshot) (j : Journal) {id c : String}
      → 0 < j.history_limit
      → text_at "operation_id" s ≡ some id
      → text_at "command_id" s ≡ some c
      → lookup id j.operations ≡ none
      → let j' = (create size s j).1 in
        ((create size s j).0 ≡ none)
        × (get id j' ≡ some s)
        × (by_command c j' ≡ some s)
        × (create size s j' ≡ (some value_error, j'))
  unfolding create trim_memory get by_command
  create_found s j {id} {c} l e f m =
      let found = found_after in
      let j' = trim_memory after in
      rw (created s j e f m)
        (refl, found.0, by_command_lem c j' found.1 found.0, create_again s j' e found.0)
    where
      after : Journal
      after = append size s (record j {
        operations = put id s j.operations;
        command_index = put c id j.command_index;
      })

      found_after :
          let t = trim after.history_limit after.operations after.command_index in
          (lookup id t.0 ≡ some s) × (lookup c t.1 ≡ some id)
      found_after =
          let (ops, index, limit) = append_leaves s (record j {
            operations = put id s j.operations;
            command_index = put c id j.command_index;
          }) in
          let (n, q) = positive j.history_limit l in
          rw (limit, ops, index, put_absent id s j.operations m, q)
            (trim-newest n id c s j.operations (put c id j.command_index) m
              (lookup-put c c id j.command_index ∙ rw (eq_refl c) refl))

  -- An update of an operation that is there is found by its id and by its command, in a journal whose
  -- history limit is not 0.
  pub update_found :
      (id : String) (u old : Snapshot) (j : Journal) {c : String}
      → 0 < j.history_limit
      → lookup id j.operations ≡ some old
      → text_at "command_id" (merge old u) ≡ some c
      → let j' = (update size id u j).1 in
        (get id j' ≡ some (merge old u)) × (by_command c j' ≡ some (merge old u))
  unfolding update trim_memory get by_command
  update_found id u old j {c} l e f =
      let s = merge old u in
      let index = put c id j.command_index in
      let base : Journal = record j {
        operations = touch id s j.operations;
        command_index = index;
      } in
      let moved : Journal = append size s base in
      let (ops, kept, limit) = append_leaves s base in
      let (n, q) = positive j.history_limit l in
      let gone = pop_gone id j.operations in
      let newest =
        trim-newest n id c s (pop id j.operations) index gone
          (lookup-put c c id j.command_index ∙ rw (eq_refl c) refl) in
      let t = trim moved.history_limit moved.operations moved.command_index in
      let found : (lookup id t.0 ≡ some s) × (lookup c t.1 ≡ some id) =
        rw (limit, ops, kept, put_absent id s (pop id j.operations) gone, q) newest in
      rw (e, f, update) (found.0, by_command_lem c (trim_memory moved) found.1 found.0)
