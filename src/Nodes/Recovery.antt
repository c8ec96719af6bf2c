-- ===== src/Nodes/Recovery.antt =====
-- What `DesktopNodeService` does at its start with the operations that were not complete when the bridge
-- went down: `_recover_incomplete_operations` (app/desktop_nodes/service.py). `truthy` is `bool` of a JSON
-- value that is no text.
use development_bridge.Prelude.{
  ℕ, String, Bool, true, false, ◌||◌, not, Option, none, some, List, [], ◌∷◌, map, ◌≡◌, refl, sym,
  ap, subst, ◌∙◌, arith, ◌==◌, eq_iff, eq_refl, inl, inr, Bool-cases, Option-cases, if◌then◌else◌,
  if-elim, is_some, any, select, All, All-append, All-map, Dict, lookup, put, pop, lookup-put,
  pop_absent,
}
use development_bridge.Journal.Operations.{
  text, json, Snapshot, text_of, text_at, has_text, merge, touch, last, trim_memory, append,
  Journal, update, incomplete, indexed,
}
use development_bridge.Journal.Ordered.{touch_lem}
use development_bridge.Journal.Replay.{IsEntry, All-last, trim-last}
use development_bridge.Journal.Index.{append_leaves}

module _ (truthy : String → Bool) (stamp : ℕ → String) (size : List (Option Snapshot) → ℕ) where
  abbrev pub says_mutation : Snapshot → Bool
  says_mutation s = elim (lookup "mutation" s) [
    | none ↦ false
    | some v ↦ elim v [ text t ↦ not (t == "") | json j ↦ truthy j ]
  ]

  abbrev pub recovered_status : Snapshot → String
  recovered_status s =
      if has_text "status" "queued" s
      then "orphaned"
      else if says_mutation s
      then "uncertain"
      else "interrupted"

  abbrev pub recovery_reason : Snapshot → String
  recovery_reason s =
      if has_text "status" "queued" s
      then "bridge_restarted_before_claim"
      else "bridge_restarted_after_claim"

  abbrev pub recovery : ℕ → Snapshot → Snapshot
  recovery now s =
      ("status", text (recovered_status s))
      ∷ ("completed_at", json (stamp now))
      ∷ ("recovery_reason", text (recovery_reason s))
      ∷ []

  -- an operation without an id ends the loop with KeyError
  unfoldable pub recover_each : ℕ → List Snapshot → Journal → Journal
  recover_each now [] j = j
  recover_each now (s ∷ ss) j = elim (text_at "operation_id" s) [
    | none ↦ j
    | some id ↦ recover_each now ss (update size id (recovery now s) j).1
  ]

  unfoldable pub recover_incomplete : ℕ → Journal → Journal
  unfolding recover_each incomplete
  recover_incomplete now j = recover_each now (incomplete j) j

-- not complete
abbrev pub is_open : Snapshot → Bool
is_open s = has_text "status" "queued" s || has_text "status" "claimed" s

-- an operation that is open is among those that are still to be recovered
abbrev Awaits : List Snapshot → String × Snapshot → Type 0
Awaits ss e = is_open e.1 ≡ true → any (has_text "operation_id" e.0) ss ≡ true

has_text_lem : (key t : String) (s : Snapshot) → text_at key s ≡ some t → has_text key t s ≡ true
has_text_lem key t s h = rw (h, has_text) (eq_refl t)

entries_wait :
    (ops : Dict Snapshot) → All IsEntry ops → All (Awaits (select is_open (map (λ o. o.1) ops))) ops
entries_wait [] h = tt
entries_wait ((id, s) ∷ ops) h =
    let named = has_text_lem "operation_id" id s h.0.0 in
    let rest = select is_open (map (λ o. o.1) ops) in
    if-elim (λ z. Awaits z (id, s) × All (Awaits z) ops) (is_open s)
      (λ t. (
        (λ o. rw named refl),
        All-map {P = Awaits rest} {Q = Awaits (s ∷ rest)} ops
            (λ e a o. let b = a o in rw b (any_more (has_text "operation_id" e.0 s)))
            (entries_wait ops h.1),
      ))
      (λ t. ((λ o. absurd (ground (arith, o, t))), entries_wait ops h.1))
  where
    any_more : (x : Bool) → (x || true) ≡ true
    any_more x = ground arith

-- the entries under another id
pop-Awaits :
    (id : String) (s : Snapshot) (ss : List Snapshot) (ops : Dict Snapshot)
    → text_at "operation_id" s ≡ some id
    → All (Awaits (s ∷ ss)) ops
    → All (Awaits ss) (pop id ops)
pop-Awaits id s ss [] h a = tt
pop-Awaits id s ss ((j, v) ∷ ops) h a = elim (Bool-cases (j == id)) [
  | inl t ↦ rw t (pop-Awaits id s ss ops h a.1)
  | inr t ↦
      let other : has_text "operation_id" j s ≡ false =
        rw (h, has_text) (ground (arith, t, eq_iff j id, eq_iff id j)) in
      rw t ((λ o. let b = a.0 o in ground (arith, b, other)), pop-Awaits id s ss ops h a.1)
]

none_open : (ops : Dict Snapshot) → All (Awaits []) ops → select is_open (map (λ o. o.1) ops) ≡ []
none_open [] a = refl
none_open ((id, s) ∷ ops) a = elim (Bool-cases (is_open s)) [
  | inl t ↦ absurd (let b = a.0 t in ground (arith, b))
  | inr t ↦ rw t (none_open ops a.1)
]

pop-touch :
    (ss : List Snapshot) (id : String) (s : Snapshot) (ops : Dict Snapshot)
    → is_open s ≡ false
    → All (Awaits ss) (pop id ops)
    → All (Awaits ss) (touch id s ops)
pop-touch ss id s ops h a = subst (All (Awaits ss)) (sym (touch_lem id s ops)) (
    All-append (Awaits ss) (pop id ops) ((id, s) ∷ []) a ((λ o. absurd (ground (arith, o, h))), tt))

module _ (truthy : String → Bool) (stamp : ℕ → String) (size : List (Option Snapshot) → ℕ) where
  status_of-recovery :
      (now : ℕ) (s old : Snapshot)
      → text_at "status" (merge old (recovery truthy stamp size now s))
        ≡ some (recovered_status truthy stamp size s)
  status_of-recovery now s old =
      let s1 = put "status" (text (recovered_status truthy stamp size s)) old in
      let s2 = put "completed_at" (json (stamp now)) s1 in
      ap text_of (
        lookup-put "recovery_reason" "status" (text (recovery_reason truthy stamp size s)) s2
        ∙ (lookup-put "completed_at" "status" (json (stamp now)) s1
            ∙ lookup-put "status" "status" (text (recovered_status truthy stamp size s)) old))

  recovered_closed :
      (s : Snapshot) (t : String)
      → t ≡ recovered_status truthy stamp size s
      → ((t == "queued") || (t == "claimed")) ≡ false
  recovered_closed s t e =
      subst (λ x. ((x == "queued") || (x == "claimed")) ≡ false) (sym e)
        (if-elim (λ x. ((x == "queued") || (x == "claimed")) ≡ false) (has_text "status" "queued" s)
          (λ a. refl)
          (λ a.
            if-elim (λ x. ((x == "queued") || (x == "claimed")) ≡ false)
              (says_mutation truthy stamp size s) (λ b. refl) (λ b. refl)))

  merged_closed :
      (now : ℕ) (s old : Snapshot) → is_open (merge old (recovery truthy stamp size now s)) ≡ false
  merged_closed now s old =
      let e = status_of-recovery now s old in
      rw (e, has_text) (recovered_closed s (recovered_status truthy stamp size s) refl)

  update-operations :
      (id : String) (u old : Snapshot) (j : Journal)
      → lookup id j.operations ≡ some old
      → (update size id u j).1.operations
        ≡ last j.history_limit (touch id (merge old u) j.operations)
  unfolding update trim_memory
  update-operations id u old j e =
      let s = merge old u in
      let base : Journal = record j {
        operations = touch id s j.operations;
        command_index = indexed (text_at "command_id" s) id j.command_index;
      } in
      let (ops, kept, limit) = append_leaves size s base in
      rw (e, update)
        (trim-last (append size s base).history_limit (append size s base).operations
            (append size s base).command_index
          ∙ rw (ops, limit) refl)

  update-Awaits :
      (now : ℕ) (id : String) (s : Snapshot) (ss : List Snapshot) (j : Journal)
      → text_at "operation_id" s ≡ some id
      → All (Awaits (s ∷ ss)) j.operations
      → All (Awaits ss) (update size id (recovery truthy stamp size now s) j).1.operations
  unfolding update
  update-Awaits now id s ss j h a = elim (Option-cases (lookup id j.operations)) [
    | inl e ↦
        rw (e, update)
          (subst (All (Awaits ss)) (pop_absent id j.operations e)
            (pop-Awaits id s ss j.operations h a))
    | inr (old, e) ↦
        subst (All (Awaits ss))
          (sym (update-operations id (recovery truthy stamp size now s) old j e))
          (All-last (Awaits ss) j.history_limit _ (
            pop-touch ss id _ j.operations (merged_closed now s old)
              (pop-Awaits id s ss j.operations h a)))
  ]

  -- an operation with an id
  abbrev Named : Snapshot → Type 0
  Named s = is_some (text_at "operation_id" s) ≡ true

  recover_each-open :
      (now : ℕ) (ss : List Snapshot) (j : Journal)
      → All Named ss
      → All (Awaits ss) j.operations
      → All (Awaits []) (recover_each truthy stamp size now ss j).operations
  unfolding recover_each
  recover_each-open now [] j n a = a
  recover_each-open now (s ∷ ss) j n a = elim (Option-cases (text_at "operation_id" s)) [
    | inl e ↦ absurd (ground (arith, n.0, e))
    | inr (id, e) ↦
        rw (e, recover_each)
          (recover_each-open now ss (update size id (recovery truthy stamp size now s) j).1 n.1
            (update-Awaits now id s ss j e a))
  ]

  ids_there :
      (ops : Dict Snapshot) → All IsEntry ops → All Named (select is_open (map (λ o. o.1) ops))
  ids_there [] h = tt
  ids_there ((id, s) ∷ ops) h =
      if-elim (All Named) (is_open s) (λ t. (rw h.0.0 refl, ids_there ops h.1))
        (λ t. ids_there ops h.1)

  -- After a start no operation is left queued or claimed, in a journal in which each operation
  -- stands under its own id and has a command id.
  pub incomplete-recover_incomplete :
      (now : ℕ) (j : Journal)
      → All IsEntry j.operations
      → incomplete (recover_incomplete truthy stamp size now j) ≡ []
  unfolding incomplete recover_incomplete
  incomplete-recover_incomplete now j h =
      none_open (recover_incomplete truthy stamp size now j).operations (
        recover_each-open now (select is_open (map (λ o. o.1) j.operations)) j
          (ids_there j.operations h) (entries_wait j.operations h))
