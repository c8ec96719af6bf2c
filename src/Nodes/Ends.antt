-- ===== src/Nodes/Ends.antt =====
-- How a command of a desktop node ends (app/desktop_nodes/service.py), and what the journal then says.
use development_bridge.Prelude.{
  ℕ, String, Bool, true, false, ◌&&◌, not, Option, none, some, is_some, List, [], ◌∷◌, ◌≡◌, refl,
  sym, ap, subst, ◌∙◌, arith, inl, inr, Bool-cases, if◌then◌else◌, ltb, leb, same_text, lookup, put,
  pop, pop_gone,
}
use development_bridge.Errors.{Result, ok, Error, raised, invalid_argument}
use development_bridge.Journal.Operations.{text, json, Snapshot, text_at, update}
use development_bridge.Nodes.Models.{Command, Node, Settings, Desktop, Outcome, valid_node_id}
use development_bridge.Nodes.Queue.{
  submit_result, give_up, remove_command, remove_first, find_node, found, seen, given_up,
  result_status, retained, late_result, delivered_result, terminal_state,
}
use development_bridge.Nodes.Journaled.{Pending, Ended, ended}

module _ (stamp : ℕ → String) (quoted : Option String → String) (bytes : String → ℕ)
    (sha256 : String → String) (size : List (Option Snapshot) → ℕ) where
  -- A pending command that was claimed and changes the design, and whose operation is in a journal
  -- that keeps at least one: when its call is cancelled or times out, it is not pending any more,
  -- and the journal says `uncertain` of it, not that it was cancelled or timed out.
  pub give_up-uncertain :
      (now : ℕ) (id command_id : String) (cancelled : Bool) (n : Node) (c : Command) (s : Snapshot)
      (d : Desktop)
      → Pending id command_id n c s d
      → c.command_id ≡ command_id
      → (c.claimed && c.mutation) ≡ true
      → Ended id command_id "uncertain"
          (give_up stamp quoted bytes sha256 size now id cancelled c d)
  unfolding give_up remove_command
  give_up-uncertain now id command_id cancelled n c s d p alike h =
      let n' : Node = record n {
        queue = remove_first c.command_id n.queue;
        commands = pop c.command_id n.commands;
      } in
      let gone : lookup command_id n'.commands ≡ none =
        subst (λ x. lookup command_id (pop x n.commands) ≡ none) (sym alike)
          (pop_gone command_id n.commands) in
      let u : Snapshot = ("completed_at", json (stamp now)) ∷ [] in
      let status : given_up stamp quoted bytes sha256 size cancelled c ≡ "uncertain" = rw h refl in
      let removed = remove_command stamp quoted bytes sha256 size now id c "uncertain" d in
      let there = p.there in
      let e : removed.nodes ≡ put id n' d.nodes = rw (there, remove_command) refl in
      let j : removed.journal
          ≡ (update size c.operation_id (("status", text "uncertain") ∷ u) d.journal).1 =
        rw (there, remove_command) refl in
      let whole : give_up stamp quoted bytes sha256 size now id cancelled c d ≡ removed =
        ap (λ t. remove_command stamp quoted bytes sha256 size now id c t d) status in
      subst (Ended id command_id "uncertain") (sym whole) (
        ended size id command_id "uncertain" u n n' c s d removed p
          (record { status = refl; command = refl; owner = refl }) gone e j)

  terminal :
      (c : Command) (o : Outcome)
      → (o.says_uncertain && c.mutation) ≡ false
      → terminal_state
          (some (result_status stamp quoted bytes sha256 size c.mutation o "failed" "succeeded"))
        ≡ true
  terminal c o h = elim (Bool-cases o.says_failed) [
    | inl t ↦ rw (h, t) refl
    | inr t ↦ rw (h, t) refl
  ]

  retained_ok :
      (retain : Bool) (stored : String) (o : Outcome)
      → (kept : Option String) × (retained stamp quoted bytes sha256 size retain (ok stored) o
          ≡ ok kept)
  retained_ok retain stored o = elim (Bool-cases (is_some o.external_result_id)) [
    | inl t ↦ (o.external_result_id, rw t refl)
    | inr t ↦ elim (Bool-cases retain) [
      | inl r ↦ (some stored, rw (t, r) refl)
      | inr r ↦ (none, rw (t, r) refl)
    ]
  ]

  -- the result of a claimed command is taken
  taken :
      (now : ℕ) (id command_id : String) (stored : Result String) (kept : Option String)
      (o : Outcome) (n : Node) (c : Command) (s : Snapshot) (d : Desktop)
      → Pending id command_id n c s d
      → retained stamp quoted bytes sha256 size c.retain_result stored o ≡ ok kept
      → c.claimed ≡ true
      → leb (bytes o.result) d.settings.max_result_bytes ≡ true
      → submit_result stamp quoted bytes sha256 size now id command_id stored o d ≡ (
        none,
        delivered_result stamp quoted bytes sha256 size now id command_id kept o c (seen now n) d,
      )
  unfolding submit_result
  taken now id command_id stored kept o n c s d p q a b =
      let t : (d.settings.has_token
            && (valid_node_id id && ltb d.settings.max_result_bytes (bytes o.result)))
          ≡ false =
        small d.settings.has_token (valid_node_id id)
          (ltb d.settings.max_result_bytes (bytes o.result)) (ground (arith, b)) in
      rw (t, p.node, p.command, a, submit_result) (rw q refl)
    where
      small : (x y z : Bool) → z ≡ false → (x && (y && z)) ≡ false
      small x y z h = ground (arith, h)

  delivered-Ended :
      (now : ℕ) (id command_id : String) (kept : Option String) (o : Outcome) (n : Node)
      (c : Command) (s : Snapshot) (d : Desktop)
      → Pending id command_id n c s d
      → Ended id command_id
          (result_status stamp quoted bytes sha256 size c.mutation o "failed" "succeeded")
          (delivered_result stamp quoted bytes sha256 size now id command_id kept o c
            (seen now n)
            d)
  delivered-Ended now id command_id kept o n c s d p =
      ended size id command_id _ _ n
        (record (seen now n) {
          commands = pop command_id n.commands;
          last_result_delivery = some now;
        })
        c s d _ p (record { status = refl; command = refl; owner = refl })
        (pop_gone command_id n.commands) refl refl

  refused :
      (now : ℕ) (id command_id : String) (stored : Result String) (status : String) (o : Outcome)
      (d : Desktop)
      → (e : Ended id command_id status d) → terminal_state (some status) ≡ true
      → find_node id d ≡ found e.node
      → let r = submit_result stamp quoted bytes sha256 size now id command_id stored o d in
        (r.0 ≡ some (raised invalid_argument)) × (r.1.journal ≡ d.journal)
  unfolding submit_result
  refused now id command_id stored status o d e h f =
      elim (Bool-cases (
        d.settings.has_token
        && (valid_node_id id && ltb d.settings.max_result_bytes (bytes o.result)))) [
          | inl t ↦ rw (t, submit_result) (refl, refl)
          | inr t ↦
              let ends : terminal_state (text_at "status" e.snapshot) ≡ true =
                ap terminal_state e.says ∙ h in
              let late : (same_text (text_at "node_id" e.snapshot) (some id)
                    && not (terminal_state (text_at "status" e.snapshot)))
                  ≡ false =
                ended_test (same_text (text_at "node_id" e.snapshot) (some id))
                  (terminal_state (text_at "status" e.snapshot)) ends in
              rw (t, f, e.gone, e.by_id, submit_result) (rw (late, late_result) (refl, refl))
        ]
    where
      ended_test : (x y : Bool) → y ≡ true → (x && not y) ≡ false
      ended_test x y h = ground (arith, h)

  found_again :
      (id : String) (n n' : Node) (d d' : Desktop)
      → find_node id d ≡ found n
      → d'.settings ≡ d.settings
      → lookup id d'.nodes ≡ some n'
      → find_node id d' ≡ found n'
  found_again id n n' d d' f e l =
      let token : d'.settings.has_token ≡ d.settings.has_token =
        ap (λ (x : Settings). x.has_token) e in
      elim (Bool-cases d.settings.has_token) [
        | inr t ↦ absurd (ground (arith, f, t))
        | inl t ↦ elim (Bool-cases (valid_node_id id)) [
          | inr v ↦ absurd (ground (arith, f, t, v))
          | inl v ↦ rw (token, t, v, l) refl
        ]
      ]

  -- A pending command that was claimed, and whose operation is in a journal that keeps at least one,
  -- with a result that is small enough, for which `_store_result_value` does not raise, and which is
  -- not an uncertain one of a command that changes the design: the result is taken, the command is
  -- not pending any more, the journal says `failed` or `succeeded` of it, and a further result for
  -- the same command is refused with INVALID_ARGUMENT and leaves the journal as it is.
  pub result_once :
      (now later : ℕ) (id command_id stored : String) (stored' : Result String) (o o' : Outcome)
      (n : Node) (c : Command) (s : Snapshot) (d : Desktop)
      → Pending id command_id n c s d
      → c.claimed ≡ true
      → leb (bytes o.result) d.settings.max_result_bytes ≡ true
      → (o.says_uncertain && c.mutation) ≡ false
      → let first =
          submit_result stamp quoted bytes sha256 size now id command_id (ok stored) o d in
        let second =
          submit_result stamp quoted bytes sha256 size later id command_id stored' o' first.1 in
        (first.0 ≡ none)
        × (Ended id command_id (if o.says_failed then "failed" else "succeeded") first.1
            × ((second.0 ≡ some (raised invalid_argument)) × (second.1.journal ≡ first.1.journal)))
  result_once now later id command_id stored stored' o o' n c s d p a b u =
      let (kept, q) = retained_ok c.retain_result stored o in
      let d1 =
        delivered_result stamp quoted bytes sha256 size now id command_id kept o c (seen now n) d in
      let first = taken now id command_id (ok stored) kept o n c s d p q a b in
      let status = result_status stamp quoted bytes sha256 size c.mutation o "failed" "succeeded" in
      let e : Ended id command_id status d1 = delivered-Ended now id command_id kept o n c s d p in
      let certain : status ≡ (if o.says_failed then "failed" else "succeeded") = rw u refl in
      let e' = subst (λ t. Ended id command_id t d1) certain e in
      let f = found_again id n e.node d d1 p.node refl e.there in
      let (x, y) = refused later id command_id stored' status o' d1 e (terminal c o u) f in
      subst
        (λ (r : Option Error × Desktop).
          (r.0 ≡ none)
          × (Ended id command_id (if o.says_failed then "failed" else "succeeded") r.1
              × (((submit_result stamp quoted bytes sha256 size later id command_id stored' o'
                      r.1).0
                    ≡ some (raised invalid_argument))
                  × ((submit_result stamp quoted bytes sha256 size later id command_id stored' o'
                        r.1).1.journal
                      ≡ r.1.journal))))
        (sym first) (refl, (e', (x, y)))
