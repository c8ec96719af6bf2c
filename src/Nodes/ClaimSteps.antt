-- ===== src/Nodes/ClaimSteps.antt =====
-- `claim`, `submit_result` and the end of `call` (app/desktop_nodes/service.py) change the nodes as their
-- `Moved` says, and so does every call.
use development_bridge.Prelude.{
  ℕ, ◌+◌, ◌≤◌, String, Bool, true, ◌&&◌, not, Option, none, some, List, ◌≡◌, refl, ap, arith, inl,
  inr, Bool-cases, Option-cases, if-elim, is_some, ltb, same_text, length, lookup, pop,
}
use development_bridge.Errors.{Result, Result-cases, Error}
use development_bridge.Journal.Operations.{Snapshot, by_command, text_at}
use development_bridge.Nodes.Models.{Command, Tools, Node, Desktop, Outcome, valid_node_id}
use development_bridge.Nodes.Queue.{
  claim, next_claim, claim_from, submit_result, give_up, remove_command, retained, is_true,
  set_node, find_node, seen, next_command, remove_first, hand_out, handed_out, late_result,
  terminal_state,
}
use development_bridge.Nodes.Calls.{
  NodeCall, registers, beats, enqueues, claims_command, goes_on, submits_result, gives_up, perform,
}
use development_bridge.Nodes.Moves.{
  Moved, same, edited, hit, count, count-remove_first, count-next_command, length-put,
  length-put_there, length-pop_most, length-pop_there,
}
use development_bridge.Nodes.Steps.{
  kept_node, found_there, Found-cases, register-Moved, heartbeat-Moved, enqueue-Moved,
}

-- the id that is handed out
abbrev pub handed_id : Option (String × Command) → Option String
handed_id none = none
handed_id (some (c, command)) = some c

module _ (stamp : ℕ → String) (quoted : Option String → String) (bytes : String → ℕ)
    (sha256 : String → String) (size : List (Option Snapshot) → ℕ) (max now : ℕ) where
  hand_out-Moved :
      (id : String) (n : Node) (d : Desktop) (m : Node) (r : Option String × List String)
      → lookup id d.nodes ≡ some m
      → m.commands ≡ n.commands
      → ((c : String) → hit c r.0 + count c r.1 ≤ count c m.queue)
      → let a = hand_out stamp quoted bytes sha256 size now id n d r in
        Moved max none (handed_id a.0) d.nodes a.1.nodes
  hand_out-Moved id n d m (none, rest) l z f =
      edited id m (record n { queue = rest }) l (λ c. let g = f c in omega (arith, g))
        (inl (let g = ap length z in omega (arith, g))) refl
  hand_out-Moved id n d m (some c, rest) l z f = elim (Option-cases (lookup c n.commands)) [
    | inl e ↦
        rw (e, hand_out)
          (edited id m (record n { queue = rest }) l (λ x. let g = f x in omega (arith, g))
            (inl (let g = ap length z in omega (arith, g))) refl)
    | inr (command, e) ↦
        let there : is_some (lookup c n.commands) ≡ true = rw e refl in
        let same_length = length-put_there c (record command { claimed = true }) n.commands there in
        rw (e, hand_out)
          (edited id m (handed_out stamp quoted bytes sha256 size now c command rest n) l
            (λ x. let g = f x in omega (arith, g))
            (inl (let g = ap length z in omega (arith, g, same_length))) refl)
  ]

  claim_from-Moved :
      (id : String) (n m : Node) (d : Desktop)
      → lookup id d.nodes ≡ some m
      → m.commands ≡ n.commands
      → m.queue ≡ n.queue
      → let a = claim_from stamp quoted bytes sha256 size now id n d in
        Moved max none (handed_id a.0) d.nodes a.1.nodes
  unfolding claim_from
  claim_from-Moved id n m d l z q =
      hand_out-Moved id n d m (next_command n.commands n.queue) l z (λ c.
        let f = count-next_command c n.commands n.queue in
        let g = ap (count c) q in omega (arith, f, g))

  claim-Moved :
      (id : String) (d : Desktop)
      → let a = (claim stamp quoted bytes sha256 size now id d).1 in
        Moved max none (handed_id a.0) d.nodes a.1.nodes
  unfolding claim
  claim-Moved id d = elim (Found-cases (find_node id d)) [
    | inr (e, f) ↦ rw (f, claim) (same refl refl)
    | inl (n, f) ↦
        rw (f, claim) (claim_from-Moved id (seen now n) n d (found_there id d n f) refl refl)
  ]

  next_claim-Moved :
      (id : String) (d : Desktop)
      → let a = next_claim stamp quoted bytes sha256 size now id d in
        Moved max none (handed_id a.0) d.nodes a.1.nodes
  unfolding next_claim
  next_claim-Moved id d = elim (Option-cases (lookup id d.nodes)) [
    | inl e ↦ rw (e, next_claim) (same refl refl)
    | inr (n, e) ↦ rw (e, next_claim) (claim_from-Moved id n n d e refl refl)
  ]

  late_result-nodes :
      (id : String) (stored : Result String) (o : Outcome) (archived : Snapshot) (d : Desktop)
      → (late_result stamp quoted bytes sha256 size now id stored o archived d).1.nodes ≡ d.nodes
  late_result-nodes id stored o archived d =
      if-elim (λ (r : Option Error × Desktop). r.1.nodes ≡ d.nodes)
        (same_text (text_at "node_id" archived) (some id)
          && not (terminal_state (text_at "status" archived)))
        (λ t.
          elim (Result-cases (
            retained stamp quoted bytes sha256 size
              (is_true stamp quoted bytes sha256 size "retain_result" archived) stored o)) [
                | inr (x, q) ↦ rw q refl
                | inl (kept, q) ↦ elim (Option-cases (text_at "operation_id" archived)) [
                  | inl e ↦ rw (q, e) refl
                  | inr (operation, e) ↦ rw (q, e) refl
                ]
              ])
        (λ t. refl)

  submit_result-Moved :
      (id command_id : String) (stored : Result String) (o : Outcome) (d : Desktop)
      → Moved max none none d.nodes
          (submit_result stamp quoted bytes sha256 size now id command_id stored o d).1.nodes
  unfolding submit_result
  submit_result-Moved id command_id stored o d =
      elim (Bool-cases (
        d.settings.has_token
        && (valid_node_id id && ltb d.settings.max_result_bytes (bytes o.result)))) [
          | inl t ↦ rw (t, submit_result) (same refl refl)
          | inr t ↦ elim (Found-cases (find_node id d)) [
            | inr (e, f) ↦ rw (t, f, submit_result) (same refl refl)
            | inl (n, f) ↦
                let l = found_there id d n f in
                elim (Option-cases (lookup command_id n.commands)) [
                  | inl e ↦ elim (Option-cases (by_command command_id d.journal)) [
                    | inl b ↦
                        rw (t, f, e, b, submit_result)
                          (kept_node none id n (seen now n) l refl refl refl)
                    | inr (archived, b) ↦
                        rw (t, f, e, b, submit_result)
                          (kept_node none id n (seen now n) l refl refl
                            (late_result-nodes id stored o archived (set_node id (seen now n) d)))
                  ]
                  | inr (c, e) ↦
                      let there : is_some (lookup command_id n.commands) ≡ true = rw e refl in
                      let less = length-pop_there command_id n.commands there in
                      let P : Option Error × Desktop → Type 0 =
                        λ r. Moved max none none d.nodes r.1.nodes in
                      rw (t, f, e, submit_result)
                        (if-elim P c.claimed
                          (λ a.
                            elim (Result-cases
                              (retained stamp quoted bytes sha256 size c.retain_result stored o)) [
                                | inr (x, q) ↦ rw q (
                                    edited id n _ l (λ y. omega arith) (inl (omega (arith, less)))
                                      refl)
                                | inl (kept, q) ↦ rw q (
                                    edited id n _ l (λ y. omega arith) (inl (omega (arith, less)))
                                      refl)
                              ])
                          (λ a.
                            edited id n _ l (λ x. omega arith)
                              (inl (
                                omega (
                                  arith,
                                  less,
                                  length-put command_id c (pop command_id n.commands),
                                )))
                              refl))
                ]
          ]
        ]

  give_up-Moved :
      (id : String) (cancelled : Bool) (c : Command) (d : Desktop)
      → Moved max none none d.nodes
          (give_up stamp quoted bytes sha256 size now id cancelled c d).nodes
  unfolding give_up remove_command
  give_up-Moved id cancelled c d = elim (Option-cases (lookup id d.nodes)) [
    | inl e ↦ rw (e, give_up, remove_command) (same refl refl)
    | inr (n, e) ↦
        let n' : Node = record n {
          queue = remove_first c.command_id n.queue;
          commands = pop c.command_id n.commands;
        } in
        rw (e, give_up, remove_command)
          (edited id n n' e (λ x. omega (arith, count-remove_first x c.command_id n.queue))
            (inl (length-pop_most c.command_id n.commands)) refl)
  ]

-- the id of a command that a call draws
abbrev pub drawn : NodeCall → Option String
drawn (enqueues id expected token tool arguments op retain) = some token
drawn _ = none

module _ (tools_bytes : Tools → ℕ) (stamp : ℕ → String) (quoted : Option String → String)
    (bytes : String → ℕ) (sha256 : String → String) (size : List (Option Snapshot) → ℕ)
    (now : ℕ) where
  pub perform-Moved :
      (c : NodeCall) (d : Desktop)
      → let a = perform tools_bytes stamp quoted bytes sha256 size now c d in
        Moved d.settings.max_pending_commands (drawn c) (handed_id a.0) d.nodes a.1.nodes
  unfolding perform
  perform-Moved (registers id tools fusion telemetry) d =
      register-Moved tools_bytes d.settings.max_pending_commands now id tools fusion telemetry d
  perform-Moved (beats id tools fusion telemetry) d =
      heartbeat-Moved tools_bytes d.settings.max_pending_commands now id tools fusion telemetry d
  perform-Moved (enqueues id expected token tool arguments op retain) d =
      enqueue-Moved stamp quoted bytes sha256 size now id expected token tool arguments op retain d
  perform-Moved (claims_command id) d =
      claim-Moved stamp quoted bytes sha256 size d.settings.max_pending_commands now id d
  perform-Moved (goes_on id) d =
      next_claim-Moved stamp quoted bytes sha256 size d.settings.max_pending_commands now id d
  perform-Moved (submits_result id command_id stored o) d =
      submit_result-Moved stamp quoted bytes sha256 size d.settings.max_pending_commands now id
        command_id stored o d
  perform-Moved (gives_up id cancelled c) d =
      give_up-Moved stamp quoted bytes sha256 size d.settings.max_pending_commands now id cancelled
        c d
