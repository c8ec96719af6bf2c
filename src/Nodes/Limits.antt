-- ===== src/Nodes/Limits.antt =====
-- The queue of a desktop node is bounded (app/desktop_nodes/service.py).
use development_bridge.Prelude.{
  same_text, ℕ, ◌≤◌, String, Bool, ◌&&◌, not, Option, none, some, List, [], ◌∷◌, ◌≡◌, refl, sym, ap,
  subst, ◌∙◌, arith, ◌==◌, inl, inr, Bool-cases, Option-cases, if◌then◌else◌, if-elim, ltb, length,
  Dict, lookup, put, lookup-put,
}
use development_bridge.Errors.{Result, Result-cases, Error}
use development_bridge.Journal.Operations.{Snapshot, JournalFault, Journal, by_command, text_at}
use development_bridge.Nodes.Models.{
  Command, Tools, Node, Settings, Desktop, Operation, Outcome, valid_node_id, valid_tools,
}
use development_bridge.Nodes.Queue.{
  register, heartbeat, enqueue, claim, next_claim, claim_from, submit_result, give_up,
  remove_command, find_node, seen, valid_beat, next_command, refusal, queued_if, command_of,
  hand_out, terminal_state, late_result, retained, is_true,
}
use development_bridge.Nodes.Calls.{
  NodeCall, registers, beats, enqueues, claims_command, goes_on, submits_result, gives_up, perform,
  run,
}
use development_bridge.Nodes.Moves.{Moved, same, fresh, edited}
use development_bridge.Nodes.Steps.{Found-cases}
use development_bridge.Nodes.ClaimSteps.{perform-Moved}

-- no node has more than `max` pending commands
abbrev pub Within : ℕ → Dict Node → Type 0
Within max d = (k : String) (n : Node) → lookup k d ≡ some n → length n.commands ≤ max

-- a node of the dict is the new one, or was there
put-Within :
    (max : ℕ) (k : String) (n' : Node) (d : Dict Node)
    → length n'.commands ≤ max
    → Within max d
    → Within max (put k n' d)
put-Within max k n' d l h j n e =
    let f : (if k == j then some n' else lookup j d) ≡ some n = sym (lookup-put k j n' d) ∙ e in
    elim (Bool-cases (k == j)) [
      | inl t ↦
          let here : n' ≡ n = ground (arith, f, t) in
          subst (λ (x : Node). length x.commands ≤ max) here l
      | inr t ↦ h j n (ground (arith, f, t))
    ]

Moved-Within :
    {max : ℕ} {drawn handed : Option String} {d d' : Dict Node}
    → Moved max drawn handed d d'
    → Within max d
    → Within max d'
Moved-Within {max} (same h e) w = subst (Within max) (sym e) w
Moved-Within {max} {d = d} (fresh k n' h l q z e) w =
    let empty = ap length z in
    subst (Within max) (sym e) (put-Within max k n' d (omega (arith, empty)) w)
Moved-Within {max} {d = d} (edited k n n' l f z e) w =
    let small : length n'.commands ≤ max = elim z [
      | inl a ↦ (let b = w k n l in omega (arith, a, b))
      | inr a ↦ a
    ] in
    subst (Within max) (sym e) (put-Within max k n' d small w)

module _ (tools_bytes : Tools → ℕ) (stamp : ℕ → String) (quoted : Option String → String)
    (bytes : String → ℕ) (sha256 : String → String) (size : List (Option Snapshot) → ℕ)
    (now : ℕ) where
  queued_if-settings :
      (id : String) (c : Command) (n : Node) (d : Desktop) (r : Option JournalFault × Journal)
      → (queued_if stamp quoted bytes sha256 size id c n d r).1.settings ≡ d.settings
  queued_if-settings id c n d (some fault, journal) = refl
  queued_if-settings id c n d (none, journal) = refl

  enqueue-settings :
      (id : String) (expected : Option ℕ) (token tool arguments : String) (op : Operation)
      (retain : Bool) (d : Desktop)
      → (enqueue stamp quoted bytes sha256 size now id expected token tool arguments op retain
          d).1.settings
        ≡ d.settings
  unfolding enqueue
  enqueue-settings id expected token tool arguments op retain d =
      elim (Bool-cases
        (d.settings.has_token && ltb d.settings.max_arguments_bytes (bytes arguments))) [
          | inl t ↦ rw (t, enqueue) refl
          | inr t ↦ elim (Found-cases (find_node id d)) [
            | inr (e, f) ↦ rw (t, f, enqueue) refl
            | inl (n, f) ↦
                elim (Option-cases
                  (refusal stamp quoted bytes sha256 size now d.settings expected tool n)) [
                    | inr (e, g) ↦ rw (t, f, g, enqueue) refl
                    | inl g ↦
                        rw (t, f, g, enqueue)
                          (queued_if-settings id
                            (command_of stamp quoted bytes sha256 size token tool arguments op
                              retain)
                            n d _)
                  ]
          ]
        ]

  hand_out-settings :
      (id : String) (n : Node) (d : Desktop) (r : Option String × List String)
      → (hand_out stamp quoted bytes sha256 size now id n d r).1.settings ≡ d.settings
  hand_out-settings id n d (none, rest) = refl
  hand_out-settings id n d (some c, rest) = elim (Option-cases (lookup c n.commands)) [
    | inl e ↦ rw (e, hand_out) refl
    | inr (command, e) ↦ rw (e, hand_out) refl
  ]

  claims-settings :
      (id : String) (d : Desktop)
      → ((claim stamp quoted bytes sha256 size now id d).1.1.settings ≡ d.settings)
        × ((next_claim stamp quoted bytes sha256 size now id d).1.settings ≡ d.settings)
  unfolding claim next_claim claim_from
  claims-settings id d = (
    elim (Found-cases (find_node id d)) [
      | inr (e, f) ↦ rw (f, claim) refl
      | inl (n, f) ↦
          rw (f, claim, claim_from)
            (hand_out-settings id (seen now n) d (next_command n.commands n.queue))
    ],
    elim (Option-cases (lookup id d.nodes)) [
      | inl e ↦ rw (e, next_claim) refl
      | inr (n, e) ↦
          rw (e, next_claim, claim_from)
            (hand_out-settings id n d (next_command n.commands n.queue))
    ],
  )

  late_result-settings :
      (id : String) (stored : Result String) (o : Outcome) (archived : Snapshot) (d : Desktop)
      → (late_result stamp quoted bytes sha256 size now id stored o archived d).1.settings
        ≡ d.settings
  late_result-settings id stored o archived d =
      if-elim (λ (r : Option Error × Desktop). r.1.settings ≡ d.settings)
        (same_text (text_at "node_id" archived) (some id)
          && not (terminal_state (text_at "status" archived)))
        (λ t.
          elim (Result-cases (
            retained stamp quoted bytes sha256 size
              (is_true stamp quoted bytes sha256 size "retain_result" archived) stored o)) [
                | inr (x, q) ↦ rw q refl
                | inl (kept, q) ↦ elim (Option-cases (text_at "operation_id" archived)) [
                  | inl e ↦ rw (q, e) refl
                  | inr (operation, e) ↦ rw (q, e) refl
                ]
              ])
        (λ t. refl)

  register-settings :
      (id : String) (tools : Tools) (fusion : Bool) (telemetry : Option (Bool × ℕ)) (d : Desktop)
      → (register tools_bytes now id tools fusion telemetry d).1.settings ≡ d.settings
  unfolding register
  register-settings id tools fusion telemetry d =
      let P : Option Error × Desktop → Type 0 = λ r. r.1.settings ≡ d.settings in
      if-elim P (not d.settings.has_token) (λ t. refl)
        (λ t.
          if-elim P (not (valid_node_id id && valid_tools tools_bytes d.settings tools)) (λ v. refl)
            (λ v. refl))

  heartbeat-settings :
      (id : String) (tools : Option Tools) (fusion : Option Bool) (telemetry : Option (Bool × ℕ))
      (d : Desktop)
      → (heartbeat tools_bytes now id tools fusion telemetry d).1.settings ≡ d.settings
  unfolding heartbeat
  heartbeat-settings id tools fusion telemetry d =
      elim (Bool-cases (
        d.settings.has_token
        && (valid_node_id id && not (valid_beat tools_bytes d.settings tools)))) [
          | inl t ↦ rw (t, heartbeat) refl
          | inr t ↦ elim (Found-cases (find_node id d)) [
            | inr (e, f) ↦ rw (t, f, heartbeat) refl
            | inl (n, f) ↦ rw (t, f, heartbeat) refl
          ]
        ]

  submit_result-settings :
      (id command_id : String) (stored : Result String) (o : Outcome) (d : Desktop)
      → (submit_result stamp quoted bytes sha256 size now id command_id stored o d).1.settings
        ≡ d.settings
  unfolding submit_result
  submit_result-settings id command_id stored o d =
      elim (Bool-cases (
        d.settings.has_token
        && (valid_node_id id && ltb d.settings.max_result_bytes (bytes o.result)))) [
          | inl t ↦ rw (t, submit_result) refl
          | inr t ↦ elim (Found-cases (find_node id d)) [
            | inr (e, f) ↦ rw (t, f, submit_result) refl
            | inl (n, f) ↦ elim (Option-cases (lookup command_id n.commands)) [
              | inl e ↦ elim (Option-cases (by_command command_id d.journal)) [
                | inl b ↦ rw (t, f, e, b, submit_result) refl
                | inr (archived, b) ↦
                    rw (t, f, e, b, submit_result) (late_result-settings id stored o archived _)
              ]
              | inr (c, e) ↦
                  rw (t, f, e, submit_result)
                    (if-elim (λ (r : Option Error × Desktop). r.1.settings ≡ d.settings) c.claimed
                      (λ a.
                        elim (Result-cases
                          (retained stamp quoted bytes sha256 size c.retain_result stored o)) [
                            | inr (x, q) ↦ rw q refl
                            | inl (kept, q) ↦ rw q refl
                          ])
                      (λ a. refl))
            ]
          ]
        ]

  give_up-settings :
      (id : String) (cancelled : Bool) (c : Command) (d : Desktop)
      → (give_up stamp quoted bytes sha256 size now id cancelled c d).settings ≡ d.settings
  unfolding give_up remove_command
  give_up-settings id cancelled c d = elim (Option-cases (lookup id d.nodes)) [
    | inl e ↦ rw (e, give_up, remove_command) refl
    | inr (n, e) ↦ rw (e, give_up, remove_command) refl
  ]

  perform-settings :
      (c : NodeCall) (d : Desktop)
      → (perform tools_bytes stamp quoted bytes sha256 size now c d).1.settings ≡ d.settings
  unfolding perform
  perform-settings (registers id tools fusion telemetry) d =
      register-settings id tools fusion telemetry d
  perform-settings (beats id tools fusion telemetry) d =
      heartbeat-settings id tools fusion telemetry d
  perform-settings (enqueues id expected token tool arguments op retain) d =
      enqueue-settings id expected token tool arguments op retain d
  perform-settings (claims_command id) d = (claims-settings id d).0
  perform-settings (goes_on id) d = (claims-settings id d).1
  perform-settings (submits_result id command_id stored o) d =
      submit_result-settings id command_id stored o d
  perform-settings (gives_up id cancelled c) d = give_up-settings id cancelled c d

module _ (tools_bytes : Tools → ℕ) (stamp : ℕ → String) (quoted : Option String → String)
    (bytes : String → ℕ) (sha256 : String → String) (size : List (Option Snapshot) → ℕ) where
  -- Whatever is called, no node ever has more pending commands than `max_pending_commands`, if none had
  -- at the start.
  pub run-Within :
      (cs : List (ℕ × NodeCall)) (d : Desktop) (k : String) (n : Node)
      → Within d.settings.max_pending_commands d.nodes
      → lookup k (run tools_bytes stamp quoted bytes sha256 size cs d).nodes ≡ some n
      → length n.commands ≤ d.settings.max_pending_commands
  unfolding run
  run-Within [] d k n w e = w k n e
  run-Within ((now, c) ∷ cs) d k n w e =
      let d' = (perform tools_bytes stamp quoted bytes sha256 size now c d).1 in
      let alike = perform-settings tools_bytes stamp quoted bytes sha256 size now c d in
      let limit : d'.settings.max_pending_commands ≡ d.settings.max_pending_commands =
        ap (λ (x : Settings). x.max_pending_commands) alike in
      let w' : Within d'.settings.max_pending_commands d'.nodes =
        subst (λ m. Within m d'.nodes) (sym limit)
          (Moved-Within (perform-Moved tools_bytes stamp quoted bytes sha256 size now c d) w) in
      let l = run-Within cs d' k n w' e in omega (arith, l, limit)
