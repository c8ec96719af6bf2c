-- ===== src/Nodes/Steps.antt =====
-- Each call of `DesktopNodeService` changes the nodes as its `Moved` says (app/desktop_nodes/service.py).
use development_bridge.Prelude.{
  ℕ, suc, ◌≤◌, String, Bool, ◌&&◌, not, Option, none, some, List, ◌≡◌, refl, ap, arith, inl, inr,
  ◌⊎◌, Bool-cases, Option-cases, ltb, leb, length, Dict, lookup, put,
}
use development_bridge.Errors.{Error}
use development_bridge.Journal.Operations.{Snapshot, JournalFault, Journal}
use development_bridge.Nodes.Models.{
  Command, Tools, Node, Settings, Desktop, Operation, valid_node_id, valid_tools,
}
use development_bridge.Nodes.Queue.{
  register, heartbeat, enqueue, Found, found, missing, find_node, seen, apply_telemetry, registered,
  beaten, valid_beat, refusal, queued_if, enqueued, command_of,
}
use development_bridge.Nodes.Moves.{Moved, same, fresh, edited, count, count-append, length-put}

-- a node whose queue and commands stay
pub kept_node :
    {max : ℕ} {d d' : Dict Node} (drawn : Option String) (k : String) (n n' : Node)
    → lookup k d ≡ some n
    → n'.queue ≡ n.queue
    → n'.commands ≡ n.commands
    → d' ≡ put k n' d
    → Moved max drawn none d d'
kept_node drawn k n n' l q z e =
    edited k n n' l (λ c. let f = ap (count c) q in omega (arith, f))
      (inl (let g = ap length z in omega (arith, g))) e

telemetry-leaves :
    (t : Option (Bool × ℕ)) (n : Node)
    → ((apply_telemetry t n).1.queue ≡ n.queue) × ((apply_telemetry t n).1.commands ≡ n.commands)
telemetry-leaves none n = (refl, refl)
telemetry-leaves (some (degraded, outbox)) n = elim (Bool-cases (leb outbox 10000)) [
  | inl t ↦ rw t (refl, refl)
  | inr t ↦ rw t (refl, refl)
]

abbrev OnFound : String → Desktop → (Node → Type 0) → Found → Type 0
OnFound id d P (found n) = (lookup id d.nodes ≡ some n) × P n
OnFound id d P (missing e) = Unit

-- what `find_node` finds is there
pub found_there :
    (id : String) (d : Desktop) (n : Node) → find_node id d ≡ found n → lookup id d.nodes ≡ some n
found_there id d n h = elim (Bool-cases d.settings.has_token) [
  | inr t ↦ absurd (ground (arith, h, t))
  | inl t ↦ elim (Bool-cases (valid_node_id id)) [
    | inr v ↦ absurd (ground (arith, h, t, v))
    | inl v ↦ elim (Option-cases (lookup id d.nodes)) [
      | inl e ↦ absurd (ground (arith, h, t, v, e))
      | inr (m, e) ↦ ground (arith, h, t, v, e)
    ]
  ]
]

pub Found-cases : (f : Found) → ((n : Node) × (f ≡ found n)) ⊎ ((e : Error) × (f ≡ missing e))
Found-cases (found n) = inl (n, refl)
Found-cases (missing e) = inr (e, refl)

module _ (tools_bytes : Tools → ℕ) (max now : ℕ) where
  pub register-Moved :
      (id : String) (tools : Tools) (fusion : Bool) (telemetry : Option (Bool × ℕ)) (d : Desktop)
      → Moved max none none d.nodes (register tools_bytes now id tools fusion telemetry d).1.nodes
  unfolding register
  register-Moved id tools fusion telemetry d = elim (Bool-cases (not d.settings.has_token)) [
    | inl t ↦ rw (t, register) (same refl refl)
    | inr t ↦
        elim (Bool-cases (not (valid_node_id id && valid_tools tools_bytes d.settings tools))) [
          | inl v ↦ rw (t, v, register) (same refl refl)
          | inr v ↦ elim (Option-cases (lookup id d.nodes)) [
            | inl e ↦
                let (q, z) = telemetry-leaves telemetry (record (registered now none) {
                  last_seen = now;
                  tools = tools;
                  fusion_available = fusion;
                }) in
                rw (t, v, e, register) (fresh id _ refl e q z refl)
            | inr (n, e) ↦
                let (q, z) = telemetry-leaves telemetry (record (registered now (some n)) {
                  last_seen = now;
                  tools = tools;
                  fusion_available = fusion;
                }) in
                rw (t, v, e, register) (kept_node none id n _ e q z refl)
          ]
        ]
  ]

  pub heartbeat-Moved :
      (id : String) (tools : Option Tools) (fusion : Option Bool) (telemetry : Option (Bool × ℕ))
      (d : Desktop)
      → Moved max none none d.nodes (heartbeat tools_bytes now id tools fusion telemetry d).1.nodes
  unfolding heartbeat
  heartbeat-Moved id tools fusion telemetry d =
      elim (Bool-cases (
        d.settings.has_token
        && (valid_node_id id && not (valid_beat tools_bytes d.settings tools)))) [
          | inl t ↦ rw (t, heartbeat) (same refl refl)
          | inr t ↦ elim (Found-cases (find_node id d)) [
            | inr (e, f) ↦ rw (t, f, heartbeat) (same refl refl)
            | inl (n, f) ↦
                let (q, z) =
                  telemetry-leaves telemetry (beaten tools_bytes tools fusion (seen now n)) in
                rw (t, f, heartbeat) (kept_node none id n _ (found_there id d n f) q z refl)
          ]
        ]

module _ (stamp : ℕ → String) (quoted : Option String → String) (bytes : String → ℕ)
    (sha256 : String → String) (size : List (Option Snapshot) → ℕ) (now : ℕ) where
  queued-Moved :
      (max : ℕ) (id : String) (c : Command) (n : Node) (d : Desktop)
      (r : Option JournalFault × Journal)
      → lookup id d.nodes ≡ some n
      → suc (length n.commands) ≤ max
      → Moved max
          (some c.command_id)
          none
          d.nodes
          (queued_if stamp quoted bytes sha256 size id c n d r).1.nodes
  queued-Moved max id c n d (some fault, journal) l m = same refl refl
  queued-Moved max id c n d (none, journal) l m =
      edited id n (enqueued stamp quoted bytes sha256 size c n) l
        (λ x. omega (arith, count-append x c.command_id n.queue))
        (inr (omega (arith, m, length-put c.command_id c n.commands))) refl

  pub enqueue-Moved :
      (id : String) (expected : Option ℕ) (token tool arguments : String) (op : Operation)
      (retain : Bool) (d : Desktop)
      → Moved d.settings.max_pending_commands
          (some token)
          none
          d.nodes
          (enqueue stamp quoted bytes sha256 size now id expected token tool arguments op retain
            d).1.nodes
  unfolding enqueue
  enqueue-Moved id expected token tool arguments op retain d =
      elim (Bool-cases
        (d.settings.has_token && ltb d.settings.max_arguments_bytes (bytes arguments))) [
          | inl t ↦ rw (t, enqueue) (same refl refl)
          | inr t ↦ elim (Found-cases (find_node id d)) [
            | inr (e, f) ↦ rw (t, f, enqueue) (same refl refl)
            | inl (n, f) ↦
                elim (Option-cases
                  (refusal stamp quoted bytes sha256 size now d.settings expected tool n)) [
                    | inr (e, g) ↦ rw (t, f, g, enqueue) (same refl refl)
                    | inl g ↦
                        rw (t, f, g, enqueue)
                          (queued-Moved d.settings.max_pending_commands id
                            (command_of stamp quoted bytes sha256 size token tool arguments op
                              retain)
                            n d _ (found_there id d n f) (room d.settings expected tool n g))
                  ]
          ]
        ]
    where
      room :
          (settings : Settings) (expected : Option ℕ) (tool : String) (n : Node)
          → refusal stamp quoted bytes sha256 size now settings expected tool n ≡ none
          → suc (length n.commands) ≤ settings.max_pending_commands
      room settings expected tool n g =
          elim (Bool-cases (leb settings.max_pending_commands (length n.commands))) [
            | inr t ↦ ground (arith, t)
            | inl t ↦ absurd (ground (arith, g, t))
          ]
