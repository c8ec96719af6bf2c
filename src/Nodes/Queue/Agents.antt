-- ===== src/Nodes/Queue/Agents.antt =====
-- app/desktop_nodes/service.py: the nodes, and what their agents report (`register` and
-- `heartbeat`). An operation answers with its error and its state apart, since some raise after a change.
use development_bridge.Prelude.{
  ℕ, ◌+◌, ◌-◌, String, Bool, true, false, ◌&&◌, ◌||◌, not, Option, none, some, List, [], ◌∷◌, ◌==◌,
  leb, if◌then◌else◌, is_some, Dict, lookup, put,
}
use development_bridge.Errors.{
  Error, raised, invalid_argument, desktop_node_not_configured, desktop_node_not_found,
}
use development_bridge.Nodes.Models.{
  Command, Tools, Node, Settings, Desktop, valid_node_id, valid_tools, same_tools,
}

abbrev pub set_node : String → Node → Desktop → Desktop
set_node id n d = record d { nodes = put id n d.nodes }

-- _node: the node, or the error
pub data Found : Type 0 where
  found : Node → Found
  missing : Error → Found

abbrev pub find_node : String → Desktop → Found
find_node id d =
    if d.settings.has_token
    then (if valid_node_id id
        then elim (lookup id d.nodes) [
          | none ↦ missing (raised desktop_node_not_found)
          | some n ↦ found n
        ]
        else missing (raised invalid_argument))
    else missing (raised desktop_node_not_configured)

-- _online
abbrev pub online : ℕ → Settings → Node → Bool
online now settings n = leb (now - n.last_seen) settings.offline_after

-- _touch
abbrev pub seen : ℕ → Node → Node
seen now n = record n { last_seen = now }

-- _apply_telemetry
abbrev pub apply_telemetry : Option (Bool × ℕ) → Node → Option Error × Node
apply_telemetry none n = (none, n)
apply_telemetry (some (degraded, outbox)) n =
    if leb outbox 10000
    then (none, record n { result_delivery_degraded = degraded; result_outbox_count = outbox })
    else (some (raised invalid_argument), n)

abbrev pub new_node : ℕ → Node
new_node now = record {
  last_seen = now;
  tools = [];
  fusion_available = false;
  queue = [];
  commands = [];
  result_delivery_degraded = false;
  result_outbox_count = 0;
  last_result_delivery = none;
  last_claim = none;
  session_generation = 1;
}

-- the node that `register` starts from
abbrev pub registered : ℕ → Option Node → Node
registered now none = new_node now
registered now (some n) = record n { session_generation = n.session_generation + 1 }

-- the first id in the queue that is still a pending command, and the queue behind it
abbrev pub next_command : Dict Command → List String → Option String × List String
next_command commands [] = (none, [])
next_command commands (c ∷ q) =
    let rest = next_command commands q in if is_some (lookup c commands) then (some c, q) else rest

-- queue.remove(command), if it is there
abbrev pub remove_first : String → List String → List String
remove_first c [] = []
remove_first c (x ∷ q) = let rest = remove_first c q in if x == c then q else x ∷ rest

abbrev pub terminal_state : Option String → Bool
terminal_state none = false
terminal_state (some t) =
    t == "succeeded" || (t == "failed" || (t == "late_succeeded" || t == "late_failed"))

abbrev pub or_old : {A : Type 0} → A → Option A → A
or_old a none = a
or_old a (some b) = b

abbrev pub same_flag : Bool → Bool → Bool
same_flag true true = true
same_flag false false = true
same_flag _ _ = false

module _ (tools_bytes : Tools → ℕ) where
  unfoldable pub register :
      ℕ → String → Tools → Bool → Option (Bool × ℕ) → Desktop → Option Error × Desktop
  register now id tools fusion telemetry d =
      if not d.settings.has_token
      then (some (raised desktop_node_not_configured), d)
      else if not (valid_node_id id && valid_tools tools_bytes d.settings tools)
      then (some (raised invalid_argument), d)
      else (let n = record (registered now (lookup id d.nodes)) {
        last_seen = now;
        tools = tools;
        fusion_available = fusion;
      } in
          let (e, n') = apply_telemetry telemetry n in (e, set_node id n' d))

  -- the tools and the availability of Fusion that a heartbeat may report, with the generation they give
  abbrev pub beaten : Option Tools → Option Bool → Node → Node
  beaten tools fusion n =
      let t = or_old n.tools tools in
      let f = or_old n.fusion_available fusion in
      let bump = not (same_tools t n.tools) || not (same_flag f n.fusion_available) in
      record n {
        tools = t;
        fusion_available = f;
        session_generation = if bump then n.session_generation + 1 else n.session_generation;
      }

  abbrev pub valid_beat : Settings → Option Tools → Bool
  valid_beat settings none = true
  valid_beat settings (some tools) = valid_tools tools_bytes settings tools

  unfoldable pub heartbeat :
      ℕ → String → Option Tools → Option Bool → Option (Bool × ℕ) → Desktop → Option Error × Desktop
  heartbeat now id tools fusion telemetry d =
      if d.settings.has_token && (valid_node_id id && not (valid_beat d.settings tools))
      then (some (raised invalid_argument), d)
      else elim (find_node id d) [
        | missing e ↦ (some e, d)
        | found n ↦
            let (e, n') = apply_telemetry telemetry (beaten tools fusion (seen now n)) in
            (e, set_node id n' d)
      ]
