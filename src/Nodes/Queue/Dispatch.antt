-- ===== src/Nodes/Queue/Dispatch.antt =====
-- app/desktop_nodes/service.py: how a command is queued (`submit` and `call`) and handed out
-- (`claim`, whose wait is a later call of `next_claim`). Arguments of the module: the JSON texts of a time
-- and of an optional text, the size of a JSON value in bytes, sha256, and the size of a file.
use development_bridge.Prelude.{
  ℕ, String, Bool, true, false, ◌&&◌, ◌||◌, not, Option, none, some, List, [], ◌∷◌, ◌++◌, eqb, ltb,
  leb, if◌then◌else◌, is_some, length, lookup, put,
}
use development_bridge.Errors.{
  Error, raised, bridge_error, invalid_argument, desktop_node_offline, desktop_node_busy,
}
use development_bridge.Journal.Operations.{
  JournalFault, Journal, text, json, Snapshot, create, update,
}
use development_bridge.Nodes.Models.{Command, Node, Settings, Desktop, Operation}
use development_bridge.Nodes.Queue.Agents.{
  set_node, found, missing, find_node, online, seen, next_command,
}

module _ (stamp : ℕ → String) (quoted : Option String → String) (bytes : String → ℕ)
    (sha256 : String → String) (size : List (Option Snapshot) → ℕ) where
  abbrev pub flag : Bool → String
  flag true = "true"
  flag false = "false"

  -- the snapshot that `submit` and `call` put into the journal; only that of `submit` has `retain_result`
  abbrev pub snapshot_of : ℕ → String → String → String → String → Operation → Bool → Snapshot
  snapshot_of now id token tool arguments op retain =
      ("operation_id", text op.operation_id)
      ∷ ("summary", json (quoted op.summary))
      ∷ ("mutation", json (flag op.mutation))
      ∷ ("parent_operation_id", json (quoted op.parent_operation_id))
      ∷ ("checkpoint", json (quoted op.checkpoint))
      ∷ ("command_id", text token)
      ∷ ("node_id", text id)
      ∷ ("tool_name", text tool)
      ∷ ("arguments_sha256", text (sha256 arguments))
      ∷ ("status", text "queued")
      ∷ ("created_at", json (stamp now))
      ∷ ("claimed_at", json "null")
      ∷ ("completed_at", json "null")
      ∷ ("result_sha256", json "null")
      ∷ (if retain then ("retain_result", json "true") ∷ [] else [])

  abbrev pub command_of : String → String → String → Operation → Bool → Command
  command_of token tool arguments op retain = record {
    command_id = token;
    tool_name = tool;
    arguments = arguments;
    operation_id = op.operation_id;
    mutation = op.mutation;
    claimed = false;
    retain_result = retain;
  }

  abbrev pub enqueued : Command → Node → Node
  enqueued c n = record n {
    queue = n.queue ++ c.command_id ∷ [];
    commands = put c.command_id c n.commands;
  }

  -- is the node in another session than the caller expects?
  abbrev pub session_changed : Option ℕ → Node → Bool
  session_changed none n = false
  session_changed (some g) n = not (eqb n.session_generation g)

  -- the checks on the node before a command is queued
  abbrev pub refusal : ℕ → Settings → Option ℕ → String → Node → Option Error
  refusal now settings expected tool n =
      if session_changed expected n
      then some (bridge_error desktop_node_offline true)
      else if not (online now settings n) || not n.fusion_available
      then some (bridge_error desktop_node_offline true)
      else if not (is_some (lookup tool n.tools))
      then some (raised invalid_argument)
      else if leb settings.max_pending_commands (length n.commands)
      then some (bridge_error desktop_node_busy true)
      else none

  -- the command is queued if the journal takes its snapshot
  abbrev pub queued_if :
      String → Command → Node → Desktop → Option JournalFault × Journal → Option Error × Desktop
  queued_if id c n d (some fault, journal) =
      (some (raised invalid_argument), record d { journal = journal })
  queued_if id c n d (none, journal) =
      (none, set_node id (enqueued c n) (record d { journal = journal }))

  -- `submit` and the first part of `call`, under the lock
  unfoldable pub enqueue :
      ℕ
      → String
      → Option ℕ
      → String
      → String
      → String
      → Operation
      → Bool
      → Desktop
      → Option Error × Desktop
  enqueue now id expected token tool arguments op retain d =
      if d.settings.has_token && ltb d.settings.max_arguments_bytes (bytes arguments)
      then (some (raised invalid_argument), d)
      else elim (find_node id d) [
        | missing e ↦ (some e, d)
        | found n ↦ elim (refusal now d.settings expected tool n) [
          | some e ↦ (some e, d)
          | none ↦
              queued_if id (command_of token tool arguments op retain) n d
                (create size (snapshot_of now id token tool arguments op retain) d.journal)
        ]
      ]

  -- the entry of the command that is handed out
  abbrev pub handed_out : ℕ → String → Command → List String → Node → Node
  handed_out now c command rest n = record n {
    queue = rest;
    commands = put c (record command { claimed = true }) n.commands;
    last_claim = some now;
  }

  abbrev pub journal_status : String → Snapshot → Desktop → Desktop
  journal_status operation updates d = record d {
    journal = (update size operation updates d.journal).1;
  }

  -- hand out what `next_command` found: the id that the caller is answered with, and the command
  abbrev pub hand_out :
      ℕ
      → String
      → Node
      → Desktop
      → Option String × List String
      → Option (String × Command) × Desktop
  hand_out now id n d (none, rest) = (none, set_node id (record n { queue = rest }) d)
  hand_out now id n d (some c, rest) = elim (lookup c n.commands) [
    | none ↦ (none, set_node id (record n { queue = rest }) d)
    | some command ↦ (
      some (c, command),
      journal_status command.operation_id
          (("status", text "claimed") ∷ ("claimed_at", json (stamp now)) ∷ [])
          (set_node id (handed_out now c command rest n) d),
    )
  ]

  -- one pass of the loop of `claim`
  unfoldable pub claim_from : ℕ → String → Node → Desktop → Option (String × Command) × Desktop
  claim_from now id n d = hand_out now id n d (next_command n.commands n.queue)

  -- `claim` until it waits: what it raises, the command, if there is one, and the state
  unfoldable pub claim : ℕ → String → Desktop → Option Error × (Option (String × Command) × Desktop)
  unfolding claim_from
  claim now id d = elim (find_node id d) [
    | missing e ↦ (some e, (none, d))
    | found n ↦ (none, claim_from now id (seen now n) d)
  ]

  -- `claim` after it was notified
  unfoldable pub next_claim : ℕ → String → Desktop → Option (String × Command) × Desktop
  unfolding claim_from
  next_claim now id d = elim (lookup id d.nodes) [
    | none ↦ (none, d)
    | some n ↦ claim_from now id n d
  ]
