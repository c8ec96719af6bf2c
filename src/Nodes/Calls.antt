-- ===== src/Nodes/Calls.antt =====
-- Histories of the calls of `DesktopNodeService` (app/desktop_nodes/service.py).
use development_bridge.Prelude.{ℕ, String, Bool, Option, none, List, [], ◌∷◌}
use development_bridge.Errors.{Result}
use development_bridge.Journal.Operations.{Snapshot}
use development_bridge.Nodes.Models.{Command, Tools, Desktop, Operation, Outcome}
use development_bridge.Nodes.Queue.{
  register, heartbeat, enqueue, claim, next_claim, submit_result, give_up,
}

-- The texts are the node's id, then ids and texts in the order of the operation's arguments.
pub data NodeCall : Type 0 where
  registers : String → Tools → Bool → Option (Bool × ℕ) → NodeCall
  beats : String → Option Tools → Option Bool → Option (Bool × ℕ) → NodeCall
  enqueues : String → Option ℕ → String → String → String → Operation → Bool → NodeCall
  claims_command : String → NodeCall
  goes_on : String → NodeCall
  submits_result : String → String → Result String → Outcome → NodeCall
  gives_up : String → Bool → Command → NodeCall

module _ (tools_bytes : Tools → ℕ) (stamp : ℕ → String) (quoted : Option String → String)
    (bytes : String → ℕ) (sha256 : String → String) (size : List (Option Snapshot) → ℕ) where
  -- the command that a call hands out, and the state after it
  unfoldable pub perform : ℕ → NodeCall → Desktop → Option (String × Command) × Desktop
  perform now (registers id tools fusion telemetry) d =
      (none, (register tools_bytes now id tools fusion telemetry d).1)
  perform now (beats id tools fusion telemetry) d =
      (none, (heartbeat tools_bytes now id tools fusion telemetry d).1)
  perform now (enqueues id expected token tool arguments op retain) d = (
    none,
    (enqueue stamp quoted bytes sha256 size now id expected token tool arguments op retain d).1,
  )
  perform now (claims_command id) d = (claim stamp quoted bytes sha256 size now id d).1
  perform now (goes_on id) d = next_claim stamp quoted bytes sha256 size now id d
  perform now (submits_result id command_id stored o) d =
      (none, (submit_result stamp quoted bytes sha256 size now id command_id stored o d).1)
  perform now (gives_up id cancelled c) d =
      (none, give_up stamp quoted bytes sha256 size now id cancelled c d)

  unfoldable pub run : List (ℕ × NodeCall) → Desktop → Desktop
  run [] d = d
  run ((now, c) ∷ cs) d = run cs (perform now c d).1
