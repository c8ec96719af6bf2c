-- ===== src/Nodes/Queue/Results.antt =====
-- app/desktop_nodes/service.py: how a command ends, by a result (`submit_result`) or with its
-- `call` (`give_up`). The arguments of the module are those of Dispatch.
use development_bridge.Prelude.{
  ℕ, String, Bool, false, ◌&&◌, not, Option, none, some, List, [], ◌∷◌, ◌==◌, ltb, if◌then◌else◌,
  is_some, same_text, lookup, put, pop,
}
use development_bridge.Errors.{Error, Result, ok, err, raised, invalid_argument}
use development_bridge.Journal.Operations.{text, json, Snapshot, text_at, by_command}
use development_bridge.Nodes.Models.{Command, Node, Desktop, Outcome, valid_node_id}
use development_bridge.Nodes.Queue.Agents.{
  set_node, found, missing, find_node, seen, remove_first, terminal_state,
}
use development_bridge.Nodes.Queue.Dispatch.{journal_status}

module _ (stamp : ℕ → String) (quoted : Option String → String) (bytes : String → ℕ)
    (sha256 : String → String) (size : List (Option Snapshot) → ℕ) where
  abbrev pub result_status : Bool → Outcome → String → String → String
  result_status mutation o failed succeeded =
      if o.says_uncertain && mutation
      then "uncertain"
      else if o.says_failed
      then failed
      else succeeded

  -- the id of the retained result; `stored` is what `_store_result_value` returns or raises
  abbrev pub retained : Bool → Result String → Outcome → Result (Option String)
  retained retain stored o =
      if is_some o.external_result_id
      then ok o.external_result_id
      else if retain
      then elim stored [ ok r ↦ ok (some r) | err e ↦ err e ]
      else ok none

  abbrev pub result_updates : ℕ → String → Option String → Outcome → Snapshot
  result_updates now status kept o =
      ("status", text status)
      ∷ ("completed_at", json (stamp now))
      ∷ ("result_sha256", text o.sha256)
      ∷ ("result_id", elim kept [ none ↦ json "null" | some r ↦ text r ])
      ∷ []

  abbrev pub is_true : String → Snapshot → Bool
  is_true key s = elim (lookup key s) [
    | none ↦ false
    | some v ↦ elim v [ text t ↦ false | json j ↦ j == "true" ]
  ]

  -- a result for a command that is not pending any more
  abbrev pub late_result :
      ℕ → String → Result String → Outcome → Snapshot → Desktop → Option Error × Desktop
  late_result now id stored o archived d =
      if same_text (text_at "node_id" archived) (some id)
        && not (terminal_state (text_at "status" archived))
      then elim (retained (is_true "retain_result" archived) stored o) [
        | err e ↦ (some e, d)
        | ok kept ↦ elim (text_at "operation_id" archived) [
          | none ↦ (some (raised invalid_argument), d)
          | some operation ↦ (
            none,
            journal_status stamp quoted bytes sha256 size operation
                (result_updates now
                  (result_status (is_true "mutation" archived) o "late_failed" "late_succeeded")
                  kept o)
                d,
          )
        ]
      ]
      else (some (raised invalid_argument), d)

  abbrev pub delivered_result :
      ℕ → String → String → Option String → Outcome → Command → Node → Desktop → Desktop
  delivered_result now id command_id kept o c n d =
      journal_status stamp quoted bytes sha256 size c.operation_id
        (result_updates now (result_status c.mutation o "failed" "succeeded") kept o)
        (set_node id
          (record n { commands = pop command_id n.commands; last_result_delivery = some now }) d)

  unfoldable pub submit_result :
      ℕ → String → String → Result String → Outcome → Desktop → Option Error × Desktop
  submit_result now id command_id stored o d =
      if d.settings.has_token
        && (valid_node_id id && ltb d.settings.max_result_bytes (bytes o.result))
      then (some (raised invalid_argument), d)
      else elim (find_node id d) [
        | missing e ↦ (some e, d)
        | found n ↦
            let touched = seen now n in
            elim (lookup command_id n.commands) [
              | none ↦ elim (by_command command_id d.journal) [
                | none ↦ (some (raised invalid_argument), set_node id touched d)
                | some archived ↦ late_result now id stored o archived (set_node id touched d)
              ]
              | some c ↦
                  if c.claimed
                  then elim (retained c.retain_result stored o) [
                    | err e ↦ (
                      some e,
                      set_node id (record touched { commands = pop command_id n.commands }) d,
                    )
                    | ok kept ↦ (none, delivered_result now id command_id kept o c touched d)
                  ]
                  else (
                    some (raised invalid_argument),
                    set_node id
                        (record touched { commands = put command_id c (pop command_id n.commands) })
                        d,
                  )
            ]
      ]

  -- _remove_command
  unfoldable pub remove_command : ℕ → String → Command → String → Desktop → Desktop
  remove_command now id c status d = elim (lookup id d.nodes) [
    | none ↦
        journal_status stamp quoted bytes sha256 size c.operation_id
          (("status", text status) ∷ ("completed_at", json (stamp now)) ∷ []) d
    | some n ↦
        journal_status stamp quoted bytes sha256 size c.operation_id
          (("status", text status) ∷ ("completed_at", json (stamp now)) ∷ [])
          (set_node id
            (record n {
              queue = remove_first c.command_id n.queue;
              commands = pop c.command_id n.commands;
            })
            d)
  ]

  abbrev pub given_up : Bool → Command → String
  given_up cancelled c =
      if c.claimed && c.mutation
      then "uncertain"
      else if cancelled
      then "cancelled"
      else "timed_out"

  -- The end of a `call` that is cancelled or times out. `c` is its command as it was when the status was
  -- computed, which is before the lock: a result may have been taken since.
  unfoldable pub give_up : ℕ → String → Bool → Command → Desktop → Desktop
  unfolding remove_command
  give_up now id cancelled c d = remove_command now id c (given_up cancelled c) d
