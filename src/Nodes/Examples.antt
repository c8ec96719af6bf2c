-- ===== src/Nodes/Examples.antt =====
-- Concrete runs of `DesktopNodeService` (app/desktop_nodes/service.py).
use development_bridge.Prelude.{
  Bool, ◌==◌, ℕ, ◌≤◌, String, true, false, Option, none, some, List, [], ◌∷◌, ◌≡◌, refl, arith,
  length,
}
use development_bridge.Errors.{ok, raised, invalid_argument}
use development_bridge.Coordinator.Texts.{codes}
use development_bridge.Journal.Operations.{
  incomplete, text, json, Snapshot, merge, create, update, append, trim_memory,
}
use development_bridge.Nodes.Models.{Command, Tools, Node, Desktop, Operation, Outcome}
use development_bridge.Nodes.Queue.{
  register, enqueue, claim, claim_from, next_claim, submit_result, give_up, snapshot_of, command_of,
}
use development_bridge.Nodes.Calls.{
  NodeCall, registers, enqueues, claims_command, goes_on, perform, run,
}
use development_bridge.Nodes.Moves.{total}
use development_bridge.Nodes.Once.{times_handed, handed_once}
use development_bridge.Nodes.Limits.{run-Within}
use development_bridge.Nodes.Recovery.{recover_incomplete, incomplete-recover_incomplete}
use development_bridge.Nodes.Journaled.{Pending, Ended}
use development_bridge.Nodes.Ends.{give_up-uncertain, result_once}

abbrev tools_bytes : Tools → ℕ
tools_bytes t = length t

abbrev stamp : ℕ → String
stamp t = "0"

abbrev quoted : Option String → String
quoted o = "null"

abbrev bytes : String → ℕ
bytes t = length (codes t)

abbrev sha256 : String → String
sha256 t = t

abbrev size : List (Option Snapshot) → ℕ
size lines = length lines

abbrev idle_desktop : Desktop
idle_desktop = record {
  settings = record {
    has_token = true;
    offline_after = 30;
    max_pending_commands = 2;
    max_request_bytes = 100;
    max_arguments_bytes = 100;
    max_result_bytes = 100;
  };
  nodes = [];
  journal = record {
    history_limit = 5;
    max_bytes = 1000;
    operations = [];
    command_index = [];
    file = some none;
  };
}

abbrev cut_operation : Operation
cut_operation = record {
  operation_id = "op1";
  summary = none;
  mutation = true;
  parent_operation_id = none;
  checkpoint = none;
}

abbrev history : List (ℕ × NodeCall)
history =
    (0, registers "pc" (("cut", "{}") ∷ []) true none)
    ∷ (1, enqueues "pc" none "c1" "cut" "{}" cut_operation false)
    ∷ []

abbrev queued_state : Desktop
unfolding run perform register enqueue create append trim_memory
queued_state = run tools_bytes stamp quoted bytes sha256 size history idle_desktop

abbrev queued_node : Node
queued_node = record {
  last_seen = 0;
  tools = ("cut", "{}") ∷ [];
  fusion_available = true;
  queue = "c1" ∷ [];
  commands =
      ("c1", command_of stamp quoted bytes sha256 size "c1" "cut" "{}" cut_operation false) ∷ [];
  result_delivery_degraded = false;
  result_outbox_count = 0;
  last_result_delivery = none;
  last_claim = none;
  session_generation = 1;
}

abbrev two_claims : List (ℕ × NodeCall)
two_claims = (2, claims_command "pc") ∷ (3, goes_on "pc") ∷ []

handed_test :
    times_handed tools_bytes stamp quoted bytes sha256 size "c1" two_claims queued_state ≡ 1
unfolding run perform register enqueue create append trim_memory claim next_claim claim_from update
handed_test = refl

handed_once_example :
    times_handed tools_bytes stamp quoted bytes sha256 size "c1" two_claims queued_state
    ≤ total "c1" queued_state.nodes
unfolding run perform register enqueue create append trim_memory claim next_claim claim_from update
handed_once_example =
    handed_once tools_bytes stamp quoted bytes sha256 size "c1" two_claims queued_state
      ((λ h. ground (arith, h)), ((λ h. ground (arith, h)), tt))

run-Within_example : length queued_node.commands ≤ 2
unfolding run perform register enqueue create append trim_memory
run-Within_example =
    run-Within tools_bytes stamp quoted bytes sha256 size history idle_desktop "pc" queued_node
      (λ k n e. ground (arith, e)) refl

abbrev claimed_state : Desktop
unfolding claim claim_from update append trim_memory run perform register enqueue create
claimed_state = (claim stamp quoted bytes sha256 size 2 "pc" queued_state).1.1

abbrev claimed_command : Command
claimed_command =
    record (command_of stamp quoted bytes sha256 size "c1" "cut" "{}" cut_operation false) {
      claimed = true;
    }

abbrev claimed_node : Node
claimed_node = record queued_node {
  last_seen = 2;
  queue = [];
  commands = ("c1", claimed_command) ∷ [];
  last_claim = some 2;
}

abbrev claimed_snapshot : Snapshot
claimed_snapshot =
    merge (snapshot_of stamp quoted bytes sha256 size 1 "pc" "c1" "cut" "{}" cut_operation false)
      (("status", text "claimed") ∷ ("claimed_at", json "0") ∷ [])

waits : Pending "pc" "c1" claimed_node claimed_command claimed_snapshot claimed_state
unfolding claim claim_from update append trim_memory run perform register enqueue create
waits = record {
  node = refl;
  there = refl;
  command = refl;
  history = omega arith;
  operation = refl;
  indexed = refl;
  owner = refl;
}

give_up-uncertain_example :
    Ended "pc" "c1" "uncertain"
      (give_up stamp quoted bytes sha256 size 60 "pc" false claimed_command claimed_state)
unfolding claim claim_from update append trim_memory run perform register enqueue create
give_up-uncertain_example =
    give_up-uncertain stamp quoted bytes sha256 size 60 "pc" "c1" false claimed_node claimed_command
      claimed_snapshot claimed_state waits refl refl

abbrev done : Outcome
done = record {
  result = "{}";
  sha256 = "h";
  says_uncertain = false;
  says_failed = false;
  external_result_id = none;
}

result_once_example :
    let first =
      submit_result stamp quoted bytes sha256 size 5 "pc" "c1" (ok "r1") done claimed_state in
    let second = submit_result stamp quoted bytes sha256 size 6 "pc" "c1" (ok "r2") done first.1 in
    (first.0 ≡ none)
    × (Ended "pc" "c1" "succeeded" first.1
        × ((second.0 ≡ some (raised invalid_argument)) × (second.1.journal ≡ first.1.journal)))
unfolding claim claim_from update append trim_memory run perform register enqueue create
result_once_example =
    result_once stamp quoted bytes sha256 size 5 6 "pc" "c1" "r1" (ok "r2") done done claimed_node
      claimed_command claimed_snapshot claimed_state waits refl refl refl

abbrev truthy : String → Bool
truthy j = j == "true"

-- the bridge goes down while the command is claimed
incomplete-recover_incomplete_example :
    incomplete (recover_incomplete truthy stamp size 90 claimed_state.journal) ≡ []
unfolding claim claim_from update append trim_memory run perform register enqueue create
incomplete-recover_incomplete_example =
    incomplete-recover_incomplete truthy stamp size 90 claimed_state.journal ((refl, refl), tt)
