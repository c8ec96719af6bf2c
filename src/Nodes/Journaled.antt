-- ===== src/Nodes/Journaled.antt =====
-- A command of a desktop node and its operation in the journal, before and after an update of its
-- status (app/desktop_nodes/service.py and journal.py).
use development_bridge.Prelude.{
  ℕ, ◌<◌, String, Option, none, some, List, ◌∷◌, ◌≡◌, refl, sym, ap, subst, ◌∙◌, eq_refl, lookup,
  put, lookup-put,
}
use development_bridge.Journal.Operations.{
  text, Snapshot, text_of, text_at, merge, Journal, update, by_command,
}
use development_bridge.Journal.Ordered.{lookup-merge}
use development_bridge.Journal.Index.{update_found}
use development_bridge.Nodes.Models.{Command, Node, Desktop}
use development_bridge.Nodes.Queue.{find_node, found}

-- the command `c` is pending at the node, and the journal has its operation
pub record Pending (id command_id : String) (n : Node) (c : Command) (s : Snapshot) (d : Desktop)
    : Type 0 where
  pub node : find_node id d ≡ found n
  pub there : lookup id d.nodes ≡ some n
  pub command : lookup command_id n.commands ≡ some c
  pub history : 0 < d.journal.history_limit
  pub operation : lookup c.operation_id d.journal.operations ≡ some s
  pub indexed : text_at "command_id" s ≡ some command_id
  pub owner : text_at "node_id" s ≡ some id

-- an update of the status leaves the two ids that a late result is looked up by
pub record KeepsLinks (u : Snapshot) : Type 0 where
  pub status : lookup "status" u ≡ none
  pub command : lookup "command_id" u ≡ none
  pub owner : lookup "node_id" u ≡ none

-- what the journal says of a command after its status is updated
pub record Archived (id command_id status : String) (j : Journal) : Type 0 where
  snapshot : Snapshot
  by_id : by_command command_id j ≡ some snapshot
  says : text_at "status" snapshot ≡ some status
  owner : text_at "node_id" snapshot ≡ some id

module _ (size : List (Option Snapshot) → ℕ) where
  update-Archived :
      (id command_id status : String) (u : Snapshot) (n : Node) (c : Command) (s : Snapshot)
      (d : Desktop)
      → Pending id command_id n c s d
      → KeepsLinks u
      → Archived id command_id status
          (update size c.operation_id (("status", text status) ∷ u) d.journal).1
  update-Archived id command_id status u n c s d p k =
      let s1 = put "status" (text status) s in
      let command_kept =
        lookup-merge "command_id" s1 u k.command
        ∙ lookup-put "status" "command_id" (text status) s in
      let owner_kept =
        lookup-merge "node_id" s1 u k.owner ∙ lookup-put "status" "node_id" (text status) s in
      let said =
        lookup-merge "status" s1 u k.status ∙ lookup-put "status" "status" (text status) s in
      record {
        snapshot = merge s (("status", text status) ∷ u);
        by_id =
            (update_found size c.operation_id (("status", text status) ∷ u) s d.journal p.history
              p.operation (ap text_of command_kept ∙ p.indexed)).1;
        says = ap text_of said;
        owner = ap text_of owner_kept ∙ p.owner;
      }

-- the command is not pending at the node any more, and the journal has its operation with the status
pub record Ended (id command_id status : String) (d : Desktop) : Type 0 where
  pub node : Node
  pub there : lookup id d.nodes ≡ some node
  pub gone : lookup command_id node.commands ≡ none
  pub snapshot : Snapshot
  pub by_id : by_command command_id d.journal ≡ some snapshot
  pub says : text_at "status" snapshot ≡ some status
  pub owner : text_at "node_id" snapshot ≡ some id

-- a state that differs from an old one in the node and in the updated operation
pub ended :
    (size : List (Option Snapshot) → ℕ) (id command_id status : String) (u : Snapshot) (n n' : Node)
    (c : Command) (s : Snapshot) (d d' : Desktop)
    → Pending id command_id n c s d
    → KeepsLinks u
    → lookup command_id n'.commands ≡ none
    → d'.nodes ≡ put id n' d.nodes
    → d'.journal ≡ (update size c.operation_id (("status", text status) ∷ u) d.journal).1
    → Ended id command_id status d'
ended size id command_id status u n n' c s d d' p k g e j =
    let r = update-Archived size id command_id status u n c s d p k in
    record {
      node = n';
      there =
          subst (λ x. lookup id x ≡ some n') (sym e)
            (lookup-put id id n' d.nodes ∙ rw (eq_refl id) refl);
      gone = g;
      snapshot = r.snapshot;
      by_id = subst (λ x. by_command command_id x ≡ some r.snapshot) (sym j) r.by_id;
      says = r.says;
      owner = r.owner;
    }
