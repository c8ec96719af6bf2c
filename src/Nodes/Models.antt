-- ===== src/Nodes/Models.antt =====
-- The state of `DesktopNodeService` (app/desktop_nodes/service.py). The queue of a node holds the ids of
-- the commands, where the source holds the objects that `commands` holds too; a new id is drawn for each.
-- A JSON value is its text. The future of a command is left out, and so are uploads, results and exports.
use development_bridge.Prelude.{
  ℕ, String, Bool, true, false, ◌&&◌, ◌||◌, Option, List, [], ◌∷◌, ◌==◌, eqb, leb, if◌then◌else◌,
  all, length, Dict,
}
use development_bridge.Coordinator.Texts.{Text, codes, strip}
use development_bridge.Journal.Operations.{Journal}

pub record Command : Type 0 where
  pub command_id : String
  pub tool_name : String
  pub arguments : String
  pub operation_id : String
  pub mutation : Bool
  pub claimed : Bool
  pub retain_result : Bool

-- the name of a tool and its JSON text
abbrev pub Tools : Type 0
Tools = Dict String

pub record Node : Type 0 where
  pub last_seen : ℕ
  pub tools : Tools
  pub fusion_available : Bool
  pub queue : List String
  pub commands : Dict Command
  pub result_delivery_degraded : Bool
  pub result_outbox_count : ℕ
  pub last_result_delivery : Option ℕ
  pub last_claim : Option ℕ
  pub session_generation : ℕ

pub record Settings : Type 0 where
  -- is there a `token`?
  pub has_token : Bool
  pub offline_after : ℕ
  pub max_pending_commands : ℕ
  pub max_request_bytes : ℕ
  pub max_arguments_bytes : ℕ
  pub max_result_bytes : ℕ

pub record Desktop : Type 0 where
  pub settings : Settings
  pub nodes : Dict Node
  pub journal : Journal

-- what `_operation_metadata` returns
pub record Operation : Type 0 where
  pub operation_id : String
  pub summary : Option String
  pub mutation : Bool
  pub parent_operation_id : Option String
  pub checkpoint : Option String

-- what `submit_result` reads from a result: its text, its hash, and what it says of the operation
pub record Outcome : Type 0 where
  pub result : String
  pub sha256 : String
  pub says_uncertain : Bool
  pub says_failed : Bool
  pub external_result_id : Option String

abbrev pub is_letter_or_digit : ℕ → Bool
is_letter_or_digit c = (leb 48 c && leb c 57) || ((leb 65 c && leb c 90) || (leb 97 c && leb c 122))

-- _NODE_ID
abbrev pub valid_node_text : Text → Bool
valid_node_text [] = false
valid_node_text (c ∷ cs) =
    is_letter_or_digit c
    && (leb (length cs) 63
        && all (λ x. is_letter_or_digit x || (eqb x 46 || (eqb x 95 || eqb x 45))) cs)

-- _validate_node_id
abbrev pub valid_node_id : String → Bool
valid_node_id id = valid_node_text (codes id)

abbrev pub is_blank : Text → Bool
is_blank [] = true
is_blank (c ∷ cs) = false

-- _validate_tools; `tools_bytes` is `_json_size`
abbrev pub valid_tools : (Tools → ℕ) → Settings → Tools → Bool
valid_tools tools_bytes settings tools =
    all (λ t. if is_blank (strip (codes t.0)) then false else leb (length (codes t.0)) 200) tools
    && leb (tools_bytes tools) settings.max_request_bytes

abbrev pub same_tools : Tools → Tools → Bool
same_tools [] [] = true
same_tools ((k, v) ∷ xs) ((j, w) ∷ ys) = k == j && (v == w && same_tools xs ys)
same_tools _ _ = false
