-- ===== src/Transactions.antt =====
-- app/fusion_cad/transactions.py: the staged transactions of the CAD agent. Their payloads are Python
-- values, hashed and compared by code that is not in the repository: the record `Payloads`.
pub mod Calls
pub mod Sound
pub mod Lifecycle
pub mod Commits
pub mod Path
mod Examples
use development_bridge.Prelude.{
  String, Bool, true, false, ◌&&◌, ◌||◌, not, Option, none, some, List, [], ◌∷◌, ◌++◌, ◌≡◌, ◌==◌,
  if◌then◌else◌, Dict, lookup, put, is_some,
}
use development_bridge.Errors.{
  Error, Result, ok, err, ◌>>=◌, ◌>>◌, guard, raised, invalid_argument, transaction_conflict,
  revision_conflict,
}

-- A mapping is a dict with text keys. `hash_plan` is `_plan_hash` (json.dumps and sha256).
pub record Payloads : Type 1 where
  pub Value : Type 0
  pub Mapping : Type 0
  -- value.get(key)
  pub get_key : String → Mapping → Option Value
  -- evidence["durable"] = False
  pub set_not_durable : Mapping → Mapping
  -- the value as a mapping, where `isinstance(value, Mapping)`
  pub as_mapping : Value → Option Mapping
  -- dict(a) == dict(b)
  pub same_mapping : Mapping → Mapping → Bool
  -- value == text
  pub is_text : Value → String → Bool
  pub hash_plan : List Mapping → String
  -- evidence["durable"] = False leaves the other key that is read alone
  pub replay_kept :
      (m : Mapping) → get_key "replay_signature" (set_not_durable m) ≡ get_key "replay_signature" m

pub data TransactionState : Type 0 where
  new staged previewed committing committed aborted : TransactionState

unfoldable pub state_eq : TransactionState → TransactionState → Bool
state_eq new new = true
state_eq staged staged = true
state_eq previewed previewed = true
state_eq committing committing = true
state_eq committed committed = true
state_eq aborted aborted = true
state_eq _ _ = false

module _ (p : Payloads) where
  open p use {
    Value, Mapping, get_key, set_not_durable, as_mapping, same_mapping, is_text, hash_plan,
  }

  pub record TransactionRecord : Type 0 where
    pub transaction_id : String
    pub document_ref : String
    pub baseline_revision : String
    pub baseline_fingerprint : String
    pub baseline_snapshot : Mapping
    pub state : TransactionState
    pub plan : List Mapping
    pub plan_hash : String
    pub preview_evidence : Option Mapping
    pub commit_evidence : Option Mapping

  abbrev pub TransactionStore : Type 0
  TransactionStore = Dict TransactionRecord

  abbrev pub Answer : Type 0
  Answer = Result (TransactionRecord × TransactionStore)

  unfoldable pub get : String → TransactionStore → Result TransactionRecord
  get id s = elim (lookup id s) [ none ↦ err (raised invalid_argument) | some r ↦ ok r ]

  -- self._records[transaction_id] = record; return self.get(transaction_id)
  unfoldable pub save : String → TransactionRecord → TransactionStore → Answer
  unfolding get
  save id r s = do found ← get id (put id r s); ok (found, put id r s)

  unfoldable pub begin : String → String → String → String → Mapping → TransactionStore → Answer
  unfolding save
  begin id document revision fingerprint snapshot s =
      if is_some (lookup id s)
      then err (raised transaction_conflict)
      else save id
          (record {
            transaction_id = id;
            document_ref = document;
            baseline_revision = revision;
            baseline_fingerprint = fingerprint;
            baseline_snapshot = snapshot;
            state = new;
            plan = [];
            plan_hash = "";
            preview_evidence = none;
            commit_evidence = none;
          })
          s

  -- `not record.plan`
  abbrev pub is_empty : List Mapping → Bool
  is_empty [] = true
  is_empty (a ∷ plan) = false

  abbrev pub staged_with : Mapping → TransactionRecord → TransactionRecord
  staged_with action r = record r {
    state = staged;
    plan = r.plan ++ action ∷ [];
    plan_hash = hash_plan (r.plan ++ action ∷ []);
    preview_evidence = none;
  }

  -- What each method makes of the record that it read.
  pub stage_record : Mapping → TransactionRecord → Result TransactionRecord
  unfolding state_eq
  stage_record action r = do
    guard (state_eq r.state new || state_eq r.state staged) (raised transaction_conflict)
    ok (staged_with action r)

  -- _assert_fresh
  abbrev pub assert_fresh : TransactionRecord → String → Result (Unit {0})
  assert_fresh r fingerprint =
      guard (fingerprint == r.baseline_fingerprint) (raised revision_conflict)

  pub begin_preview_record : String → TransactionRecord → Result TransactionRecord
  unfolding state_eq
  begin_preview_record fingerprint r = do
    guard (state_eq r.state staged && not (is_empty r.plan)) (raised transaction_conflict)
    assert_fresh r fingerprint
    ok (record r { state = previewed })

  pub finish_preview_record : Mapping → TransactionRecord → Result TransactionRecord
  unfolding state_eq
  finish_preview_record preview r = do
    guard (state_eq r.state previewed) (raised transaction_conflict)
    ok (record r { state = staged; preview_evidence = some (set_not_durable preview) })

  abbrev pub mapping_of : Option Value → Option Mapping
  mapping_of none = none
  mapping_of (some v) = as_mapping v

  -- evidence.get("replay_signature"), where it is a mapping
  abbrev pub signature : Mapping → Option Mapping
  signature evidence = mapping_of (get_key "replay_signature" evidence)

  -- (record.preview_evidence or {}).get("replay_signature"), where it is a mapping
  abbrev pub preview_signature : TransactionRecord → Option Mapping
  preview_signature r = elim r.preview_evidence [ none ↦ none | some e ↦ signature e ]

  -- preview_signature.get("plan_hash") == record.plan_hash
  abbrev pub signs : String → Option Mapping → Bool
  signs hash none = false
  signs hash (some sig) = elim (get_key "plan_hash" sig) [ none ↦ false | some v ↦ is_text v hash ]

  pub begin_commit_record : String → TransactionRecord → Result TransactionRecord
  unfolding state_eq
  begin_commit_record fingerprint r = do
    guard (state_eq r.state staged && not (is_empty r.plan)) (raised transaction_conflict)
    guard (signs r.plan_hash (preview_signature r)) (raised transaction_conflict)
    assert_fresh r fingerprint
    ok (record r { state = committing })

  pub release_record : TransactionRecord → Result TransactionRecord
  unfolding state_eq
  release_record r = do
    guard (state_eq r.state committing) (raised transaction_conflict)
    ok (record r { state = staged })

  abbrev pub same_signature : Option Mapping → Option Mapping → Bool
  same_signature (some a) (some b) = same_mapping a b
  same_signature _ _ = false

  pub finish_commit_record : Mapping → TransactionRecord → Result TransactionRecord
  unfolding state_eq
  finish_commit_record evidence r = do
    guard (state_eq r.state committing) (raised transaction_conflict)
    guard (same_signature (preview_signature r) (signature evidence)) (raised transaction_conflict)
    ok (record r { state = committed; commit_evidence = some evidence })

  pub rollback_record : TransactionRecord → Result TransactionRecord
  unfolding state_eq
  rollback_record r = do
    guard
        (not
          (state_eq r.state committing || (state_eq r.state committed || state_eq r.state aborted)))
        (raised transaction_conflict)
    ok (record r { state = aborted })

  -- A method: read the record, change it, store it and read it back.
  pub change : (TransactionRecord → Result TransactionRecord) → String → TransactionStore → Answer
  unfolding get save
  change f id s = do r ← get id s; r' ← f r; save id r' s

  unfoldable pub stage : String → Mapping → TransactionStore → Answer
  unfolding change stage_record
  stage id action = change (stage_record action) id

  unfoldable pub begin_preview : String → String → TransactionStore → Answer
  unfolding change begin_preview_record
  begin_preview id fingerprint = change (begin_preview_record fingerprint) id

  unfoldable pub finish_preview : String → Mapping → TransactionStore → Answer
  unfolding change finish_preview_record
  finish_preview id preview = change (finish_preview_record preview) id

  unfoldable pub begin_commit : String → String → TransactionStore → Answer
  unfolding change begin_commit_record
  begin_commit id fingerprint = change (begin_commit_record fingerprint) id

  unfoldable pub release_commit_reservation : String → TransactionStore → Answer
  unfolding change release_record
  release_commit_reservation id = change release_record id

  unfoldable pub finish_commit : String → Mapping → TransactionStore → Answer
  unfolding change finish_commit_record
  finish_commit id evidence = change (finish_commit_record evidence) id

  unfoldable pub rollback : String → TransactionStore → Answer
  unfolding change rollback_record
  rollback id = change rollback_record id
