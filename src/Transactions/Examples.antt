-- ===== src/Transactions/Examples.antt =====
-- The theorems on transactions at concrete inputs, over payloads of a plan hash and a replay signature.
use Prim.Native.String.{◌++◌ as concat}
use development_bridge.Prelude.{
  String, Bool, false, Option, none, some, List, [], ◌∷◌, ◌≡◌, ◌≢◌, refl, ◌==◌, same_text,
  if◌then◌else◌, lookup, inl, arith, eq_iff,
}
use development_bridge.Errors.{ok, err, raised, transaction_conflict}
use development_bridge.Transactions.{
  Payloads, committing, committed, begin, stage, begin_preview, finish_preview, begin_commit,
  staged_with,
}
use development_bridge.Transactions.Calls.{
  Call, answer, begins, edits, stages, begins_preview, finishes_preview, rolls_back, run, perform,
  fresh_record, Rec, Store,
}
use development_bridge.Transactions.Sound.{IsSound, run-IsSound}
use development_bridge.Transactions.Lifecycle.{SameBaseline, transaction_forever}
use development_bridge.Transactions.Commits.{reserved_once, stage_voids_preview, never_stale}
use development_bridge.Transactions.Path.{commit_path, commit_path_commits}

-- a mapping with the two keys that the store reads
record Evidence : Type 0 where
  plan_hash : Option String
  replay : Option String

data Payload : Type 0 where
  text : String → Payload
  mapping : Evidence → Payload

abbrev text_of : Option String → Option Payload
text_of none = none
text_of (some s) = some (text s)

abbrev signature_of : Option String → Option Payload
signature_of none = none
signature_of (some s) = some (mapping (record { plan_hash = some s; replay = none }))

abbrev read : String → Evidence → Option Payload
read key m =
    if key == "plan_hash"
    then text_of m.plan_hash
    else if key == "replay_signature"
    then signature_of m.replay
    else none

abbrev mapping_in : Payload → Option Evidence
mapping_in (text s) = none
mapping_in (mapping m) = some m

abbrev text_is : Payload → String → Bool
text_is (text s) t = s == t
text_is (mapping m) t = false

abbrev hash_of : List Evidence → String
hash_of [] = "h"
hash_of (m ∷ plan) = concat "+" (hash_of plan)

abbrev toy : Payloads
toy = record {
  Value = Payload;
  Mapping = Evidence;
  get_key = read;
  set_not_durable = λ m. m;
  as_mapping = mapping_in;
  same_mapping = λ a b. same_text a.plan_hash b.plan_hash;
  is_text = text_is;
  hash_plan = hash_of;
  replay_kept = λ m. refl;
}

abbrev action : Evidence
action = record { plan_hash = none; replay = none }

abbrev preview : Evidence
preview = record { plan_hash = none; replay = some "+h" }

abbrev begun : Rec toy
begun = fresh_record toy "tx" "doc" "rev" "fp" action

abbrev store : Store toy
store = ("tx", begun) ∷ []

abbrev reserving : List (Call toy)
reserving =
    edits "tx" (stages action)
    ∷ edits "tx" (begins_preview "fp")
    ∷ edits "tx" (finishes_preview preview)
    ∷ []

abbrev ready : Rec toy
ready = record (staged_with toy action begun) { preview_evidence = some preview }

abbrev ready_store : Store toy
ready_store = ("tx", ready) ∷ []

commit_path_commits_example :
    (r : Rec toy) × (lookup "tx" (run toy (commit_path toy "tx" action "fp" preview preview) store)
      ≡ some r)
    × (r.state ≡ committed)
    × (r.plan ≡ action ∷ [])
    × (r.commit_evidence ≡ some preview)
commit_path_commits_example =
    commit_path_commits toy "tx" action preview preview store {r = begun} refl (inl refl) refl refl

run-IsSound_example : IsSound toy ready
unfolding run perform answer begin stage begin_preview finish_preview
run-IsSound_example =
    run-IsSound toy (begins "tx" "doc" "rev" "fp" action ∷ reserving) "tx" {r = ready} refl

transaction_forever_example :
    (r : Rec toy) × (lookup "tx" (run toy reserving store) ≡ some r)
    × SameBaseline toy begun r
    × ((document revision fingerprint : String) (snapshot : Evidence)
        → begin toy "tx" document revision fingerprint snapshot (run toy reserving store)
          ≡ err (raised transaction_conflict))
transaction_forever_example = transaction_forever toy reserving "tx" store {r = begun} refl

reserved_once_example :
    begin_commit toy "tx" "fp"
      (run toy (edits "tx" rolls_back ∷ []) (("tx", record ready { state = committing }) ∷ []))
    ≡ err (raised transaction_conflict)
unfolding begin_commit
reserved_once_example =
    reserved_once toy "tx" "fp" "fp" (edits "tx" rolls_back ∷ []) ready_store
      {r' = record ready { state = committing }} refl refl

stage_voids_preview_example :
    begin_commit toy "tx" "fp"
      (run toy (edits "tx" (begins_preview "fp") ∷ []) (("tx", staged_with toy action ready) ∷ []))
    ≡ err (raised transaction_conflict)
unfolding stage
stage_voids_preview_example =
    stage_voids_preview toy "tx" "fp" action (edits "tx" (begins_preview "fp") ∷ []) ready_store
      {r' = staged_with toy action ready} refl refl

fingerprints_differ : ◌≢◌ {A = String} "other" "fp"
fingerprints_differ = ground (arith, eq_iff "other" "fp")

never_stale_example :
    (begin_preview toy "tx" "other" (run toy reserving store) ≢ ok (ready, ready_store))
    × (begin_commit toy "tx" "other" (run toy reserving store) ≢ ok (ready, ready_store))
unfolding begin
never_stale_example =
    never_stale toy "tx" "doc" "rev" "fp" "other" action reserving [] {r = begun} {s' = store} refl
      fingerprints_differ (ready, ready_store)
