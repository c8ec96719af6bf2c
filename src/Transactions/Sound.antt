-- ===== src/Transactions/Sound.antt =====
-- What a transaction's record guarantees in each state, over every history of calls.
use development_bridge.Prelude.{
  String, Bool, true, false, none, some, List, [], ◌∷◌, ◌++◌, ◌≡◌, refl, sym, ◌∙◌, subst, arith,
  lookup,
}
use development_bridge.Errors.{ok}
use development_bridge.Transactions.{
  Payloads, TransactionState, staged, previewed, committing, committed, is_empty, preview_signature,
  signature, signs, same_signature, stage_record, begin_preview_record, finish_preview_record,
  begin_commit_record, release_record, finish_commit_record, rollback_record,
}
use development_bridge.Transactions.Calls.{
  Edit, stages, begins_preview, finishes_preview, begins_commit, releases, finishes_commit,
  rolls_back, Call, Rec, Store, edited, perform, run, kept, made, changed, effect, fresh_record,
}

-- the states in which a plan is staged
abbrev has_plan : TransactionState → Bool
has_plan staged = true
has_plan previewed = true
has_plan committing = true
has_plan committed = true
has_plan _ = false

-- the commit is reserved, or done
abbrev is_reserved : TransactionState → Bool
is_reserved committing = true
is_reserved committed = true
is_reserved _ = false

module _ (p : Payloads) where
  open p use {Mapping, hash_plan}

  -- there is commit evidence, and its signature equals that of the accepted preview
  abbrev pub commit_matches : Rec p → Bool
  commit_matches r = elim r.commit_evidence [
    | none ↦ false
    | some e ↦ same_signature p (preview_signature p r) (signature p e)
  ]

  pub record IsSound (r : Rec p) : Type 0 where
    pub planned : has_plan r.state ≡ true → is_empty p r.plan ≡ false
    pub hashed : has_plan r.state ≡ true → r.plan_hash ≡ hash_plan r.plan
    pub signed : is_reserved r.state ≡ true → signs p r.plan_hash (preview_signature p r) ≡ true
    pub matched : r.state ≡ committed → commit_matches r ≡ true

  staged_not_empty : (plan : List Mapping) (a : Mapping) → is_empty p (plan ++ a ∷ []) ≡ false
  staged_not_empty [] a = refl
  staged_not_empty (b ∷ plan) a = refl

  edited-IsSound :
      (e : Edit p) (r : Rec p) {r' : Rec p} → IsSound r → edited p e r ≡ ok r' → IsSound r'
  unfolding edited stage_record begin_preview_record finish_preview_record begin_commit_record
      release_record finish_commit_record rollback_record
  edited-IsSound (stages action) r h m = ground (arith, staged_not_empty r.plan action)
  edited-IsSound (begins_preview fingerprint) r h m = ground arith
  edited-IsSound (finishes_preview preview) r h m = ground arith
  edited-IsSound (begins_commit fingerprint) r h m = ground arith
  edited-IsSound releases r h m = ground arith
  edited-IsSound (finishes_commit evidence) r h m = ground arith
  edited-IsSound rolls_back r h m = ground arith

  -- every record of the store satisfies `P`, as a property of its id
  abbrev pub Every : (String → Rec p → Type 0) → Store p → Type 0
  Every P s = (id : String) (r : Rec p) → lookup id s ≡ some r → P id r

  -- An invariant of the single records that a new record has and every edit keeps.
  module _ (P : String → Rec p → Type 0)
      (fresh : (id document revision fingerprint : String) (snapshot : Mapping)
        → P id (fresh_record p id document revision fingerprint snapshot))
      (keep : (id : String) (e : Edit p) (r r' : Rec p)
        → P id r
        → edited p e r ≡ ok r'
        → P id r') where
    perform-Every : (c : Call p) (s : Store p) → Every P s → Every P (perform p c s)
    perform-Every c s h j r' found = elim (effect p c s j) [
      | kept same ↦ h j r' (sym same ∙ found)
      | made document revision fingerprint snapshot absent there ↦
          subst (P j) (ground arith) (fresh j document revision fingerprint snapshot)
      | changed e r x _ was done there ↦ subst (P j) (ground arith) (keep j e r x (h j r was) done)
    ]

    pub run-Every : (cs : List (Call p)) (s : Store p) → Every P s → Every P (run p cs s)
    unfolding run
    run-Every [] s h = h
    run-Every (c ∷ cs) s h = run-Every cs (perform p c s) (perform-Every c s h)

  fresh-IsSound :
      (id document revision fingerprint : String) (snapshot : Mapping)
      → IsSound (fresh_record p id document revision fingerprint snapshot)
  fresh-IsSound id document revision fingerprint snapshot = ground arith

  -- Whatever calls are made on an empty store: a transaction that is staged, previewed, committing or
  -- committed has a plan, and its plan hash is the hash of that plan; one whose commit is reserved or
  -- done holds a preview that signs that hash; and a committed one holds commit evidence whose replay
  -- signature equals that of the preview.
  pub run-IsSound :
      (cs : List (Call p)) (id : String) {r : Rec p} → lookup id (run p cs []) ≡ some r → IsSound r
  run-IsSound cs id {r} found =
      run-Every (λ _ x. IsSound x) fresh-IsSound (λ _ e x x' h m. edited-IsSound e x h m) cs []
        (λ j x absurd_found. cc) id r found
