-- ===== src/Transactions/Lifecycle.antt =====
-- The life of one transaction over every history of calls of `TransactionStore`.
use development_bridge.Prelude.{
  String, Bool, true, false, ◌||◌, not, Option, none, some, List, [], ◌∷◌, ◌≡◌, sym, ap, ◌∙◌, subst,
  arith, eq_refl, ◌==◌, lookup, all,
}
use development_bridge.Errors.{ok, err, raised, transaction_conflict}
use development_bridge.Transactions.{
  Payloads, TransactionState, committed, aborted, stage_record, begin_preview_record,
  finish_preview_record, begin_commit_record, release_record, finish_commit_record, rollback_record,
  begin,
}
use development_bridge.Transactions.Calls.{
  Edit, stages, begins_preview, finishes_preview, begins_commit, releases, finishes_commit,
  rolls_back, Call, begins, edits, Rec, Store, edited, perform, run, kept, made, changed, effect,
}

-- COMMITTED and ABORTED
abbrev pub is_final : TransactionState → Bool
is_final committed = true
is_final aborted = true
is_final _ = false

module _ (p : Payloads) where
  -- the columns that `begin` sets for good
  pub record SameBaseline (r r' : Rec p) : Type 0 where
    pub transaction_id : r'.transaction_id ≡ r.transaction_id
    pub document_ref : r'.document_ref ≡ r.document_ref
    pub baseline_revision : r'.baseline_revision ≡ r.baseline_revision
    pub baseline_fingerprint : r'.baseline_fingerprint ≡ r.baseline_fingerprint
    pub baseline_snapshot : r'.baseline_snapshot ≡ r.baseline_snapshot
    -- a final transaction does not change at all
    pub final : is_final r.state ≡ true → r' ≡ r

  edited-SameBaseline :
      (e : Edit p) (r : Rec p) {r' : Rec p} → edited p e r ≡ ok r' → SameBaseline r r'
  unfolding edited stage_record begin_preview_record finish_preview_record begin_commit_record
      release_record finish_commit_record rollback_record
  edited-SameBaseline (stages action) r m = ground arith
  edited-SameBaseline (begins_preview fingerprint) r m = ground arith
  edited-SameBaseline (finishes_preview preview) r m = ground arith
  edited-SameBaseline (begins_commit fingerprint) r m = ground arith
  edited-SameBaseline releases r m = ground arith
  edited-SameBaseline (finishes_commit evidence) r m = ground arith
  edited-SameBaseline rolls_back r m = ground arith

  SameBaseline-refl : (r : Rec p) → SameBaseline r r
  SameBaseline-refl r = ground arith

  SameBaseline-trans : (r s t : Rec p) → SameBaseline r s → SameBaseline s t → SameBaseline r t
  SameBaseline-trans r s t a b = record {
    transaction_id = b.transaction_id ∙ a.transaction_id;
    document_ref = b.document_ref ∙ a.document_ref;
    baseline_revision = b.baseline_revision ∙ a.baseline_revision;
    baseline_fingerprint = b.baseline_fingerprint ∙ a.baseline_fingerprint;
    baseline_snapshot = b.baseline_snapshot ∙ a.baseline_snapshot;
    final = λ f. b.final (ap (λ (x : Rec p). is_final x.state) (a.final f) ∙ f) ∙ a.final f;
  }

  perform-SameBaseline :
      (c : Call p) (id : String) (s : Store p) {r : Rec p}
      → lookup id s ≡ some r
      → (r' : Rec p) × (lookup id (perform p c s) ≡ some r') × SameBaseline r r'
  perform-SameBaseline c id s {r} found = elim (effect p c s id) [
    | kept same ↦ (r, same ∙ found, SameBaseline-refl r)
    | made document revision fingerprint snapshot absent there ↦
        let wrong : ◌≡◌ {A = Option (Rec p)} none (some r) = sym absent ∙ found in cc
    | changed e x r' _ was done there ↦
        (r', there, subst (λ y. SameBaseline y r') (ground arith) (edited-SameBaseline e x done))
  ]

  pub run-SameBaseline :
      (cs : List (Call p)) (id : String) (s : Store p) {r : Rec p}
      → lookup id s ≡ some r
      → (r' : Rec p) × (lookup id (run p cs s) ≡ some r') × SameBaseline r r'
  unfolding run
  run-SameBaseline [] id s {r} found = (r, found, SameBaseline-refl r)
  run-SameBaseline (c ∷ cs) id s {r} found =
      let (x, there, first) = perform-SameBaseline c id s found in
      let (r', last, rest) = run-SameBaseline cs id (perform p c s) {r = x} there in
      (r', last, SameBaseline-trans r x r' first rest)

  -- A transaction that has begun stays in the store over every history: its id, document and baseline
  -- never change, a committed or aborted one does not change at all, and its id cannot begin again.
  pub transaction_forever :
      (cs : List (Call p)) (id : String) (s : Store p) {r : Rec p}
      → lookup id s ≡ some r
      → (r' : Rec p) × (lookup id (run p cs s) ≡ some r')
        × SameBaseline r r'
        × ((document revision fingerprint : String) (snapshot : Payloads.Mapping p)
            → begin p id document revision fingerprint snapshot (run p cs s)
              ≡ err (raised transaction_conflict))
  unfolding begin
  transaction_forever cs id s {r} found =
      let (r', there, same) = run-SameBaseline cs id s found in
      (r', there, same, λ document revision fingerprint snapshot. rw (there, begin))

  -- the call is no edit of this transaction that `bars` names
  abbrev pub spares : (Edit p → Bool) → String → Call p → Bool
  spares bars id (begins _ _ _ _ _) = true
  spares bars id (edits j e) = not (j == id) || not (bars e)

  -- An invariant of one record that every edit but the barred ones keeps.
  module _ (Q : Rec p → Type 0) (bars : Edit p → Bool)
      (keep : (e : Edit p) (r r' : Rec p)
        → bars e ≡ false
        → Q r
        → edited p e r ≡ ok r'
        → Q r') where
    perform-keeps :
        (c : Call p) (id : String) (s : Store p) {r : Rec p}
        → spares bars id c ≡ true
        → lookup id s ≡ some r
        → Q r
        → (r' : Rec p) × (lookup id (perform p c s) ≡ some r') × Q r'
    perform-keeps c id s {r} free found q = elim (effect p c s id) [
      | kept same ↦ (r, same ∙ found, q)
      | made document revision fingerprint snapshot absent there ↦
          let wrong : ◌≡◌ {A = Option (Rec p)} none (some r) = sym absent ∙ found in cc
      | changed e x r' is was done there ↦
          let allowed : spares bars id (edits id e) ≡ true =
            subst (λ k. spares bars id k ≡ true) is free in
          (r', there, keep e x r' (ground (arith, eq_refl id)) (subst Q (ground arith) q) done)
    ]

    pub run-keeps :
        (cs : List (Call p)) (id : String) (s : Store p) {r : Rec p}
        → all (spares bars id) cs ≡ true
        → lookup id s ≡ some r
        → Q r
        → (r' : Rec p) × (lookup id (run p cs s) ≡ some r') × Q r'
    unfolding run
    run-keeps [] id s {r} free found q = (r, found, q)
    run-keeps (c ∷ cs) id s {r} free found q =
        let (x, there, q') = perform-keeps c id s {r = r} (ground arith) found q in
        run-keeps cs id (perform p c s) {r = x} (ground arith) there q'
