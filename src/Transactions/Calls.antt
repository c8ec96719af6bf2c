-- ===== src/Transactions/Calls.antt =====
-- Histories of calls of `TransactionStore`, and what one call does to the record of an id. A call that
-- raises leaves the store as it is.
use development_bridge.Prelude.{
  String, Option, none, some, List, [], ◌∷◌, ◌≡◌, refl, sym, subst, ◌==◌, ap, ◌∙◌, arith, eq_iff,
  eq_refl, lookup, put, lookup-put, inl, inr, Bool-cases, Option-cases,
}
use development_bridge.Errors.{Result, ok, err, ◌>>=◌, raised, invalid_argument}
use development_bridge.Transactions.{
  Payloads, TransactionRecord, TransactionStore, new, begin, stage, begin_preview, finish_preview,
  begin_commit, release_commit_reservation, finish_commit, rollback, change, save, get,
  stage_record, begin_preview_record, finish_preview_record, begin_commit_record, release_record,
  finish_commit_record, rollback_record,
}

module _ (p : Payloads) where
  open p use {Mapping}

  -- The calls on a record that is there.
  pub data Edit : Type 0 where
    stages : Mapping → Edit
    begins_preview : String → Edit
    finishes_preview : Mapping → Edit
    begins_commit : String → Edit
    releases : Edit
    finishes_commit : Mapping → Edit
    rolls_back : Edit

  pub data Call : Type 0 where
    begins : String → String → String → String → Mapping → Call
    edits : String → Edit → Call

  abbrev pub Rec : Type 0
  Rec = TransactionRecord p

  abbrev pub Store : Type 0
  Store = TransactionStore p

  unfoldable pub answer : Call → Store → Result (Rec × Store)
  answer (begins id document revision fingerprint snapshot) =
      begin p id document revision fingerprint snapshot
  answer (edits id (stages action)) = stage p id action
  answer (edits id (begins_preview fingerprint)) = begin_preview p id fingerprint
  answer (edits id (finishes_preview preview)) = finish_preview p id preview
  answer (edits id (begins_commit fingerprint)) = begin_commit p id fingerprint
  answer (edits id releases) = release_commit_reservation p id
  answer (edits id (finishes_commit evidence)) = finish_commit p id evidence
  answer (edits id rolls_back) = rollback p id

  abbrev pub stored : Store → Result (Rec × Store) → Store
  stored s (ok t) = t.1
  stored s (err e) = s

  unfoldable pub perform : Call → Store → Store
  perform c s = stored s (answer c s)

  unfoldable pub run : List Call → Store → Store
  run [] s = s
  run (c ∷ cs) s = run cs (perform c s)

  -- what the call makes of the record
  unfoldable pub edited : Edit → Rec → Result Rec
  edited (stages action) = stage_record p action
  edited (begins_preview fingerprint) = begin_preview_record p fingerprint
  edited (finishes_preview preview) = finish_preview_record p preview
  edited (begins_commit fingerprint) = begin_commit_record p fingerprint
  edited releases = release_record p
  edited (finishes_commit evidence) = finish_commit_record p evidence
  edited rolls_back = rollback_record p

  pub answer-edits :
      (id : String) (e : Edit) (s : Store) → answer (edits id e) s ≡ change p (edited e) id s
  unfolding answer edited stage begin_preview finish_preview begin_commit release_commit_reservation
      finish_commit rollback
  answer-edits id (stages action) s = refl
  answer-edits id (begins_preview fingerprint) s = refl
  answer-edits id (finishes_preview preview) s = refl
  answer-edits id (begins_commit fingerprint) s = refl
  answer-edits id releases s = refl
  answer-edits id (finishes_commit evidence) s = refl
  answer-edits id rolls_back s = refl

  -- a record that was stored is read back
  pub save_lem : (id : String) (r : Rec) (s : Store) → save p id r s ≡ ok (r, put id r s)
  unfolding save get
  save_lem id r s = rw (found, save, get)
    where
      found : lookup id (put id r s) ≡ some r
      found = lookup-put id id r s ∙ rw (eq_refl id)

  -- the record is stored, and is the answer
  abbrev pub put_back : String → Store → Rec → Result (Rec × Store)
  put_back id s r = ok (r, put id r s)

  pub change_lem :
      (f : Rec → Result Rec) (id : String) (s : Store)
      → change p f id s ≡ (do r ← get p id s; r' ← f r; put_back id s r')
  unfolding change
  change_lem f id s = after_get (get p id s)
    where
      after_edit : (x : Result Rec) → (x >>= λ r'. save p id r' s) ≡ (x >>= λ r'. put_back id s r')
      after_edit (ok r') = save_lem id r' s
      after_edit (err e) = refl

      after_get :
          (x : Result Rec)
          → (x >>= λ r. f r >>= λ r'. save p id r' s) ≡ (x >>= λ r. f r >>= λ r'. put_back id s r')
      after_get (ok r) = after_edit (f r)
      after_get (err e) = refl

  abbrev pub fresh_record : String → String → String → String → Mapping → Rec
  fresh_record id document revision fingerprint snapshot = record {
    transaction_id = id;
    document_ref = document;
    baseline_revision = revision;
    baseline_fingerprint = fingerprint;
    baseline_snapshot = snapshot;
    state = new;
    plan = [];
    plan_hash = "";
    preview_evidence = none;
    commit_evidence = none;
  }

  -- an edit that succeeds has read a record, and has stored what it made of it
  pub answer-edits_ok :
      (id : String) (e : Edit) (s : Store) {r' : Rec} {s' : Store}
      → answer (edits id e) s ≡ ok (r', s')
      → (r : Rec) × (lookup id s ≡ some r) × (edited e r ≡ ok r') × (s' ≡ put id r' s)
  unfolding get
  answer-edits_ok id e s {r'} {s'} h =
      from (lookup id s) refl (sym (answer-edits id e s ∙ change_lem (edited e) id s) ∙ h)
    where
      edit :
          (r : Rec) (x : Result Rec)
          → edited e r ≡ x
          → lookup id s ≡ some r
          → (x >>= λ r'. put_back id s r') ≡ ok (r', s')
          → (r : Rec) × (lookup id s ≡ some r) × (edited e r ≡ ok r') × (s' ≡ put id r' s)
      edit r (ok x) m l k = (r, l, ground arith, ground arith)
      edit r (err x) m l k = cc

      from :
          (o : Option Rec)
          → lookup id s ≡ o
          → (do r ← get p id s; r' ← edited e r; put_back id s r') ≡ ok (r', s')
          → (r : Rec) × (lookup id s ≡ some r) × (edited e r ≡ ok r') × (s' ≡ put id r' s)
      from none l k =
          let wrong : ◌≡◌ {A = Result (Rec × Store)} (err (raised invalid_argument)) (ok (r', s')) =
            rw (l, get) at k in
          cc
      from (some r) l k = edit r (edited e r) refl l (rw (l, get) at k)

  -- What a call does to the record of an id.
  pub data Effect (c : Call) (j : String) (s s' : Store) : Type 0 where
    kept : lookup j s' ≡ lookup j s → Effect c j s s'
    made :
        (document revision fingerprint : String) (snapshot : Mapping)
        → lookup j s ≡ none
        → lookup j s' ≡ some (fresh_record j document revision fingerprint snapshot)
        → Effect c j s s'
    changed :
        (e : Edit) (r r' : Rec)
        → c ≡ edits j e
        → lookup j s ≡ some r
        → edited e r ≡ ok r'
        → lookup j s' ≡ some r'
        → Effect c j s s'

  edits-Effect :
      (id : String) (e : Edit) (s : Store) (j : String)
      → Effect (edits id e) j s (perform (edits id e) s)
  unfolding perform
  edits-Effect id e s j = from (answer (edits id e) s) refl
    where
      from :
          (x : Result (Rec × Store))
          → answer (edits id e) s ≡ x
          → Effect (edits id e) j s (stored s x)
      from (err x) m = kept refl
      from (ok (r', s')) m =
          let (r, found, done, put_there) = answer-edits_ok id e s m in
          elim (Bool-cases (id == j)) [
            | inl same ↦
                let k : id ≡ j = (eq_iff id j).0 same in
                changed e r r' (ap (λ i. edits i e) k) (subst (λ i. lookup i s ≡ some r) k found)
                  done (rw put_there (lookup-put id j r' s ∙ rw same))
            | inr other ↦ kept (rw put_there (lookup-put id j r' s ∙ rw other))
          ]

  begins-Effect :
      (id document revision fingerprint : String) (snapshot : Mapping) (s : Store) (j : String)
      → Effect
          (begins id document revision fingerprint snapshot)
          j
          s
          (perform (begins id document revision fingerprint snapshot) s)
  unfolding perform answer begin
  begins-Effect id document revision fingerprint snapshot s j = elim (Option-cases (lookup id s)) [
    | inr (r, there) ↦ kept (rw (there, perform, answer, begin))
    | inl absent ↦ elim (Bool-cases (id == j)) [
      | inl same ↦
          let k : id ≡ j = (eq_iff id j).0 same in
          made document revision fingerprint snapshot (rw k at absent)
            (rw (absent, perform, answer, begin) (rw save_lem (rw (lookup-put, same) (rw k))))
      | inr other ↦
          kept (rw (absent, perform, answer, begin) (rw save_lem (rw (lookup-put, other))))
    ]
  ]

  pub effect : (c : Call) (s : Store) (j : String) → Effect c j s (perform c s)
  effect (begins id document revision fingerprint snapshot) s j =
      begins-Effect id document revision fingerprint snapshot s j
  effect (edits id e) s j = edits-Effect id e s j
