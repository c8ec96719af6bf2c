-- ===== src/Transactions/Path.antt =====
-- The way of a transaction to its commit.
use development_bridge.Prelude.{
  String, true, false, some, List, [], ◌∷◌, ◌++◌, ◌≡◌, refl, ap, ◌∙◌, arith, eq_refl, lookup, ◌⊎◌,
  lookup-put,
}
use development_bridge.Errors.{ok}
use development_bridge.Transactions.{
  Payloads, new, staged, previewed, committing, committed, is_empty, signature, mapping_of, signs,
  same_signature, stage_record, begin_preview_record, finish_preview_record, begin_commit_record,
  finish_commit_record, staged_with, get,
}
use development_bridge.Transactions.Calls.{
  Edit, stages, begins_preview, finishes_preview, begins_commit, finishes_commit, Call, edits, Rec,
  Store, edited, perform, run, answer-edits, change_lem,
}

module _ (p : Payloads) where
  open p use {Mapping, hash_plan, set_not_durable, replay_kept}

  perform-edit :
      (id : String) (e : Edit p) (s : Store p) {r r' : Rec p}
      → lookup id s ≡ some r
      → edited p e r ≡ ok r'
      → lookup id (perform p (edits id e) s) ≡ some r'
  unfolding perform get
  perform-edit id e s {r} {r'} found m =
      rw (answer-edits p id e s, change_lem)
        (rw (found, get) (rw m (lookup-put id id r' s ∙ rw (eq_refl id))))

  is_staged-append :
      (plan : List Mapping) (action : Mapping) → is_empty p (plan ++ action ∷ []) ≡ false
  is_staged-append [] action = refl
  is_staged-append (a ∷ plan) action = refl

  signature-set_not_durable : (m : Mapping) → signature p (set_not_durable m) ≡ signature p m
  signature-set_not_durable m = ap (mapping_of p) (replay_kept m)

  -- the calls of a commit
  abbrev pub commit_path : String → Mapping → String → Mapping → Mapping → List (Call p)
  commit_path id action fingerprint preview evidence =
      edits id (stages action)
      ∷ edits id (begins_preview fingerprint)
      ∷ edits id (finishes_preview preview)
      ∷ edits id (begins_commit fingerprint)
      ∷ edits id (finishes_commit evidence)
      ∷ []

  -- A new or staged transaction can be committed: stage an action, preview it at the baseline's
  -- fingerprint with a signature of the plan's hash, and finish the commit with evidence of an equal
  -- signature. Its plan is then the old plan and the action.
  pub commit_path_commits :
      (id : String) (action preview evidence : Mapping) (s : Store p) {r : Rec p}
      → lookup id s ≡ some r
      → (r.state ≡ new) ⊎ (r.state ≡ staged)
      → signs p (hash_plan (r.plan ++ action ∷ [])) (signature p preview) ≡ true
      → same_signature p (signature p preview) (signature p evidence) ≡ true
      → (r' : Rec p) × (lookup id
            (run p (commit_path id action r.baseline_fingerprint preview evidence) s)
          ≡ some r')
        × (r'.state ≡ committed)
        × (r'.plan ≡ r.plan ++ action ∷ [])
        × (r'.commit_evidence ≡ some evidence)
  unfolding run edited stage_record begin_preview_record finish_preview_record begin_commit_record
      finish_commit_record
  commit_path_commits id action preview evidence s {r} found st signed same =
      let r1 = staged_with p action r in
      let r2 : Rec p = record r1 { state = previewed } in
      let r3 : Rec p = record r1 { preview_evidence = some (set_not_durable preview) } in
      let r4 : Rec p = record r3 { state = committing } in
      let r5 : Rec p = record r4 { state = committed; commit_evidence = some evidence } in
      let full : is_empty p r1.plan ≡ false = is_staged-append r.plan action in
      let fresh = eq_refl r.baseline_fingerprint in
      let kept : signature p (set_not_durable preview) ≡ signature p preview =
        signature-set_not_durable preview in
      let m1 : edited p (stages action) r ≡ ok r1 = ground arith in
      let m2 : edited p (begins_preview r.baseline_fingerprint) r1 ≡ ok r2 =
        ground (arith, full, fresh) in
      let m3 : edited p (finishes_preview preview) r2 ≡ ok r3 = ground arith in
      let m4 : edited p (begins_commit r.baseline_fingerprint) r3 ≡ ok r4 =
        rw kept (ground (arith, full, fresh, signed)) in
      let m5 : edited p (finishes_commit evidence) r4 ≡ ok r5 = rw kept (ground (arith, same)) in
      let l1 = perform-edit id (stages action) s found m1 in
      let l2 = perform-edit id (begins_preview r.baseline_fingerprint) _ l1 m2 in
      let l3 = perform-edit id (finishes_preview preview) _ l2 m3 in
      let l4 = perform-edit id (begins_commit r.baseline_fingerprint) _ l3 m4 in
      (r5, perform-edit id (finishes_commit evidence) _ l4 m5, refl, refl, refl)
