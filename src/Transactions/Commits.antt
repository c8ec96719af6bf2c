-- ===== src/Transactions/Commits.antt =====
-- When `begin_commit` of `TransactionStore` may reserve a commit.
use development_bridge.Prelude.{
  String, Bool, true, false, none, some, List, ◌≡◌, ◌≢◌, ◌∙◌, arith, eq_iff, eq_refl, lookup, all,
  lookup-put, ◌⊎◌, inl, inr, refl, Bool-cases, is_some, [], put, ap, sym, subst,
}
use development_bridge.Errors.{ok, err, raised, transaction_conflict}
use development_bridge.Transactions.{
  Payloads, TransactionState, new, committing, committed, stage_record, begin_preview_record,
  finish_preview_record, begin_commit_record, release_record, finish_commit_record, rollback_record,
  begin_preview, begin_commit, stage, get, begin, save,
}
use development_bridge.Transactions.Calls.{
  Edit, stages, begins_preview, finishes_preview, begins_commit, releases, finishes_commit,
  rolls_back, Call, Rec, Store, edited, run, answer, answer-edits_ok, change_lem,
}
use development_bridge.Transactions.Lifecycle.{spares, run-keeps, run-SameBaseline}

module _ (p : Payloads) where
  open p use {Mapping}

  -- `begin_commit` on a record that is there raises what its checks raise
  refused :
      (id fingerprint : String) (s : Store p) {r : Rec p}
      → lookup id s ≡ some r
      → begin_commit_record p fingerprint r ≡ err (raised transaction_conflict)
      → begin_commit p id fingerprint s ≡ err (raised transaction_conflict)
  unfolding begin_commit get
  refused id fingerprint s {r} found m =
      change_lem p (begin_commit_record p fingerprint) id s ∙ rw (found, get) (rw m)

  -- a commit is reserved or done
  abbrev is_taken : TransactionState → Bool
  is_taken committing = true
  is_taken committed = true
  is_taken _ = false

  abbrev pub is_release : Edit p → Bool
  is_release releases = true
  is_release _ = false

  taken-edited :
      (e : Edit p) (r r' : Rec p)
      → is_release e ≡ false
      → is_taken r.state ≡ true
      → edited p e r ≡ ok r'
      → is_taken r'.state ≡ true
  unfolding edited stage_record begin_preview_record finish_preview_record begin_commit_record
      release_record finish_commit_record rollback_record
  taken-edited (stages action) r r' n t m = ground arith
  taken-edited (begins_preview fingerprint) r r' n t m = ground arith
  taken-edited (finishes_preview preview) r r' n t m = ground arith
  taken-edited (begins_commit fingerprint) r r' n t m = ground arith
  taken-edited releases r r' n t m = cc
  taken-edited (finishes_commit evidence) r r' n t m = ground arith
  taken-edited rolls_back r r' n t m = ground arith

  taken_refused :
      (fingerprint : String) (r : Rec p)
      → is_taken r.state ≡ true
      → begin_commit_record p fingerprint r ≡ err (raised transaction_conflict)
  unfolding begin_commit_record
  taken_refused fingerprint r t = ground arith

  reserved :
      (id fingerprint : String) (s : Store p) {r' : Rec p} {s' : Store p}
      → begin_commit p id fingerprint s ≡ ok (r', s')
      → (lookup id s' ≡ some r') × (is_taken r'.state ≡ true)
  unfolding answer edited begin_commit_record
  reserved id fingerprint s {r'} {s'} m =
      let (r, found, done, there) = answer-edits_ok p id (begins_commit fingerprint) s m in
      (rw there (lookup-put id id r' s ∙ rw (eq_refl id)), ground arith)

  -- A commit is reserved once: after `begin_commit` has succeeded, it raises TRANSACTION_CONFLICT for
  -- the same transaction after any calls among which none releases the reservation.
  pub reserved_once :
      (id fingerprint later : String) (cs : List (Call p)) (s : Store p) {r' : Rec p} {s' : Store p}
      → begin_commit p id fingerprint s ≡ ok (r', s')
      → all (spares p is_release id) cs ≡ true
      → begin_commit p id later (run p cs s') ≡ err (raised transaction_conflict)
  reserved_once id fingerprint later cs s {r'} {s'} m free =
      let (there, taken) = reserved id fingerprint s m in
      let (x, found, t) =
        run-keeps p (λ y. is_taken y.state ≡ true) is_release taken-edited cs id s' {r = r'} free
          there taken in
      refused id later (run p cs s') {r = x} found (taken_refused later x t)

  abbrev pub is_preview_result : Edit p → Bool
  is_preview_result (finishes_preview preview) = true
  is_preview_result _ = false

  unpreviewed-edited :
      (e : Edit p) (r r' : Rec p)
      → is_preview_result e ≡ false
      → r.preview_evidence ≡ none
      → edited p e r ≡ ok r'
      → r'.preview_evidence ≡ none
  unfolding edited stage_record begin_preview_record finish_preview_record begin_commit_record
      release_record finish_commit_record rollback_record
  unpreviewed-edited (stages action) r r' n t m = ground arith
  unpreviewed-edited (begins_preview fingerprint) r r' n t m = ground arith
  unpreviewed-edited (finishes_preview preview) r r' n t m = cc
  unpreviewed-edited (begins_commit fingerprint) r r' n t m = ground arith
  unpreviewed-edited releases r r' n t m = ground arith
  unpreviewed-edited (finishes_commit evidence) r r' n t m = ground arith
  unpreviewed-edited rolls_back r r' n t m = ground arith

  unpreviewed_refused :
      (fingerprint : String) (r : Rec p)
      → r.preview_evidence ≡ none
      → begin_commit_record p fingerprint r ≡ err (raised transaction_conflict)
  unfolding begin_commit_record
  unpreviewed_refused fingerprint r t = ground arith

  -- Staging an action voids the preview: after `stage` has succeeded, `begin_commit` raises
  -- TRANSACTION_CONFLICT after any calls among which none finishes a preview of the transaction.
  pub stage_voids_preview :
      (id fingerprint : String) (action : Mapping) (cs : List (Call p)) (s : Store p) {r' : Rec p}
      {s' : Store p}
      → stage p id action s ≡ ok (r', s')
      → all (spares p is_preview_result id) cs ≡ true
      → begin_commit p id fingerprint (run p cs s') ≡ err (raised transaction_conflict)
  unfolding answer edited stage_record
  stage_voids_preview id fingerprint action cs s {r'} {s'} m free =
      let (r, was, done, there) = answer-edits_ok p id (stages action) s m in
      let found : lookup id s' ≡ some r' = rw there (lookup-put id id r' s ∙ rw (eq_refl id)) in
      let (x, later, t) =
        run-keeps p (λ y. y.preview_evidence ≡ none) is_preview_result unpreviewed-edited cs id s'
          {r = r'} free found (ground arith) in
      refused id fingerprint (run p cs s') {r = x} later (unpreviewed_refused fingerprint x t)

  -- `begin_preview` and `begin_commit` let a record pass only with the fingerprint of its baseline
  passes_fresh :
      (fingerprint : String) (r r' : Rec p)
      → (begin_preview_record p fingerprint r ≡ ok r')
        ⊎ (begin_commit_record p fingerprint r ≡ ok r')
      → fingerprint ≡ r.baseline_fingerprint
  unfolding begin_preview_record begin_commit_record
  passes_fresh fingerprint r r' (inl m) = ground (arith, eq_iff fingerprint r.baseline_fingerprint)
  passes_fresh fingerprint r r' (inr m) = ground (arith, eq_iff fingerprint r.baseline_fingerprint)

  begun :
      (id document revision fingerprint : String) (snapshot : Mapping) (s : Store p) {r : Rec p}
      {s' : Store p}
      → begin p id document revision fingerprint snapshot s ≡ ok (r, s')
      → (lookup id s' ≡ some r) × (r.baseline_fingerprint ≡ fingerprint)
  unfolding begin save get
  begun id document revision fingerprint snapshot s {r} {s'} m =
      let r0 : Rec p = record {
        transaction_id = id;
        document_ref = document;
        baseline_revision = revision;
        baseline_fingerprint = fingerprint;
        baseline_snapshot = snapshot;
        state = new;
        plan = [];
        plan_hash = "";
        preview_evidence = none;
        commit_evidence = none;
      } in
      let there : lookup id (put id r0 s) ≡ some r0 =
        lookup-put id id r0 s ∙ rw (eq_refl id) refl in
      elim (Bool-cases (is_some (lookup id s))) [
        | inl t ↦ absurd (ground (arith, m, t))
        | inr t ↦
            let made : begin p id document revision fingerprint snapshot s ≡ ok (r0, put id r0 s) =
              rw (t, there, begin, save, get) refl in
            let same : ok (r0, put id r0 s) ≡ ok (r, s') = sym made ∙ m in
            let first : r0 ≡ r = ground (arith, same) in
            let second : put id r0 s ≡ s' = ground (arith, same) in
            (
              subst (λ x. lookup id x ≡ some r) second (there ∙ ap (λ x. some x) first),
              ap (λ (x : Rec p). x.baseline_fingerprint) (sym first),
            )
      ]

  -- A transaction is previewed and committed against the document that it began with only: after `begin`
  -- has succeeded with a fingerprint, and after any calls whatever, neither `begin_preview` nor
  -- `begin_commit` of the transaction succeeds with another fingerprint.
  pub never_stale :
      (id document revision fingerprint other : String) (snapshot : Mapping) (cs : List (Call p))
      (s : Store p) {r : Rec p} {s' : Store p}
      → begin p id document revision fingerprint snapshot s ≡ ok (r, s')
      → other ≢ fingerprint
      → (a : Rec p × Store p)
      → (begin_preview p id other (run p cs s') ≢ ok a)
        × (begin_commit p id other (run p cs s') ≢ ok a)
  unfolding answer edited
  never_stale id document revision fingerprint other snapshot cs s {r} {s'} m stale (x, t) =
      let (there, baseline) = begun id document revision fingerprint snapshot s m in
      let (r', found, same) = run-SameBaseline p cs id s' {r = r} there in
      let kept : r'.baseline_fingerprint ≡ fingerprint = same.baseline_fingerprint ∙ baseline in
      (
        λ k.
            let (y, was, done, after) =
              answer-edits_ok p id (begins_preview other) (run p cs s') k in
            let alike : y ≡ r' = ground (arith, was, found) in
            stale (
              passes_fresh other y x (inl done)
              ∙ ap (λ (z : Rec p). z.baseline_fingerprint) alike
              ∙ kept),
        λ k.
            let (y, was, done, after) =
              answer-edits_ok p id (begins_commit other) (run p cs s') k in
            let alike : y ≡ r' = ground (arith, was, found) in
            stale (
              passes_fresh other y x (inr done)
              ∙ ap (λ (z : Rec p). z.baseline_fingerprint) alike
              ∙ kept),
      )
