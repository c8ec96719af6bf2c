-- ===== src/Journal/Log.antt =====
-- How the file and the memory of `OperationJournal` (app/desktop_nodes/journal.py) belong together.
use development_bridge.Prelude.{
  Distinct, pop_absent, ℕ, suc, String, Option, none, some, List, [], ◌∷◌, ◌++◌, map, ◌≡◌, refl,
  sym, ap, subst, ◌∙◌, arith, inl, inr, Bool-cases, Option-cases, ltb, is_some, Dict, lookup, put,
  All, All-append,
}
use mathlib.Core.List.{map-append}
use development_bridge.Journal.Operations.{
  last, slice_last, Snapshot, touch, text_at, text_of, trim, JournalFile, Journal, merge,
  trim_memory, append, create, update, load, open_journal, indexed,
}
use development_bridge.Journal.Ordered.{lookup-merge, touch_again, Distinct-touch, last-touch}
use development_bridge.Journal.Replay.{
  IsEntry, line, replay, replay-append, Distinct-replay, replay_fresh, All-touch, All-replay,
  All-last, Distinct-last, All-lookup, trim-last,
}
use development_bridge.Journal.Calls.{JournalCall, creates, updates, KeepsIds, perform, run}

abbrev pub lines_of : JournalFile → List (Option Snapshot)
lines_of none = []
lines_of (some lines) = lines

-- The file is a log, and the operations in memory are the last ones that it leaves.
pub record Logged (n : ℕ) (j : Journal) : Type 0 where
  pub limit : j.history_limit ≡ suc n
  pub content : JournalFile
  pub entries : List (String × Snapshot)
  pub file : j.file ≡ some content
  pub lines : lines_of content ≡ map line entries
  pub valid : All IsEntry entries
  pub kept : j.operations ≡ last (suc n) (replay [] entries)

pub Logged-Distinct : (n : ℕ) (j : Journal) → Logged n j → Distinct j.operations
Logged-Distinct n j g =
    subst Distinct (sym g.kept) (Distinct-last (suc n) _ (Distinct-replay [] g.entries tt))

Logged-IsEntry : (n : ℕ) (j : Journal) → Logged n j → All IsEntry j.operations
Logged-IsEntry n j g =
    subst (All IsEntry) (sym g.kept)
      (All-last IsEntry (suc n) _ (All-replay IsEntry [] g.entries tt g.valid))

-- the operations left by the log with one more line
after_line :
    (n : ℕ) (es : List (String × Snapshot)) (id : String) (s : Snapshot)
    → last (suc n) (touch id s (last (suc n) (replay [] es)))
      ≡ last (suc n) (replay [] (es ++ (id, s) ∷ []))
after_line n es id s =
    last-touch (suc n) id s (replay [] es) (Distinct-replay [] es tt)
    ∙ ap (λ z. last (suc n) z) (sym (replay-append [] es ((id, s) ∷ [])))

-- the same where the file was rotated before
after_rotation :
    (n : ℕ) (ops : Dict Snapshot) (id : String) (s : Snapshot)
    → Distinct ops
    → last (suc n) (touch id s ops)
      ≡ last (suc n) (replay [] (last (suc n) (touch id s ops) ++ (id, s) ∷ []))
after_rotation n ops id s u = sym (
    ap (λ z. last (suc n) z) (replay-append [] (last (suc n) (touch id s ops)) ((id, s) ∷ []))
    ∙ ap (λ z. last (suc n) (touch id s z))
        (replay_fresh (last (suc n) (touch id s ops))
          (Distinct-last (suc n) (touch id s ops) moved))
    ∙ last-touch (suc n) id s (touch id s ops) moved
    ∙ ap (λ z. last (suc n) z) (touch_again id s ops))
  where
    moved : Distinct (touch id s ops)
    moved = Distinct-touch id s ops u

module _ (size : List (Option Snapshot) → ℕ) where
  -- the file after `_append`, beside operations that end in the new snapshot
  stored-Logged :
      (n : ℕ) (j : Journal) (id : String) (s : Snapshot) (index : Dict String)
      → IsEntry (id, s)
      → Logged n j
      → Logged n (
          trim_memory (
            append size s
              (record j { operations = touch id s j.operations; command_index = index })))
  unfolding trim_memory append
  stored-Logged n j id s index v g = elim (Option-cases g.content) [
    | inl e ↦
        rw (g.file ∙ ap some e, append)
          (record {
            limit = g.limit;
            content = some (some s ∷ []);
            entries = g.entries ++ (id, s) ∷ [];
            file = refl;
            lines =
                ap (λ z. z ++ some s ∷ []) (ap lines_of (sym e) ∙ g.lines)
                ∙ sym (map-append line g.entries ((id, s) ∷ []));
            valid = All-append IsEntry g.entries _ g.valid (v, tt);
            kept = kept_on;
          })
    | inr (ls, e) ↦ elim (Bool-cases (ltb (size ls) j.max_bytes)) [
      | inl t ↦
          rw (g.file ∙ ap some e, t, append)
            (record {
              limit = g.limit;
              content = some (ls ++ some s ∷ []);
              entries = g.entries ++ (id, s) ∷ [];
              file = refl;
              lines =
                  ap (λ z. z ++ some s ∷ []) (ap lines_of (sym e) ∙ g.lines)
                  ∙ sym (map-append line g.entries ((id, s) ∷ []));
              valid = All-append IsEntry g.entries _ g.valid (v, tt);
              kept = kept_on;
            })
      | inr t ↦
          rw (g.file ∙ ap some e, t, append)
            (record {
              limit = g.limit;
              content = some (map line (slice_last j.history_limit moved) ++ some s ∷ []);
              entries = last (suc n) moved ++ (id, s) ∷ [];
              file = refl;
              lines =
                  ap (λ k. map line (slice_last k moved) ++ some s ∷ []) g.limit
                  ∙ sym (map-append line (last (suc n) moved) ((id, s) ∷ []));
              valid =
                  All-append IsEntry (last (suc n) moved) _
                    (All-last IsEntry (suc n) moved
                      (All-touch IsEntry id s j.operations v (Logged-IsEntry n j g)))
                    (v, tt);
              kept = trimmed ∙ after_rotation n j.operations id s (Logged-Distinct n j g);
            })
    ]
  ]
    where
      moved : Dict Snapshot
      moved = touch id s j.operations

      trimmed : (trim j.history_limit moved index).0 ≡ last (suc n) moved
      trimmed = trim-last j.history_limit moved index ∙ ap (λ k. last k moved) g.limit

      kept_on :
          (trim j.history_limit moved index).0
          ≡ last (suc n) (replay [] (g.entries ++ (id, s) ∷ []))
      kept_on = trimmed ∙ ap (λ z. last (suc n) (touch id s z)) g.kept ∙ after_line n g.entries id s

  creates-Logged :
      (n : ℕ) (s : Snapshot) (j : Journal)
      → KeepsIds (creates s)
      → Logged n j
      → Logged n (perform size (creates s) j)
  unfolding perform create
  creates-Logged n s j k g = elim (Option-cases (text_at "operation_id" s)) [
    | inl e ↦ rw (e, perform, create) g
    | inr (id, e) ↦ elim (Option-cases (lookup id j.operations)) [
      | inr (old, m) ↦ rw (e, m, perform, create) g
      | inl m ↦ elim (Option-cases (text_at "command_id" s)) [
        | inl f ↦ absurd (ground (arith, k, f))
        | inr (c, f) ↦
            rw (e, m, f, perform, create)
              (subst
                (λ ops. Logged n (
                  trim_memory (
                    append size s
                      (record j { operations = ops; command_index = put c id j.command_index }))))
                (ap (λ z. put id s z) (pop_absent id j.operations m))
                (stored-Logged n j id s (put c id j.command_index) (e, k) g))
      ]
    ]
  ]

  updates-Logged :
      (n : ℕ) (id : String) (u : Snapshot) (j : Journal)
      → KeepsIds (updates id u)
      → Logged n j
      → Logged n (perform size (updates id u) j)
  unfolding perform update
  updates-Logged n id u j k g = elim (Option-cases (lookup id j.operations)) [
    | inl m ↦ rw (m, perform, update) g
    | inr (old, m) ↦
        let v = All-lookup IsEntry id j.operations (Logged-IsEntry n j g) m in
        rw (m, perform, update)
          (stored-Logged n j id (merge old u)
            (indexed (text_at "command_id" (merge old u)) id j.command_index)
            (
              ap text_of (lookup-merge "operation_id" old u k.0) ∙ v.0,
              ap (λ z. is_some (text_of z)) (lookup-merge "command_id" old u k.1) ∙ v.1,
            )
            g)
  ]

  pub run-Logged :
      (n : ℕ) (cs : List JournalCall) (j : Journal)
      → All KeepsIds cs
      → Logged n j
      → Logged n (run size cs j)
  unfolding run
  run-Logged n [] j k g = g
  run-Logged n (creates s ∷ cs) j k g =
      run-Logged n cs (perform size (creates s) j) k.1 (creates-Logged n s j k.0 g)
  run-Logged n (updates id u ∷ cs) j k g =
      run-Logged n cs (perform size (updates id u) j) k.1 (updates-Logged n id u j k.0 g)

  pub opened-Logged : (n max_bytes : ℕ) → Logged n (open_journal (some none) (suc n) max_bytes)
  unfolding open_journal load
  opened-Logged n max_bytes = record {
    limit = refl;
    content = none;
    entries = [];
    file = refl;
    lines = refl;
    valid = tt;
    kept = refl;
  }
