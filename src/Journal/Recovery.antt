-- ===== src/Journal/Recovery.antt =====
-- What a restart recovers from the file of `OperationJournal` (app/desktop_nodes/journal.py).
use development_bridge.Prelude.{
  ℕ, suc, max, ◌*◌, ◌≤◌, String, Bool, true, false, ◌||◌, ◌==◌, eq_iff, any, arith, is_some,
  if◌then◌else◌, lookup, lookup-put, lookup-pop, pop, Distinct, length-append, Option, none, some,
  List, [], ◌∷◌, ◌++◌, map, ◌≡◌, refl, sym, ap, subst, ◌∙◌, inl, inr, Bool-cases, Option-cases,
  length, ltb, Dict, All,
}
use mathlib.Core.List.{append-nil}
use development_bridge.Journal.Operations.{
  last, Snapshot, load_lines, JournalFile, Journal, trim_memory, load, open_journal, get, has_text,
  touch,
}
use development_bridge.Journal.Ordered.{last-suffix, last_whole, last_drops, length-last}
use development_bridge.Journal.Replay.{
  IsEntry, line, replay, replay-append, replay-suffix, All-last, Distinct-last, Distinct-replay,
  load_lines-replay, trim-last, last-map, length-map,
}
use development_bridge.Journal.Calls.{JournalCall, KeepsIds, run}
use development_bridge.Journal.Log.{Logged, lines_of, run-Logged, opened-Logged}

-- the number of lines that `_load` reads
abbrev pub window : ℕ → ℕ
window n = max (n * 4) 100

no_entries : (es : List (String × Snapshot)) → [] ≡ map line es → es ≡ []
no_entries [] e = refl
no_entries (o ∷ es) e = cc

-- the operations that a restart has, by the log
reopened :
    (n max_bytes : ℕ) (j : Journal) (g : Logged n j)
    → (open_journal j.file (suc n) max_bytes).operations
      ≡ last (suc n) (replay [] (last (window (suc n)) g.entries))
unfolding open_journal load trim_memory
reopened n max_bytes j g = elim (Option-cases g.content) [
  | inl e ↦
      rw (g.file ∙ ap some e, open_journal, load, trim_memory)
        (sym (
          ap (λ es. last (suc n) (replay [] (last (window (suc n)) es)))
            (no_entries g.entries (ap lines_of (sym e) ∙ g.lines))))
  | inr (ls, e) ↦
      rw (g.file ∙ ap some e, open_journal, load, trim_memory)
        (trim-last (suc n) _ _
          ∙ ap (λ z. last (suc n) z)
              (ap (λ z. (load_lines z ([], [])).0)
                  (ap (λ z. last (window (suc n)) z) (ap lines_of (sym e) ∙ g.lines)
                    ∙ last-map line (window (suc n)) g.entries)
                ∙ load_lines-replay (last (window (suc n)) g.entries) [] []
                    (All-last IsEntry (window (suc n)) g.entries g.valid)))
]

split_last : {A : Type 0} (n : ℕ) (xs : List A) → (older : List A) × (xs ≡ older ++ last n xs)
split_last n [] = ([], refl)
split_last n (x ∷ xs) = elim (Bool-cases (ltb (length xs) n)) [
  | inl t ↦ ([], rw t refl)
  | inr t ↦ let r = split_last n xs in (x ∷ r.0, rw t (ap (λ z. x ∷ z) r.1))
]

-- all the lines of a log leave something before what the newer lines leave
newer_lines :
    (m : ℕ) (es : List (String × Snapshot))
    → (q : Dict Snapshot) × (replay [] es ≡ q ++ replay [] (last m es))
newer_lines m es =
    let (before, e) = split_last m es in
    let (q, f) = replay-suffix (replay [] before) [] (last m es) in
    (
      q,
      ap (λ z. replay [] z) e
          ∙ replay-append [] before (last m es)
          ∙ ap (λ z. replay z (last m es)) (sym (append-nil (replay [] before)))
          ∙ f,
    )

-- what the newer lines of a log leave ends what all of them leave
newer :
    (n m : ℕ) (es : List (String × Snapshot))
    → (older : Dict Snapshot) × (last n (replay [] es) ≡ older ++ last n (replay [] (last m es)))
newer n m es =
    let (q, f) = newer_lines m es in
    let (older, h) = last-suffix n q (replay [] (last m es)) in (older, ap (λ z. last n z) f ∙ h)

-- the line names the operation
abbrev pub is_about : String → Option Snapshot → Bool
is_about id none = false
is_about id (some s) = has_text "operation_id" id s

lookup-replay :
    (id : String) (es : List (String × Snapshot)) (d : Dict Snapshot)
    → is_some (lookup id d) ≡ true
    → is_some (lookup id (replay d es)) ≡ true
lookup-replay id [] d h = h
lookup-replay id ((k, s) ∷ es) d h = lookup-replay id es (touch k s d) (
    ap is_some
      (lookup-put k id s (pop k d) ∙ ap (λ z. if k == id then some s else z) (lookup-pop k id d))
    ∙ ground (arith, h))

-- the operation of a line of the log is left by it
found-replay :
    (id : String) (es : List (String × Snapshot)) (d : Dict Snapshot)
    → All IsEntry es
    → any (is_about id) (map line es) ≡ true
    → is_some (lookup id (replay d es)) ≡ true
found-replay id [] d v h = ground arith
found-replay id ((k, s) ∷ es) d v h = elim (Bool-cases (k == id)) [
  | inl t ↦ lookup-replay id es (touch k s d) (ap is_some (lookup-put k id s (pop k d)) ∙ rw t refl)
  | inr t ↦ found-replay id es (touch k s d) v.1 (
      subst
        (λ o.
          ((elim o [ none ↦ false | some u ↦ u == id ]) || any (is_about id) (map line es)) ≡ true
          → (k == id) ≡ false
          → any (is_about id) (map line es) ≡ true)
        (sym v.0.0) (λ z f. ground (arith, z, f)) h t)
]

-- a newer part of a dict answers for its keys
lookup_newer :
    (id : String) (older d : Dict Snapshot)
    → Distinct (older ++ d)
    → is_some (lookup id d) ≡ true
    → lookup id d ≡ lookup id (older ++ d)
lookup_newer id [] d u h = refl
lookup_newer id ((k, s) ∷ older) d u h = elim (Bool-cases (k == id)) [
  | inl t ↦ absurd (
      ground (
        arith,
        h,
        sym (
            lookup_newer k older d u.1
              (subst (λ x. is_some (lookup x d) ≡ true) (sym ((eq_iff k id).0 t)) h)),
        u.0,
        (eq_iff k id).0 t,
      ))
  | inr t ↦ rw t (lookup_newer id older d u.1 h)
]

-- a suffix as long as what is kept is all that is kept
last_long : {A : Type 0} (n : ℕ) (q e : List A) → n ≤ length e → last n (q ++ e) ≡ last n e
last_long n [] e h = refl
last_long n (x ∷ q) e h =
    last_drops n x (q ++ e) (ground (arith, length-append q e)) ∙ last_long n q e h

-- an operation that the newer lines name is left by them as all of the lines leave it
newer_found :
    (n m : ℕ) (es : List (String × Snapshot)) (id : String)
    → All IsEntry es
    → any (is_about id) (map line (last m es)) ≡ true
    → lookup id (last n (replay [] (last m es))) ≡ lookup id (last n (replay [] es))
newer_found n m es id v h =
    let es' = last m es in
    let left = replay [] es' in
    let (q, f) = newer_lines m es in
    elim (Bool-cases (ltb (length left) n)) [
      | inr t ↦
          ap (λ z. lookup id z)
            (sym (ap (λ z. last n z) f ∙ last_long n q left (ground (arith, t))))
      | inl t ↦
          let (older, k) = newer n m es in
          let whole : last n left ≡ left = last_whole n left (ground (arith, t)) in
          let all_of : last n (replay [] es) ≡ older ++ left = k ∙ ap (λ z. older ++ z) whole in
          ap (λ z. lookup id z) whole
          ∙ lookup_newer id older left
              (subst Distinct all_of (Distinct-last n (replay [] es) (Distinct-replay [] es tt)))
              (found-replay id es' [] (All-last IsEntry m es v) h)
          ∙ ap (λ z. lookup id z) (sym all_of)
    ]

module _ (size : List (Option Snapshot) → ℕ) where
  -- A journal that was opened without a file, with a history limit that is not 0, and then called
  -- in any way that gives each new operation a text as its command id and lets no update change the
  -- two ids: it holds at most as many operations as its limit; opening its file again gives its
  -- operations with the same snapshots in the same order, less some of the oldest; and for every
  -- operation that is named by one of the lines that `_load` reads, which are the last of the file, four times
  -- the limit and at least 100, `get` answers after the opening as before it.
  pub recovers :
      (limit max_bytes : ℕ) (cs : List JournalCall) {content : JournalFile} (id : String)
      → All KeepsIds cs
      → let j = run size cs (open_journal (some none) (suc limit) max_bytes) in
        j.file ≡ some content
        → any (is_about id) (last (window (suc limit)) (lines_of content)) ≡ true
        → let again = open_journal j.file (suc limit) max_bytes in
          (length j.operations ≤ suc limit)
          × ((older : Dict Snapshot) × (j.operations ≡ older ++ again.operations))
          × (get id again ≡ get id j)
  unfolding get
  recovers limit max_bytes cs {content} id k f h =
      let g = run-Logged size limit cs _ k (opened-Logged size limit max_bytes) in
      let (older, e) = newer (suc limit) (window (suc limit)) g.entries in
      let same : lines_of content ≡ map line g.entries =
        ap lines_of (ap (λ o. elim o [ none ↦ content | some x ↦ x ]) (sym f ∙ g.file)) ∙ g.lines in
      (
        subst (λ ops. length ops ≤ suc limit) (sym g.kept)
            (length-last (suc limit) (replay [] g.entries)),
        (older, g.kept ∙ e ∙ ap (λ z. older ++ z) (sym (reopened limit max_bytes _ g))),
        ap (λ z. lookup id z) (reopened limit max_bytes _ g)
            ∙ newer_found (suc limit) (window (suc limit)) g.entries id g.valid (
                subst (λ ls. any (is_about id) ls ≡ true)
                  (ap (λ z. last (window (suc limit)) z) same
                    ∙ last-map line (window (suc limit)) g.entries)
                  h)
            ∙ ap (λ z. lookup id z) (sym g.kept),
      )

  -- A journal that was opened without a file, with a history limit that is not 0, and then called
  -- in any way that gives each new operation a text as its command id and lets no update change the
  -- two ids: where its file has no more lines than `_load` reads, which are four times the limit
  -- and at least 100, opening it again gives all its operations.
  pub recovers_whole :
      (limit max_bytes : ℕ) (cs : List JournalCall) {content : JournalFile}
      → All KeepsIds cs
      → let j = run size cs (open_journal (some none) (suc limit) max_bytes) in
        j.file ≡ some content
        → length (lines_of content) ≤ window (suc limit)
        → (open_journal j.file (suc limit) max_bytes).operations ≡ j.operations
  recovers_whole limit max_bytes cs {content} k f h =
      let g = run-Logged size limit cs _ k (opened-Logged size limit max_bytes) in
      reopened limit max_bytes _ g
      ∙ ap (λ z. last (suc limit) (replay [] z))
          (last_whole (window (suc limit)) g.entries (
            subst (λ m. m ≤ window (suc limit))
              (ap (λ z. length (lines_of z))
                  (ap (λ o. elim o [ none ↦ content | some x ↦ x ]) (sym f ∙ g.file))
                ∙ ap length g.lines
                ∙ length-map line g.entries)
              h))
      ∙ sym g.kept
