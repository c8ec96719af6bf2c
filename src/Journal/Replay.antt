-- ===== src/Journal/Replay.antt =====
-- The operations that a log of snapshots leaves (`_load` of app/desktop_nodes/journal.py).
use development_bridge.Prelude.{
  Distinct, pop_absent, not_before, ℕ, suc, ap₂, Option-cases, String, true, Option, some, List, [],
  ◌∷◌, ◌++◌, map, ◌≡◌, refl, sym, ap, subst, ◌∙◌, arith, ◌==◌, eq_iff, inl, inr, Bool-cases, ltb,
  is_some, length, Dict, lookup, put, pop, All, All-append,
}
use mathlib.Core.List.{append-nil, append_assoc}
use development_bridge.Journal.Operations.{
  last, Snapshot, touch, text_at, load_line, load_lines, trim, unindex,
}
use development_bridge.Journal.Ordered.{touch_lem, Distinct-touch, touch-append}

-- a snapshot under its operation id, as a line that `_load` accepts
abbrev pub IsEntry : String × Snapshot → Type 0
IsEntry o = (text_at "operation_id" o.1 ≡ some o.0) × (is_some (text_at "command_id" o.1) ≡ true)

abbrev pub line : String × Snapshot → Option Snapshot
line o = some o.1

abbrev pub replay : Dict Snapshot → List (String × Snapshot) → Dict Snapshot
replay d [] = d
replay d ((id, s) ∷ es) = replay (touch id s d) es

pub replay-append :
    (d : Dict Snapshot) (xs ys : List (String × Snapshot))
    → replay d (xs ++ ys) ≡ replay (replay d xs) ys
replay-append d [] ys = refl
replay-append d ((id, s) ∷ xs) ys = replay-append (touch id s d) xs ys

-- what older lines leave stands before what newer lines leave
pub replay-suffix :
    (p e : Dict Snapshot) (es : List (String × Snapshot))
    → (q : Dict Snapshot) × (replay (p ++ e) es ≡ q ++ replay e es)
replay-suffix p e [] = (p, refl)
replay-suffix p e ((id, s) ∷ es) =
    let r = replay-suffix (pop id p) (touch id s e) es in
    (r.0, ap (λ z. replay z es) (touch-append id s p e) ∙ r.1)

pub Distinct-replay :
    (d : Dict Snapshot) (es : List (String × Snapshot)) → Distinct d → Distinct (replay d es)
Distinct-replay d [] u = u
Distinct-replay d ((id, s) ∷ es) u = Distinct-replay (touch id s d) es (Distinct-touch id s d u)

replay_onto : (p d : Dict Snapshot) → Distinct (p ++ d) → replay p d ≡ p ++ d
replay_onto p [] u = sym (append-nil p)
replay_onto p ((k, v) ∷ d) u =
    ap (λ z. replay z d)
      (touch_lem k v p ∙ ap (λ z. z ++ (k, v) ∷ []) (pop_absent k p (not_before k v p d u)))
    ∙ replay_onto (p ++ (k, v) ∷ []) d (subst Distinct (sym (append_assoc p ((k, v) ∷ []) d)) u)
    ∙ append_assoc p ((k, v) ∷ []) d

-- a log of distinct operations leaves these operations
pub replay_fresh : (d : Dict Snapshot) → Distinct d → replay [] d ≡ d
replay_fresh d u = replay_onto [] d u

All-pop :
    (P : String × Snapshot → Type 0) (id : String) (d : Dict Snapshot) → All P d → All P (pop id d)
All-pop P id [] h = tt
All-pop P id ((k, v) ∷ d) h = elim (Bool-cases (k == id)) [
  | inl t ↦ rw t (All-pop P id d h.1)
  | inr t ↦ rw t (h.0, All-pop P id d h.1)
]

pub All-touch :
    (P : String × Snapshot → Type 0) (id : String) (s : Snapshot) (d : Dict Snapshot)
    → P (id, s)
    → All P d
    → All P (touch id s d)
All-touch P id s d p h =
    subst (All P) (sym (touch_lem id s d))
      (All-append P (pop id d) ((id, s) ∷ []) (All-pop P id d h) (p, tt))

pub All-replay :
    (P : String × Snapshot → Type 0) (d : Dict Snapshot) (es : List (String × Snapshot))
    → All P d
    → All P es
    → All P (replay d es)
All-replay P d [] h k = h
All-replay P d ((id, s) ∷ es) h k = All-replay P (touch id s d) es (All-touch P id s d k.0 h) k.1

pub All-last : {A : Type 0} (P : A → Type 0) (n : ℕ) (xs : List A) → All P xs → All P (last n xs)
All-last P n [] h = tt
All-last P n (x ∷ xs) h = elim (Bool-cases (ltb (length xs) n)) [
  | inl t ↦ rw t h
  | inr t ↦ rw t (All-last P n xs h.1)
]

pub Distinct-last : (n : ℕ) (d : Dict Snapshot) → Distinct d → Distinct (last n d)
Distinct-last n [] u = tt
Distinct-last n ((k, v) ∷ d) u = elim (Bool-cases (ltb (length d) n)) [
  | inl t ↦ rw t u
  | inr t ↦ rw t (Distinct-last n d u.1)
]

pub All-lookup :
    (P : String × Snapshot → Type 0) (id : String) (d : Dict Snapshot) {s : Snapshot}
    → All P d
    → lookup id d ≡ some s
    → P (id, s)
All-lookup P id [] h e = ground arith
All-lookup P id ((k, v) ∷ d) {s} h e = elim (Bool-cases (k == id)) [
  | inl t ↦ subst P (ap₂ (λ x y. (x, y)) ((eq_iff k id).0 t) (ground arith)) h.0
  | inr t ↦ All-lookup P id d h.1 (ground arith)
]

load_line-touch :
    (id : String) (s : Snapshot) (d : Dict Snapshot) (index : Dict String)
    → IsEntry (id, s)
    → (index' : Dict String) × (load_line (some s) (d, index) ≡ (touch id s d, index'))
load_line-touch id s d index h = elim (Option-cases (text_at "command_id" s)) [
  | inl e ↦ absurd (ground (arith, h.1, e))
  | inr (c, e) ↦ (put c id index, rw (h.0, e, load_line) refl)
]

-- `_load` on lines that it accepts
pub load_lines-replay :
    (es : List (String × Snapshot)) (d : Dict Snapshot) (index : Dict String)
    → All IsEntry es
    → (load_lines (map line es) (d, index)).0 ≡ replay d es
load_lines-replay [] d index h = refl
load_lines-replay ((id, s) ∷ es) d index h =
    let (index', e) = load_line-touch id s d index h.0 in
    ap (λ t. (load_lines (map line es) t).0) e ∙ load_lines-replay es (touch id s d) index' h.1

pub length-map : {A B : Type 0} (f : A → B) (xs : List A) → length (map f xs) ≡ length xs
length-map f [] = refl
length-map f (x ∷ xs) = ap suc (length-map f xs)

pub trim-last :
    (n : ℕ) (ops : Dict Snapshot) (index : Dict String) → (trim n ops index).0 ≡ last n ops
trim-last n [] index = refl
trim-last n ((id, s) ∷ ops) index = elim (Bool-cases (ltb (length ops) n)) [
  | inl t ↦ rw t refl
  | inr t ↦ rw t (trim-last n ops (unindex id (text_at "command_id" s) index))
]

pub last-map :
    {A B : Type 0} (f : A → B) (n : ℕ) (xs : List A) → last n (map f xs) ≡ map f (last n xs)
last-map f n [] = refl
last-map f n (x ∷ xs) = ground (arith, last-map f n xs, length-map f xs)
