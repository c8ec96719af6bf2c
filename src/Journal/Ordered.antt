-- ===== src/Journal/Ordered.antt =====
-- Dicts with distinct keys, and how the last entries of one change as an entry moves to the end.
use development_bridge.Prelude.{
  Distinct, pop_absent, put_absent, pop-append, pop_gone, length-pop, Distinct-pop, Distinct-append,
  ℕ, ◌≤◌, String, List, [], ◌∷◌, ◌++◌, ◌≡◌, refl, sym, ap, subst, ◌∙◌, arith, ◌==◌, eq_refl, inl,
  inr, Bool-cases, ltb, length, length-append, Dict, pop, lookup, put, lookup-put, none,
}
use mathlib.Core.List.{append-nil, append_assoc}
use development_bridge.Journal.Operations.{last, Snapshot, touch, merge}

-- touch moves or adds the entry at the end
pub touch_lem :
    (id : String) (s : Snapshot) (d : Dict Snapshot) → touch id s d ≡ pop id d ++ (id, s) ∷ []
touch_lem id s d = put_absent id s (pop id d) (pop_gone id d)

pub Distinct-touch :
    (id : String) (s : Snapshot) (d : Dict Snapshot) → Distinct d → Distinct (touch id s d)
Distinct-touch id s d u =
    subst Distinct (sym (touch_lem id s d))
      (Distinct-append (pop id d) id s (Distinct-pop id d u) (pop_gone id d))

pub touch_again :
    (id : String) (s : Snapshot) (d : Dict Snapshot) → touch id s (touch id s d) ≡ touch id s d
touch_again id s d =
    ap (λ z. touch id s z) (touch_lem id s d)
    ∙ touch_lem id s (pop id d ++ (id, s) ∷ [])
    ∙ ap (λ z. z ++ (id, s) ∷ [])
        (pop-append id (pop id d) ((id, s) ∷ [])
          ∙ rw (eq_refl id) (append-nil _)
          ∙ pop_absent id (pop id d) (pop_gone id d))
    ∙ sym (touch_lem id s d)

pub touch-append :
    (id : String) (s : Snapshot) (d e : Dict Snapshot)
    → touch id s (d ++ e) ≡ pop id d ++ touch id s e
touch-append id s d e =
    touch_lem id s (d ++ e)
    ∙ ap (λ z. z ++ (id, s) ∷ []) (pop-append id d e)
    ∙ append_assoc (pop id d) (pop id e) _
    ∙ ap (λ z. pop id d ++ z) (sym (touch_lem id s e))

-- a list that fits is kept whole, a longer suffix is kept alone
pub last_whole : {A : Type 0} (n : ℕ) (xs : List A) → length xs ≤ n → last n xs ≡ xs
last_whole n [] h = refl
last_whole n (x ∷ xs) h = ground (arith)

pub last_drops :
    {A : Type 0} (n : ℕ) (x : A) (xs : List A) → n ≤ length xs → last n (x ∷ xs) ≡ last n xs
last_drops n x xs h = ground arith

pub length-last : {A : Type 0} (n : ℕ) (xs : List A) → length (last n xs) ≤ n
length-last n [] = omega arith
length-last n (x ∷ xs) = ground (arith, length-last n xs)

-- What falls out at the front before an entry moves to the end would fall out after it too.
last-pop_append :
    (n : ℕ) (id : String) (e : String × Snapshot) (d : Dict Snapshot)
    → Distinct d
    → last n (pop id (last n d) ++ e ∷ []) ≡ last n (pop id d ++ e ∷ [])
last-pop_append n id e [] u = refl
last-pop_append n id e ((k, s) ∷ d) u = elim (Bool-cases (ltb (length d) n)) [
  | inl t ↦ rw t refl
  | inr t ↦ elim (Bool-cases (k == id)) [
    | inl m ↦ rw (t, m) (last-pop_append n id e d u.1)
    | inr m ↦
        rw (t, m)
          (last-pop_append n id e d u.1
            ∙ sym (
                last_drops n (k, s) (pop id d ++ e ∷ [])
                  (ground (arith, length-append (pop id d) (e ∷ []), length-pop id d u.1))))
  ]
]

pub last-touch :
    (n : ℕ) (id : String) (s : Snapshot) (d : Dict Snapshot)
    → Distinct d
    → last n (touch id s (last n d)) ≡ last n (touch id s d)
last-touch n id s d u =
    ap (λ z. last n z) (touch_lem id s (last n d))
    ∙ last-pop_append n id (id, s) d u
    ∙ ap (λ z. last n z) (sym (touch_lem id s d))

-- a suffix of a list ends in what is kept of the suffix
pub last-suffix :
    {A : Type 0} (n : ℕ) (p e : List A) → (q : List A) × (last n (p ++ e) ≡ q ++ last n e)
last-suffix n [] e = ([], refl)
last-suffix n (x ∷ p) e = elim (Bool-cases (ltb (length (p ++ e)) n)) [
  | inl t ↦ (
    x ∷ p,
    rw t (ap (λ z. x ∷ (p ++ z)) (sym (last_whole n e (ground (arith, length-append p e))))),
  )
  | inr t ↦ let r = last-suffix n p e in (r.0, rw t r.1)
]

-- an update leaves the other keys alone
pub lookup-merge :
    (k : String) (s u : Snapshot) → lookup k u ≡ none → lookup k (merge s u) ≡ lookup k s
lookup-merge k s [] h = refl
lookup-merge k s ((j, v) ∷ u) h =
    lookup-merge k (put j v s) u (ground (arith, h)) ∙ lookup-put j k v s ∙ ground (arith, h)
