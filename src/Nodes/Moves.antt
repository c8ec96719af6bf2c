-- ===== src/Nodes/Moves.antt =====
-- What one call of `DesktopNodeService` (app/desktop_nodes/service.py) may do to the nodes.
use development_bridge.Prelude.{
  ℕ, suc, ◌+◌, ◌≤◌, String, true, Option, none, some, List, [], ◌∷◌, ◌++◌, ◌≡◌, refl, ap, arith,
  ◌==◌, inl, inr, ◌⊎◌, Bool-cases, if◌then◌else◌, is_some, length, Dict, lookup, put, pop,
}
use development_bridge.Nodes.Models.{Command, Node}
use development_bridge.Nodes.Queue.{next_command, remove_first}

-- 1 if the id is `c`
abbrev pub hit : String → Option String → ℕ
hit c none = 0
hit c (some x) = if x == c then 1 else 0

-- how often `c` is queued
abbrev pub count : String → List String → ℕ
count c [] = 0
count c (x ∷ q) = hit c (some x) + count c q

-- how often `c` is queued at all nodes
abbrev pub total : String → Dict Node → ℕ
total c [] = 0
total c ((k, n) ∷ d) = count c n.queue + total c d

-- `drawn` is the id of a new command, `handed` that of the command that is handed out
pub data Moved (max : ℕ) (drawn handed : Option String) (d d' : Dict Node) : Type 0 where
  same : handed ≡ none → d' ≡ d → Moved max drawn handed d d'
  fresh :
      (k : String) (n' : Node)
      → handed ≡ none
      → lookup k d ≡ none
      → n'.queue ≡ []
      → n'.commands ≡ []
      → d' ≡ put k n' d
      → Moved max drawn handed d d'
  edited :
      (k : String) (n n' : Node)
      → lookup k d ≡ some n
      → ((c : String) → hit c handed + count c n'.queue ≤ hit c drawn + count c n.queue)
      → (length n'.commands ≤ length n.commands) ⊎ (length n'.commands ≤ max)
      → d' ≡ put k n' d
      → Moved max drawn handed d d'

pub count-append :
    (c x : String) (q : List String) → count c (q ++ x ∷ []) ≡ count c q + hit c (some x)
count-append c x [] = omega arith
count-append c x (y ∷ q) = omega (arith, count-append c x q)

pub count-remove_first : (c x : String) (q : List String) → count c (remove_first x q) ≤ count c q
count-remove_first c x [] = omega arith
count-remove_first c x (y ∷ q) = elim (Bool-cases (y == x)) [
  | inl t ↦ rw t (omega arith)
  | inr t ↦ rw t (omega (arith, count-remove_first c x q))
]

pub count-next_command :
    (c : String) (commands : Dict Command) (q : List String)
    → hit c (next_command commands q).0 + count c (next_command commands q).1 ≤ count c q
count-next_command c commands [] = omega arith
count-next_command c commands (x ∷ q) = elim (Bool-cases (is_some (lookup x commands))) [
  | inl t ↦ rw t (omega arith)
  | inr t ↦ rw t (omega (arith, count-next_command c commands q))
]

total-put :
    (c k : String) (n n' : Node) (d : Dict Node)
    → lookup k d ≡ some n
    → total c (put k n' d) + count c n.queue ≡ total c d + count c n'.queue
total-put c k n n' [] e = absurd (ground (arith, e))
total-put c k n n' ((j, m) ∷ d) e = elim (Bool-cases (j == k)) [
  | inl t ↦
      let here : m ≡ n = ground (arith, e, t) in
      let alike = ap (λ (x : Node). count c x.queue) here in rw t (omega (arith, alike))
  | inr t ↦ rw t (omega (arith, total-put c k n n' d (ground (arith, e, t))))
]

total-put_absent :
    (c k : String) (n' : Node) (d : Dict Node)
    → lookup k d ≡ none
    → total c (put k n' d) ≡ total c d + count c n'.queue
total-put_absent c k n' [] e = omega arith
total-put_absent c k n' ((j, m) ∷ d) e = elim (Bool-cases (j == k)) [
  | inl t ↦ absurd (ground (arith, e, t))
  | inr t ↦ rw t (omega (arith, total-put_absent c k n' d (ground (arith, e, t))))
]

pub length-put :
    {V : Type 0} (k : String) (v : V) (d : Dict V) → length (put k v d) ≤ suc (length d)
length-put k v [] = omega arith
length-put k v ((j, w) ∷ d) = elim (Bool-cases (j == k)) [
  | inl t ↦ rw t (omega arith)
  | inr t ↦ rw t (omega (arith, length-put k v d))
]

pub length-put_there :
    {V : Type 0} (k : String) (v : V) (d : Dict V)
    → is_some (lookup k d) ≡ true
    → length (put k v d) ≡ length d
length-put_there k v [] e = absurd (ground (arith, e))
length-put_there k v ((j, w) ∷ d) e = elim (Bool-cases (j == k)) [
  | inl t ↦ rw t refl
  | inr t ↦ rw t (ap suc (length-put_there k v d (ground (arith, e, t))))
]

pub length-pop_most : {V : Type 0} (k : String) (d : Dict V) → length (pop k d) ≤ length d
length-pop_most k [] = omega arith
length-pop_most k ((j, w) ∷ d) = elim (Bool-cases (j == k)) [
  | inl t ↦ rw t (omega (arith, length-pop_most k d))
  | inr t ↦ rw t (omega (arith, length-pop_most k d))
]

pub length-pop_there :
    {V : Type 0} (k : String) (d : Dict V)
    → is_some (lookup k d) ≡ true
    → suc (length (pop k d)) ≤ length d
length-pop_there k [] e = absurd (ground (arith, e))
length-pop_there k ((j, w) ∷ d) e = elim (Bool-cases (j == k)) [
  | inl t ↦ rw t (omega (arith, length-pop_most k d))
  | inr t ↦ rw t (omega (arith, length-pop_there k d (ground (arith, e, t))))
]

-- A call hands out at most what is queued, and queues at most what it draws.
pub total-Moved :
    {max : ℕ} {drawn handed : Option String} {d d' : Dict Node} (c : String)
    → Moved max drawn handed d d'
    → hit c handed + total c d' ≤ hit c drawn + total c d
total-Moved {d = d} c (same h e) = rw (h, e) (omega arith)
total-Moved {d = d} c (fresh k n' h l q z e) =
    let more = total-put_absent c k n' d l in
    let none_queued = ap (count c) q in rw (h, e) (omega (arith, more, none_queued))
total-Moved {d = d} c (edited k n n' l f z e) = rw e (omega (arith, f c, total-put c k n n' d l))
