-- ===== src/Prelude/Tables.antt =====
-- A table as the list of its rows in the order of insertion, with the statements that the stores
-- issue: SELECT, UPDATE and DELETE by a test on the row, and INSERT under uniqueness constraints.
use mathlib.Core.Path.{◌≡◌, refl, ap, ◌∙◌, subst}
use mathlib.Core.Logic.{inl, inr}
use mathlib.Core.Bool.{Bool, true, false, not}
use mathlib.Core.Option
use mathlib.Core.Option.{Option, none, some}
use mathlib.Core.List.{List, [], ◌∷◌, ◌++◌}
use native.Mathlib.Omega.{arith}
use development_bridge.Prelude.Tests.{if◌then◌else◌, Bool-cases}
use development_bridge.Prelude.Lists.{any, All, All-append, All-map}

module _ {ℓ} {A : Type ℓ} where
  -- SELECT * WHERE p
  abbrev pub select : (A → Bool) → List A → List A
  select p [] = []
  select p (x ∷ xs) = let rest = select p xs in if p x then x ∷ rest else rest

  -- the first row of SELECT * WHERE p, as `fetchone` returns it
  abbrev pub first : (A → Bool) → List A → Option A
  first p [] = none
  first p (x ∷ xs) = let rest = first p xs in if p x then some x else rest

  -- UPDATE SET f WHERE p
  abbrev pub update : (A → Bool) → (A → A) → List A → List A
  update p f [] = []
  update p f (x ∷ xs) = (if p x then f x else x) ∷ update p f xs

  -- DELETE WHERE p
  abbrev pub delete : (A → Bool) → List A → List A
  delete p = select (λ x. not (p x))

  -- INSERT; `none` is an IntegrityError: `conflict new old` says that a constraint forbids the
  -- row `new` beside the row `old`.
  abbrev pub insert : (A → A → Bool) → A → List A → Option (List A)
  insert conflict x xs = if any (conflict x) xs then none else some (xs ++ x ∷ [])

  -- No row violates a constraint against a row above it.
  abbrev pub NoConflict : (A → A → Bool) → List A → Type 0
  NoConflict conflict [] = Unit
  NoConflict conflict (x ∷ xs) = All (λ y. conflict y x ≡ false) xs × NoConflict conflict xs

module _ {ℓ} {A : Type ℓ} (p : A → Bool) where
  pub first-matches : (xs : List A) {x : A} → first p xs ≡ some x → p x ≡ true
  first-matches [] h = ground arith
  first-matches (y ∷ ys) {x} h = ground (arith, first-matches ys {x = x})

  pub first-none : (xs : List A) → first p xs ≡ none → any p xs ≡ false
  first-none [] h = refl
  first-none (y ∷ ys) h = ground (arith, first-none ys)

  pub first_of_any : (xs : List A) → any p xs ≡ true → (x : A) × (first p xs ≡ some x)
  first_of_any [] h = ground arith
  first_of_any (y ∷ ys) h = elim (Bool-cases (p y)) [
    | inl e ↦ (y, ground arith)
    | inr e ↦ let r = first_of_any ys (ground arith) in (r.0, ground (arith, r.1))
  ]

  pub any_of_first : (xs : List A) {x : A} → first p xs ≡ some x → any p xs ≡ true
  any_of_first [] h = ground arith
  any_of_first (y ∷ ys) {x} h = ground (arith, any_of_first ys {x = x})

  pub first-append : (xs ys : List A) → any p xs ≡ false → first p (xs ++ ys) ≡ first p ys
  first-append [] ys h = refl
  first-append (x ∷ xs) ys h = ground (arith, first-append xs ys)

  pub first-append_some :
      (xs ys : List A) {x : A} → first p xs ≡ some x → first p (xs ++ ys) ≡ some x
  first-append_some [] ys h = ground arith
  first-append_some (y ∷ xs) ys {x} h = ground (arith, first-append_some xs ys {x = x})

  pub select-append : (xs ys : List A) → select p (xs ++ ys) ≡ select p xs ++ select p ys
  select-append [] ys = refl
  select-append (x ∷ xs) ys = ground (arith, select-append xs ys)

  pub select-none : (xs : List A) → any p xs ≡ false → select p xs ≡ []
  select-none [] h = refl
  select-none (x ∷ xs) h = ground (arith, select-none xs)

  pub first-update :
      (q : A → Bool) (f : A → A) (xs : List A)
      → ((x : A) → p (f x) ≡ p x)
      → first p (update q f xs) ≡ Option.map (λ r. if q r then f r else r) (first p xs)
  first-update q f [] k = refl
  first-update q f (x ∷ xs) k = ground (arith, k x, first-update q f xs k)

  -- what a DELETE takes away is gone
  pub any-delete : (xs : List A) → any p (delete p xs) ≡ false
  any-delete [] = refl
  any-delete (x ∷ xs) = ground (arith, any-delete xs)

  pub any-select : (q : A → Bool) (xs : List A) → any p xs ≡ false → any p (select q xs) ≡ false
  any-select q [] h = refl
  any-select q (x ∷ xs) h = ground (arith, any-select q xs)

  pub first-select_kept :
      (q : A → Bool) (xs : List A) {x : A}
      → first p xs ≡ some x
      → q x ≡ true
      → first p (select q xs) ≡ some x
  first-select_kept q [] h k = ground arith
  first-select_kept q (y ∷ ys) {x} h k = elim (Bool-cases (p y)) [
    | inl t ↦ let same : y ≡ x = ground arith in rw (ap q same ∙ k, t) (ap some same)
    | inr t ↦ elim (Bool-cases (q y)) [
      | inl s ↦ rw (s, t) (first-select_kept q ys (ground arith) k)
      | inr s ↦ rw s (first-select_kept q ys (ground arith) k)
    ]
  ]

module _ {ℓ} {A : Type ℓ} (P : A → Type 0) (p : A → Bool) where
  pub first-All : (xs : List A) {x : A} → All P xs → first p xs ≡ some x → P x
  first-All [] h e = ground arith
  first-All (y ∷ ys) {x} h e = elim (Bool-cases (p y)) [
    | inl t ↦ subst P (ground arith) h.0
    | inr t ↦ first-All ys h.1 (ground arith)
  ]

  pub All-select : (xs : List A) → All P xs → All P (select p xs)
  All-select [] h = tt
  All-select (x ∷ xs) h = elim (Bool-cases (p x)) [
    | inl t ↦ rw t (h.0, All-select xs h.1)
    | inr t ↦ rw t (All-select xs h.1)
  ]

  -- An update keeps a property that it keeps on each row that it changes.
  pub All-update :
      (f : A → A) (xs : List A)
      → ((x : A) → p x ≡ true → P x → P (f x))
      → All P xs
      → All P (update p f xs)
  All-update f [] k h = tt
  All-update f (x ∷ xs) k h = elim (Bool-cases (p x)) [
    | inl t ↦ rw t (k x t h.0, All-update f xs k h.1)
    | inr t ↦ rw t (h.0, All-update f xs k h.1)
  ]

module _ {ℓ} {A : Type ℓ} (conflict : A → A → Bool) where
  pub NoConflict-append :
      (x : A) (xs : List A)
      → NoConflict conflict xs
      → any (conflict x) xs ≡ false
      → NoConflict conflict (xs ++ x ∷ [])
  NoConflict-append x [] u h = (tt, tt)
  NoConflict-append x (y ∷ ys) u h =
      (All-append _ ys (x ∷ []) u.0 (ground arith, tt), NoConflict-append x ys u.1 (ground arith))

  pub NoConflict-select :
      (p : A → Bool) (xs : List A) → NoConflict conflict xs → NoConflict conflict (select p xs)
  NoConflict-select p [] u = tt
  NoConflict-select p (x ∷ xs) u = elim (Bool-cases (p x)) [
    | inl t ↦ rw t (All-select _ p xs u.0, NoConflict-select p xs u.1)
    | inr t ↦ rw t (NoConflict-select p xs u.1)
  ]

  -- An update that leaves the constrained columns alone breaks no constraint.
  pub NoConflict-update :
      (p : A → Bool) (f : A → A) (xs : List A)
      → ((x y : A) → conflict (f x) y ≡ conflict x y)
      → ((x y : A) → conflict x (f y) ≡ conflict x y)
      → NoConflict conflict xs
      → NoConflict conflict (update p f xs)
  NoConflict-update p f [] l r u = tt
  NoConflict-update p f (x ∷ xs) l r u = elim (Bool-cases (p x)) [
    | inl t ↦ rw t (
      All-map _ (λ y h. r y x ∙ h) (All-update _ p f xs (λ y _ h. l y x ∙ h) u.0),
      NoConflict-update p f xs l r u.1,
    )
    | inr t ↦ rw t (All-update _ p f xs (λ y _ h. l y x ∙ h) u.0, NoConflict-update p f xs l r u.1)
  ]
