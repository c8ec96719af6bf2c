-- ===== src/Prelude/Keys.antt =====
-- Dicts of which no two entries have one key, as every Python dict is.
use Prim.Native.String.{String}
use Prim.Native.Nat.{suc, ◌≤◌}
use mathlib.Core.Path.{◌≡◌, refl, subst, ◌∙◌}
use mathlib.Core.Logic.{inl, inr}
use mathlib.Core.Bool.{false}
use mathlib.Core.Option.{none}
use mathlib.Core.List.{[], ◌∷◌, ◌++◌}
use native.Mathlib.Omega.{arith}
use text.Mathlib.Text.{◌==◌}
use text.Mathlib.TextEquality.{eq_iff}
use text.Mathlib.TextPositions.{eq_refl}
use development_bridge.Prelude.Tests.{Bool-cases}
use development_bridge.Prelude.Lists.{length}
use development_bridge.Prelude.Dicts.{Dict, lookup, put, pop, lookup-pop, lookup-put}

module _ {V : Type 0} where
  abbrev pub Distinct : Dict V → Type 0
  Distinct [] = Unit
  Distinct ((k, v) ∷ d) = (lookup k d ≡ none) × Distinct d

  pub pop_absent : (k : String) (d : Dict V) → lookup k d ≡ none → pop k d ≡ d
  pop_absent k [] h = refl
  pop_absent k ((j, v) ∷ d) h = ground (arith, pop_absent k d)

  pub put_absent :
      (k : String) (v : V) (d : Dict V) → lookup k d ≡ none → put k v d ≡ d ++ (k, v) ∷ []
  put_absent k v [] h = refl
  put_absent k v ((j, w) ∷ d) h = ground (arith, put_absent k v d)

  pub lookup-append :
      (k : String) (d e : Dict V) → lookup k d ≡ none → lookup k (d ++ e) ≡ lookup k e
  lookup-append k [] e h = refl
  lookup-append k ((j, v) ∷ d) e h = ground (arith, lookup-append k d e)

  pub pop-append : (k : String) (d e : Dict V) → pop k (d ++ e) ≡ pop k d ++ pop k e
  pop-append k [] e = refl
  pop-append k ((j, v) ∷ d) e = ground (arith, pop-append k d e)

  pub pop_gone : (k : String) (d : Dict V) → lookup k (pop k d) ≡ none
  pop_gone k d = lookup-pop k k d ∙ rw (eq_refl k) refl

  pub length-pop : (k : String) (d : Dict V) → Distinct d → length d ≤ suc (length (pop k d))
  length-pop k [] u = omega arith
  length-pop k ((j, v) ∷ d) u = elim (Bool-cases (j == k)) [
    | inl t ↦
        rw (t, pop_absent k d (subst (λ x. lookup x d ≡ none) ((eq_iff j k).0 t) u.0)) (omega arith)
    | inr t ↦ rw t (omega (arith, length-pop k d u.1))
  ]

  pub Distinct-pop : (k : String) (d : Dict V) → Distinct d → Distinct (pop k d)
  Distinct-pop k [] u = tt
  Distinct-pop k ((j, v) ∷ d) u = elim (Bool-cases (j == k)) [
    | inl t ↦ rw t (Distinct-pop k d u.1)
    | inr t ↦ rw t (lookup-pop k j d ∙ ground (arith, u.0), Distinct-pop k d u.1)
  ]

  pub Distinct-append :
      (d : Dict V) (k : String) (v : V)
      → Distinct d
      → lookup k d ≡ none
      → Distinct (d ++ (k, v) ∷ [])
  Distinct-append [] k v u h = (refl, tt)
  Distinct-append ((j, w) ∷ d) k v u h = (
    lookup-append j d ((k, v) ∷ []) u.0 ∙ ground (arith, eq_iff j k, eq_iff k j),
    Distinct-append d k v u.1 (ground arith),
  )

  other_key :
      (j k : String) (v : V) (p d : Dict V) → lookup j (p ++ (k, v) ∷ d) ≡ none → (j == k) ≡ false
  other_key j k v [] d h = ground (arith, eq_iff j k, eq_iff k j)
  other_key j k v ((i, w) ∷ p) d h = ground (arith, other_key j k v p d)

  pub not_before :
      (k : String) (v : V) (p d : Dict V) → Distinct (p ++ (k, v) ∷ d) → lookup k p ≡ none
  not_before k v [] d u = refl
  not_before k v ((j, w) ∷ p) d u = rw (other_key j k v p d u.0) (not_before k v p d u.1)

  pub Distinct-put : (k : String) (v : V) (d : Dict V) → Distinct d → Distinct (put k v d)
  Distinct-put k v [] u = (refl, tt)
  Distinct-put k v ((j, w) ∷ d) u = elim (Bool-cases (j == k)) [
    | inl t ↦ rw t (u.0, u.1)
    | inr t ↦
        rw t
          (lookup-put k j v d ∙ ground (arith, u.0, eq_iff k j, eq_iff j k), Distinct-put k v d u.1)
  ]
