-- ===== src/Coordinator/Texts.antt =====
-- What app/coordinator/service.py does with texts: `str.split`, `str.join` and `str.strip`. A text is the
-- list of its code points.
use Prim.Native.Char.{code}
use development_bridge.Prelude.{
  ◌≡◌, refl, ℕ, zero, suc, ◌-◌, String, Bool, true, false, ◌&&◌, ◌||◌, List, [], ◌∷◌, ◌++◌, eqb,
  leb, if◌then◌else◌, any, length,
}

abbrev pub Text : Type 0
Text = List ℕ

abbrev pub codes : String → Text
codes String.[] = []
codes (String.◌∷◌ c s) = code c ∷ codes s

abbrev pub same : Text → Text → Bool
same [] [] = true
same (x ∷ xs) (y ∷ ys) = eqb x y && same xs ys
same _ _ = false

-- message in messages
abbrev pub holds : Text → List Text → Bool
holds t = any (same t)

-- xs.startswith(p)
abbrev pub begins : Text → Text → Bool
begins [] xs = true
begins (p ∷ ps) [] = false
begins (p ∷ ps) (x ∷ xs) = eqb p x && begins ps xs

-- xs.split(sep), where `skip` characters of a separator are still to be passed over and `part` has been
-- read since the last one
abbrev pub split_from : Text → ℕ → Text → Text → List Text
split_from sep skip part [] = part ∷ []
split_from sep (suc skip) part (x ∷ xs) = split_from sep skip part xs
split_from sep zero part (x ∷ xs) = elim (begins sep (x ∷ xs)) [
  | true ↦ part ∷ split_from sep (length sep - 1) [] xs
  | false ↦ split_from sep zero (part ++ x ∷ []) xs
]

unfoldable pub split : Text → Text → List Text
split sep xs = split_from sep zero [] xs

-- sep.join(parts)
unfoldable pub join : Text → List Text → Text
join sep [] = []
join sep (t ∷ []) = t
join sep (t ∷ u ∷ ts) = t ++ sep ++ join sep (u ∷ ts)

-- str.isspace of one character
abbrev pub is_space : ℕ → Bool
is_space c =
    (leb 9 c && leb c 13)
    || (leb 28 c && leb c 32)
    || eqb c 133
    || eqb c 160
    || eqb c 5760
    || (leb 8192 c && leb c 8202)
    || eqb c 8232
    || eqb c 8233
    || eqb c 8239
    || eqb c 8287
    || eqb c 12288

abbrev pub strip_left : Text → Text
strip_left [] = []
strip_left (c ∷ t) = let rest = strip_left t in if is_space c then rest else c ∷ t

abbrev pub strip_right : Text → Text
strip_right [] = []
strip_right (c ∷ t) =
    let rest = strip_right t in
    elim rest [ [] ↦ if is_space c then [] else c ∷ [] | d ∷ ds ↦ c ∷ d ∷ ds ]

abbrev pub strip : Text → Text
strip t = strip_right (strip_left t)

split_abc : split (codes "--") (codes "a----b--c") ≡ codes "a" ∷ [] ∷ codes "b" ∷ codes "c" ∷ []
unfolding split
split_abc = refl

strip_padded : strip (codes "  a b ") ≡ codes "a b"
strip_padded = refl
