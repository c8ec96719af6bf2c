-- ===== src/Coordinator/Packing.antt =====
-- The messages that `_promote_queued_locked` (app/coordinator/service.py) takes over from an acknowledged
-- wake.
use mathlib.Core.List.Perm
use mathlib.Core.List.{Perm, append_assoc, perm_middle}
use development_bridge.Prelude.{
  ℕ, ◌≤◌, String, true, some, List, [], ◌∷◌, ◌++◌, map, ◌≡◌, refl, sym, ap, subst, ◌∙◌, arith, inl,
  inr, Bool-cases, length, All, eq_refl, lookup, lookup-put, lookup-pop,
}
use development_bridge.Coordinator.Texts.{Text, join}
use development_bridge.Coordinator.Models.{PendingWake, Coordinator, max_batch_message_chars}
use development_bridge.Coordinator.Rules.{web_turn_cooldown_until}
use development_bridge.Coordinator.Arming.{
  batch_separator, zip, fits, is_empty, pack, promoted, promote_queued,
}
use development_bridge.Coordinator.Sound.{Sound}

-- the texts of the pairs
abbrev pub texts : List (Text × Text) → List Text
texts = map (λ p. p.0)

texts-append : (xs ys : List (Text × Text)) → texts (xs ++ ys) ≡ texts xs ++ texts ys
texts-append [] ys = refl
texts-append (x ∷ xs) ys = ap (λ t. x.0 ∷ t) (texts-append xs ys)

-- no message is lost, and none comes twice
pack-Perm :
    (active ps : List (Text × Text))
    → Perm (texts (pack active ps).0 ++ texts (pack active ps).1) (texts active ++ texts ps)
unfolding pack
pack-Perm active [] = Perm.refl _
pack-Perm active (p ∷ ps) = elim (Bool-cases (fits active p.0)) [
  | inl t ↦
      rw (t, pack)
        (subst (Perm _)
          (ap (λ x. x ++ texts ps) (texts-append active (p ∷ []))
            ∙ append_assoc (texts active) (p.0 ∷ []) (texts ps))
          (pack-Perm (active ++ p ∷ []) ps))
  | inr t ↦
      let (a, r) = pack active ps in
      rw (t, pack)
        (Perm.trans (perm_middle (texts (pack active ps).0) (texts (pack active ps).1)) (
          Perm.trans (Perm.cons p.0 (pack-Perm active ps))
            (Perm.symm (perm_middle (texts active) (texts ps)))))
]

-- the joined message keeps the bound, if each message does
abbrev pub Short : Text → Type 0
Short t = length t ≤ max_batch_message_chars

pack-Short :
    (active ps : List (Text × Text))
    → Short (join batch_separator (texts active))
    → All Short (texts ps)
    → Short (join batch_separator (texts (pack active ps).0))
unfolding pack join
pack-Short active [] h k = h
pack-Short active (p ∷ ps) h k = elim (Bool-cases (fits active p.0)) [
  | inl t ↦ rw (t, pack) (pack-Short (active ++ p ∷ []) ps (fits-Short active p t k.0) k.1)
  | inr t ↦ rw (t, pack) (pack-Short active ps h k.1)
]
  where
    fits-Short :
        (active : List (Text × Text)) (p : Text × Text)
        → fits active p.0 ≡ true
        → Short p.0
        → Short (join batch_separator (texts (active ++ p ∷ [])))
    fits-Short [] p t k = k
    fits-Short (q ∷ qs) p t k =
        subst (λ x. Short (join batch_separator x)) (sym (texts-append (q ∷ qs) (p ∷ [])))
          (ground (arith, t))

texts-zip : (xs ys : List Text) → length xs ≡ length ys → texts (zip xs ys) ≡ xs
texts-zip [] ys e = refl
texts-zip (x ∷ xs) [] e = absurd (omega (arith, e))
texts-zip (x ∷ xs) (y ∷ ys) e = ap (λ t. x ∷ t) (texts-zip xs ys (omega (arith, e)))

-- the wake `w'` carries the queued messages of `w`: some of them joined as its message, the others queued
pub record Carries (w w' : PendingWake) : Type 0 where
  pub active : List Text
  pub message : w'.message ≡ join batch_separator active
  pub conserved : Perm (active ++ w'.queued_messages) w.queued_messages
  pub short : All Short w.queued_messages → Short w'.message

promoted-Carries :
    (now : ℕ) (continuation : String) (cooldown : ℕ) (w : PendingWake)
    → length w.queued_messages ≡ length w.queued_escalation_messages
    → Carries w (promoted now continuation cooldown w)
unfolding join
promoted-Carries now continuation cooldown w e =
    let ps = zip w.queued_messages w.queued_escalation_messages in
    let same : texts ps ≡ w.queued_messages =
      texts-zip w.queued_messages w.queued_escalation_messages e in
    record {
      active = texts (pack [] ps).0;
      message = refl;
      conserved =
          subst (Perm (texts (pack [] ps).0 ++ texts (pack [] ps).1)) same (pack-Perm [] ps);
      short = λ h. pack-Short [] ps (omega arith) (subst (All Short) (sym same) h);
    }

-- The wake that takes the place of a sound one carries all its queued messages, each once, and the text
-- that is sent is at most 32000 characters, if each queued message is.
pub promote_queued-Carries :
    (now : ℕ) (continuation channel : String) (w w' : PendingWake) (s : Coordinator)
    → Sound w
    → lookup channel (promote_queued now continuation channel w s).1.pending ≡ some w'
    → Carries w w'
unfolding promote_queued
promote_queued-Carries now continuation channel w w' s h e =
    elim (Bool-cases (is_empty w.queued_messages)) [
      | inl t ↦ absurd (ground (arith, e, t, lookup-pop channel channel s.pending, eq_refl channel))
      | inr t ↦
          let next = promoted now continuation (web_turn_cooldown_until s channel) w in
          let here : next ≡ w' =
            ground (arith, e, t, lookup-put channel channel next s.pending, eq_refl channel) in
          subst (Carries w) here
            (promoted-Carries now continuation (web_turn_cooldown_until s channel) w h.queues)
    ]
