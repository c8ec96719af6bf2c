-- ===== src/Coordinator/AnswerSteps.antt =====
-- `model_ack` and the calls on escalations, which find a wake by its continuation
-- (app/coordinator/service.py), change the pending wakes as their `Change` says.
use development_bridge.Prelude.{
  ℕ, String, Bool, true, false, none, some, [], ◌∷◌, ◌≡◌, refl, sym, ap, subst, arith, ◌==◌, inl,
  inr, Bool-cases, Option-cases, if-elim, is_some, Dict, lookup, Distinct, eq_iff, eq_refl,
}
use development_bridge.Coordinator.Models.{PendingWake, Coordinator}
use development_bridge.Coordinator.Rules.{lease_active}
use development_bridge.Coordinator.Arming.{valid_continuation}
use development_bridge.Coordinator.Transport.{
  model_ack, model_ack_locked, find_continuation, has_continuation, acknowledged, set_wake,
}
use development_bridge.Coordinator.Escalation.{mark_escalation_notified, resolve_escalation}
use development_bridge.Coordinator.Calls.{acks_model, notifies, resolves, perform}
use development_bridge.Coordinator.Changes.{Evolves, Change, kept, dropped, changed}
use development_bridge.Coordinator.Steps.{pending-save, Change-save}

module _ (alnum : ℕ → Bool) (now : ℕ) where
  -- the entry that a continuation is found at
  found-lookup :
      (id : String) (d : Dict PendingWake) {k : String} {w : PendingWake}
      → Distinct d
      → find_continuation id d ≡ some (k, w)
      → (lookup k d ≡ some w) × (has_continuation id w ≡ true)
  found-lookup id [] u e = absurd (ground (arith, e))
  found-lookup id ((j, v) ∷ d) {k} {w} u e = elim (Bool-cases (has_continuation id v)) [
    | inl t ↦
        let here : j ≡ k = ground (arith, e, t) in
        let this : v ≡ w = ground (arith, e, t) in
        (
          rw (here, this) (rw (eq_refl k) refl),
          subst (λ (z : PendingWake). has_continuation id z ≡ true) this t,
        )
    | inr t ↦
        let (f, g) = found-lookup id d {k = k} {w = w} u.1 (ground (arith, e, t)) in
        let other : (j == k) ≡ false = elim (Bool-cases (j == k)) [
          | inl m ↦ absurd (ground (arith, f, ap (λ i. lookup i d) (sym ((eq_iff j k).0 m)), u.0))
          | inr m ↦ m
        ] in
        (rw other f, g)
  ]

  acknowledged-Evolves :
      (id : String) (w : PendingWake) → has_continuation id w ≡ true → Evolves w (acknowledged w)
  acknowledged-Evolves id w t = record {
    continuation = refl;
    required = refl;
    most = refl;
    delays = refl;
    delivered = λ h. h;
    acknowledged = λ h. inr (ground (arith, t));
    attempts = λ h. h;
    queues = λ h. refl;
  }

  pub acks_model-Change :
      (id : String) (s : Coordinator)
      → Distinct s.pending
      → Change none now s.pending (perform alnum now (acks_model id) s).pending
  unfolding perform model_ack model_ack_locked
  acks_model-Change id s u =
      let P : Coordinator → Type 0 = λ (z : Coordinator). Change none now s.pending z.pending in
      elim (Bool-cases (valid_continuation alnum id)) [
        | inr v ↦ rw (v, perform, model_ack) (kept refl)
        | inl v ↦ elim (Option-cases (find_continuation id s.pending)) [
          | inl e ↦ rw (v, e, perform, model_ack, model_ack_locked) (kept refl)
          | inr ((k, w), e) ↦
              let (f, g) = found-lookup id s.pending u e in
              rw (v, e, perform, model_ack, model_ack_locked)
                (Change-save none now s.pending _ (
                  if-elim P (lease_active w now)
                    (λ t.
                      changed k w (acknowledged w) f (acknowledged-Evolves id w g) (λ h a. a) refl)
                    (λ t. dropped k refl)))
        ]
      ]

  pub notifies-Change :
      (id : String) (s : Coordinator)
      → Distinct s.pending
      → Change none now s.pending (perform alnum now (notifies id) s).pending
  unfolding perform mark_escalation_notified
  notifies-Change id s u =
      let P : Coordinator → Type 0 = λ (z : Coordinator). Change none now s.pending z.pending in
      elim (Bool-cases (valid_continuation alnum id)) [
        | inr v ↦ rw (v, perform, mark_escalation_notified) (kept refl)
        | inl v ↦ elim (Option-cases (find_continuation id s.pending)) [
          | inl e ↦ rw (v, e, perform, mark_escalation_notified) (kept refl)
          | inr ((k, w), e) ↦
              let (f, g) = found-lookup id s.pending u e in
              let w' : PendingWake = record w { escalation_notified_at = some now } in
              rw (v, e, perform, mark_escalation_notified)
                (if-elim P (is_some w.escalation_notified_at) (λ t. kept refl)
                  (λ t. Change-save none now s.pending (set_wake k w' s) (
                    changed k w w' f
                      (record {
                        continuation = refl;
                        required = refl;
                        most = refl;
                        delays = refl;
                        delivered = λ h. h;
                        acknowledged = λ h. inl h;
                        attempts = λ h. h;
                        queues = λ h. h;
                      })
                      (λ h a. a) refl)))
        ]
      ]

  pub resolves-Change :
      (id : String) (s : Coordinator)
      → Change none now s.pending (perform alnum now (resolves id) s).pending
  unfolding perform resolve_escalation
  resolves-Change id s = elim (Bool-cases (valid_continuation alnum id)) [
    | inr v ↦ rw (v, perform, resolve_escalation) (kept refl)
    | inl v ↦ elim (Option-cases (find_continuation id s.pending)) [
      | inl e ↦ rw (v, e, perform, resolve_escalation) (kept refl)
      | inr ((k, w), e) ↦ rw (v, e, perform, resolve_escalation) (dropped k (pending-save now _))
    ]
  ]
