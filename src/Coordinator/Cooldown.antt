-- ===== src/Coordinator/Cooldown.antt =====
-- The cooldown of the web turns, which all channels of `CoordinatorService` (app/coordinator/service.py)
-- share.
use development_bridge.Prelude.{
  ℕ, ◌+◌, ◌≤◌, ◌<◌, String, Bool, ◌&&◌, not, Option, sym, subst, arith, inl, inr, Bool-cases,
  Option-cases, if-elim, lookup,
}
use development_bridge.Coordinator.Texts.{Text}
use development_bridge.Coordinator.Models.{
  PendingWake, Coordinator, Disposition, delivered, DeliveryMode, x_ui, direct,
  min_web_turn_interval,
}
use development_bridge.Coordinator.Rules.{
  lease_active, same_disposition, save_state, cool_down, touch_delivery_lease,
  web_turn_cooldown_until,
}
use development_bridge.Coordinator.Arming.{
  ArmArgs, arm_existing, arm_new, coalesces, coalesce_resilient, is_reject, stripped,
  promote_queued, is_empty,
}
use development_bridge.Coordinator.Delivery.{
  status_locked, claim_locked, claim_wake, claim_refused, claimed_wake, touch_x,
}
use development_bridge.Coordinator.Transport.{
  change_if, finalize_wake, ack_wake, set_wake, recorded,
}
use development_bridge.Coordinator.Calls.{after}
use development_bridge.Errors.{Result-cases}
use development_bridge.Coordinator.ClaimSteps.{status_or_idle-state}

module _ (until : ℕ) where
  -- no web turn before `until`
  abbrev pub Cooling : Coordinator → Type 0
  Cooling s = until ≤ s.global_cooldown_until

  pub Cooling-promote_queued :
      (now : ℕ) (next channel : String) (w : PendingWake) (s : Coordinator)
      → Cooling s
      → Cooling (promote_queued now next channel w s).1
  unfolding promote_queued
  Cooling-promote_queued now next channel w s h =
      let P : Option String × Coordinator → Type 0 = λ r. Cooling r.1 in
      if-elim P (is_empty w.queued_messages) (λ t. h) (λ t. h)

  pub Cooling-touch :
      (channel : String) (lease : Option String) (now : ℕ) (s : Coordinator)
      → Cooling s
      → Cooling (touch_delivery_lease channel lease now s)
  Cooling-touch channel lease now s h = ground (arith, h)

  pub Cooling-touch_x :
      (channel : String) (lease : Option String) (mode : DeliveryMode) (now : ℕ) (s : Coordinator)
      → Cooling s
      → Cooling (touch_x channel lease mode now s)
  Cooling-touch_x channel lease direct now s h = h
  Cooling-touch_x channel lease x_ui now s h = Cooling-touch channel lease now s h

  pub Cooling-cool_down :
      (channel : String) (n : ℕ) (s : Coordinator) → Cooling s → Cooling (cool_down channel n s)
  Cooling-cool_down channel n s h = omega (arith, h)

  module _ (now : ℕ) (before : now < until) where
    pub Cooling-save : (s : Coordinator) → Cooling s → Cooling (save_state now s)
    Cooling-save s h = ground (arith, h, before)

    pub Cooling-change_if :
        (channel : String) (test : PendingWake → Bool) (f : PendingWake → PendingWake)
        (s : Coordinator)
        → Cooling s
        → Cooling (change_if now channel test f s).1
    Cooling-change_if channel test f s h = elim (Option-cases (lookup channel s.pending)) [
      | inl e ↦ rw (e, change_if) h
      | inr (w, e) ↦ elim (Bool-cases (test w)) [
        | inl t ↦ rw (e, t, change_if) (Cooling-save (set_wake channel (f w) s) h)
        | inr t ↦ rw (e, t, change_if) h
      ]
    ]

    pub Cooling-finalize_wake :
        (next channel : String) (transport : Text) (d : Disposition) (detail : Option Text)
        (w : PendingWake) (s : Coordinator)
        → Cooling s
        → Cooling (finalize_wake now next channel transport d detail w s)
    unfolding finalize_wake
    Cooling-finalize_wake next channel transport d detail w s h =
        let r = recorded transport d detail w in
        let cooled = cool_down channel (now + min_web_turn_interval) s in
        let g = Cooling-cool_down channel (now + min_web_turn_interval) s h in
        if-elim Cooling (same_disposition d delivered)
          (λ t.
            if-elim Cooling w.model_acknowledged
              (λ a. Cooling-promote_queued now next channel r cooled g) (λ a. g))
          (λ t. h)

    pub Cooling-ack_wake :
        (next channel : String) (w : PendingWake) (s : Coordinator)
        → Cooling s
        → Cooling (ack_wake now next channel w s)
    unfolding ack_wake
    Cooling-ack_wake next channel w s h =
        let cooled = cool_down channel (now + min_web_turn_interval) s in
        let g = Cooling-cool_down channel (now + min_web_turn_interval) s h in
        if-elim Cooling (not w.model_ack_required) (λ t. g)
          (λ t.
            if-elim Cooling w.model_acknowledged
              (λ a. Cooling-promote_queued now next channel w cooled g) (λ a. g))

    pub Cooling-status_locked :
        (backoff : ℕ) (next channel : String) (lease : Option String) (mode : DeliveryMode)
        (s : Coordinator)
        → Cooling s
        → Cooling (status_locked now backoff next channel lease mode s).1
    unfolding status_locked
    Cooling-status_locked backoff next channel lease mode s h =
        elim (Option-cases (lookup channel s.pending)) [
          | inl e ↦ rw (e, status_locked) h
          | inr (w, e) ↦ elim (Bool-cases (w.model_acknowledged && not (lease_active w now))) [
            | inr t ↦ rw (e, t, status_locked) h
            | inl t ↦
                let s' = save_state now (promote_queued now next channel w s).1 in
                rw (e, t, status_locked)
                  (subst Cooling
                    (sym (
                      status_or_idle-state channel lease mode now backoff s'
                        (lookup channel s'.pending)))
                    (Cooling-save (promote_queued now next channel w s).1
                      (Cooling-promote_queued now next channel w s h)))
          ]
        ]

    pub Cooling-claim_locked :
        (backoff : ℕ) (token channel : String) (lease : Option String) (mode : DeliveryMode)
        (s : Coordinator)
        → Cooling s
        → Cooling (claim_locked now backoff token channel lease mode s).1
    unfolding claim_locked claim_wake
    Cooling-claim_locked backoff token channel lease mode s h =
        elim (Option-cases (lookup channel s.pending)) [
          | inl e ↦ rw (e, claim_locked) h
          | inr (w, e) ↦ elim (Bool-cases (claim_refused s channel lease mode now backoff w)) [
            | inl t ↦ rw (e, t, claim_locked) h
            | inr t ↦ elim (Option-cases (claimed_wake now token w)) [
              | inl m ↦ rw (e, t, m, claim_locked, claim_wake) h
              | inr (w', m) ↦
                  rw (e, t, m, claim_locked, claim_wake) (Cooling-save (set_wake channel w' s) h)
            ]
          ]
        ]

    pub Cooling-arm_existing :
        (alnum : ℕ → Bool) (next : String) (a : ArmArgs) (w : PendingWake) (s : Coordinator)
        → Cooling s
        → Cooling (after s (arm_existing alnum now next a w s))
    unfolding arm_existing arm_new
    Cooling-arm_existing alnum next a w s h = elim (Bool-cases (coalesces alnum a.conflict w)) [
      | inl t ↦
          elim (Result-cases (
            coalesce_resilient now a.delay (web_turn_cooldown_until s a.channel_id) a.message
              (stripped a.escalation_message) w)) [
                | inl ((reply, w'), m) ↦
                    rw (t, m, arm_existing) (Cooling-save (set_wake a.channel_id w' s) h)
                | inr (x, m) ↦ rw (t, m, arm_existing) h
              ]
      | inr t ↦ elim (Bool-cases (lease_active w now)) [
        | inl u ↦ rw (t, u, arm_existing) h
        | inr u ↦ elim (Bool-cases (is_reject alnum a.conflict)) [
          | inl r ↦ rw (t, u, r, arm_existing) h
          | inr r ↦ rw (t, u, r, arm_existing) (Cooling-save (set_wake a.channel_id _ s) h)
        ]
      ]
    ]
