-- ===== src/Coordinator/TransportSteps.antt =====
-- The calls that follow a claim (app/coordinator/service.py) change the pending wakes as their `Change`
-- says.
use development_bridge.Prelude.{
  ℕ, ◌+◌, ◌≤◌, String, Bool, ◌&&◌, ◌||◌, not, Option, none, some, ◌≡◌, refl, subst, arith, inl, inr,
  Bool-cases, Option-cases, if-elim, is_some, lookup,
}
use development_bridge.Coordinator.Texts.{Text}
use development_bridge.Coordinator.Models.{
  PendingWake, Coordinator, Disposition, delivered, x_ui, min_web_turn_interval,
}
use development_bridge.Coordinator.Rules.{
  same_disposition, is_blocking, touch_delivery_lease, cool_down, delivery_lease_matches,
  automatic_delivery_blocked,
}
use development_bridge.Coordinator.Arming.{valid_channel, valid_continuation}
use development_bridge.Coordinator.Transport.{
  mark_preclaim_auth_required, clear_preclaim_auth_block, finalize_transport,
  authorize_browser_preflight, ack, observe_model_turn, cancel_pending, change_if, auth_required,
  may_mark, cleared, may_clear, legacy_marker, valid_name, may_authorize, recorded, not_delivered,
  handed_over, finalize_wake, ack_wake, is_claimed_by, has_continuation,
}
use development_bridge.Coordinator.Calls.{
  marks_auth, clears_auth, finalizes, authorizes, acks, observes, cancels, perform,
}
use development_bridge.Coordinator.Changes.{Evolves, Calm, Change, kept, dropped, changed}
use development_bridge.Coordinator.Steps.{
  pending-save, pending-touch, Change-save, promote_queued-Change, promoted-IsNext,
}

module _ (drawn : Option String) (now : ℕ) where
  -- an edit that keeps the continuation and starts no claim
  change_if-Change :
      (channel : String) (test : PendingWake → Bool) (f : PendingWake → PendingWake)
      (s : Coordinator)
      → ((w : PendingWake) → Evolves w (f w) × Calm w (f w))
      → Change drawn now s.pending (change_if now channel test f s).1.pending
  change_if-Change channel test f s h = elim (Option-cases (lookup channel s.pending)) [
    | inl e ↦ rw (e, change_if) (kept refl)
    | inr (w, e) ↦ elim (Bool-cases (test w)) [
      | inl t ↦
          rw (e, t, change_if)
            (Change-save drawn now s.pending _ (changed channel w (f w) e (h w).0 (h w).1 refl))
      | inr t ↦ rw (e, t, change_if) (kept refl)
    ]
  ]

  -- the wake that an unanswered delivery leaves, or an attempt that failed
  finalized-Evolves :
      (transport : Text) (d : Disposition) (detail : Option Text) (w : PendingWake)
      → Evolves w (recorded transport d detail w) × Calm w (recorded transport d detail w)
  finalized-Evolves transport d detail w = (
    record {
      continuation = refl;
      required = refl;
      most = refl;
      delays = refl;
      delivered = λ h. h;
      acknowledged = λ h. inl h;
      attempts = λ h. h;
      queues = λ h. h;
    },
    λ t h. absurd (ground (arith, h)),
  )

  handed_over-Evolves : (r w : PendingWake) → Evolves w r → Evolves w (handed_over now r)
  handed_over-Evolves r w h = record {
    continuation = h.continuation;
    required = h.required;
    most = h.most;
    delays = h.delays;
    delivered = λ k. refl;
    acknowledged = h.acknowledged;
    attempts = h.attempts;
    queues = h.queues;
  }

  not_delivered-Evolves :
      (d : Disposition) (r w : PendingWake)
      → Evolves w r × Calm w r
      → Evolves w (not_delivered now d r) × Calm w (not_delivered now d r)
  not_delivered-Evolves d r w (h, c) = elim (Bool-cases (is_blocking d)) [
    | inl t ↦
        rw (t, not_delivered)
          (
            record {
              continuation = h.continuation;
              required = h.required;
              most = h.most;
              delays = h.delays;
              delivered = h.delivered;
              acknowledged = h.acknowledged;
              attempts = h.attempts;
              queues = h.queues;
            },
            c,
          )
    | inr t ↦ rw (t, not_delivered) (h, c)
  ]

finalize_wake-Change :
    (now : ℕ) (next channel : String) (transport : Text) (d : Disposition) (detail : Option Text)
    (w : PendingWake) (s : Coordinator)
    → lookup channel s.pending ≡ some w
    → Change
        (some next)
        now
        s.pending
        (finalize_wake now next channel transport d detail w s).pending
unfolding finalize_wake
finalize_wake-Change now next channel transport d detail w s e =
    let f = finalized-Evolves (some next) now transport d detail w in
    let P : Coordinator → Type 0 =
      λ (z : Coordinator). Change (some next) now s.pending z.pending in
    if-elim P (same_disposition d delivered)
      (λ t.
        if-elim P w.model_acknowledged
          (λ a.
            promote_queued-Change now next channel w (recorded transport d detail w)
              (cool_down channel (now + min_web_turn_interval) s) e a
              (promoted-IsNext now next _ w (recorded transport d detail w) a refl refl))
          (λ a.
            changed channel w (handed_over now (recorded transport d detail w)) e
              (handed_over-Evolves (some next) now (recorded transport d detail w) w f.0) f.1 refl))
      (λ t.
        let (g, c) = not_delivered-Evolves (some next) now d (recorded transport d detail w) w f in
        changed channel w (not_delivered now d (recorded transport d detail w)) e g c refl)

-- the wake without its claim
abbrev unclaimed : PendingWake → PendingWake
unclaimed w = record w { claim_id = none; lease_expires_at = none }

unclaimed-Evolves : (w : PendingWake) → Evolves w (unclaimed w) × Calm w (unclaimed w)
unclaimed-Evolves w = (
  record {
    continuation = refl;
    required = refl;
    most = refl;
    delays = refl;
    delivered = λ h. h;
    acknowledged = λ h. inl h;
    attempts = λ h. h;
    queues = λ h. h;
  },
  λ t h. absurd (ground (arith, h)),
)

ack_wake-Change :
    (now : ℕ) (next channel : String) (w : PendingWake) (s : Coordinator)
    → lookup channel s.pending ≡ some w
    → Change (some next) now s.pending (ack_wake now next channel w s).pending
unfolding ack_wake
ack_wake-Change now next channel w s e =
    let P : Coordinator → Type 0 =
      λ (z : Coordinator). Change (some next) now s.pending z.pending in
    if-elim P (not w.model_ack_required) (λ r. dropped channel refl)
      (λ r.
        if-elim P w.model_acknowledged
          (λ a.
            promote_queued-Change now next channel w w
              (cool_down channel (now + min_web_turn_interval) s) e a
              (promoted-IsNext now next _ w w a refl refl))
          (λ a.
            changed channel w (handed_over now (unclaimed w)) e
              (handed_over-Evolves (some next) now (unclaimed w) w (unclaimed-Evolves w).0)
              (unclaimed-Evolves w).1 refl))

module _ (alnum : ℕ → Bool) (now : ℕ) where
  pub marks-Change :
      (channel id : String) (transport : Text) (detail : Option Text) (s : Coordinator)
      → Change none now s.pending
          (perform alnum now (marks_auth channel id transport detail) s).pending
  unfolding perform mark_preclaim_auth_required
  marks-Change channel id transport detail s =
      elim (Bool-cases (
        valid_channel alnum channel
        && (valid_continuation alnum id && valid_name alnum transport))) [
          | inr v ↦ rw (v, perform, mark_preclaim_auth_required) (kept refl)
          | inl v ↦
              rw (v, perform, mark_preclaim_auth_required)
                (change_if-Change none now channel (may_mark id)
                  (auth_required now transport detail) s
                  (λ w. (
                    record {
                      continuation = refl;
                      required = refl;
                      most = refl;
                      delays = refl;
                      delivered = λ h. h;
                      acknowledged = λ h. inl h;
                      attempts = λ h. h;
                      queues = λ h. h;
                    },
                    λ t h. h,
                  )))
        ]

  cleared-Evolves : (w : PendingWake) → Evolves w (cleared now w) × Calm w (cleared now w)
  cleared-Evolves w = (
    record {
      continuation = refl;
      required = refl;
      most = refl;
      delays = refl;
      delivered = λ h. h;
      acknowledged = λ h. inl h;
      queues = λ h. h;
      attempts = λ h.
          if-elim (λ n. n ≤ w.max_delivery_attempts) (legacy_marker w) (λ t. omega (arith, h))
            (λ t. h);
    },
    λ t h. h,
  )

  pub clears-Change :
      (channel id : String) (transport : Text) (s : Coordinator)
      → Change none now s.pending (perform alnum now (clears_auth channel id transport) s).pending
  unfolding perform clear_preclaim_auth_block
  clears-Change channel id transport s =
      elim (Bool-cases (
        valid_channel alnum channel
        && (valid_continuation alnum id && valid_name alnum transport))) [
          | inr v ↦ rw (v, perform, clear_preclaim_auth_block) (kept refl)
          | inl v ↦
              rw (v, perform, clear_preclaim_auth_block)
                (change_if-Change none now channel (may_clear id transport) (cleared now) s
                  cleared-Evolves)
        ]

  pub authorizes-Change :
      (channel id : String) (s : Coordinator)
      → Change none now s.pending (perform alnum now (authorizes channel id) s).pending
  unfolding perform authorize_browser_preflight
  authorizes-Change channel id s =
      elim (Bool-cases (valid_channel alnum channel && valid_continuation alnum id)) [
        | inr v ↦ rw (v, perform, authorize_browser_preflight) (kept refl)
        | inl v ↦
            rw (v, perform, authorize_browser_preflight)
              (change_if-Change none now channel (may_authorize alnum now id) _ s (λ w. (
                record {
                  continuation = refl;
                  required = refl;
                  most = refl;
                  delays = refl;
                  delivered = λ h. h;
                  acknowledged = λ h. inl h;
                  attempts = λ h. h;
                  queues = λ h. h;
                },
                λ t h. h,
              )))
      ]

  pub finalizes-Change :
      (next channel claim : String) (transport : Text) (d : Disposition) (detail : Option Text)
      (s : Coordinator)
      → Change
          (some next)
          now
          s.pending
          (perform alnum now (finalizes next channel claim transport d detail) s).pending
  unfolding perform finalize_transport
  finalizes-Change next channel claim transport d detail s =
      elim (Bool-cases (valid_channel alnum channel && valid_name alnum transport)) [
        | inr v ↦ rw (v, perform, finalize_transport) (kept refl)
        | inl v ↦ elim (Option-cases (lookup channel s.pending)) [
          | inl e ↦ rw (v, e, perform, finalize_transport) (kept refl)
          | inr (w, e) ↦ elim (Bool-cases (is_claimed_by claim w && is_some w.continuation_id)) [
            | inr t ↦ rw (v, e, t, perform, finalize_transport) (kept refl)
            | inl t ↦
                rw (v, e, t, perform, finalize_transport)
                  (Change-save (some next) now s.pending _
                    (finalize_wake-Change now next channel transport d detail w s e))
          ]
        ]
      ]

  pub acks-Change :
      (next channel claim : String) (lease : Option String) (s : Coordinator)
      → Change
          (some next)
          now
          s.pending
          (perform alnum now (acks next channel claim lease) s).pending
  unfolding perform ack
  acks-Change next channel claim lease s = elim (Bool-cases (valid_channel alnum channel)) [
    | inr v ↦ rw (v, perform, ack) (kept refl)
    | inl v ↦ elim (Bool-cases (delivery_lease_matches s channel lease x_ui)) [
      | inr t ↦ rw (v, t, perform, ack) (kept refl)
      | inl t ↦
          let touched = touch_delivery_lease channel lease now s in
          let same = pending-touch channel lease now s in
          elim (Option-cases (lookup channel touched.pending)) [
            | inl e ↦ rw (v, t, e, perform, ack) (kept same)
            | inr (w, e) ↦ elim (Bool-cases (is_claimed_by claim w)) [
              | inr c ↦ rw (v, t, e, c, perform, ack) (kept same)
              | inl c ↦
                  rw (v, t, e, c, perform, ack)
                    (Change-save (some next) now s.pending (ack_wake now next channel w touched) (
                      subst
                        (λ d.
                          Change (some next) now d (ack_wake now next channel w touched).pending)
                        same (ack_wake-Change now next channel w touched e)))
            ]
          ]
    ]
  ]

  pub observes-Change :
      (channel id : String) (s : Coordinator)
      → Change none now s.pending (perform alnum now (observes channel id) s).pending
  unfolding perform observe_model_turn
  observes-Change channel id s =
      elim (Bool-cases (valid_channel alnum channel && valid_continuation alnum id)) [
        | inr v ↦ rw (v, perform, observe_model_turn) (kept refl)
        | inl v ↦ elim (Option-cases (lookup channel s.pending)) [
          | inl e ↦ rw (v, e, perform, observe_model_turn) (kept refl)
          | inr (w, e) ↦
              elim (Bool-cases
                (has_continuation id w && (w.transport_delivered && not w.model_acknowledged))) [
                  | inl t ↦ rw (v, e, t, perform, observe_model_turn) (kept (pending-save now _))
                  | inr t ↦ rw (v, e, t, perform, observe_model_turn) (kept refl)
                ]
        ]
      ]

  pub cancels-Change :
      (channel : String) (s : Coordinator)
      → Change none now s.pending (perform alnum now (cancels channel) s).pending
  unfolding perform cancel_pending
  cancels-Change channel s = elim (Bool-cases (valid_channel alnum channel)) [
    | inr v ↦ rw (v, perform, cancel_pending) (kept refl)
    | inl v ↦ elim (Option-cases (lookup channel s.pending)) [
      | inl e ↦ rw (v, e, perform, cancel_pending) (kept refl)
      | inr (w, e) ↦
          elim (Bool-cases
            (is_some w.claim_id || (w.transport_delivered || automatic_delivery_blocked w))) [
              | inl t ↦ rw (v, e, t, perform, cancel_pending) (kept refl)
              | inr t ↦ rw (v, e, t, perform, cancel_pending) (dropped channel (pending-save now _))
            ]
    ]
  ]
