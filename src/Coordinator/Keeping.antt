-- ===== src/Coordinator/Keeping.antt =====
-- No call of `CoordinatorService` (app/coordinator/service.py) ends the cooldown of the web turns early.
use development_bridge.Prelude.{
  ℕ, ◌+◌, ◌<◌, String, Bool, true, false, ◌&&◌, ◌||◌, not, Option, some, inl, inr, Bool-cases,
  Option-cases, if◌then◌else◌, if-elim, leb, is_some, length, lookup,
}
use development_bridge.Errors.{Result-cases, Error, ok, guard, ◌>>◌}
use development_bridge.Coordinator.Texts.{Text}
use development_bridge.Coordinator.Models.{
  PendingWake, Coordinator, Disposition, DeliveryMode, x_ui, min_web_turn_interval, max_channels,
}
use development_bridge.Coordinator.Rules.{
  lease_active, automatic_delivery_blocked, cool_down, touch_delivery_lease, delivery_lease_matches,
}
use development_bridge.Coordinator.Arming.{
  ArmArgs, valid_channel, valid_continuation, valid_arm, arm, arm_new,
}
use development_bridge.Coordinator.Delivery.{
  status, claim, touch_x, issue_delivery_lease, valid_session, lease_to_issue,
}
use development_bridge.Coordinator.Transport.{
  change_if, mark_preclaim_auth_required, clear_preclaim_auth_block, finalize_transport,
  finalize_wake, authorize_browser_preflight, ack, ack_wake, observe_model_turn, model_ack,
  model_ack_locked, cancel_pending, valid_name, is_claimed_by, has_continuation, find_continuation,
  set_wake, drop_wake, acknowledged,
}
use development_bridge.Coordinator.Escalation.{mark_escalation_notified, resolve_escalation}
use development_bridge.Coordinator.Calls.{
  Request, arms, asks_status, claims_wake, issues_lease, marks_auth, clears_auth, finalizes,
  authorizes, acks, observes, acks_model, cancels, notifies, resolves, perform, after,
}
use development_bridge.Coordinator.Cooldown.{
  Cooling, Cooling-save, Cooling-cool_down, Cooling-change_if, Cooling-finalize_wake,
  Cooling-ack_wake, Cooling-status_locked, Cooling-claim_locked, Cooling-arm_existing,
  Cooling-touch, Cooling-touch_x,
}

module _ (alnum : ℕ → Bool) (until now : ℕ) (before : now < until) where
  Cooling-arm :
      (next : String) (a : ArmArgs) (s : Coordinator)
      → Cooling until s
      → Cooling until (after s (arm alnum now next a s))
  unfolding arm arm_new
  Cooling-arm next a s h = elim (Bool-cases (valid_arm alnum a)) [
    | inr v ↦ rw (v, arm) h
    | inl v ↦ elim (Option-cases (lookup a.channel_id s.pending)) [
      | inr (w, e) ↦ rw (v, e, arm) (Cooling-arm_existing until now before alnum next a w s h)
      | inl e ↦ elim (Bool-cases (leb max_channels (length s.pending))) [
        | inl t ↦ rw (v, e, t, arm) h
        | inr t ↦ rw (v, e, t, arm) (Cooling-save until now before (set_wake a.channel_id _ s) h)
      ]
    ]
  ]

  Cooling-status :
      (backoff : ℕ) (next channel : String) (lease : Option String) (mode : DeliveryMode)
      (s : Coordinator)
      → Cooling until s
      → Cooling until (after s (status alnum now backoff next channel lease mode s))
  unfolding status
  Cooling-status backoff next channel lease mode s h =
      elim (Bool-cases (valid_channel alnum channel)) [
        | inr v ↦ rw (v, status) h
        | inl v ↦ elim (Bool-cases (delivery_lease_matches s channel lease mode)) [
          | inr t ↦ rw (v, t, status) h
          | inl t ↦
              rw (v, t, status)
                (Cooling-status_locked until now before backoff next channel lease mode
                  (touch_x channel lease mode now s)
                  (Cooling-touch_x until channel lease mode now s h))
        ]
      ]

  Cooling-claim :
      (backoff : ℕ) (token channel : String) (lease : Option String) (mode : DeliveryMode)
      (s : Coordinator)
      → Cooling until s
      → Cooling until (after s (claim alnum now backoff token channel lease mode s))
  unfolding claim
  Cooling-claim backoff token channel lease mode s h =
      elim (Bool-cases (valid_channel alnum channel)) [
        | inr v ↦ rw (v, claim) h
        | inl v ↦ elim (Bool-cases (delivery_lease_matches s channel lease mode)) [
          | inr t ↦ rw (v, t, claim) h
          | inl t ↦
              rw (v, t, claim)
                (Cooling-claim_locked until now before backoff token channel lease mode
                  (touch_x channel lease mode now s)
                  (Cooling-touch_x until channel lease mode now s h))
        ]
      ]

  Cooling-issue :
      (token channel : String) (session route : Option String) (generation : Option ℕ)
      (s : Coordinator)
      → Cooling until s
      → Cooling until
          (after s (issue_delivery_lease alnum now token channel session route generation s))
  unfolding issue_delivery_lease
  Cooling-issue token channel session route generation s h =
      elim (Bool-cases (valid_channel alnum channel && valid_session session)) [
        | inr v ↦ rw (v, issue_delivery_lease) h
        | inl v ↦
            elim (Result-cases
              (lease_to_issue alnum now token channel session route generation s)) [
                | inl (item, m) ↦
                    rw (v, m, issue_delivery_lease)
                      (Cooling-save until now before (record s { delivery_leases = _ }) h)
                | inr (e, m) ↦ rw (v, m, issue_delivery_lease) h
              ]
      ]

  -- an edit of one wake behind the checks of its arguments
  Cooling-guarded :
      (checks : Bool) (e : Error) (channel : String) (test : PendingWake → Bool)
      (f : PendingWake → PendingWake) (s : Coordinator)
      → Cooling until s
      → Cooling until (after s (guard checks e >> ok (change_if now channel test f s)))
  Cooling-guarded true e channel test f s h = Cooling-change_if until now before channel test f s h
  Cooling-guarded false e channel test f s h = h

  Cooling-finalize :
      (next channel token : String) (transport : Text) (d : Disposition) (detail : Option Text)
      (s : Coordinator)
      → Cooling until s
      → Cooling until
          (after s (finalize_transport alnum now next channel token transport d detail s))
  unfolding finalize_transport
  Cooling-finalize next channel token transport d detail s h =
      elim (Bool-cases (valid_channel alnum channel && valid_name alnum transport)) [
        | inr v ↦ rw (v, finalize_transport) h
        | inl v ↦ elim (Option-cases (lookup channel s.pending)) [
          | inl e ↦ rw (v, e, finalize_transport) h
          | inr (w, e) ↦ elim (Bool-cases (is_claimed_by token w && is_some w.continuation_id)) [
            | inr t ↦ rw (v, e, t, finalize_transport) h
            | inl t ↦
                rw (v, e, t, finalize_transport)
                  (Cooling-save until now before
                    (finalize_wake now next channel transport d detail w s)
                    (Cooling-finalize_wake until now before next channel transport d detail w s h))
          ]
        ]
      ]

  Cooling-ack :
      (next channel token : String) (lease : Option String) (s : Coordinator)
      → Cooling until s
      → Cooling until (after s (ack alnum now next channel token lease s))
  unfolding ack
  Cooling-ack next channel token lease s h = elim (Bool-cases (valid_channel alnum channel)) [
    | inr v ↦ rw (v, ack) h
    | inl v ↦ elim (Bool-cases (delivery_lease_matches s channel lease x_ui)) [
      | inr t ↦ rw (v, t, ack) h
      | inl t ↦
          let held = touch_delivery_lease channel lease now s in
          let g = Cooling-touch until channel lease now s h in
          elim (Option-cases (lookup channel held.pending)) [
            | inl e ↦ rw (v, t, e, ack) g
            | inr (w, e) ↦ elim (Bool-cases (is_claimed_by token w)) [
              | inr c ↦ rw (v, t, e, c, ack) g
              | inl c ↦
                  rw (v, t, e, c, ack)
                    (Cooling-save until now before (ack_wake now next channel w held)
                      (Cooling-ack_wake until now before next channel w held g))
            ]
          ]
    ]
  ]

  Cooling-observe :
      (channel id : String) (s : Coordinator)
      → Cooling until s
      → Cooling until (after s (observe_model_turn alnum now channel id s))
  unfolding observe_model_turn
  Cooling-observe channel id s h =
      elim (Bool-cases (valid_channel alnum channel && valid_continuation alnum id)) [
        | inr v ↦ rw (v, observe_model_turn) h
        | inl v ↦ elim (Option-cases (lookup channel s.pending)) [
          | inl e ↦ rw (v, e, observe_model_turn) h
          | inr (w, e) ↦
              elim (Bool-cases
                (has_continuation id w && (w.transport_delivered && not w.model_acknowledged))) [
                  | inr t ↦ rw (v, e, t, observe_model_turn) h
                  | inl t ↦
                      rw (v, e, t, observe_model_turn)
                        (Cooling-save until now before
                          (cool_down channel (now + min_web_turn_interval) s)
                          (Cooling-cool_down until channel (now + min_web_turn_interval) s h))
                ]
        ]
      ]

  Cooling-model_ack :
      (id : String) (s : Coordinator)
      → Cooling until s
      → Cooling until (after s (model_ack alnum now id s))
  unfolding model_ack model_ack_locked
  Cooling-model_ack id s h = elim (Bool-cases (valid_continuation alnum id)) [
    | inr v ↦ rw (v, model_ack) h
    | inl v ↦ elim (Option-cases (find_continuation id s.pending)) [
      | inl e ↦ rw (v, e, model_ack, model_ack_locked) h
      | inr ((k, w), e) ↦
          let s' = if lease_active w now then set_wake k (acknowledged w) s else drop_wake k s in
          rw (v, e, model_ack, model_ack_locked)
            (Cooling-save until now before s'
              (if-elim (Cooling until) (lease_active w now) (λ t. h) (λ t. h)))
    ]
  ]

  Cooling-cancel :
      (channel : String) (s : Coordinator)
      → Cooling until s
      → Cooling until (after s (cancel_pending alnum now channel s))
  unfolding cancel_pending
  Cooling-cancel channel s h = elim (Bool-cases (valid_channel alnum channel)) [
    | inr v ↦ rw (v, cancel_pending) h
    | inl v ↦ elim (Option-cases (lookup channel s.pending)) [
      | inl e ↦ rw (v, e, cancel_pending) h
      | inr (w, e) ↦
          elim (Bool-cases
            (is_some w.claim_id || (w.transport_delivered || automatic_delivery_blocked w))) [
              | inl t ↦ rw (v, e, t, cancel_pending) h
              | inr t ↦
                  rw (v, e, t, cancel_pending)
                    (Cooling-save until now before (drop_wake channel s) h)
            ]
    ]
  ]

  Cooling-notify :
      (id : String) (s : Coordinator)
      → Cooling until s
      → Cooling until (after s (mark_escalation_notified alnum now id s))
  unfolding mark_escalation_notified
  Cooling-notify id s h = elim (Bool-cases (valid_continuation alnum id)) [
    | inr v ↦ rw (v, mark_escalation_notified) h
    | inl v ↦ elim (Option-cases (find_continuation id s.pending)) [
      | inl e ↦ rw (v, e, mark_escalation_notified) h
      | inr ((k, w), e) ↦
          rw (v, e, mark_escalation_notified)
            (if-elim (Cooling until) (is_some w.escalation_notified_at) (λ t. h)
              (λ t.
                Cooling-save until now before
                  (set_wake k (record w { escalation_notified_at = some now }) s) h))
    ]
  ]

  Cooling-resolve :
      (id : String) (s : Coordinator)
      → Cooling until s
      → Cooling until (after s (resolve_escalation alnum now id s))
  unfolding resolve_escalation
  Cooling-resolve id s h = elim (Bool-cases (valid_continuation alnum id)) [
    | inr v ↦ rw (v, resolve_escalation) h
    | inl v ↦ elim (Option-cases (find_continuation id s.pending)) [
      | inl e ↦ rw (v, e, resolve_escalation) h
      | inr ((k, w), e) ↦
          rw (v, e, resolve_escalation) (Cooling-save until now before (drop_wake k s) h)
    ]
  ]

  -- no call shortens a cooldown before its end
  pub Cooling-perform :
      (c : Request) (s : Coordinator) → Cooling until s → Cooling until (perform alnum now c s)
  unfolding perform mark_preclaim_auth_required clear_preclaim_auth_block
      authorize_browser_preflight
  Cooling-perform (arms next a) s h = Cooling-arm next a s h
  Cooling-perform (asks_status backoff next channel lease mode) s h =
      Cooling-status backoff next channel lease mode s h
  Cooling-perform (claims_wake backoff token channel lease mode) s h =
      Cooling-claim backoff token channel lease mode s h
  Cooling-perform (issues_lease token channel session route generation) s h =
      Cooling-issue token channel session route generation s h
  Cooling-perform (marks_auth channel id transport detail) s h = Cooling-guarded _ _ channel _ _ s h
  Cooling-perform (clears_auth channel id transport) s h = Cooling-guarded _ _ channel _ _ s h
  Cooling-perform (finalizes next channel token transport d detail) s h =
      Cooling-finalize next channel token transport d detail s h
  Cooling-perform (authorizes channel id) s h = Cooling-guarded _ _ channel _ _ s h
  Cooling-perform (acks next channel token lease) s h = Cooling-ack next channel token lease s h
  Cooling-perform (observes channel id) s h = Cooling-observe channel id s h
  Cooling-perform (acks_model id) s h = Cooling-model_ack id s h
  Cooling-perform (cancels channel) s h = Cooling-cancel channel s h
  Cooling-perform (notifies id) s h = Cooling-notify id s h
  Cooling-perform (resolves id) s h = Cooling-resolve id s h
