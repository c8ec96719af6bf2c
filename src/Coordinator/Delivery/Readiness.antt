-- ===== src/Coordinator/Delivery/Readiness.antt =====
-- app/coordinator/service.py: `status`, and the test of `claim`, which looks at the same conditions.
use development_bridge.Prelude.{
  ℕ, ◌-◌, max, String, Bool, false, ◌&&◌, ◌||◌, not, Option, none, some, eqb, ltb, leb,
  if◌then◌else◌, lookup,
}
use development_bridge.Errors.{Result, ok, ◌>>◌, guard, raised, invalid_argument}
use development_bridge.Coordinator.Models.{
  Disposition, uncertain, DeliveryMode, x_ui, direct, PendingWake, Coordinator,
}
use development_bridge.Coordinator.Rules.{
  or_zero, lease_active, same_disposition, automatic_delivery_blocked, undelivered_expired,
  exhausted, is_direct, web_turn_cooldown_until, other_claim_until, browser_preflight_authorized,
  delivery_lease_is_current, delivery_lease_matches, touch_delivery_lease, x_listener_active,
  x_listener_blocks_direct, save_state,
}
use development_bridge.Coordinator.Arming.{valid_channel, promote_queued}

-- what `status` says of a channel
pub data WakeState : Type 0 where
  standby idle in_claim transport_uncertain waiting_owner escalation_due : WakeState
  waiting_model_ack web_backoff web_cooldown x_listener preflight_needed waiting : WakeState

pub record Status : Type 0 where
  pub state : WakeState
  pub ready : Bool
  pub retry_after : ℕ
  pub lease_remaining : ℕ
  pub continuation_id : Option String

abbrev pub no_wake : WakeState → Status
no_wake state = record {
  state = state;
  ready = false;
  retry_after = 0;
  lease_remaining = 0;
  continuation_id = none;
}

abbrev pub is_disposition : Disposition → PendingWake → Bool
is_disposition d w = elim w.last_transport_disposition [
  | none ↦ false
  | some e ↦ same_disposition e d
]

-- (wake.escalation_at or float("inf")) <= now
abbrev pub escalation_reached : PendingWake → ℕ → Bool
escalation_reached w now = elim w.escalation_at [
  | none ↦ false
  | some t ↦ not (eqb t 0) && leb t now
]

abbrev pub ack_state : PendingWake → ℕ → WakeState
ack_state w now = if escalation_reached w now then escalation_due else waiting_model_ack

module _ (s : Coordinator) (channel : String) (lease : Option String) (mode : DeliveryMode)
    (now backoff : ℕ) where
  abbrev pub explicit : Bool
  explicit = delivery_lease_is_current s channel lease

  abbrev pub expired_undelivered : PendingWake → Bool
  expired_undelivered w = not (is_direct mode) && undelivered_expired w now

  abbrev pub web_blocked : PendingWake → Bool
  web_blocked w = not w.transport_delivered && ltb now backoff

  abbrev pub cooldown_blocked : PendingWake → Bool
  cooldown_blocked w =
      not w.transport_delivered
      && ltb now (max (web_turn_cooldown_until s channel) (other_claim_until s channel now))

  abbrev pub preflight_authorized : PendingWake → Bool
  preflight_authorized w =
      browser_preflight_authorized s w now || (not (is_direct mode) && explicit)

  abbrev pub direct_listener_blocked : PendingWake → Bool
  direct_listener_blocked w =
      is_direct mode && x_listener_blocks_direct w now (x_listener_active s channel now)

  abbrev pub browser_preflight_blocked : PendingWake → Bool
  browser_preflight_blocked w =
      not (is_direct mode)
      && (not w.transport_delivered
          && (not (lease_active w now)
              && (not (exhausted w)
                  && (not (expired_undelivered w)
                      && (not (web_blocked w)
                          && (not (cooldown_blocked w)
                              && (leb w.available_at now && not (preflight_authorized w))))))))

  abbrev pub ready_now : PendingWake → Bool
  ready_now w =
      not (lease_active w now)
      && (not (automatic_delivery_blocked w)
          && (not (exhausted w)
              && (not (expired_undelivered w)
                  && (not w.transport_delivered
                      && (not (web_blocked w)
                          && (not (cooldown_blocked w)
                              && (not (direct_listener_blocked w)
                                  && (not (browser_preflight_blocked w)
                                      && leb w.available_at now))))))))

  abbrev pub state_of : PendingWake → WakeState
  state_of w =
      if lease_active w now
      then in_claim
      else if is_disposition uncertain w
      then transport_uncertain
      else if w.owner_input_needed
      then waiting_owner
      else if expired_undelivered w
      then escalation_due
      else if w.transport_delivered
      then ack_state w now
      else if exhausted w
      then ack_state w now
      else if web_blocked w
      then web_backoff
      else if cooldown_blocked w
      then web_cooldown
      else if direct_listener_blocked w
      then x_listener
      else if browser_preflight_blocked w
      then preflight_needed
      else if w.model_ack_required && (ltb 0 w.delivery_attempts && not (ready_now w))
      then waiting_model_ack
      else waiting

  unfoldable pub status_of : PendingWake → Status
  status_of w = record {
    state = state_of w;
    ready = ready_now w;
    retry_after =
        if exhausted w || expired_undelivered w
        then 0
        else max w.available_at (
            max backoff (max (web_turn_cooldown_until s channel) (other_claim_until s channel now)))
          - now;
    lease_remaining = if lease_active w now then or_zero w.lease_expires_at - now else 0;
    continuation_id = w.continuation_id;
  }

  -- the disjunction in `claim`
  unfoldable pub claim_refused : PendingWake → Bool
  claim_refused w =
      ltb now w.available_at
      || (ltb now backoff
          || (ltb now (web_turn_cooldown_until s channel)
              || (ltb now (other_claim_until s channel now)
                  || (direct_listener_blocked w
                      || (lease_active w now
                          || (w.transport_delivered
                              || (w.model_acknowledged
                                  || (automatic_delivery_blocked w
                                      || (expired_undelivered w
                                          || ((not (is_direct mode)
                                                && (not explicit
                                                    && not (browser_preflight_authorized s w now)))
                                              || exhausted w))))))))))

-- the touch of an X caller that holds the current lease
abbrev pub touch_x : String → Option String → DeliveryMode → ℕ → Coordinator → Coordinator
touch_x channel lease direct now s = s
touch_x channel lease x_ui now s = touch_delivery_lease channel lease now s

abbrev pub status_or_idle :
    String
    → Option String
    → DeliveryMode
    → ℕ
    → ℕ
    → Coordinator
    → Option PendingWake
    → Status × Coordinator
status_or_idle channel lease mode now backoff s none = (no_wake idle, s)
status_or_idle channel lease mode now backoff s (some w) =
    (status_of s channel lease mode now backoff w, s)

-- `status` under the lock, with a matching lease; `continuation` is the id of a wake that is promoted
unfoldable pub status_locked :
    ℕ → ℕ → String → String → Option String → DeliveryMode → Coordinator → Status × Coordinator
unfolding status_of promote_queued
status_locked now backoff continuation channel lease mode s = elim (lookup channel s.pending) [
  | none ↦ (no_wake idle, s)
  | some w ↦
      if w.model_acknowledged && not (lease_active w now)
      then (let s' = save_state now (promote_queued now continuation channel w s).1 in
          status_or_idle channel lease mode now backoff s' (lookup channel s'.pending))
      else (status_of s channel lease mode now backoff w, s)
]

module _ (alnum : ℕ → Bool) where
  unfoldable pub status :
      ℕ
      → ℕ
      → String
      → String
      → Option String
      → DeliveryMode
      → Coordinator
      → Result (Status × Coordinator)
  unfolding status_locked
  status now backoff continuation channel lease mode s = do
    guard (valid_channel alnum channel) (raised invalid_argument)
    ok (
        if delivery_lease_matches s channel lease mode
        then status_locked now backoff continuation channel lease mode
            (touch_x channel lease mode now s)
        else (no_wake standby, s))
