-- ===== src/Coordinator/Rules.antt =====
-- The tests of app/coordinator/service.py: when a wake is claimed, blocked, expired, exhausted or cooling
-- down, and `_save_state`.
use development_bridge.Prelude.{
  ℕ, ◌+◌, max, String, Bool, true, false, ◌&&◌, ◌||◌, not, Option, none, some, ◌∷◌, [], ◌==◌,
  if◌then◌else◌, ltb, leb, is_some, same_text, select, Dict, lookup, put,
}
use development_bridge.Coordinator.Models.{
  Disposition, delivered, not_submitted, uncertain, owner_input_required, DeliveryMode, x_ui,
  direct, PendingWake, Lease, Coordinator, browser_preflight_ttl, x_listener_heartbeat_ttl,
  x_direct_fallback_grace, max_undelivered_age,
}

-- value or 0
abbrev pub or_zero : Option ℕ → ℕ
or_zero none = 0
or_zero (some t) = t

-- _lease_active
abbrev pub lease_active : PendingWake → ℕ → Bool
lease_active w now = is_some w.claim_id && ltb now (or_zero w.lease_expires_at)

abbrev pub same_disposition : Disposition → Disposition → Bool
same_disposition delivered delivered = true
same_disposition not_submitted not_submitted = true
same_disposition uncertain uncertain = true
same_disposition owner_input_required owner_input_required = true
same_disposition _ _ = false

abbrev pub is_blocking : Disposition → Bool
is_blocking uncertain = true
is_blocking owner_input_required = true
is_blocking _ = false

-- _automatic_delivery_blocked
abbrev pub automatic_delivery_blocked : PendingWake → Bool
automatic_delivery_blocked w = elim w.last_transport_disposition [
  | none ↦ false
  | some d ↦ is_blocking d
]

-- _undelivered_expired
abbrev pub undelivered_expired : PendingWake → ℕ → Bool
undelivered_expired w now =
    is_some w.continuation_id
    && (not w.transport_delivered
        && (not w.model_acknowledged && leb (w.created_at + max_undelivered_age) now))

-- wake.model_ack_required and wake.delivery_attempts >= wake.max_delivery_attempts
abbrev pub exhausted : PendingWake → Bool
exhausted w = w.model_ack_required && leb w.max_delivery_attempts w.delivery_attempts

abbrev pub is_direct : DeliveryMode → Bool
is_direct direct = true
is_direct x_ui = false

-- _web_turn_cooldown_until
abbrev pub web_turn_cooldown_until : Coordinator → String → ℕ
web_turn_cooldown_until s channel =
    max s.global_cooldown_until (or_zero (lookup channel s.cooldown_until))

-- _other_claim_until
abbrev pub other_claim : String → ℕ → Dict PendingWake → ℕ
other_claim channel now [] = 0
other_claim channel now ((k, w) ∷ d) =
    let rest = other_claim channel now d in
    if not (k == channel) && lease_active w now then max (or_zero w.lease_expires_at) rest else rest

abbrev pub other_claim_until : Coordinator → String → ℕ → ℕ
other_claim_until s channel now = other_claim channel now s.pending

-- _browser_preflight_authorized
abbrev pub browser_preflight_authorized : Coordinator → PendingWake → ℕ → Bool
browser_preflight_authorized s w now =
    not s.browser_preflight_required
    || (not w.model_ack_required || elim w.browser_preflight_authorized_at [
      | none ↦ false
      | some t ↦ ltb now (t + browser_preflight_ttl)
    ])

-- _delivery_lease_is_current
abbrev pub delivery_lease_is_current : Coordinator → String → Option String → Bool
delivery_lease_is_current s channel lease = elim (lookup channel s.delivery_leases) [
  | none ↦ false
  | some item ↦ same_text lease (some item.lease_id)
]

-- _delivery_lease_matches
abbrev pub delivery_lease_matches : Coordinator → String → Option String → DeliveryMode → Bool
delivery_lease_matches s channel lease mode =
    is_direct mode || elim (lookup channel s.delivery_leases) [
      | none ↦ not (is_some lease)
      | some item ↦ same_text lease (some item.lease_id)
    ]

-- _touch_delivery_lease
abbrev pub touched : ℕ → Lease → Lease
touched now item = record item { refreshed_at = now }

abbrev pub touch_delivery_lease : String → Option String → ℕ → Coordinator → Coordinator
touch_delivery_lease channel lease now s = elim (lookup channel s.delivery_leases) [
  | none ↦ s
  | some item ↦
      if same_text lease (some item.lease_id)
      then record s { delivery_leases = put channel (touched now item) s.delivery_leases }
      else s
]

-- _x_listener_active
abbrev pub x_listener_active : Coordinator → String → ℕ → Bool
x_listener_active s channel now = elim (lookup channel s.delivery_leases) [
  | none ↦ false
  | some item ↦ leb now (max item.refreshed_at s.started_at + x_listener_heartbeat_ttl)
]

-- _x_listener_blocks_direct
abbrev pub x_listener_blocks_direct : PendingWake → ℕ → Bool → Bool
x_listener_blocks_direct w now active =
    active
    && (not (undelivered_expired w now) && ltb now (w.available_at + x_direct_fallback_grace))

-- what `_save_state` does to the state before it writes it to `state_path`
abbrev pub save_state : ℕ → Coordinator → Coordinator
save_state now s =
    if s.durable
    then record s {
      cooldown_until = select (λ o. ltb now o.1) s.cooldown_until;
      global_cooldown_until =
          if leb s.global_cooldown_until now then 0 else s.global_cooldown_until;
    }
    else s

-- the two assignments of a cooldown after a delivery
abbrev pub cool_down : String → ℕ → Coordinator → Coordinator
cool_down channel until s = record s {
  global_cooldown_until = max s.global_cooldown_until until;
  cooldown_until =
      put channel (max (or_zero (lookup channel s.cooldown_until)) until) s.cooldown_until;
}

abbrev pub set_pending : Dict PendingWake → Coordinator → Coordinator
set_pending d s = record s { pending = d }
