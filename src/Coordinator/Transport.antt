-- ===== src/Coordinator/Transport.antt =====
-- app/coordinator/service.py: what follows a claim, by the transport (`finalize_transport`, `ack`), by the
-- model (`observe_model_turn`, `model_ack`) and by the owner. The notice of a delivery is sent after the
-- lock is released, and is left out.
use development_bridge.Prelude.{
  ℕ, ◌+◌, ◌-◌, min, String, Bool, true, false, ◌&&◌, ◌||◌, not, Option, none, some, List, [], ◌∷◌,
  ◌++◌, if◌then◌else◌, is_some, same_text, length, take, Dict, lookup, put, pop,
}
use development_bridge.Errors.{
  Result, ok, err, ◌>>◌, guard, raised, bridge_error, invalid_argument, policy_violation,
}
use development_bridge.Coordinator.Texts.{Text, codes, same, begins}
use development_bridge.Coordinator.Models.{
  Disposition, delivered, owner_input_required, x_ui, PendingWake, Coordinator,
  min_web_turn_interval, max_transport_detail_chars,
}
use development_bridge.Coordinator.Rules.{
  lease_active, is_blocking, same_disposition, automatic_delivery_blocked, undelivered_expired,
  delivery_lease_matches, touch_delivery_lease, save_state, cool_down, set_pending,
}
use development_bridge.Coordinator.Arming.{
  valid_channel, valid_continuation, promote_queued, between,
}
use development_bridge.Coordinator.Delivery.{is_disposition}

abbrev pub bounded_detail : Option Text → Option Text
bounded_detail none = none
bounded_detail (some t) = some (take max_transport_detail_chars t)

abbrev pub text_or_empty : Option Text → Text
text_or_empty none = []
text_or_empty (some t) = t

abbrev pub has_continuation : String → PendingWake → Bool
has_continuation id w = same_text w.continuation_id (some id)

abbrev pub set_wake : String → PendingWake → Coordinator → Coordinator
set_wake channel w s = set_pending (put channel w s.pending) s

abbrev pub drop_wake : String → Coordinator → Coordinator
drop_wake channel s = set_pending (pop channel s.pending) s

-- a change of the pending wake where a test allows it; did it take effect?
abbrev pub change_if :
    ℕ
    → String
    → (PendingWake → Bool)
    → (PendingWake → PendingWake)
    → Coordinator
    → Bool × Coordinator
change_if now channel test f s = elim (lookup channel s.pending) [
  | none ↦ (false, s)
  | some w ↦ if test w then (true, save_state now (set_wake channel (f w) s)) else (false, s)
]

abbrev pub auth_required : ℕ → Text → Option Text → PendingWake → PendingWake
auth_required now transport detail w = record w {
  owner_input_needed = true;
  last_transport_name = some transport;
  last_transport_disposition = some owner_input_required;
  last_transport_detail = some (
      take max_transport_detail_chars
        (codes "auth_preflight: " ++ text_or_empty (bounded_detail detail)));
  escalation_at = some now;
}

abbrev pub may_mark : String → PendingWake → Bool
may_mark id w =
    has_continuation id w
    && not (
        is_some w.claim_id
        || (w.transport_delivered || (w.model_acknowledged || automatic_delivery_blocked w)))

abbrev pub fresh_marker : PendingWake → Bool
fresh_marker w = begins (codes "auth_preflight:") (text_or_empty w.last_transport_detail)

abbrev pub legacy_marker : PendingWake → Bool
legacy_marker w =
    let detail = text_or_empty w.last_transport_detail in
    begins (codes "Probe failed") detail
    || (begins (codes "Probe process") detail
        || begins (codes "Target ChatGPT page requires login") detail)

abbrev pub same_name : Text → Option Text → Bool
same_name t none = false
same_name t (some u) = same u t

abbrev pub may_clear : String → Text → PendingWake → Bool
may_clear id transport w =
    has_continuation id w
    && not (
        not w.owner_input_needed
        || (not (is_disposition owner_input_required w)
            || (not (same_name transport w.last_transport_name)
                || (not (fresh_marker w || legacy_marker w)
                    || (w.transport_delivered || (w.model_acknowledged || is_some w.claim_id))))))

abbrev pub cleared : ℕ → PendingWake → PendingWake
cleared now w = record w {
  delivery_attempts = if legacy_marker w then w.delivery_attempts - 1 else w.delivery_attempts;
  owner_input_needed = false;
  last_transport_name = none;
  last_transport_disposition = none;
  last_transport_detail = none;
  escalation_at = none;
  escalation_notified_at = none;
  available_at = min w.available_at now;
}

-- what `finalize_transport` records of any attempt
abbrev pub recorded : Text → Disposition → Option Text → PendingWake → PendingWake
recorded transport d detail w = record w {
  last_transport_name = some transport;
  last_transport_disposition = some d;
  last_transport_detail = bounded_detail detail;
  owner_input_needed = same_disposition d owner_input_required;
  claim_id = none;
  lease_expires_at = none;
}

-- a wake that waits for the model after a delivery
abbrev pub handed_over : ℕ → PendingWake → PendingWake
handed_over now w = record w {
  transport_delivered = true;
  transport_delivered_at = some now;
  available_at = now;
  escalation_at = some (now + w.escalation_delay);
}

abbrev pub not_delivered : ℕ → Disposition → PendingWake → PendingWake
not_delivered now d w = if is_blocking d then record w { escalation_at = some now } else w

-- a delivery that the model acknowledged before it was reported
abbrev pub complete_acknowledged : ℕ → String → String → PendingWake → Coordinator → Coordinator
complete_acknowledged now next channel w s = (promote_queued now next channel w s).1

-- `finalize_transport` on the claimed wake
unfoldable pub finalize_wake :
    ℕ → String → String → Text → Disposition → Option Text → PendingWake → Coordinator → Coordinator
unfolding promote_queued
finalize_wake now next channel transport d detail w s =
    let r = recorded transport d detail w in
    if same_disposition d delivered
    then (let cooled = cool_down channel (now + min_web_turn_interval) s in
        if w.model_acknowledged
        then complete_acknowledged now next channel r cooled
        else set_wake channel (handed_over now r) cooled)
    else set_wake channel (not_delivered now d r) s

abbrev pub is_claimed_by : String → PendingWake → Bool
is_claimed_by claim w = same_text w.claim_id (some claim)

-- `ack` on the claimed wake
unfoldable pub ack_wake : ℕ → String → String → PendingWake → Coordinator → Coordinator
unfolding promote_queued
ack_wake now next channel w s =
    let cooled = cool_down channel (now + min_web_turn_interval) s in
    if not w.model_ack_required
    then drop_wake channel cooled
    else (if w.model_acknowledged
        then complete_acknowledged now next channel w cooled
        else set_wake channel
            (handed_over now (record w { claim_id = none; lease_expires_at = none })) cooled)

-- the loops over `self._pending.items()` that stop at a continuation id
abbrev pub find_continuation : String → Dict PendingWake → Option (String × PendingWake)
find_continuation id [] = none
find_continuation id ((k, w) ∷ d) =
    let rest = find_continuation id d in if has_continuation id w then some (k, w) else rest

-- the wake that `model_ack` keeps while its claim is active
abbrev pub acknowledged : PendingWake → PendingWake
acknowledged w = record w {
  queued_messages = [];
  queued_escalation_messages = [];
  model_acknowledged = true;
}

-- the messages that come back in the batch, if the continuation is known
unfoldable pub model_ack_locked : ℕ → String → Coordinator → Option (List Text) × Coordinator
model_ack_locked now id s = elim (find_continuation id s.pending) [
  | none ↦ (none, s)
  | some (channel, w) ↦ (
    some w.queued_messages,
    save_state now
        (if lease_active w now then set_wake channel (acknowledged w) s else drop_wake channel s),
  )
]

module _ (alnum : ℕ → Bool) where
  abbrev pub valid_name : Text → Bool
  valid_name t = between 1 128 (length t)

  unfoldable pub mark_preclaim_auth_required :
      ℕ → String → String → Text → Option Text → Coordinator → Result (Bool × Coordinator)
  mark_preclaim_auth_required now channel id transport detail s = do
    guard (valid_channel alnum channel && (valid_continuation alnum id && valid_name transport))
        (raised invalid_argument)
    ok (change_if now channel (may_mark id) (auth_required now transport detail) s)

  unfoldable pub clear_preclaim_auth_block :
      ℕ → String → String → Text → Coordinator → Result (Bool × Coordinator)
  clear_preclaim_auth_block now channel id transport s = do
    guard (valid_channel alnum channel && (valid_continuation alnum id && valid_name transport))
        (raised invalid_argument)
    ok (change_if now channel (may_clear id transport) (cleared now) s)

  unfoldable pub finalize_transport :
      ℕ
      → String
      → String
      → String
      → Text
      → Disposition
      → Option Text
      → Coordinator
      → Result (Bool × Coordinator)
  unfolding finalize_wake
  finalize_transport now next channel claim transport d detail s = do
    guard (valid_channel alnum channel && valid_name transport) (raised invalid_argument)
    ok (elim (lookup channel s.pending) [
      | none ↦ (false, s)
      | some w ↦
          if is_claimed_by claim w && is_some w.continuation_id
          then (true, save_state now (finalize_wake now next channel transport d detail w s))
          else (false, s)
    ])

  abbrev pub may_authorize : ℕ → String → PendingWake → Bool
  may_authorize now id w =
      has_continuation id w
      && not (
          not w.model_ack_required
          || (w.transport_delivered
              || (w.model_acknowledged
                  || (automatic_delivery_blocked w
                      || (undelivered_expired w now || lease_active w now)))))

  unfoldable pub authorize_browser_preflight :
      ℕ → String → String → Coordinator → Result (Bool × Coordinator)
  authorize_browser_preflight now channel id s = do
    guard (valid_channel alnum channel && valid_continuation alnum id) (raised invalid_argument)
    ok (
        change_if now channel (may_authorize now id)
          (λ w. record w { browser_preflight_authorized_at = some now }) s)

  -- `some false` where no such claim is pending, `none` where another lease is required
  unfoldable pub ack :
      ℕ
      → String
      → String
      → String
      → Option String
      → Coordinator
      → Result (Option Bool × Coordinator)
  unfolding ack_wake
  ack now next channel claim lease s = do
    guard (valid_channel alnum channel) (raised invalid_argument)
    ok (
        if delivery_lease_matches s channel lease x_ui
        then (let t = touch_delivery_lease channel lease now s in
            elim (lookup channel t.pending) [
              | none ↦ (some false, t)
              | some w ↦
                  if is_claimed_by claim w
                  then (some true, save_state now (ack_wake now next channel w t))
                  else (some false, t)
            ])
        else (none, s))

  unfoldable pub observe_model_turn :
      ℕ → String → String → Coordinator → Result (Bool × Coordinator)
  observe_model_turn now channel id s = do
    guard (valid_channel alnum channel && valid_continuation alnum id) (raised invalid_argument)
    ok (elim (lookup channel s.pending) [
      | none ↦ (false, s)
      | some w ↦
          if has_continuation id w && (w.transport_delivered && not w.model_acknowledged)
          then (true, save_state now (cool_down channel (now + min_web_turn_interval) s))
          else (false, s)
    ])

  unfoldable pub model_ack : ℕ → String → Coordinator → Result (Option (List Text) × Coordinator)
  unfolding model_ack_locked
  model_ack now id s = do
    guard (valid_continuation alnum id) (raised invalid_argument)
    ok (model_ack_locked now id s)

  -- cancel_pending, where the state is saved
  unfoldable pub cancel_pending : ℕ → String → Coordinator → Result (Bool × Coordinator)
  cancel_pending now channel s = do
    guard (valid_channel alnum channel) (raised invalid_argument)
    elim (lookup channel s.pending) [
      | none ↦ ok (false, s)
      | some w ↦
          if is_some w.claim_id || (w.transport_delivered || automatic_delivery_blocked w)
          then err (bridge_error policy_violation false)
          else ok (true, save_state now (drop_wake channel s))
    ]
