-- ===== src/Coordinator/Escalation.antt =====
-- app/coordinator/service.py: the escalations of wakes that were not delivered or not answered. The text
-- of an escalation is left out.
use development_bridge.Prelude.{
  ℕ, String, Bool, true, false, ◌&&◌, ◌||◌, not, Option, none, some, List, [], ◌∷◌, if◌then◌else◌,
  leb, is_some, length, Dict,
}
use development_bridge.Errors.{Result, ok, ◌>>◌, guard, raised, invalid_argument}
use development_bridge.Coordinator.Models.{uncertain, PendingWake, Coordinator}
use development_bridge.Coordinator.Rules.{
  automatic_delivery_blocked, undelivered_expired, save_state,
}
use development_bridge.Coordinator.Arming.{valid_continuation}
use development_bridge.Coordinator.Delivery.{is_disposition}
use development_bridge.Coordinator.Transport.{find_continuation, set_wake, drop_wake}

pub data EscalationReason : Type 0 where
  undelivered_timeout transport_uncertain owner_input delivery_exhausted : EscalationReason

pub record Escalation : Type 0 where
  pub continuation_id : String
  pub channel_id : String
  pub delivery_attempts : ℕ
  pub queued_events : ℕ
  pub reason : EscalationReason

-- normal_due
abbrev pub normal_due : PendingWake → ℕ → Bool
normal_due w now =
    elim w.escalation_at [ none ↦ false | some t ↦ leb t now ]
    && (w.transport_delivered || leb w.max_delivery_attempts w.delivery_attempts)

abbrev pub escalation_reason : PendingWake → ℕ → EscalationReason
escalation_reason w now =
    if undelivered_expired w now
    then undelivered_timeout
    else if is_disposition uncertain w
    then transport_uncertain
    else if automatic_delivery_blocked w
    then owner_input
    else delivery_exhausted

abbrev pub is_due : PendingWake → ℕ → Bool
is_due w now =
    not w.model_acknowledged
    && (not (is_some w.escalation_notified_at)
        && (undelivered_expired w now || (normal_due w now || automatic_delivery_blocked w)))

abbrev pub escalation_of : String → PendingWake → ℕ → Option Escalation
escalation_of channel w now = elim w.continuation_id [
  | none ↦ none
  | some id ↦
      if is_due w now
      then some (record {
        continuation_id = id;
        channel_id = channel;
        delivery_attempts = w.delivery_attempts;
        queued_events = length w.queued_messages;
        reason = escalation_reason w now;
      })
      else none
]

abbrev pub due_of : ℕ → Dict PendingWake → List Escalation
due_of now [] = []
due_of now ((k, w) ∷ d) =
    let rest = due_of now d in elim (escalation_of k w now) [ none ↦ rest | some e ↦ e ∷ rest ]

unfoldable pub escalations_due : ℕ → Coordinator → List Escalation
escalations_due now s = due_of now s.pending

module _ (alnum : ℕ → Bool) where
  unfoldable pub mark_escalation_notified : ℕ → String → Coordinator → Result (Bool × Coordinator)
  mark_escalation_notified now id s = do
    guard (valid_continuation alnum id) (raised invalid_argument)
    ok (elim (find_continuation id s.pending) [
      | none ↦ (false, s)
      | some (channel, w) ↦ (
        true,
        if is_some w.escalation_notified_at
            then s
            else save_state now
                (set_wake channel (record w { escalation_notified_at = some now }) s),
      )
    ])

  unfoldable pub resolve_escalation : ℕ → String → Coordinator → Result (Bool × Coordinator)
  resolve_escalation now id s = do
    guard (valid_continuation alnum id) (raised invalid_argument)
    ok (elim (find_continuation id s.pending) [
      | none ↦ (false, s)
      | some (channel, w) ↦ (true, save_state now (drop_wake channel s))
    ])
