-- ===== src/Coordinator/Changes.antt =====
-- What one call of `CoordinatorService` may do to the pending wakes.
use development_bridge.Prelude.{
  ℕ, suc, ◌≤◌, String, true, false, Option, none, some, ◌≡◌, refl, inl, ◌⊎◌, length, is_some, Dict,
  lookup, put, pop,
}
use development_bridge.Coordinator.Models.{PendingWake}
use development_bridge.Coordinator.Rules.{lease_active, other_claim}

-- the same continuation, at a later moment
pub record Evolves (w w' : PendingWake) : Type 0 where
  pub continuation : w'.continuation_id ≡ w.continuation_id
  pub required : w'.model_ack_required ≡ w.model_ack_required
  pub most : w'.max_delivery_attempts ≡ w.max_delivery_attempts
  pub delays : w'.retry_delays ≡ w.retry_delays
  pub delivered : w.transport_delivered ≡ true → w'.transport_delivered ≡ true
  pub acknowledged :
      w'.model_acknowledged ≡ true
      → (w.model_acknowledged ≡ true) ⊎ (is_some w.continuation_id ≡ true)
  pub attempts :
      w.delivery_attempts ≤ w.max_delivery_attempts
      → w'.delivery_attempts ≤ w'.max_delivery_attempts
  pub queues :
      length w.queued_messages ≡ length w.queued_escalation_messages
      → length w'.queued_messages ≡ length w'.queued_escalation_messages

-- no claim becomes active
abbrev pub Calm : PendingWake → PendingWake → Type 0
Calm w w' = (t : ℕ) → lease_active w' t ≡ true → lease_active w t ≡ true

-- a wake that `arm` makes
pub record IsNew (drawn : Option String) (w : PendingWake) : Type 0 where
  pub unclaimed : w.claim_id ≡ none
  pub undelivered : w.transport_delivered ≡ false
  pub unanswered : w.model_acknowledged ≡ false
  pub continuation : (w.continuation_id ≡ none) ⊎ (w.continuation_id ≡ drawn)
  pub required : is_some w.continuation_id ≡ w.model_ack_required
  pub delays : w.model_ack_required ≡ true → suc (length w.retry_delays) ≡ w.max_delivery_attempts
  pub attempts : w.delivery_attempts ≡ 0
  pub queues : length w.queued_messages ≡ length w.queued_escalation_messages

-- a wake that takes over the queued messages of an acknowledged one
pub record IsNext (drawn : Option String) (w w' : PendingWake) : Type 0 where
  pub answered : w.model_acknowledged ≡ true
  pub unclaimed : w'.claim_id ≡ none
  pub undelivered : w'.transport_delivered ≡ false
  pub unanswered : w'.model_acknowledged ≡ false
  pub continuation : w'.continuation_id ≡ drawn
  pub drawn_some : is_some drawn ≡ true
  pub required : w'.model_ack_required ≡ true
  pub most : w'.max_delivery_attempts ≡ w.max_delivery_attempts
  pub delays : w'.retry_delays ≡ w.retry_delays
  pub attempts : w'.delivery_attempts ≡ 0
  pub queues : length w'.queued_messages ≡ length w'.queued_escalation_messages

pub data Change (drawn : Option String) (now : ℕ) (d d' : Dict PendingWake) : Type 0 where
  kept : d' ≡ d → Change drawn now d d'
  dropped : (k : String) → d' ≡ pop k d → Change drawn now d d'
  opened : (k : String) (w : PendingWake) → IsNew drawn w → d' ≡ put k w d → Change drawn now d d'
  promotes :
      (k : String) (w w' : PendingWake)
      → lookup k d ≡ some w
      → IsNext drawn w w'
      → d' ≡ put k w' d
      → Change drawn now d d'
  changed :
      (k : String) (w w' : PendingWake)
      → lookup k d ≡ some w
      → Evolves w w'
      → Calm w w'
      → d' ≡ put k w' d
      → Change drawn now d d'
  taken :
      (k : String) (w w' : PendingWake)
      → lookup k d ≡ some w
      → Evolves w w'
      → w.transport_delivered ≡ false
      → other_claim k now d ≤ now
      → d' ≡ put k w' d
      → Change drawn now d d'

pub Evolves-refl : (w : PendingWake) → Evolves w w
Evolves-refl w = record {
  continuation = refl;
  required = refl;
  most = refl;
  delays = refl;
  delivered = λ h. h;
  acknowledged = λ h. inl h;
  attempts = λ h. h;
  queues = λ h. h;
}
