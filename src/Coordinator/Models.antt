-- ===== src/Coordinator/Models.antt =====
-- The state of `CoordinatorService` (app/coordinator/service.py). Times and delays are whole milliseconds,
-- where the source has seconds as floats. The session bindings are not here.
use development_bridge.Prelude.{ℕ, String, Bool, Option, List, Dict}
use development_bridge.Coordinator.Texts.{Text}

-- TRANSPORT_DISPOSITIONS
pub data Disposition : Type 0 where
  delivered not_submitted uncertain owner_input_required : Disposition

pub data DeliveryMode : Type 0 where
  x_ui direct : DeliveryMode

pub record PendingWake : Type 0 where
  pub message : Text
  pub available_at : ℕ
  pub created_at : ℕ
  pub claim_id : Option String
  pub lease_expires_at : Option ℕ
  pub continuation_id : Option String
  pub model_ack_required : Bool
  pub model_acknowledged : Bool
  pub delivery_attempts : ℕ
  pub max_delivery_attempts : ℕ
  pub retry_delays : List ℕ
  pub escalation_delay : ℕ
  pub escalation_message : Option Text
  pub escalation_at : Option ℕ
  pub escalation_notified_at : Option ℕ
  pub transport_delivered : Bool
  pub transport_delivered_at : Option ℕ
  pub last_transport_name : Option Text
  pub last_transport_disposition : Option Disposition
  pub last_transport_detail : Option Text
  pub owner_input_needed : Bool
  pub browser_preflight_authorized_at : Option ℕ
  pub queued_messages : List Text
  pub queued_escalation_messages : List Text

-- An item of `_delivery_leases`.
pub record Lease : Type 0 where
  pub lease_id : String
  pub issued_at : ℕ
  pub refreshed_at : ℕ
  pub session_id : Option String
  pub route_id : Option String
  pub generation : Option ℕ

pub record Coordinator : Type 0 where
  pub pending : Dict PendingWake
  pub cooldown_until : Dict ℕ
  pub global_cooldown_until : ℕ
  pub delivery_leases : Dict Lease
  pub started_at : ℕ
  pub browser_preflight_required : Bool
  -- is there a `state_path`?
  pub durable : Bool

abbrev pub lease_time : ℕ
lease_time = 20000

abbrev pub job_wake_debounce : ℕ
job_wake_debounce = 5000

abbrev pub max_batch_debounce_window : ℕ
max_batch_debounce_window = 15000

abbrev pub min_web_turn_interval : ℕ
min_web_turn_interval = 30000

abbrev pub browser_preflight_ttl : ℕ
browser_preflight_ttl = 15000

abbrev pub x_listener_heartbeat_ttl : ℕ
x_listener_heartbeat_ttl = 15000

abbrev pub x_direct_fallback_grace : ℕ
x_direct_fallback_grace = 20000

abbrev pub max_undelivered_age : ℕ
max_undelivered_age = 1800000

abbrev pub max_delay : ℕ
max_delay = 300000

abbrev pub max_channels : ℕ
max_channels = 64

abbrev pub max_batch_events : ℕ
max_batch_events = 128

abbrev pub max_message_chars : ℕ
max_message_chars = 4000

abbrev pub max_batch_message_chars : ℕ
max_batch_message_chars = 32000

abbrev pub max_visible_continuation_reason_chars : ℕ
max_visible_continuation_reason_chars = 500

abbrev pub max_escalation_message_chars : ℕ
max_escalation_message_chars = 3500

abbrev pub max_transport_detail_chars : ℕ
max_transport_detail_chars = 1000
