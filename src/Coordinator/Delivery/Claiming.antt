-- ===== src/Coordinator/Delivery/Claiming.antt =====
-- app/coordinator/service.py: `claim`.
use development_bridge.Prelude.{
  ℕ, zero, suc, ◌+◌, ◌-◌, String, Bool, Option, none, some, List, [], ◌∷◌, ltb, if◌then◌else◌,
  lookup, put,
}
use development_bridge.Errors.{Result, ok, ◌>>◌, guard, raised, invalid_argument}
use development_bridge.Coordinator.Texts.{Text}
use development_bridge.Coordinator.Models.{DeliveryMode, PendingWake, Coordinator, lease_time}
use development_bridge.Coordinator.Rules.{delivery_lease_matches, save_state, set_pending}
use development_bridge.Coordinator.Arming.{valid_channel}
use development_bridge.Coordinator.Delivery.Readiness.{claim_refused, touch_x}

-- xs[n]
abbrev pub nth : ℕ → List ℕ → Option ℕ
nth n [] = none
nth zero (d ∷ ds) = some d
nth (suc n) (d ∷ ds) = nth n ds

pub record Claimed : Type 0 where
  pub claim_id : String
  pub message : Text
  pub continuation_id : Option String
  pub delivery_attempt : ℕ

pub data ClaimReply : Type 0 where
  claims : Claimed → ClaimReply
  refuses : ClaimReply
  -- a delivery lease is required
  stands_by : ClaimReply
  -- IndexError of `retry_delays_seconds`
  index_error : ClaimReply

abbrev pub leased : ℕ → String → PendingWake → PendingWake
leased now token w = record w {
  claim_id = some token;
  lease_expires_at = some (now + lease_time);
  browser_preflight_authorized_at = none;
}

-- the part of `claim` for a wake that needs the model's answer; `none` where it raises IndexError
unfoldable pub attempted : ℕ → PendingWake → Option PendingWake
attempted now w =
    let attempts = w.delivery_attempts + 1 in
    let expires = now + lease_time in
    if ltb attempts w.max_delivery_attempts
    then elim (nth (attempts - 1) w.retry_delays) [
      | none ↦ none
      | some d ↦ some (record w { delivery_attempts = attempts; available_at = expires + d })
    ]
    else some (record w {
      delivery_attempts = attempts;
      available_at = expires;
      escalation_at = some (expires + w.escalation_delay);
    })

abbrev pub claimed_wake : ℕ → String → PendingWake → Option PendingWake
claimed_wake now token w =
    if w.model_ack_required then attempted now (leased now token w) else some (leased now token w)

-- where it raises, the wake keeps the claim, and the attempt is counted
abbrev pub half_claimed : ℕ → String → PendingWake → PendingWake
half_claimed now token w = record (leased now token w) {
  delivery_attempts = w.delivery_attempts + 1;
}

unfoldable pub claim_wake :
    ℕ → String → String → PendingWake → Coordinator → ClaimReply × Coordinator
unfolding attempted
claim_wake now token channel w s = elim (claimed_wake now token w) [
  | none ↦ (index_error, set_pending (put channel (half_claimed now token w) s.pending) s)
  | some w' ↦ (
    claims (record {
      claim_id = token;
      message = w'.message;
      continuation_id = w'.continuation_id;
      delivery_attempt = w'.delivery_attempts;
    }),
    save_state now (set_pending (put channel w' s.pending) s),
  )
]

-- `claim` under the lock, with a matching lease
unfoldable pub claim_locked :
    ℕ → ℕ → String → String → Option String → DeliveryMode → Coordinator → ClaimReply × Coordinator
unfolding claim_refused claim_wake
claim_locked now backoff token channel lease mode s = elim (lookup channel s.pending) [
  | none ↦ (refuses, s)
  | some w ↦
      if claim_refused s channel lease mode now backoff w
      then (refuses, s)
      else claim_wake now token channel w s
]

module _ (alnum : ℕ → Bool) where
  unfoldable pub claim :
      ℕ
      → ℕ
      → String
      → String
      → Option String
      → DeliveryMode
      → Coordinator
      → Result (ClaimReply × Coordinator)
  unfolding claim_locked
  claim now backoff token channel lease mode s = do
    guard (valid_channel alnum channel) (raised invalid_argument)
    ok (
        if delivery_lease_matches s channel lease mode
        then claim_locked now backoff token channel lease mode (touch_x channel lease mode now s)
        else (stands_by, s))
