-- ===== src/Coordinator/Examples.antt =====
-- Concrete runs of `CoordinatorService` (app/coordinator/service.py).
use development_bridge.Prelude.{
  ℕ, ◌+◌, String, Bool, true, false, ◌&&◌, Option, none, some, List, [], ◌∷◌, ◌≡◌, ◌≢◌, refl, sym,
  ap, arith, leb, eq_iff, ◌≤◌, inl, inr, Bool-cases, ◌==◌,
}
use development_bridge.Coordinator.Texts.{codes, join, split}
use development_bridge.Coordinator.Models.{PendingWake, Coordinator, delivered, direct}
use development_bridge.Coordinator.Rules.{lease_active}
use development_bridge.Coordinator.Arming.{
  ArmArgs, coalesce, arm, arm_new, batch_parts, bounded_escalation, pack, promote_queued, new_wake,
  promoted,
}
use development_bridge.Coordinator.Delivery.{
  status, status_locked, status_of, claim, claim_locked, claim_wake, claim_refused, attempted,
  claims, index_error, Claimed,
}
use development_bridge.Coordinator.Transport.{finalize_transport, finalize_wake}
use development_bridge.Coordinator.Sound.{Sound, Valid, run-Valid, run-Sound}
use development_bridge.Coordinator.Exclusion.{claims_exclusive}
use development_bridge.Coordinator.Grants.{claim-run}
use development_bridge.Coordinator.Once.{OnlyAt, claim-finalize_transport}
use development_bridge.Coordinator.Agreement.{is_granted, status_locked-claim_locked}
use development_bridge.Coordinator.Spacing.{claim-delivered}
use development_bridge.Coordinator.Packing.{Carries, promote_queued-Carries}
use development_bridge.Coordinator.Calls.{
  Request, arms, asks_status, claims_wake, finalizes, perform, run, after,
}

abbrev alnum : ℕ → Bool
alnum c = leb 48 c && leb c 122

abbrev empty : Coordinator
empty = record {
  pending = [];
  cooldown_until = [];
  global_cooldown_until = 0;
  delivery_leases = [];
  started_at = 0;
  browser_preflight_required = false;
  durable = true;
}

abbrev args : String → String → ArmArgs
args channel message = record {
  message = codes message;
  channel_id = channel;
  delay = 0;
  conflict = coalesce;
  model_ack_required = true;
  max_delivery_attempts = 2;
  retry_delays = 30000 ∷ [];
  escalation_delay = 0;
  escalation_message = none;
}

abbrev history : List (ℕ × Request)
history =
    (1000, arms "cont_00001" (args "a" "job done"))
    ∷ (1000, arms "cont_00002" (args "b" "job failed"))
    ∷ (2000, claims_wake 0 "t1" "a" none direct)
    ∷ (3000, claims_wake 0 "t2" "b" none direct)
    ∷ []

abbrev waiting_wake : String → String → PendingWake
waiting_wake id message = record (new_wake (codes message) 1000 1000) {
  continuation_id = some id;
  model_ack_required = true;
  max_delivery_attempts = 2;
  retry_delays = 30000 ∷ [];
}

abbrev held_wake : PendingWake
held_wake = record (waiting_wake "cont_00001" "job done") {
  available_at = 52000;
  claim_id = some "t1";
  lease_expires_at = some 22000;
  delivery_attempts = 1;
}

empty-Valid : Valid empty
empty-Valid = record { distinct = tt; sound = λ k w e. absurd (ground (arith, e)) }

-- the second claim is refused
claims_exclusive_example : lease_active (waiting_wake "cont_00002" "job failed") 3000 ≡ false
unfolding run perform arm arm_new claim claim_locked claim_wake claim_refused attempted batch_parts
    split finalize_transport finalize_wake promote_queued status status_locked status_of
claims_exclusive_example =
    claims_exclusive alnum 0 history empty "a" "b" held_wake
      (waiting_wake "cont_00002" "job failed") 3000 tt
      (omega arith, (omega arith, (omega arith, (omega arith, tt))))
      (λ j k v w n l e. absurd (ground (arith, e))) (omega arith) refl refl
      (λ h. absurd (ground (arith, (eq_iff "a" "b").1 h))) refl

run-Sound_example : Sound held_wake
unfolding run perform arm arm_new claim claim_locked claim_wake claim_refused attempted batch_parts
    split finalize_transport finalize_wake promote_queued status status_locked status_of
run-Sound_example = run-Sound alnum history empty "a" held_wake empty-Valid refl

abbrev second : Claimed
second = record {
  claim_id = "t2";
  message = codes "job failed";
  continuation_id = some "cont_00002";
  delivery_attempt = 1;
}

-- the claim of "a" is delivered
abbrev claimed_state : Coordinator
unfolding run perform arm arm_new claim claim_locked claim_wake claim_refused attempted batch_parts
    split finalize_transport finalize_wake promote_queued status status_locked status_of
claimed_state = run alnum history empty

abbrev delivered_state : Coordinator
unfolding run perform arm arm_new claim claim_locked claim_wake claim_refused attempted batch_parts
    split finalize_transport finalize_wake promote_queued status status_locked status_of
delivered_state = after claimed_state (
    finalize_transport alnum 4000 "cont_00003" "a" "t1" (codes "direct") delivered none
      claimed_state)

abbrev between_calls : List (ℕ × Request)
between_calls = (5000, asks_status 0 "cont_00004" "b" none direct) ∷ []

abbrev later_state : Coordinator
unfolding run perform arm arm_new claim claim_locked claim_wake claim_refused attempted batch_parts
    split finalize_transport finalize_wake promote_queued status status_locked status_of
later_state =
    after delivered_state
      (claim alnum 34000 0 "t2" "b" none direct (run alnum between_calls delivered_state))

claim-run_example : claims second ≢ index_error
unfolding run perform arm arm_new claim claim_locked claim_wake claim_refused attempted batch_parts
    split finalize_transport finalize_wake promote_queued status status_locked status_of
claim-run_example =
    claim-run alnum (between_calls) 34000 0 "t2" "b" none direct delivered_state later_state
      (claims second)
      (run-Valid alnum
        ((4000, finalizes "cont_00003" "a" "t1" (codes "direct") delivered none) ∷ []) claimed_state
        (run-Valid alnum history empty empty-Valid))
      refl

claim-delivered_example : 4000 + 30000 ≤ 34000
unfolding run perform arm arm_new claim claim_locked claim_wake claim_refused attempted batch_parts
    split finalize_transport finalize_wake promote_queued status status_locked status_of
claim-delivered_example =
    claim-delivered alnum 4000 "cont_00003" "a" (codes "direct") none "t1" claimed_state
      delivered_state between_calls 34000 0 "t2" "b" none direct second later_state refl
      (omega arith, tt) (omega arith) refl

unshared : OnlyAt "cont_00001" "a" claimed_state.pending
unfolding run perform arm arm_new claim claim_locked claim_wake claim_refused attempted batch_parts
    split finalize_transport finalize_wake promote_queued status status_locked status_of
unshared k w e c = elim (Bool-cases ("a" == k)) [
  | inl t ↦ sym ((eq_iff "a" k).0 t)
  | inr t ↦ elim (Bool-cases ("b" == k)) [
    | inl u ↦
        let same : waiting_wake "cont_00002" "job failed" ≡ w = ground (arith, e, t, u) in
        absurd (
          ground (
            arith,
            ap (λ (x : PendingWake). x.continuation_id) same,
            c,
            eq_iff "cont_00002" "cont_00001",
          ))
    | inr u ↦ absurd (ground (arith, e, t, u))
  ]
]

claim-finalize_transport_example : ◌≢◌ {A = Option String} (some "cont_00002") (some "cont_00001")
unfolding run perform arm arm_new claim claim_locked claim_wake claim_refused attempted batch_parts
    split finalize_transport finalize_wake promote_queued status status_locked status_of
claim-finalize_transport_example =
    claim-finalize_transport alnum 4000 "cont_00003" "cont_00001" "a" (codes "direct") none "t1"
      claimed_state delivered_state between_calls 34000 0 "t2" "b" none direct second later_state
      (refl, (refl, tt)) unshared
      (λ h. absurd (ground (arith, (eq_iff "cont_00003" "cont_00001").1 h))) refl
      ((λ h. absurd (ground (arith, h, eq_iff "cont_00004" "cont_00001"))), tt) refl

status_locked-claim_locked_example :
    (status_locked 34000 0 "cont_00004" "b" none direct delivered_state).0.ready
    ≡ is_granted (claim_locked 34000 0 "t2" "b" none direct delivered_state).0
unfolding run perform arm arm_new claim claim_locked claim_wake claim_refused attempted batch_parts
    split finalize_transport finalize_wake promote_queued status status_locked status_of
status_locked-claim_locked_example =
    status_locked-claim_locked "b" none direct 34000 0 "t2" "cont_00004" delivered_state
      (run-Valid alnum
        ((4000, finalizes "cont_00003" "a" "t1" (codes "direct") delivered none) ∷ []) claimed_state
        (run-Valid alnum history empty empty-Valid)).sound

-- an acknowledged wake with two queued messages
abbrev answered_wake : PendingWake
answered_wake = record (waiting_wake "cont_00001" "job done") {
  model_acknowledged = true;
  queued_messages = codes "tests ok" ∷ codes "build ok" ∷ [];
  queued_escalation_messages = [] ∷ [] ∷ [];
}

answered_wake-Sound : Sound answered_wake
answered_wake-Sound = record {
  continuation = refl;
  delays = λ h. refl;
  answered = λ h. refl;
  attempts = omega arith;
  queues = refl;
}

abbrev next_wake : PendingWake
unfolding promote_queued pack join bounded_escalation
next_wake = promoted 9000 "cont_00002" 0 answered_wake

promote_queued-Carries_example : Carries answered_wake next_wake
unfolding promote_queued pack join bounded_escalation
promote_queued-Carries_example =
    promote_queued-Carries 9000 "cont_00002" "a" answered_wake next_wake empty answered_wake-Sound
      refl
