-- ===== src/Coordinator/Arming.antt =====
-- app/coordinator/service.py: `arm`, with the batching of messages in `_coalesce_resilient_locked` and
-- `_promote_queued_locked`. `alnum` is `str.isalnum` of one character; `now`, which the source reads again
-- inside a call, is one argument; the new continuation id is an argument.
use development_bridge.Prelude.{
  ℕ, ◌+◌, ◌-◌, min, max, String, Bool, true, false, ◌&&◌, ◌||◌, not, Option, none, some, List, [],
  ◌∷◌, ◌++◌, map, eqb, ltb, leb, if◌then◌else◌, is_some, all, length, take, lookup, put, pop,
}
use development_bridge.Errors.{
  Result, ok, err, ◌>>=◌, raised, bridge_error, invalid_argument, policy_violation,
}
use development_bridge.Coordinator.Texts.{Text, codes, holds, begins, split, join, strip}
use development_bridge.Coordinator.Models.{
  PendingWake, Coordinator, job_wake_debounce, max_batch_debounce_window, max_delay, max_channels,
  max_batch_events, max_message_chars, max_batch_message_chars,
  max_visible_continuation_reason_chars, max_escalation_message_chars,
}
use development_bridge.Coordinator.Rules.{
  lease_active, web_turn_cooldown_until, save_state, set_pending,
}

-- BATCH_SEPARATOR
abbrev pub batch_separator : Text
batch_separator = codes "\n--- bridge-batch ---\n"

abbrev pub group_separator : Text
group_separator = codes "\n\n--- additional terminal group ---\n"

abbrev pub omitted_suffix : Text
omitted_suffix = codes "\n… additional terminal groups omitted; inspect Bridge state."

-- _batch_parts
unfoldable pub batch_parts : Text → List Text
batch_parts message = split batch_separator message

-- [value.strip() for value in parts if value and value.strip()]
abbrev pub non_blank : List (Option Text) → List Text
non_blank [] = []
non_blank (none ∷ parts) = non_blank parts
non_blank (some t ∷ parts) =
    let rest = non_blank parts in elim (strip t) [ [] ↦ rest | c ∷ cs ↦ (c ∷ cs) ∷ rest ]

abbrev pub bounded : Text → Text
bounded combined =
    if leb (length combined) max_escalation_message_chars
    then combined
    else take (max_escalation_message_chars - length omitted_suffix) combined ++ omitted_suffix

-- _bounded_escalation
unfoldable pub bounded_escalation : List (Option Text) → Option Text
bounded_escalation parts = elim (non_blank parts) [
  | [] ↦ none
  | t ∷ ts ↦ some (bounded (join group_separator (t ∷ ts)))
]

abbrev pub or_empty : Option Text → Text
or_empty none = []
or_empty (some t) = t

pub record Armed : Type 0 where
  pub coalesced : Bool
  pub deduplicated : Bool
  pub continuation_id : Option String
  pub batch_size : ℕ
  pub queued_events : ℕ

abbrev pub coalesced_reply : Bool → PendingWake → Armed
coalesced_reply deduplicated w = record {
  coalesced = true;
  deduplicated = deduplicated;
  continuation_id = w.continuation_id;
  batch_size = length (batch_parts w.message);
  queued_events = length w.queued_messages;
}

-- combined, where the message is merged into the visible one
abbrev pub combined_with : Text → PendingWake → Text
combined_with message w = join batch_separator (batch_parts w.message ++ message ∷ [])

abbrev pub merges : Text → PendingWake → Bool
merges message w =
    eqb w.delivery_attempts 0
    && (not (is_some w.claim_id)
        && (not w.model_acknowledged
            && leb (length (combined_with message w)) max_visible_continuation_reason_chars))

-- the wake after `available_at` is moved, if there is a debounce
abbrev pub debounced : ℕ → ℕ → ℕ → PendingWake → PendingWake
debounced now debounce cooldown w =
    if ltb 0 debounce
    then record w {
      available_at =
          max w.available_at
            (max (min (w.created_at + max_batch_debounce_window) (now + debounce)) cooldown);
    }
    else w

abbrev pub merged : ℕ → ℕ → ℕ → Text → Option Text → PendingWake → PendingWake
merged now debounce cooldown message escalation w = debounced now debounce cooldown (record w {
  message = combined_with message w;
  browser_preflight_authorized_at = none;
  escalation_message = bounded_escalation (w.escalation_message ∷ escalation ∷ []);
})

abbrev pub queued : Text → Option Text → PendingWake → PendingWake
queued message escalation w = record w {
  queued_messages = w.queued_messages ++ message ∷ [];
  queued_escalation_messages = w.queued_escalation_messages ++ or_empty escalation ∷ [];
}

-- _coalesce_resilient_locked, on the wake; `cooldown` is `_web_turn_cooldown_until` of the channel
unfoldable pub coalesce_resilient :
    ℕ → ℕ → ℕ → Text → Option Text → PendingWake → Result (Armed × PendingWake)
coalesce_resilient now debounce cooldown message escalation w =
    if holds message (batch_parts w.message) || holds message w.queued_messages
    then ok (coalesced_reply true w, w)
    else (if leb max_batch_events (length (batch_parts w.message) + length w.queued_messages)
        then err (bridge_error policy_violation true)
        else (let w' =
              if merges message w
              then merged now debounce cooldown message escalation w
              else queued message escalation w in
            ok (coalesced_reply false w', w')))

-- zip(wake.queued_messages, wake.queued_escalation_messages, strict=False)
abbrev pub zip : List Text → List Text → List (Text × Text)
zip [] ys = []
zip (x ∷ xs) [] = []
zip (x ∷ xs) (y ∷ ys) = (x, y) ∷ zip xs ys

abbrev pub is_empty : {A : Type 0} → List A → Bool
is_empty [] = true
is_empty (x ∷ xs) = false

-- does the message still fit behind the active ones?
abbrev pub fits : List (Text × Text) → Text → Bool
fits active message =
    is_empty active
    || leb (length (join batch_separator (map (λ p. p.0) active ++ message ∷ [])))
        max_batch_message_chars

-- the loop of `_promote_queued_locked`: the active pairs and the remaining ones
unfoldable pub pack :
    List (Text × Text) → List (Text × Text) → List (Text × Text) × List (Text × Text)
pack active [] = (active, [])
pack active (p ∷ ps) = elim (fits active p.0) [
  | true ↦ pack (active ++ p ∷ []) ps
  | false ↦ let (chosen, rest) = pack active ps in (chosen, p ∷ rest)
]

abbrev pub new_wake : Text → ℕ → ℕ → PendingWake
new_wake message available created = record {
  message = message;
  available_at = available;
  created_at = created;
  claim_id = none;
  lease_expires_at = none;
  continuation_id = none;
  model_ack_required = false;
  model_acknowledged = false;
  delivery_attempts = 0;
  max_delivery_attempts = 1;
  retry_delays = [];
  escalation_delay = 0;
  escalation_message = none;
  escalation_at = none;
  escalation_notified_at = none;
  transport_delivered = false;
  transport_delivered_at = none;
  last_transport_name = none;
  last_transport_disposition = none;
  last_transport_detail = none;
  owner_input_needed = false;
  browser_preflight_authorized_at = none;
  queued_messages = [];
  queued_escalation_messages = [];
}

-- the wake that `_promote_queued_locked` puts in place of one with queued messages
abbrev pub promoted : ℕ → String → ℕ → PendingWake → PendingWake
promoted now continuation cooldown w =
    let (active, remaining) = pack [] (zip w.queued_messages w.queued_escalation_messages) in
    record (new_wake (join batch_separator (map (λ p. p.0) active))
      (max (now + job_wake_debounce) cooldown) now) {
        continuation_id = some continuation;
        model_ack_required = true;
        max_delivery_attempts = w.max_delivery_attempts;
        retry_delays = w.retry_delays;
        escalation_delay = w.escalation_delay;
        escalation_message = bounded_escalation (map (λ p. some p.1) active);
        queued_messages = map (λ p. p.0) remaining;
        queued_escalation_messages = map (λ p. p.1) remaining;
      }

-- _promote_queued_locked: the next continuation id
unfoldable pub promote_queued :
    ℕ → String → String → PendingWake → Coordinator → Option String × Coordinator
unfolding pack
promote_queued now continuation channel w s =
    if is_empty w.queued_messages then (none, set_pending (pop channel s.pending) s) else (
      some continuation,
      set_pending
          (put channel (promoted now continuation (web_turn_cooldown_until s channel) w) s.pending)
          s,
    )

pub data Conflict : Type 0 where
  coalesce reject : Conflict

pub record ArmArgs : Type 0 where
  pub message : Text
  pub channel_id : String
  pub delay : ℕ
  pub conflict : Conflict
  pub model_ack_required : Bool
  pub max_delivery_attempts : ℕ
  pub retry_delays : List ℕ
  pub escalation_delay : ℕ
  pub escalation_message : Option Text

abbrev pub between : ℕ → ℕ → ℕ → Bool
between low high n = leb low n && leb n high

-- escalation_message, stripped
abbrev pub valid_escalation : Option Text → Bool
valid_escalation none = true
valid_escalation (some t) = between 1 max_escalation_message_chars (length (strip t))

abbrev pub stripped : Option Text → Option Text
stripped none = none
stripped (some t) = some (strip t)

module _ (alnum : ℕ → Bool) where
  abbrev pub is_word : Text → Bool
  is_word = all (λ c. alnum c || (eqb c 45 || eqb c 95))

  -- validate_channel
  abbrev pub valid_channel : String → Bool
  valid_channel channel = between 1 64 (length (codes channel)) && is_word (codes channel)

  -- validate_continuation_id
  abbrev pub valid_continuation : String → Bool
  valid_continuation id =
      begins (codes "cont_") (codes id) && (between 10 80 (length (codes id)) && is_word (codes id))

  -- the checks of `arm` before the lock, each of which raises INVALID_ARGUMENT
  abbrev pub valid_arm : ArmArgs → Bool
  valid_arm a =
      valid_channel a.channel_id
      && (between 1 max_message_chars (length a.message)
          && (leb a.delay max_delay
              && (between 1 5 a.max_delivery_attempts
                  && (all (λ d. leb d max_delay) a.retry_delays
                      && ((if a.model_ack_required
                            then eqb (length a.retry_delays) (a.max_delivery_attempts - 1)
                            else is_empty a.retry_delays)
                          && (leb a.escalation_delay max_delay
                              && valid_escalation a.escalation_message))))))

  abbrev pub armed_wake : ℕ → String → ℕ → ArmArgs → PendingWake
  armed_wake now continuation cooldown a =
      record (new_wake a.message (max (now + a.delay) cooldown) now) {
        continuation_id = if a.model_ack_required then some continuation else none;
        model_ack_required = a.model_ack_required;
        max_delivery_attempts = a.max_delivery_attempts;
        retry_delays = a.retry_delays;
        escalation_delay = a.escalation_delay;
        escalation_message = stripped a.escalation_message;
      }

  -- a wake in place of the one that is pending, or of none
  unfoldable pub arm_new : ℕ → String → Bool → ArmArgs → Coordinator → Result (Armed × Coordinator)
  arm_new now continuation replaces a s =
      let w = armed_wake now continuation (web_turn_cooldown_until s a.channel_id) a in
      ok (
        record {
          coalesced = replaces;
          deduplicated = false;
          continuation_id = w.continuation_id;
          batch_size = length (batch_parts w.message);
          queued_events = 0;
        },
        save_state now (set_pending (put a.channel_id w s.pending) s),
      )

  abbrev pub coalesces : Conflict → PendingWake → Bool
  coalesces coalesce w = w.model_ack_required
  coalesces reject w = false

  abbrev pub is_reject : Conflict → Bool
  is_reject coalesce = false
  is_reject reject = true

  -- `arm` where a wake is pending
  unfoldable pub arm_existing :
      ℕ → String → ArmArgs → PendingWake → Coordinator → Result (Armed × Coordinator)
  unfolding coalesce_resilient arm_new
  arm_existing now continuation a w s =
      if coalesces a.conflict w
      then (do
        (reply, w') ←
            coalesce_resilient now a.delay (web_turn_cooldown_until s a.channel_id) a.message
              (stripped a.escalation_message) w
        ok (reply, save_state now (set_pending (put a.channel_id w' s.pending) s)))
      else (if lease_active w now
          then err (bridge_error policy_violation true)
          else (if is_reject a.conflict
              then err (bridge_error policy_violation true)
              else arm_new now continuation true a s))

  unfoldable pub arm : ℕ → String → ArmArgs → Coordinator → Result (Armed × Coordinator)
  unfolding arm_existing arm_new
  arm now continuation a s =
      if valid_arm a
      then elim (lookup a.channel_id s.pending) [
        | some w ↦ arm_existing now continuation a w s
        | none ↦
            if leb max_channels (length s.pending)
            then err (bridge_error policy_violation true)
            else arm_new now continuation false a s
      ]
      else err (raised invalid_argument)

  -- DEFAULT_MODEL_ACK_RETRY_DELAYS_SECONDS where no delays are given
  abbrev pub delays_or_default : Option (List ℕ) → List ℕ
  delays_or_default none = 30000 ∷ 60000 ∷ []
  delays_or_default (some ds) = ds

  -- arm_resilient
  unfoldable pub arm_resilient :
      ℕ
      → String
      → Text
      → String
      → ℕ
      → Conflict
      → Option (List ℕ)
      → ℕ
      → Option Text
      → Coordinator
      → Result (Armed × Coordinator)
  unfolding arm
  arm_resilient now continuation message channel delay conflict delays escalation_delay escalation
        s =
      let retry = delays_or_default delays in
      arm now continuation
        (record {
          message = message;
          channel_id = channel;
          delay = delay;
          conflict = conflict;
          model_ack_required = true;
          max_delivery_attempts = length retry + 1;
          retry_delays = retry;
          escalation_delay = escalation_delay;
          escalation_message = escalation;
        })
        s
