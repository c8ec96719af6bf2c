-- ===== src/Coordinator/Steps.antt =====
-- Each call of `CoordinatorService` changes the pending wakes as its `Change` says.
use development_bridge.Prelude.{
  ℕ, suc, ◌+◌, String, Bool, true, false, ◌||◌, Option, some, List, [], ◌∷◌, map, ◌≡◌, refl, sym,
  ap, subst, ◌∙◌, arith, inl, inr, Bool-cases, Option-cases, length, length-append, leb, ltb, Dict,
  lookup,
}
use development_bridge.Errors.{Result-cases, Result, ok, err}
use development_bridge.Coordinator.Texts.{Text, holds}
use development_bridge.Coordinator.Models.{PendingWake, Coordinator}
use development_bridge.Coordinator.Rules.{
  lease_active, save_state, touch_delivery_lease, web_turn_cooldown_until,
}
use development_bridge.Coordinator.Arming.{
  ArmArgs, arm, arm_existing, arm_new, armed_wake, valid_arm, is_reject, stripped, coalesces,
  coalesce_resilient, merges, merged, queued, debounced, promote_queued, promoted, is_empty,
  batch_parts,
}
use development_bridge.Coordinator.Models.{max_batch_events, max_channels}
use development_bridge.Coordinator.Calls.{arms, after, perform}
use development_bridge.Coordinator.Changes.{
  Evolves, Evolves-refl, Calm, IsNew, IsNext, Change, kept, dropped, opened, promotes, changed,
}

pub pending-save : (now : ℕ) (s : Coordinator) → (save_state now s).pending ≡ s.pending
pending-save now s = ground arith

pub pending-touch :
    (channel : String) (lease : Option String) (now : ℕ) (s : Coordinator)
    → (touch_delivery_lease channel lease now s).pending ≡ s.pending
pending-touch channel lease now s = ground arith

module _ (drawn : Option String) (now : ℕ) where
  -- a change that is then saved
  pub Change-save :
      (d : Dict PendingWake) (s : Coordinator)
      → Change drawn now d s.pending
      → Change drawn now d (save_state now s).pending
  Change-save d s c = rw (pending-save now s) c

length-map : {A B : Type 0} (f : A → B) (xs : List A) → length (map f xs) ≡ length xs
length-map f [] = refl
length-map f (a ∷ xs) = ap suc (length-map f xs)

pub promoted-IsNext :
    (now : ℕ) (continuation : String) (cooldown : ℕ) (w r : PendingWake)
    → w.model_acknowledged ≡ true
    → r.max_delivery_attempts ≡ w.max_delivery_attempts
    → r.retry_delays ≡ w.retry_delays
    → IsNext (some continuation) w (promoted now continuation cooldown r)
promoted-IsNext now continuation cooldown w r h most delays = record {
  answered = h;
  unclaimed = refl;
  undelivered = refl;
  unanswered = refl;
  continuation = refl;
  drawn_some = refl;
  required = refl;
  most = most;
  delays = delays;
  attempts = refl;
  queues = length-map _ _ ∙ sym (length-map _ _);
}

pub promote_queued-Change :
    (now : ℕ) (continuation channel : String) (w r : PendingWake) (s : Coordinator)
    → lookup channel s.pending ≡ some w
    → r.model_acknowledged ≡ true
    → IsNext (some continuation) w (promoted now continuation (web_turn_cooldown_until s channel) r)
    → Change
        (some continuation)
        now
        s.pending
        (promote_queued now continuation channel r s).1.pending
unfolding promote_queued
promote_queued-Change now continuation channel w r s e h n =
    elim (Bool-cases (is_empty r.queued_messages)) [
      | inl t ↦ rw (t, promote_queued) (dropped channel refl)
      | inr t ↦ rw (t, promote_queued) (promotes channel w _ e n refl)
    ]

debounced-Evolves :
    (now debounce cooldown : ℕ) (w w' : PendingWake)
    → Evolves w w'
    → Evolves w (debounced now debounce cooldown w')
debounced-Evolves now debounce cooldown w w' h = elim (Bool-cases (ltb 0 debounce)) [
  | inl t ↦
      rw (t, debounced)
        (record {
          continuation = h.continuation;
          required = h.required;
          most = h.most;
          delays = h.delays;
          delivered = h.delivered;
          acknowledged = h.acknowledged;
          attempts = h.attempts;
          queues = h.queues;
        })
  | inr t ↦ rw (t, debounced) h
]

debounced-Calm :
    (now debounce cooldown : ℕ) (w w' : PendingWake)
    → Calm w w'
    → Calm w (debounced now debounce cooldown w')
debounced-Calm now debounce cooldown w w' h = elim (Bool-cases (ltb 0 debounce)) [
  | inl t ↦ rw (t, debounced) h
  | inr t ↦ rw (t, debounced) h
]

merged-Evolves :
    (now debounce cooldown : ℕ) (message : Text) (escalation : Option Text) (w : PendingWake)
    → Evolves w (merged now debounce cooldown message escalation w)
      × Calm w (merged now debounce cooldown message escalation w)
merged-Evolves now debounce cooldown message escalation w = (
  debounced-Evolves now debounce cooldown w _ (record {
    continuation = refl;
    required = refl;
    most = refl;
    delays = refl;
    delivered = λ h. h;
    acknowledged = λ h. inl h;
    attempts = λ h. h;
    queues = λ h. h;
  }),
  debounced-Calm now debounce cooldown w _ (λ t h. h),
)

queued-Evolves :
    (message : Text) (escalation : Option Text) (w : PendingWake)
    → Evolves w (queued message escalation w) × Calm w (queued message escalation w)
queued-Evolves message escalation w = (
  record {
    continuation = refl;
    required = refl;
    most = refl;
    delays = refl;
    delivered = λ h. h;
    acknowledged = λ h. inl h;
    attempts = λ h. h;
    queues = λ h. omega (
      arith,
      h,
      length-append w.queued_messages (message ∷ []),
      length-append w.queued_escalation_messages (_ ∷ []),
    );
  },
  λ t h. h,
)

-- a property of what a call returns, if it returns
abbrev OnOk : {A : Type 0} → (A → Type 0) → Result A → Type 0
OnOk P (ok a) = P a
OnOk P (err e) = Unit

coalesced-Evolves :
    (now debounce cooldown : ℕ) (message : Text) (escalation : Option Text) (w : PendingWake)
    → OnOk
        (λ r. Evolves w r.1 × Calm w r.1)
        (coalesce_resilient now debounce cooldown message escalation w)
unfolding coalesce_resilient
coalesced-Evolves now debounce cooldown message escalation w =
    elim (Bool-cases (holds message (batch_parts w.message) || holds message w.queued_messages)) [
      | inl t ↦ rw (t, coalesce_resilient) (Evolves-refl w, λ t h. h)
      | inr t ↦
          elim (Bool-cases
            (leb max_batch_events (length (batch_parts w.message) + length w.queued_messages))) [
              | inl u ↦ rw (t, u, coalesce_resilient) tt
              | inr u ↦ elim (Bool-cases (merges message w)) [
                | inl m ↦
                    rw (t, u, m, coalesce_resilient)
                      (merged-Evolves now debounce cooldown message escalation w)
                | inr m ↦ rw (t, u, m, coalesce_resilient) (queued-Evolves message escalation w)
              ]
            ]
    ]

armed_wake-IsNew :
    (alnum : ℕ → Bool) (now : ℕ) (continuation : String) (cooldown : ℕ) (a : ArmArgs)
    → valid_arm alnum a ≡ true
    → IsNew (some continuation) (armed_wake alnum now continuation cooldown a)
armed_wake-IsNew alnum now continuation cooldown a v = record {
  unclaimed = refl;
  undelivered = refl;
  unanswered = refl;
  continuation = elim (Bool-cases a.model_ack_required) [
    | inl t ↦ rw t (inr refl)
    | inr t ↦ rw t (inl refl)
  ];
  required = ground arith;
  delays = λ h. ground (arith, v, h);
  attempts = refl;
  queues = refl;
}

arm_new-Change :
    (alnum : ℕ → Bool) (now : ℕ) (continuation : String) (replaces : Bool) (a : ArmArgs)
    (s : Coordinator)
    → valid_arm alnum a ≡ true
    → Change
        (some continuation)
        now
        s.pending
        (after s (arm_new alnum now continuation replaces a s)).pending
unfolding arm_new
arm_new-Change alnum now continuation replaces a s v =
    Change-save (some continuation) now s.pending _ (
      opened a.channel_id _
        (armed_wake-IsNew alnum now continuation (web_turn_cooldown_until s a.channel_id) a v) refl)

arm_existing-Change :
    (alnum : ℕ → Bool) (now : ℕ) (continuation : String) (a : ArmArgs) (w : PendingWake)
    (s : Coordinator)
    → valid_arm alnum a ≡ true
    → lookup a.channel_id s.pending ≡ some w
    → Change
        (some continuation)
        now
        s.pending
        (after s (arm_existing alnum now continuation a w s)).pending
unfolding arm_existing
arm_existing-Change alnum now continuation a w s v e =
    elim (Bool-cases (coalesces alnum a.conflict w)) [
      | inl t ↦
          elim (Result-cases (
            coalesce_resilient now a.delay (web_turn_cooldown_until s a.channel_id) a.message
              (stripped a.escalation_message) w)) [
                | inl ((reply, w'), m) ↦
                    let (f, g) = subst (OnOk (λ r. Evolves w r.1 × Calm w r.1)) m (
                      coalesced-Evolves now a.delay (web_turn_cooldown_until s a.channel_id)
                        a.message (stripped a.escalation_message) w) in
                    rw (t, m, arm_existing)
                      (Change-save (some continuation) now s.pending _
                        (changed a.channel_id w w' e f g refl))
                | inr (x, m) ↦ rw (t, m, arm_existing) (kept refl)
              ]
      | inr t ↦ elim (Bool-cases (lease_active w now)) [
        | inl u ↦ rw (t, u, arm_existing) (kept refl)
        | inr u ↦ elim (Bool-cases (is_reject alnum a.conflict)) [
          | inl r ↦ rw (t, u, r, arm_existing) (kept refl)
          | inr r ↦ rw (t, u, r, arm_existing) (arm_new-Change alnum now continuation true a s v)
        ]
      ]
    ]

pub arm-Change :
    (alnum : ℕ → Bool) (now : ℕ) (continuation : String) (a : ArmArgs) (s : Coordinator)
    → Change (some continuation) now s.pending (perform alnum now (arms continuation a) s).pending
unfolding perform arm
arm-Change alnum now continuation a s = elim (Bool-cases (valid_arm alnum a)) [
  | inr v ↦ rw (v, perform, arm) (kept refl)
  | inl v ↦ elim (Option-cases (lookup a.channel_id s.pending)) [
    | inr (w, e) ↦ rw (v, e, perform, arm) (arm_existing-Change alnum now continuation a w s v e)
    | inl e ↦ elim (Bool-cases (leb max_channels (length s.pending))) [
      | inl t ↦ rw (v, e, t, perform, arm) (kept refl)
      | inr t ↦ rw (v, e, t, perform, arm) (arm_new-Change alnum now continuation false a s v)
    ]
  ]
]
