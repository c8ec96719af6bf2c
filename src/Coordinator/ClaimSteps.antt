-- ===== src/Coordinator/ClaimSteps.antt =====
-- `status`, `claim` and the leases (app/coordinator/service.py) change the pending wakes as their `Change`
-- says.
use development_bridge.Prelude.{
  ℕ, ◌+◌, ◌-◌, ◌≤◌, String, Bool, true, false, ◌&&◌, not, Option, none, some, ◌≡◌, refl, sym, subst,
  arith, inl, inr, Bool-cases, Option-cases, if◌then◌else◌, ltb, lookup,
}
use development_bridge.Errors.{Result-cases}
use development_bridge.Coordinator.Models.{PendingWake, Coordinator, DeliveryMode, x_ui, direct}
use development_bridge.Coordinator.Rules.{
  lease_active, exhausted, other_claim, web_turn_cooldown_until, delivery_lease_matches,
}
use development_bridge.Coordinator.Arming.{valid_channel}
use development_bridge.Coordinator.Delivery.{
  status, status_locked, status_or_idle, touch_x, claim, claim_locked, claim_wake, claim_refused,
  claimed_wake, half_claimed, leased, attempted, nth, issue_delivery_lease, valid_session,
  lease_to_issue,
}
use development_bridge.Coordinator.Calls.{asks_status, claims_wake, issues_lease, perform}
use development_bridge.Coordinator.Changes.{Evolves, Change, kept, taken}
use development_bridge.Coordinator.Steps.{
  pending-save, pending-touch, Change-save, promote_queued-Change, promoted-IsNext,
}

pub pending-touch_x :
    (channel : String) (lease : Option String) (mode : DeliveryMode) (now : ℕ) (s : Coordinator)
    → (touch_x channel lease mode now s).pending ≡ s.pending
pending-touch_x channel lease direct now s = refl
pending-touch_x channel lease x_ui now s = pending-touch channel lease now s

pub status_or_idle-state :
    (channel : String) (lease : Option String) (mode : DeliveryMode) (now backoff : ℕ)
    (s : Coordinator) (found : Option PendingWake)
    → (status_or_idle channel lease mode now backoff s found).1 ≡ s
status_or_idle-state channel lease mode now backoff s none = refl
status_or_idle-state channel lease mode now backoff s (some w) = refl

status_locked-Change :
    (now backoff : ℕ) (continuation channel : String) (lease : Option String) (mode : DeliveryMode)
    (s : Coordinator)
    → Change
        (some continuation)
        now
        s.pending
        (status_locked now backoff continuation channel lease mode s).1.pending
unfolding status_locked
status_locked-Change now backoff continuation channel lease mode s =
    elim (Option-cases (lookup channel s.pending)) [
      | inl e ↦ rw (e, status_locked) (kept refl)
      | inr (w, e) ↦ elim (Bool-cases (w.model_acknowledged && not (lease_active w now))) [
        | inr t ↦ rw (e, t, status_locked) (kept refl)
        | inl t ↦
            rw (e, t, status_locked)
              (subst (λ (z : Coordinator). Change (some continuation) now s.pending z.pending)
                (sym (status_or_idle-state channel lease mode now backoff _ _))
                (Change-save (some continuation) now s.pending _ (
                  promote_queued-Change now continuation channel w w s e (ground arith) (
                    promoted-IsNext now continuation (web_turn_cooldown_until s channel) w w
                      (ground arith) refl refl))))
      ]
    ]

pub status-Change :
    (alnum : ℕ → Bool) (now backoff : ℕ) (continuation channel : String) (lease : Option String)
    (mode : DeliveryMode) (s : Coordinator)
    → Change
        (some continuation)
        now
        s.pending
        (perform alnum now (asks_status backoff continuation channel lease mode) s).pending
unfolding perform status
status-Change alnum now backoff continuation channel lease mode s =
    elim (Bool-cases (valid_channel alnum channel)) [
      | inr v ↦ rw (v, perform, status) (kept refl)
      | inl v ↦ elim (Bool-cases (delivery_lease_matches s channel lease mode)) [
        | inr t ↦ rw (v, t, perform, status) (kept refl)
        | inl t ↦
            rw (v, t, perform, status)
              (subst
                (λ d.
                  Change (some continuation) now d
                    (status_locked now backoff continuation channel lease mode
                      (touch_x channel lease mode now s)).1.pending)
                (pending-touch_x channel lease mode now s)
                (status_locked-Change now backoff continuation channel lease mode
                  (touch_x channel lease mode now s)))
      ]
    ]

-- a wake that `claim` does not refuse
pub record Claimable (now : ℕ) (channel : String) (s : Coordinator) (w : PendingWake) : Type 0 where
  pub undelivered : w.transport_delivered ≡ false
  pub unanswered : w.model_acknowledged ≡ false
  pub alone : other_claim channel now s.pending ≤ now
  pub cool : s.global_cooldown_until ≤ now
  pub left : exhausted w ≡ false

pub claimable :
    (s : Coordinator) (channel : String) (lease : Option String) (mode : DeliveryMode)
    (now backoff : ℕ) (w : PendingWake)
    → claim_refused s channel lease mode now backoff w ≡ false
    → Claimable now channel s w
unfolding claim_refused
claimable s channel lease mode now backoff w h = record {
  undelivered = ground (arith, h);
  unanswered = ground (arith, h);
  alone = ground (arith, h);
  cool = ground (arith, h);
  left = ground (arith, h);
}

leased-Evolves : (now : ℕ) (token : String) (w : PendingWake) → Evolves w (leased now token w)
leased-Evolves now token w = record {
  continuation = refl;
  required = refl;
  most = refl;
  delays = refl;
  delivered = λ h. h;
  acknowledged = λ h. inl h;
  attempts = λ h. h;
  queues = λ h. h;
}

-- a property of what is there
abbrev pub OnSome : {A : Type 0} → (A → Type 0) → Option A → Type 0
OnSome P none = Unit
OnSome P (some a) = P a

attempted-Evolves :
    (now : ℕ) (token : String) (w : PendingWake)
    → exhausted w ≡ false
    → w.model_ack_required ≡ true
    → OnSome (Evolves w) (attempted now (leased now token w))
unfolding attempted
attempted-Evolves now token w h r =
    elim (Bool-cases (ltb (w.delivery_attempts + 1) w.max_delivery_attempts)) [
      | inl t ↦ elim (Option-cases (nth (w.delivery_attempts + 1 - 1) w.retry_delays)) [
        | inl e ↦ rw (t, e, attempted) tt
        | inr (d, e) ↦
            rw (t, e, attempted)
              (record {
                continuation = refl;
                required = refl;
                most = refl;
                delays = refl;
                delivered = λ h. h;
                acknowledged = λ h. inl h;
                queues = λ h. h;
                attempts = λ k. ground (arith, h, r, t);
              })
      ]
      | inr t ↦
          rw (t, attempted)
            (record {
              continuation = refl;
              required = refl;
              most = refl;
              delays = refl;
              delivered = λ h. h;
              acknowledged = λ h. inl h;
              queues = λ h. h;
              attempts = λ k. ground (arith, h, r, t);
            })
    ]

pub claimed-Evolves :
    (now : ℕ) (token : String) (w : PendingWake)
    → exhausted w ≡ false
    → OnSome (Evolves w) (claimed_wake now token w)
claimed-Evolves now token w h = elim (Bool-cases w.model_ack_required) [
  | inl r ↦
      subst
        (λ b.
          OnSome (Evolves w)
            (if b then attempted now (leased now token w) else some (leased now token w)))
        (sym r) (attempted-Evolves now token w h r)
  | inr r ↦
      subst
        (λ b.
          OnSome (Evolves w)
            (if b then attempted now (leased now token w) else some (leased now token w)))
        (sym r) (leased-Evolves now token w)
]

half_claimed-Evolves :
    (now : ℕ) (token : String) (w : PendingWake)
    → exhausted w ≡ false
    → claimed_wake now token w ≡ none
    → Evolves w (half_claimed now token w)
half_claimed-Evolves now token w h e = record {
  continuation = refl;
  required = refl;
  most = refl;
  delays = refl;
  delivered = λ h. h;
  acknowledged = λ h. inl h;
  queues = λ h. h;
  attempts = λ k. elim (Bool-cases w.model_ack_required) [
    | inl r ↦ ground (arith, h, r, k)
    | inr r ↦ absurd (ground (arith, e, r))
  ];
}

claim_wake-Change :
    (now : ℕ) (token channel : String) (w : PendingWake) (s : Coordinator)
    → lookup channel s.pending ≡ some w
    → Claimable now channel s w
    → Change none now s.pending (claim_wake now token channel w s).1.pending
unfolding claim_wake
claim_wake-Change now token channel w s e c = elim (Option-cases (claimed_wake now token w)) [
  | inl m ↦
      rw (m, claim_wake)
        (taken channel w _ e (half_claimed-Evolves now token w c.left m) c.undelivered c.alone refl)
  | inr (w', m) ↦
      rw (m, claim_wake)
        (Change-save none now s.pending _ (
          taken channel w w' e (subst (OnSome (Evolves w)) m (claimed-Evolves now token w c.left))
            c.undelivered c.alone refl))
]

claim_locked-Change :
    (now backoff : ℕ) (token channel : String) (lease : Option String) (mode : DeliveryMode)
    (s : Coordinator)
    → Change none now s.pending (claim_locked now backoff token channel lease mode s).1.pending
unfolding claim_locked
claim_locked-Change now backoff token channel lease mode s =
    elim (Option-cases (lookup channel s.pending)) [
      | inl e ↦ rw (e, claim_locked) (kept refl)
      | inr (w, e) ↦ elim (Bool-cases (claim_refused s channel lease mode now backoff w)) [
        | inl t ↦ rw (e, t, claim_locked) (kept refl)
        | inr t ↦
            rw (e, t, claim_locked)
              (claim_wake-Change now token channel w s e
                (claimable s channel lease mode now backoff w t))
      ]
    ]

pub claim-Change :
    (alnum : ℕ → Bool) (now backoff : ℕ) (token channel : String) (lease : Option String)
    (mode : DeliveryMode) (s : Coordinator)
    → Change none now s.pending
        (perform alnum now (claims_wake backoff token channel lease mode) s).pending
unfolding perform claim
claim-Change alnum now backoff token channel lease mode s =
    elim (Bool-cases (valid_channel alnum channel)) [
      | inr v ↦ rw (v, perform, claim) (kept refl)
      | inl v ↦ elim (Bool-cases (delivery_lease_matches s channel lease mode)) [
        | inr t ↦ rw (v, t, perform, claim) (kept refl)
        | inl t ↦
            rw (v, t, perform, claim)
              (subst
                (λ d.
                  Change none now d
                    (claim_locked now backoff token channel lease mode
                      (touch_x channel lease mode now s)).1.pending)
                (pending-touch_x channel lease mode now s)
                (claim_locked-Change now backoff token channel lease mode
                  (touch_x channel lease mode now s)))
      ]
    ]

pub issue-Change :
    (alnum : ℕ → Bool) (now : ℕ) (token channel : String) (session route : Option String)
    (generation : Option ℕ) (s : Coordinator)
    → Change none now s.pending
        (perform alnum now (issues_lease token channel session route generation) s).pending
unfolding perform issue_delivery_lease
issue-Change alnum now token channel session route generation s =
    elim (Bool-cases (valid_channel alnum channel && valid_session session)) [
      | inr v ↦ rw (v, perform, issue_delivery_lease) (kept refl)
      | inl v ↦
          elim (Result-cases (lease_to_issue alnum now token channel session route generation s)) [
            | inl (item, m) ↦ rw (v, m, perform, issue_delivery_lease) (kept (pending-save now _))
            | inr (e, m) ↦ rw (v, m, perform, issue_delivery_lease) (kept refl)
          ]
    ]
