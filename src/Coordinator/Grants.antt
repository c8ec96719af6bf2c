-- ===== src/Coordinator/Grants.antt =====
-- The answers of `claim` (app/coordinator/service.py).
use development_bridge.Prelude.{
  ℕ, suc, zero, ◌+◌, ◌-◌, ◌≤◌, ◌<◌, String, Bool, true, false, Option, none, some, List, [], ◌∷◌,
  ◌≡◌, ◌≢◌, refl, sym, subst, arith, inl, inr, Bool-cases, Option-cases, if-elim, length, ltb,
  lookup,
}
use development_bridge.Errors.{ok}
use development_bridge.Coordinator.Models.{PendingWake, Coordinator, DeliveryMode, x_ui, direct}
use development_bridge.Coordinator.Rules.{delivery_lease_matches, other_claim, exhausted}
use development_bridge.Coordinator.Arming.{valid_channel}
use development_bridge.Coordinator.Delivery.{
  ClaimReply, claims, index_error, Claimed, claim, claim_locked, claim_wake, claim_refused,
  claimed_wake, attempted, leased, touch_x, nth,
}
use development_bridge.Coordinator.Calls.{Request, run}
use development_bridge.Coordinator.Changes.{Evolves}
use development_bridge.Coordinator.ClaimSteps.{
  Claimable, claimable, OnSome, claimed-Evolves, pending-touch_x,
}
use development_bridge.Coordinator.Sound.{Sound, EachSound, Valid, run-Valid}

-- what a claim that is granted says of the state before
pub record Granted (now : ℕ) (channel : String) (s : Coordinator) (c : Claimed) : Type 0 where
  pub wake : PendingWake
  pub found : lookup channel s.pending ≡ some wake
  pub claimable : Claimable now channel s wake
  pub continuation : c.continuation_id ≡ wake.continuation_id

cooldown-touch_x :
    (channel : String) (lease : Option String) (mode : DeliveryMode) (now : ℕ) (s : Coordinator)
    → (touch_x channel lease mode now s).global_cooldown_until ≡ s.global_cooldown_until
cooldown-touch_x channel lease direct now s = refl
cooldown-touch_x channel lease x_ui now s = ground arith

claim_wake-claims :
    (now : ℕ) (token channel : String) (w : PendingWake) (s s' : Coordinator) (c : Claimed)
    → exhausted w ≡ false
    → claim_wake now token channel w s ≡ (claims c, s')
    → c.continuation_id ≡ w.continuation_id
unfolding claim_wake
claim_wake-claims now token channel w s s' c x h = elim (Option-cases (claimed_wake now token w)) [
  | inl m ↦ absurd (ground (arith, m, h))
  | inr (w', m) ↦
      let e : Evolves w w' = subst (OnSome (Evolves w)) m (claimed-Evolves now token w x) in
      ground (arith, m, h, e.continuation)
]

claim_locked-Granted :
    (now backoff : ℕ) (token channel : String) (lease : Option String) (mode : DeliveryMode)
    (s s' : Coordinator) (c : Claimed)
    → claim_locked now backoff token channel lease mode s ≡ (claims c, s')
    → Granted now channel s c
unfolding claim_locked
claim_locked-Granted now backoff token channel lease mode s s' c h =
    elim (Option-cases (lookup channel s.pending)) [
      | inl e ↦ absurd (ground (arith, e, h))
      | inr (w, e) ↦ elim (Bool-cases (claim_refused s channel lease mode now backoff w)) [
        | inl t ↦ absurd (ground (arith, e, t, h))
        | inr t ↦
            let k = claimable s channel lease mode now backoff w t in
            record {
              wake = w;
              found = e;
              claimable = k;
              continuation =
                  claim_wake-claims now token channel w s s' c k.left (ground (arith, e, t, h));
            }
      ]
    ]

-- a grant says the same of a state with the same wakes and cooldown
same_grant :
    (now : ℕ) (channel : String) (s t : Coordinator) (c : Claimed)
    → t.pending ≡ s.pending
    → t.global_cooldown_until ≡ s.global_cooldown_until
    → Granted now channel t c
    → Granted now channel s c
same_grant now channel s t c p q g = record {
  wake = g.wake;
  found = subst (λ d. lookup channel d ≡ some g.wake) p g.found;
  claimable = record {
    undelivered = g.claimable.undelivered;
    unanswered = g.claimable.unanswered;
    alone = subst (λ d. other_claim channel now d ≤ now) p g.claimable.alone;
    cool = subst (λ n. n ≤ now) q g.claimable.cool;
    left = g.claimable.left;
  };
  continuation = g.continuation;
}

module _ (alnum : ℕ → Bool) where
  pub claim-Granted :
      (now backoff : ℕ) (token channel : String) (lease : Option String) (mode : DeliveryMode)
      (s s' : Coordinator) (c : Claimed)
      → claim alnum now backoff token channel lease mode s ≡ ok (claims c, s')
      → Granted now channel s c
  unfolding claim
  claim-Granted now backoff token channel lease mode s s' c h =
      elim (Bool-cases (valid_channel alnum channel)) [
        | inr v ↦ absurd (ground (arith, v, h))
        | inl v ↦ elim (Bool-cases (delivery_lease_matches s channel lease mode)) [
          | inr t ↦ absurd (ground (arith, v, t, h))
          | inl t ↦
              same_grant now channel s (touch_x channel lease mode now s) c
                (pending-touch_x channel lease mode now s)
                (cooldown-touch_x channel lease mode now s)
                (claim_locked-Granted now backoff token channel lease mode
                  (touch_x channel lease mode now s) s' c (ground (arith, v, t, h)))
        ]
      ]

nth-some : (n : ℕ) (ds : List ℕ) → n < length ds → nth n ds ≢ none
nth-some n [] l e = absurd (omega (arith, l))
nth-some zero (d ∷ ds) l e = ground (arith, e)
nth-some (suc n) (d ∷ ds) l e = nth-some n ds (omega (arith, l)) e

-- a sound wake has a delay for the attempt that is counted
attempted-some :
    (now : ℕ) (token : String) (w : PendingWake)
    → Sound w
    → w.model_ack_required ≡ true
    → attempted now (leased now token w) ≢ none
unfolding attempted
attempted-some now token w h r =
    elim (Bool-cases (ltb (w.delivery_attempts + 1) w.max_delivery_attempts)) [
      | inl t ↦ elim (Option-cases (nth (w.delivery_attempts + 1 - 1) w.retry_delays)) [
        | inl e ↦ absurd (nth-some _ w.retry_delays (ground (arith, t, h.delays r)) e)
        | inr (d, e) ↦ rw (t, e, attempted) (λ x. ground (arith, x))
      ]
      | inr t ↦ rw (t, attempted) (λ x. ground (arith, x))
    ]

pub claimed-some :
    (now : ℕ) (token : String) (w : PendingWake) → Sound w → claimed_wake now token w ≢ none
claimed-some now token w h =
    if-elim (λ o. o ≢ none) w.model_ack_required (λ t. attempted-some now token w h t)
      (λ t x. ground (arith, x))

module _ (alnum : ℕ → Bool) where
  claim_locked-reply :
      (now backoff : ℕ) (token channel : String) (lease : Option String) (mode : DeliveryMode)
      (s : Coordinator)
      → EachSound s.pending
      → (claim_locked now backoff token channel lease mode s).0 ≢ index_error
  unfolding claim_locked claim_wake
  claim_locked-reply now backoff token channel lease mode s u =
      elim (Option-cases (lookup channel s.pending)) [
        | inl e ↦ rw (e, claim_locked) (λ x. ground (arith, x))
        | inr (w, e) ↦ elim (Bool-cases (claim_refused s channel lease mode now backoff w)) [
          | inl t ↦ rw (e, t, claim_locked) (λ x. ground (arith, x))
          | inr t ↦ elim (Option-cases (claimed_wake now token w)) [
            | inl m ↦ absurd (claimed-some now token w (u channel w e) m)
            | inr (w', m) ↦ rw (e, t, m, claim_locked, claim_wake) (λ x. ground (arith, x))
          ]
        ]
      ]

  -- After any calls from a valid coordinator, `claim` finds the delay it looks up: it never ends in the
  -- IndexError of `retry_delays_seconds`.
  pub claim-run :
      (cs : List (ℕ × Request)) (now backoff : ℕ) (token channel : String) (lease : Option String)
      (mode : DeliveryMode) (s s' : Coordinator) (reply : ClaimReply)
      → Valid s
      → claim alnum now backoff token channel lease mode (run alnum cs s) ≡ ok (reply, s')
      → reply ≢ index_error
  unfolding claim
  claim-run cs now backoff token channel lease mode s s' reply v h =
      let r = run alnum cs s in
      let touched = touch_x channel lease mode now r in
      let sound : EachSound touched.pending =
        subst EachSound (sym (pending-touch_x channel lease mode now r))
          (run-Valid alnum cs s v).sound in
      elim (Bool-cases (valid_channel alnum channel)) [
        | inr c ↦ absurd (ground (arith, c, h))
        | inl c ↦ elim (Bool-cases (delivery_lease_matches r channel lease mode)) [
          | inr t ↦ ground (arith, c, t, h)
          | inl t ↦
              subst (λ x. x ≢ index_error) (ground (arith, c, t, h))
                (claim_locked-reply now backoff token channel lease mode touched sound)
        ]
      ]
