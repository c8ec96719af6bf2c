-- ===== src/Coordinator/Agreement.antt =====
-- `status` and `claim` (app/coordinator/service.py) decide alike.
use development_bridge.Prelude.{
  ℕ, ◌+◌, ◌≤◌, max, String, Bool, true, false, ◌&&◌, ◌||◌, not, Option, none, some, ◌≡◌, refl, sym,
  ap, subst, ◌∙◌, arith, inl, inr, Bool-cases, Option-cases, ltb, leb, lookup, lookup-put,
  lookup-pop, eq_refl,
}
use development_bridge.Coordinator.Models.{
  PendingWake, Coordinator, DeliveryMode, job_wake_debounce,
}
use development_bridge.Coordinator.Rules.{
  lease_active, automatic_delivery_blocked, exhausted, is_direct, other_claim_until,
  browser_preflight_authorized, save_state, web_turn_cooldown_until,
}
use development_bridge.Coordinator.Arming.{promote_queued, promoted, is_empty}
use development_bridge.Coordinator.Delivery.{
  status_of, status_locked, status_or_idle, ready_now, expired_undelivered, direct_listener_blocked,
  explicit, ClaimReply, claims, refuses, stands_by, index_error, claim_locked, claim_wake,
  claim_refused, claimed_wake,
}
use development_bridge.Coordinator.Steps.{pending-save}
use development_bridge.Coordinator.Sound.{Sound, EachSound}
use development_bridge.Coordinator.Grants.{claimed-some}

abbrev pub is_granted : ClaimReply → Bool
is_granted (claims c) = true
is_granted refuses = false
is_granted stands_by = false
is_granted index_error = false

-- the two decisions as truth functions of the same tests
module _
    (active auto spent expired sent web cool direct_blocked available direct explicit
      authorized : Bool) where
  is_ready : Bool
  is_ready =
      not active
      && (not auto
          && (not spent
              && (not expired
                  && (not sent
                      && (not (not sent && web)
                          && (not (not sent && cool)
                              && (not direct_blocked
                                  && (not (
                                        not direct
                                        && (not sent
                                            && (not active
                                                && (not spent
                                                    && (not expired
                                                        && (not (not sent && web)
                                                            && (not (not sent && cool)
                                                            && (available
                                                            && not (
                                                            authorized
                                                            || (not direct && explicit))))))))))
                                      && available))))))))

  is_refused : Bool → Bool → Bool → Bool → Bool
  is_refused answered early own_cool other_cool =
      early
      || (web
          || (own_cool
              || (other_cool
                  || (direct_blocked
                      || (active
                          || (sent
                              || (answered
                                  || (auto
                                      || (expired
                                          || ((not direct && (not explicit && not authorized))
                                              || spent))))))))))

  decides :
      (answered early own_cool other_cool : Bool)
      → answered ≡ false
      → available ≡ not early
      → cool ≡ (own_cool || other_cool)
      → is_ready ≡ not (is_refused answered early own_cool other_cool)
  unfolding is_ready is_refused
  decides answered early own_cool other_cool n p q = elim (Bool-cases sent) [
    | inl t ↦ ground (arith, t)
    | inr t ↦ elim (Bool-cases active) [
      | inl a ↦ ground (arith, t, a)
      | inr a ↦ elim (Bool-cases spent) [
        | inl e ↦ ground (arith, t, a, e)
        | inr e ↦ elim (Bool-cases expired) [
          | inl x ↦ ground (arith, t, a, e, x)
          | inr x ↦ ground (arith, t, a, e, x)
        ]
      ]
    ]
  ]

leb-not : (a b : ℕ) → leb a b ≡ not (ltb b a)
leb-not a b = ground arith

ltb-max : (n a b : ℕ) → ltb n (max a b) ≡ (ltb n a || ltb n b)
ltb-max n a b = ground arith

module _ (s : Coordinator) (channel : String) (lease : Option String) (mode : DeliveryMode)
    (now backoff : ℕ) where
  ready_now-claim_refused :
      (w : PendingWake)
      → w.model_acknowledged ≡ false
      → ready_now s channel lease mode now backoff w
        ≡ not (claim_refused s channel lease mode now backoff w)
  unfolding claim_refused is_ready is_refused
  ready_now-claim_refused w h =
      decides (lease_active w now) (automatic_delivery_blocked w) (exhausted w)
        (expired_undelivered s channel lease mode now backoff w) w.transport_delivered
        (ltb now backoff)
        (ltb now (max (web_turn_cooldown_until s channel) (other_claim_until s channel now)))
        (direct_listener_blocked s channel lease mode now backoff w) (leb w.available_at now)
        (is_direct mode) (explicit s channel lease mode now backoff)
        (browser_preflight_authorized s w now) w.model_acknowledged (ltb now w.available_at)
        (ltb now (web_turn_cooldown_until s channel)) (ltb now (other_claim_until s channel now)) h
        (leb-not w.available_at now) (ltb-max now _ _)

  early :
      (w : PendingWake)
      → now + job_wake_debounce ≤ w.available_at
      → ready_now s channel lease mode now backoff w ≡ false
  early w h = ground (arith, h)

  is_granted-claim_wake :
      (token : String) (w : PendingWake)
      → Sound w
      → is_granted (claim_wake now token channel w s).0 ≡ true
  unfolding claim_wake
  is_granted-claim_wake token w h = elim (Option-cases (claimed_wake now token w)) [
    | inl m ↦ absurd (claimed-some now token w h m)
    | inr (w', m) ↦ rw (m, claim_wake) refl
  ]

  is_granted-claim_locked :
      (token : String) (w : PendingWake)
      → lookup channel s.pending ≡ some w
      → Sound w
      → is_granted (claim_locked now backoff token channel lease mode s).0
        ≡ not (claim_refused s channel lease mode now backoff w)
  unfolding claim_locked
  is_granted-claim_locked token w e h =
      elim (Bool-cases (claim_refused s channel lease mode now backoff w)) [
        | inl t ↦ rw (e, t, claim_locked) refl
        | inr t ↦ rw (e, t, claim_locked) (is_granted-claim_wake token w h)
      ]

  -- an answered wake is neither claimed nor ready, and what is promoted from it waits
  answered_refused :
      (w : PendingWake)
      → w.model_acknowledged ≡ true
      → claim_refused s channel lease mode now backoff w ≡ true
  unfolding claim_refused
  answered_refused w h = ground (arith, h)

  active_not_ready :
      (w : PendingWake)
      → lease_active w now ≡ true
      → ready_now s channel lease mode now backoff w ≡ false
  active_not_ready w h = rw h refl

module _ (channel : String) (lease : Option String) (mode : DeliveryMode) (now backoff : ℕ) where
  -- what is promoted waits for the debounce
  idle_or_early :
      (s : Coordinator) (found : Option PendingWake)
      → ((w : PendingWake) → found ≡ some w → now + job_wake_debounce ≤ w.available_at)
      → (status_or_idle channel lease mode now backoff s found).0.ready ≡ false
  unfolding status_of
  idle_or_early s none h = refl
  idle_or_early s (some w) h = early s channel lease mode now backoff w (h w refl)

  promoted_early :
      (continuation : String) (w v : PendingWake) (s : Coordinator)
      → lookup channel (save_state now (promote_queued now continuation channel w s).1).pending
        ≡ some v
      → now + job_wake_debounce ≤ v.available_at
  unfolding promote_queued
  promoted_early continuation w v s e =
      let f =
        subst (λ d. lookup channel d ≡ some v)
          (pending-save now (promote_queued now continuation channel w s).1) e in
      elim (Bool-cases (is_empty w.queued_messages)) [
        | inl t ↦
            absurd (ground (arith, f, t, lookup-pop channel channel s.pending, eq_refl channel))
        | inr t ↦
            let next = promoted now continuation (web_turn_cooldown_until s channel) w in
            let here : next ≡ v =
              ground (arith, f, t, lookup-put channel channel next s.pending, eq_refl channel) in
            subst (λ (x : PendingWake). now + job_wake_debounce ≤ x.available_at) here (omega arith)
      ]

  -- What `status` tells a transport is what `claim` does: it is ready exactly where a claim at that
  -- moment, with the same lease and mode, is granted, if the pending wakes are sound.
  pub status_locked-claim_locked :
      (token continuation : String) (s : Coordinator)
      → EachSound s.pending
      → (status_locked now backoff continuation channel lease mode s).0.ready
        ≡ is_granted (claim_locked now backoff token channel lease mode s).0
  unfolding status_locked claim_locked status_of
  status_locked-claim_locked token continuation s u =
      elim (Option-cases (lookup channel s.pending)) [
        | inl e ↦ rw (e, status_locked, claim_locked) refl
        | inr (w, e) ↦
            let granted =
              is_granted-claim_locked s channel lease mode now backoff token w e (u channel w e) in
            elim (Bool-cases w.model_acknowledged) [
              | inr a ↦
                  let t : (w.model_acknowledged && not (lease_active w now)) ≡ false =
                    ground (arith, a) in
                  rw (e, t, status_locked)
                    (ready_now-claim_refused s channel lease mode now backoff w a ∙ sym granted)
              | inl a ↦
                  let refused =
                    granted ∙ ap not (answered_refused s channel lease mode now backoff w a) in
                  elim (Bool-cases (w.model_acknowledged && not (lease_active w now))) [
                    | inl t ↦
                        let s' = save_state now (promote_queued now continuation channel w s).1 in
                        rw (e, t, status_locked)
                          (idle_or_early s' (lookup channel s'.pending)
                              (λ v f. promoted_early continuation w v s f)
                            ∙ sym refused)
                    | inr t ↦
                        rw (e, t, status_locked)
                          (active_not_ready s channel lease mode now backoff w
                              (ground (arith, a, t))
                            ∙ sym refused)
                  ]
            ]
      ]
