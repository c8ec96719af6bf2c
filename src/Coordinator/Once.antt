-- ===== src/Coordinator/Once.antt =====
-- A continuation that `CoordinatorService` (app/coordinator/service.py) has delivered is not claimed again.
use development_bridge.Prelude.{
  ℕ, ◌+◌, String, Bool, true, ◌&&◌, Option, none, some, List, [], ◌∷◌, ◌≡◌, ◌≢◌, refl, sym, ap,
  subst, ◌∙◌, arith, inl, inr, Bool-cases, Option-cases, if◌then◌else◌, if-elim, is_some, Dict,
  lookup, put, pop, lookup-pop, lookup-put, ◌==◌, Distinct, eq_iff,
}
use development_bridge.Errors.{ok}
use development_bridge.Coordinator.Texts.{Text}
use development_bridge.Coordinator.Models.{
  PendingWake, Coordinator, delivered, DeliveryMode, min_web_turn_interval,
}
use development_bridge.Coordinator.Rules.{cool_down, save_state}
use development_bridge.Coordinator.Arming.{valid_channel, promote_queued, is_empty}
use development_bridge.Coordinator.Delivery.{claims, Claimed, claim}
use development_bridge.Coordinator.Transport.{
  finalize_transport, finalize_wake, complete_acknowledged, handed_over, recorded, valid_name,
  is_claimed_by,
}
use development_bridge.Coordinator.Calls.{Request, finalizes, drawn, perform, run, after}
use development_bridge.Coordinator.Steps.{pending-save}
use development_bridge.Coordinator.Effects.{
  Origin, stays, made, follows, moved, took, origin, perform-Change, perform-Distinct,
}
use development_bridge.Coordinator.Grants.{claim-Granted}

-- every pending wake with the id has been delivered
abbrev pub Spent : String → Dict PendingWake → Type 0
Spent id d =
    (k : String) (w : PendingWake)
    → lookup k d ≡ some w
    → w.continuation_id ≡ some id
    → w.transport_delivered ≡ true

-- no call draws the id again
abbrev pub NeverDrawn : String → List (ℕ × Request) → Type 0
NeverDrawn id [] = Unit
NeverDrawn id ((now, c) ∷ cs) = (drawn c ≢ some id) × NeverDrawn id cs

module _ {drawn : Option String} {now : ℕ} {d d' : Dict PendingWake} where
  Origin-Spent :
      (id j : String) (v : PendingWake)
      → drawn ≢ some id
      → Spent id d
      → Origin drawn now d d' j v
      → v.continuation_id ≡ some id
      → v.transport_delivered ≡ true
  Origin-Spent id j v n h (stays e) c = h j v e c
  Origin-Spent id j v n h (made m) c = elim m.continuation [
    | inl x ↦ absurd (ground (arith, x, c))
    | inr x ↦ absurd (n (sym x ∙ c))
  ]
  Origin-Spent id j v n h (follows w e m) c = absurd (n (sym m.continuation ∙ c))
  Origin-Spent id j v n h (moved w e f m) c = f.delivered (h j w e (sym f.continuation ∙ c))
  Origin-Spent id j v n h (took w e f u o p) c = f.delivered (h j w e (sym f.continuation ∙ c))

module _ (alnum : ℕ → Bool) where
  pub run-Spent :
      (id : String) (cs : List (ℕ × Request)) (s : Coordinator)
      → Distinct s.pending
      → NeverDrawn id cs
      → Spent id s.pending
      → Spent id (run alnum cs s).pending
  unfolding run
  run-Spent id [] s u n h = h
  run-Spent id ((now, c) ∷ cs) s u (n, m) h =
      run-Spent id cs (perform alnum now c s) (perform-Distinct alnum now c s u) m
        (λ k w e. Origin-Spent id k w n h (origin (perform-Change alnum now c s u) k w e))

-- no other channel waits with the id
abbrev pub OnlyAt : String → String → Dict PendingWake → Type 0
OnlyAt id channel d =
    (k : String) (w : PendingWake) → lookup k d ≡ some w → w.continuation_id ≡ some id → k ≡ channel

module _ (id channel : String) (d : Dict PendingWake) where
  pop-Spent : OnlyAt id channel d → Spent id (pop channel d)
  pop-Spent h k w e c =
      let l : (if channel == k then none else lookup k d) ≡ some w =
        sym (lookup-pop channel k d) ∙ e in
      absurd (ground (arith, l, h k w, c, eq_iff channel k))

  put-Spent :
      (v : PendingWake)
      → OnlyAt id channel d
      → (v.continuation_id ≡ some id → v.transport_delivered ≡ true)
      → Spent id (put channel v d)
  put-Spent v h n k w e c =
      let l : (if channel == k then some v else lookup k d) ≡ some w =
        sym (lookup-put channel k v d) ∙ e in
      elim (Bool-cases (channel == k)) [
        | inl t ↦
            let here : v ≡ w = ground (arith, l, t) in
            subst (λ (x : PendingWake). x.transport_delivered ≡ true) here
              (n (ap (λ (x : PendingWake). x.continuation_id) here ∙ c))
        | inr t ↦ absurd (ground (arith, t, eq_iff channel k, h k w (ground (arith, l, t)) c))
      ]

module _ (alnum : ℕ → Bool) (now : ℕ) (next id channel : String) (transport : Text)
    (detail : Option Text) where
  -- the continuation is acknowledged already, and its queue goes on under the next id
  completed-Spent :
      (w : PendingWake) (s : Coordinator)
      → OnlyAt id channel s.pending
      → next ≢ id
      → Spent id (complete_acknowledged now next channel w s).pending
  unfolding promote_queued
  completed-Spent w s h n =
      let P : Option String × Coordinator → Type 0 = λ r. Spent id r.1.pending in
      if-elim P (is_empty w.queued_messages) (λ t. pop-Spent id channel s.pending h)
        (λ t. put-Spent id channel s.pending _ h (λ c. absurd (n (ground (arith, c)))))

  finalize_wake-Spent :
      (w : PendingWake) (s : Coordinator)
      → OnlyAt id channel s.pending
      → next ≢ id
      → Spent id (finalize_wake now next channel transport delivered detail w s).pending
  unfolding finalize_wake
  finalize_wake-Spent w s h n =
      let P : Coordinator → Type 0 = λ z. Spent id z.pending in
      let r = recorded transport delivered detail w in
      if-elim P w.model_acknowledged
        (λ a. completed-Spent r (cool_down channel (now + min_web_turn_interval) s) h n)
        (λ a. put-Spent id channel s.pending (handed_over now r) h (λ c. refl))

  finalized-Spent :
      (token : String) (s s' : Coordinator)
      → OnlyAt id channel s.pending
      → next ≢ id
      → finalize_transport alnum now next channel token transport delivered detail s ≡ ok (true, s')
      → Spent id s'.pending
  unfolding finalize_transport
  finalized-Spent token s s' h n e =
      elim (Bool-cases (valid_channel alnum channel && valid_name alnum transport)) [
        | inr v ↦ absurd (ground (arith, v, e))
        | inl v ↦ elim (Option-cases (lookup channel s.pending)) [
          | inl l ↦ absurd (ground (arith, v, l, e))
          | inr (w, l) ↦ elim (Bool-cases (is_claimed_by token w && is_some w.continuation_id)) [
            | inr t ↦ absurd (ground (arith, v, l, t, e))
            | inl t ↦
                let same : save_state now
                      (finalize_wake now next channel transport delivered detail w s)
                    ≡ s' =
                  ground (arith, v, l, t, e) in
                subst (λ (z : Coordinator). Spent id z.pending) same
                  (subst (Spent id)
                    (sym (
                      pending-save now
                        (finalize_wake now next channel transport delivered detail w s)))
                    (finalize_wake-Spent w s h n))
          ]
        ]
      ]

  -- Once a transport has reported a continuation as delivered, no later claim, of any channel and by
  -- any transport, is granted for it, if the pending wakes have distinct channels, no other channel
  -- waits for the same continuation, and no call draws its id again.
  pub claim-finalize_transport :
      (token : String) (s s' : Coordinator) (cs : List (ℕ × Request)) (later backoff : ℕ)
      (token' channel' : String) (lease : Option String) (mode : DeliveryMode) (c : Claimed)
      (s'' : Coordinator)
      → Distinct s.pending
      → OnlyAt id channel s.pending
      → next ≢ id
      → finalize_transport alnum now next channel token transport delivered detail s ≡ ok (true, s')
      → NeverDrawn id cs
      → claim alnum later backoff token' channel' lease mode (run alnum cs s') ≡ ok (claims c, s'')
      → c.continuation_id ≢ some id
  unfolding perform
  claim-finalize_transport token s s' cs later backoff token' channel' lease mode c s'' u h n e m g
        k =
      let there : perform alnum now (finalizes next channel token transport delivered detail) s
          ≡ s' =
        ap (after s) e in
      let u' : Distinct s'.pending =
        subst (λ (z : Coordinator). Distinct z.pending) there
          (perform-Distinct alnum now (finalizes next channel token transport delivered detail) s
            u) in
      let granted =
        claim-Granted alnum later backoff token' channel' lease mode (run alnum cs s') s'' c g in
      let spent = run-Spent alnum id cs s' u' m (finalized-Spent token s s' h n e) in
      let done = spent channel' granted.wake granted.found (sym granted.continuation ∙ k) in
      ground (arith, done, granted.claimable.undelivered)
