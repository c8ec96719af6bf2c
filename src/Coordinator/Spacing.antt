-- ===== src/Coordinator/Spacing.antt =====
-- After a delivery `CoordinatorService` (app/coordinator/service.py) lets 30 seconds pass before the next
-- claim, whatever is called in between.
use development_bridge.Prelude.{
  ℕ, ◌+◌, ◌≤◌, String, Bool, true, ◌&&◌, Option, List, [], ◌∷◌, ◌≡◌, subst, arith, inl, inr,
  Bool-cases, Option-cases, if-elim, ltb, is_some, lookup,
}
use development_bridge.Errors.{ok}
use development_bridge.Coordinator.Texts.{Text}
use development_bridge.Coordinator.Models.{
  PendingWake, Coordinator, delivered, DeliveryMode, min_web_turn_interval,
}
use development_bridge.Coordinator.Rules.{save_state, cool_down}
use development_bridge.Coordinator.Arming.{valid_channel}
use development_bridge.Coordinator.Delivery.{claim}
use development_bridge.Coordinator.Transport.{
  finalize_transport, finalize_wake, valid_name, is_claimed_by, recorded,
}
use development_bridge.Coordinator.Calls.{Request, perform, run}
use development_bridge.Coordinator.Delivery.{claims, Claimed}
use development_bridge.Coordinator.Grants.{claim-Granted}
use development_bridge.Coordinator.Cooldown.{Cooling, Cooling-promote_queued, Cooling-save}
use development_bridge.Coordinator.Calls.{InOrder}
use development_bridge.Coordinator.Exclusion.{last_time}
use development_bridge.Coordinator.Keeping.{Cooling-perform}
use development_bridge.Prelude.{◌⊎◌}

last_time-InOrder : (t : ℕ) (cs : List (ℕ × Request)) → InOrder t cs → t ≤ last_time t cs
last_time-InOrder t [] o = omega arith
last_time-InOrder t ((now, c) ∷ cs) (l, o) = omega (arith, l, last_time-InOrder now cs o)

module _ (alnum : ℕ → Bool) where
  run-Cooling :
      (until t : ℕ) (cs : List (ℕ × Request)) (s : Coordinator)
      → InOrder t cs
      → Cooling until s
      → (until ≤ last_time t cs) ⊎ Cooling until (run alnum cs s)
  unfolding run
  run-Cooling until t [] s o h = inr h
  run-Cooling until t ((now, c) ∷ cs) s (l, o) h = elim (Bool-cases (ltb now until)) [
    | inl b ↦
        run-Cooling until now cs (perform alnum now c s) o
          (Cooling-perform alnum until now (ground (arith, b)) c s h)
    | inr b ↦ let m = last_time-InOrder now cs o in inl (ground (arith, b, m))
  ]

  module _ (now : ℕ) (next channel : String) (transport : Text) (detail : Option Text) where
    finalize_wake-Cooling :
        (w : PendingWake) (s : Coordinator)
        → Cooling
            (now + min_web_turn_interval)
            (finalize_wake now next channel transport delivered detail w s)
    unfolding finalize_wake
    finalize_wake-Cooling w s =
        let until = now + min_web_turn_interval in
        let r = recorded transport delivered detail w in
        let cooled = cool_down channel until s in
        let g : Cooling until cooled = omega arith in
        if-elim (Cooling until) w.model_acknowledged
          (λ a. Cooling-promote_queued until now next channel r cooled g) (λ a. g)

    delivered-Cooling :
        (token : String) (s s' : Coordinator)
        → finalize_transport alnum now next channel token transport delivered detail s
          ≡ ok (true, s')
        → Cooling (now + min_web_turn_interval) s'
    unfolding finalize_transport
    delivered-Cooling token s s' e =
        elim (Bool-cases (valid_channel alnum channel && valid_name alnum transport)) [
          | inr v ↦ absurd (ground (arith, v, e))
          | inl v ↦ elim (Option-cases (lookup channel s.pending)) [
            | inl l ↦ absurd (ground (arith, v, l, e))
            | inr (w, l) ↦ elim (Bool-cases (is_claimed_by token w && is_some w.continuation_id)) [
              | inr t ↦ absurd (ground (arith, v, l, t, e))
              | inl t ↦
                  let done = finalize_wake now next channel transport delivered detail w s in
                  let same : save_state now done ≡ s' = ground (arith, v, l, t, e) in
                  subst (Cooling (now + min_web_turn_interval)) same (
                    Cooling-save (now + min_web_turn_interval) now (omega arith) done
                      (finalize_wake-Cooling w s))
            ]
          ]
        ]

    -- After a delivery that a transport reports at `now`, no claim of any channel is granted before
    -- 30 seconds have passed, whatever is called in between, if the clock does not go back.
    pub claim-delivered :
        (token : String) (s s' : Coordinator) (cs : List (ℕ × Request)) (later backoff : ℕ)
        (token' channel' : String) (lease : Option String) (mode : DeliveryMode) (c : Claimed)
        (s'' : Coordinator)
        → finalize_transport alnum now next channel token transport delivered detail s
          ≡ ok (true, s')
        → InOrder now cs
        → last_time now cs ≤ later
        → claim alnum later backoff token' channel' lease mode (run alnum cs s')
          ≡ ok (claims c, s'')
        → now + min_web_turn_interval ≤ later
    claim-delivered token s s' cs later backoff token' channel' lease mode c s'' e o l g =
        let granted =
          claim-Granted alnum later backoff token' channel' lease mode (run alnum cs s') s'' c g in
        elim (run-Cooling (now + min_web_turn_interval) now cs s' o
          (delivered-Cooling token s s' e)) [
            | inl h ↦ omega (arith, h, l)
            | inr h ↦ omega (arith, h, granted.claimable.cool)
          ]
