-- ===== src/Coordinator/Effects.antt =====
-- What the calls of `CoordinatorService` do to the pending wakes, all calls together.
use development_bridge.Prelude.{
  ℕ, ◌≤◌, String, Bool, false, Option, some, ◌≡◌, sym, subst, ◌∙◌, arith, inl, inr, ◌==◌,
  Bool-cases, if◌then◌else◌, Dict, lookup, put, lookup-put, lookup-pop, Distinct, Distinct-put,
  Distinct-pop, eq_iff,
}
use development_bridge.Coordinator.Models.{PendingWake, Coordinator}
use development_bridge.Coordinator.Rules.{other_claim}
use development_bridge.Coordinator.Calls.{
  Request, arms, asks_status, claims_wake, issues_lease, marks_auth, clears_auth, finalizes,
  authorizes, acks, observes, acks_model, cancels, notifies, resolves, drawn, perform,
}
use development_bridge.Coordinator.Changes.{
  Evolves, Calm, IsNew, IsNext, Change, kept, dropped, opened, promotes, changed, taken,
}
use development_bridge.Coordinator.Steps.{arm-Change}
use development_bridge.Coordinator.ClaimSteps.{status-Change, claim-Change, issue-Change}
use development_bridge.Coordinator.TransportSteps.{
  marks-Change, clears-Change, finalizes-Change, authorizes-Change, acks-Change, observes-Change,
  cancels-Change,
}
use development_bridge.Coordinator.AnswerSteps.{acks_model-Change, notifies-Change, resolves-Change}

module _ (alnum : ℕ → Bool) (now : ℕ) where
  pub perform-Change :
      (c : Request) (s : Coordinator)
      → Distinct s.pending
      → Change (drawn c) now s.pending (perform alnum now c s).pending
  perform-Change (arms continuation a) s u = arm-Change alnum now continuation a s
  perform-Change (asks_status backoff continuation channel lease mode) s u =
      status-Change alnum now backoff continuation channel lease mode s
  perform-Change (claims_wake backoff token channel lease mode) s u =
      claim-Change alnum now backoff token channel lease mode s
  perform-Change (issues_lease token channel session route generation) s u =
      issue-Change alnum now token channel session route generation s
  perform-Change (marks_auth channel id transport detail) s u =
      marks-Change alnum now channel id transport detail s
  perform-Change (clears_auth channel id transport) s u =
      clears-Change alnum now channel id transport s
  perform-Change (finalizes next channel token transport d detail) s u =
      finalizes-Change alnum now next channel token transport d detail s
  perform-Change (authorizes channel id) s u = authorizes-Change alnum now channel id s
  perform-Change (acks next channel token lease) s u =
      acks-Change alnum now next channel token lease s
  perform-Change (observes channel id) s u = observes-Change alnum now channel id s
  perform-Change (acks_model id) s u = acks_model-Change alnum now id s u
  perform-Change (cancels channel) s u = cancels-Change alnum now channel s
  perform-Change (notifies id) s u = notifies-Change alnum now id s u
  perform-Change (resolves id) s u = resolves-Change alnum now id s

module _ {drawn : Option String} {now : ℕ} {d d' : Dict PendingWake} where
  Change-Distinct : Change drawn now d d' → Distinct d → Distinct d'
  Change-Distinct (kept e) u = subst Distinct (sym e) u
  Change-Distinct (dropped k e) u = subst Distinct (sym e) (Distinct-pop k d u)
  Change-Distinct (opened k w n e) u = subst Distinct (sym e) (Distinct-put k w d u)
  Change-Distinct (promotes k w w' l n e) u = subst Distinct (sym e) (Distinct-put k w' d u)
  Change-Distinct (changed k w w' l f c e) u = subst Distinct (sym e) (Distinct-put k w' d u)
  Change-Distinct (taken k w w' l f n o e) u = subst Distinct (sym e) (Distinct-put k w' d u)

pub perform-Distinct :
    (alnum : ℕ → Bool) (now : ℕ) (c : Request) (s : Coordinator)
    → Distinct s.pending
    → Distinct (perform alnum now c s).pending
perform-Distinct alnum now c s u = Change-Distinct (perform-Change alnum now c s u) u

-- where a wake that is pending after a call comes from
pub data Origin (drawn : Option String) (now : ℕ) (d d' : Dict PendingWake) (j : String)
    (v : PendingWake) : Type 0 where
  stays : lookup j d ≡ some v → Origin drawn now d d' j v
  made : IsNew drawn v → Origin drawn now d d' j v
  follows : (w : PendingWake) → lookup j d ≡ some w → IsNext drawn w v → Origin drawn now d d' j v
  moved :
      (w : PendingWake) → lookup j d ≡ some w → Evolves w v → Calm w v → Origin drawn now d d' j v
  took :
      (w : PendingWake)
      → lookup j d ≡ some w
      → Evolves w v
      → w.transport_delivered ≡ false
      → other_claim j now d ≤ now
      → d' ≡ put j v d
      → Origin drawn now d d' j v

-- a wake behind `put` is the new one, or was there
pub put-cases :
    {V : Type 0} (P : String → V → Type 0) (k : String) (v : V) (d : Dict V) {d' : Dict V}
    (j : String) (w : V)
    → d' ≡ put k v d
    → lookup j d' ≡ some w
    → P k v
    → (lookup j d ≡ some w → P j w)
    → P j w
put-cases P k v d j w e h new old =
    let l : (if k == j then some v else lookup j d) ≡ some w =
      sym (lookup-put k j v d) ∙ subst (λ x. lookup j x ≡ some w) e h in
    elim (Bool-cases (k == j)) [
      | inl t ↦
          let same : k ≡ j = (eq_iff k j).0 t in
          let here : v ≡ w = ground (arith, l, t) in subst (λ x. P x w) same (subst (P k) here new)
      | inr t ↦ old (ground (arith, l, t))
    ]

module _ {drawn : Option String} {now : ℕ} {d d' : Dict PendingWake} where
  pub origin :
      Change drawn now d d'
      → (j : String) (v : PendingWake) → lookup j d' ≡ some v
      → Origin drawn now d d' j v
  origin (kept e) j v h = stays (subst (λ x. lookup j x ≡ some v) e h)
  origin (dropped k e) j v h =
      stays (ground (arith, sym (lookup-pop k j d) ∙ subst (λ x. lookup j x ≡ some v) e h))
  origin (opened k w n e) j v h = put-cases (Origin drawn now d d') k w d j v e h (made n) stays
  origin (promotes k w w' l n e) j v h =
      put-cases (Origin drawn now d d') k w' d j v e h (follows w l n) stays
  origin (changed k w w' l f c e) j v h =
      put-cases (Origin drawn now d d') k w' d j v e h (moved w l f c) stays
  origin (taken k w w' l f n o e) j v h =
      put-cases (Origin drawn now d d') k w' d j v e h (took w l f n o e) stays
