-- ===== src/Coordinator/Exclusion.antt =====
-- One web turn at a time: the claims of `CoordinatorService` (app/coordinator/service.py) over all
-- channels.
use development_bridge.Prelude.{
  ℕ, ◌≤◌, String, Bool, true, false, Option, some, List, [], ◌∷◌, ◌≡◌, ◌≢◌, sym, subst, ◌∙◌, arith,
  inl, inr, ◌⊎◌, ◌==◌, Bool-cases, if◌then◌else◌, Dict, lookup, put, lookup-put, Distinct, eq_iff,
}
use development_bridge.Coordinator.Models.{PendingWake, Coordinator}
use development_bridge.Coordinator.Rules.{or_zero, lease_active, other_claim}
use development_bridge.Coordinator.Calls.{Request, InOrder, perform, run}
use development_bridge.Coordinator.Effects.{
  Origin, stays, made, follows, moved, took, origin, perform-Change, perform-Distinct,
}

-- from `t` on, at most one channel holds an active claim
abbrev pub OneClaim : ℕ → Dict PendingWake → Type 0
OneClaim t d =
    (j k : String) (v w : PendingWake) (n : ℕ)
    → t ≤ n
    → lookup j d ≡ some v
    → lookup k d ≡ some w
    → lease_active v n ≡ true
    → lease_active w n ≡ true
    → j ≡ k

-- an active claim of another channel is counted
counted :
    (channel j : String) (v : PendingWake) (now : ℕ) (d : Dict PendingWake)
    → lookup j d ≡ some v
    → (j == channel) ≡ false
    → lease_active v now ≡ true
    → or_zero v.lease_expires_at ≤ other_claim channel now d
counted channel j v now [] e n a = absurd (ground (arith, e))
counted channel j v now ((k, w) ∷ d) e n a = elim (Bool-cases (k == j)) [
  | inl t ↦
      let here : w ≡ v = ground (arith, e, t) in
      let same : k ≡ j = (eq_iff k j).0 t in rw (here, same, n, a) (omega arith)
  | inr t ↦ let rest = counted channel j v now d (ground (arith, e, t)) n a in ground (arith, rest)
]

active_later :
    (v : PendingWake) (m n : ℕ) → m ≤ n → lease_active v n ≡ true → lease_active v m ≡ true
active_later v m n l a = ground (arith, l, a)

-- the claim was active in `d`
abbrev pub Held : Dict PendingWake → String → PendingWake → ℕ → Type 0
Held d j v n = (w : PendingWake) × ((lookup j d ≡ some w) × (lease_active w n ≡ true))

-- beside a claim that the call took no other is active
beside_taken :
    (now : ℕ) (d d' : Dict PendingWake) (j k : String) (v w : PendingWake) (n : ℕ)
    → now ≤ n
    → other_claim j now d ≤ now
    → d' ≡ put j v d
    → lookup k d' ≡ some w
    → lease_active w n ≡ true
    → j ≡ k
beside_taken now d d' j k v w n l o p e a = elim (Bool-cases (j == k)) [
  | inl t ↦ (eq_iff j k).0 t
  | inr t ↦
      let other : (k == j) ≡ false = ground (arith, eq_iff j k, eq_iff k j, t) in
      let there : (if j == k then some v else lookup k d) ≡ some w =
        sym (lookup-put j k v d) ∙ subst (λ x. lookup k x ≡ some w) p e in
      let c = counted j k w now d (ground (arith, there, t)) other (active_later w now n l a) in
      absurd (ground (arith, c, o, a, l))
]

module _ {drawn : Option String} {now : ℕ} {d d' : Dict PendingWake} where
  -- an active claim after the call was active before, or the call took it
  held :
      (j : String) (v : PendingWake) (n : ℕ)
      → Origin drawn now d d' j v
      → lease_active v n ≡ true
      → Held d j v n ⊎ ((other_claim j now d ≤ now) × (d' ≡ put j v d))
  held j v n (stays e) a = inl (v, (e, a))
  held j v n (made m) a = absurd (ground (arith, m.unclaimed, a))
  held j v n (follows w e m) a = absurd (ground (arith, m.unclaimed, a))
  held j v n (moved w e f c) a = inl (w, (e, c n a))
  held j v n (took w e f m o p) a = inr (o, p)

  Origin-OneClaim :
      OneClaim now d
      → ((i : String) (x : PendingWake) → lookup i d' ≡ some x → Origin drawn now d d' i x)
      → OneClaim now d'
  Origin-OneClaim h from j k v w n l e f a b = elim (held j v n (from j v e) a) [
    | inr (o, p) ↦ beside_taken now d d' j k v w n l o p f b
    | inl (v', (e', a')) ↦ elim (held k w n (from k w f) b) [
      | inr (o, p) ↦ sym (beside_taken now d d' k j w v n l o p e a)
      | inl (w', (f', b')) ↦ h j k v' w' n l e' f' a' b'
    ]
  ]

-- the time of the last call
abbrev pub last_time : ℕ → List (ℕ × Request) → ℕ
last_time t [] = t
last_time t ((now, c) ∷ cs) = last_time now cs

module _ (alnum : ℕ → Bool) where
  perform-OneClaim :
      (t now : ℕ) (c : Request) (s : Coordinator)
      → t ≤ now
      → Distinct s.pending
      → OneClaim t s.pending
      → OneClaim now (perform alnum now c s).pending
  perform-OneClaim t now c s l u h =
      Origin-OneClaim (λ j k v w n m. h j k v w n (omega (arith, l, m)))
        (origin (perform-Change alnum now c s u))

  pub run-OneClaim :
      (t : ℕ) (cs : List (ℕ × Request)) (s : Coordinator)
      → Distinct s.pending
      → InOrder t cs
      → OneClaim t s.pending
      → OneClaim (last_time t cs) (run alnum cs s).pending
  unfolding run
  run-OneClaim t [] s u o h = h
  run-OneClaim t ((now, c) ∷ cs) s u (l, o) h =
      run-OneClaim now cs (perform alnum now c s) (perform-Distinct alnum now c s u) o
        (perform-OneClaim t now c s l u h)

  -- However the calls of all channels are interleaved, from the last of them on no two channels hold
  -- active claims at once, if the pending wakes have distinct channels, that was so at the start,
  -- and the clock does not go back.
  pub claims_exclusive :
      (t : ℕ) (cs : List (ℕ × Request)) (s : Coordinator) (j k : String) (v w : PendingWake) (n : ℕ)
      → Distinct s.pending
      → InOrder t cs
      → OneClaim t s.pending
      → last_time t cs ≤ n
      → lookup j (run alnum cs s).pending ≡ some v
      → lookup k (run alnum cs s).pending ≡ some w
      → j ≢ k
      → lease_active v n ≡ true
      → lease_active w n ≡ false
  claims_exclusive t cs s j k v w n u o h l e f d a = elim (Bool-cases (lease_active w n)) [
    | inl b ↦ absurd (d (run-OneClaim t cs s u o h j k v w n l e f a b))
    | inr b ↦ b
  ]
