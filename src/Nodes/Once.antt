-- ===== src/Nodes/Once.antt =====
-- Each command is handed out once (app/desktop_nodes/service.py).
use development_bridge.Prelude.{
  ℕ, ◌+◌, ◌≤◌, String, Option, none, some, List, [], ◌∷◌, ◌≡◌, ◌≢◌, refl, arith, ◌==◌, Bool-cases,
  inl, inr, eq_iff,
}
use development_bridge.Journal.Operations.{Snapshot}
use development_bridge.Nodes.Models.{Tools, Desktop}
use development_bridge.Nodes.Calls.{NodeCall, perform}
use development_bridge.Nodes.Moves.{hit, total, total-Moved}
use development_bridge.Nodes.ClaimSteps.{drawn, handed_id, perform-Moved}

-- no call draws the id again
abbrev pub NotDrawn : String → List (ℕ × NodeCall) → Type 0
NotDrawn c [] = Unit
NotDrawn c ((now, call) ∷ cs) = (drawn call ≢ some c) × NotDrawn c cs

hit-none : (c : String) (o : Option String) → o ≢ some c → hit c o ≡ 0
hit-none c none h = refl
hit-none c (some x) h = elim (Bool-cases (x == c)) [
  | inl t ↦ absurd (h (ground (arith, (eq_iff x c).0 t)))
  | inr t ↦ rw t refl
]

module _ (tools_bytes : Tools → ℕ) (stamp : ℕ → String) (quoted : Option String → String)
    (bytes : String → ℕ) (sha256 : String → String) (size : List (Option Snapshot) → ℕ) where
  -- how often the calls hand out a command, at all nodes
  abbrev pub times_handed : String → List (ℕ × NodeCall) → Desktop → ℕ
  times_handed c [] d = 0
  times_handed c ((now, call) ∷ cs) d =
      let (a, d') = perform tools_bytes stamp quoted bytes sha256 size now call d in
      hit c (handed_id a) + times_handed c cs d'

  -- Whatever is called, a command whose id is not drawn again is handed out to the agents of all nodes
  -- together at most as often as it stands in their queues: once, if it was queued once.
  pub handed_once :
      (c : String) (cs : List (ℕ × NodeCall)) (d : Desktop)
      → NotDrawn c cs
      → times_handed c cs d ≤ total c d.nodes
  handed_once c [] d n = omega arith
  handed_once c ((now, call) ∷ cs) d (n, m) =
      let d' = (perform tools_bytes stamp quoted bytes sha256 size now call d).1 in
      omega (
        arith,
        handed_once c cs d' m,
        hit-none c (drawn call) n,
        total-Moved c (perform-Moved tools_bytes stamp quoted bytes sha256 size now call d),
      )
