-- ===== src/Coordinator/Delivery/Leasing.antt =====
-- app/coordinator/service.py: `issue_delivery_lease`.
use development_bridge.Prelude.{
  ℕ, String, Bool, true, false, ◌&&◌, length, ◌||◌, not, Option, none, some, ◌==◌, eqb,
  if◌then◌else◌, same_text, lookup, put,
}
use development_bridge.Errors.{
  Result, ok, err, ◌>>=◌, ◌>>◌, guard, raised, bridge_error, invalid_argument, policy_violation,
}
use development_bridge.Coordinator.Texts.{codes}
use development_bridge.Coordinator.Models.{Lease, Coordinator}
use development_bridge.Coordinator.Rules.{x_listener_active, save_state}
use development_bridge.Coordinator.Arming.{valid_channel, between}

-- validate_session_id, where the session is not None
abbrev pub valid_session : Option String → Bool
valid_session none = true
valid_session (some s) = between 1 256 (length (codes s))

module _ (alnum : ℕ → Bool) where
  -- is the route another one than that of the current lease?
  abbrev pub is_turnover : Option String → Option ℕ → Lease → Bool
  is_turnover route generation item =
      elim generation [
        | none ↦ false
        | some g ↦ elim item.generation [ none ↦ false | some h ↦ not (eqb g h) ]
      ]
      || elim route [
        | none ↦ false
        | some r ↦ elim item.route_id [ none ↦ false | some t ↦ not (r == t) ]
      ]

  abbrev pub or_else : {A : Type 0} → Option A → Option A → Option A
  or_else none b = b
  or_else (some a) b = some a

  abbrev pub fresh_lease : ℕ → String → Lease
  fresh_lease now token = record {
    lease_id = token;
    issued_at = now;
    refreshed_at = now;
    session_id = none;
    route_id = none;
    generation = none;
  }

  -- the item that `issue_delivery_lease` starts from
  abbrev pub lease_to_issue :
      ℕ → String → String → Option String → Option String → Option ℕ → Coordinator → Result Lease
  lease_to_issue now token channel session route generation s =
      elim (lookup channel s.delivery_leases) [
        | none ↦ ok (fresh_lease now token)
        | some item ↦
            if is_turnover route generation item
            then ok (fresh_lease now token)
            else if same_text session item.session_id
            then ok item
            else if x_listener_active s channel now
            then err (bridge_error policy_violation true)
            else ok (fresh_lease now token)
      ]

  unfoldable pub issue_delivery_lease :
      ℕ
      → String
      → String
      → Option String
      → Option String
      → Option ℕ
      → Coordinator
      → Result (Lease × Coordinator)
  issue_delivery_lease now token channel session route generation s = do
    guard (valid_channel alnum channel && valid_session session) (raised invalid_argument)
    item ← lease_to_issue now token channel session route generation s
    let issued = record item {
      refreshed_at = now;
      session_id = or_else session item.session_id;
      route_id = or_else route item.route_id;
      generation = or_else generation item.generation;
    }
    ok (
      issued,
      save_state now (record s { delivery_leases = put channel issued s.delivery_leases }),
    )
