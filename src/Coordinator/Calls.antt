-- ===== src/Coordinator/Calls.antt =====
-- Histories of the calls of `CoordinatorService` (app/coordinator/service.py). A call that raises leaves
-- the state as it is.
use development_bridge.Prelude.{ℕ, ◌≤◌, Bool, String, Option, none, some, List, [], ◌∷◌}
use development_bridge.Errors.{Result, ok, err}
use development_bridge.Coordinator.Texts.{Text}
use development_bridge.Coordinator.Models.{Disposition, DeliveryMode, Coordinator}
use development_bridge.Coordinator.Arming.{ArmArgs, arm}
use development_bridge.Coordinator.Delivery.{status, claim, issue_delivery_lease}
use development_bridge.Coordinator.Transport.{
  mark_preclaim_auth_required, clear_preclaim_auth_block, finalize_transport,
  authorize_browser_preflight, ack, observe_model_turn, model_ack, cancel_pending,
}
use development_bridge.Coordinator.Escalation.{mark_escalation_notified, resolve_escalation}

-- The texts are channels, ids and tokens in the order of the operation's arguments.
pub data Request : Type 0 where
  arms : String → ArmArgs → Request
  asks_status : ℕ → String → String → Option String → DeliveryMode → Request
  claims_wake : ℕ → String → String → Option String → DeliveryMode → Request
  issues_lease : String → String → Option String → Option String → Option ℕ → Request
  marks_auth : String → String → Text → Option Text → Request
  clears_auth : String → String → Text → Request
  finalizes : String → String → String → Text → Disposition → Option Text → Request
  authorizes : String → String → Request
  acks : String → String → String → Option String → Request
  observes : String → String → Request
  acks_model : String → Request
  cancels : String → Request
  notifies : String → Request
  resolves : String → Request

abbrev pub after : {A : Type 0} → Coordinator → Result (A × Coordinator) → Coordinator
after s (ok (a, s')) = s'
after s (err e) = s

module _ (alnum : ℕ → Bool) where
  unfoldable pub perform : ℕ → Request → Coordinator → Coordinator
  perform now (arms continuation a) s = after s (arm alnum now continuation a s)
  perform now (asks_status backoff continuation channel lease mode) s =
      after s (status alnum now backoff continuation channel lease mode s)
  perform now (claims_wake backoff token channel lease mode) s =
      after s (claim alnum now backoff token channel lease mode s)
  perform now (issues_lease token channel session route generation) s =
      after s (issue_delivery_lease alnum now token channel session route generation s)
  perform now (marks_auth channel id transport detail) s =
      after s (mark_preclaim_auth_required alnum now channel id transport detail s)
  perform now (clears_auth channel id transport) s =
      after s (clear_preclaim_auth_block alnum now channel id transport s)
  perform now (finalizes next channel token transport d detail) s =
      after s (finalize_transport alnum now next channel token transport d detail s)
  perform now (authorizes channel id) s =
      after s (authorize_browser_preflight alnum now channel id s)
  perform now (acks next channel token lease) s = after s (ack alnum now next channel token lease s)
  perform now (observes channel id) s = after s (observe_model_turn alnum now channel id s)
  perform now (acks_model id) s = after s (model_ack alnum now id s)
  perform now (cancels channel) s = after s (cancel_pending alnum now channel s)
  perform now (notifies id) s = after s (mark_escalation_notified alnum now id s)
  perform now (resolves id) s = after s (resolve_escalation alnum now id s)

  unfoldable pub run : List (ℕ × Request) → Coordinator → Coordinator
  run [] s = s
  run ((now, c) ∷ cs) s = run cs (perform now c s)

-- the clock does not go back
abbrev pub InOrder : ℕ → List (ℕ × Request) → Type 0
InOrder t [] = Unit
InOrder t ((now, c) ∷ cs) = (t ≤ now) × InOrder now cs

-- the new continuation id that a call may draw
abbrev pub drawn : Request → Option String
drawn (arms continuation a) = some continuation
drawn (asks_status backoff continuation channel lease mode) = some continuation
drawn (finalizes next channel token transport d detail) = some next
drawn (acks next channel token lease) = some next
drawn _ = none
