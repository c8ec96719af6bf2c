-- ===== src/Coordinator/Sound.antt =====
-- What holds of the pending wakes of `CoordinatorService` (app/coordinator/service.py) between any two
-- calls.
use development_bridge.Prelude.{
  ℕ, suc, ◌≤◌, String, Bool, true, Option, some, List, [], ◌∷◌, ◌≡◌, sym, ◌∙◌, arith, inl, inr,
  is_some, length, Dict, lookup, Distinct,
}
use development_bridge.Coordinator.Models.{PendingWake, Coordinator}
use development_bridge.Coordinator.Calls.{Request, drawn, perform, run}
use development_bridge.Coordinator.Changes.{Evolves, IsNew, IsNext}
use development_bridge.Coordinator.Effects.{
  Origin, stays, made, follows, moved, took, origin, perform-Change, perform-Distinct,
}

pub record Sound (w : PendingWake) : Type 0 where
  -- a wake has a continuation exactly where the model is to answer
  pub continuation : is_some w.continuation_id ≡ w.model_ack_required
  -- a delay for each attempt but the last
  pub delays : w.model_ack_required ≡ true → suc (length w.retry_delays) ≡ w.max_delivery_attempts
  pub answered : w.model_acknowledged ≡ true → w.model_ack_required ≡ true
  pub attempts : w.delivery_attempts ≤ w.max_delivery_attempts
  -- the queue's two lists belong together
  pub queues : length w.queued_messages ≡ length w.queued_escalation_messages

abbrev pub EachSound : Dict PendingWake → Type 0
EachSound d = (k : String) (w : PendingWake) → lookup k d ≡ some w → Sound w

IsNew-Sound : (drawn : Option String) (w : PendingWake) → IsNew drawn w → Sound w
IsNew-Sound drawn w n = record {
  continuation = n.required;
  delays = n.delays;
  answered = λ h. ground (arith, n.unanswered, h);
  attempts = omega (arith, n.attempts);
  queues = n.queues;
}

IsNext-Sound : (drawn : Option String) (w w' : PendingWake) → IsNext drawn w w' → Sound w → Sound w'
IsNext-Sound drawn w w' n h = record {
  continuation = ground (arith, n.continuation, n.drawn_some, n.required);
  delays = λ r. ground (arith, n.delays, n.most, h.delays (h.answered n.answered));
  answered = λ a. ground (arith, n.unanswered, a);
  attempts = omega (arith, n.attempts);
  queues = n.queues;
}

Evolves-Sound : (w w' : PendingWake) → Evolves w w' → Sound w → Sound w'
Evolves-Sound w w' e h = record {
  continuation = ground (arith, e.continuation, e.required, h.continuation);
  delays = λ r. ground (arith, e.delays, e.most, h.delays (sym e.required ∙ r));
  answered = λ a. elim (e.acknowledged a) [
    | inl b ↦ e.required ∙ h.answered b
    | inr b ↦ e.required ∙ sym h.continuation ∙ b
  ];
  attempts = e.attempts h.attempts;
  queues = e.queues h.queues;
}

module _ {drawn : Option String} {now : ℕ} {d d' : Dict PendingWake} where
  Origin-Sound : (j : String) (v : PendingWake) → EachSound d → Origin drawn now d d' j v → Sound v
  Origin-Sound j v h (stays e) = h j v e
  Origin-Sound j v h (made n) = IsNew-Sound drawn v n
  Origin-Sound j v h (follows w e n) = IsNext-Sound drawn w v n (h j w e)
  Origin-Sound j v h (moved w e f c) = Evolves-Sound w v f (h j w e)
  Origin-Sound j v h (took w e f n o p) = Evolves-Sound w v f (h j w e)

pub record Valid (s : Coordinator) : Type 0 where
  pub distinct : Distinct s.pending
  pub sound : EachSound s.pending

module _ (alnum : ℕ → Bool) where
  pub perform-Valid :
      (now : ℕ) (c : Request) (s : Coordinator) → Valid s → Valid (perform alnum now c s)
  perform-Valid now c s h = record {
    distinct = perform-Distinct alnum now c s h.distinct;
    sound =
        λ k w e. Origin-Sound k w h.sound (origin (perform-Change alnum now c s h.distinct) k w e);
  }

  pub run-Valid : (cs : List (ℕ × Request)) (s : Coordinator) → Valid s → Valid (run alnum cs s)
  unfolding run
  run-Valid [] s h = h
  run-Valid ((now, c) ∷ cs) s h = run-Valid cs (perform alnum now c s) (perform-Valid now c s h)

  -- Whatever is called from a valid coordinator, in whatever order and with whatever arguments, each
  -- pending wake is sound: it has a continuation exactly where the model is to answer, a retry delay for
  -- each attempt but the last, at most the allowed attempts, queue lists of one length, and it is
  -- acknowledged only where the model is to answer.
  pub run-Sound :
      (cs : List (ℕ × Request)) (s : Coordinator) (k : String) (w : PendingWake)
      → Valid s
      → lookup k (run alnum cs s).pending ≡ some w
      → Sound w
  run-Sound cs s k w h e = (run-Valid cs s h).sound k w e
