-- ===== src/Fanotify/Answers.antt =====
-- What the controller answers to the kernel.
use elyra.Base.{◌≡◌, List, [], ◌∷◌, arith}
use elyra.Base.Int.{ℤ}
use elyra.Fanotify.Policy.{FinalAction, allow, get_final_action}
use elyra.Fanotify.Controller.{returned, raised, FanotifyEvent, System, Setup, evaluate_event}
use elyra.Fanotify.Handler.{
  Effect, response_attempt, closed_fd, emitted, handle_event, answer, final_guard,
}

-- The responses that were attempted, the newest first.
abbrev pub attempts : List Effect → List (ℤ × FinalAction)
attempts [] = []
attempts (response_attempt fd final ∷ es) = (fd, final) ∷ attempts es
attempts (closed_fd fd ∷ es) = attempts es
attempts (emitted r ∷ es) = attempts es

-- The answer that the policy asks for: an event that could not be judged is allowed.
abbrev pub intended : Setup → FanotifyEvent → System → FinalAction
intended u event sys = elim (evaluate_event u sys event) [
  | returned v ↦ get_final_action u.lib u.policy v.decision
  | raised x ↦ allow
]

-- Handling an event attempts exactly one response, for the event's descriptor, and it is the intended
-- one, whatever the analyzer, the system and the response itself do.
pub handle_event_answers_once :
    (u : Setup) (event : FanotifyEvent) (sys : System) (trace : List Effect)
    → attempts (handle_event u event sys trace).1
      ≡ (event.fd, intended u event sys) ∷ attempts trace
unfolding handle_event answer final_guard
handle_event_answers_once u event sys trace = ground arith
