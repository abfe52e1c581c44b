-- ===== src/Fanotify/Handler.antt =====
-- elyra-engine/src/elyra/monitor/fanotify/controller.py: the answer to one event and the reader loop.
-- A worker may finish any event in flight: `finish` names it by its place. That the executor takes
-- what the reader submits is assumed; it refuses only after `stop`.
use elyra.Base.{
  ℕ, zero, suc, String, Bool, true, false, not, Option, none, some, List, [], ◌∷◌, ◌++◌,
  if◌then◌else◌,
}
use elyra.Base.Int.{ℤ}
use elyra.Base.Value.{Fields}
use elyra.Fanotify.Policy.{FinalAction, allow, deny, Mode, get_final_action}
use elyra.Fanotify.Controller.{
  Exception, os_error, runtime_error, value_error, other, Outcome, returned, raised, FanotifyEvent,
  System, Setup, Verdict, evaluate_event,
}

pub data RecordedAction : Type 0 where
  allowed denied degraded : RecordedAction

pub data KernelResponse : Type 0 where
  fan_allow fan_deny no_response : KernelResponse

-- The record of one decision; an absent key is `none`. The event's mask, the times, the kind of the
-- executable and the constant event type are left out.
pub record DecisionRecord : Type 0 where
  pub pid : ℤ
  pub path : Option String
  pub mode : Mode
  pub requested_decision : Option String
  pub final_action : Option RecordedAction
  pub kernel_response : Option KernelResponse
  pub reason : Option String
  pub response_ok : Option Bool
  pub error_type : Option Exception
  pub analysis : Option Fields

pub data Effect : Type 0 where
  response_attempt : ℤ → FinalAction → Effect
  closed_fd : ℤ → Effect
  emitted : DecisionRecord → Effect

abbrev pub is_caught : Exception → Bool
is_caught os_error = true
is_caught runtime_error = true
is_caught value_error = true
is_caught other = false

abbrev pub recorded : FinalAction → RecordedAction
recorded allow = allowed
recorded deny = denied

abbrev pub kernel : FinalAction → KernelResponse
kernel allow = fan_allow
kernel deny = fan_deny

module _ (u : Setup) where
  -- `_base_record`
  unfoldable pub base_record : FanotifyEvent → DecisionRecord
  base_record event = record {
    pid = event.pid;
    path = event.path;
    mode = u.policy.mode;
    requested_decision = none;
    final_action = none;
    kernel_response = none;
    reason = none;
    response_ok = none;
    error_type = none;
    analysis = none;
  }

  unfoldable pub judged_record : Verdict → FinalAction → DecisionRecord → DecisionRecord
  judged_record v final r = record r {
    requested_decision = some v.decision;
    final_action = some (recorded final);
    kernel_response = some (kernel final);
    reason = some v.reason;
    analysis = some v.analysis;
  }

  -- The `except` branch.
  unfoldable pub fail_open_record : Exception → DecisionRecord → DecisionRecord
  fail_open_record x r = record r {
    requested_decision = some "ALLOW_MONITOR";
    final_action = some allowed;
    kernel_response = some fan_allow;
    reason = some "CONTROLLER_EXCEPTION_FAIL_OPEN";
    error_type = some x;
  }

  unfoldable pub final_guard_record : Bool → DecisionRecord → DecisionRecord
  final_guard_record sent r = record r {
    response_ok = some sent;
    kernel_response = some fan_allow;
    final_action = some allowed;
    reason = elim r.reason [ none ↦ some "FINAL_GUARD_FAIL_OPEN" | some reason ↦ some reason ];
  }

  -- The `finally` block when no response was attempted; `pending` is the exception on its way.
  unfoldable pub final_guard :
      FanotifyEvent
      → System
      → DecisionRecord
      → Option Exception
      → List Effect
      → Option Exception × List Effect
  unfolding final_guard_record
  final_guard event sys r pending trace =
      let attempted = response_attempt event.fd allow ∷ trace in
      elim (sys.respond allow) [
        | returned sent ↦ (pending, emitted (final_guard_record sent r) ∷ attempted)
        | raised x ↦
            if is_caught x
            then (pending, emitted (final_guard_record false r) ∷ attempted)
            else (some x, attempted)
      ]

  -- The response to a verdict, and the blocks after it.
  unfoldable pub answer :
      FanotifyEvent → System → Verdict → List Effect → Option Exception × List Effect
  unfolding base_record judged_record fail_open_record
  answer event sys v trace =
      let final = get_final_action u.lib u.policy v.decision in
      let attempted = response_attempt event.fd final ∷ trace in
      let r = judged_record v final (base_record event) in
      elim (sys.respond final) [
        | returned sent ↦ (none, emitted (record r { response_ok = some sent }) ∷ attempted)
        | raised x ↦
            if is_caught x
            then (none, emitted (fail_open_record x r) ∷ attempted)
            else (some x, emitted r ∷ attempted)
      ]

  -- `_handle_event`; the exception is one that leaves it.
  unfoldable pub handle_event :
      FanotifyEvent → System → List Effect → Option Exception × List Effect
  unfolding base_record fail_open_record
  handle_event event sys trace = elim (evaluate_event u sys event) [
    | returned v ↦ answer event sys v trace
    | raised x ↦
        if is_caught x
        then final_guard event sys (fail_open_record x (base_record event)) none trace
        else final_guard event sys (base_record event) (some x) trace
  ]

-- The reader's state: whether its loop runs, the free slots of the semaphore, the events in flight
-- and the trace.
pub record Controller : Type 0 where
  pub reading : Bool
  pub free_slots : ℕ
  pub in_flight : List FanotifyEvent
  pub trace : List Effect

abbrev pub new_controller : ℕ → Controller
new_controller slots = record { reading = true; free_slots = slots; in_flight = []; trace = [] }

-- `_respond_saturated`; an exception of the response leaves the loop, which nothing catches there.
unfoldable pub respond_saturated : Setup → FanotifyEvent → Outcome Bool → Controller → Controller
unfolding base_record
respond_saturated u event response c =
    let attempted = response_attempt event.fd allow ∷ c.trace in
    elim response [
      | raised x ↦ record c { reading = false; trace = attempted }
      | returned sent ↦ record c {
        trace =
            emitted (record (base_record u event) {
              requested_decision = some "ALLOW_MONITOR";
              final_action = some allowed;
              kernel_response = some fan_allow;
              reason = some "EVENT_QUEUE_SATURATED_FAIL_OPEN";
              response_ok = some sent;
            })
            ∷ attempted;
      }
    ]

-- `_record_overflow`
unfoldable pub record_overflow : Setup → FanotifyEvent → List Effect → List Effect
unfolding base_record
record_overflow u event trace =
    emitted (record (base_record u event) {
      requested_decision = some "UNKNOWN";
      final_action = some degraded;
      kernel_response = some no_response;
      reason = some "FANOTIFY_QUEUE_OVERFLOW";
      response_ok = some true;
    })
    ∷ trace

-- The body of the loop over the events that were read; `response` is what a response outside a
-- worker does.
unfoldable pub on_event : Setup → FanotifyEvent → Outcome Bool → Controller → Controller
on_event u event response c =
    if not c.reading
    then c
    else if event.is_overflow
    then record c { trace = record_overflow u event c.trace }
    else if not event.is_exec_permission
    then record c { trace = closed_fd event.fd ∷ c.trace }
    else elim c.free_slots [
      | zero ↦ respond_saturated u event response c
      | suc free ↦ record c { free_slots = free; in_flight = c.in_flight ++ event ∷ [] }
    ]

abbrev pub pick : ℕ → List FanotifyEvent → Option (FanotifyEvent × List FanotifyEvent)
pick n [] = none
pick zero (e ∷ es) = some (e, es)
pick (suc n) (e ∷ es) = elim (pick n es) [
  | none ↦ none
  | some (found, rest) ↦ some (found, e ∷ rest)
]

-- A worker finishes the `n`-th event in flight, and its slot is released.
unfoldable pub finish : Setup → ℕ → System → Controller → Controller
finish u n sys c = elim (pick n c.in_flight) [
  | none ↦ c
  | some (event, rest) ↦ record c {
    free_slots = suc c.free_slots;
    in_flight = rest;
    trace = (handle_event u event sys c.trace).1;
  }
]

pub data Step : Type 0 where
  read_event : FanotifyEvent → Outcome Bool → Step
  worker_done : ℕ → System → Step

unfoldable pub step : Setup → Step → Controller → Controller
step u (read_event event response) c = on_event u event response c
step u (worker_done n sys) c = finish u n sys c

-- The controller after a sequence of steps.
unfoldable pub run_steps : Setup → List Step → Controller → Controller
run_steps u [] c = c
run_steps u (s ∷ ss) c = run_steps u ss (step u s c)
