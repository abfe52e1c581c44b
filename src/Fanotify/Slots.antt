-- ===== src/Fanotify/Slots.antt =====
-- Over any sequence of steps of the reader and its workers: the slots, and the events answered.
use elyra.Base.{
  ℕ, zero, suc, ◌+◌, ◌≡◌, refl, Bool, not, ◌&&◌, some, List, [], ◌∷◌, length, length-append, arith,
  inl, inr, Option-cases, if◌then◌else◌,
}
use elyra.Fanotify.Controller.{Outcome, FanotifyEvent, System, Setup}
use elyra.Fanotify.Handler.{
  Controller, on_event, respond_saturated, record_overflow, finish, pick, Step, read_event,
  worker_done, step, run_steps,
}
use elyra.Fanotify.Answers.{attempts, handle_event_answers_once}

pick-length :
    (n : ℕ) (es : List FanotifyEvent) (e : FanotifyEvent) (rest : List FanotifyEvent)
    → pick n es ≡ some (e, rest)
    → length es ≡ suc (length rest)
pick-length n [] e rest h = cc
pick-length zero (x ∷ xs) e rest h = ground arith
pick-length (suc n) (x ∷ xs) e rest h = elim (Option-cases (pick n xs)) [
  | inl gone ↦ ground (arith, gone)
  | inr ((f, left), at) ↦ let shorter = pick-length n xs f left at in ground (arith, at, shorter)
]

-- A permission event that the reader reads while its loop runs.
abbrev pub asks : FanotifyEvent → Controller → ℕ
asks event c = if c.reading && not event.is_overflow && event.is_exec_permission then 1 else 0

-- The number of permission events read in a sequence of steps.
abbrev pub permission_reads : Setup → List Step → Controller → ℕ
permission_reads u [] c = 0
permission_reads u (read_event event response ∷ ss) c =
    asks event c + permission_reads u ss (step u (read_event event response) c)
permission_reads u (worker_done n sys ∷ ss) c = permission_reads u ss (step u (worker_done n sys) c)

-- The answers given and the events still in flight.
abbrev pub accounted : Controller → ℕ
accounted c = length (attempts c.trace) + length c.in_flight

on_event_slots :
    (u : Setup) (event : FanotifyEvent) (response : Outcome Bool) (c : Controller)
    → (on_event u event response c).free_slots + length (on_event u event response c).in_flight
      ≡ c.free_slots + length c.in_flight
unfolding on_event respond_saturated record_overflow
on_event_slots u event response c = ground (arith, length-append c.in_flight (event ∷ []))

accounted-on_event :
    (u : Setup) (event : FanotifyEvent) (response : Outcome Bool) (c : Controller)
    → accounted (on_event u event response c) ≡ accounted c + asks event c
unfolding on_event respond_saturated record_overflow
accounted-on_event u event response c = ground (arith, length-append c.in_flight (event ∷ []))

finish_slots :
    (u : Setup) (n : ℕ) (sys : System) (c : Controller)
    → (finish u n sys c).free_slots + length (finish u n sys c).in_flight
      ≡ c.free_slots + length c.in_flight
unfolding finish
finish_slots u n sys c = elim (Option-cases (pick n c.in_flight)) [
  | inl gone ↦ ground (arith, gone)
  | inr ((event, rest), at) ↦ ground (arith, at, pick-length n c.in_flight event rest at)
]

accounted-finish :
    (u : Setup) (n : ℕ) (sys : System) (c : Controller) → accounted (finish u n sys c) ≡ accounted c
unfolding finish
accounted-finish u n sys c = elim (Option-cases (pick n c.in_flight)) [
  | inl gone ↦ ground (arith, gone)
  | inr ((event, rest), at) ↦ ground (
    arith,
    at,
    pick-length n c.in_flight event rest at,
    handle_event_answers_once u event sys c.trace,
  )
]

-- In any sequence of steps of the reader and of workers that finish in any order, the free slots and
-- the events in flight add up to what they did at the start.
pub in_flight_bounded :
    (u : Setup) (ss : List Step) (c : Controller)
    → (run_steps u ss c).free_slots + length (run_steps u ss c).in_flight
      ≡ c.free_slots + length c.in_flight
unfolding run_steps step
in_flight_bounded u [] c = refl
in_flight_bounded u (read_event event response ∷ ss) c =
    omega (
      arith,
      in_flight_bounded u ss (on_event u event response c),
      on_event_slots u event response c,
    )
in_flight_bounded u (worker_done n sys ∷ ss) c =
    omega (arith, in_flight_bounded u ss (finish u n sys c), finish_slots u n sys c)

-- In any sequence of steps of the reader and of workers that finish in any order, the responses
-- attempted and the events in flight grow together by exactly the number of permission events that
-- were read while the reader's loop ran.
pub every_permission_event_answered :
    (u : Setup) (ss : List Step) (c : Controller)
    → accounted (run_steps u ss c) ≡ accounted c + permission_reads u ss c
unfolding run_steps step
every_permission_event_answered u [] c = omega arith
every_permission_event_answered u (read_event event response ∷ ss) c = omega (
  arith,
  every_permission_event_answered u ss (on_event u event response c),
  accounted-on_event u event response c,
)
every_permission_event_answered u (worker_done n sys ∷ ss) c =
    omega
      (arith, every_permission_event_answered u ss (finish u n sys c), accounted-finish u n sys c)
