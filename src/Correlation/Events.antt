-- ===== src/Correlation/Events.antt =====
-- elyra-engine/src/elyra/correlation/engine.py: how a fanotify record is read and registered. A
-- reference to a state object is the process identifier under which the engine's table holds it.
use Prim.Native.Char.{code}
use elyra.Base.{
  suc, ◌==◌, String, Bool, true, false, ◌&&◌, Option, none, some, List, [], str_eq, is_some,
  if◌then◌else◌,
}
use elyra.Base.Int.{ℤ, pos, ◌-ℤ◌, min_ℤ, max_ℤ, leb_ℤ}
use elyra.Base.Dict.{lookup, int_key}
use elyra.Base.Outcome.{Result, ok, err}
use elyra.Base.Exec.{Exec, pure, lift, gets, modify, ◌>>=◌, ◌>>◌}
use elyra.Base.Value.{
  Value, null, bool, int, float, text, list, dict, Fields, get, has, py_or, Builtins, PyError,
  type_error, value_error, overflow_error, int_of, int_of_float, str_of, dicts_of,
}
use elyra.Correlation.Policy.{CorrelationPolicy}
use elyra.Correlation.State.{
  ExecutionState, Status, pending_exec, active, denied_pre_execution, exited, Source, fanotify,
  runtime_only, fanotify_late_bound, fanotify_late_binding,
}
use elyra.Correlation.Engine.{
  Engine, Setup, NewState, new_state, archive, update, recalculate_at, expire,
}

abbrev pub Method : Type 0 → Type 0
Method = Exec PyError Engine

-- The text before the first slash, `value.split("/", 1)[0]`.
unfoldable pub before_slash : String → String
before_slash String.[] = String.[]
before_slash (String.◌∷◌ c s) =
    let rest = before_slash s in if code c == b'/' then String.[] else String.◌∷◌ c rest

abbrev pub clamp_score : ℤ → ℤ
clamp_score n = max_ℤ (pos 0) (min_ℤ (pos 100) n)

-- `int(float(head))` inside the `try` that catches `ValueError`
abbrev pub score_of_head : Result PyError ℤ → Result PyError ℤ
score_of_head (ok n) = ok (clamp_score n)
score_of_head (err value_error) = ok (pos 0)
score_of_head (err type_error) = err type_error
score_of_head (err overflow_error) = err overflow_error

abbrev pub clamped : Result PyError ℤ → Result PyError ℤ
clamped (ok n) = ok (clamp_score n)
clamped (err x) = err x

-- `_score`
unfoldable pub score_of : Builtins → Value → Result PyError ℤ
score_of lib (bool b) = ok (pos 0)
score_of lib (int n) = ok (clamp_score n)
score_of lib (float f) = clamped (int_of_float f)
score_of lib (text s) =
    score_of_head (elim (lib.float_of_text (before_slash s)) [
      | none ↦ err value_error
      | some f ↦ int_of_float f
    ])
score_of lib null = ok (pos 0)
score_of lib (list vs) = ok (pos 0)
score_of lib (dict fs) = ok (pos 0)

-- `int(value)` inside the `try` that catches `TypeError` and `ValueError`
abbrev pub pid_or_zero : Result PyError ℤ → Result PyError ℤ
pid_or_zero (ok n) = ok n
pid_or_zero (err type_error) = ok (pos 0)
pid_or_zero (err value_error) = ok (pos 0)
pid_or_zero (err overflow_error) = err overflow_error

abbrev pub pid_of_value : Builtins → Value → Result PyError ℤ
pid_of_value lib (bool b) = ok (pos 0)
pid_of_value lib null = pid_or_zero (int_of lib null)
pid_of_value lib v = pid_or_zero (int_of lib v)

-- `_pid`
unfoldable pub pid_of : Builtins → Fields → Result PyError ℤ
pid_of lib r = pid_of_value lib (py_or (py_or (get "tgid" r) (get "pid" r)) (int (pos 0)))

-- `record.get(key, default)`
abbrev pub get_default : String → Fields → Value → Value
get_default k r d = if has k r then get k r else d

-- A text that is not empty.
abbrev pub text_value : Value → Option String
text_value (text s) = if str_eq s "" then none else some s
text_value null = none
text_value _ = none

abbrev pub indicators_of : Builtins → Value → Result PyError (List Fields)
indicators_of lib (list vs) = dicts_of lib vs
indicators_of lib null = ok []
indicators_of lib _ = ok []

pub data Reply : Type 0 where
  missing_process_id : Reply
  accepted : Bool → Option ExecutionState → Reply

abbrev pub is_runtime_only : Source → Bool
is_runtime_only runtime_only = true
is_runtime_only fanotify = false
is_runtime_only fanotify_late_bound = false

abbrev pub awaits_exec : Status → Bool
awaits_exec active = true
awaits_exec pending_exec = true
awaits_exec denied_pre_execution = false
awaits_exec exited = false

-- Whether a fanotify record that comes at `now` is bound to a state that runtime events made.
unfoldable pub late_bindable : CorrelationPolicy → ℤ → Option ExecutionState → Bool
late_bindable p now none = false
late_bindable p now (some s) =
    is_runtime_only s.source
    && awaits_exec s.status
    && leb_ℤ (now -ℤ s.created) p.late_binding_window

-- What a fanotify record says, after the conversions.
pub record PreExecution : Type 0 where
  pub score : ℤ
  pub final_action : String
  pub requested : String
  pub indicators : List Fields
  pub path : Option String

unfoldable pub late_bind : ℤ → PreExecution → ExecutionState → ExecutionState
late_bind now r s = record s {
  source = fanotify_late_bound;
  executable_path = elim r.path [ none ↦ s.executable_path | some path ↦ some path ];
  pre_execution_score = r.score;
  pre_execution_decision = r.requested;
  pre_execution_indicators = r.indicators;
  last_seen = now;
  status = if str_eq r.final_action "DENY" then denied_pre_execution else s.status;
}

unfoldable pub pre_execution_state : ℤ → PreExecution → NewState
pre_execution_state pid r = record {
  pid = pid;
  ppid = pos 0;
  uid = pos 0;
  source = fanotify;
  status = if str_eq r.final_action "DENY" then denied_pre_execution else pending_exec;
  executable_path = r.path;
  pre_execution_score = r.score;
  pre_execution_decision = r.requested;
  pre_execution_indicators = r.indicators;
  parent_correlation_id = none;
}

unfoldable pub snapshot : Bool → ℤ → Method Reply
snapshot late pid = gets (λ e. accepted late (lookup pid e.states))

module _ (lib : Builtins) (u : Setup) where
  -- `self._clock()`
  unfoldable pub read_clock : Method ℤ
  read_clock e = (ok (u.clock e.reads), record e { reads = suc e.reads })

  unfoldable pub convert : Fields → Method PreExecution
  convert r = do
    score ← lift (score_of lib (get_default "score" r (get_default "risk_score" r (int (pos 0)))))
    let final_action = lib.upper (str_of lib (get_default "final_action" r (text "ALLOW")))
    let requested = lib.upper (str_of lib (get_default "requested_decision" r (text "UNKNOWN")))
    indicators ← lift (indicators_of lib (get "indicators" r))
    pure (record {
      score = score;
      final_action = final_action;
      requested = requested;
      indicators = indicators;
      path = text_value (get "path" r);
    })

  -- The part of `_register_pre_execution` that changes the table.
  unfoldable pub store : ℤ → ℤ → Option ExecutionState → PreExecution → Engine → Engine
  store pid now current r e =
      if late_bindable u.policy now current
      then recalculate_at u pid fanotify_late_binding (update pid (late_bind now r) e)
      else new_state u (pre_execution_state pid r)
          (if is_some current then archive pid "SUPERSEDED_BY_NEW_PRE_EXECUTION" e else e)

  -- `_register_pre_execution`
  unfoldable pub register_pre_execution : Fields → Method Reply
  register_pre_execution r = do
    modify (expire u)
    pid ← lift (pid_of lib r)
    if leb_ℤ pid (pos 0) then pure missing_process_id else (do
      now ← read_clock
      current ← gets (λ e. lookup pid e.states)
      converted ← convert r
      modify (store pid now current converted)
      snapshot (late_bindable u.policy now current) pid)
