-- ===== src/Response/Engine.antt =====
-- elyra-engine/src/elyra/response/engine.py: `ResponseEngine`. A correlated state is the mapping that
-- the caller passes. Each audited result is kept, the newest first; a failure of the audit log itself
-- is left out, as are the identifiers, the times, the reasons and the details of results.
use elyra.Base.{
  ℕ, ◌+◌, ◌-◌, ◌^◌, String, Option, none, some, List, [], ◌∷◌, ◌++◌, str_eq, leb, if◌then◌else◌,
}
use elyra.Base.Int.{ℤ, pos, pos_part, neg_part, min_ℤ, max_ℤ, leb_ℤ}
use elyra.Base.Dict.{Dict, text_key}
use elyra.Base.Outcome.{Result, ok, err}
use elyra.Base.Exec.{Exec}
use elyra.Base.Value.{
  Value, null, bool, int, float, text, list, dict, Items, nil, cons, Fields, get, has, truthy,
  Builtins, PyError, type_error, value_error, overflow_error, int_of, int_of_float, str_of,
}
use elyra.Response.Policy.{ResponsePolicy}
use elyra.Response.Process.{ProcessIdentity, Failure, python_error, Processes, SystemCall}

pub record FileIdentity : Type 0 where
  pub path : String
  pub device : ℤ
  pub inode : ℤ
  pub size_bytes : ℤ
  pub mtime_ns : ℤ
  pub ctime_ns : ℤ
  pub sha256 : String

pub record BoundTarget : Type 0 where
  pub correlation_id : String
  pub pid : ℤ
  pub process : Option ProcessIdentity
  pub file : Option FileIdentity
  pub file_fd : Option ℤ
  pub bound_at : ℤ

pub data Action : Type 0 where
  allow allow_monitor warn deny terminate_process quarantine_file no_action restore_file
        delete_file :
      Action

pub data Status : Type 0 where
  succeeded refused duplicate_suppressed skipped_policy_disabled failed : Status

pub record ActionResult : Type 0 where
  pub correlation_id : Option String
  pub requested_action : String
  pub executed_action : Action
  pub status : Status
  pub score : ℤ
  pub rules : List Fields
  pub pid : Option ℤ
  pub path : Option String
  pub failure : Option Failure

-- The engine: its two tables, the results audited, the descriptors closed, the system calls made and
-- the readings of the monotonic clock.
pub record Engine : Type 0 where
  pub bindings : Dict String BoundTarget
  pub highest_executed_rank : Dict String ℕ
  pub results : List ActionResult
  pub closed : List ℤ
  pub calls : List SystemCall
  pub reads : ℕ

abbrev pub new_engine : Engine
new_engine = record {
  bindings = [];
  highest_executed_rank = [];
  results = [];
  closed = [];
  calls = [];
  reads = 0;
}

-- What the engine is built with and what the system answers; `open_file` is `_open_file_identity`, with
-- none for `ResponseSafetyError`, and `quarantine` is `quarantine_file`.
pub record Setup : Type 0 where
  pub lib : Builtins
  pub policy : ResponsePolicy
  pub processes : Processes
  pub open_file : String → Option (FileIdentity × ℤ)
  pub quarantine : FileIdentity → Result Failure Fields
  pub monotonic : ℕ → ℤ

abbrev pub Method : Type 0 → Type 0
Method = Exec Failure Engine

-- `_ACTION_MAP`
abbrev pub action_map : List (String × Action)
action_map =
    ("CONTINUE_MONITORING", allow_monitor)
    ∷ ("ALERT", warn)
    ∷ ("TERMINATE", terminate_process)
    ∷ ("QUARANTINE", quarantine_file)
    ∷ ("DENY", deny)
    ∷ ("ALLOW", allow)
    ∷ ("ALLOW_MONITOR", allow_monitor)
    ∷ ("WARN", warn)
    ∷ []

-- `_ACTION_RANK`
abbrev pub action_rank : Action → ℕ
action_rank allow = 0
action_rank allow_monitor = 1
action_rank warn = 2
action_rank deny = 3
action_rank terminate_process = 4
action_rank quarantine_file = 5
action_rank _ = 0

abbrev pub items_of : Items → List Fields
items_of nil = []
items_of (cons (dict fs) vs) = fs ∷ items_of vs
items_of (cons null vs) = items_of vs
items_of (cons _ vs) = items_of vs

abbrev pub rules_at : Value → List Fields
rules_at (list vs) = items_of vs
rules_at null = []
rules_at _ = []

-- `_rules`
unfoldable pub rules_of : Fields → List Fields
rules_of state =
    rules_at (get "pre_execution_indicators" state)
    ++ rules_at (get "runtime_indicators" state)
    ++ rules_at (get "indicators" state)

abbrev pub get_default : String → Fields → Value → Value
get_default k r d = if has k r then get k r else d

abbrev pub clamp_score : ℤ → ℤ
clamp_score n = max_ℤ (pos 0) (min_ℤ (pos 100) n)

-- `int(float(value))` of an integer, clamped: rounding to a float moves no integer across 0 or 100,
-- and what rounds to 2 ^ 1024 overflows.
abbrev pub float_limit : ℕ
float_limit = 2 ^ 1024 - 2 ^ 970

-- The `try` that catches `TypeError` and `ValueError`.
abbrev pub caught : {A : Type 0} → A → Result PyError A → Result PyError A
caught d (ok a) = ok a
caught d (err type_error) = ok d
caught d (err value_error) = ok d
caught d (err overflow_error) = err overflow_error

abbrev pub clamped : Result PyError ℤ → Result PyError ℤ
clamped (ok n) = ok (clamp_score n)
clamped (err x) = err x

unfoldable pub score_value : Builtins → Value → Result PyError ℤ
score_value lib (bool b) = ok (pos 0)
score_value lib (int n) =
    if leb float_limit (pos_part n + neg_part n) then err overflow_error else ok (clamp_score n)
score_value lib (float f) = caught (pos 0) (clamped (int_of_float f))
score_value lib (text s) =
    caught (pos 0)
      (elim (lib.float_of_text s) [ none ↦ err value_error | some f ↦ clamped (int_of_float f) ])
score_value lib null = ok (pos 0)
score_value lib (list vs) = ok (pos 0)
score_value lib (dict fs) = ok (pos 0)

-- `_score`
unfoldable pub score_of : Builtins → Fields → Result PyError ℤ
score_of lib state =
    score_value lib (get_default "combined_score" state (get_default "score" state (int (pos 0))))

abbrev pub nonempty_text : Value → Option String
nonempty_text (text s) = if str_eq s "" then none else some s
nonempty_text null = none
nonempty_text _ = none

-- `_path`
unfoldable pub path_of : Fields → Option String
path_of state = elim (nonempty_text (get "executable_path" state)) [
  | none ↦ nonempty_text (get "path" state)
  | some path ↦ some path
]

abbrev pub positive : Result PyError ℤ → Result PyError (Option ℤ)
positive (ok n) = ok (if leb_ℤ n (pos 0) then none else some n)
positive (err x) = err x

unfoldable pub pid_value : Builtins → Value → Result PyError (Option ℤ)
pid_value lib (bool b) = ok none
pid_value lib null = ok none
pid_value lib v = positive (caught (pos 0) (int_of lib v))

-- `_pid`
unfoldable pub pid_of : Builtins → Fields → Result PyError (Option ℤ)
pid_of lib state = pid_value lib (get_default "tgid" state (get "pid" state))

-- `str(state.get("correlation_id") or "")`
abbrev pub id_of : Builtins → Fields → String
id_of lib state = let v = get "correlation_id" state in if truthy v then str_of lib v else ""

abbrev pub from_python : {A : Type 0} → Result PyError A → Result Failure A
from_python (ok a) = ok a
from_python (err x) = err (python_error x)
