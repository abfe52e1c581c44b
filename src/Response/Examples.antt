-- ===== src/Response/Examples.antt =====
-- The response engine's theorems at a concrete process, file and correlation.
use elyra.Base.{◌+◌, ◌≤◌, ◌≡◌, refl, true, false, none, some, [], ◌∷◌, ◌⊎◌, length, arith}
use elyra.Base.Int.{pos}
use elyra.Base.Dict.{Distinct, lookup, text_key}
use elyra.Base.Outcome.{ok, err}
use elyra.Base.Value.{Builtins, type_error, text, int, Fields, field, end, get}
use elyra.Response.Policy.{ResponsePolicy}
use elyra.Response.Process.{ProcessIdentity, Processes, terminate, opened}
use elyra.Response.Engine.{BoundTarget, Engine, Setup, new_engine, warn}
use elyra.Response.Table.{binding_limit}
use elyra.Response.Actions.{execute_action}
use elyra.Response.Calls.{bind, execute, run_calls}
use elyra.Response.Safe.{signals, opens, closes, MaySignal, signals-terminate, closes-terminate}
use elyra.Response.Limits.{bindings_bounded, weaker_response_suppressed}

abbrev builtins : Builtins
builtins = record {
  int_of_text = λ s. none;
  float_of_text = λ s. none;
  text_of = λ v. "";
  upper = λ s. s;
  normpath = λ s. s;
  dict_of_other = λ v. err type_error;
}

abbrev policy : ResponsePolicy
policy = record {
  policy_status = "PROVISIONAL_NOT_CALIBRATED";
  automatic_runtime_actions = true;
  terminate_grace = pos 3000000;
  kill_grace = pos 2000000;
  escalate_to_sigkill = true;
  require_pidfd = true;
  protected_pids = pos 0 ∷ pos 1 ∷ [];
  protected_path_prefixes = "/opt/elyra" ∷ [];
}

abbrev process : ProcessIdentity
process = record {
  pid = pos 7;
  start_time_ticks = pos 5;
  executable_path = "/tmp/a";
  executable_device = pos 1;
  executable_inode = pos 2;
  uid = pos 1000;
}

abbrev processes : Processes
processes = record {
  own_pid = pos 2;
  has_pidfd_open = true;
  has_pidfd_send_signal = true;
  pidfd_open = λ pid. opened;
  capture = λ pid. some process;
  signal_fails = λ s. false;
  exits = λ s timeout. true;
}

abbrev setup : Setup
setup = record {
  lib = builtins;
  policy = policy;
  processes = processes;
  open_file = λ path. none;
  quarantine = λ f. ok end;
  monotonic = λ n. pos n;
}

abbrev state : Fields
state = field "correlation_id" (text "c") (
    field "tgid" (int (pos 7))
      (field "combined_score" (int (pos 75)) (field "recommended_action" (text "TERMINATE") end)))

abbrev target : BoundTarget
target = record {
  correlation_id = "c";
  pid = pos 7;
  process = some process;
  file = none;
  file_fd = some (pos 4);
  bound_at = pos 0;
}

abbrev ranked : Engine
ranked = record new_engine { highest_executed_rank = ("c", 4) ∷ [] }

abbrev bound : Engine
bound = record new_engine { bindings = ("c", target) ∷ [] }

signals-terminate_example :
    (signals (terminate builtins processes process policy []).1 ≡ [])
    ⊎ MaySignal builtins processes process policy
signals-terminate_example = signals-terminate builtins processes process policy []

closes-terminate_example :
    opens (terminate builtins processes process policy []).1 + 0
    ≡ closes (terminate builtins processes process policy []).1 + 0
closes-terminate_example = closes-terminate builtins processes process policy []

bindings_bounded_example :
    Distinct (run_calls setup (bind state ∷ execute state ∷ []) new_engine).bindings
    × (length (run_calls setup (bind state ∷ execute state ∷ []) new_engine).bindings
        ≤ binding_limit)
bindings_bounded_example = bindings_bounded setup (bind state ∷ execute state ∷ [])

weaker_response_suppressed_example :
    let after = (execute_action setup state "ALERT" warn ranked).1 in
    (after.calls ≡ [])
    × (after.bindings ≡ [])
    × (after.closed ≡ [])
    × (after.highest_executed_rank ≡ ("c", 4) ∷ [])
unfolding lookup get
weaker_response_suppressed_example =
    weaker_response_suppressed setup state "ALERT" warn 4 ranked refl refl (omega arith)
