-- ===== src/Correlation/Changes.antt =====
-- elyra-engine/src/elyra/correlation/engine.py: the changes of one state that a runtime event makes.
use Prim.Native.String.{◌++◌ as join}
use elyra.Base.{
  String, Bool, true, false, ◌||◌, Option, none, some, List, [], ◌∷◌, contains, str_eq,
  if◌then◌else◌,
}
use elyra.Base.Int.{ℤ, pos, ltb_ℤ}
use elyra.Base.Dict.{lookup, int_key}
use elyra.Base.Value.{
  Value, null, int, text, Fields, end, field, get, py_or, is_zero, Builtins, str_of,
}
use elyra.Correlation.Policy.{
  RuleId, distinct_file_write, file_rename, outbound_connection, executable_identifier_mismatch,
}
use elyra.Correlation.State.{ExecutionState, active, exited, runtime_only}
use elyra.Correlation.Engine.{Engine, Setup, NewState, update, apply_rule_at}

-- `_lexically_same`
unfoldable pub lexically_same : Builtins → Option String → Option String → Bool
lexically_same lib none right = true
lexically_same lib (some left) none = true
lexically_same lib (some left) (some right) =
    str_eq left "" || str_eq right "" || str_eq (lib.normpath left) (lib.normpath right)

unfoldable pub runtime_state_of : ℤ → ℤ → ℤ → Option String → NewState
runtime_state_of pid ppid uid parent_id = record {
  pid = pid;
  ppid = ppid;
  uid = uid;
  source = runtime_only;
  status = active;
  executable_path = none;
  pre_execution_score = pos 0;
  pre_execution_decision = "UNKNOWN";
  pre_execution_indicators = [];
  parent_correlation_id = parent_id;
}

-- A set of texts with one more.
abbrev pub add_to : String → List String → List String
add_to x xs = if contains xs x then xs else x ∷ xs

abbrev pub or_zero : Value → Value
or_zero v = py_or v (int (pos 0))

abbrev pub nonzero : ℤ → Option ℤ
nonzero n = if is_zero n then none else some n

-- The set of a state that an event's key is looked up in, by the kind of the event.
pub data Observed : Type 0 where
  file renamed endpoint : Observed

abbrev pub seen : Observed → ExecutionState → List String
seen file s = s.distinct_files
seen renamed s = s.rename_identifiers
seen endpoint s = s.outbound_connections

unfoldable pub add_seen : Observed → String → ExecutionState → ExecutionState
add_seen file k s = record s { distinct_files = add_to k s.distinct_files }
add_seen renamed k s = record s { rename_identifiers = add_to k s.rename_identifiers }
add_seen endpoint k s = record s { outbound_connections = add_to k s.outbound_connections }

abbrev pub observed_rule : Observed → RuleId
observed_rule file = distinct_file_write
observed_rule renamed = file_rename
observed_rule endpoint = outbound_connection

abbrev pub observed_evidence : Observed → String → Fields
observed_evidence file k = field "distinct_file_key" (text k) end
observed_evidence renamed k =
    field "identifier" (text k) (field "path_capability" (text "IDENTIFIER_ONLY") end)
observed_evidence endpoint k = field "endpoint" (text k) end

-- `if key not in state.<set>: add it, and apply the rule`
unfoldable pub observe : Setup → ℤ → Observed → String → Engine → Engine
observe u pid what k e = elim (lookup pid e.states) [
  | none ↦ e
  | some s ↦
      if contains (seen what s) k
      then e
      else apply_rule_at u pid (observed_rule what) (observed_evidence what k)
          (update pid (add_seen what k) e)
]

unfoldable pub endpoint_of : Builtins → Fields → String
endpoint_of lib event =
    join (str_of lib (py_or (get "destination_address" event) (text "unknown")))
      (join ":" (str_of lib (py_or (get "destination_port" event) (int (pos 0)))))

unfoldable pub set_seen : ℤ → ExecutionState → ExecutionState
set_seen now s = record s { last_seen = now }

unfoldable pub set_ppid : ℤ → ExecutionState → ExecutionState
set_ppid n s = record s { ppid = n }

unfoldable pub set_uid : ℤ → ExecutionState → ExecutionState
set_uid n s = record s { uid = n }

-- The state after an exec at `timestamp`, before the identifiers are compared.
unfoldable pub set_exec : ℤ → Option String → ExecutionState → ExecutionState
set_exec timestamp identifier s = record s {
  status = active;
  exec_timestamp = elim (nonzero timestamp) [ none ↦ s.exec_timestamp | some t ↦ some t ];
  executable_identifier = identifier;
}

unfoldable pub set_exited : ℤ → ℤ → ExecutionState → ExecutionState
set_exited timestamp now s = record s {
  status = exited;
  exit_timestamp = nonzero timestamp;
  exited_at = some now;
  terminal_reason = some "PROCESS_EXIT_OBSERVED";
}

-- A second exec starts a new generation.
abbrev pub exec_replaces : ℤ → Option ExecutionState → Bool
exec_replaces timestamp none = false
exec_replaces timestamp (some s) = elim s.exec_timestamp [
  | none ↦ false
  | some t ↦ ltb_ℤ t timestamp
]

abbrev pub path_text : Option String → Value
path_text none = null
path_text (some p) = text p

-- `if not self._lexically_same(…)` with the rule's evidence
unfoldable pub compare_identifiers : Builtins → Setup → ℤ → Engine → Engine
compare_identifiers lib u pid e = elim (lookup pid e.states) [
  | none ↦ e
  | some s ↦
      if lexically_same lib s.executable_path s.executable_identifier
      then e
      else apply_rule_at u pid executable_identifier_mismatch
          (field "fanotify_path" (path_text s.executable_path)
            (field "ebpf_identifier" (path_text s.executable_identifier) end))
          e
]
