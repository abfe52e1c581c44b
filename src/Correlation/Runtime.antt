-- ===== src/Correlation/Runtime.antt =====
-- elyra-engine/src/elyra/correlation/engine.py: runtime (eBPF) events and action results.
use elyra.Base.{suc, String, Bool, true, false, Option, none, some, str_eq, is_some, if◌then◌else◌}
use elyra.Base.Int.{ℤ, pos, ◌-ℤ◌, leb_ℤ}
use elyra.Base.Dict.{lookup, int_key}
use elyra.Base.Exec.{pure, lift, gets, modify, ◌>>=◌, ◌>>◌}
use elyra.Base.Value.{
  Value, null, int, text, Fields, end, field, get, py_or, Builtins, int_of, str_of,
}
use elyra.Correlation.Policy.{child_process_exec}
use elyra.Correlation.State.{ExecutionState, event_seen}
use elyra.Correlation.Engine.{
  Engine, Setup, new_state, archive, update, recalculate_at, apply_rule_at, expire,
}
use elyra.Correlation.Events.{
  Method, Reply, missing_process_id, pid_of, text_value, get_default, read_clock, snapshot,
}
use elyra.Correlation.Changes.{
  compare_identifiers, endpoint, endpoint_of, exec_replaces, file, observe, or_zero, renamed,
  runtime_state_of, set_exec, set_exited, set_ppid, set_seen, set_uid,
}

abbrev pub is_text : Value → String → Bool
is_text (text s) t = str_eq s t
is_text null t = false
is_text _ t = false

module _ (lib : Builtins) (u : Setup) where
  -- What a child takes from its parent's state.
  unfoldable pub inherited : Option ExecutionState → Method (Option String)
  inherited none = pure none
  inherited (some s) = do
    now ← read_clock lib u
    pure (
        if leb_ℤ (now -ℤ s.last_seen) u.policy.inheritance_window
        then some s.correlation_id
        else none)

  -- The parent's correlation identifier, if the parent was seen recently enough.
  unfoldable pub parent_of : ℤ → Method (Option String)
  parent_of ppid = do parent ← gets (λ e. lookup ppid e.states); inherited parent

  abbrev pub child_evidence : ℤ → String → Fields
  child_evidence ppid id =
      field "parent_pid" (int ppid) (field "parent_correlation_id" (text id) end)

  -- The state of a process that has none yet.
  unfoldable pub enter : Fields → ℤ → ℤ → ℤ → Option String → Engine → Engine
  enter event pid ppid uid parent_id e =
      let entered = new_state u (runtime_state_of pid ppid uid parent_id) e in
      elim parent_id [
        | none ↦ entered
        | some id ↦
            if str_eq (str_of lib (get "event_type" event)) "PROCESS_EXEC"
            then apply_rule_at u pid child_process_exec (child_evidence ppid id) entered
            else entered
      ]

  -- `_runtime_state`, for a process identifier that has been read; the state is in the table.
  unfoldable pub ensure_state : Fields → ℤ → Method (Unit {0})
  ensure_state event pid = do
    known ← gets (λ e. is_some (lookup pid e.states))
    if known then pure tt else (do
      ppid ← lift (int_of lib (or_zero (get "ppid" event)))
      parent_id ← parent_of ppid
      uid ← lift (int_of lib (or_zero (get "uid" event)))
      modify (enter event pid ppid uid parent_id))

  -- The branch for `PROCESS_EXEC`.
  unfoldable pub on_exec : Fields → ℤ → Method (Unit {0})
  on_exec event pid = do
    timestamp ← lift (int_of lib (or_zero (get "timestamp_ns" event)))
    replaced ← gets (λ e. exec_replaces timestamp (lookup pid e.states))
    if replaced
        then (modify (archive pid "PID_EXEC_GENERATION_REPLACED") >> ensure_state event pid)
        else pure tt
    modify (update pid (set_exec timestamp (text_value (get "executable_identifier" event))))
    modify (compare_identifiers lib u pid)

  unfoldable pub observe_key : ℤ → Value → Method (Unit {0})
  observe_key pid null = pure tt
  observe_key pid key = modify (observe u pid file (str_of lib key))

  -- The branch for `FILE_WRITE`.
  unfoldable pub on_write : Fields → ℤ → Method (Unit {0})
  on_write event pid = observe_key pid (get "distinct_file_key" event)

  -- The branch for `PROCESS_EXIT`.
  unfoldable pub on_exit : Fields → ℤ → ℤ → Method (Unit {0})
  on_exit event pid now = do
    timestamp ← lift (int_of lib (or_zero (get "timestamp_ns" event)))
    modify (update pid (set_exited timestamp now))

  -- The branches of `_ingest_runtime_event` on the kind of the event.
  unfoldable pub dispatch : String → Fields → ℤ → ℤ → Method (Unit {0})
  dispatch kind event pid now =
      if str_eq kind "PROCESS_EXEC"
      then on_exec event pid
      else if str_eq kind "FILE_WRITE"
      then on_write event pid
      else if str_eq kind "FILE_RENAME"
      then modify (
          observe u pid renamed
            (str_of lib (py_or (get "executable_identifier" event) (text "UNKNOWN_IDENTIFIER"))))
      else if str_eq kind "NETWORK_CONNECT"
      then modify (observe u pid endpoint (endpoint_of lib event))
      else if str_eq kind "PROCESS_EXIT"
      then on_exit event pid now
      else pure tt

  abbrev pub field_of : {A : Type 0} → ℤ → A → (ExecutionState → A) → Engine → A
  field_of pid d f e = elim (lookup pid e.states) [ none ↦ d | some s ↦ f s ]

  -- The update of the common fields, the branch of the event's kind, and the final recalculation.
  unfoldable pub ingest_known : Fields → ℤ → Method Reply
  ingest_known event pid = do
    now ← read_clock lib u
    modify (update pid (set_seen now))
    old_ppid ← gets (field_of pid (pos 0) (λ (s : ExecutionState). s.ppid))
    ppid ← lift (int_of lib (py_or (get "ppid" event) (int old_ppid)))
    modify (update pid (set_ppid ppid))
    old_uid ← gets (field_of pid (pos 0) (λ (s : ExecutionState). s.uid))
    uid ← lift (int_of lib (py_or (get "uid" event) (int old_uid)))
    modify (update pid (set_uid uid))
    let kind = str_of lib (get_default "event_type" event (text ""))
    dispatch kind event pid now
    modify (recalculate_at u pid (event_seen kind))
    snapshot false pid

  -- `_ingest_runtime_event`
  unfoldable pub ingest_runtime_event : Fields → Method Reply
  ingest_runtime_event event = do
    modify (expire u)
    pid ← lift (pid_of lib event)
    if leb_ℤ pid (pos 0)
        then pure missing_process_id
        else (do ensure_state event pid; ingest_known event pid)

-- `record_action_result`
unfoldable pub set_action_result : Builtins → ℤ → Fields → ExecutionState → ExecutionState
set_action_result lib now result s = record s {
  last_action_result = some result;
  action_execution_status = str_of lib (py_or (get "status" result) (text "UNKNOWN"));
  last_seen = now;
}

unfoldable pub record_action_result :
    Builtins → Setup → ℤ → String → Fields → Engine → Bool × Engine
record_action_result lib u pid correlation_id result e = elim (lookup pid e.states) [
  | none ↦ (false, e)
  | some s ↦
      if str_eq s.correlation_id correlation_id
      then (
        true,
        update pid (set_action_result lib (u.clock e.reads) result)
            (record e { reads = suc e.reads }),
      )
      else (false, e)
]
