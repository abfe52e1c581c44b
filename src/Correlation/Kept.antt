-- ===== src/Correlation/Kept.antt =====
-- Invariants of the correlation engine's methods, from those of the operations on its tables.
use elyra.Base.{
  holds_if, suc, String, Option, none, some, List, [], ◌∷◌, arith, contains, Bool-cases,
  Option-cases, inl, inr, str_eq,
}
use elyra.Base.Int.{ℤ, pos, ◌≤ℤ◌}
use elyra.Base.Dict.{lookup, int_key}
use elyra.Base.Exec.{
  modify, Keeps, keeps_rules, Keeps-bind, Keeps-bind_given, Keeps-modify, ◌>>=◌, ◌>>◌,
}
use elyra.Base.Value.{Value, bool, int, float, text, null, list, dict, Builtins, Fields, PyError}
use elyra.Correlation.Policy.{RuleId}
use elyra.Correlation.State.{ExecutionState, Reason, fanotify_late_binding}
use elyra.Correlation.Score.{Converted, convert_given}
use elyra.Correlation.Engine.{
  archive_all, expire_at, Engine, Setup, NewState, update, archive, expire, recalculate_at,
  apply_rule_at, new_state,
}
use elyra.Correlation.Events.{
  PreExecution, late_bind, pre_execution_state, late_bindable, convert, store, read_clock, snapshot,
  register_pre_execution,
}
use elyra.Correlation.Changes.{
  Observed, observe, add_seen, seen, set_seen, set_ppid, set_uid, set_exec, set_exited,
  compare_identifiers, runtime_state_of, lexically_same,
}
use elyra.Correlation.Runtime.{
  inherited, observe_key, parent_of, enter, ensure_state, on_exec, on_write, on_exit, dispatch,
  ingest_known, ingest_runtime_event, set_action_result, record_action_result,
}
use elyra.Correlation.Calls.{Call, register, ingest, expire_now, action_result, call, run_calls}

-- The changes of a state that are neither a rule nor a new score.
pub data Quiet (lib : Builtins) : (ExecutionState → ExecutionState) → Type 0 where
  seen_at : (now : ℤ) → Quiet lib (set_seen now)
  parent_read : (n : ℤ) → Quiet lib (set_ppid n)
  user_read : (n : ℤ) → Quiet lib (set_uid n)
  executed : (t : ℤ) (identifier : Option String) → Quiet lib (set_exec t identifier)
  exited_at : (t now : ℤ) → Quiet lib (set_exited t now)
  observed : (what : Observed) (k : String) → Quiet lib (add_seen what k)
  acted : (now : ℤ) (result : Fields) → Quiet lib (set_action_result lib now result)

-- What is to be shown of an invariant: that the operations on the tables keep it.
pub record Preserved (lib : Builtins) (u : Setup) (I : Engine → Type 0) : Type 0 where
  pub quiet :
      (pid : ℤ) (f : ExecutionState → ExecutionState) (e : Engine)
      → Quiet lib f
      → I e
      → I (update pid f e)
  pub read : (e : Engine) → I e → I (record e { reads = suc e.reads })
  pub archived : (pid : ℤ) (reason : String) (e : Engine) → I e → I (archive pid reason e)
  pub recalculated :
      (pid : ℤ) (reason : Reason) (e : Engine) → I e → I (recalculate_at u pid reason e)
  pub applied :
      (pid : ℤ) (r : RuleId) (evidence : Fields) (e : Engine)
      → I e
      → I (apply_rule_at u pid r evidence e)
  pub bound :
      (pid now : ℤ) (r : PreExecution) (e : Engine)
      → Converted r
      → I e
      → I (recalculate_at u pid fanotify_late_binding (update pid (late_bind now r) e))
  pub created :
      (n : NewState) (e : Engine)
      → (pos 0 ≤ℤ n.pre_execution_score) × (n.pre_execution_score ≤ℤ pos 100)
      → I e
      → I (new_state u n e)

module _ (lib : Builtins) (u : Setup) {I : Engine → Type 0} (rules : Preserved lib u I) where
  observe-holds :
      (pid : ℤ) (what : Observed) (k : String) (e : Engine) → I e → I (observe u pid what k e)
  unfolding observe
  observe-holds pid what k e h = elim (Option-cases (lookup pid e.states)) [
    | inl gone ↦ rw (observe, gone) h
    | inr (s, at) ↦ elim (Bool-cases (contains (seen what s) k)) [
      | inl known ↦ rw (observe, at, known) h
      | inr fresh ↦
          rw (observe, at, fresh)
            (rules.applied pid _ _ _ (rules.quiet pid _ e (observed what k) h))
    ]
  ]

  compare_identifiers-holds : (pid : ℤ) (e : Engine) → I e → I (compare_identifiers lib u pid e)
  unfolding compare_identifiers
  compare_identifiers-holds pid e h = elim (Option-cases (lookup pid e.states)) [
    | inl gone ↦ rw (compare_identifiers, gone) h
    | inr (s, at) ↦
        elim (Bool-cases (lexically_same lib s.executable_path s.executable_identifier)) [
          | inl same ↦ rw (compare_identifiers, at, same) h
          | inr other ↦ rw (compare_identifiers, at, other) (rules.applied pid _ _ e h)
        ]
  ]

  enter-holds :
      (event : Fields) (pid ppid uid : ℤ) (parent_id : Option String) (e : Engine)
      → I e
      → I (enter lib u event pid ppid uid parent_id e)
  unfolding enter runtime_state_of
  enter-holds event pid ppid uid none e h =
      rules.created (runtime_state_of pid ppid uid none) e (omega arith, omega arith) h
  enter-holds event pid ppid uid (some id) e h =
      let entered =
        rules.created (runtime_state_of pid ppid uid (some id)) e (omega arith, omega arith) h in
      holds_if I _ _ _ (rules.applied pid _ _ _ entered) entered

  convert_kept : (r : Fields) → Keeps I (convert lib u r)
  unfolding convert
  convert_kept r = search keeps_rules

  store-holds :
      (pid now : ℤ) (current : Option ExecutionState) (r : PreExecution) (e : Engine)
      → Converted r
      → I e
      → I (store lib u pid now current r e)
  unfolding store pre_execution_state
  store-holds pid now current r e range h = holds_if I _ _ _ (rules.bound pid now r e range h) (
      rules.created (pre_execution_state pid r) _ range
        (holds_if I _ _ _ (rules.archived pid _ e h) h))

  read_clock_kept : Keeps I (read_clock lib u)
  unfolding read_clock
  read_clock_kept = record { at = rules.read }

  archive_all-holds : (gone : List (ℤ × String)) (e : Engine) → I e → I (archive_all gone e)
  unfolding archive_all
  archive_all-holds [] e h = h
  archive_all-holds ((pid, reason) ∷ gone) e h =
      archive_all-holds gone (archive pid reason e) (rules.archived pid reason e h)

  expire-holds : (e : Engine) → I e → I (expire u e)
  unfolding expire expire_at
  expire-holds e h = archive_all-holds _ _ (rules.read e h)

  expire_kept : Keeps I (modify {E = PyError} (expire u))
  expire_kept = Keeps-modify (expire u) expire-holds

  stored_kept :
      (r : Fields) (pid now : ℤ) (current : Option ExecutionState)
      → Keeps I (do
        converted ← convert lib u r
        modify (store lib u pid now current converted)
        snapshot (late_bindable u.policy now current) pid)
  unfolding snapshot
  stored_kept r pid now current =
      Keeps-bind_given (convert lib u r) _ (convert_kept r) (convert_given lib u r) (λ c range.
        Keeps-bind _ _ (Keeps-modify _ (λ e. store-holds pid now current c e range))
          (λ _. search keeps_rules))

  register_pre_execution_kept : (r : Fields) → Keeps I (register_pre_execution lib u r)
  unfolding register_pre_execution
  register_pre_execution_kept r =
      search (keeps_rules, expire-holds, read_clock_kept, stored_kept r) depth 20

  inherited_kept : (parent : Option ExecutionState) → Keeps I (inherited lib u parent)
  unfolding inherited
  inherited_kept none = search keeps_rules
  inherited_kept (some s) = search (keeps_rules, read_clock_kept)

  parent_of_kept : (ppid : ℤ) → Keeps I (parent_of lib u ppid)
  unfolding parent_of
  parent_of_kept ppid = search (keeps_rules, inherited_kept)

  ensure_state_kept : (event : Fields) (pid : ℤ) → Keeps I (ensure_state lib u event pid)
  unfolding ensure_state
  ensure_state_kept event pid = search (keeps_rules, parent_of_kept, enter-holds event pid) depth 20

  set_kept :
      (pid : ℤ) (f : ExecutionState → ExecutionState)
      → Quiet lib f
      → Keeps I (modify {E = PyError} (update pid f))
  set_kept pid f h = Keeps-modify _ (λ e. rules.quiet pid f e h)

  on_exec_kept : (event : Fields) (pid : ℤ) → Keeps I (on_exec lib u event pid)
  unfolding on_exec
  on_exec_kept event pid =
      search
        (
          keeps_rules,
          ensure_state_kept,
          rules.archived pid,
          compare_identifiers-holds pid,
          set_kept,
          executed,
        )
        depth 20

  observe_key_kept : (pid : ℤ) (key : Value) → Keeps I (observe_key lib u pid key)
  unfolding observe_key
  observe_key_kept pid null = search keeps_rules
  observe_key_kept pid (bool b) = search (keeps_rules, observe-holds)
  observe_key_kept pid (int b) = search (keeps_rules, observe-holds)
  observe_key_kept pid (float b) = search (keeps_rules, observe-holds)
  observe_key_kept pid (text b) = search (keeps_rules, observe-holds)
  observe_key_kept pid (list b) = search (keeps_rules, observe-holds)
  observe_key_kept pid (dict b) = search (keeps_rules, observe-holds)

  on_write_kept : (event : Fields) (pid : ℤ) → Keeps I (on_write lib u event pid)
  unfolding on_write
  on_write_kept event pid = observe_key_kept pid _

  on_exit_kept : (event : Fields) (pid now : ℤ) → Keeps I (on_exit lib u event pid now)
  unfolding on_exit
  on_exit_kept event pid now = search (keeps_rules, set_kept, Quiet.exited_at) depth 20

  dispatch_kept :
      (kind : String) (event : Fields) (pid now : ℤ) → Keeps I (dispatch lib u kind event pid now)
  unfolding dispatch
  dispatch_kept kind event pid now =
      search (keeps_rules, on_exec_kept, on_write_kept, on_exit_kept, observe-holds) depth 20

  recalculated_kept :
      (pid : ℤ) (reason : Reason) → Keeps I (modify {E = PyError} (recalculate_at u pid reason))
  recalculated_kept pid reason = Keeps-modify _ (rules.recalculated pid reason)

  ingest_known_kept : (event : Fields) (pid : ℤ) → Keeps I (ingest_known lib u event pid)
  unfolding ingest_known snapshot
  ingest_known_kept event pid =
      search
        (
          keeps_rules, read_clock_kept, set_kept, seen_at, parent_read, user_read, dispatch_kept,
          recalculated_kept,
        )
        depth 20

  ingest_runtime_event_kept : (event : Fields) → Keeps I (ingest_runtime_event lib u event)
  unfolding ingest_runtime_event
  ingest_runtime_event_kept event =
      search (keeps_rules, expire-holds, ensure_state_kept, ingest_known_kept) depth 20

  record_action_result-holds :
      (pid : ℤ) (id : String) (result : Fields) (e : Engine)
      → I e
      → I (record_action_result lib u pid id result e).1
  unfolding record_action_result
  record_action_result-holds pid id result e h = elim (Option-cases (lookup pid e.states)) [
    | inl gone ↦ rw (record_action_result, gone) h
    | inr (s, at) ↦ elim (Bool-cases (str_eq s.correlation_id id)) [
      | inl same ↦
          rw (record_action_result, at, same)
            (rules.quiet pid _ (record e { reads = suc e.reads }) (acted (u.clock e.reads) result)
              (rules.read e h))
      | inr other ↦ rw (record_action_result, at, other) h
    ]
  ]

  call-holds : (c : Call) (e : Engine) → I e → I (call lib u c e)
  unfolding call
  call-holds (register r) e h = (register_pre_execution_kept r).at e h
  call-holds (ingest event) e h = (ingest_runtime_event_kept event).at e h
  call-holds expire_now e h = expire-holds e h
  call-holds (action_result pid id result) e h = record_action_result-holds pid id result e h

  pub run_calls-holds : (cs : List Call) (e : Engine) → I e → I (run_calls lib u cs e)
  unfolding run_calls
  run_calls-holds [] e h = h
  run_calls-holds (c ∷ cs) e h = run_calls-holds cs (call lib u c e) (call-holds c e h)
