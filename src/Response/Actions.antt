-- ===== src/Response/Actions.antt =====
-- elyra-engine/src/elyra/response/engine.py: the methods of `ResponseEngine`.
use elyra.Base.{
  ℕ, suc, String, Bool, true, false, not, ◌&&◌, ◌||◌, Option, none, some, ◌∷◌, str_eq, get_or, ltb,
  leb, is_some, if◌then◌else◌,
}
use elyra.Base.Int.{ℤ, pos}
use elyra.Base.Dict.{lookup, insert, text_key, beq_ℤ}
use elyra.Base.Outcome.{Result, ok, err}
use elyra.Base.Exec.{pure, lift, gets, modify, ◌>>=◌, ◌>>◌}
use elyra.Base.Value.{null, int, text, Fields, end, field, get, truthy, str_of}
use elyra.Response.Policy.{protected_path}
use elyra.Response.Process.{
  ProcessIdentity, not_bound, pid_differs, no_process_bound, no_file_bound, protected_file,
  no_correlation_id, nothing_bound, Failure, safety_error, unknown_recommendation,
  deny_not_confirmed, quarantine_error, Termination, terminate,
}
use elyra.Response.Engine.{
  FileIdentity, BoundTarget, Action, allow, allow_monitor, warn, deny, terminate_process,
  quarantine_file, no_action, restore_file, delete_file, Status, succeeded, refused,
  duplicate_suppressed, skipped_policy_disabled, failed, ActionResult, Engine, Setup, Method,
  action_map, action_rank, rules_of, score_of, path_of, pid_of, id_of, from_python,
}
use elyra.Response.Table.{enter_binding, release_binding}

module _ (u : Setup) where
  abbrev pub capture : Option ℤ → Option ProcessIdentity
  capture none = none
  capture (some pid) = u.processes.capture pid

  abbrev pub opened : Option String → Option (FileIdentity × ℤ)
  opened none = none
  opened (some path) = u.open_file path

  abbrev pub file_part : Option (FileIdentity × ℤ) → Option FileIdentity
  file_part none = none
  file_part (some (identity, fd)) = some identity

  abbrev pub fd_part : Option (FileIdentity × ℤ) → Option ℤ
  fd_part none = none
  fd_part (some (identity, fd)) = some fd

  -- The binding that `bind_state` makes of what it could capture.
  unfoldable pub bind_captured :
      String → Option ℤ → Option ProcessIdentity → Option (FileIdentity × ℤ) → Method (Unit {0})
  bind_captured id pid process target =
      if not (is_some process) && not (is_some target)
      then lift (err (safety_error nothing_bound))
      else modify (λ e.
        enter_binding id
          (record {
            correlation_id = id;
            pid = get_or pid (pos 0);
            process = process;
            file = file_part target;
            file_fd = fd_part target;
            bound_at = u.monotonic e.reads;
          })
          (record e { reads = suc e.reads }))

  -- `bind_state`
  unfoldable pub bind_state : Fields → Method (Unit {0})
  bind_state state = do
    let id = id_of u.lib state
    if str_eq id "" then lift (err (safety_error no_correlation_id)) else (do
      pid ← lift (from_python (pid_of u.lib state))
      bind_captured id pid (capture pid) (opened (path_of state)))

  -- `_result`
  unfoldable pub result_of :
      Fields → String → Action → Status → Option Failure → Method ActionResult
  result_of state requested executed status failure = do
    score ← lift (from_python (score_of u.lib state))
    pid ← lift (from_python (pid_of u.lib state))
    let id = id_of u.lib state
    let result : ActionResult = record {
      correlation_id = if str_eq id "" then none else some id;
      requested_action = requested;
      executed_action = executed;
      status = status;
      score = score;
      rules = rules_of state;
      pid = pid;
      path = path_of state;
      failure = failure;
    }
    modify (λ e. record e { results = result ∷ e.results })
    pure result

  abbrev pub check_pid : ℤ → BoundTarget → Result Failure BoundTarget
  check_pid pid b =
      if beq_ℤ b.pid (pos 0) || beq_ℤ b.pid pid then ok b else err (safety_error pid_differs)

  abbrev pub bound_or_refused : Option BoundTarget → Result Failure BoundTarget
  bound_or_refused none = err (safety_error not_bound)
  bound_or_refused (some b) = ok b

  -- `_binding`
  unfoldable pub binding_of : Fields → Method BoundTarget
  binding_of state = do
    found ← gets (λ e. lookup (id_of u.lib state) e.bindings)
    b ← lift (bound_or_refused found)
    pid ← lift (from_python (pid_of u.lib state))
    lift (check_pid (get_or pid (pos 0)) b)

  -- `self.process_controller.terminate(…)`
  unfoldable pub run_terminate : ProcessIdentity → Method Termination
  run_terminate process e =
      let (r, calls) = terminate u.lib u.processes process u.policy e.calls in
      (r, record e { calls = calls })

  abbrev pub process_of : BoundTarget → Result Failure ProcessIdentity
  process_of b = elim b.process [ none ↦ err (safety_error no_process_bound) | some p ↦ ok p ]

  abbrev pub file_of : BoundTarget → Result Failure FileIdentity
  file_of b = elim b.file [
    | none ↦ err (safety_error no_file_bound)
    | some f ↦
        if protected_path u.lib u.policy f.path then err (safety_error protected_file) else ok f
  ]

  -- The result of a response that returned, and `except ResponseSafetyError`.
  unfoldable pub report : Fields → String → Action → Result Failure (Unit {0}) → Method ActionResult
  report state requested executed (ok _) = result_of state requested executed succeeded none
  report state requested executed (err (safety_error x)) =
      result_of state requested executed refused (some (safety_error x))
  report state requested executed (err x) = lift (err x)

  -- `try: m …`, the exception given to what follows.
  unfoldable pub trying :
      Method (Unit {0}) → (Result Failure (Unit {0}) → Method ActionResult) → Method ActionResult
  trying m k e = let (r, after) = m e in k r after

  unfoldable pub terminate_bound : Fields → Method (Unit {0})
  terminate_bound state = do
    b ← binding_of state
    process ← lift (process_of b)
    termination ← run_terminate process
    pure tt

  -- `_execute_terminate`
  unfoldable pub execute_terminate : Fields → String → Method ActionResult
  execute_terminate state requested =
      trying (terminate_bound state) (report state requested terminate_process)

  unfoldable pub terminate_if_bound : Option ProcessIdentity → Method (Unit {0})
  terminate_if_bound none = pure tt
  terminate_if_bound (some process) = do termination ← run_terminate process; pure tt

  unfoldable pub quarantine_bound : Fields → Method (Unit {0})
  quarantine_bound state = do
    b ← binding_of state
    f ← lift (file_of b)
    terminate_if_bound b.process
    quarantined ← lift (u.quarantine f)
    pure tt

  -- The result, and then the release of the binding.
  unfoldable pub finish_quarantine : Fields → String → Status → Option Failure → Method ActionResult
  finish_quarantine state requested status failure = do
    result ← result_of state requested quarantine_file status failure
    modify (release_binding (id_of u.lib state))
    pure result

  -- The result of a quarantine that returned, and `except (ResponseSafetyError, QuarantineError)`.
  unfoldable pub report_quarantine :
      Fields → String → Result Failure (Unit {0}) → Method ActionResult
  report_quarantine state requested (ok _) = finish_quarantine state requested succeeded none
  report_quarantine state requested (err (safety_error x)) =
      finish_quarantine state requested refused (some (safety_error x))
  report_quarantine state requested (err (quarantine_error x)) =
      finish_quarantine state requested refused (some (quarantine_error x))
  report_quarantine state requested (err x) = lift (err x)

  -- `_execute_quarantine`
  unfoldable pub execute_quarantine : Fields → String → Method ActionResult
  execute_quarantine state requested =
      trying (quarantine_bound state) (report_quarantine state requested)

  -- The response to each action that is not suppressed.
  unfoldable pub perform : Fields → String → Action → Method ActionResult
  perform state requested allow = result_of state requested allow succeeded none
  perform state requested allow_monitor = result_of state requested allow_monitor succeeded none
  perform state requested warn = result_of state requested warn succeeded none
  perform state requested deny =
      if str_eq (str_of u.lib (get "status" state)) "DENIED_PRE_EXECUTION"
      then result_of state requested deny succeeded none
      else result_of state requested deny refused (some deny_not_confirmed)
  perform state requested terminate_process =
      if not u.policy.automatic_runtime_actions
      then result_of state requested terminate_process skipped_policy_disabled none
      else execute_terminate state requested
  perform state requested quarantine_file =
      if not u.policy.automatic_runtime_actions
      then result_of state requested quarantine_file skipped_policy_disabled none
      else execute_quarantine state requested
  perform state requested other = result_of state requested other refused none

  abbrev pub is_succeeded : Status → Bool
  is_succeeded succeeded = true
  is_succeeded _ = false

  -- `self._highest_executed_rank[correlation_id] = max(previous, rank)` after a success
  unfoldable pub note_rank : String → Option ℕ → ℕ → ActionResult → Engine → Engine
  note_rank id previous rank result e =
      if not (str_eq id "") && is_succeeded result.status
      then record e {
        highest_executed_rank =
            insert id (elim previous [ none ↦ rank | some p ↦ if ltb p rank then rank else p ])
              e.highest_executed_rank;
      }
      else e

  -- The test for an equal or stronger response; no response yet counts as -1.
  abbrev pub is_suppressed : String → Option ℕ → ℕ → Bool
  is_suppressed id previous rank =
      not (str_eq id "") && elim previous [ none ↦ false | some p ↦ leb rank p ]

  unfoldable pub execute_action : Fields → String → Action → Method ActionResult
  execute_action state requested action = do
    let id = id_of u.lib state
    previous ← gets (λ e. lookup id e.highest_executed_rank)
    if is_suppressed id previous (action_rank action)
        then result_of state requested action duplicate_suppressed none
        else (do
          result ← perform state requested action
          modify (note_rank id previous (action_rank action) result)
          pure result)

  -- `str(state.get("recommended_action") or "").upper()`
  abbrev pub recommendation_of : Fields → String
  recommendation_of state =
      let v = get "recommended_action" state in
      u.lib.upper (if truthy v then str_of u.lib v else "")

  unfoldable pub execute_known : Fields → String → Option Action → Method ActionResult
  execute_known state requested none =
      result_of state (if str_eq requested "" then "UNKNOWN" else requested) no_action refused
        (some unknown_recommendation)
  execute_known state requested (some chosen) = execute_action state requested chosen

  -- `execute_recommendation`
  unfoldable pub execute_recommendation : Fields → Method ActionResult
  execute_recommendation state =
      let requested = recommendation_of state in
      execute_known state requested (lookup requested action_map)

  -- The mapping that `restore` and `delete_permanently` describe.
  abbrev pub synthetic : String → Option ℤ → Fields
  synthetic action pid = field "correlation_id" null (
      field "recommended_action" (text action) (
        field "combined_score" (int (pos 0))
          (field "pid" (elim pid [ none ↦ null | some n ↦ int n ]) end)))

  -- A quarantine operation that is audited whether it succeeds or fails, and whose failure is raised
  -- again.
  unfoldable pub audited :
      String → Action → Option ℤ → Result Failure (Unit {0}) → Method ActionResult
  audited name executed pid (ok _) = result_of (synthetic name pid) name executed succeeded none
  audited name executed pid (err (quarantine_error x)) = do
    result ← result_of (synthetic name pid) name executed failed (some (quarantine_error x))
    lift (err (quarantine_error x))
  audited name executed pid (err x) = lift (err x)

  -- `restore` and `delete_permanently`, on what the quarantine manager did.
  unfoldable pub restore : Option ℤ → Result Failure (Unit {0}) → Method ActionResult
  restore pid outcome = audited "RESTORE" restore_file pid outcome

  unfoldable pub delete_permanently : Option ℤ → Result Failure (Unit {0}) → Method ActionResult
  delete_permanently pid outcome = audited "DELETE_PERMANENTLY" delete_file pid outcome
