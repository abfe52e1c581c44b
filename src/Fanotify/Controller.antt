-- ===== src/Fanotify/Controller.antt =====
-- elyra-engine/src/elyra/monitor/fanotify/controller.py: how one event is judged. What the kernel,
-- procfs and the analyzer answer is a parameter of each event; the effects are kept in a trace, the
-- newest first.
use Prim.Native.String.{◌++◌ as join}
use elyra.Base.{
  ℕ, suc, String, Bool, true, false, not, ◌||◌, Option, none, some, List, [], ◌∷◌, contains, str_eq,
  if◌then◌else◌,
}
use elyra.Base.Int.{ℤ, pos, ◌+ℤ◌, ◌-ℤ◌, leb_ℤ, ltb_ℤ}
use elyra.Base.Dict.{beq_ℤ}
use elyra.Base.Value.{
  Builtins, Value, int, text, list, dict, nil, cons, Fields, field, end, get, has, truthy, str_of,
}
use elyra.Fanotify.Policy.{
  FanotifyPolicy, fail_open, fail_closed, FinalAction, is_enforcement_active, should_monitor,
  is_excluded_path, get_fail_policy,
}

-- The exceptions that the controller tells apart; `other` is none of `OSError`, `RuntimeError` and
-- `ValueError`.
pub data Exception : Type 0 where
  os_error runtime_error value_error other : Exception

-- What a call into the system or into a collaborator does.
pub data Outcome (A : Type 0) : Type 0 where
  returned : A → Outcome A
  raised : Exception → Outcome A

infixl 5 ◌>>=◌
abbrev pub ◌>>=◌ : {A B : Type 0} → Outcome A → (A → Outcome B) → Outcome B
returned a >>= f = f a
raised x >>= f = raised x

pub record FanotifyEvent : Type 0 where
  pub fd : ℤ
  pub pid : ℤ
  pub path : Option String
  pub parse_error : Option String
  pub received : ℤ
  pub is_overflow : Bool
  pub is_exec_permission : Bool

pub record Metadata : Type 0 where
  pub is_regular : Bool
  pub size : ℤ

-- What the system answers while one event is handled: `_parent_pid`, `os.fstat` (none is `OSError`),
-- the two readings of `time.monotonic`, the analyzer with its timeout, and `interface.respond`.
pub record System : Type 0 where
  pub parent_pid : ℤ → Outcome (Option ℤ)
  pub fstat : Option Metadata
  pub before_analysis : ℤ
  pub after_analysis : ℤ
  pub analyze : ℤ → Outcome Fields
  pub respond : FinalAction → Outcome Bool

-- What the controller is built with.
pub record Setup : Type 0 where
  pub lib : Builtins
  pub normalise : String → String
  pub policy : FanotifyPolicy
  pub daemon_pid : ℤ

abbrev pub contains_ℤ : List ℤ → ℤ → Bool
contains_ℤ [] n = false
contains_ℤ (m ∷ ms) n = beq_ℤ m n || contains_ℤ ms n

abbrev pub ancestor_step : Outcome (Option ℤ) → (ℤ → Outcome Bool) → Outcome Bool
ancestor_step (raised x) next = raised x
ancestor_step (returned none) next = returned false
ancestor_step (returned (some parent)) next = next parent

-- The body of `is_process_or_descendant`; the fuel is `max_depth`.
unfoldable pub is_descendant : ℕ → System → ℤ → List ℤ → ℤ → Outcome Bool
is_descendant ℕ.zero sys ancestor seen current = returned false
is_descendant (suc depth) sys ancestor seen current =
    let next = is_descendant depth sys ancestor (current ∷ seen) in
    if beq_ℤ current ancestor
    then returned true
    else if leb_ℤ current (pos 1) || contains_ℤ seen current
    then returned false
    else ancestor_step (sys.parent_pid current) next

unfoldable pub is_process_or_descendant : System → ℤ → ℤ → Outcome Bool
is_process_or_descendant sys pid ancestor = is_descendant 64 sys ancestor [] pid

-- What `_evaluate_event` returns.
pub record Verdict : Type 0 where
  pub decision : String
  pub reason : String
  pub analysis : Fields

abbrev pub verdict : String → String → Fields → Verdict
verdict decision reason analysis = record {
  decision = decision;
  reason = reason;
  analysis = analysis;
}

-- The analysis of a file that is larger than the limit.
unfoldable pub deferred_analysis : ℤ → ℤ → Fields
deferred_analysis file_size limit =
    let evidence = field "file_size" (int file_size) (field "limit" (int limit) end) in
    let indicator =
      field "rule" (text "LARGE_FILE_DEFERRED_FAIL_OPEN") (field "evidence" (dict evidence) end) in
    field "score" (int (pos 0)) (
      field "risk_score" (text "0/100") (
        field "scoring_status" (text "DEGRADED")
          (field "indicators" (list (cons (dict indicator) nil)) end)))

abbrev pub valid_decisions : List String
valid_decisions = "ALLOW" ∷ "ALLOW_MONITOR" ∷ "WARN" ∷ "DENY" ∷ []

abbrev pub get_default : String → Fields → Value → Value
get_default k r d = if has k r then get k r else d

module _ (u : Setup) where
  -- `_failure_decision`
  unfoldable pub failure_decision : Option String → String → Fields → Verdict
  failure_decision path reason analysis = elim (get_fail_policy u.normalise u.policy path) [
    | fail_closed ↦
        if is_enforcement_active u.policy
        then verdict "DENY" (join reason "_FAIL_CLOSED") analysis
        else verdict "ALLOW_MONITOR" (join reason "_FAIL_OPEN") analysis
    | fail_open ↦ verdict "ALLOW_MONITOR" (join reason "_FAIL_OPEN") analysis
  ]

  -- `event.pid == self.daemon_pid or (… and is_process_or_descendant(…))`
  unfoldable pub is_own_process : System → FanotifyEvent → Outcome Bool
  is_own_process sys event =
      if beq_ℤ event.pid u.daemon_pid
      then returned true
      else if u.policy.exclude_daemon_descendants
      then is_process_or_descendant sys event.pid u.daemon_pid
      else returned false

  abbrev pub deadline : FanotifyEvent → ℤ
  deadline event = event.received +ℤ u.policy.max_response_time

  -- The end of `_evaluate_event`, on what the analyzer returned.
  unfoldable pub judge_analysis : System → FanotifyEvent → Fields → Verdict
  judge_analysis sys event analysis =
      if leb_ℤ (deadline event) sys.after_analysis
      then failure_decision event.path "RESPONSE_DEADLINE_EXCEEDED" analysis
      else if truthy (get "error" analysis)
      then failure_decision event.path
          (join "ANALYSIS_" (u.lib.upper (str_of u.lib (get "error" analysis)))) analysis
      else (let decision =
            u.lib.upper (str_of u.lib (get_default "decision" analysis (text "ALLOW"))) in
          if contains valid_decisions decision
          then verdict decision "EXPLAINABLE_STATIC_SCORING" analysis
          else failure_decision event.path "INVALID_ANALYZER_DECISION" analysis)

  -- `_evaluate_event` from the deadline on.
  unfoldable pub analyze_event : System → FanotifyEvent → Outcome Verdict
  analyze_event sys event =
      let remaining = deadline event -ℤ sys.before_analysis in
      if leb_ℤ remaining (pos 0)
      then returned (failure_decision event.path "RESPONSE_DEADLINE_EXCEEDED" end)
      else sys.analyze remaining >>= λ analysis. returned (judge_analysis sys event analysis)

  -- `_evaluate_event` from `os.fstat` on.
  unfoldable pub evaluate_file : System → FanotifyEvent → Outcome Verdict
  evaluate_file sys event = elim sys.fstat [
    | none ↦ returned (failure_decision event.path "EVENT_FSTAT_FAILED" end)
    | some metadata ↦
        if not metadata.is_regular
        then returned (verdict "ALLOW" "NON_REGULAR_EXECUTION_TARGET" end)
        else if ltb_ℤ u.policy.max_preexec_file_bytes metadata.size
        then returned (
            verdict "ALLOW_MONITOR" "LARGE_FILE_DEFERRED_FAIL_OPEN"
              (deferred_analysis metadata.size u.policy.max_preexec_file_bytes))
        else analyze_event sys event
  ]

  -- `_evaluate_event` from the tests on the path on.
  unfoldable pub evaluate_path : System → FanotifyEvent → Bool → Outcome Verdict
  evaluate_path sys event own =
      if own
      then returned (verdict "ALLOW" "ELYRA_PROCESS_EXCLUDED" end)
      else if is_excluded_path u.normalise u.policy event.path
      then returned (verdict "ALLOW" "ELYRA_OR_SYSTEM_PATH_EXCLUDED" end)
      else if not (should_monitor u.normalise u.policy event.path)
      then returned (verdict "ALLOW" "OUTSIDE_CONFIGURED_MONITORED_PATHS" end)
      else evaluate_file sys event

  -- `_evaluate_event`; an empty parse error counts as none.
  unfoldable pub evaluate_event : System → FanotifyEvent → Outcome Verdict
  evaluate_event sys event =
      let rest = is_own_process sys event >>= evaluate_path sys event in
      elim event.parse_error [
        | none ↦ rest
        | some e ↦ if str_eq e "" then rest else returned (failure_decision event.path e end)
      ]
