-- ===== src/Response/Process.antt =====
-- elyra-engine/src/elyra/response/engine.py: `PidfdProcessController`. What the system answers is a
-- parameter; the system calls that act are kept in a trace, the newest first.
use elyra.Base.{
  String, Bool, true, false, not, ◌&&◌, ◌||◌, Option, none, some, List, ◌∷◌, if◌then◌else◌,
}
use elyra.Base.Int.{ℤ}
use elyra.Base.Dict.{beq_ℤ}
use elyra.Base.Outcome.{Result, ok, err}
use elyra.Base.Value.{Builtins, PyError}
use elyra.Response.Policy.{ResponsePolicy, contains_ℤ, protected_path}

pub record ProcessIdentity : Type 0 where
  pub pid : ℤ
  pub start_time_ticks : ℤ
  pub executable_path : String
  pub executable_device : ℤ
  pub executable_inode : ℤ
  pub uid : ℤ

-- `_same_identity`
unfoldable pub same_identity : ProcessIdentity → ProcessIdentity → Bool
same_identity expected current =
    beq_ℤ expected.pid current.pid
    && beq_ℤ expected.start_time_ticks current.start_time_ticks
    && beq_ℤ expected.executable_device current.executable_device
    && beq_ℤ expected.executable_inode current.executable_inode

-- Why a response is refused, by what the message of `ResponseSafetyError` says.
pub data Refusal : Type 0 where
  protected_pid protected_executable no_pidfd_open no_pidfd_send_signal pidfd_not_opened : Refusal
  identity_not_captured identity_changed survived_sigterm survived_sigkill : Refusal
  not_bound pid_differs no_process_bound no_file_bound protected_file : Refusal
  no_correlation_id nothing_bound : Refusal

-- The exceptions of a response, and the two failures that are no exception.
pub data Failure : Type 0 where
  safety_error : Refusal → Failure
  quarantine_error : String → Failure
  os_error attribute_error : Failure
  unknown_recommendation deny_not_confirmed : Failure
  python_error : PyError → Failure

pub data Signal : Type 0 where
  sigterm sigkill : Signal

pub data PidfdOpened : Type 0 where
  opened process_gone open_refused : PidfdOpened

pub data SystemCall : Type 0 where
  pidfd_opened : ℤ → SystemCall
  signal_sent : Signal → SystemCall
  pidfd_closed : SystemCall

-- What the system answers: `signal_fails` is an `OSError` of `pidfd_send_signal`, and `exits` is
-- `_wait_pidfd` after a signal.
pub record Processes : Type 0 where
  pub own_pid : ℤ
  pub has_pidfd_open : Bool
  pub has_pidfd_send_signal : Bool
  pub pidfd_open : ℤ → PidfdOpened
  pub capture : ℤ → Option ProcessIdentity
  pub signal_fails : Signal → Bool
  pub exits : Signal → ℤ → Bool

pub record Termination : Type 0 where
  pub process_already_exited : Bool
  pub signal : Option Signal
  pub escalated : Bool

-- A call's outcome and the trace after it.
abbrev pub Acting : Type 0 → Type 0
Acting A = Result Failure A × List SystemCall

-- `terminate` from the second signal on.
unfoldable pub escalate : Processes → ResponsePolicy → List SystemCall → Acting Termination
escalate sys p trace =
    if not p.escalate_to_sigkill
    then (err (safety_error survived_sigterm), trace)
    else if sys.signal_fails sigkill
    then (err os_error, trace)
    else if sys.exits sigkill p.kill_grace
    then (
      ok (record { process_already_exited = false; signal = some sigkill; escalated = true }),
      signal_sent sigkill ∷ trace,
    )
    else (err (safety_error survived_sigkill), signal_sent sigkill ∷ trace)

-- The signals, once the process is known to be the expected one.
unfoldable pub send_signals : Processes → ResponsePolicy → List SystemCall → Acting Termination
send_signals sys p trace =
    if sys.signal_fails sigterm
    then (err os_error, trace)
    else if sys.exits sigterm p.terminate_grace
    then (
      ok (record { process_already_exited = false; signal = some sigterm; escalated = false }),
      signal_sent sigterm ∷ trace,
    )
    else escalate sys p (signal_sent sigterm ∷ trace)

-- The block that holds the pidfd, before its `finally`.
unfoldable pub with_pidfd :
    Processes → ProcessIdentity → ResponsePolicy → List SystemCall → Acting Termination
with_pidfd sys expected p trace = elim (sys.capture expected.pid) [
  | none ↦ (err (safety_error identity_not_captured), trace)
  | some current ↦
      if same_identity expected current
      then send_signals sys p trace
      else (err (safety_error identity_changed), trace)
]

abbrev pub closing : {A : Type 0} → Acting A → Acting A
closing (r, trace) = (r, pidfd_closed ∷ trace)

-- `terminate`
unfoldable pub terminate :
    Builtins → Processes → ProcessIdentity → ResponsePolicy → List SystemCall → Acting Termination
terminate lib sys expected p trace =
    if contains_ℤ p.protected_pids expected.pid || beq_ℤ expected.pid sys.own_pid
    then (err (safety_error protected_pid), trace)
    else if protected_path lib p expected.executable_path
    then (err (safety_error protected_executable), trace)
    else if p.require_pidfd && not sys.has_pidfd_open
    then (err (safety_error no_pidfd_open), trace)
    else if not sys.has_pidfd_send_signal
    then (err (safety_error no_pidfd_send_signal), trace)
    else if not sys.has_pidfd_open
    then (err attribute_error, trace)
    else elim (sys.pidfd_open expected.pid) [
      | process_gone ↦
          (ok (record { process_already_exited = true; signal = none; escalated = false }), trace)
      | open_refused ↦ (err (safety_error pidfd_not_opened), trace)
      | opened ↦ closing (with_pidfd sys expected p (pidfd_opened expected.pid ∷ trace))
    ]
