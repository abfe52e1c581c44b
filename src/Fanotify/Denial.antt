-- ===== src/Fanotify/Denial.antt =====
-- When the controller denies.
use Prim.Native.String.{◌++◌ as join}
use elyra.Base.{◌≡◌, String, true, false, some, ◌⊎◌}
use elyra.Base.Int.{◌-ℤ◌}
use elyra.Base.Value.{Builtins, Fields, text, str_of}
use elyra.Fanotify.Policy.{fail_closed, get_fail_policy, is_excluded_path, should_monitor}
use elyra.Fanotify.Controller.{returned, FanotifyEvent, System, Setup, deadline, get_default}

-- `str.upper` leaves the decisions as they are.
pub record FixedDecisions (lib : Builtins) : Type 0 where
  pub allow_fixed : lib.upper "ALLOW" ≡ "ALLOW"
  pub monitor_fixed : lib.upper "ALLOW_MONITOR" ≡ "ALLOW_MONITOR"
  pub warn_fixed : lib.upper "WARN" ≡ "WARN"
  pub deny_fixed : lib.upper "DENY" ≡ "DENY"

-- The analyzer's own decision.
abbrev pub analyzer_decision : Setup → Fields → String
analyzer_decision u analysis =
    u.lib.upper (str_of u.lib (get_default "decision" analysis (text "ALLOW")))

module _ (u : Setup) (fixed : FixedDecisions u.lib) where
  -- The analyzer was asked before the deadline and decided to deny.
  abbrev pub AnalyzerDenial : System → FanotifyEvent → Type 0
  AnalyzerDenial sys event =
      (analysis : Fields) × (sys.analyze (deadline u event -ℤ sys.before_analysis)
        ≡ returned analysis)
      × (analyzer_decision u analysis ≡ "DENY")

  -- The event could not be read in full.
  abbrev pub HasParseError : FanotifyEvent → Type 0
  HasParseError event = (e : String) × (event.parse_error ≡ some e)

  -- The path is watched, and it is failed closed or the analyzer denied.
  pub record WatchedDenial (sys : System) (event : FanotifyEvent) : Type 0 where
    pub not_excluded : is_excluded_path u.normalise u.policy event.path ≡ false
    pub monitored : should_monitor u.normalise u.policy event.path ≡ true
    pub grounds :
        (get_fail_policy u.normalise u.policy event.path ≡ fail_closed) ⊎ AnalyzerDenial sys event
