-- ===== src/Correlation/State.antt =====
-- elyra-engine/src/elyra/correlation/engine.py: `RuntimeIndicator`, `ExecutionState`, and what the
-- engine does to one state: the recommended action, the recalculation and the rules.
-- The status, source and action strings are data types with one constructor for each string.
use elyra.Base.{
  ℕ, ◌+◌, String, Bool, true, false, not, ◌||◌, Option, List, [], ◌∷◌, ◌++◌, ltb, leb, ◌==◌, ◌&&◌,
  if◌then◌else◌,
}
use elyra.Base.Int.{ℤ, pos, ◌+ℤ◌, min_ℤ, leb_ℤ}
use elyra.Base.Value.{Fields}
use elyra.Correlation.Policy.{
  CorrelationPolicy, RuleId, distinct_file_write, file_rename, outbound_connection,
  child_process_exec, executable_identifier_mismatch,
}

pub data Status : Type 0 where
  pending_exec active denied_pre_execution exited : Status

pub data Source : Type 0 where
  fanotify runtime_only fanotify_late_bound : Source

pub data Action : Type 0 where
  continue_monitoring alert terminate quarantine deny : Action

pub record RuntimeIndicator : Type 0 where
  pub rule : RuleId
  pub weight : ℤ
  pub occurrence : ℕ
  pub maximum_occurrences : ℤ
  pub evidence : Fields
  pub description : String

-- Why a transition was recorded.
pub data Reason : Type 0 where
  state_created fanotify_late_binding : Reason
  rule_applied : RuleId → Reason
  event_seen : String → Reason

pub record Transition : Type 0 where
  pub old : Action
  pub new : Action
  pub reason : Reason
  pub combined_score : ℤ
  pub timestamp : ℤ

pub record ExecutionState : Type 0 where
  pub correlation_id : String
  pub generation : ℕ
  pub pid : ℤ
  pub tgid : ℤ
  pub ppid : ℤ
  pub uid : ℤ
  pub source : Source
  pub status : Status
  pub executable_path : Option String
  pub executable_identifier : Option String
  pub pre_execution_score : ℤ
  pub pre_execution_decision : String
  pub pre_execution_indicators : List Fields
  pub runtime_score : ℤ
  pub combined_score : ℤ
  pub recommended_action : Action
  pub parent_correlation_id : Option String
  pub created : ℤ
  pub last_seen : ℤ
  pub exec_timestamp : Option ℤ
  pub exit_timestamp : Option ℤ
  pub exited_at : Option ℤ
  pub runtime_indicators : List RuntimeIndicator
  pub rule_occurrences : RuleId → ℕ
  pub distinct_files : List String
  pub rename_identifiers : List String
  pub outbound_connections : List String
  pub transitions : List Transition
  pub terminal_reason : Option String
  pub action_execution_status : String
  pub last_action_result : Option Fields

-- `_ACTION_RANK`
abbrev pub action_rank : Action → ℕ
action_rank continue_monitoring = 0
action_rank alert = 1
action_rank terminate = 2
action_rank quarantine = 3
action_rank deny = 4

unfoldable pub action_for : CorrelationPolicy → ExecutionState → Action
action_for p s = elim s.status [
  | denied_pre_execution ↦ deny
  | _ ↦
      if leb_ℤ p.quarantine_min s.combined_score
      then quarantine
      else if leb_ℤ p.terminate_min s.combined_score
      then terminate
      else if leb_ℤ p.alert_min s.combined_score
      then alert
      else continue_monitoring
]

-- `sum(item.weight for item in state.runtime_indicators)`
abbrev pub total_weight : List RuntimeIndicator → ℤ
total_weight [] = pos 0
total_weight (i ∷ is) = i.weight +ℤ total_weight is

-- The two scores of a state, recomputed from its indicators.
unfoldable pub rescore : CorrelationPolicy → ExecutionState → ExecutionState
rescore p s =
    let runtime = min_ℤ p.score_maximum (total_weight s.runtime_indicators) in
    record s {
      runtime_score = runtime;
      combined_score = min_ℤ p.score_maximum (s.pre_execution_score +ℤ runtime);
    }

-- The recommendation never falls back to a lower rank.
unfoldable pub escalate : CorrelationPolicy → ExecutionState → Action
escalate p s =
    let candidate = action_for p s in
    if ltb (action_rank candidate) (action_rank s.recommended_action)
    then s.recommended_action
    else candidate

abbrev pub is_empty {ℓ} : {A : Type ℓ} → List A → Bool
is_empty [] = true
is_empty (_ ∷ _) = false

abbrev pub same_action : Action → Action → Bool
same_action a b = leb (action_rank a) (action_rank b) && leb (action_rank b) (action_rank a)

-- A transition is recorded, and the clock read for it, in exactly these cases.
unfoldable pub records_transition : CorrelationPolicy → ExecutionState → Bool
records_transition p s =
    not (same_action (escalate p s) s.recommended_action) || is_empty s.transitions

-- `_recalculate` on one state; `now` is the clock reading for a transition.
unfoldable pub recalculate : CorrelationPolicy → ℤ → Reason → ExecutionState → ExecutionState
recalculate p now reason old =
    let s = rescore p old in
    let candidate = escalate p s in
    record s {
      recommended_action = candidate;
      transitions =
          if records_transition p s
          then s.transitions
            ++ record {
              old = s.recommended_action;
              new = candidate;
              reason = reason;
              combined_score = s.combined_score;
              timestamp = now;
            }
              ∷ []
          else s.transitions;
    }

abbrev pub rule_index : RuleId → ℕ
rule_index distinct_file_write = 0
rule_index file_rename = 1
rule_index outbound_connection = 2
rule_index child_process_exec = 3
rule_index executable_identifier_mismatch = 4

abbrev pub same_rule : RuleId → RuleId → Bool
same_rule a b = rule_index a == rule_index b

-- Whether the rule may count once more for this state.
unfoldable pub may_apply : CorrelationPolicy → RuleId → ExecutionState → Bool
may_apply p r s = not (leb_ℤ (p.runtime_rules r).max_occurrences (pos (s.rule_occurrences r)))

-- One more occurrence of a rule, with its indicator.
unfoldable pub count_rule : CorrelationPolicy → RuleId → Fields → ExecutionState → ExecutionState
count_rule p r evidence s =
    let spec = p.runtime_rules r in
    let occurrence = s.rule_occurrences r + 1 in
    record s {
      rule_occurrences = λ q. if same_rule q r then occurrence else s.rule_occurrences q;
      runtime_indicators =
          s.runtime_indicators
          ++ record {
            rule = r;
            weight = spec.weight;
            occurrence = occurrence;
            maximum_occurrences = spec.max_occurrences;
            evidence = evidence;
            description = spec.description;
          }
            ∷ [];
    }
