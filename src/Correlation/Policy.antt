-- ===== src/Correlation/Policy.antt =====
-- elyra-engine/src/elyra/correlation/engine.py: `RuntimeRuleSpec`, `CorrelationPolicy` and its
-- validation. `RawPolicy` is the policy as it is read, with its two mappings as dictionaries.
-- `validate` ends in the typed policy that the engine goes by: the two mappings then have exactly
-- the keys that it has checked. Times are integers, in microseconds.
use elyra.Base.{String, not, ◌&&◌, ◌||◌, List, [], ◌∷◌, str_eq}
use elyra.Base.Int.{ℤ, pos, ◌+ℤ◌, ◌*ℤ◌, ltb_ℤ, leb_ℤ, min_ℤ}
use elyra.Base.Dict.{Dict, keys, lookup, same_set, text_key, beq_ℤ}
use elyra.Base.Outcome.{Result, ok, ◌>>=◌, ◌>>◌, raise_if, require}
use elyra.Base.Text.{is_blank}

-- `InvalidCorrelationConfiguration`, by what its message says, and `KeyError`.
pub data Error : Type 0 where
  bad_policy_status bad_score_range time_window_not_positive max_states_not_positive : Error
  bad_threshold_names thresholds_not_increasing bad_rule_names quarantine_unreachable : Error
  rule_name_differs rule_not_positive empty_description key_error : String → Error

pub record RuntimeRuleSpec : Type 0 where
  pub rule : String
  pub weight : ℤ
  pub max_occurrences : ℤ
  pub description : String

unfoldable pub maximum_contribution : RuntimeRuleSpec → ℤ
maximum_contribution r = r.weight *ℤ r.max_occurrences

pub record RawPolicy : Type 0 where
  pub schema_version : String
  pub policy_name : String
  pub policy_status : String
  pub score_minimum : ℤ
  pub score_maximum : ℤ
  pub state_ttl : ℤ
  pub exited_state_ttl : ℤ
  pub late_binding_window : ℤ
  pub inheritance_window : ℤ
  pub max_states : ℤ
  pub decision_thresholds : Dict String ℤ
  pub runtime_rules : Dict String RuntimeRuleSpec

-- The rules of the canonical rule set, which are the keys of `runtime_rules`.
pub data RuleId : Type 0 where
  distinct_file_write file_rename outbound_connection child_process_exec : RuleId
  executable_identifier_mismatch : RuleId

abbrev pub rule_name : RuleId → String
rule_name distinct_file_write = "DISTINCT_FILE_WRITE"
rule_name file_rename = "FILE_RENAME"
rule_name outbound_connection = "OUTBOUND_CONNECTION"
rule_name child_process_exec = "CHILD_PROCESS_EXEC"
rule_name executable_identifier_mismatch = "EXECUTABLE_IDENTIFIER_MISMATCH"

abbrev pub required_rules : List String
required_rules =
    "DISTINCT_FILE_WRITE" ∷ "FILE_RENAME" ∷ "OUTBOUND_CONNECTION" ∷ "CHILD_PROCESS_EXEC"
    ∷ "EXECUTABLE_IDENTIFIER_MISMATCH" ∷ []

-- The policy as the engine uses it.
pub record CorrelationPolicy : Type 0 where
  pub score_maximum : ℤ
  pub state_ttl : ℤ
  pub exited_state_ttl : ℤ
  pub late_binding_window : ℤ
  pub inheritance_window : ℤ
  pub max_states : ℤ
  pub alert_min : ℤ
  pub terminate_min : ℤ
  pub quarantine_min : ℤ
  pub runtime_rules : RuleId → RuntimeRuleSpec

-- The body of the loop over `self.runtime_rules.items()`.
unfoldable pub check_rule : String → RuntimeRuleSpec → Result Error (Unit {0})
check_rule rule_id r = do
  raise_if (not (str_eq r.rule rule_id)) (rule_name_differs rule_id)
  raise_if (leb_ℤ r.weight (pos 0) || leb_ℤ r.max_occurrences (pos 0)) (rule_not_positive rule_id)
  raise_if (is_blank r.description) (empty_description rule_id)

unfoldable pub check_rules : Dict String RuntimeRuleSpec → Result Error (Unit {0})
check_rules [] = ok tt
check_rules ((rule_id, r) ∷ rest) = check_rule rule_id r >> check_rules rest

unfoldable pub maximum_runtime : Dict String RuntimeRuleSpec → ℤ
maximum_runtime [] = pos 0
maximum_runtime ((_, r) ∷ rest) = maximum_contribution r +ℤ maximum_runtime rest

unfoldable pub check_header : RawPolicy → Result Error (Unit {0})
check_header p = do
  raise_if (not (str_eq p.policy_status "PROVISIONAL_NOT_CALIBRATED")) bad_policy_status
  raise_if (not (beq_ℤ p.score_minimum (pos 0) && beq_ℤ p.score_maximum (pos 100))) bad_score_range
  raise_if
      (leb_ℤ
        (min_ℤ (min_ℤ (min_ℤ p.state_ttl p.exited_state_ttl) p.late_binding_window)
          p.inheritance_window)
        (pos 0))
      time_window_not_positive
  raise_if (leb_ℤ p.max_states (pos 0)) max_states_not_positive

unfoldable pub threshold_of : RawPolicy → String → Result Error ℤ
threshold_of p name = require (lookup name p.decision_thresholds) (key_error name)

unfoldable pub check_thresholds : RawPolicy → Result Error (ℤ × ℤ × ℤ)
check_thresholds p = do
  raise_if
      (not (
        same_set (keys p.decision_thresholds)
          ("alert_min" ∷ "terminate_min" ∷ "quarantine_min" ∷ [])))
      bad_threshold_names
  alert ← threshold_of p "alert_min"
  terminate ← threshold_of p "terminate_min"
  quarantine ← threshold_of p "quarantine_min"
  raise_if
      (not (
        ltb_ℤ (pos 0) alert
        && ltb_ℤ alert terminate
        && ltb_ℤ terminate quarantine
        && leb_ℤ quarantine p.score_maximum))
      thresholds_not_increasing
  ok (alert, terminate, quarantine)

unfoldable pub rule_of : RawPolicy → RuleId → Result Error RuntimeRuleSpec
rule_of p r = require (lookup (rule_name r) p.runtime_rules) (key_error (rule_name r))

-- The five rules of the dictionary, as a function.
unfoldable pub rules_of : RawPolicy → Result Error (RuleId → RuntimeRuleSpec)
rules_of p = do
  write ← rule_of p distinct_file_write
  rename ← rule_of p file_rename
  outbound ← rule_of p outbound_connection
  child ← rule_of p child_process_exec
  mismatch ← rule_of p executable_identifier_mismatch
  ok (elim [
    | distinct_file_write ↦ write
    | file_rename ↦ rename
    | outbound_connection ↦ outbound
    | child_process_exec ↦ child
    | executable_identifier_mismatch ↦ mismatch
  ])

unfoldable pub validate : RawPolicy → Result Error CorrelationPolicy
validate p = do
  check_header p
  (alert, terminate, quarantine) ← check_thresholds p
  raise_if (not (same_set (keys p.runtime_rules) required_rules)) bad_rule_names
  check_rules p.runtime_rules
  raise_if (ltb_ℤ (maximum_runtime p.runtime_rules) quarantine) quarantine_unreachable
  rules ← rules_of p
  ok (record {
    score_maximum = p.score_maximum;
    state_ttl = p.state_ttl;
    exited_state_ttl = p.exited_state_ttl;
    late_binding_window = p.late_binding_window;
    inheritance_window = p.inheritance_window;
    max_states = p.max_states;
    alert_min = alert;
    terminate_min = terminate;
    quarantine_min = quarantine;
    runtime_rules = rules;
  })
