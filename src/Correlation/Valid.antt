-- ===== src/Correlation/Valid.antt =====
-- What validation guarantees of the policy that the engine goes by.
use elyra.Base.{◌≡◌, String, [], ◌∷◌, arith, some}
use elyra.Base.Int.{pos, ◌≤ℤ◌, ◌<ℤ◌}
use elyra.Base.Dict.{Dict, lookup, text_key}
use elyra.Base.Outcome.{ok}
use elyra.Correlation.Policy.{
  CorrelationPolicy, RawPolicy, RuntimeRuleSpec, RuleId, rule_name, validate, check_header,
  check_thresholds, check_rules, check_rule, rules_of, rule_of, threshold_of, distinct_file_write,
  file_rename, outbound_connection, child_process_exec, executable_identifier_mismatch,
}

pub record IsValid (p : CorrelationPolicy) : Type 0 where
  pub maximum : p.score_maximum ≡ pos 100
  pub room : pos 0 <ℤ p.max_states
  pub alert_pos : pos 0 <ℤ p.alert_min
  pub alert_terminate : p.alert_min <ℤ p.terminate_min
  pub terminate_quarantine : p.terminate_min <ℤ p.quarantine_min
  pub quarantine_le : p.quarantine_min ≤ℤ pos 100
  pub weight_pos : (r : RuleId) → pos 0 <ℤ (p.runtime_rules r).weight
  pub cap_pos : (r : RuleId) → pos 0 <ℤ (p.runtime_rules r).max_occurrences

-- The rules of a dictionary that has passed the checks count for something.
check_rules-lookup :
    (d : Dict String RuntimeRuleSpec) (name : String) (r : RuntimeRuleSpec)
    → check_rules d ≡ ok tt
    → lookup name d ≡ some r
    → (pos 0 <ℤ r.weight) × (pos 0 <ℤ r.max_occurrences)
unfolding check_rules check_rule lookup
check_rules-lookup [] name r h e = ground arith
check_rules-lookup ((j, s) ∷ d) name r h e = ground (arith, check_rules-lookup d name r)

rules_of-lookup :
    (p : RawPolicy) (rules : RuleId → RuntimeRuleSpec) (r : RuleId)
    → rules_of p ≡ ok rules
    → lookup (rule_name r) p.runtime_rules ≡ some (rules r)
unfolding rules_of rule_of
rules_of-lookup p rules distinct_file_write h = ground arith
rules_of-lookup p rules file_rename h = ground arith
rules_of-lookup p rules outbound_connection h = ground arith
rules_of-lookup p rules child_process_exec h = ground arith
rules_of-lookup p rules executable_identifier_mismatch h = ground arith

-- The parts of a policy that has passed validation.
record Validated (p : RawPolicy) (q : CorrelationPolicy) : Type 0 where
  header : check_header p ≡ ok tt
  thresholds : check_thresholds p ≡ ok (q.alert_min, q.terminate_min, q.quarantine_min)
  rules : check_rules p.runtime_rules ≡ ok tt
  typed : rules_of p ≡ ok q.runtime_rules
  maximum : q.score_maximum ≡ p.score_maximum
  states : q.max_states ≡ p.max_states

validate_inversion : (p : RawPolicy) (q : CorrelationPolicy) → validate p ≡ ok q → Validated p q
unfolding validate
validate_inversion p q h = record {
  header = ground arith;
  thresholds = ground arith;
  rules = ground arith;
  typed = ground arith;
  maximum = ground arith;
  states = ground arith;
}

-- Every policy that passes `validate` satisfies what the engine relies on: the score range, room
-- for a state, increasing thresholds, and rules of positive weight and positive cap.
pub validate-IsValid : (p : RawPolicy) (q : CorrelationPolicy) → validate p ≡ ok q → IsValid q
unfolding check_header check_thresholds threshold_of
validate-IsValid p q h =
    let v = validate_inversion p q h in
    let fine : (r : RuleId)
        → (pos 0 <ℤ (q.runtime_rules r).weight) × (pos 0 <ℤ (q.runtime_rules r).max_occurrences) =
      λ r.
        check_rules-lookup p.runtime_rules (rule_name r) (q.runtime_rules r) v.rules
          (rules_of-lookup p q.runtime_rules r v.typed) in
    record {
      maximum = ground (arith, v.header, v.maximum);
      room = ground (arith, v.header, v.states);
      alert_pos = ground (arith, v.thresholds);
      alert_terminate = ground (arith, v.thresholds);
      terminate_quarantine = ground (arith, v.thresholds);
      quarantine_le = ground (arith, v.thresholds, v.header);
      weight_pos = λ r. (fine r).0;
      cap_pos = λ r. (fine r).1;
    }
