-- ===== src/Scoring/Policy.antt =====
-- elyra-engine/src/elyra/scoring/engine.py: `RuleSpec`, `ScoringPolicy` and its validation.
-- Thresholds are floats in the source, compared with entropies that the analyser rounds to six
-- decimals: both are integers here, in millionths.
use elyra.Base.{String, not, ◌&&◌, ◌||◌, Option, List, [], ◌∷◌, any, contains, str_eq}
use elyra.Base.Int.{ℤ, pos, ltb_ℤ, leb_ℤ}
use elyra.Base.Dict.{Dict, keys, values, lookup, same_set, text_key, beq_ℤ}
use elyra.Base.Outcome.{Result, ok, ◌>>=◌, ◌>>◌, raise_if, require}
use elyra.Base.Text.{is_blank}

-- `InvalidScoringConfiguration`, by what its message says, and `KeyError`.
pub data Error : Type 0 where
  bad_policy_status bad_score_range bad_cap_names cap_out_of_range : Error
  bad_threshold_names thresholds_not_increasing static_gate_out_of_range : Error
  rule_name_differs bad_rule_category weight_out_of_range empty_description : String → Error
  missing_rule missing_threshold key_error : String → Error

pub record RuleSpec : Type 0 where
  pub rule : String
  pub category : String
  pub weight : ℤ
  pub description : String
  pub threshold : Option ℤ

pub record ScoringPolicy : Type 0 where
  pub schema_version : String
  pub policy_name : String
  pub policy_status : String
  pub score_minimum : ℤ
  pub score_maximum : ℤ
  pub category_caps : Dict String ℤ
  pub decision_thresholds : Dict String ℤ
  pub rules : Dict String RuleSpec

abbrev pub allowed_categories : List String
allowed_categories = "entropy" ∷ "static" ∷ "context" ∷ []

abbrev pub required_thresholds : List String
required_thresholds = "allow_monitor_min" ∷ "warn_min" ∷ "deny_min" ∷ "deny_min_static_score" ∷ []

-- `self.decision_thresholds[name]` and `self.category_caps[name]`
unfoldable pub threshold_of : ScoringPolicy → String → Result Error ℤ
threshold_of p name = require (lookup name p.decision_thresholds) (key_error name)

unfoldable pub cap_of : ScoringPolicy → String → Result Error ℤ
cap_of p name = require (lookup name p.category_caps) (key_error name)

-- The body of the loop over `self.rules.items()`.
unfoldable pub check_rule : ℤ → String → RuleSpec → Result Error (Unit {0})
check_rule maximum rule_id r = do
  raise_if (not (str_eq r.rule rule_id)) (rule_name_differs rule_id)
  raise_if (not (contains allowed_categories r.category)) (bad_rule_category rule_id)
  raise_if (ltb_ℤ r.weight (pos 0) || ltb_ℤ maximum r.weight) (weight_out_of_range rule_id)
  raise_if (is_blank r.description) (empty_description rule_id)

unfoldable pub check_rules : ℤ → Dict String RuleSpec → Result Error (Unit {0})
unfolding check_rule
check_rules maximum [] = ok tt
check_rules maximum ((rule_id, r) ∷ rest) = check_rule maximum rule_id r >> check_rules maximum rest

-- The checks on the four decision thresholds.
unfoldable pub check_thresholds : ScoringPolicy → Result Error (Unit {0})
check_thresholds p = do
  raise_if (not (same_set (keys p.decision_thresholds) required_thresholds)) bad_threshold_names
  allow_monitor ← threshold_of p "allow_monitor_min"
  warn ← threshold_of p "warn_min"
  deny ← threshold_of p "deny_min"
  deny_static ← threshold_of p "deny_min_static_score"
  raise_if
      (not (
        ltb_ℤ (pos 0) allow_monitor
        && ltb_ℤ allow_monitor warn
        && ltb_ℤ warn deny
        && leb_ℤ deny p.score_maximum))
      thresholds_not_increasing
  static_cap ← cap_of p "static"
  raise_if (not (leb_ℤ (pos 0) deny_static && leb_ℤ deny_static static_cap))
      static_gate_out_of_range

-- The checks on the label, the score range and the category caps.
unfoldable pub check_header : ScoringPolicy → Result Error (Unit {0})
check_header p = do
  raise_if (not (str_eq p.policy_status "PROVISIONAL_NOT_CALIBRATED")) bad_policy_status
  raise_if (not (beq_ℤ p.score_minimum (pos 0)) || not (beq_ℤ p.score_maximum (pos 100)))
      bad_score_range
  raise_if (not (same_set (keys p.category_caps) allowed_categories)) bad_cap_names
  raise_if (any (λ cap. ltb_ℤ cap (pos 0) || ltb_ℤ p.score_maximum cap) (values p.category_caps))
      cap_out_of_range

unfoldable pub validate : ScoringPolicy → Result Error (Unit {0})
validate p = check_header p >> check_thresholds p >> check_rules p.score_maximum p.rules
