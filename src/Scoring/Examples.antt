-- ===== src/Scoring/Examples.antt =====
-- The theorems of the scoring engine at the default policy and concrete scans.
use elyra.Base.{◌≡◌, refl, ◌≤◌, String, [], List, arith}
use elyra.Base.Int.{ℤ, pos, ◌≤ℤ◌, ◌+ℤ◌, min_ℤ, max_ℤ}
use elyra.Base.Dict.{keys, lookup}
use elyra.Base.Outcome.{Result, ok, Returns}
use elyra.Base.Text.{is_blank, sort_texts, with_prefix}
use elyra.Scoring.Policy.{
  validate, check_header, check_thresholds, check_rules, cap_of, threshold_of,
}
use elyra.Scoring.Evidence.{
  ScoreIndicator, indicator, threshold, collect_each, collect_entropy, collect_static,
  collect_context, collect_world_writable, matching_prefix,
}
use elyra.Scoring.Engine.{
  Decision, deny, warn, ScoringResult, score, collect, sort_indicators, raw_scores, cap_scores,
  total_score, decision, combine, extra_notes, degraded_result,
}
use elyra.Scoring.Default.{default_policy, packed_scan, dropper_scan}
use elyra.Scoring.Range.{score_in_range}
use elyra.Scoring.Explained.{Caps, score_explained}
use elyra.Scoring.Sums.{weight_in}
use elyra.Scoring.Gate.{Thresholds, rank, Boundaries, decision-Boundaries, decision_monotone}
use elyra.Scoring.Complete.{IsComplete, named_rules, all_in-contains, contains-lookup, score_total}

abbrev outcome : {E : Type 0} → Result E ScoringResult → Result E (ℤ × Decision)
outcome (ok r) = ok (r.score, r.decision)
outcome (Result.err e) = Result.err e

-- High entropy in a temporary directory is a warning.
packed-outcome : outcome (score default_policy packed_scan) ≡ ok (pos 48, warn)
unfolding score collect combine cap_of threshold_of sort_indicators raw_scores cap_scores
    total_score decision extra_notes collect_entropy collect_static collect_context
    collect_world_writable matching_prefix collect_each indicator threshold lookup sort_texts
    with_prefix ◌+ℤ◌ min_ℤ max_ℤ
packed-outcome = refl

-- With static evidence the same score range is a denial.
dropper-outcome : outcome (score default_policy dropper_scan) ≡ ok (pos 100, deny)
unfolding score collect combine cap_of threshold_of sort_indicators raw_scores cap_scores
    total_score decision extra_notes collect_entropy collect_static collect_context
    collect_world_writable matching_prefix collect_each indicator threshold lookup sort_texts
    with_prefix ◌+ℤ◌ min_ℤ max_ℤ
dropper-outcome = refl

default_policy_valid : validate default_policy ≡ ok tt
unfolding validate check_header check_thresholds check_rules lookup is_blank cap_of threshold_of
default_policy_valid = refl

abbrev result_of : {E : Type 0} → Result E ScoringResult → ScoringResult
result_of (ok r) = r
result_of (Result.err e) = degraded_result default_policy "" (elyra.Scoring.Evidence.text "")

abbrev collected_of : {E : Type 0} → Result E (List ScoreIndicator) → List ScoreIndicator
collected_of (ok l) = l
collected_of (Result.err e) = []

abbrev packed_result : ScoringResult
packed_result = result_of (score default_policy packed_scan)

packed-score : score default_policy packed_scan ≡ ok packed_result
unfolding score collect combine cap_of threshold_of sort_indicators raw_scores cap_scores
    total_score decision extra_notes collect_entropy collect_static collect_context
    collect_world_writable matching_prefix collect_each indicator threshold lookup sort_texts
    with_prefix ◌+ℤ◌ min_ℤ max_ℤ
packed-score = refl

abbrev packed_evidence : List ScoreIndicator
packed_evidence = collected_of (collect default_policy packed_scan)

packed-collect : collect default_policy packed_scan ≡ ok packed_evidence
unfolding collect collect_entropy collect_static collect_context collect_world_writable
    matching_prefix collect_each indicator threshold lookup sort_texts with_prefix
packed-collect = refl

score_in_range_example : (pos 0 ≤ℤ packed_result.score) × (packed_result.score ≤ℤ pos 100)
score_in_range_example =
    score_in_range default_policy packed_scan packed_result default_policy_valid packed-score

default-Caps : Caps default_policy (pos 30) (pos 60) (pos 25)
unfolding cap_of lookup
default-Caps = record { entropy_at = refl; static_at = refl; context_at = refl }

score_explained_example :
    packed_result.score
    ≡ min_ℤ (pos 100) (
        max_ℤ (pos 0) (
          pos 0
          +ℤ min_ℤ (weight_in "entropy" packed_evidence) (pos 30)
          +ℤ min_ℤ (weight_in "static" packed_evidence) (pos 60)
          +ℤ min_ℤ (weight_in "context" packed_evidence) (pos 25)))
score_explained_example =
    score_explained default_policy packed_scan packed_result packed_evidence (pos 30) (pos 60)
      (pos 25) default_policy_valid default-Caps refl packed-collect packed-score

abbrev default_thresholds : Thresholds default_policy
unfolding threshold_of lookup
default_thresholds = record {
  monitor_min = pos 20;
  warn_min = pos 40;
  deny_min = pos 70;
  static_min = pos 25;
  monitor_at = refl;
  warn_at = refl;
  deny_at = refl;
  static_at = refl;
  monitor_pos = omega arith;
  monitor_warn = omega arith;
  warn_deny = omega arith;
  static_nonneg = omega arith;
}

decision-Boundaries_example :
    (d : Decision) × (notes : List String) × (decision default_policy (pos 75) (pos 10)
      ≡ ok (d, notes))
    × Boundaries default_policy default_thresholds (pos 75) (pos 10) d
decision-Boundaries_example =
    decision-Boundaries default_policy default_thresholds (pos 75) (pos 10)

decision_monotone_example : rank warn ≤ rank deny
unfolding decision threshold_of lookup
decision_monotone_example =
    decision_monotone default_policy (pos 50) (pos 75) (pos 0) (pos 30) warn deny [] []
      default_policy_valid (omega arith) (omega arith) refl refl

default-IsComplete : IsComplete default_policy
unfolding threshold lookup
default-IsComplete = record {
  rule_at = λ name h.
      contains-lookup name default_policy.rules
        (all_in-contains named_rules (keys default_policy.rules) name refl h);
  whole_limit = (pos 7_500_000, refl);
  ratio_limit = (pos 500_000, refl);
}

score_total_example : Returns (score default_policy dropper_scan)
score_total_example =
    score_total default_policy default_policy_valid default-IsComplete dropper_scan
