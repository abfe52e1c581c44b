-- ===== src/Scoring/Engine.antt =====
-- elyra-engine/src/elyra/scoring/engine.py: the decision, the degraded result and `score`.
use Prim.Native.String.{compare}
use text.Mathlib.Text.{is_le}
use elyra.Base.{
  ℕ, String, Bool, not, ◌&&◌, ◌||◌, List, [], ◌∷◌, ◌++◌, all, contains, str_eq, ltb, ◌==◌,
  if◌then◌else◌, Option, get_or,
}
use elyra.Base.Int.{ℤ, pos, ◌+ℤ◌, min_ℤ, max_ℤ, leb_ℤ, ltb_ℤ}
use elyra.Base.Dict.{Dict, beq_ℤ}
use elyra.Base.Outcome.{Result, ok, ◌>>=◌, ◌>>◌, raise_if}
use elyra.Scoring.Policy.{ScoringPolicy, Error, key_error, allowed_categories, threshold_of, cap_of}
use elyra.Scoring.Evidence.{
  Evidence, texts, ScoreIndicator, StaticScan, collect_entropy, collect_static, collect_context,
}

pub data Decision : Type 0 where
  allow allow_monitor warn deny : Decision

-- A dictionary whose keys are exactly the three categories.
pub record CategoryScores : Type 0 where
  pub entropy : ℤ
  pub static : ℤ
  pub context : ℤ

pub record ScoringResult : Type 0 where
  pub score : ℤ
  pub decision : Decision
  pub indicators : List ScoreIndicator
  pub category_scores : CategoryScores
  pub raw_category_scores : CategoryScores
  pub category_caps : Dict String ℤ
  pub policy_name : String
  pub policy_status : String
  pub schema_version : String
  pub decision_thresholds : Dict String ℤ
  pub scoring_status : String
  pub notes : List String

abbrev pub empty_scores : CategoryScores
empty_scores = record { entropy = pos 0; static = pos 0; context = pos 0 }

-- `_CATEGORY_ORDER`
abbrev pub category_order : String → ℕ
category_order c = if str_eq c "entropy" then 0 else if str_eq c "static" then 1 else 2

-- The order of the sort keys `(_CATEGORY_ORDER[item.category], item.rule)`.
unfoldable pub key_le : ScoreIndicator → ScoreIndicator → Bool
key_le a b =
    let i = category_order a.category in
    let j = category_order b.category in if i == j then is_le (compare a.rule b.rule) else ltb i j

unfoldable pub insert_indicator : ScoreIndicator → List ScoreIndicator → List ScoreIndicator
unfolding key_le
insert_indicator x [] = x ∷ []
insert_indicator x (y ∷ ys) = if key_le x y then x ∷ y ∷ ys else y ∷ insert_indicator x ys

-- `indicators.sort(key=…)`, which keeps the order of equal keys
unfoldable pub sort_indicators : List ScoreIndicator → List ScoreIndicator
unfolding insert_indicator
sort_indicators [] = []
sort_indicators (x ∷ xs) = insert_indicator x (sort_indicators xs)

-- `raw_scores[indicator.category] += indicator.weight`
unfoldable pub add_weight : ScoreIndicator → CategoryScores → CategoryScores
add_weight i s =
    if str_eq i.category "entropy"
    then record s { entropy = s.entropy +ℤ i.weight }
    else if str_eq i.category "static"
    then record s { static = s.static +ℤ i.weight }
    else if str_eq i.category "context"
    then record s { context = s.context +ℤ i.weight }
    else s

unfoldable pub raw_scores : CategoryScores → List ScoreIndicator → CategoryScores
unfolding add_weight
raw_scores s [] = s
raw_scores s (i ∷ is) = raw_scores (add_weight i s) is

unfoldable pub cap_scores : ScoringPolicy → CategoryScores → Result Error CategoryScores
cap_scores p raw = do
  entropy_cap ← cap_of p "entropy"
  static_cap ← cap_of p "static"
  context_cap ← cap_of p "context"
  ok (record {
    entropy = min_ℤ raw.entropy entropy_cap;
    static = min_ℤ raw.static static_cap;
    context = min_ℤ raw.context context_cap;
  })

-- `sum(category_scores.values())`, clamped to the score range
unfoldable pub total_score : ScoringPolicy → CategoryScores → ℤ
total_score p s =
    min_ℤ p.score_maximum (max_ℤ p.score_minimum (pos 0 +ℤ s.entropy +ℤ s.static +ℤ s.context))

abbrev pub deny_gate_note : String
deny_gate_note =
    "DENY_GATE_NOT_MET: static evidence is below the provisional minimum required for denial"

abbrev pub partial_note : String
partial_note = "PARTIAL_STATIC_ANALYSIS: the decision uses the evidence that was available"

abbrev pub entropy_note : String
entropy_note =
    "ENTROPY_ONLY_EVIDENCE: entropy is not proof of malware and cannot satisfy the denial gate by itself"

-- Each threshold is looked up only where its test is reached.
unfoldable pub decision : ScoringPolicy → ℤ → ℤ → Result Error (Decision × List String)
decision p score static_score = do
  deny_min ← threshold_of p "deny_min"
  if leb_ℤ deny_min score
      then (do
        static_min ← threshold_of p "deny_min_static_score"
        if leb_ℤ static_min static_score then ok (deny, []) else ok (warn, deny_gate_note ∷ []))
      else (do
        warn_min ← threshold_of p "warn_min"
        if leb_ℤ warn_min score then ok (warn, []) else (do
          monitor_min ← threshold_of p "allow_monitor_min"
          ok (if leb_ℤ monitor_min score then allow_monitor else allow, [])))

abbrev pub degraded_description : String
degraded_description =
    "Analysis could not be completed; the provisional fail-open policy allows execution only with monitoring and critical logging."

unfoldable pub degraded_result : ScoringPolicy → String → Evidence → ScoringResult
degraded_result p rule e = record {
  score = pos 0;
  decision = allow_monitor;
  indicators =
      record {
        rule = rule;
        category = "system";
        weight = pos 0;
        evidence = e;
        description = degraded_description;
      }
      ∷ [];
  category_scores = empty_scores;
  raw_category_scores = empty_scores;
  category_caps = p.category_caps;
  policy_name = p.policy_name;
  policy_status = p.policy_status;
  schema_version = p.schema_version;
  decision_thresholds = p.decision_thresholds;
  scoring_status = "DEGRADED";
  notes = "FAIL_OPEN_REQUIRES_CRITICAL_AUDIT_RECORD" ∷ [];
}

abbrev pub unknown_codes : List (Option String) → List String
unknown_codes [] = []
unknown_codes (c ∷ cs) = get_or c "UNKNOWN" ∷ unknown_codes cs

-- The two notes that `score` may add.
unfoldable pub extra_notes : StaticScan → CategoryScores → List String
extra_notes scan s =
    (if str_eq scan.status "PARTIAL" then partial_note ∷ [] else [])
    ++ (if ltb_ℤ (pos 0) s.entropy
          && not (not (beq_ℤ s.static (pos 0)) || not (beq_ℤ s.context (pos 0)))
        then entropy_note ∷ []
        else [])

-- The part of `score` that follows the three collectors.
unfoldable pub combine :
    ScoringPolicy → StaticScan → List ScoreIndicator → Result Error ScoringResult
combine p scan collected = do
  raise_if (not (all (λ (i : ScoreIndicator). contains allowed_categories i.category) collected))
      (key_error "category")
  let indicators = sort_indicators collected
  let raw = raw_scores empty_scores indicators
  capped ← cap_scores p raw
  let score = total_score p capped
  (verdict, notes) ← decision p score capped.static
  ok (record {
    score = score;
    decision = verdict;
    indicators = indicators;
    category_scores = capped;
    raw_category_scores = raw;
    category_caps = p.category_caps;
    policy_name = p.policy_name;
    policy_status = p.policy_status;
    schema_version = p.schema_version;
    decision_thresholds = p.decision_thresholds;
    scoring_status = "OK";
    notes = notes ++ extra_notes scan capped;
  })

-- `self._collect_entropy(scan) + self._collect_static(scan) + self._collect_context(scan)`
unfoldable pub collect : ScoringPolicy → StaticScan → Result Error (List ScoreIndicator)
collect p scan = do
  entropy ← collect_entropy p scan
  static ← collect_static p scan
  context ← collect_context p scan
  ok (entropy ++ (static ++ context))

unfoldable pub score : ScoringPolicy → StaticScan → Result Error ScoringResult
score p scan =
    if str_eq scan.status "ERROR"
    then ok
        (degraded_result p "STATIC_ANALYSIS_INCOMPLETE" (texts (unknown_codes scan.error_codes)))
    else (do collected ← collect p scan; combine p scan collected)
