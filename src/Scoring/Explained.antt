-- ===== src/Scoring/Explained.antt =====
-- The score in terms of the collected indicators alone.
use elyra.Base.{◌≡◌, sym, ◌∙◌, subst, false, List, str_eq, arith}
use elyra.Base.Int.{ℤ, pos, ◌+ℤ◌, min_ℤ, max_ℤ, zero_+ℤ}
use elyra.Base.Outcome.{ok, ok_injective}
use elyra.Scoring.Policy.{ScoringPolicy, validate, cap_of}
use elyra.Scoring.Evidence.{StaticScan, ScoreIndicator}
use elyra.Scoring.Engine.{
  CategoryScores, ScoringResult, score, collect, cap_scores, total_score, empty_scores,
  sort_indicators,
}
use elyra.Scoring.Result.{Combined, degraded, combined, score_inversion}
use elyra.Scoring.Range.{validated_range}
use elyra.Scoring.Sums.{weight_in, weight_in-sort, raw_scores-sum}

abbrev pub sums : List ScoreIndicator → CategoryScores
sums collected = record {
  entropy = weight_in "entropy" collected;
  static = weight_in "static" collected;
  context = weight_in "context" collected;
}

pub raw_sums :
    (p : ScoringPolicy) (collected : List ScoreIndicator) (r : ScoringResult)
    → Combined p collected r
    → r.raw_category_scores ≡ sums collected
raw_sums p collected r k =
    k.raw ∙ raw_scores-sum empty_scores (sort_indicators collected) ∙ simp (zero_+ℤ, weight_in-sort)

-- The three caps of a policy.
pub record Caps (p : ScoringPolicy) (e s c : ℤ) : Type 0 where
  pub entropy_at : cap_of p "entropy" ≡ ok e
  pub static_at : cap_of p "static" ≡ ok s
  pub context_at : cap_of p "context" ≡ ok c

capped_total :
    (p : ScoringPolicy) (collected : List ScoreIndicator) (r : ScoringResult) (e s c : ℤ)
    → validate p ≡ ok tt
    → Caps p e s c
    → Combined p collected r
    → r.score
      ≡ min_ℤ (pos 100) (
          max_ℤ (pos 0) (
            pos 0
            +ℤ min_ℤ (weight_in "entropy" collected) e
            +ℤ min_ℤ (weight_in "static" collected) s
            +ℤ min_ℤ (weight_in "context" collected) c))
unfolding cap_scores total_score
capped_total p collected r e s c v caps k =
    let (lo, hi) = validated_range p v in ground (arith, raw_sums p collected r k, lo, hi)

-- Under a validated policy the score of a scan that was read is the sum, over the three
-- categories, of the weights of its indicators, each category cut off at its cap and the sum
-- clamped to 0..100. The order in which the indicators were collected has no part in it.
pub score_explained :
    (p : ScoringPolicy) (scan : StaticScan) (r : ScoringResult) (collected : List ScoreIndicator)
    (e s c : ℤ)
    → validate p ≡ ok tt
    → Caps p e s c
    → str_eq scan.status "ERROR" ≡ false
    → collect p scan ≡ ok collected
    → score p scan ≡ ok r
    → r.score
      ≡ min_ℤ (pos 100) (
          max_ℤ (pos 0) (
            pos 0
            +ℤ min_ℤ (weight_in "entropy" collected) e
            +ℤ min_ℤ (weight_in "static" collected) s
            +ℤ min_ℤ (weight_in "context" collected) c))
score_explained p scan r collected e s c v caps read hc h = elim (score_inversion p scan h) [
  | degraded failed _ ↦ cc
  | combined l _ hl k ↦
      capped_total p collected r e s c v caps
        (subst (λ x. Combined p x r) (ok_injective (sym hl ∙ hc)) k)
]
