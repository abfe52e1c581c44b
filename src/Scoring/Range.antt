-- ===== src/Scoring/Range.antt =====
-- Bounds of the scores that the engine returns under a validated policy.
use elyra.Base.{◌≡◌, arith}
use elyra.Base.Int.{pos, ◌≤ℤ◌, ◌+ℤ◌, le-min_ℤ, min_ℤ-le_left, le-max_ℤ_left}
use elyra.Base.Outcome.{ok, ◌>>◌, seq-eq-ok}
use elyra.Scoring.Policy.{ScoringPolicy, validate, check_header, check_thresholds, check_rules}
use elyra.Scoring.Evidence.{StaticScan}
use elyra.Scoring.Engine.{ScoringResult, CategoryScores, score, total_score, degraded_result}
use elyra.Scoring.Result.{degraded, combined, score_inversion}

-- The three groups of checks that a validated policy has passed.
pub record Validated (p : ScoringPolicy) : Type 0 where
  pub header : check_header p ≡ ok tt
  pub thresholds : check_thresholds p ≡ ok tt
  pub rules : check_rules p.score_maximum p.rules ≡ ok tt

pub validate_inversion : (p : ScoringPolicy) → validate p ≡ ok tt → Validated p
unfolding validate
validate_inversion p h =
    let (a, c) =
      seq-eq-ok (check_header p >> check_thresholds p) (check_rules p.score_maximum p.rules) h in
    let (d, e) = seq-eq-ok (check_header p) (check_thresholds p) a in
    record { header = d; thresholds = e; rules = c }

pub validated_range :
    (p : ScoringPolicy)
    → validate p ≡ ok tt
    → (p.score_minimum ≡ pos 0) × (p.score_maximum ≡ pos 100)
unfolding check_header
validated_range p h = ground (arith, (validate_inversion p h).header)

total_score_range :
    (p : ScoringPolicy) (s : CategoryScores)
    → p.score_minimum ≡ pos 0
    → p.score_maximum ≡ pos 100
    → (pos 0 ≤ℤ total_score p s) × (total_score p s ≤ℤ pos 100)
unfolding total_score
total_score_range p s h k =
    rw (h, k)
      (
        le-min_ℤ (pos 100) _ (pos 0) (omega arith)
            (le-max_ℤ_left (pos 0) (pos 0 +ℤ s.entropy +ℤ s.static +ℤ s.context)),
        min_ℤ-le_left (pos 100) _,
      )

-- Under a validated policy every score lies between 0 and 100, for every scan.
pub score_in_range :
    (p : ScoringPolicy) (scan : StaticScan) (r : ScoringResult)
    → validate p ≡ ok tt
    → score p scan ≡ ok r
    → (pos 0 ≤ℤ r.score) × (r.score ≤ℤ pos 100)
score_in_range p scan r v h = elim (score_inversion p scan h) [
  | degraded _ e ↦ rw e (unfold degraded_result in omega arith)
  | combined c _ _ k ↦
      let (lo, hi) = validated_range p v in rw k.total (total_score_range p r.category_scores lo hi)
]
