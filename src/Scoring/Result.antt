-- ===== src/Scoring/Result.antt =====
-- What a successful run of `score` has gone through, read back from its result.
use elyra.Base.{◌≡◌, Bool-cases, inl, inr, true, false, List, [], String, arith, str_eq}
use elyra.Base.Outcome.{Result, ok, err, bind-eq-ok}
use elyra.Scoring.Policy.{ScoringPolicy}
use elyra.Scoring.Evidence.{StaticScan, ScoreIndicator, texts}
use elyra.Scoring.Engine.{
  Decision, ScoringResult, score, collect, combine, decision, degraded_result, total_score,
  cap_scores, raw_scores, sort_indicators, empty_scores, unknown_codes,
}

-- The result of `combine`: every number in it is what the code computes from the indicators.
pub record Combined (p : ScoringPolicy) (collected : List ScoreIndicator) (r : ScoringResult)
    : Type 0 where
  pub notes : List String
  pub sorted : r.indicators ≡ sort_indicators collected
  pub raw : r.raw_category_scores ≡ raw_scores empty_scores (sort_indicators collected)
  pub capped : cap_scores p r.raw_category_scores ≡ ok r.category_scores
  pub total : r.score ≡ total_score p r.category_scores
  pub decided : decision p r.score r.category_scores.static ≡ ok (r.decision, notes)

abbrev notes_of : {E : Type 0} → Result E (Decision × List String) → List String
notes_of (ok (_, notes)) = notes
notes_of (err _) = []

pub combine_inversion :
    (p : ScoringPolicy) (scan : StaticScan) (collected : List ScoreIndicator) {r : ScoringResult}
    → combine p scan collected ≡ ok r
    → Combined p collected r
unfolding combine
combine_inversion p scan collected {r} h = record {
  notes = notes_of (decision p r.score r.category_scores.static);
  sorted = ground arith;
  raw = ground arith;
  capped = ground arith;
  total = ground arith;
  decided = ground arith;
}

-- A run that returns has either reported an incomplete scan, or combined what was collected.
pub data Returned (p : ScoringPolicy) (scan : StaticScan) (r : ScoringResult) : Type 0 where
  degraded :
      str_eq scan.status "ERROR" ≡ true
      → r ≡ degraded_result p "STATIC_ANALYSIS_INCOMPLETE" (texts (unknown_codes scan.error_codes))
      → Returned p scan r
  combined :
      (collected : List ScoreIndicator)
      → str_eq scan.status "ERROR" ≡ false
      → collect p scan ≡ ok collected
      → Combined p collected r
      → Returned p scan r

pub score_inversion :
    (p : ScoringPolicy) (scan : StaticScan) {r : ScoringResult}
    → score p scan ≡ ok r
    → Returned p scan r
unfolding score
score_inversion p scan {r} h = elim (Bool-cases (str_eq scan.status "ERROR")) [
  | inl failed ↦ degraded failed (ground arith)
  | inr read ↦
      let (c, hc, hr) = bind-eq-ok (collect p scan) (combine p scan) (rw read at h) in
      combined c read hc (combine_inversion p scan c hr)
]
