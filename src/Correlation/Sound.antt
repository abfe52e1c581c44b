-- ===== src/Correlation/Sound.antt =====
-- The invariant of one state, and the operations on one state that keep it.
use elyra.Base.{ℕ, suc, ◌+◌, ◌≤◌, ◌≡◌, refl, true, List, [], ◌∷◌, ◌++◌, All, arith, if◌then◌else◌}
use elyra.Base.Int.{ℤ, pos, ◌+ℤ◌, ◌≤ℤ◌, ◌<ℤ◌, min_ℤ, int_laws, le-min_ℤ, min_ℤ-le_left}
use elyra.Base.Value.{Fields}
use elyra.Correlation.Policy.{CorrelationPolicy, RuleId}
use elyra.Correlation.State.{
  ExecutionState, RuntimeIndicator, Reason, action_rank, action_for, total_weight, rescore,
  escalate, recalculate, may_apply, count_rule, same_rule,
}

-- The number of indicators of one rule.
abbrev pub count_of : RuleId → List RuntimeIndicator → ℕ
count_of r [] = 0
count_of r (i ∷ is) = let rest = count_of r is in if same_rule r i.rule then suc rest else rest

-- What holds of a state also between a change and the recalculation that follows it: no rule has
-- counted more often than its cap, the counters tell the number of indicators, and each indicator
-- has its rule's weight.
pub record Counted (p : CorrelationPolicy) (occurrences : RuleId → ℕ)
    (indicators : List RuntimeIndicator) (pre : ℤ) : Type 0 where
  pub capped : (r : RuleId) → pos (occurrences r) ≤ℤ (p.runtime_rules r).max_occurrences
  pub tally : (r : RuleId) → count_of r indicators ≡ occurrences r
  pub weights :
      All (λ (i : RuntimeIndicator). i.weight ≡ (p.runtime_rules i.rule).weight) indicators
  pub pre_low : pos 0 ≤ℤ pre
  pub pre_high : pre ≤ℤ pos 100

abbrev pub IsCounted : CorrelationPolicy → ExecutionState → Type 0
IsCounted p s = Counted p s.rule_occurrences s.runtime_indicators s.pre_execution_score

-- What holds of a state between two calls: the scores are those of its indicators.
pub record Scored (p : CorrelationPolicy) (indicators : List RuntimeIndicator)
    (pre runtime combined : ℤ) : Type 0 where
  pub runtime_sum : runtime ≡ min_ℤ p.score_maximum (total_weight indicators)
  pub combined_sum : combined ≡ min_ℤ p.score_maximum (pre +ℤ runtime)

abbrev pub IsScored : CorrelationPolicy → ExecutionState → Type 0
IsScored p s = Scored p s.runtime_indicators s.pre_execution_score s.runtime_score s.combined_score

-- The recommendation is at least what the status and the score ask for.
abbrev pub IsEscalated : CorrelationPolicy → ExecutionState → Type 0
IsEscalated p s = action_rank (action_for p s) ≤ action_rank s.recommended_action

pub record IsSound (p : CorrelationPolicy) (s : ExecutionState) : Type 0 where
  pub counted : IsCounted p s
  pub scored : IsScored p s
  pub escalated : IsEscalated p s

pub recalculate-IsSound :
    (p : CorrelationPolicy) (now : ℤ) (reason : Reason) (s : ExecutionState)
    → IsCounted p s
    → IsSound p (recalculate p now reason s)
unfolding recalculate rescore escalate action_for
recalculate-IsSound p now reason s h = record {
  counted = h;
  scored = record { runtime_sum = refl; combined_sum = refl };
  escalated = ground arith;
}

-- A recalculation never lowers the rank of the recommendation.
pub recalculate_rank :
    (p : CorrelationPolicy) (now : ℤ) (reason : Reason) (s : ExecutionState)
    → action_rank s.recommended_action ≤ action_rank (recalculate p now reason s).recommended_action
unfolding recalculate rescore escalate
recalculate_rank p now reason s = ground arith

count_of-append :
    (r : RuleId) (xs ys : List RuntimeIndicator)
    → count_of r (xs ++ ys) ≡ count_of r xs + count_of r ys
count_of-append r [] ys = omega arith
count_of-append r (x ∷ xs) ys = ground (arith, count_of-append r xs ys)

All-append {ℓ κ} :
    {A : Type ℓ} (P : A → Type κ) (xs ys : List A) → All P xs → All P ys → All P (xs ++ ys)
All-append P [] ys left right = right
All-append P (x ∷ xs) ys left right = (left.0, All-append P xs ys left.1 right)

same_rule→≡ : (q r : RuleId) → same_rule q r ≡ true → q ≡ r
same_rule→≡ q r h = grind arith

same_rule_sym : (q r : RuleId) → same_rule q r ≡ same_rule r q
same_rule_sym q r = ground arith

total_weight_low :
    (p : CorrelationPolicy) (is : List RuntimeIndicator)
    → ((r : RuleId) → pos 0 <ℤ (p.runtime_rules r).weight)
    → All (λ (i : RuntimeIndicator). i.weight ≡ (p.runtime_rules i.rule).weight) is
    → pos 0 ≤ℤ total_weight is
total_weight_low p [] w h = omega arith
total_weight_low p (i ∷ is) w h =
    let low = w i.rule in
    let rest = total_weight_low p is w h.1 in rw h.0 omega (int_laws, low, rest)

pub count_rule-IsCounted :
    (p : CorrelationPolicy) (r : RuleId) (evidence : Fields) (s : ExecutionState)
    → may_apply p r s ≡ true
    → IsCounted p s
    → IsCounted p (count_rule p r evidence s)
unfolding count_rule may_apply
count_rule-IsCounted p r evidence s may h = record {
  capped = λ q. ground (arith, h.capped q, same_rule→≡ q r);
  tally = λ q. rw count_of-append ground (arith, h.tally q, same_rule→≡ q r, same_rule_sym q r);
  weights =
      All-append (λ (i : RuntimeIndicator). i.weight ≡ (p.runtime_rules i.rule).weight)
        s.runtime_indicators _ h.weights (refl, tt);
  pre_low = h.pre_low;
  pre_high = h.pre_high;
}

-- The combined score of a sound state lies between 0 and 100.
pub combined_range :
    (p : CorrelationPolicy) (s : ExecutionState)
    → p.score_maximum ≡ pos 100
    → ((r : RuleId) → pos 0 <ℤ (p.runtime_rules r).weight)
    → IsSound p s
    → (pos 0 ≤ℤ s.combined_score) × (s.combined_score ≤ℤ pos 100)
combined_range p s m w h =
    let low = total_weight_low p s.runtime_indicators w h.counted.weights in
    rw (h.scored.combined_sum, h.scored.runtime_sum, m)
      (
        le-min_ℤ (pos 100) _ (pos 0) (omega arith) (
            let l =
              le-min_ℤ (pos 100) (total_weight s.runtime_indicators) (pos 0) (omega arith) low in
            omega (int_laws, l, h.counted.pre_low)),
        min_ℤ-le_left _ _,
      )
