-- ===== src/Scoring/Gate.antt =====
-- The decision: its exact boundaries, its order, and the static-evidence gate of a denial.
use elyra.Base.{ℕ, ◌≤◌, ◌≡◌, ◌⊎◌, String, List, [], arith}
use elyra.Base.Int.{ℤ, pos, ◌≤ℤ◌, ◌<ℤ◌}
use elyra.Base.Outcome.{Result, ok}
use elyra.Scoring.Policy.{ScoringPolicy, validate, check_thresholds, threshold_of}
use elyra.Scoring.Evidence.{Evidence}
use elyra.Scoring.Engine.{Decision, allow, allow_monitor, warn, deny, decision}
use elyra.Scoring.Range.{validate_inversion}

-- The four thresholds of a validated policy, in their order.
pub record Thresholds (p : ScoringPolicy) : Type 0 where
  pub monitor_min : ℤ
  pub warn_min : ℤ
  pub deny_min : ℤ
  pub static_min : ℤ
  pub monitor_at : threshold_of p "allow_monitor_min" ≡ ok monitor_min
  pub warn_at : threshold_of p "warn_min" ≡ ok warn_min
  pub deny_at : threshold_of p "deny_min" ≡ ok deny_min
  pub static_at : threshold_of p "deny_min_static_score" ≡ ok static_min
  pub monitor_pos : pos 0 <ℤ monitor_min
  pub monitor_warn : monitor_min <ℤ warn_min
  pub warn_deny : warn_min <ℤ deny_min
  pub static_nonneg : pos 0 ≤ℤ static_min

abbrev pub value_of : {E : Type 0} → Result E ℤ → ℤ
value_of (ok v) = v
value_of (Result.err e) = pos 0

pub validated_thresholds : (p : ScoringPolicy) → validate p ≡ ok tt → Thresholds p
unfolding check_thresholds
validated_thresholds p v =
    let h = (validate_inversion p v).thresholds in
    record {
      monitor_min = value_of (threshold_of p "allow_monitor_min");
      warn_min = value_of (threshold_of p "warn_min");
      deny_min = value_of (threshold_of p "deny_min");
      static_min = value_of (threshold_of p "deny_min_static_score");
      monitor_at = ground arith;
      warn_at = ground arith;
      deny_at = ground arith;
      static_at = ground arith;
      monitor_pos = ground arith;
      monitor_warn = ground arith;
      warn_deny = ground arith;
      static_nonneg = ground arith;
    }

abbrev pub rank : Decision → ℕ
rank allow = 0
rank allow_monitor = 1
rank warn = 2
rank deny = 3

-- What the decision is, by the score and the static score alone.
abbrev pub Boundaries : (p : ScoringPolicy) → Thresholds p → ℤ → ℤ → Decision → Type 0
Boundaries p t s g deny = (t.deny_min ≤ℤ s) × (t.static_min ≤ℤ g)
Boundaries p t s g warn = (t.warn_min ≤ℤ s) × ((s <ℤ t.deny_min) ⊎ (g <ℤ t.static_min))
Boundaries p t s g allow_monitor = (t.monitor_min ≤ℤ s) × (s <ℤ t.warn_min)
Boundaries p t s g allow = s <ℤ t.monitor_min

abbrev verdict_of : {E : Type 0} → Result E (Decision × List String) → Decision
verdict_of (ok (d, _)) = d
verdict_of (Result.err _) = allow

abbrev notes_of : {E : Type 0} → Result E (Decision × List String) → List String
notes_of (ok (_, notes)) = notes
notes_of (Result.err _) = []

-- With the four thresholds in the order that validation demands, the decision is always made, and
-- it is the one whose bounds hold: denial exactly when the score reaches `deny_min` and the static
-- score its own minimum.
pub decision-Boundaries :
    (p : ScoringPolicy) (t : Thresholds p) (s g : ℤ)
    → (d : Decision) × (notes : List String) × (decision p s g ≡ ok (d, notes))
      × Boundaries p t s g d
unfolding decision
decision-Boundaries p t s g = (
  verdict_of (decision p s g),
  notes_of (decision p s g),
  ground (arith, t.monitor_at),
  ground (arith, t.monitor_at),
)

pub decision_inversion :
    (p : ScoringPolicy) (t : Thresholds p) (s g : ℤ) (d : Decision) (notes : List String)
    → decision p s g ≡ ok (d, notes)
    → Boundaries p t s g d
unfolding decision
decision_inversion p t s g deny notes h = ground (arith, t.monitor_at)
decision_inversion p t s g _ notes h = ground (arith, t.monitor_at)

Boundaries-rank :
    (p : ScoringPolicy) (t : Thresholds p) (s s' g g' : ℤ) (d d' : Decision)
    → s ≤ℤ s'
    → g ≤ℤ g'
    → Boundaries p t s g d
    → Boundaries p t s' g' d'
    → rank d ≤ rank d'
Boundaries-rank p t s s' g g' deny deny le le' b b' = omega arith
Boundaries-rank p t s s' g g' warn warn le le' b b' = omega arith
Boundaries-rank p t s s' g g' allow_monitor allow_monitor le le' b b' = omega arith
Boundaries-rank p t s s' g g' _ _ le le' b b' = omega arith

-- Under a validated policy, more score and more static score never give a milder decision.
pub decision_monotone :
    (p : ScoringPolicy) (s s' g g' : ℤ) (d d' : Decision) (notes notes' : List String)
    → validate p ≡ ok tt
    → s ≤ℤ s'
    → g ≤ℤ g'
    → decision p s g ≡ ok (d, notes)
    → decision p s' g' ≡ ok (d', notes')
    → rank d ≤ rank d'
decision_monotone p s s' g g' d d' notes notes' v le le' h h' =
    let t = validated_thresholds p v in
    Boundaries-rank p t s s' g g' d d' le le' (decision_inversion p t s g d notes h)
      (decision_inversion p t s' g' d' notes' h')
