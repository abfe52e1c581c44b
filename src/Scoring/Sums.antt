-- ===== src/Scoring/Sums.antt =====
-- The raw category scores as sums over the collected indicators, whatever their order.
use elyra.Base.{
  ◌≡◌, refl, ap, ◌∙◌, Bool-cases, inl, inr, String, true, false, List, [], ◌∷◌, str_eq, eq_iff,
  if◌then◌else◌,
}
use elyra.Base.Int.{ℤ, pos, ◌+ℤ◌, int_laws, +ℤ_zero, +ℤ_assoc}
use elyra.Scoring.Evidence.{ScoreIndicator}
use elyra.Scoring.Engine.{
  CategoryScores, add_weight, raw_scores, insert_indicator, sort_indicators, key_le,
}

-- What an indicator adds to the score of a category.
unfoldable pub share : String → ScoreIndicator → ℤ
share c i = if str_eq i.category c then i.weight else pos 0

-- The sum of the weights of the indicators of one category.
abbrev pub weight_in : String → List ScoreIndicator → ℤ
weight_in c [] = pos 0
weight_in c (i ∷ is) = share c i +ℤ weight_in c is

swap_sum : (a b c : ℤ) → a +ℤ (b +ℤ c) ≡ b +ℤ (a +ℤ c)
swap_sum a b c = omega int_laws

weight_in-insert :
    (c : String) (x : ScoreIndicator) (ys : List ScoreIndicator)
    → weight_in c (insert_indicator x ys) ≡ share c x +ℤ weight_in c ys
unfolding insert_indicator
weight_in-insert c x [] = refl
weight_in-insert c x (y ∷ ys) = elim (Bool-cases (key_le x y)) [
  | inl first ↦ rw first
  | inr later ↦ rw (later, weight_in-insert c x ys) (swap_sum _ _ _)
]

pub weight_in-sort :
    (c : String) (xs : List ScoreIndicator) → weight_in c (sort_indicators xs) ≡ weight_in c xs
unfolding sort_indicators
weight_in-sort c [] = refl
weight_in-sort c (x ∷ xs) =
    weight_in-insert c x (sort_indicators xs) ∙ ap (λ t. share c x +ℤ t) (weight_in-sort c xs)

abbrev add_to_each : CategoryScores → (String → ℤ) → CategoryScores
add_to_each s f = record {
  entropy = s.entropy +ℤ f "entropy";
  static = s.static +ℤ f "static";
  context = s.context +ℤ f "context";
}

-- A text that equals one name differs from another.
exclusive : (c a b : String) → str_eq a b ≡ false → str_eq c a ≡ true → str_eq c b ≡ false
exclusive c a b ne e = rw ((eq_iff c a).0 e) ne

add_weight-share :
    (x : ScoreIndicator) (s : CategoryScores) → add_weight x s ≡ add_to_each s (λ c. share c x)
unfolding add_weight share
add_weight-share x s = elim (Bool-cases (str_eq x.category "entropy")) [
  | inl e ↦
      rw
        (
          e,
          exclusive x.category "entropy" "static" refl e,
          exclusive x.category "entropy" "context" refl e,
        )
        (simp +ℤ_zero)
  | inr ne ↦ elim (Bool-cases (str_eq x.category "static")) [
    | inl e ↦ rw (ne, e, exclusive x.category "static" "context" refl e) (simp +ℤ_zero)
    | inr ns ↦ elim (Bool-cases (str_eq x.category "context")) [
      | inl e ↦ rw (ne, ns, e) (simp +ℤ_zero)
      | inr nc ↦ rw (ne, ns, nc) (simp +ℤ_zero)
    ]
  ]
]

add_to_each-add_to_each :
    (s : CategoryScores) (f g : String → ℤ)
    → add_to_each (add_to_each s f) g ≡ add_to_each s (λ c. f c +ℤ g c)
add_to_each-add_to_each s f g = simp +ℤ_assoc

-- The accumulating loop adds the sums of the three categories.
pub raw_scores-sum :
    (s : CategoryScores) (xs : List ScoreIndicator)
    → raw_scores s xs ≡ add_to_each s (λ c. weight_in c xs)
unfolding raw_scores
raw_scores-sum s [] = simp +ℤ_zero
raw_scores-sum s (x ∷ xs) =
    raw_scores-sum (add_weight x s) xs
    ∙ rw add_weight-share (add_to_each-add_to_each s (λ c. share c x) (λ c. weight_in c xs))
