-- ===== src/Correlation/Score.antt =====
-- The pre-execution score that a fanotify record gives.
use elyra.Base.{◌≡◌, arith}
use elyra.Base.Int.{ℤ, pos, ◌≤ℤ◌, min_ℤ, max_ℤ}
use elyra.Base.Dict.{int_key}
use elyra.Base.Outcome.{Result, ok, err, ok_injective}
use elyra.Base.Exec.{pure, lift, Gives, ◌>>=◌}
use elyra.Base.Value.{
  Value, bool, int, float, text, null, list, dict, Builtins, Fields, PyError, value_error,
  type_error, overflow_error,
}
use elyra.Correlation.Engine.{Setup}
use elyra.Correlation.Events.{
  PreExecution, get_default, convert, score_of, score_of_head, clamped, clamp_score,
}

-- The score of a fanotify record is within the range.
abbrev pub Converted : PreExecution → Type 0
Converted r = (pos 0 ≤ℤ r.score) × (r.score ≤ℤ pos 100)

clamp_score_range : (n : ℤ) → (pos 0 ≤ℤ clamp_score n) × (clamp_score n ≤ℤ pos 100)
unfolding max_ℤ min_ℤ
clamp_score_range n = ground arith

score_of_head_range :
    (r : Result PyError ℤ) (n : ℤ) → score_of_head r ≡ ok n → (pos 0 ≤ℤ n) × (n ≤ℤ pos 100)
score_of_head_range (ok m) n h = rw⁻¹ (ok_injective h) (clamp_score_range m)
score_of_head_range (err value_error) n h = rw⁻¹ (ok_injective h) (omega arith, omega arith)
score_of_head_range (err type_error) n h = cc
score_of_head_range (err overflow_error) n h = cc

clamped_range : (r : Result PyError ℤ) (n : ℤ) → clamped r ≡ ok n → (pos 0 ≤ℤ n) × (n ≤ℤ pos 100)
clamped_range (ok m) n h = rw⁻¹ (ok_injective h) (clamp_score_range m)
clamped_range (err e) n h = cc

-- The pre-execution score that is read from a record lies between 0 and 100.
score_of_range :
    (lib : Builtins) (v : Value) (n : ℤ) → score_of lib v ≡ ok n → (pos 0 ≤ℤ n) × (n ≤ℤ pos 100)
unfolding score_of
score_of_range lib (bool b) n h = rw⁻¹ (ok_injective h) (omega arith, omega arith)
score_of_range lib (int m) n h = rw⁻¹ (ok_injective h) (clamp_score_range m)
score_of_range lib (float f) n h = clamped_range _ n h
score_of_range lib (text s) n h = score_of_head_range _ n h
score_of_range lib null n h = rw⁻¹ (ok_injective h) (omega arith, omega arith)
score_of_range lib (list vs) n h = rw⁻¹ (ok_injective h) (omega arith, omega arith)
score_of_range lib (dict fs) n h = rw⁻¹ (ok_injective h) (omega arith, omega arith)

pub convert_given : (lib : Builtins) (u : Setup) (r : Fields) → Gives Converted (convert lib u r)
unfolding convert ◌>>=◌ lift pure
convert_given lib u r = record {
  given = λ e c h. ground (
    arith,
    score_of_range lib (get_default "score" r (get_default "risk_score" r (int (pos 0)))) c.score,
  );
}
