-- ===== src/Correlation/Expiry.antt =====
-- What `_expire` removes from the table.
use elyra.Base.{
  String, Bool, false, ◌||◌, Option, none, some, List, [], ◌∷◌, is_some, if◌then◌else◌,
}
use elyra.Base.Int.{ℤ}
use elyra.Base.Dict.{Dict, int_key, beq_ℤ}
use elyra.Correlation.Policy.{CorrelationPolicy}
use elyra.Correlation.State.{ExecutionState}
use elyra.Correlation.Engine.{Engine, expiry}

-- The process is among those to be archived.
abbrev listed : ℤ → List (ℤ × String) → Bool
listed q [] = false
listed q ((pid, reason) ∷ rest) = beq_ℤ pid q || listed q rest

-- What is left of a state at the time `now`.
abbrev pub unexpired : CorrelationPolicy → ℤ → Option ExecutionState → Option ExecutionState
unexpired p now none = none
unexpired p now (some s) = if is_some (expiry p now s) then none else some s

abbrev is_expired : CorrelationPolicy → ℤ → Option ExecutionState → Bool
is_expired p now none = false
is_expired p now (some s) = is_some (expiry p now s)
