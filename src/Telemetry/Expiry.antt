-- ===== src/Telemetry/Expiry.antt =====
-- Which processes `expire` forgets.
use elyra.Base.{Bool, false, ◌||◌, Option, none, some, List, [], ◌∷◌}
use elyra.Base.Int.{ℤ}
use elyra.Base.Dict.{Dict, int_key, beq_ℤ}
use elyra.Telemetry.Aggregator.{ProcessTelemetryState, Aggregator, Limits, is_expired}

contains_ℤ : List ℤ → ℤ → Bool
contains_ℤ [] k = false
contains_ℤ (j ∷ js) k = beq_ℤ j k || contains_ℤ js k

abbrev pub gone : Limits → ℤ → Option ProcessTelemetryState → Bool
gone limits now none = false
gone limits now (some s) = is_expired limits now s
