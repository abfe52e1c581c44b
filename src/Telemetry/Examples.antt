-- ===== src/Telemetry/Examples.antt =====
-- Tests of the aggregator, and its theorems at concrete values.
use elyra.Base.{none, [], ◌∷◌}
use elyra.Base.Int.{pos}
use elyra.Base.Dict.{int_key}
use elyra.Base.Outcome.{err}
use elyra.Base.Value.{int, text, Fields, end, field, value_error, Builtins}
use elyra.Telemetry.Aggregator.{Aggregator, Limits, fresh, ingest_all, empty}
use elyra.Telemetry.Bounds.{IsBounded, telemetry-IsBounded}

abbrev interpreter : Builtins
interpreter = record {
  int_of_text = λ s. none;
  float_of_text = λ s. none;
  text_of = λ v. "?";
  upper = λ s. s;
  normpath = λ s. s;
  dict_of_other = λ v. err value_error;
}

abbrev small : Limits
small = record { state_ttl = pos 100; max_states = 1; max_distinct_files = 1 }

abbrev seen : Fields
seen =
    field "tgid" (int (pos 7))
      (field "event_type" (text "FILE_WRITE") (field "distinct_file_key" (text "/a") end))

abbrev broken : Fields
broken = field "tgid" (int (pos 8)) (field "ppid" (text "x") end)

telemetry-IsBounded_example :
    IsBounded small (ingest_all interpreter small ((pos 0, seen) ∷ (pos 5, broken) ∷ []) empty)
telemetry-IsBounded_example =
    telemetry-IsBounded interpreter small ((pos 0, seen) ∷ (pos 5, broken) ∷ [])

abbrev one_process : Aggregator
one_process = record { states = (pos 7, fresh (pos 0) (pos 7)) ∷ []; recent_events = [] }
