-- ===== src/Correlation/Calls.antt =====
-- The calls of the correlation engine, and a sequence of them.
use elyra.Base.{String, List, [], ◌∷◌}
use elyra.Base.Int.{ℤ}
use elyra.Base.Dict.{int_key}
use elyra.Base.Value.{Fields, Builtins}
use elyra.Correlation.Engine.{Engine, Setup, expire}
use elyra.Correlation.Events.{register_pre_execution}
use elyra.Correlation.Runtime.{ingest_runtime_event, record_action_result}

-- The calls that change the engine.
pub data Call : Type 0 where
  register ingest : Fields → Call
  expire_now : Call
  action_result : ℤ → String → Fields → Call

unfoldable pub call : Builtins → Setup → Call → Engine → Engine
call lib u (register r) e = (register_pre_execution lib u r e).1
call lib u (ingest event) e = (ingest_runtime_event lib u event e).1
call lib u expire_now e = expire u e
call lib u (action_result pid id result) e = (record_action_result lib u pid id result e).1

-- The engine after a sequence of calls.
unfoldable pub run_calls : Builtins → Setup → List Call → Engine → Engine
run_calls lib u [] e = e
run_calls lib u (c ∷ cs) e = run_calls lib u cs (call lib u c e)
