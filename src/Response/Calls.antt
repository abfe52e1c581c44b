-- ===== src/Response/Calls.antt =====
-- The calls of the response engine, and a sequence of them.
use elyra.Base.{String, Option, List, [], ◌∷◌}
use elyra.Base.Int.{ℤ}
use elyra.Base.Dict.{text_key}
use elyra.Base.Outcome.{Result}
use elyra.Base.Value.{Fields}
use elyra.Response.Process.{Failure}
use elyra.Response.Engine.{Engine, Setup}
use elyra.Response.Table.{close, release_binding}
use elyra.Response.Actions.{bind_state, execute_recommendation, restore, delete_permanently}

-- The calls that change the engine.
pub data Call : Type 0 where
  bind execute : Fields → Call
  release : String → Call
  close_all : Call
  restore_call delete_call : Option ℤ → Result Failure (Unit {0}) → Call

unfoldable pub call : Setup → Call → Engine → Engine
call u (bind state) e = (bind_state u state e).1
call u (execute state) e = (execute_recommendation u state e).1
call u (release id) e = release_binding id e
call u close_all e = close e
call u (restore_call pid outcome) e = (restore u pid outcome e).1
call u (delete_call pid outcome) e = (delete_permanently u pid outcome e).1

-- The engine after a sequence of calls.
unfoldable pub run_calls : Setup → List Call → Engine → Engine
run_calls u [] e = e
run_calls u (c ∷ cs) e = run_calls u cs (call u c e)
