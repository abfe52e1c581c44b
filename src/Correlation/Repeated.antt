-- ===== src/Correlation/Repeated.antt =====
-- Events with a key that a process has been seen with before.
use elyra.Base.{◌≡◌, String, true, some, contains}
use elyra.Base.Int.{ℤ}
use elyra.Base.Dict.{lookup, int_key}
use elyra.Correlation.State.{ExecutionState}
use elyra.Correlation.Engine.{Engine}
use elyra.Correlation.Changes.{Observed, seen}

-- The key has been seen with the process's state.
record Known (pid : ℤ) (what : Observed) (k : String) (e : Engine) : Type 0 where
  state : ExecutionState
  there : lookup pid e.states ≡ some state
  known : contains (seen what state) k ≡ true
