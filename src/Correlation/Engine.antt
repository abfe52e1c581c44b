-- ===== src/Correlation/Engine.antt =====
-- elyra-engine/src/elyra/correlation/engine.py: the engine's tables and the operations that touch
-- more than one state: archiving, creation with eviction, and expiry.
-- The clock and the identifier factory are the streams of their successive answers; the engine
-- counts how many it has taken. The bounded `deque` holds its newest entry first. The lock around
-- each public method makes one call one step.
use elyra.Base.{
  ℕ, suc, ◌+◌, String, Bool, true, false, Option, none, some, List, [], ◌∷◌, length, take, get_or,
  if◌then◌else◌,
}
use elyra.Base.Int.{ℤ, pos, ◌-ℤ◌, ltb_ℤ, leb_ℤ}
use elyra.Base.Dict.{Dict, lookup, insert, erase, int_key}
use elyra.Base.Value.{Fields}
use elyra.Correlation.Policy.{CorrelationPolicy, RuleId}
use elyra.Correlation.State.{
  ExecutionState, Status, exited, Source, continue_monitoring, Reason, state_created, recalculate,
  rescore, records_transition, rule_applied, count_rule, may_apply,
}

pub record Engine : Type 0 where
  pub states : Dict ℤ ExecutionState
  pub archived : List ExecutionState
  pub generation_by_pid : Dict ℤ ℕ
  pub reads : ℕ
  pub ids : ℕ

abbrev pub empty : Engine
empty = record { states = []; archived = []; generation_by_pid = []; reads = 0; ids = 0 }

-- What the engine is built with.
pub record Setup : Type 0 where
  pub policy : CorrelationPolicy
  pub clock : ℕ → ℤ
  pub id_factory : ℕ → String

abbrev pub archive_limit : ℕ
archive_limit = 1024

-- A change of the state object of one process.
unfoldable pub update : ℤ → (ExecutionState → ExecutionState) → Engine → Engine
update pid f e = elim (lookup pid e.states) [
  | none ↦ e
  | some s ↦ record e { states = insert pid (f s) e.states }
]

-- `_archive`
unfoldable pub archive : ℤ → String → Engine → Engine
archive pid reason e = elim (lookup pid e.states) [
  | none ↦ e
  | some s ↦ record e {
    states = erase pid e.states;
    archived = take archive_limit (record s { terminal_reason = some reason } ∷ e.archived);
  }
]

-- `min(self.states, key=…)`: the first process among those seen least recently.
unfoldable pub oldest_from : ℤ → ℤ → Dict ℤ ExecutionState → ℤ
oldest_from pid seen [] = pid
oldest_from pid seen ((k, s) ∷ rest) =
    if ltb_ℤ s.last_seen seen then oldest_from k s.last_seen rest else oldest_from pid seen rest

-- `min` raises on an empty table, which `max_states > 0` rules out.
unfoldable pub evict_from : Dict ℤ ExecutionState → Engine → Engine
evict_from [] e = e
evict_from ((k, s) ∷ rest) e = archive (oldest_from k s.last_seen rest) "MAX_STATES_EVICTION" e

unfoldable pub evict_oldest : Engine → Engine
evict_oldest e = evict_from e.states e

-- The number of clock readings that a recalculation takes.
abbrev pub tick : Bool → ℕ
tick true = 1
tick false = 0

-- `_recalculate` on the state object of one process.
unfoldable pub recalculate_at : Setup → ℤ → Reason → Engine → Engine
recalculate_at u pid reason e = elim (lookup pid e.states) [
  | none ↦ e
  | some s ↦ record e {
    states = insert pid (recalculate u.policy (u.clock e.reads) reason s) e.states;
    reads = e.reads + tick (records_transition u.policy (rescore u.policy s));
  }
]

-- `_apply_rule` on the state object of one process.
unfoldable pub apply_rule_at : Setup → ℤ → RuleId → Fields → Engine → Engine
apply_rule_at u pid r evidence e = elim (lookup pid e.states) [
  | none ↦ e
  | some s ↦
      if may_apply u.policy r s
      then recalculate_at u pid (rule_applied r) (update pid (count_rule u.policy r evidence) e)
      else e
]

-- What `_new_state` is told of the new process.
pub record NewState : Type 0 where
  pub pid : ℤ
  pub ppid : ℤ
  pub uid : ℤ
  pub source : Source
  pub status : Status
  pub executable_path : Option String
  pub pre_execution_score : ℤ
  pub pre_execution_decision : String
  pub pre_execution_indicators : List Fields
  pub parent_correlation_id : Option String

unfoldable pub fresh_state : NewState → String → ℕ → ℤ → ExecutionState
fresh_state n id generation now = record {
  correlation_id = id;
  generation = generation;
  pid = n.pid;
  tgid = n.pid;
  ppid = n.ppid;
  uid = n.uid;
  source = n.source;
  status = n.status;
  executable_path = n.executable_path;
  executable_identifier = none;
  pre_execution_score = n.pre_execution_score;
  pre_execution_decision = n.pre_execution_decision;
  pre_execution_indicators = n.pre_execution_indicators;
  runtime_score = pos 0;
  combined_score = n.pre_execution_score;
  recommended_action = continue_monitoring;
  parent_correlation_id = n.parent_correlation_id;
  created = now;
  last_seen = now;
  exec_timestamp = none;
  exit_timestamp = none;
  exited_at = none;
  runtime_indicators = [];
  rule_occurrences = λ _. 0;
  distinct_files = [];
  rename_identifiers = [];
  outbound_connections = [];
  transitions = [];
  terminal_reason = none;
  action_execution_status = "NOT_EXECUTED_STAGE11";
  last_action_result = none;
}

-- The eviction that makes room in a full table.
unfoldable pub make_room : CorrelationPolicy → Engine → Engine
make_room p e = if leb_ℤ p.max_states (pos (length e.states)) then evict_oldest e else e

-- The new generation of the process, entered in the table.
unfoldable pub enter_state : Setup → NewState → Engine → Engine
unfolding fresh_state
enter_state u n e =
    let generation = get_or (lookup n.pid e.generation_by_pid) 0 + 1 in
    record e {
      states =
          insert n.pid (fresh_state n (u.id_factory e.ids) generation (u.clock e.reads)) e.states;
      generation_by_pid = insert n.pid generation e.generation_by_pid;
      reads = suc e.reads;
      ids = suc e.ids;
    }

-- `_new_state`
unfoldable pub new_state : Setup → NewState → Engine → Engine
new_state u n e = recalculate_at u n.pid state_created (enter_state u n (make_room u.policy e))

-- Why a state expires at the time `now`, if it does.
unfoldable pub expiry : CorrelationPolicy → ℤ → ExecutionState → Option String
expiry p now s = elim s.status [
  | exited ↦ elim s.exited_at [
    | some at ↦
        if ltb_ℤ p.exited_state_ttl (now -ℤ at) then some "EXITED_STATE_TTL_EXPIRED" else none
    | none ↦
        if ltb_ℤ p.state_ttl (now -ℤ s.last_seen) then some "ACTIVE_STATE_TTL_EXPIRED" else none
  ]
  | _ ↦ if ltb_ℤ p.state_ttl (now -ℤ s.last_seen) then some "ACTIVE_STATE_TTL_EXPIRED" else none
]

-- The expired processes, in the order of the table.
unfoldable pub expired : CorrelationPolicy → ℤ → Dict ℤ ExecutionState → List (ℤ × String)
expired p now [] = []
expired p now ((pid, s) ∷ rest) =
    let others = expired p now rest in
    elim (expiry p now s) [ none ↦ others | some reason ↦ (pid, reason) ∷ others ]

unfoldable pub archive_all : List (ℤ × String) → Engine → Engine
archive_all [] e = e
archive_all ((pid, reason) ∷ rest) e = archive_all rest (archive pid reason e)

-- `_expire` with a given time; the number is what it returns.
unfoldable pub expire_at : CorrelationPolicy → ℤ → Engine → ℕ × Engine
expire_at p now e = let gone = expired p now e.states in (length gone, archive_all gone e)

-- `_expire()` with the clock's time
unfoldable pub expire : Setup → Engine → Engine
expire u e = (expire_at u.policy (u.clock e.reads) (record e { reads = suc e.reads })).1
