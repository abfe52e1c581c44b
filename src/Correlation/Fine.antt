-- ===== src/Correlation/Fine.antt =====
-- The engine's invariant and the operations on the tables that recalculate a state.
use elyra.Base.{
  get_or, ◌+◌, ℕ, suc, ◌≡◌, refl, none, some, length, arith, Option-cases, Bool-cases, inl, inr,
  String,
}
use elyra.Base.Int.{ℤ, pos, ◌≤ℤ◌}
use elyra.Base.Dict.{
  lookup, insert, int_key, lookup-insert, length-insert_le, insert-insert, beq_refl,
}
use elyra.Base.Value.{Fields}
use elyra.Correlation.Policy.{CorrelationPolicy, RuleId}
use elyra.Correlation.Valid.{IsValid}
use elyra.Correlation.State.{
  ExecutionState, Reason, state_created, rescore, records_transition, recalculate, may_apply,
  count_rule, rule_applied,
}
use elyra.Correlation.Sound.{IsCounted, IsSound, recalculate-IsSound, count_rule-IsCounted}
use elyra.Correlation.Tables.{
  IsFine, insert-Tables, replace-Tables, make_room-IsFine, length-make_room,
}
use elyra.Correlation.Engine.{
  tick, Engine, Setup, NewState, update, recalculate_at, apply_rule_at, fresh_state, make_room,
  enter_state, new_state,
}

pub recalculate_at_gone :
    (u : Setup) (pid : ℤ) (reason : Reason) (f : ExecutionState → ExecutionState) (e : Engine)
    → lookup pid e.states ≡ none
    → recalculate_at u pid reason (update pid f e) ≡ e
unfolding recalculate_at update
recalculate_at_gone u pid reason f e gone = ground arith

-- The engine after a change of one state and its recalculation.
abbrev pub changed : Setup → ℤ → Reason → ExecutionState → Engine → Engine
changed u pid reason s e = record e {
  states = insert pid (recalculate u.policy (u.clock e.reads) reason s) e.states;
  reads = e.reads + tick (records_transition u.policy (rescore u.policy s));
}

pub recalculate_at_found :
    (u : Setup) (pid : ℤ) (reason : Reason) (f : ExecutionState → ExecutionState)
    (s : ExecutionState) (e : Engine)
    → lookup pid e.states ≡ some s
    → recalculate_at u pid reason (update pid f e) ≡ changed u pid reason (f s) e
unfolding recalculate_at update
recalculate_at_found u pid reason f s e at = ground (
  arith,
  lookup-insert pid pid (f s) e.states,
  beq_refl pid,
  insert-insert pid (recalculate u.policy (u.clock e.reads) reason (f s)) (f s) e.states,
)

pub recalculate_at-IsFine :
    (u : Setup) (pid : ℤ) (reason : Reason) (f : ExecutionState → ExecutionState) (e : Engine)
    → ((s : ExecutionState) → IsSound u.policy s → IsCounted u.policy (f s))
    → IsFine u.policy e
    → IsFine u.policy (recalculate_at u pid reason (update pid f e))
recalculate_at-IsFine u pid reason f e hf h = elim (Option-cases (lookup pid e.states)) [
  | inl gone ↦ rw (recalculate_at_gone u pid reason f e gone) h
  | inr (s, at) ↦ rw (recalculate_at_found u pid reason f s e at) (
      replace-Tables (IsSound u.policy) _ pid s _ _ _ at
        (recalculate-IsSound u.policy _ reason (f s) (hf s (h.each pid s at))) h)
]

pub apply_rule_at-IsFine :
    (u : Setup) (pid : ℤ) (r : RuleId) (evidence : Fields) (e : Engine)
    → IsFine u.policy e
    → IsFine u.policy (apply_rule_at u pid r evidence e)
unfolding apply_rule_at
apply_rule_at-IsFine u pid r evidence e h = elim (Option-cases (lookup pid e.states)) [
  | inl gone ↦ rw (apply_rule_at, gone) h
  | inr (s, at) ↦ elim (Bool-cases (may_apply u.policy r s)) [
    | inl may ↦
        rw
          (
            apply_rule_at,
            at,
            may,
            recalculate_at_found u pid (rule_applied r) (count_rule u.policy r evidence) s e at,
          )
          (replace-Tables (IsSound u.policy) _ pid s _ _ _ at
            (recalculate-IsSound u.policy _ (rule_applied r) _
              (count_rule-IsCounted u.policy r evidence s may (h.each pid s at).counted))
            h)
    | inr over ↦ rw (apply_rule_at, at, over) h
  ]
]

fresh_state-IsCounted :
    (p : CorrelationPolicy) (n : NewState) (id : String) (generation : ℕ) (now : ℤ)
    → IsValid p
    → (pos 0 ≤ℤ n.pre_execution_score) × (n.pre_execution_score ≤ℤ pos 100)
    → IsCounted p (fresh_state n id generation now)
unfolding fresh_state
fresh_state-IsCounted p n id generation now v range = record {
  capped = λ r. omega (arith, v.cap_pos r);
  tally = λ r. refl;
  weights = tt;
  pre_low = range.0;
  pre_high = range.1;
}

-- The state of a new process, after the first recalculation.
abbrev pub entered : Setup → NewState → Engine → ExecutionState
entered u n e = recalculate u.policy (u.clock (suc e.reads)) state_created (
    fresh_state n (u.id_factory e.ids) (get_or (lookup n.pid e.generation_by_pid) 0 + 1)
      (u.clock e.reads))

pub enter_state_tables :
    (u : Setup) (n : NewState) (e : Engine)
    → let after = recalculate_at u n.pid state_created (enter_state u n e) in
      (after.states ≡ insert n.pid (entered u n e) e.states)
      × (after.archived ≡ e.archived)
      × (after.generation_by_pid
          ≡ insert n.pid (get_or (lookup n.pid e.generation_by_pid) 0 + 1) e.generation_by_pid)
unfolding enter_state recalculate_at
enter_state_tables u n e =
    let fresh =
      fresh_state n (u.id_factory e.ids) (get_or (lookup n.pid e.generation_by_pid) 0 + 1)
        (u.clock e.reads) in
    ground (
      arith,
      lookup-insert n.pid n.pid fresh e.states,
      beq_refl n.pid,
      insert-insert n.pid (entered u n e) fresh e.states,
    )

enter_state-IsFine :
    (u : Setup) (n : NewState) (e : Engine)
    → IsCounted u.policy (
        fresh_state n
          (u.id_factory e.ids)
          (get_or (lookup n.pid e.generation_by_pid) 0 + 1)
          (u.clock e.reads))
    → pos (suc (length e.states)) ≤ℤ u.policy.max_states
    → IsFine u.policy e
    → IsFine u.policy (recalculate_at u n.pid state_created (enter_state u n e))
enter_state-IsFine u n e counted room h =
    rw ((enter_state_tables u n e).0, (enter_state_tables u n e).1)
      (insert-Tables (IsSound u.policy) _ n.pid (entered u n e) _ _
        (omega (arith, length-insert_le n.pid (entered u n e) e.states, room))
        (recalculate-IsSound u.policy _ state_created _ counted) h)

pub new_state-IsFine :
    (u : Setup) (n : NewState) (e : Engine)
    → IsValid u.policy
    → (pos 0 ≤ℤ n.pre_execution_score) × (n.pre_execution_score ≤ℤ pos 100)
    → IsFine u.policy e
    → IsFine u.policy (new_state u n e)
unfolding new_state
new_state-IsFine u n e v range h =
    enter_state-IsFine u n (make_room u.policy e) (fresh_state-IsCounted u.policy n _ _ _ v range)
      (length-make_room u.policy e v h) (make_room-IsFine u.policy e h)

pub recalculate_at_self :
    (u : Setup) (pid : ℤ) (reason : Reason) (s : ExecutionState) (e : Engine)
    → lookup pid e.states ≡ some s
    → recalculate_at u pid reason e ≡ changed u pid reason s e
unfolding recalculate_at
recalculate_at_self u pid reason s e at = ground arith

pub recalculate_at_missing :
    (u : Setup) (pid : ℤ) (reason : Reason) (e : Engine)
    → lookup pid e.states ≡ none
    → recalculate_at u pid reason e ≡ e
unfolding recalculate_at
recalculate_at_missing u pid reason e gone = ground arith

pub recalculate_self-IsFine :
    (u : Setup) (pid : ℤ) (reason : Reason) (e : Engine)
    → IsFine u.policy e
    → IsFine u.policy (recalculate_at u pid reason e)
recalculate_self-IsFine u pid reason e h = elim (Option-cases (lookup pid e.states)) [
  | inl gone ↦ rw (recalculate_at_missing u pid reason e gone) h
  | inr (s, at) ↦ rw (recalculate_at_self u pid reason s e at) (
      replace-Tables (IsSound u.policy) _ pid s _ _ _ at
        (recalculate-IsSound u.policy _ reason s (h.each pid s at).counted) h)
]
