-- ===== src/Correlation/Bounded.antt =====
-- What holds of the correlation engine after any sequence of calls.
use elyra.Base.{length, ◌≤◌, ◌≡◌, String, Option, some, List, arith}
use elyra.Base.Int.{ℤ, pos, ◌≤ℤ◌}
use elyra.Base.Dict.{lookup, int_key}
use elyra.Base.Outcome.{ok}
use elyra.Base.Value.{Builtins, Fields}
use elyra.Correlation.Policy.{RawPolicy, validate, CorrelationPolicy}
use elyra.Correlation.Valid.{IsValid, validate-IsValid}
use elyra.Correlation.State.{ExecutionState, action_for}
use elyra.Correlation.Sound.{IsSound, IsCounted, combined_range}
use elyra.Correlation.Tables.{IsFine, update-IsFine, archive-IsFine}
use elyra.Correlation.Fine.{
  recalculate_at-IsFine, recalculate_self-IsFine, apply_rule_at-IsFine, new_state-IsFine,
}
use elyra.Correlation.Score.{Converted}
use elyra.Correlation.Kept.{
  Quiet, seen_at, parent_read, user_read, executed, observed, acted, Preserved, run_calls-holds,
}
use elyra.Correlation.Engine.{empty, archive_limit, Setup}
use elyra.Correlation.Events.{PreExecution, late_bind}
use elyra.Correlation.Changes.{
  Observed, add_seen, set_seen, set_ppid, set_uid, set_exec, set_exited, file, renamed, endpoint,
}
use elyra.Correlation.Runtime.{set_action_result}
use elyra.Correlation.Calls.{Call, run_calls}

empty-IsFine : (u : Setup) → IsValid u.policy → IsFine u.policy empty
unfolding lookup
empty-IsFine u v = record {
  distinct = tt;
  room = omega (arith, v.room);
  archive_room = omega arith;
  each = λ pid s h. cc;
}

-- The fields that the invariant of a state is about are as they were.
module _ (p : CorrelationPolicy) (s : ExecutionState) (h : IsSound p s) where
  set_seen-IsSound : (now : ℤ) → IsSound p (set_seen now s)
  unfolding set_seen action_for
  set_seen-IsSound now = record { counted = h.counted; scored = h.scored; escalated = h.escalated }

  set_ppid-IsSound : (n : ℤ) → IsSound p (set_ppid n s)
  unfolding set_ppid action_for
  set_ppid-IsSound n = record { counted = h.counted; scored = h.scored; escalated = h.escalated }

  set_uid-IsSound : (n : ℤ) → IsSound p (set_uid n s)
  unfolding set_uid action_for
  set_uid-IsSound n = record { counted = h.counted; scored = h.scored; escalated = h.escalated }

  set_action_result-IsSound :
      (lib : Builtins) (now : ℤ) (result : Fields) → IsSound p (set_action_result lib now result s)
  unfolding set_action_result action_for
  set_action_result-IsSound lib now result = record {
    counted = h.counted;
    scored = h.scored;
    escalated = h.escalated;
  }

  set_exec-IsSound : (t : ℤ) (identifier : Option String) → IsSound p (set_exec t identifier s)
  unfolding set_exec action_for
  set_exec-IsSound t identifier = record {
    counted = h.counted;
    scored = h.scored;
    escalated = ground (arith, h.escalated);
  }

  set_exited-IsSound : (t now : ℤ) → IsSound p (set_exited t now s)
  unfolding set_exited action_for
  set_exited-IsSound t now = record {
    counted = h.counted;
    scored = h.scored;
    escalated = ground (arith, h.escalated);
  }

  add_seen-IsSound : (what : Observed) (k : String) → IsSound p (add_seen what k s)
  unfolding add_seen action_for
  add_seen-IsSound file k = record {
    counted = h.counted;
    scored = h.scored;
    escalated = h.escalated;
  }
  add_seen-IsSound renamed k = record {
    counted = h.counted;
    scored = h.scored;
    escalated = h.escalated;
  }
  add_seen-IsSound endpoint k = record {
    counted = h.counted;
    scored = h.scored;
    escalated = h.escalated;
  }

Quiet-IsSound :
    (lib : Builtins) (p : CorrelationPolicy) (f : ExecutionState → ExecutionState)
    (s : ExecutionState)
    → Quiet lib f
    → IsSound p s
    → IsSound p (f s)
Quiet-IsSound lib p _ s (seen_at now) h = set_seen-IsSound p s h now
Quiet-IsSound lib p _ s (parent_read n) h = set_ppid-IsSound p s h n
Quiet-IsSound lib p _ s (user_read n) h = set_uid-IsSound p s h n
Quiet-IsSound lib p _ s (executed t identifier) h = set_exec-IsSound p s h t identifier
Quiet-IsSound lib p _ s (Quiet.exited_at t now) h = set_exited-IsSound p s h t now
Quiet-IsSound lib p _ s (observed what k) h = add_seen-IsSound p s h what k
Quiet-IsSound lib p _ s (acted now result) h = set_action_result-IsSound p s h lib now result

late_bind-IsCounted :
    (p : CorrelationPolicy) (now : ℤ) (r : PreExecution) (s : ExecutionState)
    → Converted r
    → IsSound p s
    → IsCounted p (late_bind now r s)
unfolding late_bind
late_bind-IsCounted p now r s range h = record {
  capped = h.counted.capped;
  tally = h.counted.tally;
  weights = h.counted.weights;
  pre_low = range.0;
  pre_high = range.1;
}

Fine-Preserved : (lib : Builtins) (u : Setup) → IsValid u.policy → Preserved lib u (IsFine u.policy)
Fine-Preserved lib u v = record {
  quiet = λ pid f e q h. update-IsFine u.policy pid f e (λ s. Quiet-IsSound lib u.policy f s q) h;
  read = λ e h. h;
  archived = archive-IsFine u.policy;
  recalculated = recalculate_self-IsFine u;
  applied = apply_rule_at-IsFine u;
  bound = λ pid now r e range.
      recalculate_at-IsFine u pid _ (late_bind now r) e
        (λ s. late_bind-IsCounted u.policy now r s range);
  created = λ n e range h. new_state-IsFine u n e v range h;
}

run_calls-IsFine :
    (lib : Builtins) (u : Setup) (cs : List Call)
    → IsValid u.policy
    → IsFine u.policy (run_calls lib u cs empty)
run_calls-IsFine lib u cs v =
    run_calls-holds lib u (Fine-Preserved lib u v) cs empty (empty-IsFine u v)

-- With a policy that passes `validate`, after any sequence of calls on a new engine, each of which
-- may return or raise, the table holds at most `max_states` states and the archive at most 1024.
pub run_calls_bounded :
    (lib : Builtins) (u : Setup) (raw : RawPolicy) (cs : List Call)
    → validate raw ≡ ok u.policy
    → (pos (length (run_calls lib u cs empty).states) ≤ℤ u.policy.max_states)
      × (length (run_calls lib u cs empty).archived ≤ archive_limit)
run_calls_bounded lib u raw cs h =
    let v = validate-IsValid raw u.policy h in
    let fine = run_calls-IsFine lib u cs v in (fine.room, fine.archive_room)

-- With a policy that passes `validate`, every state in the table after any sequence of calls on a
-- new engine has scores that its indicators explain and that lie between 0 and 100, rules that have
-- counted at most as often as their caps, and a recommendation at least as strong as its status and
-- its score ask for.
pub run_calls-IsSound :
    (lib : Builtins) (u : Setup) (raw : RawPolicy) (cs : List Call) (pid : ℤ) (s : ExecutionState)
    → validate raw ≡ ok u.policy
    → lookup pid (run_calls lib u cs empty).states ≡ some s
    → IsSound u.policy s × (pos 0 ≤ℤ s.combined_score) × (s.combined_score ≤ℤ pos 100)
run_calls-IsSound lib u raw cs pid s h at =
    let v = validate-IsValid raw u.policy h in
    let fine = run_calls-IsFine lib u cs v in
    let sound = fine.each pid s at in
    let range = combined_range u.policy s v.maximum v.weight_pos sound in (sound, range.0, range.1)
