-- ===== src/Response/Limits.antt =====
-- What holds of the response engine after any sequence of calls, and of one repeated recommendation.
use elyra.Base.{
  ℕ, ◌≤◌, ◌≡◌, refl, String, true, false, Option, none, some, List, [], ◌∷◌, length, arith, str_eq,
  get_or,
}
use elyra.Base.Int.{ℤ}
use elyra.Base.Dict.{lookup, text_key, Distinct}
use elyra.Base.Exec.{pure, lift, gets, modify, Keeps, keeps_rules, ◌>>=◌, ◌>>◌}
use elyra.Base.Value.{Fields}
use elyra.Response.Process.{ProcessIdentity, Failure}
use elyra.Response.Engine.{
  Action, Engine, Setup, Method, new_engine, BoundTarget, FileIdentity, ActionResult, Status,
  action_rank, id_of, duplicate_suppressed,
}
use elyra.Response.Table.{close, enter_binding, binding_limit}
use elyra.Response.Actions.{
  bind_state, bind_captured, restore, delete_permanently, execute_action, result_of, note_rank,
  is_suppressed,
}
use elyra.Response.Calls.{
  Call, bind, execute, release, close_all, restore_call, delete_call, call, run_calls,
}
use elyra.Response.Bindings.{enter_binding-Entered, release_binding_within, close_releases_all}
use elyra.Response.Kept.{Preserved, Ranks, execute_recommendation_kept, audited_kept}

-- No correlation is bound twice, and there are at most 1024 bindings.
abbrev Within : Engine → Type 0
Within e = Distinct e.bindings × (length e.bindings ≤ binding_limit)

close_within : (e : Engine) → Within e → Within (close e)
close_within e h = let all = close_releases_all e h.0 in rw all.0 (tt, omega arith)

Within-Preserved : (u : Setup) → Preserved u Within
Within-Preserved u = record {
  result = λ r e h. h;
  calls = λ cs e h. h;
  read = λ e h. h;
  released = λ id e h. release_binding_within id e binding_limit h;
}

entered : (id : String) (b : BoundTarget) (e : Engine) → Within e → Within (enter_binding id b e)
entered id b e h = let after = enter_binding-Entered id b e h.0 in (after.distinct, after.bounded)

bind_captured_within :
    (u : Setup) (id : String) (pid : Option ℤ) (process : Option ProcessIdentity)
    (target : Option (FileIdentity × ℤ))
    → Keeps Within (bind_captured u id pid process target)
unfolding bind_captured
bind_captured_within u id pid process target = search (keeps_rules, entered)

bind_state_within : (u : Setup) (state : Fields) → Keeps Within (bind_state u state)
unfolding bind_state
bind_state_within u state = search (keeps_rules, bind_captured_within) depth 20

call_within : (u : Setup) (c : Call) (e : Engine) → Within e → Within (call u c e)
unfolding call restore delete_permanently
call_within u (bind state) e h = (bind_state_within u state).at e h
call_within u (execute state) e h =
    (execute_recommendation_kept u (Within-Preserved u) (λ d e h. h) state).at e h
call_within u (release id) e h = release_binding_within id e binding_limit h
call_within u close_all e h = close_within e h
call_within u (restore_call pid outcome) e h =
    (audited_kept u (Within-Preserved u) (λ d e h. h) _ _ pid outcome).at e h
call_within u (delete_call pid outcome) e h =
    (audited_kept u (Within-Preserved u) (λ d e h. h) _ _ pid outcome).at e h

run_calls_within : (u : Setup) (cs : List Call) (e : Engine) → Within e → Within (run_calls u cs e)
unfolding run_calls
run_calls_within u [] e h = h
run_calls_within u (c ∷ cs) e h = run_calls_within u cs (call u c e) (call_within u c e h)

-- After any sequence of calls on a new engine, returning or raising, there are at most 1024 bindings
-- and no correlation is bound twice.
pub bindings_bounded :
    (u : Setup) (cs : List Call)
    → Distinct (run_calls u cs new_engine).bindings
      × (length (run_calls u cs new_engine).bindings ≤ binding_limit)
bindings_bounded u cs = run_calls_within u cs new_engine (tt, omega arith)

-- Everything but the audited results is as it was.
record SameBut (e f : Engine) : Type 0 where
  calls : f.calls ≡ e.calls
  bindings : f.bindings ≡ e.bindings
  closed : f.closed ≡ e.closed
  ranks : f.highest_executed_rank ≡ e.highest_executed_rank

result_of-SameBut :
    (u : Setup) (state : Fields) (requested : String) (executed : Action) (status : Status)
    (failure : Option Failure) (e : Engine)
    → SameBut e (result_of u state requested executed status failure e).1
unfolding result_of ◌>>=◌ lift modify pure
result_of-SameBut u state requested executed status failure e = record {
  calls = ground arith;
  bindings = ground arith;
  closed = ground arith;
  ranks = ground arith;
}

suppressed_run :
    (u : Setup) (state : Fields) (requested : String) (chosen : Action) (e : Engine)
    → is_suppressed u
        (id_of u.lib state)
        (lookup (id_of u.lib state) e.highest_executed_rank)
        (action_rank chosen)
      ≡ true
    → (execute_action u state requested chosen e).1
      ≡ (result_of u state requested chosen duplicate_suppressed none e).1
unfolding execute_action ◌>>=◌ gets
suppressed_run u state requested chosen e h = rw h refl

-- A recommendation for a correlation that has executed an equal or stronger response makes no system
-- call, and leaves the bindings, the closed descriptors and the recorded ranks as they were.
pub weaker_response_suppressed :
    (u : Setup) (state : Fields) (requested : String) (chosen : Action) (rank : ℕ) (e : Engine)
    → str_eq (id_of u.lib state) "" ≡ false
    → lookup (id_of u.lib state) e.highest_executed_rank ≡ some rank
    → action_rank chosen ≤ rank
    → let after = (execute_action u state requested chosen e).1 in
      (after.calls ≡ e.calls)
      × (after.bindings ≡ e.bindings)
      × (after.closed ≡ e.closed)
      × (after.highest_executed_rank ≡ e.highest_executed_rank)
weaker_response_suppressed u state requested chosen rank e id at weaker =
    let same = result_of-SameBut u state requested chosen duplicate_suppressed none e in
    rw (suppressed_run u state requested chosen e (rw at ground (arith, id, weaker)))
      (same.calls, same.bindings, same.closed, same.ranks)

-- The rank of the strongest response that the correlation has executed; none is as an allowance.
abbrev pub rank_of : String → Ranks → ℕ
rank_of id ranks = get_or (lookup id ranks) 0

abbrev AtLeast : String → ℕ → Ranks → Type 0
AtLeast id n ranks = n ≤ rank_of id ranks

abbrev HasRanks : Ranks → Engine → Type 0
HasRanks ranks e = e.highest_executed_rank ≡ ranks

-- What follows the response in `execute_recommendation`.
abbrev noting : Setup → String → Option ℕ → ℕ → ActionResult → Method ActionResult
noting u id previous rank result = modify (note_rank u id previous rank result) >> pure result
