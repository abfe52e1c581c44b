-- ===== src/Response/Kept.antt =====
-- Invariants of the response engine's methods, from those of the operations on its tables.
use elyra.Base.{holds_if, ℕ, suc, String, Option, none, some, List, ◌∷◌}
use elyra.Base.Int.{ℤ}
use elyra.Base.Dict.{Dict, text_key}
use elyra.Base.Outcome.{Result, ok, err}
use elyra.Base.Exec.{Keeps, keeps_rules}
use elyra.Base.Value.{Fields}
use elyra.Response.Process.{
  ProcessIdentity, Failure, safety_error, quarantine_error, os_error, attribute_error, python_error,
  unknown_recommendation, deny_not_confirmed, SystemCall,
}
use elyra.Response.Engine.{
  Action, allow, allow_monitor, warn, deny, terminate_process, quarantine_file, no_action,
  restore_file, delete_file, Status, ActionResult, Engine, Setup, Method,
}
use elyra.Response.Table.{release_binding}
use elyra.Response.Actions.{
  result_of, binding_of, run_terminate, report, trying, terminate_bound, execute_terminate,
  terminate_if_bound, quarantine_bound, finish_quarantine, report_quarantine, execute_quarantine,
  perform, note_rank, execute_known, execute_action, execute_recommendation, audited,
}

-- What is to be shown of an invariant of the engine.
pub record Preserved (u : Setup) (I : Engine → Type 0) : Type 0 where
  pub result : (r : ActionResult) (e : Engine) → I e → I (record e { results = r ∷ e.results })
  pub calls : (cs : List SystemCall) (e : Engine) → I e → I (record e { calls = cs })
  pub read : (e : Engine) → I e → I (record e { reads = suc e.reads })
  pub released : (id : String) (e : Engine) → I e → I (release_binding id e)

module _ (u : Setup) {I : Engine → Type 0} (rules : Preserved u I) where
  pub result_of_kept :
      (state : Fields) (requested : String) (executed : Action) (status : Status)
      (failure : Option Failure)
      → Keeps I (result_of u state requested executed status failure)
  unfolding result_of
  result_of_kept state requested executed status failure =
      search (keeps_rules, rules.result) depth 20

  binding_of_kept : (state : Fields) → Keeps I (binding_of u state)
  unfolding binding_of
  binding_of_kept state = search keeps_rules depth 20

  run_terminate_kept : (process : ProcessIdentity) → Keeps I (run_terminate u process)
  unfolding run_terminate
  run_terminate_kept process = record { at = λ e h. rules.calls _ e h }

  terminate_bound_kept : (state : Fields) → Keeps I (terminate_bound u state)
  unfolding terminate_bound
  terminate_bound_kept state = search (keeps_rules, binding_of_kept, run_terminate_kept) depth 20

  terminate_if_bound_kept :
      (process : Option ProcessIdentity) → Keeps I (terminate_if_bound u process)
  unfolding terminate_if_bound
  terminate_if_bound_kept none = search keeps_rules
  terminate_if_bound_kept (some process) = search (keeps_rules, run_terminate_kept)

  quarantine_bound_kept : (state : Fields) → Keeps I (quarantine_bound u state)
  unfolding quarantine_bound
  quarantine_bound_kept state =
      search (keeps_rules, binding_of_kept, terminate_if_bound_kept) depth 20

  report_kept :
      (state : Fields) (requested : String) (executed : Action) (r : Result Failure (Unit {0}))
      → Keeps I (report u state requested executed r)
  unfolding report
  report_kept state requested executed (ok _) = result_of_kept _ _ _ _ _
  report_kept state requested executed (err (safety_error x)) = result_of_kept _ _ _ _ _
  report_kept state requested executed (err (quarantine_error x)) = search keeps_rules
  report_kept state requested executed (err os_error) = search keeps_rules
  report_kept state requested executed (err attribute_error) = search keeps_rules
  report_kept state requested executed (err unknown_recommendation) = search keeps_rules
  report_kept state requested executed (err deny_not_confirmed) = search keeps_rules
  report_kept state requested executed (err (python_error x)) = search keeps_rules

  trying_kept :
      (m : Method (Unit {0})) (k : Result Failure (Unit {0}) → Method ActionResult)
      → Keeps I m
      → ((r : Result Failure (Unit {0})) → Keeps I (k r))
      → Keeps I (trying u m k)
  unfolding trying
  trying_kept m k hm hk = record { at = λ e h. (hk (m e).0).at (m e).1 (hm.at e h) }

  finish_quarantine_kept :
      (state : Fields) (requested : String) (status : Status) (failure : Option Failure)
      → Keeps I (finish_quarantine u state requested status failure)
  unfolding finish_quarantine
  finish_quarantine_kept state requested status failure =
      search (keeps_rules, result_of_kept, rules.released) depth 20

  report_quarantine_kept :
      (state : Fields) (requested : String) (r : Result Failure (Unit {0}))
      → Keeps I (report_quarantine u state requested r)
  unfolding report_quarantine
  report_quarantine_kept state requested (ok _) = finish_quarantine_kept _ _ _ _
  report_quarantine_kept state requested (err (safety_error x)) = finish_quarantine_kept _ _ _ _
  report_quarantine_kept state requested (err (quarantine_error x)) = finish_quarantine_kept _ _ _ _
  report_quarantine_kept state requested (err os_error) = search keeps_rules
  report_quarantine_kept state requested (err attribute_error) = search keeps_rules
  report_quarantine_kept state requested (err unknown_recommendation) = search keeps_rules
  report_quarantine_kept state requested (err deny_not_confirmed) = search keeps_rules
  report_quarantine_kept state requested (err (python_error x)) = search keeps_rules

  pub perform_kept :
      (state : Fields) (requested : String) (chosen : Action)
      → Keeps I (perform u state requested chosen)
  unfolding perform execute_terminate execute_quarantine
  perform_kept state requested allow = result_of_kept _ _ _ _ _
  perform_kept state requested allow_monitor = result_of_kept _ _ _ _ _
  perform_kept state requested warn = result_of_kept _ _ _ _ _
  perform_kept state requested deny = search (keeps_rules, result_of_kept)
  perform_kept state requested terminate_process =
      search (keeps_rules, result_of_kept, trying_kept, terminate_bound_kept, report_kept)
  perform_kept state requested quarantine_file =
      search
        (keeps_rules, result_of_kept, trying_kept, quarantine_bound_kept, report_quarantine_kept)
  perform_kept state requested no_action = result_of_kept _ _ _ _ _
  perform_kept state requested restore_file = result_of_kept _ _ _ _ _
  perform_kept state requested delete_file = result_of_kept _ _ _ _ _

abbrev pub Ranks : Type 0
Ranks = Dict String ℕ

-- Besides, the invariant does not look at the ranks.
module _ (u : Setup) {I : Engine → Type 0} (rules : Preserved u I)
    (ranked : (d : Ranks) (e : Engine) → I e → I (record e { highest_executed_rank = d })) where
  note_rank_holds :
      (id : String) (previous : Option ℕ) (rank : ℕ) (r : ActionResult) (e : Engine)
      → I e
      → I (note_rank u id previous rank r e)
  unfolding note_rank
  note_rank_holds id previous rank r e h = holds_if I _ _ _ (ranked _ e h) h

  execute_action_kept :
      (state : Fields) (requested : String) (chosen : Action)
      → Keeps I (execute_action u state requested chosen)
  unfolding execute_action
  execute_action_kept state requested chosen =
      search (keeps_rules, result_of_kept u rules, perform_kept u rules, note_rank_holds) depth 20

  execute_known_kept :
      (state : Fields) (requested : String) (chosen : Option Action)
      → Keeps I (execute_known u state requested chosen)
  unfolding execute_known
  execute_known_kept state requested none = result_of_kept u rules _ _ _ _ _
  execute_known_kept state requested (some chosen) = execute_action_kept state requested chosen

  pub execute_recommendation_kept : (state : Fields) → Keeps I (execute_recommendation u state)
  unfolding execute_recommendation
  execute_recommendation_kept state = execute_known_kept state _ _

  pub audited_kept :
      (name : String) (executed : Action) (pid : Option ℤ) (outcome : Result Failure (Unit {0}))
      → Keeps I (audited u name executed pid outcome)
  unfolding audited
  audited_kept name executed pid (ok _) = result_of_kept u rules _ _ _ _ _
  audited_kept name executed pid (err (quarantine_error x)) =
      search (keeps_rules, result_of_kept u rules)
  audited_kept name executed pid (err (safety_error x)) = search keeps_rules
  audited_kept name executed pid (err os_error) = search keeps_rules
  audited_kept name executed pid (err attribute_error) = search keeps_rules
  audited_kept name executed pid (err unknown_recommendation) = search keeps_rules
  audited_kept name executed pid (err deny_not_confirmed) = search keeps_rules
  audited_kept name executed pid (err (python_error x)) = search keeps_rules
