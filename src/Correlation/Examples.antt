-- ===== src/Correlation/Examples.antt =====
-- The correlation engine's theorems at the default policy and a short run: a fanotify record of a
-- process, its exec, three writes to two files and a rename.
use elyra.Base.{
  ℕ, ◌*◌, ◌≤◌, ◌≡◌, refl, String, true, Option, some, none, List, [], ◌∷◌, length, is_some, get_or,
}
use elyra.Base.Int.{ℤ, pos, ◌+ℤ◌, ◌-ℤ◌, ◌*ℤ◌, ◌≤ℤ◌, min_ℤ, max_ℤ}
use elyra.Base.Dict.{lookup, insert, erase, int_key, text_key}
use elyra.Base.Outcome.{ok, err}
use elyra.Base.Exec.{pure, lift, gets, modify, ◌>>=◌}
use elyra.Base.Text.{is_blank}
use elyra.Base.Value.{
  Builtins, int, text, end, field, type_error, get, has, int_of, dict_of, dicts_of,
}
use elyra.Correlation.Policy.{
  RawPolicy, distinct_file_write, file_rename, outbound_connection, child_process_exec,
  executable_identifier_mismatch, CorrelationPolicy, RuntimeRuleSpec, validate, check_header,
  check_thresholds, threshold_of, check_rules, check_rule, maximum_runtime, maximum_contribution,
  rules_of, rule_of,
}
use elyra.Correlation.Valid.{IsValid, validate-IsValid}
use elyra.Correlation.State.{
  ExecutionState, action_rank, recalculate, rescore, escalate, action_for, records_transition,
  may_apply, count_rule,
}
use elyra.Correlation.Sound.{IsSound}
use elyra.Correlation.Engine.{
  Engine, Setup, empty, archive_limit, update, archive, oldest_from, evict_from, evict_oldest,
  recalculate_at, apply_rule_at, fresh_state, make_room, enter_state, new_state, expiry, expired,
  archive_all, expire_at, expire,
}
use elyra.Correlation.Events.{
  before_slash, score_of, pid_of, late_bindable, late_bind, pre_execution_state, snapshot,
  read_clock, convert, store, register_pre_execution,
}
use elyra.Correlation.Changes.{
  lexically_same, runtime_state_of, add_seen, observe, endpoint_of, set_seen, set_ppid, set_uid,
  set_exec, set_exited, compare_identifiers,
}
use elyra.Correlation.Runtime.{
  inherited, parent_of, enter, ensure_state, on_exec, observe_key, on_write, on_exit, dispatch,
  ingest_known, ingest_runtime_event, set_action_result, record_action_result,
}
use elyra.Correlation.Calls.{Call, register, ingest, call, run_calls}
use elyra.Correlation.Bounded.{run_calls_bounded, run_calls-IsSound}
use elyra.Correlation.Escalation.{recommendation_monotone}

abbrev spec : String → ℕ → ℕ → RuntimeRuleSpec
spec name weight cap = record {
  rule = name;
  weight = pos weight;
  max_occurrences = pos cap;
  description = "counted";
}

-- The values of config/runtime_correlation.default.json.
abbrev default_raw : RawPolicy
default_raw = record {
  schema_version = "1.0";
  policy_name = "ELYRA_STAGE10_RUNTIME_CORRELATION";
  policy_status = "PROVISIONAL_NOT_CALIBRATED";
  score_minimum = pos 0;
  score_maximum = pos 100;
  state_ttl = pos 300000000;
  exited_state_ttl = pos 60000000;
  late_binding_window = pos 5000000;
  inheritance_window = pos 30000000;
  max_states = pos 4096;
  decision_thresholds =
      ("alert_min", pos 40) ∷ ("terminate_min", pos 70) ∷ ("quarantine_min", pos 90) ∷ [];
  runtime_rules =
      ("DISTINCT_FILE_WRITE", spec "DISTINCT_FILE_WRITE" 8 4)
      ∷ ("FILE_RENAME", spec "FILE_RENAME" 15 2)
      ∷ ("OUTBOUND_CONNECTION", spec "OUTBOUND_CONNECTION" 20 2)
      ∷ ("CHILD_PROCESS_EXEC", spec "CHILD_PROCESS_EXEC" 10 1)
      ∷ ("EXECUTABLE_IDENTIFIER_MISMATCH", spec "EXECUTABLE_IDENTIFIER_MISMATCH" 20 1)
      ∷ [];
}

abbrev default_policy : CorrelationPolicy
default_policy = record {
  score_maximum = pos 100;
  state_ttl = pos 300000000;
  exited_state_ttl = pos 60000000;
  late_binding_window = pos 5000000;
  inheritance_window = pos 30000000;
  max_states = pos 4096;
  alert_min = pos 40;
  terminate_min = pos 70;
  quarantine_min = pos 90;
  runtime_rules = elim [
    | distinct_file_write ↦ spec "DISTINCT_FILE_WRITE" 8 4
    | file_rename ↦ spec "FILE_RENAME" 15 2
    | outbound_connection ↦ spec "OUTBOUND_CONNECTION" 20 2
    | child_process_exec ↦ spec "CHILD_PROCESS_EXEC" 10 1
    | executable_identifier_mismatch ↦ spec "EXECUTABLE_IDENTIFIER_MISMATCH" 20 1
  ];
}

default_raw_valid : validate default_raw ≡ ok default_policy
unfolding validate check_header check_thresholds threshold_of check_rules check_rule maximum_runtime
    maximum_contribution rules_of rule_of lookup min_ℤ is_blank ◌+ℤ◌ ◌*ℤ◌
default_raw_valid = refl

abbrev setup : Setup
setup = record {
  policy = default_policy;
  clock = λ n. pos (n * 1000000);
  id_factory = λ n. "generation";
}

abbrev builtins : Builtins
builtins = record {
  int_of_text = λ s. none;
  float_of_text = λ s. none;
  text_of = λ v. "";
  upper = λ s. s;
  normpath = λ s. s;
  dict_of_other = λ v. err type_error;
}

abbrev event : String → String → Call
event kind key = ingest (
    field "event_type" (text kind) (
      field "tgid" (int (pos 7))
        (field "executable_identifier" (text "/tmp/a") (field "distinct_file_key" (text key) end))))

abbrev first_calls : List Call
first_calls =
    register
      (field "pid" (int (pos 7)) (field "score" (int (pos 30)) (field "path" (text "/tmp/a") end)))
    ∷ event "PROCESS_EXEC" ""
    ∷ event "FILE_WRITE" "1:1"
    ∷ event "FILE_WRITE" "1:2"
    ∷ []

abbrev later_calls : List Call
later_calls = event "FILE_WRITE" "1:1" ∷ event "FILE_RENAME" "" ∷ []

abbrev scores : Option ExecutionState → Option (ℤ × ℤ × ℕ)
scores none = none
scores (some s) = some (s.pre_execution_score, s.combined_score, action_rank s.recommended_action)

-- Two files at 8 each: an alert.
scores-first_calls :
    scores (lookup (pos 7) (run_calls builtins setup first_calls empty).states)
    ≡ some (pos 30, pos 46, 1)
unfolding lookup insert erase pure lift gets modify ◌>>=◌ int_of dict_of dicts_of min_ℤ max_ℤ ◌+ℤ◌
    ◌-ℤ◌ recalculate rescore escalate action_for records_transition may_apply count_rule update
    archive oldest_from evict_from evict_oldest recalculate_at apply_rule_at fresh_state make_room
    enter_state new_state expiry expired archive_all expire_at expire before_slash score_of pid_of
    late_bindable late_bind pre_execution_state snapshot read_clock convert store
    register_pre_execution call run_calls lexically_same runtime_state_of add_seen observe
    endpoint_of set_seen set_ppid set_uid set_exec set_exited compare_identifiers inherited
    parent_of enter ensure_state on_exec observe_key on_write on_exit dispatch ingest_known
    ingest_runtime_event set_action_result record_action_result get has
scores-first_calls = refl

abbrev blank : ExecutionState
blank = fresh_state (runtime_state_of (pos 0) (pos 0) (pos 0) none) "" 0 (pos 0)

some-get_or : (o : Option ExecutionState) → is_some o ≡ true → o ≡ some (get_or o blank)
some-get_or (some s) h = refl
some-get_or none h = cc

abbrev first_state : Option ExecutionState
first_state = lookup (pos 7) (run_calls builtins setup first_calls empty).states

abbrev last_state : Option ExecutionState
last_state =
    lookup (pos 7)
      (run_calls builtins setup later_calls (run_calls builtins setup first_calls empty)).states

first_state_there : is_some first_state ≡ true
unfolding lookup insert erase pure lift gets modify ◌>>=◌ int_of dict_of dicts_of min_ℤ max_ℤ ◌+ℤ◌
    ◌-ℤ◌ recalculate rescore escalate action_for records_transition may_apply count_rule update
    archive oldest_from evict_from evict_oldest recalculate_at apply_rule_at fresh_state make_room
    enter_state new_state expiry expired archive_all expire_at expire before_slash score_of pid_of
    late_bindable late_bind pre_execution_state snapshot read_clock convert store
    register_pre_execution call run_calls lexically_same runtime_state_of add_seen observe
    endpoint_of set_seen set_ppid set_uid set_exec set_exited compare_identifiers inherited
    parent_of enter ensure_state on_exec observe_key on_write on_exit dispatch ingest_known
    ingest_runtime_event set_action_result record_action_result get has
first_state_there = refl

last_state_there : is_some last_state ≡ true
unfolding lookup insert erase pure lift gets modify ◌>>=◌ int_of dict_of dicts_of min_ℤ max_ℤ ◌+ℤ◌
    ◌-ℤ◌ recalculate rescore escalate action_for records_transition may_apply count_rule update
    archive oldest_from evict_from evict_oldest recalculate_at apply_rule_at fresh_state make_room
    enter_state new_state expiry expired archive_all expire_at expire before_slash score_of pid_of
    late_bindable late_bind pre_execution_state snapshot read_clock convert store
    register_pre_execution call run_calls lexically_same runtime_state_of add_seen observe
    endpoint_of set_seen set_ppid set_uid set_exec set_exited compare_identifiers inherited
    parent_of enter ensure_state on_exec observe_key on_write on_exit dispatch ingest_known
    ingest_runtime_event set_action_result record_action_result get has
last_state_there = refl

abbrev generation_of : Option ExecutionState → ℕ
generation_of none = 0
generation_of (some s) = s.generation

same_generation : generation_of last_state ≡ generation_of first_state
unfolding lookup insert erase pure lift gets modify ◌>>=◌ int_of dict_of dicts_of min_ℤ max_ℤ ◌+ℤ◌
    ◌-ℤ◌ recalculate rescore escalate action_for records_transition may_apply count_rule update
    archive oldest_from evict_from evict_oldest recalculate_at apply_rule_at fresh_state make_room
    enter_state new_state expiry expired archive_all expire_at expire before_slash score_of pid_of
    late_bindable late_bind pre_execution_state snapshot read_clock convert store
    register_pre_execution call run_calls lexically_same runtime_state_of add_seen observe
    endpoint_of set_seen set_ppid set_uid set_exec set_exited compare_identifiers inherited
    parent_of enter ensure_state on_exec observe_key on_write on_exit dispatch ingest_known
    ingest_runtime_event set_action_result record_action_result get has
same_generation = refl

run_calls_bounded_example :
    (pos (length (run_calls builtins setup first_calls empty).states) ≤ℤ pos 4096)
    × (length (run_calls builtins setup first_calls empty).archived ≤ archive_limit)
run_calls_bounded_example =
    run_calls_bounded builtins setup default_raw first_calls default_raw_valid

run_calls-IsSound_example :
    let s = get_or first_state blank in
    IsSound default_policy s × (pos 0 ≤ℤ s.combined_score) × (s.combined_score ≤ℤ pos 100)
run_calls-IsSound_example =
    run_calls-IsSound builtins setup default_raw first_calls (pos 7) (get_or first_state blank)
      default_raw_valid (some-get_or first_state first_state_there)

recommendation_monotone_example :
    action_rank (get_or first_state blank).recommended_action
    ≤ action_rank (get_or last_state blank).recommended_action
unfolding lookup insert erase pure lift gets modify ◌>>=◌ int_of dict_of dicts_of min_ℤ max_ℤ ◌+ℤ◌
    ◌-ℤ◌ recalculate rescore escalate action_for records_transition may_apply count_rule update
    archive oldest_from evict_from evict_oldest recalculate_at apply_rule_at fresh_state make_room
    enter_state new_state expiry expired archive_all expire_at expire before_slash score_of pid_of
    late_bindable late_bind pre_execution_state snapshot read_clock convert store
    register_pre_execution call run_calls lexically_same runtime_state_of add_seen observe
    endpoint_of set_seen set_ppid set_uid set_exec set_exited compare_identifiers inherited
    parent_of enter ensure_state on_exec observe_key on_write on_exit dispatch ingest_known
    ingest_runtime_event set_action_result record_action_result get has
recommendation_monotone_example =
    recommendation_monotone builtins setup first_calls later_calls (pos 7)
      (get_or first_state blank) (get_or last_state blank)
      (some-get_or first_state first_state_there) (some-get_or last_state last_state_there) refl

validate-IsValid_example : IsValid default_policy
validate-IsValid_example = validate-IsValid default_raw default_policy default_raw_valid

abbrev one_state : Engine
one_state = record empty { states = (pos 7, blank) ∷ [] }
