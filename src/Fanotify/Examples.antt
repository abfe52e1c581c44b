-- ===== src/Fanotify/Examples.antt =====
-- The controller's theorems at an enforcing policy and a file that the analyzer denies.
use elyra.Base.{
  ◌≤◌, ◌<◌, String, Option, arith, ◌+◌, ◌≡◌, refl, true, false, none, some, List, [], ◌∷◌, length,
}
use elyra.Base.Int.{ℤ, pos}
use elyra.Base.Outcome.{err}
use elyra.Base.Value.{Builtins, type_error, text, field, end}
use elyra.Fanotify.Buffer.{parse_events, metadata_length}
use elyra.Fanotify.Tiles.{taken, parse_events-tiles}
use elyra.Fanotify.Packed.{Sent, pack_all, received_all, parse_events-pack_all}
use elyra.Fanotify.Policy.{
  enforcement, fail_open, path_contains, commonpath, common_parts, parts_of, named_parts,
  split_slash, join_slash,
}
use elyra.Fanotify.Controller.{returned, FanotifyEvent, System, Setup}
use elyra.Fanotify.Handler.{handle_event, new_controller, run_steps, Step, read_event, worker_done}
use elyra.Fanotify.Answers.{attempts, intended, handle_event_answers_once}
use elyra.Fanotify.Slots.{
  in_flight_bounded, every_permission_event_answered, accounted, permission_reads,
}

abbrev builtins : Builtins
builtins = record {
  int_of_text = λ s. none;
  float_of_text = λ s. none;
  text_of = λ v. "";
  upper = λ s. s;
  normpath = λ s. s;
  dict_of_other = λ v. err type_error;
}

abbrev setup : Setup
setup = record {
  lib = builtins;
  normalise = λ s. s;
  policy = record {
    mode = enforcement;
    default_fail_policy = fail_open;
    monitored_paths = "/tmp" ∷ [];
    excluded_paths = "/usr/bin" ∷ [];
    fail_closed_paths = [];
    max_response_time = pos 2500000;
    max_preexec_file_bytes = pos 134217728;
    max_pending_events = pos 2;
    event_workers = pos 1;
    exclude_daemon_descendants = false;
  };
  daemon_pid = pos 1;
}

abbrev event : FanotifyEvent
event = record {
  fd = pos 9;
  pid = pos 7;
  path = some "/tmp/a";
  parse_error = none;
  received = pos 0;
  is_overflow = false;
  is_exec_permission = true;
}

abbrev system : System
system = record {
  parent_pid = λ pid. returned none;
  fstat = some (record { is_regular = true; size = pos 100 });
  before_analysis = pos 10;
  after_analysis = pos 20;
  analyze = λ timeout. returned (field "decision" (text "DENY") end);
  respond = λ final. returned true;
}

-- A sibling whose name only begins with the monitored path is not inside it.
sibling-path_contains : path_contains "/tmp/a" "/tmp/ab" ≡ false
unfolding path_contains commonpath common_parts parts_of named_parts split_slash join_slash
sibling-path_contains = refl

abbrev steps : List Step
steps =
    read_event event (returned true)
    ∷ read_event event (returned true)
    ∷ read_event event (returned true)
    ∷ worker_done 1 system
    ∷ []

handle_event_answers_once_example :
    attempts (handle_event setup event system []).1 ≡ (pos 9, intended setup event system) ∷ []
handle_event_answers_once_example = handle_event_answers_once setup event system []

in_flight_bounded_example :
    (run_steps setup steps (new_controller 2)).free_slots
      + length (run_steps setup steps (new_controller 2)).in_flight
    ≡ 2
in_flight_bounded_example = in_flight_bounded setup steps (new_controller 2)

every_permission_event_answered_example :
    accounted (run_steps setup steps (new_controller 2))
    ≡ accounted (new_controller 2) + permission_reads setup steps (new_controller 2)
every_permission_event_answered_example =
    every_permission_event_answered setup steps (new_controller 2)

abbrev one_event : List Sent
one_event =
    record {
      reserved = 0;
      metadata_len = 24;
      mask = 262144;
      fd = pos 5;
      pid = pos 77;
      further = 1 ∷ 2 ∷ [];
    }
    ∷ []

abbrev named : ℤ → Option String
named fd = some "/usr/bin/true"

parse_events-pack_all_example :
    parse_events named (pack_all one_event) ≡ received_all named one_event
parse_events-pack_all_example = parse_events-pack_all named one_event (omega arith, tt)

parse_events-tiles_example :
    (taken (parse_events named (1 ∷ 2 ∷ [])) ≤ 2)
    × (2 < taken (parse_events named (1 ∷ 2 ∷ [])) + metadata_length)
parse_events-tiles_example = parse_events-tiles named (1 ∷ 2 ∷ [])
