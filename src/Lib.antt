-- ===== src/Lib.antt =====
-- A model of the decision-making core of ELYRA, an endpoint protection program for Linux, and proofs
-- about it.
--
-- A program that is about to run is judged twice. Before it runs, the kernel asks the fanotify
-- controller, which has the file scanned and scored and answers allow or deny. While it runs, eBPF
-- events of the process are joined with that first judgement by the correlation engine, whose
-- recommendation grows with the score; the response engine then carries out what is recommended,
-- against a process and a file whose identities were bound to the correlation earlier. Clients reach
-- all of this through a service that validates and authorises each request.
--
-- The files and the code that they model, all below elyra-engine/src/elyra:
--   Base          Python integers, dictionaries in insertion order, values of mixed type, exceptions
--                 (Result) and methods that may raise after they have written (Exec).
--   Scoring       scoring/engine.py. Policy: ScoringPolicy.validate. Evidence: _indicator, _threshold
--                 and the collectors, on the record of a scan of analyzer/static_analyzer.py. Engine:
--                 score, _decision, degraded_result.
--   Correlation   correlation/engine.py. Policy: CorrelationPolicy.validate, whose result is the typed
--                 policy. State: one process's state, _action_for, _recalculate and the counting of
--                 _apply_rule. Engine: the tables, _archive, _new_state, _expire. Events:
--                 register_pre_execution. Changes and Runtime: ingest_runtime_event and
--                 record_action_result. Calls: sequences of these.
--   Fanotify      monitor/fanotify/policy.py and controller.py. Policy: FanotifyPolicy with path
--                 containment. Controller: _evaluate_event. Handler: _handle_event, the records and
--                 the reader loop. Buffer: parse_events of syscalls.py, on the kernel's bytes.
--   Response      response/engine.py. Policy and Process: ResponsePolicy.validate and
--                 PidfdProcessController.terminate. Engine and Actions: ResponseEngine, with
--                 its bindings in Table and sequences of calls in Calls.
--   Audit         audit/audit_logger.py. Bytes, Record and Verify: the lines of a file, the hash of a
--                 record and verify_audit_directory. Disk: the files, their indices and the rotation.
--                 Logger and Methods: AuditLogger with record, rotate's core, the repair of a torn line
--                 and the constructor.
--   Service       service/ipc_protocol.py and service/authorization.py: what the service accepts from a
--                 client, and which actions and scan paths it authorises.
--   Quarantine    response/quarantine_manager.py. Files: the calls of the system. Record: QuarantineRecord
--                 and its validation. Moves: _move_noreplace, copies and _write_metadata_atomic. Manager:
--                 quarantine_file and its rollback. Restore: restore_file and delete_permanently.
--   Telemetry     monitor/ebpf/aggregator.py: the table of processes and the recent events.
--   Update        update/checker.py: _version_tuple, decide_update and check_latest.
-- Beside the definitions, each part has modules of lemmas named for what they show, and a module of
-- Examples with tests at concrete values.
--
-- Numbers are the native numbers, with integers over them; Python's integers have no bound, so nothing
-- wraps. Times are integers, in microseconds, and a floating-point number is a dyadic fraction, an
-- infinity or not a number. A clock is the stream of its readings and an engine counts those it has
-- taken. What a method does to an object that a table holds is a change under the key of the table. A
-- public method that holds the lock is one step; the fanotify workers run as explicit steps that
-- finish in any order. System calls, procfs, the analyzer, path normalisation and, for the response
-- engine, the quarantine manager are parameters, as are the interpreter's conversions between texts and
-- numbers, of which no law is assumed but that str.upper leaves the four decisions as they are. JSON
-- texts and SHA-256 are parameters of the audit log, with the laws of Audit/JsonLaws, and of the
-- quarantine, with none. The directory of the log is
-- kept by the indices that the names give; the writes of an append are a list of the kernel's answers.
-- Every call of the quarantine manager may fail, by an arbitrary stream of answers, and what is read and
-- the status of a file are the kernel's answers; the files move only by the manager's calls.
--
-- Three functions run on fuel: the walk to a process's ancestors has the code's own limit of 64, the
-- loop that makes room for a binding has one unit for each binding, of which each turn drops one, and
-- the parser of the kernel's buffer has one for each byte, of which every event takes at least one.
--
-- Not modelled: reading policies and messages from JSON, the queries for display, the sockets and the
-- service's threads, the analyzers, the Windows monitor, signatures, the classifiers, the graphical
-- interface and the tools.
pub mod Base
pub mod Scoring
pub mod Correlation
pub mod Fanotify
pub mod Response
pub mod Service
pub mod Audit
pub mod Telemetry
pub mod Update
pub mod Quarantine
