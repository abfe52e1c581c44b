-- ===== src/Audit/Methods.antt =====
-- elyra-engine/src/elyra/audit/audit_logger.py: the methods of `AuditLogger` that change the log. The
-- two locks make each public method one step; permission bits and `fsync` are left out.
use elyra.Base.{
  ◌++◌, ℕ, suc, ◌+◌, String, Bool, true, false, not, ◌&&◌, ◌||◌, Option, none, some, List, [], ◌∷◌,
  ltb, length, ◌==◌, if◌then◌else◌,
}
use elyra.Base.Int.{pos}
use elyra.Base.Outcome.{Result, ok, err, raise_if}
use elyra.Base.Exec.{pure, lift, gets, modify, ◌>>=◌, ◌>>◌}
use elyra.Base.Value.{Value, text, dict, Fields, Builtins}
use elyra.Audit.Bytes.{Bytes, is_whole, whole_part, fragment}
use elyra.Audit.Record.{Json, zero_hash, IntegrityReport}
use elyra.Audit.Verify.{
  File, regular, symbolic_link, special, unreadable, Log, verify_audit_directory,
}
use elyra.Audit.Disk.{segments_for, rotate_files, exists, size_of, write_all}
use elyra.Audit.Logger.{
  AuditConfig, AuditLogger, AuditFault, integrity_error, security_error, value_error, os_error,
  Method, encoded, Moment, check_name, payload_fields, tail_state, Entry, build_entry,
}

-- `_assert_regular_nosymlink` of a path that is there
abbrev pub assert_regular : File → Result AuditFault (Unit {0})
assert_regular (regular raw) = ok tt
assert_regular (unreadable n) = ok tt
assert_regular (symbolic_link t) = err security_error
assert_regular (special n) = err security_error

abbrev pub rotate_present : AuditConfig → Option File → Method Bool
rotate_present cfg none = pure false
rotate_present cfg (some f) = do
  lift (assert_regular f)
  modify (λ (l : AuditLogger). record l { disk = rotate_files cfg.backup_count f l.disk })
  pure true

-- `_rotate_locked`; the result says whether the active file was rotated.
unfoldable pub rotate_locked : AuditConfig → Method Bool
rotate_locked cfg = do
  file ← gets (λ (l : AuditLogger). l.disk.active_file)
  if not (exists file) || size_of file == 0 then pure false else rotate_present cfg file

-- What the append leaves in the active file, and whether the line was written in full.
abbrev pub appended : List ℕ → Bytes → Option File → Result AuditFault (Bytes × Bool)
appended writes line none = ok (write_all writes line [])
appended writes line (some (regular raw)) = ok (write_all writes line raw)
appended writes line (some (symbolic_link t)) = err os_error
appended writes line (some (special n)) = err security_error
appended writes line (some (unreadable n)) = err os_error

-- `_append_bytes_locked`. What was written before a failure stays written.
unfoldable pub append_bytes_locked : List ℕ → Bytes → Method (Unit {0})
append_bytes_locked writes line = do
  file ← gets (λ (l : AuditLogger). l.disk.active_file)
  written ← lift (appended writes line file)
  modify (λ (l : AuditLogger). record l {
    disk = record l.disk { active_file = some (regular written.0) };
  })
  lift (raise_if (not written.1) os_error)

-- The rotation before a line of this length that would not fit.
unfoldable pub make_room : AuditConfig → ℕ → Method Bool
unfolding rotate_locked
make_room cfg line = do
  file ← gets (λ (l : AuditLogger). l.disk.active_file)
  let size = if exists file then size_of file else 0
  if not (size == 0) && ltb cfg.max_bytes (size + line) then rotate_locked cfg else pure false

-- `_repair_active_trailing_partial_locked`, on the bytes of the active file
unfoldable pub repair_file : Bytes → AuditLogger → AuditLogger
repair_file raw l = if is_whole raw then l else record l {
  disk = record l.disk {
    active_file = some (regular (whole_part raw));
    corrupt = fragment raw ∷ l.disk.corrupt;
  };
  repaired_partial = true;
}

abbrev pub repair_present : Option File → Method (Unit {0})
repair_present none = pure tt
repair_present (some (regular raw)) = modify (repair_file raw)
repair_present (some (symbolic_link none)) = pure tt
repair_present (some (symbolic_link (some n))) = lift (err security_error)
repair_present (some (special n)) = lift (err security_error)
repair_present (some (unreadable n)) = lift (err os_error)

unfoldable pub repair_trailing_partial_locked : Method (Unit {0})
unfolding repair_file
repair_trailing_partial_locked = do
  file ← gets (λ (l : AuditLogger). l.disk.active_file)
  repair_present file

-- `_enforce_segment_permissions_locked`
abbrev pub assert_all : Log → Result AuditFault (Unit {0})
assert_all [] = ok tt
assert_all ((s, f) ∷ log) = elim (assert_regular f) [ ok done ↦ assert_all log | err e ↦ err e ]

-- `_quarantine_corrupt_segments_locked`: every segment leaves the directory of the log.
abbrev pub quarantine_segments : AuditLogger → AuditLogger
quarantine_segments l = record l {
  disk = record l.disk { rotated_files = []; active_file = none };
  last_hash = zero_hash;
  last_sequence = pos 0;
}

module _ (lib : Builtins) (js : Json) (cfg : AuditConfig) where
  -- `_append_record_locked` from where the entry is built.
  unfoldable pub write_entry : Moment → Entry → Method String
  unfolding make_room append_bytes_locked
  write_entry at entry = do
    line ← lift (encoded (js.dumps entry.fields))
    lift (raise_if (ltb cfg.max_record_bytes (suc (length line))) value_error)
    rotated ← make_room cfg (suc (length line))
    append_bytes_locked at.writes (line ++ b'\n' ∷ [])
    modify
        (λ (l : AuditLogger). record l { last_hash = entry.hash; last_sequence = entry.sequence })
    pure entry.hash

  -- `_append_record_locked`
  unfoldable pub append_record_locked : Moment → Value → Value → Value → Method String
  unfolding write_entry
  append_record_locked at source subject payload = do
    lift (check_name source)
    lift (check_name subject)
    fields ← lift (payload_fields payload)
    known ← gets (tail_state lib js)
    tail ← lift known
    modify (λ (l : AuditLogger). record l { last_hash = tail.0; last_sequence = tail.1 })
    built ← gets (λ (l : AuditLogger). build_entry lib js l at source subject fields)
    entry ← lift built
    write_entry at entry

  -- The part of the constructor that sets a corrupt log aside. `describe` is the payload of the first
  -- record of the new chain.
  abbrev pub start_new_chain :
      Moment → (IntegrityReport → Fields) → IntegrityReport → Method (Unit {0})
  start_new_chain at describe report = do
    modify quarantine_segments
    hash ←
        append_record_locked at (text "audit") (text "corruption_recovery") (dict (describe report))
    pure tt

  -- What the constructor does after it has verified the log.
  abbrev pub accept_report :
      Moment → (IntegrityReport → Fields) → IntegrityReport → Method (Unit {0})
  accept_report at describe report =
      if report.valid
      then modify (λ (l : AuditLogger). record l {
        last_hash = report.last_hash;
        last_sequence = report.last_sequence;
      })
      else if cfg.quarantine_corruption
      then start_new_chain at describe report
      else lift (err (integrity_error report))

  -- The constructor, on the files that it finds.
  unfoldable pub start_logger : Moment → (IntegrityReport → Fields) → Method (Unit {0})
  unfolding repair_trailing_partial_locked append_record_locked
  start_logger at describe = do
    log ← gets (λ (l : AuditLogger). segments_for l.disk)
    lift (assert_all log)
    if cfg.repair_trailing_partial then repair_trailing_partial_locked else pure tt
    found ← gets (λ (l : AuditLogger). verify_audit_directory lib js (segments_for l.disk))
    report ← lift (encoded found)
    accept_report at describe report
