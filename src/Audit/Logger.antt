-- ===== src/Audit/Logger.antt =====
-- elyra-engine/src/elyra/audit/audit_logger.py: the state of `AuditLogger`, `record`, `rotate` and the
-- constructor. The two locks make each public method one step. Permission bits and `fsync` are left
-- out.
use Prim.Native.Char.{code}
use mathlib.Core.List.{reverse}
use elyra.Base.{
  ℕ, ◌-◌, String, Bool, false, ◌||◌, Option, none, some, List, [], ◌∷◌, ltb, drop, length, get_or,
  if◌then◌else◌,
}
use elyra.Base.Int.{ℤ, pos, ◌+ℤ◌}
use elyra.Base.Outcome.{Result, ok, err, raise_if}
use elyra.Base.Exec.{Exec}
use elyra.Base.Text.{is_blank}
use elyra.Base.Value.{
  Float, float, Value, null, int, text, dict, Fields, end, field, get, set, PyError, Builtins,
}
use elyra.Audit.Bytes.{Bytes, split_lines, last_line}
use elyra.Audit.Record.{
  Json, zero_hash, schema_version, record_hash, safe_fields, text_length, validate_hex_hash,
  Segment, invalid_tail, unknown, IntegrityReport,
}
use elyra.Audit.Verify.{regular, symbolic_link, special, unreadable, Log, as_int, text_of}
use elyra.Audit.Disk.{Disk, segments_for}

pub record AuditConfig : Type 0 where
  pub max_bytes : ℕ
  pub backup_count : ℕ
  pub max_record_bytes : ℕ
  pub quarantine_corruption : Bool
  pub repair_trailing_partial : Bool

pub record AuditLogger : Type 0 where
  pub disk : Disk
  pub last_hash : String
  pub last_sequence : ℤ
  pub repaired_partial : Bool

-- The exceptions of the module and of what it calls.
pub data AuditFault : Type 0 where
  integrity_error : IntegrityReport → AuditFault
  security_error value_error type_error attribute_error os_error : AuditFault
  encoder : PyError → AuditFault

abbrev pub Method : Type 0 → Type 0
Method A = Exec AuditFault AuditLogger A

abbrev pub encoded : {A : Type 0} → Result PyError A → Result AuditFault A
encoded (ok a) = ok a
encoded (err e) = err (encoder e)

-- What a call takes from the clock, from `uuid4` and from the kernel.
pub record Moment : Type 0 where
  pub timestamp : Float
  pub record_id : String
  pub writes : List ℕ

abbrev pub has_control : String → Bool
has_control String.[] = false
has_control (String.◌∷◌ c s) = ltb (code c) 32 || has_control s

-- The checks of `_validate_record_input` on one name.
abbrev pub check_name : Value → Result AuditFault (Unit {0})
check_name (text s) = raise_if (is_blank s || ltb 128 (text_length s) || has_control s) value_error
check_name null = err value_error
check_name v = err value_error

abbrev pub payload_fields : Value → Result AuditFault Fields
payload_fields (dict fs) = ok fs
payload_fields null = err type_error
payload_fields v = err type_error

-- `1024 * 1024`, the part of a segment that is read from its end
abbrev pub tail_bytes : ℕ
tail_bytes = 1048576

unfoldable pub window : Bytes → Bytes
window raw = drop (length raw - tail_bytes) raw

abbrev pub tail_report : ℕ → Segment → IntegrityReport
tail_report segments s = record {
  valid = false;
  record_count = 0;
  segment_count = segments;
  coverage = unknown;
  first_prev_hash = zero_hash;
  last_hash = zero_hash;
  last_sequence = pos 0;
  error = some invalid_tail;
  error_segment = some s;
  error_line = none;
}

-- An entry with its hash and its number.
pub record Entry : Type 0 where
  pub fields : Fields
  pub hash : String
  pub sequence : ℤ

-- `entry["record_hash"] = _record_hash(entry)`
abbrev pub hashed_entry : Fields → ℤ → Result PyError String → Result AuditFault Entry
hashed_entry entry n (ok h) =
    ok (record { fields = set "record_hash" (text h) entry; hash = h; sequence = n })
hashed_entry entry n (err e) = err (encoder e)

module _ (lib : Builtins) (js : Json) where
  -- The hash and the number of the last record, from its line. `memory` is `self._last_sequence`.
  unfoldable pub tail_entry : IntegrityReport → ℤ → Option Value → Result AuditFault (String × ℤ)
  tail_entry broken memory none = err (integrity_error broken)
  tail_entry broken memory (some (dict fs)) =
      if validate_hex_hash (get "record_hash" fs)
      then ok (text_of lib (get "record_hash" fs), get_or (as_int (get "sequence" fs)) memory)
      else err security_error
  tail_entry broken memory (some null) = err attribute_error
  tail_entry broken memory (some v) = err attribute_error

  -- The loop of `_tail_state_locked` over the segments, the last one first.
  unfoldable pub tail_of : ℕ → ℤ → Log → Result AuditFault (String × ℤ)
  unfolding tail_entry window
  tail_of segments memory [] = ok (zero_hash, pos 0)
  tail_of segments memory ((s, regular raw) ∷ log) =
      let earlier = tail_of segments memory log in
      elim (last_line (split_lines (window raw))) [
        | none ↦ earlier
        | some line ↦ tail_entry (tail_report segments s) memory (js.loads line)
      ]
  tail_of segments memory ((s, symbolic_link t) ∷ log) = err security_error
  tail_of segments memory ((s, special n) ∷ log) = err security_error
  tail_of segments memory ((s, unreadable n) ∷ log) = err os_error

  unfoldable pub tail_state : AuditLogger → Result AuditFault (String × ℤ)
  unfolding tail_of segments_for
  tail_state l =
      tail_of (length (segments_for l.disk)) l.last_sequence (reverse (segments_for l.disk))

  -- The entry of `_build_entry` before its hash is added.
  unfoldable pub unhashed_entry : AuditLogger → Moment → Value → Value → Fields → Fields
  unhashed_entry l at source subject payload = field "schema_version" (text schema_version) (
      field "record_id" (text at.record_id) (
        field "sequence" (int (l.last_sequence +ℤ pos 1)) (
          field "timestamp" (float at.timestamp) (
            field "timestamp_utc" (text (js.isoformat at.timestamp)) (
              field "source" source (
                field "subject" subject (
                  field "payload" (dict (safe_fields payload))
                    (field "prev_hash" (text l.last_hash) end))))))))

  unfoldable pub build_entry :
      AuditLogger → Moment → Value → Value → Fields → Result AuditFault Entry
  unfolding unhashed_entry
  build_entry l at source subject payload =
      let entry = unhashed_entry l at source subject payload in
      hashed_entry entry (l.last_sequence +ℤ pos 1) (record_hash lib js entry)
