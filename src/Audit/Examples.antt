-- ===== src/Audit/Examples.antt =====
-- Tests of the audit log, and its theorems at concrete values. The encoder of the examples has a text
-- for one entry.
use elyra.Base.{
  ◌⊎◌, ◌≤◌, length, String, [], ◌∷◌, ◌++◌, ◌≡◌, refl, sym, ap, str_eq, eq_iff, Option, none, some,
  false, true, arith, Bool,
}
use elyra.Base.Exec.{◌>>=◌, pure, lift, gets, modify}
use elyra.Base.Text.{is_blank}
use elyra.Base.Int.{◌+ℤ◌, pos}
use elyra.Base.Outcome.{Result, ok, err, ok_injective, err-ne-ok}
use elyra.Base.Value.{
  float, get, has, Value, int, text, dict, Fields, end, field, set, finite, PyError, value_error,
  Builtins,
}
use native.Mathlib.Decide.{ℕ_discrete}
use elyra.Audit.Bytes.{Bytes, lines_from, is_whole, is_blank_line}
use elyra.Audit.Record.{remove, safe_fields, Json, zero_hash, record_hash, validate_hex_hash}
use elyra.Audit.Verify.{
  check_record, check_fields, check_line, check_file, passed, verify_audit_directory, Cursor,
  check_log, regular, start,
}
use elyra.Audit.Disk.{index_suffix, segment_index, largest_index, write_all, segments_for}
use elyra.Audit.Logger.{
  os_error, tail_state, build_entry, AuditConfig, AuditLogger, Moment, unhashed_entry,
}
use elyra.Audit.Methods.{repair_trailing_partial_locked, append_bytes_locked, append_record_locked}
use elyra.Audit.JsonLaws.{JsonLaws, IsPlain}
use elyra.Audit.Lines.{Unbroken}
use elyra.Audit.Growth.{IsContinued, record-IsContinued}
use elyra.Audit.History.{record_all, empty-IsContinued, records_verified}
use elyra.Audit.Rotation.{segment_index-index_suffix}
use elyra.Audit.Recovery.{torn_append_repaired}

true-ne-false : {b : Bool} → b ≡ true → b ≡ false → ⊥
true-ne-false e f = cc

decide : (b : Bool) (s t : String) → str_eq s t ≡ b → Dec (s ≡ t)
decide true s t e = yes ((eq_iff s t).0 e)
decide false s t e = no (λ same. true-ne-false ((eq_iff s t).1 same) e)

String_discrete : Discrete String
unfolding decide
String_discrete s t = decide (str_eq s t) s t refl

Fields-discrete : Discrete Fields
Fields-discrete = hlevel (ℕ_discrete, String_discrete)

abbrev interpreter : Builtins
interpreter = record {
  int_of_text = λ s. none;
  float_of_text = λ s. none;
  text_of = λ v. "?";
  upper = λ s. s;
  normpath = λ s. s;
  dict_of_other = λ v. err value_error;
}

abbrev bare : Json
bare = record {
  dumps = λ fs. err value_error;
  canonical = λ fs. ok [];
  legacy = λ s fs. ok [];
  loads = λ line. none;
  sha256 = λ bytes. zero_hash;
  isoformat = λ t. "1970-01-01T00:00:00+00:00";
}

abbrev at_start : Moment
at_start = record { timestamp = finite (pos 0) 0; record_id = "0a"; writes = 2 ∷ 9 ∷ [] }

abbrev empty_log : AuditLogger
empty_log = record {
  disk = record { rotated_files = []; active_file = none; strays = []; corrupt = [] };
  last_hash = zero_hash;
  last_sequence = pos 0;
  repaired_partial = false;
}

abbrev details : Fields
details = field "pid" (int (pos 7)) end

abbrev first_entry : Fields
first_entry =
    set "record_hash" (text zero_hash)
      (unhashed_entry interpreter bare empty_log at_start (text "fanotify") (text "deny") details)

abbrev first_line : Bytes
first_line = b'{' ∷ b'1' ∷ b'}' ∷ []

abbrev encode : {P : Type 0} → Dec P → Result PyError Bytes
encode (yes p) = ok first_line
encode (no p) = err value_error

abbrev decode : Bytes → Option Value
decode [] = none
decode (c ∷ cs) = some (dict first_entry)

abbrev sample : Json
sample = record bare { dumps = λ fs. encode (Fields-discrete fs first_entry); loads = decode }

encode-ok : {P : Type 0} (d : Dec P) (b : Bytes) → encode d ≡ ok b → P × (b ≡ first_line)
encode-ok (yes p) b e = (p, sym (ok_injective e))
encode-ok (no p) b e = absurd (err-ne-ok e)

sample_loads :
    (fs : Fields) (line : Bytes) → sample.dumps fs ≡ ok line → decode line ≡ some (dict fs)
sample_loads fs line e =
    let (same, bytes) = encode-ok (Fields-discrete fs first_entry) line e in
    rw bytes (ap (λ (x : Fields). some (dict x)) (sym same))

sample_one_line : (fs : Fields) (line : Bytes) → sample.dumps fs ≡ ok line → Unbroken line
sample_one_line fs line e =
    let (same, bytes) = encode-ok (Fields-discrete fs first_entry) line e in rw bytes (omega arith)

sample_opens :
    (fs : Fields) (line : Bytes)
    → sample.dumps fs ≡ ok line
    → (others : Bytes) × (line ≡ b'{' ∷ others)
sample_opens fs line e = (b'1' ∷ b'}' ∷ [], (encode-ok (Fields-discrete fs first_entry) line e).1)

sample_laws : JsonLaws sample
sample_laws = record {
  loads-dumps = λ fs line plain e. sample_loads fs line e;
  one_line = λ fs line e. sample_one_line fs line e;
  opens = λ fs line e. sample_opens fs line e;
  digest = λ bytes. unfold validate_hex_hash in refl;
}

abbrev small_log : AuditConfig
small_log = record {
  max_bytes = 512;
  backup_count = 1;
  max_record_bytes = 256;
  quarantine_corruption = false;
  repair_trailing_partial = true;
}

abbrev one_record : AuditLogger
one_record = record {
  disk = record {
    rotated_files = [];
    active_file = some (regular (b'{' ∷ b'1' ∷ b'}' ∷ 10 ∷ []));
    strays = [];
    corrupt = [];
  };
  last_hash = zero_hash;
  last_sequence = pos 1;
  repaired_partial = false;
}

abbrev after_one : Cursor
after_one = record {
  previous = some zero_hash;
  first_prev = zero_hash;
  last = zero_hash;
  sequence = pos 1;
  count = 1;
}

first_record :
    append_record_locked interpreter sample small_log at_start
      (text "fanotify")
      (text "deny")
      (dict details)
      empty_log
    ≡ (ok zero_hash, one_record)
unfolding append_record_locked ◌>>=◌ lift is_blank gets tail_state modify build_entry record_hash
    get Fields-discrete set String_discrete ◌+ℤ◌ ℕ_discrete safe_fields pure write_all
first_record = refl

one_record_checked :
    check_log interpreter sample start (segments_for one_record.disk) ≡ ok after_one
unfolding check_log get remove has set record_hash validate_hex_hash segments_for check_file
    is_whole lines_from check_line is_blank_line check_fields unhashed_entry check_record ◌+ℤ◌
one_record_checked = refl

empty_log-IsContinued : IsContinued interpreter sample empty_log start
empty_log-IsContinued = empty-IsContinued interpreter sample small_log empty_log refl refl

IsPlain-details : IsPlain (dict (safe_fields details))
unfolding IsPlain safe_fields has
IsPlain-details = (refl, tt, tt)

IsPlain-time : IsPlain (float at_start.timestamp)
unfolding IsPlain
IsPlain-time = tt

record-IsContinued_example :
    (d : Cursor) × IsContinued interpreter sample one_record d
    × (verify_audit_directory interpreter sample (segments_for one_record.disk)
        ≡ ok (passed interpreter sample (length (segments_for one_record.disk)) d))
    × (d.last ≡ zero_hash)
    × (d.sequence ≡ pos 0 +ℤ pos 1)
    × ((d.count ≡ 1) ⊎ (1 ≤ 0))
    × (largest_index one_record.disk.rotated_files ≤ 1)
record-IsContinued_example =
    record-IsContinued interpreter sample sample_laws small_log empty_log one_record start at_start
      "fanotify" "deny" details zero_hash (omega arith) empty_log-IsContinued (omega arith)
      IsPlain-time IsPlain-details first_record

torn : (append_bytes_locked (2 ∷ []) (first_line ++ 10 ∷ []) one_record).0 ≡ err os_error
unfolding append_bytes_locked write_all gets modify lift ◌>>=◌
torn = refl

torn_append_repaired_example :
    (m : AuditLogger) × (repair_trailing_partial_locked
        (append_bytes_locked (2 ∷ []) (first_line ++ 10 ∷ []) one_record).1
      ≡ (ok tt, m))
    × (check_log interpreter sample start (segments_for m.disk) ≡ ok after_one)
    × (m.disk.rotated_files ≡ [])
torn_append_repaired_example =
    torn_append_repaired interpreter sample (2 ∷ []) first_line one_record after_one
      one_record_checked (omega arith) torn

one_call :
    record_all interpreter sample small_log
      (record { at = at_start; source = "fanotify"; subject = "deny"; payload = details } ∷ [])
      empty_log
    ≡ (ok tt, one_record)
unfolding append_record_locked ◌>>=◌ lift is_blank gets tail_state modify build_entry record_hash
    get Fields-discrete set String_discrete ◌+ℤ◌ ℕ_discrete safe_fields pure write_all record_all
one_call = refl

records_verified_example :
    (d : Cursor) × (verify_audit_directory interpreter sample (segments_for one_record.disk)
      ≡ ok (passed interpreter sample (length (segments_for one_record.disk)) d))
    × (d.sequence ≡ pos 1)
records_verified_example =
    records_verified interpreter sample small_log sample_laws (omega arith)
      (record { at = at_start; source = "fanotify"; subject = "deny"; payload = details } ∷ [])
      empty_log one_record refl refl (omega arith) ((IsPlain-time, IsPlain-details), tt) one_call

segment_index-index_suffix_example : segment_index (index_suffix 42) ≡ some 42
segment_index-index_suffix_example = segment_index-index_suffix 42 (omega arith)
