-- ===== src/Audit/Verify.antt =====
-- elyra-engine/src/elyra/audit/audit_logger.py: `verify_audit_directory`. The flags of a repair, which
-- it only passes on, are left out.
use elyra.Base.{
  ℕ, suc, String, Bool, true, false, not, ◌||◌, Option, none, some, List, [], ◌∷◌, str_eq, length,
  if◌then◌else◌, ◌==◌,
}
use elyra.Base.Int.{ℤ, pos, ◌+ℤ◌, leb_ℤ}
use elyra.Base.Outcome.{Result, ok, err, ◌>>=◌, ◌>>◌, raise_if}
use elyra.Base.Value.{
  equals_text, Value, null, bool, int, text, dict, Fields, get, has, PyError, Builtins,
}
use elyra.Audit.Bytes.{Bytes, split_lines, is_whole, is_blank_line}
use elyra.Audit.Record.{
  Json, zero_hash, record_hash, validate_hex_hash, remove, Segment, ChainError, segment_read_failed,
  trailing_partial_record, invalid_json, record_not_object, missing_fields, invalid_hash_encoding,
  previous_hash_mismatch, record_hash_mismatch, non_monotonic_sequence, unknown, full_from_genesis,
  retained_window, IntegrityReport,
}

-- What a path of the log names: its bytes, a link with the size of its target, something else with
-- its size, or a regular file that cannot be read.
pub data File : Type 0 where
  regular : Bytes → File
  symbolic_link : Option ℕ → File
  special : ℕ → File
  unreadable : ℕ → File

-- The variables of the loop over the records.
pub record Cursor : Type 0 where
  pub previous : Option String
  pub first_prev : String
  pub last : String
  pub sequence : ℤ
  pub count : ℕ

abbrev pub start : Cursor
start = record {
  previous = none;
  first_prev = zero_hash;
  last = zero_hash;
  sequence = pos 0;
  count = 0;
}

-- Why the verification of a record stops: with a report, on the variables at that point, or with an
-- exception.
pub data Stop : Type 0 where
  reported : Cursor → ChainError → Stop
  raised : PyError → Stop

-- The names of `required`, sorted, that the record does not have.
abbrev pub absent : Fields → List String → List String
absent fs [] = []
absent fs (k ∷ ks) = if has k fs then absent fs ks else k ∷ absent fs ks

abbrev pub required : List String
required = "payload" ∷ "prev_hash" ∷ "record_hash" ∷ "source" ∷ "subject" ∷ "timestamp" ∷ []

abbrev pub some_absent : List String → Bool
some_absent [] = false
some_absent (k ∷ ks) = true

-- An `int` of Python; a truth value is one.
abbrev pub as_int : Value → Option ℤ
as_int (int n) = some n
as_int (bool true) = some (pos 1)
as_int (bool false) = some (pos 0)
as_int null = none
as_int v = none

-- `str` of a value that is a text
abbrev pub text_of : Builtins → Value → String
text_of lib (text s) = s
text_of lib null = "None"
text_of lib v = lib.text_of v

-- The first record says which hash stands before the log.
abbrev pub open_chain : String → Cursor → Cursor
open_chain prev c = elim c.previous [
  | none ↦ record c { previous = some prev; first_prev = prev }
  | some p ↦ c
]

-- `record_prev == previous_hash`
abbrev pub follows : Value → Option String → Bool
follows prev none = false
follows prev (some p) = equals_text prev p

-- The sequence number after a record.
unfoldable pub next_sequence : Cursor → Value → Result Stop ℤ
next_sequence c null = ok (c.sequence +ℤ pos 1)
next_sequence c v = elim (as_int v) [
  | none ↦ err (reported c non_monotonic_sequence)
  | some n ↦ if leb_ℤ n c.sequence then err (reported c non_monotonic_sequence) else ok n
]

-- Exceptions of the encoder are not caught.
abbrev pub uncaught : {A : Type 0} → Result PyError A → Result Stop A
uncaught (ok a) = ok a
uncaught (err e) = err (raised e)

module _ (lib : Builtins) (js : Json) where
  -- The encoding of the two hashes and the link to the record before.
  unfoldable pub check_link : Cursor → Fields → Result Stop Cursor
  check_link c fs = do
    raise_if
        (not (validate_hex_hash (get "record_hash" fs))
          || not (validate_hex_hash (get "prev_hash" fs)))
        (reported c invalid_hash_encoding)
    let opened = open_chain (text_of lib (get "prev_hash" fs)) c
    raise_if (not (follows (get "prev_hash" fs) opened.previous))
        (reported opened previous_hash_mismatch)
    ok opened

  unfoldable pub check_hash : Cursor → Fields → Result Stop (Unit {0})
  check_hash c fs = do
    recomputed ← uncaught (record_hash lib js (remove "record_hash" fs))
    raise_if (not (equals_text (get "record_hash" fs) recomputed)) (reported c record_hash_mismatch)

  -- The variables after a record with the number `n`.
  abbrev pub accept : Cursor → Fields → ℤ → Cursor
  accept c fs n = record c {
    previous = some (text_of lib (get "record_hash" fs));
    last = text_of lib (get "record_hash" fs);
    sequence = n;
    count = suc c.count;
  }

  -- A record from where its fields are known to be there.
  unfoldable pub check_record : Cursor → Fields → Result Stop Cursor
  unfolding check_link check_hash next_sequence
  check_record c fs = do
    opened ← check_link c fs
    check_hash opened fs
    n ← next_sequence opened (get "sequence" fs)
    ok (accept opened fs n)

  unfoldable pub check_fields : Cursor → Fields → Result Stop Cursor
  check_fields c fs = do
    raise_if (some_absent (absent fs required)) (reported c (missing_fields (absent fs required)))
    check_record c fs

  unfoldable pub check_value : Cursor → Option Value → Result Stop Cursor
  check_value c none = err (reported c invalid_json)
  check_value c (some (dict fs)) = check_fields c fs
  check_value c (some null) = err (reported c record_not_object)
  check_value c (some v) = err (reported c record_not_object)

  unfoldable pub check_line : Cursor → Bytes → Result Stop Cursor
  unfolding check_value
  check_line c line = if is_blank_line line then ok c else check_value c (js.loads line)

-- A verification ends early at a place of a segment, or by an exception.
pub data Fault : Type 0 where
  broken : Segment → Option ℕ → Cursor → ChainError → Fault
  failed : PyError → Fault

abbrev pub located : {A : Type 0} → Segment → ℕ → Result Stop A → Result Fault A
located s n (ok a) = ok a
located s n (err (reported c e)) = err (broken s (some n) c e)
located s n (err (raised e)) = err (failed e)

-- `raw.count(b"\n")`
abbrev pub count_newlines : Bytes → ℕ
count_newlines [] = 0
count_newlines (c ∷ cs) = if c == 10 then suc (count_newlines cs) else count_newlines cs

abbrev pub Log : Type 0
Log = List (Segment × File)

module _ (lib : Builtins) (js : Json) where
  unfoldable pub check_lines : Segment → ℕ → Cursor → List Bytes → Result Fault Cursor
  check_lines s n c [] = ok c
  check_lines s n c (line ∷ lines) = do
    next ← located s n (check_line lib js c line)
    check_lines s (suc n) next lines

  unfoldable pub check_bytes : Segment → Cursor → Bytes → Result Fault Cursor
  unfolding check_lines
  check_bytes s c raw =
      if is_whole raw
      then check_lines s 1 c (split_lines raw)
      else err (broken s (some (suc (count_newlines raw))) c trailing_partial_record)

  unfoldable pub check_file : Segment → Cursor → File → Result Fault Cursor
  unfolding check_bytes
  check_file s c (regular raw) = check_bytes s c raw
  check_file s c (symbolic_link t) = err (broken s none c segment_read_failed)
  check_file s c (special n) = err (broken s none c segment_read_failed)
  check_file s c (unreadable n) = err (broken s none c segment_read_failed)

  -- The loop over the segments.
  unfoldable pub check_log : Cursor → Log → Result Fault Cursor
  check_log c [] = ok c
  check_log c ((s, f) ∷ log) = do next ← check_file s c f; check_log next log

  abbrev pub passed : ℕ → Cursor → IntegrityReport
  passed segments c = record {
    valid = true;
    record_count = c.count;
    segment_count = segments;
    coverage = if str_eq c.first_prev zero_hash then full_from_genesis else retained_window;
    first_prev_hash = c.first_prev;
    last_hash = c.last;
    last_sequence = c.sequence;
    error = none;
    error_segment = none;
    error_line = none;
  }

  abbrev pub report : ℕ → Result Fault Cursor → Result PyError IntegrityReport
  report segments (ok c) = ok (passed segments c)
  report segments (err (broken s line c e)) = ok (record {
    valid = false;
    record_count = c.count;
    segment_count = segments;
    coverage = unknown;
    first_prev_hash = c.first_prev;
    last_hash = c.last;
    last_sequence = c.sequence;
    error = some e;
    error_segment = some s;
    error_line = line;
  })
  report segments (err (failed e)) = err e

  -- `verify_audit_directory`, on what `_segments_for` lists
  unfoldable pub verify_audit_directory : Log → Result PyError IntegrityReport
  unfolding check_log
  verify_audit_directory log = report (length log) (check_log start log)
