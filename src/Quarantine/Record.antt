-- ===== src/Quarantine/Record.antt =====
-- elyra-engine/src/elyra/response/quarantine_manager.py: `QuarantineRecord` and its validation. The fields
-- have the types that the class declares; the texts of the times are left out, which are derived. How a UUID is parsed and printed, and JSON texts, are
-- parameters.
use Prim.Native.Char.{code}
use Prim.Native.String.{◌++◌ as join}
use elyra.Base.{
  ℕ, String, Bool, true, false, not, ◌&&◌, ◌||◌, Option, none, some, ◌==◌, str_eq, starts_with, leb,
  if◌then◌else◌,
}
use elyra.Base.Dict.{beq_ℤ}
use elyra.Base.Int.{ℤ, pos, ltb_ℤ, leb_ℤ}
use elyra.Base.Outcome.{Result, ok, err, raise_if, ◌>>=◌, ◌>>◌}
use elyra.Base.Text.{is_blank}
use elyra.Base.Value.{Items, Fields}
use elyra.Audit.Bytes.{Bytes}
use elyra.Audit.Record.{is_hex, all_hex}
use elyra.Quarantine.Files.{FilePath, Fault, quarantine_error, metadata_error}

pub data RestorationStatus : Type 0 where
  quarantined restored deleted unknown : RestorationStatus

pub record QuarantineRecord : Type 0 where
  pub schema_version : ℤ
  pub quarantine_id : String
  pub original_path : FilePath
  pub sha256 : String
  pub size_bytes : ℤ
  pub file_type : String
  pub timestamp : ℤ
  pub reason : String
  pub related_pid : Option ℤ
  pub process_info : Fields
  pub triggered_rules : Items
  pub original_mode : ℕ
  pub original_uid : ℤ
  pub original_gid : ℤ
  pub source_device : ℤ
  pub source_inode : ℤ
  pub source_link_count : ℤ
  pub restoration_status : RestorationStatus
  pub restored_at : Option ℤ
  pub restored_path : Option FilePath
  pub restored_mode : Option ℕ
  pub ownership_restored : Bool
  pub deleted_at : Option ℤ

-- `uuid.UUID` with `str`, `str.lower`, `str.strip`, SHA-256 in hexadecimal, `json.dumps` of a record and
-- of a value (without NaN), `json.load` with the constructor of the record, and `_detect_file_type`.
pub record Library : Type 0 where
  pub canonical_uuid : String → Option String
  pub lower : String → String
  pub strip : String → String
  pub sha256 : Bytes → String
  pub text_length : String → ℕ
  pub is_json : Fields → Items → Bool
  pub record_is_json : QuarantineRecord → Bool
  pub dumps : QuarantineRecord → Result Fault Bytes
  pub load : Bytes → Option QuarantineRecord
  pub file_type_at : ℕ → FilePath → String
  pub same_record : QuarantineRecord → QuarantineRecord → Bool
  pub expand_user : FilePath → FilePath

abbrev pub is_known : RestorationStatus → Bool
is_known unknown = false
is_known s = true

abbrev pub is_upper_hex : String → Bool
is_upper_hex String.[] = true
is_upper_hex (String.◌∷◌ c s) =
    (is_hex (code c) || leb b'A' (code c) && leb (code c) b'F') && is_upper_hex s

module _ (lib : Library) where
  abbrev pub same_text : String → String → Result Fault String
  same_text id canonical =
      if str_eq (lib.lower id) canonical then ok canonical else err metadata_error

  abbrev pub canonical_of : String → Option String → Result Fault String
  canonical_of id none = err metadata_error
  canonical_of id (some canonical) = same_text id canonical

  -- `_validate_quarantine_id`
  unfoldable pub validate_quarantine_id : String → Result Fault String
  validate_quarantine_id id = canonical_of id (lib.canonical_uuid id)

  -- `_validate_record`; the two tests on the types of the rules and of the process say nothing here.
  unfoldable pub validate_record : QuarantineRecord → Result Fault (Unit {0})
  unfolding validate_quarantine_id
  validate_record r = do
    raise_if (not (beq_ℤ r.schema_version (pos 1))) metadata_error
    id ← validate_quarantine_id r.quarantine_id
    raise_if (not (starts_with r.original_path.dir "/")) metadata_error
    raise_if (not (lib.text_length r.sha256 == 64 && all_hex r.sha256)) metadata_error
    raise_if (ltb_ℤ r.size_bytes (pos 0)) metadata_error
    raise_if (not (is_known r.restoration_status)) metadata_error
    raise_if (not (lib.record_is_json r)) quarantine_error

  -- `_validate_expected_hash`
  unfoldable pub validate_expected_hash : Option String → Result Fault (Unit {0})
  validate_expected_hash none = ok tt
  validate_expected_hash (some h) =
      raise_if (not (lib.text_length h == 64 && is_upper_hex h)) quarantine_error

  -- `_validate_pid`
  abbrev pub validate_pid : Option ℤ → Result Fault (Option ℤ)
  validate_pid none = ok none
  validate_pid (some p) = if leb_ℤ p (pos 0) then err quarantine_error else ok (some p)

  -- `_require_nonempty_text`
  unfoldable pub require_nonempty_text : String → Result Fault String
  require_nonempty_text s = if is_blank s then err quarantine_error else ok (lib.strip s)

  -- `_payload_path`
  unfoldable pub payload_path : String → String → Result Fault FilePath
  unfolding validate_quarantine_id
  payload_path quarantine_dir id = do
    safe ← validate_quarantine_id id
    ok (record { dir = quarantine_dir; name = safe })

  -- `_metadata_path`
  unfoldable pub metadata_path : String → String → Result Fault FilePath
  unfolding validate_quarantine_id
  metadata_path metadata_dir id = do
    safe ← validate_quarantine_id id
    ok (record { dir = metadata_dir; name = join safe ".json" })
