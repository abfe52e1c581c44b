-- ===== src/Audit/Record.antt =====
-- elyra-engine/src/elyra/audit/audit_logger.py: the values of a record, its hash, and the report of a
-- verification. The encoder and decoder of JSON texts and SHA-256 are parameters.
use Prim.Native.Char.{code}
use elyra.Base.{
  ℕ, suc, String, Bool, true, false, ◌&&◌, ◌||◌, Option, List, str_eq, leb, ◌==◌, if◌then◌else◌,
}
use elyra.Base.Int.{ℤ}
use elyra.Base.Outcome.{Result, ok, err}
use elyra.Base.Value.{
  equals_text, Float, nan, infinite, minus_infinite, finite, Value, null, bool, int, float, text,
  list, dict, Items, nil, cons, Fields, end, field, get, has, PyError, Builtins,
}
use elyra.Audit.Bytes.{Bytes}

abbrev pub zero_hash : String
zero_hash = "0000000000000000000000000000000000000000000000000000000000000000"

abbrev pub schema_version : String
schema_version = "2.0"

-- `json` and `hashlib`. `dumps` is the compact text of a record in UTF-8, `canonical` and `legacy`
-- the two results of `_canonical_json`, the second after the previous hash, and `loads` is `none`
-- where decoding raises what the verifier catches. `sha256` gives the digest in hexadecimal.
pub record Json : Type 0 where
  pub dumps : Fields → Result PyError Bytes
  pub canonical : Fields → Result PyError Bytes
  pub legacy : String → Fields → Result PyError Bytes
  pub loads : Bytes → Option Value
  pub sha256 : Bytes → String
  pub isoformat : Float → String

-- `str(entry.get("prev_hash", ZERO_HASH))`
unfoldable pub previous_text : Builtins → Fields → String
previous_text lib entry =
    if has "prev_hash" entry
    then elim (get "prev_hash" entry) [ text s ↦ s | null ↦ "None" | v ↦ lib.text_of v ]
    else zero_hash

-- `hashlib.sha256(encoded).hexdigest()`
abbrev pub digest_of : Json → Result PyError Bytes → Result PyError String
digest_of js (ok encoded) = ok (js.sha256 encoded)
digest_of js (err e) = err e

-- `_record_hash`
unfoldable pub record_hash : Builtins → Json → Fields → Result PyError String
unfolding previous_text
record_hash lib js entry =
    if equals_text (get "schema_version" entry) schema_version
    then digest_of js (js.canonical entry)
    else digest_of js (js.legacy (previous_text lib entry) entry)

-- `str(x)` of the floats that JSON has no text for.
abbrev pub safe_float : Float → Value
safe_float nan = text "nan"
safe_float infinite = text "inf"
safe_float minus_infinite = text "-inf"
safe_float (finite m d) = float (finite m d)

-- `_safe_value` on the values that JSON has. The keys of a dictionary are texts.
unfoldable mutual
  pub safe_value : Value → Value
  safe_value null = null
  safe_value (bool b) = bool b
  safe_value (int n) = int n
  safe_value (text s) = text s
  safe_value (float x) = safe_float x
  safe_value (list vs) = list (safe_items vs)
  safe_value (dict fs) = dict (safe_fields fs)

  pub safe_items : Items → Items
  safe_items nil = nil
  safe_items (cons v vs) = cons (safe_value v) (safe_items vs)

  pub safe_fields : Fields → Fields
  safe_fields end = end
  safe_fields (field k v fs) = field k (safe_value v) (safe_fields fs)

abbrev pub text_length : String → ℕ
text_length String.[] = 0
text_length (String.◌∷◌ c s) = suc (text_length s)

abbrev pub is_hex : ℕ → Bool
is_hex c = leb b'0' c && leb c b'9' || leb b'a' c && leb c b'f'

abbrev pub all_hex : String → Bool
all_hex String.[] = true
all_hex (String.◌∷◌ c s) = is_hex (code c) && all_hex s

-- `_validate_hex_hash`
unfoldable pub validate_hex_hash : Value → Bool
validate_hex_hash (text s) = text_length s == 64 && all_hex s
validate_hex_hash null = false
validate_hex_hash v = false

-- `unhashed.pop(key, None)`
unfoldable pub remove : String → Fields → Fields
remove k end = end
remove k (field j v fs) = let rest = remove k fs in if str_eq j k then rest else field j v rest

-- The file of a segment: one that was rotated, under its index, or the active one.
pub data Segment : Type 0 where
  rotated : ℕ → Segment
  active : Segment

-- What makes a chain untrusted. The texts of exceptions are left out.
pub data ChainError : Type 0 where
  segment_read_failed trailing_partial_record invalid_json record_not_object : ChainError
  missing_fields : List String → ChainError
  invalid_hash_encoding previous_hash_mismatch record_hash_mismatch : ChainError
  non_monotonic_sequence invalid_tail : ChainError

pub data Coverage : Type 0 where
  unknown full_from_genesis retained_window : Coverage

pub record IntegrityReport : Type 0 where
  pub valid : Bool
  pub record_count : ℕ
  pub segment_count : ℕ
  pub coverage : Coverage
  pub first_prev_hash : String
  pub last_hash : String
  pub last_sequence : ℤ
  pub error : Option ChainError
  pub error_segment : Option Segment
  pub error_line : Option ℕ
