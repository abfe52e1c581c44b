-- ===== src/Audit/JsonLaws.antt =====
-- What the audit log relies on of `json` and of `hashlib`.
use elyra.Base.{zero, suc, ◌+◌, ◌%◌, ◌≡◌, true, false, some, ◌∷◌}
use elyra.Base.Int.{pos_part, neg_part}
use elyra.Base.Outcome.{ok}
use elyra.Base.Value.{
  Float, nan, infinite, minus_infinite, finite, Value, null, bool, int, float, text, list, dict,
  Items, nil, cons, Fields, end, field, has,
}
use elyra.Audit.Bytes.{Bytes}
use elyra.Audit.Record.{Json, validate_hex_hash}
use elyra.Audit.Lines.{Unbroken}

-- A finite float as its fraction in lowest terms.
abbrev pub IsReduced : Float → Type 0
IsReduced nan = ⊥
IsReduced infinite = ⊥
IsReduced minus_infinite = ⊥
IsReduced (finite m zero) = Unit
IsReduced (finite m (suc d)) = (pos_part m + neg_part m) % 2 ≡ 1

-- A value of Python that a JSON text determines: each key of a dictionary stands in it once, and
-- floats are finite.
unfoldable mutual
  pub IsPlain : Value → Type 0
  IsPlain null = Unit
  IsPlain (bool b) = Unit
  IsPlain (int n) = Unit
  IsPlain (text s) = Unit
  IsPlain (float x) = IsReduced x
  IsPlain (list vs) = ArePlain vs
  IsPlain (dict fs) = AreFieldsPlain fs

  pub ArePlain : Items → Type 0
  ArePlain nil = Unit
  ArePlain (cons v vs) = IsPlain v × ArePlain vs

  pub AreFieldsPlain : Fields → Type 0
  AreFieldsPlain end = Unit
  AreFieldsPlain (field k v fs) = (has k fs ≡ false) × IsPlain v × AreFieldsPlain fs

-- The compact text of a record is one line that begins with a brace, and decoding it gives the
-- record; a digest has 64 hexadecimal characters.
pub record JsonLaws (js : Json) : Type 0 where
  pub loads-dumps :
      (fs : Fields) (line : Bytes)
      → IsPlain (dict fs)
      → js.dumps fs ≡ ok line
      → js.loads line ≡ some (dict fs)
  pub one_line : (fs : Fields) (line : Bytes) → js.dumps fs ≡ ok line → Unbroken line
  pub opens :
      (fs : Fields) (line : Bytes)
      → js.dumps fs ≡ ok line
      → (others : Bytes) × (line ≡ b'{' ∷ others)
  pub digest : (bytes : Bytes) → validate_hex_hash (text (js.sha256 bytes)) ≡ true
