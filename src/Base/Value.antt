-- ===== src/Base/Value.antt =====
-- Python objects as the engines meet them in records and events: the JSON-like values, Python's
-- floats as dyadic fractions, truth values, and the conversions `int(x)` and `str(x)`.
use Prim.Native.Nat.{ℕ, suc, ◌/◌, ◌^◌}
use Prim.Native.String.{String}
use mathlib.Core.Bool.{Bool, true, false, not}
use mathlib.Core.Option.{Option, none, some}
use mathlib.Core.List.{List, [], ◌∷◌}
use package.text.Mathlib.Text.{◌==◌ as str_eq}
use mathlib.Core.Path.{◌≡◌, refl}
use native.Mathlib.Omega.{arith}
use package.text.Mathlib.TextEquality.{eq_iff}
use elyra.Base.Tests.{◌==◌, if◌then◌else◌}
use elyra.Base.Int.{ℤ, pos, negsuc}
use elyra.Base.Outcome.{Result, ok, err, ◌>>=◌}

-- `finite m d` is m / 2 ^ d; every finite float has this form.
pub data Float : Type 0 where
  nan infinite minus_infinite : Float
  finite : ℤ → ℕ → Float

mutual
  pub data Value : Type 0 where
    null : Value
    bool : Bool → Value
    int : ℤ → Value
    float : Float → Value
    text : String → Value
    list : Items → Value
    dict : Fields → Value

  pub data Items : Type 0 where
    nil : Items
    cons : Value → Items → Items

  pub data Fields : Type 0 where
    end : Fields
    field : String → Value → Fields → Fields

-- `record.get(key)`: `null` where the key is missing.
unfoldable pub get : String → Fields → Value
get k end = null
get k (field j v fs) = if str_eq j k then v else get k fs

-- `key in record`
unfoldable pub has : String → Fields → Bool
has k end = false
has k (field j v fs) = if str_eq j k then true else has k fs

-- `record[key] = value`
unfoldable pub set : String → Value → Fields → Fields
set k v end = field k v end
set k v (field j w fs) =
    let rest = set k v fs in if str_eq j k then field j v fs else field j w rest

pub get-set : (k : String) (v : Value) (fs : Fields) → get k (set k v fs) ≡ v
unfolding get set
get-set k v end = ground (arith, (eq_iff k k).1 refl)
get-set k v (field j w fs) = ground (arith, get-set k v fs)

-- `set(record)`, in the record's order
abbrev pub keys_of : Fields → List String
keys_of end = []
keys_of (field k v fs) = k ∷ keys_of fs

abbrev pub is_zero : ℤ → Bool
is_zero (pos n) = n == 0
is_zero (negsuc n) = false

-- `bool(value)`
abbrev pub truthy : Value → Bool
truthy null = false
truthy (bool b) = b
truthy (int n) = not (is_zero n)
truthy (float (finite m d)) = not (is_zero m)
truthy (float nan) = true
truthy (float infinite) = true
truthy (float minus_infinite) = true
truthy (text s) = not (str_eq s "")
truthy (list nil) = false
truthy (list (cons v vs)) = true
truthy (dict end) = false
truthy (dict (field k v fs)) = true

-- `a or b`
abbrev pub py_or : Value → Value → Value
py_or a b = if truthy a then a else b

-- The built-in exceptions that the conversions raise.
pub data PyError : Type 0 where
  type_error value_error overflow_error : PyError

-- Rounding toward zero.
abbrev pub truncate : ℤ → ℕ → ℤ
truncate (pos n) d = pos (n / 2 ^ d)
truncate (negsuc n) d =
    let q = suc n / 2 ^ d in if q == 0 then pos 0 else negsuc (Prim.Native.Nat.◌-◌ q 1)

abbrev pub int_of_float : Float → Result PyError ℤ
int_of_float nan = err value_error
int_of_float infinite = err overflow_error
int_of_float minus_infinite = err overflow_error
int_of_float (finite m d) = ok (truncate m d)

-- What the engines use of the interpreter on texts and sequences: reading and printing numbers,
-- `str.upper`, `os.path.normpath`, and `dict(x)` of what is no dictionary. No law is assumed.
pub record Builtins : Type 0 where
  pub int_of_text : String → Option ℤ
  pub float_of_text : String → Option Float
  pub text_of : Value → String
  pub upper : String → String
  pub normpath : String → String
  pub dict_of_other : Value → Result PyError Fields

abbrev pub or_value_error : {A : Type 0} → Option A → Result PyError A
or_value_error none = err value_error
or_value_error (some a) = ok a

-- `int(value)`
unfoldable pub int_of : Builtins → Value → Result PyError ℤ
int_of lib (bool true) = ok (pos 1)
int_of lib (bool false) = ok (pos 0)
int_of lib (int n) = ok n
int_of lib (float f) = int_of_float f
int_of lib (text s) = or_value_error (lib.int_of_text s)
int_of lib null = err type_error
int_of lib (list vs) = err type_error
int_of lib (dict fs) = err type_error

-- `str(value)`
abbrev pub str_of : Builtins → Value → String
str_of lib (text s) = s
str_of lib null = "None"
str_of lib v = lib.text_of v

-- `dict(value)`
unfoldable pub dict_of : Builtins → Value → Result PyError Fields
dict_of lib (dict fs) = ok fs
dict_of lib null = lib.dict_of_other null
dict_of lib v = lib.dict_of_other v

-- `[dict(item) for item in items]`
unfoldable pub dicts_of : Builtins → Items → Result PyError (List Fields)
unfolding dict_of
dicts_of lib nil = ok []
dicts_of lib (cons v vs) = do first ← dict_of lib v; rest ← dicts_of lib vs; ok (first ∷ rest)

-- `==` with a text
abbrev pub equals_text : Value → String → Bool
equals_text (text s) t = str_eq s t
equals_text null t = false
equals_text v t = false
