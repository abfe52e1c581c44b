-- ===== src/Update/Checker.antt =====
-- elyra-engine/src/elyra/update/checker.py: the order of versions and `decide_update`. `isdigit` and
-- `int` of a text are parameters; the manifest of `check_latest` is what the request gives.
use Prim.Native.Char.{Char, code}
use elyra.Base.{
  ◌==◌, String, Bool, true, false, not, Option, none, some, List, [], ◌∷◌, str_eq, take,
  if◌then◌else◌,
}
use elyra.Base.Int.{ℤ, pos, ltb_ℤ}
use elyra.Base.Outcome.{Result, ok, err, ◌>>=◌}
use elyra.Base.Value.{
  Value, null, text, dict, Fields, get, has, truthy, str_of, int_of, PyError, type_error,
  value_error, overflow_error, Builtins,
}

pub data Status : Type 0 where
  up_to_date update_required update_available check_unavailable : Status

pub record UpdateDecision : Type 0 where
  pub status : Status
  pub current_version : String
  pub latest_version : Option String
  pub can_defer : Bool
  pub reason : String
  pub release_url : Option String

-- `value.lstrip("v")`
unfoldable pub lstrip_v : String → String
lstrip_v String.[] = String.[]
lstrip_v (String.◌∷◌ c s) = let rest = lstrip_v s in if code c == b'v' then rest else String.◌∷◌ c s

-- A character put before the first part.
abbrev pub before_first : Char → List String → List String
before_first c [] = String.◌∷◌ c String.[] ∷ []
before_first c (part ∷ parts) = String.◌∷◌ c part ∷ parts

-- `value.split(".")`
unfoldable pub split_dots : String → List String
split_dots String.[] = "" ∷ []
split_dots (String.◌∷◌ c s) =
    let rest = split_dots s in if code c == b'.' then "" ∷ rest else before_first c rest

module _ (lib : Builtins) (is_digit : Char → Bool) where
  -- `"".join(character for character in part if character.isdigit())`
  unfoldable pub digits_of : String → String
  digits_of String.[] = String.[]
  digits_of (String.◌∷◌ c s) =
      let rest = digits_of s in if is_digit c then String.◌∷◌ c rest else rest

  -- `int(digits or 0)`
  unfoldable pub number_of : String → Result PyError ℤ
  unfolding digits_of
  number_of part =
      if str_eq (digits_of part) "" then ok (pos 0) else int_of lib (text (digits_of part))

  unfoldable pub numbers_of : List String → Result PyError (List ℤ)
  unfolding number_of
  numbers_of [] = ok []
  numbers_of (part ∷ parts) = do n ← number_of part; ns ← numbers_of parts; ok (n ∷ ns)

  -- `_version_tuple`
  unfoldable pub version_tuple : String → Result PyError (List ℤ)
  unfolding numbers_of lstrip_v split_dots
  version_tuple value = do ns ← numbers_of (split_dots (lstrip_v value)); ok (take 4 ns)

-- `<` on tuples of integers, of which `<=` is the negation the other way round
unfoldable pub lt_tuple : List ℤ → List ℤ → Bool
lt_tuple xs [] = false
lt_tuple [] (y ∷ ys) = true
lt_tuple (x ∷ xs) (y ∷ ys) =
    let rest = lt_tuple xs ys in if ltb_ℤ x y then true else if ltb_ℤ y x then false else rest

-- `str(manifest.get(key, default))`
abbrev pub text_at : Builtins → Fields → String → String → String
text_at lib manifest key default =
    if has key manifest then str_of lib (get key manifest) else default

-- `text or None`
abbrev pub nonempty : String → Option String
nonempty s = if str_eq s "" then none else some s

-- `str(manifest.get("version", "")).lstrip("v") or None`
abbrev pub manifest_version : Builtins → Fields → Option String
manifest_version lib manifest = nonempty (lstrip_v (text_at lib manifest "version" ""))

abbrev pub url_at : Builtins → Fields → Option String
url_at lib manifest =
    if truthy (get "url" manifest) then some (str_of lib (get "url" manifest)) else none

module _ (lib : Builtins) (is_digit : Char → Bool) (current : String) where
  abbrev pub up_to_date_at : Option String → UpdateDecision
  up_to_date_at latest = record {
    status = up_to_date;
    current_version = current;
    latest_version = latest;
    can_defer = true;
    reason = "no newer release";
    release_url = none;
  }

  abbrev pub offer : Fields → String → Bool → UpdateDecision
  offer manifest latest mandatory = record {
    status = if mandatory then update_required else update_available;
    current_version = current;
    latest_version = some latest;
    can_defer = not mandatory;
    reason =
        if mandatory
        then "installed version is below the supported minimum"
        else "new release available";
    release_url = url_at lib manifest;
  }

  -- `bool(manifest.get("mandatory", False)) or …`; the second part is only read if the first is false.
  unfoldable pub is_mandatory : Fields → Result PyError Bool
  is_mandatory manifest = if truthy (get "mandatory" manifest) then ok true else do
    now ← version_tuple lib is_digit current
    minimum ← version_tuple lib is_digit (text_at lib manifest "min_supported_version" current)
    ok (lt_tuple now minimum)

  abbrev pub offer_release : Fields → String → Result PyError UpdateDecision
  offer_release manifest latest = do
    mandatory ← is_mandatory manifest
    ok (offer manifest latest mandatory)

  -- What follows a release whose version is there.
  unfoldable pub decide_release : Fields → String → Result PyError UpdateDecision
  unfolding is_mandatory
  decide_release manifest latest = do
    new ← version_tuple lib is_digit latest
    now ← version_tuple lib is_digit current
    if lt_tuple now new then offer_release manifest latest else ok (up_to_date_at (some latest))

  abbrev pub decide_latest : Fields → Option String → Result PyError UpdateDecision
  decide_latest manifest none = ok (up_to_date_at none)
  decide_latest manifest (some latest) = decide_release manifest latest

  -- `decide_update`
  unfoldable pub decide_update : Fields → Result PyError UpdateDecision
  unfolding decide_release lstrip_v
  decide_update manifest = decide_latest manifest (manifest_version lib manifest)

  -- `type(exc).__name__`
  abbrev pub error_name : PyError → String
  error_name type_error = "TypeError"
  error_name value_error = "ValueError"
  error_name overflow_error = "OverflowError"

  abbrev pub unavailable : String → UpdateDecision
  unavailable name = record {
    status = check_unavailable;
    current_version = current;
    latest_version = none;
    can_defer = true;
    reason = name;
    release_url = none;
  }

  abbrev pub decision_or_unavailable : Result PyError UpdateDecision → UpdateDecision
  decision_or_unavailable (ok d) = d
  decision_or_unavailable (err e) = unavailable (error_name e)

  -- `check_latest`, on the document that the request gives or the name of the exception that it raises
  unfoldable pub check_latest : Result String Value → UpdateDecision
  unfolding decide_update
  check_latest (ok (dict manifest)) = decision_or_unavailable (decide_update manifest)
  check_latest (ok null) = unavailable "ValueError"
  check_latest (ok v) = unavailable "ValueError"
  check_latest (err name) = unavailable name
