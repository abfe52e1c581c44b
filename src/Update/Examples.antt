-- ===== src/Update/Examples.antt =====
-- Tests of the update decision, and its theorems at concrete manifests.
use Prim.Native.Char.{Char, code}
use elyra.Base.{◌≡◌, refl, ◌&&◌, Bool, none, some, false, leb, str_eq, if◌then◌else◌}
use elyra.Base.Int.{pos}
use elyra.Base.Outcome.{ok, err}
use elyra.Base.Value.{text, null, Fields, end, field, value_error, Builtins, has, get, int_of}
use elyra.Update.Checker.{
  unavailable, UpdateDecision, update_required, decide_update, up_to_date_at, offer, version_tuple,
  lt_tuple, check_latest,
}
use elyra.Update.Decision.{decide_update_settles}

-- Reads the numbers of the tests.
abbrev interpreter : Builtins
interpreter = record {
  int_of_text =
      λ s. if str_eq s "1" then some (pos 1) else if str_eq s "2" then some (pos 2) else none;
  float_of_text = λ s. none;
  text_of = λ v. "?";
  upper = λ s. s;
  normpath = λ s. s;
  dict_of_other = λ v. err value_error;
}

abbrev is_digit : Char → Bool
is_digit c = leb b'0' (code c) && leb (code c) b'9'

abbrev manifest : Fields
manifest =
    field "version" (text "v2.1")
      (field "url" (text "u") (field "min_supported_version" (text "2") end))

abbrev required : UpdateDecision
required = record {
  status = update_required;
  current_version = "1.2";
  latest_version = some "2.1";
  can_defer = false;
  reason = "installed version is below the supported minimum";
  release_url = some "u";
}

decide_required : decide_update interpreter is_digit "1.2" manifest ≡ ok required
unfolding decide_update has get version_tuple int_of lt_tuple
decide_required = refl

-- A release of which the version only has a zero more is offered.
longer_version_offered :
    decide_update interpreter is_digit "1.2" (field "version" (text "1.2.x") end)
    ≡ ok (offer interpreter is_digit "1.2" (field "version" (text "1.2.x") end) "1.2.x" false)
unfolding decide_update has get version_tuple int_of lt_tuple
longer_version_offered = refl

unreadable_version :
    check_latest interpreter is_digit "1.2" (ok null)
    ≡ unavailable interpreter is_digit "1.2" "ValueError"
unfolding check_latest
unreadable_version = refl

decide_update_settles_example :
    decide_update interpreter is_digit "2.1" manifest
    ≡ ok (up_to_date_at interpreter is_digit "2.1" (some "2.1"))
decide_update_settles_example =
    decide_update_settles interpreter is_digit "2.1" "1.2" manifest required decide_required refl
