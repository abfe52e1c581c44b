-- ===== src/Service/Protocol.antt =====
-- elyra-engine/src/elyra/service/ipc_protocol.py: validation of a decoded request. Decoding and encoding
-- JSON is left out; messages are told apart by their code.
use Prim.Native.Char.{code}
use elyra.Base.{
  ℕ, suc, ◌^◌, ◌==◌, String, Bool, true, false, not, ◌&&◌, ◌||◌, Option, none, some, List, [], ◌∷◌,
  ◌++◌, contains, str_eq, leb, starts_with, if◌then◌else◌,
}
use elyra.Base.Int.{ℤ, pos, negsuc, leb_ℤ}
use elyra.Base.Dict.{Dict, lookup, text_key, beq_ℤ, all_in}
use elyra.Base.Outcome.{Result, ok, err, ◌>>=◌, ◌>>◌, raise_if, require}
use elyra.Base.Value.{Value, null, int, text, dict, Fields, get, has, set, keys_of, Float}

pub data Code : Type 0 where
  invalid_schema invalid_request_id unsupported_version unknown_action invalid_parameters : Code

pub record ProtocolError : Type 0 where
  pub code : Code
  pub request_id : Option String

abbrev pub fail_with : Code → ProtocolError
fail_with c = record { code = c; request_id = none }

pub record RequestMessage : Type 0 where
  pub request_id : String
  pub action : String
  pub params : Fields

abbrev pub max_path_characters : ℕ
max_path_characters = 4096

-- `_ACTION_PARAMS`: the required and the optional parameters of each action.
abbrev pub action_params : Dict String (List String × List String)
action_params =
    ("get_status", ([], []))
    ∷ ("list_events", ([], "limit" ∷ []))
    ∷ ("list_runtime_states", ([], "limit" ∷ []))
    ∷ ("list_quarantine", ([], []))
    ∷ ("get_policy", ([], []))
    ∷ ("scan_file", ("path" ∷ [], []))
    ∷ ("restore_file", ("quarantine_id" ∷ [], "destination" ∷ []))
    ∷ ("delete_permanently", ("quarantine_id" ∷ [], []))
    ∷ ("update_enforcement_policy", ("mode" ∷ [], []))
    ∷ []

-- `len(value)` of a text
unfoldable pub characters : String → ℕ
characters String.[] = 0
characters (String.◌∷◌ c s) = suc (characters s)

unfoldable pub has_nul : String → Bool
has_nul String.[] = false
has_nul (String.◌∷◌ c s) = let rest = has_nul s in code c == 0 || rest

abbrev pub between : ℕ → ℕ → ℕ → Bool
between low high n = leb low n && leb n high

-- `[A-Za-z0-9._:-]`
abbrev pub is_id_character : ℕ → Bool
is_id_character n =
    between b'A' b'Z' n
    || between b'a' b'z' n
    || between b'0' b'9' n
    || n == b'.'
    || n == b'_'
    || n == b':'
    || n == b'-'

unfoldable pub all_id_characters : String → Bool
all_id_characters String.[] = true
all_id_characters (String.◌∷◌ c s) =
    let rest = all_id_characters s in is_id_character (code c) && rest

-- `_validate_request_id`
unfoldable pub validate_request_id : Value → Result ProtocolError String
validate_request_id (text s) =
    if str_eq s "" || not (leb (characters s) 128) || not (all_id_characters s)
    then err (fail_with invalid_request_id)
    else ok s
validate_request_id null = err (fail_with invalid_request_id)
validate_request_id _ = err (fail_with invalid_request_id)

-- `_require_string` without `allow_none`
unfoldable pub require_string : ℕ → Value → Result ProtocolError String
require_string limit (text s) =
    if str_eq s "" || not (leb (characters s) limit) || has_nul s
    then err (fail_with invalid_parameters)
    else ok s
require_string limit null = err (fail_with invalid_parameters)
require_string limit _ = err (fail_with invalid_parameters)

abbrev pub is_hex : ℕ → Bool
is_hex n = between b'0' b'9' n || between b'a' b'f' n

-- The places of the dashes in a UUID.
abbrev pub is_dash_place : ℕ → Bool
is_dash_place n = n == 8 || n == 13 || n == 18 || n == 23

-- The text from a place on has lower-case digits, with dashes where a UUID has them.
unfoldable pub has_uuid_form : ℕ → String → Bool
has_uuid_form n String.[] = n == 36
has_uuid_form n (String.◌∷◌ c s) =
    let rest = has_uuid_form (suc n) s in
    (if is_dash_place n then code c == b'-' else is_hex (code c)) && rest

-- `_validate_quarantine_id`: `str(uuid.UUID(value)) == value` holds of the canonical texts alone.
unfoldable pub validate_quarantine_id : String → Result ProtocolError String
validate_quarantine_id s = if has_uuid_form 0 s then ok s else err (fail_with invalid_parameters)

-- `limit = normalized.get("limit", 50)` and its test
unfoldable pub validate_limit : Value → Result ProtocolError Value
validate_limit (int n) =
    if leb_ℤ (pos 1) n && leb_ℤ n (pos 200) then ok (int n) else err (fail_with invalid_parameters)
validate_limit null = err (fail_with invalid_parameters)
validate_limit _ = err (fail_with invalid_parameters)

unfoldable pub validate_path : Value → Result ProtocolError String
validate_path v = do
  path ← require_string max_path_characters v
  raise_if (not (starts_with path "/")) (fail_with invalid_parameters)
  ok path

-- `allow_none=True`
unfoldable pub validate_destination : Value → Result ProtocolError Value
validate_destination null = ok null
validate_destination v = do path ← validate_path v; ok (text path)

unfoldable pub validate_id : Value → Result ProtocolError String
validate_id v = do id ← require_string 64 v; validate_quarantine_id id

unfoldable pub validate_mode : Value → Result ProtocolError String
validate_mode v = do
  mode ← require_string 32 v
  raise_if (not (contains ("MONITOR_ONLY" ∷ "ENFORCEMENT" ∷ []) mode))
      (fail_with invalid_parameters)
  ok mode

abbrev pub get_default : String → Fields → Value → Value
get_default k r d = if has k r then get k r else d

-- The branches of `validate_action_params` on the action.
unfoldable pub normalize : String → Fields → Result ProtocolError Fields
normalize act params =
    if str_eq act "list_events" || str_eq act "list_runtime_states"
    then (do
      limit ← validate_limit (get_default "limit" params (int (pos 50)))
      ok (set "limit" limit params))
    else if str_eq act "scan_file"
    then (do path ← validate_path (get "path" params); ok (set "path" (text path) params))
    else if str_eq act "restore_file"
    then (do
      id ← validate_id (get "quarantine_id" params)
      destination ← validate_destination (get "destination" params)
      ok (set "destination" destination (set "quarantine_id" (text id) params)))
    else if str_eq act "delete_permanently"
    then (do
      id ← validate_id (get "quarantine_id" params)
      ok (set "quarantine_id" (text id) params))
    else if str_eq act "update_enforcement_policy"
    then (do mode ← validate_mode (get "mode" params); ok (set "mode" (text mode) params))
    else ok params

-- `validate_action_params`
unfoldable pub validate_action_params : String → Fields → Result ProtocolError Fields
validate_action_params act params = do
  (required, optional) ← require (lookup act action_params) (fail_with unknown_action)
  raise_if (not (all_in required (keys_of params))) (fail_with invalid_parameters)
  raise_if (not (all_in (keys_of params) (required ++ optional))) (fail_with invalid_parameters)
  normalize act params

abbrev pub request_fields : List String
request_fields = "version" ∷ "request_id" ∷ "action" ∷ "params" ∷ []

-- `_require_plain_object`; a key is a text.
abbrev pub plain_object : Value → Result ProtocolError Fields
plain_object (dict fs) = ok fs
plain_object null = err (fail_with invalid_schema)
plain_object _ = err (fail_with invalid_schema)

abbrev pub action_text : String → Value → Result ProtocolError String
action_text id (text s) =
    if str_eq s "" then err (record { code = invalid_schema; request_id = some id }) else ok s
action_text id null = err (record { code = invalid_schema; request_id = some id })
action_text id _ = err (record { code = invalid_schema; request_id = some id })

abbrev pub is_one : ℤ → ℕ → Bool
is_one (pos m) d = m == 2 ^ d
is_one (negsuc m) d = false

-- `request["version"] != PROTOCOL_VERSION`: a Boolean and a float compare as numbers.
abbrev pub is_version : Value → Bool
is_version (int n) = beq_ℤ n (pos 1)
is_version (Value.bool b) = b
is_version (Value.float (Float.finite m d)) = is_one m d
is_version null = false
is_version _ = false

-- The identifier is put into the error of the parameters.
abbrev pub identified : {A : Type 0} → String → Result ProtocolError A → Result ProtocolError A
identified id (ok a) = ok a
identified id (err e) = err (record e { request_id = some id })

-- `validate_request_object`
unfoldable pub validate_request_object : Value → Result ProtocolError RequestMessage
validate_request_object value = do
  request ← plain_object value
  raise_if (not (all_in request_fields (keys_of request))) (fail_with invalid_schema)
  raise_if (not (all_in (keys_of request) request_fields)) (fail_with invalid_schema)
  request_id ← validate_request_id (get "request_id" request)
  raise_if (not (is_version (get "version" request)))
      (record { code = unsupported_version; request_id = some request_id })
  act ← action_text request_id (get "action" request)
  params ← plain_object (get "params" request)
  checked ← identified request_id (validate_action_params act params)
  ok (record { request_id = request_id; action = act; params = checked })
