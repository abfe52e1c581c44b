-- ===== src/Service/Authorization.antt =====
-- elyra-engine/src/elyra/service/authorization.py. What the user and group databases and the file system
-- answer is a parameter.
use elyra.Base.{
  String, Bool, true, false, not, ◌&&◌, ◌||◌, Option, none, some, List, [], ◌∷◌, any, map, str_eq,
  if◌then◌else◌,
}
use Prim.Native.String.{◌++◌ as join}
use elyra.Base.Int.{ℤ, pos, ltb_ℤ}
use elyra.Base.Dict.{Dict, lookup, text_key, beq_ℤ}
use elyra.Base.Outcome.{Result, ok, err, ◌>>=◌, ◌>>◌, raise_if, require}
use elyra.Fanotify.Policy.{parts_of, is_absolute}

pub data ActionLevel : Type 0 where
  read_only standard sensitive : ActionLevel

-- `ACTION_LEVELS`
abbrev pub action_levels : Dict String ActionLevel
action_levels =
    ("get_status", read_only)
    ∷ ("list_events", read_only)
    ∷ ("list_runtime_states", read_only)
    ∷ ("list_quarantine", read_only)
    ∷ ("get_policy", read_only)
    ∷ ("scan_file", standard)
    ∷ ("restore_file", sensitive)
    ∷ ("delete_permanently", sensitive)
    ∷ ("update_enforcement_policy", sensitive)
    ∷ []

-- `AuthorizationError` and `ScanTargetError`, by what the message says, and an `OSError` of the final
-- path resolution.
pub data AuthError : Type 0 where
  unknown_action requires_admin not_absolute does_not_exist cannot_inspect : AuthError
  symbolic_link not_regular too_large not_owner outside_roots os_error : AuthError

pub record Requester : Type 0 where
  pub uid : ℤ
  pub uid_text : String
  pub username : String
  pub home_directory : Option String
  pub in_admin_group : Bool

abbrev pub is_root : Requester → Bool
is_root r = beq_ℤ r.uid (pos 0)

abbrev pub is_privileged : Requester → Bool
is_privileged r = is_root r || r.in_admin_group

-- `action_level`
unfoldable pub action_level : String → Result AuthError ActionLevel
action_level act = require (lookup act action_levels) unknown_action

unfoldable pub authorize : Requester → String → Result AuthError (Unit {0})
authorize r act = do
  level ← action_level act
  elim level [ sensitive ↦ if is_privileged r then ok tt else err requires_admin | _ ↦ ok tt ]

pub record Metadata : Type 0 where
  pub is_link : Bool
  pub is_regular : Bool
  pub size : ℤ
  pub uid : ℤ

pub data Lstat : Type 0 where
  missing failed : Lstat
  found : Metadata → Lstat

-- What the file system answers of a path: `lstat`, `resolve(strict=True)` (none is an `OSError`), and
-- `resolve(strict=False)`.
pub record Paths : Type 0 where
  pub lstat : String → Lstat
  pub resolve_strict : String → Option String
  pub resolve : String → String

unfoldable pub is_prefix : List String → List String → Bool
is_prefix [] ys = true
is_prefix (x ∷ xs) [] = false
is_prefix (x ∷ xs) (y ∷ ys) = let rest = is_prefix xs ys in str_eq x y && rest

-- `_is_beneath`, of absolute paths
unfoldable pub is_beneath : String → String → Bool
is_beneath path root = is_prefix (parts_of root) (parts_of path)

abbrev pub home_roots : Requester → List String
home_roots r = elim r.home_directory [
  | none ↦ []
  | some home ↦ home ∷ join "/media/" r.username ∷ join "/run/media/" r.username ∷ []
]

-- `allowed_manual_scan_roots`
unfoldable pub allowed_manual_scan_roots : Paths → Requester → List String
allowed_manual_scan_roots fs r =
    map fs.resolve ("/tmp" ∷ "/var/tmp" ∷ join "/run/user/" r.uid_text ∷ home_roots r)

abbrev pub metadata_of : Lstat → Result AuthError Metadata
metadata_of missing = err does_not_exist
metadata_of failed = err cannot_inspect
metadata_of (found m) = ok m

-- The tests on the file itself.
unfoldable pub check_target : ℤ → Metadata → Result AuthError (Unit {0})
check_target maximum_size m = do
  raise_if m.is_link symbolic_link
  raise_if (not m.is_regular) not_regular
  raise_if (ltb_ℤ maximum_size m.size) too_large

-- The tests on a requester without privileges.
unfoldable pub check_requester : Paths → Requester → Metadata → String → Result AuthError (Unit {0})
check_requester fs r m resolved = do
  raise_if (not (beq_ℤ m.uid r.uid)) not_owner
  raise_if (not (any (is_beneath resolved) (allowed_manual_scan_roots fs r))) outside_roots

-- `authorize_manual_scan_path`
unfoldable pub authorize_manual_scan_path : Paths → Requester → String → ℤ → Result AuthError String
authorize_manual_scan_path fs r path maximum_size = do
  raise_if (not (is_absolute path)) not_absolute
  m ← metadata_of (fs.lstat path)
  check_target maximum_size m
  resolved ← require (fs.resolve_strict path) os_error
  if is_privileged r then ok resolved else (check_requester fs r m resolved >> ok resolved)
