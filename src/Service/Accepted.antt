-- ===== src/Service/Accepted.antt =====
-- What holds of the requests that the service accepts.
use elyra.Base.{
  ◌≤◌, ◌≡◌, refl, String, true, false, ◌||◌, starts_with, some, any, arith, ◌⊎◌, inl, inr, str_eq,
}
use elyra.Base.Int.{ℤ, pos, ◌≤ℤ◌}
use elyra.Base.Dict.{text_key, beq_ℤ}
use elyra.Base.Outcome.{Result, ok, err}
use elyra.Base.Value.{Value, null, bool, int, float, text, list, dict, Fields, get, set, get-set}
use elyra.Service.Protocol.{
  validate_action_params, normalize, validate_limit, characters, get_default, max_path_characters,
  validate_path, require_string,
}
use elyra.Service.Authorization.{
  Requester, is_privileged, Paths, Metadata, Lstat, missing, failed, found,
  authorize_manual_scan_path, check_target, check_requester, is_beneath, allowed_manual_scan_roots,
}
use elyra.Fanotify.Policy.{is_absolute}

Lstat-cases : (l : Lstat) → (l ≡ missing) ⊎ (l ≡ failed) ⊎ ((m : Metadata) × (l ≡ found m))
Lstat-cases missing = inl refl
Lstat-cases failed = inr (inl refl)
Lstat-cases (found m) = inr (inr (m, refl))

-- Why a path may be scanned.
pub record MayScan (fs : Paths) (r : Requester) (path : String) (limit : ℤ) (resolved : String)
    : Type 0 where
  pub metadata : Metadata
  pub absolute : is_absolute path ≡ true
  pub inspected : fs.lstat path ≡ found metadata
  pub no_link : metadata.is_link ≡ false
  pub regular : metadata.is_regular ≡ true
  pub small : metadata.size ≤ℤ limit
  pub resolves : fs.resolve_strict path ≡ some resolved
  pub allowed :
      (is_privileged r ≡ true)
      ⊎ ((beq_ℤ metadata.uid r.uid ≡ true)
          × (any (is_beneath resolved) (allowed_manual_scan_roots fs r) ≡ true))

-- A path that is accepted for a manual scan is absolute and names a regular file, no link, within the
-- size limit. The requester is privileged, or owns the file and its resolved path lies beneath one of
-- the requester's roots.
pub authorize_manual_scan_path-MayScan :
    (fs : Paths) (r : Requester) (path : String) (limit : ℤ) (resolved : String)
    → authorize_manual_scan_path fs r path limit ≡ ok resolved
    → MayScan fs r path limit resolved
unfolding authorize_manual_scan_path check_target check_requester
authorize_manual_scan_path-MayScan fs r path limit resolved h = elim (Lstat-cases (fs.lstat path)) [
  | inl gone ↦ ground (arith, gone)
  | inr (inl unread) ↦ ground (arith, unread)
  | inr (inr (m, at)) ↦ record {
    metadata = m;
    absolute = ground arith;
    inspected = at;
    no_link = ground (arith, at);
    regular = ground (arith, at);
    small = ground (arith, at);
    resolves = ground (arith, at);
    allowed = ground (arith, at);
  }
]

validate_limit_range :
    (v w : Value) → validate_limit v ≡ ok w → (n : ℤ) × (w ≡ int n) × (pos 1 ≤ℤ n) × (n ≤ℤ pos 200)
unfolding validate_limit
validate_limit_range (int n) w h = (n, ground arith, ground arith, ground arith)
validate_limit_range null w h = cc
validate_limit_range (bool b) w h = cc
validate_limit_range (float f) w h = cc
validate_limit_range (text s) w h = cc
validate_limit_range (list vs) w h = cc
validate_limit_range (dict fs) w h = cc

Result-cases : {E A : Type 0} (r : Result E A) → ((a : A) × (r ≡ ok a)) ⊎ ((e : E) × (r ≡ err e))
Result-cases (ok a) = inl (a, refl)
Result-cases (err e) = inr (e, refl)

-- A valid request for events or states carries a limit from 1 to 200, whatever limit it came with.
pub limit-valid :
    (act : String) (params checked : Fields)
    → str_eq act "list_events" || str_eq act "list_runtime_states" ≡ true
    → validate_action_params act params ≡ ok checked
    → (n : ℤ) × (get "limit" checked ≡ int n) × (pos 1 ≤ℤ n) × (n ≤ℤ pos 200)
unfolding validate_action_params normalize
limit-valid act params checked listed h =
    elim (Result-cases (validate_limit (get_default "limit" params (int (pos 50))))) [
      | inr (e, at) ↦ ground (arith, at)
      | inl (w, at) ↦
          let (n, same, low, high) = validate_limit_range _ w at in
          let written : checked ≡ set "limit" w params = ground (arith, at) in
          (n, rw (written, get-set) same, low, high)
    ]

validate_path_form :
    (v : Value) (path : String)
    → validate_path v ≡ ok path
    → (starts_with path "/" ≡ true) × (characters path ≤ max_path_characters)
unfolding validate_path require_string
validate_path_form (text s) path h = (ground arith, ground arith)
validate_path_form null path h = cc
validate_path_form (bool b) path h = cc
validate_path_form (int n) path h = cc
validate_path_form (float f) path h = cc
validate_path_form (list vs) path h = cc
validate_path_form (dict fs) path h = cc

-- A valid scan request carries a path that begins with a slash and has at most 4096 characters.
pub path-valid :
    (params checked : Fields)
    → validate_action_params "scan_file" params ≡ ok checked
    → (path : String) × (get "path" checked ≡ text path)
      × (starts_with path "/" ≡ true)
      × (characters path ≤ max_path_characters)
unfolding validate_action_params normalize
path-valid params checked h = elim (Result-cases (validate_path (get "path" params))) [
  | inr (e, at) ↦ ground (arith, at)
  | inl (path, at) ↦
      let form = validate_path_form _ path at in
      let written : checked ≡ set "path" (text path) params = ground (arith, at) in
      (path, rw (written, get-set) refl, form.0, form.1)
]
