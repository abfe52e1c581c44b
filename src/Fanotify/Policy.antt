-- ===== src/Fanotify/Policy.antt =====
-- elyra-engine/src/elyra/monitor/fanotify/policy.py. `os.path.normpath(os.path.abspath(…))` depends on
-- the working directory and is a parameter; `os.path.commonpath` is written out for POSIX paths.
-- Times are integers, in microseconds.
use Prim.Native.Char.{code}
use Prim.Native.String.{◌++◌ as join}
use elyra.Base.{
  ◌==◌, String, Bool, true, false, ◌||◌, Option, none, some, List, [], ◌∷◌, contains, any, map,
  str_eq, if◌then◌else◌,
}
use elyra.Base.Int.{ℤ, pos, leb_ℤ}
use elyra.Base.Outcome.{Result, ok, err, ◌>>=◌, ◌>>◌, raise_if}
use elyra.Base.Value.{Builtins}

pub data Mode : Type 0 where
  monitor_only enforcement : Mode

pub data FailPolicy : Type 0 where
  fail_open fail_closed : FailPolicy

pub data ConfigError : Type 0 where
  unsupported_mode unsupported_fail_policy : String → ConfigError
  response_seconds_not_positive file_bytes_not_positive limits_not_positive : ConfigError

-- The arguments of `FanotifyPolicy(…)`.
pub record RawPolicy : Type 0 where
  pub mode : String
  pub default_fail_policy : String
  pub monitored_paths : List String
  pub excluded_paths : List String
  pub fail_closed_paths : List String
  pub max_response_time : ℤ
  pub max_preexec_file_bytes : ℤ
  pub max_pending_events : ℤ
  pub event_workers : ℤ
  pub exclude_daemon_descendants : Bool

pub record FanotifyPolicy : Type 0 where
  pub mode : Mode
  pub default_fail_policy : FailPolicy
  pub monitored_paths : List String
  pub excluded_paths : List String
  pub fail_closed_paths : List String
  pub max_response_time : ℤ
  pub max_preexec_file_bytes : ℤ
  pub max_pending_events : ℤ
  pub event_workers : ℤ
  pub exclude_daemon_descendants : Bool

-- `self.mode not in VALID_MODES`
unfoldable pub mode_of : String → Result ConfigError Mode
mode_of s =
    if str_eq s "MONITOR_ONLY"
    then ok monitor_only
    else if str_eq s "ENFORCEMENT"
    then ok enforcement
    else err (unsupported_mode s)

unfoldable pub fail_policy_of : String → Result ConfigError FailPolicy
fail_policy_of s =
    if str_eq s "FAIL_OPEN"
    then ok fail_open
    else if str_eq s "FAIL_CLOSED"
    then ok fail_closed
    else err (unsupported_fail_policy s)

-- `list(dict.fromkeys(xs))`: the first of each.
unfoldable pub distinct_from : List String → List String → List String
distinct_from seen [] = []
distinct_from seen (x ∷ xs) =
    let rest = distinct_from (x ∷ seen) xs in
    if contains seen x then distinct_from seen xs else x ∷ rest

unfoldable pub normalise_many : (String → String) → List String → List String
normalise_many normalise xs = distinct_from [] (map normalise xs)

-- `__post_init__`
unfoldable pub post_init :
    Builtins → (String → String) → RawPolicy → Result ConfigError FanotifyPolicy
post_init lib normalise p = do
  let mode_text = lib.upper p.mode
  let fail_text = lib.upper p.default_fail_policy
  mode ← mode_of mode_text
  fail_policy ← fail_policy_of fail_text
  raise_if (leb_ℤ p.max_response_time (pos 0)) response_seconds_not_positive
  raise_if (leb_ℤ p.max_preexec_file_bytes (pos 0)) file_bytes_not_positive
  raise_if (leb_ℤ p.max_pending_events (pos 0) || leb_ℤ p.event_workers (pos 0)) limits_not_positive
  ok (record {
    mode = mode;
    default_fail_policy = fail_policy;
    monitored_paths = normalise_many normalise p.monitored_paths;
    excluded_paths = normalise_many normalise p.excluded_paths;
    fail_closed_paths = normalise_many normalise p.fail_closed_paths;
    max_response_time = p.max_response_time;
    max_preexec_file_bytes = p.max_preexec_file_bytes;
    max_pending_events = p.max_pending_events;
    event_workers = p.event_workers;
    exclude_daemon_descendants = p.exclude_daemon_descendants;
  })

-- `path.split("/")`, with the part that is being read.
unfoldable pub split_slash : String → String × List String
split_slash String.[] = (String.[], [])
split_slash (String.◌∷◌ c s) =
    let (part, rest) = split_slash s in
    if code c == b'/' then (String.[], part ∷ rest) else (String.◌∷◌ c part, rest)

-- The parts that are neither empty nor a dot.
unfoldable pub named_parts : List String → List String
named_parts [] = []
named_parts (x ∷ xs) =
    let rest = named_parts xs in if str_eq x "" || str_eq x "." then rest else x ∷ rest

unfoldable pub parts_of : String → List String
parts_of s = let (part, rest) = split_slash s in named_parts (part ∷ rest)

unfoldable pub common_parts : List String → List String → List String
common_parts [] ys = []
common_parts (x ∷ xs) [] = []
common_parts (x ∷ xs) (y ∷ ys) =
    let rest = common_parts xs ys in if str_eq x y then x ∷ rest else []

abbrev pub is_absolute : String → Bool
is_absolute String.[] = false
is_absolute (String.◌∷◌ c s) = code c == b'/'

-- `"/".join(parts)`
unfoldable pub join_slash : List String → String
join_slash [] = ""
join_slash (x ∷ []) = x
join_slash (x ∷ y ∷ xs) = join x (join "/" (join_slash (y ∷ xs)))

-- `os.path.commonpath((a, b))`; none is the `ValueError` on one absolute and one relative path.
unfoldable pub commonpath : String → String → Option String
commonpath a b =
    let common = join_slash (common_parts (parts_of a) (parts_of b)) in
    if is_absolute a
    then (if is_absolute b then some (join "/" common) else none)
    else if is_absolute b
    then none
    else some common

-- `_contains`
unfoldable pub path_contains : String → String → Bool
path_contains parent child = elim (commonpath parent child) [
  | none ↦ false
  | some common ↦ str_eq common parent
]

-- `any(_contains(path, candidate) for path in paths)`
abbrev pub any_contains : List String → String → Bool
any_contains paths candidate = any (λ p. path_contains p candidate) paths

-- `if not filepath: return …` before a test on the normalised path.
abbrev pub on_path : {A : Type 0} → (String → String) → Option String → A → (String → A) → A
on_path normalise none d f = d
on_path normalise (some path) d f = if str_eq path "" then d else f (normalise path)

module _ (normalise : String → String) (p : FanotifyPolicy) where
  unfoldable pub should_monitor : Option String → Bool
  should_monitor path = on_path normalise path false (λ candidate.
      if any_contains p.excluded_paths candidate
      then false
      else any_contains p.monitored_paths candidate)

  unfoldable pub is_excluded_path : Option String → Bool
  is_excluded_path path = on_path normalise path false (any_contains p.excluded_paths)

  unfoldable pub get_fail_policy : Option String → FailPolicy
  get_fail_policy path = on_path normalise path p.default_fail_policy (λ candidate.
      if any_contains p.fail_closed_paths candidate then fail_closed else p.default_fail_policy)

abbrev pub is_enforcement_active : FanotifyPolicy → Bool
is_enforcement_active p = elim p.mode [ monitor_only ↦ false | enforcement ↦ true ]

pub data FinalAction : Type 0 where
  allow deny : FinalAction

unfoldable pub get_final_action : Builtins → FanotifyPolicy → String → FinalAction
get_final_action lib p decision = elim p.mode [
  | monitor_only ↦ allow
  | enforcement ↦ if str_eq (lib.upper decision) "DENY" then deny else allow
]

-- `set_mode`
unfoldable pub set_mode : Builtins → String → FanotifyPolicy → Result ConfigError FanotifyPolicy
set_mode lib s p = do mode ← mode_of (lib.upper s); ok (record p { mode = mode })
