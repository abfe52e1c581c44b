-- ===== src/Response/Policy.antt =====
-- elyra-engine/src/elyra/response/engine.py: `ResponsePolicy`, its validation and protected paths. Times
-- are integers, in microseconds; reading the JSON file is left out.
use Prim.Native.Char.{code}
use Prim.Native.String.{◌++◌ as join}
use elyra.Base.{
  ◌==◌, String, Bool, true, false, not, ◌&&◌, ◌||◌, List, [], ◌∷◌, any, str_eq, starts_with,
  if◌then◌else◌,
}
use elyra.Base.Int.{ℤ, pos, leb_ℤ}
use elyra.Base.Dict.{beq_ℤ}
use elyra.Base.Outcome.{Result, ◌>>◌, raise_if}
use elyra.Base.Value.{Builtins}

pub data ConfigurationError : Type 0 where
  bad_policy_status timeout_not_positive pid_not_protected prefix_not_absolute : ConfigurationError

pub record ResponsePolicy : Type 0 where
  pub policy_status : String
  pub automatic_runtime_actions : Bool
  pub terminate_grace : ℤ
  pub kill_grace : ℤ
  pub escalate_to_sigkill : Bool
  pub require_pidfd : Bool
  pub protected_pids : List ℤ
  pub protected_path_prefixes : List String

abbrev pub contains_ℤ : List ℤ → ℤ → Bool
contains_ℤ [] n = false
contains_ℤ (m ∷ ms) n = beq_ℤ m n || contains_ℤ ms n

abbrev pub is_absolute : String → Bool
is_absolute String.[] = false
is_absolute (String.◌∷◌ c s) = code c == b'/'

-- `validate`
unfoldable pub validate : ResponsePolicy → Result ConfigurationError (Unit {0})
validate p = do
  raise_if (not (str_eq p.policy_status "PROVISIONAL_NOT_CALIBRATED")) bad_policy_status
  raise_if (leb_ℤ p.terminate_grace (pos 0) || leb_ℤ p.kill_grace (pos 0)) timeout_not_positive
  raise_if (not (contains_ℤ p.protected_pids (pos 0)) || not (contains_ℤ p.protected_pids (pos 1)))
      pid_not_protected
  raise_if (any (λ prefix. not (is_absolute prefix)) p.protected_path_prefixes) prefix_not_absolute

-- `with_runtime_actions`
unfoldable pub with_runtime_actions : Bool → ResponsePolicy → ResponsePolicy
with_runtime_actions enabled p = record p { automatic_runtime_actions = enabled }

abbrev pub is_slash_only : String → Bool
is_slash_only String.[] = true
is_slash_only (String.◌∷◌ c s) = code c == b'/' && is_slash_only s

-- `prefix.rstrip("/")`
unfoldable pub strip_slashes : String → String
strip_slashes String.[] = String.[]
strip_slashes (String.◌∷◌ c s) =
    let rest = strip_slashes s in
    if code c == b'/' && is_slash_only s then String.[] else String.◌∷◌ c rest

-- `_protected_path`, also written out in `terminate`.
unfoldable pub protected_path : Builtins → ResponsePolicy → String → Bool
protected_path lib p path =
    let resolved = lib.normpath path in
    any (λ prefix. str_eq resolved prefix || starts_with resolved (join (strip_slashes prefix) "/"))
      p.protected_path_prefixes
