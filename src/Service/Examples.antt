-- ===== src/Service/Examples.antt =====
-- The theorems of the service at concrete requests.
use elyra.Base.{◌≤◌, ◌≡◌, refl, String, true, false, some, starts_with}
use elyra.Base.Int.{ℤ, pos, ◌≤ℤ◌}
use elyra.Base.Dict.{lookup, text_key}
use elyra.Base.Outcome.{ok}
use elyra.Base.Value.{Value, int, text, dict, Fields, field, end, get, has, set}
use elyra.Fanotify.Policy.{parts_of, named_parts, split_slash}
use elyra.Service.Protocol.{
  RequestMessage, validate_action_params, normalize, validate_limit, validate_path, require_string,
  characters, has_nul, max_path_characters,
}
use elyra.Service.Authorization.{
  Requester, Paths, found, authorize_manual_scan_path, check_target, check_requester, is_beneath,
  is_prefix, allowed_manual_scan_roots,
}
use elyra.Service.Accepted.{MayScan, authorize_manual_scan_path-MayScan, limit-valid, path-valid}

abbrev user : Requester
user = record {
  uid = pos 1000;
  uid_text = "1000";
  username = "user";
  home_directory = some "/home/user";
  in_admin_group = false;
}

abbrev paths : Paths
paths = record {
  lstat =
      λ path. found (record { is_link = false; is_regular = true; size = pos 10; uid = pos 1000 });
  resolve_strict = λ path. some path;
  resolve = λ path. path;
}

scan_home : authorize_manual_scan_path paths user "/home/user/a" (pos 100) ≡ ok "/home/user/a"
unfolding authorize_manual_scan_path check_target check_requester is_beneath is_prefix
    allowed_manual_scan_roots parts_of named_parts split_slash
scan_home = refl

authorize_manual_scan_path-MayScan_example :
    MayScan paths user "/home/user/a" (pos 100) "/home/user/a"
authorize_manual_scan_path-MayScan_example =
    authorize_manual_scan_path-MayScan paths user "/home/user/a" (pos 100) "/home/user/a" scan_home

abbrev request : Value
request = dict (
    field "version" (int (pos 1)) (
      field "request_id" (text "r-1") (
        field "action" (text "update_enforcement_policy")
          (field "params" (dict (field "mode" (text "ENFORCEMENT") end)) end))))

abbrev message : RequestMessage
message = record {
  request_id = "r-1";
  action = "update_enforcement_policy";
  params = field "mode" (text "ENFORCEMENT") end;
}

default_limit : validate_action_params "list_events" end ≡ ok (field "limit" (int (pos 50)) end)
unfolding validate_action_params normalize validate_limit lookup get has set
default_limit = refl

limit-valid_example :
    (n : ℤ) × (get "limit" (field "limit" (int (pos 50)) end) ≡ int n)
    × (pos 1 ≤ℤ n)
    × (n ≤ℤ pos 200)
limit-valid_example =
    limit-valid "list_events" end (field "limit" (int (pos 50)) end) refl default_limit

abbrev scan_params : Fields
scan_params = field "path" (text "/tmp/a") end

scan_valid : validate_action_params "scan_file" scan_params ≡ ok scan_params
unfolding validate_action_params normalize validate_path require_string characters has_nul lookup
    get has set
scan_valid = refl

path-valid_example :
    (path : String) × (get "path" scan_params ≡ text path)
    × (starts_with path "/" ≡ true)
    × (characters path ≤ max_path_characters)
path-valid_example = path-valid scan_params scan_params scan_valid
