-- ===== src/Quarantine/Examples.antt =====
-- The quarantine's theorems at a concrete file and failing calls.
use elyra.Base.Exec.{pure, lift, gets, modify, ◌>>=◌}
use elyra.Base.Dict.{insert, erase}
use elyra.Base.Text.{is_blank}
use elyra.Base.{eq_iff, arith, ◌≡◌, refl, ℕ, true, false, none, some, [], ◌∷◌, leb, if◌then◌else◌}
use elyra.Base.Int.{pos}
use elyra.Base.Dict.{lookup}
use elyra.Base.Outcome.{Result, ok, err}
use elyra.Base.Value.{end, nil}
use elyra.Audit.Disk.{write_all}
use elyra.Quarantine.Files.{
  Fault, replace, unlink_missing_ok, FilePath, path_key, Node, Stat, regular, System, World,
  healthy, rollback_incomplete, attempt, call, stat, unlink, link, create, write,
}
use elyra.Quarantine.Moves.{
  fsync_directory, write_metadata_atomic, open_regular_nofollow, hash_fd, assert_fd_unchanged,
  move_noreplace, assert_path_matches_fd, copy_fd_to_new_file,
}
use elyra.Quarantine.Files.{rename_noreplace}
use elyra.Quarantine.Record.{
  validate_quarantine_id, validate_record, quarantined, metadata_path, payload_path, Library,
  QuarantineRecord, validate_expected_hash, require_nonempty_text,
}
use elyra.Quarantine.Manager.{Request, Setup, quarantine_file}
use elyra.Quarantine.Restore.{restore_file}
use elyra.Quarantine.Preserved.{IsApart}
use elyra.Quarantine.Rollback.{IsThere, failed_quarantine_keeps_file}
use elyra.Quarantine.Success.{IsStored, returned_quarantine_stores_file}
use elyra.Quarantine.Untouched.{restore_file_overwrites_nothing}

abbrev status : Stat
status = record {
  kind = regular;
  device = pos 1;
  inode = pos 7;
  size = pos 2;
  mtime = pos 3;
  ctime = pos 4;
  links = pos 1;
  mode = 420;
  uid = pos 0;
  gid = pos 0;
}

-- The first calls succeed, all later ones fail.
abbrev failing_after : ℕ → System
failing_after n = record {
  failure = λ k. if leb n k then some 5 else none;
  stat = λ k. status;
  reading = λ k. record { chunks = (1 ∷ 2 ∷ []) ∷ []; failure = none };
  writes = λ k. 9 ∷ [];
  uuid = λ k. "u";
  time = λ k. pos k;
  has_renameat2 = true;
  is_root = true;
}

abbrev stored : QuarantineRecord
stored = record {
  schema_version = pos 1;
  quarantine_id = "u";
  original_path = record { dir = "/home/a"; name = "x" };
  sha256 = "00";
  size_bytes = pos 2;
  file_type = "?";
  timestamp = pos 1;
  reason = "r";
  related_pid = none;
  process_info = end;
  triggered_rules = nil;
  original_mode = 420;
  original_uid = pos 0;
  original_gid = pos 0;
  source_device = pos 1;
  source_inode = pos 7;
  source_link_count = pos 1;
  restoration_status = quarantined;
  restored_at = none;
  restored_path = none;
  restored_mode = none;
  ownership_restored = false;
  deleted_at = none;
}

abbrev library : Library
library = record {
  canonical_uuid = λ s. some s;
  lower = λ s. s;
  strip = λ s. s;
  sha256 = λ bytes. "00";
  text_length = λ s. 64;
  is_json = λ p r. true;
  record_is_json = λ r. true;
  dumps = λ r. ok [];
  load = λ bytes. some stored;
  file_type_at = λ k p. "?";
  same_record = λ a b. false;
  expand_user = λ p. p;
}

abbrev setup : Setup
setup = record { quarantine_dir = "/q"; metadata_dir = "/m"; has_audit_log = true }

abbrev source : FilePath
source = record { dir = "/home/a"; name = "x" }

abbrev file : Node
file = record { identity = 3; content = 1 ∷ 2 ∷ [] }

abbrev disk : World
disk = record {
  files = (source, file) ∷ [];
  calls = 0;
  audit_status = healthy;
  holding_path = none;
  temporary_payload = none;
  final_payload = none;
  metadata_path = none;
}

abbrev request : Request
request = record {
  expected_sha256 = none;
  reason = "r";
  related_pid = none;
  triggered_rules = nil;
  process_info = end;
  expected_device = none;
  expected_inode = none;
  expected_size = none;
  expected_mtime = none;
  expected_ctime = none;
}

not_true : false ≡ true → ⊥
not_true e = ground arith

directories_apart : IsApart source setup
directories_apart = record {
  payloads = λ e. not_true ((eq_iff "/q" "/home/a").1 e);
  metadata = λ e. not_true ((eq_iff "/m" "/home/a").1 e);
}

file_there : lookup source disk.files ≡ some file
unfolding lookup
file_there = refl

-- The copy fails, and so does the move back.
copy_fails :
    (quarantine_file (failing_after 9) library setup source request disk).0
    ≡ err rollback_incomplete
unfolding quarantine_file validate_expected_hash require_nonempty_text is_blank payload_path
    metadata_path ◌>>=◌ pure lift gets modify lookup insert erase attempt call stat create link
    unlink write write_all open_regular_nofollow hash_fd assert_fd_unchanged move_noreplace
    rename_noreplace assert_path_matches_fd copy_fd_to_new_file
copy_fails = refl

failed_quarantine_keeps_file_example :
    IsThere
      (failing_after 9)
      library
      setup
      source
      file
      directories_apart
      (quarantine_file (failing_after 9) library setup source request disk).1
failed_quarantine_keeps_file_example =
    failed_quarantine_keeps_file (failing_after 9) library setup source file directories_apart
      request disk rollback_incomplete file_there copy_fails

-- The file that was quarantined, and another one that took its place since.
abbrev both : World
both = record disk {
  files =
      (record { dir = "/m"; name = "u.json" }, file)
      ∷ (record { dir = "/q"; name = "u" }, file)
      ∷ (source, file)
      ∷ [];
}

source_taken : lookup source both.files ≡ some file
unfolding lookup
source_taken = refl

restore_file_overwrites_nothing_example :
    lookup source
      (restore_file (failing_after 99) library setup "u" none (λ p. some p) both).1.files
    ≡ some file
restore_file_overwrites_nothing_example =
    restore_file_overwrites_nothing (failing_after 99) library setup "u" none (λ p. some p) both
      source file (λ e. not_true ((eq_iff "/home/a" "/m").1 e)) source_taken

abbrev succeeding : System
succeeding = failing_after 99

abbrev returned_or_stored : Result Fault QuarantineRecord → QuarantineRecord
returned_or_stored (ok r) = r
returned_or_stored (err e) = stored

abbrev new_record : QuarantineRecord
new_record = returned_or_stored (quarantine_file succeeding library setup source request disk).0

quarantine_returns :
    (quarantine_file succeeding library setup source request disk).0 ≡ ok new_record
unfolding quarantine_file validate_expected_hash require_nonempty_text is_blank payload_path
    metadata_path ◌>>=◌ pure lift gets modify lookup insert erase attempt call stat create link
    unlink write write_all open_regular_nofollow hash_fd assert_fd_unchanged move_noreplace
    rename_noreplace assert_path_matches_fd copy_fd_to_new_file replace write_metadata_atomic
    fsync_directory validate_record validate_quarantine_id unlink_missing_ok
quarantine_returns = refl

returned_quarantine_stores_file_example :
    IsStored succeeding library setup source new_record
      (quarantine_file succeeding library setup source request disk).1
returned_quarantine_stores_file_example =
    returned_quarantine_stores_file succeeding library setup source
      (λ e. not_true ((eq_iff "/q" "/m").1 e)) directories_apart.payloads request disk new_record
      quarantine_returns
