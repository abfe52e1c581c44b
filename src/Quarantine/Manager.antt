-- ===== src/Quarantine/Manager.antt =====
-- elyra-engine/src/elyra/response/quarantine_manager.py: `quarantine_file` with its rollback and the audit.
-- The path is what `_canonical_source_path` gives.
use Prim.Native.String.{◌++◌ as join}
use elyra.Base.{String, Bool, true, false, not, ◌&&◌, Option, none, some, str_eq, if◌then◌else◌}
use elyra.Base.Dict.{beq_ℤ}
use elyra.Base.Int.{ℤ, pos}
use elyra.Base.Outcome.{Result, ok, err, raise_if}
use elyra.Base.Exec.{pure, lift, gets, modify, ◌>>=◌, ◌>>◌}
use elyra.Base.Value.{Items, Fields}
use elyra.Quarantine.Files.{
  FilePath, path_key, Fault, rollback_incomplete, quarantine_error, integrity_error, os_error,
  value_error, type_error, Stat, System, healthy, degraded, World, Method, Done, attempt, raise,
  lexists, call, stat, unlink, unlink_missing_ok,
}
use elyra.Quarantine.Record.{
  quarantined, QuarantineRecord, Library, validate_record, validate_expected_hash, validate_pid,
  require_nonempty_text, payload_path, metadata_path,
}
use elyra.Quarantine.Moves.{
  fsync_directory, move_noreplace, open_regular_nofollow, assert_fd_unchanged,
  assert_path_matches_fd, hash_fd, copy_fd_to_new_file, write_metadata_atomic,
}

-- The arguments of `quarantine_file` beside the path.
pub record Request : Type 0 where
  pub expected_sha256 : Option String
  pub reason : String
  pub related_pid : Option ℤ
  pub triggered_rules : Items
  pub process_info : Fields
  pub expected_device : Option ℤ
  pub expected_inode : Option ℤ
  pub expected_size : Option ℤ
  pub expected_mtime : Option ℤ
  pub expected_ctime : Option ℤ

-- The arguments of the constructor.
pub record Setup : Type 0 where
  pub quarantine_dir : String
  pub metadata_dir : String
  pub has_audit_log : Bool

abbrev pub differs : Option ℤ → ℤ → Bool
differs none n = false
differs (some m) n = not (beq_ℤ m n)

-- The tests of `quarantine_file` on the status of the file that it opened.
unfoldable pub check_identity : Option ℤ → Option ℤ → Stat → Result Fault (Unit {0})
check_identity none none s = ok tt
check_identity (some d) none s = err quarantine_error
check_identity none (some i) s = err quarantine_error
check_identity (some d) (some i) s =
    raise_if (not (beq_ℤ s.device d && beq_ℤ s.inode i)) integrity_error

abbrev pub hash_differs : (String → String) → Option String → String → Bool
hash_differs lower none h = false
hash_differs lower (some e) h = if str_eq e "" then false else not (str_eq h (lower e))

-- Whether the exception is of the family of `QuarantineError`, or which one takes its place.
abbrev pub as_quarantine_error : Fault → Fault
as_quarantine_error (os_error e) = quarantine_error
as_quarantine_error value_error = quarantine_error
as_quarantine_error type_error = quarantine_error
as_quarantine_error e = e

abbrev pub pending_path : FilePath → String → FilePath
pending_path source id = record source { name = join ".elyra-" (join id ".pending") }

abbrev pub temporary_path : String → String → String → FilePath
temporary_path quarantine_dir id unique = record {
  dir = quarantine_dir;
  name = join "." (join id (join "." (join unique ".tmp")));
}

module _ (sys : System) where
  unfoldable pub check_source : Request → Stat → Done
  unfolding check_identity
  check_source q s = do
    lift (check_identity q.expected_device q.expected_inode s)
    lift (raise_if (differs q.expected_size s.size) integrity_error)
    lift (raise_if (differs q.expected_mtime s.mtime) integrity_error)
    lift (raise_if (differs q.expected_ctime s.ctime) integrity_error)
    lift (raise_if (not (beq_ℤ s.links (pos 1))) quarantine_error)

  abbrev pub unlink_some : Option FilePath → Done
  unlink_some none = pure tt
  unlink_some (some p) = unlink_missing_ok sys p

  -- The removal of what a failed quarantine leaves.
  unfoldable pub remove_artifacts : Done
  remove_artifacts = do
    temporary ← gets World.temporary_payload
    unlink_some temporary
    metadata ← gets World.metadata_path
    unlink_some metadata
    final ← gets World.final_payload
    unlink_some final
    fsync_directory sys
    fsync_directory sys

  abbrev pub move_back : FilePath → FilePath → Bool → Method Bool
  move_back source holding true = pure false
  move_back source holding false = do
    move_noreplace sys holding source
    fsync_directory sys
    pure true

  abbrev pub return_held : FilePath → FilePath → Bool → Method Bool
  return_held source holding false = pure true
  return_held source holding true = do occupied ← lexists source; move_back source holding occupied

  abbrev pub return_holding : FilePath → Option FilePath → Method Bool
  return_holding source none = pure true
  return_holding source (some holding) = do
    there ← lexists holding
    return_held source holding there

  abbrev pub clean_up : Bool → Method Bool
  clean_up false = pure false
  clean_up true = do remove_artifacts; pure true

  -- The body of the `try` of the rollback.
  abbrev pub undo : FilePath → Option FilePath → Method Bool
  undo source holding = do returned ← return_holding source holding; clean_up returned

  abbrev pub os_error_fails : Result Fault Bool → Method Bool
  os_error_fails (ok b) = pure b
  os_error_fails (err (os_error e)) = pure false
  os_error_fails (err e) = raise e

  -- `_rollback_quarantine`: whether it is complete.
  unfoldable pub rollback_quarantine : FilePath → Method Bool
  unfolding remove_artifacts
  rollback_quarantine source = do
    holding ← gets World.holding_path
    r ← attempt (undo source holding)
    os_error_fails r

  abbrev pub set_audit_status : Result Fault (Unit {0}) → World → World
  set_audit_status (ok a) w = record w { audit_status = healthy }
  set_audit_status (err e) w = record w { audit_status = degraded }

  -- `_audit`
  unfoldable pub audit : Bool → Done
  audit false = pure tt
  audit true = do r ← attempt (call sys); modify (set_audit_status r)

  module _ (lib : Library) (setup : Setup) (source : FilePath) where
    -- The tests after the protected move.
    abbrev pub hold_checks : Stat → Method Stat
    hold_checks opened = do
      assert_path_matches_fd sys opened
      held ← stat sys
      lift (
          raise_if (not (beq_ℤ held.size opened.size && beq_ℤ held.mtime opened.mtime))
            integrity_error)
      pure held

    -- The protected move of a file that was opened and hashed.
    unfoldable pub hold : Stat → String → Method Stat
    hold opened id = do
      modify (λ (w : World). record w { holding_path = some (pending_path source id) })
      move_noreplace sys source (pending_path source id)
      hold_checks opened

    abbrev pub fill_payload : Stat → String → Stat → FilePath → FilePath → Method FilePath
    fill_payload opened source_hash held temporary final = do
      copied ← copy_fd_to_new_file sys lib temporary
      lift (
          raise_if (not (str_eq copied.0 source_hash && beq_ℤ (pos copied.1) opened.size))
            integrity_error)
      assert_fd_unchanged sys held
      move_noreplace sys temporary final
      modify (λ (w : World). record w { temporary_payload = none })
      call sys
      fsync_directory sys
      pure final

    -- The payload of a file that is held.
    unfoldable pub store_payload : Stat → String → String → Stat → Method FilePath
    store_payload opened source_hash id held = do
      final ← lift (payload_path lib setup.quarantine_dir id)
      modify (λ (w : World). record w { final_payload = some final })
      unique ← gets (λ (w : World). sys.uuid w.calls)
      let temporary = temporary_path setup.quarantine_dir id unique
      modify (λ (w : World). record w { temporary_payload = some temporary })
      fill_payload opened source_hash held temporary final

    abbrev pub record_of :
        Request → Stat → String → String → Option ℤ → String → ℤ → QuarantineRecord
    record_of q opened source_hash id pid file_type now = record {
      schema_version = pos 1;
      quarantine_id = id;
      original_path = source;
      sha256 = source_hash;
      size_bytes = opened.size;
      file_type = file_type;
      timestamp = now;
      reason = lib.strip q.reason;
      related_pid = pid;
      process_info = q.process_info;
      triggered_rules = q.triggered_rules;
      original_mode = opened.mode;
      original_uid = opened.uid;
      original_gid = opened.gid;
      source_device = opened.device;
      source_inode = opened.inode;
      source_link_count = opened.links;
      restoration_status = quarantined;
      restored_at = none;
      restored_path = none;
      restored_mode = none;
      ownership_restored = false;
      deleted_at = none;
    }

    -- The metadata of a payload that is in place.
    unfoldable pub save_record : QuarantineRecord → Done
    save_record r = do
      lift (validate_record lib r)
      path ← lift (metadata_path lib setup.metadata_dir r.quarantine_id)
      modify (λ (w : World). record w { metadata_path = some path })
      write_metadata_atomic sys lib setup.metadata_dir r

    -- The record of a payload that is in place.
    abbrev pub record_payload :
        Request → Option ℤ → Stat → String → String → FilePath → Method (QuarantineRecord × String)
    record_payload q pid opened source_hash id final = do
      file_type ← gets (λ (w : World). lib.file_type_at w.calls final)
      now ← gets (λ (w : World). sys.time w.calls)
      let r = record_of q opened source_hash id pid file_type now
      save_record r
      pure (r, id)

    -- From the protected move on.
    abbrev pub secure_held :
        Request → Option ℤ → Stat → String → String → Method (QuarantineRecord × String)
    secure_held q pid opened source_hash id = do
      held ← hold opened id
      final ← store_payload opened source_hash id held
      record_payload q pid opened source_hash id final

    -- The body of `quarantine_file` up to the removal of the file that is held.
    unfoldable pub secure : Request → Option ℤ → Method (QuarantineRecord × String)
    unfolding check_source hold store_payload save_record
    secure q pid = do
      opened ← open_regular_nofollow sys
      check_source q opened
      source_hash ← hash_fd sys lib
      assert_fd_unchanged sys opened
      lift (raise_if (hash_differs lib.lower q.expected_sha256 source_hash) integrity_error)
      id ← gets (λ (w : World). sys.uuid w.calls)
      secure_held q pid opened source_hash id

    abbrev pub forget_holding : QuarantineRecord → Method QuarantineRecord
    forget_holding r = do
      modify (λ (w : World). record w { holding_path = none })
      synced ← attempt (fsync_directory sys)
      pure r

    -- The removal of the file that is held, after which nothing is raised.
    unfoldable pub release : QuarantineRecord × String → Method QuarantineRecord
    release (r, id) = do unlink sys (pending_path source id); forget_holding r

    abbrev pub body : Request → Option ℤ → Method QuarantineRecord
    body q pid = do secured ← secure q pid; release secured

    abbrev pub fail_with : Fault → Bool → Method QuarantineRecord
    fail_with e false = raise rollback_incomplete
    fail_with e true = raise (as_quarantine_error e)

    abbrev pub finish : Result Fault QuarantineRecord → Method QuarantineRecord
    finish (ok r) = do audit setup.has_audit_log; pure r
    finish (err e) = do complete ← rollback_quarantine source; fail_with e complete

    abbrev pub no_locals : World → World
    no_locals w = record w {
      holding_path = none;
      temporary_payload = none;
      final_payload = none;
      metadata_path = none;
    }

    abbrev pub run : Request → Option ℤ → Method QuarantineRecord
    run q pid = do modify no_locals; r ← attempt (body q pid); finish r

    -- `quarantine_file`
    unfoldable pub quarantine_file : Request → Method QuarantineRecord
    unfolding secure release rollback_quarantine audit
    quarantine_file q = do
      lift (validate_expected_hash lib q.expected_sha256)
      reason ← lift (require_nonempty_text lib q.reason)
      lift (raise_if (not (lib.is_json q.process_info q.triggered_rules)) quarantine_error)
      pid ← lift (validate_pid lib q.related_pid)
      run q pid
