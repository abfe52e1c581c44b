-- ===== src/Quarantine/Restore.antt =====
-- elyra-engine/src/elyra/response/quarantine_manager.py: `restore_file`, `delete_permanently` and the reading
-- of metadata. Resolving the parent of a destination is an argument: the path that it gives, or none.
use Prim.Native.String.{◌++◌ as join}
use elyra.Base.{
  get_or, ◌==◌, ◌%◌, String, Bool, true, false, not, ◌&&◌, ◌||◌, Option, none, some, is_some,
  str_eq, starts_with, if◌then◌else◌,
}
use elyra.Base.Dict.{beq_ℤ}
use elyra.Base.Int.{ℤ, pos}
use elyra.Base.Outcome.{Result, ok, err, raise_if}
use elyra.Base.Exec.{pure, lift, gets, ◌>>=◌, ◌>>◌}
use elyra.Quarantine.Files.{
  FilePath, path_key, Fault, rollback_incomplete, quarantine_error, integrity_error, conflict_error,
  metadata_error, os_error, Stat, System, World, Method, Done, attempt, raise, eexist, lexists,
  call, stat, unlink, create,
}
use elyra.Quarantine.Record.{
  RestorationStatus, restored, deleted, QuarantineRecord, Library, validate_record,
  validate_quarantine_id, payload_path, metadata_path,
}
use elyra.Quarantine.Moves.{
  is_regular, is_link, same_identity, fsync_directory, move_noreplace, open_regular_nofollow,
  assert_fd_unchanged, read_chunks, joined, hash_fd, copy_between_fds, write_metadata_atomic,
}
use elyra.Quarantine.Manager.{Setup, as_quarantine_error, audit}

abbrev pub is_deleted : RestorationStatus → Bool
is_deleted deleted = true
is_deleted s = false

module _ (sys : System) (lib : Library) (setup : Setup) where
  abbrev pub check_id : QuarantineRecord → String → Result Fault QuarantineRecord
  check_id r safe = if str_eq r.quarantine_id safe then ok r else err metadata_error

  abbrev pub loaded : Option QuarantineRecord → Result Fault QuarantineRecord
  loaded none = err metadata_error
  loaded (some r) = ok r

  -- An error of the system is reported as one of the metadata.
  abbrev pub readable : {A : Type 0} → Result Fault A → Result Fault A
  readable (ok a) = ok a
  readable (err e) = err metadata_error

  -- `_load_metadata`
  unfoldable pub load_metadata : String → Method QuarantineRecord
  load_metadata id = do
    safe ← lift (validate_quarantine_id lib id)
    path ← lift (metadata_path lib setup.metadata_dir safe)
    there ← lexists path
    lift (raise_if (not there) metadata_error)
    s ← stat sys
    lift (raise_if (is_link s.kind || not (is_regular s.kind)) metadata_error)
    read ← attempt (read_chunks sys)
    reading ← lift (readable read)
    lift (raise_if (is_some reading.failure) metadata_error)
    r ← lift (loaded (lib.load (joined reading.chunks)))
    lift (validate_record lib r)
    lift (check_id r safe)

  abbrev pub resolved : Option FilePath → Result Fault FilePath
  resolved none = err conflict_error
  resolved (some p) = ok p

  -- `_prepare_restore_target`
  unfoldable pub prepare_restore_target : FilePath → (FilePath → Option FilePath) → Method FilePath
  prepare_restore_target chosen resolve = do
    let raw = lib.expand_user chosen
    lift (raise_if (not (starts_with raw.dir "/")) conflict_error)
    taken ← lexists raw
    lift (raise_if taken conflict_error)
    target ← lift (resolved (resolve raw))
    occupied ← lexists target
    lift (raise_if occupied conflict_error)
    pure target

  abbrev pub conflict_if_taken : Result Fault (Unit {0}) → Done
  conflict_if_taken (ok a) = pure tt
  conflict_if_taken (err (os_error e)) =
      if e == eexist then raise conflict_error else raise (os_error e)
  conflict_if_taken (err e) = raise e

  -- `_restore_ownership_if_privileged`
  abbrev pub restore_ownership : Bool → Method Bool
  restore_ownership false = pure false
  restore_ownership true = do call sys; pure true

  abbrev pub restored_record : FilePath → Bool → ℤ → QuarantineRecord → QuarantineRecord
  restored_record target owned now r = record r {
    restoration_status = restored;
    restored_at = some now;
    restored_path = some target;
    restored_mode = some (r.original_mode % 512);
    ownership_restored = owned;
  }

  -- `_open_exclusive_restore_target`
  unfoldable pub open_exclusive : FilePath → Done
  open_exclusive target = do r ← attempt (create sys target); conflict_if_taken r

  -- The body of `restore_file` up to the status of the target that it created.
  unfoldable pub open_target :
      QuarantineRecord → FilePath → (FilePath → Option FilePath) → Method (FilePath × Stat)
  unfolding prepare_restore_target open_exclusive
  open_target r chosen resolve = do
    payload ← open_regular_nofollow sys
    payload_hash ← hash_fd sys lib
    assert_fd_unchanged sys payload
    lift (
        raise_if (not (str_eq payload_hash r.sha256 && beq_ℤ payload.size r.size_bytes))
          integrity_error)
    target ← prepare_restore_target chosen resolve
    open_exclusive target
    opened ← stat sys
    pure (target, opened)

  -- From there up to the change of the record.
  unfoldable pub fill_target : QuarantineRecord → FilePath → Method (Bool × Stat)
  fill_target r target = do
    copied ← copy_between_fds sys lib target
    lift (
        raise_if (not (str_eq copied.0 r.sha256 && beq_ℤ (pos copied.1) r.size_bytes))
          integrity_error)
    call sys
    owned ← restore_ownership sys.is_root
    call sys
    final ← stat sys
    pure (owned, final)

  -- The rest of the body.
  unfoldable pub save_restored : QuarantineRecord → Done
  save_restored saved = do
    write_metadata_atomic sys lib setup.metadata_dir saved
    fsync_directory sys

  abbrev pub unlink_same : Bool → FilePath → Stat → Done
  unlink_same false target identity = pure tt
  unlink_same true target identity = do
    s ← stat sys
    lift (raise_if (not (same_identity s identity)) (os_error 0))
    unlink sys target

  -- `_unlink_if_identity_matches`
  unfoldable pub unlink_if_identity_matches : FilePath → Stat → Done
  unlink_if_identity_matches target identity = do
    there ← lexists target
    unlink_same there target identity

  abbrev pub write_back : QuarantineRecord → QuarantineRecord → Done
  write_back previous r =
      if lib.same_record previous r
      then pure tt
      else write_metadata_atomic sys lib setup.metadata_dir previous

  abbrev pub failed_with :
      {A : Type 0} → Fault → Result Fault (Unit {0}) → Result Fault (Unit {0}) → Method A
  failed_with e (ok a) (ok b) = raise (as_quarantine_error e)
  failed_with e (err x) r = raise rollback_incomplete
  failed_with e (ok a) (err y) = raise rollback_incomplete

  -- The `except` clause of `restore_file`, where the target was created.
  unfoldable pub undo_restore :
      QuarantineRecord → QuarantineRecord → FilePath → Stat → Fault → Method QuarantineRecord
  unfolding unlink_if_identity_matches
  undo_restore previous r target identity e = do
    removed ← attempt (unlink_if_identity_matches target identity)
    written ← attempt (write_back previous r)
    failed_with e removed written

  abbrev pub finish_restore :
      QuarantineRecord
      → QuarantineRecord
      → FilePath
      → Stat
      → Result Fault (Unit {0})
      → Method QuarantineRecord
  finish_restore previous saved target identity (ok a) = do
    audit sys setup.has_audit_log
    pure saved
  finish_restore previous saved target identity (err e) =
      undo_restore previous saved target identity e

  abbrev pub save_filled :
      QuarantineRecord → FilePath → Stat → Result Fault (Bool × Stat) → Method QuarantineRecord
  save_filled r target opened (err e) = undo_restore r r target opened e
  save_filled r target opened (ok filled) = do
    now ← gets (λ (w : World). sys.time w.calls)
    let saved = restored_record target filled.0 now r
    done ← attempt (save_restored saved)
    finish_restore r saved target filled.1 done

  abbrev pub fill_opened :
      QuarantineRecord → Result Fault (FilePath × Stat) → Method QuarantineRecord
  fill_opened r (err e) = raise (as_quarantine_error e)
  fill_opened r (ok opened) = do
    filled ← attempt (fill_target r opened.0)
    save_filled r opened.0 opened.1 filled

  -- `restore_file`, to a destination or to the original path
  unfoldable pub restore_file :
      String → Option FilePath → (FilePath → Option FilePath) → Method QuarantineRecord
  unfolding load_metadata open_target fill_target save_restored undo_restore
  restore_file id destination resolve = do
    r ← load_metadata id
    lift (raise_if (is_deleted r.restoration_status) quarantine_error)
    payload ← lift (payload_path lib setup.quarantine_dir r.quarantine_id)
    there ← lexists payload
    lift (raise_if (not there) quarantine_error)
    opened ← attempt (open_target r (get_or destination r.original_path) resolve)
    fill_opened r opened

  abbrev pub pending_deletion : String → FilePath
  pending_deletion id = record {
    dir = setup.quarantine_dir;
    name = join "." (join id ".delete-pending");
  }

  abbrev pub deleted_record : ℤ → QuarantineRecord → QuarantineRecord
  deleted_record now r = record r { restoration_status = deleted; deleted_at = some now }

  -- The body of the `try` of `delete_permanently`.
  unfoldable pub delete_payload : QuarantineRecord → FilePath → Method QuarantineRecord
  delete_payload r pending = do
    now ← gets (λ (w : World). sys.time w.calls)
    write_metadata_atomic sys lib setup.metadata_dir (deleted_record now r)
    unlink sys pending
    fsync_directory sys
    pure (deleted_record now r)

  -- Its `except` clause.
  unfoldable pub undo_deletion : QuarantineRecord → FilePath → FilePath → Done
  undo_deletion previous pending payload = do
    held ← lexists pending
    taken ← lexists payload
    if held && not taken then move_noreplace sys pending payload else pure tt
    write_metadata_atomic sys lib setup.metadata_dir previous

  abbrev pub finish_deletion :
      QuarantineRecord → FilePath → FilePath → Result Fault QuarantineRecord → Done
  finish_deletion previous pending payload (ok r) = audit sys setup.has_audit_log
  finish_deletion previous pending payload (err e) = do
    undone ← attempt (undo_deletion previous pending payload)
    failed_with e undone (ok tt)

  abbrev pub delete_present : QuarantineRecord → Bool → Done
  delete_present r true = pure tt
  delete_present r false = do
    payload ← lift (payload_path lib setup.quarantine_dir r.quarantine_id)
    there ← lexists payload
    lift (raise_if (not there) quarantine_error)
    let pending = pending_deletion r.quarantine_id
    move_noreplace sys payload pending
    done ← attempt (delete_payload r pending)
    finish_deletion r pending payload done

  -- `delete_permanently`
  unfoldable pub delete_permanently : String → Done
  unfolding load_metadata delete_payload undo_deletion
  delete_permanently id = do
    r ← load_metadata id
    delete_present r (is_deleted r.restoration_status)
