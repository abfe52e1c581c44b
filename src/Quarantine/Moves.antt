-- ===== src/Quarantine/Moves.antt =====
-- elyra-engine/src/elyra/response/quarantine_manager.py: moving, hashing and copying files and writing
-- metadata.
use Prim.Native.String.{◌++◌ as join}
use elyra.Base.{
  ℕ, String, Bool, true, false, not, ◌&&◌, ◌||◌, List, [], ◌∷◌, ◌++◌, ◌==◌, if◌then◌else◌, length,
}
use elyra.Base.Dict.{beq_ℤ}
use elyra.Base.Outcome.{Result, ok, err, raise_if}
use elyra.Base.Exec.{pure, lift, gets, ◌>>=◌, ◌>>◌}
use elyra.Audit.Bytes.{Bytes}
use elyra.Quarantine.Files.{
  FilePath, path_key, Fault, quarantine_error, integrity_error, conflict_error, metadata_error,
  os_error, Kind, regular, symbolic_link, Stat, Reading, System, World, Method, Done, attempt,
  raise, einval, erofs, enosys, lexists, call, stat, unlink, unlink_missing_ok, create, link,
  rename_noreplace, replace, write, os_fails,
}
use elyra.Quarantine.Record.{QuarantineRecord, Library, validate_record, metadata_path}

abbrev pub is_regular : Kind → Bool
is_regular regular = true
is_regular k = false

abbrev pub is_link : Kind → Bool
is_link symbolic_link = true
is_link k = false

abbrev pub same_identity : Stat → Stat → Bool
same_identity a b = beq_ℤ a.device b.device && beq_ℤ a.inode b.inode

abbrev pub unchanged : Stat → Stat → Bool
unchanged a b =
    same_identity a b && beq_ℤ a.size b.size && beq_ℤ a.mtime b.mtime && beq_ℤ a.ctime b.ctime

-- The errors of `fsync` that `_fsync_directory` leaves aside.
abbrev pub unless_unsupported : Result Fault (Unit {0}) → Done
unless_unsupported (ok a) = pure tt
unless_unsupported (err (os_error e)) =
    if e == einval || e == erofs then pure tt else raise (os_error e)
unless_unsupported (err e) = raise e

abbrev pub joined : List Bytes → Bytes
joined [] = []
joined (c ∷ cs) = c ++ joined cs

module _ (sys : System) where
  abbrev pub fsync_opened : Result Fault (Unit {0}) → Done
  fsync_opened (err e) = pure tt
  fsync_opened (ok a) = do r ← attempt (call sys); unless_unsupported r

  -- `_fsync_directory`, without the descriptor, which it closes
  unfoldable pub fsync_directory : Done
  fsync_directory = do opened ← attempt (call sys); fsync_opened opened

  abbrev pub undo_link : FilePath → Result Fault (Unit {0}) → Done
  undo_link destination (ok a) = pure tt
  undo_link destination (err e) = do cleaned ← attempt (unlink_missing_ok sys destination); raise e

  -- The fallback of `_move_noreplace`.
  unfoldable pub move_by_link : FilePath → FilePath → Done
  move_by_link source destination = do
    link sys source destination
    r ← attempt (unlink sys source)
    undo_link destination r

  abbrev pub unless_renamed : FilePath → FilePath → Result Fault (Unit {0}) → Done
  unless_renamed source destination (ok a) = pure tt
  unless_renamed source destination (err (os_error e)) =
      if e == enosys || e == einval then move_by_link source destination else raise (os_error e)
  unless_renamed source destination (err e) = raise e

  abbrev pub move_by_rename : FilePath → FilePath → Done
  move_by_rename source destination = do
    r ← attempt (rename_noreplace sys source destination)
    unless_renamed source destination r

  -- `_move_noreplace`
  unfoldable pub move_noreplace : FilePath → FilePath → Done
  unfolding move_by_link
  move_noreplace source destination = do
    taken ← lexists destination
    lift (raise_if taken conflict_error)
    if sys.has_renameat2 then move_by_rename source destination else move_by_link source destination

  abbrev pub opened_or : Result Fault (Unit {0}) → Done
  opened_or (ok a) = pure tt
  opened_or (err e) = raise quarantine_error

  -- `_open_regular_nofollow`; the descriptor is left out, which every branch closes.
  unfoldable pub open_regular_nofollow : Method Stat
  open_regular_nofollow = do
    opened ← attempt (call sys)
    opened_or opened
    opened_stat ← stat sys
    lift (raise_if (not (is_regular opened_stat.kind)) quarantine_error)
    path_stat ← stat sys
    lift (raise_if (is_link path_stat.kind) quarantine_error)
    lift (raise_if (not (same_identity path_stat opened_stat)) integrity_error)
    pure opened_stat

  -- What a descriptor is read to be.
  unfoldable pub read_chunks : Method Reading
  read_chunks = do call sys; gets (λ (w : World). sys.reading w.calls)

  -- `_assert_fd_unchanged`
  unfoldable pub assert_fd_unchanged : Stat → Done
  assert_fd_unchanged initial = do
    current ← stat sys
    lift (raise_if (not (unchanged current initial)) integrity_error)

  -- `_assert_path_matches_fd`
  unfoldable pub assert_path_matches_fd : Stat → Done
  assert_path_matches_fd initial = do
    path_stat ← stat sys
    fd_stat ← stat sys
    lift (raise_if (is_link path_stat.kind) integrity_error)
    lift (raise_if (not (same_identity path_stat initial)) integrity_error)
    lift (raise_if (not (same_identity fd_stat initial)) integrity_error)

  unfoldable pub write_chunks : FilePath → List Bytes → Done
  write_chunks p [] = pure tt
  write_chunks p (c ∷ cs) = do write sys p c; write_chunks p cs

  module _ (lib : Library) where
    -- `_hash_fd`
    unfoldable pub hash_fd : Method String
    unfolding read_chunks
    hash_fd = do r ← read_chunks; lift (os_fails r.failure); pure (lib.sha256 (joined r.chunks))

    -- `_copy_between_fds`, into the file that was created at this path: the digest and the length.
    unfoldable pub copy_between_fds : FilePath → Method (String × ℕ)
    unfolding read_chunks write_chunks
    copy_between_fds p = do
      r ← read_chunks
      write_chunks p r.chunks
      lift (os_fails r.failure)
      pure (lib.sha256 (joined r.chunks), length (joined r.chunks))

    -- `_copy_fd_to_new_file`
    unfoldable pub copy_fd_to_new_file : FilePath → Method (String × ℕ)
    unfolding copy_between_fds
    copy_fd_to_new_file p = do
      create sys p
      copied ← copy_between_fds p
      call sys
      call sys
      pure copied

    module _ (metadata_dir : String) where
      abbrev pub metadata_temporary : String → String → FilePath
      metadata_temporary id unique = record {
        dir = metadata_dir;
        name = join "." (join id (join "." (join unique ".tmp")));
      }

      abbrev pub check_destination : Bool → Done
      check_destination false = pure tt
      check_destination true = do
        s ← stat sys
        lift (raise_if (is_link s.kind || not (is_regular s.kind)) metadata_error)

      -- The cleaning up after an exception.
      abbrev pub or_remove : FilePath → Result Fault (Unit {0}) → Done
      or_remove p (ok a) = pure tt
      or_remove p (err e) = do unlink_missing_ok sys p; raise e

      abbrev pub fill : FilePath → Bytes → Done
      fill p bytes = do write sys p bytes; call sys; call sys

      abbrev pub commit : FilePath → FilePath → Done
      commit p destination = do replace sys p destination; call sys; fsync_directory

      -- `_write_metadata_atomic`
      unfoldable pub write_metadata_atomic : QuarantineRecord → Done
      unfolding fsync_directory
      write_metadata_atomic r = do
        lift (validate_record lib r)
        destination ← lift (metadata_path lib metadata_dir r.quarantine_id)
        there ← lexists destination
        check_destination there
        bytes ← lift (lib.dumps r)
        unique ← gets (λ (w : World). sys.uuid w.calls)
        let temporary = metadata_temporary r.quarantine_id unique
        create sys temporary
        filled ← attempt (fill temporary bytes)
        or_remove temporary filled
        committed ← attempt (commit temporary destination)
        or_remove temporary committed
