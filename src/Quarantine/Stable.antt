-- ===== src/Quarantine/Stable.antt =====
-- Properties of the files that the manager's calls on private paths keep.
use elyra.Base.{
  String, Bool, true, false, ◌≡◌, inl, inr, refl, sym, ap, none, List, [], ◌∷◌, Option-cases,
}
use elyra.Base.Dict.{lookup}
use elyra.Base.Outcome.{Result, ok, err, raise_if, bind-eq-ok, ok_injective}
use elyra.Base.Exec.{
  Keeps-modify, Keeps-gets, lift, gets, modify, ◌>>=◌, ◌>>◌, Keeps, keeps_rules, Keeps-bind,
  Keeps-lift, Keeps-bind_given, Gives,
}
use elyra.Audit.Bytes.{Bytes}
use elyra.Quarantine.Files.{
  found, Stat, FilePath, path_key, Node, Fault, os_error, System, World, Method, Done, attempt,
  counted, put, drop_path, lexists, call, stat, unlink, unlink_missing_ok, if_missing, create, link,
  rename_noreplace, replace, write,
}
use elyra.Quarantine.Record.{
  payload_path, QuarantineRecord, Library, metadata_path, validate_quarantine_id,
}
use elyra.Quarantine.Moves.{
  metadata_temporary, commit, unless_unsupported, unless_renamed, opened_or, read_chunks,
  check_destination, undo_link, move_by_link, fsync_opened, fill, write_chunks, or_remove,
  copy_between_fds, fsync_directory, move_noreplace, open_regular_nofollow, assert_fd_unchanged,
  assert_path_matches_fd, hash_fd, copy_fd_to_new_file, write_metadata_atomic,
}

-- What holds of the files stays so when a call is counted, when a private path is removed or written,
-- and when a name that is free is taken.
pub record Stable (I : World → Type 0) (Private : FilePath → Type 0) : Type 0 where
  pub counting : (w : World) → I w → I (counted w)
  pub dropping : (p : FilePath) (w : World) → Private p → I w → I (drop_path p w)
  pub putting : (p : FilePath) (f : Node) (w : World) → Private p → I w → I (put p f w)
  pub taking : (p : FilePath) (f : Node) (w : World) → lookup p w.files ≡ none → I w → I (put p f w)

pub metadata_path-dir :
    (lib : Library) (dir id : String) (p : FilePath) → metadata_path lib dir id ≡ ok p → p.dir ≡ dir
unfolding metadata_path
metadata_path-dir lib dir id p e =
    let (safe, valid, same) = bind-eq-ok (validate_quarantine_id lib id) _ e in
    ap (λ (q : FilePath). q.dir) (sym (ok_injective same))

pub metadata_path-Gives :
    (lib : Library) (dir id : String)
    → Gives (λ (p : FilePath). p.dir ≡ dir) (lift {S = World} (metadata_path lib dir id))
unfolding lift
metadata_path-Gives lib dir id = record { given = λ s p e. metadata_path-dir lib dir id p e }

pub payload_path-dir :
    (lib : Library) (dir id : String) (p : FilePath) → payload_path lib dir id ≡ ok p → p.dir ≡ dir
unfolding payload_path
payload_path-dir lib dir id p e =
    let (safe, valid, same) = bind-eq-ok (validate_quarantine_id lib id) _ e in
    ap (λ (q : FilePath). q.dir) (sym (ok_injective same))

pub payload_path-Gives :
    (lib : Library) (dir id : String)
    → Gives (λ (p : FilePath). p.dir ≡ dir) (lift {S = World} (payload_path lib dir id))
unfolding lift
payload_path-Gives lib dir id = record { given = λ s p e. payload_path-dir lib dir id p e }

module _ (sys : System) {I : World → Type 0} {Private : FilePath → Type 0}
    (rules : Stable I Private) where
  pub Keeps-attempt : {A : Type 0} (m : Method A) → Keeps I m → Keeps I (attempt m)
  unfolding attempt
  Keeps-attempt m h = record { at = h.at }

  pub Keeps-call : Keeps I (call sys)
  unfolding call
  Keeps-call = search (keeps_rules, rules.counting)

  pub Keeps-stat : Keeps I (stat sys)
  unfolding stat
  Keeps-stat = search (keeps_rules, Keeps-call)

  pub Keeps-unlink : (p : FilePath) → Private p → Keeps I (unlink sys p)
  unfolding unlink
  Keeps-unlink p private = search (keeps_rules, Keeps-call, rules.dropping)

  Keeps-if_missing : (r : Result Fault (Unit {0})) → Keeps I (if_missing sys r)
  Keeps-if_missing (ok a) = search keeps_rules
  Keeps-if_missing (err (os_error e)) = search keeps_rules
  Keeps-if_missing (err e) = search keeps_rules

  pub Keeps-unlink_missing_ok : (p : FilePath) → Private p → Keeps I (unlink_missing_ok sys p)
  unfolding unlink_missing_ok
  Keeps-unlink_missing_ok p private =
      search (keeps_rules, Keeps-attempt, Keeps-unlink, Keeps-if_missing)

  -- A name that is free is taken.
  Keeps-take :
      (p : FilePath) (e : Fault) (k : Done)
      → ((w : World) → lookup p w.files ≡ none → I w → I (k w).1)
      → Keeps I (lexists p >>= λ taken. lift (raise_if taken e) >> k)
  unfolding ◌>>=◌ gets lift
  Keeps-take p e k h = record {
    at = λ w held. elim (Option-cases (lookup p w.files)) [
      | inl gone ↦ rw gone (h w gone held)
      | inr (f, there) ↦ rw there held
    ];
  }

  pub Keeps-create : (p : FilePath) → Keeps I (create sys p)
  unfolding create modify
  Keeps-create p =
      Keeps-bind _ _ Keeps-call
        (λ _. Keeps-take p _ _ (λ w free held. rules.taking p _ w free held))

  -- The file at a path is used, if there is one.
  Keeps-use :
      (p : FilePath) (k : Node → Done) (w : World)
      → ((f : Node) → I (k f w).1)
      → I w
      → I ((gets (λ (v : World). lookup p v.files) >>= λ there. lift (found there) >>= k) w).1
  unfolding ◌>>=◌ gets lift
  Keeps-use p k w used held = elim (Option-cases (lookup p w.files)) [
    | inl gone ↦ rw gone held
    | inr (f, there) ↦ rw there (used f)
  ]

  pub Keeps-link : (p q : FilePath) → Keeps I (link sys p q)
  unfolding link modify
  Keeps-link p q = Keeps-bind _ _ Keeps-call (λ _.
      Keeps-take q _ _ (λ w free held. Keeps-use p _ w (λ f. rules.taking q f w free held) held))

  pub Keeps-rename_noreplace : (p q : FilePath) → Private p → Keeps I (rename_noreplace sys p q)
  unfolding rename_noreplace
  Keeps-rename_noreplace p q private = search (keeps_rules, Keeps-link, rules.dropping)

  pub Keeps-replace : (p q : FilePath) → Private p → Private q → Keeps I (replace sys p q)
  unfolding replace
  Keeps-replace p q old new = Keeps-bind _ _ Keeps-call (λ _.
      Keeps-bind _ _ (Keeps-gets _) (λ there.
        Keeps-bind _ _ (Keeps-lift _)
          (λ f. Keeps-modify _ (λ w held. rules.putting q f _ new (rules.dropping p w old held)))))

  pub Keeps-write : (p : FilePath) (bytes : Bytes) → Private p → Keeps I (write sys p bytes)
  unfolding write
  Keeps-write p bytes private = search (keeps_rules, Keeps-call, rules.putting) depth 20

  Keeps-unless_unsupported : (r : Result Fault (Unit {0})) → Keeps I (unless_unsupported r)
  Keeps-unless_unsupported (ok a) = search keeps_rules
  Keeps-unless_unsupported (err (os_error e)) = search keeps_rules
  Keeps-unless_unsupported (err e) = search keeps_rules

  Keeps-fsync_opened : (r : Result Fault (Unit {0})) → Keeps I (fsync_opened sys r)
  Keeps-fsync_opened (ok a) =
      search (keeps_rules, Keeps-attempt, Keeps-call, Keeps-unless_unsupported)
  Keeps-fsync_opened (err e) = search keeps_rules

  pub Keeps-fsync_directory : Keeps I (fsync_directory sys)
  unfolding fsync_directory
  Keeps-fsync_directory = search (keeps_rules, Keeps-attempt, Keeps-call, Keeps-fsync_opened)

  Keeps-undo_link :
      (q : FilePath) (r : Result Fault (Unit {0})) → Private q → Keeps I (undo_link sys q r)
  Keeps-undo_link q (ok a) private = search keeps_rules
  Keeps-undo_link q (err e) private = search (keeps_rules, Keeps-attempt, Keeps-unlink_missing_ok)

  Keeps-move_by_link : (p q : FilePath) → Private p → Private q → Keeps I (move_by_link sys p q)
  unfolding move_by_link
  Keeps-move_by_link p q old new =
      search (keeps_rules, Keeps-attempt, Keeps-link, Keeps-unlink, Keeps-undo_link)

  Keeps-unless_renamed :
      (p q : FilePath) (r : Result Fault (Unit {0}))
      → Private p
      → Private q
      → Keeps I (unless_renamed sys p q r)
  Keeps-unless_renamed p q (ok a) old new = search keeps_rules
  Keeps-unless_renamed p q (err (os_error e)) old new = search (keeps_rules, Keeps-move_by_link)
  Keeps-unless_renamed p q (err e) old new = search keeps_rules

  pub Keeps-move_noreplace :
      (p q : FilePath) → Private p → Private q → Keeps I (move_noreplace sys p q)
  unfolding move_noreplace
  Keeps-move_noreplace p q old new =
      search
        (
          keeps_rules, Keeps-attempt, Keeps-rename_noreplace, Keeps-unless_renamed,
          Keeps-move_by_link,
        )
        depth 20

  Keeps-opened_or : (r : Result Fault (Unit {0})) → Keeps I (opened_or sys r)
  Keeps-opened_or (ok a) = search keeps_rules
  Keeps-opened_or (err e) = search keeps_rules

  pub Keeps-open_regular_nofollow : Keeps I (open_regular_nofollow sys)
  unfolding open_regular_nofollow
  Keeps-open_regular_nofollow =
      search (keeps_rules, Keeps-attempt, Keeps-call, Keeps-stat, Keeps-opened_or) depth 20

  pub Keeps-assert_fd_unchanged : (s : Stat) → Keeps I (assert_fd_unchanged sys s)
  unfolding assert_fd_unchanged
  Keeps-assert_fd_unchanged s = search (keeps_rules, Keeps-stat)

  pub Keeps-assert_path_matches_fd : (s : Stat) → Keeps I (assert_path_matches_fd sys s)
  unfolding assert_path_matches_fd
  Keeps-assert_path_matches_fd s = search (keeps_rules, Keeps-stat) depth 20

  pub Keeps-read_chunks : Keeps I (read_chunks sys)
  unfolding read_chunks
  Keeps-read_chunks = search (keeps_rules, Keeps-call)

  Keeps-write_chunks :
      (p : FilePath) (cs : List Bytes) → Private p → Keeps I (write_chunks sys p cs)
  unfolding write_chunks
  Keeps-write_chunks p [] private = search keeps_rules
  Keeps-write_chunks p (c ∷ cs) private =
      Keeps-bind _ _ (Keeps-write p c private) (λ _. Keeps-write_chunks p cs private)

  module _ (lib : Library) where
    pub Keeps-hash_fd : Keeps I (hash_fd sys lib)
    unfolding hash_fd
    Keeps-hash_fd = search (keeps_rules, Keeps-read_chunks)

    pub Keeps-copy_between_fds : (p : FilePath) → Private p → Keeps I (copy_between_fds sys lib p)
    unfolding copy_between_fds
    Keeps-copy_between_fds p private = search (keeps_rules, Keeps-read_chunks, Keeps-write_chunks)

    pub Keeps-copy_fd_to_new_file :
        (p : FilePath) → Private p → Keeps I (copy_fd_to_new_file sys lib p)
    unfolding copy_fd_to_new_file
    Keeps-copy_fd_to_new_file p private =
        search (keeps_rules, Keeps-create, Keeps-copy_between_fds, Keeps-call)

    module _ (metadata_dir : String)
        (inside : (p : FilePath) → p.dir ≡ metadata_dir → Private p) where
      Keeps-check_destination :
          (there : Bool) → Keeps I (check_destination sys lib metadata_dir there)
      Keeps-check_destination true = search (keeps_rules, Keeps-stat)
      Keeps-check_destination false = search keeps_rules

      Keeps-or_remove :
          (p : FilePath) (r : Result Fault (Unit {0}))
          → Private p
          → Keeps I (or_remove sys lib metadata_dir p r)
      Keeps-or_remove p (ok a) private = search keeps_rules
      Keeps-or_remove p (err e) private = search (keeps_rules, Keeps-unlink_missing_ok)

      Keeps-fill :
          (p : FilePath) (bytes : Bytes) → Private p → Keeps I (fill sys lib metadata_dir p bytes)
      Keeps-fill p bytes private = search (keeps_rules, Keeps-write, Keeps-call)

      Keeps-commit :
          (p q : FilePath) → Private p → Private q → Keeps I (commit sys lib metadata_dir p q)
      Keeps-commit p q old new =
          search (keeps_rules, Keeps-replace, Keeps-call, Keeps-fsync_directory)

      Keeps-commit_new :
          (r : QuarantineRecord) (q : FilePath)
          → Private q
          → (bytes : Bytes) (unique : String)
          → Keeps I (
              create sys (metadata_temporary sys lib metadata_dir r.quarantine_id unique)
              >> (attempt (
                    fill sys lib metadata_dir
                      (metadata_temporary sys lib metadata_dir r.quarantine_id unique)
                      bytes)
                  >>= λ filled.
                      or_remove sys lib metadata_dir
                        (metadata_temporary sys lib metadata_dir r.quarantine_id unique)
                        filled
                      >> (attempt (
                            commit sys lib metadata_dir
                              (metadata_temporary sys lib metadata_dir r.quarantine_id unique)
                              q)
                          >>= λ committed.
                              or_remove sys lib metadata_dir
                                (metadata_temporary sys lib metadata_dir r.quarantine_id unique)
                                committed)))
      Keeps-commit_new r q private bytes unique =
          let p = metadata_temporary sys lib metadata_dir r.quarantine_id unique in
          let new = inside p refl in
          Keeps-bind _ _ (Keeps-create p) (λ _.
            Keeps-bind _ _ (Keeps-attempt _ (Keeps-fill p bytes new)) (λ filled.
              Keeps-bind _ _ (Keeps-or_remove p filled new) (λ _.
                Keeps-bind _ _ (Keeps-attempt _ (Keeps-commit p q new private))
                  (λ committed. Keeps-or_remove p committed new))))

      pub Keeps-write_metadata_atomic :
          (r : QuarantineRecord) → Keeps I (write_metadata_atomic sys lib metadata_dir r)
      unfolding write_metadata_atomic
      Keeps-write_metadata_atomic r = Keeps-bind _ _ (Keeps-lift _) (λ _.
          Keeps-bind_given _ _ (Keeps-lift _) (metadata_path-Gives lib metadata_dir _) (λ q within.
            let Keeps-rest = Keeps-commit_new r q (inside q within) in
            search (keeps_rules, Keeps-check_destination, Keeps-rest)))
