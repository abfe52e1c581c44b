-- ===== src/Quarantine/Untouched.antt =====
-- Restoring and deleting touch no file but those of the quarantine.
use elyra.Base.{
  ◌==◌, arith, if◌then◌else◌, String, Bool, true, false, ◌≡◌, ◌≢◌, refl, sym, ap, subst, ◌∙◌,
  Option, none, some, is_some,
}
use elyra.Base.Dict.{lookup}
use elyra.Base.Outcome.{raise_if-eq-ok, ok_injective, Result, ok, err, err-ne-ok}
use elyra.Base.Exec.{
  gets-eq-ok, lift-eq-ok, exec-eq-ok, pure, lift, ◌>>=◌, Keeps, keeps_rules, Keeps-bind, Keeps-lift,
  Keeps-gets, Ensures, Ensures-after, Ensures-bind, Keeps-bind_ensured,
}
use elyra.Quarantine.Files.{
  call, eexist, raise, FilePath, path_key, Node, Fault, os_error, Stat, System, World, Method,
  attempt, create,
}
use elyra.Quarantine.Record.{QuarantineRecord, Library}
use elyra.Quarantine.Manager.{Setup, audit, set_audit_status}
use elyra.Quarantine.Moves.{write_metadata_atomic}
use elyra.Quarantine.Restore.{
  load_metadata, prepare_restore_target, conflict_if_taken, open_exclusive, open_target,
  fill_target, save_restored, restore_ownership, unlink_same, unlink_if_identity_matches,
  write_back, failed_with, undo_restore, finish_restore, save_filled, fill_opened, restore_file,
}
use elyra.Quarantine.Stable.{
  Keeps-write_metadata_atomic, Keeps-assert_fd_unchanged, Keeps-hash_fd, Keeps-read_chunks,
  Keeps-create, Keeps-unlink, Keeps-attempt, Keeps-stat, Keeps-copy_between_fds, Keeps-call,
  Keeps-open_regular_nofollow, Keeps-fsync_directory, Stable,
}
use elyra.Quarantine.Pending.{lookup-put_other, lookup-drop_other, taken-other}

module _ (x : FilePath) (f : Node) where
  -- The file stands at this path.
  abbrev pub Stands : World → Type 0
  Stands w = lookup x w.files ≡ some f

  abbrev pub IsOther : FilePath → Type 0
  IsOther p = p ≢ x

  pub Stands-Stable : Stable Stands IsOther
  Stands-Stable = record {
    counting = λ w h. h;
    dropping = λ p w other h. lookup-drop_other p x w.files other ∙ h;
    putting = λ p g w other h. lookup-put_other p x g w.files other ∙ h;
    taking = λ p g w free h. lookup-put_other p x g w.files (taken-other p x w.files free h) ∙ h;
  }

  module _ (sys : System) (lib : Library) (setup : Setup)
      (outside : x.dir ≢ setup.metadata_dir) where
    abbrev rules : Stable Stands IsOther
    rules = Stands-Stable

    metadata_other : (p : FilePath) → p.dir ≡ setup.metadata_dir → IsOther p
    metadata_other p within same = outside (ap (λ (q : FilePath). q.dir) (sym same) ∙ within)

    Keeps-save :
        (r : QuarantineRecord) → Keeps Stands (write_metadata_atomic sys lib setup.metadata_dir r)
    Keeps-save r = Keeps-write_metadata_atomic sys rules lib setup.metadata_dir metadata_other r

    Keeps-load : (id : String) → Keeps Stands (load_metadata sys lib setup id)
    unfolding load_metadata
    Keeps-load id =
        search (keeps_rules, Keeps-stat, Keeps-attempt, Keeps-read_chunks, rules) depth 40

    Stands-audited :
        (r : Result Fault (Unit {0})) (w : World) → Stands w → Stands (set_audit_status sys r w)
    Stands-audited (ok a) w h = h
    Stands-audited (err e) w h = h

    pub Keeps-audit : (configured : Bool) → Keeps Stands (audit sys configured)
    unfolding audit
    Keeps-audit true = search (keeps_rules, Keeps-attempt, Keeps-call, Stands-audited, rules)
    Keeps-audit false = search keeps_rules

    Keeps-conflict :
        (r : Result Fault (Unit {0})) → Keeps Stands (conflict_if_taken sys lib setup r)
    Keeps-conflict (ok a) = search keeps_rules
    Keeps-conflict (err (os_error e)) = search keeps_rules
    Keeps-conflict (err e) = search keeps_rules

    Keeps-exclusive : (p : FilePath) → Keeps Stands (open_exclusive sys lib setup p)
    unfolding open_exclusive
    Keeps-exclusive p = search (keeps_rules, Keeps-attempt, Keeps-create, Keeps-conflict, rules)

    Keeps-prepare :
        (chosen : FilePath) (resolve : FilePath → Option FilePath)
        → Keeps Stands (prepare_restore_target sys lib setup chosen resolve)
    unfolding prepare_restore_target
    Keeps-prepare chosen resolve = search keeps_rules depth 40

    Keeps-open :
        (r : QuarantineRecord) (chosen : FilePath) (resolve : FilePath → Option FilePath)
        → Keeps Stands (open_target sys lib setup r chosen resolve)
    unfolding open_target
    Keeps-open r chosen resolve =
        search
          (
            keeps_rules, Keeps-open_regular_nofollow, Keeps-hash_fd, Keeps-assert_fd_unchanged,
            Keeps-prepare, Keeps-exclusive, Keeps-stat, rules,
          )
          depth 40

    Keeps-ownership : (root : Bool) → Keeps Stands (restore_ownership sys lib setup root)
    Keeps-ownership true = search (keeps_rules, Keeps-call, rules)
    Keeps-ownership false = search keeps_rules

    Keeps-filling :
        (r : QuarantineRecord) (p : FilePath)
        → IsOther p
        → Keeps Stands (fill_target sys lib setup r p)
    unfolding fill_target
    Keeps-filling r p other =
        search (keeps_rules, Keeps-copy_between_fds, Keeps-call, Keeps-ownership, Keeps-stat, rules)
          depth 40

    Keeps-save_restored : (r : QuarantineRecord) → Keeps Stands (save_restored sys lib setup r)
    unfolding save_restored
    Keeps-save_restored r = search (keeps_rules, Keeps-save, Keeps-fsync_directory, rules)

    Keeps-unlink_same :
        (there : Bool) (p : FilePath) (s : Stat)
        → IsOther p
        → Keeps Stands (unlink_same sys lib setup there p s)
    Keeps-unlink_same true p s other = search (keeps_rules, Keeps-stat, Keeps-unlink, rules)
    Keeps-unlink_same false p s other = search keeps_rules

    Keeps-unlink_matching :
        (p : FilePath) (s : Stat)
        → IsOther p
        → Keeps Stands (unlink_if_identity_matches sys lib setup p s)
    unfolding unlink_if_identity_matches
    Keeps-unlink_matching p s other = search (keeps_rules, Keeps-unlink_same)

    Keeps-write_back :
        (previous r : QuarantineRecord) → Keeps Stands (write_back sys lib setup previous r)
    Keeps-write_back previous r = search (keeps_rules, Keeps-save)

    Keeps-failed_with :
        (e : Fault) (a b : Result Fault (Unit {0}))
        → Keeps Stands (failed_with sys lib setup {A = QuarantineRecord} e a b)
    Keeps-failed_with e (ok a) (ok b) = search keeps_rules
    Keeps-failed_with e (ok a) (err y) = search keeps_rules
    Keeps-failed_with e (err y) b = search keeps_rules

    Keeps-undo_restore :
        (previous r : QuarantineRecord) (p : FilePath) (s : Stat) (e : Fault)
        → IsOther p
        → Keeps Stands (undo_restore sys lib setup previous r p s e)
    unfolding undo_restore
    Keeps-undo_restore previous r p s e other =
        search
          (
            keeps_rules, Keeps-attempt, Keeps-unlink_matching, Keeps-write_back, Keeps-failed_with,
            rules,
          )
          depth 20

    Keeps-finish_restore :
        (previous saved : QuarantineRecord) (p : FilePath) (s : Stat) (r : Result Fault (Unit {0}))
        → IsOther p
        → Keeps Stands (finish_restore sys lib setup previous saved p s r)
    Keeps-finish_restore previous saved p s (ok a) other = search (keeps_rules, Keeps-audit)
    Keeps-finish_restore previous saved p s (err e) other =
        Keeps-undo_restore previous saved p s e other

    Keeps-save_filled :
        (r : QuarantineRecord) (p : FilePath) (s : Stat) (filled : Result Fault (Bool × Stat))
        → IsOther p
        → Keeps Stands (save_filled sys lib setup r p s filled)
    Keeps-save_filled r p s (err e) other = Keeps-undo_restore r r p s e other
    Keeps-save_filled r p s (ok filled) other =
        search (keeps_rules, Keeps-attempt, Keeps-save_restored, Keeps-finish_restore, rules) depth
          20

    not_some : (o : Option Node) → is_some o ≡ false → o ≡ none
    not_some none e = refl
    not_some (some a) e = ground arith

    returning :
        {A : Type 0} (m : Method A) (w : World) {a : A} → (m w).0 ≡ ok a → m w ≡ (ok a, (m w).1)
    returning m w e i = (e i, (m w).1)

    raised_anyway :
        (test : Bool) (d e : Fault) (w : World) (a : Unit {0})
        → ((if test then raise {A = Unit {0}} d else raise e) w).0 ≡ ok a
        → ⊥
    unfolding lift
    raised_anyway true d e w a is = err-ne-ok is
    raised_anyway false d e w a is = err-ne-ok is

    conflict-eq_ok :
        (r : Result Fault (Unit {0})) (w : World) (a : Unit {0})
        → (conflict_if_taken sys lib setup r w).0 ≡ ok a
        → r ≡ ok tt
    unfolding lift
    conflict-eq_ok (ok b) w a e = refl
    conflict-eq_ok (err (os_error n)) w a e = absurd (raised_anyway (n == eexist) _ _ w a e)
    conflict-eq_ok (err x) w a e = absurd (err-ne-ok e)

    -- A path that could be created is not that of the file.
    conflict_free :
        (w : World) (p : FilePath) (a : Unit {0}) → Stands w → (create sys p w).0 ≡ ok a → IsOther p
    unfolding create
    conflict_free w p a h e =
        let (b, called, rest) = exec-eq-ok (call sys) _ w (returning (create sys p) w e) in
        let (c, free, put_there) = lift-eq-ok _ _ _ (gets-eq-ok _ _ _ rest) in
        taken-other p x (call sys w).1.files (not_some _ (raise_if-eq-ok _ _ free))
          ((Keeps-call sys rules).at w h)

    Ensures-exclusive :
        (p : FilePath) → Ensures Stands (λ _. IsOther p) (open_exclusive sys lib setup p)
    unfolding open_exclusive attempt ◌>>=◌
    Ensures-exclusive p = record {
      ensured = λ w h a e. conflict_free w p tt h (conflict-eq_ok (create sys p w).0 _ a e);
    }

    abbrev IsOtherTarget : FilePath × Stat → Type 0
    IsOtherTarget t = IsOther t.0

    Ensures-target :
        (target : FilePath) (opened : Stat)
        → IsOther target
        → Ensures Stands IsOtherTarget (pure {E = Fault} (target, opened))
    unfolding pure
    Ensures-target target opened other = record {
      ensured = λ w h a e. subst IsOtherTarget (ok_injective e) other;
    }

    Ensures-open :
        (r : QuarantineRecord) (chosen : FilePath) (resolve : FilePath → Option FilePath)
        → Ensures Stands IsOtherTarget (open_target sys lib setup r chosen resolve)
    unfolding open_target
    Ensures-open r chosen resolve =
        Ensures-after _ _ (Keeps-open_regular_nofollow sys rules) (λ payload.
          Ensures-after _ _ (Keeps-hash_fd sys rules lib) (λ payload_hash.
            Ensures-after _ _ (Keeps-assert_fd_unchanged sys rules payload) (λ _.
              Ensures-after _ _ (Keeps-lift _) (λ _.
                Ensures-after _ _ (Keeps-prepare chosen resolve) (λ target.
                  Ensures-bind _ _ (Keeps-exclusive target) (Ensures-exclusive target) (λ _ other.
                    Ensures-after _ _ (Keeps-stat sys rules)
                      (λ opened. Ensures-target target opened other)))))))

    abbrev IsOtherOpened : Result Fault (FilePath × Stat) → Type 0
    IsOtherOpened (ok t) = IsOther t.0
    IsOtherOpened (err e) = Unit

    opened_other :
        (r : Result Fault (FilePath × Stat))
        → ((a : FilePath × Stat) → r ≡ ok a → IsOther a.0)
        → (t : Result Fault (FilePath × Stat)) → r ≡ t
        → IsOtherOpened t
    opened_other r other (ok a) e = other a e
    opened_other r other (err x) e = tt

    Ensures-opened :
        (r : QuarantineRecord) (chosen : FilePath) (resolve : FilePath → Option FilePath)
        → Ensures Stands IsOtherOpened (attempt (open_target sys lib setup r chosen resolve))
    unfolding attempt
    Ensures-opened r chosen resolve = record {
      ensured = λ w h a e.
          opened_other _ ((Ensures-open r chosen resolve).ensured w h) a (ok_injective e);
    }

    Keeps-fill_opened :
        (r : QuarantineRecord) (t : Result Fault (FilePath × Stat))
        → IsOtherOpened t
        → Keeps Stands (fill_opened sys lib setup r t)
    Keeps-fill_opened r (err e) u = search keeps_rules
    Keeps-fill_opened r (ok t) other =
        search (keeps_rules, Keeps-attempt, Keeps-filling, Keeps-save_filled, rules) depth 20

    Keeps-restore_file :
        (id : String) (destination : Option FilePath) (resolve : FilePath → Option FilePath)
        → Keeps Stands (restore_file sys lib setup id destination resolve)
    unfolding restore_file
    Keeps-restore_file id destination resolve = Keeps-bind _ _ (Keeps-load id) (λ r.
        Keeps-bind _ _ (Keeps-lift _) (λ _. Keeps-bind _ _ (Keeps-lift _) (λ payload.
          Keeps-bind _ _ (Keeps-gets _) (λ there. Keeps-bind _ _ (Keeps-lift _) (λ _.
            Keeps-bind_ensured _ _ (Keeps-attempt sys rules _ (Keeps-open r _ resolve))
              (Ensures-opened r _ resolve) (λ t other. Keeps-fill_opened r t other))))))

-- Restoring changes no file that is there before, whatever fails and whether it returns or raises: beside
-- the files in the directory of the metadata, every file is afterwards at its path with its bytes. The
-- payload stays, and a destination that exists is neither overwritten nor removed.
pub restore_file_overwrites_nothing :
    (sys : System) (lib : Library) (setup : Setup) (id : String) (destination : Option FilePath)
    (resolve : FilePath → Option FilePath) (w : World) (x : FilePath) (f : Node)
    → x.dir ≢ setup.metadata_dir
    → lookup x w.files ≡ some f
    → lookup x (restore_file sys lib setup id destination resolve w).1.files ≡ some f
restore_file_overwrites_nothing sys lib setup id destination resolve w x f outside there =
    (Keeps-restore_file x f sys lib setup outside id destination resolve).at w there
