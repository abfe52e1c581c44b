-- ===== src/Quarantine/Rollback.antt =====
-- A quarantine that fails does not lose the file.
use elyra.Base.{
  String, Bool, true, false, ◌≡◌, ◌⊎◌, inl, inr, refl, sym, subst, ◌∙◌, Option, none, some,
}
use elyra.Base.Int.{ℤ}
use elyra.Base.Dict.{lookup}
use elyra.Base.Outcome.{err-ne-ok, Result, ok, err}
use elyra.Base.Exec.{
  Keeps-pure, pure, lift, gets, modify, ◌>>=◌, ◌>>◌, Keeps, keeps_rules, Keeps-bind, Keeps-look,
  after_bind,
}
use elyra.Quarantine.Files.{
  FilePath, path_key, Node, Fault, os_error, System, World, Method, Done, attempt,
}
use elyra.Quarantine.Record.{QuarantineRecord, Library}
use elyra.Quarantine.Moves.{move_noreplace}
use elyra.Quarantine.Manager.{
  no_locals, run, undo, audit, Request, Setup, pending_path, unlink_some, remove_artifacts,
  move_back, return_held, return_holding, clean_up, os_error_fails, rollback_quarantine, secure,
  body, finish, fail_with, quarantine_file,
}
use elyra.Quarantine.Stable.{Stable, Keeps-unlink_missing_ok, Keeps-fsync_directory}
use elyra.Quarantine.Pending.{IsHeld-Stable, IsHeld, IsReady, IsOutside}
use elyra.Quarantine.Swap.{IsHeld-move_noreplace}
use elyra.Quarantine.Preserved.{
  IsApart, payload_outside, metadata_outside, Leads-secure, body_fails,
}

module _ (sys : System) (lib : Library) (setup : Setup) (source : FilePath) (node : Node)
    (apart : IsApart source setup) where
  abbrev Kept : World → Type 0
  Kept = IsHeld source node setup.quarantine_dir setup.metadata_dir

  abbrev rules : Stable Kept (IsOutside source node)
  rules = IsHeld-Stable source node setup.quarantine_dir setup.metadata_dir

  Keeps-unlink_some :
      (o : Option FilePath)
      → ((p : FilePath) → o ≡ some p → IsOutside source node p)
      → Keeps Kept (unlink_some sys o)
  Keeps-unlink_some none outside = search keeps_rules
  Keeps-unlink_some (some p) outside = Keeps-unlink_missing_ok sys rules p (outside p refl)

  -- A path that is private is looked up and removed.
  Keeps-remove :
      (look : World → Option FilePath) (after : Done)
      → ((w : World) → Kept w → (p : FilePath) → look w ≡ some p → IsOutside source node p)
      → Keeps Kept after
      → Keeps Kept (gets look >>= λ o. unlink_some sys o >> after)
  Keeps-remove look after outside kept =
      Keeps-look look _
        (λ w h. (Keeps-bind _ _ (Keeps-unlink_some (look w) (outside w h)) (λ _. kept)).at w h)

  Keeps-remove_artifacts : Keeps Kept (remove_artifacts sys)
  unfolding remove_artifacts
  Keeps-remove_artifacts =
      Keeps-remove World.temporary_payload _
        (λ w h p e. payload_outside sys lib setup source node apart p (h.temporary_in p e))
        (Keeps-remove World.metadata_path _
          (λ w h p e. metadata_outside sys lib setup source node apart p (h.metadata_in p e))
          (Keeps-remove World.final_payload _
            (λ w h p e. payload_outside sys lib setup source node apart p (h.final_in p e))
            (search (keeps_rules, Keeps-fsync_directory, rules))))

  Kept-move_back :
      (p : FilePath) (occupied : Bool) (w : World)
      → w.holding_path ≡ some p
      → Kept w
      → Kept (move_back sys source p occupied w).1
  unfolding pure
  Kept-move_back p true w is h = h
  Kept-move_back p false w is h =
      after_bind {P = Kept} {Q = Kept} (move_noreplace sys p source) _ w
        (IsHeld-move_noreplace source node setup.quarantine_dir setup.metadata_dir sys p source w h
          (inr (refl, is)))
        (λ _. (Keeps-bind _ _ (Keeps-fsync_directory sys rules) (λ _. Keeps-pure true)).at)
        (λ t k. k)

  Kept-return_held :
      (p : FilePath) (there : Bool) (w : World)
      → w.holding_path ≡ some p
      → Kept w
      → Kept (return_held sys source p there w).1
  unfolding ◌>>=◌ gets pure
  Kept-return_held p false w is h = h
  Kept-return_held p true w is h = Kept-move_back p _ w is h

  Kept-return_holding :
      (o : Option FilePath) (w : World)
      → w.holding_path ≡ o
      → Kept w
      → Kept (return_holding sys source o w).1
  unfolding ◌>>=◌ gets pure
  Kept-return_holding none w is h = h
  Kept-return_holding (some p) w is h = Kept-return_held p _ w is h

  Keeps-clean_up : (returned : Bool) → Keeps Kept (clean_up sys returned)
  Keeps-clean_up false = search keeps_rules
  Keeps-clean_up true = search (keeps_rules, Keeps-remove_artifacts)

  Keeps-os_error_fails : (r : Result Fault Bool) → Keeps Kept (os_error_fails sys r)
  Keeps-os_error_fails (ok b) = search keeps_rules
  Keeps-os_error_fails (err (os_error e)) = search keeps_rules
  Keeps-os_error_fails (err e) = search keeps_rules

  Kept-undo : (w : World) → Kept w → Kept (attempt (undo sys source w.holding_path) w).1
  unfolding attempt
  Kept-undo w h =
      after_bind {P = Kept} {Q = Kept} (return_holding sys source w.holding_path) _ w
        (Kept-return_holding w.holding_path w refl h) (λ returned. (Keeps-clean_up returned).at)
        (λ t k. k)

  Keeps-rollback : Keeps Kept (rollback_quarantine sys source)
  unfolding rollback_quarantine
  Keeps-rollback = Keeps-look World.holding_path _ (λ w h.
      after_bind {P = Kept} {Q = Kept} (attempt (undo sys source w.holding_path)) _ w
        (Kept-undo w h) (λ r. (Keeps-os_error_fails r).at) (λ t k. k))

  Keeps-fail_with :
      (e : Fault) (complete : Bool) → Keeps Kept (fail_with sys lib setup source e complete)
  Keeps-fail_with e true = search keeps_rules
  Keeps-fail_with e false = search keeps_rules

  Keeps-finish : (e : Fault) → Keeps Kept (finish sys lib setup source (err e))
  Keeps-finish e = search (keeps_rules, Keeps-rollback, Keeps-fail_with)

  -- The file is at its path or under a name that holds it, in its directory.
  abbrev pub IsThere : World → Type 0
  IsThere w =
      (lookup source w.files ≡ some node)
      ⊎ ((id : String) × (lookup (pending_path source id) w.files ≡ some node))

  IsThere-Kept : (w : World) → Kept w → IsThere w
  IsThere-Kept w h = elim h.somewhere [
    | inl at ↦ inl at
    | inr (p, held, at) ↦
        let (id, is) = h.pending p held in inr (id, subst (λ q. lookup q w.files ≡ some node) is at)
  ]

  -- The audit raises nothing.
  audited :
      (r : QuarantineRecord) (configured : Bool) (w : World)
      → ((audit sys configured >> pure r) w).0 ≡ ok r
  unfolding ◌>>=◌ pure audit modify attempt
  audited r false w = refl
  audited r true w = refl

  finished :
      (r : Result Fault QuarantineRecord) (w : World) (e : Fault)
      → ((x : Fault) → r ≡ err x → Kept w)
      → (finish sys lib setup source r w).0 ≡ err e
      → Kept (finish sys lib setup source r w).1
  finished (ok r) w e kept raised =
      absurd (err-ne-ok (sym raised ∙ audited r setup.has_audit_log w))
  finished (err x) w e kept raised = (Keeps-finish x).at w (kept x refl)

  body_kept :
      (q : Request) (pid : Option ℤ) (w : World) (e : Fault)
      → IsReady source node w
      → (body sys lib setup source q pid w).0 ≡ err e
      → Kept (body sys lib setup source q pid w).1
  unfolding ◌>>=◌
  body_kept q pid w e h raised =
      body_fails sys lib setup source node apart (secure sys lib setup source q pid w).0 _ e
        ((Leads-secure sys lib setup source node apart q pid).run w h) raised

  ran_kept :
      (q : Request) (pid : Option ℤ) (w : World) (e : Fault)
      → lookup source w.files ≡ some node
      → (run sys lib setup source q pid w).0 ≡ err e
      → IsThere (run sys lib setup source q pid w).1
  unfolding ◌>>=◌ modify attempt
  ran_kept q pid w e at raised =
      let fresh = no_locals sys lib setup source w in
      let ready : IsReady source node fresh = record {
        at_source = at;
        no_holding = refl;
        no_temporary = refl;
        no_final = refl;
        no_metadata = refl;
      } in
      IsThere-Kept _ (
        finished (body sys lib setup source q pid fresh).0 (body sys lib setup source q pid fresh).1
          e (λ x failed. body_kept q pid fresh x ready failed) raised)

  -- An exception before anything was done.
  checked_first :
      {A : Type 0} (r : Result Fault A) (f : A → Method QuarantineRecord) (w : World) (e : Fault)
      → lookup source w.files ≡ some node
      → ((a : A) → (f a w).0 ≡ err e → IsThere (f a w).1)
      → ((lift r >>= f) w).0 ≡ err e
      → IsThere ((lift r >>= f) w).1
  unfolding ◌>>=◌ lift
  checked_first (ok a) f w e at next raised = next a raised
  checked_first (err x) f w e at next raised = inl at

  -- A quarantine that raises, whichever call failed and also where the rollback failed, leaves the file
  -- with its bytes at its path or under a pending name beside it, if no directory of the manager is that
  -- of the file.
  pub failed_quarantine_keeps_file :
      (q : Request) (w : World) (e : Fault)
      → lookup source w.files ≡ some node
      → (quarantine_file sys lib setup source q w).0 ≡ err e
      → IsThere (quarantine_file sys lib setup source q w).1
  unfolding quarantine_file
  failed_quarantine_keeps_file q w e at raised =
      checked_first _ _ w e at
        (λ _. checked_first _ _ w e at (λ _.
          checked_first _ _ w e at (λ _. checked_first _ _ w e at (λ pid. ran_kept q pid w e at))))
        raised
