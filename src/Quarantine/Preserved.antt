-- ===== src/Quarantine/Preserved.antt =====
-- The body of `quarantine_file`, up to the removal of the file that is held.
use elyra.Base.{get_or, String, ◌≡◌, ◌≢◌, inl, inr, refl, sym, ap, subst, ◌∙◌, Option, none, some}
use mathlib.Core.Option.{none-ne-some}
use elyra.Base.Int.{ℤ}
use elyra.Base.Outcome.{Result, ok, err, err-ne-ok}
use elyra.Base.Exec.{
  bind-of_ok, bind-of_err, pure, modify, ◌>>=◌, Keeps, keeps_rules, Keeps-bind, Keeps-lift,
  Keeps-gets, Keeps-modify, Keeps-bind_given, Leads, Leads-bind, Leads-then,
}
use elyra.Quarantine.Files.{
  unlink, FilePath, path_key, Node, Fault, Stat, System, World, Method, attempt,
}
use elyra.Quarantine.Record.{QuarantineRecord, Library}
use elyra.Quarantine.Moves.{move_noreplace}
use elyra.Quarantine.Manager.{
  forget_holding, hold_checks, fill_payload, Request, Setup, pending_path, temporary_path,
  check_source, hold, store_payload, save_record, secure, release,
}
use elyra.Quarantine.Stable.{
  payload_path-Gives, Stable, Keeps-call, Keeps-stat, Keeps-fsync_directory, Keeps-move_noreplace,
  Keeps-open_regular_nofollow, Keeps-assert_fd_unchanged, Keeps-assert_path_matches_fd,
  Keeps-hash_fd, Keeps-copy_fd_to_new_file, Keeps-write_metadata_atomic, metadata_path-Gives,
}
use elyra.Quarantine.Pending.{IsHeld, IsReady, IsOutside, IsHeld-Stable, IsReady-Stable}
use elyra.Quarantine.Cases.{unlink-cases}
use elyra.Quarantine.Swap.{IsHeld-move_noreplace}

-- The directories of the manager are not that of the file.
pub record IsApart (source : FilePath) (setup : Setup) : Type 0 where
  pub payloads : setup.quarantine_dir ≢ source.dir
  pub metadata : setup.metadata_dir ≢ source.dir

module _ (sys : System) (lib : Library) (setup : Setup) (source : FilePath) (node : Node)
    (apart : IsApart source setup) where
  abbrev pub Held : World → Type 0
  Held = IsHeld source node setup.quarantine_dir setup.metadata_dir

  abbrev pub Ready : World → Type 0
  Ready = IsReady source node

  abbrev pub held_rules : Stable Held (IsOutside source node)
  held_rules = IsHeld-Stable source node setup.quarantine_dir setup.metadata_dir

  pub payload_outside : (p : FilePath) → p.dir ≡ setup.quarantine_dir → IsOutside source node p
  payload_outside p within e = apart.payloads (sym within ∙ e)

  pub metadata_outside : (p : FilePath) → p.dir ≡ setup.metadata_dir → IsOutside source node p
  metadata_outside p within e = apart.metadata (sym within ∙ e)

  set_holding-Held :
      (id : String) (w : World)
      → Ready w
      → Held (record w { holding_path = some (pending_path source id) })
  set_holding-Held id w h = record {
    somewhere = inl h.at_source;
    pending = λ p e. (id, ap (λ o. get_or o p) (sym e));
    temporary_in = λ p e. absurd (none-ne-some p (sym h.no_temporary ∙ e));
    final_in = λ p e. absurd (none-ne-some p (sym h.no_final ∙ e));
    metadata_in = λ p e. absurd (none-ne-some p (sym h.no_metadata ∙ e));
  }

  abbrev IsHolding : String → World → Type 0
  IsHolding id w = Held w × (w.holding_path ≡ some (pending_path source id))

  Leads-move :
      (id : String) → Leads (IsHolding id) Held (move_noreplace sys source (pending_path source id))
  Leads-move id = record {
    run = λ v both.
        IsHeld-move_noreplace source node setup.quarantine_dir setup.metadata_dir sys source
          (pending_path source id) v both.0 (inl (refl, both.1));
  }

  -- What follows the move.
  Keeps-checks : (opened : Stat) → Keeps Held (hold_checks sys lib setup source opened)
  Keeps-checks opened =
      search (keeps_rules, Keeps-assert_path_matches_fd, Keeps-stat, held_rules) depth 20

  Leads-hold :
      (opened : Stat) (id : String) → Leads Ready Held (hold sys lib setup source opened id)
  unfolding hold ◌>>=◌ modify
  Leads-hold opened id =
      let moved = Leads-then _ _ (Leads-move id) (λ _. Keeps-checks opened) in
      record { run = λ w h. moved.run _ (set_holding-Held id w h, refl) }

  Keeps-set_final :
      (p : FilePath)
      → p.dir ≡ setup.quarantine_dir
      → Keeps {E = Fault} Held (modify (λ (w : World). record w { final_payload = some p }))
  Keeps-set_final p within = Keeps-modify _ (λ w h. record {
    somewhere = h.somewhere;
    pending = h.pending;
    temporary_in = h.temporary_in;
    final_in = λ q e. ap (λ o. (get_or o p).dir) (sym e) ∙ within;
    metadata_in = h.metadata_in;
  })

  Keeps-set_temporary :
      (p : FilePath)
      → p.dir ≡ setup.quarantine_dir
      → Keeps {E = Fault} Held (modify (λ (w : World). record w { temporary_payload = some p }))
  Keeps-set_temporary p within = Keeps-modify _ (λ w h. record {
    somewhere = h.somewhere;
    pending = h.pending;
    temporary_in = λ q e. ap (λ o. (get_or o p).dir) (sym e) ∙ within;
    final_in = h.final_in;
    metadata_in = h.metadata_in;
  })

  Keeps-no_temporary :
      Keeps {E = Fault} Held (modify (λ (w : World). record w { temporary_payload = none }))
  Keeps-no_temporary = Keeps-modify _ (λ w h. record {
    somewhere = h.somewhere;
    pending = h.pending;
    temporary_in = λ q e. absurd (none-ne-some q e);
    final_in = h.final_in;
    metadata_in = h.metadata_in;
  })

  Keeps-set_metadata :
      (p : FilePath)
      → p.dir ≡ setup.metadata_dir
      → Keeps {E = Fault} Held (modify (λ (w : World). record w { metadata_path = some p }))
  Keeps-set_metadata p within = Keeps-modify _ (λ w h. record {
    somewhere = h.somewhere;
    pending = h.pending;
    temporary_in = h.temporary_in;
    final_in = h.final_in;
    metadata_in = λ q e. ap (λ o. (get_or o p).dir) (sym e) ∙ within;
  })

  Keeps-fill :
      (opened : Stat) (source_hash : String) (held : Stat) (temporary final : FilePath)
      → temporary.dir ≡ setup.quarantine_dir
      → final.dir ≡ setup.quarantine_dir
      → Keeps Held (fill_payload sys lib setup source opened source_hash held temporary final)
  Keeps-fill opened source_hash held temporary final t_in f_in =
      let t_out = payload_outside temporary t_in in
      let f_out = payload_outside final f_in in
      search
        (
          keeps_rules, Keeps-copy_fd_to_new_file, Keeps-assert_fd_unchanged, Keeps-move_noreplace,
          Keeps-no_temporary, Keeps-call, Keeps-fsync_directory, held_rules,
        )
        depth 30

  Keeps-store_payload :
      (opened : Stat) (source_hash id : String) (held : Stat)
      → Keeps Held (store_payload sys lib setup source opened source_hash id held)
  unfolding store_payload
  Keeps-store_payload opened source_hash id held =
      Keeps-bind_given _ _ (Keeps-lift _) (payload_path-Gives lib setup.quarantine_dir id)
        (λ final within. Keeps-bind _ _ (Keeps-set_final final within) (λ _.
          Keeps-bind _ _ (Keeps-gets _) (λ unique.
            let temporary = temporary_path setup.quarantine_dir id unique in
            Keeps-bind _ _ (Keeps-set_temporary temporary refl)
              (λ _. Keeps-fill opened source_hash held temporary final refl within))))

  Keeps-save_record : (r : QuarantineRecord) → Keeps Held (save_record sys lib setup source r)
  unfolding save_record
  Keeps-save_record r = Keeps-bind _ _ (Keeps-lift _) (λ _.
      Keeps-bind_given _ _ (Keeps-lift _) (metadata_path-Gives lib setup.metadata_dir _)
        (λ p within. Keeps-bind _ _ (Keeps-set_metadata p within) (λ _.
          Keeps-write_metadata_atomic sys held_rules lib setup.metadata_dir metadata_outside r)))

  pub Held-ready : (w : World) → Ready w → Held w
  Held-ready w h = record {
    somewhere = inl h.at_source;
    pending = λ p e. absurd (none-ne-some p (sym h.no_holding ∙ e));
    temporary_in = λ p e. absurd (none-ne-some p (sym h.no_temporary ∙ e));
    final_in = λ p e. absurd (none-ne-some p (sym h.no_final ∙ e));
    metadata_in = λ p e. absurd (none-ne-some p (sym h.no_metadata ∙ e));
  }

  abbrev ready_rules : Stable Ready (IsOutside source node)
  ready_rules = IsReady-Stable source node

  -- A part of the method that runs before anything is moved.
  Leads-before :
      {A B : Type 0} (m : Method A) (f : A → Method B)
      → Keeps Ready m
      → ((a : A) → Leads Ready Held (f a))
      → Leads Ready Held (m >>= f)
  Leads-before m f kept after = Leads-bind m f kept Held-ready after

  Keeps-check_source : (q : Request) (opened : Stat) → Keeps Ready (check_source sys q opened)
  unfolding check_source
  Keeps-check_source q opened = search keeps_rules depth 20

  pub Leads-secure :
      (q : Request) (pid : Option ℤ) → Leads Ready Held (secure sys lib setup source q pid)
  unfolding secure
  Leads-secure q pid = Leads-before _ _ (Keeps-open_regular_nofollow sys ready_rules) (λ opened.
      Leads-before _ _ (Keeps-check_source q opened) (λ _.
        Leads-before _ _ (Keeps-hash_fd sys ready_rules lib) (λ source_hash.
          Leads-before _ _ (Keeps-assert_fd_unchanged sys ready_rules opened) (λ _.
            Leads-before _ _ (Keeps-lift _) (λ _. Leads-before _ _ (Keeps-gets _) (λ id.
              Leads-then _ _ (Leads-hold opened id) (λ held.
                search (keeps_rules, Keeps-store_payload, Keeps-save_record) depth 20)))))))

  forget_holding-eq_ok :
      (r : QuarantineRecord) (w : World) → (forget_holding sys lib setup source r w).0 ≡ ok r
  unfolding ◌>>=◌ modify attempt pure
  forget_holding-eq_ok r w = refl

  -- Nothing is raised once the file that is held was removed.
  released_fails :
      (p : QuarantineRecord × String) (w : World) (e : Fault)
      → Held w
      → (release sys lib setup source p w).0 ≡ err e
      → Held (release sys lib setup source p w).1
  unfolding release
  released_fails (r, id) w e h raised =
      let m = unlink sys (pending_path source id) in
      elim (unlink-cases sys (pending_path source id) w) [
        | inl (n, failed) ↦
            subst (λ (x : Result Fault QuarantineRecord × World). Held x.1)
              (sym (bind-of_err m _ w failed)) (held_rules.counting w h)
        | inr gone ↦
            let returned =
              ap (λ (x : Result Fault QuarantineRecord × World). x.0) (bind-of_ok m _ w gone) in
            absurd (err-ne-ok (sym raised ∙ returned ∙ forget_holding-eq_ok r _))
      ]

  pub body_fails :
      (s : Result Fault (QuarantineRecord × String)) (w : World) (e : Fault)
      → Held w
      → (elim s as (λ _. Result Fault QuarantineRecord × World) [
        | ok a ↦ release sys lib setup source a w
        | err x ↦ (err x, w)
      ]).0
        ≡ err e
      → Held
          (elim s as (λ _. Result Fault QuarantineRecord × World) [
            | ok a ↦ release sys lib setup source a w
            | err x ↦ (err x, w)
          ]).1
  body_fails (ok p) w e h raised = released_fails p w e h raised
  body_fails (err x) w e h raised = h
