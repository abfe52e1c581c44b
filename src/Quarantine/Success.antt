-- ===== src/Quarantine/Success.antt =====
-- A quarantine that returns has stored the file under its digest.
use elyra.Base.{
  ℕ, String, Bool, true, false, ◌&&◌, ◌≡◌, ◌≢◌, refl, sym, ap, subst, ◌∙◌, Option, length, str_eq,
  eq_iff, arith,
}
use elyra.Base.Int.{ℤ, pos}
use elyra.Base.Dict.{beq_ℤ, beq_ℤ_iff}
use elyra.Base.Outcome.{Result, ok, err, err-ne-ok, raise_if-not-eq-ok, ok_injective}
use elyra.Base.Exec.{
  Keeps-pure, Keeps-modify, Keeps, Keeps-bind, Keeps-lift, exec-eq-ok, gets-eq-ok, lift-eq-ok,
  modify-eq-ok, pure-eq-ok, lift_last,
}
use elyra.Audit.Bytes.{Bytes}
use elyra.Quarantine.Files.{
  FilePath, path_key, Node, Fault, Stat, System, World, Method, attempt, call, unlink,
}
use elyra.Quarantine.Record.{QuarantineRecord, Library, payload_path}
use elyra.Quarantine.Moves.{
  hash_fd, open_regular_nofollow, fsync_directory, move_noreplace, assert_fd_unchanged,
  copy_fd_to_new_file,
}
use elyra.Quarantine.Manager.{
  no_locals, check_source, record_of, hold, secure_held, record_payload, Request, Setup,
  pending_path, fill_payload, store_payload, save_record, secure, release, finish, fail_with,
  rollback_quarantine, body, run, audit, quarantine_file,
}
use elyra.Quarantine.Stable.{
  Keeps-call, Keeps-unlink, Keeps-attempt, Keeps-fsync_directory, Keeps-assert_fd_unchanged,
  Keeps-write_metadata_atomic, payload_path-dir,
}
use elyra.Quarantine.Untouched.{Stands, Stands-Stable, IsOther, Keeps-audit}
use elyra.Quarantine.Copied.{Has, Has-kept, returning, copied_file}
use elyra.Quarantine.Stored.{moved_file}

module _ (sys : System) (lib : Library) (setup : Setup) (source : FilePath) where
  -- The payload of a record, with bytes of its digest and size.
  pub record IsStored (r : QuarantineRecord) (w : World) : Type 0 where
    pub final : FilePath
    pub bytes : Bytes
    pub path_is : payload_path lib setup.quarantine_dir r.quarantine_id ≡ ok final
    pub has : Has final bytes w
    pub digest : lib.sha256 bytes ≡ r.sha256
    pub size : pos (length bytes) ≡ r.size_bytes

  record IsPayload (id : String) (hash : String) (size_is : ℤ) (final : FilePath) (w : World)
      : Type 0 where
    bytes : Bytes
    path_is : payload_path lib setup.quarantine_dir id ≡ ok final
    has : Has final bytes w
    digest : lib.sha256 bytes ≡ hash
    size : pos (length bytes) ≡ size_is

  same_copy :
      (copied : String × ℕ) (hash : String) (n : ℤ)
      → (str_eq copied.0 hash && beq_ℤ (pos copied.1) n) ≡ true
      → (copied.0 ≡ hash) × (pos copied.1 ≡ n)
  same_copy copied hash n e =
      (ground (arith, eq_iff copied.0 hash), (beq_ℤ_iff (pos copied.1) n).0 (ground arith))

  filled :
      (opened : Stat) (hash id : String) (held : Stat) (temporary final : FilePath) (w : World)
      {p : FilePath} {v : World}
      → payload_path lib setup.quarantine_dir id ≡ ok final
      → fill_payload sys lib setup source opened hash held temporary final w ≡ (ok p, v)
      → IsPayload id hash opened.size p v
  filled opened hash id held temporary final w {p} {v} path e =
      let (copied, copy, e1) = exec-eq-ok (copy_fd_to_new_file sys lib temporary) _ w e in
      let (bytes, has0, digest, size) =
        copied_file sys lib temporary w
          (returning (copy_fd_to_new_file sys lib temporary) w copy) in
      let (a, checked, e2) = lift-eq-ok _ _ _ e1 in
      let (same_hash, same_size) =
        same_copy copied hash opened.size (raise_if-not-eq-ok _ _ checked) in
      let (b, stable, e3) = exec-eq-ok (assert_fd_unchanged sys held) _ _ e2 in
      let has1 =
        Has-kept temporary bytes (assert_fd_unchanged sys held) _
          (λ f. Keeps-assert_fd_unchanged sys (Stands-Stable temporary f) held) has0
          (returning (assert_fd_unchanged sys held) _ stable) in
      let (c, moved, e4) = exec-eq-ok (move_noreplace sys temporary final) _ _ e3 in
      let there =
        moved_file sys temporary final has1.node _ has1.there
          (returning (move_noreplace sys temporary final) _ moved) in
      let e5 = modify-eq-ok _ _ _ e4 in
      let (d, chmod, e6) = exec-eq-ok (call sys) _ _ e5 in
      let (g, synced, e7) = exec-eq-ok (fsync_directory sys) _ _ e6 in
      let (is_final, is) = pure-eq-ok _ _ e7 in
      let has2 : Has final bytes _ = record {
        node = has1.node;
        there = there;
        content = has1.content;
      } in
      let has3 =
        Has-kept final bytes (call sys) _ (λ f. Keeps-call sys (Stands-Stable final f)) has2
          (returning (call sys) _ chmod) in
      let has4 =
        Has-kept final bytes (fsync_directory sys) _
          (λ f. Keeps-fsync_directory sys (Stands-Stable final f)) has3
          (returning (fsync_directory sys) _ synced) in
      record {
        bytes = bytes;
        path_is = path ∙ ap ok is_final;
        has = subst (λ q. Has q bytes v) is_final (subst (Has final bytes) is has4);
        digest = digest ∙ same_hash;
        size = ap pos size ∙ same_size;
      }

  stored_payload :
      (opened : Stat) (hash id : String) (held : Stat) (w : World) {p : FilePath} {v : World}
      → store_payload sys lib setup source opened hash id held w ≡ (ok p, v)
      → IsPayload id hash opened.size p v
  unfolding store_payload
  stored_payload opened hash id held w e =
      let (final, path, e1) = lift-eq-ok _ _ _ e in
      let e2 = gets-eq-ok _ _ _ (modify-eq-ok _ _ _ e1) in
      filled opened hash id held _ final _ path (modify-eq-ok _ _ _ e2)

  payload_kept :
      {A : Type 0} (id hash : String) (n : ℤ) (p : FilePath) (m : Method A) (w : World)
      {r : Result Fault A} {v : World}
      → ((f : Node) → Keeps (Stands p f) m)
      → IsPayload id hash n p w
      → m w ≡ (r, v)
      → IsPayload id hash n p v
  payload_kept id hash n p m w k h e = record {
    bytes = h.bytes;
    path_is = h.path_is;
    has = Has-kept p h.bytes m w k h.has e;
    digest = h.digest;
    size = h.size;
  }

  module _ (apart : setup.quarantine_dir ≢ setup.metadata_dir)
      (beside : setup.quarantine_dir ≢ source.dir) where
    saved_kept :
        (r : QuarantineRecord) (p : FilePath) (f : Node)
        → p.dir ≡ setup.quarantine_dir
        → Keeps (Stands p f) (save_record sys lib setup source r)
    unfolding save_record
    saved_kept r p f within =
        let others : (q : FilePath) → q.dir ≡ setup.metadata_dir → IsOther p f q =
          λ q inside same. apart (sym within ∙ ap (λ (x : FilePath). x.dir) (sym same) ∙ inside) in
        let writes =
          Keeps-write_metadata_atomic sys (Stands-Stable p f) lib setup.metadata_dir others r in
        Keeps-bind _ _ (Keeps-lift _) (λ _.
          Keeps-bind _ _ (Keeps-lift _)
            (λ q. Keeps-bind _ _ (Keeps-modify _ (λ w h. h)) (λ _. writes)))

    released_kept :
        (id : String) (r : QuarantineRecord) (p : FilePath) (f : Node)
        → p.dir ≡ setup.quarantine_dir
        → Keeps (Stands p f) (release sys lib setup source (r, id))
    unfolding release
    released_kept id r p f within =
        let rules = Stands-Stable p f in
        let other : IsOther p f (pending_path source id) =
          λ same. beside (sym within ∙ ap (λ (x : FilePath). x.dir) (sym same)) in
        Keeps-bind _ _ (Keeps-unlink sys rules _ other) (λ _.
          Keeps-bind _ _ (Keeps-modify _ (λ w h. h)) (λ _.
            Keeps-bind _ _ (Keeps-attempt sys rules _ (Keeps-fsync_directory sys rules))
              (λ synced. Keeps-pure r)))

    released_record :
        (r : QuarantineRecord) (id : String) (w : World) {t : QuarantineRecord} {v : World}
        → release sys lib setup source (r, id) w ≡ (ok t, v)
        → r ≡ t
    unfolding release
    released_record r id w e =
        let (_, _, e1) = exec-eq-ok (unlink sys (pending_path source id)) _ w e in
        let (_, _, e2) = exec-eq-ok (attempt (fsync_directory sys)) _ _ (modify-eq-ok _ _ _ e1) in
        (pure-eq-ok _ _ e2).0

    recorded :
        (q : Request) (pid : Option ℤ) (opened : Stat) (hash id : String) (p : FilePath) (w : World)
        {s : QuarantineRecord × String} {v : World}
        → IsPayload id hash opened.size p w
        → record_payload sys lib setup source q pid opened hash id p w ≡ (ok s, v)
        → IsPayload s.0.quarantine_id s.0.sha256 s.0.size_bytes p v
    recorded q pid opened hash id p w {s} {v} h e =
        let e1 = gets-eq-ok _ _ _ (gets-eq-ok _ _ _ e) in
        let r =
          record_of sys lib setup source q opened hash id pid (lib.file_type_at w.calls p)
            (sys.time w.calls) in
        let (_, saved, e2) = exec-eq-ok (save_record sys lib setup source r) _ w e1 in
        let (same, is) = pure-eq-ok _ _ e2 in
        let within = payload_path-dir lib setup.quarantine_dir id p h.path_is in
        let h1 =
          payload_kept id hash opened.size p (save_record sys lib setup source r) w
            (λ f. saved_kept r p f within) h
            (returning (save_record sys lib setup source r) w saved) in
        subst (λ u. IsPayload s.0.quarantine_id s.0.sha256 s.0.size_bytes p u) is
          (subst
            (λ (t : QuarantineRecord × String).
              IsPayload t.0.quarantine_id t.0.sha256 t.0.size_bytes p
                (save_record sys lib setup source r w).1)
            same h1)

    held_secured :
        (q : Request) (pid : Option ℤ) (opened : Stat) (hash id : String) (w : World)
        {s : QuarantineRecord × String} {v : World}
        → secure_held sys lib setup source q pid opened hash id w ≡ (ok s, v)
        → (p : FilePath) × IsPayload s.0.quarantine_id s.0.sha256 s.0.size_bytes p v
    held_secured q pid opened hash id w e =
        let (held, _, e1) = exec-eq-ok (hold sys lib setup source opened id) _ w e in
        let m = store_payload sys lib setup source opened hash id held in
        let (p, stored, e2) = exec-eq-ok m _ _ e1 in
        let h = stored_payload opened hash id held _ (returning m _ stored) in
        (p, recorded q pid opened hash id p _ h e2)

    secured :
        (q : Request) (pid : Option ℤ) (w : World) {s : QuarantineRecord × String} {v : World}
        → secure sys lib setup source q pid w ≡ (ok s, v)
        → (p : FilePath) × IsPayload s.0.quarantine_id s.0.sha256 s.0.size_bytes p v
    unfolding secure
    secured q pid w e =
        let (opened, _, e1) = exec-eq-ok (open_regular_nofollow sys) _ w e in
        let (_, _, e2) = exec-eq-ok (check_source sys q opened) _ _ e1 in
        let (hash, _, e3) = exec-eq-ok (hash_fd sys lib) _ _ e2 in
        let (_, _, e4) = exec-eq-ok (assert_fd_unchanged sys opened) _ _ e3 in
        let (_, _, e5) = lift-eq-ok _ _ _ e4 in
        held_secured q pid opened hash _ _ (gets-eq-ok _ _ _ e5)

    body_stored :
        (q : Request) (pid : Option ℤ) (w : World) {r : QuarantineRecord} {v : World}
        → body sys lib setup source q pid w ≡ (ok r, v)
        → (p : FilePath) × IsPayload r.quarantine_id r.sha256 r.size_bytes p v
    unfolding release
    body_stored q pid w {r} {v} e =
        let ((saved, id), done, e1) = exec-eq-ok (secure sys lib setup source q pid) _ w e in
        let (p, h) = secured q pid w (returning (secure sys lib setup source q pid) w done) in
        let within = payload_path-dir lib setup.quarantine_dir _ p h.path_is in
        let h1 =
          payload_kept _ _ _ p (release sys lib setup source (saved, id)) _
            (λ f. released_kept id saved p f within) h e1 in
        (
          p,
          subst (λ (t : QuarantineRecord). IsPayload t.quarantine_id t.sha256 t.size_bytes p v)
              (released_record saved id _ e1) h1,
        )

    failed_with :
        (e : Fault) (complete : Bool) (w : World) {r : QuarantineRecord} {v : World}
        → fail_with sys lib setup source e complete w ≡ (ok r, v)
        → ⊥
    failed_with e true w h = err-ne-ok (lift_last _ _ h).0
    failed_with e false w h = err-ne-ok (lift_last _ _ h).0

    finished_stored :
        (s : Result Fault QuarantineRecord) (w : World) {r : QuarantineRecord} {v : World}
        → ((t : QuarantineRecord)
            → s ≡ ok t
            → (p : FilePath) × IsPayload t.quarantine_id t.sha256 t.size_bytes p w)
        → finish sys lib setup source s w ≡ (ok r, v)
        → (p : FilePath) × IsPayload r.quarantine_id r.sha256 r.size_bytes p v
    finished_stored (ok t) w {r} {v} given e =
        let (_, audited, e1) = exec-eq-ok (audit sys setup.has_audit_log) _ w e in
        let (same, is) = pure-eq-ok _ _ e1 in
        let (p, h) = given t refl in
        let within = payload_path-dir lib setup.quarantine_dir _ p h.path_is in
        let h1 =
          payload_kept _ _ _ p (audit sys setup.has_audit_log) w
            (λ f.
              Keeps-audit p f sys lib setup (λ inside. apart (sym within ∙ inside))
                setup.has_audit_log)
            h (returning (audit sys setup.has_audit_log) w audited) in
        (
          p,
          subst (λ u. IsPayload r.quarantine_id r.sha256 r.size_bytes p u) is
              (subst
                (λ (x : QuarantineRecord).
                  IsPayload x.quarantine_id x.sha256 x.size_bytes p
                    (audit sys setup.has_audit_log w).1)
                same h1),
        )
    finished_stored (err x) w given e =
        let (complete, _, e1) = exec-eq-ok (rollback_quarantine sys source) _ w e in
        absurd (failed_with x complete _ e1)

    ran_stored :
        (q : Request) (pid : Option ℤ) (w : World) {r : QuarantineRecord} {v : World}
        → run sys lib setup source q pid w ≡ (ok r, v)
        → (p : FilePath) × IsPayload r.quarantine_id r.sha256 r.size_bytes p v
    unfolding attempt
    ran_stored q pid w {r} {v} e =
        let m = body sys lib setup source q pid in
        let fresh = no_locals sys lib setup source w in
        let (s, tried, e1) =
          exec-eq-ok (attempt m) (finish sys lib setup source) fresh (modify-eq-ok _ _ _ e) in
        finished_stored s (m fresh).1
          (λ t is. body_stored q pid fresh (returning m fresh (ok_injective tried ∙ is))) e1

    -- A quarantine that returns has left, under the identifier of its record, a payload whose bytes have
    -- the digest and the size that the record names, if the directory of the payloads is neither that of
    -- the metadata nor that of the file.
    pub returned_quarantine_stores_file :
        (q : Request) (w : World) (r : QuarantineRecord)
        → (quarantine_file sys lib setup source q w).0 ≡ ok r
        → IsStored r (quarantine_file sys lib setup source q w).1
    unfolding quarantine_file
    returned_quarantine_stores_file q w r e =
        let (_, _, e1) =
          lift-eq-ok _ _ _ (returning (quarantine_file sys lib setup source q) w e) in
        let (_, _, e2) = lift-eq-ok _ _ _ e1 in
        let (_, _, e3) = lift-eq-ok _ _ _ e2 in
        let (pid, _, e4) = lift-eq-ok _ _ _ e3 in
        let (p, h) = ran_stored q pid w e4 in
        record {
          final = p;
          bytes = h.bytes;
          path_is = h.path_is;
          has = h.has;
          digest = h.digest;
          size = h.size;
        }
