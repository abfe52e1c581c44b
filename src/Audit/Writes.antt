-- ===== src/Audit/Writes.antt =====
-- What the methods of the audit log do when they return.
use elyra.Base.{
  ℕ, suc, ◌+◌, ◌≤◌, ◌≡◌, refl, sym, ap, ◌∙◌, String, Bool, true, false, not, ◌&&◌, ◌||◌, Option,
  none, some, List, [], ◌∷◌, ◌++◌, arith, length, Bool-cases, inl, inr, ◌⊎◌, ltb, ◌==◌,
  if◌then◌else◌,
}
use elyra.Base.Outcome.{
  Result, ok, err, raise_if, raise_if-eq-ok, raise_if-not-eq-ok, ok_injective, err-ne-ok,
}
use elyra.Base.Exec.{exec-eq-ok, lift-eq-ok, gets-eq-ok, modify-eq-ok, pure-eq-ok, lift_last}
use elyra.Base.Value.{PyError, Builtins}
use elyra.Audit.Bytes.{Bytes}
use elyra.Audit.Record.{Json}
use elyra.Audit.Verify.{File, regular}
use elyra.Audit.Disk.{rotate_files, exists, size_of}
use elyra.Audit.Logger.{
  AuditConfig, AuditLogger, AuditFault, os_error, value_error, encoded, Moment, Entry,
}
use elyra.Audit.Methods.{
  assert_regular, rotate_present, rotate_locked, make_room, appended, append_bytes_locked,
  write_entry,
}

rotate_present-cases :
    (cfg : AuditConfig) (file : Option File) (l m : AuditLogger) (b : Bool)
    → rotate_present cfg file l ≡ (ok b, m)
    → (m ≡ l)
      ⊎ ((f : File) × (file ≡ some f)
          × (m ≡ record l { disk = rotate_files cfg.backup_count f l.disk }))
rotate_present-cases cfg none l m b h = inl (sym (pure-eq-ok false l h).1)
rotate_present-cases cfg (some f) l m b h =
    let (u, allowed, e1) = lift-eq-ok (assert_regular f) _ l h in
    let e2 = modify-eq-ok _ _ l e1 in inr (f, refl, sym (pure-eq-ok true _ e2).1)

-- What a rotation that returns does.
pub rotate_locked-cases :
    (cfg : AuditConfig) (l m : AuditLogger) (b : Bool)
    → rotate_locked cfg l ≡ (ok b, m)
    → (m ≡ l)
      ⊎ ((f : File) × (l.disk.active_file ≡ some f)
          × (m ≡ record l { disk = rotate_files cfg.backup_count f l.disk }))
unfolding rotate_locked
rotate_locked-cases cfg l m b h =
    let file = l.disk.active_file in
    let e = gets-eq-ok (λ (l : AuditLogger). l.disk.active_file) _ l h in
    elim (Bool-cases (not (exists file) || size_of file == 0)) [
      | inl empty ↦ inl (sym (pure-eq-ok false l (rw empty at e)).1)
      | inr full ↦ rotate_present-cases cfg file l m b (rw full at e)
    ]

make_room-cases :
    (cfg : AuditConfig) (line : ℕ) (l m : AuditLogger) (b : Bool)
    → make_room cfg line l ≡ (ok b, m)
    → (m ≡ l)
      ⊎ ((f : File) × (l.disk.active_file ≡ some f)
          × (m ≡ record l { disk = rotate_files cfg.backup_count f l.disk }))
unfolding make_room
make_room-cases cfg line l m b h =
    let file = l.disk.active_file in
    let size = if exists file then size_of file else 0 in
    let e = gets-eq-ok (λ (l : AuditLogger). l.disk.active_file) _ l h in
    elim (Bool-cases (not (size == 0) && ltb cfg.max_bytes (size + line))) [
      | inl full ↦ rotate_locked-cases cfg l m b (rw full at e)
      | inr free ↦ inl (sym (pure-eq-ok false l (rw free at e)).1)
    ]

not_ltb : (a b : ℕ) → ltb a b ≡ false → b ≤ a
not_ltb a b h = ground arith

pair_eq :
    {A : Type 0} (r : Result AuditFault A × AuditLogger) {a : A} → r.0 ≡ ok a → r ≡ (ok a, r.1)
pair_eq r e = ap (λ (x : Result AuditFault _). (x, r.1)) e

-- What an append that returns does.
append_bytes_locked-Written :
    (writes : List ℕ) (line : Bytes) (l m : AuditLogger)
    → append_bytes_locked writes line l ≡ (ok tt, m)
    → (content : Bytes) × (appended writes line l.disk.active_file ≡ ok (content, true))
      × (m ≡ record l { disk = record l.disk { active_file = some (regular content) } })
unfolding append_bytes_locked
append_bytes_locked-Written writes line l m h =
    let e1 = gets-eq-ok (λ (l : AuditLogger). l.disk.active_file) _ l h in
    let (written, filled, e2) = lift-eq-ok (appended writes line l.disk.active_file) _ l e1 in
    let e3 = modify-eq-ok _ _ l e2 in
    let (full, same) = lift_last _ _ e3 in
    (
      written.0,
      filled ∙ ap (λ (b : Bool). ok (written.0, b)) (raise_if-not-eq-ok written.1 os_error full),
      sym same,
    )

module _ (lib : Builtins) (js : Json) (cfg : AuditConfig) where
  -- What `_append_record_locked` does with an entry that it writes: `m` is the logger after a
  -- rotation, if there is one.
  pub record Writes (l l' : AuditLogger) (at : Moment) (entry : Entry) : Type 0 where
    pub line : Bytes
    pub dumped : js.dumps entry.fields ≡ ok line
    pub fits : suc (length line) ≤ cfg.max_record_bytes
    pub room : AuditLogger
    pub made :
        (room ≡ l)
        ⊎ ((f : File) × (l.disk.active_file ≡ some f)
            × (room ≡ record l { disk = rotate_files cfg.backup_count f l.disk }))
    pub content : Bytes
    pub filled : appended at.writes (line ++ 10 ∷ []) room.disk.active_file ≡ ok (content, true)
    pub result : l' ≡ record room {
      disk = record room.disk { active_file = some (regular content) };
      last_hash = entry.hash;
      last_sequence = entry.sequence;
    }

  encoded-eq_ok : (r : Result PyError Bytes) {b : Bytes} → encoded r ≡ ok b → r ≡ ok b
  encoded-eq_ok (ok b) e = ap ok (ok_injective e)
  encoded-eq_ok (err x) e = absurd (err-ne-ok e)

  pub write_entry-Writes :
      (at : Moment) (entry : Entry) (l l' : AuditLogger) {h : String}
      → write_entry lib js cfg at entry l ≡ (ok h, l')
      → Writes l l' at entry × (h ≡ entry.hash)
  unfolding write_entry
  write_entry-Writes at entry l l' e =
      let (line, dumped, e1) = lift-eq-ok (encoded (js.dumps entry.fields)) _ l e in
      let (u, fits, e2) =
        lift-eq-ok (raise_if (ltb cfg.max_record_bytes (suc (length line))) value_error) _ l e1 in
      let (b, moved, e3) = exec-eq-ok (make_room cfg (suc (length line))) _ l e2 in
      let m = (make_room cfg (suc (length line)) l).1 in
      let (v, added, e4) = exec-eq-ok (append_bytes_locked at.writes (line ++ 10 ∷ [])) _ m e3 in
      let (content, filled, left) =
        append_bytes_locked-Written at.writes (line ++ 10 ∷ []) m
          (append_bytes_locked at.writes (line ++ 10 ∷ []) m).1 (pair_eq _ added) in
      let (same_hash, same) = pure-eq-ok entry.hash _ (modify-eq-ok _ _ _ e4) in
      (
        record {
          line = line;
          dumped = encoded-eq_ok (js.dumps entry.fields) dumped;
          fits = not_ltb _ _ (raise_if-eq-ok _ value_error fits);
          room = m;
          made = make_room-cases cfg (suc (length line)) l m b (pair_eq _ moved);
          content = content;
          filled = filled;
          result =
              sym same
              ∙ ap
                  (λ (k : AuditLogger). record k {
                    last_hash = entry.hash;
                    last_sequence = entry.sequence;
                  })
                  left;
        },
        sym same_hash,
      )
