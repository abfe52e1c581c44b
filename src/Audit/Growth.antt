-- ===== src/Audit/Growth.antt =====
-- Records that were written one after another make a log that is verified.
use elyra.Base.{
  ℕ, suc, ◌≤◌, ◌<◌, ◌≡◌, refl, sym, ap, subst, ◌∙◌, String, true, none, some, [], ◌∷◌, ◌++◌, arith,
  length, inl, inr, ◌⊎◌,
}
use native.Mathlib.Decide.{dec_le}
use elyra.Base.Int.{ℤ, pos, ◌+ℤ◌}
use elyra.Base.Outcome.{Result, ok, err, ok_injective, err-ne-ok}
use elyra.Base.Exec.{lift-eq-ok, gets-eq-ok, modify-eq-ok}
use elyra.Base.Value.{float, text, dict, Fields, set, PyError, Builtins}
use elyra.Audit.Bytes.{Bytes}
use elyra.Audit.Record.{Json, validate_hex_hash, record_hash, safe_fields}
use elyra.Audit.Verify.{
  Cursor, start, check_log, File, regular, Log, passed, report, verify_audit_directory,
}
use elyra.Audit.Disk.{Disk, rotated_log, segments_for, largest_index, rotate_files}
use elyra.Audit.Logger.{
  AuditConfig, AuditLogger, Moment, Entry, tail_bytes, tail_state, unhashed_entry, hashed_entry,
  build_entry, check_name, payload_fields,
}
use elyra.Audit.Methods.{append_record_locked}
use elyra.Audit.Behind.{Behind, start-Behind, check_log-Behind}
use elyra.Audit.JsonLaws.{IsPlain, JsonLaws}
use elyra.Audit.Entry.{
  EndsWith, built-IsPlain, built-hash, built-sequence, check_line-built, dumps-is_blank_line,
  record_hash-hex,
}
use elyra.Audit.Rotation.{rotate_files-Behind, rotate_files_room, largest_index-rotate_files}
use elyra.Audit.Writes.{Writes, write_entry-Writes}
use elyra.Audit.Tail.{tail_state-hex}
use elyra.Audit.Continued.{Holds-is_whole, appended-content, check_log-line, tail_state-line}

module _ (lib : Builtins) (js : Json) where
  -- The log is verified up to the variables `c`, and the last record in the files is the last one of
  -- the verification.
  pub record IsContinued (l : AuditLogger) (c : Cursor) : Type 0 where
    pub verified : check_log lib js start (segments_for l.disk) ≡ ok c
    pub tail : tail_state lib js l ≡ ok (c.last, c.sequence)

  -- A verification from anywhere in the log ends where the next record continues.
  Behind-EndsWith : (d c : Cursor) → Behind d c → EndsWith d c.last c.sequence
  Behind-EndsWith d c b = record { link = ends b.link; low = b.low }
    where
      ends :
          (d.previous ≡ none) ⊎ ((d.previous ≡ c.previous) × (d.last ≡ c.last))
          → (d.previous ≡ none) ⊎ (d.previous ≡ some c.last)
      ends (inl new) = inl new
      ends (inr (same, last)) = elim b.settled [
        | inl none_yet ↦ inl (same ∙ none_yet)
        | inr settled ↦ inr (same ∙ settled)
      ]

  check_log-settled : (log : Log) {c : Cursor} → check_log lib js start log ≡ ok c → Behind c c
  check_log-settled log {c} p =
      let (e, q, b) = check_log-Behind lib js start start log start-Behind p in
      let same : e ≡ c = ok_injective (sym q ∙ p) in subst (λ (k : Cursor). Behind k c) same b

  abbrev entry_at : AuditLogger → Moment → String → String → Fields → Fields
  entry_at l at source subject payload =
      unhashed_entry lib js l at (text source) (text subject) payload

  hashed_entry-eq_ok :
      (fs : Fields) (n : ℤ) (r : Result PyError String) {entry : Entry}
      → hashed_entry fs n r ≡ ok entry
      → (h : String) × (r ≡ ok h)
        × (record { fields = set "record_hash" (text h) fs; hash = h; sequence = n } ≡ entry)
  hashed_entry-eq_ok fs n (ok h) e = (h, refl, ok_injective e)
  hashed_entry-eq_ok fs n (err x) e = absurd (err-ne-ok e)

  -- What the record finds where it is appended, after a rotation if there was one.
  record Ready (l : AuditLogger) (room : Disk) (c : Cursor) (backups : ℕ) : Type 0 where
    reached : Cursor
    checked : check_log lib js start (segments_for room) ≡ ok reached
    ends : EndsWith reached l.last_hash l.last_sequence
    counted : suc (length l.disk.rotated_files) ≤ backups → reached.count ≡ c.count
    grown : largest_index room.rotated_files ≤ suc (largest_index l.disk.rotated_files)

  module _ (cfg : AuditConfig) (l : AuditLogger) (c : Cursor)
      (verified : check_log lib js start (segments_for l.disk) ≡ ok c)
      (same_hash : c.last ≡ l.last_hash) (same_number : c.sequence ≡ l.last_sequence)
      (small : largest_index l.disk.rotated_files < 999999) where
    moved : (d : Cursor) → Behind d c → EndsWith d l.last_hash l.last_sequence
    moved d b =
        subst (λ (s : String). EndsWith d s l.last_sequence) same_hash
          (subst (λ (n : ℤ). EndsWith d c.last n) same_number (Behind-EndsWith d c b))

    Ready-as_is : Ready l l.disk c cfg.backup_count
    Ready-as_is = record {
      reached = c;
      checked = verified;
      ends = moved c (check_log-settled (segments_for l.disk) verified);
      counted = λ room. refl;
      grown = omega arith;
    }

    Ready-rotated :
        (f : File)
        → l.disk.active_file ≡ some f
        → Ready l (rotate_files cfg.backup_count f l.disk) c cfg.backup_count
    Ready-rotated f present =
        let (e, q, b) =
          rotate_files-Behind lib js cfg.backup_count f l.disk present small verified in
        record {
          reached = e;
          checked = q;
          ends = moved e b;
          counted = λ room.
              ap (λ (k : Cursor). k.count)
                (ok_injective (
                  sym q
                  ∙ rotate_files_room lib js cfg.backup_count f l.disk present small room
                      verified));
          grown = largest_index-rotate_files cfg.backup_count f l.disk small;
        }

    Writes-Ready :
        (l' : AuditLogger) (at : Moment) (entry : Entry) (w : Writes lib js cfg l l' at entry)
        → Ready l w.room.disk c cfg.backup_count
    Writes-Ready l' at entry w = elim w.made [
      | inl same ↦
          subst (λ (m : AuditLogger). Ready l m.disk c cfg.backup_count) (sym same) Ready-as_is
      | inr (f, present, same) ↦
          subst (λ (m : AuditLogger). Ready l m.disk c cfg.backup_count) (sym same)
            (Ready-rotated f present)
    ]

  module _ (laws : JsonLaws js) (cfg : AuditConfig) (short : cfg.max_record_bytes ≤ tail_bytes)
      (l l' : AuditLogger) (c : Cursor) (at : Moment) (source subject : String) (payload : Fields)
      (finite_time : IsPlain (float at.timestamp)) (plain : IsPlain (dict (safe_fields payload)))
      (last_hex : validate_hex_hash (text l.last_hash) ≡ true) where
    written-IsContinued :
        (entry : Entry) (w : Writes lib js cfg l l' at entry)
        → build_entry lib js l at (text source) (text subject) payload ≡ ok entry
        → Ready l w.room.disk c cfg.backup_count
        → (d : Cursor) × IsContinued l' d
          × (d.last ≡ entry.hash)
          × (d.sequence ≡ l.last_sequence +ℤ pos 1)
          × (suc (length l.disk.rotated_files) ≤ cfg.backup_count → d.count ≡ suc c.count)
          × (largest_index l'.disk.rotated_files ≤ suc (largest_index l.disk.rotated_files))
    unfolding build_entry
    written-IsContinued entry w b r =
        let (h, hashed, same) =
          hashed_entry-eq_ok (entry_at l at source subject payload) (l.last_sequence +ℤ pos 1)
            (record_hash lib js (entry_at l at source subject payload)) b in
        let fs = set "record_hash" (text h) (entry_at l at source subject payload) in
        let hex =
          record_hash-hex lib js laws l at source subject payload
            (entry_at l at source subject payload) h hashed in
        let dumped : js.dumps fs ≡ ok w.line =
          ap (λ (e : Entry). js.dumps e.fields) same ∙ w.dumped in
        let (raw, held, grown) =
          appended-content at.writes (w.line ++ 10 ∷ []) w.room.disk.active_file w.filled in
        let (d, checked, previous, last, number, count) =
          check_line-built lib js laws l at source subject payload r.reached h w.line r.ends
            last_hex hashed hex finite_time plain dumped in
        let unbroken = laws.one_line fs w.line dumped in
        let disk : l'.disk
            ≡ record w.room.disk { active_file = some (regular (raw ++ (w.line ++ 10 ∷ []))) } =
          ap (λ (m : AuditLogger). m.disk) w.result
          ∙ ap (λ (b : Bytes). record w.room.disk { active_file = some (regular b) }) grown in
        let verified =
          check_log-line lib js w.room.disk raw w.line r.checked held checked unbroken in
        (
          d,
          record {
            verified = ap (λ (k : Disk). check_log lib js start (segments_for k)) disk ∙ verified;
            tail =
                tail_state-line lib js l' (rotated_log w.room.disk.rotated_files) raw w.line fs h
                  (l.last_sequence +ℤ pos 1) (ap segments_for disk ∙ (unfold segments_for in refl))
                  (omega arith) (Holds-is_whole lib js w.room.disk raw r.checked held) unbroken
                  (dumps-is_blank_line js laws fs w.line dumped)
                  (laws.loads-dumps fs w.line
                    (built-IsPlain lib js laws l at source subject payload h finite_time plain)
                    dumped)
                  (built-hash lib js laws l at source subject payload h)
                  (built-sequence lib js laws l at source subject payload h) hex
                ∙ ap (λ (s : String). ok (s, l.last_sequence +ℤ pos 1)) (sym last)
                ∙ ap (λ (k : ℤ). ok (d.last, k)) (sym number);
          },
          last ∙ ap (λ (e : Entry). e.hash) same,
          number,
          λ room. count ∙ ap suc (r.counted room),
          subst
              (λ (k : Disk).
                largest_index k.rotated_files ≤ suc (largest_index l.disk.rotated_files))
              (sym disk) r.grown,
        )

room_or_full : {P : Type 0} (a b : ℕ) → (suc a ≤ b → P) → P ⊎ (b ≤ a)
room_or_full a b f = elim (dec_le (suc a) b) [
  | yes room ↦ inl (f room)
  | no full ↦ inr (omega arith)
]

module _ (lib : Builtins) (js : Json) (laws : JsonLaws js) (cfg : AuditConfig) where
  -- A record that is written to a log that is verified and continued leaves such a log. The verification
  -- then ends with the hash that `record` returned and with the next sequence number, and it counts
  -- one record more, unless there are as many rotated files as may be kept; at most one index of a
  -- rotated file is used up. JSON texts and digests are as documented, records are no longer than the
  -- part of the file that is read from its end, the indices of rotated files have room for one more of
  -- six digits, and the payload is made of values that JSON has.
  pub record-IsContinued :
      (l l' : AuditLogger) (c : Cursor) (at : Moment) (source subject : String) (payload : Fields)
      (h : String)
      → cfg.max_record_bytes ≤ tail_bytes
      → IsContinued lib js l c
      → largest_index l.disk.rotated_files < 999999
      → IsPlain (float at.timestamp)
      → IsPlain (dict (safe_fields payload))
      → append_record_locked lib js cfg at (text source) (text subject) (dict payload) l
        ≡ (ok h, l')
      → (d : Cursor) × IsContinued lib js l' d
        × (verify_audit_directory lib js (segments_for l'.disk)
            ≡ ok (passed lib js (length (segments_for l'.disk)) d))
        × (d.last ≡ h)
        × (d.sequence ≡ c.sequence +ℤ pos 1)
        × ((d.count ≡ suc c.count) ⊎ (cfg.backup_count ≤ length l.disk.rotated_files))
        × (largest_index l'.disk.rotated_files ≤ suc (largest_index l.disk.rotated_files))
  unfolding append_record_locked verify_audit_directory
  record-IsContinued l l' c at source subject payload h short k small finite_time plain e =
      let (u, n1, e1) = lift-eq-ok (check_name (text source)) _ l e in
      let (v, n2, e2) = lift-eq-ok (check_name (text subject)) _ l e1 in
      let (fields, same, e3) = lift-eq-ok (payload_fields (dict payload)) _ l e2 in
      let e4 = gets-eq-ok (tail_state lib js) _ l e3 in
      let (tail, found, e5) = lift-eq-ok (tail_state lib js l) _ l e4 in
      let m = record l { last_hash = tail.0; last_sequence = tail.1 } in
      let e6 = modify-eq-ok _ _ l e5 in
      let e7 = gets-eq-ok _ _ m e6 in
      let (entry, built, e8) =
        lift-eq-ok (build_entry lib js m at (text source) (text subject) fields) _ m e7 in
      let (w, hash) = write_entry-Writes lib js cfg at entry m l' e8 in
      let known : ◌≡◌ {A = String × ℤ} (c.last, c.sequence) tail =
        ok_injective (sym k.tail ∙ found) in
      let fields_plain : IsPlain (dict (safe_fields fields)) =
        subst (λ (fs : Fields). IsPlain (dict (safe_fields fs))) (ok_injective same) plain in
      let ready =
        Writes-Ready lib js cfg m c k.verified (ap (λ (p : String × ℤ). p.0) known)
          (ap (λ (p : String × ℤ). p.1) known) small l' at entry w in
      let (d, continued, last, number, count, grown) =
        written-IsContinued lib js laws cfg short m l' c at source subject fields finite_time
          fields_plain (tail_state-hex lib js l found) entry w built ready in
      (
        d,
        continued,
        ap (report lib js (length (segments_for l'.disk))) continued.verified,
        last ∙ sym hash,
        number ∙ ap (λ (n : ℤ). n +ℤ pos 1) (sym (ap (λ (p : String × ℤ). p.1) known)),
        room_or_full (length l.disk.rotated_files) cfg.backup_count count,
        grown,
      )
