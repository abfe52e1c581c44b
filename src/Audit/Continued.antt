-- ===== src/Audit/Continued.antt =====
-- The audit log after a record was written: it is verified to its end, and the next record finds there
-- what it continues.
use mathlib.Core.List.{reverse, reverse-append, append-nil}
use elyra.Base.{
  ℕ, suc, ◌-◌, ◌≤◌, ◌≡◌, refl, sym, ap, ◌∙◌, String, Bool, true, false, Option, none, some, List,
  [], ◌∷◌, ◌++◌, arith, length, length-append,
}
use elyra.Base.Int.{ℤ}
use elyra.Base.Outcome.{ok, bind-eq-ok, ok_injective, err-ne-ok}
use elyra.Base.Value.{int, text, dict, Fields, get, Builtins}
use elyra.Audit.Bytes.{Bytes, is_blank_line, is_whole, split_lines, lines_from, last_line}
use elyra.Audit.Record.{Json, Segment, active, validate_hex_hash}
use elyra.Audit.Verify.{
  Cursor, start, check_line, check_bytes, check_lines, check_file, check_log, File, regular,
  symbolic_link, special, unreadable, Log,
}
use elyra.Audit.Disk.{Disk, active_log, rotated_log, segments_for, write_all}
use elyra.Audit.Logger.{AuditLogger, tail_bytes, window, tail_of, tail_state}
use elyra.Audit.Methods.{appended}
use elyra.Audit.Lines.{Unbroken, last_line-drop}
use elyra.Audit.Append.{
  write_all-prefix, check_bytes-append, check_bytes-is_whole, check_log-append, check_log-split,
}

-- The bytes of the active file, none if it is missing.
abbrev pub Holds : Option File → Bytes → Type 0
Holds none raw = raw ≡ []
Holds (some (regular b)) raw = raw ≡ b
Holds (some (symbolic_link t)) raw = ⊥
Holds (some (special n)) raw = ⊥
Holds (some (unreadable n)) raw = ⊥

write_all-full :
    (kernel : List ℕ) (line raw content : Bytes)
    → write_all kernel line raw ≡ (content, true)
    → content ≡ raw ++ line
write_all-full kernel line raw content e =
    let (done, torn, whole, written, full, left) = write_all-prefix kernel line raw in
    let nothing : torn ≡ [] = full (ap (λ (x : Bytes × Bool). x.1) e) in
    let all_done : done ≡ line =
      sym (append-nil done) ∙ ap (λ (t : Bytes). done ++ t) (sym nothing) ∙ whole in
    sym (ap (λ (x : Bytes × Bool). x.0) e) ∙ written ∙ ap (λ (d : Bytes). raw ++ d) all_done

-- An append that returns leaves what was there with the whole line behind it.
pub appended-content :
    (kernel : List ℕ) (line : Bytes) (file : Option File) {content : Bytes}
    → appended kernel line file ≡ ok (content, true)
    → (raw : Bytes) × Holds file raw × (content ≡ raw ++ line)
appended-content kernel line none {content} e =
    ([], refl, write_all-full kernel line [] content (ok_injective e))
appended-content kernel line (some (regular raw)) {content} e =
    (raw, refl, write_all-full kernel line raw content (ok_injective e))
appended-content kernel line (some (symbolic_link t)) e = absurd (err-ne-ok e)
appended-content kernel line (some (special n)) e = absurd (err-ne-ok e)
appended-content kernel line (some (unreadable n)) e = absurd (err-ne-ok e)

module _ (lib : Builtins) (js : Json) where
  active-bytes :
      (c : Cursor) (file : Option File) (raw : Bytes) {d : Cursor}
      → Holds file raw
      → check_log lib js c (active_log file) ≡ ok d
      → check_bytes lib js active c raw ≡ ok d
  unfolding check_log check_file check_bytes is_whole lines_from check_lines
  active-bytes c none raw h e = rw h e
  active-bytes c (some (regular b)) raw h e =
      let (k, first, last) =
        bind-eq-ok (check_file lib js active c (regular b)) (λ (k : Cursor). check_log lib js k [])
          e in
      rw h (first ∙ last)
  active-bytes c (some (symbolic_link t)) raw h e = absurd h
  active-bytes c (some (special n)) raw h e = absurd h
  active-bytes c (some (unreadable n)) raw h e = absurd h

  pub Holds-is_whole :
      (disk : Disk) (raw : Bytes) {c : Cursor}
      → check_log lib js start (segments_for disk) ≡ ok c
      → Holds disk.active_file raw
      → is_whole raw ≡ true
  unfolding segments_for
  Holds-is_whole disk raw p held =
      let (e, first, last) =
        check_log-split lib js start (rotated_log disk.rotated_files) (active_log disk.active_file)
          p in
      (check_bytes-is_whole lib js active e raw (active-bytes e disk.active_file raw held last)).0

  -- The log with one more line in its active file.
  pub check_log-line :
      (disk : Disk) (raw line : Bytes) {c d : Cursor}
      → check_log lib js start (segments_for disk) ≡ ok c
      → Holds disk.active_file raw
      → check_line lib js c line ≡ ok d
      → Unbroken line
      → check_log lib js start
          (segments_for (record disk { active_file = some (regular (raw ++ (line ++ 10 ∷ []))) }))
        ≡ ok d
  unfolding segments_for
  check_log-line disk raw line p held q u =
      let (e, first, last) =
        check_log-split lib js start (rotated_log disk.rotated_files) (active_log disk.active_file)
          p in
      let longer =
        check_bytes-append lib js active e raw line (active-bytes e disk.active_file raw held last)
          q u in
      check_log-append lib js start (rotated_log disk.rotated_files)
        (active_log (some (regular (raw ++ (line ++ 10 ∷ []))))) first
      ∙ unfold check_log in unfold check_file in rw longer refl

  tail_of-line :
      (segments : ℕ) (memory : ℤ) (s : Segment) (content line : Bytes) (earlier : Log) (fs : Fields)
      (h : String) (n : ℤ)
      → last_line (split_lines (window content)) ≡ some line
      → js.loads line ≡ some (dict fs)
      → get "record_hash" fs ≡ text h
      → get "sequence" fs ≡ int n
      → validate_hex_hash (text h) ≡ true
      → tail_of lib js segments memory ((s, regular content) ∷ earlier) ≡ ok (h, n)
  unfolding tail_of
  tail_of-line segments memory s content line earlier fs h n last reread hash_is number_is hex =
      rw (last, tail_of) (rw reread (rw hash_is (rw hex (rw number_is refl))))

  -- The last line of the active file decides what the next record continues.
  pub tail_state-line :
      (l : AuditLogger) (rotated_part : Log) (raw line : Bytes) (fs : Fields) (h : String) (n : ℤ)
      → segments_for l.disk ≡ rotated_part ++ (active, regular (raw ++ (line ++ 10 ∷ []))) ∷ []
      → suc (length line) ≤ tail_bytes
      → is_whole raw ≡ true
      → Unbroken line
      → is_blank_line line ≡ false
      → js.loads line ≡ some (dict fs)
      → get "record_hash" fs ≡ text h
      → get "sequence" fs ≡ int n
      → validate_hex_hash (text h) ≡ true
      → tail_state lib js l ≡ ok (h, n)
  unfolding tail_state
  tail_state-line l rotated_part raw line fs h n files short whole u full reread hash_is number_is
        hex =
      let content = raw ++ (line ++ 10 ∷ []) in
      let low : length content - tail_bytes ≤ length raw =
        omega (arith, length-append raw (line ++ 10 ∷ []), length-append line (10 ∷ [])) in
      let last = last_line-drop (length content - tail_bytes) raw line low whole u full in
      ap
        (λ (log : Log). tail_of lib js (length (segments_for l.disk)) l.last_sequence (reverse log))
        files
      ∙ ap (λ (log : Log). tail_of lib js (length (segments_for l.disk)) l.last_sequence log)
          (reverse-append rotated_part ((active, regular content) ∷ []))
      ∙ tail_of-line (length (segments_for l.disk)) l.last_sequence active content line
          (reverse rotated_part) fs h n (unfold window in last) reread hash_is number_is hex
