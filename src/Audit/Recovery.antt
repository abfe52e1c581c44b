-- ===== src/Audit/Recovery.antt =====
-- A write that stops in the middle of a line, and the repair at the next start.
use mathlib.Core.List.{append-nil}
use elyra.Base.{
  ℕ, ◌≡◌, ◌≢◌, refl, sym, ap, ◌∙◌, Bool, true, false, not, Option, none, some, List, [], ◌∷◌, ◌++◌,
  arith,
}
use elyra.Base.Outcome.{Result, ok, err, raise_if, err-ne-ok}
use elyra.Base.Exec.{lift, gets, modify, ◌>>=◌}
use elyra.Base.Value.{Builtins}
use elyra.Audit.Bytes.{Bytes, is_whole, lines_from, has_newline}
use elyra.Audit.Record.{Json}
use elyra.Audit.Verify.{
  Cursor, start, check_bytes, check_lines, check_file, check_log, File, regular, symbolic_link,
  special, unreadable,
}
use elyra.Audit.Disk.{active_log, rotated_log, segments_for, write_all}
use elyra.Audit.Logger.{AuditLogger, AuditFault, os_error}
use elyra.Audit.Methods.{appended, append_bytes_locked, repair_file, repair_trailing_partial_locked}
use elyra.Audit.Lines.{Unbroken, whole_part-append, is_whole-torn}
use elyra.Audit.Append.{write_all-prefix, check_log-append, check_log-split}
use elyra.Audit.Continued.{Holds, Holds-is_whole}

append_empty : (xs ys : Bytes) → xs ++ ys ≡ [] → ys ≡ []
append_empty [] ys e = e
append_empty (x ∷ xs) ys e = cc

tail_of_list : Bytes → Bytes
tail_of_list [] = []
tail_of_list (x ∷ xs) = xs

same_tail : (c d : ℕ) (xs ys : Bytes) → ◌≡◌ {A = Bytes} (c ∷ xs) (d ∷ ys) → (c ≡ d) × (xs ≡ ys)
same_tail c d xs ys e = (cc, cc)

-- No newline is written before the last byte of the line is.
has_newline-prefix :
    (done torn line : Bytes)
    → done ++ torn ≡ line ++ 10 ∷ []
    → Unbroken line
    → torn ≢ []
    → has_newline done ≡ false
unfolding has_newline
has_newline-prefix [] torn line e u left = refl
has_newline-prefix (c ∷ done) torn [] e u left =
    absurd (left (append_empty done torn (same_tail c 10 (done ++ torn) [] e).1))
has_newline-prefix (c ∷ done) torn (d ∷ line) e u left =
    let (same, rest) = same_tail c d (done ++ torn) (line ++ 10 ∷ []) e in
    ground (arith, u.0, same, has_newline-prefix done torn line rest u.1 left)

-- The repair of a file in which a line was begun.
repair_file-begun :
    (raw done : Bytes) (l : AuditLogger)
    → l.disk.active_file ≡ some (regular (raw ++ done))
    → is_whole raw ≡ true
    → has_newline done ≡ false
    → (repair_file (raw ++ done) l).disk.active_file ≡ some (regular raw)
unfolding repair_file
repair_file-begun raw [] l present whole none_read =
    let ends : is_whole (raw ++ []) ≡ true = rw (append-nil raw) whole in
    rw ends (present ∙ ap (λ (b : Bytes). some (regular b)) (append-nil raw))
repair_file-begun raw (c ∷ done) l present whole none_read =
    rw (is_whole-torn raw done c none_read)
      (ap (λ (b : Bytes). some (regular b)) (whole_part-append raw (c ∷ done) whole none_read))

repair_file-rotated :
    (raw : Bytes) (l : AuditLogger) → (repair_file raw l).disk.rotated_files ≡ l.disk.rotated_files
unfolding repair_file
repair_file-rotated raw l = ground arith

-- What the constructor's repair does with a regular file.
repair-regular :
    (raw : Bytes) (l : AuditLogger)
    → l.disk.active_file ≡ some (regular raw)
    → repair_trailing_partial_locked l ≡ (ok tt, repair_file raw l)
unfolding repair_trailing_partial_locked gets modify ◌>>=◌
repair-regular raw l present = rw present refl

Holds-appended :
    (writes : List ℕ) (line raw : Bytes) (file : Option File)
    → Holds file raw
    → appended writes line file ≡ ok (write_all writes line raw)
Holds-appended writes line raw none h = rw h refl
Holds-appended writes line raw (some (regular b)) h = rw h refl
Holds-appended writes line raw (some (symbolic_link t)) h = absurd h
Holds-appended writes line raw (some (special n)) h = absurd h
Holds-appended writes line raw (some (unreadable n)) h = absurd h

-- What an append leaves, and whether it returns, by what is written of the line.
append_bytes_locked-result :
    (writes : List ℕ) (line raw : Bytes) (l : AuditLogger)
    → Holds l.disk.active_file raw
    → append_bytes_locked writes line l ≡ (
      raise_if (not (write_all writes line raw).1) os_error,
      record l {
        disk = record l.disk { active_file = some (regular (write_all writes line raw).0) };
      },
    )
unfolding append_bytes_locked gets modify lift ◌>>=◌
append_bytes_locked-result writes line raw l held =
    rw (Holds-appended writes line raw l.disk.active_file held) refl

raise_if-not-eq-err : (b : Bool) (e : AuditFault) → raise_if (not b) e ≡ err e → b ≡ false
raise_if-not-eq-err true e h = absurd (err-ne-ok (sym h))
raise_if-not-eq-err false e h = refl

begun_append :
    (writes : List ℕ) (line raw : Bytes)
    → Unbroken line
    → (write_all writes (line ++ 10 ∷ []) raw).1 ≡ false
    → (done : Bytes) × (has_newline done ≡ false)
      × ((write_all writes (line ++ 10 ∷ []) raw).0 ≡ raw ++ done)
begun_append writes line raw u failed =
    let (done, torn, whole, written, full, left) = write_all-prefix writes (line ++ 10 ∷ []) raw in
    (done, has_newline-prefix done torn line whole u (left failed), written)

module _ (lib : Builtins) (js : Json) where
  -- The active file, whatever bytes were held, checks like the file with those bytes.
  active-regular :
      (c : Cursor) (file : Option File) (raw : Bytes)
      → Holds file raw
      → check_log lib js c (active_log (some (regular raw))) ≡ check_log lib js c (active_log file)
  unfolding check_log check_file check_bytes check_lines is_whole lines_from
  active-regular c none raw h = rw h refl
  active-regular c (some (regular b)) raw h = rw h refl
  active-regular c (some (symbolic_link t)) raw h = absurd h
  active-regular c (some (special n)) raw h = absurd h
  active-regular c (some (unreadable n)) raw h = absurd h

  active-Holds :
      (c : Cursor) (file : Option File) {d : Cursor}
      → check_log lib js c (active_log file) ≡ ok d
      → (raw : Bytes) × Holds file raw
  unfolding check_log check_file
  active-Holds c none e = ([], refl)
  active-Holds c (some (regular raw)) e = (raw, refl)
  active-Holds c (some (symbolic_link t)) e = absurd (err-ne-ok e)
  active-Holds c (some (special t)) e = absurd (err-ne-ok e)
  active-Holds c (some (unreadable t)) e = absurd (err-ne-ok e)

  -- An append that raises after it has written any part of a line, none or all but the newline
  -- included, loses nothing: the repair at the next start returns and leaves a log that is verified
  -- exactly as the log before the append was.
  pub torn_append_repaired :
      (writes : List ℕ) (line : Bytes) (l : AuditLogger) (c : Cursor)
      → check_log lib js start (segments_for l.disk) ≡ ok c
      → Unbroken line
      → (append_bytes_locked writes (line ++ 10 ∷ []) l).0 ≡ err os_error
      → (m : AuditLogger) × (repair_trailing_partial_locked
            (append_bytes_locked writes (line ++ 10 ∷ []) l).1
          ≡ (ok tt, m))
        × (check_log lib js start (segments_for m.disk) ≡ ok c)
        × (m.disk.rotated_files ≡ l.disk.rotated_files)
  unfolding segments_for
  torn_append_repaired writes line l c p u e =
      let (k, first, last) =
        check_log-split lib js start (rotated_log l.disk.rotated_files)
          (active_log l.disk.active_file) p in
      let (raw, held) = active-Holds k l.disk.active_file last in
      let result = append_bytes_locked-result writes (line ++ 10 ∷ []) raw l held in
      let failed =
        raise_if-not-eq-err _ os_error
          (sym (ap (λ (r : Result AuditFault (Unit {0}) × AuditLogger). r.0) result) ∙ e) in
      let (done, unread, written) = begun_append writes line raw u failed in
      let n = (append_bytes_locked writes (line ++ 10 ∷ []) l).1 in
      let after : n
          ≡ record l { disk = record l.disk { active_file = some (regular (raw ++ done)) } } =
        ap (λ (r : Result AuditFault (Unit {0}) × AuditLogger). r.1) result
        ∙ ap (λ (b : Bytes). record l { disk = record l.disk { active_file = some (regular b) } })
            written in
      let begun = ap (λ (m : AuditLogger). m.disk.active_file) after in
      let files =
        repair_file-rotated (raw ++ done) n
        ∙ ap (λ (m : AuditLogger). m.disk.rotated_files) after in
      let whole = Holds-is_whole lib js l.disk raw p held in
      let restored = repair_file-begun raw done n begun whole unread in
      let checked =
        ap
          (λ (fs : List (ℕ × File)).
            check_log lib js start
              (rotated_log fs ++ active_log (repair_file (raw ++ done) n).disk.active_file))
          files
        ∙ ap
            (λ (f : Option File).
              check_log lib js start (rotated_log l.disk.rotated_files ++ active_log f))
            restored
        ∙ check_log-append lib js start (rotated_log l.disk.rotated_files)
            (active_log (some (regular raw))) first
        ∙ active-regular k l.disk.active_file raw held
        ∙ last in
      (repair_file (raw ++ done) n, repair-regular (raw ++ done) n begun, checked, files)
