-- ===== src/Audit/Append.antt =====
-- A line at the end of the active file is verified after all that stands before it.
use elyra.Base.{
  ℕ, zero, suc, ◌≡◌, ◌≢◌, refl, sym, ap, ◌∙◌, true, false, List, [], ◌∷◌, ◌++◌, take, drop,
  Bool-cases, inl, inr, ◌==◌,
}
use mathlib.Core.List.{append_assoc, append-nil}
use elyra.Base.Outcome.{ok, bind-eq-ok, ok_injective, err-ne-ok}
use elyra.Base.Value.{Builtins}
use elyra.Audit.Bytes.{Bytes, is_whole, split_lines}
use elyra.Audit.Record.{Json, Segment}
use elyra.Audit.Verify.{
  Cursor, check_line, check_lines, check_bytes, check_file, check_log, located, Log,
}
use elyra.Audit.Disk.{write_all}
use elyra.Audit.Lines.{Unbroken, is_whole-append, split_lines-append}

take-drop : (n : ℕ) (xs : Bytes) → take n xs ++ drop n xs ≡ xs
take-drop zero xs = refl
take-drop (suc n) [] = refl
take-drop (suc n) (x ∷ xs) = ap (◌∷◌ x) (take-drop n xs)

-- What `os.write` leaves in the file is what stood there and a first part of the line.
pub write_all-prefix :
    (kernel : List ℕ) (line content : Bytes)
    → (done : Bytes) × (torn : Bytes) × (done ++ torn ≡ line)
      × ((write_all kernel line content).0 ≡ content ++ done)
      × ((write_all kernel line content).1 ≡ true → torn ≡ [])
      × ((write_all kernel line content).1 ≡ false → torn ≢ [])
unfolding write_all
write_all-prefix kernel [] content = ([], [], refl, sym (append-nil content), λ h. refl, λ h. cc)
write_all-prefix [] (c ∷ cs) content =
    ([], c ∷ cs, refl, sym (append-nil content), λ h. cc, λ h e. cc)
write_all-prefix (w ∷ ws) (c ∷ cs) content = elim (Bool-cases (w == 0)) [
  | inl none_written ↦ (
    [],
    c ∷ cs,
    refl,
    rw none_written (sym (append-nil content)),
    λ h. cc (rw none_written at h),
    λ h e. cc,
  )
  | inr more ↦
      let (done, torn, whole, written, full, left) =
        write_all-prefix ws (drop w (c ∷ cs)) (content ++ take w (c ∷ cs)) in
      (
        take w (c ∷ cs) ++ done,
        torn,
        append_assoc (take w (c ∷ cs)) done torn
            ∙ ap (λ (b : Bytes). take w (c ∷ cs) ++ b) whole
            ∙ take-drop w (c ∷ cs),
        rw more (written ∙ append_assoc content (take w (c ∷ cs)) done),
        rw more full,
        rw more left,
      )
]

module _ (lib : Builtins) (js : Json) where
  check_lines-append :
      (s : Segment) (n : ℕ) (c : Cursor) (lines : List Bytes) (line : Bytes) {d e : Cursor}
      → check_lines lib js s n c lines ≡ ok d
      → check_line lib js d line ≡ ok e
      → check_lines lib js s n c (lines ++ line ∷ []) ≡ ok e
  unfolding check_lines
  check_lines-append s n c [] line {e = e} p q =
      let same : check_line lib js c line ≡ ok e = rw (ok_injective p) q in rw same refl
  check_lines-append s n c (x ∷ xs) line p q =
      let (c1, first, later) =
        bind-eq-ok (located s n (check_line lib js c x))
          (λ (k : Cursor). check_lines lib js s (suc n) k xs) p in
      rw first (check_lines-append s (suc n) c1 xs line later q)

  pub check_bytes-is_whole :
      (s : Segment) (c : Cursor) (raw : Bytes) {d : Cursor}
      → check_bytes lib js s c raw ≡ ok d
      → (is_whole raw ≡ true) × (check_lines lib js s 1 c (split_lines raw) ≡ ok d)
  unfolding check_bytes
  check_bytes-is_whole s c raw e = elim (Bool-cases (is_whole raw)) [
    | inl whole ↦ (whole, rw whole at e)
    | inr torn ↦ absurd (err-ne-ok (rw torn at e))
  ]

  -- The file with one more line.
  pub check_bytes-append :
      (s : Segment) (c : Cursor) (raw line : Bytes) {d e : Cursor}
      → check_bytes lib js s c raw ≡ ok d
      → check_line lib js d line ≡ ok e
      → Unbroken line
      → check_bytes lib js s c (raw ++ (line ++ 10 ∷ [])) ≡ ok e
  unfolding check_bytes
  check_bytes-append s c raw line p q u =
      let (whole, lines) = check_bytes-is_whole s c raw p in
      let ends : is_whole (raw ++ (line ++ 10 ∷ [])) ≡ true =
        ap is_whole (sym (append_assoc raw line (10 ∷ []))) ∙ is_whole-append (raw ++ line) in
      rw ends (
        rw (split_lines-append raw line whole u)
          (check_lines-append s 1 c (split_lines raw) line lines q))

  pub check_log-append :
      (c : Cursor) (log more : Log) {d : Cursor}
      → check_log lib js c log ≡ ok d
      → check_log lib js c (log ++ more) ≡ check_log lib js d more
  unfolding check_log
  check_log-append c [] more e = ap (λ (k : Cursor). check_log lib js k more) (ok_injective e)
  check_log-append c ((s, f) ∷ log) more e =
      let (c1, first, later) =
        bind-eq-ok (check_file lib js s c f) (λ (k : Cursor). check_log lib js k log) e in
      rw first (check_log-append c1 log more later)

  pub check_log-split :
      (c : Cursor) (log more : Log) {d : Cursor}
      → check_log lib js c (log ++ more) ≡ ok d
      → (e : Cursor) × (check_log lib js c log ≡ ok e) × (check_log lib js e more ≡ ok d)
  unfolding check_log
  check_log-split c [] more p = (c, refl, p)
  check_log-split c ((s, f) ∷ log) more p =
      let (c1, first, later) =
        bind-eq-ok (check_file lib js s c f) (λ (k : Cursor). check_log lib js k (log ++ more)) p in
      let (e, q, r) = check_log-split c1 log more later in (e, rw first q, r)
