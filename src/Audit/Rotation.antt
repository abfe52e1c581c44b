-- ===== src/Audit/Rotation.antt =====
-- Rotation moves the active file behind the rotated ones, and dropping the oldest files leaves a log
-- that is verified from a later record.
use elyra.Base.{
  ℕ, suc, ◌+◌, ◌*◌, ◌/◌, ◌%◌, ◌≤◌, ◌<◌, ◌≡◌, refl, ap, subst, ◌∙◌, true, none, some, List, [], ◌∷◌,
  ◌++◌, arith, length, length-append, Bool-cases, inl, inr, ltb,
}
use mathlib.Core.List.{append-nil}
use elyra.Base.Outcome.{ok, bind-eq-ok, ok_injective, err-ne-ok}
use elyra.Base.Value.{Builtins}
use elyra.Audit.Bytes.{Bytes, is_whole, split_lines}
use elyra.Audit.Record.{Json, Segment, rotated, active}
use elyra.Audit.Verify.{
  Cursor, start, check_line, check_lines, check_bytes, check_file, check_log, File, regular,
  symbolic_link, special, unreadable, located,
}
use elyra.Audit.Disk.{
  Disk, rotated_log, active_log, segments_for, index_suffix, segment_index, largest_index,
  next_rotation_index, place, rename_active, drop_oldest, rotate_files,
}
use elyra.Audit.Behind.{Behind, located-eq_ok, check_file-Behind, check_log-Behind, start-Behind}
use elyra.Audit.Append.{check_log-append, check_log-split}

lt→ltb : (a b : ℕ) → a < b → ltb a b ≡ true
lt→ltb a b h = ground arith

six_digits :
    (a b c d e f : ℕ)
    → a < 10
    → b < 10
    → c < 10
    → d < 10
    → e < 10
    → f < 10
    → segment_index ((48 + a) ∷ (48 + b) ∷ (48 + c) ∷ (48 + d) ∷ (48 + e) ∷ (48 + f) ∷ [])
      ≡ some (((((a * 10 + b) * 10 + c) * 10 + d) * 10 + e) * 10 + f)
unfolding segment_index
six_digits a b c d e f ha hb hc hd he hf = ground arith

-- The index is read back from the name that it gives a file, while it has six digits at most.
pub segment_index-index_suffix : (i : ℕ) → i < 1000000 → segment_index (index_suffix i) ≡ some i
unfolding index_suffix
segment_index-index_suffix i h = rw (lt→ltb i 1000000 h) (
    six_digits (i / 100000) (i / 10000 % 10) (i / 1000 % 10) (i / 100 % 10) (i / 10 % 10) (i % 10)
      (omega arith) (omega arith) (omega arith) (omega arith) (omega arith) (omega arith)
    ∙ ap some (omega arith))

place-last :
    (i : ℕ) (f : File) (files : List (ℕ × File))
    → largest_index files < i
    → place i f files ≡ files ++ (i, f) ∷ []
unfolding place
place-last i f [] h = refl
place-last i f ((j, g) ∷ files) h = ground (arith, place-last i f files)

rotated_log-append :
    (files more : List (ℕ × File))
    → rotated_log (files ++ more) ≡ rotated_log files ++ rotated_log more
rotated_log-append [] more = refl
rotated_log-append (x ∷ files) more = ap (◌∷◌ (rotated x.0, x.1)) (rotated_log-append files more)

-- The files after a rotation, before the oldest are dropped.
pub rename_active-last :
    (f : File) (d : Disk)
    → largest_index d.rotated_files < 999999
    → rename_active f (next_rotation_index d) d ≡ record d {
      rotated_files = d.rotated_files ++ (suc (largest_index d.rotated_files), f) ∷ [];
      active_file = none;
    }
unfolding rename_active next_rotation_index
rename_active-last f d h =
    rw
      (
        segment_index-index_suffix (suc (largest_index d.rotated_files)) (omega arith),
        rename_active,
      )
      (rw (place-last (suc (largest_index d.rotated_files)) f d.rotated_files (omega arith)) refl)

pub drop_oldest_few :
    (backups : ℕ) (files : List (ℕ × File))
    → length files ≤ backups
    → drop_oldest backups files ≡ files
unfolding drop_oldest
drop_oldest_few backups [] h = refl
drop_oldest_few backups (x ∷ files) h = ground arith

pub length-drop_oldest :
    (backups : ℕ) (files : List (ℕ × File)) → length (drop_oldest backups files) ≤ backups
unfolding drop_oldest
length-drop_oldest backups [] = omega arith
length-drop_oldest backups (x ∷ files) = ground (arith, length-drop_oldest backups files)

largest_index-append :
    (files : List (ℕ × File)) (i : ℕ) (f : File)
    → largest_index files ≤ i
    → largest_index (files ++ (i, f) ∷ []) ≤ i
largest_index-append [] i f h = ground arith
largest_index-append (x ∷ files) i f h = ground (arith, largest_index-append files i f)

largest_index-drop_oldest :
    (backups : ℕ) (files : List (ℕ × File))
    → largest_index (drop_oldest backups files) ≤ largest_index files
unfolding drop_oldest
largest_index-drop_oldest backups [] = omega arith
largest_index-drop_oldest backups (x ∷ files) =
    ground (arith, largest_index-drop_oldest backups files)

-- A rotation uses up one index.
pub largest_index-rotate_files :
    (backups : ℕ) (f : File) (d : Disk)
    → largest_index d.rotated_files < 999999
    → largest_index (rotate_files backups f d).rotated_files ≤ suc (largest_index d.rotated_files)
unfolding rotate_files
largest_index-rotate_files backups f d small =
    let i = suc (largest_index d.rotated_files) in
    let moved =
      ap (λ (m : Disk). largest_index (drop_oldest backups m.rotated_files))
        (rename_active-last f d small) in
    omega (
      arith,
      moved,
      largest_index-drop_oldest backups (d.rotated_files ++ (i, f) ∷ []),
      largest_index-append d.rotated_files i f,
    )

module _ (lib : Builtins) (js : Json) where
  check_lines-name :
      (s t : Segment) (n m : ℕ) (c : Cursor) (lines : List Bytes) {d : Cursor}
      → check_lines lib js s n c lines ≡ ok d
      → check_lines lib js t m c lines ≡ ok d
  unfolding check_lines
  check_lines-name s t n m c [] e = e
  check_lines-name s t n m c (line ∷ lines) e =
      let (c1, first, later) =
        bind-eq-ok (located s n (check_line lib js c line))
          (λ (k : Cursor). check_lines lib js s (suc n) k lines) e in
      let plain : check_line lib js c line ≡ ok c1 =
        located-eq_ok lib js s n (check_line lib js c line) first in
      rw plain (check_lines-name s t (suc n) (suc m) c1 lines later)

  -- The name of a segment has no part in its verification.
  check_file-name :
      (s t : Segment) (c : Cursor) (f : File) {d : Cursor}
      → check_file lib js s c f ≡ ok d
      → check_file lib js t c f ≡ ok d
  unfolding check_file check_bytes
  check_file-name s t c (regular raw) e = elim (Bool-cases (is_whole raw)) [
    | inl whole ↦ rw whole (check_lines-name s t 1 1 c (split_lines raw) (rw whole at e))
    | inr torn ↦ absurd (err-ne-ok (rw torn at e))
  ]
  check_file-name s t c (symbolic_link x) e = absurd (err-ne-ok e)
  check_file-name s t c (special n) e = absurd (err-ne-ok e)
  check_file-name s t c (unreadable n) e = absurd (err-ne-ok e)

  -- A log without its oldest files.
  drop_oldest-Behind :
      (backups : ℕ) (files : List (ℕ × File)) (c : Cursor) {c' : Cursor}
      → Behind start c
      → check_log lib js c (rotated_log files) ≡ ok c'
      → (e : Cursor) × (check_log lib js start (rotated_log (drop_oldest backups files)) ≡ ok e)
        × Behind e c'
  unfolding check_log drop_oldest
  drop_oldest-Behind backups [] c b p =
      (start, refl, subst (λ (k : Cursor). Behind start k) (ok_injective p) b)
  drop_oldest-Behind backups (x ∷ files) c b p =
      elim (Bool-cases (ltb backups (length (x ∷ files)))) [
        | inl many ↦
            let (c1, first, later) =
              bind-eq-ok (check_file lib js (rotated x.0) c x.1)
                (λ (k : Cursor). check_log lib js k (rotated_log files)) p in
            let (e1, same, b1) = check_file-Behind lib js (rotated x.0) start c x.1 b first in
            rw many (
              drop_oldest-Behind backups files c1
                (record {
                  settled = b1.settled;
                  positive = b1.positive;
                  link = inl refl;
                  low = b1.positive;
                })
                later)
        | inr few ↦ rw few (check_log-Behind lib js start c (rotated_log (x ∷ files)) b p)
      ]

  -- The files of the log with the active one behind the rotated ones.
  abbrev with_active : Disk → File → List (ℕ × File)
  with_active d f = d.rotated_files ++ (suc (largest_index d.rotated_files), f) ∷ []

  check_log-with_active :
      (d : Disk) (f : File) {c : Cursor}
      → d.active_file ≡ some f
      → check_log lib js start (segments_for d) ≡ ok c
      → check_log lib js start (rotated_log (with_active d f)) ≡ ok c
  unfolding segments_for check_log
  check_log-with_active d f present p =
      let i = suc (largest_index d.rotated_files) in
      let (e, first, later) =
        check_log-split lib js start (rotated_log d.rotated_files) (active_log d.active_file) p in
      let (c1, checked, rest) =
        bind-eq-ok (check_file lib js active e f) (λ (k : Cursor). check_log lib js k [])
          (rw present at later) in
      rw (rotated_log-append d.rotated_files ((i, f) ∷ [])) (
        check_log-append lib js start (rotated_log d.rotated_files) ((rotated i, f) ∷ []) first
        ∙ rw (check_file-name active (rotated i) e f checked) rest)

segments_for-rotate_files :
    (backups : ℕ) (f : File) (d : Disk)
    → largest_index d.rotated_files < 999999
    → segments_for (rotate_files backups f d)
      ≡ rotated_log
          (drop_oldest backups (d.rotated_files ++ (suc (largest_index d.rotated_files), f) ∷ []))
unfolding segments_for rotate_files
segments_for-rotate_files backups f d small =
    ap (λ (m : Disk). rotated_log (drop_oldest backups m.rotated_files) ++ active_log m.active_file)
      (rename_active-last f d small)
    ∙ append-nil _

module _ (lib : Builtins) (js : Json) where
  -- The log after a rotation is verified from a record of the log before.
  pub rotate_files-Behind :
      (backups : ℕ) (f : File) (d : Disk) {c : Cursor}
      → d.active_file ≡ some f
      → largest_index d.rotated_files < 999999
      → check_log lib js start (segments_for d) ≡ ok c
      → (e : Cursor) × (check_log lib js start (segments_for (rotate_files backups f d)) ≡ ok e)
        × Behind e c
  rotate_files-Behind backups f d present small p =
      rw (segments_for-rotate_files backups f d small) (
        drop_oldest-Behind lib js backups
          (d.rotated_files ++ (suc (largest_index d.rotated_files), f) ∷ []) start start-Behind
          (check_log-with_active lib js d f present p))

  -- With room for one more file nothing is dropped.
  pub rotate_files_room :
      (backups : ℕ) (f : File) (d : Disk) {c : Cursor}
      → d.active_file ≡ some f
      → largest_index d.rotated_files < 999999
      → suc (length d.rotated_files) ≤ backups
      → check_log lib js start (segments_for d) ≡ ok c
      → check_log lib js start (segments_for (rotate_files backups f d)) ≡ ok c
  rotate_files_room backups f d present small room p =
      let files = d.rotated_files ++ (suc (largest_index d.rotated_files), f) ∷ [] in
      rw (segments_for-rotate_files backups f d small) (
        rw
          (drop_oldest_few backups files (
            omega (
              arith,
              length-append d.rotated_files ((suc (largest_index d.rotated_files), f) ∷ []),
            )))
          (check_log-with_active lib js d f present p))
