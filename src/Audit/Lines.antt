-- ===== src/Audit/Lines.antt =====
-- How a line at the end of a file is split off, read back and cut away.
use elyra.Base.{
  ℕ, zero, suc, ◌≤◌, ◌≡◌, ◌≢◌, refl, ap, Bool, true, false, ◌||◌, some, List, [], ◌∷◌, ◌++◌, ◌==◌,
  ==_iff, ◌∙◌, arith, drop, length, All, inl, inr, Bool-cases,
}
use elyra.Audit.Bytes.{
  Bytes, break_line, lines_from, is_whole, is_blank_line, last_line, has_newline, whole_part,
}

-- No byte ends a line.
abbrev pub Unbroken : Bytes → Type 0
Unbroken = All (λ c. (c ≢ 10) × (c ≢ 13))

pub lines_from-line :
    (line : Bytes) → Unbroken line → lines_from false (line ++ 10 ∷ []) ≡ line ∷ []
unfolding lines_from break_line
lines_from-line [] h = refl
lines_from-line (c ∷ cs) h = ground (arith, lines_from-line cs h.1, ==_iff c 10, ==_iff c 13)

break_line-append :
    (f : Bool) (c : ℕ) (lines more : List Bytes) (line : Bytes) (others : List Bytes)
    → lines ≡ line ∷ others
    → break_line f c (lines ++ more) ≡ break_line f c lines ++ more
unfolding break_line
break_line-append f c lines more line others e = rw e (ground arith)

break_line-append_break :
    (f : Bool) (c : ℕ) (lines more : List Bytes)
    → (c == 10 || c == 13) ≡ true
    → break_line f c (lines ++ more) ≡ break_line f c lines ++ more
unfolding break_line
break_line-append_break f c lines more h = ground arith

break_line_filled :
    (c : ℕ) (rest : List Bytes)
    → (line : Bytes) × (lines : List Bytes) × (break_line false c rest ≡ line ∷ lines)
unfolding break_line
break_line_filled c [] = elim (Bool-cases (c == 10 || c == 13)) [
  | inl e ↦ ([], [], rw e)
  | inr e ↦ (c ∷ [], [], rw e)
]
break_line_filled c (line ∷ lines) = elim (Bool-cases (c == 10 || c == 13)) [
  | inl e ↦ ([], line ∷ lines, rw e)
  | inr e ↦ (c ∷ line, lines, rw e)
]

-- The lines of a text that ends with a newline stay when more follows.
pub lines_from-append :
    (f : Bool) (c : ℕ) (cs ys : Bytes)
    → is_whole (c ∷ cs) ≡ true
    → lines_from f (c ∷ (cs ++ ys)) ≡ lines_from f (c ∷ cs) ++ lines_from false ys
unfolding lines_from is_whole
lines_from-append f c [] ys h =
    let newline : c ≡ 10 = ground arith in
    rw newline (break_line-append_break f 10 [] (lines_from false ys) refl)
lines_from-append f c (d ∷ cs) ys h = elim (Bool-cases (c == 13)) [
  | inl e ↦
      ap (break_line f c) (lines_from-append (c == 13) d cs ys h)
      ∙ break_line-append_break f c (lines_from (c == 13) (d ∷ cs)) (lines_from false ys)
          (ground arith)
  | inr e ↦
      let (line, others, q) = break_line_filled d (lines_from (d == 13) cs) in
      ap (break_line f c) (lines_from-append (c == 13) d cs ys h)
      ∙ break_line-append f c (lines_from (c == 13) (d ∷ cs)) (lines_from false ys) line others
          (rw e q)
]

pub is_whole-append : (xs : Bytes) → is_whole (xs ++ 10 ∷ []) ≡ true
unfolding is_whole
is_whole-append [] = refl
is_whole-append (c ∷ []) = refl
is_whole-append (c ∷ d ∷ cs) = is_whole-append (d ∷ cs)

pub split_lines-append :
    (raw line : Bytes)
    → is_whole raw ≡ true
    → Unbroken line
    → lines_from false (raw ++ (line ++ 10 ∷ [])) ≡ lines_from false raw ++ line ∷ []
split_lines-append [] line h u = unfold lines_from in lines_from-line line u
split_lines-append (c ∷ cs) line h u =
    lines_from-append false c cs (line ++ 10 ∷ []) h
    ∙ ap (λ more. lines_from false (c ∷ cs) ++ more) (lines_from-line line u)

last_line-append :
    (lines : List Bytes) (line : Bytes)
    → is_blank_line line ≡ false
    → last_line (lines ++ line ∷ []) ≡ some line
unfolding last_line
last_line-append [] line h = rw h
last_line-append (x ∷ xs) line h = rw (last_line-append xs line h)

drop-append : (n : ℕ) (xs ys : Bytes) → n ≤ length xs → drop n (xs ++ ys) ≡ drop n xs ++ ys
drop-append zero xs ys h = refl
drop-append (suc n) [] ys h = absurd (omega arith)
drop-append (suc n) (x ∷ xs) ys h = drop-append n xs ys (omega arith)

is_whole-drop : (n : ℕ) (xs : Bytes) → is_whole xs ≡ true → is_whole (drop n xs) ≡ true
unfolding is_whole
is_whole-drop zero xs h = h
is_whole-drop (suc n) [] h = refl
is_whole-drop (suc zero) (x ∷ []) h = refl
is_whole-drop (suc (suc n)) (x ∷ []) h = refl
is_whole-drop (suc n) (x ∷ y ∷ ys) h = is_whole-drop n (y ∷ ys) h

-- A line that was appended is the last one of any part of the file that holds it.
pub last_line-drop :
    (n : ℕ) (raw line : Bytes)
    → n ≤ length raw
    → is_whole raw ≡ true
    → Unbroken line
    → is_blank_line line ≡ false
    → last_line (lines_from false (drop n (raw ++ (line ++ 10 ∷ [])))) ≡ some line
last_line-drop n raw line low whole u b =
    ap (λ bytes. last_line (lines_from false bytes)) (drop-append n raw (line ++ 10 ∷ []) low)
    ∙ ap last_line (split_lines-append (drop n raw) line (is_whole-drop n raw whole) u)
    ∙ last_line-append (lines_from false (drop n raw)) line b

has_newline-append :
    (c : ℕ) (cs ys : Bytes) → is_whole (c ∷ cs) ≡ true → has_newline (c ∷ (cs ++ ys)) ≡ true
unfolding has_newline is_whole
has_newline-append c [] ys h = rw h
has_newline-append c (d ∷ cs) ys h = ground (arith, has_newline-append d cs ys h)

whole_part-none : (torn : Bytes) → has_newline torn ≡ false → whole_part torn ≡ []
unfolding whole_part has_newline
whole_part-none [] h = refl
whole_part-none (c ∷ cs) h = ground arith

-- Cutting off what follows the last newline gives back the file before the line was begun.
pub whole_part-append :
    (raw torn : Bytes)
    → is_whole raw ≡ true
    → has_newline torn ≡ false
    → whole_part (raw ++ torn) ≡ raw
unfolding whole_part is_whole
whole_part-append [] torn h u = whole_part-none torn u
whole_part-append (c ∷ []) torn h u = rw u (rw h refl)
whole_part-append (c ∷ d ∷ cs) torn h u =
    rw (has_newline-append d cs torn h) (ap (◌∷◌ c) (whole_part-append (d ∷ cs) torn h u))

pub is_whole-torn :
    (raw torn : Bytes) (c : ℕ) → has_newline (c ∷ torn) ≡ false → is_whole (raw ++ c ∷ torn) ≡ false
unfolding is_whole has_newline
is_whole-torn [] [] c u = ground arith
is_whole-torn [] (d ∷ torn) c u = is_whole-torn [] torn d (ground arith)
is_whole-torn (x ∷ []) torn c u = is_whole-torn [] torn c u
is_whole-torn (x ∷ y ∷ ys) torn c u = is_whole-torn (y ∷ ys) torn c u
