-- ===== src/Audit/Bytes.antt =====
-- What the audit log uses of Python's `bytes`: `splitlines`, `strip` and slices.
use elyra.Base.{
  ℕ, ◌==◌, Bool, true, false, ◌&&◌, ◌||◌, Option, none, some, List, [], ◌∷◌, leb, if◌then◌else◌,
}

abbrev pub Bytes : Type 0
Bytes = List ℕ

-- A byte put before the first line.
abbrev pub before_first : ℕ → List Bytes → List Bytes
before_first c [] = (c ∷ []) ∷ []
before_first c (line ∷ lines) = (c ∷ line) ∷ lines

-- A byte before the lines that follow it. `after_cr` says that it follows a carriage return, which
-- makes one line break with a newline.
unfoldable pub break_line : Bool → ℕ → List Bytes → List Bytes
break_line after_cr c rest =
    if after_cr && c == 10
    then rest
    else if c == 10 || c == 13
    then [] ∷ rest
    else before_first c rest

unfoldable pub lines_from : Bool → Bytes → List Bytes
unfolding break_line
lines_from after_cr [] = []
lines_from after_cr (c ∷ cs) = break_line after_cr c (lines_from (c == 13) cs)

-- `raw.splitlines()`
abbrev pub split_lines : Bytes → List Bytes
split_lines raw = lines_from false raw

-- `not raw or raw.endswith(b"\n")`
unfoldable pub is_whole : Bytes → Bool
is_whole [] = true
is_whole (c ∷ []) = c == 10
is_whole (c ∷ d ∷ cs) = is_whole (d ∷ cs)

-- `not line.strip()`
unfoldable pub is_blank_line : Bytes → Bool
is_blank_line [] = true
is_blank_line (c ∷ cs) = (leb 9 c && leb c 13 || c == 32) && is_blank_line cs

-- The last line that is not blank.
unfoldable pub last_line : List Bytes → Option Bytes
last_line [] = none
last_line (line ∷ lines) = elim (last_line lines) [
  | some found ↦ some found
  | none ↦ if is_blank_line line then none else some line
]

-- `data.rfind(b"\n") >= 0`
unfoldable pub has_newline : Bytes → Bool
has_newline [] = false
has_newline (c ∷ cs) = c == 10 || has_newline cs

-- `data[:valid_length]`, with the length up to and with the last newline.
unfoldable pub whole_part : Bytes → Bytes
unfolding has_newline
whole_part [] = []
whole_part (c ∷ cs) =
    let rest = whole_part cs in if has_newline cs then c ∷ rest else if c == 10 then c ∷ [] else []

-- `data[valid_length:]`
unfoldable pub fragment : Bytes → Bytes
unfolding has_newline
fragment [] = []
fragment (c ∷ cs) =
    let rest = fragment cs in if has_newline cs then rest else if c == 10 then cs else c ∷ cs
