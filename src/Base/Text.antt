-- ===== src/Base/Text.antt =====
-- What the program uses of Python's `str`, over code points where it looks inside a text.
use Prim.Native.Nat.{ℕ}
use Prim.Native.Char.{code}
use Prim.Native.String.{String, compare}
use mathlib.Core.Bool.{Bool, true, ◌&&◌, ◌||◌}
use mathlib.Core.List.{List, [], ◌∷◌}
use text.Mathlib.Text.{starts_with, is_le}
use elyra.Base.Tests.{leb, ◌==◌, if◌then◌else◌}

-- `c.isspace()`
abbrev pub is_space : ℕ → Bool
is_space c =
    leb 9 c && leb c 13
    || leb 28 c && leb c 32
    || c == 133
    || c == 160
    || c == 5760
    || leb 8192 c && leb c 8202
    || c == 8232
    || c == 8233
    || c == 8239
    || c == 8287
    || c == 12288

-- `not text.strip()`
unfoldable pub is_blank : String → Bool
is_blank String.[] = true
is_blank (String.◌∷◌ c s) = is_space (code c) && is_blank s

insert_text : String → List String → List String
insert_text x [] = x ∷ []
insert_text x (y ∷ ys) = if is_le (compare x y) then x ∷ y ∷ ys else y ∷ insert_text x ys

-- `sorted(texts)`
unfoldable pub sort_texts : List String → List String
unfolding insert_text
sort_texts [] = []
sort_texts (x ∷ xs) = insert_text x (sort_texts xs)

-- `[text for text in texts if text.startswith(prefix)]`
unfoldable pub with_prefix : String → List String → List String
with_prefix p [] = []
with_prefix p (x ∷ xs) = let rest = with_prefix p xs in if starts_with x p then x ∷ rest else rest
