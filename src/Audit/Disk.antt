-- ===== src/Audit/Disk.antt =====
-- elyra-engine/src/elyra/audit/audit_logger.py: the files of the log. A rotated file stands under the
-- index that `_segment_index` reads from its name, in the order of the indices, as `_segments_for`
-- sorts them; a file whose name gives none is never read again.
use elyra.Base.{
  ℕ, zero, suc, ◌+◌, ◌*◌, ◌/◌, ◌%◌, ◌==◌, Bool, true, false, ◌&&◌, Option, none, some, List, [],
  ◌∷◌, ◌++◌, ltb, leb, length, take, drop, if◌then◌else◌,
}
use elyra.Audit.Bytes.{Bytes}
use elyra.Audit.Record.{rotated, active}
use elyra.Audit.Verify.{File, regular, symbolic_link, special, unreadable, Log}

pub record Disk : Type 0 where
  pub rotated_files : List (ℕ × File)
  pub active_file : Option File
  pub strays : List File
  pub corrupt : List Bytes

abbrev pub rotated_log : List (ℕ × File) → Log
rotated_log [] = []
rotated_log ((i, f) ∷ files) = (rotated i, f) ∷ rotated_log files

abbrev pub active_log : Option File → Log
active_log none = []
active_log (some f) = (active, f) ∷ []

-- `_segments_for`
unfoldable pub segments_for : Disk → Log
segments_for d = rotated_log d.rotated_files ++ active_log d.active_file

-- The decimal digits of a number, as code points; the first argument bounds their number.
decimal : ℕ → ℕ → List ℕ
decimal zero n = []
decimal (suc fuel) n =
    let rest = decimal fuel (n / 10) in
    if ltb n 10 then (b'0' + n) ∷ [] else rest ++ (b'0' + n % 10) ∷ []

-- `f"{index:06d}"`
unfoldable pub index_suffix : ℕ → List ℕ
unfolding decimal
index_suffix i =
    if ltb i 1000000
    then (b'0' + i / 100000)
      ∷ (b'0' + i / 10000 % 10)
      ∷ (b'0' + i / 1000 % 10)
      ∷ (b'0' + i / 100 % 10)
      ∷ (b'0' + i / 10 % 10)
      ∷ (b'0' + i % 10)
      ∷ []
    else decimal i i

abbrev pub all_digits : List ℕ → Bool
all_digits [] = true
all_digits (c ∷ cs) = leb b'0' c && leb c b'9' && all_digits cs

-- `int(suffix)` of digits, after those that are read already
abbrev pub number_after : ℕ → List ℕ → ℕ
number_after n [] = n
number_after n (c ∷ cs) = number_after (n * 10 + (Prim.Native.Nat.◌-◌ c b'0')) cs

-- `_segment_index`, on what follows the name of the log and a dot
unfoldable pub segment_index : List ℕ → Option ℕ
segment_index suffix =
    if length suffix == 6 && all_digits suffix then some (number_after 0 suffix) else none

abbrev pub largest_index : List (ℕ × File) → ℕ
largest_index [] = 0
largest_index ((i, f) ∷ files) = let m = largest_index files in if ltb m i then i else m

-- `_next_rotation_index_locked`
unfoldable pub next_rotation_index : Disk → ℕ
next_rotation_index d = suc (largest_index d.rotated_files)

-- A file put under its index; `os.replace` overwrites what stood there.
unfoldable pub place : ℕ → File → List (ℕ × File) → List (ℕ × File)
place i f [] = (i, f) ∷ []
place i f ((j, g) ∷ files) =
    let later = place i f files in
    if i == j then (i, f) ∷ files else if ltb i j then (i, f) ∷ (j, g) ∷ files else (j, g) ∷ later

-- `os.replace(self.log_path, rotated)`
unfoldable pub rename_active : File → ℕ → Disk → Disk
unfolding index_suffix segment_index place
rename_active f i d = elim (segment_index (index_suffix i)) [
  | some j ↦ record d { rotated_files = place j f d.rotated_files; active_file = none }
  | none ↦ record d { strays = f ∷ d.strays; active_file = none }
]

-- The loop that unlinks the oldest rotated file while there are too many.
unfoldable pub drop_oldest : ℕ → List (ℕ × File) → List (ℕ × File)
drop_oldest backups [] = []
drop_oldest backups (x ∷ xs) =
    let rest = drop_oldest backups xs in if ltb backups (length (x ∷ xs)) then rest else x ∷ xs

-- The part of `_rotate_locked` from where the active file is known to be a regular one.
unfoldable pub rotate_files : ℕ → File → Disk → Disk
unfolding rename_active next_rotation_index drop_oldest
rotate_files backups f d =
    let moved = rename_active f (next_rotation_index d) d in
    record moved { rotated_files = drop_oldest backups moved.rotated_files }

-- `Path.exists`, which follows a link
abbrev pub exists : Option File → Bool
exists none = false
exists (some (symbolic_link none)) = false
exists (some (symbolic_link (some n))) = true
exists (some (regular raw)) = true
exists (some (special n)) = true
exists (some (unreadable n)) = true

-- `Path.stat().st_size`
abbrev pub size_of : Option File → ℕ
size_of none = 0
size_of (some (symbolic_link none)) = 0
size_of (some (symbolic_link (some n))) = n
size_of (some (regular raw)) = length raw
size_of (some (special n)) = n
size_of (some (unreadable n)) = n

-- The loop of `os.write` calls that append a line, with what the kernel writes at each; no more
-- answers mean that a call raises. The result says whether the line was written in full.
unfoldable pub write_all : List ℕ → Bytes → Bytes → Bytes × Bool
write_all kernel [] content = (content, true)
write_all [] (c ∷ cs) content = (content, false)
write_all (w ∷ ws) (c ∷ cs) content =
    let rest = write_all ws (drop w (c ∷ cs)) (content ++ take w (c ∷ cs)) in
    if w == 0 then (content, false) else rest
