-- ===== src/Reading.antt =====
-- readops.go: the windows of a file that a read returns. The file is the list of its bytes, and what
-- the code streams in pieces of a buffer is read line by line here.
pub mod Paging
pub mod Lines
pub mod Chars
use remote_cli.Common.{
  ℕ, zero, suc, ◌+◌, ◌-◌, ◌*◌, ◌/◌, ◌%◌, min, max, Bool, true, false, not, ◌&&◌, ◌||◌, Option, none,
  some, List, [], ◌∷◌, ◌++◌, if◌then◌else◌, length, leb, ltb, ◌==◌, take, drop, reverse, split,
}
use remote_cli.Common.Int.{ℤ, pos, negsuc}

abbrev pub max_line_scan_bytes : ℕ
max_line_scan_bytes = 16777216

abbrev pub default_read_max_bytes : ℕ
default_read_max_bytes = 65536

abbrev pub max_read_max_bytes : ℕ
max_read_max_bytes = 16777216

-- `readWindow`; `next_line` is 0 where it is not set.
pub record Window : Type 0 where
  pub bytes : List ℕ
  pub offset : ℕ
  pub more : Bool
  pub capped : Bool
  pub next_line : ℕ
  pub cut_line : Bool

-- `maxBytes` of `ReadFileContent`
unfoldable pub read_cap : ℤ → ℕ
read_cap (pos zero) = default_read_max_bytes
read_cap (pos (suc n)) = min (suc n) max_read_max_bytes
read_cap (negsuc n) = default_read_max_bytes

-- `bytes.LastIndexByte(data, '\n')`
unfoldable pub last_newline : List ℕ → Option ℕ
last_newline [] = none
last_newline (c ∷ s) = elim (last_newline s) [
  | some i ↦ some (suc i)
  | none ↦ if c == b'\n' then some 0 else none
]

-- `bytes.IndexByte(data, '\n')`
unfoldable pub first_newline : List ℕ → Option ℕ
first_newline [] = none
first_newline (c ∷ s) =
    let rest = first_newline s in
    if c == b'\n' then some 0 else elim rest [ some i ↦ some (suc i) | none ↦ none ]

-- The end of a window that stops before the end of the file.
unfoldable pub end_on_line : List ℕ → List ℕ
end_on_line s = elim (last_newline s) [
  | none ↦ s
  | some i ↦ if leb (length s / 2) i then take (i + 1) s else s
]

unfoldable pub clamp_offset : ℤ → ℕ → ℕ
clamp_offset (pos n) size = min n size
clamp_offset (negsuc n) size = 0

-- `readByteWindow`, from an offset inside the file.
unfoldable pub byte_window_at : List ℕ → ℕ → ℕ → Window
byte_window_at content offset max_bytes =
    let bytes = take max_bytes (drop offset content) in
    let more = ltb (offset + length bytes) (length content) in
    record {
      bytes = if more then end_on_line bytes else bytes;
      offset = offset;
      more = more;
      capped = more;
      next_line = 0;
      cut_line = false;
    }

-- `readByteWindow`
unfoldable pub read_byte_window : List ℕ → ℤ → ℕ → Window
read_byte_window content offset max_bytes =
    byte_window_at content (clamp_offset offset (length content)) max_bytes

-- What `ReadSlice('\n')` gives one after the other: the lines, each with its newline.
unfoldable pub onto_line : ℕ → List (List ℕ) → List (List ℕ)
onto_line c [] = (c ∷ []) ∷ []
onto_line c (l ∷ ls) = (c ∷ l) ∷ ls

unfoldable pub slices : List ℕ → List (List ℕ)
slices [] = []
slices (c ∷ s) = let rest = slices s in if c == b'\n' then (c ∷ []) ∷ rest else onto_line c rest

unfoldable pub ends_line : List ℕ → Bool
ends_line [] = false
ends_line (c ∷ []) = c == b'\n'
ends_line (c ∷ d ∷ s) = ends_line (d ∷ s)

-- The first loop of `readLineWindow`: the offset of a line, and the lines from there on; `none`
-- where the file ends before.
unfoldable pub skip_lines : ℕ → ℕ → List (List ℕ) → ℕ × Option (List (List ℕ))
skip_lines zero offset ls = (offset, some ls)
skip_lines (suc n) offset [] = (offset, none)
skip_lines (suc n) offset (l ∷ ls) =
    if ends_line l then skip_lines n (offset + length l) ls else (offset + length l, none)

unfoldable pub is_nil : List (List ℕ) → Bool
is_nil [] = true
is_nil (_ ∷ _) = false

-- Whether `line` is behind the last one asked for; 0 asks for all.
unfoldable pub past_end : ℕ → ℕ → Bool
past_end last line = ltb 0 last && ltb last line

unfoldable pub window_of : ℕ → List ℕ → Window
window_of offset bytes = record {
  bytes = bytes;
  offset = offset;
  more = false;
  capped = false;
  next_line = 0;
  cut_line = false;
}

-- A window that `maxBytes` ends; `started` is whether it holds a line already.
unfoldable pub capped_window : ℕ → Bool → ℕ → ℕ → List ℕ → List ℕ → Window
capped_window offset started max_bytes line before l =
    if started
    then record (window_of offset before) { more = true; capped = true; next_line = line }
    else record (window_of offset (take max_bytes (before ++ l))) {
      more = true;
      capped = true;
      next_line = line + 1;
      cut_line = true;
    }

-- The second loop of `readLineWindow`: `before` is `w.data` up to the line `line`.
unfoldable pub take_lines : ℕ → ℕ → ℕ → ℕ → List ℕ → List (List ℕ) → Window
take_lines last max_bytes offset line before [] = window_of offset before
take_lines last max_bytes offset line before (l ∷ ls) =
    let rest = take_lines last max_bytes offset (line + 1) (before ++ l) ls in
    if past_end last line
    then record (window_of offset before) { more = true; next_line = line }
    else if ltb max_bytes (length (before ++ l))
    then capped_window offset (ltb 0 (length before)) max_bytes line before l
    else if ends_line l
    then rest
    else window_of offset (before ++ l)

unfoldable pub lines_from : ℕ → ℕ → ℕ → ℕ × Option (List (List ℕ)) → Window
lines_from start last max_bytes (offset, none) = window_of offset []
lines_from start last max_bytes (offset, some ls) = take_lines last max_bytes offset start [] ls

-- `readLineWindow`; `start` is 1 at least, and `last` is 0 for the end of the file.
unfoldable pub read_line_window : List ℕ → ℕ → ℕ → ℕ → Window
read_line_window content start last max_bytes =
    lines_from start last max_bytes (skip_lines (start - 1) 0 (slices content))

-- `bytes.Count(data, "\n")`, as `countNewlinesAt` sums it up.
unfoldable pub newlines : List ℕ → ℕ
newlines [] = 0
newlines (c ∷ s) = (if c == b'\n' then 1 else 0) + newlines s

-- `windowLines`
unfoldable pub window_lines : List ℕ → ℕ
window_lines s = newlines s + (if ltb 0 (length s) && not (ends_line s) then 1 else 0)

-- `lineCount`
unfoldable pub line_count : List ℕ → ℕ
line_count content =
    if length content == 0 || ltb max_line_scan_bytes (length content)
    then 0
    else newlines content + (if ends_line content then 0 else 1)

-- `lineNumberAt`
unfoldable pub line_number_at : List ℕ → ℕ → ℕ
line_number_at content offset =
    if ltb max_line_scan_bytes offset then 0 else newlines (take offset content) + 1

-- `lineStartsAt`
unfoldable pub line_starts_at : List ℕ → ℕ → Bool
line_starts_at content offset = offset == 0 || ends_line (take offset content)

-- `alignToLine`
unfoldable pub align_to_line : List ℕ → Window → Window
align_to_line content w =
    if line_starts_at content (w.offset) then w else elim (first_newline (w.bytes)) [
      | none ↦ w
      | some i ↦
          if ltb i (length (w.bytes) / 2)
          then record w { bytes = drop (i + 1) (w.bytes); offset = w.offset + i + 1 }
          else w
    ]
