-- ===== src/WaitFor.antt =====
-- waitfor.go: the limits of a wait, and the scan of a growing file. A pattern is the test of a line
-- that the package regexp makes of it; a file is the list of its bytes.
pub mod Resume
use remote_cli.Common.{
  ℕ, zero, suc, ◌+◌, ◌*◌, min, max, Bool, true, false, not, ◌&&◌, ◌||◌, Option, none, some, List,
  [], ◌∷◌, ◌++◌, String, if◌then◌else◌, length, leb, ltb, ◌==◌, take, drop, reverse,
}
use remote_cli.Common.Int.{ℤ, pos, negsuc}
use remote_cli.Reading.{slices, ends_line}

abbrev pub millisecond : ℕ
millisecond = 1000000

abbrev pub default_wait_timeout_sec : ℕ
default_wait_timeout_sec = 60

abbrev pub max_wait_timeout_sec : ℕ
max_wait_timeout_sec = 86400

abbrev pub default_wait_interval : ℕ
default_wait_interval = 1000000000

abbrev pub min_wait_interval : ℕ
min_wait_interval = 200000000

abbrev pub min_command_wait_interval : ℕ
min_command_wait_interval = 1000000000

abbrev pub max_wait_scan_bytes : ℕ
max_wait_scan_bytes = 67108864

abbrev pub max_wait_line_bytes : ℕ
max_wait_line_bytes = 1048576

-- `timeout` of `planWait`, in seconds.
unfoldable pub plan_timeout : ℤ → ℕ
plan_timeout (pos zero) = default_wait_timeout_sec
plan_timeout (pos (suc n)) = min (suc n) max_wait_timeout_sec
plan_timeout (negsuc n) = default_wait_timeout_sec

unfoldable pub requested_interval : ℤ → ℕ
requested_interval (pos zero) = default_wait_interval
requested_interval (pos (suc n)) = suc n * millisecond
requested_interval (negsuc n) = default_wait_interval

-- `interval` of `planWait`, in nanoseconds; `command` is whether each check runs a command.
unfoldable pub plan_interval : Bool → ℤ → ℕ
plan_interval command interval_ms =
    let interval = max (requested_interval interval_ms) min_wait_interval in
    if command && ltb interval min_command_wait_interval
    then min_command_wait_interval
    else interval

unfoldable pub line_break : ℕ → Bool
line_break c = c == b'\n' || c == b'\r'

unfoldable pub trim_breaks : List ℕ → List ℕ
trim_breaks [] = []
trim_breaks (c ∷ s) = if line_break c then trim_breaks s else c ∷ s

-- `strings.TrimRight(line, "\r\n")`
unfoldable pub trim_right : List ℕ → List ℕ
trim_right s = reverse (trim_breaks (reverse s))

unfoldable pub or_line : List ℕ → Option (List ℕ) → List ℕ
or_line line (some text) = text
or_line line none = line

-- What a line is matched on; `decode` is `decodeToUTF8`, or `none` where no encoding is given.
unfoldable pub line_text : (List ℕ → Option (List ℕ)) → List ℕ → List ℕ
line_text decode l =
    let line = trim_right (take max_wait_line_bytes l) in or_line line (decode line)

-- The line that matches, its number, and how far the scan has come: behind the match, or behind
-- the last complete line.
pub record ScanResult : Type 0 where
  pub matched : Option (List ℕ)
  pub number : ℕ
  pub consumed : ℕ

unfoldable pub behind_line : List ℕ → ScanResult → ScanResult
behind_line l r = record {
  matched = r.matched;
  number = r.number + 1;
  consumed = length l + r.consumed;
}

unfoldable pub is_none : Option (List ℕ) → Bool
is_none none = true
is_none (some _) = false

-- A line that fills the whole read is passed over.
unfoldable pub skip_full : ℕ → ScanResult → ScanResult
skip_full total r =
    if (is_none (r.matched) && r.consumed == 0) && leb max_wait_scan_bytes total
    then record r { consumed = total }
    else r

module _ (decode : List ℕ → Option (List ℕ)) (matches : List ℕ → Bool) where
  -- The loop of `scanFileForMatch`, over the lines.
  unfoldable pub scan_lines : List (List ℕ) → ScanResult
  scan_lines [] = record { matched = none; number = 0; consumed = 0 }
  scan_lines (l ∷ ls) =
      let rest = behind_line l (scan_lines ls) in
      if matches (line_text decode l)
      then record { matched = some (line_text decode l); number = 1; consumed = length l }
      else if ends_line l
      then rest
      else record { matched = none; number = 1; consumed = 0 }

  -- `scanFileForMatch`
  unfoldable pub scan_file_for_match : List ℕ → ℕ → ScanResult
  scan_file_for_match content offset =
      let read = take max_wait_scan_bytes (drop offset content) in
      skip_full (length read) (scan_lines (slices read))
