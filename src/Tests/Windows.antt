-- ===== src/Tests/Windows.antt =====
-- Reading, on a file of three lines; the encodings; and a log that grows.
use remote_cli.Common.{
  ℕ, ◌+◌, ◌≤◌, ◌≡◌, refl, Bool, true, none, some, List, [], ◌∷◌, ◌++◌, arith, codes, length, take,
  drop, bytes_eq,
}
use remote_cli.Common.Int.{pos}
use remote_cli.Reading.{slices, onto_line, read_line_window, is_nil, ends_line}
use remote_cli.Reading.Paging.{pages, pages_whole}
use remote_cli.Reading.Lines.{joined_lines, full_window, read_line_window-full}
use remote_cli.Encoding.{Coders, is_ascii, detect_encoding, decode_text}
use remote_cli.Encoding.Ascii.{ascii_as_is}
use remote_cli.Encoding.TextInfo.{TextInfo}
use remote_cli.WaitFor.{
  scan_file_for_match, scan_lines, skip_full, is_none, behind_line, line_text, trim_right,
  trim_breaks, line_break, or_line,
}
use remote_cli.WaitFor.Resume.{scan_file_for_match-resume}

-- `a`, `bc`, and `d` without its newline.
abbrev file : List ℕ
file = b'a' ∷ b'\n' ∷ b'b' ∷ b'c' ∷ b'\n' ∷ b'd' ∷ []

pages_whole_example : pages 7 file (pos 3) 0 ≡ some file
pages_whole_example = pages_whole file (pos 3)

second_line : length (joined_lines (take 1 (drop 1 (slices file)))) ≤ 8
unfolding slices onto_line joined_lines
second_line = omega arith

read_line_window-full_example :
    read_line_window file 2 2 8
    ≡ full_window
        (length (joined_lines (take 1 (slices file))))
        (joined_lines (take 1 (drop 1 (slices file))))
        (is_nil (drop 1 (drop 1 (slices file))))
        3
read_line_window-full_example = read_line_window-full file 1 1 8 (omega arith) second_line

-- Coders that always fail.
abbrev no_coders : Coders
no_coders = record {
  from_gbk = λ s. none;
  from_gb18030 = λ s. none;
  to_gbk = λ s. none;
  to_gb18030 = λ s. none;
}

ascii_file : is_ascii file ≡ true
unfolding is_ascii
ascii_file = refl

ascii_as_is_example :
    (detect_encoding file ≡ "utf-8") × (decode_text no_coders file "gbk" "" ≡ some file)
ascii_as_is_example = ascii_as_is no_coders "gbk" file ascii_file

-- A line that is `bc`.
abbrev wanted : List ℕ → Bool
wanted = bytes_eq (codes "bc")

-- The second line is half written.
abbrev growing : List ℕ
growing = b'a' ∷ b'\n' ∷ b'b' ∷ []

abbrev added : List ℕ
added = b'c' ∷ b'\n' ∷ []

no_match : (scan_file_for_match (λ s. none) wanted growing 0).matched ≡ none
unfolding scan_file_for_match scan_lines skip_full is_none behind_line line_text trim_right
    trim_breaks line_break or_line slices onto_line ends_line bytes_eq
no_match = refl

scan_file_for_match-resume_example :
    (scan_file_for_match (λ s. none) wanted (growing ++ added) 0).matched
    ≡ (scan_file_for_match
        (λ s. none)
        wanted
        (growing ++ added)
        (0 + (scan_file_for_match (λ s. none) wanted growing 0).consumed)).matched
scan_file_for_match-resume_example =
    scan_file_for_match-resume (λ s. none) wanted growing added 0 (omega arith) (omega arith)
      no_match
