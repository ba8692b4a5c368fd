-- ===== src/Encoding/TextInfo.antt =====
-- fileops.go: `textInfo`, what a stat tells of a text file.
pub mod Counts
use remote_cli.Common.{
  ℕ, zero, suc, ◌+◌, max, Bool, true, false, not, ◌&&◌, ◌||◌, List, [], ◌∷◌, String, if◌then◌else◌,
  length, leb, ltb, ◌==◌,
}
use remote_cli.Encoding.{detect_encoding}
use remote_cli.Sandbox.{has_prefix}

abbrev pub max_text_scan_bytes : ℕ
max_text_scan_bytes = 268435456

pub data LineEndings : Type 0 where
  no_line_endings cr_endings crlf_endings lf_endings mixed_endings : LineEndings

pub data ByteOrderMark : Type 0 where
  no_mark utf8_mark utf16le_mark utf16be_mark : ByteOrderMark

-- `TextInfo` of a file that was scanned, or why it was not.
pub record TextInfo : Type 0 where
  pub lines : ℕ
  pub line_endings : LineEndings
  pub encoding : String
  pub bom : ByteOrderMark
  pub final_newline : Bool
  pub max_line_len : ℕ

pub data Scanned : Type 0 where
  text_info_of : TextInfo → Scanned
  binary_file too_large : Scanned

-- The variables of the loop over the bytes.
pub record Scan : Type 0 where
  pub lf : ℕ
  pub crlf : ℕ
  pub cr : ℕ
  pub line_len : ℕ
  pub longest : ℕ
  pub prev : ℕ

unfoldable pub scan_start : Scan
scan_start = record { lf = 0; crlf = 0; cr = 0; line_len = 0; longest = 0; prev = 0 }

unfoldable pub scan_byte : Scan → ℕ → Scan
scan_byte t c =
    let after_cr = if t.prev == b'\r' then 1 else 0 in
    if c == b'\n'
    then record {
      lf = t.lf + 1;
      crlf = t.crlf + after_cr;
      cr = t.cr;
      line_len = 0;
      longest = max (t.longest) (t.line_len);
      prev = c;
    }
    else if c == b'\r'
    then record t { prev = c }
    else record t { cr = t.cr + after_cr; line_len = t.line_len + 1; prev = c }

unfoldable pub scan_bytes : Scan → List ℕ → Scan
scan_bytes t [] = t
scan_bytes t (c ∷ s) = scan_bytes (scan_byte t c) s

unfoldable pub endings_of : Scan → LineEndings
endings_of t =
    if t.lf == 0 && t.cr == 0
    then no_line_endings
    else if ltb 0 (t.cr) && t.lf == 0
    then cr_endings
    else if t.crlf == t.lf && t.cr == 0
    then crlf_endings
    else if t.crlf == 0 && t.cr == 0
    then lf_endings
    else mixed_endings

unfoldable pub mark_of : List ℕ → ByteOrderMark
mark_of head =
    if has_prefix (0xef ∷ 0xbb ∷ 0xbf ∷ []) head
    then utf8_mark
    else if has_prefix (0xff ∷ 0xfe ∷ []) head
    then utf16le_mark
    else if has_prefix (0xfe ∷ 0xff ∷ []) head
    then utf16be_mark
    else no_mark

-- The fields that the scan of the whole file gives.
unfoldable pub info_of_scan : List ℕ → List ℕ → Scan → TextInfo
info_of_scan content head t = record {
  lines = t.lf + (if ltb 0 (length content) && not (t.prev == b'\n') then 1 else 0);
  line_endings = endings_of t;
  encoding = detect_encoding head;
  bom = mark_of head;
  final_newline = t.prev == b'\n';
  max_line_len = max (t.longest) (t.line_len);
}

-- `textInfo`; `head` is the start of the file.
unfoldable pub text_info : List ℕ → Bool → List ℕ → Scanned
text_info content binary head =
    if binary
    then binary_file
    else if ltb max_text_scan_bytes (length content)
    then too_large
    else text_info_of (info_of_scan content head (scan_bytes scan_start content))
