-- ===== src/Reading/Chars.antt =====
-- readops.go: where the characters of the GBK family end in a window. The flag is whether the
-- encoding is gb18030, which has characters of four bytes.
pub mod Boundary
pub mod Whole
use remote_cli.Common.{
  ℕ, zero, suc, ◌+◌, ◌-◌, ◌*◌, min, max, Bool, true, false, not, ◌&&◌, ◌||◌, Option, none, some,
  List, [], ◌∷◌, ◌++◌, if◌then◌else◌, length, leb, ltb, ◌==◌, take, drop,
}

unfoldable pub single_byte : ℕ → Bool
single_byte b = ltb b 0x81 || b == 0xff

unfoldable pub pairs_with : ℕ → Bool
pairs_with t = leb 0x40 t && not (t == 0x7f) && not (t == 0xff)

unfoldable pub digit_second : ℕ → Bool
digit_second t = leb 0x30 t && leb t 0x3f

-- Outside both mapped ranges of the characters of four bytes.
unfoldable pub unmapped : ℕ → ℕ → ℕ → ℕ → Bool
unmapped b t c d =
    let r = (((b - 0x81) * 10 + (t - 0x30)) * 126 + (c - 0x81)) * 10 + (d - 0x30) in
    leb 39420 r && (ltb r 189000 || leb (189000 + 0x100000) r)

-- The length by the first two bytes, where `four` is the length of a character of four bytes.
unfoldable pub two_byte_len : Bool → ℕ → ℕ → ℕ → ℕ
two_byte_len gb18030 b t four =
    if single_byte b
    then 1
    else if pairs_with t
    then 2
    else if gb18030 && digit_second t
    then four
    else 1

-- `gbCharLen`; a character that the end cuts off counts in full.
unfoldable pub gb_char_len : Bool → List ℕ → ℕ
gb_char_len gb18030 [] = 0
gb_char_len gb18030 (b ∷ []) = if single_byte b then 1 else 2
gb_char_len gb18030 (b ∷ t ∷ []) = two_byte_len gb18030 b t 4
gb_char_len gb18030 (b ∷ t ∷ c ∷ []) = two_byte_len gb18030 b t (if single_byte c then 1 else 4)
gb_char_len gb18030 (b ∷ t ∷ c ∷ d ∷ s) =
    two_byte_len gb18030 b t
      (if single_byte c || ltb d 0x30 || ltb 0x39 d || unmapped b t c d then 1 else 4)

-- `gbWholeChars`; `skip` bytes belong to the last character.
unfoldable pub whole_chars_from : Bool → ℕ → List ℕ → ℕ
whole_chars_from gb18030 skip [] = 0
whole_chars_from gb18030 (suc skip) (c ∷ s) = whole_chars_from gb18030 skip s
whole_chars_from gb18030 zero (c ∷ s) =
    let n = gb_char_len gb18030 (c ∷ s) in
    let rest = whole_chars_from gb18030 (n - 1) s in if ltb (length (c ∷ s)) n then 0 else n + rest

unfoldable pub gb_whole_chars : List ℕ → Bool → ℕ
gb_whole_chars s gb18030 = whole_chars_from gb18030 0 s

-- `gbLastBoundary`; `none` is -1.
unfoldable pub gb_last_boundary : Bool → List ℕ → Option ℕ
gb_last_boundary gb18030 [] = none
gb_last_boundary gb18030 (c ∷ s) = elim (gb_last_boundary gb18030 s) [
  | some i ↦ some (suc i)
  | none ↦ if ltb c (if gb18030 then 0x30 else 0x40) then some 1 else none
]

unfoldable pub or_zero : Option ℕ → ℕ
or_zero none = 0
or_zero (some i) = i

-- The end that `windowEdges` finds for the GBK family in a window that is followed by more.
unfoldable pub gb_window_end : List ℕ → Bool → ℕ
gb_window_end s gb18030 =
    let base = or_zero (gb_last_boundary gb18030 s) in base + gb_whole_chars (drop base s) gb18030
