-- ===== src/Truncate.antt =====
-- The end of a command's output: `truncateToLimit` of executor.go and `finishOutput` of output.go.
-- A text is the list of its bytes, as Go indexes it.
pub mod Cut
pub mod Exact
pub mod Chars
pub mod Whole
use remote_cli.Common.{
  ℕ, zero, suc, ◌+◌, ◌-◌, ◌/◌, Bool, true, false, not, ◌&&◌, Option, none, some, List, [], length,
  take, drop, get_or, leb, ltb, ◌==◌, if◌then◌else◌,
}
use remote_cli.Common.Int.{ℤ, pos, negsuc}
use remote_cli.Output.{CappedBuffer, bytes, truncated}

-- `utf8.RuneStart`: not a continuation byte 10xxxxxx.
unfoldable pub rune_start : ℕ → Bool
rune_start c = not (c / 64 == 2)

-- The head loop: `rounds` is what is left of `UTFMax - 1`.
unfoldable pub cut_back : ℕ → List ℕ → ℕ → ℕ
cut_back zero s cut = cut
cut_back (suc rounds) s cut =
    let next = cut_back rounds s (cut - 1) in
    if ltb 0 cut && not (rune_start (get_or s cut 0)) then next else cut

-- The tail loop.
unfoldable pub cut_forward : ℕ → List ℕ → ℕ → ℕ
cut_forward zero s start = start
cut_forward (suc rounds) s start =
    let next = cut_forward rounds s (start + 1) in
    if ltb start (length s) && not (rune_start (get_or s start 0)) then next else start

-- `truncateToLimit`
unfoldable pub truncate_to_limit : List ℕ → ℤ → Bool → List ℕ
truncate_to_limit s (negsuc n) tail = []
truncate_to_limit s (pos n) tail =
    if leb (length s) n
    then s
    else if n == 0
    then []
    else if not tail
    then take (cut_back 3 s n) s
    else drop (cut_forward 3 s (length s - n)) s

-- The encodings that `normalizeOutputEncoding` leaves. `plain` is the empty string.
pub data Encoding : Type 0 where
  plain utf8 gbk gb2312 gb18030 auto : Encoding

-- The last or the first `max` bytes.
unfoldable pub clip : ℕ → Bool → List ℕ → List ℕ
clip n tail raw =
    if ltb n (length raw) then (if tail then drop (length raw - n) raw else take n raw) else raw

-- `utf8.Valid` of the library, and `decodeToUTF8` over the decoders of golang.org/x/text, whose
-- `none` is its error.
module _ (valid : List ℕ → Bool) (decode : List ℕ → Encoding → Option (List ℕ)) where
  -- The part of `finishOutput` below `src := encoding`.
  unfoldable pub decoded : List ℕ → Bool → Encoding → List ℕ × Bool × Encoding
  decoded raw cut src = elim (decode raw src) [
    | none ↦ (raw, cut, plain)
    | some text ↦ (text, cut, src)
  ]

  unfoldable pub transcoded : List ℕ → Bool → Encoding → List ℕ × Bool × Encoding
  transcoded raw cut auto = if valid raw then (raw, cut, utf8) else decoded raw cut gbk
  transcoded raw cut src = decoded raw cut src

  -- `finishOutput`; its callers pass a `max` of 1 at least.
  unfoldable pub finish_output : CappedBuffer → ℕ → Bool → Encoding → List ℕ × Bool × Encoding
  finish_output b max tail plain =
      let raw = bytes b in
      (
        truncate_to_limit raw (pos max) tail,
        (if ltb max (length raw) then true else truncated b),
        plain,
      )
  finish_output b max tail encoding =
      let raw = bytes b in
      transcoded (clip max tail raw) (if ltb max (length raw) then true else truncated b) encoding
