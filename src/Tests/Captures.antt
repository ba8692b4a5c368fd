-- ===== src/Tests/Captures.antt =====
-- output.go and the truncation: a buffer of five bytes, and texts with characters of two bytes.
use remote_cli.Common.{
  ℕ, suc, ◌-◌, ◌+◌, ◌<◌, ◌≤◌, ◌≡◌, ◌⊎◌, refl, true, false, Option, none, some, List, [], ◌∷◌, arith,
  length, take, drop, ltb,
}
use remote_cli.Common.Int.{pos}
use remote_cli.Output.{
  CappedBuffer, new_capped_buffer, write_all, bytes, truncated, write, write_head, write_tail,
  write_ring, wrap_copy, copy_at,
}
use remote_cli.Output.Stream.{kept, joined}
use remote_cli.Output.Capture.{capture_correct, clamped}
use remote_cli.Truncate.{truncate_to_limit, cut_back, rune_start, finish_output, plain}
use remote_cli.Truncate.Chars.{AllChars}
use remote_cli.Truncate.Exact.{finish_output_exact}
use remote_cli.Truncate.Whole.{truncate_head_chars, truncate_tail_chars}

-- Three writes, of three, one and four bytes.
abbrev writes : List (List ℕ)
writes = (1 ∷ 2 ∷ 3 ∷ []) ∷ (4 ∷ []) ∷ (5 ∷ 6 ∷ 7 ∷ 8 ∷ []) ∷ []

-- a, e acute, b, e acute
abbrev accents : List (List ℕ)
accents = (97 ∷ []) ∷ (195 ∷ 169 ∷ []) ∷ (98 ∷ []) ∷ (195 ∷ 169 ∷ []) ∷ []

abbrev read_back : Option CappedBuffer → List ℕ
read_back none = []
read_back (some b) = bytes b

last_five : read_back (write_all (new_capped_buffer (pos 5) true) writes) ≡ 4 ∷ 5 ∷ 6 ∷ 7 ∷ 8 ∷ []
unfolding write_all bytes new_capped_buffer write write_tail write_ring wrap_copy copy_at
last_five = refl

first_five : read_back (write_all (new_capped_buffer (pos 5) false) writes) ≡ 1 ∷ 2 ∷ 3 ∷ 4 ∷ 5 ∷ []
unfolding write_all bytes new_capped_buffer write write_head
first_five = refl

no_half_character : truncate_to_limit (joined accents) (pos 2) false ≡ 97 ∷ []
unfolding truncate_to_limit cut_back rune_start
no_half_character = refl

capture_correct_example :
    (b : CappedBuffer) × (write_all (new_capped_buffer (pos 5) true) writes ≡ some b)
    × (bytes b ≡ kept true (clamped (pos 5)) (joined writes))
    × (truncated b ≡ ltb (clamped (pos 5)) (length (joined writes)))
    × (b.total ≡ length (joined writes))
    × (length b.buf ≤ clamped (pos 5))
capture_correct_example = capture_correct (pos 5) true writes

finish_output_exact_example :
    (b : CappedBuffer) × (write_all (new_capped_buffer (pos (2 + 3)) true) writes ≡ some b)
    × (finish_output (λ s. true) (λ s e. none) b 2 true plain
        ≡ (truncate_to_limit (joined writes) (pos 2) true, ltb 2 (length (joined writes)), plain))
finish_output_exact_example = finish_output_exact (λ s. true) (λ s e. none) 2 true writes

accents-AllChars : AllChars accents
unfolding rune_start
accents-AllChars = (
  (refl, tt, omega arith),
  (
    (refl, (refl, tt), omega arith),
    ((refl, tt, omega arith), ((refl, (refl, tt), omega arith), tt)),
  ),
)

truncate_head_chars_example :
    (k : ℕ) × (truncate_to_limit (joined accents) (pos 2) false ≡ joined (take k accents))
    × (length (joined (take k accents)) ≤ 2)
    × ((take k accents ≡ accents) ⊎ (2 < length (joined (take (suc k) accents))))
truncate_head_chars_example = truncate_head_chars accents 2 accents-AllChars

truncate_tail_chars_example :
    (k : ℕ) × (truncate_to_limit (joined accents) (pos 4) true ≡ joined (drop k accents))
    × (length (joined (drop k accents)) ≤ 4)
    × ((k ≡ 0) ⊎ (4 < length (joined (drop (k - 1) accents))))
truncate_tail_chars_example = truncate_tail_chars accents 4 accents-AllChars
