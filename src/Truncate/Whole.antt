-- ===== src/Truncate/Whole.antt =====
-- `truncateToLimit` on whole characters: what is cut off, at either end.
use remote_cli.Common.{
  ℕ, suc, ◌+◌, ◌-◌, ◌≤◌, ◌<◌, ◌≡◌, refl, sym, ap, ◌∙◌, ◌⊎◌, inl, inr, Bool, true, false, List, [],
  arith, length, take, drop, length-append, take-append_eq, drop-append_eq, drop_of_length-le,
  take_of_length-le,
}
use native.Mathlib.Decide.{dec_le, ℕ_discrete}
use remote_cli.Common.Int.{pos}
use remote_cli.Output.Stream.{joined}
use remote_cli.Truncate.{cut_back, cut_forward, truncate_to_limit}
use remote_cli.Truncate.Cut.{cut_back_bounds, cut_forward_bounds}
use remote_cli.Truncate.Chars.{AllChars, joined_split, back_lem, forward_lem}

-- Past the first test the cut positions say it all, at `max` 0 too.
head_form :
    (s : List ℕ) (max : ℕ)
    → max < length s
    → truncate_to_limit s (pos max) false ≡ take (cut_back 3 s max) s
unfolding truncate_to_limit
head_form s max h = elim (ℕ_discrete max 0) [
  | yes z ↦ ground (arith, none_left)
  | no n ↦ ground arith
]
  where
    none_left : max ≡ 0 → take (cut_back 3 s max) s ≡ []
    none_left z = ap (λ n. take n s) {y = 0} (omega (arith, cut_back_bounds 3 s max))

tail_form :
    (s : List ℕ) (max : ℕ)
    → max < length s
    → truncate_to_limit s (pos max) true ≡ drop (cut_forward 3 s (length s - max)) s
unfolding truncate_to_limit
tail_form s max h = elim (ℕ_discrete max 0) [
  | yes z ↦ ground (arith, none_left z)
  | no n ↦ ground arith
]
  where
    none_left : max ≡ 0 → drop (cut_forward 3 s (length s - max)) s ≡ []
    none_left z =
        drop_of_length-le (cut_forward 3 s (length s - max)) s
          (omega (arith, cut_forward_bounds 3 s (length s - max)))

fits_form :
    (s : List ℕ) (max : ℕ) (tail : Bool) → length s ≤ max → truncate_to_limit s (pos max) tail ≡ s
unfolding truncate_to_limit
fits_form s max tail h = ground arith

-- Of a text of whole UTF-8 characters, head mode keeps a run of whole characters from the start,
-- which fits into `max` bytes and is the longest such run: it is everything, or one character more
-- would not fit.
pub truncate_head_chars :
    (cs : List (List ℕ)) (max : ℕ)
    → AllChars cs
    → (k : ℕ) × (truncate_to_limit (joined cs) (pos max) false ≡ joined (take k cs))
      × (length (joined (take k cs)) ≤ max)
      × ((take k cs ≡ cs) ⊎ (max < length (joined (take (suc k) cs))))
truncate_head_chars cs max all = elim (dec_le (length (joined cs)) max) [
  | yes h ↦
      let whole : take (length cs) cs ≡ cs = take_of_length-le (length cs) cs (omega arith) in
      let same : joined (take (length cs) cs) ≡ joined cs = ap joined whole in
      (
        length cs,
        fits_form (joined cs) max false h ∙ sym same,
        omega (arith, ap (λ l. length l) same),
        inl whole,
      )
  | no n ↦
      let (k, cut, next) = back_lem [] cs max all (omega arith) in
      let at : cut_back 3 (joined cs) max ≡ length (joined (take k cs)) =
        ap (cut_back 3 (joined cs)) {x = max} {y = length {A = ℕ} [] + max} (omega arith)
        ∙ cut
        ∙ omega arith in
      (
        k,
        head_form (joined cs) max (omega arith)
            ∙ ap (take (cut_back 3 (joined cs) max)) (sym (joined_split k cs))
            ∙ take-append_eq (cut_back 3 (joined cs) max) (joined (take k cs)) (joined (drop k cs))
                at,
        omega (arith, at, cut_back_bounds 3 (joined cs) max),
        inr next,
      )
]

-- Of a text of whole UTF-8 characters, tail mode keeps a run of whole characters up to the end, which
-- fits into `max` bytes and is the longest such run: it is everything, or one more would not fit.
pub truncate_tail_chars :
    (cs : List (List ℕ)) (max : ℕ)
    → AllChars cs
    → (k : ℕ) × (truncate_to_limit (joined cs) (pos max) true ≡ joined (drop k cs))
      × (length (joined (drop k cs)) ≤ max)
      × ((k ≡ 0) ⊎ (max < length (joined (drop (k - 1) cs))))
truncate_tail_chars cs max all = elim (dec_le (length (joined cs)) max) [
  | yes h ↦ (0, fits_form (joined cs) max true h, h, inl refl)
  | no n ↦
      let i : ℕ = length (joined cs) - max in
      let (k, cut, before) = forward_lem [] cs i all (omega arith) in
      let at : cut_forward 3 (joined cs) i ≡ length (joined (take k cs)) =
        ap (cut_forward 3 (joined cs)) {x = i} {y = length {A = ℕ} [] + i} (omega arith)
        ∙ cut
        ∙ omega arith in
      (
        k,
        tail_form (joined cs) max (omega arith)
            ∙ ap (drop (cut_forward 3 (joined cs) i)) (sym (joined_split k cs))
            ∙ drop-append_eq (cut_forward 3 (joined cs) i) (joined (take k cs)) (joined (drop k cs))
                at,
        omega (arith, at, cut_forward_bounds 3 (joined cs) i, parts k),
        inr (omega (arith, before (omega arith), parts (k - 1))),
      )
]
  where
    parts : (k : ℕ) → length (joined (take k cs)) + length (joined (drop k cs)) ≡ length (joined cs)
    parts k =
        sym (length-append (joined (take k cs)) (joined (drop k cs)))
        ∙ ap (λ l. length l) (joined_split k cs)
