-- ===== src/Reading/Chars/Boundary.antt =====
-- readops.go: a window of GBK text ends between two characters of the file.
use remote_cli.Reading.Chars.{
  single_byte, pairs_with, digit_second, unmapped, two_byte_len, gb_char_len, whole_chars_from,
  gb_whole_chars,
}
use remote_cli.Common.{
  ℕ, zero, suc, ◌+◌, ◌-◌, ◌<◌, ◌≤◌, Bool, true, false, ◌&&◌, ◌||◌, List, [], ◌∷◌, ◌++◌,
  if◌then◌else◌, length, ltb, drop, drop-append_le, ◌≡◌, refl, sym, subst, ◌∙◌, ◌⊎◌, inl, inr,
  Bool-cases, ltb→lt, ltb→le, arith,
}

-- The positions between the characters that a decoder reads from the start on.
pub data Boundary (gb18030 : Bool) : List ℕ → ℕ → Type 0 where
  at_start : (s : List ℕ) → Boundary gb18030 s 0
  behind :
      (c : ℕ) (s rest : List ℕ) (n k : ℕ)
      → gb_char_len gb18030 (c ∷ s) ≡ suc n
      → drop n s ≡ rest
      → Boundary gb18030 rest k
      → Boundary gb18030 (c ∷ s) (suc n + k)

two_byte_len-cases :
    (gb18030 : Bool) (b t four : ℕ)
    → (((two_byte_len gb18030 b t four ≡ 1) ⊎ (two_byte_len gb18030 b t four ≡ 2))
        ⊎ (two_byte_len gb18030 b t four ≡ four))
unfolding two_byte_len
two_byte_len-cases gb18030 b t four = elim (Bool-cases (single_byte b)) [
  | inl e ↦ rw e (inl (inl refl))
  | inr e ↦ elim (Bool-cases (pairs_with t)) [
    | inl p ↦ rw (e, p) (inl (inr refl))
    | inr p ↦ elim (Bool-cases (gb18030 && digit_second t)) [
      | inl q ↦ rw (e, p, q) (inr refl)
      | inr q ↦ rw (e, p, q) (inl (inl refl))
    ]
  ]
]

two_byte_len_bounds :
    (gb18030 : Bool) (b t four : ℕ)
    → 1 ≤ four
    → four ≤ 4
    → (1 ≤ two_byte_len gb18030 b t four) × (two_byte_len gb18030 b t four ≤ 4)
two_byte_len_bounds gb18030 b t four h k = elim (two_byte_len-cases gb18030 b t four) [
  | inl (inl e) ↦ (omega (arith, e), omega (arith, e))
  | inl (inr e) ↦ (omega (arith, e), omega (arith, e))
  | inr e ↦ (omega (arith, e, h), omega (arith, e, k))
]

if_bounds : (p : Bool) → (1 ≤ (if p then 1 else 4)) × ((if p then 1 else 4) ≤ 4)
if_bounds true = (omega arith, omega arith)
if_bounds false = (omega arith, omega arith)

gb_char_len_bounds :
    (gb18030 : Bool) (c : ℕ) (s : List ℕ)
    → (1 ≤ gb_char_len gb18030 (c ∷ s)) × (gb_char_len gb18030 (c ∷ s) ≤ 4)
unfolding gb_char_len
gb_char_len_bounds gb18030 b [] = ground arith
gb_char_len_bounds gb18030 b (t ∷ []) =
    two_byte_len_bounds gb18030 b t 4 (omega arith) (omega arith)
gb_char_len_bounds gb18030 b (t ∷ c ∷ []) =
    two_byte_len_bounds gb18030 b t _ (if_bounds (single_byte c)).0 (if_bounds (single_byte c)).1
gb_char_len_bounds gb18030 b (t ∷ c ∷ d ∷ s) =
    two_byte_len_bounds gb18030 b t _
      (if_bounds (single_byte c || ltb d 0x30 || ltb 0x39 d || unmapped b t c d)).0
      (if_bounds (single_byte c || ltb d 0x30 || ltb 0x39 d || unmapped b t c d)).1

pub gb_char_len-single_byte :
    (gb18030 : Bool) (b : ℕ) (s : List ℕ) → single_byte b ≡ true → gb_char_len gb18030 (b ∷ s) ≡ 1
unfolding gb_char_len two_byte_len
gb_char_len-single_byte gb18030 b [] h = rw h refl
gb_char_len-single_byte gb18030 b (t ∷ []) h = rw h refl
gb_char_len-single_byte gb18030 b (t ∷ c ∷ []) h = rw h refl
gb_char_len-single_byte gb18030 b (t ∷ c ∷ d ∷ s) h = rw h refl

-- A character of one or two bytes does not wait for more.
two_byte_len_short :
    (gb18030 : Bool) (b t four : ℕ)
    → two_byte_len gb18030 b t 4 ≤ 3
    → two_byte_len gb18030 b t four ≡ two_byte_len gb18030 b t 4
unfolding two_byte_len
two_byte_len_short gb18030 b t four h = elim (Bool-cases (single_byte b)) [
  | inl e ↦ rw e refl
  | inr e ↦ elim (Bool-cases (pairs_with t)) [
    | inl p ↦ rw (e, p) refl
    | inr p ↦ elim (Bool-cases (gb18030 && digit_second t)) [
      | inl q ↦ let long : 4 ≤ 3 = rw (e, p, q) at h in absurd (omega (arith, long))
      | inr q ↦ rw (e, p, q) refl
    ]
  ]
]

not_short : (gb18030 : Bool) (b : ℕ) → single_byte b ≡ false → gb_char_len gb18030 (b ∷ []) ≤ 1 → ⊥
unfolding gb_char_len
not_short gb18030 b e h = let long : 2 ≤ 1 = rw e at h in omega (arith, long)

-- What is complete stays as it is, whatever follows.
gb_char_len-append :
    (gb18030 : Bool) (c : ℕ) (s t : List ℕ)
    → gb_char_len gb18030 (c ∷ s) ≤ length (c ∷ s)
    → gb_char_len gb18030 (c ∷ (s ++ t)) ≡ gb_char_len gb18030 (c ∷ s)
unfolding gb_char_len
gb_char_len-append gb18030 b [] t h = elim (Bool-cases (single_byte b)) [
  | inl e ↦ gb_char_len-single_byte gb18030 b t e ∙ sym (gb_char_len-single_byte gb18030 b [] e)
  | inr e ↦ absurd (not_short gb18030 b e (omega (arith, h)))
]
gb_char_len-append gb18030 b (x ∷ []) [] h = refl
gb_char_len-append gb18030 b (x ∷ []) (t ∷ []) h =
    two_byte_len_short gb18030 b x _ (omega (arith, h))
gb_char_len-append gb18030 b (x ∷ []) (t ∷ u ∷ w) h =
    two_byte_len_short gb18030 b x _ (omega (arith, h))
gb_char_len-append gb18030 b (x ∷ y ∷ []) [] h = refl
gb_char_len-append gb18030 b (x ∷ y ∷ []) (t ∷ w) h = elim (Bool-cases (single_byte y)) [
  | inl e ↦ rw e refl
  | inr e ↦
      let short : two_byte_len gb18030 b x 4 ≤ 3 = rw e at h in
      rw e (two_byte_len_short gb18030 b x _ short)
]
gb_char_len-append gb18030 b (x ∷ y ∷ z ∷ s) t h = refl

one_more : (n : ℕ) → 1 ≤ n → n ≡ suc (n - 1)
one_more n h = omega arith

-- The windows' whole characters, from a position on: a boundary, less than four bytes before the end.
whole_chars_from-Boundary :
    (gb18030 : Bool) (skip : ℕ) (s t : List ℕ)
    → skip ≤ length s
    → Boundary gb18030 (drop skip s ++ t) (whole_chars_from gb18030 skip s)
      × (skip + whole_chars_from gb18030 skip s ≤ length s)
      × (length s < skip + whole_chars_from gb18030 skip s + 4)
unfolding whole_chars_from
whole_chars_from-Boundary gb18030 zero [] t h = (at_start t, omega arith, omega arith)
whole_chars_from-Boundary gb18030 (suc skip) [] t h = absurd (omega arith)
whole_chars_from-Boundary gb18030 (suc skip) (c ∷ s) t h =
    let (b, inside, near) = whole_chars_from-Boundary gb18030 skip s t (omega arith) in
    (b, omega (arith, inside), omega (arith, near))
whole_chars_from-Boundary gb18030 zero (c ∷ s) t h =
    let n = gb_char_len gb18030 (c ∷ s) in
    let bounds = gb_char_len_bounds gb18030 c s in
    elim (Bool-cases (ltb (length (c ∷ s)) n)) [
      | inl e ↦ rw e (at_start (c ∷ (s ++ t)), omega arith, omega (arith, bounds.1, ltb→lt _ _ e))
      | inr e ↦
          let fits : n ≤ length (c ∷ s) = ltb→le _ _ e in
          let (b, inside, near) =
            whole_chars_from-Boundary gb18030 (n - 1) s t (omega (arith, fits, bounds.0)) in
          let k = whole_chars_from gb18030 (n - 1) s in
          let step : Boundary gb18030 (c ∷ (s ++ t)) (suc (n - 1) + k) =
            behind c (s ++ t) (drop (n - 1) s ++ t) (n - 1) k
              (gb_char_len-append gb18030 c s t fits ∙ one_more n bounds.0)
              (drop-append_le (n - 1) s t (omega (arith, fits, bounds.0))) b in
          rw e (
            subst (λ (i : ℕ). Boundary gb18030 (c ∷ (s ++ t)) (i + k)) (sym (one_more n bounds.0))
                step,
            omega (arith, inside, bounds.0),
            omega (arith, near, bounds.0),
          )
    ]

-- Any bytes, by the lengths that `gb_char_len` reads.
pub gb_whole_chars-Boundary :
    (gb18030 : Bool) (s t : List ℕ)
    → Boundary gb18030 (s ++ t) (gb_whole_chars s gb18030)
      × (gb_whole_chars s gb18030 ≤ length s)
      × (length s < gb_whole_chars s gb18030 + 4)
unfolding gb_whole_chars
gb_whole_chars-Boundary gb18030 s t =
    let (b, inside, near) = whole_chars_from-Boundary gb18030 0 s t (omega arith) in
    (b, omega (arith, inside), omega (arith, near))
