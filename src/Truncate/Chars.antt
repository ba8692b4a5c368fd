-- ===== src/Truncate/Chars.antt =====
-- `truncateToLimit` on a text that is made of whole UTF-8 characters.
use remote_cli.Common.{
  ℕ, zero, suc, ◌+◌, ◌-◌, ◌≤◌, ◌<◌, ◌≡◌, ◌≢◌, refl, sym, ap, ◌∙◌, inl, inr, true, false, List, [],
  ◌∷◌, ◌++◌, append_assoc, arith, length, take, drop, get_or, leb, length-append, get_or-append_lt,
  get_or-append_ge, Bool-cases, leb→le, leb→lt,
}
use remote_cli.Output.Stream.{joined}
use remote_cli.Truncate.{rune_start, cut_back, cut_forward}

-- A lead byte and up to three continuation bytes.
abbrev pub Continues : List ℕ → Type 0
Continues [] = Unit
Continues (x ∷ xs) = (rune_start x ≡ false) × Continues xs

abbrev pub IsChar : List ℕ → Type 0
IsChar [] = ⊥
IsChar (x ∷ xs) = (rune_start x ≡ true) × Continues xs × (length xs ≤ 3)

abbrev pub AllChars : List (List ℕ) → Type 0
AllChars [] = Unit
AllChars (c ∷ cs) = IsChar c × AllChars cs

continuation :
    (xs : List ℕ) (i : ℕ) → Continues xs → i < length xs → rune_start (get_or xs i 0) ≡ false
continuation [] i h lt = absurd (omega arith)
continuation (x ∷ xs) zero h lt = h.0
continuation (x ∷ xs) (suc i) h lt = continuation xs i h.1 (omega arith)

-- The byte at offset `i` of a character that stands behind `pre`.
byte_at :
    (pre c rest : List ℕ) (i : ℕ)
    → i < length c
    → get_or (pre ++ (c ++ rest)) (length pre + i) 0 ≡ get_or c i 0
byte_at pre c rest i h = get_or-append_ge i pre (c ++ rest) 0 ∙ get_or-append_lt i c rest 0 h

pub joined_split :
    (k : ℕ) (cs : List (List ℕ)) → joined (take k cs) ++ joined (drop k cs) ≡ joined cs
joined_split zero cs = refl
joined_split (suc k) [] = refl
joined_split (suc k) (c ∷ cs) =
    append_assoc c (joined (take k cs)) (joined (drop k cs)) ∙ ap (λ l. c ++ l) (joined_split k cs)

-- Backwards inside one character: to its lead byte.
back_in_char :
    (rounds : ℕ) (pre : List ℕ) (x : ℕ) (xs rest : List ℕ) (i : ℕ)
    → IsChar (x ∷ xs)
    → i ≤ length xs
    → i ≤ rounds
    → cut_back rounds (pre ++ ((x ∷ xs) ++ rest)) (length pre + i) ≡ length pre
unfolding cut_back
back_in_char zero pre x xs rest i c h enough = omega arith
back_in_char (suc rounds) pre x xs rest zero c h enough =
    ground (arith, byte_at pre (x ∷ xs) rest 0 (omega arith), c.0)
back_in_char (suc rounds) pre x xs rest (suc i) c h enough = ground (
  arith,
  byte_at pre (x ∷ xs) rest (suc i) (omega arith),
  continuation xs i c.1 (omega arith),
  back_in_char rounds pre x xs rest i c (omega arith) (omega arith),
  ap (cut_back rounds (pre ++ ((x ∷ xs) ++ rest))) {x = length pre + suc i - 1} {y = length pre + i}
      (omega arith),
)

-- Backwards from any position of the text: to the end of a run of whole characters, the longest
-- one that does not pass the position.
abbrev pub CutsBack : List ℕ → List (List ℕ) → ℕ → Type 0
CutsBack pre cs i =
    (k : ℕ) × (cut_back 3 (pre ++ joined cs) (length pre + i)
      ≡ length pre + length (joined (take k cs)))
    × (i < length (joined (take (suc k) cs)))

-- A whole character before the position is passed over.
back_skip :
    (pre c : List ℕ) (cs : List (List ℕ)) (i : ℕ)
    → length c ≤ i
    → CutsBack (pre ++ c) cs (i - length c)
    → CutsBack pre (c ∷ cs) i
back_skip pre c cs i h (k, cut, next) = (
  suc k,
  ap (λ l. cut_back 3 l (length pre + i)) (sym (append_assoc pre c (joined cs)))
      ∙ ap (cut_back 3 ((pre ++ c) ++ joined cs)) (omega (arith, length-append {0} pre c))
      ∙ cut
      ∙ omega (arith, length-append {0} pre c, length-append {0} c (joined (take k cs))),
  omega (arith, length-append {0} c (joined (take (suc k) cs))),
)

pub back_lem :
    (pre : List ℕ) (cs : List (List ℕ)) (i : ℕ)
    → AllChars cs
    → i < length (joined cs)
    → CutsBack pre cs i
back_lem pre [] i all h = absurd (omega arith)
back_lem pre ([] ∷ cs) i all h = absurd all.0
back_lem pre ((x ∷ xs) ∷ cs) i all h = elim (Bool-cases (leb i (length xs))) [
  | inl near ↦ (
    0,
    back_in_char 3 pre x xs (joined cs) i all.0 (leb→le _ _ near)
          (omega (arith, all.0.2, leb→le _ _ near))
        ∙ omega arith,
    omega (arith, leb→le _ _ near, length-append {0} xs []),
  )
  | inr far ↦ back_skip pre (x ∷ xs) cs i (omega (arith, leb→lt _ _ far)) (
      back_lem (pre ++ (x ∷ xs)) cs (i - suc (length xs)) all.1
        (omega (arith, leb→lt _ _ far, length-append {0} xs (joined cs))))
]

-- Forwards inside one character: to its end, where the text ends or the next character begins.
abbrev Stops : List ℕ → Type 0
Stops [] = Unit
Stops (x ∷ xs) = rune_start x ≡ true

AllChars-Stops : (cs : List (List ℕ)) → AllChars cs → Stops (joined cs)
AllChars-Stops [] all = tt
AllChars-Stops ([] ∷ cs) all = absurd all.0
AllChars-Stops ((x ∷ xs) ∷ cs) all = all.0.0

stop_at :
    (rounds : ℕ) (pre rest : List ℕ)
    → Stops rest
    → cut_forward rounds (pre ++ rest) (length pre) ≡ length pre
unfolding cut_forward
stop_at zero pre rest stops = refl
stop_at (suc rounds) pre [] stops = ground (arith, length-append {0} pre [])
stop_at (suc rounds) pre (x ∷ xs) stops = ground (
  arith,
  get_or-append_ge 0 pre (x ∷ xs) 0,
  ap (λ n. get_or (pre ++ (x ∷ xs)) n 0) {x = length pre + 0} {y = length pre} (omega arith),
)

forward_in_char :
    (rounds : ℕ) (pre : List ℕ) (x : ℕ) (xs rest : List ℕ) (left i : ℕ)
    → Continues xs
    → Stops rest
    → i + left ≡ length xs
    → left ≤ rounds
    → cut_forward rounds (pre ++ ((x ∷ xs) ++ rest)) (length pre + suc i)
      ≡ length pre + suc (length xs)
unfolding cut_forward
forward_in_char rounds pre x xs rest zero i c stops e enough =
    ap (λ l. cut_forward rounds l (length pre + suc i)) (sym (append_assoc pre (x ∷ xs) rest))
    ∙ ap (cut_forward rounds ((pre ++ (x ∷ xs)) ++ rest))
        (omega (arith, length-append {0} pre (x ∷ xs)))
    ∙ stop_at rounds (pre ++ (x ∷ xs)) rest stops
    ∙ length-append pre (x ∷ xs)
forward_in_char zero pre x xs rest (suc left) i c stops e enough = absurd (omega arith)
forward_in_char (suc rounds) pre x xs rest (suc left) i c stops e enough = ground (
  arith,
  byte_at pre (x ∷ xs) rest (suc i) (omega arith),
  continuation xs i c (omega arith),
  length-append {0} pre ((x ∷ xs) ++ rest),
  length-append {0} xs rest,
  forward_in_char rounds pre x xs rest left (suc i) c stops (omega arith) (omega arith),
  ap (cut_forward rounds (pre ++ ((x ∷ xs) ++ rest))) {x = length pre + suc i + 1}
      {y = length pre + suc (suc i)} (omega arith),
)

abbrev pub CutsForward : List ℕ → List (List ℕ) → ℕ → Type 0
CutsForward pre cs i =
    (k : ℕ) × (cut_forward 3 (pre ++ joined cs) (length pre + i)
      ≡ length pre + length (joined (take k cs)))
    × (i ≢ 0 → length (joined (take (k - 1) cs)) < i)

passed :
    (k i : ℕ) (c : List ℕ) (cs : List (List ℕ))
    → length c < i
    → (i - length c ≢ 0 → length (joined (take (k - 1) cs)) < i - length c)
    → length (joined (take k (c ∷ cs))) < i
passed zero i c cs h next = omega arith
passed (suc k) i c cs h next = omega (
  arith,
  length-append {0} c (joined (take k cs)),
  next (omega arith),
  ap (λ n. length (joined (take n cs))) {x = suc k - 1} {y = k} (omega arith),
)

forward_skip :
    (pre c : List ℕ) (cs : List (List ℕ)) (i : ℕ)
    → length c < i
    → CutsForward (pre ++ c) cs (i - length c)
    → CutsForward pre (c ∷ cs) i
forward_skip pre c cs i h (k, cut, next) = (
  suc k,
  ap (λ l. cut_forward 3 l (length pre + i)) (sym (append_assoc pre c (joined cs)))
      ∙ ap (cut_forward 3 ((pre ++ c) ++ joined cs)) (omega (arith, length-append {0} pre c))
      ∙ cut
      ∙ omega (arith, length-append {0} pre c, length-append {0} c (joined (take k cs))),
  λ _.
      ap (λ n. length (joined (take n (c ∷ cs)))) {x = suc k - 1} {y = k} (omega arith)
      ▸ passed k i c cs h next,
)
  where
    infix 3 ◌▸◌
    ◌▸◌ : {m n : ℕ} → m ≡ n → n < i → m < i
    e ▸ lt = omega arith

pub forward_lem :
    (pre : List ℕ) (cs : List (List ℕ)) (i : ℕ)
    → AllChars cs
    → i ≤ length (joined cs)
    → CutsForward pre cs i
forward_lem pre cs zero all h = (
  0,
  ap (cut_forward 3 (pre ++ joined cs)) {x = length pre + 0} (omega arith)
      ∙ stop_at 3 pre (joined cs) (AllChars-Stops cs all)
      ∙ omega arith,
  λ n. absurd (n refl),
)
forward_lem pre [] (suc i) all h = absurd (omega arith)
forward_lem pre ([] ∷ cs) (suc i) all h = absurd all.0
forward_lem pre ((x ∷ xs) ∷ cs) (suc i) all h = elim (Bool-cases (leb i (length xs))) [
  | inl near ↦ (
    1,
    forward_in_char 3 pre x xs (joined cs) (length xs - i) i all.0.1 (AllChars-Stops cs all.1)
          (omega (arith, leb→le _ _ near)) (omega (arith, all.0.2))
        ∙ omega (arith, length-append {0} xs []),
    λ _. omega arith,
  )
  | inr far ↦ forward_skip pre (x ∷ xs) cs (suc i) (omega (arith, leb→lt _ _ far)) (
      forward_lem (pre ++ (x ∷ xs)) cs (suc i - suc (length xs)) all.1
        (omega (arith, leb→lt _ _ far, length-append {0} xs (joined cs))))
]
