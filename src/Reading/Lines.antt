-- ===== src/Reading/Lines.antt =====
-- readops.go: which lines a window by line numbers holds.
use remote_cli.Reading.{
  Window, onto_line, slices, ends_line, skip_lines, is_nil, past_end, window_of, take_lines,
  lines_from, read_line_window,
}
use remote_cli.Common.{
  ℕ, zero, suc, ◌+◌, ◌-◌, ◌<◌, ◌≤◌, Bool, true, false, not, List, [], ◌∷◌, ◌++◌, if◌then◌else◌,
  length, ◌==◌, take, drop, length-append, append_assoc, append-nil, ◌≡◌, refl, sym, ap, ap₂, subst,
  ◌∙◌, inl, inr, Bool-cases, le→ltb, arith,
}

unfoldable pub joined_lines : List (List ℕ) → List ℕ
joined_lines [] = []
joined_lines (l ∷ ls) = l ++ joined_lines ls

-- Only the last line may be without its newline.
abbrev pub Ended : List (List ℕ) → Type 0
Ended [] = Unit
Ended (l ∷ []) = Unit
Ended (l ∷ l' ∷ ls) = (ends_line l ≡ true) × Ended (l' ∷ ls)

onto_line-joined :
    (c : ℕ) (ls : List (List ℕ)) → joined_lines (onto_line c ls) ≡ c ∷ joined_lines ls
unfolding onto_line joined_lines
onto_line-joined c [] = refl
onto_line-joined c (l ∷ ls) = refl

-- The lines, one behind the other, are the file.
pub joined_lines-slices : (s : List ℕ) → joined_lines (slices s) ≡ s
unfolding slices joined_lines
joined_lines-slices [] = refl
joined_lines-slices (c ∷ s) = elim (Bool-cases (c == b'\n')) [
  | inl e ↦ rw e (ap (λ (t : List ℕ). c ∷ t) (joined_lines-slices s))
  | inr e ↦
      rw e (onto_line-joined c (slices s) ∙ ap (λ (t : List ℕ). c ∷ t) (joined_lines-slices s))
]

ends_line-cons : (c : ℕ) (l : List ℕ) → ends_line l ≡ true → ends_line (c ∷ l) ≡ true
unfolding ends_line
ends_line-cons c [] h = absurd (cc)
ends_line-cons c (d ∷ l) h = h

onto_line-Ended : (c : ℕ) (ls : List (List ℕ)) → Ended ls → Ended (onto_line c ls)
unfolding onto_line
onto_line-Ended c [] h = tt
onto_line-Ended c (l ∷ []) h = tt
onto_line-Ended c (l ∷ l' ∷ ls) (h, hs) = (ends_line-cons c l h, hs)

line-Ended : (c : ℕ) (ls : List (List ℕ)) → (c == b'\n') ≡ true → Ended ls → Ended ((c ∷ []) ∷ ls)
unfolding ends_line
line-Ended c [] e h = tt
line-Ended c (l ∷ ls) e h = (e, h)

slices-Ended : (s : List ℕ) → Ended (slices s)
unfolding slices
slices-Ended [] = tt
slices-Ended (c ∷ s) = elim (Bool-cases (c == b'\n')) [
  | inl e ↦ rw e (line-Ended c (slices s) e (slices-Ended s))
  | inr e ↦ rw e (onto_line-Ended c (slices s) (slices-Ended s))
]

tail-Ended : (l : List ℕ) (ls : List (List ℕ)) → Ended (l ∷ ls) → Ended ls
tail-Ended l [] h = tt
tail-Ended l (l' ∷ ls) h = h.1

-- A line that does not end is the last.
last_line : (l : List ℕ) (ls : List (List ℕ)) → Ended (l ∷ ls) → ends_line l ≡ false → ls ≡ []
last_line l [] h e = refl
last_line l (l' ∷ ls) h e = absurd (cc)

-- The window that ends before the line `next`, unless the file does.
abbrev pub full_window : ℕ → List ℕ → Bool → ℕ → Window
full_window offset bytes at_end next = record {
  bytes = bytes;
  offset = offset;
  more = not at_end;
  capped = false;
  next_line = if at_end then 0 else next;
  cut_line = false;
}

past_end-true : (last line : ℕ) → 0 < last → last < line → past_end last line ≡ true
unfolding past_end
past_end-true last line p h = ground arith

past_end-false : (last line : ℕ) → line ≤ last → past_end last line ≡ false
unfolding past_end
past_end-false last line h = ground arith

fits_first :
    (m : ℕ) (before l rest : List ℕ) → length (before ++ (l ++ rest)) ≤ m → length (before ++ l) ≤ m
fits_first m before l rest h = omega (
  arith,
  h,
  length-append {0} before (l ++ rest),
  length-append {0} l rest,
  length-append {0} before l,
)

take_lines-joined :
    (k last m offset line : ℕ) (before : List ℕ) (ls : List (List ℕ))
    → Ended ls
    → last + 1 ≡ line + k
    → 0 < last
    → length (before ++ joined_lines (take k ls)) ≤ m
    → take_lines last m offset line before ls
      ≡ full_window offset (before ++ joined_lines (take k ls)) (is_nil (drop k ls)) (line + k)
unfolding take_lines joined_lines is_nil window_of
take_lines-joined zero last m offset line before [] h e p fits = rw (append-nil before) refl
take_lines-joined zero last m offset line before (l ∷ ls) h e p fits =
    rw (past_end-true last line p (omega (arith, e)), append-nil before)
      (ap (λ (n : ℕ). record (full_window offset before false line) { next_line = n }) {x = line}
        {y = line + 0} (omega arith))
take_lines-joined (suc k) last m offset line before [] h e p fits = rw (append-nil before) refl
take_lines-joined (suc k) last m offset line before (l ∷ ls) h e p fits =
    rw
      (
        past_end-false last line (omega (arith, e)),
        le→ltb m (length (before ++ l)) (fits_first m before l (joined_lines (take k ls)) fits),
      )
      (elim (Bool-cases (ends_line l)) [
        | inl y ↦
            rw
              (
                y,
                take_lines-joined k last m offset (line + 1) (before ++ l) ls (tail-Ended l ls h)
                    (omega (arith, e)) p
                    (subst (λ (t : List ℕ). length t ≤ m)
                      (sym (append_assoc before l (joined_lines (take k ls)))) fits),
              )
              (rw (append_assoc before l (joined_lines (take k ls))) (
                ap
                  (λ (n : ℕ).
                    full_window offset (before ++ (l ++ joined_lines (take k ls)))
                      (is_nil (drop k ls)) n)
                  {x = line + 1 + k} {y = line + suc k} (omega arith)))
        | inr y ↦ rw (y, last_line l ls h y) (alone k l)
      ])
  where
    alone :
        (k : ℕ) (l : List ℕ)
        → window_of offset (before ++ l)
          ≡ full_window offset
              (before ++ (l ++ joined_lines (take k [])))
              (is_nil (drop k []))
              (line + suc k)
    alone zero l = rw (append-nil l) refl
    alone (suc k) l = rw (append-nil l) refl

lines_from-full :
    (n k last m start offset : ℕ) (ls : List (List ℕ))
    → Ended ls
    → last + 1 ≡ start + k
    → 0 < last
    → length (joined_lines (take k (drop n ls))) ≤ m
    → lines_from start last m (skip_lines n offset ls)
      ≡ full_window
          (offset + length (joined_lines (take n ls)))
          (joined_lines (take k (drop n ls)))
          (is_nil (drop k (drop n ls)))
          (start + k)
unfolding lines_from skip_lines joined_lines is_nil window_of
lines_from-full zero k last m start offset ls h e p fits =
    take_lines-joined k last m offset start [] ls h e p fits
    ∙ ap (λ (o : ℕ). full_window o (joined_lines (take k ls)) (is_nil (drop k ls)) (start + k))
        (omega arith)
lines_from-full (suc n) k last m start offset [] h e p fits = nothing k
  where
    nothing :
        (k : ℕ)
        → window_of offset []
          ≡ full_window (offset + 0) (joined_lines (take k [])) (is_nil (drop k [])) (start + k)
    nothing zero = ap (λ (o : ℕ). window_of o []) (omega arith)
    nothing (suc k) = ap (λ (o : ℕ). window_of o []) (omega arith)
lines_from-full (suc n) k last m start offset (l ∷ ls) h e p fits =
    elim (Bool-cases (ends_line l)) [
      | inl y ↦ rw y (
          lines_from-full n k last m start (offset + length l) ls (tail-Ended l ls h) e p fits
          ∙ ap
              (λ (o : ℕ).
                full_window o (joined_lines (take k (drop n ls))) (is_nil (drop k (drop n ls)))
                  (start + k))
              (omega (arith, length-append {0} l (joined_lines (take n ls)))))
      | inr y ↦ rw (y, last_line l ls h y) (none_left n k)
    ]
  where
    none_left :
        (n k : ℕ)
        → window_of (offset + length l) []
          ≡ full_window
              (offset + length (l ++ joined_lines (take n [])))
              (joined_lines (take k (drop n [])))
              (is_nil (drop k (drop n [])))
              (start + k)
    none_left zero zero = rw (append-nil l) refl
    none_left zero (suc k) = rw (append-nil l) refl
    none_left (suc n) zero = rw (append-nil l) refl
    none_left (suc n) (suc k) = rw (append-nil l) refl

-- A read of the lines n + 1 to n + k returns exactly these lines of the file, as far as it has them,
-- and the offset of the first, if they fit into max_bytes; it is not capped, and exactly where lines
-- are left it says so and that the next is the line n + k + 1. k is 1 at least.
pub read_line_window-full :
    (content : List ℕ) (n k m : ℕ)
    → 0 < k
    → length (joined_lines (take k (drop n (slices content)))) ≤ m
    → read_line_window content (n + 1) (n + k) m
      ≡ full_window
          (length (joined_lines (take n (slices content))))
          (joined_lines (take k (drop n (slices content))))
          (is_nil (drop k (drop n (slices content))))
          (n + k + 1)
unfolding read_line_window
read_line_window-full content n k m p fits =
    ap (λ (i : ℕ). lines_from (n + 1) (n + k) m (skip_lines i 0 (slices content))) {x = n + 1 - 1}
      {y = n} (omega arith)
    ∙ lines_from-full n k (n + k) m (n + 1) 0 (slices content) (slices-Ended content) (omega arith)
        (omega (arith, p)) fits
    ∙ ap₂
        (λ (o i : ℕ).
          full_window o (joined_lines (take k (drop n (slices content))))
            (is_nil (drop k (drop n (slices content)))) i)
        {x = 0 + length (joined_lines (take n (slices content)))}
        {y = length (joined_lines (take n (slices content)))} (omega arith) (omega arith)
