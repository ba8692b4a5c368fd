-- ===== src/WaitFor/Resume.antt =====
-- waitfor.go: scanning a growing file piece by piece against scanning it at once.
use remote_cli.WaitFor.{
  ScanResult, line_text, behind_line, scan_lines, is_none, skip_full, scan_file_for_match,
  max_wait_scan_bytes,
}
use remote_cli.Reading.{slices, onto_line, ends_line}
use remote_cli.Reading.Lines.{joined_lines, joined_lines-slices}
use remote_cli.Common.{
  ℕ, ◌+◌, ◌<◌, ◌≤◌, Bool, true, false, ◌&&◌, Option, none, some, List, [], ◌∷◌, ◌++◌, if◌then◌else◌,
  length, leb, ◌==◌, drop, drop-drop, drop-append_le, drop-append_eq, take_of_length-le,
  length-append, length-drop, append_assoc, ◌≡◌, refl, sym, ap, ◌∙◌, ◌⊎◌, inl, inr, Bool-cases,
  arith,
}
use remote_cli.Common.Sort.{All}

-- A newline at the end, and none before.
abbrev IsLine : List ℕ → Type 0
IsLine [] = ⊥
IsLine (c ∷ []) = (c == b'\n') ≡ true
IsLine (c ∷ d ∷ l) = ((c == b'\n') ≡ false) × IsLine (d ∷ l)

slices-IsLine : (l x : List ℕ) → IsLine l → slices (l ++ x) ≡ l ∷ slices x
unfolding slices onto_line
slices-IsLine [] x h = absurd h
slices-IsLine (c ∷ []) x h = rw h refl
slices-IsLine (c ∷ d ∷ l) x (h, hs) = rw (h, slices-IsLine (d ∷ l) x hs) refl

abbrev IsPiece : List ℕ → Type 0
IsPiece l = IsLine l ⊎ (ends_line l ≡ false)

IsPiece-cons : (c : ℕ) (l : List ℕ) → (c == b'\n') ≡ false → IsPiece l → IsPiece (c ∷ l)
unfolding ends_line
IsPiece-cons c [] e h = inr e
IsPiece-cons c (d ∷ l) e (inl h) = inl (e, h)
IsPiece-cons c (d ∷ l) e (inr h) = inr h

onto_line-IsPiece :
    (c : ℕ) (ls : List (List ℕ))
    → (c == b'\n') ≡ false
    → All IsPiece ls
    → All IsPiece (onto_line c ls)
unfolding onto_line ends_line
onto_line-IsPiece c [] e h = (inr e, tt)
onto_line-IsPiece c (l ∷ ls) e (h, hs) = (IsPiece-cons c l e h, hs)

pieces_of : (s : List ℕ) → All IsPiece (slices s)
unfolding slices
pieces_of [] = tt
pieces_of (c ∷ s) = elim (Bool-cases (c == b'\n')) [
  | inl e ↦ rw e (inl e, pieces_of s)
  | inr e ↦ rw e (onto_line-IsPiece c (slices s) e (pieces_of s))
]

IsLine-ended : (l : List ℕ) → IsPiece l → ends_line l ≡ true → IsLine l
IsLine-ended l (inl h) e = h
IsLine-ended l (inr h) e = absurd (cc)

drop_line : (l j t : List ℕ) (k : ℕ) → drop (length l + k) ((l ++ j) ++ t) ≡ drop k (j ++ t)
drop_line l j t k =
    ap (λ (x : List ℕ). drop (length l + k) x) (append_assoc l j t)
    ∙ sym (drop-drop k (length l) (l ++ (j ++ t)))
    ∙ ap (λ (x : List ℕ). drop k x) (drop-append_eq (length l) l (j ++ t) refl)

too_small : (total : ℕ) → total < max_wait_scan_bytes → leb max_wait_scan_bytes total ≡ false
too_small total h = ground arith

below_cap :
    (a b : Bool) (r : ScanResult) (total : ℕ)
    → b ≡ false
    → (if a && b then record r { consumed = total } else r) ≡ r
below_cap true b r total e = rw e refl
below_cap false b r total e = refl

module _ (decode : List ℕ → Option (List ℕ)) (matches : List ℕ → Bool) where
  skip_full_small :
      (total : ℕ) (r : ScanResult) → total < max_wait_scan_bytes → skip_full total r ≡ r
  unfolding skip_full
  skip_full_small total r h =
      below_cap (is_none (r.matched) && r.consumed == 0) (leb max_wait_scan_bytes total) r total
        (too_small total h)

  past_line :
      (l : List ℕ) (ls : List (List ℕ))
      → matches (line_text decode l) ≡ false
      → ends_line l ≡ true
      → (scan_lines decode matches (l ∷ ls)).matched ≡ (scan_lines decode matches ls).matched
  unfolding scan_lines behind_line
  past_line l ls m e = rw (m, e) refl

  -- Behind the complete lines of a scan that found nothing, a scan finds what one from the start
  -- finds, whatever was added.
  scan_lines_resume :
      (ls : List (List ℕ)) (t : List ℕ)
      → All IsPiece ls
      → (scan_lines decode matches ls).matched ≡ none
      → (scan_lines decode matches (slices (joined_lines ls ++ t))).matched
        ≡ (scan_lines decode matches (
            slices (drop ((scan_lines decode matches ls).consumed) (joined_lines ls ++ t)))).matched
  unfolding scan_lines joined_lines behind_line
  scan_lines_resume [] t h none_found = refl
  scan_lines_resume (l ∷ ls) t (h, hs) none_found =
      elim (Bool-cases (matches (line_text decode l))) [
        | inl m ↦ absurd (let no : some (line_text decode l) ≡ none = rw m at none_found in cc)
        | inr m ↦ elim (Bool-cases (ends_line l)) [
          | inr e ↦ rw (m, e) refl
          | inl e ↦
              let rest = joined_lines ls ++ t in
              let k = (scan_lines decode matches ls).consumed in
              let ih = scan_lines_resume ls t hs (rw (m, e) at none_found) in
              rw (m, e)
                (ap (λ (x : List ℕ). (scan_lines decode matches (slices x)).matched)
                    (append_assoc l (joined_lines ls) t)
                  ∙ ap (λ (x : List (List ℕ)). (scan_lines decode matches x).matched)
                      (slices-IsLine l rest (IsLine-ended l h e))
                  ∙ past_line l (slices rest) m e
                  ∙ ih
                  ∙ ap (λ (x : List ℕ). (scan_lines decode matches (slices x)).matched)
                      (sym (drop_line l (joined_lines ls) t k)))
        ]
      ]

  -- Below the cap of a scan.
  scan_small :
      (content : List ℕ) (offset : ℕ)
      → length content < max_wait_scan_bytes
      → scan_file_for_match decode matches content offset
        ≡ scan_lines decode matches (slices (drop offset content))
  unfolding scan_file_for_match
  scan_small content offset h =
      let left = length-drop {0} offset content in
      ap (λ (read : List ℕ). skip_full (length read) (scan_lines decode matches (slices read)))
        (take_of_length-le max_wait_scan_bytes (drop offset content) (omega (arith, left, h)))
      ∙ skip_full_small (length (drop offset content))
          (scan_lines decode matches (slices (drop offset content))) (omega (arith, left, h))

  -- A watcher that scans a growing log from where its last scan has come to misses nothing and finds
  -- nothing twice: where a scan from `offset` found no match, the scan of the grown file from there
  -- on finds the line, if any, that a scan of the grown file from `offset` finds. A line that was
  -- half written is seen whole. The file stays smaller than one scan may read, 64 MB.
  pub scan_file_for_match-resume :
      (old added : List ℕ) (offset : ℕ)
      → offset ≤ length old
      → length (old ++ added) < max_wait_scan_bytes
      → (scan_file_for_match decode matches old offset).matched ≡ none
      → (scan_file_for_match decode matches (old ++ added) offset).matched
        ≡ (scan_file_for_match decode matches
            (old ++ added)
            (offset + (scan_file_for_match decode matches old offset).consumed)).matched
  scan_file_for_match-resume old added offset h small nothing =
      let both = length-append {0} old added in
      let first = scan_small old offset (omega (arith, both, small)) in
      let part = drop offset old in
      let k = (scan_lines decode matches (slices part)).consumed in
      let none_found : (scan_lines decode matches (slices part)).matched ≡ none =
        ap (λ (r : ScanResult). r.matched) (sym first) ∙ nothing in
      let resumed = scan_lines_resume (slices part) added (pieces_of part) none_found in
      let whole : joined_lines (slices part) ++ added ≡ drop offset (old ++ added) =
        ap (λ (x : List ℕ). x ++ added) (joined_lines-slices part)
        ∙ sym (drop-append_le offset old added h) in
      ap (λ (r : ScanResult). r.matched) (scan_small (old ++ added) offset small)
      ∙ ap (λ (x : List ℕ). (scan_lines decode matches (slices x)).matched) (sym whole)
      ∙ resumed
      ∙ ap (λ (x : List ℕ). (scan_lines decode matches (slices (drop k x))).matched) whole
      ∙ ap (λ (x : List ℕ). (scan_lines decode matches (slices x)).matched)
          (drop-drop k offset (old ++ added))
      ∙ ap
          (λ (n : ℕ).
            (scan_lines decode matches (slices (drop (offset + n) (old ++ added)))).matched)
          (ap (λ (r : ScanResult). r.consumed) (sym first))
      ∙ ap (λ (r : ScanResult). r.matched) (sym (scan_small (old ++ added) _ small))
