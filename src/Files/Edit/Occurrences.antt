-- ===== src/Files/Edit/Occurrences.antt =====
-- fileops.go: what counting and replacing an exact text do.
use remote_cli.Files.{refused_edit, done, failed}
use remote_cli.Files.Edit.{
  count_from, count, replace_from, replace_all, replace_first, EditPair, edit_exact,
}
use remote_cli.Common.{
  ℕ, zero, suc, ◌+◌, ◌-◌, ◌*◌, ◌≤◌, ◌<◌, Bool, true, false, List, [], ◌∷◌, ◌++◌, if◌then◌else◌,
  length, ◌==◌, ltb, ◌≡◌, ◌≢◌, ◌⊎◌, String, refl, ap, inl, inr, Bool-cases, drop, length-append,
  arith,
}
use remote_cli.Sandbox.{has_prefix}

-- A text with the prefix is the prefix and what is behind it.
pub has_prefix-drop : (p s : List ℕ) → has_prefix p s ≡ true → s ≡ p ++ drop (length p) s
unfolding has_prefix
has_prefix-drop [] s h = refl
has_prefix-drop (c ∷ p) [] h = cc
has_prefix-drop (c ∷ p) (d ∷ s) h = ground (arith, has_prefix-drop p s)

has_prefix-length : (p s : List ℕ) → has_prefix p s ≡ true → length p ≤ length s
has_prefix-length p s h =
    let e = ap length (has_prefix-drop p s h) in
    omega (arith, e, length-append {0} p (drop (length p) s))

module _ (old : List ℕ) (new : List ℕ) where
  -- A step of the count, with the lengths multiplied out.
  times_suc : (n k : ℕ) → (1 + n) * k ≡ k + n * k
  times_suc n k = omega arith

  replace_from-length :
      (skip : ℕ) (s : List ℕ)
      → 0 < length old
      → skip ≤ length s
      → length (replace_from old new skip s) + skip + count_from old skip s * length old
        ≡ length s + count_from old skip s * length new
  unfolding replace_from count_from
  replace_from-length zero [] h k = omega arith
  replace_from-length (suc skip) [] h k = omega arith
  replace_from-length (suc skip) (c ∷ s) h k =
      omega (arith, replace_from-length skip s h (omega arith))
  replace_from-length zero (c ∷ s) h k = elim (Bool-cases (has_prefix old (c ∷ s))) [
    | inl e ↦ rw e (
        omega (
          arith,
          replace_from-length (length old - 1) s h (omega (arith, has_prefix-length old (c ∷ s) e)),
          length-append {0} new (replace_from old new (length old - 1) s),
          times_suc (count_from old (length old - 1) s) (length old),
          times_suc (count_from old (length old - 1) s) (length new),
        ))
    | inr e ↦ rw e (omega (arith, replace_from-length 0 s h (omega arith)))
  ]

-- `strings.ReplaceAll` changes the length by the difference of the two texts for each occurrence
-- that `strings.Count` counts: it replaces exactly those. The text sought is not empty.
pub replace_all-length :
    (s old new : List ℕ)
    → 0 < length old
    → length (replace_all s old new) + count s old * length old
      ≡ length s + count s old * length new
unfolding replace_all count
replace_all-length s old new h = omega (arith, replace_from-length old new 0 s h (omega arith))

count_left :
    (b : Bool) (old s : List ℕ)
    → b ≡ false
    → 0 < (if b then 1 else 0) + count_from old (if b then length old - 1 else 0) s
    → 0 < count s old
unfolding count
count_left true old s e h = absurd (cc)
count_left false old s e h = omega (arith, h)

-- The first occurrence is replaced, and all else stays.
replace_first-splice :
    (s old new : List ℕ)
    → 0 < count s old
    → (pre : List ℕ) × (post : List ℕ) × (s ≡ pre ++ (old ++ post))
      × (replace_first s old new ≡ pre ++ (new ++ post))
unfolding count count_from replace_first
replace_first-splice [] old new h = absurd (omega arith)
replace_first-splice (c ∷ s) old new h = elim (Bool-cases (has_prefix old (c ∷ s))) [
  | inl e ↦ ([], drop (length old) (c ∷ s), has_prefix-drop old (c ∷ s) e, rw e refl)
  | inr e ↦
      let (pre, post, whole, spliced) =
        replace_first-splice s old new (count_left (has_prefix old (c ∷ s)) _ _ e h) in
      (c ∷ pre, post, ap (λ (t : List ℕ). c ∷ t) whole, rw (e, spliced) refl)
]

-- An edit without replace_all succeeds if its text is counted once, and then it puts the new text
-- in the place of that occurrence and keeps what is before and behind it; else it is refused.
pub edit_exact-splice :
    (i : ℕ) (s : List ℕ) (e : EditPair)
    → e.replace_all ≡ false
    → ((pre : List ℕ) × (post : List ℕ) × (count s (e.old_string) ≡ 1)
        × (s ≡ pre ++ (e.old_string ++ post))
        × (edit_exact i s e ≡ done (pre ++ (e.new_string ++ post), 1)))
      ⊎ ((why : String) × (count s (e.old_string) ≢ 1)
          × (edit_exact i s e ≡ failed (refused_edit i why)))
unfolding edit_exact
edit_exact-splice i s e one = elim (Bool-cases (count s (e.old_string) == 0)) [
  | inl z ↦ inr ("old_string not found", ground (arith), rw z refl)
  | inr z ↦ elim (Bool-cases (ltb 1 (count s (e.old_string)))) [
    | inl m ↦ inr ("old_string is not unique", ground (arith), rw (z, one, m) refl)
    | inr m ↦
        let (pre, post, whole, spliced) =
          replace_first-splice s (e.old_string) (e.new_string) (ground arith) in
        inl (
          pre,
          post,
          ground (arith),
          whole,
          rw (z, one, m) (ap (λ (t : List ℕ). done (t, 1)) spliced),
        )
  ]
]
