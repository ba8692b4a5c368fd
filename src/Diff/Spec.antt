-- ===== src/Diff/Spec.antt =====
-- What a diff is to achieve: common subsequences of two lists of lines, and the two sides of a list
-- of operations.
use remote_cli.Common.{
  ℕ, ◌+◌, ◌≤◌, ◌≡◌, refl, max, true, false, List, [], ◌∷◌, arith, length, if◌then◌else◌, bytes_eq,
  bytes_eq_refl, Bool-cases, inl, inr,
}
use remote_cli.Diff.{Line, removed, added, DiffOp}

-- `Within zs xs`: `zs` is what is left of `xs` when some lines are taken out.
pub data Within : List Line → List Line → Type 0 where
  done : Within [] []
  skip : {x : Line} {zs xs : List Line} → Within zs xs → Within zs (x ∷ xs)
  keep : {x : Line} {zs xs : List Line} → Within zs xs → Within (x ∷ zs) (x ∷ xs)

-- The length of a longest common subsequence, by recursion.
unfoldable pub lcs_length : List Line → List Line → ℕ
lcs_length [] b = 0
lcs_length (x ∷ a) [] = 0
lcs_length (x ∷ a) (y ∷ b) =
    if bytes_eq x y then lcs_length a b + 1 else max (lcs_length a (y ∷ b)) (lcs_length (x ∷ a) b)

-- The lines of the old and of the new text that operations speak of.
unfoldable pub old_side : List DiffOp → List Line
old_side [] = []
old_side (op ∷ ops) = elim op.kind [ added ↦ old_side ops | _ ↦ op.text ∷ old_side ops ]

unfoldable pub new_side : List DiffOp → List Line
new_side [] = []
new_side (op ∷ ops) = elim op.kind [ removed ↦ new_side ops | _ ↦ op.text ∷ new_side ops ]

Within-tail : {z : Line} {zs xs : List Line} → Within (z ∷ zs) xs → Within zs xs
Within-tail (skip d) = skip (Within-tail d)
Within-tail (keep d) = skip d

-- No common subsequence is longer.
pub lcs_length-upper : (a b zs : List Line) → Within zs a → Within zs b → length zs ≤ lcs_length a b
unfolding lcs_length
lcs_length-upper [] b zs done e = omega arith
lcs_length-upper (x ∷ a) [] zs d done = omega arith
lcs_length-upper (x ∷ a) (y ∷ b) zs (skip d) (skip e) = elim (Bool-cases (bytes_eq x y)) [
  | inl eq ↦ rw eq (omega (arith, lcs_length-upper a b zs d e))
  | inr ne ↦ rw ne (omega (arith, lcs_length-upper a (y ∷ b) zs d (skip e)))
]
lcs_length-upper (x ∷ a) (y ∷ b) _ (skip d) (keep {zs = zs} e) = elim (Bool-cases (bytes_eq x y)) [
  | inl eq ↦ rw eq (omega (arith, lcs_length-upper a b zs (Within-tail d) e))
  | inr ne ↦ rw ne (omega (arith, lcs_length-upper a (y ∷ b) (y ∷ zs) d (keep e)))
]
lcs_length-upper (x ∷ a) (y ∷ b) _ (keep {zs = zs} d) (skip e) = elim (Bool-cases (bytes_eq x y)) [
  | inl eq ↦ rw eq (omega (arith, lcs_length-upper a b zs d (Within-tail e)))
  | inr ne ↦ rw ne (omega (arith, lcs_length-upper (x ∷ a) b (x ∷ zs) (keep d) e))
]
lcs_length-upper (x ∷ a) (y ∷ b) _ (keep {zs = zs} d) (keep e) =
    rw (bytes_eq_refl x) (omega (arith, lcs_length-upper a b zs d e))

pub lcs_length-nil : (a : List Line) → lcs_length a [] ≡ 0
unfolding lcs_length
lcs_length-nil [] = refl
lcs_length-nil (x ∷ a) = refl

module _ (x y : Line) (a b : List Line) where
  pub lcs_length-match : bytes_eq x y ≡ true → lcs_length (x ∷ a) (y ∷ b) ≡ lcs_length a b + 1
  unfolding lcs_length
  lcs_length-match e = rw e refl

  pub lcs_length-differ :
      bytes_eq x y ≡ false
      → lcs_length (x ∷ a) (y ∷ b) ≡ max (lcs_length a (y ∷ b)) (lcs_length (x ∷ a) b)
  unfolding lcs_length
  lcs_length-differ e = rw e refl

pub nil-lcs_length : (b : List Line) → lcs_length [] b ≡ 0
unfolding lcs_length
nil-lcs_length b = refl
