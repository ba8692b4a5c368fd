-- ===== src/Diff/Whole.antt =====
-- The whole diff of two lists of lines, and of two texts around it.
use remote_cli.Common.{
  ℕ, ◌+◌, ◌*◌, ◌≤◌, ◌≡◌, inl, inr, refl, ap, ◌∙◌, false, some, List, [], ◌∷◌, ◌++◌, arith, ltb,
  length, Bool-cases,
}
use remote_cli.Diff.{
  Line, same, DiffOp, remove_all, add_all, diff_middle, count_kind, max_diff_cells, walk, lcs_table,
}
use remote_cli.Diff.Spec.{Within, lcs_length-upper, old_side, new_side}
use mathlib.Core.List.{append-nil}
use remote_cli.Diff.Walk.{Ends, walk-Ends}

module _ (n : ℕ) where
  old_side-remove_all :
      (m : ℕ) (a : List Line) (ops : List DiffOp)
      → old_side (remove_all m n a ++ ops) ≡ a ++ old_side ops
  unfolding old_side remove_all
  old_side-remove_all m [] ops = refl
  old_side-remove_all m (x ∷ a) ops = ap (◌∷◌ x) (old_side-remove_all (m + 1) a ops)

  new_side-remove_all :
      (m : ℕ) (a : List Line) (ops : List DiffOp)
      → new_side (remove_all m n a ++ ops) ≡ new_side ops
  unfolding new_side remove_all
  new_side-remove_all m [] ops = refl
  new_side-remove_all m (x ∷ a) ops = new_side-remove_all (m + 1) a ops

  old_side-add_all : (m : ℕ) (b : List Line) → old_side (add_all n m b) ≡ []
  unfolding old_side add_all
  old_side-add_all m [] = refl
  old_side-add_all m (x ∷ b) = old_side-add_all (m + 1) b

  new_side-add_all : (m : ℕ) (b : List Line) → new_side (add_all n m b) ≡ b
  unfolding new_side add_all
  new_side-add_all m [] = refl
  new_side-add_all m (x ∷ b) = ap (◌∷◌ x) (new_side-add_all (m + 1) b)

-- `diffMiddle` always ends, and its operations read on the old side as `a` and on the new side as
-- `b`, whichever of the two ways it takes.
pub diff_middle_sides :
    (a b : List Line) (ao bo : ℕ)
    → (ops : List DiffOp) × (diff_middle a b ao bo ≡ some ops)
      × (old_side ops ≡ a)
      × (new_side ops ≡ b)
unfolding diff_middle
diff_middle_sides a b ao bo = elim (Bool-cases (ltb max_diff_cells (length a * length b))) [
  | inl big ↦ (
    remove_all ao bo a ++ add_all (ao + length a) bo b,
    rw big refl,
    old_side-remove_all bo ao a (add_all (ao + length a) bo b)
        ∙ ap (◌++◌ a) (old_side-add_all (ao + length a) bo b)
        ∙ append-nil a,
    new_side-remove_all bo ao a (add_all (ao + length a) bo b)
        ∙ new_side-add_all (ao + length a) bo b,
  )
  | inr fits ↦
      let (ops, e, d) : Ends a b ao bo 0 0
          (walk (length a + length b) a b (lcs_table a b) ao bo 0 0) =
        walk-Ends a b ao bo (length a + length b) 0 0 (omega arith) (omega arith) (omega arith) in
      (ops, rw fits e, d.old, d.new)
]

-- Where the table of `a` and `b` stays within `maxDiffCells`, the diff is minimal: no common
-- subsequence of the two texts has more lines than the operations keep.
pub diff_middle_minimal :
    (a b : List Line) (ao bo : ℕ) (zs : List Line)
    → length a * length b ≤ max_diff_cells
    → Within zs a
    → Within zs b
    → (ops : List DiffOp) × (diff_middle a b ao bo ≡ some ops) × (length zs ≤ count_kind same ops)
unfolding diff_middle
diff_middle_minimal a b ao bo zs fits in_a in_b =
    let small : ltb max_diff_cells (length a * length b) ≡ false = ground arith in
    let (ops, e, d) : Ends a b ao bo 0 0
        (walk (length a + length b) a b (lcs_table a b) ao bo 0 0) =
      walk-Ends a b ao bo (length a + length b) 0 0 (omega arith) (omega arith) (omega arith) in
    (ops, rw small e, omega (arith, d.kept, lcs_length-upper a b zs in_a in_b))
