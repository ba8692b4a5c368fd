-- ===== src/Diff/Walk.antt =====
-- The loop of `diffMiddle` that reads the table, from a place on.
use remote_cli.Common.{
  ℕ, zero, suc, ◌+◌, ◌-◌, ◌*◌, ◌≤◌, ◌<◌, ◌≡◌, ◌⊎◌, inl, inr, refl, sym, ap, ap₂, ◌∙◌, max, true,
  Option, some, List, [], ◌∷◌, ◌||◌, arith, leb, ltb, length, drop, get_or, bytes_eq, bytes_eq_iff,
  Bool-cases, drop_of_length-le, leb→le, leb→lt,
}
use native.Mathlib.Decide.{dec_lt}
use remote_cli.Diff.{
  Line, Kind, same, removed, added, DiffOp, lcs_table, choose, with_op, walk, is_kind, count_kind,
}
use remote_cli.Diff.Spec.{
  lcs_length, lcs_length-nil, nil-lcs_length, lcs_length-match, lcs_length-differ, old_side,
  new_side,
}
use remote_cli.Diff.Table.{lcs_table-Right, drop-get}

module _ (a b : List Line) (ao bo : ℕ) where
  abbrev lcs : List ℕ
  lcs = lcs_table a b

  abbrev x : ℕ → Line
  x i = get_or a i []

  abbrev y : ℕ → Line
  y j = get_or b j []

  -- What the loop is to return from `i`, `j` on.
  pub record Diffs (i j : ℕ) (ops : List DiffOp) : Type 0 where
    pub old : old_side ops ≡ drop i a
    pub new : new_side ops ≡ drop j b
    pub kept : count_kind same ops ≡ lcs_length (drop i a) (drop j b)

  -- What each case of the `switch` knows.
  abbrev Chosen : ℕ → ℕ → Kind → Type 0
  Chosen i j same = (i < length a) × (j < length b) × (x i ≡ y j)
  Chosen i j removed =
      (i < length a) × (lcs_length (drop i a) (drop j b) ≡ lcs_length (drop (i + 1) a) (drop j b))
  Chosen i j added =
      (j < length b) × (lcs_length (drop i a) (drop j b) ≡ lcs_length (drop i a) (drop (j + 1) b))

  -- Where both lists go on, the first lines are equal or the table decides.
  choose-both : (i j : ℕ) → i < length a → j < length b → Chosen i j (choose a b lcs i j)
  unfolding choose
  choose-both i j hi hj = elim (Bool-cases (bytes_eq (x i) (y j))) [
    | inl eq ↦
        let e : choose a b lcs i j ≡ same = ground arith in
        rw e (hi, hj, (bytes_eq_iff (x i) (y j)).0 eq)
    | inr ne ↦
        let best : lcs_length (drop i a) (drop j b)
            ≡ max (lcs_length (drop (i + 1) a) (drop j b))
                (lcs_length (drop i a) (drop (j + 1) b)) =
          ap₂ lcs_length (drop-get i a hi) (drop-get j b hj)
          ∙ lcs_length-differ (x i) (y j) (drop (i + 1) a) (drop (j + 1) b) ne
          ∙ ap₂ (λ l r. max (lcs_length (drop (i + 1) a) r) (lcs_length l (drop (j + 1) b)))
              (sym (drop-get i a hi)) (sym (drop-get j b hj)) in
        let down : get_or lcs ((i + 1) * (length b + 1) + j) 0
            ≡ lcs_length (drop (i + 1) a) (drop j b) =
          lcs_table-Right a b (i + 1) j (omega arith) (omega arith) in
        let right : get_or lcs (i * (length b + 1) + j + 1) 0
            ≡ lcs_length (drop i a) (drop (j + 1) b) =
          ap (λ n. get_or lcs n 0) {y = i * (length b + 1) + (j + 1)} (omega arith)
          ∙ lcs_table-Right a b i (j + 1) (omega arith) (omega arith) in
        elim (Bool-cases (
          leb (get_or lcs (i * (length b + 1) + j + 1) 0)
            (get_or lcs ((i + 1) * (length b + 1) + j) 0))) [
              | inl le ↦
                  let e : choose a b lcs i j ≡ removed = ground arith in
                  rw e (hi, omega (arith, best, down, right, leb→le _ _ le))
              | inr gt ↦
                  let e : choose a b lcs i j ≡ added = ground arith in
                  rw e (hj, omega (arith, best, down, right, leb→lt _ _ gt))
            ]
  ]

  choose-Chosen :
      (i j : ℕ)
      → i ≤ length a
      → j ≤ length b
      → (i < length a) ⊎ (j < length b)
      → Chosen i j (choose a b lcs i j)
  unfolding choose
  choose-Chosen i j hi hj more = elim (dec_lt i (length a)) [
    | yes left ↦ elim (dec_lt j (length b)) [
      | yes right ↦ choose-both i j left right
      | no end ↦
          let e : choose a b lcs i j ≡ removed = ground arith in
          let none_left : drop j b ≡ [] = drop_of_length-le j b (omega arith) in
          rw (e, none_left)
            (left, lcs_length-nil (drop i a) ∙ sym (lcs_length-nil (drop (i + 1) a)))
    ]
    | no end ↦
        let right : j < length b = omega arith in
        let e : choose a b lcs i j ≡ added = ground arith in
        let none_left : drop i a ≡ [] = drop_of_length-le i a (omega arith) in
        rw (e, none_left) (right, nil-lcs_length (drop j b) ∙ sym (nil-lcs_length (drop (j + 1) b)))
  ]

  Diffs-same :
      (i j : ℕ) (ops : List DiffOp)
      → Chosen i j same
      → Diffs (i + 1) (j + 1) ops
      → Diffs i j (record { kind = same; text = x i; old_idx = ao + i; new_idx = bo + j } ∷ ops)
  unfolding old_side new_side count_kind is_kind lcs_length
  Diffs-same i j ops (hi, hj, e) d = record {
    old = ap (◌∷◌ (x i)) d.old ∙ sym (drop-get i a hi);
    new = ap₂ ◌∷◌ e d.new ∙ sym (drop-get j b hj);
    kept =
        omega (
          arith,
          d.kept,
          lcs_length-match (x i) (y j) (drop (i + 1) a) (drop (j + 1) b)
              ((bytes_eq_iff (x i) (y j)).1 e),
        )
        ∙ sym (ap₂ lcs_length (drop-get i a hi) (drop-get j b hj));
  }

  Diffs-removed :
      (i j : ℕ) (ops : List DiffOp)
      → Chosen i j removed
      → Diffs (i + 1) j ops
      → Diffs i j (record { kind = removed; text = x i; old_idx = ao + i; new_idx = bo + j } ∷ ops)
  unfolding old_side new_side count_kind is_kind
  Diffs-removed i j ops (hi, e) d = record {
    old = ap (◌∷◌ (x i)) d.old ∙ sym (drop-get i a hi);
    new = d.new;
    kept = omega (arith, d.kept, e);
  }

  Diffs-added :
      (i j : ℕ) (ops : List DiffOp)
      → Chosen i j added
      → Diffs i (j + 1) ops
      → Diffs i j (record { kind = added; text = y j; old_idx = ao + i; new_idx = bo + j } ∷ ops)
  unfolding old_side new_side count_kind is_kind
  Diffs-added i j ops (hj, e) d = record {
    old = d.old;
    new = ap (◌∷◌ (y j)) d.new ∙ sym (drop-get j b hj);
    kept = omega (arith, d.kept, e);
  }

  Diffs-end : (i j : ℕ) → length a ≤ i → length b ≤ j → Diffs i j []
  unfolding old_side new_side count_kind
  Diffs-end i j hi hj = record {
    old = sym (drop_of_length-le i a hi);
    new = sym (drop_of_length-le j b hj);
    kept = sym (ap (lcs_length (drop i a)) (drop_of_length-le j b hj) ∙ lcs_length-nil (drop i a));
  }

  abbrev pub Ends : ℕ → ℕ → Option (List DiffOp) → Type 0
  Ends i j r = (ops : List DiffOp) × (r ≡ some ops) × Diffs i j ops

  abbrev pub Recurs : ℕ → Type 0
  Recurs fuel =
      (i j : ℕ)
      → i ≤ length a
      → j ≤ length b
      → (length a - i) + (length b - j) ≤ fuel
      → Ends i j (walk fuel a b lcs ao bo i j)

  with_op_lem :
      (op : DiffOp) (i j i' j' : ℕ) (r : Option (List DiffOp))
      → ((ops : List DiffOp) → Diffs i' j' ops → Diffs i j (op ∷ ops))
      → Ends i' j' r
      → Ends i j (with_op op r)
  unfolding with_op
  with_op_lem op i j i' j' r more (ops, e, d) = (op ∷ ops, rw e refl, more ops d)

  -- A round, by what it chooses.
  round :
      (k : Kind) (fuel i j : ℕ)
      → (i < length a) ⊎ (j < length b)
      → i ≤ length a
      → j ≤ length b
      → (length a - i) + (length b - j) ≤ suc fuel
      → choose a b lcs i j ≡ k
      → Chosen i j k
      → Recurs fuel
      → Ends i j (walk (suc fuel) a b lcs ao bo i j)
  unfolding walk
  round same fuel i j m hi hj enough e c rec =
      let t : (ltb i (length a) || ltb j (length b)) ≡ true = ground arith in
      rw (t, e, walk)
        (with_op_lem _ i j (i + 1) (j + 1) _ (λ ops. Diffs-same i j ops c)
          (rec (i + 1) (j + 1) (omega (arith, c.0)) (omega (arith, c.1)) (omega (arith, c.0, c.1))))
  round removed fuel i j m hi hj enough e c rec =
      let t : (ltb i (length a) || ltb j (length b)) ≡ true = ground arith in
      rw (t, e, walk)
        (with_op_lem _ i j (i + 1) j _ (λ ops. Diffs-removed i j ops c)
          (rec (i + 1) j (omega (arith, c.0)) hj (omega (arith, c.0))))
  round added fuel i j m hi hj enough e c rec =
      let t : (ltb i (length a) || ltb j (length b)) ≡ true = ground arith in
      rw (t, e, walk)
        (with_op_lem _ i j i (j + 1) _ (λ ops. Diffs-added i j ops c)
          (rec i (j + 1) hi (omega (arith, c.0)) (omega (arith, c.0))))

  -- As many rounds as there are lines left are enough.
  pub walk-Ends : (fuel : ℕ) → Recurs fuel
  unfolding walk
  walk-Ends zero i j hi hj enough = ([], ground arith, Diffs-end i j (omega arith) (omega arith))
  walk-Ends (suc fuel) i j hi hj enough = elim (dec_lt i (length a)) [
    | yes h ↦
        round (choose a b lcs i j) fuel i j (inl h) hi hj enough refl
          (choose-Chosen i j hi hj (inl h)) (walk-Ends fuel)
    | no n ↦ elim (dec_lt j (length b)) [
      | yes h ↦
          round (choose a b lcs i j) fuel i j (inr h) hi hj enough refl
            (choose-Chosen i j hi hj (inr h)) (walk-Ends fuel)
      | no n' ↦ ([], ground arith, Diffs-end i j (omega arith) (omega arith))
    ]
  ]
