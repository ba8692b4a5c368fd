-- ===== src/Diff/Table.antt =====
-- The table: its flat indices, and what stands in it once it is filled.
use remote_cli.Common.{
  ℕ, zero, suc, ◌+◌, ◌*◌, ◌≤◌, ◌<◌, ◌≡◌, ◌≢◌, ◌⊎◌, inl, inr, refl, sym, ap, ◌∙◌, max, List, [], ◌∷◌,
  arith, length, drop, get_or, set, replicate, if◌then◌else◌, bytes_eq, length-set,
  length-replicate, get_or-set_self, get_or-set_ne, ap₂, subst, drop_of_length-le,
}
use remote_cli.Diff.{Line, cell, fill_row, fill_rows, lcs_table}
use remote_cli.Diff.Spec.{lcs_length, lcs_length-nil}
use native.Mathlib.Decide.{dec_lt, ℕ_discrete}

row_gap : (i i' w : ℕ) → i < i' → i * w + w ≤ i' * w
row_gap i i' w h = grind arith

-- Different cells have different indices.
index_injective : (i j i' j' w : ℕ) → j < w → j' < w → i * w + j ≡ i' * w + j' → (i ≡ i') × (j ≡ j')
index_injective i j i' j' w h h' e = elim (dec_lt i i') [
  | yes lt ↦ absurd (omega (arith, row_gap i i' w lt))
  | no ge ↦ elim (dec_lt i' i) [
    | yes gt ↦ absurd (omega (arith, row_gap i' i w gt))
    | no le ↦ let same : i ≡ i' = omega arith in (same, omega (arith, ap (λ (n : ℕ). n * w) same))
  ]
]

index_bound : (i j n w : ℕ) → i < n → j < w → i * w + j < n * w
index_bound i j n w h k = omega (arith, row_gap i n w h)

pub drop-get :
    (i : ℕ) (xs : List Line) → i < length xs → drop i xs ≡ get_or xs i [] ∷ drop (i + 1) xs
drop-get i [] h = absurd (omega arith)
drop-get zero (x ∷ xs) h = refl
drop-get (suc i) (x ∷ xs) h =
    drop-get i xs (omega arith)
    ∙ ap (λ n. get_or xs i [] ∷ drop n (x ∷ xs)) {x = suc (i + 1)} {y = suc i + 1} (omega arith)

get_or-replicate : (n i : ℕ) → ◌≡◌ {A = ℕ} (get_or (replicate n 0) i 0) 0
get_or-replicate zero i = refl
get_or-replicate (suc n) zero = refl
get_or-replicate (suc n) (suc i) = get_or-replicate n i

module _ (a b : List Line) where
  abbrev w : ℕ
  w = length b + 1

  abbrev at : List ℕ → ℕ → ℕ → ℕ
  at t i j = get_or t (i * w + j) 0

  abbrev pub Right : List ℕ → ℕ → ℕ → Type 0
  Right t i j = at t i j ≡ lcs_length (drop i a) (drop j b)

  -- The cells from row `i + 1` on, and of row `i` from column `j` on, and the last column.
  record Filled (t : List ℕ) (i j : ℕ) : Type 0 where
    pub size : length t ≡ (length a + 1) * w
    pub below : (i' j' : ℕ) → i < i' → i' ≤ length a → j' ≤ length b → Right t i' j'
    pub here : (j' : ℕ) → j ≤ j' → j' ≤ length b → i ≤ length a → Right t i j'
    pub edge : (i' : ℕ) → i' ≤ length a → at t i' (length b) ≡ 0

  cell_lem :
      (t : List ℕ) (i j : ℕ)
      → i < length a
      → j < length b
      → Filled t i (suc j)
      → cell a b t i j ≡ lcs_length (drop i a) (drop j b)
  unfolding cell lcs_length
  cell_lem t i j hi hj f =
      (λ k. if bytes_eq x y then diagonal k + 1 else max (down k) (right k))
      ∙ sym (ap₂ lcs_length (drop-get i a hi) (drop-get j b hj))
    where
      x : Line
      x = get_or a i []

      y : Line
      y = get_or b j []

      diagonal : get_or t ((i + 1) * w + j + 1) 0 ≡ lcs_length (drop (i + 1) a) (drop (j + 1) b)
      diagonal =
          ap (λ n. get_or t n 0) {y = (i + 1) * w + (j + 1)} (omega arith)
          ∙ f.below (i + 1) (j + 1) (omega arith) (omega arith) (omega arith)

      down : at t (i + 1) j ≡ lcs_length (drop (i + 1) a) (y ∷ drop (j + 1) b)
      down =
          f.below (i + 1) j (omega arith) (omega arith) (omega arith)
          ∙ ap (lcs_length (drop (i + 1) a)) (drop-get j b hj)

      right : get_or t (i * w + j + 1) 0 ≡ lcs_length (x ∷ drop (i + 1) a) (drop (j + 1) b)
      right =
          ap (λ n. get_or t n 0) {y = i * w + (j + 1)} (omega arith)
          ∙ f.here (j + 1) (omega arith) (omega arith) (omega arith)
          ∙ ap (λ l. lcs_length l (drop (j + 1) b)) (drop-get i a hi)

  -- A write into a cell is read back there, and every other cell of the table stays.
  at-set_self :
      (t : List ℕ) (i j v : ℕ)
      → length t ≡ (length a + 1) * w
      → i < length a + 1
      → j < w
      → at (set t (i * w + j) v) i j ≡ v
  at-set_self t i j v size hi hj =
      get_or-set_self t (i * w + j) v 0 (omega (arith, index_bound i j (length a + 1) w hi hj))

  at-set_ne :
      (t : List ℕ) (i j i' j' v : ℕ)
      → j < w
      → j' < w
      → (i ≢ i') ⊎ (j ≢ j')
      → at (set t (i * w + j) v) i' j' ≡ at t i' j'
  at-set_ne t i j i' j' v h h' (inl n) =
      get_or-set_ne t (i * w + j) (i' * w + j') v 0 (λ e. n (index_injective i j i' j' w h h' e).0)
  at-set_ne t i j i' j' v h h' (inr n) =
      get_or-set_ne t (i * w + j) (i' * w + j') v 0 (λ e. n (index_injective i j i' j' w h h' e).1)

  fill_cell :
      (t : List ℕ) (i j : ℕ)
      → i < length a
      → j < length b
      → Filled t i (suc j)
      → Filled (set t (i * w + j) (cell a b t i j)) i j
  fill_cell t i j hi hj f = record {
    size = length-set t (i * w + j) (cell a b t i j) ∙ f.size;
    below = λ i' j' h hi' hj'.
        at-set_ne t i j i' j' (cell a b t i j) (omega arith) (omega arith)
          (inl (λ e. absurd (omega arith)))
        ∙ f.below i' j' h hi' hj';
    here = λ j' h hj' hi'. elim (ℕ_discrete j j') [
      | yes e ↦ subst (Right (set t (i * w + j) (cell a b t i j)) i) e (
          at-set_self t i j (cell a b t i j) f.size (omega arith) (omega arith)
          ∙ cell_lem t i j hi hj f)
      | no n ↦
          at-set_ne t i j i j' (cell a b t i j) (omega arith) (omega arith) (inr n)
          ∙ f.here j' (omega arith) hj' hi'
    ];
    edge = λ i' hi'.
        at-set_ne t i j i' (length b) (cell a b t i j) (omega arith) (omega arith)
          (inr (λ e. absurd (omega arith)))
        ∙ f.edge i' hi';
  }

  fill_row-Filled :
      (j : ℕ) (t : List ℕ) (i : ℕ)
      → i < length a
      → j ≤ length b
      → Filled t i j
      → Filled (fill_row a b i j t) i 0
  unfolding fill_row
  fill_row-Filled zero t i hi hj f = f
  fill_row-Filled (suc j) t i hi hj f =
      fill_row-Filled j (set t (i * w + j) (cell a b t i j)) i hi (omega arith)
        (fill_cell t i j hi (omega arith) f)

  -- One row done, the next one has its last cell.
  next_row : (t : List ℕ) (i : ℕ) → i < length a → Filled t (suc i) 0 → Filled t i (length b)
  next_row t i hi f = record {
    size = f.size;
    below = λ i' j' h hi' hj'. elim (ℕ_discrete i' (suc i)) [
      | yes e ↦ subst (λ n. Right t n j') (sym e) (f.here j' (omega arith) hj' (omega arith))
      | no n ↦ f.below i' j' (omega arith) hi' hj'
    ];
    here = λ j' h hj' hi'.
        let e : j' ≡ length b = omega arith in
        subst (Right t i) (sym e) (
          f.edge i hi'
          ∙ sym (
              ap (lcs_length (drop i a)) (drop_of_length-le (length b) b (omega arith))
              ∙ lcs_length-nil (drop i a)));
    edge = f.edge;
  }

  fill_rows-Filled :
      (i : ℕ) (t : List ℕ) → i ≤ length a → Filled t i 0 → Filled (fill_rows a b i t) 0 0
  unfolding fill_rows
  fill_rows-Filled zero t hi f = f
  fill_rows-Filled (suc i) t hi f =
      fill_rows-Filled i (fill_row a b i (length b) t) (omega arith)
        (fill_row-Filled (length b) t i (omega arith) (omega arith) (next_row t i (omega arith) f))

  start : Filled (replicate ((length a + 1) * w) 0) (length a) 0
  unfolding lcs_length
  start = record {
    size = length-replicate ((length a + 1) * w) 0;
    below = λ i' j' h hi' hj'. absurd (omega arith);
    here = λ j' h hj' hi'.
        get_or-replicate ((length a + 1) * w) (length a * w + j')
        ∙ sym (ap (λ l. lcs_length l (drop j' b)) (drop_of_length-le (length a) a (omega arith)));
    edge = λ i' hi'. get_or-replicate ((length a + 1) * w) (i' * w + length b);
  }

  -- Every cell holds the length of a longest common subsequence of the lines behind it.
  pub lcs_table-Right : (i j : ℕ) → i ≤ length a → j ≤ length b → Right (lcs_table a b) i j
  unfolding lcs_table
  lcs_table-Right i j hi hj = elim (ℕ_discrete i 0) [
    | yes e ↦
        subst (λ n. Right (lcs_table a b) n j) (sym e)
          (filled.here j (omega arith) hj (omega arith))
    | no n ↦ filled.below i j (omega arith) hi hj
  ]
    where
      filled : Filled (fill_rows a b (length a) (replicate ((length a + 1) * w) 0)) 0 0
      filled = fill_rows-Filled (length a) (replicate ((length a + 1) * w) 0) (omega arith) start
