-- ===== src/Diff.antt =====
-- diff.go: the line diff of dry runs and of remote_diff. A line is the list of its bytes.
pub mod Spec
pub mod Table
pub mod Walk
pub mod Whole
use remote_cli.Common.{
  split, ℕ, zero, suc, ◌+◌, ◌-◌, ◌*◌, max, min, Bool, true, false, Option, none, some, List, [],
  ◌∷◌, ◌++◌, reverse, map, length, take, drop, get_or, set, replicate, leb, ltb, ◌==◌, ◌&&◌, ◌||◌,
  if◌then◌else◌, bytes_eq,
}

abbrev pub Line : Type 0
Line = List ℕ

abbrev pub diff_context : ℕ
diff_context = 3

-- 1 << 20
abbrev pub max_diff_cells : ℕ
max_diff_cells = 1048576

-- `' '`, `'-'` and `'+'`
pub data Kind : Type 0 where
  same removed added : Kind

-- `diffOp`
pub record DiffOp : Type 0 where
  pub kind : Kind
  pub text : Line
  pub old_idx : ℕ
  pub new_idx : ℕ

-- `strings.TrimSuffix(s, c)` for a suffix of one byte.
unfoldable pub trim_suffix : ℕ → Line → Line
trim_suffix c [] = []
trim_suffix c (x ∷ []) = if x == c then [] else x ∷ []
trim_suffix c (x ∷ y ∷ s) = x ∷ trim_suffix c (y ∷ s)

-- `splitDiffLines`
unfoldable pub split_diff_lines : List ℕ → List Line
split_diff_lines [] = []
split_diff_lines (c ∷ s) = map (trim_suffix 13) (split 10 (trim_suffix 10 (c ∷ s)))

-- The loop that counts equal lines at the start.
unfoldable pub common_prefix : List Line → List Line → ℕ
common_prefix (x ∷ a) (y ∷ b) = let rest = common_prefix a b in if bytes_eq x y then suc rest else 0
common_prefix _ _ = 0

-- The loop that counts equal lines at the end, behind the first `p`.
unfoldable pub common_suffix : ℕ → List Line → List Line → ℕ
common_suffix p a b = common_prefix (reverse (drop p a)) (reverse (drop p b))

-- `lcs[i*w+j]` for `i`, `j` below the ends.
unfoldable pub cell : List Line → List Line → List ℕ → ℕ → ℕ → ℕ
cell a b lcs i j =
    let w = length b + 1 in
    if bytes_eq (get_or a i []) (get_or b j [])
    then get_or lcs ((i + 1) * w + j + 1) 0 + 1
    else max (get_or lcs ((i + 1) * w + j) 0) (get_or lcs (i * w + j + 1) 0)

-- The inner loop, from column `j - 1` down.
unfoldable pub fill_row : List Line → List Line → ℕ → ℕ → List ℕ → List ℕ
fill_row a b i zero lcs = lcs
fill_row a b i (suc j) lcs = fill_row a b i j (set lcs (i * (length b + 1) + j) (cell a b lcs i j))

-- The outer loop, from row `i - 1` up.
unfoldable pub fill_rows : List Line → List Line → ℕ → List ℕ → List ℕ
fill_rows a b zero lcs = lcs
fill_rows a b (suc i) lcs = fill_rows a b i (fill_row a b i (length b) lcs)

unfoldable pub lcs_table : List Line → List Line → List ℕ
lcs_table a b = fill_rows a b (length a) (replicate ((length a + 1) * (length b + 1)) 0)

-- Which case of the `switch` applies at `i`, `j`.
unfoldable pub choose : List Line → List Line → List ℕ → ℕ → ℕ → Kind
choose a b lcs i j =
    let w = length b + 1 in
    if ltb i (length a) && ltb j (length b) && bytes_eq (get_or a i []) (get_or b j [])
    then same
    else if ltb i (length a)
        && (j == length b || leb (get_or lcs (i * w + j + 1) 0) (get_or lcs ((i + 1) * w + j) 0))
    then removed
    else added

unfoldable pub with_op : DiffOp → Option (List DiffOp) → Option (List DiffOp)
with_op op none = none
with_op op (some ops) = some (op ∷ ops)

-- The loop that reads the table. Each round takes a line of `a` or of `b`, so as many rounds as
-- there are lines are enough; `none` stands for a loop that goes on.
unfoldable pub walk : ℕ → List Line → List Line → List ℕ → ℕ → ℕ → ℕ → ℕ → Option (List DiffOp)
unfolding with_op choose
walk zero a b lcs ao bo i j = if ltb i (length a) || ltb j (length b) then none else some []
walk (suc fuel) a b lcs ao bo i j = elim (ltb i (length a) || ltb j (length b)) [
  | false ↦ some []
  | true ↦ elim (choose a b lcs i j) [
    | same ↦
        with_op (record { kind = same; text = get_or a i []; old_idx = ao + i; new_idx = bo + j })
          (walk fuel a b lcs ao bo (i + 1) (j + 1))
    | removed ↦
        with_op
          (record { kind = removed; text = get_or a i []; old_idx = ao + i; new_idx = bo + j })
          (walk fuel a b lcs ao bo (i + 1) j)
    | added ↦
        with_op (record { kind = added; text = get_or b j []; old_idx = ao + i; new_idx = bo + j })
          (walk fuel a b lcs ao bo i (j + 1))
  ]
]

-- The two loops of the replace block.
unfoldable pub remove_all : ℕ → ℕ → List Line → List DiffOp
remove_all old_idx new_idx [] = []
remove_all old_idx new_idx (s ∷ a) =
    record { kind = removed; text = s; old_idx = old_idx; new_idx = new_idx }
    ∷ remove_all (old_idx + 1) new_idx a

unfoldable pub add_all : ℕ → ℕ → List Line → List DiffOp
add_all old_idx new_idx [] = []
add_all old_idx new_idx (s ∷ b) =
    record { kind = added; text = s; old_idx = old_idx; new_idx = new_idx }
    ∷ add_all old_idx (new_idx + 1) b

-- `diffMiddle`
unfoldable pub diff_middle : List Line → List Line → ℕ → ℕ → Option (List DiffOp)
unfolding lcs_table fill_rows fill_row cell walk remove_all add_all
diff_middle a b ao bo =
    if ltb max_diff_cells (length a * length b)
    then some (remove_all ao bo a ++ add_all (ao + length a) bo b)
    else walk (length a + length b) a b (lcs_table a b) ao bo 0 0

-- `n` equal lines of context from old index `i` and new index `j` on.
unfoldable pub context_ops : ℕ → List Line → ℕ → ℕ → List DiffOp
context_ops zero a i j = []
context_ops (suc n) a i j =
    record { kind = same; text = get_or a i []; old_idx = i; new_idx = j }
    ∷ context_ops n a (i + 1) (j + 1)

-- The operations that `unifiedDiff` collects before it writes hunks.
unfoldable pub collect_ops : List Line → List Line → Option (List DiffOp)
collect_ops a b =
    let p = common_prefix a b in
    let q = common_suffix p a b in
    elim (diff_middle (take (length a - q - p) (drop p a)) (take (length b - q - p) (drop p b)) p
      p) [
        | none ↦ none
        | some ops ↦ some (
            context_ops (p - (p - diff_context)) a (p - diff_context) (p - diff_context)
            ++ (ops ++ context_ops (min q diff_context) a (length a - q) (length b - q)))
      ]

unfoldable pub is_kind : Kind → DiffOp → ℕ
is_kind same op = elim op.kind [ same ↦ 1 | removed ↦ 0 | added ↦ 0 ]
is_kind removed op = elim op.kind [ same ↦ 0 | removed ↦ 1 | added ↦ 0 ]
is_kind added op = elim op.kind [ same ↦ 0 | removed ↦ 0 | added ↦ 1 ]

-- How many operations are of a kind: the counts `added` and `removed` of `unifiedDiff`.
unfoldable pub count_kind : Kind → List DiffOp → ℕ
unfolding is_kind
count_kind k [] = 0
count_kind k (op ∷ ops) = is_kind k op + count_kind k ops
