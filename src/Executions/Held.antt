-- ===== src/Executions/Held.antt =====
-- `pruneLocked`: the output that the registry really holds.
use remote_cli.Common.{
  ℕ, ◌+◌, ◌≤◌, ◌≡◌, Bool, true, false, ◌&&◌, none, some, List, [], ◌∷◌, String, arith, length, leb,
  ltb, ◌==◌, if◌then◌else◌, Bool-cases, inl, inr,
}
use remote_cli.Common.Dict
use remote_cli.Common.Dict.{total}
use remote_cli.Common.Sort.{All, All-newest_first}
use remote_cli.Executions.{
  Execution, Registry, over, expired, collect, retain, retain_all, prune, drop_output,
  max_retained_execs, max_retained_outputs,
}
use remote_cli.Executions.Collect.{WellKeyed, finished_weight, output_weight}
use remote_cli.Executions.Prune.{prune_weights}
use text.Mathlib.Text.{◌==◌ as str_eq}

-- 1 for an execution whose result has any output.
unfoldable pub held_weight : Execution → ℕ
held_weight ex = elim ex.result [
  | none ↦ 0
  | some r ↦ if length r.stdout == 0 && length r.stderr == 0 then 0 else 1
]

-- An execution that says its output was dropped holds none.
abbrev pub DropsAll : Execution → Type 0
DropsAll ex = ex.output_dropped ≡ true → held_weight ex ≡ 0

abbrev pub AllDrop : Registry → Type 0
AllDrop [] = Unit
AllDrop ((id, ex) ∷ m) = DropsAll ex × AllDrop m

insert-AllDrop :
    (k : String) (e : Execution) (m : Registry)
    → DropsAll e
    → AllDrop m
    → AllDrop (Dict.insert k e m)
unfolding Dict.insert
insert-AllDrop k e [] h hs = (h, tt)
insert-AllDrop k e ((j, x) ∷ m) h (hx, hs) = elim (Bool-cases (str_eq j k)) [
  | inl y ↦ rw y (h, hs)
  | inr y ↦ rw y (hx, insert-AllDrop k e m h hs)
]

delete-AllDrop : (k : String) (m : Registry) → AllDrop m → AllDrop (Dict.delete k m)
unfolding Dict.delete
delete-AllDrop k [] hs = tt
delete-AllDrop k ((j, x) ∷ m) (hx, hs) = elim (Bool-cases (str_eq j k)) [
  | inl y ↦ rw y (delete-AllDrop k m hs)
  | inr y ↦ rw y (hx, delete-AllDrop k m hs)
]

collect-AllDrop :
    (now : ℕ) (m : Registry)
    → AllDrop m
    → AllDrop (collect now m).0 × All DropsAll (collect now m).1
unfolding collect
collect-AllDrop now [] hs = (tt, tt)
collect-AllDrop now ((j, x) ∷ m) (hx, hs) =
    let (kept, listed) = collect-AllDrop now m hs in
    elim (Bool-cases (over x)) [
      | inr o ↦ rw o ((hx, kept), listed)
      | inl o ↦ elim (Bool-cases (expired now x)) [
        | inl e ↦ rw (o, e) (kept, listed)
        | inr e ↦ rw (o, e) ((hx, kept), (hx, listed))
      ]
    ]

drop_output-DropsAll : (e : Execution) → DropsAll e → DropsAll (drop_output e)
unfolding drop_output held_weight
drop_output-DropsAll e h = λ d. ground arith

if-AllDrop :
    (b : Bool) (x y : Registry × ℕ) → AllDrop x.0 → AllDrop y.0 → AllDrop (if b then x else y).0
if-AllDrop true x y hx hy = hx
if-AllDrop false x y hx hy = hy

retain-AllDrop :
    (i w : ℕ) (m : Registry) (e : Execution) → DropsAll e → AllDrop m → AllDrop (retain i w m e).0
unfolding retain
retain-AllDrop i w m e h hs =
    let dropped = insert-AllDrop e.id (drop_output e) m (drop_output-DropsAll e h) hs in
    let still =
      if-AllDrop (ltb max_retained_outputs (w + 1)) (Dict.insert e.id (drop_output e) m, w + 1)
        (m, w + 1) dropped hs in
    if-AllDrop (leb max_retained_execs i) (Dict.delete e.id m, w) _ (delete-AllDrop e.id m hs)
      (if-AllDrop (e.output_dropped) (m, w) _ hs still)

retain_all-AllDrop :
    (i w : ℕ) (m : Registry) (es : List Execution)
    → All DropsAll es
    → AllDrop m
    → AllDrop (retain_all i w m es)
unfolding retain_all
retain_all-AllDrop i w m [] h hs = hs
retain_all-AllDrop i w m (e ∷ es) (h, h') hs =
    retain_all-AllDrop (i + 1) (retain i w m e).1 (retain i w m e).0 es h'
      (retain-AllDrop i w m e h hs)

prune-AllDrop : (now : ℕ) (m : Registry) → AllDrop m → AllDrop (prune now m)
unfolding prune
prune-AllDrop now m hs =
    let (kept, listed) = collect-AllDrop now m hs in
    retain_all-AllDrop 0 0 (collect now m).0 _
      (All-newest_first DropsAll (λ ex. ex.started_at) (collect now m).1 listed) kept

held_le : (e : Execution) → DropsAll e → held_weight e ≤ output_weight e
unfolding held_weight output_weight over
held_le e h = ground arith

total-held_le : (m : Registry) → AllDrop m → total held_weight m ≤ total output_weight m
unfolding total
total-held_le [] hs = omega arith
total-held_le ((k, e) ∷ m) (h, hs) = omega (arith, held_le e h, total-held_le m hs)

-- After a prune at most 200 finished executions are listed, and at most 16 executions hold any
-- output; those that say that theirs was dropped hold none, as before. The ids of the registry are
-- distinct, as in a Go map.
pub prune_bounds :
    (now : ℕ) (m : Registry)
    → WellKeyed m
    → AllDrop m
    → (total finished_weight (prune now m) ≤ max_retained_execs)
      × (total held_weight (prune now m) ≤ max_retained_outputs)
      × AllDrop (prune now m)
prune_bounds now m w hs =
    let (finished, outputs) = prune_weights now m w in
    let clean = prune-AllDrop now m hs in
    (finished, omega (arith, outputs, total-held_le (prune now m) clean), clean)
