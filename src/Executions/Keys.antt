-- ===== src/Executions/Keys.antt =====
-- The registry as a Go map: every entry under its own id, no id twice.
use remote_cli.Common.{
  ℕ, ◌+◌, ◌≡◌, refl, some, List, [], ◌∷◌, String, arith, inl, inr, leb, ltb, Bool-cases,
}
use remote_cli.Common.Dict
use remote_cli.Common.Dict.{lookup, lookup-insert, lookup-delete, lookup-insert_self}
use remote_cli.Executions.{
  Execution, Registry, retain, retain_all, prune, register, drop_output, max_retained_execs,
  max_retained_outputs,
}
use remote_cli.Executions.Collect.{WellKeyed, collect-WellKeyed}
use text.Mathlib.Text.{◌==◌}
use text.Mathlib.TextEquality.{eq_iff}

delete-WellKeyed : (k : String) (m : Registry) → WellKeyed m → WellKeyed (Dict.delete k m)
unfolding Dict.delete
delete-WellKeyed k [] w = tt
delete-WellKeyed k ((j, e) ∷ m) w = elim (Bool-cases (j == k)) [
  | inl same ↦ rw same (delete-WellKeyed k m w.2)
  | inr other ↦ rw other (w.0, ground (arith, lookup-delete k j m, w.1), delete-WellKeyed k m w.2)
]

insert-WellKeyed :
    (k : String) (ex : Execution) (m : Registry)
    → ex.id ≡ k
    → WellKeyed m
    → WellKeyed (Dict.insert k ex m)
unfolding Dict.insert lookup
insert-WellKeyed k ex [] e w = (e, refl, tt)
insert-WellKeyed k ex ((j, e') ∷ m) e w = elim (Bool-cases (j == k)) [
  | inl same ↦ rw same (e, ground (arith, eq_iff j k, w.1), w.2)
  | inr other ↦ rw other (
    w.0,
    ground (arith, lookup-insert k j ex m, w.1, eq_iff j k, eq_iff k j),
    insert-WellKeyed k ex m e w.2,
  )
]

drop_output-id : (e : Execution) → (drop_output e).id ≡ e.id
unfolding drop_output
drop_output-id e = ground arith

retain-WellKeyed :
    (i n : ℕ) (m : Registry) (e : Execution) → WellKeyed m → WellKeyed (retain i n m e).0
unfolding retain
retain-WellKeyed i n m e w = elim (Bool-cases (leb max_retained_execs i)) [
  | inl over_limit ↦ rw over_limit (delete-WellKeyed e.id m w)
  | inr within ↦ elim (Bool-cases e.output_dropped) [
    | inl dropped ↦ rw (within, dropped) w
    | inr held ↦ elim (Bool-cases (ltb max_retained_outputs (n + 1))) [
      | inl full ↦
          simp (within, held, full) (insert-WellKeyed e.id (drop_output e) m (drop_output-id e) w)
      | inr room ↦ rw (within, held, room) w
    ]
  ]
]

retain_all-WellKeyed :
    (i n : ℕ) (m : Registry) (es : List Execution) → WellKeyed m → WellKeyed (retain_all i n m es)
unfolding retain_all
retain_all-WellKeyed i n m [] w = w
retain_all-WellKeyed i n m (e ∷ es) w =
    retain_all-WellKeyed (i + 1) (retain i n m e).1 (retain i n m e).0 es
      (retain-WellKeyed i n m e w)

pub prune-WellKeyed : (now : ℕ) (m : Registry) → WellKeyed m → WellKeyed (prune now m)
unfolding prune
prune-WellKeyed now m w = retain_all-WellKeyed 0 0 _ _ (collect-WellKeyed now m w)

-- Launching keeps the registry a map, and the new execution is found under its id.
pub register-WellKeyed :
    (now : ℕ) (m : Registry) (ex : Execution)
    → WellKeyed m
    → WellKeyed (register now m ex) × (lookup ex.id (register now m ex) ≡ some ex)
unfolding register
register-WellKeyed now m ex w = (
  insert-WellKeyed ex.id ex (prune now m) refl (prune-WellKeyed now m w),
  lookup-insert_self ex.id ex (prune now m),
)
