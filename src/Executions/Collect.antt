-- ===== src/Executions/Collect.antt =====
-- The first loop of `pruneLocked`: which entries stay, and what the list of the finished ones is.
use remote_cli.Common.{
  ℕ, ◌≡◌, ◌≢◌, refl, sym, ap, ◌∙◌, inl, inr, true, false, ◌&&◌, none, some, List, [], ◌∷◌, String,
  arith, length, if◌then◌else◌, Bool-cases,
}
use remote_cli.Common.Dict.{lookup, total}
use remote_cli.Common.Sort.{All, All-mono, Pairwise, sum_by}
use remote_cli.Executions.{Execution, Registry, over, expired, collect}
use text.Mathlib.TextEquality.{eq_iff}

-- Every entry stands under its own id, and no id stands twice.
abbrev pub WellKeyed : Registry → Type 0
WellKeyed [] = Unit
WellKeyed ((k, ex) ∷ m) = (ex.id ≡ k) × (lookup k m ≡ none) × WellKeyed m

-- 1 for a finished execution.
unfoldable pub finished_weight : Execution → ℕ
finished_weight ex = if over ex then 1 else 0

-- 1 for a finished execution that holds its output.
unfoldable pub output_weight : Execution → ℕ
output_weight ex = if over ex then (if ex.output_dropped then 0 else 1) else 0

-- An entry of the map that is finished and has not expired.
pub record Listed (now : ℕ) (m : Registry) (e : Execution) : Type 0 where
  pub entry : lookup e.id m ≡ some e
  pub done : over e ≡ true
  pub fresh : expired now e ≡ false

module _ (now : ℕ) where
  pub collect-none :
      (j : String) (m : Registry) → lookup j m ≡ none → lookup j (collect now m).0 ≡ none
  unfolding lookup collect
  collect-none j [] h = refl
  collect-none j ((k, ex) ∷ m) h = ground (arith, collect-none j m)

  pub collect-some :
      (j : String) (m : Registry) (ex : Execution)
      → WellKeyed m
      → lookup j m ≡ some ex
      → lookup j (collect now m).0 ≡ (if over ex && expired now ex then none else some ex)
  unfolding lookup collect
  collect-some j [] ex w h = absurd (ground arith)
  collect-some j ((k, e) ∷ m) ex w h =
      ground (arith, collect-some j m ex w.2, collect-none j m, eq_iff k j, w.1)

  -- Behind a new entry that is kept, the older ones are still found.
  Listed-behind :
      (k : String) (ex : Execution) (m : Registry) (e : Execution)
      → lookup k m ≡ none
      → Listed now m e
      → Listed now ((k, ex) ∷ m) e
  unfolding lookup
  Listed-behind k ex m e absent l = record {
    entry = ground (arith, eq_iff k e.id, l.entry);
    done = l.done;
    fresh = l.fresh;
  }

  Listed-first :
      (k : String) (ex : Execution) (m : Registry)
      → ex.id ≡ k
      → lookup ex.id ((k, ex) ∷ m) ≡ some ex
  unfolding lookup
  Listed-first k ex m e = ground (arith, eq_iff k ex.id)

  module _ (k : String) (ex : Execution) (m : Registry) (w : WellKeyed ((k, ex) ∷ m)) where
    abbrev rest : Registry × List Execution
    rest = collect now m

    still : All (Listed now rest.0) rest.1 → All (Listed now ((k, ex) ∷ rest.0)) rest.1
    still =
        All-mono (Listed now rest.0) (Listed now ((k, ex) ∷ rest.0)) rest.1
          (λ e l. Listed-behind k ex rest.0 e (collect-none k m w.1) l)

    Listed-cons :
        All (Listed now rest.0) rest.1
        → All (Listed now (collect now ((k, ex) ∷ m)).0) (collect now ((k, ex) ∷ m)).1
    unfolding collect
    Listed-cons ih = elim (Bool-cases (over ex)) [
      | inr run ↦ rw run (still ih)
      | inl done ↦ elim (Bool-cases (expired now ex)) [
        | inl old ↦ rw (done, old) ih
        | inr fresh ↦
            rw (done, fresh)
              (
                record { entry = Listed-first k ex rest.0 w.0; done = done; fresh = fresh },
                still ih,
              )
      ]
    ]

  pub collect-Listed :
      (m : Registry) → WellKeyed m → All (Listed now (collect now m).0) (collect now m).1
  unfolding collect
  collect-Listed [] w = tt
  collect-Listed ((k, ex) ∷ m) w = Listed-cons k ex m w (collect-Listed m w.2)

  -- No execution is listed twice.
  pub collect-distinct :
      (m : Registry) → WellKeyed m → Pairwise (λ a b. a.id ≢ b.id) (collect now m).1
  unfolding collect
  collect-distinct [] w = tt
  collect-distinct ((k, ex) ∷ m) w = elim (Bool-cases (over ex)) [
    | inr run ↦ rw run (collect-distinct m w.2)
    | inl done ↦ elim (Bool-cases (expired now ex)) [
      | inl old ↦ rw (done, old) (collect-distinct m w.2)
      | inr fresh ↦
          rw (done, fresh)
            (
              All-mono (Listed now (collect now m).0) (λ e. ex.id ≢ e.id) (collect now m).1 other
                  (collect-Listed m w.2),
              collect-distinct m w.2,
            )
    ]
  ]
    where
      other : (e : Execution) → Listed now (collect now m).0 e → ex.id ≢ e.id
      other e l same =
          cc (collect-none k m w.1, l.entry, ap (λ i. lookup i (collect now m).0) (sym same ∙ w.0))

  pub collect-WellKeyed : (m : Registry) → WellKeyed m → WellKeyed (collect now m).0
  unfolding collect
  collect-WellKeyed [] w = tt
  collect-WellKeyed ((k, ex) ∷ m) w = elim (Bool-cases (over ex)) [
    | inr run ↦ rw run (w.0, collect-none k m w.1, collect-WellKeyed m w.2)
    | inl done ↦ elim (Bool-cases (expired now ex)) [
      | inl old ↦ rw (done, old) (collect-WellKeyed m w.2)
      | inr fresh ↦ rw (done, fresh) (w.0, collect-none k m w.1, collect-WellKeyed m w.2)
    ]
  ]

  -- The finished entries of the map are those of the list.
  pub collect-finished :
      (m : Registry) → total finished_weight (collect now m).0 ≡ length (collect now m).1
  unfolding collect total finished_weight
  collect-finished [] = refl
  collect-finished ((k, ex) ∷ m) = ground (arith, collect-finished m)

  pub collect-outputs :
      (m : Registry)
      → total output_weight (collect now m).0 ≡ sum_by output_weight (collect now m).1
  unfolding collect total output_weight sum_by
  collect-outputs [] = refl
  collect-outputs ((k, ex) ∷ m) = ground (arith, collect-outputs m)
