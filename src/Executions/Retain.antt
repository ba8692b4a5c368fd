-- ===== src/Executions/Retain.antt =====
-- The second loop of `pruneLocked`, over the finished executions, newest first.
use remote_cli.Common.{
  ℕ, zero, suc, ◌+◌, ◌-◌, ◌≤◌, ◌<◌, ◌≡◌, ◌≢◌, refl, sym, ◌∙◌, ◌⊎◌, true, none, some, List, [], ◌∷◌,
  String, arith, length, get_elem?, subst,
}
use mathlib.Core.Option.{some-injective}
use remote_cli.Common.Dict.{
  lookup, total, total-delete, total-insert, lookup-delete_ne, lookup-insert_ne, lookup-insert_self,
  lookup-delete_self,
}
use remote_cli.Common.Sort.{All, All-mono, Pairwise, sum_by}
use remote_cli.Executions.{
  Execution, Registry, over, retain, retain_all, drop_output, max_retained_execs,
  max_retained_outputs,
}
use remote_cli.Executions.Collect.{finished_weight, output_weight}

-- An entry of the map that is finished.
pub record Stands (m : Registry) (e : Execution) : Type 0 where
  pub entry : lookup e.id m ≡ some e
  pub done : over e ≡ true

-- Dropping the output leaves an execution finished, and without output to count.
pub drop_output_weights :
    (e : Execution)
    → over e ≡ true
    → (finished_weight (drop_output e) ≡ 1)
      × (output_weight (drop_output e) ≡ 0)
      × ((drop_output e).id ≡ e.id)
      × ((drop_output e).started_at ≡ e.started_at)
unfolding drop_output finished_weight output_weight over
drop_output_weights e h = ground arith

-- One round changes the entry of `e` only.
module _ (i w : ℕ) (m : Registry) (e : Execution) where
  retain_ne : (j : String) → e.id ≢ j → lookup j (retain i w m e).0 ≡ lookup j m
  unfolding retain
  retain_ne j h =
      ground (arith, lookup-delete_ne e.id j m h, lookup-insert_ne e.id j (drop_output e) m h)

  retain_ne_Stands : (x : Execution) → e.id ≢ x.id → Stands m x → Stands (retain i w m e).0 x
  retain_ne_Stands x h s = record { entry = retain_ne x.id h ∙ s.entry; done = s.done }

  -- What the round leaves at `e`: nothing from the limit on, else `e` with or without its output.
  retain_self :
      Stands m e
      → (i < max_retained_execs
          → (lookup e.id (retain i w m e).0 ≡ some e)
            ⊎ (lookup e.id (retain i w m e).0 ≡ some (drop_output e)))
        × (max_retained_execs ≤ i → lookup e.id (retain i w m e).0 ≡ none)
  unfolding retain
  retain_self s = (
    λ h. ground (arith, s.entry, lookup-insert_self e.id (drop_output e) m),
    λ h. ground (arith, lookup-delete_self e.id m),
  )

  finished_one : Stands m e → finished_weight e ≡ 1
  unfolding finished_weight
  finished_one s = ground (arith, s.done)

  output_le : (output_weight e ≤ 1) × (e.output_dropped ≡ true → output_weight e ≡ 0)
  unfolding output_weight
  output_le = (ground arith, λ h. ground arith)

  retain_finished :
      Stands m e
      → total finished_weight (retain i w m e).0
          + (suc i - max_retained_execs - (i - max_retained_execs))
        ≤ total finished_weight m
  unfolding retain
  retain_finished s = ground (
    arith,
    finished_one s,
    total-delete finished_weight e.id e m s.entry,
    total-insert finished_weight e.id (drop_output e) e m s.entry,
    drop_output_weights e s.done,
  )

  retain_outputs :
      Stands m e
      → total output_weight (retain i w m e).0
          + output_weight e
          + (max_retained_outputs - (retain i w m e).1)
        ≤ total output_weight m + (max_retained_outputs - w)
  unfolding retain
  retain_outputs s = ground (
    arith,
    output_le,
    total-delete output_weight e.id e m s.entry,
    total-insert output_weight e.id (drop_output e) e m s.entry,
    drop_output_weights e s.done,
  )

-- All rounds together.
pub retain_all_other :
    (i w : ℕ) (m : Registry) (es : List Execution) (j : String)
    → All (λ e. e.id ≢ j) es
    → lookup j (retain_all i w m es) ≡ lookup j m
unfolding retain_all
retain_all_other i w m [] j h = refl
retain_all_other i w m (e ∷ es) j h =
    retain_all_other (i + 1) (retain i w m e).1 (retain i w m e).0 es j h.1
    ∙ retain_ne i w m e j h.0

abbrev pub Apart : Execution → Execution → Type 0
Apart a b = a.id ≢ b.id

Stands-next :
    (i w : ℕ) (m : Registry) (e : Execution) (es : List Execution)
    → All (Apart e) es
    → All (Stands m) es
    → All (Stands (retain i w m e).0) es
Stands-next i w m e [] a h = tt
Stands-next i w m e (x ∷ es) a h =
    (retain_ne_Stands i w m e x a.0 h.0, Stands-next i w m e es a.1 h.1)

pub retain_all_finished :
    (i w : ℕ) (m : Registry) (es : List Execution)
    → All (Stands m) es
    → Pairwise Apart es
    → total finished_weight (retain_all i w m es)
        + (i + length es - max_retained_execs - (i - max_retained_execs))
      ≤ total finished_weight m
unfolding retain_all
retain_all_finished i w m [] h a = omega arith
retain_all_finished i w m (e ∷ es) h a = omega (
  arith,
  retain_finished i w m e h.0,
  retain_all_finished (i + 1) (retain i w m e).1 (retain i w m e).0 es
      (Stands-next i w m e es a.0 h.1) a.1,
)

pub retain_all_outputs :
    (i w : ℕ) (m : Registry) (es : List Execution)
    → All (Stands m) es
    → Pairwise Apart es
    → total output_weight (retain_all i w m es) + sum_by output_weight es
      ≤ total output_weight m + (max_retained_outputs - w)
unfolding retain_all sum_by
retain_all_outputs i w m [] h a = omega arith
retain_all_outputs i w m (e ∷ es) h a = omega (
  arith,
  retain_outputs i w m e h.0,
  retain_all_outputs (i + 1) (retain i w m e).1 (retain i w m e).0 es
      (Stands-next i w m e es a.0 h.1) a.1,
)

-- What is left under the id of the execution at position `t`, counted from `i`.
abbrev pub Left : ℕ → Registry → Execution → Type 0
Left i m e =
    (i < max_retained_execs → (lookup e.id m ≡ some e) ⊎ (lookup e.id m ≡ some (drop_output e)))
    × (max_retained_execs ≤ i → lookup e.id m ≡ none)

Left-first :
    (i w : ℕ) (m : Registry) (x : Execution) (es : List Execution)
    → Stands m x
    → All (Apart x) es
    → Left i (retain_all (i + 1) (retain i w m x).1 (retain i w m x).0 es) x
Left-first i w m x es s a =
    let later : lookup x.id (retain_all (i + 1) (retain i w m x).1 (retain i w m x).0 es)
        ≡ lookup x.id (retain i w m x).0 =
      retain_all_other (i + 1) (retain i w m x).1 (retain i w m x).0 es x.id
        (All-mono (Apart x) (λ e. e.id ≢ x.id) es (λ e n p. n (sym p)) a) in
    rw later (retain_self i w m x s)

pub retain_all_at :
    (i w : ℕ) (m : Registry) (es : List Execution) (t : ℕ) (e : Execution)
    → All (Stands m) es
    → Pairwise Apart es
    → get_elem? es t ≡ some e
    → Left (i + t) (retain_all i w m es) e
unfolding retain_all
retain_all_at i w m [] t e h a at = absurd (ground arith)
retain_all_at i w m (x ∷ es) zero e h a at =
    subst (Left (i + 0) (retain_all i w m (x ∷ es))) (some-injective x e at) (
      subst (λ n. Left n (retain_all i w m (x ∷ es)) x) {x = i} (omega arith)
        (Left-first i w m x es h.0 a.0))
retain_all_at i w m (x ∷ es) (suc t) e h a at =
    subst (λ n. Left n (retain_all i w m (x ∷ es)) e) {x = i + 1 + t} (omega arith)
      (retain_all_at (i + 1) (retain i w m x).1 (retain i w m x).0 es t e
        (Stands-next i w m x es a.0 h.1) a.1 at)
