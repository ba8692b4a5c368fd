-- ===== src/Executions/Prune.antt =====
-- `pruneLocked` as a whole.
use remote_cli.Common.{
  ℕ, ◌+◌, ◌≤◌, ◌<◌, ◌≡◌, ◌≢◌, sym, ap, ◌∙◌, ◌⊎◌, inl, inr, true, false, none, some, List, String,
  arith, get_elem?, subst,
}
use remote_cli.Common.Dict.{lookup, total}
use remote_cli.Common.Sort.{
  All, All-mono, Pairwise, newest_first, All-newest_first, Pairwise-newest_first,
  length-newest_first, sum_by-newest_first,
}
use native.Mathlib.Decide.{dec_lt}
use remote_cli.Executions.{
  Execution, Registry, over, expired, collect, prune, drop_output, max_retained_execs,
  max_retained_outputs,
}
use remote_cli.Executions.Collect.{
  WellKeyed, finished_weight, output_weight, Listed, collect-some, collect-Listed, collect-distinct,
  collect-finished, collect-outputs,
}
use remote_cli.Executions.Retain.{
  Stands, Apart, Left, retain_all_finished, retain_all_outputs, retain_all_at, retain_all_other,
}

-- The finished executions that have not expired, newest first.
unfoldable pub candidates : ℕ → Registry → List Execution
candidates now m = newest_first (λ ex. ex.started_at) (collect now m).1

module _ (now : ℕ) (m : Registry) (w : WellKeyed m) where
  candidates-Stands : All (Stands (collect now m).0) (candidates now m)
  unfolding candidates
  candidates-Stands =
      All-newest_first (Stands (collect now m).0) (λ ex. ex.started_at) (collect now m).1
        (All-mono (Listed now (collect now m).0) (Stands (collect now m).0) (collect now m).1
          (λ e l. record { entry = l.entry; done = l.done }) (collect-Listed now m w))

  candidates-Apart : Pairwise Apart (candidates now m)
  unfolding candidates
  candidates-Apart =
      Pairwise-newest_first Apart (λ x y n p. n (sym p)) (λ ex. ex.started_at) (collect now m).1
        (collect-distinct now m w)

  -- The output counted is that of the executions that do not say it was dropped.
  pub prune_weights :
      (total finished_weight (prune now m) ≤ max_retained_execs)
      × (total output_weight (prune now m) ≤ max_retained_outputs)
  unfolding prune candidates
  prune_weights = (
    omega (
      arith,
      retain_all_finished 0 0 (collect now m).0 (candidates now m) candidates-Stands
          candidates-Apart,
      collect-finished now m,
      length-newest_first (λ (ex : Execution). ex.started_at) (collect now m).1,
    ),
    omega (
      arith,
      retain_all_outputs 0 0 (collect now m).0 (candidates now m) candidates-Stands
          candidates-Apart,
      collect-outputs now m,
      sum_by-newest_first (λ (ex : Execution). ex.started_at) output_weight (collect now m).1,
    ),
  )

  untouched :
      (j : String)
      → All (λ e. e.id ≢ j) (candidates now m)
      → lookup j (prune now m) ≡ lookup j (collect now m).0
  unfolding prune candidates
  untouched j h = retain_all_other 0 0 (collect now m).0 (candidates now m) j h

  -- A running execution survives every prune unchanged, however old it is. The ids of the registry
  -- are distinct, as in a Go map.
  pub prune-running :
      (j : String) (ex : Execution)
      → lookup j m ≡ some ex
      → over ex ≡ false
      → lookup j (prune now m) ≡ some ex
  prune-running j ex at run =
      untouched j (
        All-mono (Stands (collect now m).0) (λ e. e.id ≢ j) (candidates now m) other
          candidates-Stands)
      ∙ here
    where
      here : lookup j (collect now m).0 ≡ some ex
      here = ground (arith, collect-some now j m ex w at)

      other : (e : Execution) → Stands (collect now m).0 e → e.id ≢ j
      other e s same =
          ground (arith, s.entry, s.done, here, ap (λ i. lookup i (collect now m).0) same)

  -- An execution that finished more than 30 minutes ago is forgotten.
  pub prune-expired :
      (j : String) (ex : Execution)
      → lookup j m ≡ some ex
      → over ex ≡ true
      → expired now ex ≡ true
      → lookup j (prune now m) ≡ none
  prune-expired j ex at done old =
      untouched j (
        All-mono (Stands (collect now m).0) (λ e. e.id ≢ j) (candidates now m) other
          candidates-Stands)
      ∙ gone
    where
      gone : lookup j (collect now m).0 ≡ none
      gone = ground (arith, collect-some now j m ex w at)

      other : (e : Execution) → Stands (collect now m).0 e → e.id ≢ j
      other e s same = ground (arith, s.entry, gone, ap (λ i. lookup i (collect now m).0) same)

  -- Of the finished executions that have not expired, ordered by start time, the newest 200 stay,
  -- each unchanged or with its output dropped, and all older ones are forgotten.
  pub prune-newest :
      (t : ℕ) (e : Execution)
      → get_elem? (candidates now m) t ≡ some e
      → ((t < max_retained_execs)
          × ((lookup e.id (prune now m) ≡ some e)
              ⊎ (lookup e.id (prune now m) ≡ some (drop_output e))))
        ⊎ ((max_retained_execs ≤ t) × (lookup e.id (prune now m) ≡ none))
  unfolding prune candidates
  prune-newest t e at =
      let left : Left t (prune now m) e =
        subst (λ n. Left n (prune now m) e) {x = 0 + t} (omega arith)
          (retain_all_at 0 0 (collect now m).0 (candidates now m) t e candidates-Stands
            candidates-Apart at) in
      elim (dec_lt t max_retained_execs) [
        | yes h ↦ inl (h, left.0 h)
        | no n ↦ inr (omega arith, left.1 (omega arith))
      ]
