-- ===== src/Jobs/Sweep.antt =====
-- `sweep`: which jobs the table still holds afterwards.
use remote_cli.Common.{
  ℕ, suc, ◌+◌, ◌-◌, ◌≤◌, ◌≡◌, ◌≢◌, refl, sym, ap, ◌∙◌, Bool, true, false, none, some, List, [], ◌∷◌,
  String, arith, length, if◌then◌else◌, inl, inr, Bool-cases,
}
use remote_cli.Common.Dict
use remote_cli.Common.Dict.{lookup, total, total-delete, lookup-delete_ne, lookup-delete}
use remote_cli.Common.Sort.{
  All, All-mono, Pairwise, All-newest_first, Pairwise-newest_first, newest_first,
  length-newest_first,
}
use remote_cli.Jobs.{Job, Jobs, running, finished, stale, drop_stale, sweep, max_finished_jobs}
use text.Mathlib.TextEquality.{eq_iff}

-- The table as a Go map whose keys are the jobs' ids.
abbrev pub WellKeyed : Jobs → Type 0
WellKeyed [] = Unit
WellKeyed ((k, j) ∷ m) = (j.id ≡ k) × (lookup k m ≡ none) × WellKeyed m

-- 1 for a job that is over.
unfoldable pub finished_weight : Job → ℕ
finished_weight j = if running j then 0 else 1

record Stands (m : Jobs) (j : Job) : Type 0 where
  pub entry : lookup j.id m ≡ some j
  pub over : running j ≡ false

abbrev Apart : Job → Job → Type 0
Apart a b = a.id ≢ b.id

Stands-behind :
    (k : String) (first : Job) (m : Jobs) (j : Job)
    → lookup k m ≡ none
    → Stands m j
    → Stands ((k, first) ∷ m) j
unfolding lookup
Stands-behind k first m j fresh s = record {
  entry = ground (arith, s.entry, fresh, eq_iff k j.id, ap (λ i. lookup i m) {x = k} {y = j.id});
  over = s.over;
}

Stands-first :
    (k : String) (j : Job) (m : Jobs) → j.id ≡ k → running j ≡ false → Stands ((k, j) ∷ m) j
unfolding lookup
Stands-first k j m e over = record { entry = ground (arith, eq_iff k j.id); over = over }

finished-Stands : (m : Jobs) → WellKeyed m → All (Stands m) (finished m)
unfolding finished
finished-Stands [] w = tt
finished-Stands ((k, j) ∷ m) w =
    let rest =
      All-mono (Stands m) (Stands ((k, j) ∷ m)) (finished m) (λ x. Stands-behind k j m x w.1)
        (finished-Stands m w.2) in
    elim (Bool-cases (running j)) [
      | inl run ↦ rw run rest
      | inr over ↦ rw over (Stands-first k j m w.0 over, rest)
    ]

finished-Apart : (m : Jobs) → WellKeyed m → Pairwise Apart (finished m)
unfolding finished
finished-Apart [] w = tt
finished-Apart ((k, j) ∷ m) w = elim (Bool-cases (running j)) [
  | inl run ↦ rw run (finished-Apart m w.2)
  | inr over ↦ rw over (
    All-mono (Stands m) (Apart j) (finished m) other (finished-Stands m w.2),
    finished-Apart m w.2,
  )
]
  where
    other : (x : Job) → Stands m x → j.id ≢ x.id
    other x s same = cc (w.1, s.entry, ap (λ i. lookup i m) (sym same ∙ w.0))

total-finished : (m : Jobs) → total finished_weight m ≡ length (finished m)
unfolding total finished finished_weight
total-finished [] = refl
total-finished ((k, j) ∷ m) = ground (arith, total-finished m)

module _ (now : ℕ) where
  after : ℕ → Jobs → Job → Jobs
  after i m j = if stale now i j then Dict.delete j.id m else m

  after_ne :
      (i : ℕ) (m : Jobs) (j : Job) (id : String) → j.id ≢ id → lookup id (after i m j) ≡ lookup id m
  unfolding after
  after_ne i m j id n = ground (arith, lookup-delete_ne j.id id m n)

  after-Stands :
      (i : ℕ) (m : Jobs) (j : Job) (js : List Job)
      → All (Apart j) js
      → All (Stands m) js
      → All (Stands (after i m j)) js
  after-Stands i m j [] a h = tt
  after-Stands i m j (x ∷ js) a h = (
    record { entry = after_ne i m j x.id a.0 ∙ h.0.entry; over = h.0.over },
    after-Stands i m j js a.1 h.1,
  )

  after_total :
      (i : ℕ) (m : Jobs) (j : Job)
      → Stands m j
      → total finished_weight (after i m j) + 1 + (max_finished_jobs - suc i)
        ≤ total finished_weight m + (max_finished_jobs - i)
  unfolding after stale finished_weight
  after_total i m j s = ground (arith, s.over, total-delete finished_weight j.id j m s.entry)

  drop_stale_total :
      (i : ℕ) (m : Jobs) (js : List Job)
      → All (Stands m) js
      → Pairwise Apart js
      → total finished_weight (drop_stale now i m js).0 + length js
        ≤ total finished_weight m + (max_finished_jobs - i)
  unfolding drop_stale after
  drop_stale_total i m [] h a = omega arith
  drop_stale_total i m (j ∷ js) h a = omega (
    arith,
    after_total i m j h.0,
    drop_stale_total (i + 1) (after i m j) js (after-Stands i m j js a.0 h.1) a.1,
  )

  drop_stale_ne :
      (i : ℕ) (m : Jobs) (js : List Job) (id : String)
      → All (λ j. j.id ≢ id) js
      → lookup id (drop_stale now i m js).0 ≡ lookup id m
  unfolding drop_stale after
  drop_stale_ne i m [] id a = refl
  drop_stale_ne i m (j ∷ js) id a =
      drop_stale_ne (i + 1) (after i m j) js id a.1 ∙ after_ne i m j id a.0

  module _ (m : Jobs) (w : WellKeyed m) where
    sorted-Stands : All (Stands m) (newest_first (λ j. j.started_at) (finished m))
    sorted-Stands =
        All-newest_first (Stands m) (λ j. j.started_at) (finished m) (finished-Stands m w)

    -- A sweep outside read-only mode leaves at most 500 jobs that are over. The table is a Go map
    -- whose keys are the jobs' ids.
    pub sweep_bound : total finished_weight (sweep false now m).0 ≤ max_finished_jobs
    unfolding sweep
    sweep_bound = omega (
      arith,
      total-finished m,
      length-newest_first (λ (j : Job). j.started_at) (finished m),
      drop_stale_total 0 m (newest_first (λ j. j.started_at) (finished m)) sorted-Stands (
          Pairwise-newest_first Apart (λ x y n e. n (sym e)) (λ j. j.started_at) (finished m)
            (finished-Apart m w)),
    )

    -- A running job stays in the table unchanged through every sweep.
    pub sweep-running :
        (latched : Bool) (id : String) (j : Job)
        → lookup id m ≡ some j
        → running j ≡ true
        → lookup id (sweep latched now m).0 ≡ some j
    unfolding sweep
    sweep-running true id j at run = at
    sweep-running false id j at run =
        drop_stale_ne 0 m (newest_first (λ x. x.started_at) (finished m)) id (
          All-mono (Stands m) (λ x. x.id ≢ id) (newest_first (λ x. x.started_at) (finished m)) other
            sorted-Stands)
        ∙ at
      where
        other : (x : Job) → Stands m x → x.id ≢ id
        other x s same =
            ground (
              arith,
              s.entry,
              s.over,
              at,
              run,
              ap (λ i. lookup i m) same,
              ap running {x = x} {y = j},
            )
