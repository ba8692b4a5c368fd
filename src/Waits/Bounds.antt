-- ===== src/Waits/Bounds.antt =====
-- How many watchers the table holds.
use remote_cli.Common.{
  ℕ, ◌+◌, ◌≤◌, ◌≡◌, ◌≢◌, refl, sym, ap, ◌∙◌, true, none, some, List, [], ◌∷◌, String, arith, length,
  drop, leb, if◌then◌else◌, inl, inr, Bool-cases, suc, zero, length-drop, leb→le, leb→lt,
}
use remote_cli.Common.Dict
use remote_cli.Common.Dict.{lookup, total, total-delete, total-delete-le, lookup-delete_ne}
use remote_cli.Common.Sort.{
  All, All-mono, Pairwise, newest_first, All-newest_first, Pairwise-newest_first,
  length-newest_first,
}
use remote_cli.Waits.{
  Wait, Waits, WaitForResult, outdated, collect, delete_all, prune, active, new_wait, start,
  resolved, max_active_waits, max_kept_waits,
}
use text.Mathlib.TextEquality.{eq_iff}

active-delete : (k : String) (m : Waits) → active (Dict.delete k m) ≤ active m
unfolding Dict.delete active
active-delete k [] = omega arith
active-delete k ((j, w) ∷ m) = ground (arith, active-delete k m)

active-insert : (k : String) (w : Wait) (m : Waits) → active (Dict.insert k w m) ≤ active m + 1
unfolding Dict.insert active
active-insert k w [] = ground arith
active-insert k w ((j, v) ∷ m) = ground (arith, active-insert k w m)

active-delete_all : (ws : List Wait) (m : Waits) → active (delete_all ws m) ≤ active m
unfolding delete_all
active-delete_all [] m = omega arith
active-delete_all (w ∷ ws) m =
    omega (arith, active-delete_all ws (Dict.delete w.id m), active-delete w.id m)

active-collect : (now : ℕ) (m : Waits) → active (collect now m).0 ≡ active m
unfolding collect active
active-collect now [] = refl
active-collect now ((k, w) ∷ m) = ground (arith, active-collect now m)

active-prune : (now : ℕ) (m : Waits) → active (prune now m) ≤ active m
unfolding prune
active-prune now m = ground (
  arith,
  active-collect now m,
  active-delete_all (drop max_kept_waits (newest_first (λ w. w.started_at) (collect now m).1))
      (collect now m).0,
)

-- However often a wait is started, at most 64 are active at once.
pub start_bound :
    (id : String) (now timeout : ℕ) (res : WaitForResult) (m : Waits)
    → active m ≤ max_active_waits
    → active (start id now timeout res m).0 ≤ max_active_waits
unfolding start
start_bound id now timeout res m h =
    ground (arith, active-prune now m, active-insert id (new_wait id now timeout res) (prune now m))

-- The table as a Go map whose keys are the waits' ids.
abbrev pub WellKeyed : Waits → Type 0
WellKeyed [] = Unit
WellKeyed ((k, w) ∷ m) = (w.id ≡ k) × (lookup k m ≡ none) × WellKeyed m

-- 1 for a wait that is resolved.
unfoldable pub resolved_weight : Wait → ℕ
resolved_weight w = if resolved w then 1 else 0

record Stands (m : Waits) (w : Wait) : Type 0 where
  pub entry : lookup w.id m ≡ some w
  pub over : resolved w ≡ true

abbrev Apart : Wait → Wait → Type 0
Apart a b = a.id ≢ b.id

delete_all_total :
    (ws : List Wait) (m : Waits)
    → All (Stands m) ws
    → Pairwise Apart ws
    → total resolved_weight (delete_all ws m) + length ws ≤ total resolved_weight m
unfolding delete_all resolved_weight
delete_all_total [] m h a = omega arith
delete_all_total (w ∷ ws) m h a =
    omega (arith, removed, delete_all_total ws (Dict.delete w.id m) (later ws a.0 h.1) a.1)
  where
    removed : total resolved_weight (Dict.delete w.id m) + 1 ≤ total resolved_weight m
    removed = ground (arith, h.0.over, total-delete resolved_weight w.id w m h.0.entry)

    later :
        (vs : List Wait)
        → All (Apart w) vs
        → All (Stands m) vs
        → All (Stands (Dict.delete w.id m)) vs
    later [] b k = tt
    later (v ∷ vs) b k = (
      record { entry = lookup-delete_ne w.id v.id m b.0 ∙ k.0.entry; over = k.0.over },
      later vs b.1 k.1,
    )

module _ (now : ℕ) where
  collect-none : (k : String) (m : Waits) → lookup k m ≡ none → lookup k (collect now m).0 ≡ none
  unfolding lookup collect
  collect-none k [] h = refl
  collect-none k ((j, w) ∷ m) h = ground (arith, collect-none k m)

  behind :
      (k : String) (first : Wait) (m : Waits) (ws : List Wait)
      → lookup k m ≡ none
      → All (Stands m) ws
      → All (Stands ((k, first) ∷ m)) ws
  unfolding lookup
  behind k first m ws fresh = All-mono (Stands m) (Stands ((k, first) ∷ m)) ws (λ w s. record {
    entry = ground (arith, s.entry, fresh, eq_iff k w.id, ap (λ i. lookup i m) {x = k} {y = w.id});
    over = s.over;
  })

  at_front : (k : String) (w : Wait) (m : Waits) → w.id ≡ k → lookup w.id ((k, w) ∷ m) ≡ some w
  unfolding lookup
  at_front k w m e = ground (arith, eq_iff k w.id)

  collect-Stands : (m : Waits) → WellKeyed m → All (Stands (collect now m).0) (collect now m).1
  unfolding collect
  collect-Stands [] h = tt
  collect-Stands ((k, w) ∷ m) h =
      let rest =
        behind k w (collect now m).0 (collect now m).1 (collect-none k m h.1)
          (collect-Stands m h.2) in
      elim (Bool-cases (resolved w)) [
        | inr run ↦ rw run rest
        | inl over ↦ elim (Bool-cases (outdated now w)) [
          | inl old ↦ rw (over, old) (collect-Stands m h.2)
          | inr recent ↦
              rw (over, recent)
                (record { entry = at_front k w (collect now m).0 h.0; over = over }, rest)
        ]
      ]

  collect-Apart : (m : Waits) → WellKeyed m → Pairwise Apart (collect now m).1
  unfolding collect
  collect-Apart [] h = tt
  collect-Apart ((k, w) ∷ m) h = elim (Bool-cases (resolved w)) [
    | inr run ↦ rw run (collect-Apart m h.2)
    | inl over ↦ elim (Bool-cases (outdated now w)) [
      | inl old ↦ rw (over, old) (collect-Apart m h.2)
      | inr recent ↦
          rw (over, recent)
            (
              All-mono (Stands (collect now m).0) (Apart w) (collect now m).1 other
                  (collect-Stands m h.2),
              collect-Apart m h.2,
            )
    ]
  ]
    where
      other : (v : Wait) → Stands (collect now m).0 v → w.id ≢ v.id
      other v s same =
          cc (collect-none k m h.1, s.entry, ap (λ i. lookup i (collect now m).0) (sym same ∙ h.0))

  collect-total : (m : Waits) → total resolved_weight (collect now m).0 ≡ length (collect now m).1
  unfolding collect total resolved_weight
  collect-total [] = refl
  collect-total ((k, w) ∷ m) = ground (arith, collect-total m)

All-drop : (P : Wait → Type 0) (n : ℕ) (ws : List Wait) → All P ws → All P (drop n ws)
All-drop P zero ws h = h
All-drop P (suc n) [] h = tt
All-drop P (suc n) (w ∷ ws) h = All-drop P n ws h.1

Pairwise-drop : (n : ℕ) (ws : List Wait) → Pairwise Apart ws → Pairwise Apart (drop n ws)
Pairwise-drop zero ws h = h
Pairwise-drop (suc n) [] h = tt
Pairwise-drop (suc n) (w ∷ ws) h = Pairwise-drop n ws h.1

-- After a prune at most 200 resolved waits are kept. The table is a Go map whose keys are the waits'
-- ids.
pub prune_kept :
    (now : ℕ) (m : Waits) → WellKeyed m → total resolved_weight (prune now m) ≤ max_kept_waits
unfolding prune
prune_kept now m h =
    let rest : Waits = (collect now m).0 in
    let ws : List Wait = newest_first (λ w. w.started_at) (collect now m).1 in
    elim (Bool-cases (leb (length (collect now m).1) max_kept_waits)) [
      | inl few ↦ rw few (omega (arith, collect-total now m, leb→le _ _ few))
      | inr many ↦ rw many (
          omega (
            arith,
            leb→lt _ _ many,
            collect-total now m,
            length-newest_first (λ (w : Wait). w.started_at) (collect now m).1,
            length-drop max_kept_waits ws,
            delete_all_total (drop max_kept_waits ws) rest
                (All-drop (Stands rest) max_kept_waits ws (
                  All-newest_first (Stands rest) (λ w. w.started_at) (collect now m).1
                    (collect-Stands now m h)))
                (Pairwise-drop max_kept_waits ws (
                  Pairwise-newest_first Apart (λ x y n e. n (sym e)) (λ w. w.started_at)
                    (collect now m).1 (collect-Apart now m h))),
          ))
    ]
