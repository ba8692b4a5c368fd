-- ===== src/Jobs/Guards.antt =====
-- `Spawn` and `Kill`: what has to hold before they change the table.
use remote_cli.Common.{
  ℕ, ◌≡◌, ◌≢◌, ◌⊎◌, refl, Bool, true, none, some, List, String, arith, inl, inr, Bool-cases,
  Option-cases,
}
use remote_cli.Common.Dict.{lookup, lookup-insert}
use remote_cli.Jobs.{Job, Jobs, running, is_running, SpawnRequest, new_job, kill, parse_signal}
use text.Mathlib.Text.{◌==◌}
use text.Mathlib.TextEquality.{eq_iff}

pub new_job-running :
    (req : SpawnRequest) (id : String) (log : List ℕ) (now pid : ℕ)
    → running (new_job req id log now pid) ≡ true
unfolding new_job running is_running
new_job-running req id log now pid = refl

-- `Kill` changes no job but the one that it names, and that one only if it runs and the signal is
-- known: it then counts as killed, and is otherwise as it was.
pub kill-lookup :
    (id other : String) (text : List ℕ) (sent : Bool) (m : Jobs)
    → (lookup other (kill id text sent m).0 ≡ lookup other m)
      ⊎ ((j : Job) × (id ≡ other)
          × (lookup id m ≡ some j)
          × (running j ≡ true)
          × (parse_signal text ≢ none)
          × (lookup other (kill id text sent m).0 ≡ some (record j { killed = true })))
unfolding kill
kill-lookup id other text sent m = elim (Option-cases (lookup id m)) [
  | inl absent ↦ inl (ground arith)
  | inr (j, at) ↦ elim (Bool-cases (running j)) [
    | inr over ↦ inl (ground arith)
    | inl run ↦ elim (Option-cases (parse_signal text)) [
      | inl bad ↦ inl (ground arith)
      | inr (s, known) ↦
          let written = lookup-insert id other (record j { killed = true }) m in
          elim (Bool-cases (id == other)) [
            | inr differs ↦ inl (ground (arith, written))
            | inl same ↦
                inr (j, (eq_iff id other).0 same, at, run, ground arith, ground (arith, written))
          ]
    ]
  ]
]
