-- ===== src/Tests/Registries.antt =====
-- executions.go and readonly.go: three executions of which one runs and one is old, and a few
-- configuration passes.
use remote_cli.Common.{
  ℕ, ◌*◌, ◌<◌, ◌≤◌, ◌≡◌, ◌⊎◌, refl, true, false, not, ◌&&◌, Option, none, some, [], ◌∷◌, ◌++◌,
  String, bytes_eq, get_elem?,
}
use remote_cli.Common.Int.{pos}
use remote_cli.Common.Dict.{lookup, total}
use remote_cli.Common.Sort.{newest_first, insert_newest}
use remote_cli.Executions.{
  collect, ExecResult, Execution, Registry, minute, over, expired, prune, drop_output, claim,
  finish, max_retained_execs, max_retained_outputs,
}
use remote_cli.Executions.Collect.{WellKeyed, finished_weight}
use remote_cli.Executions.Prune.{candidates, prune-running, prune-newest}
use remote_cli.Executions.Held.{held_weight, AllDrop, prune_bounds}
use remote_cli.Executions.Handoff.{Launched, Reach, here, next, claims, finishes, reported_once}
use remote_cli.ReadOnly.{
  Process, guard_read_only, tool_enabled, apply_all, read_only_tool, parse_read_only, trim_space,
  trim_left, is_space, to_lower,
}
use remote_cli.ReadOnly.Latch.{read_only_forever}

abbrev success : ExecResult
success = record {
  exit_code = pos 0;
  stdout = 111 ∷ 107 ∷ [];
  stderr = [];
  timed_out = false;
  stdout_truncated = false;
  stderr_truncated = false;
  stdout_total = 2;
  stderr_total = 0;
  not_started = false;
  cancelled = false;
}

abbrev started : String → ℕ → Execution
started id t = record {
  id = id;
  command = [];
  working_directory = [];
  started_at = t;
  timeout = 60 * minute;
  result = none;
  ended_at = 0;
  handed_off = false;
  output_dropped = false;
}

abbrev ended : String → ℕ → ℕ → Execution
ended id t end = record (started id t) { result = some success; ended_at = end }

abbrev registry : Registry
registry =
    ("running", started "running" minute)
    ∷ ("old", ended "old" (2 * minute) (3 * minute))
    ∷ ("new", ended "new" (30 * minute) (35 * minute))
    ∷ []

registry-WellKeyed : WellKeyed registry
unfolding lookup
registry-WellKeyed = ((refl, refl, (refl, refl, (refl, refl, tt))))

registry-AllDrop : AllDrop registry
registry-AllDrop = (λ h. absurd (cc), (λ h. absurd (cc), (λ h. absurd (cc), tt)))

prune_bounds_example :
    (total finished_weight (prune (40 * minute) registry) ≤ max_retained_execs)
    × (total held_weight (prune (40 * minute) registry) ≤ max_retained_outputs)
    × AllDrop (prune (40 * minute) registry)
prune_bounds_example = prune_bounds (40 * minute) registry registry-WellKeyed registry-AllDrop

prune-running_example :
    lookup "running" (prune (40 * minute) registry) ≡ some (started "running" minute)
unfolding lookup over
prune-running_example =
    prune-running (40 * minute) registry registry-WellKeyed "running" (started "running" minute)
      refl refl

candidates_first :
    get_elem? (candidates (40 * minute) registry) 0 ≡ some (ended "new" (30 * minute) (35 * minute))
unfolding candidates collect over expired newest_first insert_newest
candidates_first = refl

prune-newest_example :
    ((0 < max_retained_execs)
      × ((lookup "new" (prune (40 * minute) registry)
            ≡ some (ended "new" (30 * minute) (35 * minute)))
          ⊎ (lookup "new" (prune (40 * minute) registry)
              ≡ some (drop_output (ended "new" (30 * minute) (35 * minute))))))
    ⊎ ((max_retained_execs ≤ 0) × (lookup "new" (prune (40 * minute) registry) ≡ none))
prune-newest_example =
    prune-newest (40 * minute) registry registry-WellKeyed 0
      (ended "new" (30 * minute) (35 * minute)) candidates_first

-- The launching call gives up, and then the command ends.
abbrev launched : Launched
launched = record { ex = started "next" 0; answer = none; late = none }

abbrev left_early : Launched
left_early = record {
  ex = record (started "next" 0) { handed_off = true };
  answer = some none;
  late = none;
}

abbrev ended_late : Launched
ended_late = record {
  ex = record (started "next" 0) { handed_off = true; result = some success; ended_at = 5 };
  answer = some none;
  late = some true;
}

run_late : Reach launched ended_late
unfolding claim finish
run_late = next (next here (claims launched refl)) (finishes left_early success 5 refl)

reported_once_example :
    ((◌≡◌ {A = Option ExecResult} none none) × (true ≡ true))
    ⊎ ((r : ExecResult) × (none ≡ some r) × (true ≡ false))
reported_once_example =
    reported_once launched ended_late none true
      (record { no_result = refl; not_handed = refl; unanswered = refl; unfinished = refl })
      run_late refl refl

abbrev process : Process
process = record {
  config = record { read_only = false; disabled_tools = "remote_diff" ∷ [] };
  latch = false;
}

on_is_on : parse_read_only (32 ∷ 79 ∷ 110 ∷ 10 ∷ []) ≡ true
unfolding parse_read_only trim_space trim_left is_space to_lower bytes_eq
on_is_on = refl

read_only_forever_example :
    (guard_read_only (apply_all ((false ∷ []) ++ true ∷ (false ∷ [])) process) "remote_spawn"
      ≡ some "remote_spawn")
    × (tool_enabled (apply_all ((false ∷ []) ++ true ∷ (false ∷ [])) process).config "remote_spawn"
          && not (read_only_tool "remote_spawn")
        ≡ false)
read_only_forever_example =
    read_only_forever (false ∷ []) (false ∷ []) process "remote_spawn" "remote_spawn"
