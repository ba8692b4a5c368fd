-- ===== src/Executions.antt =====
-- executions.go: the executions that `Launch` detaches from a request, and their registry.
-- Times are nanoseconds since a fixed moment; an `Execution` is the shared object that the map
-- `execs` points to, so a change of one is an update of the map.
pub mod Collect
pub mod Retain
pub mod Prune
pub mod Held
pub mod Keys
pub mod Handoff
use remote_cli.Common.{
  ℕ, zero, suc, ◌+◌, ◌*◌, Bool, true, false, Option, none, some, List, [], ◌∷◌, String, leb, ltb,
  if◌then◌else◌, length,
}
use remote_cli.Common.Int.{ℤ, pos, negsuc}
use remote_cli.Common.Dict
use remote_cli.Common.Sort.{newest_first}

-- The fields of `ExecResult` (executor.go) that the registry and the tools read.
pub record ExecResult : Type 0 where
  pub exit_code : ℤ
  pub stdout : List ℕ
  pub stderr : List ℕ
  pub timed_out : Bool
  pub stdout_truncated : Bool
  pub stderr_truncated : Bool
  pub stdout_total : ℕ
  pub stderr_total : ℕ
  pub not_started : Bool
  pub cancelled : Bool

pub record Execution : Type 0 where
  pub id : String
  pub command : List ℕ
  pub working_directory : List ℕ
  pub started_at : ℕ
  pub timeout : ℕ
  pub result : Option ExecResult
  pub ended_at : ℕ
  pub handed_off : Bool
  pub output_dropped : Bool

abbrev pub Registry : Type 0
Registry = List (String × Execution)

-- `time.Minute`, in nanoseconds
abbrev pub minute : ℕ
minute = 60000000000

abbrev pub exec_retention : ℕ
exec_retention = 30 * minute

abbrev pub max_retained_execs : ℕ
max_retained_execs = 200

abbrev pub max_retained_outputs : ℕ
max_retained_outputs = 16

pub data ExecState : Type 0 where
  running completed timed_out cancelled not_started : ExecState

-- `execState`
unfoldable pub exec_state : ExecResult → ExecState
exec_state r =
    if r.not_started
    then not_started
    else if r.timed_out
    then timed_out
    else if r.cancelled
    then cancelled
    else completed

-- `claim`: the launching call's final decision.
unfoldable pub claim : Execution → Execution × Option ExecResult
claim ex = elim ex.result [ none ↦ (record ex { handed_off = true }, none) | some r ↦ (ex, some r) ]

-- `Result`
unfoldable pub result_of : Execution → Option ExecResult × Bool
result_of ex = (ex.result, ex.output_dropped)

-- `dropOutput`
unfoldable pub drop_output : Execution → Execution
drop_output ex = elim ex.result [
  | none ↦ ex
  | some r ↦ if ex.output_dropped then ex else record ex {
    result = some (record r { stdout = []; stderr = [] });
    output_dropped = true;
  }
]

-- The goroutine of `Launch` between `ex.mu.Lock()` and `ex.mu.Unlock()`: it stores the result and
-- reads whether the launching call has gone; `true` makes it call `onLate` afterwards.
unfoldable pub finish : Execution → ExecResult → ℕ → Execution × Bool
finish ex r now = (record ex { result = some r; ended_at = now }, ex.handed_off)

-- `ex.result != nil`
unfoldable pub over : Execution → Bool
over ex = elim ex.result [ none ↦ false | some r ↦ true ]

-- `now.Sub(ended) > execRetention`
unfoldable pub expired : ℕ → Execution → Bool
expired now ex = ltb (ex.ended_at + exec_retention) now

-- The first loop of `pruneLocked`: the map without the expired executions, and the finished ones
-- that stay.
unfoldable pub collect : ℕ → Registry → Registry × List Execution
collect now [] = ([], [])
collect now ((id, ex) ∷ m) =
    let (m', finished) = collect now m in
    if over ex
    then (if expired now ex then (m', finished) else ((id, ex) ∷ m', ex ∷ finished))
    else ((id, ex) ∷ m', finished)

-- One round of the second loop: the map and `withOutput` after it.
unfoldable pub retain : ℕ → ℕ → Registry → Execution → Registry × ℕ
retain i with_output m ex =
    if leb max_retained_execs i
    then (Dict.delete ex.id m, with_output)
    else if ex.output_dropped
    then (m, with_output)
    else if ltb max_retained_outputs (with_output + 1)
    then (Dict.insert ex.id (drop_output ex) m, with_output + 1)
    else (m, with_output + 1)

unfoldable pub retain_all : ℕ → ℕ → Registry → List Execution → Registry
retain_all i with_output m [] = m
retain_all i with_output m (ex ∷ finished) =
    let (m', with_output') = retain i with_output m ex in
    retain_all (i + 1) with_output' m' finished

-- `pruneLocked`
unfoldable pub prune : ℕ → Registry → Registry
prune now m =
    let (m', finished) = collect now m in
    retain_all 0 0 m' (newest_first (λ ex. ex.started_at) finished)

-- The part of `Launch` under `e.mu`.
unfoldable pub register : ℕ → Registry → Execution → Registry
register now m ex = Dict.insert ex.id ex (prune now m)

-- `Lookup`, with the registry that it leaves.
unfoldable pub lookup_execution : ℕ → Registry → String → Registry × Option Execution
lookup_execution now m id = (prune now m, Dict.lookup id (prune now m))

values : Registry → List Execution
values [] = []
values ((id, ex) ∷ m) = ex ∷ values m

-- `Executions`, with the registry that it leaves.
unfoldable pub executions : ℕ → Registry → Registry × List Execution
unfolding values
executions now m = (prune now m, newest_first (λ ex. ex.started_at) (values (prune now m)))
