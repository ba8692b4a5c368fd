-- ===== src/Waits.antt =====
-- waits.go: the watchers of remote_wait_for and their table. Times are nanoseconds, and a `Wait` is
-- the shared object that the map `waits` points to. What a watcher observes (waitfor.go) is a type
-- of the library's user, with the fields that the table reads.
pub mod Bounds
use remote_cli.Common.{
  ℕ, ◌+◌, ◌*◌, Bool, true, false, not, Option, none, some, List, [], ◌∷◌, String, leb, ltb,
  if◌then◌else◌, length, drop,
}
use remote_cli.Common.Dict
use remote_cli.Common.Sort.{newest_first}

-- `time.Minute`, in nanoseconds
abbrev pub minute : ℕ
minute = 60000000000

abbrev pub wait_retention : ℕ
wait_retention = 30 * minute

abbrev pub max_active_waits : ℕ
max_active_waits = 64

abbrev pub max_kept_waits : ℕ
max_kept_waits = 200

pub data WaitState : Type 0 where
  wait_satisfied wait_timed_out wait_pending wait_cancelled : WaitState

-- The two fields of `WaitForResult` that decide the state.
pub record WaitForResult : Type 0 where
  pub satisfied : Bool
  pub timed_out : Bool

-- `closed` is whether `done` is closed; `failed` is a permanent probe failure in `err`.
pub record Wait : Type 0 where
  pub id : String
  pub started_at : ℕ
  pub deadline : ℕ
  pub closed : Bool
  pub last : WaitForResult
  pub final : Option WaitForResult
  pub failed : Bool
  pub ended_at : ℕ

abbrev pub Waits : Type 0
Waits = List (String × Wait)

-- `resolved`
unfoldable pub resolved : Wait → Bool
resolved w = w.closed

-- `now.Sub(ended) > waitRetention`
unfoldable pub outdated : ℕ → Wait → Bool
outdated now w = ltb (w.ended_at + wait_retention) now

-- The first loop of `pruneLocked`: the map without the outdated waits, and the resolved ones left.
unfoldable pub collect : ℕ → Waits → Waits × List Wait
collect now [] = ([], [])
collect now ((id, w) ∷ m) =
    let (m', found) = collect now m in
    if not (resolved w)
    then ((id, w) ∷ m', found)
    else if outdated now w
    then (m', found)
    else ((id, w) ∷ m', w ∷ found)

-- The last loop.
unfoldable pub delete_all : List Wait → Waits → Waits
delete_all [] m = m
delete_all (w ∷ ws) m = delete_all ws (Dict.delete w.id m)

-- `pruneLocked`
unfoldable pub prune : ℕ → Waits → Waits
prune now m =
    let (m', found) = collect now m in
    if leb (length found) max_kept_waits
    then m'
    else delete_all (drop max_kept_waits (newest_first (λ w. w.started_at) found)) m'

-- The loop of `Start` that counts.
unfoldable pub active : Waits → ℕ
active [] = 0
active ((id, w) ∷ m) = (if resolved w then 0 else 1) + active m

unfoldable pub new_wait : String → ℕ → ℕ → WaitForResult → Wait
new_wait id now timeout res = record {
  id = id;
  started_at = now;
  deadline = now + timeout;
  closed = false;
  last = res;
  final = none;
  failed = false;
  ended_at = 0;
}

-- `Start`, with the fresh identifier; `none` is the refusal.
unfoldable pub start : String → ℕ → ℕ → WaitForResult → Waits → Waits × Option Wait
start id now timeout res m =
    let m' = prune now m in
    if leb max_active_waits (active m')
    then (m', none)
    else (Dict.insert id (new_wait id now timeout res) m', some (new_wait id now timeout res))

-- `Get`
unfoldable pub get : ℕ → String → Waits → Waits × Option Wait
get now id m = (prune now m, Dict.lookup id (prune now m))

-- What `run` returns: a result, also of a wait that was cancelled, or a permanent failure.
pub data Outcome : Type 0 where
  outcome : WaitForResult → Outcome
  failure : Outcome

-- The end of the goroutine of `Start`.
unfoldable pub resolve : Outcome → ℕ → Wait → Wait
resolve (outcome r) now w = record w { ended_at = now; final = some r; closed = true }
resolve failure now w = record w { ended_at = now; failed = true; closed = true }

-- `observe`
unfoldable pub observe : WaitForResult → Wait → Wait
observe r w = record w { last = r }

-- The state that `snapshot` reports; `none` is its error.
unfoldable pub snapshot : Wait → Option WaitState
snapshot w = if w.failed then none else elim w.final [
  | none ↦ some wait_pending
  | some r ↦ some (
      if r.satisfied
      then wait_satisfied
      else if r.timed_out
      then wait_timed_out
      else wait_cancelled)
]
