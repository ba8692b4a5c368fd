-- ===== src/Jobs.antt =====
-- jobs.go: background jobs and their table. A text is the list of its code points, times are
-- nanoseconds, and a `Job` is the shared object that the map `jobs` points to. What the operating
-- system answers (starting, waiting, signalling) and the operator's policy come in as arguments.
pub mod Lifecycle
pub mod Sweep
pub mod Guards
use remote_cli.Common.{
  ℕ, ◌+◌, ◌-◌, ◌*◌, Bool, true, false, not, ◌&&◌, ◌||◌, Option, none, some, List, [], ◌∷◌, ◌++◌,
  String, leb, ltb, ◌==◌, if◌then◌else◌, bytes_eq, codes, drop, length,
}
use remote_cli.Common.Int.{ℤ, pos, negsuc}
use remote_cli.Common.Dict
use remote_cli.Common.Sort.{newest_first}
use remote_cli.ReadOnly.{trim_space}

-- `time.Hour`, in nanoseconds
abbrev pub hour : ℕ
hour = 3600000000000

abbrev pub job_retention : ℕ
job_retention = 24 * hour

abbrev pub max_finished_jobs : ℕ
max_finished_jobs = 500

pub data JobState : Type 0 where
  job_running job_exited job_killed job_timeout : JobState

pub record Job : Type 0 where
  pub id : String
  pub command : List ℕ
  pub working_directory : List ℕ
  pub pid : ℕ
  pub log_path : List ℕ
  pub started_at : ℕ
  pub state : JobState
  pub exit_code : ℤ
  pub ended_at : ℕ
  pub killed : Bool
  pub timed_out : Bool

abbrev pub Jobs : Type 0
Jobs = List (String × Job)

unfoldable pub is_running : JobState → Bool
is_running job_running = true
is_running _ = false

-- `running`
unfoldable pub running : Job → Bool
unfolding is_running
running j = is_running j.state

pub record SpawnRequest : Type 0 where
  pub command : List ℕ
  pub working_directory : List ℕ

-- What stands outside `Spawn`: the latch of read-only mode, `checkCommand`, `checkWorkingDir`,
-- whether the directory and the log file could be made, the pid of a command that started, and what
-- the timer and the goroutine that waits, which share the job and run from then on, have done to it
-- when it is put into the table.
pub record Host : Type 0 where
  pub latched : Bool
  pub denied : List ℕ → Bool
  pub usable_dir : List ℕ → Bool
  pub job_dir : Bool
  pub log_file : Bool
  pub start : Option ℕ
  pub meanwhile : Job → Job

pub data Spawned : Type 0 where
  spawned : Job → Spawned
  read_only empty_command command_denied bad_directory no_job_dir no_log start_failed : Spawned

unfoldable pub new_job : SpawnRequest → String → List ℕ → ℕ → ℕ → Job
new_job req id log now pid = record {
  id = id;
  command = req.command;
  working_directory = req.working_directory;
  pid = pid;
  log_path = log;
  started_at = now;
  state = job_running;
  exit_code = pos 0;
  ended_at = 0;
  killed = false;
  timed_out = false;
}

-- `Spawn`, with the fresh identifier and the path of its log.
unfoldable pub spawn : Host → SpawnRequest → String → List ℕ → ℕ → Jobs → Jobs × Spawned
spawn host req id log now m =
    if host.latched
    then (m, read_only)
    else if bytes_eq (trim_space req.command) []
    then (m, empty_command)
    else if host.denied req.command
    then (m, command_denied)
    else if not (host.usable_dir req.working_directory)
    then (m, bad_directory)
    else if not host.job_dir
    then (m, no_job_dir)
    else if not host.log_file
    then (m, no_log)
    else elim host.start [
      | none ↦ (m, start_failed)
      | some pid ↦
          let job = host.meanwhile (new_job req id log now pid) in
          (Dict.insert id job m, spawned job)
    ]

-- What `cmd.Wait` returns: nil, an `ExitError` with its code, or another error.
pub data WaitResult : Type 0 where
  clean : WaitResult
  exit_error : ℤ → WaitResult
  wait_failed : WaitResult

unfoldable pub code_of : WaitResult → ℤ
code_of clean = pos 0
code_of (exit_error n) = n
code_of wait_failed = negsuc 0

-- The goroutine of `Spawn` between `job.mu.Lock()` and `job.mu.Unlock()`.
unfoldable pub reap : WaitResult → ℕ → Job → Job
reap result now j = record j {
  ended_at = now;
  exit_code = code_of result;
  state = if j.timed_out then job_timeout else if j.killed then job_killed else job_exited;
}

-- The timer of `Spawn`.
unfoldable pub time_out : Job → Job
time_out j = record j { timed_out = true }

pub data Signal : Type 0 where
  term int kill_now : Signal

-- `strings.ToUpper`, as far as the three names can tell.
unfoldable pub upper : List ℕ → List ℕ
upper [] = []
upper (c ∷ s) = (if leb b'a' c && leb c b'z' then c - 32 else c) ∷ upper s

-- `strings.TrimPrefix(s, "SIG")`
unfoldable pub trim_sig : List ℕ → List ℕ
trim_sig (c ∷ d ∷ e ∷ s) = if bytes_eq (c ∷ d ∷ e ∷ []) (codes "SIG") then s else c ∷ d ∷ e ∷ s
trim_sig s = s

-- The `switch` of `Kill`; `none` is its default.
unfoldable pub parse_signal : List ℕ → Option Signal
parse_signal text =
    let s = trim_sig (upper (trim_space text)) in
    if bytes_eq s [] || bytes_eq s (codes "TERM")
    then some term
    else if bytes_eq s (codes "INT")
    then some int
    else if bytes_eq s (codes "KILL")
    then some kill_now
    else none

pub data Killed : Type 0 where
  signalled : Signal → Killed
  not_found not_running bad_signal signal_failed : Killed

-- `Kill`; `sent` is whether `signalProcessGroup` succeeds.
unfoldable pub kill : String → List ℕ → Bool → Jobs → Jobs × Killed
kill id text sent m = elim (Dict.lookup id m) [
  | none ↦ (m, not_found)
  | some j ↦ if not (running j) then (m, not_running) else elim (parse_signal text) [
    | none ↦ (m, bad_signal)
    | some s ↦
        (Dict.insert id (record j { killed = true }) m, if sent then signalled s else signal_failed)
  ]
]

-- The jobs of a `range` over the map.
unfoldable pub values : Jobs → List Job
values [] = []
values ((id, j) ∷ m) = j ∷ values m

-- `List`
unfoldable pub list : Jobs → List Job
list m = newest_first (λ j. j.started_at) (values m)

-- The loop of `Running`.
unfoldable pub count_running : List Job → ℕ
count_running [] = 0
count_running (j ∷ js) = (if running j then 1 else 0) + count_running js

-- The first loop of `sweep`.
unfoldable pub finished : Jobs → List Job
finished [] = []
finished ((id, j) ∷ m) = let rest = finished m in if running j then rest else j ∷ rest

-- The test of the second loop, at index `i`.
unfoldable pub stale : ℕ → ℕ → Job → Bool
stale now i j = leb max_finished_jobs i || ltb (j.ended_at + job_retention) now

-- The second loop: the map, and the log files that are removed.
unfoldable pub drop_stale : ℕ → ℕ → Jobs → List Job → Jobs × List (List ℕ)
drop_stale now i m [] = (m, [])
drop_stale now i m (j ∷ js) =
    let (kept, logs) =
      drop_stale now (i + 1) (if stale now i j then Dict.delete j.id m else m) js in
    (kept, if stale now i j then j.log_path ∷ logs else logs)

-- `sweep`; `latched` is the latch of read-only mode.
unfoldable pub sweep : Bool → ℕ → Jobs → Jobs × List (List ℕ)
sweep latched now m =
    if latched then (m, []) else drop_stale now 0 m (newest_first (λ j. j.started_at) (finished m))
