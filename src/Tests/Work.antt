-- ===== src/Tests/Work.antt =====
-- jobs.go: a table with a running and an ended job.
use remote_cli.Common.{◌*◌, ◌≤◌, ◌≡◌, refl, true, false, some, [], ◌∷◌, codes, bytes_eq}
use remote_cli.Common.Int.{pos}
use remote_cli.Common.Dict.{lookup, total}
use remote_cli.ReadOnly.{trim_space, trim_left, is_space}
use remote_cli.Jobs.{
  hour, Job, Jobs, job_running, job_exited, sweep, max_finished_jobs, Host, SpawnRequest, spawned,
  spawn, new_job, parse_signal, trim_sig, upper, int, reap, clean,
}
use remote_cli.Jobs.Lifecycle.{Life}
use remote_cli.Jobs.Sweep.{WellKeyed, finished_weight, sweep_bound}

abbrev server : Job
server = record {
  id = "job-1";
  command = codes "serve";
  working_directory = [];
  pid = 71;
  log_path = codes "1.log";
  started_at = hour;
  state = job_running;
  exit_code = pos 0;
  ended_at = 0;
  killed = false;
  timed_out = false;
}

abbrev build : Job
build = record server {
  id = "job-2";
  pid = 72;
  log_path = codes "2.log";
  state = job_exited;
  exit_code = pos 2;
  ended_at = 2 * hour;
}

abbrev table : Jobs
table = ("job-1", server) ∷ ("job-2", build) ∷ []

table-WellKeyed : WellKeyed table
unfolding lookup
table-WellKeyed = (refl, refl, (refl, refl, tt))

sweep_bound_example : total finished_weight (sweep false (30 * hour) table).0 ≤ max_finished_jobs
sweep_bound_example = sweep_bound (30 * hour) table table-WellKeyed

signal_names : parse_signal (codes " sigint") ≡ some int
unfolding parse_signal trim_sig upper trim_space trim_left is_space bytes_eq
signal_names = refl

abbrev host : Host
host = record {
  latched = false;
  denied = λ s. false;
  usable_dir = λ s. true;
  job_dir = true;
  log_file = true;
  start = some 73;
  meanwhile = λ j. j;
}

abbrev request : SpawnRequest
request = record { command = codes "make"; working_directory = [] }

abbrev made : Job
made = record server {
  id = "job-3";
  command = codes "make";
  pid = 73;
  log_path = codes "3.log";
  started_at = 5;
}

spawned_made : (spawn host request "job-3" (codes "3.log") 5 table).1 ≡ spawned made
unfolding spawn new_job trim_space trim_left is_space bytes_eq
spawned_made = refl

-- The process ends, and the timer fires after that.
abbrev new_life : Life
new_life = record { job = made; reaped = false }

abbrev ended_life : Life
ended_life = record { job = reap clean 9 made; reaped = true }
