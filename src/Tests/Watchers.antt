-- ===== src/Tests/Watchers.antt =====
-- waits.go: a table with an active and a resolved watcher.
use remote_cli.Common.{◌*◌, ◌≤◌, ◌≡◌, refl, false, true, none, some, [], ◌∷◌, arith}
use remote_cli.Common.Dict.{lookup}
use remote_cli.Waits.{
  minute, Wait, Waits, WaitForResult, active, start, resolved, snapshot, wait_timed_out,
  max_active_waits,
}
use remote_cli.Waits.Bounds.{WellKeyed, start_bound}

abbrev unseen : WaitForResult
unseen = record { satisfied = false; timed_out = false }

abbrev watcher : Wait
watcher = record {
  id = "wait-1";
  started_at = minute;
  deadline = 90 * minute;
  closed = false;
  last = unseen;
  final = none;
  failed = false;
  ended_at = 0;
}

abbrev late : Wait
late = record watcher {
  id = "wait-2";
  closed = true;
  final = some (record { satisfied = false; timed_out = true });
  ended_at = 5 * minute;
}

abbrev table : Waits
table = ("wait-1", watcher) ∷ ("wait-2", late) ∷ []

late_state : snapshot late ≡ some wait_timed_out
unfolding snapshot
late_state = refl

table-WellKeyed : WellKeyed table
unfolding lookup
table-WellKeyed = (refl, refl, (refl, refl, tt))

start_bound_example : active (start "wait-3" (6 * minute) minute unseen table).0 ≤ max_active_waits
unfolding active resolved
start_bound_example = start_bound "wait-3" (6 * minute) minute unseen table (omega arith)
