-- ===== src/Jobs/Lifecycle.antt =====
-- The life of one job: its timer, `Kill`, and the goroutine of `Spawn` that waits for the process.
use remote_cli.Common.{ℕ, ◌≡◌, refl, Bool, true, false, not, Bool-cases, inl, inr}
use remote_cli.Jobs.{Job, running, is_running, WaitResult, reap, time_out}

-- The job that all of them share, and whether the goroutine is past its critical section.
pub record Life : Type 0 where
  pub job : Job
  pub reaped : Bool

-- Each takes the job's lock, in any order. `Kill` tests the job and writes its flag in two critical
-- sections, so the write may come at any time, also after the end; the timer may fire late; the
-- goroutine runs once.
pub data Step : Life → Life → Type 0 where
  fires : (l : Life) → Step l (record l { job = time_out l.job })
  kills : (l : Life) → Step l (record l { job = record (l.job) { killed = true } })
  ends :
      (l : Life) (r : WaitResult) (now : ℕ)
      → l.reaped ≡ false
      → Step l (record { job = reap r now l.job; reaped = true })

pub data Reach (k : Life) : Life → Type 0 where
  here : Reach k k
  next : {l l' : Life} → Reach k l → Step l l' → Reach k l'

-- What callers are told of a job.
pub record Told (j k : Job) : Type 0 where
  pub state : k.state ≡ j.state
  pub exit_code : k.exit_code ≡ j.exit_code
  pub ended_at : k.ended_at ≡ j.ended_at

-- The goroutine leaves the job not running, whatever its flags say.
reap-running : (r : WaitResult) (now : ℕ) (j : Job) → running (reap r now j) ≡ false
unfolding running is_running reap
reap-running r now j = elim (Bool-cases (j.timed_out)) [
  | inl t ↦ rw t refl
  | inr t ↦ elim (Bool-cases (j.killed)) [ inl k ↦ rw (t, k) refl | inr k ↦ rw (t, k) refl ]
]

-- A job runs until the goroutine has reaped it.
Step-running :
    {l l' : Life} → Step l l' → running l.job ≡ not l.reaped → running l'.job ≡ not l'.reaped
unfolding running time_out
Step-running (fires l) h = h
Step-running (kills l) h = h
Step-running (ends l r now before) h = reap-running r now l.job

pub Reach-running :
    {k l : Life} → Reach k l → running k.job ≡ not k.reaped → running l.job ≡ not l.reaped
Reach-running here h = h
Reach-running (next r step) h = Step-running step (Reach-running r h)
