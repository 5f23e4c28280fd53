-- ===== src/Queue/Life.antt =====
-- The life of one row: its invariant, the steps that the program's functions make, and what can be
-- reached by them.
use vitae.Common.{ℕ, false, ◌≤◌, none, arith, ◌≡◌, Option, String, true, is_some, some}
use vitae.Queue.{
  heartbeat_job, complete_job, fail_job, new_job, is_claimable, take_lease, retry_dead_worker_job,
}
use vitae.Queue.Row.{dead, WorkerJob, running, is_running, completed, keyed_worker_job}

pub record IsWellFormed (job : WorkerJob) : Type 0 where
  pub attempts_allowed : (1 ≤ job.max_attempts) × (job.max_attempts ≤ 20)
  pub locked_running : is_some job.locked_at ≡ is_running job.status
  pub beating_running : is_some job.last_heartbeat_at ≡ is_running job.status
  pub owner_running : is_running job.status ≡ false → job.lock_owner ≡ ""
  pub running_tried : job.status ≡ running → 1 ≤ job.attempts
  pub dead_stamped : job.status ≡ dead → is_some job.failed_at ≡ true
  pub completed_stamped : job.status ≡ completed → is_some job.completed_at ≡ true

-- What the workers and the operators do to a row. A worker that lost its lease may still report:
-- `complete` and `fail` ask nothing of the row.
pub data Step : WorkerJob → WorkerJob → Type 0 where
  claim :
      (queue owner : String) (now lease_seconds : ℕ) {job : WorkerJob}
      → is_claimable queue now lease_seconds job ≡ true
      → Step job (take_lease now owner job)
  beat :
      (now : ℕ) (owner : Option String) {job : WorkerJob} → Step job (heartbeat_job now owner job).0
  complete : (now : ℕ) {job : WorkerJob} → Step job (complete_job now job)
  fail :
      (now delay : ℕ) (error : String) {job : WorkerJob} → Step job (fail_job now error delay job)
  retry :
      (now : ℕ) {job after : WorkerJob}
      → retry_dead_worker_job now job ≡ some after
      → Step job after

pub data Reach (start : WorkerJob) : WorkerJob → Type 0 where
  here : Reach start start
  next : {a b : WorkerJob} → Reach start a → Step a b → Reach start b

-- every step keeps the invariant
pub Step-IsWellFormed : {a b : WorkerJob} → Step a b → IsWellFormed a → IsWellFormed b
unfolding take_lease heartbeat_job complete_job fail_job retry_dead_worker_job
Step-IsWellFormed (claim queue owner now l c) h = ground arith
Step-IsWellFormed (beat now none) h = ground arith
Step-IsWellFormed (beat now (some owner)) h = ground arith
Step-IsWellFormed (complete now) h = ground arith
Step-IsWellFormed (fail now delay error) h = ground arith
Step-IsWellFormed (retry now {job} e) h = ground arith

new_job-IsWellFormed :
    (queue kind payload : String) (n : ℕ) (key : Option String) (at : Option ℕ) (now i : ℕ)
    → IsWellFormed (new_job queue kind payload n key at now i)
unfolding new_job
new_job-IsWellFormed queue kind payload n key at now i = ground arith

Reach-IsWellFormed : {a b : WorkerJob} → IsWellFormed a → Reach a b → IsWellFormed b
Reach-IsWellFormed h here = h
Reach-IsWellFormed h (next r s) = Step-IsWellFormed s (Reach-IsWellFormed h r)

-- Every row that can be reached from a new one, by claims, heartbeats, completions, failures and
-- retries in any order and at any times, is well formed: its attempt limit lies between 1 and 20, it
-- has a lock time and a heartbeat exactly while it runs, and an owner only then, it has been tried if
-- it runs, and a dead or completed row has the time of its end.
pub reachable-IsWellFormed :
    (queue kind payload : String) (n : ℕ) (key : Option String) (at : Option ℕ) (now i : ℕ)
    {job : WorkerJob}
    → Reach (new_job queue kind payload n key at now i) job
    → IsWellFormed job
reachable-IsWellFormed queue kind payload n key at now i r =
    Reach-IsWellFormed (new_job-IsWellFormed queue kind payload n key at now i) r
