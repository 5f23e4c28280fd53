-- ===== src/Queue/Races.antt =====
-- Two workers on one row: what a report does that comes after the lease was lost.
use vitae.Common.{
  ℕ, ◌+◌, ◌<◌, true, str_eq_refl, ◌≡◌, arith, String, ◌≤◌, ◌*◌, refl, suc, some, zero,
}
use vitae.Queue.{is_claimable, fail_job, complete_job, backoff, take_lease}
use vitae.Queue.Life.{here, next, Reach, claim}
use vitae.Queue.Row.{second, WorkerJob, keyed_worker_job, running}

-- A worker that lost its lease and fails late puts a row that another worker has completed back into
-- the queue, if an attempt is left, and the row can be claimed again.
pub late_fail_requeues :
    (done failed now lease_seconds delay : ℕ) (error : String) (job : WorkerJob)
    → job.attempts < job.max_attempts
    → failed + backoff delay job.attempts * second ≤ now
    → is_claimable job.queue now lease_seconds (fail_job failed error delay (complete_job done job))
      ≡ true
unfolding fail_job complete_job is_claimable
late_fail_requeues done failed now l delay error job h le = ground (arith, str_eq_refl job.queue)

-- a row that runs, last heard of at `t`
abbrev Crashed : WorkerJob → ℕ → Type 0
Crashed job t = (job.status ≡ running) × (job.last_heartbeat_at ≡ some t)

reclaim :
    (t : ℕ) (owner : String) (job : WorkerJob)
    → Crashed job t
    → is_claimable job.queue (t + 301 * second) 300 job ≡ true
unfolding is_claimable
reclaim t owner job h = ground (arith, str_eq_refl job.queue)

crash_again :
    (n t : ℕ) (owner : String) (start job : WorkerJob)
    → Reach start job
    → Crashed job t
    → (after : WorkerJob) × Reach start after
      × (after.status ≡ running)
      × (after.attempts ≡ job.attempts + n)
unfolding take_lease
crash_again zero t owner start job r h = (job, r, h.0, omega arith)
crash_again (suc n) t owner start job r h =
    let at = t + 301 * second in
    let taken = take_lease at owner job in
    let (after, reached, runs, count) =
      crash_again n at owner start taken
        (next r (claim job.queue owner at 300 (reclaim t owner job h))) (refl, refl) in
    (after, reached, runs, omega (arith, count))

-- The attempt limit does not stop a job whose worker dies each time before it reports: from a running
-- row, for every number of further attempts, the row is reached running with that many more, whatever
-- its limit is.
pub crash_loop :
    (n t : ℕ) (owner : String) (job : WorkerJob)
    → job.status ≡ running
    → job.last_heartbeat_at ≡ some t
    → (after : WorkerJob) × Reach job after
      × (after.status ≡ running)
      × (after.attempts ≡ job.attempts + n)
crash_loop n t owner job runs heard = crash_again n t owner job job here (runs, heard)
