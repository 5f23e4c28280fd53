-- ===== src/Queue/Backoff.antt =====
-- The retry delay of `fail_job`, and when a failure is final.
use native.Mathlib.Nat.{pow-suc}
use vitae.Common.{
  suc, ◌^◌, String, ◌+◌, ◌≡◌, arith, ◌-◌, ◌*◌, ℕ, ◌≤◌, zero, min, max, ◌<◌, some, none, ◌⊎◌,
}
use vitae.Queue.{backoff, fail_job}
use vitae.Queue.Row.{WorkerJob, dead, queued, keyed_worker_job, second}

one-le-pow : (n : ℕ) → 1 ≤ 2 ^ n
one-le-pow zero = omega arith
one-le-pow (suc n) = rw pow-suc (omega (arith, one-le-pow n))

-- The delay is at least five seconds and at most an hour.
pub backoff_bounds :
    (retry_delay_seconds attempts : ℕ)
    → (5 ≤ backoff retry_delay_seconds attempts) × (backoff retry_delay_seconds attempts ≤ 3600)
unfolding backoff
backoff_bounds d n = grind (arith, one-le-pow (n - 1))

-- The first attempt's delay is the given one, kept between five seconds and an hour.
pub backoff_first : (d : ℕ) → backoff d 1 ≡ min (max d 5) 3600
unfolding backoff
backoff_first d = omega arith

-- Each further attempt doubles the delay until it reaches an hour.
pub backoff_doubles :
    (retry_delay_seconds attempts : ℕ)
    → 1 ≤ attempts
    → backoff retry_delay_seconds (attempts + 1)
      ≡ min (2 * backoff retry_delay_seconds attempts) 3600
unfolding backoff
backoff_doubles d zero h = absurd (omega arith)
backoff_doubles d (suc n) h =
    let up : suc n + 1 - 1 ≡ suc n = omega arith in
    let down : suc n - 1 ≡ n = omega arith in
    rw (up, down, pow-suc) (capped_double (max d 5) (2 ^ n))
  where
    capped_double : (m p : ℕ) → min (m * (p * 2)) 3600 ≡ min (2 * min (m * p) 3600) 3600
    capped_double m p = omega arith

-- what a failure leaves of the row: no lease, and the rest of the request as it was
abbrev pub IsReleased : WorkerJob → WorkerJob → Type 0
IsReleased job after =
    (after.locked_at ≡ none)
    × (after.last_heartbeat_at ≡ none)
    × (after.lock_owner ≡ "")
    × (after.attempts ≡ job.attempts)
    × (after.idempotency_key ≡ job.idempotency_key)
    × (after.payload_json ≡ job.payload_json)

-- A failed job gives up its lease and keeps its attempts, key and payload. With an attempt left it is
-- queued again, available no sooner than five seconds and no later than an hour from now; without one
-- it is dead as of now.
pub fail_job_lem :
    (now : ℕ) (error : String) (retry_delay_seconds : ℕ) (job : WorkerJob)
    → let after = fail_job now error retry_delay_seconds job in
      IsReleased job after
      × (((job.attempts < job.max_attempts)
            × (after.status ≡ queued)
            × (now + 5 * second ≤ after.available_at)
            × (after.available_at ≤ now + 3600 * second))
          ⊎ ((job.max_attempts ≤ job.attempts)
              × (after.status ≡ dead)
              × (after.failed_at ≡ some now)))
unfolding fail_job
fail_job_lem now error d job = ground (arith, backoff_bounds d job.attempts)
