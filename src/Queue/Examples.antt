-- ===== src/Queue/Examples.antt =====
-- Runs of the worker queue, and its theorems at concrete rows.
use vitae.Common.{arith, Bool, [], ◌≢◌, ◌*◌, true, Memᴰ, ◌≡◌, some, none, ◌+◌, refl, false, ◌∷◌}
use vitae.Common.Table.{put_row, Table}
use vitae.Common.Text.{strip}
use vitae.Queue.{
  claim_next_job, take_lease, enqueue_job, comes_first, backoff, is_claimable, complete_job,
  new_job, fail_job,
}
use vitae.Queue.Claim.{claim_due, Free}
use vitae.Queue.Lease.{no_double_claim}
use vitae.Queue.Life.{claim, Reach, reachable-IsWellFormed, IsWellFormed, here, next}
use vitae.Queue.Races.{crash_loop, late_fail_requeues}
use vitae.Queue.Row.{second, WorkerJob, queued, dead, running, keyed_worker_job}

abbrev job : WorkerJob
job = record {
  id = 1;
  queue = "matching";
  kind = "user_rescore";
  payload_json = "{}";
  status = queued;
  priority = 0;
  attempts = 0;
  max_attempts = 5;
  idempotency_key = some "k";
  available_at = 0;
  locked_at = none;
  last_heartbeat_at = none;
  lock_owner = "";
  last_error = "";
  failed_at = none;
  completed_at = none;
  created_at = 0;
}

abbrev urgent : WorkerJob
urgent = record job { id = 2; priority = 7; idempotency_key = none }

abbrev table : Table WorkerJob
table = record { rows = job ∷ urgent ∷ []; next_id = 3 }

abbrev nothing_locked : WorkerJob → Bool
nothing_locked j = false

abbrev leased : WorkerJob
leased = record urgent {
  status = running;
  attempts = 1;
  locked_at = some second;
  lock_owner = "host:1";
  last_heartbeat_at = some second;
}

claims_urgent : (claim_next_job nothing_locked "matching" 300 "host:1" second table).1 ≡ some leased
unfolding claim_next_job is_claimable comes_first
claims_urgent = refl

enqueue_strips :
    (enqueue_job "matching" "user_rescore" "{}" (some "  k ") none 5 9 table) ≡ (table, job)
unfolding enqueue_job strip
enqueue_strips = refl

dead_after_last : (fail_job 10 "boom" 60 (record leased { attempts = 5 })).status ≡ dead
unfolding fail_job
dead_after_last = refl

claim_due_example :
    (j : WorkerJob) × Memᴰ j table.rows
    × Free nothing_locked "matching" 300 "host:1" second table j
    × (leased ≡ record j {
      status = running;
      attempts = j.attempts + 1;
      locked_at = some second;
      lock_owner = "host:1";
      last_heartbeat_at = some second;
    })
    × ((claim_next_job nothing_locked "matching" 300 "host:1" second table).0.rows
        ≡ put_row leased table.rows)
claim_due_example = claim_due nothing_locked "matching" 300 "host:1" second table claims_urgent

no_double_claim_example : leased.id ≢ job.id
unfolding claim_next_job is_claimable comes_first take_lease put_row
no_double_claim_example =
    no_double_claim nothing_locked nothing_locked "matching" "matching" "host:1" "host:2" 300 300
      second (2 * second) table
      {b = record job {
        status = running;
        attempts = 1;
        locked_at = some (2 * second);
        lock_owner = "host:2";
        last_heartbeat_at = some (2 * second);
      }}
      claims_urgent refl (omega arith)

reachable-IsWellFormed_example :
    IsWellFormed
      (take_lease second "host:1" (new_job "matching" "user_rescore" "{}" 5 none none 0 1))
unfolding is_claimable new_job
reachable-IsWellFormed_example =
    reachable-IsWellFormed "matching" "user_rescore" "{}" 5 none none 0 1
      (next here (claim "matching" "host:1" second 300 refl))

late_fail_requeues_example :
    is_claimable "matching"
      (1000 * second)
      300
      (fail_job (300 * second) "late" 60 (complete_job (200 * second) leased))
    ≡ true
unfolding backoff
late_fail_requeues_example =
    late_fail_requeues (200 * second) (300 * second) (1000 * second) 300 60 "late" leased
      (omega arith) (omega arith)

crash_loop_example :
    (after : WorkerJob) × Reach leased after × (after.status ≡ running) × (after.attempts ≡ 1 + 30)
crash_loop_example = crash_loop 30 second "host:2" leased refl refl
