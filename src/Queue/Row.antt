-- ===== src/Queue/Row.antt =====
-- The row of the table `worker_jobs` and its status: `WorkerJob` and `WorkerJobStatus` of
-- app/models.py, and the constants of app/workers/queue.py. Times are microseconds.
use vitae.Common.{Option, true, false, ℕ, String, Bool}
use vitae.Common.Table.{Keyed}

pub data WorkerJobStatus : Type 0 where
  queued running completed dead : WorkerJobStatus

abbrev pub is_queued : WorkerJobStatus → Bool
is_queued queued = true
is_queued _ = false

abbrev pub is_running : WorkerJobStatus → Bool
is_running running = true
is_running _ = false

abbrev pub is_completed : WorkerJobStatus → Bool
is_completed completed = true
is_completed _ = false

abbrev pub is_dead : WorkerJobStatus → Bool
is_dead dead = true
is_dead _ = false

pub record WorkerJob : Type 0 where
  pub id : ℕ
  pub queue : String
  pub kind : String
  pub payload_json : String
  pub status : WorkerJobStatus
  pub priority : ℕ
  pub attempts : ℕ
  pub max_attempts : ℕ
  pub idempotency_key : Option String
  pub available_at : ℕ
  pub locked_at : Option ℕ
  pub last_heartbeat_at : Option ℕ
  pub lock_owner : String
  pub last_error : String
  pub failed_at : Option ℕ
  pub completed_at : Option ℕ
  pub created_at : ℕ

instance abbrev pub keyed_worker_job : Keyed WorkerJob
keyed_worker_job = record { id_of = λ j. j.id }

-- one second of a `timedelta`
abbrev pub second : ℕ
second = 1000000

abbrev pub default_lease_seconds : ℕ
default_lease_seconds = 300

abbrev pub max_error_chars : ℕ
max_error_chars = 4000
