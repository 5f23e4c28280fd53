-- ===== src/Runner.antt =====
-- The worker's loop: app/workers/runner.py, with the measurements of app/worker_metrics.py. A round
-- claims a job from the queue, commits, and then reads the job's row to execute and settle it.
pub mod Measures
pub mod Turns
pub mod Stuck
mod Examples
use vitae.Common.{
  Option, max, ◌/◌, false, ◌-◌, some, Bool, String, not, ℕ, none, true, if◌then◌else◌, [], ◌∷◌,
  List,
}
use vitae.Common.Outcome.{Fault, value_error}
use vitae.Common.Table.{get, save}
use vitae.Common.Text.{or_text}
use vitae.Models.{Store}
use vitae.Queue.{claim_next_job, complete_job, fail_job, heartbeat_job}
use vitae.Queue.Claim.{claimed}
use vitae.Queue.Row.{WorkerJob, keyed_worker_job, default_lease_seconds, is_running}
use vitae.Runner.Measures.{Metrics, measure}
use vitae.Tasks.{TaskHooks, execute_job}

-- What a worker process is started with, and what it takes from its libraries: whether a text is
-- JSON, the message of an exception, and the rows that other transactions hold.
pub record Worker : Type 0 where
  pub queue : String
  pub owner : String
  pub hooks : TaskHooks
  pub is_json : String → Bool
  pub message : Fault → String
  pub locked : WorkerJob → Bool

-- the times of a turn: at the claim, during the work, and at its end
pub record Times : Type 0 where
  pub claimed : ℕ
  pub worked : ℕ
  pub ended : ℕ

-- `HEARTBEAT_INTERVAL_SECONDS`
abbrev pub heartbeat_interval_seconds : ℕ
heartbeat_interval_seconds = max 10 (default_lease_seconds / 3)

-- the work on a job: what it leaves, and the exception that it ends with
unfoldable pub work : Worker → ℕ → WorkerJob → Store → Store × Option Fault
work w now job s =
    if w.is_json (or_text job.payload_json "{}")
    then execute_job w.hooks job.kind job.payload_json now s
    else (s, some value_error)

-- `current = db.get(...)` and the settling of the row, if it is still there
unfoldable pub settle : ℕ → (WorkerJob → WorkerJob) → Store → Store
settle id f s = elim (get id s.jobs) [
  | none ↦ s
  | some current ↦ record s { jobs = save (f current) s.jobs }
]

-- the rest of a round once a job's row can be read: the work, the settling and the measurement
unfoldable pub run_claimed : Worker → Times → WorkerJob → Store × Metrics → Store × Metrics
run_claimed w at job (s, m) =
    let (done, fault) = work w at.worked job s in
    let spent = (at.ended - at.claimed) / 1000 in
    elim fault [
      | none ↦ (settle job.id (complete_job at.ended) done, measure job.kind "completed" spent m)
      | some f ↦ (
        settle job.id (fail_job at.ended (w.message f) 60) done,
        measure job.kind "failed" spent m,
      )
    ]

-- What `sessionmaker` is told: whether a commit expires the rows of the session. A row that is expired
-- and whose session is closed raises `DetachedInstanceError` when a column of it is read.
pub record SessionMaker : Type 0 where
  pub expire_on_commit : Bool

-- `SessionLocal`, which leaves SQLAlchemy's default as it is
abbrev pub session_local : SessionMaker
session_local = record { expire_on_commit = true }

-- how a round ends: without a job, with an exception that ends the process, or with a settled job
pub data Round : Type 0 where
  waited died went_on : Round

-- one round of `run_worker` without a signal to stop. The claim is committed and its session closed
-- before the columns of the job are read.
unfoldable pub turn : SessionMaker → Worker → Times → Store × Metrics → (Store × Metrics) × Round
turn maker w at (s, m) =
    let (jobs, job) =
      claim_next_job w.locked w.queue default_lease_seconds w.owner at.claimed s.jobs in
    let committed = record s { jobs = jobs } in
    elim job [
      | none ↦ ((s, m), waited)
      | some job ↦
          if maker.expire_on_commit
          then ((committed, m), died)
          else (run_claimed w at job (committed, m), went_on)
    ]

-- rounds of `run_worker`, the process started anew after each that ended it
unfoldable pub run_worker : SessionMaker → List (Worker × Times) → Store × Metrics → Store × Metrics
run_worker maker [] st = st
run_worker maker ((w, at) ∷ rounds) st = run_worker maker rounds (turn maker w at st).0

-- one round of `_heartbeat_loop`: the store, and whether the loop goes on
unfoldable pub beat : ℕ → String → ℕ → Store → Store × Bool
beat job_id lock_owner now s = elim (get job_id s.jobs) [
  | none ↦ (s, false)
  | some current ↦
      let (row, kept) = heartbeat_job now (some lock_owner) current in
      if not (is_running current.status)
      then (s, false)
      else if kept
      then (record s { jobs = save row s.jobs }, true)
      else (s, false)
]
