-- ===== src/Runner/Turns.antt =====
-- What a round of the worker does to the queue with sessions that keep their rows after a commit.
use vitae.Common.{
  some, ◌≡◌, arith, false, String, refl, ℕ, none, inr, is_none, true, Option-cases, inl,
}
use vitae.Common.Table.{get, get_row-put_row, id_of-get_row}
use vitae.Models.{Store}
use vitae.Queue.{complete_job, fail_job, claim_next_job}
use vitae.Queue.Claim.{claimed}
use vitae.Queue.Row.{is_completed, WorkerJob, is_running, default_lease_seconds, keyed_worker_job}
use vitae.Runner.{settle, work, turn, Worker, Times, run_claimed, SessionMaker}
use vitae.Runner.Measures.{Metrics}

-- no worker holds the row
pub record IsSettled (job : WorkerJob) : Type 0 where
  pub stopped : is_running job.status ≡ false
  pub unlocked : job.locked_at ≡ none
  pub owner : job.lock_owner ≡ ""

complete_job-IsSettled : (now : ℕ) (job : WorkerJob) → IsSettled (complete_job now job)
unfolding complete_job
complete_job-IsSettled now job = record { stopped = refl; unlocked = refl; owner = refl }

fail_job-IsSettled :
    (now : ℕ) (error : String) (delay : ℕ) (job : WorkerJob)
    → IsSettled (fail_job now error delay job)
unfolding fail_job
fail_job-IsSettled now error delay job = record {
  stopped = ground arith;
  unlocked = ground arith;
  owner = ground arith;
}

complete_job-id : (now : ℕ) (job : WorkerJob) → (complete_job now job).id ≡ job.id
unfolding complete_job
complete_job-id now job = refl

fail_job-id :
    (now : ℕ) (error : String) (delay : ℕ) (job : WorkerJob)
    → (fail_job now error delay job).id ≡ job.id
unfolding fail_job
fail_job-id now error delay job = ground arith

complete_job-completed :
    (now : ℕ) (job : WorkerJob) → is_completed (complete_job now job).status ≡ true
unfolding complete_job
complete_job-completed now job = refl

fail_job-completed :
    (now : ℕ) (error : String) (delay : ℕ) (job : WorkerJob)
    → is_completed (fail_job now error delay job).status ≡ false
unfolding fail_job
fail_job-completed now error delay job = ground arith

settle-get :
    (id : ℕ) (f : WorkerJob → WorkerJob) (s : Store) {row : WorkerJob}
    → ((j : WorkerJob) → (f j).id ≡ j.id)
    → get id s.jobs ≡ some row
    → get id (settle id f s).jobs ≡ some (f row)
unfolding settle
settle-get id f s {row} keeps h =
    let same = id_of-get_row id s.jobs.rows {a = row} h in
    ground (arith, h, keeps row, same, get_row-put_row id (f row) s.jobs.rows)

-- Where a commit leaves the rows of its session readable, a round that claims a job settles its row: if
-- the row is still there after the work, then after the round no worker holds it, and it is completed
-- exactly if the work raised no exception.
pub turn-IsSettled :
    (w : Worker) (at : Times) (s : Store) (m : Metrics) (job row : WorkerJob)
    → let kept : SessionMaker = record { expire_on_commit = false } in
      let claim = claim_next_job w.locked w.queue default_lease_seconds w.owner at.claimed s.jobs in
      let done = work w at.worked job (record s { jobs = claim.0 }) in
      claim.1 ≡ some job
      → get job.id done.0.jobs ≡ some row
      → (after : WorkerJob) × (get job.id (turn kept w at (s, m)).0.0.jobs ≡ some after)
        × IsSettled after
        × (is_completed after.status ≡ is_none done.1)
unfolding turn run_claimed
turn-IsSettled w at s m job row claimed kept =
    let claim = claim_next_job w.locked w.queue default_lease_seconds w.owner at.claimed s.jobs in
    let done = work w at.worked job (record s { jobs = claim.0 }) in
    elim (Option-cases done.1) [
      | inl e ↦
          let found =
            settle-get job.id (complete_job at.ended) done.0 {row = row}
              (λ j. complete_job-id at.ended j) kept in
          (
            complete_job at.ended row,
            ground (arith, claimed, e, found),
            complete_job-IsSettled at.ended row,
            ground (arith, e, complete_job-completed at.ended row),
          )
      | inr (f, e) ↦
          let found =
            settle-get job.id (fail_job at.ended (w.message f) 60) done.0 {row = row}
              (λ j. fail_job-id at.ended (w.message f) 60 j) kept in
          (
            fail_job at.ended (w.message f) 60 row,
            ground (arith, claimed, e, found),
            fail_job-IsSettled at.ended (w.message f) 60 row,
            ground (arith, e, fail_job-completed at.ended (w.message f) 60 row),
          )
    ]
