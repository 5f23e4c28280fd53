-- ===== src/Runner/Examples.antt =====
-- A worker with one job in its queue.
use vitae.Common.{[], true, none, some, false, ◌∷◌, refl, ◌≡◌, List, ◌*◌, ◌+◌}
use vitae.Common.Outcome.{raised, value_error, ok}
use vitae.Common.Table.{get, get_row, put_row}
use vitae.Models.{Store}
use vitae.Queue.{claim_next_job, is_claimable}
use vitae.Queue.Row.{WorkerJob, queued, running, keyed_worker_job, second}
use vitae.Runner.{Worker, Times, turn, run_worker, session_local}
use vitae.Runner.Measures.{Metrics}
use vitae.Runner.Stuck.{run_worker-never_settles, IsUntouchedOrRunning}
use vitae.Samples.{empty_store}

abbrev worker : Worker
worker = record {
  queue = "default";
  owner = "w1";
  hooks = record {
    sync_public_jobs = λ s. (s, none);
    rescore_user_jobs = λ payload s. (s, some value_error);
    generate_resume_files = λ l u p s. record { committed = s; working = ok s };
    item_id_of = λ payload. raised value_error;
  };
  is_json = λ s. true;
  message = λ f. "bad value";
  locked = λ job. false;
}

abbrev waiting_job : WorkerJob
waiting_job = record {
  id = 1;
  queue = "default";
  kind = "user_rescore";
  payload_json = "{}";
  status = queued;
  priority = 0;
  attempts = 0;
  max_attempts = 3;
  idempotency_key = none;
  available_at = 1;
  locked_at = none;
  last_heartbeat_at = none;
  lock_owner = "";
  last_error = "";
  failed_at = none;
  completed_at = none;
  created_at = 1;
}

abbrev taken_job : WorkerJob
taken_job = record waiting_job {
  status = running;
  attempts = 1;
  locked_at = some 10;
  last_heartbeat_at = some 10;
  lock_owner = "w1";
}

abbrev store : Store
store = record empty_store { jobs = record { rows = waiting_job ∷ []; next_id = 2 } }

abbrev times : Times
times = record { claimed = 10; worked = 11; ended = 12 }

abbrev no_measures : Metrics
no_measures = record { counts = []; latencies = [] }

-- the process is started three times, the second time too early to take the job again
abbrev restarts : List (Worker × Times)
restarts =
    (worker, times)
    ∷ (worker, record times { claimed = 20 })
    ∷ (worker, record times { claimed = 10 + 301 * second })
    ∷ []

run_worker_attempts :
    get 1 (run_worker session_local restarts (store, no_measures)).0.jobs
    ≡ some (record taken_job {
      attempts = 2;
      locked_at = some (10 + 301 * second);
      last_heartbeat_at = some (10 + 301 * second);
    })
unfolding run_worker turn claim_next_job is_claimable get_row put_row
run_worker_attempts = refl

run_worker-never_settles_example :
    let after = run_worker session_local restarts (store, no_measures) in
    (record after.0 { jobs = store.jobs } ≡ store)
    × (after.1 ≡ no_measures)
    × IsUntouchedOrRunning (get 1 store.jobs) (get 1 after.0.jobs)
run_worker-never_settles_example = run_worker-never_settles restarts 1 (store, no_measures)
