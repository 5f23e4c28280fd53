-- ===== src/Queue.antt =====
-- The durable worker queue: app/workers/queue.py, the row of app/models.py that it keeps, and the
-- operators' retry of a dead job in app/routes/admin.py.
pub mod Row
pub mod Claim
pub mod Backoff
pub mod Lease
pub mod Keys
pub mod Life
pub mod Races
mod Examples
use vitae.Common.{
  ◌^◌, true, ltb, ◌∷◌, if◌then◌else◌, ◌*◌, find_first, ◌+◌, some, Option, ◌&&◌, leb, false, [],
  String, max, List, not, ℕ, ◌-◌, min, str_eq, Bool, none, ◌||◌, ◌==◌,
}
use vitae.Common.Table.{Table, insert, save}
use vitae.Common.Text.{or_empty, is_empty, clip, strip}
use vitae.Queue.Row.{
  keyed_worker_job, is_queued, second, WorkerJob, is_running, max_error_chars, running, completed,
  dead, queued, is_dead,
}

-- `max(1, min(int(max_attempts), 20))`
abbrev pub clamp_attempts : ℕ → ℕ
clamp_attempts n = max 1 (min n 20)

-- the row that `enqueue_job` adds
unfoldable pub new_job : String → String → String → ℕ → Option String → Option ℕ → ℕ → ℕ → WorkerJob
new_job queue kind payload_json max_attempts key available_at now i = record {
  id = i;
  queue = queue;
  kind = kind;
  payload_json = payload_json;
  status = queued;
  priority = 0;
  attempts = 0;
  max_attempts = clamp_attempts max_attempts;
  idempotency_key = key;
  available_at = (elim available_at [ none ↦ now | some t ↦ t ]);
  locked_at = none;
  last_heartbeat_at = none;
  lock_owner = "";
  last_error = "";
  failed_at = none;
  completed_at = none;
  created_at = now;
}

-- `WorkerJob.idempotency_key == key`
abbrev pub has_key : String → WorkerJob → Bool
has_key key job = elim job.idempotency_key [ none ↦ false | some k ↦ str_eq k key ]

-- `key or None`
abbrev pub key_or_none : String → Option String
key_or_none key = if is_empty key then none else some key

-- the new row behind the others, and its id
abbrev append_job : (ℕ → WorkerJob) → Table WorkerJob → Table WorkerJob × WorkerJob
append_job make t = (insert make t, make t.next_id)

-- The job under the stripped key, if the key is not empty and there is one; else a new row.
unfoldable pub enqueue_job :
    String
    → String
    → String
    → Option String
    → Option ℕ
    → ℕ
    → ℕ
    → Table WorkerJob
    → Table WorkerJob × WorkerJob
enqueue_job queue kind payload_json idempotency_key available_at max_attempts now t =
    let key = strip (or_empty idempotency_key) in
    let fresh =
      append_job (new_job queue kind payload_json max_attempts (key_or_none key) available_at now)
        t in
    if is_empty key
    then fresh
    else elim (find_first (has_key key) t.rows) [ none ↦ fresh | some existing ↦ (t, existing) ]

-- `func.coalesce(last_heartbeat_at, locked_at)`
abbrev pub coalesce : Option ℕ → Option ℕ → Option ℕ
coalesce none b = b
coalesce (some a) b = some a

-- `column < bound`, which a NULL never satisfies
abbrev pub is_before : Option ℕ → ℕ → Bool
is_before none bound = false
is_before (some t) bound = ltb t bound

-- The WHERE clause of `claim_next_job`.
unfoldable pub is_claimable : String → ℕ → ℕ → WorkerJob → Bool
is_claimable queue now lease_seconds job =
    let stale = now - max 30 lease_seconds * second in
    str_eq job.queue queue
    && ((is_queued job.status && leb job.available_at now)
        || (is_running job.status
            && is_before (coalesce job.last_heartbeat_at job.locked_at) stale))

-- ORDER BY priority DESC, created_at ASC: whether `a` stands before `b`, ties in row order
pub comes_first : WorkerJob → WorkerJob → Bool
comes_first a b =
    ltb b.priority a.priority || (a.priority == b.priority && leb a.created_at b.created_at)

abbrev pub better : WorkerJob → Option WorkerJob → WorkerJob
better a none = a
better a (some b) = if comes_first a b then a else b

-- The query's first row. `locked` are the rows that other transactions hold: SKIP LOCKED.
pub next_claimable : (WorkerJob → Bool) → String → ℕ → ℕ → List WorkerJob → Option WorkerJob
next_claimable locked queue now lease_seconds [] = none
next_claimable locked queue now lease_seconds (job ∷ jobs) =
    let rest = next_claimable locked queue now lease_seconds jobs in
    if is_claimable queue now lease_seconds job && not (locked job)
    then some (better job rest)
    else rest

-- what a claim writes into the row
pub take_lease : ℕ → String → WorkerJob → WorkerJob
take_lease now owner job = record job {
  status = running;
  attempts = job.attempts + 1;
  locked_at = some now;
  lock_owner = owner;
  last_heartbeat_at = some now;
}

-- `owner` is the host name and the new UUID.
unfoldable pub claim_next_job :
    (WorkerJob → Bool)
    → String
    → ℕ
    → String
    → ℕ
    → Table WorkerJob
    → Table WorkerJob × Option WorkerJob
unfolding next_claimable take_lease
claim_next_job locked queue lease_seconds owner now t =
    elim (next_claimable locked queue now lease_seconds t.rows) [
      | none ↦ (t, none)
      | some job ↦ let taken = take_lease now owner job in (save taken t, some taken)
    ]

unfoldable pub complete_job : ℕ → WorkerJob → WorkerJob
complete_job now job = record job {
  status = completed;
  completed_at = some now;
  locked_at = none;
  last_heartbeat_at = none;
  lock_owner = "";
  last_error = "";
}

-- the delay in seconds before the next attempt
pub backoff : ℕ → ℕ → ℕ
backoff retry_delay_seconds attempts = min (max retry_delay_seconds 5 * 2 ^ (attempts - 1)) 3600

unfoldable pub fail_job : ℕ → String → ℕ → WorkerJob → WorkerJob
fail_job now error retry_delay_seconds job =
    let released = record job {
      last_error = clip max_error_chars error;
      locked_at = none;
      last_heartbeat_at = none;
      lock_owner = "";
    } in
    if ltb job.attempts job.max_attempts
    then record released {
      status = queued;
      available_at = now + backoff retry_delay_seconds job.attempts * second;
    }
    else record released { status = dead; failed_at = some now }

-- whether `lock_owner` was given and is not the row's
abbrev pub is_other_owner : Option String → WorkerJob → Bool
is_other_owner none job = false
is_other_owner (some owner) job = not (str_eq job.lock_owner owner)

pub heartbeat_job : ℕ → Option String → WorkerJob → WorkerJob × Bool
heartbeat_job now lock_owner job =
    if not (is_running job.status)
    then (job, false)
    else if is_other_owner lock_owner job
    then (job, false)
    else (record job { last_heartbeat_at = some now }, true)

-- The operators' retry: only a dead job is changed. `none` is the refusal.
pub retry_dead_worker_job : ℕ → WorkerJob → Option WorkerJob
retry_dead_worker_job now job =
    if not (is_dead job.status)
    then none
    else some (record job {
      attempts = (if leb job.max_attempts job.attempts then 0 else job.attempts);
      status = queued;
      available_at = now;
      locked_at = none;
      last_heartbeat_at = none;
      lock_owner = "";
      failed_at = none;
    })
