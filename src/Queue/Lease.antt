-- ===== src/Queue/Lease.antt =====
-- A lease keeps its row from the other workers while it is fresh.
use vitae.Common.{
  ◌&&◌, ◌*◌, ◌+◌, String, some, arith, str_eq, ◌≡◌, true, max, false, ◌≤◌, if◌then◌else◌, ℕ, Bool,
  refl, none, ◌≢◌, Option, Memᴰ, subst, All-mem,
}
use vitae.Common.Table.{Table, put_row, put_row-same}
use vitae.Queue.{is_claimable, take_lease, heartbeat_job, claim_next_job}
use vitae.Queue.Claim.{claim_taken, claimed-rows, IsDue-is_claimable}
use vitae.Queue.Row.{is_running, second, running, WorkerJob, keyed_worker_job}

-- A heartbeat of the row's owner succeeds exactly on a running row, and only moves the heartbeat.
pub heartbeat_job_lem :
    (now : ℕ) (owner : String) (job : WorkerJob)
    → heartbeat_job now (some owner) job ≡ (
        if is_running job.status && str_eq job.lock_owner owner
        then (record job { last_heartbeat_at = some now }, true)
        else (job, false))
unfolding heartbeat_job
heartbeat_job_lem now owner job = ground arith

-- the row runs and its owner was heard of at `t`
abbrev pub HeardAt : ℕ → WorkerJob → Type 0
HeardAt t job = (job.status ≡ running) × (job.last_heartbeat_at ≡ some t)

pub HeardAt-not_claimable :
    (queue : String) (now lease_seconds t : ℕ) (job : WorkerJob)
    → HeardAt t job
    → now ≤ t + max 30 lease_seconds * second
    → is_claimable queue now lease_seconds job ≡ false
unfolding is_claimable
HeardAt-not_claimable queue now l t job h le = ground arith

-- A heartbeat that was accepted keeps the row from every worker until the lease's length, at least 30
-- seconds, has passed since.
pub heartbeat_extends :
    (queue : String) (t now lease_seconds : ℕ) (owner : Option String) (job : WorkerJob)
    → (heartbeat_job t owner job).1 ≡ true
    → now ≤ t + max 30 lease_seconds * second
    → is_claimable queue now lease_seconds (heartbeat_job t owner job).0 ≡ false
unfolding is_claimable heartbeat_job
heartbeat_extends queue t now l none job beats le = ground arith
heartbeat_extends queue t now l (some owner) job beats le = ground arith

take_lease-HeardAt : (t : ℕ) (owner : String) (job : WorkerJob) → HeardAt t (take_lease t owner job)
unfolding take_lease
take_lease-HeardAt t owner job = (refl, refl)

-- A row that was just claimed is not taken by another claim, on whatever queue and by whatever worker,
-- before more than that other claim's own lease length, at least 30 seconds, has passed since.
pub no_double_claim :
    (locked locked' : WorkerJob → Bool) (queue queue' owner owner' : String) (l l' at now : ℕ)
    (t : Table WorkerJob) {a b : WorkerJob}
    → (claim_next_job locked queue l owner at t).1 ≡ some a
    → (claim_next_job locked' queue' l' owner' now (claim_next_job locked queue l owner at t).0).1
      ≡ some b
    → now ≤ at + max 30 l' * second
    → a.id ≢ b.id
unfolding take_lease
no_double_claim locked locked' queue queue' owner owner' l l' at now t {a} {b} claims again le
      same =
    let (old, _, _, taken) = claim_taken locked queue l owner at t claims in
    let (job, found, free, retaken) = claim_taken locked' queue' l' owner' now _ again in
    let among : Memᴰ job (put_row a t.rows) =
      subst (λ rows. Memᴰ job rows) (claimed-rows locked queue l owner at t claims) found in
    let still : job ≡ a = All-mem _ _ (put_row-same a t.rows) among (ground arith) in
    let heard = HeardAt-not_claimable queue' now l' at job (ground arith, ground arith) le in
    ground (arith, IsDue-is_claimable queue' now l' job free.0)
