-- ===== src/Runner/Stuck.antt =====
-- What the worker does with the sessions as they are made (app/workers/runner.py, app/db.py).
use vitae.Common.{
  ◌∷◌, is_some, ℕ, [], List, refl, inl, ◌≡◌, true, ◌⊎◌, some, Option, inr, Option-cases, arith, sym,
  Bool-cases, ◌==◌, subst, ◌∙◌, ap,
}
use vitae.Common.Table.{Table, get}
use vitae.Models.{Store}
use vitae.Queue.{claim_next_job}
use vitae.Queue.Claim.{claim_due, claimed-idle, claim_frame}
use vitae.Queue.Row.{running, WorkerJob, default_lease_seconds, keyed_worker_job}
use vitae.Runner.{run_worker, Times, session_local, Worker, turn}
use vitae.Runner.Measures.{Metrics}

-- the row is as it was, or it runs under a lease
abbrev pub IsUntouchedOrRunning : Option WorkerJob → Option WorkerJob → Type 0
IsUntouchedOrRunning before after =
    (after ≡ before)
    ⊎ ((row : WorkerJob) × (after ≡ some row)
        × (row.status ≡ running)
        × (is_some row.locked_at ≡ true))

both :
    {a b c : Option WorkerJob}
    → IsUntouchedOrRunning a b
    → IsUntouchedOrRunning b c
    → IsUntouchedOrRunning a c
both (inl e) (inl f) = inl (f ∙ e)
both (inr (row, e, runs, leased)) (inl f) = inr (row, f ∙ e, runs, leased)
both h (inr k) = inr k

module _ (w : Worker) (at i : ℕ) (t : Table WorkerJob) where
  abbrev claim : Table WorkerJob × Option WorkerJob
  claim = claim_next_job w.locked w.queue default_lease_seconds w.owner at t

  taken-touches :
      (taken : WorkerJob) → claim.1 ≡ some taken → IsUntouchedOrRunning (get i t) (get i claim.0)
  taken-touches taken e =
      let frame =
        claim_frame w.locked w.queue default_lease_seconds w.owner at t {taken = taken} i e in
      let (job, found, free, same, rows) =
        claim_due w.locked w.queue default_lease_seconds w.owner at t e in
      elim (Bool-cases (taken.id == i)) [
        | inr f ↦ inl (ground (arith, f, frame))
        | inl f ↦ elim (Option-cases (get i t)) [
          | inl g ↦ inl (ground (arith, f, g, frame))
          | inr (old, g) ↦ inr (
            taken,
            ground (arith, f, g, frame),
            ap (λ r. r.status) same,
            ap (λ r. is_some r.locked_at) same,
          )
        ]
      ]

  claim-touches : IsUntouchedOrRunning (get i t) (get i claim.0)
  claim-touches = elim (Option-cases claim.1) [
    | inl e ↦ inl (ap (get i) (claimed-idle w.locked w.queue default_lease_seconds w.owner at t e))
    | inr (taken, e) ↦ taken-touches taken e
  ]

-- a round commits the claim and nothing else
turn-claim :
    (w : Worker) (at : Times) (s : Store) (m : Metrics)
    → (turn session_local w at (s, m)).0 ≡ (
      record s {
        jobs = (claim_next_job w.locked w.queue default_lease_seconds w.owner at.claimed s.jobs).0;
      },
      m,
    )
unfolding turn
turn-claim w at s m =
    let found = claim_next_job w.locked w.queue default_lease_seconds w.owner at.claimed s.jobs in
    elim (Option-cases found.1) [
      | inl e ↦
          let idle =
            claimed-idle w.locked w.queue default_lease_seconds w.owner at.claimed s.jobs e in
          ground (arith, e, idle)
      | inr (job, e) ↦ ground (arith, e)
    ]

-- With the sessions as they are made, no round of the worker, however often its process is started
-- anew and whichever workers there are, does a job's work or settles it: nothing but the table of jobs
-- changes, nothing is measured, and each job's row is as it was or running under a lease.
pub run_worker-never_settles :
    (rounds : List (Worker × Times)) (i : ℕ) (st : Store × Metrics)
    → let after = run_worker session_local rounds st in
      (record after.0 { jobs = st.0.jobs } ≡ st.0)
      × (after.1 ≡ st.1)
      × IsUntouchedOrRunning (get i st.0.jobs) (get i after.0.jobs)
unfolding run_worker
run_worker-never_settles [] i st = (refl, refl, inl refl)
run_worker-never_settles ((w, at) ∷ rounds) i st =
    let (s, m) = st in
    let step = (turn session_local w at st).0 in
    let committed = turn-claim w at s m in
    let later = run_worker-never_settles rounds i step in
    let same : record step.0 { jobs = s.jobs } ≡ s =
      ap (λ x. record x.0 { jobs = s.jobs }) committed in
    let touched =
      subst (λ x. IsUntouchedOrRunning (get i s.jobs) (get i x.0.jobs)) (sym committed)
        (claim-touches w at.claimed i s.jobs) in
    (
      ap {A = Store} (λ x. record x { jobs = s.jobs }) later.0 ∙ same,
      later.1 ∙ ap (λ x. x.1) committed,
      both touched later.2,
    )
