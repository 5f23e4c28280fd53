-- ===== src/Queue/Claim.antt =====
-- Which row `claim_next_job` takes, and what it leaves alone.
use mathlib.Core.Option
use vitae.Common.{
  ℕ, ◌∷◌, max, ◌+◌, str_eq_iff, none, Option, Bool, String, arith, true, ◌≡◌, some, ◌*◌, ◌<◌, [],
  false, List, ◌≤◌, ◌⊎◌, not, ◌↔◌, ◌&&◌, All, inl, All-map, inr, Bool-cases, Option-cases, subst,
  Memᴰ, All-mem, ◌==◌, if◌then◌else◌,
}
use vitae.Common.Table.{Table, get, get_row-put_row, put_row}
use vitae.Queue.{
  coalesce, is_claimable, next_claimable, comes_first, better, claim_next_job, take_lease,
}
use vitae.Queue.Row.{queued, running, WorkerJob, second, keyed_worker_job}

-- The last sign of life of a lease, if there is one, is more than the lease's length ago.
abbrev pub LeaseEnded : Option ℕ → ℕ → ℕ → Type 0
LeaseEnded none now lease_seconds = ⊥
LeaseEnded (some t) now lease_seconds = t + max 30 lease_seconds * second < now

-- what a row that may be claimed is
abbrev pub IsDue : String → ℕ → ℕ → WorkerJob → Type 0
IsDue queue now lease_seconds job =
    (job.queue ≡ queue)
    × (((job.status ≡ queued) × (job.available_at ≤ now))
        ⊎ ((job.status ≡ running)
            × LeaseEnded (coalesce job.last_heartbeat_at job.locked_at) now lease_seconds))

-- `a` is taken while `b` waits
abbrev pub Precedes : WorkerJob → WorkerJob → Type 0
Precedes a b =
    (b.priority < a.priority) ⊎ ((b.priority ≡ a.priority) × (a.created_at ≤ b.created_at))

comes_first-Precedes : (a b : WorkerJob) → comes_first a b ≡ true → Precedes a b
unfolding comes_first
comes_first-Precedes a b h = ground arith

not_comes_first : (a b : WorkerJob) → comes_first a b ≡ false → Precedes b a
unfolding comes_first
not_comes_first a b h = ground arith

Precedes-trans : (a b c : WorkerJob) → Precedes a b → Precedes b c → Precedes a c
Precedes-trans a b c h k = ground arith

Precedes-refl : (a : WorkerJob) → Precedes a a
Precedes-refl a = ground arith

module _ (queue : String) (now lease_seconds : ℕ) where
  pub is_claimable-IsDue :
      (job : WorkerJob)
      → is_claimable queue now lease_seconds job ≡ true
      → IsDue queue now lease_seconds job
  unfolding is_claimable
  is_claimable-IsDue job h = ground (arith, str_eq_iff job.queue queue)

  pub IsDue-is_claimable :
      (job : WorkerJob)
      → IsDue queue now lease_seconds job
      → is_claimable queue now lease_seconds job ≡ true
  unfolding is_claimable
  IsDue-is_claimable job h = ground (arith, str_eq_iff job.queue queue)

module _ (locked : WorkerJob → Bool) (queue : String) (now lease_seconds : ℕ) where
  -- a row that this transaction may take
  abbrev pub MayTake : WorkerJob → Type 0
  MayTake job = IsDue queue now lease_seconds job × (locked job ≡ false)

  pub may_take : WorkerJob → Bool
  may_take job = is_claimable queue now lease_seconds job && not (locked job)

  pub may_take_iff : (job : WorkerJob) → (may_take job ≡ true) ↔ MayTake job
  unfolding may_take
  may_take_iff job = ground (
    arith,
    is_claimable-IsDue queue now lease_seconds job,
    IsDue-is_claimable queue now lease_seconds job,
  )

  pub next_claimable-may_take :
      (jobs : List WorkerJob) {job : WorkerJob}
      → next_claimable locked queue now lease_seconds jobs ≡ some job
      → may_take job ≡ true
  unfolding next_claimable may_take
  next_claimable-may_take [] {job} h = absurd (ground arith)
  next_claimable-may_take (j ∷ jobs) {job} h =
      ground (arith, next_claimable-may_take jobs {job = job})

  pub next_claimable-none :
      (jobs : List WorkerJob)
      → next_claimable locked queue now lease_seconds jobs ≡ none
      → All (λ other. may_take other ≡ false) jobs
  unfolding next_claimable may_take
  next_claimable-none [] h = tt
  next_claimable-none (j ∷ jobs) h = ground (arith, next_claimable-none jobs)

  abbrev pub IsFirst : WorkerJob → List WorkerJob → Type 0
  IsFirst job = All (λ other. may_take other ≡ true → Precedes job other)

  IsFirst-trans :
      (a b : WorkerJob) (jobs : List WorkerJob) → Precedes a b → IsFirst b jobs → IsFirst a jobs
  IsFirst-trans a b jobs h = All-map (λ x f m. Precedes-trans a b x h (f m)) jobs

  better-IsFirst :
      (j b : WorkerJob) (jobs : List WorkerJob)
      → IsFirst b jobs
      → IsFirst (better j (some b)) (j ∷ jobs)
  better-IsFirst j b jobs h = elim (Bool-cases (comes_first j b)) [
    | inl e ↦
        let same : j ≡ better j (some b) = rw e in
        subst (λ x. IsFirst x (j ∷ jobs)) same
          ((λ _. Precedes-refl j), IsFirst-trans j b jobs (comes_first-Precedes j b e) h)
    | inr e ↦
        let same : b ≡ better j (some b) = rw e in
        subst (λ x. IsFirst x (j ∷ jobs)) same ((λ _. not_comes_first j b e), h)
  ]

  pub next_claimable-IsFirst :
      (jobs : List WorkerJob) {job : WorkerJob}
      → next_claimable locked queue now lease_seconds jobs ≡ some job
      → IsFirst job jobs
  unfolding next_claimable may_take
  next_claimable-IsFirst [] {job} h = tt
  next_claimable-IsFirst (j ∷ jobs) {job} h = elim (Bool-cases (may_take j)) [
    | inr e ↦ ((λ m. absurd (ground arith)), next_claimable-IsFirst jobs {job = job} (ground arith))
    | inl e ↦ elim (Option-cases (next_claimable locked queue now lease_seconds jobs)) [
      | inl z ↦
          let same : j ≡ job = ground arith in
          subst (λ x. IsFirst x (j ∷ jobs)) same
            (
              (λ _. Precedes-refl j),
              All-map (λ x n m. absurd (ground arith)) jobs (next_claimable-none jobs z),
            )
      | inr (b, z) ↦
          let same : better j (some b) ≡ job = ground arith in
          subst (λ x. IsFirst x (j ∷ jobs)) same
            (better-IsFirst j b jobs (next_claimable-IsFirst jobs z))
    ]
  ]

module _ (locked : WorkerJob → Bool) (queue : String) (lease_seconds : ℕ) (owner : String) (now : ℕ)
    (t : Table WorkerJob) where
  abbrev pub claimed : Table WorkerJob × Option WorkerJob
  claimed = claim_next_job locked queue lease_seconds owner now t

  abbrev pub Free : WorkerJob → Type 0
  Free = MayTake locked queue now lease_seconds

  abbrev picked : Option WorkerJob
  picked = next_claimable locked queue now lease_seconds t.rows

  next_claimable-mem :
      (jobs : List WorkerJob) {job : WorkerJob}
      → next_claimable locked queue now lease_seconds jobs ≡ some job
      → Memᴰ job jobs
  unfolding next_claimable
  next_claimable-mem [] {job} h = absurd (ground arith)
  next_claimable-mem (j ∷ jobs) {job} h =
      elim (Bool-cases (is_claimable queue now lease_seconds j && not (locked j))) [
        | inr e ↦ Memᴰ.tail (next_claimable-mem jobs {job = job} (ground arith))
        | inl e ↦ elim (Option-cases (next_claimable locked queue now lease_seconds jobs)) [
          | inl z ↦ Memᴰ.head (ground arith)
          | inr (b, z) ↦ elim (Bool-cases (comes_first j b)) [
            | inl f ↦ Memᴰ.head (ground arith)
            | inr f ↦ Memᴰ.tail (next_claimable-mem jobs {job = job} (ground arith))
          ]
        ]
      ]

  claimed-none : claimed.1 ≡ none → picked ≡ none
  unfolding claim_next_job
  claimed-none h = ground arith

  claimed-some :
      {taken : WorkerJob}
      → claimed.1 ≡ some taken
      → (job : WorkerJob) × (picked ≡ some job) × (taken ≡ take_lease now owner job)
  unfolding claim_next_job
  claimed-some {taken} h =
      elim (Option-cases (next_claimable locked queue now lease_seconds t.rows)) [
        | inl z ↦ absurd (ground arith)
        | inr (b, z) ↦ (b, z, ground arith)
      ]

  -- the row that is taken, as `take_lease` leaves it
  pub claim_taken :
      {taken : WorkerJob}
      → claimed.1 ≡ some taken
      → (job : WorkerJob) × Memᴰ job t.rows × Free job × (taken ≡ take_lease now owner job)
  claim_taken h =
      let (job, found, same) = claimed-some h in
      (
        job,
        next_claimable-mem t.rows found,
        (may_take_iff locked queue now lease_seconds job).0
            (next_claimable-may_take locked queue now lease_seconds t.rows found),
        same,
      )

  -- No row that is due on this queue and free has a higher priority than the claimed one, or the
  -- same priority and an earlier creation time.
  pub claim_order :
      {taken other : WorkerJob}
      → claimed.1 ≡ some taken
      → Memᴰ other t.rows
      → Free other
      → Precedes taken other
  unfolding take_lease
  claim_order {taken} {other} h m f =
      let (job, found, same) = claimed-some h in
      let before : Precedes job other =
        All-mem _ t.rows (next_claimable-IsFirst locked queue now lease_seconds t.rows found) m
          ((may_take_iff locked queue now lease_seconds other).1 f) in
      ground arith

  -- A claim that comes back empty means that no row is due on this queue and free.
  pub claim_idle : {other : WorkerJob} → claimed.1 ≡ none → Memᴰ other t.rows → ¬ Free other
  claim_idle {other} h m f =
      let idle =
        All-mem _ t.rows
          (next_claimable-none locked queue now lease_seconds t.rows (claimed-none h)) m in
      ground (arith, (may_take_iff locked queue now lease_seconds other).1 f)

  -- a claim that comes back empty changes nothing
  pub claimed-idle : claimed.1 ≡ none → claimed.0 ≡ t
  unfolding claim_next_job
  claimed-idle h = elim (Option-cases picked) [
    | inl z ↦ ground arith
    | inr (b, z) ↦ absurd (ground arith)
  ]

  pub claimed-rows :
      {taken : WorkerJob} → claimed.1 ≡ some taken → claimed.0.rows ≡ put_row taken t.rows
  unfolding claim_next_job
  claimed-rows {taken} h = elim (Option-cases picked) [
    | inl z ↦ absurd (ground arith)
    | inr (b, z) ↦ ground arith
  ]

  -- The claimed row was in the table, due on this queue and held by no other transaction; it comes
  -- back running, one attempt older, locked and heard of now by this owner, and otherwise as it was;
  -- the table afterwards has this row in its place.
  pub claim_due :
      {taken : WorkerJob}
      → claimed.1 ≡ some taken
      → (job : WorkerJob) × Memᴰ job t.rows
        × Free job
        × (taken ≡ record job {
          status = running;
          attempts = job.attempts + 1;
          locked_at = some now;
          lock_owner = owner;
          last_heartbeat_at = some now;
        })
        × (claimed.0.rows ≡ put_row taken t.rows)
  unfolding take_lease
  claim_due h =
      let (job, found, free, same) = claim_taken h in (job, found, free, same, claimed-rows h)

  -- The claimed row is stored, and every other row stands as it stood.
  pub claim_frame :
      {taken : WorkerJob} (i : ℕ)
      → claimed.1 ≡ some taken
      → get i claimed.0 ≡ (if taken.id == i then Option.map (λ _. taken) (get i t) else get i t)
  unfolding claim_next_job take_lease
  claim_frame {taken} i h = elim (Option-cases picked) [
    | inl z ↦ absurd (ground arith)
    | inr (b, z) ↦ ground (arith, get_row-put_row i (take_lease now owner b) t.rows)
  ]
