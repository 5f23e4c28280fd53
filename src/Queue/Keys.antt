-- ===== src/Queue/Keys.antt =====
-- Idempotent enqueueing: one row for a key.
use vitae.Common.{
  find_first, false, find_first-append, count_if, inl, ◌≤◌, ℕ, count_if-append, ◌≡◌, some, str_eq,
  Bool, ◌++◌, String, inr, Option, [], true, arith, Bool-cases, str_eq_refl, List, ◌⊎◌, none, ◌∷◌,
  subst, count_if-find_first, str_eq_iff,
}
use vitae.Common.Table.{Table}
use vitae.Common.Text.{is_empty, or_empty, strip}
use vitae.Queue.{new_job, enqueue_job, has_key, key_or_none}
use vitae.Queue.Row.{WorkerJob, keyed_worker_job}

-- no two rows have the same idempotency key
pub record KeysUnique (jobs : List WorkerJob) : Type 0 where
  pub at_key : (k : String) → count_if (has_key k) jobs ≤ 1

abbrev is_key : String → Option String → Bool
is_key k none = false
is_key k (some j) = str_eq j k

-- a key that is not blank
abbrev pub HasKey : String → Type 0
HasKey key = is_empty (strip key) ≡ false

module _ (queue kind payload : String) (at : Option ℕ) (max_attempts now : ℕ) where
  abbrev made : String → ℕ → WorkerJob
  made key = new_job queue kind payload max_attempts (key_or_none key) at now

  has_key-made : (key k : String) (i : ℕ) → has_key k (made key i) ≡ is_key k (key_or_none key)
  unfolding new_job
  has_key-made key k i = ground arith

  append-KeysUnique :
      (key k : String) (t : Table WorkerJob)
      → count_if (has_key k) t.rows ≤ 1
      → (is_empty key ≡ true) ⊎ (find_first (has_key key) t.rows ≡ none)
      → count_if (has_key k) (t.rows ++ made key t.next_id ∷ []) ≤ 1
  append-KeysUnique key k t few fresh = elim (Bool-cases (str_eq key k)) [
    | inl e ↦
        let same : key ≡ k = (str_eq_iff key k).0 e in
        let none_yet : (is_empty key ≡ true) ⊎ (find_first (has_key k) t.rows ≡ none) =
          subst (λ x. (is_empty key ≡ true) ⊎ (find_first (has_key x) t.rows ≡ none)) same fresh in
        ground (
          arith,
          count_if-append (has_key k) t.rows (made key t.next_id ∷ []),
          has_key-made key k t.next_id,
          count_if-find_first (has_key k) t.rows,
        )
    | inr e ↦ ground (
      arith,
      count_if-append (has_key k) t.rows (made key t.next_id ∷ []),
      has_key-made key k t.next_id,
    )
  ]

  -- Enqueueing under any key, or none, keeps the keys unique.
  pub enqueue_job-KeysUnique :
      (key : Option String) (t : Table WorkerJob)
      → KeysUnique t.rows
      → KeysUnique (enqueue_job queue kind payload key at max_attempts now t).0.rows
  unfolding enqueue_job
  enqueue_job-KeysUnique key t h = record {
    at_key = λ k. ground (arith, h.at_key k, append-KeysUnique (strip (or_empty key)) k t);
  }

  enqueued-has_key :
      (key : String) (t : Table WorkerJob)
      → HasKey key
      → find_first
          (has_key (strip key))
          (enqueue_job queue kind payload (some key) at max_attempts now t).0.rows
        ≡ some (enqueue_job queue kind payload (some key) at max_attempts now t).1
  unfolding enqueue_job
  enqueued-has_key key t h = ground (
    arith,
    find_first-append (has_key (strip key)) t.rows (made (strip key) t.next_id ∷ []),
    has_key-made (strip key) (strip key) t.next_id,
    str_eq_refl (strip key),
  )

enqueue_job-found :
    (queue kind payload : String) (at : Option ℕ) (n now : ℕ) (key : String) (t : Table WorkerJob)
    {job : WorkerJob}
    → HasKey key
    → find_first (has_key (strip key)) t.rows ≡ some job
    → enqueue_job queue kind payload (some key) at n now t ≡ (t, job)
unfolding enqueue_job
enqueue_job-found queue kind payload at n now key t h e = rw (h, e)

-- A second request under the same key, once stripped and not blank, adds nothing and returns the row
-- of the first, whatever else it asks for.
pub enqueue_job_again :
    (queue queue' kind kind' payload payload' : String) (at at' : Option ℕ) (n n' now now' : ℕ)
    (key key' : String) (t : Table WorkerJob)
    → HasKey key
    → strip key' ≡ strip key
    → let first = enqueue_job queue kind payload (some key) at n now t in
      enqueue_job queue' kind' payload' (some key') at' n' now' first.0 ≡ first
enqueue_job_again queue queue' kind kind' payload payload' at at' n n' now now' key key' t h e =
    let first = enqueue_job queue kind payload (some key) at n now t in
    let stored : find_first (has_key (strip key')) first.0.rows ≡ some first.1 =
      rw e (enqueued-has_key queue kind payload at n now key t h) in
    enqueue_job-found queue' kind' payload' at' n' now' key' first.0 (rw e h) stored
