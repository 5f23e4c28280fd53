-- ===== src/Batches/Keys.antt =====
-- The prepare jobs that starting a batch puts into the queue (`start_run` of app/auto_apply.py).
use Prim.Native.String.{◌∷◌ as cons, ◌++◌ as append}
use mathlib.Core.Path.{subst, sym, ◌≡◌, refl}
use text.Mathlib.TextLemmas.{cons-append, append_cancel_left}
use vitae.Applications.{given}
use vitae.AutoApply.{owned_run, item_is}
use vitae.Batches.{prepare_key, prepare_payload, start_run, enqueue_items}
use vitae.Common.{
  ℕ, ◌≡◌, some, str_eq_refl, Option, find_first, inl, Bool, List, is_some, if◌then◌else◌, ◌∷◌, ◌==◌,
  none, arith, true, ◌++◌, Option-cases, inr, find_first-append, String, false, Memᴰ, ◌&&◌, [], not,
  All,
}
use vitae.Common.Decimal.{decimal-injective, decimal}
use vitae.Common.Outcome.{ok}
use vitae.Common.Table.{get, id_of-get_row, Table}
use vitae.Common.Text.{strip-is_empty, is_empty, or_empty, strip, is_space}
use vitae.Models.{Store}
use vitae.Models.AccountRows.{User, keyed_user}
use vitae.Models.AutoApplyRows.{
  AutoApplyItemStatus, AutoApplyRun, AutoApplyItem, keyed_auto_apply_item, keyed_auto_apply_run,
}
use vitae.Queue.{new_job, key_or_none, has_key, enqueue_job}
use vitae.Queue.Row.{WorkerJob, keyed_worker_job}

prepare_key-cons : (i : ℕ) → prepare_key i ≡ cons "a" (append "uto-apply-item:" (decimal i))
unfolding prepare_key
prepare_key-cons i = cons-append "a" "uto-apply-item:" (decimal i)

-- Two items whose prepare jobs share a key are the same item.
pub prepare_key-injective : (i j : ℕ) → prepare_key i ≡ prepare_key j → i ≡ j
unfolding prepare_key
prepare_key-injective i j h =
    decimal-injective i j (append_cancel_left "auto-apply-item:" (decimal i) (decimal j) h)

-- whether a job has this idempotency key
abbrev pub is_taken : String → Table WorkerJob → Bool
is_taken key t = is_some (find_first (has_key key) t.rows)

append-is_taken :
    (key : String) (rows : List WorkerJob) (job : WorkerJob)
    → is_some (find_first (has_key key) rows) ≡ true
    → is_some (find_first (has_key key) (rows ++ job ∷ [])) ≡ true
append-is_taken key rows job h = ground (arith, h, find_first-append (has_key key) rows (job ∷ []))

-- a job that has its key keeps it
enqueue_job-keeps :
    (queue kind payload : String) (given : Option String) (at : Option ℕ) (n now : ℕ)
    (t : Table WorkerJob) (key : String)
    → is_taken key t ≡ true
    → is_taken key (enqueue_job queue kind payload given at n now t).0 ≡ true
unfolding enqueue_job
enqueue_job-keeps queue kind payload given at n now t key h =
    let asked = strip (or_empty given) in
    ground (
      arith,
      h,
      append-is_taken key t.rows (new_job queue kind payload n (key_or_none asked) at now t.next_id)
          h,
    )

-- a key that is not blank has a job afterwards
enqueue_job-takes :
    (queue kind payload key : String) (at : Option ℕ) (n now : ℕ) (t : Table WorkerJob)
    → is_empty (strip key) ≡ false
    → is_taken (strip key) (enqueue_job queue kind payload (some key) at n now t).0 ≡ true
unfolding enqueue_job new_job
enqueue_job-takes queue kind payload key at n now t h =
    let job = new_job queue kind payload n (key_or_none (strip key)) at now t.next_id in
    ground
      (arith, h, str_eq_refl (strip key), find_first-append (has_key (strip key)) t.rows (job ∷ []))

prepare_key-is_empty : (i : ℕ) → is_empty (strip (prepare_key i)) ≡ false
unfolding is_space
prepare_key-is_empty i =
    subst (λ k. is_empty (strip k) ≡ false) (sym (prepare_key-cons i))
      (strip-is_empty "a" (append "uto-apply-item:" (decimal i)) refl)

enqueue_items-keeps :
    (run : AutoApplyRun) (now : ℕ) (items : List AutoApplyItem) (t : Table WorkerJob) (key : String)
    → is_taken key t ≡ true
    → is_taken key (enqueue_items run now items t) ≡ true
unfolding enqueue_items
enqueue_items-keeps run now [] t key h = h
enqueue_items-keeps run now (x ∷ xs) t key h =
    let waits = x.run_id == run.id && item_is AutoApplyItemStatus.queued x in
    let queued_up =
      enqueue_job "auto-apply" "auto_apply_prepare" (prepare_payload x.id) (some (prepare_key x.id))
        none 5 now t in
    let step =
      enqueue_job-keeps "auto-apply" "auto_apply_prepare" (prepare_payload x.id)
        (some (prepare_key x.id)) none 5 now t key h in
    enqueue_items-keeps run now xs (if waits then queued_up.0 else t) key (ground (arith, h, step))

enqueue_items-takes :
    (run : AutoApplyRun) (now : ℕ) (items : List AutoApplyItem) (t : Table WorkerJob)
    {x : AutoApplyItem}
    → Memᴰ x items
    → (x.run_id == run.id && item_is AutoApplyItemStatus.queued x) ≡ true
    → is_taken (strip (prepare_key x.id)) (enqueue_items run now items t) ≡ true
unfolding enqueue_items
enqueue_items-takes run now [] t m w = elim m [ ]
enqueue_items-takes run now (y ∷ ys) t {x} (Memᴰ.tail m) w =
    enqueue_items-takes run now ys _ {x = x} m w
enqueue_items-takes run now (y ∷ ys) t {x} (Memᴰ.head e) w =
    let queued_up =
      enqueue_job "auto-apply" "auto_apply_prepare" (prepare_payload y.id) (some (prepare_key y.id))
        none 5 now t in
    let waits = y.run_id == run.id && item_is AutoApplyItemStatus.queued y in
    let due : waits ≡ true =
      subst (λ z. (z.run_id == run.id && item_is AutoApplyItemStatus.queued z) ≡ true) e w in
    let taken =
      enqueue_job-takes "auto-apply" "auto_apply_prepare" (prepare_payload y.id) (prepare_key y.id)
        none 5 now t (prepare_key-is_empty y.id) in
    subst (λ z. is_taken (strip (prepare_key z.id)) (enqueue_items run now (y ∷ ys) t) ≡ true)
      (sym e)
      (enqueue_items-keeps run now ys (if waits then queued_up.0 else t) (strip (prepare_key y.id))
        (ground (arith, due, taken)))

-- Once a run is started, every queued item of it has a job in the queue's table under its prepare key.
pub start_run_lem :
    (user : User) (i now : ℕ) (s : Store) {r : Store × AutoApplyRun} {item : AutoApplyItem}
    → start_run user i now s ≡ ok r
    → Memᴰ item s.items.rows
    → (item.run_id == i && item_is AutoApplyItemStatus.queued item) ≡ true
    → is_taken (strip (prepare_key item.id)) r.0.jobs ≡ true
unfolding start_run owned_run
start_run_lem user i now s {r} {item} h m w = elim (Option-cases (get i s.runs)) [
  | inl e ↦ absurd (ground (arith, h, e))
  | inr (run, e) ↦
      let id : run.id ≡ i = id_of-get_row i s.runs.rows {a = run} e in
      let due =
        subst (λ j. (item.run_id == j && item_is AutoApplyItemStatus.queued item) ≡ true) (sym id)
          w in
      let taken = enqueue_items-takes run now s.items.rows s.jobs {x = item} m due in
      ground (arith, h, e, taken)
]

enqueue_job-known :
    (queue kind payload key : String) (at : Option ℕ) (n now : ℕ) (t : Table WorkerJob)
    → is_empty (strip key) ≡ false
    → is_taken (strip key) t ≡ true
    → (enqueue_job queue kind payload (some key) at n now t).0 ≡ t
unfolding enqueue_job
enqueue_job-known queue kind payload key at n now t h taken = ground (arith, h, taken)

abbrev pub IsKnown : AutoApplyRun → Table WorkerJob → AutoApplyItem → Type 0
IsKnown run t x =
    (x.run_id == run.id
      && item_is AutoApplyItemStatus.queued x
      && not (is_taken (strip (prepare_key x.id)) t))
    ≡ false

enqueue_items-known :
    (run : AutoApplyRun) (now : ℕ) (items : List AutoApplyItem) (t : Table WorkerJob)
    → All (IsKnown run t) items
    → enqueue_items run now items t ≡ t
unfolding enqueue_items
enqueue_items-known run now [] t known = refl
enqueue_items-known run now (x ∷ xs) t known =
    let waits = x.run_id == run.id && item_is AutoApplyItemStatus.queued x in
    let queued_up =
      enqueue_job "auto-apply" "auto_apply_prepare" (prepare_payload x.id) (some (prepare_key x.id))
        none 5 now t in
    let same =
      enqueue_job-known "auto-apply" "auto_apply_prepare" (prepare_payload x.id) (prepare_key x.id)
        none 5 now t (prepare_key-is_empty x.id) in
    let step : (if waits then queued_up.0 else t) ≡ t = ground (arith, known.0, same) in
    subst (λ u. enqueue_items run now xs u ≡ t) (sym step)
      (enqueue_items-known run now xs t known.1)

-- Where every queued item of the run has a job under its prepare key already, a completed one as well,
-- starting the run again adds no job.
pub restart_adds_nothing :
    (user : User) (i now : ℕ) (s : Store) {run : AutoApplyRun} {r : Store × AutoApplyRun}
    → get i s.runs ≡ some run
    → All (IsKnown run s.jobs) s.items.rows
    → start_run user i now s ≡ ok r
    → r.0.jobs ≡ s.jobs
unfolding start_run owned_run
restart_adds_nothing user i now s {run} {r} found known h =
    ground (arith, h, found, enqueue_items-known run now s.items.rows s.jobs known)
