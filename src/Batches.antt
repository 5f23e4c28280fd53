-- ===== src/Batches.antt =====
-- Starting, pausing and cancelling an auto-apply batch and reviewing and submitting its items:
-- app/auto_apply.py.
pub mod Keys
pub mod Safe
pub mod Reviews
pub mod Items
mod Examples
use vitae.Applications.{transition_application, Details}
use vitae.AutoApply.{item_is, is_over, owned_item, owned_run, run_is}
use vitae.Common.{
  ◌&&◌, ℕ, String, none, ◌∷◌, suc, ◌<>◌, is_some, false, List, ◌||◌, some, [], ◌==◌, Bool,
  if◌then◌else◌, not, true,
}
use vitae.Common.Decimal.{decimal}
use vitae.Common.Outcome.{◌>>=◌, ◌>>◌, value_error, Outcome, require, ok, raised}
use vitae.Common.Table.{save, Table}
use vitae.Common.Text.{clip, or_text, strip}
use vitae.Models.{Store}
use vitae.Models.AccountRows.{User, keyed_user}
use vitae.Models.AutoApplyRows.{
  AutoApplyRunStatus, AutoApplyItemStatus, AutoApplyItem, AutoApplyRun, keyed_auto_apply_item,
  keyed_auto_apply_run,
}
use vitae.Queue.{enqueue_job}
use vitae.Queue.Row.{WorkerJob, keyed_worker_job}

-- `payload={"item_id": item.id}`, as `json.dumps` writes it
abbrev pub prepare_payload : ℕ → String
prepare_payload i = "{\"item_id\": " <> (decimal i <> "}")

-- `f"auto-apply-item:{item.id}"`
pub prepare_key : ℕ → String
prepare_key i = "auto-apply-item:" <> decimal i

-- the prepare jobs of the run's queued items
pub enqueue_items : AutoApplyRun → ℕ → List AutoApplyItem → Table WorkerJob → Table WorkerJob
enqueue_items run now [] t = t
enqueue_items run now (item ∷ items) t =
    let with_job =
      enqueue_job "auto-apply" "auto_apply_prepare" (prepare_payload item.id)
        (some (prepare_key item.id)) none 5 now t in
    let waits = item.run_id == run.id && item_is AutoApplyItemStatus.queued item in
    enqueue_items run now items (if waits then with_job.0 else t)

abbrev pub started : ℕ → AutoApplyRun → AutoApplyRun
started now run = record run {
  status = AutoApplyRunStatus.running;
  started_at = (elim run.started_at [ none ↦ some now | some t ↦ some t ]);
}

pub start_run : User → ℕ → ℕ → Store → Outcome (Store × AutoApplyRun)
start_run user i now s = do
  run ← owned_run user i s.runs
  require (run_is AutoApplyRunStatus.queued run || run_is AutoApplyRunStatus.paused run) value_error
  ok (
    record s {
      runs = save (started now run) s.runs;
      jobs = enqueue_items run now s.items.rows s.jobs;
    },
    started now run,
  )

pub pause_run : User → ℕ → Store → Outcome (Store × AutoApplyRun)
pause_run user i s = do
  run ← owned_run user i s.runs
  require (run_is AutoApplyRunStatus.running run) value_error
  let after = record run { status = AutoApplyRunStatus.paused }
  ok (record s { runs = save after s.runs }, after)

-- the items that a cancelled run gives up
pub is_pending : AutoApplyItem → Bool
is_pending item =
    item_is AutoApplyItemStatus.queued item
    || item_is AutoApplyItemStatus.preparing item
    || item_is AutoApplyItemStatus.ready item
    || item_is AutoApplyItemStatus.needs_review item

pub skip_items : ℕ → List AutoApplyItem → List AutoApplyItem
unfolding is_pending
skip_items run_id [] = []
skip_items run_id (item ∷ items) =
    (if item.run_id == run_id && is_pending item
      then record item { status = AutoApplyItemStatus.skipped }
      else item)
    ∷ skip_items run_id items

abbrev pub give_up : AutoApplyRun → ℕ → Store → Store × AutoApplyRun
give_up run now s =
    let after : AutoApplyRun = record run {
      status = AutoApplyRunStatus.cancelled;
      completed_at = some now;
    } in
    (
      record s {
        runs = save after s.runs;
        items = record s.items { rows = skip_items run.id s.items.rows };
      },
      after,
    )

pub cancel_run : User → ℕ → ℕ → Store → Outcome (Store × AutoApplyRun)
cancel_run user i now s = do
  run ← owned_run user i s.runs
  ok (if is_over run then (s, run) else give_up run now s)

pub mark_item_review : User → ℕ → String → Store → Outcome (Store × AutoApplyItem)
mark_item_review user i reason s = do
  (item, run) ← owned_item user i s
  require (not (is_over run)) value_error
  let after = record item {
    status = AutoApplyItemStatus.needs_review;
    requires_review = true;
    review_reason = clip 2000 (strip (or_text reason "User review required"));
  }
  ok (record s { items = save after s.items }, after)

pub approve_item : User → ℕ → Store → Outcome (Store × AutoApplyItem)
approve_item user i s = do
  (item, run) ← owned_item user i s
  require (run_is AutoApplyRunStatus.running run) value_error
  require (item_is AutoApplyItemStatus.needs_review item) value_error
  let after = record item {
    status = AutoApplyItemStatus.ready;
    requires_review = false;
    review_reason = "";
  }
  ok (record s { items = save after s.items }, after)

-- an item that was handed in, and its run
abbrev pub handed_in : AutoApplyItem → AutoApplyRun → Store → Store × AutoApplyItem
handed_in item run s =
    let after : AutoApplyItem = record item {
      status = AutoApplyItemStatus.submitted;
      attempt_count = suc item.attempt_count;
      last_error = "";
    } in
    (
      record s {
        items = save after s.items;
        runs = save (record run { submitted_count = suc run.submitted_count }) s.runs;
      },
      after,
    )

pub mark_item_submitted : User → ℕ → Details → ℕ → Store → Outcome (Store × AutoApplyItem)
mark_item_submitted user i d now s = do
  (item, run) ← owned_item user i s
  require (not (is_over run)) value_error
  require (is_some item.application_id) value_error
  require (item_is AutoApplyItemStatus.ready item || item_is AutoApplyItemStatus.needs_review item)
      value_error
  require (not (item.requires_review && not (item_is AutoApplyItemStatus.ready item))) value_error
  elim item.application_id [
    | none ↦ raised value_error
    | some application_id ↦ do
      (after, application) ← transition_application user application_id "submitted" d now s
      ok (handed_in item run after)
  ]
