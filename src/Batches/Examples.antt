-- ===== src/Batches/Examples.antt =====
-- A batch that is worked through, and one that is cancelled.
use vitae.Applications.{transition_application, owned_application, Details}
use vitae.AutoApply.{item_is, owned_run}
use vitae.Batches.{
  cancel_run, skip_items, mark_item_submitted, start_run, enqueue_items, prepare_key,
}
use vitae.Batches.Items.{mark_item_submitted_lem, IsReviewed}
use vitae.Batches.Keys.{start_run_lem, restart_adds_nothing, is_taken, IsKnown}
use vitae.Batches.Reviews.{serve_all, serve_all-AllReviewed, review_request, submit_request}
use vitae.Batches.Safe.{AllReviewed}
use vitae.Common.{false, ◌≡◌, All, some, ◌∷◌, [], true, arith, suc, refl, none, Memᴰ}
use vitae.Common.Decimal.{decimal, numeral}
use vitae.Common.Outcome.{ok}
use vitae.Common.Table.{put_row, get_row, get}
use vitae.Common.Text.{strip, lower}
use vitae.Lifecycle.{is_allowed, status_of}
use vitae.Models.{Store}
use vitae.Models.ApplicationRows.{ApplicationStatus}
use vitae.Models.AutoApplyRows.{
  AutoApplyRunStatus, AutoApplyItemStatus, AutoApplyItem, AutoApplyRun, keyed_auto_apply_run,
  keyed_auto_apply_item,
}
use vitae.Queue.{new_job, complete_job, enqueue_job}
use vitae.Queue.Row.{WorkerJob, keyed_worker_job}
use vitae.Samples.{ada, batch_store, application, item, run}

abbrev no_details : Details
no_details = record { note = ""; external_application_id = ""; external_url = "" }

abbrev cancelled_run : AutoApplyRun
cancelled_run = record run { status = AutoApplyRunStatus.cancelled; completed_at = some 9 }

abbrev after_cancel : Store
after_cancel = record batch_store {
  runs = record { rows = cancelled_run ∷ []; next_id = 2 };
  items = record { rows = record item { status = AutoApplyItemStatus.skipped } ∷ []; next_id = 5 };
}

cancels : cancel_run ada 1 9 batch_store ≡ ok (after_cancel, cancelled_run)
unfolding cancel_run owned_run skip_items get_row put_row
cancels = refl

found_run : get 1 batch_store.runs ≡ some run
unfolding get_row
found_run = refl

abbrev handed : AutoApplyItem
handed = record item { status = AutoApplyItemStatus.submitted; attempt_count = 1 }

abbrev after_submit : Store
after_submit = record batch_store {
  applications = record {
    rows =
        record application {
          status = ApplicationStatus.submitted;
          applied_at = some 9;
          last_status_at = 9;
        }
        ∷ [];
    next_id = 2;
  };
  events = record {
    rows =
        record {
          id = 1;
          application_id = 1;
          from_status = some ApplicationStatus.draft;
          to_status = ApplicationStatus.submitted;
          note = "";
        }
        ∷ [];
    next_id = 2;
  };
  runs = record { rows = record run { submitted_count = 1 } ∷ []; next_id = 2 };
  items = record { rows = handed ∷ []; next_id = 5 };
}

submits : mark_item_submitted ada 4 no_details 9 batch_store ≡ ok (after_submit, handed)
unfolding mark_item_submitted owned_run transition_application owned_application status_of
    is_allowed strip lower get_row put_row
submits = refl

found_item : get 4 batch_store.items ≡ some item
unfolding get_row
found_item = refl

item-IsReviewed : IsReviewed item
unfolding IsReviewed
item-IsReviewed = ground arith

mark_item_submitted_lem_example :
    (item_is AutoApplyItemStatus.ready item ≡ true)
    × (item.requires_review ≡ false)
    × (item_is AutoApplyItemStatus.submitted handed ≡ true)
    × (handed.attempt_count ≡ suc item.attempt_count)
mark_item_submitted_lem_example =
    mark_item_submitted_lem ada 4 9 no_details batch_store found_item item-IsReviewed submits

serve_all-AllReviewed_example : AllReviewed (
    serve_all
      ((ada, review_request 4 "typo", 8) ∷ (ada, submit_request 4 no_details, 9) ∷ [])
      batch_store)
serve_all-AllReviewed_example =
    serve_all-AllReviewed
      ((ada, review_request 4 "typo", 8) ∷ (ada, submit_request 4 no_details, 9) ∷ []) batch_store
      (item-IsReviewed, tt)

abbrev waiting : AutoApplyItem
waiting = record item { status = AutoApplyItemStatus.queued; requires_review = true }

abbrev paused_run : AutoApplyRun
paused_run = record run { status = AutoApplyRunStatus.paused }

abbrev paused_store : Store
paused_store = record batch_store {
  runs = record { rows = paused_run ∷ []; next_id = 2 };
  items = record { rows = waiting ∷ []; next_id = 5 };
}

abbrev prepare_job : WorkerJob
prepare_job =
    new_job "auto-apply" "auto_apply_prepare" "{\"item_id\": 4}" 5 (some "auto-apply-item:4") none
      11 1

abbrev started_store : Store
started_store = record paused_store {
  runs = record { rows = run ∷ []; next_id = 2 };
  jobs = record { rows = prepare_job ∷ []; next_id = 2 };
}

starts : start_run ada 1 11 paused_store ≡ ok (started_store, run)
unfolding start_run owned_run enqueue_items enqueue_job new_job prepare_key strip decimal numeral
    get_row put_row
starts = refl

start_run_lem_example : is_taken (strip (prepare_key 4)) started_store.jobs ≡ true
start_run_lem_example = start_run_lem ada 1 11 paused_store starts (Memᴰ.head refl) refl

-- the job was done while the run was paused, and left the item queued
abbrev done_store : Store
done_store = record paused_store {
  jobs = record { rows = complete_job 12 prepare_job ∷ []; next_id = 2 };
}

abbrev restarted_store : Store
restarted_store = record done_store { runs = record { rows = run ∷ []; next_id = 2 } }

restarts : start_run ada 1 13 done_store ≡ ok (restarted_store, run)
unfolding start_run owned_run enqueue_items enqueue_job new_job complete_job prepare_key strip
    decimal numeral get_row put_row
restarts = refl

found_paused : get 1 done_store.runs ≡ some paused_run
unfolding get_row
found_paused = refl

job-IsKnown : All (IsKnown paused_run done_store.jobs) done_store.items.rows
unfolding new_job complete_job prepare_key strip decimal numeral
job-IsKnown = (refl, tt)

restart_adds_nothing_example : restarted_store.jobs ≡ done_store.jobs
restart_adds_nothing_example =
    restart_adds_nothing ada 1 13 done_store found_paused job-IsKnown restarts
