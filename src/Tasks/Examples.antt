-- ===== src/Tasks/Examples.antt =====
-- The preparation of an item, by hooks that generate nothing.
use vitae.Accounts.{ensure_account, get_active_profile, default_profile}
use vitae.Applications.{get_or_create_application}
use vitae.AutoApply.{item_rank, run_is}
use vitae.Batches.Items.{IsReviewed}
use vitae.Batches.Safe.{AllReviewed}
use vitae.Common.{◌≡◌, map, arith, ◌∷◌, refl, [], some, true, ◌||◌, none}
use vitae.Common.Outcome.{ok}
use vitae.Common.Table.{lowest, get, get_row, amend, put_row}
use vitae.Models.{Store}
use vitae.Models.AutoApplyRows.{
  keyed_auto_apply_run, keyed_auto_apply_item, AutoApplyRunStatus, AutoApplyItemStatus,
  AutoApplyItem, AutoApplyRun,
}
use vitae.Samples.{batch_store, item, run}
use vitae.Tasks.{
  prepare_auto_apply_item, is_settled, begin_prepare, TaskHooks, execute_job, generate_item,
}
use vitae.Tasks.Prepare.{prepare-AllReviewed, KeepsItems}

abbrev hooks : TaskHooks
hooks = record {
  sync_public_jobs = λ s. (s, none);
  rescore_user_jobs = λ payload s. (s, none);
  generate_resume_files = λ l u p s. record { committed = s; working = ok s };
  item_id_of = λ payload. ok 4;
}

hooks-KeepItems : KeepsItems hooks
hooks-KeepItems = record {
  committed_items = λ l u p s. refl;
  working_items = λ l u p s t e. ground (arith, e);
}

abbrev waiting : AutoApplyItem
waiting = record item { status = AutoApplyItemStatus.queued; requires_review = true }

abbrev store : Store
store = record batch_store { items = record { rows = waiting ∷ []; next_id = 5 } }

prepares :
    map
      (λ (x : AutoApplyItem). item_rank x.status)
      (execute_job hooks "auto_apply_prepare" "{\"item_id\": 4}" 9 store).0.items.rows
    ≡ 6 ∷ []
unfolding execute_job prepare_auto_apply_item begin_prepare generate_item get_or_create_application
    get_active_profile ensure_account default_profile get_row put_row lowest amend
prepares = refl

waiting-IsReviewed : IsReviewed waiting
unfolding IsReviewed
waiting-IsReviewed = ground arith

prepare-AllReviewed_example : AllReviewed (prepare_auto_apply_item hooks 4 9 store).0
prepare-AllReviewed_example =
    prepare-AllReviewed hooks 4 9 store hooks-KeepItems (waiting-IsReviewed, tt)

abbrev paused_run : AutoApplyRun
paused_run = record run { status = AutoApplyRunStatus.paused }

abbrev paused_store : Store
paused_store = record store { runs = record { rows = paused_run ∷ []; next_id = 2 } }

found_item : get 4 paused_store.items ≡ some waiting
unfolding get_row
found_item = refl

found_run : get 1 paused_store.runs ≡ some paused_run
unfolding get_row
found_run = refl

is_idle :
    (is_settled waiting
      || run_is AutoApplyRunStatus.cancelled paused_run
      || run_is AutoApplyRunStatus.paused paused_run)
    ≡ true
unfolding is_settled
is_idle = refl
