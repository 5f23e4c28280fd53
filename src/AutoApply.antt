-- ===== src/AutoApply.antt =====
-- Auto-apply batches: app/auto_apply.py. The clock's reading and a run's made-up idempotency key (of a new
-- UUID) are arguments.
pub mod Create
mod Examples
use vitae.Accounts.{get_active_profile}
use vitae.Applications.{get_or_create_application}
use vitae.Common.{
  take, false, if◌then◌else◌, ◌&&◌, min, [], find_first, ℕ, str_eq, not, some, ◌∷◌, ◌||◌, length,
  select, ltb, max, ◌==◌, Bool, List, String, none, count_if,
}
use vitae.Common.Outcome.{ok, ◌>>=◌, permission_error, require, Outcome, value_error, ◌>>◌, raised}
use vitae.Common.Table.{insert, Table, get}
use vitae.Common.Text.{strip, or_text}
use vitae.Models.{Store}
use vitae.Models.AccountRows.{User, Profile, keyed_profile, keyed_user}
use vitae.Models.AutoApplyRows.{
  AutoApplyRunStatus, AutoApplyItemStatus, AutoApplyRun, AutoApplyItem, keyed_auto_apply_item,
  keyed_auto_apply_run,
}
use vitae.Models.ListingRows.{JobListing, keyed_job_listing}

abbrev pub run_rank : AutoApplyRunStatus → ℕ
run_rank AutoApplyRunStatus.queued = 0
run_rank AutoApplyRunStatus.running = 1
run_rank AutoApplyRunStatus.paused = 2
run_rank AutoApplyRunStatus.completed = 3
run_rank AutoApplyRunStatus.failed = 4
run_rank AutoApplyRunStatus.cancelled = 5

abbrev pub run_is : AutoApplyRunStatus → AutoApplyRun → Bool
run_is s run = run_rank run.status == run_rank s

abbrev pub item_rank : AutoApplyItemStatus → ℕ
item_rank AutoApplyItemStatus.queued = 0
item_rank AutoApplyItemStatus.preparing = 1
item_rank AutoApplyItemStatus.ready = 2
item_rank AutoApplyItemStatus.submitted = 3
item_rank AutoApplyItemStatus.skipped = 4
item_rank AutoApplyItemStatus.failed = 5
item_rank AutoApplyItemStatus.needs_review = 6

abbrev pub item_is : AutoApplyItemStatus → AutoApplyItem → Bool
item_is s item = item_rank item.status == item_rank s

-- `COMPLETED`, `FAILED` or `CANCELLED`
abbrev pub is_over : AutoApplyRun → Bool
is_over run =
    run_is AutoApplyRunStatus.completed run
    || run_is AutoApplyRunStatus.failed run
    || run_is AutoApplyRunStatus.cancelled run

-- `_owned_run`
unfoldable pub owned_run : User → ℕ → Table AutoApplyRun → Outcome AutoApplyRun
owned_run user i t = elim (get i t) [
  | none ↦ raised permission_error
  | some run ↦ if run.user_id == user.id then ok run else raised permission_error
]

-- the item and its run, if the run is the user's
abbrev pub owned_item : User → ℕ → Store → Outcome (AutoApplyItem × AutoApplyRun)
owned_item user i s = elim (get i s.items) [
  | none ↦ raised permission_error
  | some item ↦ do run ← owned_run user item.run_id s.runs; ok (item, run)
]

-- `list(dict.fromkeys(ids))`: the first of each id
pub dedupe : List ℕ → List ℕ
dedupe [] = []
dedupe (x ∷ xs) = x ∷ select (λ y. not (y == x)) (dedupe xs)

-- `max(1, min(n, 100))`
abbrev pub clamp_applications : ℕ → ℕ
clamp_applications n = max 1 (min n 100)

-- whether the listing exists and a user may put it in a run
pub is_available : User → Table JobListing → ℕ → Bool
is_available user t i = elim (get i t) [
  | none ↦ false
  | some l ↦
      not (
        str_eq l.visibility "private"
        && not (elim l.owner_user_id [ none ↦ false | some o ↦ o == user.id ]))
      && not (str_eq l.visibility "public" && not l.is_active)
]

pub new_run : User → Profile → ℕ → Bool → String → ℕ → AutoApplyRun
new_run user profile limit requires_review key i = record {
  id = i;
  user_id = user.id;
  profile_id = profile.id;
  status = AutoApplyRunStatus.queued;
  max_applications = limit;
  prepared_count = 0;
  submitted_count = 0;
  failed_count = 0;
  requires_review = requires_review;
  idempotency_key = key;
  started_at = none;
  completed_at = none;
}

pub new_item : AutoApplyRun → ℕ → ℕ → ℕ → AutoApplyItem
new_item run application_id listing_id i = record {
  id = i;
  run_id = run.id;
  application_id = some application_id;
  listing_id = listing_id;
  status = AutoApplyItemStatus.queued;
  attempt_count = 0;
  requires_review = run.requires_review;
  review_reason = "";
  last_error = "";
}

-- one application and one item for each listing
pub add_items : User → AutoApplyRun → ℕ → List ℕ → Store → Outcome Store
unfolding new_item
add_items user run now [] s = ok s
add_items user run now (i ∷ is) s = do
  (t, application) ← get_or_create_application user i "auto_apply" now s
  add_items user run now is (record t { items = insert (new_item run application.id i) t.items })

abbrev pub has_run_key : String → AutoApplyRun → Bool
has_run_key key run = str_eq run.idempotency_key key

-- the run for listings that have been looked through
abbrev pub open_run :
    User → Profile → ℕ → Bool → String → ℕ → List ℕ → Store → Outcome (Store × AutoApplyRun)
open_run user profile limit requires_review key now ids s = do
  let run = new_run user profile limit requires_review key s.runs.next_id
  after ←
      add_items user run now ids
        (record s { runs = insert (new_run user profile limit requires_review key) s.runs })
  ok (after, run)

-- the listing ids that a request names, without repetitions and no more than the limit
abbrev pub chosen : List ℕ → ℕ → List ℕ
chosen listing_ids max_applications =
    take (clamp_applications max_applications) (dedupe listing_ids)

unfoldable pub create_run :
    User → List ℕ → ℕ → Bool → String → String → ℕ → Store → Outcome (Store × AutoApplyRun)
unfolding dedupe is_available
create_run user listing_ids max_applications requires_review idempotency_key made_up now before = do
  (accounts, profile) ← get_active_profile user before.accounts
  let s = record before { accounts = accounts }
  let key = or_text (strip idempotency_key) made_up
  let ids = chosen listing_ids max_applications
  elim (find_first (has_run_key key) s.runs.rows) [
    | some run ↦ if run.user_id == user.id then ok (s, run) else raised permission_error
    | none ↦ do
      require (ltb 0 (length ids)) value_error
      require (count_if (λ i. not (is_available user s.listings i)) ids == 0) value_error
      open_run user profile (clamp_applications max_applications) requires_review key now ids s
  ]
