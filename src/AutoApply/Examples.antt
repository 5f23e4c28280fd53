-- ===== src/AutoApply/Examples.antt =====
-- A batch for one listing.
use vitae.Accounts.{get_active_profile, default_profile, ensure_account}
use vitae.Applications.{new_application, get_or_create_application}
use vitae.AutoApply.{dedupe, new_run, add_items, has_run_key, create_run, is_available}
use vitae.Common.{refl, find_first, ◌≡◌, true, none, [], ◌∷◌}
use vitae.Common.Outcome.{Outcome, ok, raised}
use vitae.Common.Table.{get_row, put_row, lowest}
use vitae.Common.Text.{strip, or_text}
use vitae.Drafts.{listing_accessible, load_apply_draft}
use vitae.Models.{Store}
use vitae.Models.AutoApplyRows.{AutoApplyRunStatus, AutoApplyRun, keyed_auto_apply_run}
use vitae.Resumes.{latest_resume_artifact}
use vitae.Samples.{ada, empty_store, run}

abbrev answer_store {ℓ} : {A : Type ℓ} → Outcome (Store × A) → Store
answer_store (ok r) = r.0
answer_store (raised f) = empty_store

abbrev made : AutoApplyRun
made = record run {
  status = AutoApplyRunStatus.queued;
  max_applications = 2;
  idempotency_key = "key";
  started_at = none;
}

abbrev after : Store
after = (answer_store (create_run ada (5 ∷ 5 ∷ []) 2 true " key " "made-up" 30 empty_store))

creates_run : create_run ada (5 ∷ 5 ∷ []) 2 true " key " "made-up" 30 empty_store ≡ ok (after, made)
unfolding create_run add_items new_run dedupe get_or_create_application get_active_profile
    ensure_account default_profile load_apply_draft listing_accessible latest_resume_artifact
    new_application is_available strip get_row put_row lowest
creates_run = refl

first_key :
    find_first (has_run_key (or_text (strip " key ") "made-up")) empty_store.runs.rows ≡ none
first_key = refl
