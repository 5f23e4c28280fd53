-- ===== src/Tasks.antt =====
-- What a worker does for a job: app/workers/tasks.py. The catalogue sync, the rescoring and the
-- generation of the CV are arguments, as is the item id that the payload's JSON holds.
pub mod Sessions
pub mod Prepare
mod Examples
use vitae.Accounts.{get_active_profile}
use vitae.Applications.{get_or_create_application}
use vitae.AutoApply.{run_is, item_is}
use vitae.Common.{
  some, Bool, ltb, Option, if◌then◌else◌, str_eq, ◌||◌, none, ◌∷◌, ◌==◌, count_if, true, [], select,
  String, List, ◌&&◌, false, ℕ,
}
use vitae.Common.Outcome.{ok, ◌>>=◌, Outcome, value_error, ◌>>◌, raised, several_rows, Fault}
use vitae.Common.Table.{get, amend, save}
use vitae.Models.{Store}
use vitae.Models.AccountRows.{User, Profile, keyed_user, keyed_profile}
use vitae.Models.ApplicationRows.{Application, keyed_application}
use vitae.Models.AutoApplyRows.{
  AutoApplyRunStatus, AutoApplyItemStatus, AutoApplyRun, AutoApplyItem, keyed_auto_apply_run,
  keyed_auto_apply_item,
}
use vitae.Models.ListingRows.{
  ResumeGeneration, JobListing, ResumeArtifact, keyed_job_listing, keyed_resume_generation,
  keyed_resume_artifact,
}

-- What the generator leaves committed, and what its caller's session then shows.
pub record Generated : Type 0 where
  pub committed : Store
  pub working : Outcome Store

pub record TaskHooks : Type 0 where
  pub sync_public_jobs : Store → Store × Option Fault
  pub rescore_user_jobs : String → Store → Store × Option Fault
  pub generate_resume_files : JobListing → User → Profile → Store → Generated
  pub item_id_of : String → Outcome ℕ

-- a prepared, submitted or skipped item is not prepared again
pub is_settled : AutoApplyItem → Bool
is_settled item =
    item_is AutoApplyItemStatus.ready item
    || item_is AutoApplyItemStatus.needs_review item
    || item_is AutoApplyItemStatus.submitted item
    || item_is AutoApplyItemStatus.skipped item

abbrev pub with_item : ℕ → (AutoApplyItem → AutoApplyItem) → Store → Store
with_item i f s = record s { items = record s.items { rows = amend i f s.items.rows } }

abbrev pub with_run : ℕ → (AutoApplyRun → AutoApplyRun) → Store → Store
with_run i f s = record s { runs = record s.runs { rows = amend i f s.runs.rows } }

-- the user of the run, set to work on the item
abbrev pub enter : ℕ → AutoApplyRun → Store → Outcome (Store × Bool)
enter item_id run s = elim (get run.user_id s.accounts.users) [
  | none ↦ ok (
    with_item item_id
        (λ x. record x {
          status = AutoApplyItemStatus.failed;
          last_error = "Profile is not available";
        })
        s,
    false,
  )
  | some user ↦ do
    (accounts, profile) ← get_active_profile user s.accounts
    ok (
      with_item item_id (λ x. record x { status = AutoApplyItemStatus.preparing })
          (record s { accounts = accounts }),
      true,
    )
]

-- the first session: whether the item is to be prepared
pub begin_prepare : ℕ → Store → Outcome (Store × Bool)
unfolding is_settled
begin_prepare item_id s = elim (get item_id s.items) [
  | none ↦ ok (s, false)
  | some item ↦ if is_settled item then ok (s, false) else elim (get item.run_id s.runs) [
    | none ↦ ok (s, false)
    | some run ↦
        if run_is AutoApplyRunStatus.cancelled run || run_is AutoApplyRunStatus.paused run
        then ok (s, false)
        else enter item_id run s
  ]
]

-- the last generation for the profile and the listing
pub last_generation : ℕ → ℕ → List ResumeGeneration → Option ResumeGeneration
last_generation profile_id listing_id [] = none
last_generation profile_id listing_id (g ∷ gs) =
    let rest = last_generation profile_id listing_id gs in
    if g.profile_id == profile_id && (elim g.listing_id [ none ↦ false | some l ↦ l == listing_id ])
    then (elim rest [
      | none ↦ some g
      | some h ↦ if ltb g.created_at h.created_at then some h else some g
    ])
    else rest

abbrev is_pdf_of : ResumeGeneration → ResumeArtifact → Bool
is_pdf_of g r = r.generation_id == g.id && str_eq r.format "pdf"

-- `.one_or_none()` of the generation's PDF artifacts
pub pdf_of : Option ResumeGeneration → List ResumeArtifact → Outcome (Option ℕ)
pdf_of none artifacts = ok none
pdf_of (some g) artifacts = elim (select (is_pdf_of g) artifacts) [
  | [] ↦ ok none
  | r ∷ rs ↦ elim rs [ [] ↦ ok (some r.id) | _ ∷ _ ↦ raised several_rows ]
]

-- the items that count as prepared
abbrev pub is_prepared : ℕ → AutoApplyItem → Bool
is_prepared run_id x =
    x.run_id == run_id
    && (item_is AutoApplyItemStatus.ready x
        || item_is AutoApplyItemStatus.needs_review x
        || item_is AutoApplyItemStatus.submitted x)

abbrev pub prepared : AutoApplyRun → ℕ → AutoApplyItem → AutoApplyItem
prepared run application_id x = record x {
  application_id = some application_id;
  status =
      (if run.requires_review then AutoApplyItemStatus.needs_review else AutoApplyItemStatus.ready);
  requires_review = run.requires_review;
  review_reason =
      (if run.requires_review
        then "Review generated CV and application answers before submission."
        else "");
}

-- The second session's assignments. The count is read before they are flushed.
pub store_prepared : AutoApplyItem → AutoApplyRun → Application → Option ℕ → Store → Store
store_prepared item run application artifact s =
    let count = count_if (is_prepared run.id) s.items.rows in
    with_run run.id (λ x. record x { prepared_count = count })
      (with_item item.id (prepared run application.id) (record s {
        applications = save (record application { resume_artifact_id = artifact }) s.applications;
      }))

pub finish_prepare :
    AutoApplyItem → AutoApplyRun → User → Profile → JobListing → ℕ → Store → Outcome Store
unfolding last_generation pdf_of store_prepared
finish_prepare item run user profile job now s = do
  (t, application) ← get_or_create_application user job.id "auto_apply" now s
  artifact ← pdf_of (last_generation profile.id job.id t.generations.rows) t.artifacts.rows
  ok (store_prepared item run application artifact t)

-- the run, its user and the listing of an item
abbrev pub context : AutoApplyItem → Store → Outcome (AutoApplyRun × User × JobListing)
context item s = elim (get item.run_id s.runs) [
  | none ↦ raised value_error
  | some run ↦ elim (get run.user_id s.accounts.users) [
    | none ↦ raised value_error
    | some user ↦ elim (get item.listing_id s.listings) [
      | none ↦ raised value_error
      | some job ↦ ok (run, user, job)
    ]
  ]
]

abbrev pub generate_then :
    TaskHooks → AutoApplyItem → AutoApplyRun → User → Profile → JobListing → ℕ → Store → Generated
generate_then hooks item run user profile job now s =
    let g = hooks.generate_resume_files job user profile s in
    record {
      committed = g.committed;
      working = g.working >>= finish_prepare item run user profile job now;
    }

-- an exception in the session before the generator has committed anything
abbrev pub lost : Store → Fault → Generated
lost s f = record { committed = s; working = raised f }

-- the second session
pub generate_item : TaskHooks → ℕ → ℕ → Store → Generated
unfolding finish_prepare
generate_item hooks item_id now s = elim (get item_id s.items) [
  | none ↦ record { committed = s; working = ok s }
  | some item ↦ elim (context item s) [
    | raised f ↦ lost s f
    | ok found ↦ elim (get_active_profile found.1 s.accounts) [
      | raised f ↦ lost s f
      | ok r ↦
          generate_then hooks item found.0 found.1 r.1 found.2 now (record s { accounts = r.0 })
    ]
  ]
]

-- The session after an exception. The count is read before the item's status is flushed.
pub mark_failed : ℕ → Store → Store
mark_failed item_id s = elim (get item_id s.items) [
  | none ↦ s
  | some item ↦
      let count =
        count_if (λ x. x.run_id == item.run_id && item_is AutoApplyItemStatus.failed x)
          s.items.rows in
      with_run item.run_id (λ x. record x { failed_count = count })
        (with_item item_id
          (λ x. record x {
            status = AutoApplyItemStatus.failed;
            last_error = "Preparation failed. Retry the item.";
          })
          s)
]

-- `_prepare_auto_apply_item`: the store that it leaves, and the exception that it raises
pub prepare_auto_apply_item : TaskHooks → ℕ → ℕ → Store → Store × Option Fault
unfolding generate_item
prepare_auto_apply_item hooks item_id now s = elim (begin_prepare item_id s) [
  | raised f ↦ (s, some f)
  | ok r ↦
      let g = generate_item hooks item_id now r.0 in
      if r.1
      then (elim g.working [
        | ok t ↦ (t, none)
        | raised f ↦ (mark_failed item_id g.committed, some f)
      ])
      else (r.0, none)
]

unfoldable pub execute_job : TaskHooks → String → String → ℕ → Store → Store × Option Fault
execute_job hooks kind payload now s =
    if str_eq kind "catalogue_sync"
    then hooks.sync_public_jobs s
    else if str_eq kind "user_rescore"
    then hooks.rescore_user_jobs payload s
    else if str_eq kind "auto_apply_prepare"
    then (elim (hooks.item_id_of payload) [
      | raised f ↦ (s, some f)
      | ok item_id ↦ prepare_auto_apply_item hooks item_id now s
    ])
    else (s, some value_error)
