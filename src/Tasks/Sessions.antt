-- ===== src/Tasks/Sessions.antt =====
-- The sessions of `_prepare_auto_apply_item` (app/workers/tasks.py), one by one, and the review of the items.
use mathlib.Core.Path.{subst}
use vitae.Accounts.{get_active_profile}
use vitae.Applications.{get_or_create_application}
use vitae.AutoApply.{run_is}
use vitae.AutoApply.Create.{get_or_create_application-items}
use vitae.Batches.Items.{IsReviewed}
use vitae.Batches.Safe.{AllReviewed}
use vitae.Common.{
  inr, inl, Option, All, Bool, String, ◌||◌, ◌≡◌, Option-cases, ℕ, Bool-cases, true, arith,
}
use vitae.Common.Outcome.{ok, ◌>>=◌, >>=-eq-ok}
use vitae.Common.Table.{All-amend, Table, amend, get}
use vitae.Models.{Store}
use vitae.Models.AccountRows.{Profile, User, keyed_user, keyed_profile}
use vitae.Models.ApplicationRows.{Application, keyed_application}
use vitae.Models.AutoApplyRows.{
  AutoApplyRunStatus, AutoApplyItemStatus, AutoApplyRun, AutoApplyItem, keyed_auto_apply_run,
  keyed_auto_apply_item,
}
use vitae.Models.ListingRows.{JobListing, keyed_job_listing}
use vitae.Tasks.{
  store_prepared, is_settled, enter, mark_failed, finish_prepare, begin_prepare, last_generation,
  with_item, pdf_of, prepared,
}

prepared-IsReviewed :
    (run : AutoApplyRun) (a : ℕ) (x : AutoApplyItem) → IsReviewed (prepared run a x)
unfolding IsReviewed
prepared-IsReviewed run a x = ground arith

failed-IsReviewed :
    (e : String) (x : AutoApplyItem)
    → IsReviewed (record x { status = AutoApplyItemStatus.failed; last_error = e })
unfolding IsReviewed
failed-IsReviewed e x = ground arith

preparing-IsReviewed :
    (x : AutoApplyItem) → IsReviewed (record x { status = AutoApplyItemStatus.preparing })
unfolding IsReviewed
preparing-IsReviewed x = ground arith

pub mark_failed-AllReviewed : (i : ℕ) (s : Store) → AllReviewed s → AllReviewed (mark_failed i s)
unfolding mark_failed
mark_failed-AllReviewed i s h = elim (Option-cases (get i s.items)) [
  | inl e ↦ subst AllReviewed {x = s} {y = mark_failed i s} (ground (arith, e)) h
  | inr (x, e) ↦
      let rows : amend i
            (λ y. record y {
              status = AutoApplyItemStatus.failed;
              last_error = "Preparation failed. Retry the item.";
            })
            s.items.rows
          ≡ (mark_failed i s).items.rows =
        ground (arith, e) in
      subst (All IsReviewed) rows (
        All-amend IsReviewed i _ s.items.rows
          (λ y r. failed-IsReviewed "Preparation failed. Retry the item." y) h)
]

enter-AllReviewed :
    (i : ℕ) (run : AutoApplyRun) (s : Store) {r : Store × Bool}
    → AllReviewed s
    → enter i run s ≡ ok r
    → AllReviewed r.0
enter-AllReviewed i run s {r} h e = elim (Option-cases (get run.user_id s.accounts.users)) [
  | inl z ↦
      let rows : amend i
            (λ y. record y {
              status = AutoApplyItemStatus.failed;
              last_error = "Profile is not available";
            })
            s.items.rows
          ≡ r.0.items.rows =
        ground (arith, e, z) in
      subst (All IsReviewed) rows (
        All-amend IsReviewed i _ s.items.rows
          (λ y q. failed-IsReviewed "Profile is not available" y) h)
  | inr (user, z) ↦
      let rest : (get_active_profile user s.accounts >>= λ x. ok (
        with_item i (λ y. record y { status = AutoApplyItemStatus.preparing })
            (record s { accounts = x.0 }),
        true,
      ))
          ≡ ok r =
        ground (arith, e, z) in
      let (x, found, e1) = >>=-eq-ok (get_active_profile user s.accounts) _ rest in
      let rows : amend i (λ y. record y { status = AutoApplyItemStatus.preparing }) s.items.rows
          ≡ r.0.items.rows =
        ground (arith, e1) in
      subst (All IsReviewed) rows
        (All-amend IsReviewed i _ s.items.rows (λ y q. preparing-IsReviewed y) h)
]

pub begin_prepare-AllReviewed :
    (i : ℕ) (s : Store) {r : Store × Bool}
    → AllReviewed s
    → begin_prepare i s ≡ ok r
    → AllReviewed r.0
unfolding begin_prepare
begin_prepare-AllReviewed i s {r} h e = elim (Option-cases (get i s.items)) [
  | inl z ↦ subst AllReviewed {x = s} {y = r.0} (ground (arith, e, z)) h
  | inr (x, z) ↦ elim (Bool-cases (is_settled x)) [
    | inl y ↦ subst AllReviewed {x = s} {y = r.0} (ground (arith, e, z, y)) h
    | inr y ↦ elim (Option-cases (get x.run_id s.runs)) [
      | inl w ↦ subst AllReviewed {x = s} {y = r.0} (ground (arith, e, z, y, w)) h
      | inr (run, w) ↦
          elim (Bool-cases
            (run_is AutoApplyRunStatus.cancelled run || run_is AutoApplyRunStatus.paused run)) [
              | inl v ↦ subst AllReviewed {x = s} {y = r.0} (ground (arith, e, z, y, w, v)) h
              | inr v ↦ enter-AllReviewed i run s {r = r} h (ground (arith, e, z, y, w, v))
            ]
    ]
  ]
]

store_prepared-AllReviewed :
    (item : AutoApplyItem) (run : AutoApplyRun) (a : Application) (artifact : Option ℕ) (s : Store)
    → AllReviewed s
    → AllReviewed (store_prepared item run a artifact s)
unfolding store_prepared
store_prepared-AllReviewed item run a artifact s h =
    All-amend IsReviewed item.id (prepared run a.id) s.items.rows
      (λ y q. prepared-IsReviewed run a.id y) h

pub finish_prepare-AllReviewed :
    (item : AutoApplyItem) (run : AutoApplyRun) (user : User) (profile : Profile) (job : JobListing)
    (now : ℕ) (s : Store) {after : Store}
    → AllReviewed s
    → finish_prepare item run user profile job now s ≡ ok after
    → AllReviewed after
unfolding finish_prepare
finish_prepare-AllReviewed item run user profile job now s {after} h e =
    let ((t, application), made, e1) =
      >>=-eq-ok (get_or_create_application user job.id "auto_apply" now s) _ e in
    let (artifact, read, e2) =
      >>=-eq-ok (pdf_of (last_generation profile.id job.id t.generations.rows) t.artifacts.rows) _
        e1 in
    let kept =
      subst (λ (k : Table AutoApplyItem). All IsReviewed k.rows)
        (get_or_create_application-items user job.id "auto_apply" now s {r = (t, application)} made)
        h in
    subst AllReviewed {x = store_prepared item run application artifact t} {y = after}
      (ground (arith, e2)) (store_prepared-AllReviewed item run application artifact t kept)
