-- ===== src/Tasks/Prepare.antt =====
-- What the preparation of an auto-apply item (`_prepare_auto_apply_item` of app/workers/tasks.py) keeps,
-- and when it does nothing.
use vitae.Accounts.{get_active_profile}
use vitae.AutoApply.{run_is}
use vitae.Batches.Items.{IsReviewed}
use vitae.Batches.Safe.{AllReviewed}
use vitae.Common.{
  none, ◌||◌, true, arith, ℕ, some, ◌≡◌, inl, subst, Option-cases, All, inr, Bool, refl, sym, false,
}
use vitae.Common.Outcome.{ok, >>=-eq-ok, raised, Fault, Outcome}
use vitae.Common.Table.{get, Table}
use vitae.Models.{Store}
use vitae.Models.AccountRows.{Profile, User, keyed_user, keyed_profile, Accounts}
use vitae.Models.ApplicationRows.{keyed_application}
use vitae.Models.AutoApplyRows.{
  AutoApplyRunStatus, AutoApplyItem, AutoApplyRun, keyed_auto_apply_run, keyed_auto_apply_item,
}
use vitae.Models.ListingRows.{JobListing, keyed_job_listing}
use vitae.Tasks.{
  prepare_auto_apply_item, is_settled, mark_failed, begin_prepare, TaskHooks, finish_prepare,
  context, lost, Generated, generate_then, generate_item,
}
use vitae.Tasks.Sessions.{
  begin_prepare-AllReviewed, mark_failed-AllReviewed, finish_prepare-AllReviewed,
}

-- The generator writes no item: what it commits, and what its session shows, hold the items there were.
pub record KeepsItems (hooks : TaskHooks) : Type 0 where
  pub committed_items :
      (l : JobListing) (u : User) (p : Profile) (s : Store)
      → (hooks.generate_resume_files l u p s).committed.items ≡ s.items
  pub working_items :
      (l : JobListing) (u : User) (p : Profile) (s t : Store)
      → (hooks.generate_resume_files l u p s).working ≡ ok t
      → t.items ≡ s.items

-- Where the item is already prepared, handed in or skipped, or its run is cancelled or paused, the preparation
-- changes nothing and reports no failure.
pub prepare_idle :
    (hooks : TaskHooks) (i now : ℕ) (s : Store) {item : AutoApplyItem} {run : AutoApplyRun}
    → get i s.items ≡ some item
    → get item.run_id s.runs ≡ some run
    → (is_settled item
        || run_is AutoApplyRunStatus.cancelled run
        || run_is AutoApplyRunStatus.paused run)
      ≡ true
    → prepare_auto_apply_item hooks i now s ≡ (s, none)
unfolding prepare_auto_apply_item begin_prepare
prepare_idle hooks i now s {item} {run} there run_there idle =
    ground (arith, there, run_there, idle)

-- what is committed and what is shown are reviewed
abbrev AreReviewed : Generated → Type 0
AreReviewed g = AllReviewed g.committed × ((t : Store) → g.working ≡ ok t → AllReviewed t)

lost-AreReviewed : (s : Store) (f : Fault) → AllReviewed s → AreReviewed (lost s f)
lost-AreReviewed s f h = (h, λ t e. absurd (ground (arith, e)))

generate_then-AreReviewed :
    (hooks : TaskHooks) (item : AutoApplyItem) (run : AutoApplyRun) (user : User)
    (profile : Profile) (job : JobListing) (now : ℕ) (s : Store)
    → KeepsItems hooks
    → AllReviewed s
    → AreReviewed (generate_then hooks item run user profile job now s)
generate_then-AreReviewed hooks item run user profile job now s keeps h = (
  subst (λ (k : Table AutoApplyItem). All IsReviewed k.rows)
      (sym (keeps.committed_items job user profile s)) h,
  λ t e.
      let (shown, made, e1) =
        >>=-eq-ok (hooks.generate_resume_files job user profile s).working
          (finish_prepare item run user profile job now) e in
      finish_prepare-AllReviewed item run user profile job now shown {after = t}
        (subst (λ (k : Table AutoApplyItem). All IsReviewed k.rows)
          (sym (keeps.working_items job user profile s shown made)) h)
        e1,
)

generate_item-AreReviewed :
    (hooks : TaskHooks) (i now : ℕ) (s : Store)
    → KeepsItems hooks
    → AllReviewed s
    → AreReviewed (generate_item hooks i now s)
unfolding generate_item
generate_item-AreReviewed hooks i now s keeps h = elim (Option-cases (get i s.items)) [
  | inl z ↦
      subst AreReviewed {x = record { committed = s; working = ok s }}
        {y = generate_item hooks i now s} (ground (arith, z))
        (h, λ t e. subst AllReviewed {x = s} {y = t} (ground (arith, e)) h)
  | inr (item, z) ↦ go item z (context item s) refl
]
  where
    active :
        (item : AutoApplyItem)
        → get i s.items ≡ some item
        → (c : AutoApplyRun × User × JobListing) → context item s ≡ ok c
        → (o : Outcome (Accounts × Profile)) → get_active_profile c.1 s.accounts ≡ o
        → AreReviewed (generate_item hooks i now s)
    active item z c e (raised f) k =
        subst AreReviewed {x = lost s f} {y = generate_item hooks i now s} (ground (arith, z, e, k))
          (lost-AreReviewed s f h)
    active item z c e (ok r) k =
        subst AreReviewed
          {x = generate_then hooks item c.0 c.1 r.1 c.2 now (record s { accounts = r.0 })}
          {y = generate_item hooks i now s} (ground (arith, z, e, k))
          (generate_then-AreReviewed hooks item c.0 c.1 r.1 c.2 now (record s { accounts = r.0 })
            keeps h)

    go :
        (item : AutoApplyItem)
        → get i s.items ≡ some item
        → (o : Outcome (AutoApplyRun × User × JobListing)) → context item s ≡ o
        → AreReviewed (generate_item hooks i now s)
    go item z (raised f) e =
        subst AreReviewed {x = lost s f} {y = generate_item hooks i now s} (ground (arith, z, e))
          (lost-AreReviewed s f h)
    go item z (ok c) e = active item z c e (get_active_profile c.1 s.accounts) refl

-- Where the generator writes no item, and every item under review asks for it and every ready item
-- does not, they still do after the preparation of an item, however it ends.
pub prepare-AllReviewed :
    (hooks : TaskHooks) (i now : ℕ) (s : Store)
    → KeepsItems hooks
    → AllReviewed s
    → AllReviewed (prepare_auto_apply_item hooks i now s).0
unfolding prepare_auto_apply_item
prepare-AllReviewed hooks i now s keeps h = begun (begin_prepare i s) refl
  where
    after : Store
    after = (prepare_auto_apply_item hooks i now s).0

    ended :
        (t : Store)
        → begin_prepare i s ≡ ok (t, true)
        → AllReviewed t
        → (o : Outcome Store) → (generate_item hooks i now t).working ≡ o
        → AllReviewed after
    ended t e all (raised f) k =
        subst AllReviewed {x = mark_failed i (generate_item hooks i now t).committed} {y = after}
          (ground (arith, e, k))
          (mark_failed-AllReviewed i (generate_item hooks i now t).committed
            (generate_item-AreReviewed hooks i now t keeps all).0)
    ended t e all (ok u) k =
        subst AllReviewed {x = u} {y = after} (ground (arith, e, k))
          ((generate_item-AreReviewed hooks i now t keeps all).1 u k)

    begun : (o : Outcome (Store × Bool)) → begin_prepare i s ≡ o → AllReviewed after
    begun (raised f) e = subst AllReviewed {x = s} {y = after} (ground (arith, e)) h
    begun (ok (t, false)) e =
        subst AllReviewed {x = t} {y = after} (ground (arith, e))
          (begin_prepare-AllReviewed i s {r = (t, false)} h e)
    begun (ok (t, true)) e =
        ended t e (begin_prepare-AllReviewed i s {r = (t, true)} h e)
          (generate_item hooks i now t).working refl
