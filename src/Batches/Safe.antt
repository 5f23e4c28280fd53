-- ===== src/Batches/Safe.antt =====
-- Each request on an auto-apply batch (app/auto_apply.py) keeps the review of the items.
use mathlib.Core.Path.{subst, sym, ap}
use vitae.Accounts.{get_active_profile}
use vitae.Applications.{transition_application, Details, owned_application}
use vitae.Applications.Chronicle.{transition_cases}
use vitae.AutoApply.{owned_run, item_is, is_over, owned_item, has_run_key, create_run}
use vitae.AutoApply.Create.{create_run_lem, IsNewItem}
use vitae.Batches.{
  cancel_run, approve_item, pause_run, mark_item_review, handed_in, start_run, mark_item_submitted,
  give_up,
}
use vitae.Batches.Items.{skip_items-IsReviewed, IsReviewed}
use vitae.Common.{
  ℕ, refl, ◌&&◌, String, inr, Bool, Bool-cases, All-append, if◌then◌else◌, ◌≡◌, inl, ◌==◌, arith,
  Option-cases, Option, ◌||◌, some, find_first, All, All-map, not, is_some, false, true, none, List,
}
use vitae.Common.Outcome.{value_error, raised, require, ◌>>=◌, Fault, Outcome, ◌>>◌, >>=-eq-ok, ok}
use vitae.Common.Table.{All-put_row, Table}
use vitae.Common.Text.{or_text, strip}
use vitae.Models.{Store}
use vitae.Models.AccountRows.{User, keyed_user}
use vitae.Models.ApplicationRows.{Application, keyed_application}
use vitae.Models.AutoApplyRows.{
  AutoApplyItemStatus, AutoApplyItem, AutoApplyRun, keyed_auto_apply_run, keyed_auto_apply_item,
}

-- every item under review asks for it, and no ready item does
abbrev pub AllReviewed : Store → Type 0
AllReviewed s = All IsReviewed s.items.rows

-- an outcome whose store, if there is one, is reviewed
unfoldable pub Safe {ℓ} : {A : Type ℓ} → Outcome (Store × A) → Type 0
Safe (raised f) = Unit
Safe (ok r) = AllReviewed r.0

ok-Safe {ℓ} : {A : Type ℓ} (r : Store × A) → AllReviewed r.0 → Safe (ok r)
unfolding Safe
ok-Safe r h = h

-- what is safe wherever the step before it succeeds
bind-Safe {ℓ κ} :
    {A : Type ℓ} {B : Type κ} (m : Outcome A) (f : A → Outcome (Store × B))
    → ((a : A) → m ≡ ok a → Safe (f a))
    → Safe (m >>= f)
unfolding Safe
bind-Safe (raised e) f h = tt
bind-Safe (ok a) f h = h a refl

require-Safe {ℓ} :
    {A : Type ℓ} (t : Bool) (f : Fault) (k : Outcome (Store × A)) → Safe k → Safe (require t f >> k)
unfolding Safe
require-Safe true f k h = h
require-Safe false f k h = tt

pub start_run-Safe :
    (user : User) (i now : ℕ) (s : Store) → AllReviewed s → Safe (start_run user i now s)
unfolding start_run
start_run-Safe user i now s h =
    bind-Safe (owned_run user i s.runs) _ (λ run e. require-Safe _ value_error _ (ok-Safe _ h))

pub pause_run-Safe : (user : User) (i : ℕ) (s : Store) → AllReviewed s → Safe (pause_run user i s)
unfolding pause_run
pause_run-Safe user i s h =
    bind-Safe (owned_run user i s.runs) _ (λ run e. require-Safe _ value_error _ (ok-Safe _ h))

if-Safe {ℓ} :
    {A : Type ℓ} (t : Bool) (x y : Store × A)
    → AllReviewed x.0
    → AllReviewed y.0
    → AllReviewed (if t then x else y).0
if-Safe true x y hx hy = hx
if-Safe false x y hx hy = hy

pub cancel_run-Safe :
    (user : User) (i now : ℕ) (s : Store) → AllReviewed s → Safe (cancel_run user i now s)
unfolding cancel_run
cancel_run-Safe user i now s h = bind-Safe (owned_run user i s.runs) _ (λ run e. ok-Safe _ (
    if-Safe (is_over run) (s, run) (give_up run now s) h
      (skip_items-IsReviewed run.id s.items.rows h)))

pub mark_item_review-Safe :
    (user : User) (i : ℕ) (reason : String) (s : Store)
    → AllReviewed s
    → Safe (mark_item_review user i reason s)
unfolding mark_item_review IsReviewed
mark_item_review-Safe user i reason s h = bind-Safe (owned_item user i s) _ (λ r e.
    require-Safe _ value_error _
      (ok-Safe _ (All-put_row IsReviewed _ s.items.rows (ground arith) h)))

pub approve_item-Safe :
    (user : User) (i : ℕ) (s : Store) → AllReviewed s → Safe (approve_item user i s)
unfolding approve_item IsReviewed
approve_item-Safe user i s h = bind-Safe (owned_item user i s) _ (λ r e.
    require-Safe _ value_error _ (
      require-Safe _ value_error _
        (ok-Safe _ (All-put_row IsReviewed _ s.items.rows (ground arith) h))))

transition_application-items :
    (user : User) (i : ℕ) (to : String) (d : Details) (now : ℕ) (s : Store)
    {r : Store × Application}
    → transition_application user i to d now s ≡ ok r
    → s.items ≡ r.0.items
unfolding transition_application
transition_application-items user i to d now s {r} h =
    let (row, found, h1) = >>=-eq-ok (owned_application user i s.applications) _ h in
    elim (transition_cases row to d now s {r = r} h1) [
      | inl e ↦ ap (λ (t : Store). t.items) e
      | inr (target, legal, e) ↦ ap (λ (t : Store). t.items) e
    ]

handed_in-Safe :
    (item : AutoApplyItem) (run : AutoApplyRun) (s : Store)
    → AllReviewed s
    → AllReviewed (handed_in item run s).0
unfolding IsReviewed
handed_in-Safe item run s h =
    All-put_row IsReviewed (handed_in item run s).1 s.items.rows (ground arith) h

submit_with-Safe :
    (user : User) (now : ℕ) (d : Details) (s : Store) (x : AutoApplyItem) (run : AutoApplyRun)
    (application : Option ℕ)
    → AllReviewed s
    → Safe {A = AutoApplyItem} (elim application [
      | none ↦ raised value_error
      | some a ↦ transition_application user a "submitted" d now s >>= λ t. ok (handed_in x run t.0)
    ])
unfolding Safe
submit_with-Safe user now d s x run none h = tt
submit_with-Safe user now d s x run (some a) h =
    bind-Safe (transition_application user a "submitted" d now s) (λ t. ok (handed_in x run t.0))
      (λ t e. ok-Safe (handed_in x run t.0) (
        handed_in-Safe x run t.0 (
          subst (λ (k : Table AutoApplyItem). All IsReviewed k.rows)
            (transition_application-items user a "submitted" d now s {r = t} e) h)))

pub mark_item_submitted-Safe :
    (user : User) (i : ℕ) (d : Details) (now : ℕ) (s : Store)
    → AllReviewed s
    → Safe (mark_item_submitted user i d now s)
unfolding mark_item_submitted
mark_item_submitted-Safe user i d now s h = bind-Safe (owned_item user i s) _ (λ r e.
    require-Safe (not (is_over r.1)) value_error _ (
      require-Safe (is_some r.0.application_id) value_error _ (
        require-Safe
          (item_is AutoApplyItemStatus.ready r.0 || item_is AutoApplyItemStatus.needs_review r.0)
          value_error _
          (require-Safe (not (r.0.requires_review && not (item_is AutoApplyItemStatus.ready r.0)))
            value_error _ (submit_with-Safe user now d s r.0 r.1 r.0.application_id h)))))

new_item-IsReviewed : (run : AutoApplyRun) (x : AutoApplyItem) → IsNewItem run x → IsReviewed x
unfolding IsReviewed
new_item-IsReviewed run x h = ground (arith, h.1)

-- a request under a known key leaves the items alone
create_run_again-items :
    (user : User) (ids : List ℕ) (most : ℕ) (review : Bool) (key made_up : String) (now : ℕ)
    (s : Store) {run : AutoApplyRun} {r : Store × AutoApplyRun}
    → find_first (has_run_key (or_text (strip key) made_up)) s.runs.rows ≡ some run
    → create_run user ids most review key made_up now s ≡ ok r
    → s.items ≡ r.0.items
unfolding create_run
create_run_again-items user ids most review key made_up now s {run} {r} seen h =
    let ((accounts, profile), found, h1) = >>=-eq-ok (get_active_profile user s.accounts) _ h in
    elim (Bool-cases (run.user_id == user.id)) [
      | inl e ↦ ground (arith, h1, seen, e)
      | inr e ↦ absurd (ground (arith, h1, seen, e))
    ]

pub create_run-Safe :
    (user : User) (ids : List ℕ) (most : ℕ) (review : Bool) (key made_up : String) (now : ℕ)
    (s : Store) (o : Outcome (Store × AutoApplyRun))
    → create_run user ids most review key made_up now s ≡ o
    → AllReviewed s
    → Safe o
unfolding Safe
create_run-Safe user ids most review key made_up now s (raised f) h all = tt
create_run-Safe user ids most review key made_up now s (ok r) h all =
    elim (Option-cases (find_first (has_run_key (or_text (strip key) made_up)) s.runs.rows)) [
      | inr (run, seen) ↦
          subst (λ (k : Table AutoApplyItem). All IsReviewed k.rows)
            (create_run_again-items user ids most review key made_up now s {run = run} {r = r} seen
              h)
            all
      | inl unseen ↦
          let (added, rows, listings, fine) =
            (create_run_lem user ids most review key made_up now s {after = r.0} {run = r.1} unseen
              h).0 in
          subst (All IsReviewed) (sym rows) (
            All-append IsReviewed s.items.rows added all
              (All-map (new_item-IsReviewed r.1) added fine))
    ]
