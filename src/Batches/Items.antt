-- ===== src/Batches/Items.antt =====
-- The life of an item of an auto-apply batch: review before submission, cancelling, and what stays
-- possible for an item that was submitted (app/auto_apply.py).
use vitae.Applications.{transition_application, Details}
use vitae.Applications.Chronicle.{moved}
use vitae.AutoApply.{owned_run, item_is, is_over, owned_item, run_is}
use vitae.Batches.{is_pending, cancel_run, skip_items, mark_item_submitted, handed_in}
use vitae.Common.{
  inl, ◌==◌, ◌&&◌, true, [], List, ℕ, Option-cases, arith, ◌∷◌, All, Bool-cases, false, ◌≡◌, some,
  inr, select, ◌||◌, suc, refl, is_some, sym, subst, not, Bool,
}
use vitae.Common.Outcome.{ok, >>=-eq-ok, ◌>>=◌, require, value_error}
use vitae.Common.Table.{get, id_of-get_row}
use vitae.Models.{Store}
use vitae.Models.AccountRows.{User, keyed_user}
use vitae.Models.AutoApplyRows.{
  AutoApplyItemStatus, AutoApplyItem, AutoApplyRun, keyed_auto_apply_run, keyed_auto_apply_item,
  AutoApplyRunStatus,
}

-- an item under review asks for it, and one that is ready does not any more
unfoldable pub IsReviewed : AutoApplyItem → Type 0
IsReviewed x =
    ((item_is AutoApplyItemStatus.needs_review x && not x.requires_review) ≡ false)
    × ((item_is AutoApplyItemStatus.ready x && x.requires_review) ≡ false)

-- the run and the item that a user's request on an item finds
pub owned_item-get :
    (user : User) (i : ℕ) (s : Store) {r : AutoApplyItem × AutoApplyRun}
    → owned_item user i s ≡ ok r
    → (get i s.items ≡ some r.0) × (get r.0.run_id s.runs ≡ some r.1) × (r.1.user_id ≡ user.id)
unfolding owned_run
owned_item-get user i s {r} h = elim (Option-cases (get i s.items)) [
  | inl e ↦ absurd (ground arith)
  | inr (x, e) ↦ elim (Option-cases (get x.run_id s.runs)) [
    | inl f ↦ absurd (ground arith)
    | inr (run, f) ↦ elim (Bool-cases (run.user_id == user.id)) [
      | inl g ↦ ground arith
      | inr g ↦ absurd (ground arith)
    ]
  ]
]

pub skip_items-IsReviewed :
    (run_id : ℕ) (items : List AutoApplyItem)
    → All IsReviewed items
    → All IsReviewed (skip_items run_id items)
unfolding skip_items IsReviewed
skip_items-IsReviewed run_id [] h = tt
skip_items-IsReviewed run_id (x ∷ xs) h = elim (Bool-cases (x.run_id == run_id && is_pending x)) [
  | inl e ↦ (ground arith, skip_items-IsReviewed run_id xs h.1)
  | inr e ↦ (ground (arith, h.0), skip_items-IsReviewed run_id xs h.1)
]

skip_items-pending :
    (run_id : ℕ) (items : List AutoApplyItem)
    → All (λ x. (x.run_id == run_id && is_pending x) ≡ false) (skip_items run_id items)
unfolding skip_items is_pending
skip_items-pending run_id [] = tt
skip_items-pending run_id (x ∷ xs) = (ground arith, skip_items-pending run_id xs)

abbrev pub of_other : ℕ → AutoApplyItem → Bool
of_other run_id x = not (x.run_id == run_id)

skip_items-other :
    (run_id : ℕ) (items : List AutoApplyItem)
    → select (of_other run_id) (skip_items run_id items) ≡ select (of_other run_id) items
unfolding skip_items
skip_items-other run_id [] = refl
skip_items-other run_id (x ∷ xs) = ground (arith, skip_items-other run_id xs)

-- Cancelling a run that was not over leaves it cancelled, with the time; none of its items is then queued,
-- in preparation, ready or under review, and the items of the other runs are as they were.
pub cancel_run_lem :
    (user : User) (i now : ℕ) (s : Store) {run : AutoApplyRun} {r : Store × AutoApplyRun}
    → get i s.runs ≡ some run
    → is_over run ≡ false
    → cancel_run user i now s ≡ ok r
    → (run_is AutoApplyRunStatus.cancelled r.1 ≡ true)
      × (r.1.completed_at ≡ some now)
      × All (λ x. (x.run_id == i && is_pending x) ≡ false) r.0.items.rows
      × (select (of_other i) r.0.items.rows ≡ select (of_other i) s.items.rows)
unfolding cancel_run owned_run
cancel_run_lem user i now s {run} {r} found going h =
    let id : run.id ≡ i = id_of-get_row i s.runs.rows {a = run} found in
    elim (Bool-cases (run.user_id == user.id)) [
      | inr e ↦ absurd (ground arith)
      | inl e ↦
          let rows : skip_items run.id s.items.rows ≡ r.0.items.rows =
            ground (arith, h, found, going, e) in
          let rows_i = subst (λ j. skip_items j s.items.rows ≡ r.0.items.rows) id rows in
          (
            ground (arith, h, found, going, e),
            ground (arith, h, found, going, e),
            subst (All (λ x. (x.run_id == i && is_pending x) ≡ false)) rows_i
                (skip_items-pending i s.items.rows),
            subst (λ xs. select (of_other i) xs ≡ select (of_other i) s.items.rows) rows_i
                (skip_items-other i s.items.rows),
          )
    ]

-- Where an item that is under review asks for it and one that is ready does not, submitting succeeds
-- only for an item that is ready and asks for no review; it is then submitted, with one attempt more.
pub mark_item_submitted_lem :
    (user : User) (i now : ℕ) (d : Details) (s : Store) {item : AutoApplyItem}
    {r : Store × AutoApplyItem}
    → get i s.items ≡ some item
    → IsReviewed item
    → mark_item_submitted user i d now s ≡ ok r
    → (item_is AutoApplyItemStatus.ready item ≡ true)
      × (item.requires_review ≡ false)
      × (item_is AutoApplyItemStatus.submitted r.1 ≡ true)
      × (r.1.attempt_count ≡ suc item.attempt_count)
unfolding mark_item_submitted IsReviewed
mark_item_submitted_lem user i now d s {item} {r} there reviewed h =
    let ((x, run), found, h1) = >>=-eq-ok (owned_item user i s) _ h in
    let (x_there, run_there, mine) = owned_item-get user i s {r = (x, run)} found in
    let same : x ≡ item = ground (arith, there, x_there) in
    let (one, not_over, h2) = >>=-eq-ok (require (not (is_over run)) value_error) _ h1 in
    let (two, has_application, h3) =
      >>=-eq-ok (require (is_some x.application_id) value_error) _ h2 in
    let (three, prepared, h4) =
      >>=-eq-ok
        (require (item_is AutoApplyItemStatus.ready x || item_is AutoApplyItemStatus.needs_review x)
          value_error)
        _ h3 in
    let (four, approved, h5) =
      >>=-eq-ok
        (require (not (x.requires_review && not (item_is AutoApplyItemStatus.ready x))) value_error)
        _ h4 in
    elim (Option-cases x.application_id) [
      | inl z ↦ absurd (ground (arith, has_application, z))
      | inr (a, z) ↦
          let sent : (transition_application user a "submitted" d now s >>= λ t.
          ok (handed_in x run t.0))
              ≡ ok r =
            ground (arith, h5, z) in
          let (t, moved, h6) =
            >>=-eq-ok (transition_application user a "submitted" d now s) _ sent in
          let last : (handed_in x run t.0).1 ≡ r.1 = ground (arith, h6) in
          let is_ready : item_is AutoApplyItemStatus.ready item ≡ true =
            ground (arith, same, prepared, approved, reviewed.0) in
          (
            is_ready,
            ground (arith, reviewed.1, is_ready),
            subst (λ y. item_is AutoApplyItemStatus.submitted y ≡ true) last refl,
            ground (arith, sym last, same),
          )
    ]
