-- ===== src/AutoApply/Create.antt =====
-- The items that a new auto-apply batch gets (`create_run` of app/auto_apply.py).
use mathlib.Core.List.{append_assoc, append-nil, map}
use vitae.Accounts.{get_active_profile}
use vitae.Applications.{get_or_create_application, create_from_draft, is_for, open_listing}
use vitae.Applications.Requests.{load_apply_draft-kept}
use vitae.AutoApply.{
  dedupe, new_item, item_is, add_items, run_is, chosen, create_run, new_run, clamp_applications,
  has_run_key, open_run, is_available,
}
use vitae.Common.{
  arith, ◌∷◌, String, ◌≢◌, ℕ, select, inl, Bool, take, suc, ◌≡◌, List, ◌==◌, All, inr, [], zero,
  not, find_first, true, false, ◌++◌, Option-cases, ap, refl, if◌then◌else◌, ◌∙◌, none, sym, ◌≤◌,
  subst, length, ltb, count_if, length-take,
}
use vitae.Common.Outcome.{ok, >>=-eq-ok, require, value_error, ◌>>◌}
use vitae.Common.Table.{Table, insert}
use vitae.Common.Text.{or_text, strip}
use vitae.Drafts.{load_apply_draft}
use vitae.Models.{Store}
use vitae.Models.AccountRows.{User, keyed_user}
use vitae.Models.ApplicationRows.{Application, keyed_application}
use vitae.Models.AutoApplyRows.{
  AutoApplyRun, AutoApplyItem, AutoApplyItemStatus, keyed_auto_apply_item, keyed_auto_apply_run,
  AutoApplyRunStatus,
}

-- no id twice
abbrev pub NoRepeat : List ℕ → Type 0
NoRepeat [] = Unit
NoRepeat (x ∷ xs) = All (λ y. y ≢ x) xs × NoRepeat xs

-- a row that is put in front only where it passes
pick-All :
    (t : Bool) (P : ℕ → Type 0) (x : ℕ) (xs : List ℕ)
    → (t ≡ true → P x)
    → All P xs
    → All P (if t then x ∷ xs else xs)
pick-All true P x xs hx h = (hx refl, h)
pick-All false P x xs hx h = h

pick-NoRepeat :
    (t : Bool) (x : ℕ) (xs : List ℕ)
    → All (λ y. y ≢ x) xs
    → NoRepeat xs
    → NoRepeat (if t then x ∷ xs else xs)
pick-NoRepeat true x xs hx h = (hx, h)
pick-NoRepeat false x xs hx h = h

select-All : (p : ℕ → Bool) (P : ℕ → Type 0) (xs : List ℕ) → All P xs → All P (select p xs)
select-All p P [] h = tt
select-All p P (x ∷ xs) h = pick-All (p x) P x (select p xs) (λ e. h.0) (select-All p P xs h.1)

select-NoRepeat : (p : ℕ → Bool) (xs : List ℕ) → NoRepeat xs → NoRepeat (select p xs)
select-NoRepeat p [] h = tt
select-NoRepeat p (x ∷ xs) h =
    pick-NoRepeat (p x) x (select p xs) (select-All p (λ y. y ≢ x) xs h.0)
      (select-NoRepeat p xs h.1)

select-passes : (x : ℕ) (xs : List ℕ) → All (λ y. y ≢ x) (select (λ y. not (y == x)) xs)
select-passes x [] = tt
select-passes x (y ∷ ys) =
    pick-All (not (y == x)) (λ z. z ≢ x) y (select (λ z. not (z == x)) ys) (λ e. ground (arith, e))
      (select-passes x ys)

dedupe-NoRepeat : (xs : List ℕ) → NoRepeat (dedupe xs)
unfolding dedupe
dedupe-NoRepeat [] = tt
dedupe-NoRepeat (x ∷ xs) = (
  select-passes x (dedupe xs),
  select-NoRepeat (λ y. not (y == x)) (dedupe xs) (dedupe-NoRepeat xs),
)

take-All : (P : ℕ → Type 0) (n : ℕ) (xs : List ℕ) → All P xs → All P (take n xs)
take-All P zero xs h = tt
take-All P (suc n) [] h = tt
take-All P (suc n) (x ∷ xs) h = (h.0, take-All P n xs h.1)

take-NoRepeat : (n : ℕ) (xs : List ℕ) → NoRepeat xs → NoRepeat (take n xs)
take-NoRepeat zero xs h = tt
take-NoRepeat (suc n) [] h = tt
take-NoRepeat (suc n) (x ∷ xs) h = (take-All (λ y. y ≢ x) n xs h.0, take-NoRepeat n xs h.1)

-- an application that is found or made leaves the items alone
pub get_or_create_application-items :
    (user : User) (i : ℕ) (channel : String) (now : ℕ) (s : Store) {r : Store × Application}
    → get_or_create_application user i channel now s ≡ ok r
    → s.items ≡ r.0.items
unfolding get_or_create_application
get_or_create_application-items user i channel now s {r} h =
    let ((accounts, profile), found, h1) = >>=-eq-ok (get_active_profile user s.accounts) _ h in
    let (listing, opened, h2) = >>=-eq-ok (open_listing user i s.listings) _ h1 in
    elim (Option-cases (find_first (is_for profile.id listing.id) s.applications.rows)) [
      | inr (row, e) ↦ ground (arith, h2, e)
      | inl e ↦
          let opened_in : Store = record s { accounts = accounts } in
          let to_load : create_from_draft user profile listing channel now opened_in ≡ ok r =
            ground (arith, h2, e) in
          let ((loaded, from), draft_found, h3) =
            >>=-eq-ok (load_apply_draft user listing.id opened_in) _ to_load in
          let (again, same) =
            load_apply_draft-kept user listing.id opened_in {r = (loaded, from)} draft_found in
          ground (arith, h3, ap (λ (t : Store). t.items) same)
    ]

-- an item as `create_run` makes it
abbrev pub IsNewItem : AutoApplyRun → AutoApplyItem → Type 0
IsNewItem run x =
    (x.run_id ≡ run.id)
    × (item_is AutoApplyItemStatus.queued x ≡ true)
    × (x.requires_review ≡ run.requires_review)

-- the items behind the earlier ones, one for each id
abbrev pub Gains : AutoApplyRun → List ℕ → List AutoApplyItem → List AutoApplyItem → Type 0
Gains run ids before after =
    (added : List AutoApplyItem) × (after ≡ before ++ added)
    × (map (λ (x : AutoApplyItem). x.listing_id) added ≡ ids)
    × All (IsNewItem run) added

add_items-Gains :
    (user : User) (run : AutoApplyRun) (now : ℕ) (ids : List ℕ) (s : Store) {after : Store}
    → add_items user run now ids s ≡ ok after
    → Gains run ids s.items.rows after.items.rows
unfolding add_items new_item
add_items-Gains user run now [] s {after} h =
    ([], ground (arith, h, append-nil s.items.rows), refl, tt)
add_items-Gains user run now (i ∷ is) s {after} h =
    let ((t, application), made, h1) =
      >>=-eq-ok (get_or_create_application user i "auto_apply" now s) _ h in
    let item = new_item run application.id i t.items.next_id in
    let (added, more, ids, fine) =
      add_items-Gains user run now is
        (record t { items = insert (new_item run application.id i) t.items }) {after = after} h1 in
    let kept =
      ap (λ (x : Table AutoApplyItem). x.rows)
        (get_or_create_application-items user i "auto_apply" now s {r = (t, application)} made) in
    (
      item ∷ added,
      more ∙ append_assoc t.items.rows (item ∷ []) added ∙ ap (λ xs. xs ++ item ∷ added) (sym kept),
      ap (λ xs. i ∷ xs) ids,
      ((refl, refl, refl), fine),
    )

-- Where no run has the request's idempotency key, a successful request makes a queued run of the user
-- with one item behind the items there were for each chosen listing, queued, in the order asked for, and under review
-- as the run is: the chosen listings are at least one and at most a hundred, and none comes twice.
pub create_run_lem :
    (user : User) (ids : List ℕ) (most : ℕ) (review : Bool) (key made_up : String) (now : ℕ)
    (s : Store) {after : Store} {run : AutoApplyRun}
    → find_first (has_run_key (or_text (strip key) made_up)) s.runs.rows ≡ none
    → create_run user ids most review key made_up now s ≡ ok (after, run)
    → Gains run (chosen ids most) s.items.rows after.items.rows
      × (1 ≤ length (chosen ids most))
      × (length (chosen ids most) ≤ 100)
      × NoRepeat (chosen ids most)
      × (run_is AutoApplyRunStatus.queued run ≡ true)
      × (run.user_id ≡ user.id)
      × (run.requires_review ≡ review)
unfolding create_run new_run
create_run_lem user ids most review key made_up now s {after} {run} unseen h =
    let ((accounts, profile), found, h1) = >>=-eq-ok (get_active_profile user s.accounts) _ h in
    let opened : Store = record s { accounts = accounts } in
    let picked = chosen ids most in
    let key_used = or_text (strip key) made_up in
    let checked : (require (ltb 0 (length picked)) value_error
          >> (require (count_if (λ i. not (is_available user s.listings i)) picked == 0) value_error
              >> open_run user profile (clamp_applications most) review key_used now picked opened))
        ≡ ok (after, run) =
      ground (arith, h1, unseen) in
    let (one, some_picked, h2) =
      >>=-eq-ok (require (ltb 0 (length picked)) value_error) _ checked in
    let (two, available, h3) =
      >>=-eq-ok
        (require (count_if (λ i. not (is_available user s.listings i)) picked == 0) value_error) _
        h2 in
    let fresh = new_run user profile (clamp_applications most) review key_used s.runs.next_id in
    let (t, added, h4) =
      >>=-eq-ok
        (add_items user fresh now picked (record opened {
          runs = insert (new_run user profile (clamp_applications most) review key_used) s.runs;
        }))
        _ h3 in
    let is_run : fresh ≡ run = ground (arith, h4) in
    let is_after : t ≡ after = ground (arith, h4) in
    let gains =
      add_items-Gains user fresh now picked
        (record opened {
          runs = insert (new_run user profile (clamp_applications most) review key_used) s.runs;
        })
        {after = t} added in
    (
      subst (λ x. Gains run picked s.items.rows x.items.rows) is_after
          (subst (λ x. Gains x picked s.items.rows t.items.rows) is_run gains),
      ground (arith, some_picked),
      ground (arith, length-take (clamp_applications most) (dedupe ids)),
      take-NoRepeat (clamp_applications most) (dedupe ids) (dedupe-NoRepeat ids),
      subst (λ x. run_is AutoApplyRunStatus.queued x ≡ true) is_run refl,
      subst (λ x. x.user_id ≡ user.id) is_run refl,
      subst (λ x. x.requires_review ≡ review) is_run refl,
    )
