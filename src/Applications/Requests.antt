-- ===== src/Applications/Requests.antt =====
-- Opening and refreshing an application, and any sequence of requests (app/applications.py).
use mathlib.Core.Path.{subst}
use vitae.Accounts.{get_active_profile}
use vitae.Applications.{
  is_for, is_editable, owned_application, refresh_application_snapshot, open_listing,
  add_application, new_application, get_or_create_application, create_from_draft, refresh_row,
  Details, refresh_from, transition_application,
}
use vitae.Applications.Chronicle.{owned_application-get, transition_application-IsChronicle}
use vitae.Applications.History.{added-IsTold, IsChronicle, raise_events, kept-IsTold}
use vitae.Common.{
  arith, inr, ℕ, Option-cases, none, Option, ◌<◌, ◌∷◌, Bool-cases, find_first, refl, inl, ◌≡◌,
  String, All-append, [], suc, some, List,
}
use vitae.Common.Outcome.{>>=-eq-ok, ok, raised, Outcome}
use vitae.Common.Table.{save, get}
use vitae.Drafts.{load_apply_draft, listing_accessible}
use vitae.Models.{Store}
use vitae.Models.AccountRows.{Accounts, User, keyed_user}
use vitae.Models.ApplicationRows.{
  draft, ApplicationEvent, Application, keyed_application_event, keyed_application,
}
use vitae.Models.ListingRows.{ApplyDraft, keyed_apply_draft}
use vitae.Resumes.{latest_resume_artifact}

-- loading a draft may complete the account, and touches no application and no event
pub load_apply_draft-kept :
    (user : User) (i : ℕ) (s : Store) {r : Store × Option ApplyDraft}
    → load_apply_draft user i s ≡ ok r
    → (accounts : Accounts) × (record s { accounts = accounts } ≡ r.0)
unfolding load_apply_draft
load_apply_draft-kept user i s {r} h =
    let (u, may, h1) = >>=-eq-ok (listing_accessible user i s.listings) _ h in
    let ((accounts, active), found, h2) = >>=-eq-ok (get_active_profile user s.accounts) _ h1 in
    (accounts, ground (arith, h2))

added-IsChronicle :
    (s : Store) (make : ℕ → Application)
    → (make s.applications.next_id).id ≡ s.applications.next_id
    → (make s.applications.next_id).status ≡ draft
    → IsChronicle s
    → IsChronicle (add_application make s).0
unfolding IsChronicle
added-IsChronicle s make id status told =
    let n = s.applications.next_id in
    let entry : ApplicationEvent = record {
      id = s.events.next_id;
      application_id = n;
      from_status = none;
      to_status = draft;
      note = "Application created from Apply Assist draft";
    } in
    (
      added-IsTold n s.events.rows s.applications.rows (make n) entry id status refl refl refl
          told.0 told.1,
      All-append (λ e. e.application_id < suc n) s.events.rows (entry ∷ [])
          (raise_events n s.events.rows told.1) (ground arith, tt),
    )

accounts-IsChronicle :
    (s : Store) (a : Accounts) → IsChronicle s → IsChronicle (record s { accounts = a })
unfolding IsChronicle
accounts-IsChronicle s a h = h

saved-IsChronicle :
    (s : Store) (row after : Application)
    → get row.id s.applications ≡ some row
    → after.id ≡ row.id
    → after.status ≡ row.status
    → IsChronicle s
    → IsChronicle (record s { applications = save after s.applications })
unfolding IsChronicle
saved-IsChronicle s row after there id status told = (
  kept-IsTold s.applications.next_id s.events.rows s.applications.rows row after there id status
      told.0,
  told.1,
)

get_or_create_application-IsChronicle :
    (user : User) (listing_id : ℕ) (channel : String) (now : ℕ) (s : Store)
    {r : Store × Application}
    → get_or_create_application user listing_id channel now s ≡ ok r
    → IsChronicle s
    → IsChronicle r.0
unfolding get_or_create_application new_application
get_or_create_application-IsChronicle user listing_id channel now s {r} h told =
    let ((accounts, profile), found, h1) = >>=-eq-ok (get_active_profile user s.accounts) _ h in
    let (listing, opened, h2) = >>=-eq-ok (open_listing user listing_id s.listings) _ h1 in
    elim (Option-cases (find_first (is_for profile.id listing.id) s.applications.rows)) [
      | inr (row, e) ↦
          subst IsChronicle {x = record s { accounts = accounts }} (ground (arith, h2, e))
            (accounts-IsChronicle s accounts told)
      | inl e ↦
          let opened_in : Store = record s { accounts = accounts } in
          let to_load : create_from_draft user profile listing channel now opened_in ≡ ok r =
            ground (arith, h2, e) in
          let ((loaded, from), draft_found, h3) =
            >>=-eq-ok (load_apply_draft user listing.id opened_in) _ to_load in
          let (again, same) =
            load_apply_draft-kept user listing.id opened_in {r = (loaded, from)} draft_found in
          let make =
            new_application user.id profile listing channel from
              (latest_resume_artifact profile.id listing.id loaded) now in
          subst IsChronicle {x = (add_application make loaded).0} (ground (arith, h3)) (
            added-IsChronicle loaded make refl refl (
              subst IsChronicle same
                (accounts-IsChronicle opened_in again (accounts-IsChronicle s accounts told))))
    ]

refresh_application_snapshot-IsChronicle :
    (user : User) (i : ℕ) (s : Store) {r : Store × Application}
    → refresh_application_snapshot user i s ≡ ok r
    → IsChronicle s
    → IsChronicle r.0
unfolding refresh_application_snapshot
refresh_application_snapshot-IsChronicle user i s {r} h told =
    let (row, found, h1) = >>=-eq-ok (owned_application user i s.applications) _ h in
    let (there, id, mine) = owned_application-get user i s.applications {row = row} found in
    elim (Bool-cases (is_editable row.status)) [
      | inr e ↦ subst IsChronicle {x = s} (ground arith) told
      | inl e ↦ elim (Option-cases row.listing_id) [
        | inl f ↦ subst IsChronicle {x = s} (ground arith) told
        | inr (l, f) ↦
            let to_load : refresh_from user row l s ≡ ok r = ground (arith, h1, e, f) in
            let ((loaded, from), draft_found, h2) =
              >>=-eq-ok (load_apply_draft user l s) _ to_load in
            let (accounts, same) =
              load_apply_draft-kept user l s {r = (loaded, from)} draft_found in
            let after = refresh_row from (latest_resume_artifact row.profile_id l loaded) row in
            subst IsChronicle {x = record loaded { applications = save after loaded.applications }}
              (ground (arith, h2))
              (saved-IsChronicle loaded row after
                (subst (λ x. get row.id x.applications ≡ some row) same there) refl refl
                (subst IsChronicle same (accounts-IsChronicle s accounts told)))
      ]
    ]

-- what a user asks of the applications
pub data ApplicationRequest : Type 0 where
  open_application : (listing_id : ℕ) → String → ApplicationRequest
  refresh_application : (application_id : ℕ) → ApplicationRequest
  move_application : (application_id : ℕ) → String → Details → ApplicationRequest

abbrev pub answer : User → ApplicationRequest → ℕ → Store → Outcome (Store × Application)
answer user (open_application l channel) now s = get_or_create_application user l channel now s
answer user (refresh_application i) now s = refresh_application_snapshot user i s
answer user (move_application i to d) now s = transition_application user i to d now s

-- a request that raises is rolled back
abbrev pub commit : Store → Outcome (Store × Application) → Store
commit s (raised e) = s
commit s (ok r) = r.0

-- users' requests, each at its time
unfoldable pub answer_all : List (User × ApplicationRequest × ℕ) → Store → Store
answer_all [] s = s
answer_all (q ∷ qs) s = answer_all qs (commit s (answer q.0 q.1 q.2 s))

answer-IsChronicle :
    (user : User) (q : ApplicationRequest) (now : ℕ) (s : Store) (o : Outcome (Store × Application))
    → answer user q now s ≡ o
    → IsChronicle s
    → IsChronicle (commit s o)
answer-IsChronicle user q now s (raised e) h told = told
answer-IsChronicle user (open_application l channel) now s (ok r) h told =
    get_or_create_application-IsChronicle user l channel now s {r = r} h told
answer-IsChronicle user (refresh_application i) now s (ok r) h told =
    refresh_application_snapshot-IsChronicle user i s {r = r} h told
answer-IsChronicle user (move_application i to d) now s (ok r) h told =
    transition_application-IsChronicle user i to d now s {r = r} h told

-- Where the events of every application form a chain, and none is of an application yet to be made,
-- they still do whatever users ask, in whatever order and with requests that fail. A chain starts
-- with the creation as a draft; each event in it starts at the status that the one before it left, and
-- is an allowed transition; the last leaves the application's current status.
pub answer_all-IsChronicle :
    (qs : List (User × ApplicationRequest × ℕ)) (s : Store)
    → IsChronicle s
    → IsChronicle (answer_all qs s)
unfolding answer_all
answer_all-IsChronicle [] s h = h
answer_all-IsChronicle (q ∷ qs) s h =
    answer_all-IsChronicle qs (commit s (answer q.0 q.1 q.2 s))
      (answer-IsChronicle q.0 q.1 q.2 s (answer q.0 q.1 q.2 s) refl h)
