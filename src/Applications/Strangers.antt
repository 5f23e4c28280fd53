-- ===== src/Applications/Strangers.antt =====
-- What other users' requests leave alone (app/applications.py).
use mathlib.Core.List.{append-nil}
use vitae.Accounts.{get_active_profile}
use vitae.Applications.{
  owned_application, is_event_of, add_application, transition_application,
  refresh_application_snapshot, get_or_create_application, is_for, create_from_draft, is_editable,
  Details, refresh_row, with_details, moved_to, open_listing, refresh_from, new_application,
}
use vitae.Applications.Chronicle.{owned_application-get, stayed, moved, transition_cases}
use vitae.Applications.Requests.{
  answer, refresh_application, load_apply_draft-kept, answer_all, open_application,
  move_application, ApplicationRequest, commit,
}
use vitae.Common.{
  sym, ◌≢◌, [], ◌==◌, none, select-append, ◌<◌, refl, ap, arith, ◌≤◌, ◌∙◌, false, String, ◌≡◌,
  select, ℕ, some, ◌∷◌, Option-cases, Bool-cases, List, All, inl, find_first, inr, subst,
}
use vitae.Common.Outcome.{ok, Outcome, >>=-eq-ok, raised}
use vitae.Common.Table.{get_row-append, get, get_row-put_row}
use vitae.Common.Text.{strip}
use vitae.Drafts.{load_apply_draft}
use vitae.Models.{Store}
use vitae.Models.AccountRows.{User, keyed_user}
use vitae.Models.ApplicationRows.{
  draft, ApplicationEvent, Application, ApplicationStatus, keyed_application,
  keyed_application_event,
}
use vitae.Resumes.{latest_resume_artifact}

-- the row of an application and its history are as they were
abbrev pub Keeps : ℕ → Store → Store → Type 0
Keeps i s t =
    (get i t.applications ≡ get i s.applications)
    × (select (is_event_of i) t.events.rows ≡ select (is_event_of i) s.events.rows)
    × (s.applications.next_id ≤ t.applications.next_id)

Keeps-trans : (i : ℕ) (s t u : Store) → Keeps i s t → Keeps i t u → Keeps i s u
Keeps-trans i s t u (a, b, c) (d, e, f) = (d ∙ a, e ∙ b, omega (arith, c, f))

module _ (i : ℕ) (a : Application) where
  -- it is an application that was made before
  abbrev IsMade : Store → Type 0
  IsMade s = (get i s.applications ≡ some a) × (i < s.applications.next_id)

  Keeps-IsMade : (s t : Store) → Keeps i s t → IsMade s → IsMade t
  Keeps-IsMade s t (same, events, more) (there, below) = (same ∙ there, omega (arith, more, below))

  added-Keeps :
      (s : Store) (make : ℕ → Application) → IsMade s → Keeps i s (add_application make s).0
  added-Keeps s make (there, below) =
      let n = s.applications.next_id in
      let entry : ApplicationEvent = record {
        id = s.events.next_id;
        application_id = n;
        from_status = none;
        to_status = draft;
        note = "Application created from Apply Assist draft";
      } in
      let apart : (n == i) ≡ false = ground (arith, below) in
      (
        ground (arith, there, get_row-append i s.applications.rows (make n ∷ [])),
        ground (
          arith,
          apart,
          select-append (is_event_of i) s.events.rows (entry ∷ []),
          append-nil (select (is_event_of i) s.events.rows),
        ),
        omega arith,
      )

  saved-Keeps : (s : Store) (after : Application) → after.id ≢ i → Keeps i s (stayed after s)
  saved-Keeps s after apart =
      (ground (arith, apart, get_row-put_row i after s.applications.rows), refl, omega arith)

  moved-Keeps :
      (s : Store) (row after : Application) (from target : ApplicationStatus) (note : String)
      → row.id ≢ i
      → after.id ≡ row.id
      → Keeps i s (moved row from after target note s)
  moved-Keeps s row after from target note apart id =
      let entry : ApplicationEvent = record {
        id = s.events.next_id;
        application_id = row.id;
        from_status = some from;
        to_status = target;
        note = note;
      } in
      (
        ground (arith, apart, id, get_row-put_row i after s.applications.rows),
        ground (
          arith,
          apart,
          select-append (is_event_of i) s.events.rows (entry ∷ []),
          append-nil (select (is_event_of i) s.events.rows),
        ),
        omega arith,
      )

  -- an application that a user may act on is not another user's
  owned-apart :
      (user : User) (j : ℕ) (s : Store) {row : Application}
      → owned_application user j s.applications ≡ ok row
      → IsMade s
      → a.user_id ≢ user.id
      → row.id ≢ i
  owned-apart user j s {row} found (there, below) foreign same =
      let (stored, id, mine) = owned_application-get user j s.applications {row = row} found in
      foreign (
        ground
          (arith, mine, some_same (sym there ∙ ap (λ k. get k s.applications) (sym same) ∙ stored)))
    where
      some_same : some a ≡ some row → a.user_id ≡ row.user_id
      some_same e = ground (arith, e)

  get_or_create_application-Keeps :
      (user : User) (listing_id : ℕ) (channel : String) (now : ℕ) (s : Store)
      {r : Store × Application}
      → get_or_create_application user listing_id channel now s ≡ ok r
      → IsMade s
      → Keeps i s r.0
  unfolding get_or_create_application
  get_or_create_application-Keeps user listing_id channel now s {r} h made =
      let ((accounts, profile), found, h1) = >>=-eq-ok (get_active_profile user s.accounts) _ h in
      let (listing, opened, h2) = >>=-eq-ok (open_listing user listing_id s.listings) _ h1 in
      elim (Option-cases (find_first (is_for profile.id listing.id) s.applications.rows)) [
        | inr (row, e) ↦
            subst (Keeps i s) {x = record s { accounts = accounts }} {y = r.0}
              (ground (arith, h2, e)) (refl, refl, omega arith)
        | inl e ↦
            let opened_in : Store = record s { accounts = accounts } in
            let to_load : create_from_draft user profile listing channel now opened_in ≡ ok r =
              ground (arith, h2, e) in
            let ((loaded, from), draft_found, h3) =
              >>=-eq-ok (load_apply_draft user listing.id opened_in) _ to_load in
            let (again, same) =
              load_apply_draft-kept user listing.id opened_in {r = (loaded, from)} draft_found in
            let make =
              new_application user.id profile listing channel from
                (latest_resume_artifact profile.id listing.id loaded) now in
            let kept : Keeps i s loaded = subst (Keeps i s) same (refl, refl, omega arith) in
            subst (Keeps i s) {x = (add_application make loaded).0} {y = r.0} (ground (arith, h3)) (
              Keeps-trans i s loaded (add_application make loaded).0 kept
                (added-Keeps loaded make (Keeps-IsMade s loaded kept made)))
      ]

  refresh_application_snapshot-Keeps :
      (user : User) (j : ℕ) (s : Store) {r : Store × Application}
      → refresh_application_snapshot user j s ≡ ok r
      → IsMade s
      → a.user_id ≢ user.id
      → Keeps i s r.0
  unfolding refresh_application_snapshot
  refresh_application_snapshot-Keeps user j s {r} h made foreign =
      let (row, found, h1) = >>=-eq-ok (owned_application user j s.applications) _ h in
      let apart = owned-apart user j s {row = row} found made foreign in
      let still : Keeps i s s = (refl, refl, omega arith) in
      elim (Bool-cases (is_editable row.status)) [
        | inr e ↦ subst (Keeps i s) {x = s} {y = r.0} (ground arith) still
        | inl e ↦ elim (Option-cases row.listing_id) [
          | inl f ↦ subst (Keeps i s) {x = s} {y = r.0} (ground arith) still
          | inr (l, f) ↦
              let to_load : refresh_from user row l s ≡ ok r = ground (arith, h1, e, f) in
              let ((loaded, from), draft_found, h2) =
                >>=-eq-ok (load_apply_draft user l s) _ to_load in
              let (accounts, same) =
                load_apply_draft-kept user l s {r = (loaded, from)} draft_found in
              let after = refresh_row from (latest_resume_artifact row.profile_id l loaded) row in
              let kept : Keeps i s loaded = subst (Keeps i s) same (refl, refl, omega arith) in
              subst (Keeps i s) {x = stayed after loaded} {y = r.0} (ground (arith, h2))
                (Keeps-trans i s loaded (stayed after loaded) kept (saved-Keeps loaded after apart))
        ]
      ]

  transition_application-Keeps :
      (user : User) (j : ℕ) (to_status : String) (d : Details) (now : ℕ) (s : Store)
      {r : Store × Application}
      → transition_application user j to_status d now s ≡ ok r
      → IsMade s
      → a.user_id ≢ user.id
      → Keeps i s r.0
  unfolding transition_application
  transition_application-Keeps user j to_status d now s {r} h made foreign =
      let (row, found, h1) = >>=-eq-ok (owned_application user j s.applications) _ h in
      let apart = owned-apart user j s {row = row} found made foreign in
      elim (transition_cases row to_status d now s {r = r} h1) [
        | inl e ↦ subst (Keeps i s) {y = r.0} e (saved-Keeps s (with_details d row) apart)
        | inr (target, legal, e) ↦ subst (Keeps i s) {y = r.0} e (
            moved-Keeps s row (moved_to target now (with_details d row)) row.status target
              (strip d.note) apart refl)
      ]

  answer-Keeps :
      (user : User) (q : ApplicationRequest) (now : ℕ) (s : Store)
      (o : Outcome (Store × Application))
      → answer user q now s ≡ o
      → IsMade s
      → a.user_id ≢ user.id
      → Keeps i s (commit s o)
  answer-Keeps user q now s (raised e) h made foreign = (refl, refl, omega arith)
  answer-Keeps user (open_application l channel) now s (ok r) h made foreign =
      get_or_create_application-Keeps user l channel now s {r = r} h made
  answer-Keeps user (refresh_application j) now s (ok r) h made foreign =
      refresh_application_snapshot-Keeps user j s {r = r} h made foreign
  answer-Keeps user (move_application j to d) now s (ok r) h made foreign =
      transition_application-Keeps user j to d now s {r = r} h made foreign

-- Requests by users other than an application's owner, whatever they ask, in whatever order and with
-- requests that fail, leave the application's row and its history as they were. The table's next id is
-- taken to be above the application's.
pub answer_all-keeps_foreign :
    (qs : List (User × ApplicationRequest × ℕ)) (s : Store) (i : ℕ) (a : Application)
    → get i s.applications ≡ some a
    → i < s.applications.next_id
    → All (λ q. a.user_id ≢ q.0.id) qs
    → (get i (answer_all qs s).applications ≡ some a)
      × (select (is_event_of i) (answer_all qs s).events.rows
          ≡ select (is_event_of i) s.events.rows)
unfolding answer_all
answer_all-keeps_foreign [] s i a there below foreign = (there, refl)
answer_all-keeps_foreign (q ∷ qs) s i a there below foreign =
    let next = commit s (answer q.0 q.1 q.2 s) in
    let kept =
      answer-Keeps i a q.0 q.1 q.2 s (answer q.0 q.1 q.2 s) refl (there, below) foreign.0 in
    let (there_now, below_now) = Keeps-IsMade i a s next kept (there, below) in
    let (row, history) = answer_all-keeps_foreign qs next i a there_now below_now foreign.1 in
    (row, history ∙ kept.1)
