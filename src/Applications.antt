-- ===== src/Applications.antt =====
-- Job applications and their history (app/applications.py). The clock's reading is an argument.
pub mod History
pub mod Chronicle
pub mod Requests
pub mod Bound
pub mod Strangers
mod Examples
use vitae.Accounts.{get_active_profile}
use vitae.Common.{
  List, ◌&&◌, find_first, none, Bool, if◌then◌else◌, String, Option, some, false, str_eq, ℕ, ◌||◌,
  [], ◌==◌, not, select,
}
use vitae.Common.Outcome.{permission_error, ok, Outcome, ◌>>=◌, ◌>>◌, raised, value_error}
use vitae.Common.Table.{get, Table, insert, save}
use vitae.Common.Text.{or_text, lower, strip, is_empty}
use vitae.Drafts.{load_apply_draft}
use vitae.Lifecycle.{same_status, is_allowed, status_of}
use vitae.Models.{Store}
use vitae.Models.AccountRows.{User, keyed_user, Profile, keyed_profile}
use vitae.Models.ApplicationRows.{
  draft, ready, submitted, Application, ApplicationStatus, keyed_application, ApplicationEvent,
  keyed_application_event,
}
use vitae.Models.ListingRows.{
  JobListing, ResumeArtifact, ApplyDraft, keyed_resume_generation, keyed_resume_artifact,
  keyed_apply_draft, keyed_job_listing, applied, Answer, UserJob, keyed_user_job,
}
use vitae.Resumes.{latest_resume_artifact}

-- `_owned_application`
unfoldable pub owned_application : User → ℕ → Table Application → Outcome Application
owned_application user i t = elim (get i t) [
  | none ↦ raised permission_error
  | some row ↦ if row.user_id == user.id then ok row else raised permission_error
]

-- an application as it is created, from the listing, the draft and the latest generated CV
unfoldable pub new_application :
    ℕ
    → Profile
    → JobListing
    → String
    → Option ApplyDraft
    → Option ResumeArtifact
    → ℕ
    → ℕ
    → Application
new_application uid profile listing channel from artifact now i = record {
  id = i;
  user_id = uid;
  profile_id = profile.id;
  listing_id = some listing.id;
  resume_artifact_id = elim artifact [ none ↦ none | some r ↦ some r.id ];
  status = draft;
  channel = or_text channel "manual";
  external_url = listing.url;
  external_application_id = "";
  cover_blurb = elim from [ none ↦ "" | some d ↦ d.cover_blurb ];
  answers = elim from [ none ↦ [] | some d ↦ d.answers ];
  notes = "";
  applied_at = none;
  last_status_at = now;
}

abbrev pub log :
    ℕ
    → Option ApplicationStatus
    → ApplicationStatus
    → String
    → Table ApplicationEvent
    → Table ApplicationEvent
log i from to note t =
    insert
      (λ e. record { id = e; application_id = i; from_status = from; to_status = to; note = note })
      t

abbrev pub is_for : ℕ → ℕ → Application → Bool
is_for profile_id listing_id a =
    a.profile_id == profile_id && (elim a.listing_id [ none ↦ false | some i ↦ i == listing_id ])

-- whether a new application to the listing may be opened
abbrev pub open_listing : User → ℕ → Table JobListing → Outcome JobListing
open_listing user i t = elim (get i t) [
  | none ↦ raised value_error
  | some l ↦
      if str_eq l.visibility "private"
        && not (elim l.owner_user_id [ none ↦ false | some o ↦ o == user.id ])
      then raised permission_error
      else if str_eq l.visibility "public" && not l.is_active
      then raised value_error
      else ok l
]

-- the new row and its first event
abbrev pub add_application : (ℕ → Application) → Store → Store × Application
add_application make s = (
  record s {
    applications = insert make s.applications;
    events =
        log s.applications.next_id none draft "Application created from Apply Assist draft"
          s.events;
  },
  make s.applications.next_id,
)

abbrev pub create_from_draft :
    User → Profile → JobListing → String → ℕ → Store → Outcome (Store × Application)
create_from_draft user profile listing channel now s = do
  (loaded, from) ← load_apply_draft user listing.id s
  ok (
      add_application
        (new_application user.id profile listing channel from
          (latest_resume_artifact profile.id listing.id loaded) now)
        loaded)

unfoldable pub get_or_create_application :
    User → ℕ → String → ℕ → Store → Outcome (Store × Application)
get_or_create_application user listing_id channel now before = do
  (accounts, profile) ← get_active_profile user before.accounts
  let s = record before { accounts = accounts }
  listing ← open_listing user listing_id s.listings
  elim (find_first (is_for profile.id listing.id) s.applications.rows) [
    | some row ↦ ok (s, row)
    | none ↦ create_from_draft user profile listing channel now s
  ]

abbrev pub refresh_row : Option ApplyDraft → Option ResumeArtifact → Application → Application
refresh_row from artifact row = record row {
  cover_blurb = (elim from [ none ↦ row.cover_blurb | some d ↦ d.cover_blurb ]);
  answers = (elim from [ none ↦ row.answers | some d ↦ d.answers ]);
  resume_artifact_id = (elim artifact [ none ↦ row.resume_artifact_id | some r ↦ some r.id ]);
}

abbrev pub is_editable : ApplicationStatus → Bool
is_editable status = same_status status draft || same_status status ready

abbrev pub refresh_from : User → Application → ℕ → Store → Outcome (Store × Application)
refresh_from user row listing_id s = do
  (loaded, from) ← load_apply_draft user listing_id s
  let after = refresh_row from (latest_resume_artifact row.profile_id listing_id loaded) row
  ok (record loaded { applications = save after loaded.applications }, after)

abbrev pub refresh : User → Application → Store → Outcome (Store × Application)
refresh user row s = elim row.listing_id [
  | none ↦ ok (s, row)
  | some listing_id ↦ refresh_from user row listing_id s
]

pub refresh_application_snapshot : User → ℕ → Store → Outcome (Store × Application)
refresh_application_snapshot user i s = do
  row ← owned_application user i s.applications
  if is_editable row.status then refresh user row s else ok (s, row)

-- the texts of a transition request
pub record Details : Type 0 where
  pub note : String
  pub external_application_id : String
  pub external_url : String

abbrev pub given : String → String → String
given text old = if is_empty text then old else strip text

abbrev pub with_details : Details → Application → Application
with_details d row = record row {
  external_application_id = given d.external_application_id row.external_application_id;
  external_url = given d.external_url row.external_url;
  notes = given d.note row.notes;
}

abbrev pub moved_to : ApplicationStatus → ℕ → Application → Application
moved_to target now row = record row {
  status = target;
  last_status_at = now;
  applied_at =
      (if same_status target submitted
        then (elim row.applied_at [ none ↦ some now | some t ↦ some t ])
        else row.applied_at);
}

abbrev pub is_overlay_of : ℕ → ℕ → UserJob → Bool
is_overlay_of profile_id listing_id u =
    (elim u.profile_id [ none ↦ false | some p ↦ p == profile_id ]) && u.listing_id == listing_id

-- the job of the list is marked as applied to
abbrev pub mark_overlay : ApplicationStatus → Application → Table UserJob → Table UserJob
mark_overlay target row t =
    if same_status target submitted
    then (elim row.listing_id [
      | none ↦ t
      | some l ↦ elim (find_first (is_overlay_of row.profile_id l) t.rows) [
        | none ↦ t
        | some u ↦ save (record u { status = applied }) t
      ]
    ])
    else t

unfoldable pub transition_application :
    User → ℕ → String → Details → ℕ → Store → Outcome (Store × Application)
transition_application user i to_status d now s = do
  row ← owned_application user i s.applications
  elim (status_of (lower (strip to_status))) [
    | none ↦ raised value_error
    | some target ↦
        let detailed = with_details d row in
        let after = moved_to target now detailed in
        if same_status target row.status
        then ok (record s { applications = save detailed s.applications }, detailed)
        else if is_allowed row.status target
        then ok (
          record s {
            applications = save after s.applications;
            user_jobs = mark_overlay target row s.user_jobs;
            events = log row.id (some row.status) target (strip d.note) s.events;
          },
          after,
        )
        else raised value_error
  ]

abbrev pub is_event_of : ℕ → ApplicationEvent → Bool
is_event_of i e = e.application_id == i

-- `application_events`; rows are in the order of their ids, which is that of their creation
pub application_events : User → ℕ → Store → Outcome (List ApplicationEvent)
application_events user i s = do
  row ← owned_application user i s.applications
  ok (select (is_event_of row.id) s.events.rows)

-- `answers_for_application`
unfoldable pub answers_for_application : Application → List Answer
answers_for_application row =
    select (λ a. not (is_empty a.question) && not (is_empty a.answer)) row.answers
