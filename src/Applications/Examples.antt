-- ===== src/Applications/Examples.antt =====
-- An application from its creation to an interview.
use vitae.Accounts.{default_profile, ensure_account, get_active_profile}
use vitae.Applications.{
  owned_application, Details, new_application, get_or_create_application, transition_application,
  is_event_of,
}
use vitae.Applications.History.{IsChronicle}
use vitae.Applications.Requests.{
  open_application, answer_all-IsChronicle, ApplicationRequest, move_application, answer_all,
}
use vitae.Applications.Strangers.{answer_all-keeps_foreign}
use vitae.Common.{◌∷◌, map, refl, [], ◌≡◌, ℕ, List, some, arith, Memᴰ, select}
use vitae.Common.Table.{get_row, lowest, put_row, get}
use vitae.Common.Text.{strip, lower}
use vitae.Drafts.{load_apply_draft, listing_accessible}
use vitae.Lifecycle.{rank, is_allowed, status_of}
use vitae.Models.AccountRows.{User, keyed_user}
use vitae.Models.ApplicationRows.{Application, keyed_application, submitted}
use vitae.Resumes.{latest_resume_artifact}
use vitae.Samples.{application, ada, empty_store, listing, batch_store}

abbrev stranger : User
stranger = record ada { id = 8 }

abbrev no_details : Details
no_details = record { note = ""; external_application_id = ""; external_url = "" }

abbrev requests : List (User × ApplicationRequest × ℕ)
requests =
    (ada, open_application 5 "", 10) ∷ (ada, move_application 1 " Submitted " no_details, 20) ∷ []

empty_store-IsChronicle : IsChronicle empty_store
unfolding IsChronicle
empty_store-IsChronicle = (tt, tt)

statuses :
    map (λ (a : Application). rank a.status) (answer_all requests empty_store).applications.rows
    ≡ 2 ∷ []
unfolding answer_all get_or_create_application get_active_profile ensure_account default_profile
    transition_application load_apply_draft listing_accessible latest_resume_artifact
    new_application owned_application status_of is_allowed strip lower get_row put_row lowest
statuses = refl

answer_all-IsChronicle_example : IsChronicle (answer_all requests empty_store)
answer_all-IsChronicle_example = answer_all-IsChronicle requests empty_store empty_store-IsChronicle

abbrev applied_for : Application
applied_for = record application {
  channel = "manual";
  external_url = listing.url;
  status = submitted;
  applied_at = some 20;
  last_status_at = 20;
}

applied_for-mem : Memᴰ applied_for (answer_all requests empty_store).applications.rows
unfolding answer_all get_or_create_application get_active_profile ensure_account default_profile
    transition_application load_apply_draft listing_accessible latest_resume_artifact
    new_application owned_application status_of is_allowed strip lower get_row put_row lowest
applied_for-mem = Memᴰ.head refl

abbrev strangers_requests : List (User × ApplicationRequest × ℕ)
strangers_requests =
    (stranger, move_application 1 "submitted" no_details, 9)
    ∷ (stranger, open_application 5 "", 10)
    ∷ []

answer_all-keeps_foreign_example :
    (get 1 (answer_all strangers_requests batch_store).applications ≡ some application)
    × (select (is_event_of 1) (answer_all strangers_requests batch_store).events.rows
        ≡ select (is_event_of 1) batch_store.events.rows)
unfolding get_row
answer_all-keeps_foreign_example =
    answer_all-keeps_foreign strangers_requests batch_store 1 application refl (omega arith)
      ((λ e. absurd (omega (arith, e))), ((λ e. absurd (omega (arith, e))), tt))
