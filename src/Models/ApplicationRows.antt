-- ===== src/Models/ApplicationRows.antt =====
-- `ApplicationStatus`, `Application` and `ApplicationEvent` of app/models.py.
use vitae.Common.{String, ℕ, Option, List}
use vitae.Common.Table.{Keyed}
use vitae.Models.ListingRows.{Answer}

pub data ApplicationStatus : Type 0 where
  draft ready submitted screening interview offer rejected withdrawn : ApplicationStatus

pub record Application : Type 0 where
  pub id : ℕ
  pub user_id : ℕ
  pub profile_id : ℕ
  pub listing_id : Option ℕ
  pub resume_artifact_id : Option ℕ
  pub status : ApplicationStatus
  pub channel : String
  pub external_url : String
  pub external_application_id : String
  pub cover_blurb : String
  pub answers : List Answer
  pub notes : String
  pub applied_at : Option ℕ
  pub last_status_at : ℕ

pub record ApplicationEvent : Type 0 where
  pub id : ℕ
  pub application_id : ℕ
  pub from_status : Option ApplicationStatus
  pub to_status : ApplicationStatus
  pub note : String

instance abbrev pub keyed_application : Keyed Application
keyed_application = record { id_of = λ r. r.id }

instance abbrev pub keyed_application_event : Keyed ApplicationEvent
keyed_application_event = record { id_of = λ r. r.id }
