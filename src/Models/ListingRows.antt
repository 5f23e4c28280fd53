-- ===== src/Models/ListingRows.antt =====
-- `JobListing`, `UserJob`, `ApplyDraft`, `ResumeGeneration` and `ResumeArtifact` of app/models.py.
use vitae.Common.{Option, Bool, String, ℕ, List}
use vitae.Common.Table.{Keyed}

pub record JobListing : Type 0 where
  pub id : ℕ
  pub public_id : String
  pub source : String
  pub external_id : String
  pub title : String
  pub company : String
  pub location : String
  pub url : String
  pub description : String
  pub salary : String
  pub canonical_key : String
  pub source_key : String
  pub normalized_location : String
  pub employment_type : String
  pub remote_type : String
  pub experience_level : String
  pub salary_min : Option ℕ
  pub salary_max : Option ℕ
  pub salary_currency : String
  pub posted_at : Option ℕ
  pub expires_at : Option ℕ
  pub source_updated_at : Option ℕ
  pub visibility : String
  pub scope_key : String
  pub owner_user_id : Option ℕ
  pub is_active : Bool
  pub last_seen_at : ℕ
  pub closed_at : Option ℕ

pub data JobStatus : Type 0 where
  new cv_ready applied skipped : JobStatus

pub record UserJob : Type 0 where
  pub id : ℕ
  pub user_id : ℕ
  pub profile_id : Option ℕ
  pub listing_id : ℕ
  pub status : JobStatus

-- an answer of the apply form; the JSON of `answers_json` is a list of such
pub record Answer : Type 0 where
  pub question : String
  pub answer : String

pub record ApplyDraft : Type 0 where
  pub id : ℕ
  pub user_id : ℕ
  pub profile_id : ℕ
  pub listing_id : ℕ
  pub cover_blurb : String
  pub answers : List Answer

pub record ResumeGeneration : Type 0 where
  pub id : ℕ
  pub profile_id : ℕ
  pub listing_id : Option ℕ
  pub status : String
  pub created_at : ℕ

pub record ResumeArtifact : Type 0 where
  pub id : ℕ
  pub generation_id : ℕ
  pub format : String

instance abbrev pub keyed_job_listing : Keyed JobListing
keyed_job_listing = record { id_of = λ r. r.id }

instance abbrev pub keyed_user_job : Keyed UserJob
keyed_user_job = record { id_of = λ r. r.id }

instance abbrev pub keyed_apply_draft : Keyed ApplyDraft
keyed_apply_draft = record { id_of = λ r. r.id }

instance abbrev pub keyed_resume_generation : Keyed ResumeGeneration
keyed_resume_generation = record { id_of = λ r. r.id }

instance abbrev pub keyed_resume_artifact : Keyed ResumeArtifact
keyed_resume_artifact = record { id_of = λ r. r.id }
