-- ===== src/Models.antt =====
-- The rows of app/models.py that several parts share, and the database as one value.
pub mod AccountRows
pub mod ListingRows
pub mod ApplicationRows
pub mod AutoApplyRows
use vitae.Common.Table.{Table}
use vitae.Models.AccountRows.{Accounts}
use vitae.Models.ApplicationRows.{
  Application, ApplicationEvent, keyed_application, keyed_application_event,
}
use vitae.Models.AutoApplyRows.{
  AutoApplyItem, AutoApplyRun, keyed_auto_apply_item, keyed_auto_apply_run,
}
use vitae.Models.ListingRows.{
  ResumeGeneration, ResumeArtifact, JobListing, ApplyDraft, UserJob, keyed_user_job,
  keyed_job_listing, keyed_resume_generation, keyed_apply_draft, keyed_resume_artifact,
}
use vitae.Queue.Row.{WorkerJob}

-- The database that requests and workers share: the accounts, the catalogue with each user's
-- overlays and drafts, the generated CVs, the applications with their history, the auto-apply
-- batches and the worker queue.
pub record Store : Type 0 where
  pub accounts : Accounts
  pub listings : Table JobListing
  pub user_jobs : Table UserJob
  pub drafts : Table ApplyDraft
  pub generations : Table ResumeGeneration
  pub artifacts : Table ResumeArtifact
  pub applications : Table Application
  pub events : Table ApplicationEvent
  pub runs : Table AutoApplyRun
  pub items : Table AutoApplyItem
  pub jobs : Table WorkerJob
