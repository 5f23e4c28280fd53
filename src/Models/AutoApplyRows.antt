-- ===== src/Models/AutoApplyRows.antt =====
-- `AutoApplyRunStatus`, `AutoApplyItemStatus`, `AutoApplyRun` and `AutoApplyItem` of app/models.py.
use vitae.Common.{ℕ, String, Option, Bool}
use vitae.Common.Table.{Keyed}

pub data AutoApplyRunStatus : Type 0 where
  queued running paused completed failed cancelled : AutoApplyRunStatus

pub data AutoApplyItemStatus : Type 0 where
  queued preparing ready submitted skipped failed needs_review : AutoApplyItemStatus

pub record AutoApplyRun : Type 0 where
  pub id : ℕ
  pub user_id : ℕ
  pub profile_id : ℕ
  pub status : AutoApplyRunStatus
  pub max_applications : ℕ
  pub prepared_count : ℕ
  pub submitted_count : ℕ
  pub failed_count : ℕ
  pub requires_review : Bool
  pub idempotency_key : String
  pub started_at : Option ℕ
  pub completed_at : Option ℕ

pub record AutoApplyItem : Type 0 where
  pub id : ℕ
  pub run_id : ℕ
  pub application_id : Option ℕ
  pub listing_id : ℕ
  pub status : AutoApplyItemStatus
  pub attempt_count : ℕ
  pub requires_review : Bool
  pub review_reason : String
  pub last_error : String

instance abbrev pub keyed_auto_apply_run : Keyed AutoApplyRun
keyed_auto_apply_run = record { id_of = λ r. r.id }

instance abbrev pub keyed_auto_apply_item : Keyed AutoApplyItem
keyed_auto_apply_item = record { id_of = λ r. r.id }
