-- ===== src/Samples.antt =====
-- Concrete rows that the examples of several parts run on.
use vitae.Accounts.{default_profile}
use vitae.Common.{true, some, ◌∷◌, none, [], false}
use vitae.Common.Table.{Table}
use vitae.Models.{Store}
use vitae.Models.AccountRows.{User, ProfileBilling, Accounts, keyed_user, keyed_profile_billing}
use vitae.Models.ApplicationRows.{draft, Application, keyed_application}
use vitae.Models.AutoApplyRows.{
  AutoApplyRunStatus, AutoApplyItemStatus, AutoApplyRun, AutoApplyItem, keyed_auto_apply_item,
  keyed_auto_apply_run,
}
use vitae.Models.ListingRows.{JobListing, keyed_job_listing}

abbrev pub ada : User
ada = record { id = 7; full_name = "Ada"; email = "ada@x.io"; active_profile_id = some 1 }

abbrev pub billing_row : ProfileBilling
billing_row = record {
  profile_id = 1;
  user_id = 7;
  plan = "none";
  billing_region = "ng";
  bachs_customer_id = "cus_1";
  bachs_subscription_id = "";
  subscription_status = "";
  last_checkout_id = "";
}

abbrev pub accounts : Accounts
accounts = record {
  users = record { rows = ada ∷ []; next_id = 8 };
  profiles = record { rows = default_profile ada 1 ∷ []; next_id = 2 };
  billing = record { rows = billing_row ∷ []; next_id = 1 };
  settings = 7 ∷ [];
  ready = 7 ∷ [];
}

abbrev pub listing : JobListing
listing = record {
  id = 5;
  public_id = "p5";
  source = "boards";
  external_id = "e5";
  title = "Engineer";
  company = "Acme";
  location = "Remote";
  url = "https://acme.example/5";
  description = "";
  salary = "";
  canonical_key = "";
  source_key = "";
  normalized_location = "";
  employment_type = "";
  remote_type = "";
  experience_level = "";
  salary_min = none;
  salary_max = none;
  salary_currency = "";
  posted_at = none;
  expires_at = none;
  source_updated_at = none;
  visibility = "public";
  scope_key = "";
  owner_user_id = none;
  is_active = true;
  last_seen_at = 0;
  closed_at = none;
}

abbrev nothing : {A : Type 0} → Table A
nothing = record { rows = []; next_id = 1 }

-- a user with one listing to apply to, and nothing else
abbrev pub empty_store : Store
empty_store = record {
  accounts = accounts;
  listings = record { rows = listing ∷ []; next_id = 6 };
  user_jobs = nothing;
  drafts = nothing;
  generations = nothing;
  artifacts = nothing;
  applications = nothing;
  events = nothing;
  runs = nothing;
  items = nothing;
  jobs = nothing;
}

abbrev pub run : AutoApplyRun
run = record {
  id = 1;
  user_id = 7;
  profile_id = 1;
  status = AutoApplyRunStatus.running;
  max_applications = 10;
  prepared_count = 0;
  submitted_count = 0;
  failed_count = 0;
  requires_review = true;
  idempotency_key = "k";
  started_at = some 3;
  completed_at = none;
}

abbrev pub item : AutoApplyItem
item = record {
  id = 4;
  run_id = 1;
  application_id = some 1;
  listing_id = 5;
  status = AutoApplyItemStatus.ready;
  attempt_count = 0;
  requires_review = false;
  review_reason = "";
  last_error = "";
}

abbrev pub application : Application
application = record {
  id = 1;
  user_id = 7;
  profile_id = 1;
  listing_id = some 5;
  resume_artifact_id = none;
  status = draft;
  channel = "auto_apply";
  external_url = "";
  external_application_id = "";
  cover_blurb = "";
  answers = [];
  notes = "";
  applied_at = none;
  last_status_at = 2;
}

-- a running batch with one item that is ready
abbrev pub batch_store : Store
batch_store = record empty_store {
  applications = record { rows = application ∷ []; next_id = 2 };
  runs = record { rows = run ∷ []; next_id = 2 };
  items = record { rows = item ∷ []; next_id = 5 };
}
