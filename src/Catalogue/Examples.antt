-- ===== src/Catalogue/Examples.antt =====
-- A small sync: one source answers, another fails.
use vitae.Catalogue.{
  RawJob, close_missing_public_listings, new_public_listing, take_details, is_missing,
  upsert_public_listing,
}
use vitae.Catalogue.Open.{sync_public_jobs-keeps_open, sync_job-stays_open}
use vitae.Catalogue.Sources.{
  JobSource, JobSourceRecord, keyed_job_source, dedupe_raw_jobs, unseen, keyed_job_source_record,
}
use vitae.Catalogue.Sync.{
  SourceResult, Progress, sync_public_jobs, sync_sources, sync_jobs, sync_job, place_job, indexed,
  count_job, sync_source, url_index_of, known_url,
}
use vitae.Catalogue.Urls.{canonical_url}
use vitae.Common.{none, List, arith, true, some, [], ◌∷◌, ◌≡◌, ℕ, false, String, refl}
use vitae.Common.Table.{Table, get, get_row}
use vitae.Common.Text.{lower}
use vitae.Models.ListingRows.{JobListing, keyed_job_listing}
use vitae.Samples.{listing}

abbrev hash : String → String
hash s = "h"

abbrev token : ℕ → String
token i = "t"

abbrev raw_job : RawJob
raw_job = record {
  source = "acme";
  external_id = "a1";
  title = "Engineer";
  company = "Acme";
  location = "Lagos";
  url = "https://x.io/a1?ref=1";
  description = "d";
  salary = "";
  normalized_location = "";
  employment_type = "";
  remote_type = "";
  experience_level = "";
  salary_min = none;
  salary_max = none;
  salary_currency = "";
  posted_at = none;
  expires_at = none;
  source_updated_at = none;
}

-- an open listing of the source that fails, which no sync has seen for long
abbrev old_listing : JobListing
old_listing = record listing {
  source = "other";
  source_key = "other";
  scope_key = "public";
  visibility = "public";
  is_active = true;
  last_seen_at = 1;
  closed_at = none;
}

abbrev listings : Table JobListing
listings = record {
  rows = old_listing ∷ record old_listing { id = 6; source_key = "acme" } ∷ [];
  next_id = 7;
}

abbrev no_sources : Table JobSource
no_sources = record { rows = []; next_id = 1 }

abbrev no_records : Table JobSourceRecord
no_records = record { rows = []; next_id = 1 }

abbrev results : List SourceResult
results =
    record { label = "acme"; ok = true; batch = raw_job ∷ raw_job ∷ []; error = ""; at = 12 }
    ∷ record { label = "other"; ok = false; batch = []; error = "timeout"; at = 13 }
    ∷ []

abbrev after_sync : Progress × ℕ
after_sync = sync_public_jobs hash token 10 results 20 listings no_sources no_records

-- one job is new, one listing of the source that answered is closed
sync_created : after_sync.0.created ≡ 1
unfolding sync_public_jobs sync_sources sync_source sync_jobs unseen dedupe_raw_jobs canonical_url
    lower sync_job count_job known_url indexed url_index_of
sync_created = refl

sync_closed : after_sync.1 ≡ 1
unfolding sync_public_jobs close_missing_public_listings sync_sources sync_source sync_jobs unseen
    dedupe_raw_jobs canonical_url lower sync_job place_job known_url indexed url_index_of
    upsert_public_listing is_missing count_job new_public_listing take_details
sync_closed = refl

sync_public_jobs-keeps_open_example :
    (m : JobListing) × (get 5
        (sync_public_jobs hash token 10 results 20 listings no_sources no_records).0.listings
      ≡ some m)
    × (m.is_active ≡ true)
unfolding get_row
sync_public_jobs-keeps_open_example =
    sync_public_jobs-keeps_open hash token 10 results 20 5 listings no_sources no_records
      old_listing (omega arith, (omega arith, tt)) (omega arith, (omega arith, tt)) refl refl
      (refl, (refl, tt))

abbrev before_sync : Progress
before_sync = record {
  listings = listings;
  sources = no_sources;
  records = no_records;
  url_index = [];
  successful = [];
  created = 0;
  updated = 0;
  reopened = 0;
  fetched = 0;
  failed = 0;
}

sync_job-stays_open_example :
    let placed = place_job hash token "acme" 12 raw_job before_sync in
    let next = sync_job hash token "acme" 1 12 raw_job before_sync in
    let done =
      sync_sources hash token results (sync_jobs hash token "acme" 1 12 (raw_job ∷ []) next) in
    let left = close_missing_public_listings 10 (some done.successful) 20 done.listings in
    (m : JobListing) × (get placed.1 left.0 ≡ some m) × (m.is_active ≡ true)
sync_job-stays_open_example =
    sync_job-stays_open hash token 10 "acme" 1 12 20 raw_job (raw_job ∷ []) results before_sync
      (omega arith) (omega arith, (omega arith, tt)) (omega arith, (omega arith, tt))
