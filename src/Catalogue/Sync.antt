-- ===== src/Catalogue/Sync.antt =====
-- `sync_public_jobs` of app/services.py, with `dedupe_raw_jobs` of app/sources/utils.py: the results of
-- the sources are taken in one by one, and what a source no longer has is closed in the end.
use vitae.Catalogue.{
  RawJob, take_details, reopen, has_origin, upsert_public_listing, close_missing_public_listings,
}
use vitae.Catalogue.Sources.{
  JobSourceRecord, dedupe_raw_jobs, upsert_source_record, unseen, JobSource, upsert_source,
  keyed_job_source_record, keyed_job_source,
}
use vitae.Catalogue.Urls.{canonical_url}
use vitae.Common.{
  if◌then◌else◌, not, ◌+◌, none, Option, find_first, some, [], str_eq, ◌∷◌, List, ◌&&◌, suc, String,
  Bool, length, ℕ,
}
use vitae.Common.Table.{Table, amend, save, get}
use vitae.Common.Text.{or_text, is_empty, clip}
use vitae.Models.ListingRows.{JobListing, keyed_job_listing}

-- The tables that a sync writes, the index of the public listings by URL, newest entry first, and the
-- counts. The index holds ids of rows.
pub record Progress : Type 0 where
  pub listings : Table JobListing
  pub sources : Table JobSource
  pub records : Table JobSourceRecord
  pub url_index : List (String × ℕ)
  pub successful : List String
  pub created : ℕ
  pub updated : ℕ
  pub reopened : ℕ
  pub fetched : ℕ
  pub failed : ℕ

unfoldable pub indexed : String → List (String × ℕ) → Option ℕ
indexed url [] = none
indexed url ((u, i) ∷ rest) = let found = indexed url rest in if str_eq u url then some i else found

-- `url_index` from the public rows that have a URL
unfoldable pub url_index_of : List JobListing → List (String × ℕ) → List (String × ℕ)
url_index_of [] index = index
url_index_of (l ∷ ls) index =
    let key = canonical_url l.url in
    let more = url_index_of ls ((key, l.id) ∷ index) in
    let same = url_index_of ls index in
    if str_eq l.scope_key "public" && not (is_empty key) then more else same

-- the branch for a known URL under another source's id
unfoldable pub merge_listing : RawJob → ℕ → JobListing → JobListing
merge_listing raw now l =
    reopen now (record (take_details raw l) { title = or_text raw.title l.title })

-- What a batch says of one source.
pub record SourceResult : Type 0 where
  pub label : String
  pub ok : Bool
  pub batch : List RawJob
  pub error : String
  pub at : ℕ

module _ (sha256_hex : String → String) (token : ℕ → String) where
  -- the listing of a job of which another source has stored the URL
  unfoldable pub known_url : RawJob → Progress → Option JobListing
  known_url raw p =
      let canon = canonical_url raw.url in
      if is_empty canon
      then none
      else (elim (indexed canon p.url_index) [ none ↦ none | some i ↦ get i p.listings ])

  -- the table of listings after one job, and the id of its listing
  unfoldable pub place_job : String → ℕ → RawJob → Progress → Table JobListing × ℕ
  place_job label now raw p =
      let upserted = upsert_public_listing sha256_hex token raw label now p.listings in
      elim (find_first (has_origin raw.source raw.external_id) p.listings.rows) [
        | some before ↦ upserted
        | none ↦ elim (known_url raw p) [
          | none ↦ upserted
          | some l ↦ (
            record p.listings { rows = amend l.id (merge_listing raw now) p.listings.rows },
            l.id,
          )
        ]
      ]

  -- the counts and the index after one job
  unfoldable pub count_job : RawJob → ℕ → Progress → Progress
  count_job raw listing_id p =
      let closed : JobListing → ℕ = λ l. if l.is_active then 0 else 1 in
      let canon = canonical_url raw.url in
      let again : JobListing → Progress =
        λ l. record p { updated = suc p.updated; reopened = p.reopened + closed l } in
      elim (find_first (has_origin raw.source raw.external_id) p.listings.rows) [
        | some before ↦ again before
        | none ↦ elim (known_url raw p) [
          | some l ↦ again l
          | none ↦ record p {
            created = suc p.created;
            url_index = if is_empty canon then p.url_index else (canon, listing_id) ∷ p.url_index;
          }
        ]
      ]

  -- one round of the loop over a batch
  unfoldable pub sync_job : String → ℕ → ℕ → RawJob → Progress → Progress
  sync_job label source_id now raw p =
      let placed = place_job label now raw p in
      record (count_job raw placed.1 p) {
        listings = placed.0;
        records = upsert_source_record source_id placed.1 raw now p.records;
      }

  unfoldable pub sync_jobs : String → ℕ → ℕ → List RawJob → Progress → Progress
  sync_jobs label source_id now [] p = p
  sync_jobs label source_id now (raw ∷ raws) p =
      sync_jobs label source_id now raws (sync_job label source_id now raw p)

  -- one round of the loop over the results of the sources
  unfoldable pub sync_source : SourceResult → Progress → Progress
  sync_source result p =
      let (sources, source) = upsert_source result.label p.sources in
      let batch = dedupe_raw_jobs result.batch in
      let begun = record source { last_started_at = some result.at } in
      let bad = record begun {
        last_error_at = some result.at;
        last_error = clip 4000 result.error;
        consecutive_failures = suc source.consecutive_failures;
      } in
      let good = record begun {
        last_success_at = some result.at;
        last_error = "";
        consecutive_failures = 0;
        last_fetched_count = length result.batch;
      } in
      let taken = record p {
        sources = save good sources;
        successful = result.label ∷ p.successful;
        fetched = p.fetched + length batch;
      } in
      if result.ok
      then sync_jobs result.label source.id result.at (unseen [] batch) taken
      else record p { sources = save bad sources; failed = suc p.failed }

  unfoldable pub sync_sources : List SourceResult → Progress → Progress
  sync_sources [] p = p
  sync_sources (r ∷ rs) p = sync_sources rs (sync_source r p)

  -- `sync_public_jobs` that meets no exception, from its start to the time of the closing: the tables
  -- and the counts, and the number of listings that were closed
  unfoldable pub sync_public_jobs :
      ℕ
      → List SourceResult
      → ℕ
      → Table JobListing
      → Table JobSource
      → Table JobSourceRecord
      → Progress × ℕ
  sync_public_jobs started results now listings sources records =
      let first : Progress = record {
        listings = listings;
        sources = sources;
        records = records;
        url_index = url_index_of listings.rows [];
        successful = [];
        created = 0;
        updated = 0;
        reopened = 0;
        fetched = 0;
        failed = 0;
      } in
      let done = sync_sources results first in
      let (left, closed) =
        close_missing_public_listings started (some done.successful) now done.listings in
      (record done { listings = left }, closed)
