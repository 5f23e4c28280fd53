-- ===== src/Catalogue/Open.antt =====
-- Which listings are open after a sync.
use vitae.Catalogue.{RawJob, close_missing_public_listings, is_missing, close_row, has_origin}
use vitae.Catalogue.Advance.{IsFresh, IsBounded, place_job-IsPlaced, FreshAt-Advances}
use vitae.Catalogue.Moves.{sync_sources-Moves, sync_jobs-Moves}
use vitae.Catalogue.Sources.{
  JobSource, JobSourceRecord, keyed_job_source, upsert_source, dedupe_raw_jobs, unseen,
  keyed_job_source_record,
}
use vitae.Catalogue.Sync.{
  count_job, known_url, sync_public_jobs, url_index_of, Progress, SourceResult, sync_job, sync_jobs,
  sync_source, sync_sources, place_job,
}
use vitae.Catalogue.Urls.{canonical_url}
use vitae.Common.{
  some, ℕ, List, [], true, String, map, ◌∷◌, arith, ◌≤◌, refl, ◌≡◌, false, none, ◌+◌, All, length,
  if◌then◌else◌, sym, ◌&&◌, inr, ◌∙◌, suc, inl, find_first, ap, str_eq, Option,
}
use vitae.Common.Table.{Table, get_row, get, save}
use vitae.Common.Text.{is_empty}
use vitae.Common.Texts.{mem_text}
use vitae.Models.ListingRows.{JobListing, keyed_job_listing}

get_row-map :
    (i : ℕ) (f : JobListing → JobListing) (ls : List JobListing)
    → ((l : JobListing) → (f l).id ≡ l.id)
    → get_row i (map f ls) ≡ (elim (get_row i ls) [ none ↦ none | some l ↦ some (f l) ])
unfolding get_row
get_row-map i f [] keeps = refl
get_row-map i f (l ∷ ls) keeps = ground (arith, keeps l, get_row-map i f ls keeps)

-- the row with this id after the closing
close-get :
    (started : ℕ) (keys : List String) (now i : ℕ) (t : Table JobListing) {l : JobListing}
    → get i t ≡ some l
    → get i (close_missing_public_listings started (some keys) now t).0
      ≡ some (close_row (is_missing started (some keys)) now l)
unfolding close_missing_public_listings
close-get started keys now i t {l} h =
    let f = close_row (is_missing started (some keys)) now in
    let keeps : (m : JobListing) → (f m).id ≡ m.id = λ m. ground arith in
    ground (arith, h, get_row-map i f t.rows keeps)

close-IsFresh :
    (started : ℕ) (keys : List String) (now : ℕ) (l : JobListing)
    → IsFresh started l
    → (close_row (is_missing started (some keys)) now l).is_active ≡ true
unfolding is_missing
close-IsFresh started keys now l fresh = ground (arith, fresh.active, fresh.seen)

close-other :
    (started : ℕ) (keys : List String) (now : ℕ) (l : JobListing)
    → l.is_active ≡ true
    → mem_text l.source_key keys ≡ false
    → (close_row (is_missing started (some keys)) now l).is_active ≡ true
unfolding is_missing
close-other started keys now l active other = ground (arith, active, other)

module _ (sha256_hex : String → String) (token : ℕ → String) (started : ℕ) where
  count_job-successful :
      (raw : RawJob) (i : ℕ) (p : Progress)
      → (count_job sha256_hex token raw i p).successful ≡ p.successful
  unfolding count_job
  count_job-successful raw i p =
      go (find_first (has_origin raw.source raw.external_id) p.listings.rows)
        (known_url sha256_hex token raw p)
    where
      more : List (String × ℕ)
      more =
          if is_empty (canonical_url raw.url)
          then p.url_index
          else (canonical_url raw.url, i) ∷ p.url_index

      again : JobListing → Progress
      again l = record p {
        updated = suc p.updated;
        reopened = p.reopened + (if l.is_active then 0 else 1);
      }

      go :
          (o u : Option JobListing)
          → (elim o as (λ _. Progress) [
            | some l ↦ again l
            | none ↦ elim u as (λ _. Progress) [
              | some l ↦ again l
              | none ↦ record p { created = suc p.created; url_index = more }
            ]
          ]).successful
            ≡ p.successful
      go (some l) u = refl
      go none (some l) = refl
      go none none = refl

  sync_jobs-successful :
      (label : String) (source_id now : ℕ) (raws : List RawJob) (p : Progress)
      → (sync_jobs sha256_hex token label source_id now raws p).successful ≡ p.successful
  unfolding sync_jobs sync_job
  sync_jobs-successful label source_id now [] p = refl
  sync_jobs-successful label source_id now (raw ∷ raws) p =
      sync_jobs-successful label source_id now raws
        (sync_job sha256_hex token label source_id now raw p)
      ∙ count_job-successful raw (place_job sha256_hex token label now raw p).1 p

  sync_source-successful :
      (key : String) (r : SourceResult) (p : Progress)
      → (r.ok && str_eq key r.label) ≡ false
      → mem_text key p.successful ≡ false
      → mem_text key (sync_source sha256_hex token r p).successful ≡ false
  unfolding sync_source
  sync_source-successful key r p other h =
      let source = upsert_source r.label p.sources in
      let begun = record source.1 { last_started_at = some r.at } in
      let good = record begun {
        last_success_at = some r.at;
        last_error = "";
        consecutive_failures = 0;
        last_fetched_count = length r.batch;
      } in
      let taken : Progress = record p {
        sources = save good source.0;
        successful = r.label ∷ p.successful;
        fetched = p.fetched + length (dedupe_raw_jobs r.batch);
      } in
      let kept =
        sync_jobs-successful r.label source.1.id r.at (unseen [] (dedupe_raw_jobs r.batch)) taken in
      ground (arith, other, h, kept)

  sync_sources-successful :
      (key : String) (rs : List SourceResult) (p : Progress)
      → All (λ r. (r.ok && str_eq key r.label) ≡ false) rs
      → mem_text key p.successful ≡ false
      → mem_text key (sync_sources sha256_hex token rs p).successful ≡ false
  unfolding sync_sources
  sync_sources-successful key [] p other h = h
  sync_sources-successful key (r ∷ rs) p other h =
      sync_sources-successful key rs (sync_source sha256_hex token r p) other.1
        (sync_source-successful key r p other.0 h)

  -- A sync closes no listing of a source whose jobs it did not get: a listing that was open, and whose
  -- source is the label of no successful result, is open after a sync, if the results were taken in
  -- after its start and the ids of the table are below its next one.
  pub sync_public_jobs-keeps_open :
      (rs : List SourceResult) (now i : ℕ) (listings : Table JobListing) (sources : Table JobSource)
      (records : Table JobSourceRecord) (l : JobListing)
      → All (λ r. started ≤ r.at) rs
      → IsBounded listings
      → get i listings ≡ some l
      → l.is_active ≡ true
      → All (λ r. (r.ok && str_eq l.source_key r.label) ≡ false) rs
      → (m : JobListing) × (get i
            (sync_public_jobs sha256_hex token started rs now listings sources records).0.listings
          ≡ some m)
        × (m.is_active ≡ true)
  unfolding sync_public_jobs
  sync_public_jobs-keeps_open rs now i listings sources records l late b h active other =
      let first : Progress = record {
        listings = listings;
        sources = sources;
        records = records;
        url_index = url_index_of listings.rows [];
        successful = [];
        created = 0;
        updated = 0;
        reopened = 0;
        fetched = 0;
        failed = 0;
      } in
      let done = sync_sources sha256_hex token rs first in
      let (m, at_m, how) =
        (sync_sources-Moves sha256_hex token started rs first late b).advances i l h in
      let keys = done.successful in
      (
        close_row (is_missing started (some keys)) now m,
        close-get started keys now i done.listings {l = m} at_m,
        elim how [
          | inr fresh ↦ close-IsFresh started keys now m fresh
          | inl same ↦
              let kept : m.is_active ≡ true = ap (λ x. x.is_active) (sym same) ∙ active in
              let away : mem_text m.source_key keys ≡ false =
                ap (λ x. mem_text x.source_key keys) (sym same)
                ∙ sync_sources-successful l.source_key rs first other refl in
              close-other started keys now m kept away
        ],
      )

  -- A job that a sync takes in has an open listing afterwards, whatever is taken in after it in this
  -- sync and whatever is closed in the end, if nothing is taken in before its start and the ids of the
  -- table were below its next one.
  pub sync_job-stays_open :
      (label : String) (source_id at now : ℕ) (raw : RawJob) (raws : List RawJob)
      (rs : List SourceResult) (p : Progress)
      → started ≤ at
      → All (λ r. started ≤ r.at) rs
      → IsBounded p.listings
      → let placed = place_job sha256_hex token label at raw p in
        let next = sync_job sha256_hex token label source_id at raw p in
        let done =
          sync_sources sha256_hex token rs
            (sync_jobs sha256_hex token label source_id at raws next) in
        let left = close_missing_public_listings started (some done.successful) now done.listings in
        (m : JobListing) × (get placed.1 left.0 ≡ some m) × (m.is_active ≡ true)
  unfolding sync_job
  sync_job-stays_open label source_id at now raw raws rs p late later b =
      let step = place_job-IsPlaced started at late sha256_hex token label raw p b in
      let next = sync_job sha256_hex token label source_id at raw p in
      let batch =
        sync_jobs-Moves sha256_hex token started label source_id at raws next late step.bounded in
      let after = sync_jobs sha256_hex token label source_id at raws next in
      let rest = sync_sources-Moves sha256_hex token started rs after later batch.bounded in
      let done = sync_sources sha256_hex token rs after in
      let i = (place_job sha256_hex token label at raw p).1 in
      let soon =
        FreshAt-Advances started i next.listings after.listings step.fresh batch.advances in
      let (m, at_m, fresh) =
        FreshAt-Advances started i after.listings done.listings soon rest.advances in
      (
        _,
        close-get started done.successful now i done.listings {l = m} at_m,
        close-IsFresh started done.successful now m fresh,
      )
