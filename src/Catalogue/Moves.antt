-- ===== src/Catalogue/Moves.antt =====
-- The rounds of a sync leave each listing as it is or see it again, and lose none.
use vitae.Catalogue.{RawJob}
use vitae.Catalogue.Advance.{IsBounded, Advances-trans, Advances-refl, place_job-IsPlaced, Advances}
use vitae.Catalogue.Sources.{keyed_job_source, upsert_source, dedupe_raw_jobs, unseen}
use vitae.Catalogue.Sync.{Progress, SourceResult, sync_job, sync_jobs, sync_source, sync_sources}
use vitae.Common.{
  some, ℕ, List, [], true, String, ◌∷◌, ◌≤◌, false, Bool, ◌+◌, All, length, if◌then◌else◌,
}
use vitae.Common.Table.{save}
use vitae.Models.ListingRows.{keyed_job_listing}

-- what a part of a sync does to the listings
pub record Moves (started : ℕ) (p q : Progress) : Type 0 where
  pub advances : Advances started p.listings q.listings
  pub bounded : IsBounded q.listings

pick-Moves :
    (started : ℕ) (p : Progress) (b : Bool) (q r : Progress)
    → Moves started p q
    → Moves started p r
    → Moves started p (if b then q else r)
pick-Moves started p true q r h k = h
pick-Moves started p false q r h k = k

module _ (sha256_hex : String → String) (token : ℕ → String) (started : ℕ) where
  sync_job-Moves :
      (label : String) (source_id now : ℕ) (raw : RawJob) (p : Progress)
      → started ≤ now
      → IsBounded p.listings
      → Moves started p (sync_job sha256_hex token label source_id now raw p)
  unfolding sync_job
  sync_job-Moves label source_id now raw p late b =
      let step = place_job-IsPlaced started now late sha256_hex token label raw p b in
      record { advances = step.advances; bounded = step.bounded }

  pub sync_jobs-Moves :
      (label : String) (source_id now : ℕ) (raws : List RawJob) (p : Progress)
      → started ≤ now
      → IsBounded p.listings
      → Moves started p (sync_jobs sha256_hex token label source_id now raws p)
  unfolding sync_jobs
  sync_jobs-Moves label source_id now [] p late b = record {
    advances = Advances-refl started p.listings;
    bounded = b;
  }
  sync_jobs-Moves label source_id now (raw ∷ raws) p late b =
      let step = sync_job-Moves label source_id now raw p late b in
      let next = sync_job sha256_hex token label source_id now raw p in
      let on = sync_jobs-Moves label source_id now raws next late step.bounded in
      let last = sync_jobs sha256_hex token label source_id now raws next in
      record {
        advances =
            Advances-trans started p.listings next.listings last.listings step.advances on.advances;
        bounded = on.bounded;
      }

  sync_source-Moves :
      (r : SourceResult) (p : Progress)
      → started ≤ r.at
      → IsBounded p.listings
      → Moves started p (sync_source sha256_hex token r p)
  unfolding sync_source
  sync_source-Moves r p late b =
      let source = upsert_source r.label p.sources in
      let begun = record source.1 { last_started_at = some r.at } in
      let good = record begun {
        last_success_at = some r.at;
        last_error = "";
        consecutive_failures = 0;
        last_fetched_count = length r.batch;
      } in
      let taken : Progress = record p {
        sources = save good source.0;
        successful = r.label ∷ p.successful;
        fetched = p.fetched + length (dedupe_raw_jobs r.batch);
      } in
      let on =
        sync_jobs-Moves r.label source.1.id r.at (unseen [] (dedupe_raw_jobs r.batch)) taken late
          b in
      pick-Moves started p r.ok _ _ (record { advances = on.advances; bounded = on.bounded })
        (record { advances = Advances-refl started p.listings; bounded = b })

  pub sync_sources-Moves :
      (rs : List SourceResult) (p : Progress)
      → All (λ r. started ≤ r.at) rs
      → IsBounded p.listings
      → Moves started p (sync_sources sha256_hex token rs p)
  unfolding sync_sources
  sync_sources-Moves [] p late b = record {
    advances = Advances-refl started p.listings;
    bounded = b;
  }
  sync_sources-Moves (r ∷ rs) p late b =
      let step = sync_source-Moves r p late.0 b in
      let next = sync_source sha256_hex token r p in
      let on = sync_sources-Moves rs next late.1 step.bounded in
      let last = sync_sources sha256_hex token rs next in
      record {
        advances =
            Advances-trans started p.listings next.listings last.listings step.advances on.advances;
        bounded = on.bounded;
      }
