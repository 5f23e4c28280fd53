-- ===== src/JobList.antt =====
-- The job list of app/services.py: the stored scores of a profile, searching the listings by them, and
-- the cards of a page. The profile's skills and settings and their fingerprint are arguments.
pub mod Search
pub mod Refresh
pub mod Pages
pub mod Top
mod Examples
use vitae.Catalogue.{visible_listings_query}
use vitae.Common.{List, Bool, Option, [], ℕ, String, ◌∷◌, some, length, true}
use vitae.Common.Table.{Table}
use vitae.Matching.{Versioned}
use vitae.Matching.Points.{Settings}
use vitae.Models.ListingRows.{JobListing, keyed_job_listing}
use vitae.ScoreCache.{
  ListingMatchScore, Rating, upsert_match_score, load_all_scores_for_profile, by_listing,
  score_listing_cached, keyed_listing_match_score,
}
use vitae.ScoreCache.Refines.{scores}

-- What the scoring of a profile depends on, and the two texts into which results are written.
pub record Scoring : Type 0 where
  pub compile : String → String → Bool
  pub skills : List String
  pub cfg : Settings
  pub fingerprint : String
  pub reasons_to_json : List String → String
  pub result_to_json : Versioned → String

-- the call of `upsert_match_score` for one listing
unfoldable pub rating_of : Scoring → ℕ → JobListing → Rating
rating_of s profile_id listing =
    let (score, reasons, result) = score_listing_cached s.compile listing s.skills s.cfg in
    record {
      profile_id = profile_id;
      listing_id = listing.id;
      match_score = score;
      match_reasons = s.reasons_to_json reasons;
      breakdown_json = s.result_to_json result;
      algorithm_version = some "v2";
      fingerprint = s.fingerprint;
    }

-- the loop of `refresh_profile_match_scores`, with the rows that were there at its start; nobody else
-- writes scores of the profile meanwhile
unfoldable pub refresh_all :
    Scoring
    → ℕ
    → ℕ
    → (ℕ → Option ListingMatchScore)
    → List JobListing
    → Table ListingMatchScore
    → Table ListingMatchScore
refresh_all s profile_id now existing [] t = t
refresh_all s profile_id now existing (l ∷ ls) t =
    refresh_all s profile_id now existing ls
      (upsert_match_score (rating_of s profile_id l) now (existing l.id) t t)

-- `refresh_profile_match_scores`: the scores afterwards, and the number of listings
unfoldable pub refresh_profile_match_scores :
    Scoring → ℕ → ℕ → ℕ → Table JobListing → Table ListingMatchScore → Table ListingMatchScore × ℕ
refresh_profile_match_scores s user_id profile_id now listings scores =
    let visible = visible_listings_query user_id true listings in
    let existing = by_listing (load_all_scores_for_profile scores profile_id) in
    (refresh_all s profile_id now existing visible scores, length visible)
