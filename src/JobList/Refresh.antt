-- ===== src/JobList/Refresh.antt =====
-- What the stored scores of a profile are after a refresh.
use vitae.Common.{List, ◌&&◌, false, All, Option, ◌==◌, some, ◌≡◌, ℕ}
use vitae.Common.Table.{Distinct, Table}
use vitae.JobList.{Scoring, rating_of}
use vitae.Models.ListingRows.{JobListing, keyed_job_listing}
use vitae.ScoreCache.{ListingMatchScore, keyed_listing_match_score}
use vitae.ScoreCache.Apart.{IsUnique}
use vitae.ScoreCache.Refines.{scores, stored_of}

module _ (s : Scoring) (profile_id now : ℕ) (existing : ℕ → Option ListingMatchScore) where
  -- After the loop over some listings: the table is unique, each of them has its score, and the scores
  -- of other pairs are those from before.
  record IsRefreshed (ls : List JobListing) (before after : Table ListingMatchScore) : Type 0 where
    unique : IsUnique after
    stores :
        All (λ l. scores after profile_id l.id ≡ some (stored_of (rating_of s profile_id l) now)) ls
    keeps :
        (p i : ℕ)
        → All (λ l. (profile_id == p && l.id == i) ≡ false) ls
        → scores after p i ≡ scores before p i
