-- ===== src/JobList/Search.antt =====
-- `search_job_cards` of app/services.py. What the database decides is an argument of the search.
use vitae.Catalogue.{is_visible}
use vitae.Common.{
  select, is_some, take, Bool, List, str_eq, drop, false, min, ltb, String, find_first, ◌-◌, true,
  ◌&&◌, [], ◌*◌, leb, none, some, max, length, ◌==◌, map, Option, ◌∷◌, if◌then◌else◌, ℕ, ◌||◌, not,
}
use vitae.Common.Sort.{sort_by}
use vitae.Common.Text.{lower, strip, is_empty}
use vitae.Models.ListingRows.{
  skipped, cv_ready, JobStatus, JobListing, new, applied, UserJob, keyed_user_job,
  keyed_job_listing,
}
use vitae.ScoreCache.{ListingMatchScore, has_key, keyed_listing_match_score}
use vitae.ScoreCache.Refines.{scores}

-- the text of a status
unfoldable pub status_text : JobStatus → String
status_text new = "new"
status_text cv_ready = "cv_ready"
status_text applied = "applied"
status_text skipped = "skipped"

-- The arguments of a search.
pub record Query : Type 0 where
  pub min_score : ℕ
  pub q : String
  pub status : String
  pub source : String
  pub location : String
  pub remote_type : String
  pub employment_type : String
  pub experience_level : String

pub record JobCard : Type 0 where
  pub listing : JobListing
  pub match_score : ℕ
  pub match_reasons : String
  pub status : JobStatus
  pub user_job : Option UserJob

-- a row of the join of listings, scores and overlays
pub record Row : Type 0 where
  pub listing : JobListing
  pub score_row : ListingMatchScore
  pub overlay : Option UserJob

-- the overlay of a listing for a profile; the outer join finds one row at most
unfoldable pub overlay_of : ℕ → ℕ → List UserJob → Option UserJob
overlay_of profile_id listing_id rows =
    find_first
      (λ u.
        u.listing_id == listing_id
        && (elim u.profile_id as (λ _. Bool) [ none ↦ false | some p ↦ p == profile_id ]))
      rows

-- `query.join(...)`: the listings that have a score of the profile under the fingerprint
unfoldable pub join_scores :
    ℕ → String → List UserJob → List ListingMatchScore → List JobListing → List Row
join_scores profile_id fingerprint overlays scores [] = []
join_scores profile_id fingerprint overlays scores (l ∷ ls) =
    let rest = join_scores profile_id fingerprint overlays scores ls in
    let overlay = overlay_of profile_id l.id overlays in
    elim (find_first (λ r. has_key profile_id l.id r && str_eq r.fingerprint fingerprint) scores) [
      | none ↦ rest
      | some r ↦ record { listing = l; score_row = r; overlay = overlay } ∷ rest
    ]

-- the card of a row
unfoldable pub card_of : Row → JobCard
card_of row = record {
  listing = row.listing;
  match_score = row.score_row.match_score;
  match_reasons = row.score_row.match_reasons;
  status = elim row.overlay [ none ↦ new | some u ↦ u.status ];
  user_job = row.overlay;
}

-- What a query leaves to the database: LIKE with `%text%`, the order of titles, whether a missing time
-- comes first in a descending order (PostgreSQL) or last (SQLite), and the order in which the query
-- meets the rows that it then sorts, in which rows that tie come out.
pub record Database : Type 0 where
  pub like : String → String → Bool
  pub title_before : String → String → Bool
  pub nulls_first : Bool
  pub arrange : List Row → List Row

-- `posted_at.desc()`; `none` for a tie
unfoldable pub posted_before : Bool → Option ℕ → Option ℕ → Option Bool
posted_before nulls_first none none = none
posted_before nulls_first none (some b) = some nulls_first
posted_before nulls_first (some a) none = some (not nulls_first)
posted_before nulls_first (some a) (some b) = if a == b then none else some (ltb b a)

module _ (db : Database) where
  -- a filter that applies if its text is not blank
  abbrev pub filter_on : String → Bool → Bool
  filter_on text test = is_empty (strip text) || test

  -- the conditions of the query on a row
  unfoldable pub matches : ℕ → Query → Row → Bool
  matches user_id query row =
      let l = row.listing in
      let term = lower (strip query.q) in
      let found =
        db.like term (lower l.title)
        || db.like term (lower l.company)
        || db.like term (lower l.location)
        || db.like term (lower l.description) in
      let in_status : Bool = elim row.overlay [
        | none ↦ false
        | some u ↦ str_eq (status_text u.status) (lower (strip query.status))
      ] in
      is_visible user_id true l
      && leb query.min_score row.score_row.match_score
      && filter_on query.q found
      && filter_on query.status in_status
      && filter_on query.source (str_eq l.source (strip query.source))
      && filter_on query.location (db.like (strip query.location) l.normalized_location)
      && filter_on query.remote_type (str_eq l.remote_type (strip query.remote_type))
      && filter_on query.employment_type (str_eq l.employment_type (strip query.employment_type))
      && filter_on query.experience_level (str_eq l.experience_level (strip query.experience_level))

  -- `order_by` of the search
  unfoldable pub comes_before : Row → Row → Bool
  unfolding posted_before
  comes_before a b =
      let s = a.score_row.match_score in
      let t = b.score_row.match_score in
      if s == t
      then (elim (posted_before db.nulls_first a.listing.posted_at b.listing.posted_at) [
        | some first ↦ first
        | none ↦ db.title_before a.listing.title b.listing.title
      ])
      else ltb t s

  -- the rows that the query finds, not ordered yet
  unfoldable pub found_rows :
      ℕ → ℕ → String → Query → List UserJob → List ListingMatchScore → List JobListing → List Row
  found_rows user_id profile_id fingerprint query overlays scores listings =
      select (matches user_id query) (join_scores profile_id fingerprint overlays scores listings)

  -- the rows of the query, in their order
  unfoldable pub query_rows :
      ℕ → ℕ → String → Query → List UserJob → List ListingMatchScore → List JobListing → List Row
  query_rows user_id profile_id fingerprint query overlays scores listings =
      sort_by comes_before
        (db.arrange (found_rows user_id profile_id fingerprint query overlays scores listings))

  -- `search_job_cards`: the cards of a page, the number of all rows, and whether the cache is ready
  unfoldable pub search_job_cards :
      ℕ
      → ℕ
      → String
      → Query
      → ℕ
      → ℕ
      → List UserJob
      → List ListingMatchScore
      → List JobListing
      → List JobCard × ℕ × Bool
  search_job_cards user_id profile_id fingerprint query page page_size overlays scores listings =
      let ready =
        is_some (
          find_first (λ r. r.profile_id == profile_id && str_eq r.fingerprint fingerprint)
            scores) in
      let size = max 1 (min page_size 100) in
      let rows = query_rows user_id profile_id fingerprint query overlays scores listings in
      let from = (max 1 page - 1) * size in
      if ready
      then (map card_of (take size (drop from rows)), length rows, true)
      else ([], 0, false)
