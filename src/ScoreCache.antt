-- ===== src/ScoreCache.antt =====
-- app/matching/score_cache.py: the stored match scores, one for each profile and listing.
pub mod Apart
pub mod Refines
pub mod Known
mod Examples
use vitae.Common.{
  find_first, Option, some, ◌==◌, Bool, List, none, ◌∷◌, select, if◌then◌else◌, [], str_eq, ◌&&◌, ℕ,
  String,
}
use vitae.Common.Table.{insert, save, Table, Keyed}
use vitae.Common.Text.{or_empty, or_text, clip}
use vitae.Matching.{score_job_versioned, Versioned}
use vitae.Matching.Points.{Job, Settings}
use vitae.Models.ListingRows.{JobListing, keyed_job_listing}

pub record ListingMatchScore : Type 0 where
  pub id : ℕ
  pub profile_id : ℕ
  pub listing_id : ℕ
  pub match_score : ℕ
  pub match_reasons : String
  pub breakdown_json : String
  pub algorithm_version : String
  pub fingerprint : String
  pub scored_at : ℕ

instance abbrev pub keyed_listing_match_score : Keyed ListingMatchScore
keyed_listing_match_score = record { id_of = λ r. r.id }

-- The keyword arguments of a call.
pub record Rating : Type 0 where
  pub profile_id : ℕ
  pub listing_id : ℕ
  pub match_score : ℕ
  pub match_reasons : String
  pub breakdown_json : String
  pub algorithm_version : Option String
  pub fingerprint : String

abbrev pub has_key : ℕ → ℕ → ListingMatchScore → Bool
has_key p l r = r.profile_id == p && r.listing_id == l

-- `query.filter(profile_id, listing_id).one_or_none()`; the unique constraint leaves one row at most
abbrev pub row_of : ℕ → ℕ → Table ListingMatchScore → Option ListingMatchScore
row_of p l t = find_first (has_key p l) t.rows

-- the assignments to a row that is there
unfoldable pub fill : Rating → ℕ → ListingMatchScore → ListingMatchScore
fill r now row = record row {
  match_score = r.match_score;
  match_reasons = r.match_reasons;
  breakdown_json = or_text r.breakdown_json "{}";
  algorithm_version = or_text (or_empty r.algorithm_version) "v2";
  fingerprint = r.fingerprint;
  scored_at = now;
}

unfoldable pub new_row : Rating → ℕ → ℕ → ListingMatchScore
new_row r now i = record {
  id = i;
  profile_id = r.profile_id;
  listing_id = r.listing_id;
  match_score = r.match_score;
  match_reasons = r.match_reasons;
  breakdown_json = or_text r.breakdown_json "{}";
  algorithm_version = or_text (or_empty r.algorithm_version) "v2";
  fingerprint = r.fingerprint;
  scored_at = now;
}

-- `row = existing`, or else the stored row
abbrev pub chosen :
    Option ListingMatchScore → Rating → Table ListingMatchScore → Option ListingMatchScore
chosen none r mine = row_of r.profile_id r.listing_id mine
chosen (some row) r mine = some row

-- `upsert_match_score` of a session that sees the table `mine` while `others` is what is committed
-- when the new row is written. If another session has stored the pair by then, the unique constraint
-- refuses the row: the session is rolled back to what is committed, and the row found there is filled.
unfoldable pub upsert_match_score :
    Rating
    → ℕ
    → Option ListingMatchScore
    → Table ListingMatchScore
    → Table ListingMatchScore
    → Table ListingMatchScore
upsert_match_score r now existing others mine = elim (chosen existing r mine) [
  | some row ↦ save (fill r now row) mine
  | none ↦ elim (row_of r.profile_id r.listing_id others) [
    | none ↦ insert (new_row r now) mine
    | some row ↦ save (fill r now row) others
  ]
]

-- the rows of a profile, and those among them that a settings fingerprint still covers
unfoldable pub load_all_scores_for_profile : Table ListingMatchScore → ℕ → List ListingMatchScore
load_all_scores_for_profile t p = select (λ r. r.profile_id == p) t.rows

unfoldable pub load_scores_for_profile :
    Table ListingMatchScore → ℕ → String → List ListingMatchScore
load_scores_for_profile t p fingerprint =
    select (λ r. r.profile_id == p && str_eq r.fingerprint fingerprint) t.rows

-- `{r.listing_id: r for r in rows}`: the last row of a listing wins
unfoldable pub by_listing : List ListingMatchScore → ℕ → Option ListingMatchScore
by_listing [] l = none
by_listing (r ∷ rs) l = elim (by_listing rs l) [
  | some s ↦ some s
  | none ↦ if r.listing_id == l then some r else none
]

-- the keys of `ranking_payload` that the scorer reads
unfoldable pub ranking_payload : JobListing → Job
ranking_payload listing = record {
  title = listing.title;
  description = clip 6000 listing.description;
  location = listing.location;
}

-- the score, the reasons and the whole result of `score_listing_cached`, before they become JSON
unfoldable pub score_listing_cached :
    (String → String → Bool) → JobListing → List String → Settings → ℕ × List String × Versioned
score_listing_cached compile listing skills cfg =
    let result = score_job_versioned compile (ranking_payload listing) skills cfg in
    (result.detail.score, result.detail.reasons, result)
