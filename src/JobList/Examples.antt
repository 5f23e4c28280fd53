-- ===== src/JobList/Examples.antt =====
-- A profile with two listings, one of them scored.
use mathlib.Core.List.Permᴰ as Perm
use mathlib.Core.List.{reverse}
use vitae.Catalogue.{is_visible}
use vitae.Common.{
  Permᴰ, take, length, leb, ◌≡◌, All, min, ℕ, ◌*◌, [], refl, true, false, ◌∷◌, ◌&&◌, List, ◌==◌,
  max, map, ◌++◌, if◌then◌else◌, Bool,
}
use vitae.Common.Sort.{sort_by}
use vitae.Common.Table.{Table}
use vitae.Common.Text.{strip}
use vitae.JobList.{Scoring}
use vitae.JobList.Pages.{first_pages, search_job_cards-All, first_pages-sorted}
use vitae.JobList.Search.{
  Query, search_job_cards, card_of, query_rows, join_scores, matches, overlay_of, Database,
  found_rows, comes_before, Row,
}
use vitae.Models.ListingRows.{JobListing, keyed_job_listing}
use vitae.Samples.{listing}
use vitae.ScoreCache.{ListingMatchScore, keyed_listing_match_score}

abbrev open_listing : JobListing
open_listing = record listing {
  id = 5;
  visibility = "public";
  is_active = true;
  title = "Engineer";
}

abbrev other_listing : JobListing
other_listing = record open_listing { id = 6 }

abbrev listings : Table JobListing
listings = record { rows = open_listing ∷ other_listing ∷ []; next_id = 7 }

abbrev score_row : ListingMatchScore
score_row = record {
  id = 1;
  profile_id = 1;
  listing_id = 5;
  match_score = 113;
  match_reasons = "[]";
  breakdown_json = "{}";
  algorithm_version = "v2";
  fingerprint = "f";
  scored_at = 3;
}

abbrev stored_scores : Table ListingMatchScore
stored_scores = record { rows = score_row ∷ []; next_id = 2 }

abbrev scoring : Scoring
scoring = record {
  compile = λ p s. false;
  skills = [];
  cfg = record {
    profile_skills = [];
    title_keywords = [];
    penalty_keywords = [];
    exclude_title_patterns = [];
    prefer_remote = true;
  };
  fingerprint = "f";
  reasons_to_json = λ rs. "[]";
  result_to_json = λ v. "{}";
}

abbrev any_query : Query
any_query = record {
  min_score = 0;
  q = "";
  status = "";
  source = "";
  location = "";
  remote_type = "";
  employment_type = "";
  experience_level = "";
}

abbrev database : Database
database = record {
  like = λ p s. true;
  title_before = λ a b. true;
  nulls_first = true;
  arrange = λ rows. rows;
}

-- two listings with different scores, which the queries of odd pages meet in reverse
abbrev two_scores : List ListingMatchScore
two_scores = score_row ∷ record score_row { id = 2; listing_id = 6; match_score = 150 } ∷ []

abbrev arranges : ℕ → List Row → List Row
arranges page rows = if page == 1 then reverse rows else rows

arranges-Perm : (page : ℕ) (rows : List Row) → Permᴰ rows (arranges page rows)
arranges-Perm page rows = pick (page == 1)
  where
    pick : (b : Bool) → Permᴰ rows (if b then reverse rows else rows)
    pick true = Perm.symm (Perm.reverse rows)
    pick false = Perm.refl rows

first_pages-sorted_example :
    first_pages database 7 1 "f" any_query 1 [] two_scores listings.rows arranges 2
    ≡ map card_of (
        take (2 * max 1 (min 1 100)) (
          sort_by
            (comes_before database)
            (found_rows database 7 1 "f" any_query [] two_scores listings.rows)))
unfolding search_job_cards found_rows join_scores matches is_visible strip overlay_of comes_before
first_pages-sorted_example =
    first_pages-sorted database 7 1 "f" any_query 1 [] two_scores listings.rows arranges 2 refl
      arranges-Perm (λ x y z h k. refl) ((refl, tt), (tt, tt))

search_job_cards-All_example :
    All
      (λ c. (is_visible 7 true c.listing && leb 0 c.match_score) ≡ true)
      (search_job_cards database 7 1 "f" any_query 1 1 [] stored_scores.rows listings.rows).0
search_job_cards-All_example =
    search_job_cards-All database 7 1 "f" any_query 1 [] stored_scores.rows listings.rows 1
      (λ xs. Perm.refl xs)

-- Two listings tie. The queries for the first two pages may meet them in different orders; then one of
-- them is shown twice and the other never.
abbrev tied_scores : List ListingMatchScore
tied_scores = score_row ∷ record score_row { id = 2; listing_id = 6 } ∷ []

abbrev page_ids : (List Row → List Row) → ℕ → List ℕ
page_ids arrange page =
    map (λ c. c.listing.id)
      (search_job_cards (record database { arrange = arrange }) 7 1 "f" any_query page 1 []
        tied_scores listings.rows).0

tie_shown_twice : page_ids (λ rows. rows) 1 ++ page_ids reverse 2 ≡ 5 ∷ 5 ∷ []
unfolding search_job_cards query_rows found_rows sort_by join_scores matches is_visible strip
    overlay_of comes_before card_of
tie_shown_twice = refl

-- A listing without an overlay is shown as new, but a search for new listings does not find it.
new_not_found :
    length
      (search_job_cards database 7 1 "f"
        (record any_query { status = "new" })
        1
        1
        []
        stored_scores.rows
        listings.rows).0
    ≡ 0
unfolding search_job_cards query_rows found_rows sort_by join_scores matches is_visible strip
    overlay_of
new_not_found = refl
