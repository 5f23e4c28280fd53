-- ===== src/JobList/Pages.antt =====
-- The pages of a search, and what may stand on them.
use mathlib.Core.List.{map-append}
use vitae.Catalogue.{is_visible}
use vitae.Common.{
  Permᴰ, ◌∷◌, ℕ, [], true, map, List, ◌≡◌, String, arith, leb, All, ◌&&◌, ◌-◌, ◌==◌, All-take, Bool,
  find_first, is_some, ap, drop, take-drop, take, str_eq, min, length, max, sym, ◌∙◌, All-select,
  All-drop, ◌+◌, zero, ◌*◌, ◌++◌, suc, false, if◌then◌else◌,
}
use vitae.Common.Sort.{sort_by, All-sort_by}
use vitae.Common.Ties.{All-Perm, NoTies, sort_by-Perm}
use vitae.JobList.Search.{
  Query, Row, comes_before, matches, Database, JobCard, found_rows, search_job_cards, query_rows,
  join_scores, card_of,
}
use vitae.Models.ListingRows.{keyed_job_listing, keyed_user_job, JobListing, UserJob}
use vitae.ScoreCache.{keyed_listing_match_score, ListingMatchScore}

All-mapped :
    {A B : Type 0} (Q : B → Type 0) (f : A → B) (xs : List A)
    → All (λ x. Q (f x)) xs
    → All Q (map f xs)
All-mapped Q f [] h = tt
All-mapped Q f (x ∷ xs) h = (h.0, All-mapped Q f xs h.1)

row_sound :
    (db : Database) (user_id : ℕ) (query : Query) (row : Row)
    → matches db user_id query row ≡ true
    → (is_visible user_id true row.listing && leb query.min_score row.score_row.match_score) ≡ true
unfolding matches
row_sound db user_id query row h = ground (arith, h)

-- the order of the search is transitive if that of titles is
comes_before_trans :
    (db : Database) (a b c : Row)
    → ((x y z : String)
        → db.title_before x y ≡ true
        → db.title_before y z ≡ true
        → db.title_before x z ≡ true)
    → comes_before db a b ≡ true
    → comes_before db b c ≡ true
    → comes_before db a c ≡ true
unfolding comes_before
comes_before_trans db a b c trans h k =
    ground (arith, h, k, trans a.listing.title b.listing.title c.listing.title)

module _ (db : Database) (user_id profile_id : ℕ) (fingerprint : String) (query : Query)
    (page_size : ℕ) (overlays : List UserJob) (scores : List ListingMatchScore)
    (listings : List JobListing) where
  abbrev found : List Row
  found = found_rows db user_id profile_id fingerprint query overlays scores listings

  abbrev shows : JobCard → Bool
  shows c = is_visible user_id true c.listing && leb query.min_score c.match_score

  -- the query for each page meets the rows in an order of its own
  module _ (arranges : ℕ → List Row → List Row) where
    -- a page with the arguments of the section
    abbrev page_of : ℕ → List JobCard × ℕ × Bool
    page_of page =
        search_job_cards (record db { arrange = arranges page }) user_id profile_id fingerprint
          query page page_size overlays scores listings

    -- the cards of the first pages, one after the other
    pub first_pages : ℕ → List JobCard
    first_pages zero = []
    first_pages (suc n) = first_pages n ++ (page_of (suc n)).0

    page_cards :
        (n : ℕ)
        → (page_of 1).2 ≡ true
        → let size = max 1 (min page_size 100) in
          (page_of (suc n)).0
          ≡ map card_of
              (take size (drop (n * size) (sort_by (comes_before db) (arranges (suc n) found))))
    unfolding search_job_cards query_rows found_rows matches comes_before
    page_cards n ready = ground (arith, ready)

    -- Where the scores of the profile are stored under the fingerprint, the tables stay the same, and no
    -- two rows that the search finds tie in score, time and title, the first pages, one after the
    -- other, are the first rows of the sorted result, whatever order each page's query meets the rows
    -- in: no row is left out between two pages and none is shown twice. A page has the size that is
    -- asked for, from 1 to 100; the database's order of titles is transitive.
    pub first_pages-sorted :
        (n : ℕ)
        → (page_of 1).2 ≡ true
        → ((page : ℕ) (xs : List Row) → Permᴰ xs (arranges page xs))
        → ((x y z : String)
            → db.title_before x y ≡ true
            → db.title_before y z ≡ true
            → db.title_before x z ≡ true)
        → NoTies (comes_before db) found
        → first_pages n
          ≡ map card_of (take (n * max 1 (min page_size 100)) (sort_by (comes_before db) found))
    unfolding first_pages
    first_pages-sorted zero ready perm trans untied =
        let e : 0 ≡ 0 * max 1 (min page_size 100) = omega arith in
        ap (λ k. map card_of (take k (sort_by (comes_before db) found))) e
    first_pages-sorted (suc n) ready perm trans untied =
        let size = max 1 (min page_size 100) in
        let so_far = n * size in
        let rows = sort_by (comes_before db) found in
        let more : so_far + size ≡ suc n * size = omega arith in
        let same : rows ≡ sort_by (comes_before db) (arranges (suc n) found) =
          sort_by-Perm (comes_before db) (λ a b c. comes_before_trans db a b c trans)
            (perm (suc n) found) untied in
        ap (λ cs. cs ++ (page_of (suc n)).0) (first_pages-sorted n ready perm trans untied)
        ∙ ap (λ cs. map card_of (take so_far rows) ++ cs) (page_cards n ready)
        ∙ ap (λ rs. map card_of (take so_far rows) ++ map card_of (take size (drop so_far rs)))
            (sym same)
        ∙ sym (map-append card_of (take so_far rows) (take size (drop so_far rows)))
        ∙ ap (map card_of) (take-drop so_far size rows)
        ∙ ap (λ k. map card_of (take k rows)) more

  sound_rows :
      ((xs : List Row) → Permᴰ xs (db.arrange xs))
      → All
          (λ row.
            (is_visible user_id true row.listing && leb query.min_score row.score_row.match_score)
            ≡ true)
          (query_rows db user_id profile_id fingerprint query overlays scores listings)
  unfolding query_rows found_rows
  sound_rows perm =
      let joined = join_scores profile_id fingerprint overlays scores listings in
      All-sort_by _ (comes_before db) _ (
        All-Perm _ (perm found)
          (All-select _ (matches db user_id query) (row_sound db user_id query) joined))

  -- Whatever a search asks for, each card on a page is of an open listing that the user may see, and
  -- its score is not below the one that was asked for. The database orders the rows that it finds.
  pub search_job_cards-All :
      (page : ℕ)
      → ((xs : List Row) → Permᴰ xs (db.arrange xs))
      → All
          (λ c. shows c ≡ true)
          (search_job_cards db user_id profile_id fingerprint query page page_size overlays scores
            listings).0
  unfolding search_job_cards card_of
  search_job_cards-All page perm =
      let size = max 1 (min page_size 100) in
      let from = (max 1 page - 1) * size in
      let rows = query_rows db user_id profile_id fingerprint query overlays scores listings in
      let paged = All-take _ size (drop from rows) (All-drop _ from rows (sound_rows perm)) in
      let shown = All-mapped (λ c. shows c ≡ true) card_of (take size (drop from rows)) paged in
      pick
        (is_some
          (find_first (λ r. r.profile_id == profile_id && str_eq r.fingerprint fingerprint) scores))
        _ (length rows) shown
    where
      pick :
          (b : Bool) (cs : List JobCard) (n : ℕ)
          → All (λ c. shows c ≡ true) cs
          → let result : List JobCard × ℕ × Bool = if b then (cs, n, true) else ([], 0, false) in
            All (λ c. shows c ≡ true) result.0
      pick true cs n h = h
      pick false cs n h = tt
