-- ===== src/JobList/Top.antt =====
-- `top_clear_listing_ids` and the card of one listing, of app/services.py.
use Prim.Native.Char.{code}
use vitae.Catalogue.{is_visible}
use vitae.Common.{
  find_first, Bool, if◌then◌else◌, max, some, none, true, [], ◌&&◌, ℕ, ◌||◌, str_eq, map, false,
  leb, String, not, ◌==◌, is_some, Option, ltb, List, select, take,
}
use vitae.Common.Sort.{sort_by}
use vitae.Common.Table.{Table}
use vitae.Common.Text.{strip, is_empty}
use vitae.JobList.{Scoring, refresh_profile_match_scores}
use vitae.JobList.Search.{Database, Row, join_scores}
use vitae.Models.ListingRows.{JobListing, keyed_job_listing}
use vitae.ScoreCache.{ListingMatchScore, keyed_listing_match_score}
use vitae.ScoreCache.Refines.{scores}

module _ (db : Database) where
  -- `order_by(match_score.desc(), title.asc())`
  unfoldable pub better : Row → Row → Bool
  better a b =
      let s = a.score_row.match_score in
      let t = b.score_row.match_score in
      if s == t then db.title_before a.listing.title b.listing.title else ltb t s

  -- the best rows of a profile whose scores are stored
  unfoldable pub top_rows :
      ℕ → ℕ → String → ℕ → ℕ → List ListingMatchScore → List JobListing → List Row
  top_rows user_id profile_id fingerprint limit threshold scores listings =
      let fine : Row → Bool =
        λ row. leb threshold row.score_row.match_score && is_visible user_id true row.listing in
      take (max 1 limit) (
        sort_by better
          (db.arrange (select fine (join_scores profile_id fingerprint [] scores listings))))

  -- `top_clear_listing_ids`: the ids, and the scores, which are filled once for a cold profile
  unfoldable pub top_clear_listing_ids :
      Scoring
      → ℕ
      → ℕ
      → ℕ
      → ℕ
      → ℕ
      → Table JobListing
      → Table ListingMatchScore
      → List ℕ × Table ListingMatchScore
  top_clear_listing_ids s user_id profile_id limit threshold now listings scores =
      let ready = is_some (
        find_first (λ r. r.profile_id == profile_id && str_eq r.fingerprint s.fingerprint)
          scores.rows) in
      let warm =
        if ready
        then scores
        else (refresh_profile_match_scores s user_id profile_id now listings scores).0 in
      (
        map (λ row. row.listing.id)
            (top_rows user_id profile_id s.fingerprint limit threshold warm.rows listings.rows),
        warm,
      )

-- whether `_card_for_visible_listing` makes a card
unfoldable pub has_card : ℕ → JobListing → Bool
has_card user_id l =
    let hers : Bool = elim l.owner_user_id [ none ↦ false | some o ↦ o == user_id ] in
    if str_eq l.visibility "private"
    then hers
    else if not (str_eq l.visibility "public")
    then false
    else l.is_active

all_digits : String → Bool
all_digits String.[] = true
all_digits (String.◌∷◌ c s) = leb b'0' (code c) && leb (code c) b'9' && all_digits s

-- the listing that `get_user_job_card_by_public_id` shows
unfoldable pub listing_by_public_id : ℕ → String → List JobListing → Option JobListing
unfolding all_digits
listing_by_public_id user_id public_id ls =
    let ref = strip public_id in
    if is_empty ref || all_digits ref
    then none
    else (elim (find_first (λ l. str_eq l.public_id ref) ls) [
      | none ↦ none
      | some l ↦ if has_card user_id l then some l else none
    ])
