-- ===== src/ScoreCache/Known.antt =====
-- The rows that a caller reads once and hands to each of its calls.
use vitae.Common.{
  Option, find_first, none, All-map, refl, [], Option-cases, ℕ, select, Bool-cases, List, All, some,
  ◌==◌, ap, arith, false, ◌≡◌, inl, ◌∙◌, inr, ◌∷◌,
}
use vitae.Common.Table.{insert, save, Table}
use vitae.ScoreCache.{
  ListingMatchScore, keyed_listing_match_score, has_key, row_of, fill, new_row, Rating, chosen,
  upsert_match_score, load_all_scores_for_profile, by_listing,
}
use vitae.ScoreCache.Apart.{IsUnique, Apart}

by_listing-none :
    (p l : ℕ) (rs : List ListingMatchScore)
    → All (λ r. has_key p l r ≡ false) rs
    → by_listing (select (λ r. r.profile_id == p) rs) l ≡ none
unfolding by_listing
by_listing-none p l [] h = refl
by_listing-none p l (r ∷ rs) h = ground (arith, h.0, by_listing-none p l rs h.1)

by_listing-select :
    (p l : ℕ) (rs : List ListingMatchScore)
    → Apart rs
    → by_listing (select (λ r. r.profile_id == p) rs) l ≡ find_first (has_key p l) rs
unfolding by_listing
by_listing-select p l [] h = refl
by_listing-select p l (r ∷ rs) h = elim (Bool-cases (has_key p l r)) [
  | inl e ↦
      let others = by_listing-none p l rs (All-map (λ s k. ground (arith, k.1, e)) rs h.0) in
      ground (arith, e, others)
  | inr e ↦ ground (arith, e, by_listing-select p l rs h.1)
]

pub by_listing-row_of :
    (t : Table ListingMatchScore) (p l : ℕ)
    → IsUnique t
    → by_listing (load_all_scores_for_profile t p) l ≡ row_of p l t
unfolding load_all_scores_for_profile
by_listing-row_of t p l u = by_listing-select p l t.rows u.apart

pub chosen-row_of :
    (r : Rating) (t : Table ListingMatchScore)
    → chosen (row_of r.profile_id r.listing_id t) r t ≡ chosen none r t
chosen-row_of r t = elim (Option-cases (row_of r.profile_id r.listing_id t)) [
  | inl e ↦ ground (arith, e)
  | inr (row, e) ↦ ground (arith, e)
]

-- a call that is handed the stored row does what a call without a row at hand does
pub upsert_match_score-row_of :
    (r : Rating) (now : ℕ) (others t : Table ListingMatchScore)
    → upsert_match_score r now (row_of r.profile_id r.listing_id t) others t
      ≡ upsert_match_score r now none others t
unfolding upsert_match_score
upsert_match_score-row_of r now others t =
    let write : Option ListingMatchScore → Table ListingMatchScore = λ c. elim c [
      | some row ↦ save (fill r now row) t
      | none ↦ elim (row_of r.profile_id r.listing_id others) [
        | none ↦ insert (new_row r now) t
        | some row ↦ save (fill r now row) others
      ]
    ] in
    ap write (chosen-row_of r t)

-- On a table that keeps its unique constraint, a call that is handed what the map of all scores of the
-- profile has under the listing does what a call without a row at hand does.
pub upsert_match_score-by_listing :
    (r : Rating) (now : ℕ) (others t : Table ListingMatchScore)
    → IsUnique t
    → let known = by_listing (load_all_scores_for_profile t r.profile_id) r.listing_id in
      upsert_match_score r now known others t ≡ upsert_match_score r now none others t
upsert_match_score-by_listing r now others t u =
    ap (λ known. upsert_match_score r now known others t)
      (by_listing-row_of t r.profile_id r.listing_id u)
    ∙ upsert_match_score-row_of r now others t
