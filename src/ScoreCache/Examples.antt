-- ===== src/ScoreCache/Examples.antt =====
-- Concrete calls on the table of scores.
use vitae.Common.{[], ℕ, if◌then◌else◌, refl, none, ◌∷◌, ◌≡◌, List}
use vitae.Common.Table.{Table, put_row}
use vitae.ScoreCache.{
  Rating, ListingMatchScore, upsert_match_score, fill, new_row, keyed_listing_match_score,
}
use vitae.ScoreCache.Apart.{IsUnique}
use vitae.ScoreCache.Refines.{
  run, put, raced, run-empty_refines, scores, upsert_match_score-refines,
}

abbrev rating : Rating
rating = record {
  profile_id = 1;
  listing_id = 5;
  match_score = 113;
  match_reasons = "[]";
  breakdown_json = "";
  algorithm_version = none;
  fingerprint = "f";
}

abbrev other_rating : Rating
other_rating = record rating { listing_id = 6 }

abbrev no_scores : Table ListingMatchScore
no_scores = record { rows = []; next_id = 1 }

-- what this session has written before, and what another one has committed since
abbrev one_score : Table ListingMatchScore
one_score = run ((other_rating, 8) ∷ []) no_scores

abbrev their_score : Table ListingMatchScore
their_score = run ((rating, 7) ∷ []) no_scores

empty-IsUnique : IsUnique no_scores
empty-IsUnique = record { apart = tt; bounded = tt }

upsert_match_score-refines_example :
    let after = upsert_match_score rating 9 none their_score one_score in
    let base = if raced rating their_score one_score then their_score else one_score in
    IsUnique after × ((p l : ℕ) → scores after p l ≡ put rating 9 (scores base) p l)
upsert_match_score-refines_example =
    upsert_match_score-refines rating 9 their_score one_score
      (run-empty_refines ((rating, 7) ∷ []) 1).0 (run-empty_refines ((other_rating, 8) ∷ []) 1).0

abbrev three_calls : List (Rating × ℕ)
three_calls = (rating, 7) ∷ (other_rating, 8) ∷ (rating, 9) ∷ []

-- The rollback of a raced call loses what the session had written before it.
raced_loses : scores (upsert_match_score rating 9 none their_score one_score) 1 6 ≡ none
unfolding scores upsert_match_score run fill new_row put_row
raced_loses = refl
