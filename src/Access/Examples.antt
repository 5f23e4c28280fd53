-- ===== src/Access/Examples.antt =====
-- A listing, a profile and two requests.
use vitae.Access.{
  can_open_listing, claim_free_listing_open, free_unlocked_listing_ids, free_clear_matches, id_set,
}
use vitae.Access.Agree.{can_open_listing-agrees}
use vitae.Access.Opens.{claim_all, granted, claim_all-bounds}
use vitae.Accounts.{default_profile}
use vitae.Catalogue.{is_visible}
use vitae.Common.{
  ◌≡◌, arith, ◌∷◌, All, length, ℕ, List, ◌≤◌, false, not, true, member, [], some, refl, ◌&&◌,
}
use vitae.Common.Sort.{sort_by}
use vitae.JobList.Top.{has_card}
use vitae.Models.AccountRows.{Profile, keyed_profile}
use vitae.Models.ListingRows.{JobListing, keyed_job_listing}
use vitae.Samples.{ada, listing}

abbrev hers : JobListing
hers = record listing { visibility = "private"; owner_user_id = some 7; is_active = false }

can_open_listing-agrees_example :
    ((can_open_listing 7 (some hers)).0 ≡ has_card 7 hers)
    × ((is_visible 7 true hers && not (can_open_listing 7 (some hers)).0) ≡ false)
    × (((can_open_listing 7 (some hers)).0 && not (is_visible 7 false hers)) ≡ false)
can_open_listing-agrees_example = can_open_listing-agrees 7 hers refl

abbrev profile : Profile
profile = default_profile ada 1

abbrev claims : List ℕ
claims = 5 ∷ 6 ∷ 5 ∷ 7 ∷ 8 ∷ []

-- the fourth listing is refused
claims_answers : (claim_all claims profile).1 ≡ true ∷ true ∷ true ∷ true ∷ false ∷ []
unfolding claim_all claim_free_listing_open free_unlocked_listing_ids id_set default_profile sort_by
claims_answers = refl

claim_all-bounds_example :
    let done = claim_all claims profile in
    (length (free_unlocked_listing_ids done.0) ≤ free_clear_matches)
    × All (λ j. member j (free_unlocked_listing_ids done.0) ≡ true) (granted claims done.1)
unfolding free_unlocked_listing_ids id_set default_profile
claim_all-bounds_example = claim_all-bounds claims profile (omega arith)
