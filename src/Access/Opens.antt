-- ===== src/Access/Opens.antt =====
-- The free opens of a profile.
use vitae.Access.{id_set, free_unlocked_listing_ids, claim_free_listing_open, free_clear_matches}
use vitae.Common.{
  ◌∷◌, ◌≡◌, [], Bool, List, ◌&&◌, ◌||◌, arith, leb, ℕ, refl, count_if, member, length, ◌≤◌, true,
  ◌==◌, ==_iff, inr, inl, false, if◌then◌else◌, All, Bool-cases, ap,
}
use vitae.Common.Sort.{sort_by, length-sort_by, count_if-sort_by}
use vitae.Models.AccountRows.{Profile, keyed_profile}

member-id_set : (i : ℕ) (is : List ℕ) → member i (id_set is) ≡ member i is
unfolding id_set
member-id_set i [] = refl
member-id_set i (j ∷ js) = ground (arith, member-id_set i js, member-id_set j js)

member-count_if : (i : ℕ) (is : List ℕ) → member i is ≡ leb 1 (count_if (λ j. j == i) is)
member-count_if i [] = refl
member-count_if i (j ∷ js) = ground (arith, member-count_if i js)

member-sort_by : (i : ℕ) (is : List ℕ) → member i (sort_by leb is) ≡ member i is
member-sort_by i is = ground (
  arith,
  member-count_if i is,
  member-count_if i (sort_by leb is),
  count_if-sort_by (λ j. j == i) leb is,
)

length-id_set : (is : List ℕ) → length (id_set is) ≤ length is
unfolding id_set
length-id_set [] = omega arith
length-id_set (i ∷ is) = ground (arith, length-id_set is)

-- the answers to a sequence of claims, in their order, and the profile afterwards
unfoldable pub claim_all : List ℕ → Profile → Profile × List Bool
claim_all [] p = (p, [])
claim_all (i ∷ is) p =
    let first = claim_free_listing_open i p in
    let rest = claim_all is first.0 in (rest.0, first.1 ∷ rest.1)

claim-length :
    (i : ℕ) (p : Profile)
    → length (free_unlocked_listing_ids p) ≤ 3
    → length (free_unlocked_listing_ids (claim_free_listing_open i p).0) ≤ 3
unfolding claim_free_listing_open free_unlocked_listing_ids
claim-length i p h =
    let ids = id_set p.free_unlocked in
    ground (arith, h, length-id_set (sort_by leb (i ∷ ids)), length-sort_by leb (i ∷ ids))

-- what is unlocked stays unlocked, and a claim that is granted unlocks its listing
claim-member :
    (i j : ℕ) (p : Profile)
    → let c = claim_free_listing_open i p in
      member j (free_unlocked_listing_ids c.0)
      ≡ (member j (free_unlocked_listing_ids p) || (c.1 && i == j))
unfolding claim_free_listing_open free_unlocked_listing_ids
claim-member i j p =
    let ids = id_set p.free_unlocked in
    let kept = member-id_set j (sort_by leb (i ∷ ids)) in
    let sorted = member-sort_by j (i ∷ ids) in
    elim (Bool-cases (i == j)) [
      | inl e ↦
          let same : member i ids ≡ member j ids = ap (λ k. member k ids) ((==_iff i j).0 e) in
          ground (arith, e, same, kept, sorted)
      | inr e ↦ ground (arith, e, kept, sorted)
    ]

-- the listings of the claims that were granted
unfoldable pub granted : List ℕ → List Bool → List ℕ
granted [] answers = []
granted (i ∷ is) [] = []
granted (i ∷ is) (a ∷ answers) = let rest = granted is answers in if a then i ∷ rest else rest

claim_all-keeps :
    (is : List ℕ) (p : Profile) (j : ℕ)
    → member j (free_unlocked_listing_ids p) ≡ true
    → member j (free_unlocked_listing_ids (claim_all is p).0) ≡ true
unfolding claim_all
claim_all-keeps [] p j h = h
claim_all-keeps (i ∷ is) p j h =
    claim_all-keeps is (claim_free_listing_open i p).0 j (ground (arith, h, claim-member i j p))

-- A profile that starts with at most three unlocked listings has at most three after any sequence of
-- claims, and each listing whose claim was granted is one of them.
pub claim_all-bounds :
    (is : List ℕ) (p : Profile)
    → length (free_unlocked_listing_ids p) ≤ free_clear_matches
    → let done = claim_all is p in
      (length (free_unlocked_listing_ids done.0) ≤ free_clear_matches)
      × All (λ j. member j (free_unlocked_listing_ids done.0) ≡ true) (granted is done.1)
unfolding claim_all granted
claim_all-bounds [] p h = (h, tt)
claim_all-bounds (i ∷ is) p h =
    let c = claim_free_listing_open i p in
    let (low, rest) = claim_all-bounds is c.0 (claim-length i p h) in
    let done = claim_all is c.0 in
    let here = claim_all-keeps is c.0 i in
    (low, pick c.1 (λ yes. here (ground (arith, yes, claim-member i i p))) rest)
  where
    pick :
        (b : Bool)
        → (b ≡ true
            → member i (free_unlocked_listing_ids (claim_all is (claim_free_listing_open i p).0).0)
              ≡ true)
        → All
            (λ j.
              member j (free_unlocked_listing_ids (claim_all is (claim_free_listing_open i p).0).0)
              ≡ true)
            (granted is (claim_all is (claim_free_listing_open i p).0).1)
        → All
            (λ j.
              member j (free_unlocked_listing_ids (claim_all is (claim_free_listing_open i p).0).0)
              ≡ true)
            (if b
              then i ∷ granted is (claim_all is (claim_free_listing_open i p).0).1
              else granted is (claim_all is (claim_free_listing_open i p).0).1)
    pick true f rest = (f refl, rest)
    pick false f rest = rest
