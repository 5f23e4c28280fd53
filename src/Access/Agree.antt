-- ===== src/Access/Agree.antt =====
-- The tests of access to a listing that stand in different modules agree.
use vitae.Access.{can_open_listing}
use vitae.Catalogue.{is_visible}
use vitae.Common.{
  ℕ, some, ◌≡◌, ◌||◌, str_eq, false, true, Bool-cases, str_eq_iff, arith, ◌&&◌, inl, inr, not, ap,
}
use vitae.JobList.Top.{has_card}
use vitae.Models.ListingRows.{JobListing, keyed_job_listing}

-- For a listing that is public or private: it may be opened exactly if it has a card; each listing in
-- the user's list of open ones may be opened; and what may be opened belongs to the listings that the
-- user sees, open or not.
pub can_open_listing-agrees :
    (user_id : ℕ) (l : JobListing)
    → (str_eq l.visibility "public" || str_eq l.visibility "private") ≡ true
    → ((can_open_listing user_id (some l)).0 ≡ has_card user_id l)
      × ((is_visible user_id true l && not (can_open_listing user_id (some l)).0) ≡ false)
      × (((can_open_listing user_id (some l)).0 && not (is_visible user_id false l)) ≡ false)
unfolding can_open_listing has_card is_visible
can_open_listing-agrees user_id l known = elim (Bool-cases (str_eq l.visibility "public")) [
  | inl e ↦
      let same : l.visibility ≡ "public" = (str_eq_iff l.visibility "public").0 e in
      let other : str_eq l.visibility "private" ≡ false = ap (λ v. str_eq v "private") same in
      (ground (arith, e, other), ground (arith, e, other), ground (arith, e, other))
  | inr e ↦
      let other : str_eq l.visibility "private" ≡ true = ground (arith, e, known) in
      (ground (arith, e, other), ground (arith, e, other), ground (arith, e, other))
]
