-- ===== src/Experience/Owner.antt =====
-- Who may read and change the stations of a profile.
use vitae.Accounts.{owned_alive}
use vitae.Common.{arith, ◌∙◌, Option-cases, ap, false, ◌≡◌, some, ℕ, inl, inr}
use vitae.Common.Outcome.{permission_error, raised}
use vitae.Common.Table.{Table, get}
use vitae.Experience.{
  keyed_experience, owned_profile, ProfileExperience, find_experience, Station, delete_experience,
  update_experience, list_experience, add_experience,
}
use vitae.Models.AccountRows.{Profile, keyed_profile}

-- The stations of a profile that does not exist, is archived or is another user's can neither be
-- listed nor added to, nor can one of them be changed or deleted: each raises the permission error.
pub foreign_profile_refused :
    (profiles : Table Profile) (user_id profile_id : ℕ) (f : Station) (t : Table ProfileExperience)
    (item : ProfileExperience)
    → ((p : Profile) → get profile_id profiles ≡ some p → owned_alive user_id p ≡ false)
    → get item.id t ≡ some item
    → item.profile_id ≡ profile_id
    → (list_experience profiles user_id profile_id t ≡ raised permission_error)
      × (add_experience profiles user_id profile_id f t ≡ raised permission_error)
      × (update_experience profiles user_id item.id f t ≡ raised permission_error)
      × (delete_experience profiles user_id item.id t ≡ raised permission_error)
unfolding list_experience add_experience update_experience delete_experience find_experience
    owned_profile
foreign_profile_refused profiles user_id profile_id f t item foreign found of =
    elim (Option-cases (get profile_id profiles)) [
      | inl e ↦
          let here = ap (λ i. get i profiles) of ∙ e in
          (
            ground (arith, e),
            ground (arith, e),
            ground (arith, here, found),
            ground (arith, here, found),
          )
      | inr (p, e) ↦
          let here = ap (λ i. get i profiles) of ∙ e in
          let no = foreign p e in
          (
            ground (arith, e, no),
            ground (arith, e, no),
            ground (arith, here, found, no),
            ground (arith, here, found, no),
          )
    ]
