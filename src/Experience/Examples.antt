-- ===== src/Experience/Examples.antt =====
-- Three stations of one profile, and one of another profile.
use vitae.Accounts.{default_profile}
use vitae.Common.{◌≡◌, ◌∷◌, ℕ, refl, []}
use vitae.Common.Sort.{insert_by, sort_by}
use vitae.Common.Table.{Table, amend}
use vitae.Experience.{
  keyed_experience, ordered, renumber, without, ProfileExperience, stands_before,
}
use vitae.Models.AccountRows.{Profile, keyed_profile}
use vitae.Samples.{ada}

abbrev station : ℕ → ℕ → ℕ → ProfileExperience
station i profile_id sort_order = record {
  id = i;
  profile_id = profile_id;
  position = "Engineer";
  company = "Acme";
  location = "";
  start_date = "";
  end_date = "";
  description = "";
  sort_order = sort_order;
}

abbrev stations : Table ProfileExperience
stations = record {
  rows = station 1 1 2 ∷ station 2 1 0 ∷ station 3 1 1 ∷ station 4 2 0 ∷ [];
  next_id = 5;
}

abbrev profiles : Table Profile
profiles = record { rows = default_profile ada 1 ∷ []; next_id = 2 }

-- the second one deleted: the third is first, the first second
deleted_rows :
    without (station 2 1 0) stations.rows ≡ station 1 1 1 ∷ station 3 1 0 ∷ station 4 2 0 ∷ []
unfolding without ordered sort_by insert_by stands_before renumber amend
deleted_rows = refl
