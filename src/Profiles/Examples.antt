-- ===== src/Profiles/Examples.antt =====
-- Two career profiles of one user, one of which is archived.
use vitae.Accounts.{
  default_profile, owned_alive, ensure_account, owned_alive_profile, ensure_profile_billing,
  get_active_profile,
}
use vitae.Accounts.Active.{has_alive, stored_active}
use vitae.Common.{◌∷◌, [], refl, true, ℕ, ◌≢◌, false, ◌≡◌, arith, some}
use vitae.Common.Outcome.{ok}
use vitae.Common.Table.{get, put_row, Distinct, get_row, lowest}
use vitae.Models.AccountRows.{
  ProfileBilling, Profile, User, Accounts, keyed_profile, keyed_profile_billing, keyed_user,
}
use vitae.Profiles.{archive_profile, slug_label, is_paid_for, switch_active_profile}
use vitae.Profiles.Archive.{archive_profile_lem}
use vitae.Profiles.Switch.{switch_active_profile-get_active_profile}

abbrev ada : User
ada = record { id = 7; full_name = "Ada"; email = "ada@x.io"; active_profile_id = some 1 }

abbrev design : Profile
design = record (default_profile ada 1) { label = "Design" }

abbrev research : Profile
research = record (default_profile ada 2) { label = "Research" }

abbrev billing : ℕ → ProfileBilling
billing i = record {
  profile_id = i;
  user_id = 7;
  plan = "none";
  billing_region = "ng";
  bachs_customer_id = "";
  bachs_subscription_id = "";
  subscription_status = "";
  last_checkout_id = "";
}

abbrev before : Accounts
before = record {
  users = record { rows = ada ∷ []; next_id = 8 };
  profiles = record { rows = design ∷ research ∷ []; next_id = 3 };
  billing = record { rows = billing 1 ∷ billing 2 ∷ []; next_id = 1 };
  settings = 7 ∷ [];
  ready = 7 ∷ [];
}

abbrev archived : Profile
archived = record design { archived_at = some 50 }

abbrev after : Accounts
after = record before {
  users = record { rows = record ada { active_profile_id = some 2 } ∷ []; next_id = 8 };
  profiles = record { rows = archived ∷ research ∷ []; next_id = 3 };
}

labels : slug_label "  Senior \n engineer " ≡ "Senior engineer"
unfolding slug_label
labels = refl

blank_label : slug_label " " ≡ "Untitled"
unfolding slug_label
blank_label = refl

archives : archive_profile ada 1 50 before ≡ ok (after, archived)
unfolding archive_profile ensure_account default_profile owned_alive_profile is_paid_for get_row
    lowest put_row
archives = refl

distinct : Distinct (ensure_account ada before).profiles.rows
unfolding ensure_account default_profile
distinct = ground arith

archive_profile_lem_example :
    (row : Profile) × (get 1 (ensure_account ada before).profiles ≡ some row)
    × (owned_alive 7 row ≡ true)
    × (is_paid_for (ensure_profile_billing 7 row (ensure_account ada before).billing).1 ≡ false)
    × (archived ≡ record row { archived_at = some 50 })
    × (after.profiles.rows ≡ put_row archived (ensure_account ada before).profiles.rows)
    × (has_alive 7 after ≡ true)
    × (stored_active 7 after ≢ some 1)
archive_profile_lem_example = archive_profile_lem ada 1 50 before distinct archives

abbrev switched : Accounts
switched = record before {
  users = record { rows = record ada { active_profile_id = some 2 } ∷ []; next_id = 8 };
}

switches : switch_active_profile ada 2 before ≡ ok (switched, research)
unfolding switch_active_profile ensure_account default_profile owned_alive_profile get_row put_row
switches = refl

switch_active_profile-get_active_profile_example :
    get_active_profile ada switched ≡ ok (switched, research)
switch_active_profile-get_active_profile_example =
    switch_active_profile-get_active_profile ada 1 before switches
