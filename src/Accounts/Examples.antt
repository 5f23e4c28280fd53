-- ===== src/Accounts/Examples.antt =====
-- Accounts in a new session, and the theorem on their active profile.
use vitae.Accounts.{ensure_account, get_active_profile}
use vitae.Accounts.Active.{IsActive, stored_active, get_active_profile-IsActive}
use vitae.Common.{◌≡◌, ◌∷◌, none, [], some, refl}
use vitae.Common.Table.{put_row, lowest, get_row}
use vitae.Models.AccountRows.{Accounts, User, keyed_user}

abbrev pub ada : User
ada = record { id = 7; full_name = "Ada"; email = "ada@x.io"; active_profile_id = none }

abbrev pub no_accounts : Accounts
no_accounts = record {
  users = record { rows = ada ∷ []; next_id = 8 };
  profiles = record { rows = []; next_id = 1 };
  billing = record { rows = []; next_id = 1 };
  settings = [];
  ready = [];
}

first_visit : stored_active 7 (ensure_account ada no_accounts) ≡ some 1
unfolding stored_active ensure_account get_row put_row lowest
first_visit = refl

get_active_profile-IsActive_example : IsActive 7 (get_active_profile ada no_accounts)
get_active_profile-IsActive_example = get_active_profile-IsActive ada no_accounts refl
