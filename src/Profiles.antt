-- ===== src/Profiles.antt =====
-- Career profiles: creating, switching, renaming and archiving (app/accounts/profile.py).
pub mod Archive
pub mod Switch
mod Examples
use Prim.Native.Char.{code}
use vitae.Accounts.{
  persist_active, owned_alive, owned_alive_profile, ensure_account, ensure_profile_billing,
  save_profile, get_active_profile, sync_user,
}
use vitae.Common.{
  false, ◌<>◌, ℕ, ◌||◌, String, ◌&&◌, str_eq, [], count_if, Bool, if◌then◌else◌, some, ltb, ◌==◌,
  none, not,
}
use vitae.Common.Outcome.{require, ok, ◌>>=◌, Outcome, value_error, raised, ◌>>◌}
use vitae.Common.Table.{insert, lowest}
use vitae.Common.Text.{strip, clip, lower, or_text, is_space, is_empty}
use vitae.Models.AccountRows.{
  Profile, User, ProfileBilling, Accounts, keyed_user, keyed_profile_billing, keyed_profile,
}

-- runs of white space made one blank: `re.sub(r"\s+", " ", ...)`
collapse : Bool → String → String
collapse after_space String.[] = String.[]
collapse after_space (String.◌∷◌ c s) =
    let space = is_space (code c) in
    let rest = collapse space s in
    if space then (if after_space then rest else " " <> rest) else String.◌∷◌ c rest

-- `_slug_label`
pub slug_label : String → String
unfolding collapse strip clip
slug_label label =
    let cleaned = collapse false (strip label) in
    if is_empty cleaned then "Untitled" else clip 128 cleaned

-- a new career track with the active profile's contact data
unfoldable pub new_profile : User → Profile → String → ℕ → Profile
new_profile user active label i = record {
  id = i;
  user_id = user.id;
  label = slug_label label;
  full_name = or_text active.full_name user.full_name;
  email = or_text active.email user.email;
  phone = active.phone;
  linkedin = active.linkedin;
  github = active.github;
  website = active.website;
  location_preference = or_text active.location_preference "Remote / Worldwide";
  years_experience = or_text active.years_experience "4+";
  work_authorization = or_text active.work_authorization "Eligible to work remotely";
  salary_expectation = active.salary_expectation;
  earliest_start = or_text active.earliest_start "2–4 weeks";
  note = "";
  profile_confirmed = false;
  free_unlocked = [];
  archived_at = none;
}

abbrev add_profile : (ℕ → Profile) → Accounts → Accounts
add_profile make a = record a { profiles = insert make a.profiles }

abbrev bill : User → Profile → Accounts → Accounts
bill user p a = record a { billing = (ensure_profile_billing user.id p a.billing).0 }

-- `_persist_active_profile_id`, for the new profile
abbrev switch_to_new : User → Profile → Accounts → Outcome (Accounts × Profile)
switch_to_new user profile a = do
  sync ← sync_user user a
  ok (persist_active sync profile.id a, profile)

unfoldable pub create_profile : User → String → Bool → Accounts → Outcome (Accounts × Profile)
create_profile user label switch_to before = do
  (a, active) ← get_active_profile user (ensure_account user before)
  let profile = new_profile user active label a.profiles.next_id
  let added = bill user profile (add_profile (new_profile user active label) a)
  if switch_to then switch_to_new user profile added else ok (added, profile)

pub switch_active_profile : User → ℕ → Accounts → Outcome (Accounts × Profile)
switch_active_profile user profile_id before = do
  let a = ensure_account user before
  row ← owned_alive_profile user profile_id a
  sync ← sync_user user a
  ok (persist_active sync row.id a, row)

unfoldable pub rename_profile : User → ℕ → String → Accounts → Outcome (Accounts × Profile)
rename_profile user profile_id label before = do
  let a = ensure_account user before
  row ← owned_alive_profile user profile_id a
  let renamed = record row { label = slug_label label }
  ok (save_profile renamed a, renamed)

-- `billing.plan in PAID_PLANS and status in _ACTIVE_SUB`
unfoldable pub is_paid_for : ProfileBilling → Bool
is_paid_for b =
    let status = lower b.subscription_status in
    (str_eq b.plan "byok_monthly" || str_eq b.plan "platform_monthly")
    && (str_eq status "active" || str_eq status "trialing")

-- the active profile moved off the archived one
abbrev pub move_off : User → ℕ → Accounts → Outcome Accounts
move_off sync profile_id a =
    if (elim sync.active_profile_id [ none ↦ false | some i ↦ i == profile_id ])
    then (elim (lowest (λ p. owned_alive sync.id p && not (p.id == profile_id)) a.profiles.rows) [
      | none ↦ raised value_error
      | some next ↦ ok (persist_active sync next.id a)
    ])
    else ok a

pub archive_profile : User → ℕ → ℕ → Accounts → Outcome (Accounts × Profile)
archive_profile user profile_id now before = do
  let a = ensure_account user before
  row ← owned_alive_profile user profile_id a
  require (ltb 1 (count_if (owned_alive user.id) a.profiles.rows)) value_error
  let (table, billing) = ensure_profile_billing user.id row a.billing
  require (not (is_paid_for billing)) value_error
  let archived = record row { archived_at = some now }
  sync ← sync_user user a
  after ← move_off sync row.id (record (save_profile archived a) { billing = table })
  ok (after, archived)
