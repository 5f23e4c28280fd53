-- ===== src/Accounts.antt =====
-- A user's account rows and active profile: app/accounts/bootstrap.py, and `get_active_profile` and
-- its helpers in app/accounts/profile.py. The folders
-- on disk and the request's own copy of `active_profile_id` are left out.
pub mod Active
mod Examples
use vitae.Common.{
  ◌==◌, ℕ, is_none, false, member, ◌&&◌, none, List, Option, ◌++◌, ◌∷◌, is_some, if◌then◌else◌,
  some, Bool, [],
}
use vitae.Common.Outcome.{raised, assertion_error, Outcome, ok, value_error}
use vitae.Common.Table.{save, insert, Table, lowest, get}
use vitae.Models.AccountRows.{
  Accounts, ProfileBilling, User, Profile, keyed_profile, keyed_user, keyed_profile_billing,
}

abbrev pub owned : ℕ → Profile → Bool
owned uid p = p.user_id == uid

-- `Profile.user_id == user.id, Profile.archived_at.is_(None)`
abbrev pub owned_alive : ℕ → Profile → Bool
owned_alive uid p = p.user_id == uid && is_none p.archived_at

-- the free billing row of a profile
abbrev free_billing : ℕ → ℕ → ProfileBilling
free_billing profile_id uid = record {
  profile_id = profile_id;
  user_id = uid;
  plan = "none";
  billing_region = "ng";
  bachs_customer_id = "";
  bachs_subscription_id = "";
  subscription_status = "";
  last_checkout_id = "";
}

abbrev add_billing : ProfileBilling → Table ProfileBilling → Table ProfileBilling
add_billing b t = record t { rows = t.rows ++ b ∷ [] }

unfoldable pub ensure_profile_billing :
    ℕ → Profile → Table ProfileBilling → Table ProfileBilling × ProfileBilling
ensure_profile_billing uid profile t = elim (get profile.id t) [
  | none ↦ (add_billing (free_billing profile.id uid) t, free_billing profile.id uid)
  | some row ↦
      if row.user_id == uid
      then (t, row)
      else let mine = record row { user_id = uid } in (save mine t, mine)
]

-- `for p in profiles of the user: ensure_profile_billing(...)`
pub ensure_billing_of : ℕ → List Profile → Table ProfileBilling → Table ProfileBilling
ensure_billing_of uid [] t = t
ensure_billing_of uid (p ∷ ps) t =
    ensure_billing_of uid ps (if owned uid p then (ensure_profile_billing uid p t).0 else t)

unfoldable pub default_profile : User → ℕ → Profile
default_profile user i = record {
  id = i;
  user_id = user.id;
  label = "Default";
  full_name = user.full_name;
  email = user.email;
  phone = "";
  linkedin = "";
  github = "";
  website = "";
  location_preference = "Remote / Worldwide";
  years_experience = "4+";
  work_authorization = "Eligible to work remotely";
  salary_expectation = "Open to discussion based on role and location";
  earliest_start = "2–4 weeks";
  note = "";
  profile_confirmed = false;
  free_unlocked = [];
  archived_at = none;
}

abbrev pub set_active : User → ℕ → Accounts → Accounts
set_active user profile_id a = record a {
  users = save (record user { active_profile_id = some profile_id }) a.users;
}

abbrev pub save_profile : Profile → Accounts → Accounts
save_profile p a = record a { profiles = save p a.profiles }

-- whether the profile under this id is one that the user may have active
abbrev pub is_usable : ℕ → Option ℕ → Accounts → Bool
is_usable uid none a = false
is_usable uid (some i) a = elim (get i a.profiles) [ none ↦ false | some p ↦ owned_alive uid p ]

-- the profile that the account points at, unless it points at a usable one already
abbrev point_at : User → Profile → Accounts → Accounts
point_at user p a = if is_usable user.id user.active_profile_id a then a else set_active user p.id a

pub settle_profile : User → Accounts → Accounts
unfolding default_profile
settle_profile user a = elim (lowest (owned_alive user.id) a.profiles.rows) [
  | some p ↦ point_at user p a
  | none ↦ elim (lowest (owned user.id) a.profiles.rows) [
    | some p ↦ point_at user p (save_profile (record p { archived_at = none }) a)
    | none ↦
        set_active user a.profiles.next_id
          (record a { profiles = insert (default_profile user) a.profiles })
  ]
]

-- `sync_user`: the stored row, or the given one, attached
abbrev pub attach : User → Accounts → Accounts
attach user a = elim (get user.id a.users) [
  | some _ ↦ a
  | none ↦ record a { users = record a.users { rows = a.users.rows ++ user ∷ [] } }
]

abbrev pub stored_or : User → Option User → User
stored_or user none = user
stored_or user (some row) = row

-- the hot path: the active profile is usable, and the settings and its billing row are there
abbrev pub is_complete : User → Accounts → Bool
is_complete sync a =
    is_usable sync.id sync.active_profile_id a
    && member sync.id a.settings
    && (elim sync.active_profile_id [ none ↦ false | some i ↦ is_some (get i a.billing) ])

abbrev pub fill_in : User → Accounts → Accounts
fill_in sync a =
    let settled = settle_profile sync a in
    record settled {
      settings =
          (if member sync.id settled.settings
            then settled.settings
            else sync.id ∷ settled.settings);
      billing = ensure_billing_of sync.id settled.profiles.rows settled.billing;
      ready = sync.id ∷ settled.ready;
    }

unfoldable pub ensure_account : User → Accounts → Accounts
unfolding settle_profile ensure_billing_of ensure_profile_billing
ensure_account user a =
    let sync = stored_or user (get user.id a.users) in
    let attached = attach user a in
    if member user.id a.ready
    then a
    else if is_complete sync attached
    then record attached { ready = user.id ∷ attached.ready }
    else fill_in sync attached

-- `_persist_active_profile_id`
abbrev pub persist_active : User → ℕ → Accounts → Accounts
persist_active sync profile_id a =
    if (elim sync.active_profile_id [ none ↦ false | some i ↦ i == profile_id ])
    then a
    else set_active sync profile_id a

-- the profile to fall back on: the first that is alive, or the first of all, taken out of the archive
abbrev pub fallback : User → Accounts → Outcome (Accounts × Profile)
fallback sync a = elim (lowest (owned_alive sync.id) a.profiles.rows) [
  | some p ↦ ok (persist_active sync p.id a, p)
  | none ↦ elim (lowest (owned sync.id) a.profiles.rows) [
    | some p ↦
        let back = record p { archived_at = none } in
        ok (persist_active sync p.id (save_profile back a), back)
    | none ↦ raised assertion_error
  ]
]

-- the stored active profile if it is usable; an id of 0 counts as none
abbrev pub active_row : User → Accounts → Option Profile
active_row sync a = elim sync.active_profile_id [
  | none ↦ none
  | some i ↦ if i == 0 then none else elim (get i a.profiles) [
    | none ↦ none
    | some p ↦ if owned_alive sync.id p then some p else none
  ]
]

unfoldable pub get_active_profile : User → Accounts → Outcome (Accounts × Profile)
get_active_profile user before =
    let a = ensure_account user before in
    elim (get user.id a.users) [
      | none ↦ raised value_error
      | some sync ↦ elim (active_row sync a) [ some p ↦ ok (a, p) | none ↦ fallback sync a ]
    ]

-- `_owned_alive_profile`
unfoldable pub owned_alive_profile : User → ℕ → Accounts → Outcome Profile
owned_alive_profile user profile_id a = elim (get profile_id a.profiles) [
  | none ↦ raised value_error
  | some p ↦ if owned_alive user.id p then ok p else raised value_error
]

-- `_sync_user`
abbrev pub sync_user : User → Accounts → Outcome User
sync_user user a = elim (get user.id a.users) [ none ↦ raised value_error | some row ↦ ok row ]
