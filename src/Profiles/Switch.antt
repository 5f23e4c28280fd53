-- ===== src/Profiles/Switch.antt =====
-- Switching the active profile, and reading it back (app/accounts/profile.py).
use mathlib.Core.Path.{subst}
use vitae.Accounts.{
  owned_alive, owned_alive_profile, sync_user, persist_active, get_active_profile, ensure_account,
}
use vitae.Accounts.Active.{stored_active, stored_active-persist_active, stored_or-id}
use vitae.Common.{inr, suc, true, Option-cases, inl, some, member, ℕ, arith, ◌≡◌}
use vitae.Common.Outcome.{ok, >>=-eq-ok}
use vitae.Common.Table.{id_of-get_row, get}
use vitae.Models.AccountRows.{User, Accounts, Profile, keyed_user, keyed_profile}
use vitae.Profiles.{switch_active_profile}
use vitae.Profiles.Archive.{owned_alive_profile-get}

-- the session has seen the user's account complete
ensure_account-ready :
    (user : User) (a : Accounts) → member user.id (ensure_account user a).ready ≡ true
unfolding ensure_account
ensure_account-ready user a = ground (arith, stored_or-id user a)

-- with a complete account, the active profile is the alive one that the stored row names
ready-get_active_profile :
    (user : User) (a : Accounts) (i : ℕ) {p : Profile}
    → member user.id a.ready ≡ true
    → stored_active user.id a ≡ some (suc i)
    → get (suc i) a.profiles ≡ some p
    → owned_alive user.id p ≡ true
    → get_active_profile user a ≡ ok (a, p)
unfolding get_active_profile ensure_account stored_active
ready-get_active_profile user a i {p} seen stored there alive =
    elim (Option-cases (get user.id a.users)) [
      | inl e ↦ absurd (ground (arith, stored, e))
      | inr (u, e) ↦
          let same : u.id ≡ user.id = id_of-get_row user.id a.users.rows {a = u} e in
          ground (arith, seen, stored, there, alive, e, same)
    ]

-- Where switching to a profile under a positive id succeeds, the active profile that is read back
-- from the account is the profile switched to, and reading it changes nothing.
pub switch_active_profile-get_active_profile :
    (user : User) (i : ℕ) (before : Accounts) {after : Accounts} {p : Profile}
    → switch_active_profile user (suc i) before ≡ ok (after, p)
    → get_active_profile user after ≡ ok (after, p)
unfolding switch_active_profile owned_alive_profile
switch_active_profile-get_active_profile user i before {after} {p} h =
    let a = ensure_account user before in
    let (row, found, h1) = >>=-eq-ok (owned_alive_profile user (suc i) a) _ h in
    let (sync, mine, h2) = >>=-eq-ok (sync_user user a) _ h1 in
    let (there, alive) = owned_alive_profile-get user (suc i) a {p = row} found in
    let user_row : get user.id a.users ≡ some sync = ground (arith, mine) in
    let same : row.id ≡ suc i = id_of-get_row (suc i) a.profiles.rows {a = row} there in
    let stored =
      subst (λ j. stored_active user.id (persist_active sync row.id a) ≡ some j) same
        (stored_active-persist_active user.id row.id sync a user_row) in
    let seen : member user.id (persist_active sync row.id a).ready ≡ true =
      ground (arith, ensure_account-ready user before) in
    let there_after : get (suc i) (persist_active sync row.id a).profiles ≡ some row =
      ground (arith, there) in
    let read =
      ready-get_active_profile user (persist_active sync row.id a) i {p = row} seen stored
        there_after alive in
    let is_after : persist_active sync row.id a ≡ after = ground (arith, h2) in
    let is_p : row ≡ p = ground (arith, h2) in
    subst (λ q. get_active_profile user after ≡ ok (after, q)) is_p
      (subst (λ x. get_active_profile user x ≡ ok (x, row)) is_after read)
