-- ===== src/Profiles/Archive.antt =====
-- What a successful `archive_profile` (app/accounts/profile.py) leaves behind.
use mathlib.Core.Path.{ap, subst, sym}
use native.Mathlib.Omega.{arith}
use vitae.Accounts.{
  save_profile, ensure_profile_billing, sync_user, owned_alive_profile, ensure_account, owned_alive,
}
use vitae.Accounts.Active.{stored_active, has_alive, stored_active-persist_active}
use vitae.Common.{
  ◌&&◌, inl, count_if, some, false, Option-cases, ◌<◌, ◌==◌, true, inr, List, ltb, ◌≢◌, ℕ,
  Bool-cases, ◌≡◌, not, is_some,
}
use vitae.Common.Outcome.{value_error, require, ok, >>=-eq-ok}
use vitae.Common.Table.{
  lowest, get, count_if-put_row, lowest-passes, count_if-lowest, Distinct, put_row, id_of-get_row,
}
use vitae.Models.AccountRows.{Profile, User, Accounts, keyed_user, keyed_profile}
use vitae.Profiles.{archive_profile, is_paid_for, move_off}

pub owned_alive_profile-get :
    (user : User) (i : ℕ) (a : Accounts) {p : Profile}
    → owned_alive_profile user i a ≡ ok p
    → (get i a.profiles ≡ some p) × (owned_alive user.id p ≡ true)
unfolding owned_alive_profile
owned_alive_profile-get user i a {p} h = elim (Option-cases (get i a.profiles)) [
  | inl e ↦ absurd (ground arith)
  | inr (q, e) ↦ ground arith
]

-- archiving one of several profiles leaves one that is alive
put_row-has_alive :
    (uid : ℕ) (p : Profile) (rows : List Profile)
    → Distinct rows
    → 1 < count_if (owned_alive uid) rows
    → is_some (lowest (owned_alive uid) (put_row p rows)) ≡ true
put_row-has_alive uid p rows d many =
    elim (Option-cases (lowest (owned_alive uid) (put_row p rows))) [
      | inl e ↦ absurd (
          omega (
            arith,
            count_if-lowest (owned_alive uid) (put_row p rows) e,
            count_if-put_row (owned_alive uid) p rows d,
          ))
      | inr (q, e) ↦ ground arith
    ]

-- the user's row names another profile, and no profile has changed
move_off_lem :
    (uid i : ℕ) (sync : User) (a : Accounts) {after : Accounts}
    → get uid a.users ≡ some sync
    → move_off sync i a ≡ ok after
    → (stored_active uid after ≢ some i) × (after.profiles ≡ a.profiles)
unfolding stored_active
move_off_lem uid i sync a {after} h run = elim (Option-cases sync.active_profile_id) [
  | inl e ↦ ground arith
  | inr (j, e) ↦ elim (Bool-cases (j == i)) [
    | inr f ↦ ground arith
    | inl f ↦
        elim (Option-cases
          (lowest (λ p. owned_alive sync.id p && not (p.id == i)) a.profiles.rows)) [
            | inl g ↦ absurd (ground arith)
            | inr (p, g) ↦ ground (
              arith,
              lowest-passes (λ p. owned_alive sync.id p && not (p.id == i)) a.profiles.rows {a = p}
                  g,
              stored_active-persist_active uid p.id sync a h,
            )
          ]
  ]
]

-- Where the profiles' ids are distinct and archiving a profile succeeds, the profile was the user's
-- own and alive, no paid plan was running on its billing row, its row is now the same one with the archive
-- time set, every other row is as it was, another profile of the user is still alive, and the user's stored
-- active profile is not the archived one.
pub archive_profile_lem :
    (user : User) (i now : ℕ) (before : Accounts) {after : Accounts} {archived : Profile}
    → Distinct (ensure_account user before).profiles.rows
    → archive_profile user i now before ≡ ok (after, archived)
    → (row : Profile) × (get i (ensure_account user before).profiles ≡ some row)
      × (owned_alive user.id row ≡ true)
      × (is_paid_for (ensure_profile_billing user.id row (ensure_account user before).billing).1
          ≡ false)
      × (archived ≡ record row { archived_at = some now })
      × (after.profiles.rows ≡ put_row archived (ensure_account user before).profiles.rows)
      × (has_alive user.id after ≡ true)
      × (stored_active user.id after ≢ some i)
unfolding archive_profile has_alive
archive_profile_lem user i now before {after} {archived} d h =
    let a = ensure_account user before in
    let (row, found, h1) = >>=-eq-ok (owned_alive_profile user i a) _ h in
    let (one, many, h2) =
      >>=-eq-ok (require (ltb 1 (count_if (owned_alive user.id) a.profiles.rows)) value_error) _
        h1 in
    let (two, unpaid, h3) =
      >>=-eq-ok
        (require (not (is_paid_for (ensure_profile_billing user.id row a.billing).1)) value_error) _
        h2 in
    let (sync, mine, h4) = >>=-eq-ok (sync_user user a) _ h3 in
    let back : Profile = record row { archived_at = some now } in
    let saved : Accounts = record (save_profile back a) {
      billing = (ensure_profile_billing user.id row a.billing).0;
    } in
    let (last, moved, h5) = >>=-eq-ok (move_off sync row.id saved) _ h4 in
    let (there, alive) = owned_alive_profile-get user i a {p = row} found in
    let same : row.id ≡ i = id_of-get_row i a.profiles.rows {a = row} there in
    let user_row : get user.id saved.users ≡ some sync = ground (arith, mine) in
    let left = move_off_lem user.id row.id sync saved {after = last} user_row moved in
    let rest = put_row-has_alive user.id back a.profiles.rows d (ground (arith, many)) in
    let is_last : last ≡ after = ground (arith, h5) in
    let is_back : back ≡ archived = ground (arith, h5) in
    let rows : last.profiles.rows ≡ put_row back a.profiles.rows = ap (λ t. t.rows) left.1 in
    let rows_after : after.profiles.rows ≡ put_row archived a.profiles.rows =
      subst (λ p. after.profiles.rows ≡ put_row p a.profiles.rows) is_back
        (subst (λ x. x.profiles.rows ≡ put_row back a.profiles.rows) is_last rows) in
    let moved_off =
      subst (λ x. stored_active user.id x ≢ some i) is_last
        (subst (λ j. stored_active user.id last ≢ some j) same left.0) in
    let others : has_alive user.id last ≡ true =
      subst (λ t. is_some (lowest (owned_alive user.id) t) ≡ true) (sym rows) rest in
    (
      row,
      there,
      alive,
      ground (arith, unpaid),
      sym is_back,
      rows_after,
      subst (λ x. has_alive user.id x ≡ true) is_last others,
      moved_off,
    )
