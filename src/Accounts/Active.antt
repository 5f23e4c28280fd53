-- ===== src/Accounts/Active.antt =====
-- The profile that `get_active_profile` (app/accounts/profile.py) returns, for an account that
-- `ensure_account` (app/accounts/bootstrap.py) has brought in order.
use mathlib.Core.List.{Memᴰ, ◌∷◌, [], ◌++◌}
use native.Mathlib.Omega.{arith}
use vitae.Accounts.{
  attach, settle_profile, owned_alive, stored_or, default_profile, owned, is_complete,
  ensure_account, fallback, active_row, get_active_profile, persist_active,
}
use vitae.Common.{
  Option, refl, inl, inr, is_some, true, List, ◌≡◌, ℕ, Bool, some, Option-cases, none, false,
  member, Bool-cases, subst, sym,
}
use vitae.Common.Outcome.{raised, Outcome, ok}
use vitae.Common.Table.{
  get, lowest, put_row, mem-append-last, get_row, get_row-append, mem-lowest, put_row-mem,
  lowest-mem, get_row-put_row, lowest-passes, get_row-mem, id_of-get_row,
}
use vitae.Models.AccountRows.{Profile, Accounts, User, keyed_profile, keyed_user}

-- whether the user has a profile that is not archived
unfoldable pub has_alive : ℕ → Accounts → Bool
has_alive uid a = is_some (lowest (owned_alive uid) a.profiles.rows)

-- whether the user has a row
abbrev has_row : ℕ → Accounts → Bool
has_row uid a = is_some (get uid a.users)

-- the active profile that the stored row of the user names
unfoldable pub stored_active : ℕ → Accounts → Option ℕ
stored_active uid a = elim (get uid a.users) [ none ↦ none | some u ↦ u.active_profile_id ]

-- The call returned a profile of the user that is not archived, that is in the table, and that the
-- stored user row names.
pub IsActive : ℕ → Outcome (Accounts × Profile) → Type 0
unfolding stored_active
IsActive uid (raised f) = ⊥
IsActive uid (ok r) =
    (owned_alive uid r.1 ≡ true)
    × Memᴰ r.1 r.0.profiles.rows
    × (stored_active uid r.0 ≡ some r.1.id)

mem-has_alive :
    (uid : ℕ) (rows : List Profile) {p : Profile}
    → Memᴰ p rows
    → owned_alive uid p ≡ true
    → is_some (lowest (owned_alive uid) rows) ≡ true
mem-has_alive uid rows {p} m h =
    let (q, e) = mem-lowest (owned_alive uid) rows {a = p} m h in ground arith

settle_profile-has_alive :
    (user : User) (a : Accounts) → has_alive user.id (settle_profile user a) ≡ true
unfolding settle_profile default_profile has_alive
settle_profile-has_alive user a =
    elim (Option-cases (lowest (owned_alive user.id) a.profiles.rows)) [
      | inr (p, e) ↦ ground arith
      | inl e ↦ elim (Option-cases (lowest (owned user.id) a.profiles.rows)) [
        | inr (p, f) ↦
            let back : Profile = record p { archived_at = none } in
            ground (
              arith,
              mem-has_alive user.id (put_row back a.profiles.rows) {p = back}
                  (put_row-mem back a.profiles.rows {r = p}
                    (lowest-mem (owned user.id) a.profiles.rows {a = p} f) refl)
                  (ground (arith, lowest-passes (owned user.id) a.profiles.rows {a = p} f)),
            )
        | inl f ↦ ground (
          arith,
          mem-has_alive user.id (a.profiles.rows ++ default_profile user a.profiles.next_id ∷ [])
              {p = default_profile user a.profiles.next_id}
              (mem-append-last a.profiles.rows (default_profile user a.profiles.next_id))
              (ground arith),
        )
      ]
    ]

users_after :
    (user : User) (i : ℕ) (a : Accounts)
    → has_row user.id a ≡ true
    → is_some (get_row user.id (put_row (record user { active_profile_id = some i }) a.users.rows))
      ≡ true
users_after user i a h =
    ground
      (arith, get_row-put_row user.id (record user { active_profile_id = some i }) a.users.rows)

settle_profile-has_row :
    (user : User) (a : Accounts)
    → has_row user.id a ≡ true
    → has_row user.id (settle_profile user a) ≡ true
unfolding settle_profile
settle_profile-has_row user a h =
    elim (Option-cases (lowest (owned_alive user.id) a.profiles.rows)) [
      | inr (p, e) ↦ ground (arith, users_after user p.id a h)
      | inl e ↦ elim (Option-cases (lowest (owned user.id) a.profiles.rows)) [
        | inr (p, f) ↦ ground (arith, users_after user p.id a h)
        | inl f ↦ ground (arith, users_after user a.profiles.next_id a h)
      ]
    ]

attach-has_row :
    (user : User) (a : Accounts)
    → get user.id (attach user a).users ≡ some (stored_or user (get user.id a.users))
unfolding get_row
attach-has_row user a = ground (arith, get_row-append user.id a.users.rows (user ∷ []))

is_complete-has_alive :
    (sync : User) (a : Accounts) → is_complete sync a ≡ true → has_alive sync.id a ≡ true
unfolding has_alive
is_complete-has_alive sync a h = elim (Option-cases sync.active_profile_id) [
  | inl e ↦ absurd (ground arith)
  | inr (i, e) ↦ elim (Option-cases (get i a.profiles)) [
    | inl f ↦ absurd (ground arith)
    | inr (p, f) ↦
        mem-has_alive sync.id a.profiles.rows {p = p} (get_row-mem i a.profiles.rows {a = p} f)
          (ground arith)
  ]
]

pub stored_or-id :
    (user : User) (a : Accounts) → (stored_or user (get user.id a.users)).id ≡ user.id
stored_or-id user a = elim (Option-cases (get user.id a.users)) [
  | inl e ↦ ground arith
  | inr (u, e) ↦ ground (arith, id_of-get_row user.id a.users.rows {a = u} e)
]

-- after `ensure_account` in a new session
ensure_account-has_alive :
    (user : User) (a : Accounts)
    → member user.id a.ready ≡ false
    → (has_alive user.id (ensure_account user a) ≡ true)
      × (has_row user.id (ensure_account user a) ≡ true)
unfolding ensure_account has_alive
ensure_account-has_alive user a fresh =
    let sync = stored_or user (get user.id a.users) in
    let attached = attach user a in
    let same : sync.id ≡ user.id = stored_or-id user a in
    let row : has_row sync.id attached ≡ true = ground (arith, same, attach-has_row user a) in
    let alive =
      subst (λ i. has_alive i (settle_profile sync attached) ≡ true) same
        (settle_profile-has_alive sync attached) in
    let kept =
      subst (λ i. has_row i (settle_profile sync attached) ≡ true) same
        (settle_profile-has_row sync attached row) in
    elim (Bool-cases (is_complete sync attached)) [
      | inl c ↦
          let usable =
            subst (λ i. has_alive i attached ≡ true) same (is_complete-has_alive sync attached c) in
          ground (arith, usable, row)
      | inr c ↦ ground (arith, alive, kept)
    ]

pub stored_active-persist_active :
    (uid i : ℕ) (sync : User) (a : Accounts)
    → get uid a.users ≡ some sync
    → stored_active uid (persist_active sync i a) ≡ some i
unfolding stored_active
stored_active-persist_active uid i sync a h =
    let same : sync.id ≡ uid = id_of-get_row uid a.users.rows {a = sync} h in
    elim (Option-cases sync.active_profile_id) [
      | inl e ↦
          ground
            (arith, get_row-put_row uid (record sync { active_profile_id = some i }) a.users.rows)
      | inr (j, e) ↦
          ground
            (arith, get_row-put_row uid (record sync { active_profile_id = some i }) a.users.rows)
    ]

profiles-persist_active :
    (i : ℕ) (sync : User) (a : Accounts) → (persist_active sync i a).profiles ≡ a.profiles
profiles-persist_active i sync a = ground arith

fallback-IsActive :
    (uid : ℕ) (sync : User) (a : Accounts)
    → get uid a.users ≡ some sync
    → has_alive uid a ≡ true
    → IsActive uid (fallback sync a)
unfolding IsActive has_alive
fallback-IsActive uid sync a h alive =
    let same : sync.id ≡ uid = id_of-get_row uid a.users.rows {a = sync} h in
    elim (Option-cases (lowest (owned_alive sync.id) a.profiles.rows)) [
      | inl e ↦
          let none_left : lowest (owned_alive uid) a.profiles.rows ≡ none =
            subst (λ i. lowest (owned_alive i) a.profiles.rows ≡ none) same e in
          absurd (ground arith)
      | inr (p, e) ↦
          let run : fallback sync a ≡ ok (persist_active sync p.id a, p) = ground arith in
          let mine = lowest-passes (owned_alive sync.id) a.profiles.rows {a = p} e in
          let there : Memᴰ p (persist_active sync p.id a).profiles.rows =
            subst (λ t. Memᴰ p t.rows) (sym (profiles-persist_active p.id sync a))
              (lowest-mem (owned_alive sync.id) a.profiles.rows {a = p} e) in
          subst (IsActive uid) (sym run)
            (ground (arith, mine), there, stored_active-persist_active uid p.id sync a h)
    ]

active_row-IsActive :
    (uid : ℕ) (sync : User) (a : Accounts) {p : Profile}
    → get uid a.users ≡ some sync
    → active_row sync a ≡ some p
    → IsActive uid (ok (a, p))
unfolding IsActive stored_active
active_row-IsActive uid sync a {p} h f =
    let same : sync.id ≡ uid = id_of-get_row uid a.users.rows {a = sync} h in
    elim (Option-cases sync.active_profile_id) [
      | inl e ↦ absurd (ground arith)
      | inr (i, e) ↦ elim (Option-cases (get i a.profiles)) [
        | inl g ↦ absurd (ground arith)
        | inr (q, g) ↦
            let found : q ≡ p = ground arith in
            (
              ground (arith, found),
              subst (λ r. Memᴰ r a.profiles.rows) found (get_row-mem i a.profiles.rows {a = q} g),
              ground (arith, found, id_of-get_row i a.profiles.rows {a = q} g),
            )
      ]
    ]

-- Where a session first asks for a user's active profile, whatever the tables hold, the call
-- succeeds: it returns a profile that the user owns, that is not archived and that is a row of the
-- table, and the user's stored row names it as the active one.
pub get_active_profile-IsActive :
    (user : User) (a : Accounts)
    → member user.id a.ready ≡ false
    → IsActive user.id (get_active_profile user a)
unfolding get_active_profile IsActive
get_active_profile-IsActive user before fresh =
    let a = ensure_account user before in
    let (alive, row) = ensure_account-has_alive user before fresh in
    elim (Option-cases (get user.id a.users)) [
      | inl e ↦ absurd (ground arith)
      | inr (sync, e) ↦
          let same : sync.id ≡ user.id = id_of-get_row user.id a.users.rows {a = sync} e in
          elim (Option-cases (active_row sync a)) [
            | inl f ↦
                let run : get_active_profile user before ≡ fallback sync a = ground arith in
                subst (IsActive user.id) (sym run) (fallback-IsActive user.id sync a e alive)
            | inr (p, f) ↦
                let run : get_active_profile user before ≡ ok (a, p) = ground arith in
                subst (IsActive user.id) (sym run) (active_row-IsActive user.id sync a {p = p} e f)
          ]
    ]
