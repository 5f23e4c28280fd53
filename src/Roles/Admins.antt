-- ===== src/Roles/Admins.antt =====
-- The accounts over a sequence of role changes.
use vitae.Common.{
  String, ℕ, some, ◌≡◌, ◌∷◌, List, Option-cases, arith, ◌==◌, ◌++◌, inr, Bool-cases, inl, [], ◌⊎◌,
  Option, false, Bool, true,
}
use vitae.Common.Table.{get, get_row-put_row, id_of-get_row}
use vitae.Roles.{
  user_role, AdminStore, set_user_role, handle_role_request, RoleRequest, record_admin_action,
  updated, apply_role, can_assign_role, is_super_admin, handle_role_requests, normalize_role, Reply,
}
use vitae.Roles.Assign.{user_role-apply_role, can_assign_role_iff}
use vitae.Roles.Users.{User, super_admin, keyed_user, is_super}

-- some account has the role `super_admin`
abbrev pub HasSuperAdmin : AdminStore → Type 0
HasSuperAdmin db = (i : ℕ) × (u : User) × (get i db.users ≡ some u) × (user_role u ≡ super_admin)

-- the actor of a role change keeps the role
actor_stays :
    (actor : User) (user_id : ℕ) (role : String) (db : AdminStore)
    → get actor.id db.users ≡ some actor
    → user_role actor ≡ super_admin
    → (u : User) × (get actor.id (set_user_role actor user_id role db).0.users ≡ some u)
      × (user_role u ≡ super_admin)
unfolding set_user_role
actor_stays actor user_id role db mine super = elim (Option-cases (get user_id db.users)) [
  | inl z ↦ (actor, ground arith, super)
  | inr (target, z) ↦ elim (Option-cases (can_assign_role actor target role)) [
    | inr (reason, c) ↦ (actor, ground arith, super)
    | inl c ↦
        let after = apply_role target role in
        let written = get_row-put_row actor.id after db.users.rows in
        let (as_asked, _, same_id) = user_role-apply_role target role in
        elim (Bool-cases (target.id == actor.id)) [
          | inl same ↦ (
            after,
            ground (arith, written),
            ground (arith, (can_assign_role_iff actor target role).0 c),
          )
          | inr differ ↦ (actor, ground (arith, written), super)
        ]
  ]
]

handle_role_request-HasSuperAdmin :
    (db : AdminStore) (r : RoleRequest)
    → HasSuperAdmin db
    → HasSuperAdmin (handle_role_request db r).0
unfolding handle_role_request is_super_admin
handle_role_request-HasSuperAdmin db r (i, u, stored, super) =
    elim (Option-cases (get r.actor_id db.users)) [
      | inl z ↦ (i, u, ground arith, super)
      | inr (actor, z) ↦ elim (Bool-cases (is_super (user_role actor))) [
        | inr no_right ↦ (i, u, ground arith, super)
        | inl right ↦
            let mine : get actor.id db.users ≡ some actor =
              ground (arith, id_of-get_row r.actor_id db.users.rows z) in
            let (v, kept, role) = actor_stays actor r.user_id r.role db mine (ground arith) in
            (actor.id, v, ground arith, role)
      ]
    ]

-- While there is a super admin, no sequence of role requests, by whomever, leaves the accounts
-- without one.
pub handle_role_requests-HasSuperAdmin :
    (db : AdminStore) (rs : List RoleRequest)
    → HasSuperAdmin db
    → HasSuperAdmin (handle_role_requests db rs)
unfolding handle_role_requests
handle_role_requests-HasSuperAdmin db [] h = h
handle_role_requests-HasSuperAdmin db (r ∷ rs) h =
    handle_role_requests-HasSuperAdmin (handle_role_request db r).0 rs
      (handle_role_request-HasSuperAdmin db r h)

-- whether a request is answered `updated`
abbrev pub is_updated : Option Reply → Bool
is_updated (some (updated role)) = true
is_updated _ = false

-- A request that is not answered `updated` changes neither the accounts nor the audit table; one
-- that is was a super admin's, and adds one audit record, with its actor, the account, and the role
-- before and after.
pub handle_role_request_lem :
    (db : AdminStore) (r : RoleRequest)
    → (((handle_role_request db r).0 ≡ db) × (is_updated (handle_role_request db r).1 ≡ false))
      ⊎ ((actor : User) × (target : User) × (get r.actor_id db.users ≡ some actor)
          × (user_role actor ≡ super_admin)
          × (get r.user_id db.users ≡ some target)
          × ((handle_role_request db r).1 ≡ some (updated (normalize_role r.role)))
          × ((handle_role_request db r).0.audit.rows
              ≡ db.audit.rows
                ++ record {
                  id = db.audit.next_id;
                  actor_user_id = actor.id;
                  action = "user.role_updated";
                  resource_id = target.id;
                  from_role = user_role target;
                  to_role = normalize_role r.role;
                }
                  ∷ []))
unfolding handle_role_request set_user_role record_admin_action is_super_admin
handle_role_request_lem db r = elim (Option-cases (get r.actor_id db.users)) [
  | inl z ↦ inl (ground arith)
  | inr (actor, z) ↦ elim (Bool-cases (is_super (user_role actor))) [
    | inr no_right ↦ inl (ground arith)
    | inl right ↦ elim (Option-cases (get r.user_id db.users)) [
      | inl y ↦ inl (ground arith)
      | inr (target, y) ↦ elim (Option-cases (can_assign_role actor target r.role)) [
        | inr (reason, c) ↦ inl (ground arith)
        | inl c ↦
            let as_asked = (user_role-apply_role target r.role).0 in
            inr (actor, target, z, ground arith, y, ground arith, ground arith)
      ]
    ]
  ]
]
