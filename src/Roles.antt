-- ===== src/Roles.antt =====
-- Application roles: app/roles.py, and the role change of app/routes/admin.py with its audit record
-- (app/admin_audit.py).
pub mod Users
pub mod Assign
pub mod Admins
mod Examples
use vitae.Common.{
  leb, none, Bool, false, ◌==◌, some, String, if◌then◌else◌, ◌||◌, Option, ◌&&◌, str_eq, not, ℕ,
  ◌∷◌, [], List,
}
use vitae.Common.Table.{save, Table, insert, get}
use vitae.Common.Text.{lower, strip}
use vitae.Roles.Users.{super_admin, value, rank, User, UserRole, admin, basic, is_super, keyed_user}

-- `role` after `(raw or "").strip().lower()` and the legacy alias
abbrev parse_role : String → Option UserRole
parse_role role =
    if str_eq role "basic" || str_eq role "user"
    then some basic
    else if str_eq role "admin"
    then some admin
    else if str_eq role "super_admin"
    then some super_admin
    else none

pub normalize_role : String → UserRole
unfolding lower strip
normalize_role raw = elim (parse_role (lower (strip raw))) [ none ↦ basic | some role ↦ role ]

pub user_role : User → UserRole
user_role user = normalize_role user.role

pub is_admin : Option User → Bool
unfolding user_role
is_admin none = false
is_admin (some user) = leb (rank admin) (rank (user_role user))

pub is_super_admin : Option User → Bool
unfolding user_role
is_super_admin none = false
is_super_admin (some user) = is_super (user_role user)

-- The normalised role is always an allowed one, so the `ValueError` is never raised.
pub apply_role : User → String → User
apply_role user role = record user { role = value (normalize_role role); is_superuser = false }

pub data Refusal : Type 0 where
  only_super_admins : Refusal
  own_demotion : Refusal

-- `none` is permission. A normalised role is always an allowed one, so "Invalid role." never comes.
pub can_assign_role : User → User → String → Option Refusal
can_assign_role actor target new_role =
    if not (is_super_admin (some actor))
    then some only_super_admins
    else if actor.id == target.id
        && is_super (user_role actor)
        && not (is_super (normalize_role new_role))
    then some own_demotion
    else none

-- one row of the audit table: `record_admin_action` of a role change
pub record AdminAuditEvent : Type 0 where
  pub id : ℕ
  pub actor_user_id : ℕ
  pub action : String
  pub resource_id : ℕ
  pub from_role : UserRole
  pub to_role : UserRole

pub record AdminStore : Type 0 where
  pub users : Table User
  pub audit : Table AdminAuditEvent

pub data Reply : Type 0 where
  user_not_found : Reply
  refused : Refusal → Reply
  updated : UserRole → Reply

pub record_admin_action :
    User → String → ℕ → UserRole → UserRole → Table AdminAuditEvent → Table AdminAuditEvent
record_admin_action actor action resource_id from_role to_role = insert λ i. record {
  id = i;
  actor_user_id = actor.id;
  action = action;
  resource_id = resource_id;
  from_role = from_role;
  to_role = to_role;
}

-- The stored change and its record, committed together.
abbrev change_role : User → User → String → AdminStore → AdminStore
change_role actor target role db =
    let after = apply_role target role in
    record {
      users = save after db.users;
      audit =
          record_admin_action actor "user.role_updated" target.id (user_role target)
            (user_role after) db.audit;
    }

-- The handler of POST /admin/users/{user_id}/role. Its guard `require_super_admin_user` has checked
-- `is_super_admin(actor)` before.
pub set_user_role : User → ℕ → String → AdminStore → AdminStore × Reply
set_user_role actor user_id role db = elim (get user_id db.users) [
  | none ↦ (db, user_not_found)
  | some target ↦ elim (can_assign_role actor target role) [
    | some reason ↦ (db, refused reason)
    | none ↦ (change_role actor target role db, updated (user_role (apply_role target role)))
  ]
]

-- One request: the signed-in user is looked up, and the guard refuses anyone but a super admin.
pub record RoleRequest : Type 0 where
  pub actor_id : ℕ
  pub user_id : ℕ
  pub role : String

pub handle_role_request : AdminStore → RoleRequest → AdminStore × Option Reply
handle_role_request db r = elim (get r.actor_id db.users) [
  | none ↦ (db, none)
  | some actor ↦
      let (after, reply) = set_user_role actor r.user_id r.role db in
      if is_super_admin (some actor) then (after, some reply) else (db, none)
]

-- the requests one after another
pub handle_role_requests : AdminStore → List RoleRequest → AdminStore
handle_role_requests db [] = db
handle_role_requests db (r ∷ rs) = handle_role_requests (handle_role_request db r).0 rs
