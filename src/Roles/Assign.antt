-- ===== src/Roles/Assign.antt =====
-- What a role change does and who may make it.
use vitae.Common.{some, ◌≡◌, ◌⊎◌, none, false, String, refl, true, ◌↔◌, ◌≢◌, arith}
use vitae.Roles.{normalize_role, can_assign_role, user_role, apply_role, is_super_admin, is_admin}
use vitae.Roles.Users.{UserRole, basic, User, admin, value, super_admin, keyed_user}

-- A stored role reads back as the role that was stored.
pub normalize_role-value : (r : UserRole) → normalize_role (value r) ≡ r
unfolding normalize_role
normalize_role-value basic = refl
normalize_role-value admin = refl
normalize_role-value super_admin = refl

-- Applying a role gives the user the normalised role, and never the framework's superuser flag.
pub user_role-apply_role :
    (user : User) (role : String)
    → (user_role (apply_role user role) ≡ normalize_role role)
      × ((apply_role user role).is_superuser ≡ false)
      × ((apply_role user role).id ≡ user.id)
unfolding apply_role user_role
user_role-apply_role user role = (normalize_role-value (normalize_role role), refl, refl)

-- A super admin is an admin, and an admin is a super admin or has the role `admin`.
pub is_admin_iff :
    (user : User)
    → (is_admin (some user) ≡ true)
      ↔ ((user_role user ≡ admin) ⊎ (is_super_admin (some user) ≡ true))
unfolding is_admin is_super_admin
is_admin_iff user = ground arith

-- A role change is permitted exactly to super admins, and not to one who would take the role away
-- from the own account.
pub can_assign_role_iff :
    (actor target : User) (role : String)
    → (can_assign_role actor target role ≡ none) ↔ (
        (user_role actor ≡ super_admin)
        × ((actor.id ≢ target.id) ⊎ (normalize_role role ≡ super_admin)))
unfolding can_assign_role is_super_admin
can_assign_role_iff actor target role = ground arith
