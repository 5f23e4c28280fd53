-- ===== src/Roles/Examples.antt =====
-- Runs of the role changes, and their theorems at concrete accounts.
use vitae.Common.{false, some, ◌∷◌, ◌≡◌, true, refl, []}
use vitae.Common.Table.{get, get_row, put_row}
use vitae.Roles.{
  own_demotion, is_super_admin, handle_role_request, apply_role, set_user_role, normalize_role,
  can_assign_role, RoleRequest, handle_role_requests, refused, AdminStore, user_role,
}
use vitae.Roles.Admins.{HasSuperAdmin, handle_role_requests-HasSuperAdmin}
use vitae.Roles.Users.{User, keyed_user}

abbrev ada : User
ada = record { id = 1; role = "super_admin"; is_superuser = false }

abbrev bob : User
bob = record { id = 2; role = " User"; is_superuser = true }

abbrev db : AdminStore
db = record {
  users = record { rows = ada ∷ bob ∷ []; next_id = 3 };
  audit = record { rows = []; next_id = 1 };
}

abbrev promotion : RoleRequest
promotion = record { actor_id = 1; user_id = 2; role = "ADMIN " }

abbrev self_demotion : RoleRequest
self_demotion = record { actor_id = 1; user_id = 1; role = "basic" }

promotes_bob :
    get 2 (handle_role_request db promotion).0.users
    ≡ some (record { id = 2; role = "admin"; is_superuser = false })
unfolding handle_role_request set_user_role can_assign_role is_super_admin apply_role normalize_role
    get_row put_row
promotes_bob = refl

keeps_ada : (handle_role_request db self_demotion).1 ≡ some (refused own_demotion)
unfolding handle_role_request set_user_role can_assign_role is_super_admin apply_role normalize_role
    get_row
keeps_ada = refl

db-HasSuperAdmin : HasSuperAdmin db
unfolding get_row user_role normalize_role
db-HasSuperAdmin = (1, ada, refl, refl)

handle_role_requests-HasSuperAdmin_example :
    HasSuperAdmin (handle_role_requests db (promotion ∷ self_demotion ∷ []))
handle_role_requests-HasSuperAdmin_example =
    handle_role_requests-HasSuperAdmin db (promotion ∷ self_demotion ∷ []) db-HasSuperAdmin
