-- ===== src/Roles/Users.antt =====
-- `UserRole` and the columns of `User` that authorisation reads (app/models.py).
use vitae.Common.{true, Bool, false, String, ℕ}
use vitae.Common.Table.{Keyed}

pub data UserRole : Type 0 where
  basic admin super_admin : UserRole

-- `_ROLE_RANK`
abbrev pub rank : UserRole → ℕ
rank basic = 0
rank admin = 1
rank super_admin = 2

abbrev pub value : UserRole → String
value basic = "basic"
value admin = "admin"
value super_admin = "super_admin"

abbrev pub is_super : UserRole → Bool
is_super super_admin = true
is_super _ = false

pub record User : Type 0 where
  pub id : ℕ
  pub role : String
  pub is_superuser : Bool

instance abbrev pub keyed_user : Keyed User
keyed_user = record { id_of = λ u. u.id }
