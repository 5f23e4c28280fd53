-- ===== src/Models/AccountRows.antt =====
-- `User`, `Profile` and `ProfileBilling` of app/models.py, with the columns that the modelled code
-- reads or writes. User ids, UUIDs in the program, are numbers here.
use vitae.Common.{ℕ, Option, Bool, List, String}
use vitae.Common.Table.{Keyed, Table}

pub record User : Type 0 where
  pub id : ℕ
  pub full_name : String
  pub email : String
  pub active_profile_id : Option ℕ

pub record Profile : Type 0 where
  pub id : ℕ
  pub user_id : ℕ
  pub label : String
  pub full_name : String
  pub email : String
  pub phone : String
  pub linkedin : String
  pub github : String
  pub website : String
  pub location_preference : String
  pub years_experience : String
  pub work_authorization : String
  pub salary_expectation : String
  pub earliest_start : String
  pub note : String
  pub profile_confirmed : Bool
  pub free_unlocked : List ℕ
  pub archived_at : Option ℕ

pub record ProfileBilling : Type 0 where
  pub profile_id : ℕ
  pub user_id : ℕ
  pub plan : String
  pub billing_region : String
  pub bachs_customer_id : String
  pub bachs_subscription_id : String
  pub subscription_status : String
  pub last_checkout_id : String

instance abbrev pub keyed_user : Keyed User
keyed_user = record { id_of = λ r. r.id }

instance abbrev pub keyed_profile : Keyed Profile
keyed_profile = record { id_of = λ r. r.id }

instance abbrev pub keyed_profile_billing : Keyed ProfileBilling
keyed_profile_billing = record { id_of = λ r. r.profile_id }

-- The account tables. `settings` are the users with a row of `user_settings`, and `ready` those for
-- which this session has found the account complete (`db.info`).
pub record Accounts : Type 0 where
  pub users : Table User
  pub profiles : Table Profile
  pub billing : Table ProfileBilling
  pub settings : List ℕ
  pub ready : List ℕ
