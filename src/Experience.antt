-- ===== src/Experience.antt =====
-- app/profile/experience.py: the stations of a career profile and their order. A request sees the
-- table of profiles and that of the stations.
pub mod Order
pub mod Owner
mod Examples
use vitae.Accounts.{owned_alive}
use vitae.Common.{
  ◌||◌, suc, some, ◌==◌, [], ◌&&◌, if◌then◌else◌, ◌∷◌, ltb, leb, count_if, Bool, none, String,
  select, ℕ, not, List,
}
use vitae.Common.Outcome.{value_error, raised, ok, require, permission_error, ◌>>◌, Outcome, ◌>>=◌}
use vitae.Common.Sort.{sort_by}
use vitae.Common.Table.{amend, insert, save, get, Table, Keyed}
use vitae.Common.Text.{is_empty, clip, strip}
use vitae.Models.AccountRows.{Profile, keyed_profile}

pub record ProfileExperience : Type 0 where
  pub id : ℕ
  pub profile_id : ℕ
  pub position : String
  pub company : String
  pub location : String
  pub start_date : String
  pub end_date : String
  pub description : String
  pub sort_order : ℕ

instance abbrev pub keyed_experience : Keyed ProfileExperience
keyed_experience = record { id_of = λ r. r.id }

-- the keyword arguments
pub record Station : Type 0 where
  pub position : String
  pub company : String
  pub location : String
  pub start_date : String
  pub end_date : String
  pub description : String

-- `_owned_profile`
unfoldable pub owned_profile : Table Profile → ℕ → ℕ → Outcome Profile
owned_profile profiles user_id profile_id = elim (get profile_id profiles) [
  | none ↦ raised permission_error
  | some p ↦ if owned_alive user_id p then ok p else raised permission_error
]

-- `order_by(sort_order.asc(), id.asc())`
unfoldable pub stands_before : ProfileExperience → ProfileExperience → Bool
stands_before a b = ltb a.sort_order b.sort_order || (a.sort_order == b.sort_order && leb a.id b.id)

abbrev pub is_of : ℕ → ProfileExperience → Bool
is_of profile_id r = r.profile_id == profile_id

-- the stations of a profile in their order
unfoldable pub ordered : ℕ → List ProfileExperience → List ProfileExperience
ordered profile_id rows = sort_by stands_before (select (is_of profile_id) rows)

unfoldable pub list_experience :
    Table Profile → ℕ → ℕ → Table ProfileExperience → Outcome (List ProfileExperience)
list_experience profiles user_id profile_id t = do
  _ ← owned_profile profiles user_id profile_id
  ok (ordered profile_id t.rows)

-- the columns that a form fills
unfoldable pub fill_station : Station → ProfileExperience → ProfileExperience
fill_station f r = record r {
  position = clip 255 (strip f.position);
  company = clip 255 (strip f.company);
  location = clip 255 (strip f.location);
  start_date = clip 64 (strip f.start_date);
  end_date = clip 64 (strip f.end_date);
  description = clip 10000 (strip f.description);
}

-- `not item.position or not item.company`, raised as `ValueError`
abbrev pub is_named : Station → Bool
is_named f =
    not (is_empty (clip 255 (strip f.position))) && not (is_empty (clip 255 (strip f.company)))

unfoldable pub add_experience :
    Table Profile → ℕ → ℕ → Station → Table ProfileExperience → Outcome (Table ProfileExperience)
add_experience profiles user_id profile_id f t = do
  _ ← owned_profile profiles user_id profile_id
  require (is_named f) value_error
  ok (
      insert
        (λ i. fill_station f (record {
          id = i;
          profile_id = profile_id;
          position = "";
          company = "";
          location = "";
          start_date = "";
          end_date = "";
          description = "";
          sort_order = count_if (is_of profile_id) t.rows;
        }))
        t)

-- `db.get(ProfileExperience, id)`, whose absence is a `ValueError`
unfoldable pub find_experience : ℕ → Table ProfileExperience → Outcome ProfileExperience
find_experience id t = elim (get id t) [ none ↦ raised value_error | some r ↦ ok r ]

unfoldable pub update_experience :
    Table Profile → ℕ → ℕ → Station → Table ProfileExperience → Outcome (Table ProfileExperience)
update_experience profiles user_id id f t = do
  item ← find_experience id t
  _ ← owned_profile profiles user_id item.profile_id
  require (is_named f) value_error
  ok (save (fill_station f item) t)

-- `row.sort_order = index` for the rows in turn
unfoldable pub renumber :
    ℕ → List ProfileExperience → List ProfileExperience → List ProfileExperience
renumber index [] rows = rows
renumber index (r ∷ rs) rows =
    renumber (suc index) rs (amend r.id (λ x. record x { sort_order = index }) rows)

-- the rows without the deleted one, renumbered
unfoldable pub without : ProfileExperience → List ProfileExperience → List ProfileExperience
without item rows =
    let left = select (λ r. not (r.id == item.id)) rows in
    renumber 0 (ordered item.profile_id left) left

unfoldable pub delete_experience :
    Table Profile → ℕ → ℕ → Table ProfileExperience → Outcome (Table ProfileExperience)
delete_experience profiles user_id id t = do
  item ← find_experience id t
  _ ← owned_profile profiles user_id item.profile_id
  ok (record t { rows = without item t.rows })
