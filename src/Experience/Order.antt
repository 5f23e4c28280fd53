-- ===== src/Experience/Order.antt =====
-- The order of the stations after one was deleted.
use vitae.Common.{◌≡◌, [], suc, List, ◌∷◌, ℕ, some, All}
use vitae.Common.Table.{get_row, Distinct, Table}
use vitae.Experience.{ProfileExperience, keyed_experience}
use vitae.Models.AccountRows.{keyed_profile}

-- the rows with their places as `sort_order`
pub numbered : ℕ → List ProfileExperience → List ProfileExperience
numbered index [] = []
numbered index (r ∷ rs) = record r { sort_order = index } ∷ numbered (suc index) rs

-- the rows of a table that stand under their ids
abbrev pub AreStored : List ProfileExperience → List ProfileExperience → Type 0
AreStored rows rs = All (λ r. get_row r.id rows ≡ some r) rs
