-- ===== src/Common/Distinct.antt =====
-- Rows without repeated ids stay so when they are selected or sorted.
use mathlib.Core.Bool.{Bool, true, false}
use mathlib.Core.List.{List, [], ◌∷◌}
use mathlib.Core.Logic.{◌≢◌}
use mathlib.Core.Path.{sym}
use vitae.Common.Lists.{All, All-select_of, select}
use vitae.Common.Sort.{sort_by, insert_by, All-sort_by, All-insert_by}
use vitae.Common.Table.{Keyed, Distinct}
use vitae.Common.Tests.{if◌then◌else◌}

module _ {A : Type 0} ⦃k : Keyed A⦄ where
  pub Distinct-select : (p : A → Bool) (rs : List A) → Distinct rs → Distinct (select p rs)
  Distinct-select p [] d = tt
  Distinct-select p (r ∷ rs) d = pick (p r) (Distinct-select p rs d.1)
    where
      pick :
          (b : Bool)
          → Distinct (select p rs)
          → Distinct (if b then r ∷ select p rs else select p rs)
      pick true rest = (All-select_of (λ s. k.id_of s ≢ k.id_of r) p rs d.0, rest)
      pick false rest = rest

  Distinct-insert_by :
      (le : A → A → Bool) (r : A) (rs : List A)
      → All (λ s. k.id_of s ≢ k.id_of r) rs
      → Distinct rs
      → Distinct (insert_by le r rs)
  unfolding insert_by
  Distinct-insert_by le r [] apart d = (tt, tt)
  Distinct-insert_by le r (s ∷ rs) apart d = pick (le r s) (Distinct-insert_by le r rs apart.1 d.1)
    where
      pick :
          (b : Bool)
          → Distinct (insert_by le r rs)
          → Distinct (if b then r ∷ s ∷ rs else s ∷ insert_by le r rs)
      pick true rest = (apart, d)
      pick false rest =
          (All-insert_by (λ q. k.id_of q ≢ k.id_of s) le r rs (λ e. apart.0 (sym e)) d.0, rest)

  pub Distinct-sort_by : (le : A → A → Bool) (rs : List A) → Distinct rs → Distinct (sort_by le rs)
  unfolding sort_by
  Distinct-sort_by le [] d = tt
  Distinct-sort_by le (r ∷ rs) d =
      Distinct-insert_by le r (sort_by le rs) (All-sort_by (λ s. k.id_of s ≢ k.id_of r) le rs d.0)
        (Distinct-sort_by le rs d.1)
