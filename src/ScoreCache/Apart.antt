-- ===== src/ScoreCache/Apart.antt =====
-- The stored scores stay one row for each profile and listing.
use vitae.Common.{
  some, false, find_first, [], ◌==◌, arith, All, All-map, ◌<◌, List, ◌∷◌, inr, inl, ◌≡◌, Bool-cases,
  ℕ, All-mem, All-append, ◌++◌, find_first-mem, suc, find_first-passes, none, refl,
}
use vitae.Common.Table.{Table, put_row, insert, All-put_row, save}
use vitae.ScoreCache.{
  ListingMatchScore, keyed_listing_match_score, has_key, new_row, fill, Rating, row_of,
}

-- Neither the id nor the pair of profile and listing is shared.
abbrev pub AreApart : ListingMatchScore → ListingMatchScore → Type 0
AreApart r s = ((s.id == r.id) ≡ false) × (has_key r.profile_id r.listing_id s ≡ false)

abbrev pub Apart : List ListingMatchScore → Type 0
Apart [] = Unit
Apart (r ∷ rs) = All (AreApart r) rs × Apart rs

-- The table keeps its primary key and its unique constraint, and the next id is new.
pub record IsUnique (t : Table ListingMatchScore) : Type 0 where
  pub apart : Apart t.rows
  pub bounded : All (λ r. r.id < t.next_id) t.rows

-- A row has the id of `a` just if it has its pair.
abbrev pub Tracks : ListingMatchScore → ListingMatchScore → Type 0
Tracks a r = (r.id == a.id) ≡ has_key a.profile_id a.listing_id r

Tracks-apart :
    (a r s : ListingMatchScore)
    → AreApart r s
    → r.id ≡ a.id
    → r.profile_id ≡ a.profile_id
    → r.listing_id ≡ a.listing_id
    → Tracks a s
Tracks-apart a r s h i p l = ground (arith, h.0, h.1, i, p, l)

-- the row that is found by its pair is the only one with its id and the only one with its pair
pub All-Tracks :
    (p l : ℕ) (rs : List ListingMatchScore) {row : ListingMatchScore} (a : ListingMatchScore)
    → Apart rs
    → find_first (has_key p l) rs ≡ some row
    → a.id ≡ row.id
    → a.profile_id ≡ p
    → a.listing_id ≡ l
    → All (Tracks a) rs
All-Tracks p l [] {row} a apart h i hp hl = tt
All-Tracks p l (r ∷ rs) {row} a apart h i hp hl = elim (Bool-cases (has_key p l r)) [
  | inl e ↦
      let same : r ≡ row = ground (arith, e, h) in
      (
        ground (arith, e, same, i, hp, hl),
        All-map
            (λ s k.
              Tracks-apart a r s k (ground (arith, same, i)) (ground (arith, e, hp))
                (ground (arith, e, hl)))
            rs apart.0,
      )
  | inr e ↦
      let later : find_first (has_key p l) rs ≡ some row = ground (arith, e, h) in
      let away =
        All-mem (AreApart r) rs apart.0 (find_first-mem (has_key p l) rs {x = row} later) in
      (ground (arith, e, away.0, i, hp, hl), All-Tracks p l rs {row = row} a apart.1 later i hp hl)
]

-- An assignment to a tracked row leaves the rows apart.
All-put_row-AreApart :
    (a r : ListingMatchScore) (rs : List ListingMatchScore)
    → All (AreApart r) rs
    → All (Tracks a) rs
    → All (AreApart r) (put_row a rs)
unfolding put_row
All-put_row-AreApart a r [] h k = tt
All-put_row-AreApart a r (s ∷ rs) h k =
    (ground (arith, h.0, k.0), All-put_row-AreApart a r rs h.1 k.1)

Apart-put_row :
    (a : ListingMatchScore) (rs : List ListingMatchScore)
    → Apart rs
    → All (Tracks a) rs
    → Apart (put_row a rs)
unfolding put_row
Apart-put_row a [] h k = tt
Apart-put_row a (r ∷ rs) h k =
    let away = All-put_row-AreApart a r rs h.0 k.1 in
    (
      All-map (λ s q. (ground (arith, q.0, k.0), ground (arith, q.1, k.0))) (put_row a rs) away,
      Apart-put_row a rs h.1 k.1,
    )

Apart-append :
    (a : ListingMatchScore) (rs : List ListingMatchScore)
    → Apart rs
    → All (λ r. AreApart r a) rs
    → Apart (rs ++ a ∷ [])
Apart-append a [] h k = (tt, tt)
Apart-append a (r ∷ rs) h k =
    (All-append (AreApart r) rs (a ∷ []) h.0 (k.0, tt), Apart-append a rs h.1 k.1)

pub row_of-None :
    (p l : ℕ) (rs : List ListingMatchScore)
    → find_first (has_key p l) rs ≡ none
    → All (λ r. has_key p l r ≡ false) rs
row_of-None p l [] h = tt
row_of-None p l (r ∷ rs) h = (ground (arith, h), row_of-None p l rs (ground (arith, h)))

-- Filling a row that was found by its pair keeps the table unique.
pub save-IsUnique :
    (r : Rating) (now : ℕ) (t : Table ListingMatchScore) {row : ListingMatchScore}
    → row_of r.profile_id r.listing_id t ≡ some row
    → IsUnique t
    → IsUnique (save (fill r now row) t)
unfolding fill
save-IsUnique r now t {row} h u =
    let passes = find_first-passes (has_key r.profile_id r.listing_id) t.rows {x = row} h in
    let tracks =
      All-Tracks r.profile_id r.listing_id t.rows {row = row} (fill r now row) u.apart h refl
        (ground (arith, passes)) (ground (arith, passes)) in
    let low =
      All-mem (λ s. s.id < t.next_id) t.rows u.bounded (find_first-mem _ t.rows {x = row} h) in
    record {
      apart = Apart-put_row (fill r now row) t.rows u.apart tracks;
      bounded = All-put_row (λ s. s.id < t.next_id) (fill r now row) t.rows low u.bounded;
    }

All-apart :
    (a : ListingMatchScore) (rs : List ListingMatchScore)
    → All (λ r. r.id < a.id) rs
    → All (λ r. has_key a.profile_id a.listing_id r ≡ false) rs
    → All (λ r. AreApart r a) rs
All-apart a [] h k = tt
All-apart a (r ∷ rs) h k = ((ground (arith, h.0), ground (arith, k.0)), All-apart a rs h.1 k.1)

-- A new row for a pair that has none keeps the table unique.
pub insert-IsUnique :
    (r : Rating) (now : ℕ) (t : Table ListingMatchScore)
    → row_of r.profile_id r.listing_id t ≡ none
    → IsUnique t
    → IsUnique (insert (new_row r now) t)
unfolding new_row
insert-IsUnique r now t h u =
    let a = new_row r now t.next_id in
    let off = row_of-None r.profile_id r.listing_id t.rows h in
    record {
      apart = Apart-append a t.rows u.apart (All-apart a t.rows u.bounded off);
      bounded =
          All-append (λ s. s.id < suc t.next_id) t.rows (a ∷ [])
            (All-map (λ s k. omega (arith, k)) t.rows u.bounded) (omega arith, tt);
    }
