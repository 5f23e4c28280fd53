-- ===== src/ScoreCache/Refines.antt =====
-- The table of scores as a finite map from a profile and a listing to what was stored last.
use vitae.Common.{
  List, Bool, ◌==◌, is_none, ◌≡◌, ℕ, inl, find_first-append, some, ◌&&◌, find_first-passes,
  find_first, refl, Option, is_some, [], arith, String, ◌∷◌, All, none, if◌then◌else◌, Bool-cases,
  inr, ap, ◌∙◌, sym, Option-cases, false, fun_ext, subst,
}
use vitae.Common.Table.{Table, save, insert, put_row}
use vitae.Common.Text.{or_text, or_empty}
use vitae.ScoreCache.{
  ListingMatchScore, keyed_listing_match_score, has_key, row_of, fill, new_row, Rating,
  upsert_match_score,
}
use vitae.ScoreCache.Apart.{Tracks, All-Tracks, IsUnique, save-IsUnique, insert-IsUnique}

-- what a row holds under its pair
pub record Stored : Type 0 where
  pub match_score : ℕ
  pub match_reasons : String
  pub breakdown_json : String
  pub algorithm_version : String
  pub fingerprint : String
  pub scored_at : ℕ

abbrev pub Scores : Type 0
Scores = ℕ → ℕ → Option Stored

abbrev stored_row : ListingMatchScore → Stored
stored_row r = record {
  match_score = r.match_score;
  match_reasons = r.match_reasons;
  breakdown_json = r.breakdown_json;
  algorithm_version = r.algorithm_version;
  fingerprint = r.fingerprint;
  scored_at = r.scored_at;
}

-- the table as a map
unfoldable pub scores : Table ListingMatchScore → Scores
scores t p l = elim (row_of p l t) [ none ↦ none | some r ↦ some (stored_row r) ]

-- what a call stores
abbrev pub stored_of : Rating → ℕ → Stored
stored_of r now = record {
  match_score = r.match_score;
  match_reasons = r.match_reasons;
  breakdown_json = or_text r.breakdown_json "{}";
  algorithm_version = or_text (or_empty r.algorithm_version) "v2";
  fingerprint = r.fingerprint;
  scored_at = now;
}

-- the map after a call
unfoldable pub put : Rating → ℕ → Scores → Scores
put r now f p l = if r.profile_id == p && r.listing_id == l then some (stored_of r now) else f p l

-- Whether another session has stored the pair that this one does not see.
abbrev pub raced : Rating → Table ListingMatchScore → Table ListingMatchScore → Bool
raced r others mine =
    is_none (row_of r.profile_id r.listing_id mine)
    && is_some (row_of r.profile_id r.listing_id others)

find_first-put_row :
    (p l : ℕ) (a : ListingMatchScore) (rs : List ListingMatchScore)
    → All (Tracks a) rs
    → find_first (has_key p l) (put_row a rs) ≡ (
        if has_key p l a
        then (elim (find_first (has_key p l) rs) [ none ↦ none | some _ ↦ some a ])
        else find_first (has_key p l) rs)
unfolding put_row
find_first-put_row p l a [] k = ground arith
find_first-put_row p l a (r ∷ rs) k = ground (arith, k.0, find_first-put_row p l a rs k.1)

scores-save :
    (r : Rating) (now : ℕ) (t : Table ListingMatchScore) {row : ListingMatchScore} (p l : ℕ)
    → IsUnique t
    → row_of r.profile_id r.listing_id t ≡ some row
    → scores (save (fill r now row) t) p l ≡ put r now (scores t) p l
unfolding scores put fill
scores-save r now t {row} p l u h =
    let passes = find_first-passes (has_key r.profile_id r.listing_id) t.rows {x = row} h in
    let tracks =
      All-Tracks r.profile_id r.listing_id t.rows {row = row} (fill r now row) u.apart h refl
        (ground (arith, passes)) (ground (arith, passes)) in
    let after = find_first-put_row p l (fill r now row) t.rows tracks in
    elim (Bool-cases (has_key p l row)) [
      | inl e ↦
          let same_p : r.profile_id ≡ p = ground (arith, e, passes) in
          let same_l : r.listing_id ≡ l = ground (arith, e, passes) in
          ground (arith, e, h, after, same_p, same_l)
      | inr e ↦ ground (arith, e, passes, after)
    ]

-- a call leaves the rows of other pairs as they are
pub row_of-upsert_match_score :
    (r : Rating) (now : ℕ) (t : Table ListingMatchScore) (p l : ℕ)
    → IsUnique t
    → (r.profile_id == p && r.listing_id == l) ≡ false
    → row_of p l (upsert_match_score r now none t t) ≡ row_of p l t
unfolding upsert_match_score fill new_row
row_of-upsert_match_score r now t p l u other =
    elim (Option-cases (row_of r.profile_id r.listing_id t)) [
      | inr (row, e) ↦
          let passes = find_first-passes (has_key r.profile_id r.listing_id) t.rows {x = row} e in
          let tracks =
            All-Tracks r.profile_id r.listing_id t.rows {row = row} (fill r now row) u.apart e refl
              (ground (arith, passes)) (ground (arith, passes)) in
          let away : has_key p l row ≡ false = ground (arith, passes, other) in
          ground (arith, e, away, find_first-put_row p l (fill r now row) t.rows tracks)
      | inl e ↦
          let after = find_first-append (has_key p l) t.rows (new_row r now t.next_id ∷ []) in
          ground (arith, e, other, after)
    ]

scores-insert :
    (r : Rating) (now : ℕ) (t : Table ListingMatchScore) (p l : ℕ)
    → row_of r.profile_id r.listing_id t ≡ none
    → scores (insert (new_row r now) t) p l ≡ put r now (scores t) p l
unfolding scores put new_row
scores-insert r now t p l h =
    let after = find_first-append (has_key p l) t.rows (new_row r now t.next_id ∷ []) in
    elim (Bool-cases (r.profile_id == p && r.listing_id == l)) [
      | inl e ↦
          let same_p : r.profile_id ≡ p = ground (arith, e) in
          let same_l : r.listing_id ≡ l = ground (arith, e) in
          ground (arith, e, h, after, same_p, same_l)
      | inr e ↦ ground (arith, e, after)
    ]

-- A call without a row at hand, on tables that keep the unique constraint, stores its arguments under
-- its pair and changes nothing else, and the result keeps the constraint. If another session has
-- stored the pair meanwhile, this is said of what that session committed, not of this session's own
-- table.
pub upsert_match_score-refines :
    (r : Rating) (now : ℕ) (others mine : Table ListingMatchScore)
    → IsUnique others
    → IsUnique mine
    → let after = upsert_match_score r now none others mine in
      let base = if raced r others mine then others else mine in
      IsUnique after × ((p l : ℕ) → scores after p l ≡ put r now (scores base) p l)
unfolding upsert_match_score
upsert_match_score-refines r now others mine uo um =
    elim (Option-cases (row_of r.profile_id r.listing_id mine)) [
      | inr (row, e) ↦
          let saved = save-IsUnique r now mine {row = row} e um in
          let reads : (p l : ℕ)
              → scores (save (fill r now row) mine) p l ≡ put r now (scores mine) p l =
            λ p l. scores-save r now mine {row = row} p l um e in
          let q : upsert_match_score r now none others mine ≡ save (fill r now row) mine =
            ground (arith, e) in
          let b : (if raced r others mine then others else mine) ≡ mine = ground (arith, e) in
          (
            subst IsUnique (sym q) saved,
            λ p l.
                ap (λ t. scores t p l) q ∙ reads p l ∙ ap (λ t. put r now (scores t) p l) (sym b),
          )
      | inl e ↦ elim (Option-cases (row_of r.profile_id r.listing_id others)) [
        | inl z ↦
            let q : upsert_match_score r now none others mine ≡ insert (new_row r now) mine =
              ground (arith, e, z) in
            let b : (if raced r others mine then others else mine) ≡ mine = ground (arith, e, z) in
            (
              subst IsUnique (sym q) (insert-IsUnique r now mine e um),
              λ p l.
                  ap (λ t. scores t p l) q
                  ∙ scores-insert r now mine p l e
                  ∙ ap (λ t. put r now (scores t) p l) (sym b),
            )
        | inr (row, z) ↦
            let q : upsert_match_score r now none others mine ≡ save (fill r now row) others =
              ground (arith, e, z) in
            let b : (if raced r others mine then others else mine) ≡ others =
              ground (arith, e, z) in
            (
              subst IsUnique (sym q) (save-IsUnique r now others {row = row} z uo),
              λ p l.
                  ap (λ t. scores t p l) q
                  ∙ scores-save r now others {row = row} p l uo z
                  ∙ ap (λ t. put r now (scores t) p l) (sym b),
            )
      ]
    ]

-- calls one after the other, with nobody else writing
unfoldable pub run : List (Rating × ℕ) → Table ListingMatchScore → Table ListingMatchScore
run [] t = t
run ((r, now) ∷ calls) t = run calls (upsert_match_score r now none t t)

unfoldable pub replay : List (Rating × ℕ) → Scores → Scores
replay [] f = f
replay ((r, now) ∷ calls) f = replay calls (put r now f)

replay-ext :
    (calls : List (Rating × ℕ)) (f g : Scores)
    → ((p l : ℕ) → f p l ≡ g p l)
    → (p l : ℕ) → replay calls f p l ≡ replay calls g p l
replay-ext calls f g h p l = ap (λ k. replay calls k p l) (fun_ext λ x. fun_ext λ y. h x y)

pub same_base : (r : Rating) (t : Table ListingMatchScore) → (if raced r t t then t else t) ≡ t
same_base r t = ground arith

run-refines :
    (calls : List (Rating × ℕ)) (t : Table ListingMatchScore)
    → IsUnique t
    → IsUnique (run calls t) × ((p l : ℕ) → scores (run calls t) p l ≡ replay calls (scores t) p l)
unfolding run replay
run-refines [] t u = (u, λ p l. refl)
run-refines ((r, now) ∷ calls) t u =
    let (fine, reads) = upsert_match_score-refines r now t t u u in
    let next = upsert_match_score r now none t t in
    let (last, told) = run-refines calls next fine in
    (
      last,
      λ p l.
          told p l
          ∙ replay-ext calls (scores next) (put r now (scores t))
              (λ x y. reads x y ∙ ap (λ b. put r now (scores b) x y) (same_base r t)) p l,
    )

-- From the empty table, after any sequence of calls by one session the table keeps its unique
-- constraint and reads as the map that the same calls give, the last call of each pair winning.
pub run-empty_refines :
    (calls : List (Rating × ℕ)) (first : ℕ)
    → let after = run calls (record { rows = []; next_id = first }) in
      IsUnique after × ((p l : ℕ) → scores after p l ≡ replay calls (λ _ _. none) p l)
unfolding scores
run-empty_refines calls first =
    run-refines calls (record { rows = []; next_id = first }) (record { apart = tt; bounded = tt })
