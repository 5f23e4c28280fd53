-- ===== src/Matching/Hits.antt =====
-- The skills that are shown as hits and as gaps.
use vitae.Common.{
  ◌≤◌, ◌∷◌, List, length, [], ◌||◌, ◌&&◌, select, String, Memᴰ, str_eq_refl, ◌≡◌, str_eq_iff, arith,
  true, All, false, map, subst, refl, ap, not, length-take, All-select, All-take,
}
use vitae.Common.Text.{lower}
use vitae.Common.Texts.{mem_text, all_different}
use vitae.Matching.Filters.{skill_in_text}
use vitae.Matching.Gains.{hits_of, is_core, gaps_of}

-- the keys of the hits
abbrev pub keys : List String → List String
keys xs = map lower xs

hits_of-unseen :
    (blob : String) (seen skills : List String) (k : String)
    → mem_text k seen ≡ true
    → mem_text k (keys (hits_of blob seen skills)) ≡ false
unfolding hits_of
hits_of-unseen blob seen [] k h = refl
hits_of-unseen blob seen (s ∷ ss) k h = ground (
  arith,
  str_eq_iff k (lower s),
  hits_of-unseen blob seen ss k h,
  hits_of-unseen blob (lower s ∷ seen) ss k,
)

pub hits_of-all_different :
    (blob : String) (seen skills : List String)
    → all_different (keys (hits_of blob seen skills)) ≡ true
unfolding hits_of
hits_of-all_different blob seen [] = refl
hits_of-all_different blob seen (s ∷ ss) = ground (
  arith,
  hits_of-all_different blob seen ss,
  hits_of-all_different blob (lower s ∷ seen) ss,
  hits_of-unseen blob (lower s ∷ seen) ss (lower s),
  str_eq_refl (lower s),
)

pub hits_of-All :
    (blob : String) (seen skills : List String)
    → All (λ s. skill_in_text s blob ≡ true) (hits_of blob seen skills)
unfolding hits_of
hits_of-All blob seen [] = tt
hits_of-All blob seen (s ∷ ss) =
    ground (arith, hits_of-All blob seen ss, hits_of-All blob (lower s ∷ seen) ss)

-- a skill that the text names has its key among the hits, unless it was seen
hits_of-mem :
    (blob : String) (seen skills : List String) (s : String)
    → Memᴰ s skills
    → skill_in_text s blob ≡ true
    → (mem_text (lower s) seen || mem_text (lower s) (keys (hits_of blob seen skills))) ≡ true
unfolding hits_of
hits_of-mem blob seen [] s m h = elim m [ ]
hits_of-mem blob seen (x ∷ xs) s (Memᴰ.head e) h =
    let here : skill_in_text x blob ≡ true = subst (λ y. skill_in_text y blob ≡ true) e h in
    let same : lower s ≡ lower x = ap lower e in
    ground (arith, here, same, str_eq_iff (lower s) (lower x), str_eq_refl (lower x))
hits_of-mem blob seen (x ∷ xs) s (Memᴰ.tail m) h = ground (
  arith,
  hits_of-mem blob seen xs s m h,
  hits_of-mem blob (lower x ∷ seen) xs s m h,
  str_eq_iff (lower s) (lower x),
  str_eq_refl (lower x),
)

pub hits_of-found :
    (blob : String) (skills : List String) (s : String)
    → Memᴰ s skills
    → skill_in_text s blob ≡ true
    → mem_text (lower s) (keys (hits_of blob [] skills)) ≡ true
hits_of-found blob skills s m h = hits_of-mem blob [] skills s m h

pub gaps_of-All :
    (skills hits : List String)
    → All (λ s. mem_text (lower s) (keys hits) ≡ false) (gaps_of skills hits)
unfolding gaps_of
gaps_of-All skills hits =
    All-take _ 8 (select (λ s. not (mem_text (lower s) (keys hits)) && is_core s) skills) (
      All-select _ (λ s. not (mem_text (lower s) (keys hits)) && is_core s)
        (λ s e. ground (arith, e)) skills)

pub length-gaps_of : (skills hits : List String) → length (gaps_of skills hits) ≤ 8
unfolding gaps_of
length-gaps_of skills hits =
    omega (
      arith,
      length-take 8 (select (λ s. not (mem_text (lower s) (keys hits)) && is_core s) skills),
    )
