-- ===== src/Common/Ties.antt =====
-- A sort by a test under which no two rows tie gives one result, in whatever order it meets the rows.
use mathlib.Core.Bool.{Bool, true, not}
use mathlib.Core.List.{List, [], ◌∷◌, Permᴰ}
use mathlib.Core.Path.{◌≡◌, refl, ap, subst, ◌∙◌}
use native.Mathlib.Omega.{arith}
use vitae.Common.Lists.{All}
use vitae.Common.Sort.{sort_by, insert_by}

-- what holds of the rows holds of them in another order
pub All-Perm {ℓ κ} :
    {A : Type ℓ} (P : A → Type κ) {xs ys : List A} → Permᴰ xs ys → All P xs → All P ys
All-Perm P Permᴰ.nil h = tt
All-Perm P (Permᴰ.cons e p) h = (subst P e h.0, All-Perm P p h.1)
All-Perm P (Permᴰ.swap e f) h = (subst P f h.1.0, (subst P e h.0, h.1.1))
All-Perm P (Permᴰ.trans p q) h = All-Perm P q (All-Perm P p h)

-- of any two rows exactly one may stand before the other
abbrev pub NoTies {ℓ} : {A : Type ℓ} → (A → A → Bool) → List A → Type ℓ
NoTies le [] = Unit
NoTies le (x ∷ xs) = All (λ y. le x y ≡ not (le y x)) xs × NoTies le xs

module _ {ℓ} {A : Type ℓ} (le : A → A → Bool)
    (trans : (x y z : A) → le x y ≡ true → le y z ≡ true → le x z ≡ true) where
  insert-insert :
      (x y : A) (zs : List A)
      → le x y ≡ not (le y x)
      → insert_by le x (insert_by le y zs) ≡ insert_by le y (insert_by le x zs)
  unfolding insert_by
  insert-insert x y [] h = ground (arith, h)
  insert-insert x y (z ∷ zs) h = ground (arith, h, insert-insert x y zs h, trans x y z, trans y x z)

  flip : {a b : Bool} → a ≡ not b → b ≡ not a
  flip {a} {b} h = ground (arith, h)

  abbrev Differs : List A → A → Type 0
  Differs ys x = All (λ y. le x y ≡ not (le y x)) ys

  NoTies-Perm : {xs ys : List A} → Permᴰ xs ys → NoTies le xs → NoTies le ys
  NoTies-Perm Permᴰ.nil h = tt
  NoTies-Perm (Permᴰ.cons {a} {b} {l₁} {l₂} e p) h =
      (subst (Differs l₂) e (All-Perm (λ y. le a y ≡ not (le y a)) p h.0), NoTies-Perm p h.1)
  NoTies-Perm (Permᴰ.swap {a} {b} {a'} {b'} {l} e f) h =
      let turned : le b a ≡ not (le a b) = flip h.0.0 in
      let first : le a' b' ≡ not (le b' a') =
        subst (λ x. le x b' ≡ not (le b' x)) f (subst (λ y. le b y ≡ not (le y b)) e turned) in
      ((first, subst (Differs l) f h.1.0), (subst (Differs l) e h.0.1, h.1.1))
  NoTies-Perm (Permᴰ.trans p q) h = NoTies-Perm q (NoTies-Perm p h)

  pub sort_by-Perm : {xs ys : List A} → Permᴰ xs ys → NoTies le xs → sort_by le xs ≡ sort_by le ys
  unfolding sort_by
  sort_by-Perm Permᴰ.nil h = refl
  sort_by-Perm (Permᴰ.cons {a} {b} {l₁} {l₂} e p) h =
      ap (insert_by le a) (sort_by-Perm p h.1) ∙ ap (λ x. insert_by le x (sort_by le l₂)) e
  sort_by-Perm (Permᴰ.swap {a} {b} {a'} {b'} {l} e f) h =
      insert-insert a b (sort_by le l) h.0.0
      ∙ ap (λ x. insert_by le x (insert_by le a (sort_by le l))) f
      ∙ ap (λ x. insert_by le a' (insert_by le x (sort_by le l))) e
  sort_by-Perm (Permᴰ.trans p q) h = sort_by-Perm p h ∙ sort_by-Perm q (NoTies-Perm p h)
