-- ===== src/Common/Sort.antt =====
-- `order_by` and `list.sort`: a stable sort by a test that says whether one row may stand before
-- another.
use Prim.Native.Nat.{suc}
use mathlib.Core.Bool.{Bool, true, false, ◌&&◌, ◌||◌}
use mathlib.Core.List.{List, [], ◌∷◌}
use mathlib.Core.Path.{◌≡◌, refl}
use native.Mathlib.Omega.{arith}
use vitae.Common.Lists.{All, count_if, length}
use vitae.Common.Tests.{if◌then◌else◌}

module _ {ℓ} {A : Type ℓ} where
  -- behind the rows that may stand before it
  unfoldable pub insert_by : (A → A → Bool) → A → List A → List A
  insert_by le x [] = x ∷ []
  insert_by le x (y ∷ ys) = let rest = insert_by le x ys in if le x y then x ∷ y ∷ ys else y ∷ rest

  unfoldable pub sort_by : (A → A → Bool) → List A → List A
  unfolding insert_by
  sort_by le [] = []
  sort_by le (x ∷ xs) = insert_by le x (sort_by le xs)

  -- each row may stand before the next one
  abbrev pub ascending : (A → A → Bool) → List A → Bool
  ascending le [] = true
  ascending le (x ∷ []) = true
  ascending le (x ∷ y ∷ ys) = le x y && ascending le (y ∷ ys)

module _ {ℓ} {A : Type ℓ} where
  pub All-insert_by {κ} :
      (P : A → Type κ) (le : A → A → Bool) (x : A) (xs : List A)
      → P x
      → All P xs
      → All P (insert_by le x xs)
  unfolding insert_by
  All-insert_by P le x [] h k = (h, tt)
  All-insert_by P le x (y ∷ ys) h k = pick (le x y) (All-insert_by P le x ys h k.1)
    where
      pick :
          (b : Bool)
          → All P (insert_by le x ys)
          → All P (if b then x ∷ y ∷ ys else y ∷ insert_by le x ys)
      pick true rest = (h, k)
      pick false rest = (k.0, rest)

  pub All-sort_by {κ} :
      (P : A → Type κ) (le : A → A → Bool) (xs : List A) → All P xs → All P (sort_by le xs)
  unfolding sort_by
  All-sort_by P le [] h = tt
  All-sort_by P le (x ∷ xs) h = All-insert_by P le x (sort_by le xs) h.0 (All-sort_by P le xs h.1)

  count_if-insert_by :
      (p : A → Bool) (le : A → A → Bool) (x : A) (xs : List A)
      → count_if p (insert_by le x xs) ≡ count_if p (x ∷ xs)
  unfolding insert_by
  count_if-insert_by p le x [] = refl
  count_if-insert_by p le x (y ∷ ys) = ground (arith, count_if-insert_by p le x ys)

  -- sorting neither loses nor adds a row, whatever the test that counts
  pub count_if-sort_by :
      (p : A → Bool) (le : A → A → Bool) (xs : List A) → count_if p (sort_by le xs) ≡ count_if p xs
  unfolding sort_by
  count_if-sort_by p le [] = refl
  count_if-sort_by p le (x ∷ xs) =
      ground (arith, count_if-insert_by p le x (sort_by le xs), count_if-sort_by p le xs)

  length-insert_by :
      (le : A → A → Bool) (x : A) (xs : List A) → length (insert_by le x xs) ≡ suc (length xs)
  unfolding insert_by
  length-insert_by le x [] = refl
  length-insert_by le x (y ∷ ys) = ground (arith, length-insert_by le x ys)

  pub length-sort_by : (le : A → A → Bool) (xs : List A) → length (sort_by le xs) ≡ length xs
  unfolding sort_by
  length-sort_by le [] = refl
  length-sort_by le (x ∷ xs) =
      omega (arith, length-insert_by le x (sort_by le xs), length-sort_by le xs)

  -- the order is total
  module _ (le : A → A → Bool) (total : (x y : A) → (le x y || le y x) ≡ true) where
    ascending-insert_by :
        (x : A) (xs : List A) → ascending le xs ≡ true → ascending le (insert_by le x xs) ≡ true
    unfolding insert_by
    ascending-insert_by x [] h = refl
    ascending-insert_by x (y ∷ []) h = ground (arith, total x y)
    ascending-insert_by x (y ∷ z ∷ zs) h =
        ground (arith, h, total x y, total x z, ascending-insert_by x (z ∷ zs))

    pub ascending-sort_by : (xs : List A) → ascending le (sort_by le xs) ≡ true
    unfolding sort_by
    ascending-sort_by [] = refl
    ascending-sort_by (x ∷ xs) = ascending-insert_by x (sort_by le xs) (ascending-sort_by xs)
