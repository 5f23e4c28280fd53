-- ===== src/Common/Lists.antt =====
-- Lists: lengths over the native numbers, queries by a Boolean test, and predicates on all rows.
use Prim.Native.Nat.{ℕ, zero, suc, ◌+◌, min}
use mathlib.Core.Bool.{Bool, true, false, ◌||◌}
use mathlib.Core.List.{Memᴰ, List, [], ◌∷◌, ◌++◌}
use mathlib.Core.Logic.{inl, inr}
use mathlib.Core.Option.{Option, none, some}
use mathlib.Core.Path.{refl, subst, sym, ◌≡◌, ap, ◌∙◌}
use native.Mathlib.Omega.{arith}
use vitae.Common.Tests.{Bool-cases, ◌==◌, if◌then◌else◌}

abbrev pub member : ℕ → List ℕ → Bool
member n [] = false
member n (x ∷ xs) = x == n || member n xs

module _ {ℓ} {A : Type ℓ} where
  abbrev pub length : List A → ℕ
  length [] = 0
  length (x ∷ xs) = suc (length xs)

  abbrev pub take : ℕ → List A → List A
  take zero xs = []
  take (suc n) [] = []
  take (suc n) (x ∷ xs) = x ∷ take n xs

  abbrev pub drop : ℕ → List A → List A
  drop zero xs = xs
  drop (suc n) [] = []
  drop (suc n) (x ∷ xs) = drop n xs

  -- the rows that pass a test, in their order
  abbrev pub select : (A → Bool) → List A → List A
  select p [] = []
  select p (x ∷ xs) = let rest = select p xs in if p x then x ∷ rest else rest

  -- the first row that passes a test
  abbrev pub find_first : (A → Bool) → List A → Option A
  find_first p [] = none
  find_first p (x ∷ xs) = let rest = find_first p xs in if p x then some x else rest

  -- how many rows pass a test
  abbrev pub count_if : (A → Bool) → List A → ℕ
  count_if p [] = 0
  count_if p (x ∷ xs) = let rest = count_if p xs in if p x then suc rest else rest

  abbrev pub All {κ} : (A → Type κ) → List A → Type κ
  All P [] = Unit
  All P (x ∷ xs) = P x × All P xs

module _ {ℓ} {A : Type ℓ} where
  pub length-take : (n : ℕ) (xs : List A) → length (take n xs) ≡ min n (length xs)
  length-take zero xs = omega arith
  length-take (suc n) [] = omega arith
  length-take (suc n) (x ∷ xs) = omega (arith, length-take n xs)

  pub All-append {κ} :
      (Good : A → Type κ) (front back : List A)
      → All Good front
      → All Good back
      → All Good (front ++ back)
  All-append Good [] back fine also = also
  All-append Good (a ∷ front) back fine also = (fine.0, All-append Good front back fine.1 also)

  pub All-map {κ μ} :
      {P : A → Type κ} {Q : A → Type μ} (f : (x : A) → P x → Q x) (xs : List A)
      → All P xs
      → All Q xs
  All-map f [] h = tt
  All-map f (x ∷ xs) h = (f x h.0, All-map f xs h.1)

  pub All-mem {κ} : (P : A → Type κ) (xs : List A) {x : A} → All P xs → Memᴰ x xs → P x
  All-mem P [] h m = elim m [ ]
  All-mem P (y ∷ ys) {x} h (Memᴰ.head e) = subst P (sym e) h.0
  All-mem P (y ∷ ys) {x} h (Memᴰ.tail m) = All-mem P ys h.1 m

  pub find_first-append :
      (p : A → Bool) (xs ys : List A)
      → find_first p (xs ++ ys)
        ≡ (elim (find_first p xs) [ none ↦ find_first p ys | some a ↦ some a ])
  find_first-append p [] ys = refl
  find_first-append p (x ∷ xs) ys = ground (arith, find_first-append p xs ys)

  pub count_if-append :
      (p : A → Bool) (xs ys : List A) → count_if p (xs ++ ys) ≡ count_if p xs + count_if p ys
  count_if-append p [] ys = omega arith
  count_if-append p (x ∷ xs) ys = ground (arith, count_if-append p xs ys)

  pub count_if-find_first :
      (p : A → Bool) (xs : List A) → find_first p xs ≡ none → count_if p xs ≡ 0
  count_if-find_first p [] h = refl
  count_if-find_first p (x ∷ xs) h = ground (arith, count_if-find_first p xs)

  pub select-append :
      (p : A → Bool) (xs ys : List A) → select p (xs ++ ys) ≡ select p xs ++ select p ys
  select-append p [] ys = refl
  select-append p (x ∷ xs) ys = ground (arith, select-append p xs ys)

  -- a test that none of the rows passes selects none
  pub select-none : (p : A → Bool) (xs : List A) → All (λ x. p x ≡ false) xs → select p xs ≡ []
  select-none p [] h = refl
  select-none p (x ∷ xs) h = ground (arith, h.0, select-none p xs h.1)

  pub All-take {κ} : (P : A → Type κ) (n : ℕ) (xs : List A) → All P xs → All P (take n xs)
  All-take P zero xs h = tt
  All-take P (suc n) [] h = tt
  All-take P (suc n) (x ∷ xs) h = (h.0, All-take P n xs h.1)

  pub All-select {κ} :
      (P : A → Type κ) (p : A → Bool) (f : (x : A) → p x ≡ true → P x) (xs : List A)
      → All P (select p xs)
  All-select P p f [] = tt
  All-select P p f (x ∷ xs) = elim (Bool-cases (p x)) [
    | inl e ↦
        subst (λ b. All P (if b then x ∷ select p xs else select p xs)) (sym e)
          (f x e, All-select P p f xs)
    | inr e ↦
        subst (λ b. All P (if b then x ∷ select p xs else select p xs)) (sym e)
          (All-select P p f xs)
  ]

  pub find_first-mem : (p : A → Bool) (xs : List A) {x : A} → find_first p xs ≡ some x → Memᴰ x xs
  find_first-mem p [] {x} h = absurd (ground arith)
  find_first-mem p (y ∷ ys) {x} h = elim (Bool-cases (p y)) [
    | inl e ↦ Memᴰ.head (ground (arith, e, h))
    | inr e ↦ Memᴰ.tail (find_first-mem p ys {x = x} (ground (arith, e, h)))
  ]

  pub find_first-passes :
      (p : A → Bool) (xs : List A) {x : A} → find_first p xs ≡ some x → p x ≡ true
  find_first-passes p [] {x} h = absurd (ground arith)
  find_first-passes p (y ∷ ys) {x} h = ground (arith, h, find_first-passes p ys {x = x})

  take-nil : (n : ℕ) → take {A = A} n [] ≡ []
  take-nil zero = refl
  take-nil (suc n) = refl

  pub All-drop {κ} : (P : A → Type κ) (n : ℕ) (xs : List A) → All P xs → All P (drop n xs)
  All-drop P zero xs h = h
  All-drop P (suc n) [] h = tt
  All-drop P (suc n) (x ∷ xs) h = All-drop P n xs h.1

  pub take-drop : (n m : ℕ) (xs : List A) → take n xs ++ take m (drop n xs) ≡ take (n + m) xs
  take-drop zero m xs = let e : m ≡ 0 + m = omega arith in ap (λ k. take k xs) e
  take-drop (suc n) m [] = take-nil m ∙ sym (take-nil (suc n + m))
  take-drop (suc n) m (x ∷ xs) =
      let e : suc (n + m) ≡ suc n + m = omega arith in
      ap (λ ys. x ∷ ys) (take-drop n m xs) ∙ ap (λ k. take k (x ∷ xs)) e

  pub All-zip {κ μ} :
      (P : A → Type κ) (Q : A → Type μ) (xs : List A)
      → All P xs
      → All Q xs
      → All (λ x. P x × Q x) xs
  All-zip P Q [] h k = tt
  All-zip P Q (x ∷ xs) h k = ((h.0, k.0), All-zip P Q xs h.1 k.1)

  -- what holds of every value
  pub All_of {κ} : (P : A → Type κ) (xs : List A) → ((x : A) → P x) → All P xs
  All_of P [] f = tt
  All_of P (x ∷ xs) f = (f x, All_of P xs f)

  -- what holds of the rows holds of those that are selected
  pub All-select_of {κ} :
      (P : A → Type κ) (p : A → Bool) (xs : List A) → All P xs → All P (select p xs)
  All-select_of P p [] h = tt
  All-select_of P p (x ∷ xs) h = pick (p x) (All-select_of P p xs h.1)
    where
      pick : (b : Bool) → All P (select p xs) → All P (if b then x ∷ select p xs else select p xs)
      pick true rest = (h.0, rest)
      pick false rest = rest
