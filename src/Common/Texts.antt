-- ===== src/Common/Texts.antt =====
-- Lists of texts: membership, `join`, and `list(dict.fromkeys(xs))`.
use Prim.Native.Nat.{ℕ, zero, suc}
use Prim.Native.String.{String}
use mathlib.Core.Bool.{Bool, true, false, ◌&&◌, ◌||◌, not}
use mathlib.Core.List.{List, [], ◌∷◌}
use mathlib.Core.Path.{◌≡◌, refl}
use native.Mathlib.Omega.{arith}
use vitae.Common.Lists.{take}
use vitae.Common.Regex.{contains}
use vitae.Common.Tests.{str_eq, str_eq_iff, str_eq_refl, ◌<>◌, if◌then◌else◌}

-- `x in xs`
abbrev pub mem_text : String → List String → Bool
mem_text x [] = false
mem_text x (y ∷ ys) = str_eq x y || mem_text x ys

-- `not xs`
abbrev pub is_nil {ℓ} : {A : Type ℓ} → List A → Bool
is_nil [] = true
is_nil (x ∷ xs) = false

-- `any(w in s for w in ws)`
abbrev pub any_contains : List String → String → Bool
any_contains [] s = false
any_contains (w ∷ ws) s = contains w s || any_contains ws s

-- `sep.join(xs)`
unfoldable pub join : String → List String → String
join sep [] = ""
join sep (x ∷ []) = x
join sep (x ∷ y ∷ ys) = x <> sep <> join sep (y ∷ ys)

-- The texts that were not seen before, in their order.
fresh : List String → List String → List String
fresh seen [] = []
fresh seen (x ∷ xs) =
    let skip = fresh seen xs in
    let keep = fresh (x ∷ seen) xs in if mem_text x seen then skip else x ∷ keep

-- `list(dict.fromkeys(xs))`
unfoldable pub dedupe : List String → List String
unfolding fresh
dedupe xs = fresh [] xs

-- no text occurs twice
abbrev pub all_different : List String → Bool
all_different [] = true
all_different (x ∷ xs) = not (mem_text x xs) && all_different xs

mem_text-fresh-seen :
    (x : String) (seen xs : List String)
    → mem_text x seen ≡ true
    → mem_text x (fresh seen xs) ≡ false
unfolding fresh
mem_text-fresh-seen x seen [] h = refl
mem_text-fresh-seen x seen (y ∷ ys) h =
    ground
      (arith, str_eq_iff x y, mem_text-fresh-seen x seen ys h, mem_text-fresh-seen x (y ∷ seen) ys)

all_different-fresh : (seen xs : List String) → all_different (fresh seen xs) ≡ true
unfolding fresh
all_different-fresh seen [] = refl
all_different-fresh seen (x ∷ xs) = ground (
  arith,
  all_different-fresh seen xs,
  all_different-fresh (x ∷ seen) xs,
  mem_text-fresh-seen x (x ∷ seen) xs,
  str_eq_refl x,
)

mem_text-fresh :
    (x : String) (seen xs : List String)
    → mem_text x seen ≡ false
    → mem_text x (fresh seen xs) ≡ mem_text x xs
unfolding fresh
mem_text-fresh x seen [] h = refl
mem_text-fresh x seen (y ∷ ys) h =
    ground (arith, str_eq_iff x y, mem_text-fresh x seen ys h, mem_text-fresh x (y ∷ seen) ys)

pub all_different-dedupe : (xs : List String) → all_different (dedupe xs) ≡ true
unfolding dedupe
all_different-dedupe xs = all_different-fresh [] xs

pub mem_text-dedupe : (x : String) (xs : List String) → mem_text x (dedupe xs) ≡ mem_text x xs
unfolding dedupe
mem_text-dedupe x xs = mem_text-fresh x [] xs refl

mem_text-take :
    (x : String) (n : ℕ) (xs : List String) → mem_text x xs ≡ false → mem_text x (take n xs) ≡ false
mem_text-take x zero xs h = refl
mem_text-take x (suc n) [] h = refl
mem_text-take x (suc n) (y ∷ ys) h = ground (arith, mem_text-take x n ys)

pub all_different-take :
    (n : ℕ) (xs : List String) → all_different xs ≡ true → all_different (take n xs) ≡ true
all_different-take zero xs h = refl
all_different-take (suc n) [] h = refl
all_different-take (suc n) (x ∷ xs) h =
    ground (arith, all_different-take n xs, mem_text-take x n xs)
