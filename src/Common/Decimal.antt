-- ===== src/Common/Decimal.antt =====
-- Decimal numerals: `str(n)` of a number that is not negative.
use Prim.Native.Nat.{ℕ, zero, suc, ◌+◌, ◌*◌, ◌/◌, ◌%◌, ◌-◌, ◌<◌}
use Prim.Native.Char.{Char, code}
use Prim.Native.String.{String, char_at}
use mathlib.Core.Logic.{inl, inr}
use mathlib.Core.Path.{◌≡◌, refl, ap, sym, ◌∙◌}
use native.Mathlib.Omega.{arith}
use vitae.Common.Tests.{Bool-cases, ltb, if◌then◌else◌}

digit : ℕ → Char
digit d = char_at "0123456789" d

-- the numeral before a text, with as many digits as the fuel allows
unfoldable pub numeral : ℕ → ℕ → String → String
unfolding digit
numeral zero n s = s
numeral (suc fuel) n s =
    let longer = numeral fuel (n / 10) (String.◌∷◌ (digit (n % 10)) s) in
    if ltb n 10 then String.◌∷◌ (digit n) s else longer

unfoldable pub decimal : ℕ → String
unfolding numeral
decimal n = numeral (suc n) n String.[]

-- the number that a text of digits names, behind a number that was read before
read : ℕ → String → ℕ
read acc String.[] = acc
read acc (String.◌∷◌ c s) = read (acc * 10 + (code c - 48)) s

code-digit : (d : ℕ) → d < 10 → code (digit d) - 48 ≡ d
unfolding digit
code-digit zero h = refl
code-digit (suc zero) h = refl
code-digit (suc (suc zero)) h = refl
code-digit (suc (suc (suc zero))) h = refl
code-digit (suc (suc (suc (suc zero)))) h = refl
code-digit (suc (suc (suc (suc (suc zero))))) h = refl
code-digit (suc (suc (suc (suc (suc (suc zero)))))) h = refl
code-digit (suc (suc (suc (suc (suc (suc (suc zero))))))) h = refl
code-digit (suc (suc (suc (suc (suc (suc (suc (suc zero)))))))) h = refl
code-digit (suc (suc (suc (suc (suc (suc (suc (suc (suc zero))))))))) h = refl
code-digit (suc (suc (suc (suc (suc (suc (suc (suc (suc (suc d)))))))))) h =
    absurd (omega (arith, h))

read-numeral : (fuel n : ℕ) (s : String) → n < fuel → read 0 (numeral fuel n s) ≡ read n s
unfolding numeral read
read-numeral zero n s h = absurd (omega (arith, h))
read-numeral (suc fuel) n s h = elim (Bool-cases (ltb n 10)) [
  | inl e ↦ ground (arith, e, code-digit n (ground arith))
  | inr e ↦
      let low = code-digit (n % 10) (omega arith) in
      let whole : n / 10 * 10 + (code (digit (n % 10)) - 48) ≡ n = omega (arith, low) in
      let front =
        read-numeral fuel (n / 10) (String.◌∷◌ (digit (n % 10)) s) (ground (arith, e, h)) in
      ground (arith, e, front ∙ ap (λ m. read m s) whole)
]

-- Two numbers with the same numeral are equal.
pub decimal-injective : (m n : ℕ) → decimal m ≡ decimal n → m ≡ n
unfolding decimal read
decimal-injective m n h =
    sym (read-numeral (suc m) m String.[] (omega arith))
    ∙ ap (λ s. read 0 s) h
    ∙ read-numeral (suc n) n String.[] (omega arith)
