-- ===== src/Common/Regex.antt =====
-- Python's `re.search` on the patterns that the source writes down, and `re.escape`. Word
-- characters are those of ASCII.
use Prim.Native.Char.{code}
use Prim.Native.Nat.{ℕ}
use Prim.Native.String.{String}
use mathlib.Core.Bool.{Bool, true, false, ◌&&◌, ◌||◌, not}
use mathlib.Core.List.{List, [], ◌∷◌}
use mathlib.Core.Option.{Option, none, some}
use vitae.Common.Tests.{leb, ◌==◌, if◌then◌else◌}

infixr 60 ◌⨾◌
infixr 55 ◌∣◌
pub data Regex : Type 0 where
  -- `\b`
  edge : Regex
  -- a literal text
  word : String → Regex
  -- one character of a class
  one : (ℕ → Bool) → Regex
  -- `*` of a class
  many : (ℕ → Bool) → Regex
  -- `(?:r)?`
  maybe : Regex → Regex
  -- `(?<!c)` and `(?!c)` of a class
  not_behind : (ℕ → Bool) → Regex
  not_ahead : (ℕ → Bool) → Regex
  ◌⨾◌ : Regex → Regex → Regex
  ◌∣◌ : Regex → Regex → Regex

-- `\w`
is_word : ℕ → Bool
is_word c =
    (leb b'a' c && leb c b'z')
    || (leb b'A' c && leb c b'Z')
    || (leb b'0' c && leb c b'9')
    || c == b'_'

-- Whether a neighbour is there and in a class.
beside : (ℕ → Bool) → Option ℕ → Bool
beside p none = false
beside p (some c) = p c

next : String → Option ℕ
next String.[] = none
next (String.◌∷◌ c s) = some (code c)

-- What is left to match: the character before the position, and the text behind it.
abbrev Goal : Type 0
Goal = Option ℕ → String → Bool

match_word : String → Goal → Goal
match_word String.[] k before s = k before s
match_word (String.◌∷◌ c w) k before String.[] = false
match_word (String.◌∷◌ c w) k before (String.◌∷◌ d s) =
    code c == code d && match_word w k (some (code d)) s

match_one : (ℕ → Bool) → Goal → Goal
match_one p k before String.[] = false
match_one p k before (String.◌∷◌ d s) = p (code d) && k (some (code d)) s

match_many : (ℕ → Bool) → Goal → Goal
match_many p k before String.[] = k before String.[]
match_many p k before (String.◌∷◌ d s) =
    (p (code d) && match_many p k (some (code d)) s) || k before (String.◌∷◌ d s)

-- Whether the pattern matches at a position so that the rest of the goal is met.
match : Regex → Goal → Goal
unfolding is_word beside next match_word match_one match_many
match edge k before s =
    let left = beside is_word before in
    let right = beside is_word (next s) in (if left then not right else right) && k before s
match (word w) k before s = match_word w k before s
match (one p) k before s = match_one p k before s
match (many p) k before s = match_many p k before s
match (maybe r) k before s = match r k before s || k before s
match (not_behind p) k before s = not (beside p before) && k before s
match (not_ahead p) k before s = not (beside p (next s)) && k before s
match (r ⨾ q) k before s = match r (match q k) before s
match (r ∣ q) k before s = match r k before s || match q k before s

search_from : Regex → Option ℕ → String → Bool
unfolding match
search_from r before String.[] = match r (λ _ _. true) before String.[]
search_from r before (String.◌∷◌ c s) =
    match r (λ _ _. true) before (String.◌∷◌ c s) || search_from r (some (code c)) s

-- `re.search(r, s) is not None`
unfoldable pub search : Regex → String → Bool
unfolding search_from
search r s = search_from r none s

-- `any(re.search(r, s) for r in rs)`
unfoldable pub search_any : List Regex → String → Bool
search_any [] s = false
search_any (r ∷ rs) s = search r s || search_any rs s

-- `w in s`
unfoldable pub contains : String → String → Bool
contains w s = search (word w) s

-- `s.startswith(w)`
unfoldable pub starts_with : String → String → Bool
unfolding match_word
starts_with w s = match_word w (λ _ _. true) none s

-- `\bw\b`
abbrev pub whole : String → Regex
whole w = edge ⨾ word w ⨾ edge
