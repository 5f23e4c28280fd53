-- ===== src/Common/Text.antt =====
-- Python's `str.strip` and `str.lower` on texts. Case is that of ASCII letters.
use Prim.Native.Char.{Char, code}
use Prim.Native.Nat.{ℕ, zero, suc, ◌-◌}
use Prim.Native.String.{char_at, String}
use mathlib.Core.Bool.{Bool, true, false, ◌&&◌, ◌||◌, not}
use mathlib.Core.Logic.{inl, inr}
use mathlib.Core.Option.{Option, none, some}
use mathlib.Core.Path.{◌≡◌, ap, refl, ◌∙◌}
use native.Mathlib.Omega.{arith}
use vitae.Common.Tests.{Bool-cases, str_eq_iff, leb, ◌==◌, if◌then◌else◌, str_eq}

-- the characters for which `str.isspace` is true
unfoldable pub is_space : ℕ → Bool
is_space c =
    (leb 9 c && leb c 13)
    || (leb 28 c && leb c 32)
    || c == 0x85
    || c == 0xa0
    || c == 0x1680
    || (leb 0x2000 c && leb c 0x200a)
    || (leb 0x2028 c && leb c 0x2029)
    || c == 0x202f
    || c == 0x205f
    || c == 0x3000

lstrip : String → String
lstrip String.[] = String.[]
lstrip (String.◌∷◌ c s) = let rest = lstrip s in if is_space (code c) then rest else String.◌∷◌ c s

-- a character is kept if it is no space or something behind it is kept
push_kept : Char → String → String
push_kept c String.[] = if is_space (code c) then String.[] else String.◌∷◌ c String.[]
push_kept c (String.◌∷◌ d s) = String.◌∷◌ c (String.◌∷◌ d s)

rstrip : String → String
rstrip String.[] = String.[]
rstrip (String.◌∷◌ c s) = push_kept c (rstrip s)

unfoldable pub strip : String → String
unfolding is_space lstrip push_kept rstrip
strip s = rstrip (lstrip s)

lower_char : Char → Char
lower_char c =
    if leb b'A' (code c) && leb (code c) b'Z'
    then char_at "abcdefghijklmnopqrstuvwxyz" (code c - b'A')
    else c

unfoldable pub lower : String → String
unfolding lower_char
lower String.[] = String.[]
lower (String.◌∷◌ c s) = String.◌∷◌ (lower_char c) (lower s)

-- the first characters of a text, `s[:n]`
unfoldable pub clip : ℕ → String → String
clip zero s = String.[]
clip (suc n) String.[] = String.[]
clip (suc n) (String.◌∷◌ c s) = String.◌∷◌ c (clip n s)

-- `not s`
abbrev pub is_empty : String → Bool
is_empty s = str_eq s ""

-- `a or b` on texts
abbrev pub or_text : String → String → String
or_text a b = if is_empty a then b else a

-- `a or ""` on a text that may be absent
abbrev pub or_empty : Option String → String
or_empty none = ""
or_empty (some s) = s

-- whether a text has no characters
has_none : String → Bool
has_none String.[] = true
has_none (String.◌∷◌ c s) = false

pub is_empty-cons : (c : Char) (s : String) → is_empty (String.◌∷◌ c s) ≡ false
unfolding has_none
is_empty-cons c s = elim (Bool-cases (is_empty (String.◌∷◌ c s))) [
  | inr e ↦ e
  | inl e ↦
      let gone = ap has_none ((str_eq_iff (String.◌∷◌ c s) "").0 e) in absurd (ground (arith, gone))
]

push_kept-is_empty :
    (c : Char) (s : String) → is_space (code c) ≡ false → is_empty (push_kept c s) ≡ false
unfolding push_kept
push_kept-is_empty c String.[] h = ground (arith, h, is_empty-cons c String.[])
push_kept-is_empty c (String.◌∷◌ d s) h = is_empty-cons c (String.◌∷◌ d s)

-- a text that starts with a character other than white space is not blank
pub strip-is_empty :
    (c : Char) (s : String) → is_space (code c) ≡ false → is_empty (strip (String.◌∷◌ c s)) ≡ false
unfolding strip rstrip lstrip
strip-is_empty c s h = ground (arith, h, push_kept-is_empty c (rstrip s) h)

-- no white space at the front
is_flush : String → Bool
is_flush String.[] = true
is_flush (String.◌∷◌ c s) = not (is_space (code c))

is_flush-lstrip : (s : String) → is_flush (lstrip s) ≡ true
unfolding is_flush lstrip
is_flush-lstrip String.[] = refl
is_flush-lstrip (String.◌∷◌ c s) = ground (arith, is_flush-lstrip s)

is_flush-push_kept :
    (c : Char) (s : String) → is_space (code c) ≡ false → is_flush (push_kept c s) ≡ true
unfolding is_flush push_kept
is_flush-push_kept c String.[] h = ground (arith, h)
is_flush-push_kept c (String.◌∷◌ d s) h = ground (arith, h)

is_flush-rstrip : (s : String) → is_flush s ≡ true → is_flush (rstrip s) ≡ true
unfolding is_flush rstrip
is_flush-rstrip String.[] h = refl
is_flush-rstrip (String.◌∷◌ c s) h = is_flush-push_kept c (rstrip s) (ground (arith, h))

lstrip-is_flush : (s : String) → is_flush s ≡ true → lstrip s ≡ s
unfolding is_flush lstrip
lstrip-is_flush String.[] h = refl
lstrip-is_flush (String.◌∷◌ c s) h = ground (arith, h)

rstrip-push_one :
    (c : Char) (b : Bool)
    → is_space (code c) ≡ b
    → let kept = if b then String.[] else String.◌∷◌ c String.[] in rstrip kept ≡ kept
unfolding rstrip push_kept
rstrip-push_one c true h = refl
rstrip-push_one c false h = ground (arith, h)

rstrip-push_kept : (c : Char) (s : String) → rstrip s ≡ s → rstrip (push_kept c s) ≡ push_kept c s
unfolding rstrip push_kept
rstrip-push_kept c String.[] h = rstrip-push_one c (is_space (code c)) refl
rstrip-push_kept c (String.◌∷◌ d s) h = ap (push_kept c) h

rstrip_twice : (s : String) → rstrip (rstrip s) ≡ rstrip s
unfolding rstrip
rstrip_twice String.[] = refl
rstrip_twice (String.◌∷◌ c s) = rstrip-push_kept c (rstrip s) (rstrip_twice s)

pub strip_twice : (s : String) → strip (strip s) ≡ strip s
unfolding strip
strip_twice s =
    ap rstrip (lstrip-is_flush (rstrip (lstrip s)) (is_flush-rstrip (lstrip s) (is_flush-lstrip s)))
    ∙ rstrip_twice (lstrip s)
