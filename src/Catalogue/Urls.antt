-- ===== src/Catalogue/Urls.antt =====
-- The texts under which jobs are compared: `url.split("?")[0].rstrip("/").lower()`, `norm_key`,
-- `_source_display_name`.
use Prim.Native.Char.{Char, code}
use Prim.Native.String.{char_at}
use vitae.Common.{if◌then◌else◌, String, ◌&&◌, leb, ◌||◌, Bool, ◌<>◌, ℕ, false, ◌==◌, ◌-◌}
use vitae.Common.Text.{lower, is_empty}

before_query : String → String
before_query String.[] = String.[]
before_query (String.◌∷◌ c s) =
    let rest = before_query s in if code c == b'?' then String.[] else String.◌∷◌ c rest

drop_slashes : String → String
drop_slashes String.[] = String.[]
drop_slashes (String.◌∷◌ c s) =
    let rest = drop_slashes s in
    if code c == b'/' && is_empty rest then String.[] else String.◌∷◌ c rest

unfoldable pub canonical_url : String → String
unfolding before_query drop_slashes
canonical_url url = lower (drop_slashes (before_query url))

is_key_char : ℕ → Bool
is_key_char c = (leb b'a' c && leb c b'z') || (leb b'0' c && leb c b'9')

keep_key : String → String
unfolding is_key_char
keep_key String.[] = String.[]
keep_key (String.◌∷◌ c s) =
    let rest = keep_key s in if is_key_char (code c) then String.◌∷◌ c rest else rest

-- `norm_key`
unfoldable pub norm_key : String → String
unfolding keep_key
norm_key s = keep_key (lower s)

-- `title_company_key`
unfoldable pub title_company_key : String → String → String
title_company_key title company = "tc:" <> norm_key title <> "|" <> norm_key company

is_letter : ℕ → Bool
is_letter c = (leb b'a' c && leb c b'z') || (leb b'A' c && leb c b'Z')

upper_char : Char → Char
upper_char c =
    if leb b'a' (code c) && leb (code c) b'z'
    then char_at "ABCDEFGHIJKLMNOPQRSTUVWXYZ" (code c - b'a')
    else c

-- `str.title` of a text in small letters: a letter is large unless it follows a letter
title_case : Bool → String → String
unfolding is_letter upper_char
title_case inside String.[] = String.[]
title_case inside (String.◌∷◌ c s) =
    String.◌∷◌ (if inside then c else upper_char c) (title_case (is_letter (code c)) s)

spaced : String → String
spaced String.[] = String.[]
spaced (String.◌∷◌ c s) =
    let rest = spaced s in
    if code c == b':'
    then " / " <> rest
    else if code c == b'_'
    then " " <> rest
    else String.◌∷◌ c rest

-- `_source_display_name`
unfoldable pub source_display_name : String → String
unfolding title_case spaced
source_display_name source_key = title_case false (lower (spaced source_key))
