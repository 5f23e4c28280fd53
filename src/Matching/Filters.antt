-- ===== src/Matching/Filters.antt =====
-- The title and skill tests of app/matching/filters.py. A pattern of the source is written as a
-- `Regex`; the function `compile` stands for the patterns that the configuration of a profile holds.
use Prim.Native.Char.{code}
use vitae.Common.{
  Bool, ◌&&◌, ◌∷◌, ◌||◌, String, List, ℕ, true, ◌==◌, if◌then◌else◌, leb, [], not, false,
}
use vitae.Common.Regex.{
  search, ◌∣◌, starts_with, edge, contains, whole, Regex, ◌⨾◌, not_behind, search_any, not_ahead,
  word,
}
use vitae.Common.Text.{is_empty, strip, lower}
use vitae.Matching.Titles.{
  dot, node_js, title_include, norm, title_exclude, foreign_stack_title, strong_title,
}

module _ (compile : String → String → Bool) where
  -- whether one of the patterns of the configuration finds the title; an empty one is skipped
  excluded_extra : List String → String → Bool
  excluded_extra [] t = false
  excluded_extra (p ∷ ps) t =
      let found = if starts_with "\\b" p then compile p t else contains (lower p) t in
      (not (is_empty p) && found) || excluded_extra ps t

  unfoldable pub is_excluded_title : String → List String → Bool
  unfolding title_exclude excluded_extra
  is_excluded_title title extra_patterns =
      let t = norm title in search_any title_exclude t || excluded_extra extra_patterns t

unfoldable pub is_foreign_stack_title : String → Bool
unfolding foreign_stack_title
is_foreign_stack_title title =
    let t = norm title in
    let own =
      node_js
      ∣ whole "nodejs"
      ∣ whole "typescript"
      ∣ whole "nestjs"
      ∣ whole "python"
      ∣ whole "fastapi" in
    if search own t then false else search_any foreign_stack_title t

unfoldable pub has_target_stack_signal : String → Bool
unfolding dot
has_target_stack_signal s =
    search
      (whole "typescript"
        ∣ whole "nestjs"
        ∣ (edge ⨾ word "nest" ⨾ dot ⨾ word "js" ⨾ edge)
        ∣ node_js
        ∣ whole "nodejs"
        ∣ whole "python"
        ∣ whole "fastapi"
        ∣ whole "django")
      (norm s)

unfoldable pub has_title_include : String → Bool
unfolding title_include
has_title_include title = search_any title_include (norm title)

unfoldable pub has_strong_title_signal : String → Bool
unfolding strong_title
has_strong_title_signal title = search_any strong_title (norm title)

unfoldable pub should_ingest_title : String → Bool
should_ingest_title title = not (is_empty (strip title))

unfoldable pub should_ingest_job : String → Bool
should_ingest_job title = should_ingest_title title

-- `[a-z0-9.+#\-]` and `[a-z0-9]`
is_skill_char : ℕ → Bool
is_skill_char c =
    (leb b'a' c && leb c b'z')
    || (leb b'0' c && leb c b'9')
    || c == b'.'
    || c == b'+'
    || c == b'#'
    || c == b'-'

is_alnum : ℕ → Bool
is_alnum c = (leb b'a' c && leb c b'z') || (leb b'0' c && leb c b'9')

all_chars : (ℕ → Bool) → String → Bool
all_chars p String.[] = true
all_chars p (String.◌∷◌ c s) = p (code c) && all_chars p s

-- the name of a skill as a pattern, in which each dot may be absent, before a pattern
spell : String → Regex → Regex
unfolding dot
spell String.[] last = last
spell (String.◌∷◌ c s) last =
    let rest = spell s last in
    if code c == b'.' then dot ⨾ rest else word (String.◌∷◌ c String.[]) ⨾ rest

-- `_skill_pattern`
unfoldable pub skill_pattern : String → Regex
unfolding is_alnum spell
skill_pattern skill_norm = not_behind is_alnum ⨾ spell skill_norm (not_ahead is_alnum)

-- `len(s) < 2`
unfoldable pub is_short : String → Bool
is_short String.[] = true
is_short (String.◌∷◌ c String.[]) = true
is_short (String.◌∷◌ c (String.◌∷◌ d s)) = false

unfoldable pub skill_in_text : String → String → Bool
unfolding is_short all_chars is_skill_char skill_pattern
skill_in_text skill s =
    let name = norm skill in
    if is_short name
    then false
    else if all_chars is_skill_char name
    then search (skill_pattern name) s
    else contains name s
