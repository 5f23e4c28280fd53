-- ===== src/Matching/Gains.antt =====
-- The steps of `score_job_detail` that add points: title keywords, skills, gaps, location and stack.
use vitae.Common.{
  str_eq, ◌<>◌, ◌++◌, List, [], map, ◌∷◌, String, take, true, length, ℕ, min, select, if◌then◌else◌,
  Bool, ◌||◌, ◌*◌, ◌&&◌, not,
}
use vitae.Common.Decimal.{decimal}
use vitae.Common.Regex.{edge, contains, search, ◌∣◌, ◌⨾◌, whole, word, Regex}
use vitae.Common.Text.{lower, is_empty}
use vitae.Common.Texts.{dedupe, mem_text, join, is_nil, any_contains}
use vitae.Matching.Filters.{skill_in_text, is_short}
use vitae.Matching.Points.{award, Tally, pick-IsBalanced, IsBalanced, award-IsBalanced}
use vitae.Matching.Titles.{norm, node_js}

-- `len(k) < 3`
is_brief : String → Bool
is_brief String.[] = true
is_brief (String.◌∷◌ c s) = is_short s

-- `[_norm(k) for k in ...]`, less the keywords that are not looked for
meaningful : List String → List String
unfolding is_brief
meaningful keywords =
    select (λ k. not (is_empty k) && not (str_eq k "api") && not (is_brief k)) (map norm keywords)

unfoldable pub title_hits_of : List String → String → List String
unfolding meaningful
title_hits_of keywords title =
    let hits = select (λ k. contains k title) (meaningful keywords) in
    let api =
      contains "api engineer" title || (search (whole "api") title && contains "engineer" title) in
    dedupe (if api then hits ++ "api engineer" ∷ [] else hits)

unfoldable pub score_title : List String → String → Tally → Tally
score_title keywords title t =
    let hits = title_hits_of keywords title in
    let msg = "Title keywords: " <> join ", " (take 4 hits) in
    if is_nil hits then t else award msg (min 40 (12 * length hits)) t

-- the skills that the text names, each once, whatever its case
unfoldable pub hits_of : String → List String → List String → List String
hits_of blob seen [] = []
hits_of blob seen (skill ∷ skills) =
    let skip = hits_of blob seen skills in
    let keep = hits_of blob (lower skill ∷ seen) skills in
    if skill_in_text skill blob && not (mem_text (lower skill) seen) then skill ∷ keep else skip

unfoldable pub score_skills : List String → String → Tally → Tally
score_skills skills blob t =
    let hits = hits_of blob [] skills in
    let msg = "Skills overlap (" <> decimal (length hits) <> "): " <> join ", " (take 8 hits) in
    let found = record t { skill_hits = hits } in
    if is_nil hits then found else award msg (min 70 (7 * length hits)) found

unfoldable pub is_core : String → Bool
is_core skill =
    any_contains
      ("node" ∷ "type" ∷ "nest" ∷ "express" ∷ "python" ∷ "fastapi" ∷ "mongo" ∷ "mysql" ∷ "postgres"
        ∷ "redis" ∷ "docker" ∷ "aws" ∷ "websocket" ∷ "microservice" ∷ [])
      (lower skill)

-- the core skills of the profile that are not among the hits
unfoldable pub gaps_of : List String → List String → List String
unfolding is_core
gaps_of skills hits =
    take 8 (select (λ s. not (mem_text (lower s) (map lower hits)) && is_core s) skills)

unfoldable pub score_location : Bool → String → String → Tally → Tally
score_location prefer_remote location title t =
    let remote =
      contains "remote" location || contains "remote" title || contains "worldwide" location in
    let near =
      contains "nigeria" location || contains "lagos" location || contains "africa" location in
    if prefer_remote && remote
    then award "Remote-friendly location" 16 t
    else if near
    then award "Location match (NG/Africa)" 16 t
    else t

pub record Boost : Type 0 where
  pub pattern_of : Regex
  pub label : String
  pub points : ℕ

pub boosts : List Boost
unfolding node_js
boosts =
    record { pattern_of = node_js ∣ whole "nodejs"; label = "Node.js"; points = 8 }
    ∷ record { pattern_of = whole "typescript"; label = "TypeScript"; points = 6 }
    ∷ record { pattern_of = whole "nestjs"; label = "NestJS"; points = 6 }
    ∷ record { pattern_of = whole "python"; label = "Python"; points = 6 }
    ∷ record { pattern_of = whole "fastapi"; label = "FastAPI"; points = 6 }
    ∷ record { pattern_of = whole "mongodb"; label = "MongoDB"; points = 4 }
    ∷ record {
      pattern_of = whole "postgresql" ∣ whole "postgres";
      label = "PostgreSQL";
      points = 4;
    }
    ∷ record { pattern_of = whole "docker"; label = "Docker"; points = 4 }
    ∷ record { pattern_of = whole "aws"; label = "AWS"; points = 4 }
    ∷ record {
      pattern_of = (edge ⨾ word "payment") ∣ word "fintech" ∣ (word "billing" ⨾ edge);
      label = "Payments/fintech";
      points = 6;
    }
    ∷ []

-- one round of the loop over the stack
unfoldable pub boost : String → Boost → Tally → Tally
boost early b t =
    let named = record t { jd_stack = t.jd_stack ++ b.label ∷ [] } in
    let told = contains (lower b.label) (lower (join " " t.reasons)) in
    if search b.pattern_of early
    then (if told then named else award ("Stack/domain: " <> b.label) b.points named)
    else t

unfoldable pub boost_all : String → List Boost → Tally → Tally
boost_all early [] t = t
boost_all early (b ∷ bs) t = boost_all early bs (boost early b t)

unfoldable pub score_stack : String → Tally → Tally
unfolding boosts boost boost_all
score_stack early t = boost_all early boosts t

pub score_title-IsBalanced :
    (keywords : List String) (title : String) (t : Tally)
    → IsBalanced t
    → IsBalanced (score_title keywords title t)
unfolding score_title
score_title-IsBalanced keywords title t h =
    pick-IsBalanced (is_nil (title_hits_of keywords title)) t _ h (
      award-IsBalanced ("Title keywords: " <> join ", " (take 4 (title_hits_of keywords title)))
        (min 40 (12 * length (title_hits_of keywords title))) t h)

pub score_skills-IsBalanced :
    (skills : List String) (blob : String) (t : Tally)
    → IsBalanced t
    → IsBalanced (score_skills skills blob t)
unfolding score_skills
score_skills-IsBalanced skills blob t h =
    let hits = hits_of blob [] skills in
    let found : IsBalanced (record t { skill_hits = hits }) = record {
      in_won = h.in_won;
      in_taken = h.in_taken;
      uncapped = h.uncapped;
    } in
    pick-IsBalanced (is_nil hits) _ _ found (
      award-IsBalanced
        ("Skills overlap (" <> decimal (length hits) <> "): " <> join ", " (take 8 hits))
        (min 70 (7 * length hits)) (record t { skill_hits = hits }) found)

pub score_location-IsBalanced :
    (prefer : Bool) (location title : String) (t : Tally)
    → IsBalanced t
    → IsBalanced (score_location prefer location title t)
unfolding score_location
score_location-IsBalanced prefer location title t h =
    pick-IsBalanced _ _ _ (award-IsBalanced "Remote-friendly location" 16 t h)
      (pick-IsBalanced _ _ _ (award-IsBalanced "Location match (NG/Africa)" 16 t h) h)

boost-IsBalanced :
    (early : String) (b : Boost) (t : Tally) → IsBalanced t → IsBalanced (boost early b t)
unfolding boost
boost-IsBalanced early b t h =
    let named : IsBalanced (record t { jd_stack = t.jd_stack ++ b.label ∷ [] }) = record {
      in_won = h.in_won;
      in_taken = h.in_taken;
      uncapped = h.uncapped;
    } in
    pick-IsBalanced (search b.pattern_of early) _ _
      (pick-IsBalanced (contains (lower b.label) (lower (join " " t.reasons))) _ _ named (
        award-IsBalanced ("Stack/domain: " <> b.label) b.points
          (record t { jd_stack = t.jd_stack ++ b.label ∷ [] }) named))
      h

boost_all-IsBalanced :
    (early : String) (bs : List Boost) (t : Tally)
    → IsBalanced t
    → IsBalanced (boost_all early bs t)
unfolding boost_all
boost_all-IsBalanced early [] t h = h
boost_all-IsBalanced early (b ∷ bs) t h =
    boost_all-IsBalanced early bs (boost early b t) (boost-IsBalanced early b t h)

pub score_stack-IsBalanced :
    (early : String) (t : Tally) → IsBalanced t → IsBalanced (score_stack early t)
unfolding score_stack
score_stack-IsBalanced early t h = boost_all-IsBalanced early boosts t h
