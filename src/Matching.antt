-- ===== src/Matching.antt =====
-- app/matching/scorer.py: `score_job_detail`, from the early answers to the breakdown. The title and
-- skill tests stand in Filters, the steps that add points in Gains, those that take points in Losses.
pub mod Titles
pub mod Filters
pub mod Points
pub mod Gains
pub mod Losses
pub mod Explained
pub mod Hits
pub mod Carried
pub mod Shown
mod Examples
use vitae.Common.{
  min, none, Bool, ◌-◌, if◌then◌else◌, ◌++◌, Option, ◌||◌, ◌∷◌, take, [], ◌<>◌, List, ℕ, String,
  some, not,
}
use vitae.Common.Regex.{contains}
use vitae.Common.Text.{clip, or_text}
use vitae.Common.Texts.{dedupe, join, is_nil}
use vitae.Matching.Filters.{
  is_foreign_stack_title, has_target_stack_signal, has_strong_title_signal, is_excluded_title,
}
use vitae.Matching.Gains.{score_location, gaps_of, score_title, score_skills, score_stack}
use vitae.Matching.Losses.{
  score_devops, score_foreign, score_manager, foreign_tokens_in_title, primary_stack, cap_foreign,
}
use vitae.Matching.Points.{award, Tally, Job, start, Settings, Detail, Penalty}
use vitae.Matching.Titles.{norm}

-- the answer of a job that is not looked into
unfoldable pub dismiss : ℕ → String → Penalty → List String → String → Detail
dismiss score reason penalty foreign summary = record {
  score = score;
  reasons = reason ∷ [];
  positives = [];
  penalties = penalty ∷ [];
  skill_hits = [];
  skill_gaps = [];
  jd_stack = foreign;
  foreign_stack = foreign;
  connection_summary = summary;
}

unfoldable pub excluded_detail : Detail
unfolding dismiss
excluded_detail =
    dismiss 10 "Excluded non-engineering / non-target title"
      (record { label = "Excluded title"; delta = 190; detail = "Title filter blocked this role" })
      [] "This title is outside your target roles."

unfoldable pub foreign_detail : String → Detail
unfolding dismiss
foreign_detail title =
    let foreign = foreign_tokens_in_title title in
    dismiss 16
      ("Foreign-stack title (not Node/TypeScript): "
        <> or_text (join ", " foreign) "other language")
      (record {
        label = "Foreign-stack title";
        delta = 180;
        detail = "Title centers on a stack outside your primary Node.js/TypeScript focus";
      })
      foreign "Weak fit: role is labeled for another language stack."

unfoldable pub off_target_detail : Detail
unfolding dismiss
off_target_detail =
    dismiss 12 "No TypeScript/Node or Python/FastAPI mention — outside target stack"
      (record {
        label = "Missing target stack";
        delta = 188;
        detail = "Looking for TypeScript/Node/NestJS and/or Python/FastAPI roles";
      })
      [] "No TypeScript/Node or Python signal — not a target role."

unfoldable pub weak_title_detail : Detail
unfolding dismiss
weak_title_detail =
    dismiss 30 "Missing backend / software-engineer title signal"
      (record {
        label = "Weak title";
        delta = 170;
        detail = "No strong backend/software-engineer signal";
      })
      [] "Title does not read as a backend/software engineering target."

-- `desc` and `blob`
unfoldable pub desc_of : Job → String
desc_of job = norm (clip 6000 job.description)

unfoldable pub blob_of : Job → String
blob_of job = norm job.title <> " " <> desc_of job

-- the answers that are given before points are counted
unfoldable pub early_exit : (String → String → Bool) → Job → Settings → Option Detail
unfolding excluded_detail foreign_detail off_target_detail
early_exit compile job cfg =
    if is_excluded_title compile job.title cfg.exclude_title_patterns
    then some excluded_detail
    else if is_foreign_stack_title job.title
    then some (foreign_detail (norm job.title))
    else if not (has_target_stack_signal (blob_of job))
    then some off_target_detail
    else none

-- the gate on the title: the message to begin with, if the job is counted
unfoldable pub title_gate : Job → Option String
title_gate job =
    let blob = blob_of job in
    if has_strong_title_signal job.title
    then some "Strong engineering title signal"
    else if contains "backend" blob || contains "node" blob || contains "typescript" blob
    then some "Weak title signal; stack mentioned in description only"
    else none

-- `profile.get("skills") or cfg.get("profile_skills") or []`
unfoldable pub profile_skills_of : List String → Settings → List String
profile_skills_of skills cfg = if is_nil skills then cfg.profile_skills else skills

-- the points gained, from the gate on
unfoldable pub gain : String → Job → List String → Settings → Tally
gain msg job skills cfg =
    let title = norm job.title in
    let begun = award msg 70 start in
    let hit = score_skills skills (blob_of job) (score_title cfg.title_keywords title begun) in
    let told = record hit { skill_gaps = gaps_of skills hit.skill_hits } in
    score_stack (title <> " " <> clip 900 (desc_of job))
      (score_location cfg.prefer_remote (norm job.location) title told)

-- the points lost, and the cap
unfoldable pub lose : Job → Settings → Tally → Tally
lose job cfg t =
    let title = norm job.title in
    let desc = desc_of job in
    cap_foreign (primary_stack title desc)
      (score_manager title (score_devops title (score_foreign cfg.penalty_keywords title desc t)))

-- `round` and the bounds 0 and 100, in halves; 38 if the title is capped
unfoldable pub final_score : Tally → ℕ
final_score t = let raw = t.gained - t.lost in min 200 (if t.capped then min raw 76 else raw)

connection : List String → List Penalty → String
connection [] [] =
    "Limited direct skill connection — ranking is mostly from title/location signals."
connection [] (p ∷ ps) = "Weak link: " <> or_text p.detail p.label
connection (h ∷ hs) [] =
    "Strong link: JD asks for " <> join ", " (take 5 (h ∷ hs)) <> ", which overlaps your profile."
connection (h ∷ hs) (p ∷ ps) =
    "Mixed fit: overlap on "
    <> join ", " (take 4 (h ∷ hs))
    <> ", but downranked for "
    <> p.label
    <> "."

unfoldable pub breakdown : Tally → Detail
unfolding final_score connection
breakdown t = record {
  score = final_score t;
  reasons = if is_nil t.reasons then "Limited keyword overlap with profile" ∷ [] else t.reasons;
  positives = t.positives;
  penalties = t.penalties;
  skill_hits = t.skill_hits;
  skill_gaps = t.skill_gaps;
  jd_stack = take 12 (dedupe (t.jd_stack ++ t.foreign_in_title));
  foreign_stack = dedupe t.foreign_in_title;
  connection_summary = connection t.skill_hits t.penalties;
}

-- an early answer, or that of a weak title, or the breakdown
unfoldable pub answer : Option Detail → Option String → (String → Detail) → Detail
unfolding weak_title_detail
answer (some d) gate count = d
answer none none count = weak_title_detail
answer none (some msg) count = count msg

unfoldable pub score_job_detail : (String → String → Bool) → Job → List String → Settings → Detail
score_job_detail compile job profile_skills cfg =
    answer (early_exit compile job cfg) (title_gate job)
      λ msg. breakdown (lose job cfg (gain msg job (profile_skills_of profile_skills cfg) cfg))

-- `score_job`
unfoldable pub score_job : (String → String → Bool) → Job → List String → Settings → ℕ × List String
score_job compile job profile_skills cfg =
    let detail = score_job_detail compile job profile_skills cfg in (detail.score, detail.reasons)

pub record Versioned : Type 0 where
  pub algorithm_version : String
  pub detail : Detail

-- `score_job_versioned`
unfoldable pub score_job_versioned :
    (String → String → Bool) → Job → List String → Settings → Versioned
score_job_versioned compile job profile_skills cfg = record {
  algorithm_version = "v2";
  detail = score_job_detail compile job profile_skills cfg;
}
