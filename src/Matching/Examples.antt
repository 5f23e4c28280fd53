-- ===== src/Matching/Examples.antt =====
-- Concrete jobs, and what the scorer says of them.
use vitae.Common.{
  ◌≡◌, Bool, ◌∷◌, refl, false, true, String, [], not, some, ◌&&◌, none, if◌then◌else◌, min, ◌-◌,
  Memᴰ,
}
use vitae.Common.Decimal.{numeral, decimal}
use vitae.Common.Regex.{search, starts_with, contains, search_any}
use vitae.Common.Text.{is_space, strip, clip, lower}
use vitae.Common.Texts.{dedupe, join, is_nil, mem_text}
use vitae.Matching.{
  score_job_detail, early_exit, lose, breakdown, blob_of, title_gate, gain, profile_skills_of,
  desc_of, answer,
}
use vitae.Matching.Explained.{score_job_detail-explained}
use vitae.Matching.Filters.{
  has_strong_title_signal, is_excluded_title, is_short, skill_in_text, skill_pattern,
  is_foreign_stack_title, has_target_stack_signal,
}
use vitae.Matching.Gains.{
  title_hits_of, hits_of, score_location, score_stack, score_title, gaps_of, score_skills,
}
use vitae.Matching.Hits.{keys}
use vitae.Matching.Losses.{
  cap_foreign, score_devops, primary_stack, foreign_in_title_of, score_manager, score_foreign,
  foreign_tokens_in_title,
}
use vitae.Matching.Points.{Settings, Job, taken, won}
use vitae.Matching.Shown.{score_job_detail-IsShown, IsShown, score_job_detail-hits}
use vitae.Matching.Titles.{norm, node_js}

abbrev no_patterns : String → String → Bool
no_patterns p t = false

abbrev settings : Settings
settings = record {
  profile_skills = [];
  title_keywords = "backend" ∷ "api" ∷ [];
  penalty_keywords = "blockchain" ∷ [];
  exclude_title_patterns = [];
  prefer_remote = true;
}

abbrev node_job : Job
node_job = record {
  title = "Senior Backend Engineer";
  description = "Node.js and TypeScript";
  location = "Remote";
}

node_job_score :
    (score_job_detail no_patterns node_job ("TypeScript" ∷ "Redis" ∷ []) settings).score ≡ 113
unfolding score_job_detail early_exit is_excluded_title search_any search norm strip lower
    is_foreign_stack_title node_js has_target_stack_signal blob_of desc_of clip title_gate
    has_strong_title_signal breakdown lose gain decimal numeral contains starts_with is_space dedupe
    join is_short skill_in_text skill_pattern gaps_of hits_of score_location score_skills
    score_stack score_title title_hits_of cap_foreign foreign_in_title_of primary_stack score_devops
    score_foreign score_manager profile_skills_of answer
node_job_score = refl

node_job_early : early_exit no_patterns node_job settings ≡ none
unfolding early_exit is_excluded_title search_any search norm strip lower is_foreign_stack_title
    node_js has_target_stack_signal blob_of desc_of clip is_space contains starts_with
node_job_early = refl

node_job_gate : title_gate node_job ≡ some "Strong engineering title signal"
unfolding title_gate has_strong_title_signal search_any search norm strip lower node_js blob_of
    desc_of clip is_space contains
node_job_gate = refl

score_job_detail-explained_example :
    let d = score_job_detail no_patterns node_job ("TypeScript" ∷ "Redis" ∷ []) settings in
    let primary = primary_stack (norm node_job.title) (desc_of node_job) in
    let raw = won d.positives - taken d.penalties in
    let cap = not (is_nil d.foreign_stack) && not primary in
    d.score ≡ min 200 (if cap then min raw 76 else raw)
score_job_detail-explained_example =
    score_job_detail-explained no_patterns node_job ("TypeScript" ∷ "Redis" ∷ []) settings
      "Strong engineering title signal" node_job_early node_job_gate

score_job_detail-IsShown_example :
    IsShown
      (blob_of node_job)
      (score_job_detail no_patterns node_job ("TypeScript" ∷ "Redis" ∷ []) settings)
score_job_detail-IsShown_example =
    score_job_detail-IsShown no_patterns node_job ("TypeScript" ∷ "Redis" ∷ []) settings

type_script_named : skill_in_text "TypeScript" (blob_of node_job) ≡ true
unfolding skill_in_text skill_pattern is_short blob_of desc_of norm strip lower is_space clip search
type_script_named = refl

score_job_detail-hits_example :
    mem_text (lower "TypeScript") (
      keys
        (score_job_detail no_patterns node_job ("TypeScript" ∷ "Redis" ∷ []) settings).skill_hits)
    ≡ true
unfolding profile_skills_of
score_job_detail-hits_example =
    score_job_detail-hits no_patterns node_job ("TypeScript" ∷ "Redis" ∷ []) settings
      "Strong engineering title signal" "TypeScript" node_job_early node_job_gate (Memᴰ.head refl)
      type_script_named

-- The boundary before `.net` asks for a letter in front of the dot.
dot_net_title : is_foreign_stack_title ".NET Developer" ≡ false
unfolding is_foreign_stack_title norm strip lower is_space search search_any node_js
dot_net_title = refl

-- The token `go`, of "go " without its space, is found within other words.
mongo_title : foreign_in_title_of "mongodb backend engineer" ≡ "go" ∷ []
unfolding foreign_in_title_of search contains strip is_space
mongo_title = refl

java_script_title : foreign_in_title_of "javascript engineer" ≡ "java" ∷ []
unfolding foreign_in_title_of search contains strip is_space
java_script_title = refl

-- The boundary behind `#` asks for a letter.
c_sharp_tokens : foreign_tokens_in_title "c# developer" ≡ []
unfolding foreign_tokens_in_title search
c_sharp_tokens = refl
