-- ===== src/Matching/Shown.antt =====
-- What the page of a job relies on in a breakdown, whichever branch gave it.
-- What holds of every breakdown of a job with a text and a profile with its skills.
use vitae.Common.{
  String, some, true, sym, List, ◌∙◌, false, ap, ◌≡◌, All, ◌≤◌, Bool, [], ℕ, refl, length, ◌++◌,
  length-take, subst, arith, not, none, if◌then◌else◌, Memᴰ, Option,
}
use vitae.Common.Text.{lower}
use vitae.Common.Texts.{
  dedupe, mem_text, all_different-dedupe, all_different, is_nil, all_different-take,
}
use vitae.Matching.{
  early_exit, breakdown, blob_of, final_score, dismiss, excluded_detail, foreign_detail,
  off_target_detail, profile_skills_of, score_job_detail, gain, answer, weak_title_detail,
  title_gate, lose,
}
use vitae.Matching.Carried.{lose-HasSkills, gain-HasSkills}
use vitae.Matching.Explained.{answer-counted}
use vitae.Matching.Filters.{
  skill_in_text, is_foreign_stack_title, is_excluded_title, has_target_stack_signal,
}
use vitae.Matching.Gains.{hits_of, gaps_of}
use vitae.Matching.Hits.{
  hits_of-All, hits_of-all_different, length-gaps_of, gaps_of-All, keys, hits_of-found,
}
use vitae.Matching.Losses.{
  all_different-foreign_tokens_in_title, foreign_tokens_in_title, length-foreign_tokens_in_title,
}
use vitae.Matching.Points.{Job, Penalty, Settings, Tally, HasSkills, Detail}
use vitae.Matching.Titles.{norm}

pub record IsShown (blob : String) (d : Detail) : Type 0 where
  pub in_bounds : d.score ≤ 200
  pub told : is_nil d.reasons ≡ false
  pub hits_named : All (λ s. skill_in_text s blob ≡ true) d.skill_hits
  pub hits_differ : all_different (keys d.skill_hits) ≡ true
  pub gaps_unmet : All (λ s. mem_text (lower s) (keys d.skill_hits) ≡ false) d.skill_gaps
  pub few_gaps : length d.skill_gaps ≤ 8
  pub few_labels : length d.jd_stack ≤ 12
  pub labels_differ : all_different d.jd_stack ≡ true

dismiss-IsShown :
    (blob : String) (score : ℕ) (reason : String) (p : Penalty) (foreign : List String)
    (summary : String)
    → score ≤ 200
    → length foreign ≤ 12
    → all_different foreign ≡ true
    → IsShown blob (dismiss score reason p foreign summary)
unfolding dismiss
dismiss-IsShown blob score reason p foreign summary low few differ = record {
  in_bounds = low;
  told = refl;
  hits_named = tt;
  hits_differ = refl;
  gaps_unmet = tt;
  few_gaps = omega arith;
  few_labels = few;
  labels_differ = differ;
}

breakdown-IsShown :
    (blob : String) (skills : List String) (t : Tally)
    → HasSkills (hits_of blob [] skills) (gaps_of skills (hits_of blob [] skills)) t
    → IsShown blob (breakdown t)
unfolding breakdown final_score
breakdown-IsShown blob skills t h =
    let labels = dedupe (t.jd_stack ++ t.foreign_in_title) in
    let hits = hits_of blob [] skills in
    let named =
      subst (λ xs. All (λ s. skill_in_text s blob ≡ true) xs) (sym h.hits_are)
        (hits_of-All blob [] skills) in
    record {
      in_bounds = omega arith;
      told = ground arith;
      hits_named = named;
      hits_differ =
          ap (λ xs. all_different (keys xs)) h.hits_are ∙ hits_of-all_different blob [] skills;
      gaps_unmet =
          subst (λ gs. All (λ s. mem_text (lower s) (keys t.skill_hits) ≡ false) gs)
            (sym h.gaps_are)
            (subst (λ xs. All (λ s. mem_text (lower s) (keys xs) ≡ false) (gaps_of skills hits))
              (sym h.hits_are) (gaps_of-All skills hits));
      few_gaps = omega (arith, ap length h.gaps_are, length-gaps_of skills hits);
      few_labels = omega (arith, length-take 12 labels);
      labels_differ =
          all_different-take 12 labels (all_different-dedupe (t.jd_stack ++ t.foreign_in_title));
    }

-- an answer that may be absent
abbrev AreShown : String → Option Detail → Type 0
AreShown blob none = Unit
AreShown blob (some d) = IsShown blob d

pick-AreShown :
    (blob : String) (b : Bool) (o u : Option Detail)
    → AreShown blob o
    → AreShown blob u
    → AreShown blob (if b then o else u)
pick-AreShown blob true o u h k = h
pick-AreShown blob false o u h k = k

early_exit-AreShown :
    (blob : String) (compile : String → String → Bool) (job : Job) (cfg : Settings)
    → AreShown blob (early_exit compile job cfg)
unfolding early_exit excluded_detail foreign_detail off_target_detail
early_exit-AreShown blob compile job cfg =
    let tokens = foreign_tokens_in_title (norm job.title) in
    let plain = dismiss-IsShown blob in
    pick-AreShown blob (is_excluded_title compile job.title cfg.exclude_title_patterns) _ _
      (plain 10 _ _ [] _ (omega arith) (omega arith) refl)
      (pick-AreShown blob (is_foreign_stack_title job.title) _ _
        (plain 16 _ _ tokens _ (omega arith) (length-foreign_tokens_in_title (norm job.title))
          (all_different-foreign_tokens_in_title (norm job.title)))
        (pick-AreShown blob (not (has_target_stack_signal (blob_of job))) _ none
          (plain 12 _ _ [] _ (omega arith) (omega arith) refl) tt))

answer-IsShown :
    (blob : String) (o : Option Detail) (gate : Option String) (count : String → Detail)
    → AreShown blob o
    → ((msg : String) → IsShown blob (count msg))
    → IsShown blob (answer o gate count)
unfolding answer weak_title_detail
answer-IsShown blob (some d) gate count h k = h
answer-IsShown blob none none count h k =
    dismiss-IsShown blob 30 _ _ [] _ (omega arith) (omega arith) refl
answer-IsShown blob none (some msg) count h k = k msg

-- For every job, profile and settings, whichever branch answers: the score is at most 100 (in halves,
-- 200), a reason is given, each hit is a skill that the text of the job names, no two hits differ in
-- case alone, no gap is the key of a hit, there are at most 8 gaps, and there are at most 12 labels of
-- the stack, no two of them equal.
pub score_job_detail-IsShown :
    (compile : String → String → Bool) (job : Job) (skills : List String) (cfg : Settings)
    → IsShown (blob_of job) (score_job_detail compile job skills cfg)
unfolding score_job_detail
score_job_detail-IsShown compile job skills cfg =
    let all = profile_skills_of skills cfg in
    answer-IsShown (blob_of job) (early_exit compile job cfg) (title_gate job) _
      (early_exit-AreShown (blob_of job) compile job cfg)
      λ msg.
        breakdown-IsShown (blob_of job) all _
          (lose-HasSkills job cfg _ (gain-HasSkills msg job all cfg))

-- If a job is counted, since no early answer and no weak title stops it, every skill of the profile
-- that the text of the job names is shown as a hit, perhaps in another case.
pub score_job_detail-hits :
    (compile : String → String → Bool) (job : Job) (skills : List String) (cfg : Settings)
    (msg skill : String)
    → early_exit compile job cfg ≡ none
    → title_gate job ≡ some msg
    → Memᴰ skill (profile_skills_of skills cfg)
    → skill_in_text skill (blob_of job) ≡ true
    → mem_text (lower skill) (keys (score_job_detail compile job skills cfg).skill_hits) ≡ true
unfolding score_job_detail breakdown
score_job_detail-hits compile job skills cfg msg skill early gate m h =
    let all = profile_skills_of skills cfg in
    let count : String → Detail = λ m. breakdown (lose job cfg (gain m job all cfg)) in
    let same = answer-counted (early_exit compile job cfg) (title_gate job) count msg early gate in
    let kept = lose-HasSkills job cfg _ (gain-HasSkills msg job all cfg) in
    let hits = ap (λ d. d.skill_hits) same ∙ kept.hits_are in
    ap (λ xs. mem_text (lower skill) (keys xs)) hits ∙ hits_of-found (blob_of job) all skill m h
