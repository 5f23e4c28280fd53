-- ===== src/Matching/Explained.antt =====
-- Every point of a score stands in the breakdown that is shown with it.
use vitae.Common.{
  [], List, ◌≡◌, ◌∷◌, String, refl, if◌then◌else◌, Bool, ℕ, ◌-◌, ◌&&◌, min, not, none, some, arith,
  ◌∙◌, ap, subst, sym, Option,
}
use vitae.Common.Texts.{dedupe, is_nil}
use vitae.Matching.{
  gain, blob_of, final_score, breakdown, lose, title_gate, profile_skills_of, score_job_detail,
  desc_of, early_exit, answer,
}
use vitae.Matching.Gains.{
  score_location-IsBalanced, score_skills-IsBalanced, score_stack-IsBalanced,
  score_title-IsBalanced, gaps_of,
}
use vitae.Matching.Losses.{
  cap_foreign, score_devops-IsBalanced, primary_stack, score_foreign-IsBalanced,
  score_manager-IsBalanced,
}
use vitae.Matching.Points.{
  won, Tally, taken, Job, Settings, start, IsBalanced, award-IsBalanced, Penalty, taken-append,
  Detail,
}
use vitae.Matching.Titles.{norm}

is_nil-dedupe : (xs : List String) → is_nil (dedupe xs) ≡ is_nil xs
unfolding dedupe
is_nil-dedupe [] = refl
is_nil-dedupe (x ∷ xs) = refl

start-IsBalanced : IsBalanced start
unfolding won taken
start-IsBalanced = record { in_won = refl; in_taken = refl; uncapped = refl }

gaps-IsBalanced :
    (gaps : List String) (t : Tally) → IsBalanced t → IsBalanced (record t { skill_gaps = gaps })
gaps-IsBalanced gaps t h = record {
  in_won = h.in_won;
  in_taken = h.in_taken;
  uncapped = h.uncapped;
}

gain-IsBalanced :
    (msg : String) (job : Job) (skills : List String) (cfg : Settings)
    → IsBalanced (gain msg job skills cfg)
unfolding gain
gain-IsBalanced msg job skills cfg =
    let title = norm job.title in
    let begun = award-IsBalanced msg 70 start start-IsBalanced in
    let titled = score_title-IsBalanced cfg.title_keywords title _ begun in
    let hit = score_skills-IsBalanced skills (blob_of job) _ titled in
    let told = gaps-IsBalanced (gaps_of skills _) _ hit in
    score_stack-IsBalanced _ _
      (score_location-IsBalanced cfg.prefer_remote (norm job.location) title _ told)

-- What a tally counts for, when the cap of a foreign title applies or not.
counted : Bool → Tally → ℕ
counted cap t =
    let raw = won t.positives - taken t.penalties in min 200 (if cap then min raw 76 else raw)

cap_foreign-final_score :
    (primary : Bool) (t : Tally)
    → IsBalanced t
    → let done = cap_foreign primary t in
      final_score done ≡ counted (not (is_nil done.foreign_in_title) && not primary) done
unfolding cap_foreign final_score counted taken
cap_foreign-final_score primary t h =
    let entry : Penalty = record {
      label = "Score cap (foreign-stack title)";
      delta = 0;
      detail = "Max ~38% when title is Go/Java/etc. without Node/TypeScript";
    } in
    let same = taken-append t.penalties (entry ∷ []) in
    ground (arith, same, h.uncapped, h.in_won, h.in_taken)

lose-final_score :
    (job : Job) (cfg : Settings) (t : Tally)
    → IsBalanced t
    → let title = norm job.title in
      let done = lose job cfg t in
      let primary = primary_stack title (desc_of job) in
      final_score done ≡ counted (not (is_nil done.foreign_in_title) && not primary) done
unfolding lose
lose-final_score job cfg t h =
    let title = norm job.title in
    let desc = desc_of job in
    cap_foreign-final_score (primary_stack title desc) _ (
      score_manager-IsBalanced title _ (
        score_devops-IsBalanced title _
          (score_foreign-IsBalanced cfg.penalty_keywords title desc t h)))

breakdown-score :
    (primary : Bool) (t : Tally)
    → final_score t ≡ counted (not (is_nil t.foreign_in_title) && not primary) t
    → let d = breakdown t in
      let raw = won d.positives - taken d.penalties in
      d.score ≡ min 200 (if not (is_nil d.foreign_stack) && not primary then min raw 76 else raw)
unfolding breakdown counted
breakdown-score primary t h = ground (arith, h, is_nil-dedupe t.foreign_in_title)

pub answer-counted :
    (o : Option Detail) (gate : Option String) (count : String → Detail) (msg : String)
    → o ≡ none
    → gate ≡ some msg
    → answer o gate count ≡ count msg
unfolding answer
answer-counted o gate count msg early passed =
    ap (λ x. answer x gate count) early ∙ ap (λ g. answer none g count) passed

-- A job that is counted, since no early answer and no weak title stops it, has the score that its
-- breakdown explains: the points under `positives` less the points under `penalties`, at most 38 of
-- 100 if a foreign stack is named in the title and the primary stack is not mentioned, and from 0 to
-- 100. Points are counted in halves.
pub score_job_detail-explained :
    (compile : String → String → Bool) (job : Job) (skills : List String) (cfg : Settings)
    (msg : String)
    → early_exit compile job cfg ≡ none
    → title_gate job ≡ some msg
    → let d = score_job_detail compile job skills cfg in
      let primary = primary_stack (norm job.title) (desc_of job) in
      let raw = won d.positives - taken d.penalties in
      let cap = not (is_nil d.foreign_stack) && not primary in
      d.score ≡ min 200 (if cap then min raw 76 else raw)
unfolding score_job_detail
score_job_detail-explained compile job skills cfg msg early gate =
    let all = profile_skills_of skills cfg in
    let count : String → Detail = λ m. breakdown (lose job cfg (gain m job all cfg)) in
    let same = answer-counted (early_exit compile job cfg) (title_gate job) count msg early gate in
    let t = gain msg job all cfg in
    let primary = primary_stack (norm job.title) (desc_of job) in
    subst
      (λ d.
        d.score
        ≡ min 200 (
            let raw = won d.positives - taken d.penalties in
            if not (is_nil d.foreign_stack) && not primary then min raw 76 else raw))
      (sym same)
      (breakdown-score primary (lose job cfg t)
        (lose-final_score job cfg t (gain-IsBalanced msg job all cfg)))
