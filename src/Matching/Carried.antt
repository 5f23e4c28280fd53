-- ===== src/Matching/Carried.antt =====
-- The steps of the scorer carry the skills along unchanged.
use vitae.Common.{◌∷◌, if◌then◌else◌, String, ◌≡◌, List, [], false, true, Bool, arith, ap, ℕ, ◌++◌}
use vitae.Matching.{gain, lose, desc_of, blob_of}
use vitae.Matching.Gains.{
  boost, score_stack, boost_all, score_location, hits_of, Boost, gaps_of, score_skills, boosts,
  score_title,
}
use vitae.Matching.Losses.{
  score_foreign, score_devops, score_manager, cap_foreign, foreign_in_title_of, set_cap,
  primary_stack,
}
use vitae.Matching.Points.{Job, Tally, Settings, HasSkills, charge, award, start}
use vitae.Matching.Titles.{norm}

module _ {hits gaps : List String} where
  pick-HasSkills :
      (b : Bool) (t u : Tally)
      → HasSkills hits gaps t
      → HasSkills hits gaps u
      → HasSkills hits gaps (if b then t else u)
  pick-HasSkills true t u h k = h
  pick-HasSkills false t u h k = k

  award-HasSkills :
      (msg : String) (delta : ℕ) (t : Tally)
      → HasSkills hits gaps t
      → HasSkills hits gaps (award msg delta t)
  award-HasSkills msg delta t h = record { hits_are = h.hits_are; gaps_are = h.gaps_are }

  charge-HasSkills :
      (msg : String) (delta : ℕ) (detail : String) (t : Tally)
      → HasSkills hits gaps t
      → HasSkills hits gaps (charge msg delta detail t)
  charge-HasSkills msg delta detail t h = record { hits_are = h.hits_are; gaps_are = h.gaps_are }

  score_location-HasSkills :
      (prefer : Bool) (location title : String) (t : Tally)
      → HasSkills hits gaps t
      → HasSkills hits gaps (score_location prefer location title t)
  unfolding score_location
  score_location-HasSkills prefer location title t h =
      pick-HasSkills _ _ _ (award-HasSkills "Remote-friendly location" 16 t h)
        (pick-HasSkills _ _ _ (award-HasSkills "Location match (NG/Africa)" 16 t h) h)

  boost-HasSkills :
      (early : String) (b : Boost) (t : Tally)
      → HasSkills hits gaps t
      → HasSkills hits gaps (boost early b t)
  unfolding boost
  boost-HasSkills early b t h =
      let named : HasSkills hits gaps (record t { jd_stack = t.jd_stack ++ b.label ∷ [] }) =
        record { hits_are = h.hits_are; gaps_are = h.gaps_are } in
      pick-HasSkills _ _ _ (pick-HasSkills _ _ _ named (award-HasSkills _ _ _ named)) h

  boost_all-HasSkills :
      (early : String) (bs : List Boost) (t : Tally)
      → HasSkills hits gaps t
      → HasSkills hits gaps (boost_all early bs t)
  unfolding boost_all
  boost_all-HasSkills early [] t h = h
  boost_all-HasSkills early (b ∷ bs) t h =
      boost_all-HasSkills early bs (boost early b t) (boost-HasSkills early b t h)

  score_foreign-HasSkills :
      (keywords : List String) (title desc : String) (t : Tally)
      → HasSkills hits gaps t
      → HasSkills hits gaps (score_foreign keywords title desc t)
  unfolding score_foreign
  score_foreign-HasSkills keywords title desc t h =
      let foreign = foreign_in_title_of title in
      let seen : HasSkills hits gaps (record t { foreign_in_title = foreign }) = record {
        hits_are = h.hits_are;
        gaps_are = h.gaps_are;
      } in
      pick-HasSkills _ _ _ seen
        (charge-HasSkills _ _ _ (record t { foreign_in_title = foreign }) seen)

  score_devops-HasSkills :
      (title : String) (t : Tally)
      → HasSkills hits gaps t
      → HasSkills hits gaps (score_devops title t)
  unfolding score_devops
  score_devops-HasSkills title t h =
      pick-HasSkills _ _ _
        (charge-HasSkills "DevOps-heavy title (lower priority)" 24
          "More ops-focused than backend product work" t h)
        h

  score_manager-HasSkills :
      (title : String) (t : Tally)
      → HasSkills hits gaps t
      → HasSkills hits gaps (score_manager title t)
  unfolding score_manager
  score_manager-HasSkills title t h =
      pick-HasSkills _ _ _
        (charge-HasSkills "Manager/director title" 30 "Leadership title, not IC backend" t h) h

  cap_foreign-HasSkills :
      (primary : Bool) (t : Tally)
      → HasSkills hits gaps t
      → HasSkills hits gaps (cap_foreign primary t)
  unfolding cap_foreign
  cap_foreign-HasSkills primary t h =
      pick-HasSkills _ (set_cap t) t (record { hits_are = h.hits_are; gaps_are = h.gaps_are }) h

  pub lose-HasSkills :
      (job : Job) (cfg : Settings) (t : Tally)
      → HasSkills hits gaps t
      → HasSkills hits gaps (lose job cfg t)
  unfolding lose
  lose-HasSkills job cfg t h =
      let title = norm job.title in
      let desc = desc_of job in
      cap_foreign-HasSkills (primary_stack title desc) _ (
        score_manager-HasSkills title _ (
          score_devops-HasSkills title _
            (score_foreign-HasSkills cfg.penalty_keywords title desc t h)))

-- the hits and the gaps of a job that is counted
score_skills-hits :
    (skills : List String) (blob : String) (t : Tally)
    → (score_skills skills blob t).skill_hits ≡ hits_of blob [] skills
unfolding score_skills
score_skills-hits skills blob t = ground arith

pub gain-HasSkills :
    (msg : String) (job : Job) (skills : List String) (cfg : Settings)
    → let hits = hits_of (blob_of job) [] skills in
      HasSkills hits (gaps_of skills hits) (gain msg job skills cfg)
unfolding gain score_stack
gain-HasSkills msg job skills cfg =
    let title = norm job.title in
    let hits = hits_of (blob_of job) [] skills in
    let before = score_title cfg.title_keywords title (award msg 70 start) in
    let same = score_skills-hits skills (blob_of job) before in
    let told : HasSkills hits (gaps_of skills hits)
        (record (score_skills skills (blob_of job) before) {
          skill_gaps = gaps_of skills (score_skills skills (blob_of job) before).skill_hits;
        }) =
      record { hits_are = same; gaps_are = ap (gaps_of skills) same } in
    boost_all-HasSkills _ boosts _ (score_location-HasSkills _ _ _ _ told)
