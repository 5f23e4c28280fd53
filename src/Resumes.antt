-- ===== src/Resumes.antt =====
-- The generated CV that an application takes (`_latest_resume_artifact` of app/applications.py).
use vitae.Common.{
  List, ◌==◌, ℕ, ◌∷◌, ltb, none, Bool, false, str_eq, ◌||◌, ◌&&◌, [], if◌then◌else◌, some, Option,
}
use vitae.Common.Table.{get, Table}
use vitae.Models.{Store}
use vitae.Models.ListingRows.{
  ResumeGeneration, ResumeArtifact, keyed_resume_generation, keyed_resume_artifact,
}

-- `ResumeGeneration.created_at.desc(), ResumeArtifact.id.desc()`
abbrev pub Made : Type 0
Made = ResumeGeneration × ResumeArtifact

abbrev pub is_newer : Made → Made → Bool
is_newer x y =
    ltb y.0.created_at x.0.created_at || (x.0.created_at == y.0.created_at && ltb y.1.id x.1.id)

pub newest : List Made → Option Made
newest [] = none
newest (x ∷ xs) =
    let rest = newest xs in
    elim rest [ none ↦ some x | some y ↦ if is_newer y x then some y else some x ]

-- the generations that `_latest_resume_artifact` joins
abbrev pub is_completed_for : ℕ → ℕ → ResumeGeneration → Bool
is_completed_for profile_id listing_id g =
    g.profile_id == profile_id
    && (elim g.listing_id [ none ↦ false | some i ↦ i == listing_id ])
    && str_eq g.status "completed"

pub join_made : ℕ → ℕ → Table ResumeGeneration → List ResumeArtifact → List Made
join_made profile_id listing_id gs [] = []
join_made profile_id listing_id gs (r ∷ rs) =
    let rest = join_made profile_id listing_id gs rs in
    elim (get r.generation_id gs) [
      | none ↦ rest
      | some g ↦ if is_completed_for profile_id listing_id g then (g, r) ∷ rest else rest
    ]

unfoldable pub latest_resume_artifact : ℕ → ℕ → Store → Option ResumeArtifact
unfolding newest join_made
latest_resume_artifact profile_id listing_id s =
    elim (newest (join_made profile_id listing_id s.generations s.artifacts.rows)) [
      | none ↦ none
      | some made ↦ some made.1
    ]
