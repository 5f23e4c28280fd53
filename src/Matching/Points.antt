-- ===== src/Matching/Points.antt =====
-- What app/matching/scorer.py reads and what it gathers. Points are counted in halves: the source's
-- weights are multiples of 0.5, so its rounding to one digit changes nothing.
use vitae.Common.{[], ℕ, true, ◌∷◌, String, false, if◌then◌else◌, ◌≡◌, ◌+◌, Bool, List, ◌++◌, arith}

-- The keys of a job that are read; an absent text is empty.
pub record Job : Type 0 where
  pub title : String
  pub description : String
  pub location : String

-- The keys of the settings; `prefer_remote` is true unless they say otherwise.
pub record Settings : Type 0 where
  pub profile_skills : List String
  pub title_keywords : List String
  pub penalty_keywords : List String
  pub exclude_title_patterns : List String
  pub prefer_remote : Bool

pub record Positive : Type 0 where
  pub label : String
  pub delta : ℕ

-- The source writes the points of a penalty as a negative number.
pub record Penalty : Type 0 where
  pub label : String
  pub delta : ℕ
  pub detail : String

pub record Detail : Type 0 where
  pub score : ℕ
  pub reasons : List String
  pub positives : List Positive
  pub penalties : List Penalty
  pub skill_hits : List String
  pub skill_gaps : List String
  pub jd_stack : List String
  pub foreign_stack : List String
  pub connection_summary : String

-- The local variables. The score is kept as the points gained and the points lost: everything is
-- gained before anything is lost, and the score is cut off at 0 in the end.
pub record Tally : Type 0 where
  pub gained : ℕ
  pub lost : ℕ
  pub reasons : List String
  pub positives : List Positive
  pub penalties : List Penalty
  pub skill_hits : List String
  pub skill_gaps : List String
  pub jd_stack : List String
  pub foreign_in_title : List String
  pub capped : Bool

-- The skills that are shown.
pub record HasSkills (hits gaps : List String) (t : Tally) : Type 0 where
  pub hits_are : t.skill_hits ≡ hits
  pub gaps_are : t.skill_gaps ≡ gaps

abbrev pub start : Tally
start = record {
  gained = 0;
  lost = 0;
  reasons = [];
  positives = [];
  penalties = [];
  skill_hits = [];
  skill_gaps = [];
  jd_stack = [];
  foreign_in_title = [];
  capped = false;
}

-- `score += delta` with its reason and its entry under `positives`
abbrev pub award : String → ℕ → Tally → Tally
award msg delta t = record t {
  gained = t.gained + delta;
  reasons = t.reasons ++ msg ∷ [];
  positives = t.positives ++ record { label = msg; delta = delta } ∷ [];
}

-- `score -= delta` with its reason and its entry under `penalties`
abbrev pub charge : String → ℕ → String → Tally → Tally
charge msg delta detail t = record t {
  lost = t.lost + delta;
  reasons = t.reasons ++ msg ∷ [];
  penalties = t.penalties ++ record { label = msg; delta = delta; detail = detail } ∷ [];
}

unfoldable pub won : List Positive → ℕ
won [] = 0
won (p ∷ ps) = p.delta + won ps

unfoldable pub taken : List Penalty → ℕ
taken [] = 0
taken (p ∷ ps) = p.delta + taken ps

pub won-append : (ps qs : List Positive) → won (ps ++ qs) ≡ won ps + won qs
unfolding won
won-append [] qs = omega arith
won-append (p ∷ ps) qs = omega (arith, won-append ps qs)

pub taken-append : (ps qs : List Penalty) → taken (ps ++ qs) ≡ taken ps + taken qs
unfolding taken
taken-append [] qs = omega arith
taken-append (p ∷ ps) qs = omega (arith, taken-append ps qs)

-- The points are those of the entries, and no cap is set.
pub record IsBalanced (t : Tally) : Type 0 where
  pub in_won : t.gained ≡ won t.positives
  pub in_taken : t.lost ≡ taken t.penalties
  pub uncapped : t.capped ≡ false

pub award-IsBalanced :
    (msg : String) (delta : ℕ) (t : Tally) → IsBalanced t → IsBalanced (award msg delta t)
unfolding won
award-IsBalanced msg delta t b = record {
  in_won =
      omega (arith, b.in_won, won-append t.positives (record { label = msg; delta = delta } ∷ []));
  in_taken = b.in_taken;
  uncapped = b.uncapped;
}

pub charge-IsBalanced :
    (msg : String) (delta : ℕ) (detail : String) (t : Tally)
    → IsBalanced t
    → IsBalanced (charge msg delta detail t)
unfolding taken
charge-IsBalanced msg delta detail t b = record {
  in_won = b.in_won;
  in_taken = omega (
    arith,
    b.in_taken,
    taken-append t.penalties (record { label = msg; delta = delta; detail = detail } ∷ []),
  );
  uncapped = b.uncapped;
}

pub pick-IsBalanced :
    (b : Bool) (t u : Tally) → IsBalanced t → IsBalanced u → IsBalanced (if b then t else u)
pick-IsBalanced true t u h k = h
pick-IsBalanced false t u h k = k
