-- ===== src/Matching/Losses.antt =====
-- The steps of `score_job_detail` that take points: foreign stacks, operations and management; the
-- cap; and `_foreign_tokens_in_title`.
use vitae.Common.{
  take, ◌||◌, ◌*◌, if◌then◌else◌, true, String, Bool, ◌++◌, select, not, min, [], ◌∷◌, map, List,
  length, ◌<>◌, ◌&&◌, refl, false, arith, ◌≤◌, ◌≡◌,
}
use vitae.Common.Regex.{Regex, whole, edge, ◌∣◌, word, maybe, ◌⨾◌, search, contains}
use vitae.Common.Text.{strip, clip, is_empty}
use vitae.Common.Texts.{dedupe, join, is_nil, mem_text, all_different}
use vitae.Matching.Points.{charge, Tally, charge-IsBalanced, IsBalanced, pick-IsBalanced}
use vitae.Matching.Titles.{norm}

-- `\bnode|\btypescript\b`
node_or_type : Regex
node_or_type = (edge ⨾ word "node") ∣ whole "typescript"

-- `primary_stack`, of the title and the start of the description
unfoldable pub primary_stack : String → String → Bool
primary_stack title desc =
    search
      ((edge ⨾ word "node")
        ∣ (edge ⨾ word "typescript")
        ∣ (edge ⨾ word "nestjs")
        ∣ whole "express"
        ∣ whole "python"
        ∣ whole "fastapi")
      (title <> " " <> clip 500 desc)

-- whether a penalty keyword, which is not empty, counts against the job
is_penalised : String → String → Bool → String → Bool
is_penalised title desc primary pk =
    if contains pk title || search (whole pk) title
    then true
    else contains pk (clip 700 desc) && not primary

keyword_penalties : List String → String → String → Bool → List String
unfolding is_penalised
keyword_penalties keywords title desc primary =
    select (λ pk. not (is_empty pk) && is_penalised title desc primary pk) (map norm keywords)

heavy : List String
heavy =
    "rails" ∷ "ruby on rails" ∷ ".net" ∷ "c#" ∷ "java" ∷ "golang" ∷ "go " ∷ "kotlin" ∷ "scala"
    ∷ "php" ∷ []

-- `foreign_in_title`
unfoldable pub foreign_in_title_of : String → List String
unfolding node_or_type heavy
foreign_in_title_of title =
    let own = search node_or_type title in
    let tokens = select (λ token. contains token title && not own) (map strip heavy) in
    let go = search (edge ⨾ (word "golang" ∣ word "go") ⨾ edge) title && not own in
    if go then tokens ++ "go/golang" ∷ [] else tokens

unfoldable pub score_foreign : List String → String → String → Tally → Tally
unfolding keyword_penalties
score_foreign keywords title desc t =
    let foreign = foreign_in_title_of title in
    let uniq =
      dedupe (keyword_penalties keywords title desc (primary_stack title desc) ++ foreign) in
    let seen = record t { foreign_in_title = foreign } in
    if is_nil uniq
    then seen
    else charge ("Stack mismatch: " <> join ", " (take 4 uniq)) (min 90 (32 * length uniq))
        "JD emphasizes stacks outside your Node/TS core" seen

unfoldable pub score_devops : String → Tally → Tally
score_devops title t =
    let ops = search (whole "devops" ∣ whole "site reliability" ∣ whole "sre") title in
    let own = search (whole "backend" ∣ (edge ⨾ word "node") ∣ whole "typescript") title in
    if ops && not own
    then charge "DevOps-heavy title (lower priority)" 24
        "More ops-focused than backend product work" t
    else t

unfoldable pub score_manager : String → Tally → Tally
score_manager title t =
    let leads = search (whole "manager" ∣ whole "director") title in
    if leads && not (search (whole "engineering manager") title)
    then charge "Manager/director title" 30 "Leadership title, not IC backend" t
    else t

-- `score = min(score, 38.0)` with its reason and its entry
abbrev pub set_cap : Tally → Tally
set_cap t = record t {
  reasons = t.reasons ++ "Capped score: foreign-stack title without Node/TS" ∷ [];
  penalties =
      t.penalties
      ++ record {
        label = "Score cap (foreign-stack title)";
        delta = 0;
        detail = "Max ~38% when title is Go/Java/etc. without Node/TypeScript";
      }
        ∷ [];
  capped = true;
}

unfoldable pub cap_foreign : Bool → Tally → Tally
cap_foreign primary t = if not (is_nil t.foreign_in_title) && not primary then set_cap t else t

record Check : Type 0 where
  pattern_of : Regex
  label : String

checks : List Check
checks =
    record {
      pattern_of = whole "golang" ∣ (edge ⨾ word "go" ⨾ maybe (word "lang") ⨾ edge);
      label = "Go/Golang";
    }
    ∷ record { pattern_of = whole "java"; label = "Java" }
    ∷ record { pattern_of = whole "ruby" ∣ whole "rails"; label = "Ruby/Rails" }
    ∷ record { pattern_of = whole ".net" ∣ whole "c#"; label = ".NET/C#" }
    ∷ record { pattern_of = whole "kotlin"; label = "Kotlin" }
    ∷ record { pattern_of = whole "scala"; label = "Scala" }
    ∷ record { pattern_of = whole "php"; label = "PHP" }
    ∷ record { pattern_of = whole "rust"; label = "Rust" }
    ∷ record { pattern_of = whole "c++"; label = "C++" }
    ∷ []

labels_found : Bool → String → List Check → List String
labels_found own title [] = []
labels_found own title (c ∷ cs) =
    let rest = labels_found own title cs in
    if search c.pattern_of title && not own then c.label ∷ rest else rest

unfoldable pub foreign_tokens_in_title : String → List String
unfolding node_or_type checks labels_found
foreign_tokens_in_title title = labels_found (search node_or_type title) title checks

pub score_foreign-IsBalanced :
    (keywords : List String) (title desc : String) (t : Tally)
    → IsBalanced t
    → IsBalanced (score_foreign keywords title desc t)
unfolding score_foreign
score_foreign-IsBalanced keywords title desc t h =
    let foreign = foreign_in_title_of title in
    let seen : IsBalanced (record t { foreign_in_title = foreign }) = record {
      in_won = h.in_won;
      in_taken = h.in_taken;
      uncapped = h.uncapped;
    } in
    pick-IsBalanced _ _ _ seen (
      charge-IsBalanced _ _ "JD emphasizes stacks outside your Node/TS core"
        (record t { foreign_in_title = foreign }) seen)

pub score_devops-IsBalanced :
    (title : String) (t : Tally) → IsBalanced t → IsBalanced (score_devops title t)
unfolding score_devops
score_devops-IsBalanced title t h =
    pick-IsBalanced _ _ _
      (charge-IsBalanced "DevOps-heavy title (lower priority)" 24
        "More ops-focused than backend product work" t h)
      h

pub score_manager-IsBalanced :
    (title : String) (t : Tally) → IsBalanced t → IsBalanced (score_manager title t)
unfolding score_manager
score_manager-IsBalanced title t h =
    pick-IsBalanced _ _ _
      (charge-IsBalanced "Manager/director title" 30 "Leadership title, not IC backend" t h) h

length-labels_found :
    (own : Bool) (title : String) (cs : List Check) → length (labels_found own title cs) ≤ length cs
unfolding labels_found
length-labels_found own title [] = omega arith
length-labels_found own title (c ∷ cs) = ground (arith, length-labels_found own title cs)

pub length-foreign_tokens_in_title : (title : String) → length (foreign_tokens_in_title title) ≤ 12
unfolding foreign_tokens_in_title
length-foreign_tokens_in_title title =
    omega (arith, length-labels_found (search node_or_type title) title checks)

labels_of : List Check → List String
labels_of [] = []
labels_of (c ∷ cs) = c.label ∷ labels_of cs

mem_text-labels_found :
    (own : Bool) (title x : String) (cs : List Check)
    → mem_text x (labels_of cs) ≡ false
    → mem_text x (labels_found own title cs) ≡ false
unfolding labels_found labels_of
mem_text-labels_found own title x [] h = refl
mem_text-labels_found own title x (c ∷ cs) h = ground (arith, mem_text-labels_found own title x cs)

all_different-labels_found :
    (own : Bool) (title : String) (cs : List Check)
    → all_different (labels_of cs) ≡ true
    → all_different (labels_found own title cs) ≡ true
unfolding labels_found labels_of
all_different-labels_found own title [] h = refl
all_different-labels_found own title (c ∷ cs) h =
    ground
      (arith, all_different-labels_found own title cs, mem_text-labels_found own title c.label cs)

pub all_different-foreign_tokens_in_title :
    (title : String) → all_different (foreign_tokens_in_title title) ≡ true
unfolding foreign_tokens_in_title labels_of
all_different-foreign_tokens_in_title title =
    all_different-labels_found (search node_or_type title) title checks refl
