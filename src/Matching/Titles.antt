-- ===== src/Matching/Titles.antt =====
-- The patterns of titles in app/matching/filters.py, and the text on which they are searched.
use Prim.Native.Char.{code}
use Prim.Native.String.{char_at}
use vitae.Common.{◌==◌, ◌∷◌, ◌||◌, [], List, Bool, String, true, false, if◌then◌else◌, not}
use vitae.Common.Regex.{Regex, many, ◌∣◌, ◌⨾◌, word, maybe, whole, edge, one}
use vitae.Common.Text.{is_space, lower, strip}

-- inside a run of white space nothing more is kept
squeeze : Bool → String → String
squeeze inside String.[] = String.[]
squeeze inside (String.◌∷◌ c s) =
    let run = squeeze true s in
    let kept = String.◌∷◌ c (squeeze false s) in
    if is_space (code c) then (if inside then run else String.◌∷◌ (char_at " " 0) run) else kept

-- `_norm`
unfoldable pub norm : String → String
unfolding squeeze
norm s = strip (squeeze false (lower s))

-- `\s+`, `\s*`, `[\s-]?` and `\.?`
spaces : Regex
spaces = one is_space ⨾ many is_space

some_spaces : Regex
some_spaces = many is_space

gap : Regex
gap = maybe (one (λ c. is_space c || c == b'-'))

unfoldable pub dot : Regex
dot = maybe (word ".")

-- `\bnode\.?js\b`, `\bback[\s-]?end\b` and `\bfull[\s-]?stack\b`
unfoldable pub node_js : Regex
unfolding dot
node_js = edge ⨾ word "node" ⨾ dot ⨾ word "js" ⨾ edge

back_end : Regex
unfolding gap
back_end = edge ⨾ word "back" ⨾ gap ⨾ word "end" ⨾ edge

full_stack : Regex
unfolding gap
full_stack = edge ⨾ word "full" ⨾ gap ⨾ word "stack" ⨾ edge

unfoldable pub strong_title : List Regex
unfolding node_js back_end full_stack
strong_title =
    whole "backend"
    ∷ back_end
    ∷ node_js
    ∷ whole "nodejs"
    ∷ whole "typescript"
    ∷ whole "nestjs"
    ∷ whole "api engineer"
    ∷ whole "software engineer"
    ∷ whole "software developer"
    ∷ full_stack
    ∷ whole "staff engineer"
    ∷ whole "principal engineer"
    ∷ []

unfoldable pub title_include : List Regex
unfolding node_js back_end full_stack
title_include =
    whole "backend"
    ∷ back_end
    ∷ node_js
    ∷ whole "nodejs"
    ∷ whole "typescript"
    ∷ whole "nestjs"
    ∷ whole "software engineer"
    ∷ whole "software developer"
    ∷ full_stack
    ∷ whole "api engineer"
    ∷ whole "platform engineer"
    ∷ whole "staff engineer"
    ∷ whole "principal engineer"
    ∷ whole "devops engineer"
    ∷ []

unfoldable pub title_exclude : List Regex
unfolding gap
title_exclude =
    whole "customer success"
    ∷ whole "customer engineer"
    ∷ whole "customer experience"
    ∷ whole "solutions engineer"
    ∷ whole "sales"
    ∷ (edge ⨾ word "pre" ⨾ gap ⨾ word "sales" ⨾ edge)
    ∷ whole "account executive"
    ∷ whole "product owner"
    ∷ whole "product manager"
    ∷ whole "project manager"
    ∷ whole "technical writer"
    ∷ whole "documentation"
    ∷ whole "recruiter"
    ∷ whole "talent"
    ∷ whole "marketing"
    ∷ whole "intern"
    ∷ whole "internship"
    ∷ whole "support engineer"
    ∷ whole "service sales"
    ∷ whole "designer"
    ∷ whole "ux"
    ∷ whole "ui designer"
    ∷ []

-- `(?:engineer|developer)`
engineer : Regex
engineer = word "engineer" ∣ word "developer"

-- `[-–—(]` followed by `.*`
aside : Regex
aside =
    one (λ c. c == b'-' || c == 0x2013 || c == 0x2014 || c == b'(') ⨾ many (λ c. not (c == b'\n'))

go_lang : Regex
go_lang = edge ⨾ word "go" ⨾ maybe (word "lang")

-- a language in front of the trade, with nothing else between them
trade : Regex → Regex
unfolding spaces engineer
trade language = edge ⨾ language ⨾ spaces ⨾ engineer ⨾ edge

unfoldable pub foreign_stack_title : List Regex
unfolding spaces some_spaces engineer aside go_lang trade
foreign_stack_title =
    whole "golang"
    ∷ (go_lang
        ⨾ spaces
        ⨾ maybe (
            word "backend"
            ∣ word "software"
            ∣ word "platform"
            ∣ word "api"
            ∣ word "staff"
            ∣ word "principal"
            ∣ word "senior"
            ∣ word "junior")
        ⨾ some_spaces
        ⨾ engineer
        ⨾ edge)
    ∷ (edge
        ⨾ (word "backend" ∣ word "software" ∣ word "platform" ∣ word "api")
        ⨾ spaces
        ⨾ engineer
        ⨾ some_spaces
        ⨾ aside
        ⨾ go_lang
        ⨾ edge)
    ∷ (edge
        ⨾ word "java"
        ⨾ spaces
        ⨾ maybe (
            word "backend"
            ∣ word "software"
            ∣ word "platform"
            ∣ word "api"
            ∣ word "staff"
            ∣ word "principal")
        ⨾ some_spaces
        ⨾ engineer
        ⨾ edge)
    ∷ (edge
        ⨾ (word "backend" ∣ word "software")
        ⨾ spaces
        ⨾ engineer
        ⨾ some_spaces
        ⨾ aside
        ⨾ whole "java")
    ∷ (edge ⨾ word "ruby" ⨾ spaces ⨾ word "on" ⨾ spaces ⨾ word "rails" ⨾ edge)
    ∷ trade (word "rails")
    ∷ trade (word ".net")
    ∷ trade (word "c#")
    ∷ trade (word "kotlin")
    ∷ trade (word "scala")
    ∷ trade (word "php")
    ∷ trade (word "rust")
    ∷ []
