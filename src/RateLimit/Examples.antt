-- ===== src/RateLimit/Examples.antt =====
-- Runs of the rate limiter, and its theorems at concrete requests.
use vitae.Common.{String, arith, refl, none, some, ◌≡◌, Option, ◌∷◌, []}
use vitae.RateLimit.{check_local, limit_for, assign, enforce, lookup, check_rate_limit, enforce_key}
use vitae.RateLimit.Fallback.{enforce_all}
use vitae.RateLimit.Window.{serve, serve_window}

abbrev user : Option String
user = some "7"

-- eleven sign-in requests in one minute: ten pass
eleven_sign_ins :
    (enforce_all none "auth" none user (5 ∷ 5 ∷ 6 ∷ 7 ∷ 8 ∷ 9 ∷ 9 ∷ 9 ∷ 10 ∷ 11 ∷ 64 ∷ []) []).1
    ≡ 10
unfolding enforce_all enforce enforce_key check_rate_limit check_local limit_for lookup assign
eleven_sign_ins = refl

-- the sixty-first unit begins a new window
window_turns : (serve "k" 1 60 (0 ∷ 59 ∷ 60 ∷ []) []).1 ≡ 2
unfolding serve check_local lookup assign
window_turns = refl

address_key : enforce_key "ai" (some (none, some "10.0.0.1")) none ≡ "ai:ip:10.0.0.1"
unfolding enforce_key
address_key = refl

serve_window_example : (serve "k" 2 60 (100 ∷ 101 ∷ 159 ∷ []) []).1 ≡ 2
unfolding lookup
serve_window_example =
    serve_window "k" 2 60 100 (101 ∷ 159 ∷ []) [] refl
      ((omega arith, omega arith), ((omega arith, omega arith), tt))
