-- ===== src/Csrf/Passing.antt =====
-- Which requests pass the check for forged requests, and what the cookie holds.
use vitae.Common.{
  arith, none, ◌≡◌, true, ◌||◌, str_eq_iff, String, str_eq_refl, false, inr, some, Bool-cases,
  str_eq, ◌∙◌, inl, refl, ap, if◌then◌else◌,
}
use vitae.Common.Text.{or_text, or_empty, strip_twice, strip, is_empty-cons}
use vitae.Csrf.{
  Request, at_least, clean, is_safe, exempt, tokens_match, form_token, dispatch, ensure_csrf_cookie,
  csrf_token_for_template, crashed, passed, is_ascii,
}

tokens_match-same : (a b : String) → tokens_match a b ≡ some true → (a ≡ b) × (at_least 16 a ≡ true)
unfolding tokens_match
tokens_match-same a b h = (ground (arith, h, str_eq_iff a b), ground (arith, h))

tokens_match_self :
    (a : String)
    → at_least 16 a ≡ true
    → tokens_match a a ≡ (if is_ascii a then some true else none)
unfolding tokens_match at_least
tokens_match_self String.[] h = absurd (ground (arith, h))
tokens_match_self (String.◌∷◌ c a) h =
    ground (arith, h, is_empty-cons c a, str_eq_refl (String.◌∷◌ c a))

-- An unsafe request outside the exempt paths that reaches the application has a cookie of at least 16
-- characters, and its header token or, without one, its form token is the same text.
pub dispatch-same_token :
    (fresh : String) (call_next : Request → Request) (r : Request)
    → (is_safe r.method || exempt r.path) ≡ false
    → (dispatch fresh call_next r).reached ≡ true
    → (clean r.cookie ≡ or_text (clean r.header_token) (form_token r))
      × (at_least 16 (clean r.cookie) ≡ true)
unfolding dispatch
dispatch-same_token fresh call_next r unsafe h =
    tokens_match-same (clean r.cookie) (or_text (clean r.header_token) (form_token r))
      (ground (arith, unsafe, h))

strip_nothing : strip "" ≡ ""
unfolding strip
strip_nothing = refl

-- the token of a page is clean and long enough
csrf_token_for_template-token :
    (fresh : String) (r : Request)
    → strip fresh ≡ fresh
    → at_least 16 fresh ≡ true
    → let token = (csrf_token_for_template fresh r).0 in
      (strip token ≡ token) × (at_least 16 token ≡ true)
unfolding csrf_token_for_template
csrf_token_for_template-token fresh r clean_fresh long =
    elim (Bool-cases (at_least 16 (clean r.state_token))) [
      | inl e ↦ (ground (arith, e, strip_twice (or_empty r.state_token)), ground (arith, e))
      | inr e ↦ elim (Bool-cases (at_least 16 (clean r.cookie))) [
        | inl z ↦ (ground (arith, e, z, strip_twice (or_empty r.cookie)), ground (arith, e, z))
        | inr z ↦ (ground (arith, e, z, clean_fresh), ground (arith, e, z, long))
      ]
    ]

-- the cookie that is set after a page was made is the token of the page
ensure_csrf_cookie-template :
    (fresh : String) (r : Request)
    → strip fresh ≡ fresh
    → at_least 16 fresh ≡ true
    → let page = csrf_token_for_template fresh r in ensure_csrf_cookie fresh page.1 ≡ page.0
unfolding csrf_token_for_template ensure_csrf_cookie
ensure_csrf_cookie-template fresh r clean_fresh long =
    elim (Bool-cases (at_least 16 (clean r.state_token))) [
      | inl e ↦ ground (arith, e)
      | inr e ↦ elim (Bool-cases (at_least 16 (clean r.cookie))) [
        | inl z ↦ ground (arith, e, z, strip_twice (or_empty r.cookie))
        | inr z ↦ ground (arith, e, z, clean_fresh, long)
      ]
    ]

-- When a form works: if a page is made for a `GET` request with `csrf_token_for_template`, the response
-- sets the token of the page as the cookie; a form post that carries this cookie, no header token, and
-- the token in its body reaches the application exactly if the token is ASCII, and ends with an
-- exception if it is not. New tokens are taken to have at least 16 characters and no white space at
-- their ends; a token that came with the cookie of the first request can be any text. The post's
-- method is not safe and its path not exempt.
pub dispatch-form :
    (fresh : String) (r post : Request) (handle : Request → Request)
    → strip fresh ≡ fresh
    → at_least 16 fresh ≡ true
    → str_eq r.method "GET" ≡ true
    → post.header_token ≡ none
    → post.cookie ≡ some (csrf_token_for_template fresh r).0
    → form_token post ≡ (csrf_token_for_template fresh r).0
    → (is_safe post.method || exempt post.path) ≡ false
    → let page = dispatch fresh (λ q. (csrf_token_for_template fresh q).1) r in
      (page.set_cookie ≡ some (csrf_token_for_template fresh r).0)
      × ((dispatch fresh handle post).reached ≡ is_ascii (csrf_token_for_template fresh r).0)
      × ((dispatch fresh handle post).response
          ≡ (if is_ascii (csrf_token_for_template fresh r).0 then passed else crashed))
unfolding dispatch
dispatch-form fresh r post handle clean_fresh long is_get no_header cookie form unsafe =
    let token = (csrf_token_for_template fresh r).0 in
    let (clean_token, long_token) = csrf_token_for_template-token fresh r clean_fresh long in
    let held : clean post.cookie ≡ token = ap clean cookie ∙ clean_token in
    let matches = tokens_match_self token long_token in
    let nothing : clean post.header_token ≡ "" = ap clean no_header ∙ strip_nothing in
    let sent = or_text (clean post.header_token) (form_token post) in
    let same : sent ≡ token = ap (λ h. or_text h (form_token post)) nothing ∙ form in
    let answer : tokens_match (clean post.cookie) sent
        ≡ (if is_ascii token then some true else none) =
      ap (λ a. tokens_match a sent) held ∙ ap (tokens_match token) same ∙ matches in
    (
      ground (arith, is_get, ensure_csrf_cookie-template fresh r clean_fresh long),
      ground (arith, unsafe, answer),
      ground (arith, unsafe, answer),
    )
