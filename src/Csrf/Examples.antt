-- ===== src/Csrf/Examples.antt =====
-- Concrete requests and their cookies.
use vitae.Common.{true, none, refl, some, String, ◌≡◌, if◌then◌else◌}
use vitae.Common.Regex.{search, starts_with, contains}
use vitae.Common.Text.{lower, strip, or_text, is_space}
use vitae.Csrf.{
  Request, dispatch, csrf_token_for_template, clean, form_token, at_least, exempt, tokens_match,
  crashed, is_ascii, passed,
}
use vitae.Csrf.Passing.{dispatch-form, dispatch-same_token}

abbrev token : String
token = "0123456789abcdefghij"

abbrev page_request : Request
page_request = record {
  method = "GET";
  path = "/login";
  cookie = none;
  header_token = none;
  content_type = none;
  urlencoded_token = none;
  multipart_token = none;
  state_token = none;
}

abbrev form_post : Request
form_post = record {
  method = "POST";
  path = "/login";
  cookie = some token;
  header_token = none;
  content_type = some "application/x-www-form-urlencoded";
  urlencoded_token = some token;
  multipart_token = none;
  state_token = none;
}

dispatch-form_example :
    let page = dispatch token (λ q. (csrf_token_for_template token q).1) page_request in
    (page.set_cookie ≡ some (csrf_token_for_template token page_request).0)
    × ((dispatch token (λ q. q) form_post).reached
        ≡ is_ascii (csrf_token_for_template token page_request).0)
    × ((dispatch token (λ q. q) form_post).response
        ≡ (if is_ascii (csrf_token_for_template token page_request).0 then passed else crashed))
unfolding csrf_token_for_template form_token strip at_least is_space contains search lower exempt
    starts_with
dispatch-form_example =
    dispatch-form token page_request form_post (λ q. q) refl refl refl refl refl refl refl

dispatch-same_token_example :
    (clean form_post.cookie ≡ or_text (clean form_post.header_token) (form_token form_post))
    × (at_least 16 (clean form_post.cookie) ≡ true)
unfolding dispatch exempt starts_with form_token strip at_least is_space contains search lower
    tokens_match is_ascii
dispatch-same_token_example = dispatch-same_token token (λ q. q) form_post refl refl

-- a cookie that is not ASCII is kept as the page's token, and the form with it fails
accented :
    (csrf_token_for_template token (record page_request { cookie = some "éééééééééééééééé" })).0
    ≡ "éééééééééééééééé"
unfolding csrf_token_for_template strip at_least is_space
accented = refl

-- A path that only begins with the letters of an exempt one is exempt as well.
docs_prefix : exempt "/docs-of-a-user" ≡ true
unfolding exempt starts_with
docs_prefix = refl
