-- ===== src/Csrf.antt =====
-- app/csrf.py: the double-submit cookie. A request and its state are one record; the rest of the
-- application is a function, and what Starlette makes of a form body is part of the request.
pub mod Passing
mod Examples
use Prim.Native.Char.{code}
use vitae.Common.{
  true, suc, zero, false, none, not, if◌then◌else◌, ℕ, some, Option, ◌||◌, Bool, String, str_eq,
  ◌&&◌, ltb,
}
use vitae.Common.Regex.{starts_with, contains}
use vitae.Common.Text.{or_text, or_empty, strip, lower, is_empty}

-- A body, as far as it is read: the first `csrf_token` of a form, or a failure of the parser.
pub record Request : Type 0 where
  pub method : String
  pub path : String
  pub cookie : Option String
  pub header_token : Option String
  pub content_type : Option String
  pub urlencoded_token : Option String
  pub multipart_token : Option String
  pub state_token : Option String

-- `crashed` is the answer to an exception that leaves the middleware, a 500.
pub data Response : Type 0 where
  refused : Response
  passed : Response
  crashed : Response

-- What a request ends with: the response, whether the application saw it, and the cookie set on it.
pub record Answered : Type 0 where
  pub response : Response
  pub reached : Bool
  pub set_cookie : Option String

-- `len(s) >= n`
unfoldable pub at_least : ℕ → String → Bool
at_least zero s = true
at_least (suc n) String.[] = false
at_least (suc n) (String.◌∷◌ c s) = at_least n s

-- `(token or "").strip()`
abbrev pub clean : Option String → String
clean token = strip (or_empty token)

-- `method in SAFE_METHODS`
abbrev pub is_safe : String → Bool
is_safe method =
    str_eq method "GET" || str_eq method "HEAD" || str_eq method "OPTIONS" || str_eq method "TRACE"

-- `path == p.rstrip("/") or path.startswith(p)` for one prefix, which ends in at most one slash
abbrev pub under : String → String → String → Bool
under path bare p = str_eq path bare || starts_with p path

-- `_exempt`
unfoldable pub exempt : String → Bool
exempt path =
    under path "/webhooks" "/webhooks/"
    || under path "/health" "/health"
    || under path "/static" "/static/"
    || under path "/docs" "/docs"
    || under path "/redoc" "/redoc"
    || under path "/openapi.json" "/openapi.json"

unfoldable pub is_ascii : String → Bool
is_ascii String.[] = true
is_ascii (String.◌∷◌ c s) = let rest = is_ascii s in ltb (code c) 128 && rest

-- `_tokens_match`; `hmac.compare_digest` raises a `TypeError`, `none`, for a text that is not ASCII
unfoldable pub tokens_match : String → String → Option Bool
tokens_match a b =
    if is_empty a || is_empty b || not (at_least 16 a) || not (at_least 16 b)
    then some false
    else if is_ascii a && is_ascii b
    then some (str_eq a b)
    else none

-- `cookie_secure_flag`, of the two settings
unfoldable pub cookie_secure_flag : String → String → Bool
cookie_secure_flag app_env oauth_redirect_base =
    let env = lower (strip app_env) in
    if str_eq env "production" || str_eq env "prod" || str_eq env "cloud"
    then true
    else starts_with "https" oauth_redirect_base

-- `form_token`; `none` stands for a body that the parser refuses or that lacks the field
unfoldable pub form_token : Request → String
form_token r =
    let kind = lower (or_empty r.content_type) in
    if contains "application/x-www-form-urlencoded" kind
    then or_empty r.urlencoded_token
    else if contains "multipart/form-data" kind
    then or_empty r.multipart_token
    else ""

-- `token_urlsafe(32)` is a text of 43 characters.
module _ (fresh : String) where
  -- the token of `ensure_csrf_cookie`
  unfoldable pub ensure_csrf_cookie : Request → String
  ensure_csrf_cookie r =
      let held = clean r.state_token in
      let token = if at_least 16 held then held else clean r.cookie in
      if at_least 16 token then token else fresh

  -- the token of `csrf_token_for_template`, and the request with it in its state
  unfoldable pub csrf_token_for_template : Request → String × Request
  csrf_token_for_template r =
      let existing = clean r.state_token in
      let cookie = clean r.cookie in
      if at_least 16 existing
      then (existing, r)
      else if at_least 16 cookie
      then (cookie, record r { state_token = some cookie })
      else (fresh, record r { state_token = some fresh })

  -- `dispatch`, where `call_next` answers a request and may leave a token in its state
  unfoldable pub dispatch : (Request → Request) → Request → Answered
  dispatch call_next r =
      let after = call_next r in
      let kept : Answered = record {
        response = passed;
        reached = true;
        set_cookie = some (ensure_csrf_cookie after);
      } in
      let submitted = or_text (clean r.header_token) (form_token r) in
      if is_safe r.method || exempt r.path
      then (if str_eq r.method "GET" || str_eq r.method "HEAD"
          then kept
          else record kept { set_cookie = none })
      else elim (tokens_match (clean r.cookie) submitted) [
        | none ↦ record { response = crashed; reached = false; set_cookie = none }
        | some matching ↦
            if matching
            then kept
            else record { response = refused; reached = false; set_cookie = none }
      ]
