-- ===== src/Llm.antt =====
-- app/llm.py: which keys of language models are used, and the one gateway through which the program
-- calls them. What the providers answer, the settings and the clock are arguments.
pub mod Providers
pub mod Chain
pub mod Apart
pub mod Preferred
pub mod Fallback
pub mod Keys
mod Examples
use Prim.Native.Char.{code}
use Prim.Native.String.{count}
use vitae.Common.{
  List, none, ◌∷◌, ◌||◌, Bool, ℕ, ◌==◌, suc, [], ◌++◌, if◌then◌else◌, some, Option, str_eq, ◌+◌,
  String, not, ◌&&◌, is_some,
}
use vitae.Common.Regex.{starts_with}
use vitae.Common.Table.{Table, insert}
use vitae.Common.Text.{lower, is_empty, or_empty, or_text, clip, strip}
use vitae.Common.Texts.{is_nil, mem_text}
use vitae.Llm.Providers.{platform_providers, get_provider, ProviderSpec}

-- the settings, each with the empty text where none is set
pub record Settings : Type 0 where
  pub env : String → String
  pub llm_provider : String
  pub llm_fallback_order : String

-- `LLMCreds`; the fields under older names, which repeat the model, are left out
pub record LlmCreds : Type 0 where
  pub provider : String
  pub api_key : String
  pub model : String
  pub base_url : String
  pub kind : String

-- `_RETIRED_GEMINI_MODELS.get`
unfoldable pub retired_gemini_model : String → Option String
retired_gemini_model key =
    if mem_text key ("gemini-2.0-flash" ∷ "gemini-2.0-flash-001" ∷ "gemini-2.0-flash-exp" ∷ [])
    then some "gemini-2.5-flash"
    else if mem_text key ("gemini-2.0-flash-lite" ∷ "gemini-2.0-flash-lite-001" ∷ [])
    then some "gemini-2.5-flash-lite"
    else none

-- `str.removeprefix`
unfoldable pub remove_prefix : String → String → String
remove_prefix String.[] s = s
remove_prefix (String.◌∷◌ c w) String.[] = String.[]
remove_prefix (String.◌∷◌ c w) (String.◌∷◌ d s) = remove_prefix w s

unfoldable pub resolve_gemini_model : String → String
resolve_gemini_model model =
    let raw = strip model in
    let key = lower raw in
    let bare = if starts_with "models/" key then remove_prefix "models/" key else key in
    or_text (or_empty (retired_gemini_model bare)) (or_text raw "gemini-2.5-flash")

-- `_settings_key`
unfoldable pub settings_key : (String → String) → ProviderSpec → String
settings_key env spec = if is_empty spec.env_key_attr then "" else strip (env spec.env_key_attr)

-- `_model_for_spec`
unfoldable pub model_for_spec : (String → String) → ProviderSpec → String
model_for_spec env spec =
    let override = if is_empty spec.env_model_attr then "" else strip (env spec.env_model_attr) in
    let model = or_text override spec.default_model in
    if str_eq spec.kind "gemini" then resolve_gemini_model model else model

-- `_creds_from_spec`
unfoldable pub creds_from_spec : (String → String) → ProviderSpec → String → LlmCreds
creds_from_spec env spec api_key = record {
  provider = spec.id;
  api_key = api_key;
  model = model_for_spec env spec;
  base_url = spec.base_url;
  kind = spec.kind;
}

abbrev pub ids : List ProviderSpec → List String
ids [] = []
ids (p ∷ ps) = p.id ∷ ids ps

-- the tests by which `_add` leaves a provider out
unfoldable pub is_skipped : (String → String) → List ProviderSpec → ProviderSpec → Bool
is_skipped env ordered spec =
    mem_text spec.id (ids ordered) || is_empty spec.env_key_attr || is_empty (settings_key env spec)

-- `_add`; `seen` has the ids of `ordered`
unfoldable pub add : (String → String) → ProviderSpec → List ProviderSpec → List ProviderSpec
add env spec ordered = if is_skipped env ordered spec then ordered else ordered ++ spec ∷ []

unfoldable pub add_all :
    (String → String) → List ProviderSpec → List ProviderSpec → List ProviderSpec
add_all env [] ordered = ordered
add_all env (p ∷ ps) ordered = add_all env ps (add env p ordered)

-- `_add(get_provider(name))`
unfoldable pub add_named : (String → String) → String → List ProviderSpec → List ProviderSpec
add_named env name ordered = elim (get_provider name) [
  | none ↦ ordered
  | some p ↦ add env p ordered
]

unfoldable pub add_names : (String → String) → List String → List ProviderSpec → List ProviderSpec
add_names env [] ordered = ordered
add_names env (n ∷ ns) ordered = add_names env ns (add_named env (lower (strip n)) ordered)

-- `s.split(",")`
unfoldable pub split_commas : String → List String
split_commas String.[] = "" ∷ []
split_commas (String.◌∷◌ c s) =
    let rest = split_commas s in
    if code c == b',' then "" ∷ rest else elim rest [ [] ↦ [] | w ∷ ws ↦ (String.◌∷◌ c w) ∷ ws ]

-- `ordered`: the preferred provider, the other ones with a key, those of the fallback order
unfoldable pub platform_specs : Settings → List ProviderSpec
platform_specs s =
    let preferred = lower (strip s.llm_provider) in
    let first = if is_empty preferred then [] else add_named s.env preferred [] in
    add_names s.env (split_commas s.llm_fallback_order) (add_all s.env platform_providers first)

unfoldable pub creds_of : (String → String) → List ProviderSpec → List LlmCreds
creds_of env [] = []
creds_of env (p ∷ ps) = creds_from_spec env p (settings_key env p) ∷ creds_of env ps

unfoldable pub platform_creds_chain : Settings → List LlmCreds
platform_creds_chain s = creds_of s.env (platform_specs s)

-- the first key of the chain
unfoldable pub platform_creds : Settings → Option LlmCreds
platform_creds s = elim (platform_creds_chain s) [ [] ↦ none | c ∷ cs ↦ some c ]

-- the user's own key, under the provider it is for; `decrypt_secret` gives "" for what it cannot read
unfoldable pub byok_creds :
    (String → String) → (String → String) → String → String → Option LlmCreds
byok_creds env decrypt_secret encrypted_key provider =
    let key = decrypt_secret encrypted_key in
    let by : String → Option LlmCreds = λ name. elim (get_provider name) [
      | none ↦ none
      | some spec ↦ some (creds_from_spec env spec key)
    ] in
    if is_empty key then none else elim (by provider) [ some c ↦ some c | none ↦ by "openai" ]

unfoldable pub has_llm : Settings → Option LlmCreds → Bool
has_llm s none = is_some (platform_creds s)
has_llm s (some c) = not (is_empty c.api_key) && not (is_empty c.provider)

unfoldable pub active_llm_name : Settings → Option LlmCreds → String
active_llm_name s (some c) = c.provider
active_llm_name s none = elim (platform_creds s) [ none ↦ "" | some c ↦ c.provider ]

-- `LLMRequest`, the record of one call
pub record LlmRequest : Type 0 where
  pub id : ℕ
  pub provider : String
  pub model : String
  pub purpose : String
  pub prompt_version : String
  pub status : String
  pub latency_ms : ℕ
  pub input_chars : ℕ
  pub output_chars : ℕ
  pub error_type : Option String

-- how a provider ends a call: with a text or with an exception, by its class
pub data Reply : Type 0 where
  answered failed : String → Reply

-- the parameters of `llm_complete` that steer it; the prompt as it is sent
pub record Ask : Type 0 where
  pub prompt : String
  pub safe_system : String
  pub purpose : String
  pub prompt_version : String
  pub allow_fallback : Bool

-- what the n-th provider of a chain answers and how long it takes, and whether the call's record can
-- be stored
pub record World : Type 0 where
  pub dispatch : ℕ → LlmCreds → Reply
  pub latency : ℕ → ℕ
  pub stores : ℕ → Bool

-- `_record_request`; an exception in it is only logged
unfoldable pub record_request :
    World → Ask → ℕ → LlmCreds → Reply → Table LlmRequest → Table LlmRequest
record_request w q n c reply t =
    if w.stores n
    then insert
        (λ i. record {
          id = i;
          provider = clip 64 c.provider;
          model = clip 128 c.model;
          purpose = or_text (clip 64 q.purpose) "unspecified";
          prompt_version = or_text (clip 64 q.prompt_version) "v1";
          status = elim reply [ answered text ↦ "success" | failed kind ↦ "error" ];
          latency_ms = w.latency n;
          input_chars = count q.prompt + count q.safe_system;
          output_chars = elim reply [ answered text ↦ count text | failed kind ↦ 0 ];
          error_type = elim reply [
            | answered text ↦ none
            | failed kind ↦ if is_empty (clip 128 kind) then none else some (clip 128 kind)
          ];
        })
        t
    else t

-- the loop over the chain, from the n-th provider on
unfoldable pub try_all :
    World → Ask → ℕ → List LlmCreds → Table LlmRequest → Table LlmRequest × Reply
try_all w q n [] t = (t, failed "RuntimeError")
try_all w q n (c ∷ cs) t =
    let reply = w.dispatch n c in
    let noted = record_request w q n c reply t in
    let rest = try_all w q (suc n) cs noted in
    elim reply [
      | answered text ↦ (noted, answered text)
      | failed kind ↦ if is_nil cs || not q.allow_fallback then (noted, failed kind) else rest
    ]

-- the keys that a call tries: the given one, or the server's
unfoldable pub chain_for : Settings → Option LlmCreds → List LlmCreds
chain_for s none = platform_creds_chain s
chain_for s (some c) = c ∷ []

-- `llm_complete`; without a key it raises `RuntimeError` before any call
unfoldable pub llm_complete :
    World → Settings → Option LlmCreds → Ask → Table LlmRequest → Table LlmRequest × Reply
llm_complete w s creds q t = try_all w q 0 (chain_for s creds) t
