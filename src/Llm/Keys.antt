-- ===== src/Llm/Keys.antt =====
-- app/accounts/llm_keys.py: the users' own keys, encrypted, under the providers they are for. The order
-- of the keys in the stored text, which `dumps` sorts, is left out.
pub mod Saved
pub mod Chosen
pub mod Resolve
use vitae.Common.{
  none, not, ◌&&◌, find_first, if◌then◌else◌, str_eq, Option, String, List, Bool, some, is_some, [],
  ◌∷◌,
}
use vitae.Common.Text.{lower, is_empty, or_text, or_empty, strip}
use vitae.Common.Texts.{is_nil, mem_text}
use vitae.Llm.{ids}
use vitae.Llm.Providers.{providers}

-- what `llm_key_encrypted` holds: a JSON object, with `none` for a value that is no text, or any other
-- text
pub data StoredKeys : Type 0 where
  plain : String → StoredKeys
  object : List (String × Option String) → StoredKeys

-- the columns of a billing row for the keys
pub record KeyColumns : Type 0 where
  pub llm_provider : String
  pub llm_key_encrypted : StoredKeys

-- `LLM_PROVIDERS`
abbrev pub llm_providers : List String
llm_providers = ids providers

abbrev pub norm : String → String
norm name = lower (strip name)

-- `name in PROVIDER_BY_ID`, else "openai"
abbrev pub or_openai : String → String
or_openai name = if mem_text name llm_providers then name else "openai"

unfoldable pub get_key : String → List (String × String) → Option String
get_key name [] = none
get_key name ((k, v) ∷ keys) =
    let rest = get_key name keys in if str_eq k name then some v else rest

-- `keys[name] = token`
unfoldable pub put_key : String → String → List (String × String) → List (String × String)
put_key name token [] = (name, token) ∷ []
put_key name token ((k, v) ∷ keys) =
    let rest = put_key name token keys in if str_eq k name then (k, token) ∷ keys else (k, v) ∷ rest

-- `keys.pop(name, None)`
unfoldable pub pop_key : String → List (String × String) → List (String × String)
pop_key name [] = []
pop_key name ((k, v) ∷ keys) =
    let rest = pop_key name keys in if str_eq k name then rest else (k, v) ∷ rest

-- the items of a stored object, one after the other
unfoldable pub take_items :
    List (String × Option String) → List (String × String) → List (String × String)
take_items [] out = out
take_items ((k, none) ∷ items) out = take_items items out
take_items ((k, some v) ∷ items) out = take_items items (
    if mem_text (norm k) llm_providers && not (is_empty (strip v))
    then put_key (norm k) (strip v) out
    else out)

-- `load_llm_keys_map` of a billing row
unfoldable pub load_llm_keys_map : KeyColumns → List (String × String)
load_llm_keys_map b = elim b.llm_key_encrypted [
  | object items ↦ take_items items []
  | plain text ↦
      if is_empty (strip text)
      then []
      else (or_openai (norm (or_text b.llm_provider "openai")), strip text) ∷ []
]

-- the keys that `dump_llm_keys_map` leaves in
unfoldable pub cleaned : List (String × String) → List (String × Option String)
cleaned [] = []
cleaned ((k, v) ∷ keys) =
    let rest = cleaned keys in
    if mem_text k llm_providers && not (is_empty (strip v))
    then (k, some (strip v)) ∷ rest
    else rest

unfoldable pub dump_llm_keys_map : List (String × String) → StoredKeys
dump_llm_keys_map keys = if is_nil (cleaned keys) then plain "" else object (cleaned keys)

unfoldable pub has_llm_keys : KeyColumns → Bool
has_llm_keys b = not (is_nil (load_llm_keys_map b))

-- `name in keys`
abbrev pub has_key : List (String × String) → String → Bool
has_key keys name = is_some (get_key name keys)

-- the provider with its key, for a map that is not empty
unfoldable pub pick_key : String → List (String × String) → String × String
pick_key preferred [] = (or_openai (norm (or_text preferred "openai")), "")
pick_key preferred (kv ∷ keys) =
    let all = kv ∷ keys in
    elim (get_key (norm preferred) all) [
      | some token ↦ (norm preferred, token)
      | none ↦ elim (find_first (has_key all) llm_providers) [
        | some name ↦ (name, or_empty (get_key name all))
        | none ↦ kv
      ]
    ]

unfoldable pub resolve_active_key : KeyColumns → String × String
resolve_active_key b = pick_key b.llm_provider (load_llm_keys_map b)

unfoldable pub clear_keys : List String → List (String × String) → List (String × String)
clear_keys [] keys = keys
clear_keys (n ∷ ns) keys = clear_keys ns (if mem_text n llm_providers then pop_key n keys else keys)

-- the keys of the form, encrypted
unfoldable pub merge_keys :
    (String → String) → List (String × String) → List (String × String) → List (String × String)
merge_keys encrypt_secret [] keys = keys
merge_keys encrypt_secret ((n, plaintext) ∷ new_keys) keys = merge_keys encrypt_secret new_keys (
    if mem_text n llm_providers && not (is_empty (strip plaintext))
    then put_key n (encrypt_secret (strip plaintext)) keys
    else keys)

-- the map after the form was merged into it
unfoldable pub updated_keys :
    (String → String) → KeyColumns → List (String × String) → List String → List (String × String)
updated_keys encrypt_secret b new_keys clear =
    merge_keys encrypt_secret new_keys (clear_keys clear (load_llm_keys_map b))

-- the provider that is stored: the active one, or the first with a key
unfoldable pub stored_provider : String → List (String × String) → String
stored_provider active_provider keys =
    let provider = or_openai (norm active_provider) in
    if not (has_key keys provider) && not (is_nil keys)
    then or_empty (find_first (has_key keys) llm_providers)
    else provider

unfoldable pub apply_llm_key_updates :
    (String → String) → KeyColumns → String → List (String × String) → List String → KeyColumns
apply_llm_key_updates encrypt_secret b active_provider new_keys clear =
    let keys = updated_keys encrypt_secret b new_keys clear in
    record {
      llm_provider = stored_provider active_provider keys;
      llm_key_encrypted = dump_llm_keys_map keys;
    }
