-- ===== src/Llm/Examples.antt =====
-- Settings with two keys, and a call whose first provider fails.
use vitae.Common.{
  All, refl, ◌||◌, ◌∷◌, str_eq, ◌++◌, none, false, true, ◌≡◌, if◌then◌else◌, [], not, String,
}
use vitae.Common.Table.{Table}
use vitae.Common.Text.{is_empty, lower, strip, clip, or_empty}
use vitae.Common.Texts.{all_different, mem_text, is_nil}
use vitae.Llm.{
  failed, Ask, platform_creds_chain, Settings, chain_for, settings_key, LlmRequest, World,
  llm_complete, answered, is_skipped, split_commas, add_all, add, creds_of, add_names,
  creds_from_spec, platform_specs, add_named, record_request, try_all,
}
use vitae.Llm.Apart.{platform_creds_chain_lem, names}
use vitae.Llm.Chain.{platform_creds_chain-ignores_order}
use vitae.Llm.Fallback.{llm_complete-falls_back, text_of, first_answer, ends, asked}
use vitae.Llm.Keys.{
  plain, has_key, norm, or_openai, get_key, load_llm_keys_map, updated_keys, apply_llm_key_updates,
  resolve_active_key, KeyColumns, merge_keys, put_key, cleaned, take_items, clear_keys,
  stored_provider, pick_key, dump_llm_keys_map,
}
use vitae.Llm.Keys.Resolve.{apply_llm_key_updates-resolves}
use vitae.Llm.Providers.{platform_providers, get_provider}

abbrev settings : Settings
settings = record {
  env = λ name.
      if str_eq name "openai_api_key"
      then "sk-1"
      else if str_eq name "gemini_api_key"
      then " g-2 "
      else "";
  llm_provider = "Gemini";
  llm_fallback_order = "openai,groq";
}

-- the preferred one first
names-platform_creds_chain : names (platform_creds_chain settings) ≡ "gemini" ∷ "openai" ∷ []
unfolding platform_creds_chain creds_of platform_specs add_names split_commas add_named get_provider
    lower strip add is_skipped add_all settings_key creds_from_spec
names-platform_creds_chain = refl

platform_creds_chain-ignores_order_example :
    platform_creds_chain (record settings { llm_fallback_order = "" })
    ≡ platform_creds_chain settings
platform_creds_chain-ignores_order_example = platform_creds_chain-ignores_order settings ""

platform_creds_chain_lem_example :
    let chain = platform_creds_chain settings in
    (all_different (names chain) ≡ true)
    × All (λ c. is_empty c.api_key ≡ false) chain
    × All
        (λ p. (is_empty (settings_key settings.env p) || mem_text p.id (names chain)) ≡ true)
        platform_providers
platform_creds_chain_lem_example = platform_creds_chain_lem settings

-- gemini is rate limited, openai answers
abbrev world : World
world = record {
  dispatch =
      λ n c. if str_eq c.provider "gemini" then failed "RateLimitError" else answered "Dear team";
  latency = λ n. 100;
  stores = λ n. true;
}

abbrev ask : Ask
ask = record {
  prompt = "Write";
  safe_system = "Be safe";
  purpose = "";
  prompt_version = "v1";
  allow_fallback = true;
}

abbrev no_requests : Table LlmRequest
no_requests = record { rows = []; next_id = 1 }

ends-llm_complete :
    ends (llm_complete world settings none ask no_requests).0.rows
    ≡ ("gemini", "error") ∷ ("openai", "success") ∷ []
unfolding llm_complete try_all chain_for platform_creds_chain creds_of platform_specs add_names
    split_commas add_named get_provider lower strip add is_skipped add_all settings_key
    creds_from_spec record_request clip
ends-llm_complete = refl

llm_complete-falls_back_example :
    let done = llm_complete world settings none ask no_requests in
    let chain = chain_for settings none in
    (text_of done.1 ≡ first_answer world 0 chain)
    × (ends done.0.rows ≡ ends no_requests.rows ++ asked world 0 chain)
llm_complete-falls_back_example =
    llm_complete-falls_back world settings none ask no_requests refl (λ n. refl)

-- a billing row with an old single key, and a form that adds a key and makes its provider active
abbrev columns : KeyColumns
columns = record { llm_provider = "Groq"; llm_key_encrypted = plain "gAAB" }

abbrev encrypt : String → String
encrypt plaintext = "gAAC"

apply_llm_key_updates-resolves_example :
    let after = apply_llm_key_updates encrypt columns "openai" (("openai", " sk-2 ") ∷ []) [] in
    let keys = updated_keys encrypt columns (("openai", " sk-2 ") ∷ []) [] in
    let used = resolve_active_key after in
    (load_llm_keys_map after ≡ keys)
    × (used.0 ≡ after.llm_provider)
    × (used.1 ≡ or_empty (get_key after.llm_provider keys))
    × ((is_nil keys || has_key keys after.llm_provider) ≡ true)
    × ((not (has_key keys (or_openai (norm "openai")))
          || str_eq after.llm_provider (or_openai (norm "openai")))
        ≡ true)
unfolding strip
apply_llm_key_updates-resolves_example =
    apply_llm_key_updates-resolves encrypt columns "openai" (("openai", " sk-2 ") ∷ []) []
      (λ x. refl) (λ x. refl)

resolve_active_key-apply_llm_key_updates :
    resolve_active_key
      (apply_llm_key_updates encrypt columns "openai" (("openai", " sk-2 ") ∷ []) [])
    ≡ ("openai", "gAAC")
unfolding resolve_active_key apply_llm_key_updates pick_key load_llm_keys_map dump_llm_keys_map
    cleaned updated_keys merge_keys strip put_key clear_keys lower take_items get_key
    stored_provider
resolve_active_key-apply_llm_key_updates = refl
