-- ===== src/Llm/Providers.antt =====
-- app/llm_providers.py: the registry of the language models' providers. The texts and pictures that
-- only pages show are left out.
use vitae.Common.{true, String, List, false, Bool, find_first, Option, [], select, str_eq, ◌∷◌}
use vitae.Common.Text.{strip, lower}

pub record ProviderSpec : Type 0 where
  pub id : String
  pub kind : String
  pub default_model : String
  pub base_url : String
  pub env_key_attr : String
  pub env_model_attr : String
  pub for_platform : Bool

-- a provider for which users bring a key of their own
abbrev byok : String → String → String → String → ProviderSpec
byok id kind default_model base_url = record {
  id = id;
  kind = kind;
  default_model = default_model;
  base_url = base_url;
  env_key_attr = "";
  env_model_attr = "";
  for_platform = false;
}

-- a provider for which the server may have a key as well
abbrev platform : String → String → ProviderSpec → ProviderSpec
platform env_key_attr env_model_attr p = record p {
  env_key_attr = env_key_attr;
  env_model_attr = env_model_attr;
  for_platform = true;
}

-- `PROVIDERS`
abbrev pub providers : List ProviderSpec
providers =
    platform "openai_api_key" "openai_model" (byok "openai" "openai" "gpt-4o-mini" "")
    ∷ platform "groq_api_key" "groq_model"
        (byok "groq" "openai_compat" "llama-3.3-70b-versatile" "https://api.groq.com/openai/v1")
    ∷ byok "anthropic" "anthropic" "claude-3-5-haiku-latest" ""
    ∷ platform "gemini_api_key" "gemini_model" (byok "gemini" "gemini" "gemini-2.5-flash" "")
    ∷ byok "deepseek" "openai_compat" "deepseek-chat" "https://api.deepseek.com"
    ∷ byok "glm" "openai_compat" "glm-4-flash" "https://open.bigmodel.cn/api/paas/v4"
    ∷ byok "grok" "openai_compat" "grok-2-latest" "https://api.x.ai/v1"
    ∷ byok "mistral" "openai_compat" "mistral-small-latest" "https://api.mistral.ai/v1"
    ∷ byok "openrouter" "openai_compat" "openai/gpt-4o-mini" "https://openrouter.ai/api/v1"
    ∷ byok "together" "openai_compat" "meta-llama/Meta-Llama-3.1-8B-Instruct-Turbo"
        "https://api.together.xyz/v1"
    ∷ []

-- `PLATFORM_PROVIDERS`
abbrev pub platform_providers : List ProviderSpec
platform_providers = select (λ p. p.for_platform) providers

-- `get_provider`
unfoldable pub get_provider : String → Option ProviderSpec
get_provider provider_id = find_first (λ p. str_eq p.id (lower (strip provider_id))) providers
