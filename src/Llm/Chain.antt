-- ===== src/Llm/Chain.antt =====
-- The chain of the server's keys.
use vitae.Common.{
  arith, ◌||◌, inr, inl, ap, List, find_first-mem, true, sym, String, str_eq_refl, All-mem, str_eq,
  [], ◌∷◌, if◌then◌else◌, ◌++◌, Option-cases, ◌≡◌, refl, ◌∙◌, All,
}
use vitae.Common.Text.{is_empty, strip, lower}
use vitae.Common.Texts.{mem_text}
use vitae.Llm.{
  is_skipped, creds_of, platform_specs, platform_creds_chain, add_all, add_named, Settings,
  split_commas, add, ids, add_names, settings_key,
}
use vitae.Llm.Providers.{ProviderSpec, platform_providers, providers, get_provider}

module _ (env : String → String) where
  pub mem-ids-append :
      (i : String) (ps : List ProviderSpec) (q : ProviderSpec)
      → mem_text i (ids (ps ++ q ∷ [])) ≡ (mem_text i (ids ps) || str_eq i q.id)
  mem-ids-append i [] q = ground arith
  mem-ids-append i (p ∷ ps) q = ground (arith, mem-ids-append i ps q)

  is_skipped-later :
      (ps : List ProviderSpec) (p q : ProviderSpec)
      → is_skipped env ps p ≡ true
      → is_skipped env (add env q ps) p ≡ true
  unfolding add is_skipped
  is_skipped-later ps p q h = ground (arith, h, mem-ids-append p.id ps q)

  is_skipped-add :
      (ps : List ProviderSpec) (q : ProviderSpec) → is_skipped env (add env q ps) q ≡ true
  unfolding add is_skipped
  is_skipped-add ps q = ground (arith, str_eq_refl q.id, mem-ids-append q.id ps q)

  is_skipped-add_all :
      (qs ps : List ProviderSpec) (p : ProviderSpec)
      → is_skipped env ps p ≡ true
      → is_skipped env (add_all env qs ps) p ≡ true
  unfolding add_all
  is_skipped-add_all [] ps p h = h
  is_skipped-add_all (q ∷ qs) ps p h =
      is_skipped-add_all qs (add env q ps) p (is_skipped-later ps p q h)

  pub add_all-skips :
      (qs ps : List ProviderSpec) → All (λ p. is_skipped env (add_all env qs ps) p ≡ true) qs
  unfolding add_all
  add_all-skips [] ps = tt
  add_all-skips (q ∷ qs) ps = (
    is_skipped-add_all qs (add env q ps) q (is_skipped-add ps q),
    add_all-skips qs (add env q ps),
  )

  -- a provider without a key of the server's is left out whatever was added before
  byok-skipped :
      (ps : List ProviderSpec) (p : ProviderSpec)
      → is_empty p.env_key_attr ≡ true
      → is_skipped env ps p ≡ true
  unfolding is_skipped
  byok-skipped ps p h = ground (arith, h)

  -- after the platform's providers were added, none of the registry is added any more
  all-skipped :
      (ps : List ProviderSpec)
      → All (λ p. is_skipped env (add_all env platform_providers ps) p ≡ true) providers
  all-skipped ps =
      let chain = add_all env platform_providers ps in
      let done = add_all-skips platform_providers ps in
      let b : (p : ProviderSpec) → is_empty p.env_key_attr ≡ true → is_skipped env chain p ≡ true =
        byok-skipped chain in
      (
        done.0,
        (
          done.1.0,
          (
            b _ refl,
            (
              done.1.1.0,
              (b _ refl, (b _ refl, (b _ refl, (b _ refl, (b _ refl, (b _ refl, tt)))))),
            ),
          ),
        ),
      )

  add_names-done :
      (ns : List String) (ps : List ProviderSpec)
      → All (λ p. is_skipped env ps p ≡ true) providers
      → add_names env ns ps ≡ ps
  unfolding add_names add_named get_provider add
  add_names-done [] ps h = refl
  add_names-done (n ∷ ns) ps h =
      let name = lower (strip n) in
      let rest = add_names-done ns ps h in
      elim (Option-cases (get_provider name)) [
        | inl e ↦ ground (arith, e, rest)
        | inr (p, e) ↦
            let skip =
              All-mem (λ p. is_skipped env ps p ≡ true) providers h
                (find_first-mem (λ p. str_eq p.id (lower (strip name))) providers e) in
            ground (arith, e, skip, rest)
      ]

pub no_key :
    (env : String → String) (p : ProviderSpec)
    → is_empty p.env_key_attr ≡ true
    → settings_key env p ≡ ""
unfolding settings_key
no_key env p h = ground (arith, h)

-- the server's providers with a key, the preferred one first
unfoldable pub specs_with_key : Settings → List ProviderSpec
specs_with_key s =
    let preferred = lower (strip s.llm_provider) in
    add_all s.env platform_providers
      (if is_empty preferred then [] else add_named s.env preferred [])

pub platform_specs-specs_with_key : (s : Settings) → platform_specs s ≡ specs_with_key s
unfolding platform_specs specs_with_key
platform_specs-specs_with_key s =
    let preferred = lower (strip s.llm_provider) in
    let first = if is_empty preferred then [] else add_named s.env preferred [] in
    add_names-done s.env (split_commas s.llm_fallback_order)
      (add_all s.env platform_providers first) (all-skipped s.env first)

-- The setting of the fallback order changes nothing: whatever it says, empty or not, the chain of the
-- server's keys is the same.
pub platform_creds_chain-ignores_order :
    (s : Settings) (order : String)
    → platform_creds_chain (record s { llm_fallback_order = order }) ≡ platform_creds_chain s
unfolding platform_creds_chain specs_with_key
platform_creds_chain-ignores_order s order = ap (creds_of s.env) (
    platform_specs-specs_with_key (record s { llm_fallback_order = order })
    ∙ sym (platform_specs-specs_with_key s))
