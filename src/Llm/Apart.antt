-- ===== src/Llm/Apart.antt =====
-- What the chain of the server's keys is made of.
use vitae.Common.{
  inl, ◌++◌, subst, [], All-append, str_eq_iff, arith, inr, String, refl, Option-cases, sym,
  All-map, ap, ◌∷◌, ◌∙◌, ◌||◌, true, Bool-cases, All, ◌≡◌, List, if◌then◌else◌, false,
}
use vitae.Common.Text.{strip, lower, is_empty}
use vitae.Common.Texts.{mem_text, all_different}
use vitae.Llm.{
  add_named, ids, LlmCreds, add, creds_from_spec, platform_specs, add_all, is_skipped, settings_key,
  platform_creds_chain, Settings, creds_of,
}
use vitae.Llm.Chain.{
  specs_with_key, mem-ids-append, platform_specs-specs_with_key, add_all-skips, no_key,
}
use vitae.Llm.Providers.{platform_providers, ProviderSpec, get_provider}

-- the names of the providers in a chain
abbrev pub names : List LlmCreds → List String
names [] = []
names (c ∷ cs) = c.provider ∷ names cs

names-creds_of : (env : String → String) (ps : List ProviderSpec) → names (creds_of env ps) ≡ ids ps
unfolding creds_of creds_from_spec
names-creds_of env [] = refl
names-creds_of env (p ∷ ps) = ap (λ is. p.id ∷ is) (names-creds_of env ps)

-- what the loops keep: no provider twice, and a key for each
IsApart : (String → String) → List ProviderSpec → Type 0
IsApart env ps =
    (all_different (ids ps) ≡ true) × All (λ p. is_empty (settings_key env p) ≡ false) ps

module _ (env : String → String) where
  all_different-append :
      (ps : List ProviderSpec) (q : ProviderSpec)
      → mem_text q.id (ids ps) ≡ false
      → all_different (ids ps) ≡ true
      → all_different (ids (ps ++ q ∷ [])) ≡ true
  all_different-append [] q h d = refl
  all_different-append (p ∷ ps) q h d = ground (
    arith,
    h,
    d,
    str_eq_iff p.id q.id,
    str_eq_iff q.id p.id,
    mem-ids-append env p.id ps q,
    all_different-append ps q,
  )

  add-IsApart :
      (p : ProviderSpec) (ps : List ProviderSpec) → IsApart env ps → IsApart env (add env p ps)
  unfolding add is_skipped IsApart
  add-IsApart p ps h = elim (Bool-cases (is_skipped env ps p)) [
    | inl e ↦ subst (IsApart env) (ground (arith, e)) h
    | inr e ↦ subst (IsApart env) (ground (arith, e)) (
      all_different-append ps p (ground (arith, e)) h.0,
      All-append _ ps (p ∷ []) h.1 (ground (arith, e), tt),
    )
  ]

  add_all-IsApart : (qs ps : List ProviderSpec) → IsApart env ps → IsApart env (add_all env qs ps)
  unfolding add_all
  add_all-IsApart [] ps h = h
  add_all-IsApart (q ∷ qs) ps h = add_all-IsApart qs (add env q ps) (add-IsApart q ps h)

keys-creds_of :
    (env : String → String) (ps : List ProviderSpec)
    → All (λ p. is_empty (settings_key env p) ≡ false) ps
    → All (λ c. is_empty c.api_key ≡ false) (creds_of env ps)
unfolding creds_of creds_from_spec
keys-creds_of env [] h = tt
keys-creds_of env (p ∷ ps) h = (h.0, keys-creds_of env ps h.1)

first-IsApart :
    (env : String → String) (preferred : String)
    → IsApart env (if is_empty preferred then [] else add_named env preferred [])
unfolding add_named IsApart
first-IsApart env preferred =
    let none_yet : IsApart env [] = (refl, tt) in
    elim (Bool-cases (is_empty preferred)) [
      | inl e ↦ subst (IsApart env) {x = []} (ground (arith, e)) none_yet
      | inr e ↦ elim (Option-cases (get_provider preferred)) [
        | inl none_such ↦ subst (IsApart env) {x = []} (ground (arith, e, none_such)) none_yet
        | inr (p, found) ↦
            subst (IsApart env) (ground (arith, e, found)) (add-IsApart env p [] none_yet)
      ]
    ]

skipped-known :
    (env : String → String) (ps : List ProviderSpec) (p : ProviderSpec)
    → is_skipped env ps p ≡ true
    → (is_empty (settings_key env p) || mem_text p.id (ids ps)) ≡ true
unfolding is_skipped
skipped-known env ps p h = elim (Bool-cases (is_empty p.env_key_attr)) [
  | inl e ↦ ground (arith, ap (λ k. is_empty k) (no_key env p e))
  | inr e ↦ ground (arith, h, e)
]

-- The chain of the server's keys names no provider twice, each of its entries has a key, and each
-- provider of the platform for which the settings have a key is in it.
pub platform_creds_chain_lem :
    (s : Settings)
    → let chain = platform_creds_chain s in
      (all_different (names chain) ≡ true)
      × All (λ c. is_empty c.api_key ≡ false) chain
      × All
          (λ p. (is_empty (settings_key s.env p) || mem_text p.id (names chain)) ≡ true)
          platform_providers
unfolding platform_creds_chain platform_specs specs_with_key is_skipped IsApart
platform_creds_chain_lem s =
    let preferred = lower (strip s.llm_provider) in
    let first = if is_empty preferred then [] else add_named s.env preferred [] in
    let same : platform_specs s ≡ add_all s.env platform_providers first =
      platform_specs-specs_with_key s in
    let apart = add_all-IsApart s.env platform_providers first (first-IsApart s.env preferred) in
    let named = names-creds_of s.env (platform_specs s) in
    (
      ground (arith, named, ap (λ ps. all_different (ids ps)) same, apart.0),
      keys-creds_of s.env (platform_specs s)
          (subst (λ ps. All (λ p. is_empty (settings_key s.env p) ≡ false) ps) (sym same) apart.1),
      subst
          (λ is.
            All (λ p. (is_empty (settings_key s.env p) || mem_text p.id is) ≡ true)
              platform_providers)
          (sym (named ∙ ap ids same))
          (All-map (skipped-known s.env (add_all s.env platform_providers first)) platform_providers
            (add_all-skips s.env platform_providers first)),
    )
