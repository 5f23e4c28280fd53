-- ===== src/Llm/Preferred.antt =====
-- The provider that the settings name stands first in the chain.
use vitae.Common.{
  refl, [], String, arith, inr, Bool-cases, ap, none, false, if◌then◌else◌, some, ◌∷◌, Option, ◌∙◌,
  ◌≡◌, inl, sym, List, str_eq_iff,
}
use vitae.Common.Text.{strip, is_empty, lower}
use vitae.Llm.{
  is_skipped, creds_from_spec, creds_of, settings_key, add_named, platform_specs, Settings,
  platform_creds, add, platform_creds_chain, add_all,
}
use vitae.Llm.Chain.{specs_with_key, platform_specs-specs_with_key, no_key}
use vitae.Llm.Providers.{get_provider, ProviderSpec, platform_providers}

-- the first entry of a list
abbrev first_of : List ProviderSpec → Option ProviderSpec
first_of [] = none
first_of (p ∷ ps) = some p

add-first :
    (env : String → String) (q p : ProviderSpec) (ps : List ProviderSpec)
    → first_of ps ≡ some p
    → first_of (add env q ps) ≡ some p
unfolding add
add-first env q p [] h = absurd (ground (arith, h))
add-first env q p (r ∷ ps) h = ground (arith, h)

add_all-first :
    (env : String → String) (qs : List ProviderSpec) (p : ProviderSpec) (ps : List ProviderSpec)
    → first_of ps ≡ some p
    → first_of (add_all env qs ps) ≡ some p
unfolding add_all
add_all-first env [] p ps h = h
add_all-first env (q ∷ qs) p ps h = add_all-first env qs p (add env q ps) (add-first env q p ps h)

some-inj : {a b : ProviderSpec} → some a ≡ some b → a ≡ b
some-inj {a} {b} e = ground (arith, e)

no_provider : get_provider "" ≡ none
unfolding get_provider lower strip
no_provider = refl

some_ne_none : {p : ProviderSpec} → some p ≡ none → ⊥
some_ne_none {p} h = ground (arith, h)

first-named :
    (s : Settings) (p : ProviderSpec)
    → get_provider (lower (strip s.llm_provider)) ≡ some p
    → is_empty (settings_key s.env p) ≡ false
    → let preferred = lower (strip s.llm_provider) in
      first_of (if is_empty preferred then [] else add_named s.env preferred []) ≡ some p
unfolding add_named add is_skipped settings_key
first-named s p found key =
    let preferred = lower (strip s.llm_provider) in
    elim (Bool-cases (is_empty preferred)) [
      | inl e ↦
          let blank : get_provider preferred ≡ get_provider "" =
            ap get_provider ((str_eq_iff preferred "").0 e) in
          absurd (some_ne_none (sym found ∙ blank ∙ no_provider))
      | inr e ↦ elim (Bool-cases (is_empty p.env_key_attr)) [
        | inl k ↦ absurd (ground (arith, key, ap (λ a. is_empty a) (no_key s.env p k)))
        | inr k ↦ ground (arith, e, k, found, key)
      ]
    ]

creds_of-first :
    (s : Settings) (p : ProviderSpec)
    → first_of (platform_specs s) ≡ some p
    → platform_creds s ≡ some (creds_from_spec s.env p (settings_key s.env p))
unfolding platform_creds platform_creds_chain creds_of
creds_of-first s p h = pick (platform_specs s) h
  where
    pick :
        (ps : List ProviderSpec)
        → first_of ps ≡ some p
        → (elim (creds_of s.env ps) [ [] ↦ none | c ∷ cs ↦ some c ])
          ≡ some (creds_from_spec s.env p (settings_key s.env p))
    pick [] e = absurd (ground (arith, e))
    pick (q ∷ qs) e = ap (λ r. some (creds_from_spec s.env r (settings_key s.env r))) (some-inj e)

-- The provider that the settings name is tried first, with its key, if there is a key for it.
pub platform_creds-preferred :
    (s : Settings) (p : ProviderSpec)
    → get_provider (lower (strip s.llm_provider)) ≡ some p
    → is_empty (settings_key s.env p) ≡ false
    → platform_creds s ≡ some (creds_from_spec s.env p (settings_key s.env p))
unfolding specs_with_key
platform_creds-preferred s p found key = creds_of-first s p (
    ap first_of (platform_specs-specs_with_key s)
    ∙ add_all-first s.env platform_providers p _ (first-named s p found key))
