-- ===== src/Llm/Keys/Chosen.antt =====
-- The provider that is stored with the keys.
use vitae.Common.{
  str_eq, ap, Bool, subst, List, inr, str_eq_iff, false, String, find_first, ◌&&◌, ◌∷◌, ◌∙◌,
  Bool-cases, arith, sym, ◌≡◌, refl, Option-cases, str_eq_refl, not, if◌then◌else◌, some, true, inl,
  find_first-passes, [], find_first-mem, All-mem, ◌||◌,
}
use vitae.Common.Text.{or_empty, or_text, is_empty}
use vitae.Common.Texts.{mem_text}
use vitae.Llm.Keys.{has_key, or_openai, pick_key, norm, get_key, llm_providers, stored_provider}
use vitae.Llm.Keys.Saved.{IsClean, registry_names, norm-listed}

pub or_openai-known : (name : String) → mem_text (or_openai name) llm_providers ≡ true
or_openai-known name = elim (Bool-cases (mem_text name llm_providers)) [
  | inl e ↦
      subst (λ n. mem_text n llm_providers ≡ true) {x = name}
        (ap (λ b. if b then name else "openai") (sym e)) e
  | inr e ↦
      subst (λ n. mem_text n llm_providers ≡ true) {x = "openai"}
        (ap (λ b. if b then name else "openai") (sym e)) refl
]

-- a test that one of the names passes has a first name that passes it
found_first :
    (test : String → Bool) (k : String) (names : List String)
    → mem_text k names ≡ true
    → test k ≡ true
    → (n : String) × (find_first test names ≡ some n)
found_first test k [] m h = absurd (ground (arith, m))
found_first test k (n ∷ ns) m h = elim (Bool-cases (test n)) [
  | inl e ↦ (n, ground (arith, e))
  | inr e ↦
      let differs : str_eq k n ≡ false = differ k n h e in
      let (p, found) = found_first test k ns (ground (arith, m, differs)) h in
      (p, ground (arith, e, found))
]
  where
    differ : (k n : String) → test k ≡ true → test n ≡ false → str_eq k n ≡ false
    differ k n passes fails = elim (Bool-cases (str_eq k n)) [
      | inl e ↦ absurd (ground (arith, passes, fails, ap test ((str_eq_iff k n).0 e)))
      | inr e ↦ e
    ]

-- for a clean map that is not empty, the stored provider is one of its names
pub stored_provider-has :
    (active k v : String) (rest : List (String × String))
    → IsClean ((k, v) ∷ rest)
    → let keys = (k, v) ∷ rest in
      let p = stored_provider active keys in (norm p ≡ p) × (has_key keys p ≡ true)
unfolding stored_provider IsClean get_key
stored_provider-has active k v rest h =
    let keys = (k, v) ∷ rest in
    let provider = or_openai (norm active) in
    elim (Bool-cases (has_key keys provider)) [
      | inl e ↦
          let same : stored_provider active keys ≡ provider =
            ap
              (λ b.
                if not b && true
                then or_empty (find_first (has_key keys) llm_providers)
                else provider)
              e in
          let known =
            norm-listed provider llm_providers registry_names (or_openai-known (norm active)) in
          (
            subst (λ p. norm p ≡ p) (sym same) known,
            subst (λ p. has_key keys p ≡ true) (sym same) e,
          )
      | inr e ↦
          let (n, found) =
            found_first (has_key keys) k llm_providers h.0 (ground (arith, str_eq_refl k)) in
          let same : stored_provider active keys ≡ n =
            ap
              (λ b.
                if not b && true
                then or_empty (find_first (has_key keys) llm_providers)
                else provider)
              e
            ∙ ap (λ o. or_empty o) found in
          let known : norm n ≡ n =
            All-mem (λ n. norm n ≡ n) llm_providers registry_names
              (find_first-mem (has_key keys) llm_providers found) in
          (
            subst (λ p. norm p ≡ p) (sym same) known,
            subst (λ p. has_key keys p ≡ true) (sym same)
                (find_first-passes (has_key keys) llm_providers found),
          )
    ]

or_true : (a : Bool) {b : Bool} → b ≡ true → (a || b) ≡ true
or_true a {b} h = ground (arith, h)

-- a provider with a key is kept
pub stored_provider-keeps :
    (active k v : String) (rest : List (String × String))
    → let keys = (k, v) ∷ rest in
      let provider = or_openai (norm active) in
      (not (has_key keys provider) || str_eq (stored_provider active keys) provider) ≡ true
unfolding stored_provider
stored_provider-keeps active k v rest =
    let keys = (k, v) ∷ rest in
    let provider = or_openai (norm active) in
    elim (Bool-cases (has_key keys provider)) [
      | inl e ↦
          let same : stored_provider active keys ≡ provider =
            ap
              (λ b.
                if not b && true
                then or_empty (find_first (has_key keys) llm_providers)
                else provider)
              e in
          subst (λ x. (not (has_key keys provider) || str_eq x provider) ≡ true) (sym same)
            (or_true (not (has_key keys provider)) (str_eq_refl provider))
      | inr e ↦ ap (λ b. not b || str_eq (stored_provider active keys) provider) e
    ]

pub pick_key-has :
    (p k v : String) (rest : List (String × String))
    → let keys = (k, v) ∷ rest in
      norm p ≡ p → has_key keys p ≡ true → pick_key p keys ≡ (p, or_empty (get_key p keys))
unfolding pick_key
pick_key-has p k v rest known has =
    let keys = (k, v) ∷ rest in
    elim (Option-cases (get_key p keys)) [
      | inl e ↦ absurd (ground (arith, has, e))
      | inr (token, e) ↦
          let here : get_key (norm p) keys ≡ some token = ap (λ n. get_key n keys) known ∙ e in
          ground (arith, here, e, known)
    ]

pub pick_key-none : (p : String) → mem_text p llm_providers ≡ true → pick_key p [] ≡ (p, "")
unfolding pick_key
pick_key-none p known =
    let full : is_empty p ≡ false = elim (Bool-cases (is_empty p)) [
      | inl e ↦
          absurd (clash (sym known ∙ ap (λ n. mem_text n llm_providers) ((str_eq_iff p "").0 e)))
      | inr e ↦ e
    ] in
    let given : or_text p "openai" ≡ p = ap (λ b. if b then "openai" else p) full in
    let named : norm (or_text p "openai") ≡ p =
      ap norm given ∙ norm-listed p llm_providers registry_names known in
    ap (λ n. (or_openai n, "")) named ∙ ap (λ b. (if b then p else "openai", "")) known
  where
    clash : true ≡ false → ⊥
    clash h = ground (arith, h)
