-- ===== src/Llm/Keys/Resolve.antt =====
-- The key that is used after the form of the settings was saved.
use vitae.Common.{
  Option, some, if◌then◌else◌, refl, sym, subst, ap, List, false, inr, arith, String, ◌∷◌, none,
  true, not, Bool-cases, Bool, ◌≡◌, [], ◌&&◌, inl, ◌||◌, str_eq, ◌∙◌,
}
use vitae.Common.Text.{strip, or_text, is_empty, strip_twice, or_empty}
use vitae.Common.Texts.{mem_text, is_nil}
use vitae.Llm.Keys.{
  object, plain, KeyColumns, llm_providers, StoredKeys, put_key, merge_keys, or_openai,
  load_llm_keys_map, get_key, pop_key, clear_keys, norm, updated_keys, take_items, has_key,
  pick_key, stored_provider, apply_llm_key_updates, resolve_active_key,
}
use vitae.Llm.Keys.Chosen.{
  or_openai-known, stored_provider-has, pick_key-has, pick_key-none, stored_provider-keeps,
}
use vitae.Llm.Keys.Saved.{IsClean, pop_key-IsClean, put_key-IsClean, load-dump}

put_if-IsClean :
    (b : Bool) (name token : String) (keys : List (String × String))
    → (b ≡ true
        → (mem_text name llm_providers ≡ true) × (strip token ≡ token) × (is_empty token ≡ false))
    → IsClean keys
    → IsClean (if b then put_key name token keys else keys)
put_if-IsClean false name token keys f h = h
put_if-IsClean true name token keys f h =
    let (known, stripped, full) = f refl in put_key-IsClean name token keys known stripped full h

and_not : {a b : Bool} → (a && not b) ≡ true → (a ≡ true) × (b ≡ false)
and_not {a} {b} h = (ground (arith, h), ground (arith, h))

take_items-IsClean :
    (items : List (String × Option String)) (out : List (String × String))
    → IsClean out
    → IsClean (take_items items out)
unfolding take_items
take_items-IsClean [] out h = h
take_items-IsClean ((k, none) ∷ items) out h = take_items-IsClean items out h
take_items-IsClean ((k, some v) ∷ items) out h =
    let test = mem_text (norm k) llm_providers && not (is_empty (strip v)) in
    take_items-IsClean items (if test then put_key (norm k) (strip v) out else out) (
      put_if-IsClean test (norm k) (strip v) out
        (λ e. let (known, full) = and_not e in (known, strip_twice v, full)) h)

no_keys-IsClean : IsClean []
unfolding IsClean
no_keys-IsClean = tt

alone-IsClean :
    (name token : String)
    → mem_text name llm_providers ≡ true
    → strip token ≡ token
    → is_empty token ≡ false
    → IsClean ((name, token) ∷ [])
unfolding IsClean get_key
alone-IsClean name token known stripped full = (known, stripped, full, refl, tt)

-- the map of a text that is no object
abbrev alone : String → String → List (String × String)
alone p text = (or_openai (norm (or_text p "openai")), strip text) ∷ []

load-IsClean : (b : KeyColumns) → IsClean (load_llm_keys_map b)
unfolding load_llm_keys_map
load-IsClean b = stored b.llm_provider b.llm_key_encrypted
  where
    stored :
        (p : String) (s : StoredKeys)
        → IsClean (load_llm_keys_map (record { llm_provider = p; llm_key_encrypted = s }))
    stored p (object items) = take_items-IsClean items [] no_keys-IsClean
    stored p (plain text) = elim (Bool-cases (is_empty (strip text))) [
      | inl e ↦
          subst IsClean {x = []} (ap (λ b. if b then [] else alone p text) (sym e)) no_keys-IsClean
      | inr e ↦
          subst IsClean {x = alone p text} (ap (λ b. if b then [] else alone p text) (sym e)) (
            alone-IsClean (or_openai (norm (or_text p "openai"))) (strip text)
              (or_openai-known (norm (or_text p "openai"))) (strip_twice text) e)
    ]

clear_keys-IsClean :
    (names : List String) (keys : List (String × String))
    → IsClean keys
    → IsClean (clear_keys names keys)
unfolding clear_keys
clear_keys-IsClean [] keys h = h
clear_keys-IsClean (n ∷ ns) keys h =
    let b = mem_text n llm_providers in
    clear_keys-IsClean ns (if b then pop_key n keys else keys) (pick b)
  where
    pick : (b : Bool) → IsClean (if b then pop_key n keys else keys)
    pick true = pop_key-IsClean n keys h
    pick false = h

module _ (encrypt_secret : String → String)
    (stripped : (x : String) → strip (encrypt_secret x) ≡ encrypt_secret x)
    (full : (x : String) → is_empty (encrypt_secret x) ≡ false) where
  merge_keys-IsClean :
      (new_keys keys : List (String × String))
      → IsClean keys
      → IsClean (merge_keys encrypt_secret new_keys keys)
  unfolding merge_keys
  merge_keys-IsClean [] keys h = h
  merge_keys-IsClean ((n, plaintext) ∷ new_keys) keys h =
      let test = mem_text n llm_providers && not (is_empty (strip plaintext)) in
      let token = encrypt_secret (strip plaintext) in
      merge_keys-IsClean new_keys (if test then put_key n token keys else keys) (
        put_if-IsClean test n token keys
          (λ e. ((and_not e).0, stripped (strip plaintext), full (strip plaintext))) h)

  updated_keys-IsClean :
      (b : KeyColumns) (new_keys : List (String × String)) (clear : List String)
      → IsClean (updated_keys encrypt_secret b new_keys clear)
  unfolding updated_keys
  updated_keys-IsClean b new_keys clear =
      merge_keys-IsClean new_keys (clear_keys clear (load_llm_keys_map b))
        (clear_keys-IsClean clear (load_llm_keys_map b) (load-IsClean b))

module _ (active : String) where
  abbrev preferred : String
  preferred = or_openai (norm active)

  -- what the choice among the keys gives, for the provider that is stored with them
  abbrev IsChosen : List (String × String) → Type 0
  IsChosen keys =
      let p = stored_provider active keys in
      let used = pick_key p keys in
      (used.0 ≡ p)
      × (used.1 ≡ or_empty (get_key p keys))
      × ((is_nil keys || has_key keys p) ≡ true)
      × ((not (has_key keys preferred) || str_eq p preferred) ≡ true)

  chosen : (keys : List (String × String)) → IsClean keys → IsChosen keys
  unfolding stored_provider get_key
  chosen [] h =
      let none_yet = pick_key-none preferred (or_openai-known (norm active)) in
      (ap (λ u. u.0) none_yet, ap (λ u. u.1) none_yet, refl, refl)
  chosen ((k, v) ∷ rest) h =
      let keys = (k, v) ∷ rest in
      let (known, has) = stored_provider-has active k v rest h in
      let p = stored_provider active keys in
      let picked = pick_key-has p k v rest known has in
      (ap (λ u. u.0) picked, ap (λ u. u.1) picked, has, stored_provider-keeps active k v rest)

-- Where the encryption gives stripped texts that are not empty, saving the form stores the keys as they
-- are after the form was merged into them. The provider that is then used is the stored one, with its
-- key; it has one unless no key is left at all; and it is the provider that the form makes active, if
-- that one has a key.
pub apply_llm_key_updates-resolves :
    (encrypt_secret : String → String) (b : KeyColumns) (active : String)
    (new_keys : List (String × String)) (clear : List String)
    → ((x : String) → strip (encrypt_secret x) ≡ encrypt_secret x)
    → ((x : String) → is_empty (encrypt_secret x) ≡ false)
    → let after = apply_llm_key_updates encrypt_secret b active new_keys clear in
      let keys = updated_keys encrypt_secret b new_keys clear in
      let used = resolve_active_key after in
      (load_llm_keys_map after ≡ keys)
      × (used.0 ≡ after.llm_provider)
      × (used.1 ≡ or_empty (get_key after.llm_provider keys))
      × ((is_nil keys || has_key keys after.llm_provider) ≡ true)
      × ((not (has_key keys (or_openai (norm active)))
            || str_eq after.llm_provider (or_openai (norm active)))
          ≡ true)
unfolding apply_llm_key_updates resolve_active_key
apply_llm_key_updates-resolves encrypt_secret b active new_keys clear stripped full =
    let keys = updated_keys encrypt_secret b new_keys clear in
    let clean = updated_keys-IsClean encrypt_secret stripped full b new_keys clear in
    let loaded = load-dump (stored_provider active keys) keys clean in
    let (name, token, has, kept) = chosen active keys clean in
    let same = ap (pick_key (stored_provider active keys)) loaded in
    (loaded, ap (λ u. u.0) same ∙ name, ap (λ u. u.1) same ∙ token, has, kept)
