-- ===== src/Llm/Keys/Saved.antt =====
-- What is stored of the users' keys is what is read back.
use mathlib.Core.List.{append_assoc, append-nil}
use vitae.Common.{
  String, true, arith, [], ◌++◌, Bool-cases, inl, refl, str_eq_iff, ◌≡◌, some, List, ◌∷◌, str_eq,
  subst, false, none, inr, if◌then◌else◌, All-zip, All, ap, All-map, sym, ◌∙◌, ◌&&◌, Bool, not,
  All_of,
}
use vitae.Common.Text.{strip, is_empty, lower}
use vitae.Common.Texts.{mem_text, is_nil}
use vitae.Llm.Keys.{
  pop_key, llm_providers, put_key, get_key, cleaned, norm, take_items, dump_llm_keys_map,
  load_llm_keys_map, plain, object,
}

-- each key is under the name of a provider, stripped and not empty, and no name has two
unfoldable pub IsClean : List (String × String) → Type 0
IsClean [] = Unit
IsClean ((k, v) ∷ keys) =
    (mem_text k llm_providers ≡ true)
    × (strip v ≡ v)
    × (is_empty v ≡ false)
    × (get_key k keys ≡ none)
    × IsClean keys

get_key-put_key :
    (a name token : String) (keys : List (String × String))
    → get_key a (put_key name token keys) ≡ (if str_eq name a then some token else get_key a keys)
unfolding get_key put_key
get_key-put_key a name token [] = refl
get_key-put_key a name token ((k, v) ∷ keys) =
    ground (
      arith,
      str_eq_iff k name,
      str_eq_iff k a,
      str_eq_iff name a,
      get_key-put_key a name token keys,
    )

pub put_key-IsClean :
    (name token : String) (keys : List (String × String))
    → mem_text name llm_providers ≡ true
    → strip token ≡ token
    → is_empty token ≡ false
    → IsClean keys
    → IsClean (put_key name token keys)
unfolding put_key IsClean get_key
put_key-IsClean name token [] known stripped full h = (known, stripped, full, refl, tt)
put_key-IsClean name token ((k, v) ∷ keys) known stripped full (a, b, c, apart, rest) =
    let later = put_key-IsClean name token keys known stripped full rest in
    elim (Bool-cases (str_eq k name)) [
      | inl e ↦
          subst IsClean {x = (k, token) ∷ keys} (ground (arith, e)) (a, stripped, full, apart, rest)
      | inr e ↦
          let free : get_key k (put_key name token keys) ≡ none = ground (
            arith,
            get_key-put_key k name token keys,
            apart,
            e,
            str_eq_iff k name,
            str_eq_iff name k,
          ) in
          subst IsClean {x = (k, v) ∷ put_key name token keys} (ground (arith, e))
            (a, b, c, free, later)
    ]

get_key-pop_key :
    (a name : String) (keys : List (String × String))
    → get_key a keys ≡ none
    → get_key a (pop_key name keys) ≡ none
unfolding get_key pop_key
get_key-pop_key a name [] h = refl
get_key-pop_key a name ((k, v) ∷ keys) h = ground (arith, h, get_key-pop_key a name keys)

pub pop_key-IsClean :
    (name : String) (keys : List (String × String)) → IsClean keys → IsClean (pop_key name keys)
unfolding pop_key IsClean
pop_key-IsClean name [] h = tt
pop_key-IsClean name ((k, v) ∷ keys) (a, b, c, apart, rest) =
    let later = pop_key-IsClean name keys rest in
    elim (Bool-cases (str_eq k name)) [
      | inl e ↦ subst IsClean {x = pop_key name keys} (ground (arith, e)) later
      | inr e ↦
          subst IsClean {x = (k, v) ∷ pop_key name keys} (ground (arith, e))
            (a, b, c, get_key-pop_key k name keys apart, later)
    ]

-- putting a key under a new name adds it at the end
put_key-new :
    (name token : String) (keys : List (String × String))
    → get_key name keys ≡ none
    → put_key name token keys ≡ keys ++ (name, token) ∷ []
unfolding put_key get_key
put_key-new name token [] h = refl
put_key-new name token ((k, v) ∷ keys) h = ground (arith, h, put_key-new name token keys)

pub norm-listed :
    (k : String) (names : List String)
    → All (λ n. norm n ≡ n) names
    → mem_text k names ≡ true
    → norm k ≡ k
norm-listed k [] h m = absurd (ground (arith, m))
norm-listed k (n ∷ ns) h m = elim (Bool-cases (str_eq k n)) [
  | inl e ↦ let same : k ≡ n = (str_eq_iff k n).0 e in ap norm same ∙ h.0 ∙ sym same
  | inr e ↦ norm-listed k ns h.1 (ground (arith, m, e))
]

-- the names of the registry are in small letters, without white space
pub registry_names : All (λ n. norm n ≡ n) llm_providers
unfolding lower strip
registry_names = (refl, (refl, (refl, (refl, (refl, (refl, (refl, (refl, (refl, (refl, tt))))))))))

absent :
    (k : String) (keys : List (String × String))
    → get_key k keys ≡ none
    → All (λ kv. str_eq k kv.0 ≡ false) keys
unfolding get_key
absent k [] h = tt
absent k ((j, v) ∷ keys) h =
    (ground (arith, h, str_eq_iff j k, str_eq_iff k j), absent k keys (ground (arith, h)))

both_true : {a b : Bool} → a ≡ true → b ≡ false → (a && not b) ≡ true
both_true {a} {b} h k = ground (arith, h, k)

cleaned-kept :
    (k v : String) (keys : List (String × String))
    → mem_text k llm_providers ≡ true
    → strip v ≡ v
    → is_empty v ≡ false
    → cleaned ((k, v) ∷ keys) ≡ (k, some (strip v)) ∷ cleaned keys
unfolding cleaned
cleaned-kept k v keys known stripped full =
    ap (λ b. if b then (k, some (strip v)) ∷ cleaned keys else cleaned keys)
      (both_true known (ap (λ a. is_empty a) stripped ∙ full))

take_items-cleaned :
    (keys out : List (String × String))
    → IsClean keys
    → All (λ kv. get_key kv.0 out ≡ none) keys
    → take_items (cleaned keys) out ≡ out ++ keys
unfolding take_items cleaned IsClean
take_items-cleaned [] out h free = sym (append-nil out)
take_items-cleaned ((k, v) ∷ keys) out (known, stripped, full, apart, rest) free =
    let next = put_key k v out in
    let n = norm-listed k llm_providers registry_names known in
    let still : All (λ kv. get_key kv.0 next ≡ none) keys =
      All-map (λ kv both. get_key-put_key kv.0 k v out ∙ ground (arith, both.0, both.1)) keys
        (All-zip (λ kv. str_eq k kv.0 ≡ false) (λ kv. get_key kv.0 out ≡ none) keys
          (absent k keys apart) free.1) in
    let later = take_items-cleaned keys next rest still in
    let added : next ≡ out ++ (k, v) ∷ [] = put_key-new k v out free.0 in
    let full_once : is_empty (strip v) ≡ false = ap (λ a. is_empty a) stripped ∙ full in
    let full_twice : is_empty (strip (strip v)) ≡ false =
      ap (λ a. is_empty (strip a)) stripped ∙ full_once in
    let kept = cleaned-kept k v keys known stripped full in
    let passes = both_true (ap (λ m. mem_text m llm_providers) n ∙ known) full_twice in
    let first : take_items (cleaned ((k, v) ∷ keys)) out
        ≡ take_items (cleaned keys) (put_key (norm k) (strip (strip v)) out) =
      ap (λ i. take_items i out) kept
      ∙ ap
          (λ b.
            take_items (cleaned keys) (if b then put_key (norm k) (strip (strip v)) out else out))
          passes in
    first
    ∙ ap (λ a. take_items (cleaned keys) a)
        (ap (λ m. put_key m (strip (strip v)) out) n
          ∙ ap (λ m. put_key k m out) (ap strip stripped ∙ stripped))
    ∙ later
    ∙ ap (λ a. a ++ keys) added
    ∙ append_assoc out ((k, v) ∷ []) keys

-- a map is read back from what is stored for it
pub load-dump :
    (provider : String) (keys : List (String × String))
    → IsClean keys
    → load_llm_keys_map
        (record { llm_provider = provider; llm_key_encrypted = dump_llm_keys_map keys })
      ≡ keys
unfolding load_llm_keys_map dump_llm_keys_map cleaned IsClean take_items strip get_key
load-dump provider [] h = refl
load-dump provider ((k, v) ∷ keys) h =
    let all = (k, v) ∷ keys in
    let (known, stripped, full, apart, rest) = h in
    let kept = cleaned-kept k v keys known stripped full in
    ap
      (λ c. load_llm_keys_map (record {
        llm_provider = provider;
        llm_key_encrypted = if is_nil c then plain "" else object c;
      }))
      kept
    ∙ ap (λ c. take_items c []) (sym kept)
    ∙ take_items-cleaned all [] h (All_of (λ kv. get_key kv.0 [] ≡ none) all (λ kv. none_yet kv.0))
  where
    none_yet : (a : String) → get_key a [] ≡ none
    none_yet a = refl
