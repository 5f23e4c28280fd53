-- ===== src/Llm/Fallback.antt =====
-- What a call of a language model does when providers fail.
use mathlib.Core.List.{append_assoc, append-nil}
use vitae.Common.{
  ◌++◌, refl, ◌∷◌, ◌⊎◌, inl, suc, List, inr, Option, some, String, ℕ, [], ◌≡◌, arith, ap, none,
  true, sym,
}
use vitae.Common.Table.{Table}
use vitae.Common.Text.{clip}
use vitae.Llm.{
  failed, Ask, record_request, Reply, World, LlmRequest, answered, LlmCreds, try_all, chain_for,
  llm_complete, Settings,
}

-- the text of the first provider that answers, from the n-th one on
abbrev pub first_answer : World → ℕ → List LlmCreds → Option String
first_answer w n [] = none
first_answer w n (c ∷ cs) =
    let rest = first_answer w (suc n) cs in
    elim (w.dispatch n c) [ answered text ↦ some text | failed kind ↦ rest ]

-- the providers up to the first one that answers, each with how its call ended
abbrev pub asked : World → ℕ → List LlmCreds → List (String × String)
asked w n [] = []
asked w n (c ∷ cs) =
    let rest = asked w (suc n) cs in
    elim (w.dispatch n c) [
      | answered text ↦ (clip 64 c.provider, "success") ∷ []
      | failed kind ↦ (clip 64 c.provider, "error") ∷ rest
    ]

abbrev pub ends : List LlmRequest → List (String × String)
ends [] = []
ends (r ∷ rs) = (r.provider, r.status) ∷ ends rs

abbrev pub text_of : Reply → Option String
text_of (answered text) = some text
text_of (failed kind) = none

ends-append :
    (rs : List LlmRequest) (r : LlmRequest)
    → ends (rs ++ r ∷ []) ≡ ends rs ++ (r.provider, r.status) ∷ []
ends-append [] r = refl
ends-append (q ∷ rs) r = ap (λ es. (q.provider, q.status) ∷ es) (ends-append rs r)

Reply-cases : (r : Reply) → ((x : String) × (r ≡ answered x)) ⊎ ((x : String) × (r ≡ failed x))
Reply-cases (answered x) = inl (x, refl)
Reply-cases (failed x) = inr (x, refl)

module _ (w : World) (q : Ask) (falls : q.allow_fallback ≡ true)
    (stores : (n : ℕ) → w.stores n ≡ true) where
  noted-answered :
      (n : ℕ) (c : LlmCreds) (x : String) (t : Table LlmRequest)
      → ends (record_request w q n c (answered x) t).rows
        ≡ ends t.rows ++ (clip 64 c.provider, "success") ∷ []
  unfolding record_request
  noted-answered n c x t = grind (arith, stores n, ends-append)

  noted-failed :
      (n : ℕ) (c : LlmCreds) (x : String) (t : Table LlmRequest)
      → ends (record_request w q n c (failed x) t).rows
        ≡ ends t.rows ++ (clip 64 c.provider, "error") ∷ []
  unfolding record_request
  noted-failed n c x t = grind (arith, stores n, ends-append)

  try_all_lem :
      (n : ℕ) (cs : List LlmCreds) (t : Table LlmRequest)
      → let done = try_all w q n cs t in
        (text_of done.1 ≡ first_answer w n cs) × (ends done.0.rows ≡ ends t.rows ++ asked w n cs)
  unfolding try_all
  try_all_lem n [] t = (refl, sym (append-nil (ends t.rows)))
  try_all_lem n (c ∷ []) t = elim (Reply-cases (w.dispatch n c)) [
    | inl (x, e) ↦ (ground (arith, e), ground (arith, e, noted-answered n c x t))
    | inr (x, e) ↦ (ground (arith, e), ground (arith, e, noted-failed n c x t))
  ]
  try_all_lem n (c ∷ d ∷ ds) t = elim (Reply-cases (w.dispatch n c)) [
    | inl (x, e) ↦ (ground (arith, e), ground (arith, e, noted-answered n c x t))
    | inr (x, e) ↦
        let noted = record_request w q n c (failed x) t in
        let (text, logged) = try_all_lem (suc n) (d ∷ ds) noted in
        let joined =
          append_assoc (ends t.rows) ((clip 64 c.provider, "error") ∷ [])
            (asked w (suc n) (d ∷ ds)) in
        (
          ground (arith, e, falls, text),
          ground (arith, e, falls, logged, noted-failed n c x t, joined),
        )
  ]

-- With fallback and a table of records that can always be stored, a call returns the text of the first
-- provider of its chain that answers, and raises only if none does; each provider up to this one is
-- asked once, in the order of the chain, and its call recorded as an error or, the last, a success.
pub llm_complete-falls_back :
    (w : World) (s : Settings) (creds : Option LlmCreds) (q : Ask) (t : Table LlmRequest)
    → q.allow_fallback ≡ true
    → ((n : ℕ) → w.stores n ≡ true)
    → let done = llm_complete w s creds q t in
      let chain = chain_for s creds in
      (text_of done.1 ≡ first_answer w 0 chain)
      × (ends done.0.rows ≡ ends t.rows ++ asked w 0 chain)
unfolding llm_complete
llm_complete-falls_back w s creds q t falls stores =
    try_all_lem w q falls stores 0 (chain_for s creds) t
