-- ===== src/Ssrf/Leads.antt =====
-- What the fetch of a page that a user named can reach, and what it returns.
use vitae.Common.{
  none, true, some, length, arith, ◌<◌, All, ◌≤◌, suc, ℕ, Option, ◌≡◌, false, zero, String, inl,
  subst, Bool-cases, Option-cases, inr, Memᴰ, All-mem, ◌↔◌,
}
use vitae.Common.Text.{or_empty, is_empty, strip}
use vitae.Ssrf.{
  Net, Reply, page, objection, peer_is_safe, rounds, plain_host, ip_is_blocked, objects_to,
  fetch_public_url, Parsed, Ip, host_is_blocked_literal,
}

module _ (net : Net) (get : String → Option Reply) where
  -- Following redirects, each to a URL without objection and from a peer that is safe, leads from a
  -- URL to a page in so many steps.
  pub data Leads : ℕ → String → String → Type 0 where
    here :
        {u : String} {r : Reply}
        → get u ≡ some r
        → peer_is_safe net r ≡ true
        → r.is_redirect ≡ false
        → r.is_error ≡ false
        → Leads 0 u r.body
    hop :
        {n : ℕ} {u body : String} {r : Reply}
        → get u ≡ some r
        → peer_is_safe net r ≡ true
        → r.is_redirect ≡ true
        → is_empty (or_empty r.location) ≡ false
        → objection net (strip (net.urljoin r.url (or_empty r.location))) ≡ none
        → Leads n (strip (net.urljoin r.url (or_empty r.location))) body
        → Leads (suc n) u body

  rounds-Leads :
      {n : ℕ} {u body : String} (k : ℕ)
      → Leads n u body
      → n < k
      → (rounds net get k u).result ≡ page body
  unfolding rounds
  rounds-Leads zero l h = absurd (omega (arith, h))
  rounds-Leads (suc k) (here e safe stays fine) h = ground (arith, e, safe, stays, fine)
  rounds-Leads (suc k) (hop {n = m} e safe moves named clear l) h =
      let rest = rounds-Leads {n = m} k l (omega (arith, h)) in
      ground (arith, e, safe, moves, named, clear, rest)

  length-rounds : (k : ℕ) (u : String) → length (rounds net get k u).requested ≤ k
  unfolding rounds
  length-rounds zero u = omega arith
  length-rounds (suc k) u = elim (Option-cases (get u)) [
    | inl e ↦ ground (arith, e)
    | inr (r, e) ↦
        let raw = strip (net.urljoin r.url (or_empty r.location)) in
        ground (arith, e, length-rounds k raw)
  ]

  rounds-All :
      (k : ℕ) (u : String)
      → objection net u ≡ none
      → All (λ v. objection net v ≡ none) (rounds net get k u).requested
  unfolding rounds
  rounds-All zero u h = tt
  rounds-All (suc k) u h = elim (Option-cases (get u)) [
    | inl e ↦ ground (arith, e, h)
    | inr (r, e) ↦
        let raw = strip (net.urljoin r.url (or_empty r.location)) in
        ground (arith, e, h, rounds-All k raw)
  ]

  Leads-rounds :
      {body : String} (k : ℕ) (u : String)
      → (rounds net get k u).result ≡ page body
      → (n : ℕ) × (n < k) × Leads n u body
  unfolding rounds
  Leads-rounds {body = body} zero u h = absurd (ground (arith, h))
  Leads-rounds {body = body} (suc k) u h = elim (Option-cases (get u)) [
    | inl e ↦ absurd (ground (arith, e, h))
    | inr (r, e) ↦
        let raw = strip (net.urljoin r.url (or_empty r.location)) in
        let safe : peer_is_safe net r ≡ true = ground (arith, e, h) in
        elim (Bool-cases r.is_redirect) [
          | inr stays ↦
              let fine : r.is_error ≡ false = ground (arith, e, h, safe, stays) in
              let same : r.body ≡ body = ground (arith, e, h, safe, stays, fine) in
              (0, omega arith, subst (Leads 0 u) same (here e safe stays fine))
          | inl moves ↦
              let named : is_empty (or_empty r.location) ≡ false =
                ground (arith, e, h, safe, moves) in
              let clear : objection net raw ≡ none = ground (arith, e, h, safe, moves, named) in
              let (n, low, l) =
                Leads-rounds {body = body} k raw
                  (ground (arith, e, h, safe, moves, named, clear)) in
              (suc n, omega (arith, low), hop e safe moves named clear l)
        ]
  ]

  -- The fetch returns a page exactly if the URL, without the white space around it, meets no objection
  -- and fewer than four redirects lead from it to this page, each to a URL without objection, and every
  -- peer on the way is safe as far as its address can be read.
  pub fetch_public_url_iff :
      (url body : String)
      → ((fetch_public_url net get url).result ≡ page body)
        ↔ ((objection net (strip url) ≡ none) × ((n : ℕ) × (n < 4) × Leads n (strip url) body))
  unfolding fetch_public_url
  fetch_public_url_iff url body = elim (Option-cases (objection net (strip url))) [
    | inr (msg, e) ↦
        (λ h. absurd (ground (arith, e, h)), λ (clear, _). absurd (ground (arith, e, clear)))
    | inl e ↦ (
      λ h. (e, Leads-rounds {body = body} 4 (strip url) (ground (arith, e, h))),
      λ (_, (n, low, l)). ground (arith, e, rounds-Leads {n = n} 4 l low),
    )
  ]

  requests :
      (url : String)
      → All (λ v. objection net v ≡ none) (fetch_public_url net get url).requested
        × (length (fetch_public_url net get url).requested ≤ 4)
  unfolding fetch_public_url
  requests url = elim (Option-cases (objection net (strip url))) [
    | inr (msg, e) ↦ (ground (arith, e), ground (arith, e))
    | inl e ↦ (
      ground (arith, e, rounds-All 4 (strip url) e),
      ground (arith, e, length-rounds 4 (strip url)),
    )
  ]

  -- A fetch sends at most four requests.
  pub fetch_public_url-length : (url : String) → length (fetch_public_url net get url).requested ≤ 4
  fetch_public_url-length url = (requests url).1

  -- Whatever the servers answer, no request is sent to a URL whose host is written as an address that
  -- is not global.
  pub fetch_public_url-is_global :
      (url v host : String) (parsed : Parsed) (ip : Ip)
      → Memᴰ v (fetch_public_url net get url).requested
      → net.urlparse v ≡ some parsed
      → parsed.hostname ≡ some host
      → net.ip_address (plain_host host) ≡ some ip
      → net.is_global ip ≡ true
  unfolding objection objects_to host_is_blocked_literal ip_is_blocked
  fetch_public_url-is_global url v host parsed ip m splits named reads =
      let clear = All-mem (λ w. objection net w ≡ none) _ (requests url).0 m in
      ground (arith, clear, splits, named, reads)
