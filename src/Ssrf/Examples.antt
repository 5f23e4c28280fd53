-- ===== src/Ssrf/Examples.antt =====
-- Concrete fetches from a small network.
use vitae.Common.{
  if◌then◌else◌, length, String, ◌<◌, ◌≤◌, Memᴰ, none, str_eq, some, [], Option, ◌↔◌, ℕ, false,
  refl, ◌∷◌, true, ◌≡◌, ◌==◌,
}
use vitae.Common.Text.{strip, lower}
use vitae.Ssrf.{
  Net, Reply, v4, fetch_public_url, objection, page, peer_is_safe, ip_is_blocked, objects_to,
  host_is_blocked_literal, is_ip_safe, rounds, plain_host,
}
use vitae.Ssrf.Leads.{
  fetch_public_url-length, fetch_public_url-is_global, Leads, fetch_public_url_iff,
}

-- A library that knows two addresses.
abbrev net : Net
net = record {
  is_global = λ ip. ip.number == 134744072;
  ip_address = λ s.
      if str_eq s "8.8.8.8"
      then some (record { version = v4; number = 134744072 })
      else if str_eq s "10.0.0.1"
      then some (record { version = v4; number = 167772161 })
      else none;
  urlparse = λ s. some (record { scheme = "http"; netloc = s; hostname = some s });
  urljoin = λ base loc. loc;
}

-- One host redirects to an address, which has a page; another is inside.
abbrev get : String → Option Reply
get u =
    if str_eq u "jobs.io"
    then some (record {
      peer = none;
      url = u;
      is_redirect = true;
      location = some "8.8.8.8";
      is_error = false;
      body = "";
    })
    else if str_eq u "rebound.io"
    then some (record {
      peer = some "10.0.0.1";
      url = u;
      is_redirect = false;
      location = none;
      is_error = false;
      body = "secret";
    })
    else some (record {
      peer = some "8.8.8.8";
      url = u;
      is_redirect = false;
      location = none;
      is_error = false;
      body = "a job";
    })

-- a page after one redirect
two_requests : (fetch_public_url net get "jobs.io").requested ≡ "jobs.io" ∷ "8.8.8.8" ∷ []
unfolding fetch_public_url objection objects_to strip host_is_blocked_literal plain_host lower
    rounds peer_is_safe ip_is_blocked is_ip_safe
two_requests = refl

-- The transport refuses the answer of an inner address, to which the request has been sent by then.
rebound_sent : (fetch_public_url net get "rebound.io").requested ≡ "rebound.io" ∷ []
unfolding fetch_public_url objection objects_to strip host_is_blocked_literal plain_host lower
    rounds peer_is_safe is_ip_safe ip_is_blocked
rebound_sent = refl

fetch_public_url_iff_example : ((fetch_public_url net get "jobs.io").result ≡ page "a job") ↔ (
    (objection net (strip "jobs.io") ≡ none)
    × ((n : ℕ) × (n < 4) × Leads net get n (strip "jobs.io") "a job"))
fetch_public_url_iff_example = fetch_public_url_iff net get "jobs.io" "a job"

fetch_public_url-length_example : length (fetch_public_url net get "jobs.io").requested ≤ 4
fetch_public_url-length_example = fetch_public_url-length net get "jobs.io"

fetch_public_url-is_global_example :
    net.is_global (record { version = v4; number = 134744072 }) ≡ true
unfolding fetch_public_url objection objects_to strip host_is_blocked_literal plain_host lower
    rounds peer_is_safe ip_is_blocked is_ip_safe
fetch_public_url-is_global_example =
    fetch_public_url-is_global net get "jobs.io" "8.8.8.8" "8.8.8.8"
      (record { scheme = "http"; netloc = "8.8.8.8"; hostname = some "8.8.8.8" })
      (record { version = v4; number = 134744072 }) (Memᴰ.tail (Memᴰ.head refl)) refl refl refl
