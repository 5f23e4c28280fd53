-- ===== src/Ssrf.antt =====
-- app/ssrf.py: the checks of a URL that a user gave, and the fetch that follows redirects. The
-- parsers of addresses and URLs and the network are parameters.
pub mod Leads
mod Examples
use Prim.Native.Char.{code}
use vitae.Common.{
  ◌∷◌, ◌^◌, not, zero, some, ℕ, Option, Bool, if◌then◌else◌, ◌-◌, none, suc, ◌==◌, false, ◌||◌,
  str_eq, true, List, ◌&&◌, String, [], ◌/◌,
}
use vitae.Common.Table.{get}
use vitae.Common.Text.{lower, is_empty, or_empty, strip}

pub data Version : Type 0 where
  v4 v6 : Version

-- an address as the number that it stands for
pub record Ip : Type 0 where
  pub version : Version
  pub number : ℕ

record Network : Type 0 where
  version : Version
  base : ℕ
  prefix : ℕ

-- `_BLOCKED_NETWORKS`
blocked_networks : List Network
blocked_networks =
    record { version = v4; base = 2130706432; prefix = 8 }
    ∷ record { version = v4; base = 167772160; prefix = 8 }
    ∷ record { version = v4; base = 2886729728; prefix = 12 }
    ∷ record { version = v4; base = 3232235520; prefix = 16 }
    ∷ record { version = v4; base = 2851995648; prefix = 16 }
    ∷ record { version = v4; base = 2852039166; prefix = 32 }
    ∷ record { version = v4; base = 1681915904; prefix = 10 }
    ∷ record { version = v4; base = 0; prefix = 8 }
    ∷ record { version = v6; base = 1; prefix = 128 }
    ∷ record { version = v6; base = 334965454937798799971759379190646833152; prefix = 7 }
    ∷ record { version = v6; base = 338288524927261089654018896841347694592; prefix = 10 }
    ∷ []

same_version : Version → Version → Bool
same_version v4 v4 = true
same_version v6 v6 = true
same_version _ _ = false

bits : Version → ℕ
bits v4 = 32
bits v6 = 128

-- `ip in net`: the first bits agree
in_network : Ip → Network → Bool
unfolding same_version bits
in_network ip net =
    let unit = 2 ^ (bits net.version - net.prefix) in
    same_version ip.version net.version && ip.number / unit == net.base / unit

in_any : Ip → List Network → Bool
unfolding in_network
in_any ip [] = false
in_any ip (net ∷ nets) = in_network ip net || in_any ip nets

-- What `urlparse` finds, unless it raises `ValueError`.
pub record Parsed : Type 0 where
  pub scheme : String
  pub netloc : String
  pub hostname : Option String

-- An answer of the server, with the address of the peer where the transport can read it.
pub record Reply : Type 0 where
  pub peer : Option String
  pub url : String
  pub is_redirect : Bool
  pub location : Option String
  pub is_error : Bool
  pub body : String

pub data Fetched : Type 0 where
  page : String → Fetched
  -- `ValueError`
  not_allowed : String → Fetched
  -- what the client raises: no connection, or an error status
  http_error : Fetched

-- the URLs that were requested, in their order, and the end
pub record Visit : Type 0 where
  pub requested : List String
  pub result : Fetched

-- `s.endswith(w)`
ends_with : String → String → Bool
ends_with w String.[] = str_eq w ""
ends_with w (String.◌∷◌ c s) = str_eq w (String.◌∷◌ c s) || ends_with w s

-- `s.rstrip(".")`
drop_dots : String → String
drop_dots String.[] = String.[]
drop_dots (String.◌∷◌ c s) =
    let rest = drop_dots s in
    if code c == b'.' && is_empty rest then String.[] else String.◌∷◌ c rest

-- the host as it is compared
unfoldable pub plain_host : String → String
unfolding drop_dots
plain_host hostname = drop_dots (lower (strip hostname))

-- What the standard library knows of addresses and URLs.
pub record Net : Type 0 where
  pub is_global : Ip → Bool
  pub ip_address : String → Option Ip
  pub urlparse : String → Option Parsed
  pub urljoin : String → String → String

module _ (net : Net) where
  -- `_ip_is_blocked`
  unfoldable pub ip_is_blocked : Ip → Bool
  unfolding in_any blocked_networks
  ip_is_blocked ip = if not (net.is_global ip) then true else in_any ip blocked_networks

  -- `_assert_ip_safe`, as a test
  unfoldable pub is_ip_safe : String → Bool
  is_ip_safe addr = elim (net.ip_address addr) [ none ↦ false | some ip ↦ not (ip_is_blocked ip) ]

  -- `_host_is_blocked_literal`
  unfoldable pub host_is_blocked_literal : String → Bool
  unfolding ends_with
  host_is_blocked_literal hostname =
      let host = plain_host hostname in
      let listed =
        str_eq host "localhost"
        || str_eq host "localhost."
        || str_eq host "metadata.google.internal"
        || str_eq host "metadata.google.internal." in
      if is_empty host || listed || ends_with ".localhost" host
      then true
      else (elim (net.ip_address host) [ none ↦ false | some ip ↦ ip_is_blocked ip ])

  -- the conditions on what is parsed: no message if they hold
  unfoldable pub objects_to : Parsed → Option String
  objects_to parsed =
      let web = str_eq parsed.scheme "http" || str_eq parsed.scheme "https" in
      let host = or_empty parsed.hostname in
      if not web || is_empty parsed.netloc
      then some "Only public http(s) job URLs are allowed"
      else if is_empty host || host_is_blocked_literal host
      then some "URL host is not allowed"
      else none

  -- `assert_safe_fetch_url` of a stripped URL
  unfoldable pub objection : String → Option String
  objection raw = elim (net.urlparse raw) [ none ↦ some "Invalid URL" | some p ↦ objects_to p ]

  -- `_SSRFSafeTransport`: the peer is looked at once the response is there
  unfoldable pub peer_is_safe : Reply → Bool
  peer_is_safe reply = elim reply.peer [
    | none ↦ true
    | some addr ↦ is_empty addr || is_ip_safe addr
  ]

  module _ (get : String → Option Reply) where
    -- the rounds of the loop that are left, at the URL `current`
    unfoldable pub rounds : ℕ → String → Visit
    rounds zero current = record { requested = []; result = not_allowed "Too many redirects" }
    rounds (suc n) current =
        let ends : Fetched → Visit = λ f. record { requested = current ∷ []; result = f } in
        elim (get current) [
          | none ↦ ends http_error
          | some reply ↦
              let loc = or_empty reply.location in
              let raw = strip (net.urljoin reply.url loc) in
              let visit = rounds n raw in
              if not (peer_is_safe reply)
              then ends (not_allowed "Connection to private/reserved address is not allowed")
              else if reply.is_redirect
              then (if is_empty loc
                  then ends (not_allowed "Redirect without location")
                  else (elim (objection raw) [
                    | some msg ↦ ends (not_allowed msg)
                    | none ↦ record visit { requested = current ∷ visit.requested }
                  ]))
              else if reply.is_error
              then ends http_error
              else ends (page reply.body)
        ]

    unfoldable pub fetch_public_url : String → Visit
    fetch_public_url url =
        let raw = strip url in
        elim (objection raw) [
          | some msg ↦ record { requested = []; result = not_allowed msg }
          | none ↦ rounds 4 raw
        ]
