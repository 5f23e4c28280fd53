-- ===== src/RateLimit.antt =====
-- Fixed-window rate limits: app/rate_limit.py. The buckets are an association list; times are ℕ in
-- the unit of `window`. The Redis client is a parameter: `none` when none is configured, else what
-- the script's INCR returns, or a failure.
pub mod Window
pub mod Fallback
mod Examples
use vitae.Common.{
  ℕ, leb, not, true, ◌+◌, Bool, [], ltb, ◌∷◌, if◌then◌else◌, some, List, String, none, ◌==◌, Option,
  str_eq, ◌<>◌,
}
use vitae.Common.Text.{or_empty, is_empty}

-- a window's start and the requests counted in it
pub record Bucket : Type 0 where
  pub start : ℕ
  pub count : ℕ

-- `_buckets`
abbrev pub Buckets : Type 0
Buckets = List (String × Bucket)

-- `_buckets.get(key)`
pub lookup : String → Buckets → Option Bucket
lookup key [] = none
lookup key ((k, b) ∷ rest) = let found = lookup key rest in if str_eq k key then some b else found

-- `_buckets[key] = bucket`
pub assign : String → Bucket → Buckets → Buckets
assign key b [] = (key, b) ∷ []
assign key b ((k, c) ∷ rest) = if str_eq k key then (k, b) ∷ rest else (k, c) ∷ assign key b rest

-- The window that a request at `now` falls in (`now - start >= window` begins a new one), with the requests counted before it
abbrev pub current : ℕ → ℕ → Option Bucket → Bucket
current window now none = record { start = now; count = 0 }
current window now (some b) =
    if leb (b.start + window) now then record { start = now; count = 0 } else b

-- The bucket is written before the limit is tested; `false` stands for `RateLimitExceeded`.
pub check_local : String → ℕ → ℕ → ℕ → Buckets → Buckets × Bool
check_local key limit window now buckets =
    let b = current window now (lookup key buckets) in
    let counted = record b { count = b.count + 1 } in
    (assign key counted buckets, not (ltb limit counted.count))

-- what the Redis script answers for a key: the count after its INCR, or an exception
pub data Reply : Type 0 where
  incremented : ℕ → Reply
  unreachable : Reply

abbrev within : ℕ → ℕ → Bool
within limit count = not (ltb limit count)

pub check_rate_limit : Option (String → Reply) → String → ℕ → ℕ → ℕ → Buckets → Buckets × Bool
check_rate_limit client key limit window now buckets =
    if limit == 0 then (buckets, true) else elim client [
      | none ↦ check_local key limit window now buckets
      | some redis ↦ elim (redis ("vitae:rl:" <> key)) [
        | incremented n ↦ (buckets, within limit n)
        | unreachable ↦ check_local key limit window now buckets
      ]
    ]

-- `_client_key`: the user if the request has one, else the address
pub client_key : Option String → Option String → String → String
client_key user_id client_ip bucket =
    if is_empty (or_empty user_id)
    then bucket <> ":ip:" <> (elim client_ip [ none ↦ "unknown" | some ip ↦ ip ])
    else bucket <> ":user:" <> or_empty user_id

pub limit_for : String → ℕ
limit_for bucket =
    if str_eq bucket "auth"
    then 10
    else if str_eq bucket "paste"
    then 20
    else if str_eq bucket "ai"
    then 15
    else 60

-- the key that `enforce` counts under: the given user, the request's, or no one's
pub enforce_key : String → Option (Option String × Option String) → Option String → String
unfolding client_key
enforce_key bucket request user_id =
    if is_empty (or_empty user_id)
    then (elim request [
      | none ↦ bucket <> ":anonymous"
      | some (state_user, ip) ↦ client_key state_user ip bucket
    ])
    else bucket <> ":user:" <> or_empty user_id

-- `enforce`, with the default window of 60
pub enforce :
    Option (String → Reply)
    → String
    → Option (Option String × Option String)
    → Option String
    → ℕ
    → Buckets
    → Buckets × Bool
enforce client bucket request user_id now buckets =
    check_rate_limit client (enforce_key bucket request user_id) (limit_for bucket) 60 now buckets
