-- ===== src/RateLimit/Fallback.antt =====
-- The choice between Redis and the local buckets, and the limits by name.
use vitae.Common.{
  List, ◌<>◌, if◌then◌else◌, [], suc, ◌≡◌, Option, none, arith, ℕ, String, some, ◌∷◌, ◌==◌, false,
  ◌+◌, refl, min, length,
}
use vitae.RateLimit.{
  enforce, Reply, limit_for, enforce_key, unreachable, Buckets, check_local, check_rate_limit,
}
use vitae.RateLimit.Window.{Opens, serve_window, serve, InWindow}

-- With Redis out of reach a request is counted locally, as with no Redis at all.
pub unreachable_redis :
    (key : String) (limit window now : ℕ) (buckets : Buckets) (redis : String → Reply)
    → redis ("vitae:rl:" <> key) ≡ unreachable
    → check_rate_limit (some redis) key limit window now buckets
      ≡ check_rate_limit none key limit window now buckets
unfolding check_rate_limit
unreachable_redis key limit window now buckets redis h = rw h (ground arith)

limit_for-pos : (bucket : String) → (limit_for bucket == 0) ≡ false
unfolding limit_for
limit_for-pos bucket = ground arith

-- Requests of one origin at the given times, as routes with `enforce` see them.
unfoldable pub enforce_all :
    Option (String → Reply)
    → String
    → Option (Option String × Option String)
    → Option String
    → List ℕ
    → Buckets
    → Buckets × ℕ
enforce_all client bucket request user_id [] buckets = (buckets, 0)
enforce_all client bucket request user_id (now ∷ times) buckets =
    let (after, admitted) = enforce client bucket request user_id now buckets in
    let (last, count) = enforce_all client bucket request user_id times after in
    (last, if admitted then suc count else count)

-- no Redis, or one that does not answer for this key
abbrev pub Local : Option (String → Reply) → String → Type 0
Local none key = Unit
Local (some redis) key = redis ("vitae:rl:" <> key) ≡ unreachable

enforce-check_local :
    (client : Option (String → Reply)) (bucket : String)
    (request : Option (Option String × Option String)) (user_id : Option String) (now : ℕ)
    (buckets : Buckets)
    → Local client (enforce_key bucket request user_id)
    → enforce client bucket request user_id now buckets
      ≡ check_local (enforce_key bucket request user_id) (limit_for bucket) 60 now buckets
unfolding enforce check_rate_limit
enforce-check_local none bucket request user_id now buckets h = rw (limit_for-pos bucket)
enforce-check_local (some redis) bucket request user_id now buckets h = rw (limit_for-pos bucket, h)

enforce_all-serve :
    (client : Option (String → Reply)) (bucket : String)
    (request : Option (Option String × Option String)) (user_id : Option String) (times : List ℕ)
    (buckets : Buckets)
    → Local client (enforce_key bucket request user_id)
    → enforce_all client bucket request user_id times buckets
      ≡ serve (enforce_key bucket request user_id) (limit_for bucket) 60 times buckets
unfolding enforce_all serve
enforce_all-serve client bucket request user_id [] buckets h = refl
enforce_all-serve client bucket request user_id (now ∷ times) buckets h =
    let after =
      (check_local (enforce_key bucket request user_id) (limit_for bucket) 60 now buckets).0 in
    rw (
      enforce-check_local client bucket request user_id now buckets h,
      enforce_all-serve client bucket request user_id times after h,
    )

-- Without Redis, or while it does not answer, of the requests of one origin to one named limit in the
-- sixty units of time from a request that opens a window, exactly so many pass as the name allows:
-- 10 for auth, 20 for paste, 15 for ai, 60 otherwise.
pub enforce_admits :
    (client : Option (String → Reply)) (bucket : String)
    (request : Option (Option String × Option String)) (user_id : Option String) (now : ℕ)
    (times : List ℕ) (buckets : Buckets)
    → Local client (enforce_key bucket request user_id)
    → Opens (enforce_key bucket request user_id) 60 now buckets
    → InWindow now 60 times
    → (enforce_all client bucket request user_id (now ∷ times) buckets).1
      ≡ min (length times + 1) (limit_for bucket)
enforce_admits client bucket request user_id now times buckets away opens w =
    rw (enforce_all-serve client bucket request user_id (now ∷ times) buckets away) (
      serve_window (enforce_key bucket request user_id) (limit_for bucket) 60 now times buckets
        opens w)
