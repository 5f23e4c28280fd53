-- ===== src/RateLimit/Window.antt =====
-- What the local limiter admits.
use vitae.Common.{
  ◌≤◌, ◌≡◌, some, ◌+◌, arith, ℕ, min, not, ◌∷◌, ◌-◌, ◌<◌, length, ltb, str_eq_refl, List, [], suc,
  if◌then◌else◌, String, str_eq, str_eq_iff, All, refl, ◌≢◌,
}
use vitae.RateLimit.{Buckets, lookup, check_local, assign, Bucket, current}

pub lookup-assign :
    (key j : String) (b : Bucket) (buckets : Buckets)
    → lookup j (assign key b buckets) ≡ (if str_eq key j then some b else lookup j buckets)
unfolding lookup assign
lookup-assign key j b [] = ground arith
lookup-assign key j b ((k, c) ∷ rest) =
    ground (arith, lookup-assign key j b rest, str_eq_iff k key, str_eq_iff k j, str_eq_iff key j)

-- Requests of one key at the given times, one after another: the buckets after them and how many
-- were admitted.
unfoldable pub serve : String → ℕ → ℕ → List ℕ → Buckets → Buckets × ℕ
serve key limit window [] buckets = (buckets, 0)
serve key limit window (now ∷ times) buckets =
    let (after, admitted) = check_local key limit window now buckets in
    let (last, count) = serve key limit window times after in
    (last, if admitted then suc count else count)

-- all the times lie in the window that began at `start`
abbrev pub InWindow : ℕ → ℕ → List ℕ → Type 0
InWindow start window = All (λ now. (start ≤ now) × (now < start + window))

counted_on :
    (key : String) (limit window now : ℕ) (b : Bucket) (buckets : Buckets)
    → lookup key buckets ≡ some b
    → now < b.start + window
    → let (after, admitted) = check_local key limit window now buckets in
      (lookup key after ≡ some (record b { count = b.count + 1 }))
      × (admitted ≡ not (ltb limit (b.count + 1)))
unfolding check_local
counted_on key limit window now b buckets h lt =
    let same : current window now (lookup key buckets) ≡ b = rw h (ground arith) in
    rw (same, lookup-assign, str_eq_refl) (refl, refl)

serve-from :
    (key : String) (limit window : ℕ) (times : List ℕ) (b : Bucket) (buckets : Buckets)
    → lookup key buckets ≡ some b
    → InWindow b.start window times
    → (serve key limit window times buckets).1 ≡ min (length times) (limit - b.count)
unfolding serve
serve-from key limit window [] b buckets h w = omega arith
serve-from key limit window (now ∷ times) b buckets h w =
    let (stored, admitted) = counted_on key limit window now b buckets h w.0.1 in
    let after = (check_local key limit window now buckets).0 in
    let rest =
      serve-from key limit window times (record b { count = b.count + 1 }) after stored w.1 in
    rw (admitted, rest) (ground arith)

-- the request at `now` opens a window for the key
abbrev pub Opens : String → ℕ → ℕ → Buckets → Type 0
Opens key window now buckets =
    current window now (lookup key buckets) ≡ record { start = now; count = 0 }

opened :
    (key : String) (limit window now : ℕ) (buckets : Buckets)
    → Opens key window now buckets
    → let (after, admitted) = check_local key limit window now buckets in
      (lookup key after ≡ some (record { start = now; count = 1 })) × (admitted ≡ not (ltb limit 1))
unfolding check_local
opened key limit window now buckets h = rw (h, lookup-assign, str_eq_refl) (refl, refl)

-- Of the requests of one key that fall into one window, the one that opens it first, as many are
-- admitted as the limit allows, and no more.
pub serve_window :
    (key : String) (limit window now : ℕ) (times : List ℕ) (buckets : Buckets)
    → Opens key window now buckets
    → InWindow now window times
    → (serve key limit window (now ∷ times) buckets).1 ≡ min (length times + 1) limit
unfolding serve
serve_window key limit window now times buckets h w =
    let (stored, admitted) = opened key limit window now buckets h in
    let after = (check_local key limit window now buckets).0 in
    let rest =
      serve-from key limit window times (record { start = now; count = 1 }) after stored w in
    rw (admitted, rest) (ground arith)

-- A request leaves the buckets of all other keys as they were, whether it is admitted or not.
pub check_local_isolated :
    (key j : String) (limit window now : ℕ) (buckets : Buckets)
    → key ≢ j
    → lookup j (check_local key limit window now buckets).0 ≡ lookup j buckets
unfolding check_local
check_local_isolated key j limit window now buckets h = ground (
  arith,
  str_eq_iff key j,
  lookup-assign key j
      (record (current window now (lookup key buckets)) {
        count = (current window now (lookup key buckets)).count + 1;
      })
      buckets,
)
