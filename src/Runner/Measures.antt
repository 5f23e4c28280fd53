-- ===== src/Runner/Measures.antt =====
-- app/worker_metrics.py: the counts of outcomes and the window of latencies.
use vitae.Common.{
  List, some, ℕ, str_eq, ◌<>◌, ◌-◌, ◌++◌, ◌==◌, suc, inr, none, ◌/◌, if◌then◌else◌, ◌≡◌, arith,
  String, ltb, refl, [], zero, Option, length, ◌*◌, leb, inl, ◌<◌, drop, ◌∷◌, Bool-cases, ◌≤◌,
}
use vitae.Common.Sort.{sort_by}

pub record Metrics : Type 0 where
  pub counts : List (String × ℕ)
  pub latencies : List ℕ

abbrev pub window : ℕ
window = 5000

-- `_counts[key] += 1`
unfoldable pub count_up : String → List (String × ℕ) → List (String × ℕ)
count_up key [] = (key, 1) ∷ []
count_up key ((k, n) ∷ rest) =
    let more = count_up key rest in if str_eq k key then (k, suc n) ∷ rest else (k, n) ∷ more

-- `record`
unfoldable pub measure : String → String → ℕ → Metrics → Metrics
measure kind status duration_ms m =
    let longer = m.latencies ++ duration_ms ∷ [] in
    record {
      counts = count_up (kind <> ":" <> status) m.counts;
      latencies =
          if ltb window (length longer) then drop (length longer - window) longer else longer;
    }

-- the element at an index of a list, if there is one
unfoldable pub nth {ℓ} : {A : Type ℓ} → ℕ → List A → Option A
nth n [] = none
nth zero (x ∷ xs) = some x
nth (suc n) (x ∷ xs) = nth n xs

-- `values[int(len(values) * 0.95) - 1] if values else 0`; the index -1 is the last one
unfoldable pub p95 : Metrics → Option ℕ
p95 m =
    let values = sort_by leb m.latencies in
    let n = length values in
    let i = n * 95 / 100 in
    if n == 0 then some 0 else if i == 0 then nth (n - 1) values else nth (i - 1) values

pub length-drop {ℓ} : {A : Type ℓ} (n : ℕ) (xs : List A) → length (drop n xs) ≡ length xs - n
length-drop zero xs = omega arith
length-drop (suc n) [] = omega arith
length-drop (suc n) (x ∷ xs) = omega (arith, length-drop n xs)

-- Whatever is measured, the window of latencies has at most 5000 of them.
pub length-measure :
    (kind status : String) (duration_ms : ℕ) (m : Metrics)
    → length (measure kind status duration_ms m).latencies ≤ window
unfolding measure
length-measure kind status duration_ms m =
    let longer = m.latencies ++ duration_ms ∷ [] in
    ground (arith, length-drop (length longer - window) longer)

nth-below {ℓ} : {A : Type ℓ} (n : ℕ) (xs : List A) → n < length xs → (x : A) × (nth n xs ≡ some x)
unfolding nth
nth-below n [] h = absurd (omega (arith, h))
nth-below zero (x ∷ xs) h = (x, refl)
nth-below (suc n) (x ∷ xs) h = nth-below n xs (omega (arith, h))

-- The 95th percentile is always defined: its index is in range however many latencies there are.
pub p95-defined : (m : Metrics) → (v : ℕ) × (p95 m ≡ some v)
unfolding p95
p95-defined m =
    let values = sort_by leb m.latencies in
    let n = length values in
    elim (Bool-cases (n == 0)) [
      | inl e ↦ (0, ground (arith, e))
      | inr e ↦ elim (Bool-cases (n * 95 / 100 == 0)) [
        | inl z ↦
            let (v, at) = nth-below (n - 1) values (ground (arith, e)) in
            (v, ground (arith, e, z, at))
        | inr z ↦
            let (v, at) = nth-below (n * 95 / 100 - 1) values (ground (arith, e, z)) in
            (v, ground (arith, e, z, at))
      ]
    ]
