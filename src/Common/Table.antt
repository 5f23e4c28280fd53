-- ===== src/Common/Table.antt =====
-- Tables of rows under an integer primary key, as the ORM session shows them.
use Prim.Native.Nat.{ℕ, suc, ◌≤◌, ◌<◌}
use mathlib.Core.Bool.{Bool, true, false}
use mathlib.Core.List.{Memᴰ, List, [], ◌∷◌, ◌++◌}
use mathlib.Core.Logic.{inl, inr, ◌≢◌}
use mathlib.Core.Option.{Option, none, some}
use mathlib.Core.Path.{◌≡◌, refl, subst, sym, ap}
use native.Mathlib.Omega.{arith}
use vitae.Common.Lists.{All, count_if}
use vitae.Common.Tests.{Bool-cases, Option-cases, leb, ◌==◌, if◌then◌else◌}

pub record Keyed (A : Type 0) : Type 0 where
  pub id_of : A → ℕ

-- `next_id` is the value that the autoincrement column takes for the next row.
pub record Table (A : Type 0) : Type 0 where
  pub rows : List A
  pub next_id : ℕ

module _ {A : Type 0} ⦃k : Keyed A⦄ where
  -- `db.get(Row, id)`
  unfoldable pub get_row : ℕ → List A → Option A
  get_row i [] = none
  get_row i (r ∷ rs) = let rest = get_row i rs in if k.id_of r == i then some r else rest

  -- the rows after the attributes of the row with this id were assigned
  unfoldable pub put_row : A → List A → List A
  put_row a [] = []
  put_row a (r ∷ rs) = (if k.id_of r == k.id_of a then a else r) ∷ put_row a rs

  -- `query.filter(test).order_by(id.asc()).first()`
  unfoldable pub lowest : (A → Bool) → List A → Option A
  lowest test [] = none
  lowest test (r ∷ rs) =
      let rest = lowest test rs in
      if test r
      then (elim rest [
        | none ↦ some r
        | some s ↦ if leb (k.id_of r) (k.id_of s) then some r else some s
      ])
      else rest

  -- an assignment to some attributes of the row with this id
  unfoldable pub amend : ℕ → (A → A) → List A → List A
  amend i f [] = []
  amend i f (r ∷ rs) = (if k.id_of r == i then f r else r) ∷ amend i f rs

  abbrev pub get : ℕ → Table A → Option A
  get i t = get_row i t.rows

  abbrev pub save : A → Table A → Table A
  save a t = record t { rows = put_row a t.rows }

-- `db.add(row); db.flush()`, where the row is made from the id that it gets
abbrev pub insert : {A : Type 0} → (ℕ → A) → Table A → Table A
insert make t = record { rows = t.rows ++ make t.next_id ∷ []; next_id = suc t.next_id }

module _ {A : Type 0} ⦃k : Keyed A⦄ where
  pub id_of-get_row : (i : ℕ) (rs : List A) {a : A} → get_row i rs ≡ some a → k.id_of a ≡ i
  unfolding get_row
  id_of-get_row i [] {a} h = absurd (ground arith)
  id_of-get_row i (r ∷ rs) {a} h = ground (arith, id_of-get_row i rs {a = a})

  -- reading back after an assignment to one row
  pub get_row-put_row :
      (i : ℕ) (a : A) (rs : List A)
      → get_row i (put_row a rs) ≡ (
          if k.id_of a == i
          then (elim (get_row i rs) [ none ↦ none | some _ ↦ some a ])
          else get_row i rs)
  unfolding get_row put_row
  get_row-put_row i a [] = ground arith
  get_row-put_row i a (r ∷ rs) = ground (arith, get_row-put_row i a rs)

  pub All-put_row {κ} :
      (P : A → Type κ) (a : A) (rs : List A) → P a → All P rs → All P (put_row a rs)
  unfolding put_row
  All-put_row P a [] h hs = tt
  All-put_row P a (r ∷ rs) h hs = (ground arith, All-put_row P a rs h hs.1)

  pub All-get_row {κ} :
      (P : A → Type κ) (i : ℕ) (rs : List A) {a : A} → All P rs → get_row i rs ≡ some a → P a
  unfolding get_row
  All-get_row P i [] {a} hs h = absurd (ground arith)
  All-get_row P i (r ∷ rs) {a} hs h = ground (arith, All-get_row P i rs {a = a} hs.1)

  pub get_row-append :
      (i : ℕ) (rs ss : List A)
      → get_row i (rs ++ ss) ≡ (elim (get_row i rs) [ none ↦ get_row i ss | some a ↦ some a ])
  unfolding get_row
  get_row-append i [] ss = refl
  get_row-append i (r ∷ rs) ss = ground (arith, get_row-append i rs ss)

  pub put_row-same : (a : A) (rs : List A) → All (λ r. k.id_of r ≡ k.id_of a → r ≡ a) (put_row a rs)
  unfolding put_row
  put_row-same a [] = tt
  put_row-same a (r ∷ rs) = ((λ e. ground arith), put_row-same a rs)

  pub lowest-passes :
      (test : A → Bool) (rs : List A) {a : A} → lowest test rs ≡ some a → test a ≡ true
  unfolding lowest
  lowest-passes test [] {a} h = absurd (ground arith)
  lowest-passes test (r ∷ rs) {a} h = ground (arith, lowest-passes test rs {a = a})

  pub get_row-mem : (i : ℕ) (rs : List A) {a : A} → get_row i rs ≡ some a → Memᴰ a rs
  unfolding get_row
  get_row-mem i [] {a} h = absurd (ground arith)
  get_row-mem i (r ∷ rs) {a} h = elim (Bool-cases (k.id_of r == i)) [
    | inl e ↦ Memᴰ.head (ground arith)
    | inr e ↦ Memᴰ.tail (get_row-mem i rs {a = a} (ground arith))
  ]

  pub lowest-mem : (test : A → Bool) (rs : List A) {a : A} → lowest test rs ≡ some a → Memᴰ a rs
  unfolding lowest
  lowest-mem test [] {a} h = absurd (ground arith)
  lowest-mem test (r ∷ rs) {a} h = elim (Bool-cases (test r)) [
    | inr e ↦ Memᴰ.tail (lowest-mem test rs {a = a} (ground arith))
    | inl e ↦ elim (Option-cases (lowest test rs)) [
      | inl z ↦ Memᴰ.head (ground arith)
      | inr (b, z) ↦ elim (Bool-cases (leb (k.id_of r) (k.id_of b))) [
        | inl f ↦ Memᴰ.head (ground arith)
        | inr f ↦ Memᴰ.tail (lowest-mem test rs {a = a} (ground arith))
      ]
    ]
  ]

  pub mem-lowest :
      (test : A → Bool) (rs : List A) {a : A}
      → Memᴰ a rs
      → test a ≡ true
      → (b : A) × (lowest test rs ≡ some b)
  unfolding lowest
  mem-lowest test [] m h = elim m [ ]
  mem-lowest test (r ∷ rs) {a} (Memᴰ.head e) h = elim (Option-cases (lowest test (r ∷ rs))) [
    | inl z ↦ absurd (ground arith)
    | inr found ↦ found
  ]
  mem-lowest test (r ∷ rs) {a} (Memᴰ.tail m) h =
      let (b, below) = mem-lowest test rs {a = a} m h in
      elim (Option-cases (lowest test (r ∷ rs))) [
        | inl z ↦ absurd (ground arith)
        | inr found ↦ found
      ]

  pub put_row-mem :
      (a : A) (rs : List A) {r : A} → Memᴰ r rs → k.id_of r ≡ k.id_of a → Memᴰ a (put_row a rs)
  unfolding put_row
  put_row-mem a [] m e = elim m [ ]
  put_row-mem a (s ∷ rs) (Memᴰ.head p) e = Memᴰ.head (ground arith)
  put_row-mem a (s ∷ rs) {r} (Memᴰ.tail m) e = Memᴰ.tail (put_row-mem a rs {r = r} m e)

pub mem-append-last : {A : Type 0} (rs : List A) (a : A) → Memᴰ a (rs ++ a ∷ [])
mem-append-last [] a = Memᴰ.head refl
mem-append-last (r ∷ rs) a = Memᴰ.tail (mem-append-last rs a)

-- no two rows under one id, as a primary key promises
abbrev pub Distinct : {A : Type 0} ⦃k : Keyed A⦄ → List A → Type 0
Distinct [] = Unit
Distinct ⦃k⦄ (r ∷ rs) = All (λ s. k.id_of s ≢ k.id_of r) rs × Distinct rs

module _ {A : Type 0} ⦃k : Keyed A⦄ where
  put_row_ne : (a : A) (rs : List A) → All (λ s. k.id_of s ≢ k.id_of a) rs → put_row a rs ≡ rs
  unfolding put_row
  put_row_ne a [] h = refl
  put_row_ne a (r ∷ rs) h = ground (arith, h.0, put_row_ne a rs h.1)

  -- an assignment to one row makes at most one row fail a test
  pub count_if-put_row :
      (test : A → Bool) (a : A) (rs : List A)
      → Distinct rs
      → count_if test rs ≤ suc (count_if test (put_row a rs))
  unfolding put_row
  count_if-put_row test a [] d = ground arith
  count_if-put_row test a (r ∷ rs) d = elim (Bool-cases (k.id_of r == k.id_of a)) [
    | inl e ↦
        let same : k.id_of r ≡ k.id_of a = ground arith in
        ground (arith, put_row_ne a rs (subst (λ i. All (λ s. k.id_of s ≢ i) rs) same d.0))
    | inr e ↦ ground (arith, count_if-put_row test a rs d.1)
  ]

  pub count_if-lowest :
      (test : A → Bool) (rs : List A) → lowest test rs ≡ none → count_if test rs ≡ 0
  unfolding lowest
  count_if-lowest test [] e = refl
  count_if-lowest test (r ∷ rs) e = elim (Option-cases (lowest test rs)) [
    | inl z ↦ ground (arith, count_if-lowest test rs z)
    | inr (b, z) ↦ absurd (ground arith)
  ]

  -- what holds of the assigned row, and of each row under another id
  pub All-put_row_ne {κ} :
      (P : A → Type κ) (a : A) (rs : List A)
      → P a
      → All (λ r. k.id_of r ≢ k.id_of a → P r) rs
      → All P (put_row a rs)
  unfolding put_row
  All-put_row_ne P a [] h hs = tt
  All-put_row_ne P a (r ∷ rs) h hs = elim (Bool-cases (k.id_of r == k.id_of a)) [
    | inl e ↦
        let it : (if k.id_of r == k.id_of a then a else r) ≡ a = ground arith in
        (subst P (sym it) h, All-put_row_ne P a rs h hs.1)
    | inr e ↦
        let it : (if k.id_of r == k.id_of a then a else r) ≡ r = ground arith in
        (subst P (sym it) (hs.0 (ground arith)), All-put_row_ne P a rs h hs.1)
  ]

  pub All-amend {κ} :
      (P : A → Type κ) (i : ℕ) (f : A → A) (rs : List A)
      → ((a : A) → P a → P (f a))
      → All P rs
      → All P (amend i f rs)
  unfolding amend
  All-amend P i f [] keeps h = tt
  All-amend P i f (r ∷ rs) keeps h = (pick (k.id_of r == i), All-amend P i f rs keeps h.1)
    where
      pick : (t : Bool) → P (if t then f r else r)
      pick true = keeps r h.0
      pick false = h.0

  pub get_row-amend :
      (i j : ℕ) (f : A → A) (rs : List A)
      → ((a : A) → k.id_of (f a) ≡ k.id_of a)
      → get_row i (amend j f rs)
        ≡ (elim (get_row i rs) [ none ↦ none | some a ↦ some (if j == i then f a else a) ])
  unfolding get_row amend
  get_row-amend i j f [] keeps = refl
  get_row-amend i j f (r ∷ rs) keeps = ground (arith, keeps r, get_row-amend i j f rs keeps)

  pub mem-get_row : (rs : List A) {a : A} → Memᴰ a rs → (b : A) × (get_row (k.id_of a) rs ≡ some b)
  unfolding get_row
  mem-get_row [] m = elim m [ ]
  mem-get_row (r ∷ rs) {a} (Memᴰ.head e) = (r, ground (arith, ap k.id_of e))
  mem-get_row (r ∷ rs) {a} (Memᴰ.tail m) =
      let (b, found) = mem-get_row rs {a = a} m in
      elim (Bool-cases (k.id_of r == k.id_of a)) [
        | inl e ↦ (r, ground (arith, e))
        | inr e ↦ (b, ground (arith, e, found))
      ]

  pub get_row-none : (i : ℕ) (rs : List A) → All (λ r. k.id_of r < i) rs → get_row i rs ≡ none
  unfolding get_row
  get_row-none i [] h = refl
  get_row-none i (r ∷ rs) h = ground (arith, h.0, get_row-none i rs h.1)
