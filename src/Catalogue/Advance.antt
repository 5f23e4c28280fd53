-- ===== src/Catalogue/Advance.antt =====
-- What a sync may do to a stored listing: leave it, or see it again.
use vitae.Catalogue.{
  has_origin, RawJob, new_public_listing, upsert_public_listing, reopen, take_details,
  ensure_listing_public_id, refresh_listing,
}
use vitae.Catalogue.Sources.{keyed_job_source}
use vitae.Catalogue.Sync.{merge_listing, indexed, place_job, Progress, known_url}
use vitae.Catalogue.Urls.{canonical_url}
use vitae.Common.{
  Memᴰ, refl, arith, Bool, inr, ◌∷◌, All, inl, ◌∙◌, subst, ◌⊎◌, if◌then◌else◌, ◌≡◌, true, ◌≤◌, ◌==◌,
  false, some, [], ℕ, ◌<◌, String, All-map, find_first, none, All-append, sym, find_first-mem,
  Option, Option-cases,
}
use vitae.Common.Table.{
  Table, get_row-append, get_row-amend, get_row, get, mem-get_row, get_row-none, amend, insert,
  All-amend, get_row-mem,
}
use vitae.Models.ListingRows.{JobListing, keyed_job_listing}

-- Open, and seen since the sync began.
pub record IsFresh (started : ℕ) (l : JobListing) : Type 0 where
  pub active : l.is_active ≡ true
  pub seen : started ≤ l.last_seen_at

-- The ids of the rows are below the next one.
abbrev pub IsBounded : Table JobListing → Type 0
IsBounded t = All (λ l. l.id < t.next_id) t.rows

-- the row with this id is fresh
abbrev pub FreshAt : ℕ → ℕ → Table JobListing → Type 0
FreshAt started i t = (l : JobListing) × (get i t ≡ some l) × IsFresh started l

-- Each row is still there, unchanged or fresh.
abbrev pub Advances : ℕ → Table JobListing → Table JobListing → Type 0
Advances started t u =
    (i : ℕ) (l : JobListing)
    → get i t ≡ some l
    → (m : JobListing) × (get i u ≡ some m) × ((l ≡ m) ⊎ IsFresh started m)

pub Advances-refl : (started : ℕ) (t : Table JobListing) → Advances started t t
Advances-refl started t i l h = (l, h, inl refl)

pub Advances-trans :
    (started : ℕ) (t u v : Table JobListing)
    → Advances started t u
    → Advances started u v
    → Advances started t v
Advances-trans started t u v f g i l h =
    let (m, at_m, early) = f i l h in
    let (n, at_n, late) = g i m at_m in
    (
      n,
      at_n,
      elim late [
        | inr fresh ↦ inr fresh
        | inl same ↦ elim early [
          | inl e ↦ inl (e ∙ same)
          | inr fresh ↦ inr (subst (IsFresh started) same fresh)
        ]
      ],
    )

pub FreshAt-Advances :
    (started i : ℕ) (t u : Table JobListing)
    → FreshAt started i t
    → Advances started t u
    → FreshAt started i u
FreshAt-Advances started i t u (l, at_l, fresh) f =
    let (m, at_m, how) = f i l at_l in
    (m, at_m, elim how [ inl e ↦ subst (IsFresh started) e fresh | inr again ↦ again ])

module _ (started now : ℕ) (late : started ≤ now) where
  -- an assignment that makes its row fresh
  amend-Advances :
      (t : Table JobListing) (j : ℕ) (f : JobListing → JobListing)
      → ((l : JobListing) → (f l).id ≡ l.id)
      → ((l : JobListing) → IsFresh started (f l))
      → Advances started t (record t { rows = amend j f t.rows })
  amend-Advances t j f keeps fresh i l h =
      let after = get_row-amend i j f t.rows keeps in
      let found : get_row i (amend j f t.rows) ≡ some (if j == i then f l else l) =
        ground (arith, after, h) in
      (_, found, pick (j == i))
    where
      pick : (b : Bool) → (l ≡ (if b then f l else l)) ⊎ IsFresh started (if b then f l else l)
      pick true = inr (fresh l)
      pick false = inl refl

  amend-FreshAt :
      (t : Table JobListing) (l : JobListing) (f : JobListing → JobListing)
      → ((m : JobListing) → (f m).id ≡ m.id)
      → ((m : JobListing) → IsFresh started (f m))
      → Memᴰ l t.rows
      → FreshAt started l.id (record t { rows = amend l.id f t.rows })
  amend-FreshAt t l f keeps fresh m =
      let (b, at_b) = mem-get_row t.rows {a = l} m in
      let after = get_row-amend l.id l.id f t.rows keeps in
      (f b, ground (arith, after, at_b), fresh b)

  insert-Advances :
      (t : Table JobListing) (make : ℕ → JobListing) → Advances started t (insert make t)
  insert-Advances t make i l h =
      (l, ground (arith, h, get_row-append i t.rows (make t.next_id ∷ [])), inl refl)

  insert-FreshAt :
      (t : Table JobListing) (make : ℕ → JobListing)
      → IsBounded t
      → (make t.next_id).id ≡ t.next_id
      → IsFresh started (make t.next_id)
      → FreshAt started t.next_id (insert make t)
  unfolding get_row
  insert-FreshAt t make b same fresh =
      let none_yet = get_row-none t.next_id t.rows b in
      (
        make t.next_id,
        ground (arith, same, none_yet, get_row-append t.next_id t.rows (make t.next_id ∷ [])),
        fresh,
      )

  merge_listing-IsFresh :
      (raw : RawJob) (l : JobListing) → IsFresh started (merge_listing raw now l)
  unfolding merge_listing reopen
  merge_listing-IsFresh raw l = record { active = refl; seen = late }

  merge_listing-id : (raw : RawJob) (l : JobListing) → (merge_listing raw now l).id ≡ l.id
  unfolding merge_listing reopen take_details
  merge_listing-id raw l = refl

  module _ (sha256_hex : String → String) (token : ℕ → String) where
    refresh_listing-IsFresh :
        (raw : RawJob) (key : String) (l : JobListing)
        → IsFresh started (refresh_listing sha256_hex token raw key now l)
    unfolding refresh_listing ensure_listing_public_id reopen
    refresh_listing-IsFresh raw key l = record {
      active = ground arith;
      seen = ground (arith, late);
    }

    refresh_listing-id :
        (raw : RawJob) (key : String) (l : JobListing)
        → (refresh_listing sha256_hex token raw key now l).id ≡ l.id
    unfolding refresh_listing ensure_listing_public_id reopen take_details
    refresh_listing-id raw key l = ground arith

    -- what storing one job does to the table, whichever way it is stored
    pub record IsPlaced (t : Table JobListing) (placed : Table JobListing × ℕ) : Type 0 where
      pub advances : Advances started t placed.0
      pub fresh : FreshAt started placed.1 placed.0
      pub bounded : IsBounded placed.0

    upsert_public_listing-IsPlaced :
        (raw : RawJob) (key : String) (t : Table JobListing)
        → IsBounded t
        → IsPlaced t (upsert_public_listing sha256_hex token raw key now t)
    unfolding upsert_public_listing new_public_listing
    upsert_public_listing-IsPlaced raw key t b =
        go (find_first (has_origin raw.source raw.external_id) t.rows) refl
      where
        f : JobListing → JobListing
        f = refresh_listing sha256_hex token raw key now

        go :
            (o : Option JobListing)
            → find_first (has_origin raw.source raw.external_id) t.rows ≡ o
            → IsPlaced t (elim o [
              | some l ↦ (record t { rows = amend l.id f t.rows }, l.id)
              | none ↦ (insert (new_public_listing sha256_hex token raw key now) t, t.next_id)
            ])
        go none e = record {
          advances = insert-Advances t (new_public_listing sha256_hex token raw key now);
          fresh =
              insert-FreshAt t (new_public_listing sha256_hex token raw key now) b refl
                (record { active = refl; seen = late });
          bounded =
              All-append _ t.rows _ (All-map (λ l h. omega (arith, h)) t.rows b) (omega arith, tt);
        }
        go (some l) e = record {
          advances =
              amend-Advances t l.id f (refresh_listing-id raw key)
                (refresh_listing-IsFresh raw key);
          fresh =
              amend-FreshAt t l f (refresh_listing-id raw key) (refresh_listing-IsFresh raw key)
                (find_first-mem _ t.rows {x = l} e);
          bounded =
              All-amend (λ m. m.id < t.next_id) l.id f t.rows
                (λ m h. subst (λ i. i < t.next_id) (sym (refresh_listing-id raw key m)) h) b;
        }

    known_url-mem :
        (raw : RawJob) (p : Progress) {l : JobListing}
        → known_url sha256_hex token raw p ≡ some l
        → Memᴰ l p.listings.rows
    unfolding known_url
    known_url-mem raw p {l} h = elim (Option-cases (indexed (canonical_url raw.url) p.url_index)) [
      | inl e ↦ absurd (ground (arith, e, h))
      | inr (i, e) ↦ get_row-mem i p.listings.rows {a = l} (ground (arith, e, h))
    ]

    pub place_job-IsPlaced :
        (label : String) (raw : RawJob) (p : Progress)
        → IsBounded p.listings
        → IsPlaced p.listings (place_job sha256_hex token label now raw p)
    unfolding place_job
    place_job-IsPlaced label raw p b =
        go (find_first (has_origin raw.source raw.external_id) p.listings.rows)
          (known_url sha256_hex token raw p) refl
      where
        stored :
            IsPlaced p.listings (upsert_public_listing sha256_hex token raw label now p.listings)
        stored = upsert_public_listing-IsPlaced raw label p.listings b

        f : JobListing → JobListing
        f = merge_listing raw now

        go :
            (o u : Option JobListing)
            → known_url sha256_hex token raw p ≡ u
            → IsPlaced p.listings (elim o [
              | some before ↦ upsert_public_listing sha256_hex token raw label now p.listings
              | none ↦ elim u [
                | none ↦ upsert_public_listing sha256_hex token raw label now p.listings
                | some l ↦ (record p.listings { rows = amend l.id f p.listings.rows }, l.id)
              ]
            ])
        go (some before) u e = stored
        go none none e = stored
        go none (some l) e = record {
          advances =
              amend-Advances p.listings l.id f (merge_listing-id raw) (merge_listing-IsFresh raw);
          fresh =
              amend-FreshAt p.listings l f (merge_listing-id raw) (merge_listing-IsFresh raw)
                (known_url-mem raw p {l = l} e);
          bounded =
              All-amend (λ m. m.id < p.listings.next_id) l.id f p.listings.rows
                (λ m h. subst (λ i. i < p.listings.next_id) (sym (merge_listing-id raw m)) h) b;
        }
