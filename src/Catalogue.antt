-- ===== src/Catalogue.antt =====
-- The catalogue of job listings: rows from the sources and their closing, of app/services.py, with the
-- keys of app/sources/utils.py. SHA-256 and the random tokens are parameters.
pub mod Urls
pub mod Sources
pub mod Sync
pub mod Advance
pub mod Moves
pub mod Open
mod Examples
use vitae.Catalogue.Urls.{canonical_url}
use vitae.Common.{
  ◌==◌, ◌&&◌, none, Bool, List, find_first, not, true, Option, String, false, ◌<>◌, select, ◌||◌,
  some, ltb, count_if, if◌then◌else◌, map, str_eq, ℕ,
}
use vitae.Common.Table.{Table, amend, insert}
use vitae.Common.Text.{is_empty, or_text, clip, strip, lower}
use vitae.Common.Texts.{mem_text}
use vitae.Models.ListingRows.{JobListing, keyed_job_listing}

-- `RawJob`, a job as a source hands it over
pub record RawJob : Type 0 where
  pub source : String
  pub external_id : String
  pub title : String
  pub company : String
  pub location : String
  pub url : String
  pub description : String
  pub salary : String
  pub normalized_location : String
  pub employment_type : String
  pub remote_type : String
  pub experience_level : String
  pub salary_min : Option ℕ
  pub salary_max : Option ℕ
  pub salary_currency : String
  pub posted_at : Option ℕ
  pub expires_at : Option ℕ
  pub source_updated_at : Option ℕ

-- `a or b` and `a if a is not None else b` on values that may be absent
abbrev pub or_else {ℓ} : {A : Type ℓ} → Option A → Option A → Option A
or_else none b = b
or_else (some a) b = some a

-- The texts that name one job: the URL, or else title, company and place.
unfoldable pub identity : RawJob → String
identity raw =
    let url = canonical_url raw.url in
    if is_empty url
    then "job:"
      <> lower (strip raw.title)
      <> "|"
      <> lower (strip raw.company)
      <> "|"
      <> lower (strip raw.location)
    else "url:" <> url

-- `ensure_listing_public_id`
unfoldable pub ensure_listing_public_id : String → JobListing → JobListing
ensure_listing_public_id token listing =
    if is_empty (strip listing.public_id) then record listing { public_id = token } else listing

-- The attributes that both ways of updating a listing take from a job, where it has them.
unfoldable pub take_details : RawJob → JobListing → JobListing
take_details raw l = record l {
  company = or_text raw.company l.company;
  location = or_text raw.location l.location;
  description = or_text raw.description l.description;
  salary = or_text raw.salary l.salary;
  normalized_location =
      or_text (or_text raw.normalized_location raw.location) l.normalized_location;
  employment_type = or_text raw.employment_type l.employment_type;
  remote_type = or_text raw.remote_type l.remote_type;
  experience_level = or_text raw.experience_level l.experience_level;
  salary_min = or_else raw.salary_min l.salary_min;
  salary_max = or_else raw.salary_max l.salary_max;
  salary_currency = or_text raw.salary_currency l.salary_currency;
  posted_at = or_else raw.posted_at l.posted_at;
  expires_at = or_else raw.expires_at l.expires_at;
  source_updated_at = or_else raw.source_updated_at l.source_updated_at;
}

-- the assignments that open a listing
unfoldable pub reopen : ℕ → JobListing → JobListing
reopen now l = record l { is_active = true; closed_at = none; last_seen_at = now }

-- whether a listing is the public one of a source's job
abbrev pub has_origin : String → String → JobListing → Bool
has_origin source external_id l =
    str_eq l.source source && str_eq l.external_id external_id && str_eq l.scope_key "public"

module _ (sha256_hex : String → String) (token : ℕ → String) where
  -- the branch of `upsert_public_listing` for a listing that is there
  unfoldable pub refresh_listing : RawJob → String → ℕ → JobListing → JobListing
  refresh_listing raw source_key now l =
      let named = record (take_details raw l) {
        title = raw.title;
        url = or_text raw.url l.url;
        source_key = or_text (or_text source_key l.source_key) raw.source;
        canonical_key = or_text l.canonical_key (sha256_hex (identity raw));
        visibility = "public";
      } in
      ensure_listing_public_id (token l.id) (reopen now named)

  unfoldable pub new_public_listing : RawJob → String → ℕ → ℕ → JobListing
  new_public_listing raw source_key now i = record {
    id = i;
    public_id = token i;
    source = raw.source;
    external_id = raw.external_id;
    title = raw.title;
    company = raw.company;
    location = raw.location;
    url = raw.url;
    description = raw.description;
    salary = raw.salary;
    canonical_key = clip 128 (canonical_url (or_text raw.url raw.external_id));
    source_key = or_text source_key raw.source;
    normalized_location = or_text raw.normalized_location raw.location;
    employment_type = raw.employment_type;
    remote_type = raw.remote_type;
    experience_level = raw.experience_level;
    salary_min = raw.salary_min;
    salary_max = raw.salary_max;
    salary_currency = raw.salary_currency;
    posted_at = raw.posted_at;
    expires_at = raw.expires_at;
    source_updated_at = raw.source_updated_at;
    visibility = "public";
    scope_key = "public";
    owner_user_id = none;
    is_active = true;
    last_seen_at = now;
    closed_at = none;
  }

  -- `upsert_public_listing`: the table afterwards, and the id of the listing
  unfoldable pub upsert_public_listing :
      RawJob → String → ℕ → Table JobListing → Table JobListing × ℕ
  upsert_public_listing raw source_key now t =
      elim (find_first (has_origin raw.source raw.external_id) t.rows) [
        | some l ↦
            (record t { rows = amend l.id (refresh_listing raw source_key now) t.rows }, l.id)
        | none ↦ (insert (new_public_listing raw source_key now) t, t.next_id)
      ]

-- whether `close_missing_public_listings` closes a row; `sources` is the set of its keyword argument
unfoldable pub is_missing : ℕ → Option (List String) → JobListing → Bool
is_missing sync_started_at sources l =
    let due = str_eq l.scope_key "public" && l.is_active && ltb l.last_seen_at sync_started_at in
    due && (elim sources [ none ↦ true | some keys ↦ mem_text l.source_key keys ])

abbrev pub close_row : (JobListing → Bool) → ℕ → JobListing → JobListing
close_row missing now l =
    if missing l then record l { is_active = false; closed_at = some now } else l

unfoldable pub close_missing_public_listings :
    ℕ → Option (List String) → ℕ → Table JobListing → Table JobListing × ℕ
close_missing_public_listings sync_started_at sources now t =
    let missing = is_missing sync_started_at sources in
    (record t { rows = map (close_row missing now) t.rows }, count_if missing t.rows)

-- `visible_listings_query`
unfoldable pub is_visible : ℕ → Bool → JobListing → Bool
is_visible user_id active_only l =
    let hers : Bool = elim l.owner_user_id [ none ↦ false | some o ↦ o == user_id ] in
    (str_eq l.visibility "public" || (str_eq l.visibility "private" && hers))
    && (not active_only || l.is_active)

unfoldable pub visible_listings_query : ℕ → Bool → Table JobListing → List JobListing
visible_listings_query user_id active_only t = select (is_visible user_id active_only) t.rows
