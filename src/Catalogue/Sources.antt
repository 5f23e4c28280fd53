-- ===== src/Catalogue/Sources.antt =====
-- The sources of the catalogue, the records of what they sent, and the batches without repetitions: app/services.py
-- and app/sources/utils.py.
use vitae.Catalogue.{RawJob}
use vitae.Catalogue.Urls.{canonical_url, title_company_key, source_display_name}
use vitae.Common.{
  ◌∷◌, ℕ, ◌<>◌, String, true, ◌&&◌, if◌then◌else◌, ◌==◌, ◌||◌, Option, str_eq, some, find_first,
  Bool, none, List, [],
}
use vitae.Common.Table.{insert, Keyed, Table, save}
use vitae.Common.Text.{is_empty}
use vitae.Common.Texts.{mem_text}

pub record JobSource : Type 0 where
  pub id : ℕ
  pub key : String
  pub display_name : String
  pub enabled : Bool
  pub last_started_at : Option ℕ
  pub last_success_at : Option ℕ
  pub last_error_at : Option ℕ
  pub last_error : String
  pub consecutive_failures : ℕ
  pub last_fetched_count : ℕ

pub record JobSourceRecord : Type 0 where
  pub id : ℕ
  pub source_id : ℕ
  pub listing_id : ℕ
  pub external_id : String
  pub payload : RawJob
  pub first_seen_at : ℕ
  pub last_seen_at : ℕ
  pub is_active : Bool

instance abbrev pub keyed_job_source : Keyed JobSource
keyed_job_source = record { id_of = λ r. r.id }

instance abbrev pub keyed_job_source_record : Keyed JobSourceRecord
keyed_job_source_record = record { id_of = λ r. r.id }

-- `dedupe_key`
dedupe_key : RawJob → String
dedupe_key job =
    if is_empty job.url
    then title_company_key job.title job.company
    else "url:" <> canonical_url job.url

dedupe_from : List String → List String → List RawJob → List RawJob
unfolding dedupe_key
dedupe_from seen seen_tc [] = []
dedupe_from seen seen_tc (job ∷ jobs) =
    let key = dedupe_key job in
    let tc = title_company_key job.title job.company in
    let skip = dedupe_from seen seen_tc jobs in
    let keep = dedupe_from (key ∷ seen) (tc ∷ seen_tc) jobs in
    if mem_text key seen || mem_text tc seen_tc then skip else job ∷ keep

unfoldable pub dedupe_raw_jobs : List RawJob → List RawJob
unfolding dedupe_from
dedupe_raw_jobs jobs = dedupe_from [] [] jobs

-- the jobs whose source and external id were not seen in the batch before
unfoldable pub unseen : List String → List RawJob → List RawJob
unseen seen [] = []
unseen seen (raw ∷ raws) =
    let dkey = raw.source <> ":" <> raw.external_id in
    let skip = unseen seen raws in
    let keep = unseen (dkey ∷ seen) raws in if mem_text dkey seen then skip else raw ∷ keep

abbrev pub has_source_key : String → JobSource → Bool
has_source_key key s = str_eq s.key key

-- `_upsert_source`
unfoldable pub upsert_source : String → Table JobSource → Table JobSource × JobSource
upsert_source key t =
    let make : ℕ → JobSource = λ i. record {
      id = i;
      key = key;
      display_name = source_display_name key;
      enabled = true;
      last_started_at = none;
      last_success_at = none;
      last_error_at = none;
      last_error = "";
      consecutive_failures = 0;
      last_fetched_count = 0;
    } in
    elim (find_first (has_source_key key) t.rows) [
      | some s ↦ (t, s)
      | none ↦ (insert make t, make t.next_id)
    ]

abbrev pub is_record_of : ℕ → String → JobSourceRecord → Bool
is_record_of source_id external_id r = r.source_id == source_id && str_eq r.external_id external_id

-- `_upsert_source_record`
unfoldable pub upsert_source_record :
    ℕ → ℕ → RawJob → ℕ → Table JobSourceRecord → Table JobSourceRecord
upsert_source_record source_id listing_id raw now t =
    let make : ℕ → JobSourceRecord = λ i. record {
      id = i;
      source_id = source_id;
      listing_id = listing_id;
      external_id = raw.external_id;
      payload = raw;
      first_seen_at = now;
      last_seen_at = now;
      is_active = true;
    } in
    elim (find_first (is_record_of source_id raw.external_id) t.rows) [
      | some r ↦
          save
            (record r {
              listing_id = listing_id;
              payload = raw;
              last_seen_at = now;
              is_active = true;
            })
            t
      | none ↦ insert make t
    ]
