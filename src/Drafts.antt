-- ===== src/Drafts.antt =====
-- Apply drafts and who may have one (app/accounts/drafts.py). A JSON list that does not parse counts
-- as the empty list here.
use vitae.Accounts.{get_active_profile}
use vitae.Common.{
  ℕ, some, if◌then◌else◌, false, ◌==◌, [], List, find_first, Option, str_eq, ◌&&◌, none, Bool,
  String,
}
use vitae.Common.Outcome.{require, raised, ok, Outcome, ◌>>=◌, ◌>>◌, permission_error}
use vitae.Common.Table.{Table, save, insert, get}
use vitae.Models.{Store}
use vitae.Models.AccountRows.{User, keyed_user}
use vitae.Models.ListingRows.{JobListing, Answer, ApplyDraft, keyed_apply_draft, keyed_job_listing}

-- `_assert_listing_accessible`
unfoldable pub listing_accessible : User → ℕ → Table JobListing → Outcome (Unit {0})
listing_accessible user i t = elim (get i t) [
  | none ↦ raised permission_error
  | some l ↦
      if str_eq l.visibility "private"
      then require (elim l.owner_user_id [ none ↦ false | some o ↦ o == user.id ]) permission_error
      else require (str_eq l.visibility "public") permission_error
]

abbrev pub is_draft_of : ℕ → ℕ → ApplyDraft → Bool
is_draft_of profile_id listing_id d = d.profile_id == profile_id && d.listing_id == listing_id

-- `load_apply_draft_db`; no draft is the empty dictionary
unfoldable pub load_apply_draft : User → ℕ → Store → Outcome (Store × Option ApplyDraft)
load_apply_draft user listing_id s = do
  listing_accessible user listing_id s.listings
  (accounts, active) ← get_active_profile user s.accounts
  ok (record s { accounts = accounts }, find_first (is_draft_of active.id listing_id) s.drafts.rows)

-- the keys that the form may have
pub record DraftForm : Type 0 where
  pub cover_blurb : Option String
  pub answers : Option (List Answer)

abbrev kept_or {ℓ} : {A : Type ℓ} → A → Option A → A
kept_or old none = old
kept_or old (some x) = x

-- `save_apply_draft_db`
unfoldable pub save_apply_draft : User → ℕ → DraftForm → Store → Outcome Store
save_apply_draft user listing_id form before = do
  listing_accessible user listing_id before.listings
  (accounts, active) ← get_active_profile user before.accounts
  let s = record before { accounts = accounts }
  elim (find_first (is_draft_of active.id listing_id) s.drafts.rows) [
    | some row ↦ ok (record s {
      drafts =
          save
            (record row {
              user_id = user.id;
              cover_blurb = kept_or row.cover_blurb form.cover_blurb;
              answers = kept_or row.answers form.answers;
            })
            s.drafts;
    })
    | none ↦ ok (record s {
      drafts =
          insert
            (λ i. record {
              id = i;
              user_id = user.id;
              profile_id = active.id;
              listing_id = listing_id;
              cover_blurb = kept_or "" form.cover_blurb;
              answers = kept_or [] form.answers;
            })
            s.drafts;
    })
  ]
