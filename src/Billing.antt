-- ===== src/Billing.antt =====
-- The payment provider's webhook: app/routes/billing.py.
pub mod Ledger
mod Examples
use vitae.Accounts.{ensure_account, get_active_profile, ensure_profile_billing}
use vitae.Common.{
  ◌==◌, String, ℕ, ◌∷◌, Bool, select, [], str_eq, if◌then◌else◌, some, find_first, none, Option,
}
use vitae.Common.Outcome.{raised, ok, several_rows, ◌>>◌, ◌>>=◌, Outcome}
use vitae.Common.Table.{save, insert, get, Table}
use vitae.Common.Text.{is_empty}
use vitae.Models.AccountRows.{
  User, Profile, Accounts, ProfileBilling, keyed_profile_billing, keyed_profile, keyed_user,
}
use vitae.Plans.{WebhookEvent, apply_event}

-- `BillingEvent`
pub record BillingEvent : Type 0 where
  pub id : ℕ
  pub event_id : String
  pub event_type : String
  pub processed_at : Option ℕ

-- `BillingSubscriptionEvent`
pub record SubscriptionEvent : Type 0 where
  pub id : ℕ
  pub profile_id : ℕ
  pub subscription_id : String
  pub from_status : String
  pub to_status : String
  pub plan : String
  pub billing_event_id : ℕ

pub record BillingStore : Type 0 where
  pub accounts : Accounts
  pub receipts : Table BillingEvent
  pub ledger : Table SubscriptionEvent

pub data WebhookReply : Type 0 where
  done duplicate no_user : WebhookReply

-- the billing row of the event's customer, and then its user
abbrev pub by_customer : String → Accounts → Outcome (Option User)
by_customer customer_id a =
    if is_empty customer_id
    then ok none
    else elim (select (λ (b : ProfileBilling). str_eq b.bachs_customer_id customer_id)
        a.billing.rows) [
          | [] ↦ ok none
          | b ∷ more ↦ elim more [ [] ↦ ok (get b.user_id a.users) | _ ∷ _ ↦ raised several_rows ]
        ]

abbrev pub by_id : Option ℕ → Accounts → Option User
by_id none a = none
by_id (some i) a = get i a.users

pub webhook_user : WebhookEvent → Accounts → Outcome (Option User)
webhook_user e a = elim (by_id e.meta_user_id a) [
  | some user ↦ ok (some user)
  | none ↦ by_customer e.customer_id a
]

-- the profile that the metadata names, if it is the user's
abbrev pub named_profile : User → Option ℕ → Accounts → Option Profile
named_profile user none a = none
named_profile user (some i) a = elim (get i a.profiles) [
  | none ↦ none
  | some p ↦ if p.user_id == user.id then some p else none
]

abbrev pub billing_of : User → Profile → Accounts → Accounts × ProfileBilling
billing_of user p a =
    let found = ensure_profile_billing user.id p a.billing in
    (record a { billing = found.0 }, found.1)

-- `_resolve_billing_for_webhook`
pub resolve_billing : User → WebhookEvent → Accounts → Outcome (Accounts × ProfileBilling)
resolve_billing user e before =
    let a = ensure_account user before in
    elim (named_profile user e.meta_profile_id a) [
      | some p ↦ ok (billing_of user p a)
      | none ↦ do (after, p) ← get_active_profile user a; ok (billing_of user p after)
    ]

abbrev pub has_event_id : String → BillingEvent → Bool
has_event_id event_id receipt = str_eq receipt.event_id event_id

-- the row and its ledger entry, if the status has changed, and the processed receipt
pub record_event : WebhookEvent → ℕ → ProfileBilling → Accounts → BillingStore → BillingStore
unfolding apply_event
record_event e now old a s =
    let b = apply_event e old in
    let receipt = s.receipts.next_id in
    let entry : ℕ → SubscriptionEvent = λ i. record {
      id = i;
      profile_id = b.profile_id;
      subscription_id = b.bachs_subscription_id;
      from_status = old.subscription_status;
      to_status = b.subscription_status;
      plan = b.plan;
      billing_event_id = receipt;
    } in
    record {
      accounts = record a { billing = save b a.billing };
      receipts =
          insert
            (λ i. record {
              id = i;
              event_id = e.event_id;
              event_type = e.event_type;
              processed_at = some now;
            })
            s.receipts;
      ledger =
          (if str_eq old.subscription_status b.subscription_status
            then s.ledger
            else insert entry s.ledger);
    }

-- the event of a user that is known, or of nobody
abbrev pub answer_for :
    WebhookEvent → ℕ → BillingStore → Option User → Outcome (BillingStore × WebhookReply)
answer_for e now s none = ok (s, no_user)
answer_for e now s (some user) = do
  (a, b) ← resolve_billing user e s.accounts
  ok (record_event e now b a s, done)

-- the request's answer, and the store as it is committed
pub bachs_webhook : WebhookEvent → ℕ → BillingStore → Outcome (BillingStore × WebhookReply)
bachs_webhook e now s = elim (find_first (has_event_id e.event_id) s.receipts.rows) [
  | some _ ↦ ok (s, duplicate)
  | none ↦ do found ← webhook_user e s.accounts; answer_for e now s found
]
