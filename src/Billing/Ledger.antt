-- ===== src/Billing/Ledger.antt =====
-- Deliveries of payment events: each is applied once, and the ledger holds the changes of status
-- (app/routes/billing.py).
use vitae.Billing.{
  BillingStore, bachs_webhook, WebhookReply, record_event, has_event_id, webhook_user, answer_for,
  done, duplicate, resolve_billing, SubscriptionEvent, BillingEvent,
}
use vitae.Common.{
  arith, ◌≤◌, ◌≡◌, count_if, inr, String, refl, str_eq, ◌⊎◌, inl, find_first, Option-cases, false,
  ◌∷◌, List, ℕ, All, subst, [], none, some, str_eq_iff, count_if-append, Bool-cases, if◌then◌else◌,
  true, count_if-find_first, ◌++◌, find_first-append, Bool, str_eq_refl, All-append, ap,
}
use vitae.Common.Outcome.{Outcome, raised, >>=-eq-ok, ok}
use vitae.Common.Table.{insert}
use vitae.Models.AccountRows.{ProfileBilling, Accounts, keyed_profile_billing}
use vitae.Plans.{WebhookEvent, apply_event}

-- a delivery's request, rolled back if it raises
abbrev commit : BillingStore → Outcome (BillingStore × WebhookReply) → BillingStore
commit s (raised f) = s
commit s (ok r) = r.0

-- deliveries, each at its time
pub deliver_all : List (WebhookEvent × ℕ) → BillingStore → BillingStore
deliver_all [] s = s
deliver_all (d ∷ ds) s = deliver_all ds (commit s (bachs_webhook d.0 d.1 s))

-- no event has two receipts, and each entry of the ledger is of a status that changed
pub record IsLedger (s : BillingStore) : Type 0 where
  pub once : (k : String) → count_if (has_event_id k) s.receipts.rows ≤ 1
  pub changes : All (λ x. str_eq x.from_status x.to_status ≡ false) s.ledger.rows

-- a delivery's outcome: nothing is written, or the event had no receipt and its assignments are recorded
abbrev is_done : WebhookReply → Bool
is_done done = true
is_done _ = false

webhook-cases :
    (e : WebhookEvent) (now : ℕ) (s : BillingStore) {r : BillingStore × WebhookReply}
    → bachs_webhook e now s ≡ ok r
    → ((s ≡ r.0) × (is_done r.1 ≡ false))
      ⊎ ((b : ProfileBilling) × (a : Accounts) × (find_first
              (has_event_id e.event_id)
              s.receipts.rows
            ≡ none)
          × (record_event e now b a s ≡ r.0))
unfolding bachs_webhook
webhook-cases e now s {r} h =
    elim (Option-cases (find_first (has_event_id e.event_id) s.receipts.rows)) [
      | inr (x, z) ↦ inl (ground arith)
      | inl z ↦
          let (found, f, h1) =
            >>=-eq-ok (webhook_user e s.accounts) (answer_for e now s) {b = r}
              (ground (arith, h, z)) in
          elim (Option-cases found) [
            | inl g ↦ inl (ground (arith, h1, g))
            | inr (user, g) ↦
                let ((a, b), k, h2) =
                  >>=-eq-ok (resolve_billing user e s.accounts)
                    (λ x. ok (record_event e now x.1 x.0 s, done)) {b = r}
                    (ground (arith, h1, g)) in
                inr (b, a, z, ground (arith, h2))
          ]
    ]

record_event-IsLedger :
    (e : WebhookEvent) (now : ℕ) (b : ProfileBilling) (a : Accounts) (s : BillingStore)
    → find_first (has_event_id e.event_id) s.receipts.rows ≡ none
    → IsLedger s
    → IsLedger (record_event e now b a s)
unfolding record_event
record_event-IsLedger e now b a s none_yet h = record {
  once = λ k. once k;
  changes = changes (str_eq b.subscription_status (apply_event e b).subscription_status) refl;
}
  where
    receipt : BillingEvent
    receipt = record {
      id = s.receipts.next_id;
      event_id = e.event_id;
      event_type = e.event_type;
      processed_at = some now;
    }

    once : (k : String) → count_if (has_event_id k) (s.receipts.rows ++ receipt ∷ []) ≤ 1
    once k = elim (Bool-cases (str_eq e.event_id k)) [
      | inr z ↦
          ground
            (arith, z, h.once k, count_if-append (has_event_id k) s.receipts.rows (receipt ∷ []))
      | inl z ↦
          let same : e.event_id ≡ k = (str_eq_iff e.event_id k).0 z in
          let unseen =
            subst (λ j. find_first (has_event_id j) s.receipts.rows ≡ none) same none_yet in
          ground (
            arith,
            z,
            count_if-find_first (has_event_id k) s.receipts.rows unseen,
            count_if-append (has_event_id k) s.receipts.rows (receipt ∷ []),
          )
    ]

    entry : ℕ → SubscriptionEvent
    entry i = record {
      id = i;
      profile_id = (apply_event e b).profile_id;
      subscription_id = (apply_event e b).bachs_subscription_id;
      from_status = b.subscription_status;
      to_status = (apply_event e b).subscription_status;
      plan = (apply_event e b).plan;
      billing_event_id = s.receipts.next_id;
    }

    changes :
        (t : Bool)
        → str_eq b.subscription_status (apply_event e b).subscription_status ≡ t
        → All
            (λ x. str_eq x.from_status x.to_status ≡ false)
            (if t then s.ledger else insert entry s.ledger).rows
    changes true z = h.changes
    changes false z =
        All-append (λ x. str_eq x.from_status x.to_status ≡ false) s.ledger.rows
          (entry s.ledger.next_id ∷ []) h.changes (z, tt)

commit-IsLedger :
    (e : WebhookEvent) (now : ℕ) (s : BillingStore) (o : Outcome (BillingStore × WebhookReply))
    → bachs_webhook e now s ≡ o
    → IsLedger s
    → IsLedger (commit s o)
commit-IsLedger e now s (raised f) h ledger = ledger
commit-IsLedger e now s (ok r) h ledger = elim (webhook-cases e now s {r = r} h) [
  | inl (same, z) ↦ subst IsLedger same ledger
  | inr (b, a, z, fresh) ↦ subst IsLedger fresh (record_event-IsLedger e now b a s z ledger)
]

-- Where no event has two receipts, and every entry of the subscription ledger has another status after
-- it than before it, this is still so after deliveries of any events, however often and in whatever order.
pub deliver_all-IsLedger :
    (ds : List (WebhookEvent × ℕ)) (s : BillingStore) → IsLedger s → IsLedger (deliver_all ds s)
unfolding deliver_all
deliver_all-IsLedger [] s h = h
deliver_all-IsLedger (d ∷ ds) s h =
    deliver_all-IsLedger ds (commit s (bachs_webhook d.0 d.1 s))
      (commit-IsLedger d.0 d.1 s (bachs_webhook d.0 d.1 s) refl h)

-- An event whose delivery was processed is answered as a duplicate from then on and changes nothing, even
-- where the second delivery carries other data under the same id.
pub webhook_again :
    (e again : WebhookEvent) (now later : ℕ) (s : BillingStore) {after : BillingStore}
    → bachs_webhook e now s ≡ ok (after, done)
    → again.event_id ≡ e.event_id
    → bachs_webhook again later after ≡ ok (after, duplicate)
unfolding bachs_webhook record_event
webhook_again e again now later s {after} h same =
    elim (webhook-cases e now s {r = (after, done)} h) [
      | inl (z, impossible) ↦ absurd (ground (arith, impossible))
      | inr (b, a, z, written) ↦
          let rows = ap (λ (t : BillingStore). t.receipts.rows) written in
          ground (
            arith,
            same,
            rows,
            z,
            str_eq_refl e.event_id,
            find_first-append (has_event_id again.event_id) s.receipts.rows (receipt ∷ []),
          )
    ]
  where
    receipt : BillingEvent
    receipt = record {
      id = s.receipts.next_id;
      event_id = e.event_id;
      event_type = e.event_type;
      processed_at = some now;
    }
