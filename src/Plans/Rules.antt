-- ===== src/Plans/Rules.antt =====
-- Which plan and status the payment events of app/routes/billing.py can lead to.
use vitae.Common.{
  ◌≡◌, Bool, ◌||◌, str_eq, true, arith, String, false, Bool-cases, ◌&&◌, if◌then◌else◌, refl, inr,
  not, inl,
}
use vitae.Common.Text.{lower, or_text}
use vitae.Models.AccountRows.{ProfileBilling, keyed_profile_billing}
use vitae.Plans.{
  payment_failed, subscription_changed, subscription_deleted, WebhookEvent, invoice_paid,
  is_paid_plan, checkout_completed, apply_paid_plan, collection_succeeded, apply_event, grants_plan,
  plan_from_metadata,
}
use vitae.Profiles.{is_paid_for}

-- the plans of `BillingPlan`
unfoldable pub is_plan : String → Bool
is_plan plan = is_paid_plan plan || str_eq plan "none"

pick-is_plan :
    (t : Bool) (x y : String)
    → is_plan x ≡ true
    → is_plan y ≡ true
    → is_plan (if t then x else y) ≡ true
pick-is_plan true x y hx hy = hx
pick-is_plan false x y hx hy = hy

paid_or-is_plan :
    (p y : String) → is_plan y ≡ true → is_plan (if is_paid_plan p then p else y) ≡ true
unfolding is_plan
paid_or-is_plan p y h = elim (Bool-cases (is_paid_plan p)) [
  | inl e ↦ ground arith
  | inr e ↦ ground (arith, h)
]

branch-is_plan :
    (t : Bool) (x y : ProfileBilling)
    → is_plan x.plan ≡ true
    → is_plan y.plan ≡ true
    → is_plan (if t then x else y).plan ≡ true
branch-is_plan true x y hx hy = hx
branch-is_plan false x y hx hy = hy

known : (is_plan "none" ≡ true) × (is_plan "platform_monthly" ≡ true)
unfolding is_plan
known = (refl, refl)

checkout-is_plan :
    (p : String) (e : WebhookEvent) (b : ProfileBilling)
    → is_plan b.plan ≡ true
    → is_plan (checkout_completed p e b).plan ≡ true
unfolding apply_paid_plan is_plan
checkout-is_plan p e b h = ground (arith, h)

collection-is_plan :
    (p : String) (e : WebhookEvent) (b : ProfileBilling)
    → is_plan b.plan ≡ true
    → is_plan (collection_succeeded p e b).plan ≡ true
unfolding apply_paid_plan is_plan
collection-is_plan p e b h = ground (arith, h)

changed-is_plan :
    (p : String) (e : WebhookEvent) (b : ProfileBilling)
    → is_plan b.plan ≡ true
    → is_plan (subscription_changed p e b).plan ≡ true
changed-is_plan p e b h =
    let status = lower (or_text e.status "active") in
    let granted = not (is_paid_plan b.plan) && grants_plan status in
    let kept = if is_paid_plan p then p else if granted then "platform_monthly" else b.plan in
    pick-is_plan (str_eq status "canceled" || str_eq status "paused") "none" kept known.0 (
      paid_or-is_plan p (if granted then "platform_monthly" else b.plan)
        (pick-is_plan granted "platform_monthly" b.plan known.1 h))

deleted-is_plan :
    (b : ProfileBilling) → is_plan b.plan ≡ true → is_plan (subscription_deleted b).plan ≡ true
deleted-is_plan b h = pick-is_plan (is_paid_plan b.plan) "none" b.plan known.0 h

paid-is_plan :
    (p : String) (e : WebhookEvent) (b : ProfileBilling)
    → is_plan b.plan ≡ true
    → is_plan (invoice_paid p e b).plan ≡ true
unfolding is_plan
paid-is_plan p e b h = ground (arith, h)

failed-is_plan :
    (b : ProfileBilling) → is_plan b.plan ≡ true → is_plan (payment_failed b).plan ≡ true
unfolding is_plan
failed-is_plan b h = ground (arith, h)

-- Whatever an event says, a billing row with a known plan (one of the two paid plans, or `none`)
-- still has a known plan after it.
pub apply_event-is_plan :
    (e : WebhookEvent) (old : ProfileBilling)
    → is_plan old.plan ≡ true
    → is_plan (apply_event e old).plan ≡ true
unfolding apply_event
apply_event-is_plan e old h =
    let p = plan_from_metadata e.meta_plan e.data_plan in
    let b : ProfileBilling = record old {
      bachs_customer_id = or_text e.customer_id old.bachs_customer_id;
      last_checkout_id = or_text e.checkout_id old.last_checkout_id;
    } in
    let is_type = str_eq e.event_type in
    let f6 =
      branch-is_plan (is_type "invoice.payment_failed") (payment_failed b) b (failed-is_plan b h)
        h in
    let f5 =
      branch-is_plan (is_type "invoice.paid") (invoice_paid p e b) _ (paid-is_plan p e b h) f6 in
    let f4 =
      branch-is_plan (is_type "customer.subscription.deleted") (subscription_deleted b) _
        (deleted-is_plan b h) f5 in
    let f3 =
      branch-is_plan
        (is_type "customer.subscription.created" || is_type "customer.subscription.updated")
        (subscription_changed p e b) _ (changed-is_plan p e b h) f4 in
    let f2 =
      branch-is_plan (is_type "collection.succeeded") (collection_succeeded p e b) _
        (collection-is_plan p e b h) f3 in
    branch-is_plan (is_type "checkout.completed") (checkout_completed p e b) _
      (checkout-is_plan p e b h) f2

unpaid :
    (b : ProfileBilling) (t : Bool)
    → is_paid_plan b.plan ≡ t
    → is_paid_plan (if t then "none" else b.plan) ≡ false
unpaid b true e = refl
unpaid b false e = e

past_due :
    (b : ProfileBilling) (t : Bool)
    → is_paid_plan b.plan ≡ t
    → let after = if t then record b { subscription_status = "past_due" } else b in
      (after.plan ≡ b.plan) × (is_paid_for after ≡ false)
unfolding is_paid_for lower
past_due b true e = (refl, ground arith)
past_due b false e = (refl, ground (arith, e))

-- A deleted subscription, and one that is updated to canceled or paused, leave the row without a paid
-- plan; a failed payment leaves the plan as it was, and the row not paid for.
pub revoked :
    (e : WebhookEvent) (b : ProfileBilling)
    → let event = λ (kind : String) (status : String).
      apply_event (record e { event_type = kind; status = status }) b in
      (is_paid_plan (event "customer.subscription.deleted" e.status).plan ≡ false)
      × ((event "customer.subscription.updated" "canceled").plan ≡ "none")
      × ((event "customer.subscription.updated" "Paused").plan ≡ "none")
      × ((event "invoice.payment_failed" e.status).plan ≡ b.plan)
      × (is_paid_for (event "invoice.payment_failed" e.status) ≡ false)
unfolding apply_event lower
revoked e b =
    let known : ProfileBilling = record b {
      bachs_customer_id = or_text e.customer_id b.bachs_customer_id;
      last_checkout_id = or_text e.checkout_id b.last_checkout_id;
    } in
    let (plan, off) = past_due known (is_paid_plan b.plan) refl in
    (unpaid b (is_paid_plan b.plan) refl, refl, refl, plan, off)
