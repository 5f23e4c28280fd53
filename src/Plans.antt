-- ===== src/Plans.antt =====
-- What a payment event does to a billing row: app/routes/billing.py, with `plan_from_metadata` of
-- app/billing.py. An event is what is left of a request once its signature is verified and its JSON is
-- read.
pub mod Rules
mod Examples
use vitae.Common.{◌&&◌, ◌||◌, str_eq, Option, Bool, ℕ, if◌then◌else◌, String, not}
use vitae.Common.Text.{lower, strip, or_text, is_empty}
use vitae.Models.AccountRows.{ProfileBilling, keyed_profile_billing}

-- The fields of the event; an absent text is empty.
pub record WebhookEvent : Type 0 where
  pub event_id : String
  pub event_type : String
  pub meta_user_id : Option ℕ
  pub meta_profile_id : Option ℕ
  pub meta_plan : String
  pub data_plan : String
  pub customer_id : String
  pub checkout_id : String
  pub subscription_id : String
  pub status : String
  pub payment_status : String
  pub sub_subscription_id : String
  pub sub_status : String

-- `plan in PAID_PLANS`
abbrev pub is_paid_plan : String → Bool
is_paid_plan plan = str_eq plan "byok_monthly" || str_eq plan "platform_monthly"

pub plan_from_metadata : String → String → String
plan_from_metadata meta_plan data_plan =
    let named = strip (or_text meta_plan data_plan) in
    let plan = if str_eq named "byok_lifetime" then "byok_monthly" else named in
    if is_paid_plan plan then plan else ""

-- `_apply_paid_plan`
pub apply_paid_plan : String → String → ProfileBilling → ProfileBilling
apply_paid_plan plan status b =
    if is_paid_plan plan then record b { plan = plan; subscription_status = status } else b

-- `if text: billing.bachs_subscription_id = text`
abbrev pub with_subscription : String → ProfileBilling → ProfileBilling
with_subscription text b = if is_empty text then b else record b { bachs_subscription_id = text }

abbrev pub checkout_completed : String → WebhookEvent → ProfileBilling → ProfileBilling
checkout_completed plan e old =
    let b = with_subscription e.sub_subscription_id old in
    let payment = lower e.payment_status in
    let chosen = or_text plan (if is_paid_plan b.plan then b.plan else "platform_monthly") in
    let status =
      or_text e.sub_status
        (if str_eq payment "no_payment_required" then "trialing" else "active") in
    if str_eq payment "paid" || str_eq payment "no_payment_required"
    then apply_paid_plan chosen status b
    else b

abbrev pub collection_succeeded : String → WebhookEvent → ProfileBilling → ProfileBilling
collection_succeeded plan e old =
    let b = with_subscription e.sub_subscription_id old in
    if is_paid_plan plan
    then apply_paid_plan plan "active" b
    else if is_paid_plan b.plan
    then record b { subscription_status = "active" }
    else b

abbrev pub grants_plan : String → Bool
grants_plan status = str_eq status "active" || str_eq status "trialing" || str_eq status "past_due"

abbrev pub subscription_changed : String → WebhookEvent → ProfileBilling → ProfileBilling
subscription_changed plan e old =
    let status = lower (or_text e.status "active") in
    let kept =
      if is_paid_plan plan
      then plan
      else if not (is_paid_plan old.plan) && grants_plan status
      then "platform_monthly"
      else old.plan in
    record old {
      bachs_subscription_id = or_text e.subscription_id old.bachs_subscription_id;
      subscription_status = status;
      plan = (if str_eq status "canceled" || str_eq status "paused" then "none" else kept);
    }

abbrev pub subscription_deleted : ProfileBilling → ProfileBilling
subscription_deleted b = record b {
  subscription_status = "canceled";
  plan = (if is_paid_plan b.plan then "none" else b.plan);
}

abbrev pub invoice_paid : String → WebhookEvent → ProfileBilling → ProfileBilling
invoice_paid plan e old =
    let b = with_subscription e.subscription_id old in
    if is_paid_plan b.plan || is_paid_plan plan
    then record b {
      plan = (if is_paid_plan plan then plan else b.plan);
      subscription_status = "active";
    }
    else b

abbrev pub payment_failed : ProfileBilling → ProfileBilling
payment_failed b = if is_paid_plan b.plan then record b { subscription_status = "past_due" } else b

-- the assignments to the billing row, by the event's type
unfoldable pub apply_event : WebhookEvent → ProfileBilling → ProfileBilling
unfolding apply_paid_plan plan_from_metadata
apply_event e old =
    let plan = plan_from_metadata e.meta_plan e.data_plan in
    let b : ProfileBilling = record old {
      bachs_customer_id = or_text e.customer_id old.bachs_customer_id;
      last_checkout_id = or_text e.checkout_id old.last_checkout_id;
    } in
    if str_eq e.event_type "checkout.completed"
    then checkout_completed plan e b
    else if str_eq e.event_type "collection.succeeded"
    then collection_succeeded plan e b
    else if str_eq e.event_type "customer.subscription.created"
        || str_eq e.event_type "customer.subscription.updated"
    then subscription_changed plan e b
    else if str_eq e.event_type "customer.subscription.deleted"
    then subscription_deleted b
    else if str_eq e.event_type "invoice.paid"
    then invoice_paid plan e b
    else if str_eq e.event_type "invoice.payment_failed"
    then payment_failed b
    else b
