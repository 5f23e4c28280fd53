-- ===== src/Plans/Examples.antt =====
-- Events on the billing row of a subscriber.
use vitae.Common.{refl, ◌≡◌, true, none}
use vitae.Models.AccountRows.{ProfileBilling, keyed_profile_billing}
use vitae.Plans.{WebhookEvent}
use vitae.Plans.Rules.{is_plan}
use vitae.Samples.{billing_row}

abbrev subscriber : ProfileBilling
subscriber = record billing_row { plan = "platform_monthly"; subscription_status = "active" }

abbrev unpaid_invoice : WebhookEvent
unpaid_invoice = record {
  event_id = "evt_2";
  event_type = "invoice.payment_failed";
  meta_user_id = none;
  meta_profile_id = none;
  meta_plan = "";
  data_plan = "";
  customer_id = "cus_1";
  checkout_id = "";
  subscription_id = "";
  status = "";
  payment_status = "";
  sub_subscription_id = "";
  sub_status = "";
}

subscriber-is_plan : is_plan "platform_monthly" ≡ true
unfolding is_plan
subscriber-is_plan = refl
