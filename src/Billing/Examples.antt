-- ===== src/Billing/Examples.antt =====
-- A first payment, delivered twice.
use vitae.Accounts.{ensure_account, default_profile, ensure_profile_billing}
use vitae.Billing.{done, bachs_webhook, webhook_user, record_event, resolve_billing, BillingStore}
use vitae.Billing.Ledger.{deliver_all-IsLedger, deliver_all, IsLedger}
use vitae.Common.{arith, ◌∷◌, ◌≡◌, [], refl, some}
use vitae.Common.Outcome.{ok}
use vitae.Common.Table.{get_row, put_row}
use vitae.Common.Text.{lower, strip}
use vitae.Models.AccountRows.{ProfileBilling, keyed_profile_billing}
use vitae.Plans.{WebhookEvent}
use vitae.Samples.{accounts, billing_row}

abbrev paid : WebhookEvent
paid = record {
  event_id = "evt_1";
  event_type = "checkout.completed";
  meta_user_id = some 7;
  meta_profile_id = some 1;
  meta_plan = "byok_lifetime";
  data_plan = "";
  customer_id = "cus_1";
  checkout_id = "";
  subscription_id = "";
  status = "";
  payment_status = "Paid";
  sub_subscription_id = "sub_1";
  sub_status = "";
}

abbrev store : BillingStore
store = record {
  accounts = accounts;
  receipts = record { rows = []; next_id = 1 };
  ledger = record { rows = []; next_id = 1 };
}

abbrev paid_for : ProfileBilling
paid_for = record billing_row {
  plan = "byok_monthly";
  bachs_subscription_id = "sub_1";
  subscription_status = "active";
}

abbrev after : BillingStore
after = record {
  accounts = record accounts { billing = record { rows = paid_for ∷ []; next_id = 1 } };
  receipts = record {
    rows =
        record {
          id = 1;
          event_id = "evt_1";
          event_type = "checkout.completed";
          processed_at = some 9;
        }
        ∷ [];
    next_id = 2;
  };
  ledger = record {
    rows =
        record {
          id = 1;
          profile_id = 1;
          subscription_id = "sub_1";
          from_status = "";
          to_status = "active";
          plan = "byok_monthly";
          billing_event_id = 1;
        }
        ∷ [];
    next_id = 2;
  };
}

delivers : bachs_webhook paid 9 store ≡ ok (after, done)
unfolding bachs_webhook webhook_user resolve_billing record_event ensure_account
    ensure_profile_billing default_profile strip lower get_row put_row
delivers = refl

store-IsLedger : IsLedger store
store-IsLedger = record { once = λ k. ground arith; changes = tt }

deliver_all-IsLedger_example : IsLedger (deliver_all ((paid, 9) ∷ (paid, 11) ∷ []) store)
deliver_all-IsLedger_example =
    deliver_all-IsLedger ((paid, 9) ∷ (paid, 11) ∷ []) store store-IsLedger
