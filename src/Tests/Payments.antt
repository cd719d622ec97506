-- ===== src/Tests/Payments.antt =====
-- The theorems on billing at a concrete subscription.
use healthpage.Prelude.{
  ◌+◌, ◌*◌, ◌≤◌, ◌<◌, ◌≡◌, refl, true, false, none, some, [], ◌∷◌, nat_comparable,
  string_comparable,
}
use healthpage.Store.Queries.{first_where, update_where}
use healthpage.Billing.{
  Subscription, Payment, premium, free, active, past_due, succeeded, refunded, payment_pending,
  monthly, yookassa, Account,
}
use healthpage.Billing.Repo.{Tables, ok, subscription_of, has_provider_id}
use healthpage.Billing.Service.{Service, WebhookEvent, handle_event, activate, renew_one, charge}
use healthpage.Billing.Webhook.{handle_event-idempotent}
use healthpage.Billing.Activation.{IsPremium, handle_event-activates}
use healthpage.Billing.Renewal.{with_plan, renew_one-declined, HasFailedPayment, IsOver, IsPastDue}

-- a store that works, and a provider that declines every charge
abbrev service : Service
service = record {
  provider_name = yookassa;
  provider_create = λ amount url key. some ("p1", "https://pay");
  charge_recurring = λ amount token key. none;
  parse_webhook = λ request. none;
  pricing = record {
    monthly_minor = 49000;
    yearly_minor = 470400;
    currency = "RUB";
    trial_days = 14;
  };
  max_dunning = 3;
  retry_interval = 259200;
  add_date = λ years months from. from + years * 365 + months * 30;
  now = 1000;
  fails = λ call. false;
  new_key = λ t. t.next_id;
}

abbrev later_service : Service
later_service = record service { now = 2000; fails = λ call. true }

abbrev paid_subscription : Subscription
paid_subscription = record {
  id = 200;
  account_id = 7;
  plan = premium;
  status = active;
  billing_period = some monthly;
  provider = some yookassa;
  provider_customer_token = some "card";
  trial_ends_at = none;
  current_period_start = some 970;
  current_period_end = some 1000;
  cancel_at_period_end = false;
  dunning_attempts = 0;
  created_at = 0;
  updated_at = 0;
}

abbrev first_payment : Payment
first_payment = record {
  id = 201;
  account_id = 7;
  subscription_id = some 200;
  amount_minor = 49000;
  currency = "RUB";
  status = payment_pending;
  provider = some yookassa;
  provider_payment_id = some "p1";
  idempotency_key = some 1;
  receipt_id = none;
  billing_period = some monthly;
  created_at = 0;
  paid_at = none;
}

abbrev tables : Tables
tables = record {
  subscriptions = paid_subscription ∷ [];
  payments = first_payment ∷ [];
  accounts =
      (record {
        id = 7;
        name = "acme";
        billing_plan = free;
        owner_user_id = 2;
        created_at = 0;
        updated_at = 0;
      })
      ∷ [];
  next_id = 300;
  clock = 1000;
}

abbrev success : WebhookEvent
success = record {
  provider_payment_id = "p1";
  status = succeeded;
  customer_token = "card";
  receipt_id = "";
  amount_minor = 49000;
}

abbrev after_success : Tables
after_success = (handle_event service success tables).1

redelivery_example : handle_event later_service success after_success ≡ (ok tt, after_success)
unfolding handle_event healthpage.Billing.Repo.payment_by_provider_id first_where
    healthpage.Billing.payment_status_equal activate healthpage.Billing.Repo.update_payment_result
    update_where healthpage.Billing.Repo.subscription_by_account
    healthpage.Billing.Repo.update_subscription healthpage.Billing.Repo.set_account_plan
redelivery_example =
    handle_event-idempotent service later_service success tables after_success refl refl

declined_example :
    (t' : Tables) × (renew_one service paid_subscription tables ≡ (ok tt, t'))
    × HasFailedPayment 300 t'
    × (3 ≤ 0 + 1 → IsOver paid_subscription t' × (t'.accounts ≡ (with_plan 7 free tables).accounts))
    × (0 + 1 < 3 → IsPastDue paid_subscription (1000 + 259200) t' × (t'.accounts ≡ tables.accounts))
unfolding subscription_of charge first_where
declined_example =
    renew_one-declined service paid_subscription paid_subscription tables (λ c. refl) refl refl
      (λ period key. refl)

activation_example :
    (t' : Tables) × (handle_event service success tables ≡ (ok tt, t'))
    × ((s : Subscription) × IsPremium service first_payment t' s)
    × (t'.accounts ≡ (with_plan 7 premium tables).accounts)
unfolding first_where subscription_of
activation_example =
    handle_event-activates service success tables first_payment paid_subscription (λ c. refl) refl
      refl refl refl refl refl
