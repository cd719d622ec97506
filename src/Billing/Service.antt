-- ===== src/Billing/Service.antt =====
-- backend/internal/billing/service.go: checkout, the webhook of the provider, renewals, dunning
-- and cancellation. The provider, the calendar and the clock are parameters; the clock does not
-- move within an operation.
use healthpage.Prelude.{
  ℕ, ◌+◌, String, Bool, true, false, not, ◌||◌, Option, none, some, List, [], ◌∷◌, leb,
  if◌then◌else◌, ◌==◌, nat_comparable, string_comparable, length,
}
use healthpage.Page.{Uuid, Time}
use healthpage.Billing.{
  BillingPlan, BillingPeriod, Subscription, Payment, PaymentStatus, PaymentProvider, Pricing,
  premium, free, pending, active, past_due, canceled, payment_pending, succeeded, failed, refunded,
  monthly, is_premium, is_succeeded, period_is_valid, payment_status_equal, advance, amount_minor,
}
use healthpage.Billing.Repo.{
  Tables, Call, Op, ok, err, ◌>>=◌, ◌>>◌, pure, invalid_plan, invalid_webhook, provider_failed,
  ensure_subscription, subscription_by_account, update_subscription, set_account_plan,
  create_payment, payment_by_provider_id, update_payment_result, list_due_subscriptions,
}

pub record ChargeResult : Type 0 where
  pub provider_payment_id : String
  pub status : PaymentStatus
  pub receipt_id : String

pub record WebhookEvent : Type 0 where
  pub provider_payment_id : String
  pub status : PaymentStatus
  pub customer_token : String
  pub receipt_id : String
  pub amount_minor : ℕ

-- Service, with the provider's methods on what they depend on: the amount, the token and the key
-- of the request; `none` is an error. A webhook request is a string.
pub record Service : Type 0 where
  pub provider_name : PaymentProvider
  pub provider_create : ℕ → String → Uuid → Option (String × String)
  pub charge_recurring : ℕ → String → Uuid → Option ChargeResult
  pub parse_webhook : String → Option WebhookEvent
  pub pricing : Pricing
  pub max_dunning : ℕ
  pub retry_interval : ℕ
  pub add_date : ℕ → ℕ → Time → Time
  pub now : Time
  pub fails : Call → Bool
  pub new_key : Tables → Uuid

-- the empty string is no value
abbrev pub non_empty : String → Option String
non_empty s = if s == "" then none else some s

abbrev pub period_or_monthly : Option BillingPeriod → BillingPeriod
period_or_monthly none = monthly
period_or_monthly (some p) = p

-- the payment that Checkout and renewOne enter
abbrev pub pending_payment : Service → Subscription → Uuid → BillingPeriod → Uuid → Payment
pending_payment svc sub account period key = record {
  id = 0;
  account_id = account;
  subscription_id = some sub.id;
  amount_minor = amount_minor svc.pricing period;
  currency = svc.pricing.currency;
  status = payment_pending;
  provider = some svc.provider_name;
  provider_payment_id = none;
  idempotency_key = some key;
  receipt_id = none;
  billing_period = some period;
  created_at = 0;
  paid_at = none;
}

abbrev pub draw_key : Service → Op Uuid
draw_key svc t = (ok (svc.new_key t), t)

abbrev pub or_fail : {A : Type 0} → Option A → Op A
or_fail none t = (err provider_failed, t)
or_fail (some a) t = (ok a, t)

abbrev pub begin_checkout :
    Service → Uuid → BillingPeriod → String → Op (Uuid × String × PaymentProvider)
begin_checkout svc account period return_url = do
  sub ← ensure_subscription svc.fails account
  key ← draw_key svc
  pay ← create_payment svc.fails (pending_payment svc sub account period key)
  res ← or_fail (svc.provider_create (amount_minor svc.pricing period) return_url key)
  _ ← update_payment_result svc.fails pay.id payment_pending (some res.0) none none
  _ ← update_subscription svc.fails (record sub {
    status = pending;
    provider = some svc.provider_name;
    billing_period = some period;
  })
  pure (pay.id, res.1, svc.provider_name)

-- Service.Checkout
unfoldable pub checkout :
    Service → Uuid → BillingPlan → BillingPeriod → String → Op (Uuid × String × PaymentProvider)
checkout svc account plan period return_url t =
    if not (is_premium plan)
    then (err invalid_plan, t)
    else if not (period_is_valid period)
    then (err invalid_plan, t)
    else begin_checkout svc account period return_url t

-- the subscription that activate writes
abbrev pub activated : Service → Payment → WebhookEvent → Subscription → Subscription
activated svc pay ev sub =
    let period = period_or_monthly pay.billing_period in
    record sub {
      plan = premium;
      status = active;
      billing_period = some period;
      current_period_start = some svc.now;
      current_period_end = some (advance svc.add_date period svc.now);
      cancel_at_period_end = false;
      dunning_attempts = 0;
      provider_customer_token =
          if ev.customer_token == "" then sub.provider_customer_token else some ev.customer_token;
      provider = elim pay.provider [ none ↦ sub.provider | some p ↦ some p ];
    }

-- Service.activate
unfoldable pub activate : Service → Payment → WebhookEvent → Op (Unit {0})
activate svc pay ev = do
  _ ← update_payment_result svc.fails pay.id succeeded none (non_empty ev.receipt_id) (some svc.now)
  sub ← subscription_by_account svc.fails pay.account_id
  _ ← update_subscription svc.fails (activated svc pay ev sub)
  set_account_plan svc.fails sub.account_id premium

-- the switch of HandleWebhook
abbrev pub settle : Service → Payment → WebhookEvent → Op (Unit {0})
settle svc pay ev = elim ev.status [
  | payment_pending ↦ pure tt
  | succeeded ↦ activate svc pay ev
  | failed ↦ update_payment_result svc.fails pay.id ev.status none none (some svc.now) >> pure tt
  | refunded ↦ update_payment_result svc.fails pay.id ev.status none none (some svc.now) >> pure tt
  | _ ↦ pure tt
]

-- HandleWebhook, on the event: every error of the lookup is taken for an unknown payment
unfoldable pub handle_event : Service → WebhookEvent → Op (Unit {0})
handle_event svc ev t = elim (payment_by_provider_id svc.fails ev.provider_payment_id t).0 [
  | err e ↦ (ok tt, t)
  | ok pay ↦
      if payment_status_equal pay.status ev.status || is_succeeded pay.status
      then (ok tt, t)
      else settle svc pay ev t
]

-- Service.HandleWebhook
unfoldable pub handle_webhook : Service → String → Op (Unit {0})
handle_webhook svc request t = elim (svc.parse_webhook request) [
  | none ↦ (err invalid_webhook, t)
  | some ev ↦ handle_event svc ev t
]

-- Service.Cancel
unfoldable pub cancel : Service → Uuid → Op Subscription
cancel svc account = do
  sub ← ensure_subscription svc.fails account
  update_subscription svc.fails (record sub { cancel_at_period_end = true })

-- Service.downgrade
unfoldable pub downgrade : Service → Subscription → Op (Unit {0})
downgrade svc sub = do
  _ ← update_subscription svc.fails (record sub { status = canceled; plan = free })
  set_account_plan svc.fails sub.account_id free

-- what renewOne does after a charge that succeeded
abbrev pub renewed : Service → Subscription → BillingPeriod → Subscription
renewed svc sub period = record sub {
  status = active;
  current_period_start = some svc.now;
  current_period_end = some (advance svc.add_date period svc.now);
  dunning_attempts = 0;
}

abbrev pub extend : Service → Subscription → BillingPeriod → Payment → ChargeResult → Op (Unit {0})
extend svc sub period pay charge = do
  _ ←
      update_payment_result svc.fails pay.id succeeded (some charge.provider_payment_id)
        (non_empty charge.receipt_id) (some svc.now)
  _ ← update_subscription svc.fails (renewed svc sub period)
  set_account_plan svc.fails sub.account_id premium

-- the subscription in the grace period
abbrev pub overdue : Service → Subscription → Subscription
overdue svc sub = record sub {
  status = past_due;
  current_period_end = some (svc.now + svc.retry_interval);
  dunning_attempts = sub.dunning_attempts + 1;
}

-- what renewOne does after a charge that did not succeed
unfoldable pub dun : Service → Subscription → Payment → Op (Unit {0})
unfolding downgrade
dun svc sub pay = do
  _ ← update_payment_result svc.fails pay.id failed none none (some svc.now)
  if leb svc.max_dunning (sub.dunning_attempts + 1)
      then downgrade svc (record sub { dunning_attempts = sub.dunning_attempts + 1 })
      else (update_subscription svc.fails (overdue svc sub) >> pure tt)

-- the recurring charge, `none` without a saved payment method or at an error
unfoldable pub charge : Service → Subscription → BillingPeriod → Uuid → Option ChargeResult
charge svc sub period key = elim sub.provider_customer_token [
  | none ↦ none
  | some token ↦
      if token == "" then none else svc.charge_recurring (amount_minor svc.pricing period) token key
]

abbrev pub collect : Service → Subscription → BillingPeriod → Uuid → Payment → Op (Unit {0})
collect svc sub period key pay = elim (charge svc sub period key) [
  | none ↦ dun svc sub pay
  | some c ↦ if is_succeeded c.status then extend svc sub period pay c else dun svc sub pay
]

abbrev pub renew : Service → Subscription → Op (Unit {0})
renew svc sub = do
  key ← draw_key svc
  pay ←
      create_payment svc.fails
        (pending_payment svc sub sub.account_id (period_or_monthly sub.billing_period) key)
  collect svc sub (period_or_monthly sub.billing_period) key pay

-- Service.renewOne
unfoldable pub renew_one : Service → Subscription → Op (Unit {0})
unfolding downgrade
renew_one svc sub t = if sub.cancel_at_period_end then downgrade svc sub t else renew svc sub t

unfoldable pub renew_all : Service → List Subscription → Op (Unit {0})
renew_all svc [] = pure tt
renew_all svc (sub ∷ rest) = renew_one svc sub >> renew_all svc rest

-- Service.ProcessDue
unfoldable pub process_due : Service → ℕ → Op ℕ
unfolding renew_all
process_due svc limit = do
  due ← list_due_subscriptions svc.fails svc.now limit
  renew_all svc due
  pure (length due)
