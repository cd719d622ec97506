-- ===== src/Billing.antt =====
-- backend/internal/domain/billing.go, features.go and billing/provider.go: subscriptions,
-- payments, tariffs and what a plan allows. `other` constructors are Go strings outside the enums.
-- Amounts are natural numbers of minor units; the keys that `uuid.NewString` draws are numbers.
pub mod Repo
pub mod Service
pub mod Webhook
pub mod Renewal
pub mod Activation
use healthpage.Prelude.{
  ℕ, suc, ◌-◌, String, ap, Bool, true, false, ◌&&◌, ◌||◌, Option, none, some, map, ltb,
  if◌then◌else◌, ◌==◌, nat_comparable, string_comparable, All,
}
use healthpage.Page.{Uuid, Time}

pub data BillingPlan : Type 0 where
  free premium : BillingPlan
  other_plan : String → BillingPlan

abbrev pub is_premium : BillingPlan → Bool
is_premium premium = true
is_premium _ = false

pub data Feature : Type 0 where
  custom_domain private_pages custom_smtp white_label priority_support : Feature
  other_feature : String → Feature

-- the map premiumFeatures
unfoldable pub premium_features : Feature → Bool
premium_features (other_feature _) = false
premium_features _ = true

-- PlanAllows
unfoldable pub plan_allows : BillingPlan → Feature → Bool
plan_allows plan f = if premium_features f then is_premium plan else true

pub data SubscriptionStatus : Type 0 where
  pending active past_due canceled : SubscriptionStatus
  other_status : String → SubscriptionStatus

-- Status == active || Status == past_due
abbrev pub is_running : SubscriptionStatus → Bool
is_running active = true
is_running past_due = true
is_running _ = false

pub data PaymentStatus : Type 0 where
  payment_pending succeeded failed refunded : PaymentStatus
  other_payment_status : String → PaymentStatus

abbrev pub is_succeeded : PaymentStatus → Bool
is_succeeded succeeded = true
is_succeeded _ = false

unfoldable pub payment_status_equal : PaymentStatus → PaymentStatus → Bool
payment_status_equal payment_pending payment_pending = true
payment_status_equal succeeded succeeded = true
payment_status_equal failed failed = true
payment_status_equal refunded refunded = true
payment_status_equal (other_payment_status a) (other_payment_status b) = a == b
payment_status_equal _ _ = false

pub data PaymentProvider : Type 0 where
  yookassa tinkoff cloudpayments robokassa : PaymentProvider
  other_provider : String → PaymentProvider

pub data BillingPeriod : Type 0 where
  monthly yearly : BillingPeriod
  other_period : String → BillingPeriod

-- BillingPeriod.IsValid
unfoldable pub period_is_valid : BillingPeriod → Bool
period_is_valid (other_period _) = false
period_is_valid _ = true

-- BillingPeriod.Advance, given the calendar's `AddDate` on years, months and a moment
unfoldable pub advance : (ℕ → ℕ → Time → Time) → BillingPeriod → Time → Time
advance add_date yearly from = add_date 1 0 from
advance add_date _ from = add_date 0 1 from

pub record Subscription : Type 0 where
  pub id : Uuid
  pub account_id : Uuid
  pub plan : BillingPlan
  pub status : SubscriptionStatus
  pub billing_period : Option BillingPeriod
  pub provider : Option PaymentProvider
  pub provider_customer_token : Option String
  pub trial_ends_at : Option Time
  pub current_period_start : Option Time
  pub current_period_end : Option Time
  pub cancel_at_period_end : Bool
  pub dunning_attempts : ℕ
  pub created_at : Time
  pub updated_at : Time

-- Subscription.GrantsPremium
unfoldable pub grants_premium : Subscription → Bool
grants_premium s = is_premium s.plan && is_running s.status

-- Subscription.InTrial
unfoldable pub in_trial : Time → Subscription → Bool
in_trial now s = elim s.trial_ends_at [ none ↦ false | some end ↦ ltb now end ]

pub record Payment : Type 0 where
  pub id : Uuid
  pub account_id : Uuid
  pub subscription_id : Option Uuid
  pub amount_minor : ℕ
  pub currency : String
  pub status : PaymentStatus
  pub provider : Option PaymentProvider
  pub provider_payment_id : Option String
  pub idempotency_key : Option Uuid
  pub receipt_id : Option String
  pub billing_period : Option BillingPeriod
  pub created_at : Time
  pub paid_at : Option Time

pub record Pricing : Type 0 where
  pub monthly_minor : ℕ
  pub yearly_minor : ℕ
  pub currency : String
  pub trial_days : ℕ

-- Pricing.AmountMinor
unfoldable pub amount_minor : Pricing → BillingPeriod → ℕ
amount_minor p yearly = p.yearly_minor
amount_minor p _ = p.monthly_minor

pub record Account : Type 0 where
  pub id : Uuid
  pub name : String
  pub billing_plan : BillingPlan
  pub owner_user_id : Uuid
  pub created_at : Time
  pub updated_at : Time
