-- ===== src/Billing/Repo.antt =====
-- backend/internal/store/billing.go with its statements (store/db/billing.sql.go): the tables of
-- the billing and the calls of `billing.Repo`. Every call commits on its own: a failure keeps
-- what the earlier calls wrote. Which calls fail is given by `fails`.
use healthpage.Prelude.{
  ℕ, zero, suc, ◌+◌, String, ◌≡◌, refl, ap, Bool, false, not, ◌&&◌, ◌||◌, Option, none, some, List,
  [], ◌∷◌, ◌++◌, arith, leb, if◌then◌else◌, ◌==◌, nat_comparable, string_comparable, keep, any,
}
use healthpage.Page.{Uuid, Time}
use healthpage.Store.Queries.{first_where, update_where}
use healthpage.Billing.{
  BillingPlan, Subscription, Payment, PaymentStatus, Account, free, active, is_premium, is_running,
}

pub record Tables : Type 0 where
  pub subscriptions : List Subscription
  pub payments : List Payment
  pub accounts : List Account
  pub next_id : Uuid
  pub clock : Time

-- the calls of the repository
pub data Call : Type 0 where
  ensures reads_subscription updates_subscription sets_plan creates_payment : Uuid → Call
  reads_payment : String → Call
  updates_payment : Uuid → Call
  lists_due : Call

pub data BillingError : Type 0 where
  invalid_plan invalid_webhook provider_failed repo_failed not_found : BillingError

pub data Outcome {ℓ} (A : Type ℓ) : Type ℓ where
  ok : A → Outcome A
  err : BillingError → Outcome A

abbrev pub Op : Type 0 → Type 0
Op A = Tables → Outcome A × Tables

infixl 5 ◌>>=◌ ◌>>◌
abbrev pub ◌>>=◌ : {A B : Type 0} → Op A → (A → Op B) → Op B
◌>>=◌ m f t = elim (m t).0 [ ok a ↦ f a (m t).1 | err e ↦ (err e, (m t).1) ]

abbrev pub ◌>>◌ : {A B : Type 0} → Op A → Op B → Op B
m >> k = m >>= λ _. k

abbrev pub pure : {A : Type 0} → A → Op A
pure a t = (ok a, t)

abbrev pub throw : {A : Type 0} → BillingError → Op A
throw e t = (err e, t)

abbrev pub of_account : Uuid → Subscription → Bool
of_account account s = s.account_id == account

abbrev pub is_payment : Uuid → Payment → Bool
is_payment id p = p.id == id

abbrev pub has_provider_id : String → Payment → Bool
has_provider_id pid p = elim p.provider_payment_id [ none ↦ false | some q ↦ q == pid ]

unfoldable pub subscription_of : Uuid → Tables → Option Subscription
subscription_of account t = first_where (of_account account) t.subscriptions

unfoldable pub plan_of : Uuid → Tables → Option BillingPlan
plan_of account t = elim (first_where (λ a. a.id == account) t.accounts) [
  | none ↦ none
  | some a ↦ some a.billing_plan
]

-- the row that EnsureSubscription inserts, with the defaults of the table
abbrev pub new_subscription : Uuid → Tables → Subscription
new_subscription account t = record {
  id = t.next_id;
  account_id = account;
  plan = free;
  status = active;
  billing_period = none;
  provider = none;
  provider_customer_token = none;
  trial_ends_at = none;
  current_period_start = none;
  current_period_end = none;
  cancel_at_period_end = false;
  dunning_attempts = 0;
  created_at = t.clock;
  updated_at = t.clock;
}

-- the columns that UpdateSubscription sets
abbrev pub written : Subscription → Time → Subscription → Subscription
written sub now row = record sub {
  id = row.id;
  account_id = row.account_id;
  created_at = row.created_at;
  updated_at = now;
}

-- COALESCE
abbrev pub coalesce : Option String → Option String → Option String
coalesce none old = old
coalesce (some s) old = some s

abbrev pub settled : PaymentStatus → Option String → Option String → Option Time → Payment → Payment
settled status pid receipt paid_at p = record p {
  status = status;
  provider_payment_id = coalesce pid p.provider_payment_id;
  receipt_id = coalesce receipt p.receipt_id;
  paid_at = paid_at;
}

-- the unique index on provider_payment_id: another payment has this identifier
abbrev pub is_taken : Option String → Uuid → Tables → Bool
is_taken none id t = false
is_taken (some pid) id t = any (λ p. has_provider_id pid p && not (p.id == id)) t.payments

-- the WHERE clause of ListDueSubscriptions
abbrev pub is_due : Time → Subscription → Bool
is_due before s =
    is_premium s.plan
    && is_running s.status
    && elim s.current_period_end [ none ↦ false | some end ↦ leb end before ]

-- ORDER BY current_period_end ASC; rows without an end are filtered out before
abbrev pub end_of : Subscription → Time
end_of s = elim s.current_period_end [ none ↦ 0 | some end ↦ end ]

unfoldable pub insert_by_end : Subscription → List Subscription → List Subscription
insert_by_end s [] = s ∷ []
insert_by_end s (x ∷ xs) =
    let rest = insert_by_end s xs in if leb (end_of s) (end_of x) then s ∷ x ∷ xs else x ∷ rest

unfoldable pub sort_by_end : List Subscription → List Subscription
unfolding insert_by_end
sort_by_end [] = []
sort_by_end (x ∷ xs) = insert_by_end x (sort_by_end xs)

-- LIMIT
unfoldable pub take : ℕ → List Subscription → List Subscription
take zero xs = []
take (suc n) [] = []
take (suc n) (x ∷ xs) = x ∷ take n xs

module _ (fails : Call → Bool) where
  -- EnsureSubscription
  unfoldable pub ensure_subscription : Uuid → Op Subscription
  unfolding subscription_of
  ensure_subscription account t =
      if fails (ensures account) then (err repo_failed, t) else elim (subscription_of account t) [
        | some s ↦ (ok s, t)
        | none ↦ (
          ok (new_subscription account t),
          record t {
            subscriptions = t.subscriptions ++ new_subscription account t ∷ [];
            next_id = t.next_id + 1;
          },
        )
      ]

  -- SubscriptionByAccount
  unfoldable pub subscription_by_account : Uuid → Op Subscription
  unfolding subscription_of
  subscription_by_account account t =
      if fails (reads_subscription account)
      then (err repo_failed, t)
      else elim (subscription_of account t) [ none ↦ (err not_found, t) | some s ↦ (ok s, t) ]

  -- UpdateSubscription; no row of the account is the error of the scan
  unfoldable pub update_subscription : Subscription → Op Subscription
  unfolding subscription_of
  update_subscription sub t =
      if fails (updates_subscription sub.account_id)
      then (err repo_failed, t)
      else let t' = record t {
        subscriptions =
            update_where (of_account sub.account_id) (written sub t.clock) t.subscriptions;
      } in
        elim (subscription_of sub.account_id t') [
          | none ↦ (err repo_failed, t)
          | some s ↦ (ok s, t')
        ]

  -- SetAccountPlan
  unfoldable pub set_account_plan : Uuid → BillingPlan → Op (Unit {0})
  set_account_plan account plan t = if fails (sets_plan account) then (err repo_failed, t) else (
    ok tt,
    record t {
      accounts =
          update_where (λ a. a.id == account)
            (λ a. record a { billing_plan = plan; updated_at = t.clock }) t.accounts;
    },
  )

  -- CreatePayment: the columns that the caller leaves out are NULL
  unfoldable pub create_payment : Payment → Op Payment
  create_payment p t =
      if fails (creates_payment p.account_id)
      then (err repo_failed, t)
      else let row = record p {
        id = t.next_id;
        created_at = t.clock;
        receipt_id = none;
        paid_at = none;
      } in
        (ok row, record t { payments = t.payments ++ row ∷ []; next_id = t.next_id + 1 })

  -- PaymentByProviderID
  unfoldable pub payment_by_provider_id : String → Op Payment
  payment_by_provider_id pid t =
      if fails (reads_payment pid)
      then (err repo_failed, t)
      else elim (first_where (has_provider_id pid) t.payments) [
        | none ↦ (err not_found, t)
        | some p ↦ (ok p, t)
      ]

  -- UpdatePaymentResult
  unfoldable pub update_payment_result :
      Uuid → PaymentStatus → Option String → Option String → Option Time → Op Payment
  update_payment_result id status pid receipt paid_at t =
      if fails (updates_payment id) || is_taken pid id t
      then (err repo_failed, t)
      else let t' = record t {
        payments = update_where (is_payment id) (settled status pid receipt paid_at) t.payments;
      } in
        elim (first_where (is_payment id) t'.payments) [
          | none ↦ (err repo_failed, t)
          | some p ↦ (ok p, t')
        ]

  -- ListDueSubscriptions
  unfoldable pub list_due_subscriptions : Time → ℕ → Op (List Subscription)
  unfolding sort_by_end take
  list_due_subscriptions before limit t =
      if fails lists_due
      then (err repo_failed, t)
      else (ok (take limit (sort_by_end (keep (is_due before) t.subscriptions))), t)

-- A sequence that succeeds has a first part that succeeds and a rest that does.
pub bind-inv :
    {A B : Type 0} (m : Op A) (f : A → Op B) (t t' : Tables) (b : B)
    → (m >>= f) t ≡ (ok b, t')
    → (a : A) × ((m t).0 ≡ ok a) × (f a (m t).1 ≡ (ok b, t'))
bind-inv {A} {B} m f t t' b e = go (m t).0 (m t).1 e
  where
    go :
        (r : Outcome A) (s : Tables)
        → elim r as (λ _. Outcome B × Tables) [ ok a ↦ f a s | err x ↦ (err x, s) ] ≡ (ok b, t')
        → (a : A) × (r ≡ ok a) × (f a s ≡ (ok b, t'))
    go (ok a) s k = (a, refl, k)
    go (err x) s k = ground arith

-- A bind goes on after a success.
pub bind-ok :
    {A B : Type 0} (m : Op A) (f : A → Op B) {t s : Tables} {a : A}
    → m t ≡ (ok a, s)
    → (m >>= f) t ≡ f a s
bind-ok m f h = ap (λ r. elim r.0 [ ok a ↦ f a r.1 | err e ↦ (err e, r.1) ]) h
