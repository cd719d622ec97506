-- ===== src/Billing/Webhook.antt =====
-- The webhook of the payment provider (backend/internal/billing/service.go, HandleWebhook and
-- activate): redelivery, final payments and the activation of Premium.
use healthpage.Prelude.{
  String, ◌≡◌, refl, sym, ap, ◌∙◌, subst, ◌⊎◌, inl, inr, Bool, true, false, ◌||◌, Option, none,
  some, arith, if◌then◌else◌, Bool-cases, Option-cases, nat_comparable, string_comparable,
  equal_self,
}
use healthpage.Store.Rows.{first_where-update}
use healthpage.Page.{Uuid, Time}
use healthpage.Store.Queries.{first_where, update_where}
use healthpage.Billing.{
  BillingPlan, other_payment_status, Subscription, Payment, PaymentStatus, premium, succeeded,
  failed, refunded, payment_pending, is_succeeded, payment_status_equal,
}
use healthpage.Billing.Repo.{
  pure, bind-inv, ◌>>=◌, ◌>>◌, Tables, Call, ok, subscription_by_account, update_subscription,
  set_account_plan, payment_by_provider_id, update_payment_result, reads_payment, has_provider_id,
  is_payment, settled,
}
use healthpage.Billing.Service.{
  Service, WebhookEvent, handle_event, activate, settle, activated, non_empty,
}

pub status_equal_self : (s : PaymentStatus) → payment_status_equal s s ≡ true
unfolding payment_status_equal
status_equal_self payment_pending = refl
status_equal_self succeeded = refl
status_equal_self failed = refl
status_equal_self refunded = refl
status_equal_self (other_payment_status a) = ground (arith, equal_self a)

-- A payment that has succeeded is final: whatever event arrives for it, even a refund, and
-- whatever calls fail, the webhook is accepted and nothing changes. So an activation that stops
-- after the payment was marked is not taken up again by a redelivery.
handle_event-final :
    (svc : Service) (ev : WebhookEvent) (t : Tables) (pay : Payment)
    → first_where (has_provider_id ev.provider_payment_id) t.payments ≡ some pay
    → is_succeeded pay.status ≡ true
    → handle_event svc ev t ≡ (ok tt, t)
unfolding handle_event payment_by_provider_id
handle_event-final svc ev t pay e s =
    elim (Bool-cases (svc.fails (reads_payment ev.provider_payment_id))) [
      | inl f ↦ ground (arith)
      | inr f ↦ ground (arith)
    ]

-- what a success of UpdatePaymentResult without a new identifier has done to the payments
update_payment_result-ok :
    (fails : Call → Bool) (id : Uuid) (s : PaymentStatus) (r : Option String) (paid : Option Time)
    (t : Tables) (p : Payment)
    → (update_payment_result fails id s none r paid t).0 ≡ ok p
    → (update_payment_result fails id s none r paid t).1.payments
      ≡ update_where (is_payment id) (settled s none r paid) t.payments
unfolding update_payment_result
update_payment_result-ok fails id s r paid t p e = ground arith

update_subscription-payments :
    (fails : Call → Bool) (sub : Subscription) (t : Tables)
    → (update_subscription fails sub t).1.payments ≡ t.payments
unfolding update_subscription
update_subscription-payments fails sub t = ground arith

subscription_by_account-payments :
    (fails : Call → Bool) (account : Uuid) (t : Tables)
    → (subscription_by_account fails account t).1.payments ≡ t.payments
unfolding subscription_by_account
subscription_by_account-payments fails account t = ground arith

set_account_plan-payments :
    (fails : Call → Bool) (account : Uuid) (plan : BillingPlan) (t : Tables)
    → (set_account_plan fails account plan t).1.payments ≡ t.payments
unfolding set_account_plan
set_account_plan-payments fails account plan t = ground arith

activate-payments :
    (svc : Service) (pay : Payment) (ev : WebhookEvent) (t t' : Tables)
    → activate svc pay ev t ≡ (ok tt, t')
    → t'.payments
      ≡ update_where
          (is_payment pay.id)
          (settled succeeded none (non_empty ev.receipt_id) (some svc.now))
          t.payments
unfolding activate
activate-payments svc pay ev t t' e =
    let paid =
      update_payment_result svc.fails pay.id succeeded none (non_empty ev.receipt_id)
        (some svc.now) in
    let first =
      bind-inv paid
        (λ _. do
          sub ← subscription_by_account svc.fails pay.account_id
          _ ← update_subscription svc.fails (activated svc pay ev sub)
          set_account_plan svc.fails sub.account_id premium)
        t t' tt e in
    let second =
      bind-inv (subscription_by_account svc.fails pay.account_id)
        (λ sub. do
          _ ← update_subscription svc.fails (activated svc pay ev sub)
          set_account_plan svc.fails sub.account_id premium)
        (paid t).1 t' tt first.2 in
    let third =
      bind-inv (update_subscription svc.fails (activated svc pay ev second.0))
        (λ _. set_account_plan svc.fails second.0.account_id premium)
        (subscription_by_account svc.fails pay.account_id (paid t).1).1 t' tt second.2 in
    let marked =
      update_payment_result-ok svc.fails pay.id succeeded (non_empty ev.receipt_id) (some svc.now) t
        first.0 first.1 in
    let kept =
      update_subscription-payments svc.fails (activated svc pay ev second.0)
        (subscription_by_account svc.fails pay.account_id (paid t).1).1 in
    let plan =
      set_account_plan-payments svc.fails second.0.account_id premium
        (update_subscription svc.fails (activated svc pay ev second.0)
          (subscription_by_account svc.fails pay.account_id (paid t).1).1).1 in
    sym (ap (λ r. r.1.payments) third.2)
    ∙ plan
    ∙ kept
    ∙ subscription_by_account-payments svc.fails pay.account_id (paid t).1
    ∙ marked

-- marking a payment failed or refunded
mark-payments :
    (svc : Service) (pay : Payment) (s : PaymentStatus) (t t' : Tables)
    → (update_payment_result svc.fails pay.id s none none (some svc.now) >> pure tt) t ≡ (ok tt, t')
    → t'.payments ≡ update_where (is_payment pay.id) (settled s none none (some svc.now)) t.payments
mark-payments svc pay s t t' e =
    let first =
      bind-inv (update_payment_result svc.fails pay.id s none none (some svc.now)) (λ _. pure tt) t
        t' tt e in
    sym (ap (λ r. r.1.payments) first.2)
    ∙ update_payment_result-ok svc.fails pay.id s none (some svc.now) t first.0 first.1

-- a success of the switch leaves the tables alone, as it then always does, or gives the payment
-- the status of the event
abbrev pub Settles : Service → Payment → WebhookEvent → Tables → Tables → Type 0
Settles svc pay ev t t' =
    (((other : Service) → settle other pay ev t ≡ (ok tt, t)) × (t' ≡ t))
    ⊎ ((receipt : Option String) × (t'.payments
          ≡ update_where (is_payment pay.id) (settled ev.status none receipt (some svc.now))
              t.payments))

settle-Settles :
    (svc : Service) (pay : Payment) (ev : WebhookEvent) (t t' : Tables)
    → settle svc pay ev t ≡ (ok tt, t')
    → Settles svc pay ev t t'
settle-Settles svc pay ev t t' e = go ev.status e
  where
    go :
        (s : PaymentStatus)
        → settle svc pay (record ev { status = s }) t ≡ (ok tt, t')
        → Settles svc pay (record ev { status = s }) t t'
    go payment_pending k = inl (λ other. refl, sym (ap (λ r. r.1) k))
    go succeeded k = inr (
      non_empty ev.receipt_id,
      activate-payments svc pay (record ev { status = succeeded }) t t' k,
    )
    go failed k = inr (none, mark-payments svc pay failed t t' k)
    go refunded k = inr (none, mark-payments svc pay refunded t t' k)
    go (other_payment_status a) k = inl (λ other. refl, sym (ap (λ r. r.1) k))

-- an event that the guard stops, or for an unknown payment, is passed over
passed_over :
    (svc : Service) (ev : WebhookEvent) (t : Tables) (pay : Payment)
    → first_where (has_provider_id ev.provider_payment_id) t.payments ≡ some pay
    → payment_status_equal pay.status ev.status || is_succeeded pay.status ≡ true
    → handle_event svc ev t ≡ (ok tt, t)
unfolding handle_event payment_by_provider_id
passed_over svc ev t pay e s =
    elim (Bool-cases (svc.fails (reads_payment ev.provider_payment_id))) [
      | inl f ↦ ground (arith)
      | inr f ↦ ground (arith)
    ]

handled_already :
    (svc : Service) (ev : WebhookEvent) (t : Tables) (pay : Payment)
    → first_where (has_provider_id ev.provider_payment_id) t.payments ≡ some pay
    → pay.status ≡ ev.status
    → handle_event svc ev t ≡ (ok tt, t)
handled_already svc ev t pay e s = passed_over svc ev t pay e (
    subst (λ x. payment_status_equal x ev.status || is_succeeded x ≡ true) (sym s)
      (ap (λ b. b || is_succeeded ev.status) (status_equal_self ev.status)))

handled_unknown :
    (svc : Service) (ev : WebhookEvent) (t : Tables)
    → first_where (has_provider_id ev.provider_payment_id) t.payments ≡ none
    → handle_event svc ev t ≡ (ok tt, t)
unfolding handle_event payment_by_provider_id
handled_unknown svc ev t e = ground arith

pub handled_new :
    (svc : Service) (ev : WebhookEvent) (t : Tables) (pay : Payment)
    → first_where (has_provider_id ev.provider_payment_id) t.payments ≡ some pay
    → payment_status_equal pay.status ev.status || is_succeeded pay.status ≡ false
    → handle_event svc ev t ≡ (
        if svc.fails (reads_payment ev.provider_payment_id)
        then (ok tt, t)
        else settle svc pay ev t)
unfolding handle_event payment_by_provider_id
handled_new svc ev t pay e g =
    elim (Bool-cases (svc.fails (reads_payment ev.provider_payment_id))) [
      | inl f ↦ ground (arith)
      | inr f ↦ ground (arith)
    ]

redelivered :
    (svc later : Service) (ev : WebhookEvent) (t t' : Tables) (pay : Payment)
    → first_where (has_provider_id ev.provider_payment_id) t.payments ≡ some pay
    → payment_status_equal pay.status ev.status || is_succeeded pay.status ≡ false
    → Settles svc pay ev t t'
    → handle_event later ev t' ≡ (ok tt, t')
redelivered svc later ev t t' pay e g (inl (still, same)) =
    subst (λ x. handle_event later ev x ≡ (ok tt, x)) (sym same)
      (handled_new later ev t pay e g ∙ ground (arith, still later))
redelivered svc later ev t t' pay e g (inr (receipt, marked)) =
    let f = settled ev.status none receipt (some svc.now) in
    let p = has_provider_id ev.provider_payment_id in
    let found = first_where-update p (is_payment pay.id) f (λ _. refl) t.payments pay e in
    let self = equal_self pay.id in
    handled_already later ev t' (f pay)
      (ap (first_where p) marked ∙ found ∙ ap (λ b. some (if b then f pay else pay)) self) refl

-- Redelivery of a webhook: once an event has been processed without an error, on a payment that
-- could be read, processing it again, at any later time and whatever calls fail then, is accepted
-- and changes nothing: no second activation, no second renewal of the period.
pub handle_event-idempotent :
    (svc later : Service) (ev : WebhookEvent) (t t' : Tables)
    → svc.fails (reads_payment ev.provider_payment_id) ≡ false
    → handle_event svc ev t ≡ (ok tt, t')
    → handle_event later ev t' ≡ (ok tt, t')
handle_event-idempotent svc later ev t t' reads e =
    let p = has_provider_id ev.provider_payment_id in
    elim (Option-cases (first_where p t.payments)) [
      | inl missing ↦
          let same : t ≡ t' = ap (λ r. r.1) (sym (handled_unknown svc ev t missing) ∙ e) in
          subst (λ x. handle_event later ev x ≡ (ok tt, x)) same
            (handled_unknown later ev t missing)
      | inr (pay, found) ↦
          elim (Bool-cases (payment_status_equal pay.status ev.status || is_succeeded pay.status)) [
            | inl guard ↦
                let same : t ≡ t' =
                  ap (λ r. r.1) (sym (passed_over svc ev t pay found guard) ∙ e) in
                subst (λ x. handle_event later ev x ≡ (ok tt, x)) same
                  (passed_over later ev t pay found guard)
            | inr fresh ↦
                let run : settle svc pay ev t ≡ (ok tt, t') =
                  sym (ap (λ b. if b then (ok tt, t) else settle svc pay ev t) reads)
                  ∙ sym (handled_new svc ev t pay found fresh)
                  ∙ e in
                redelivered svc later ev t t' pay found fresh (settle-Settles svc pay ev t t' run)
          ]
    ]
