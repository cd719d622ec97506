-- ===== src/Billing/Activation.antt =====
-- What a successful first payment does (backend/internal/billing/service.go, activate).
use healthpage.Prelude.{
  ◌≡◌, refl, sym, ap, ◌∙◌, subst, true, false, ◌||◌, none, some, arith, if◌then◌else◌,
  nat_comparable, string_comparable,
}
use healthpage.Page.{Uuid}
use healthpage.Store.Queries.{first_where, update_where}
use healthpage.Billing.{
  Subscription, Payment, PaymentStatus, premium, succeeded, payment_pending, failed, refunded,
  other_payment_status, grants_premium, advance, is_succeeded, payment_status_equal,
}
use healthpage.Billing.Webhook.{handled_new}
use healthpage.Billing.Repo.{
  Tables, Op, ok, ◌>>=◌, ◌>>◌, bind-ok, update_payment_result, subscription_by_account,
  update_subscription, set_account_plan, is_payment, settled, subscription_of, has_provider_id,
  written, of_account, reads_payment, reads_subscription, updates_subscription, sets_plan,
}
use healthpage.Billing.Service.{
  Service, WebhookEvent, handle_event, activate, activated, settle, non_empty, period_or_monthly,
}
use healthpage.Billing.Renewal.{Works, written_as, marked, saved, with_plan}

-- the tables once the payment is marked as succeeded
abbrev pub paid : Service → Payment → WebhookEvent → Tables → Tables
paid svc pay ev t = record t {
  payments =
      update_where (is_payment pay.id)
        (settled succeeded none (non_empty ev.receipt_id) (some svc.now)) t.payments;
}

-- the rest of activate
after_payment : Service → Payment → WebhookEvent → Op (Unit {0})
after_payment svc pay ev = do
  sub ← subscription_by_account svc.fails pay.account_id
  _ ← update_subscription svc.fails (activated svc pay ev sub)
  set_account_plan svc.fails sub.account_id premium

reads :
    (svc : Service) (account : Uuid) (t : Tables) (sub : Subscription)
    → Works svc
    → subscription_of account t ≡ some sub
    → subscription_by_account svc.fails account t ≡ (ok sub, t)
unfolding subscription_by_account
reads svc account t sub w e = let free = w (reads_subscription account) in ground (arith, e)

activates :
    (svc : Service) (pay p : Payment) (ev : WebhookEvent) (sub : Subscription) (t : Tables)
    → Works svc
    → first_where (is_payment pay.id) t.payments ≡ some p
    → subscription_of pay.account_id t ≡ some sub
    → sub.account_id ≡ pay.account_id
    → activate svc pay ev t ≡ (
      ok tt,
      with_plan sub.account_id premium (saved (activated svc pay ev sub) (paid svc pay ev t)),
    )
unfolding activate after_payment subscription_of set_account_plan
activates svc pay p ev sub t w e f a =
    let plan = w (sets_plan sub.account_id) in
    bind-ok
      (update_payment_result svc.fails pay.id succeeded none (non_empty ev.receipt_id)
        (some svc.now))
      (λ _. after_payment svc pay ev)
      (marked svc pay.id succeeded (non_empty ev.receipt_id) t p w e).1
    ∙ bind-ok (subscription_by_account svc.fails pay.account_id)
        (λ s.
          update_subscription svc.fails (activated svc pay ev s)
          >> set_account_plan svc.fails s.account_id premium)
        (reads svc pay.account_id (paid svc pay ev t) sub w f)
    ∙ bind-ok (update_subscription svc.fails (activated svc pay ev sub))
        (λ _. set_account_plan svc.fails sub.account_id premium)
        (written_as svc.fails (activated svc pay ev sub) sub (paid svc pay ev t)
          (w (updates_subscription sub.account_id))
          (subst (λ x. first_where (of_account x) t.subscriptions ≡ some sub) (sym a) f)).0
    ∙ ground arith

success_fresh :
    (s : PaymentStatus)
    → is_succeeded s ≡ false
    → payment_status_equal s succeeded || is_succeeded s ≡ false
unfolding payment_status_equal
success_fresh payment_pending e = refl
success_fresh succeeded e = e
success_fresh failed e = refl
success_fresh refunded e = refl
success_fresh (other_payment_status a) e = refl

-- the switch on an event of success
settles :
    (svc : Service) (pay : Payment) (ev : WebhookEvent) (t : Tables)
    → ev.status ≡ succeeded
    → settle svc pay ev t ≡ activate svc pay ev t
unfolding activate
settles svc pay ev t e = ap (λ s. settle svc pay (record ev { status = s }) t) e

-- What an account has once a payment of it has been processed.
pub record IsPremium (svc : Service) (pay : Payment) (t : Tables) (sub : Subscription)
    : Type 0 where
  pub stored : subscription_of pay.account_id t ≡ some sub
  pub grants : grants_premium sub ≡ true
  pub until :
      sub.current_period_end
      ≡ some (advance svc.add_date (period_or_monthly pay.billing_period) svc.now)
  pub renews : sub.cancel_at_period_end ≡ false
  pub attempts : sub.dunning_attempts ≡ 0

-- The event of success for a payment that has not succeeded yet, of an account with a
-- subscription, in a store that works: the webhook is accepted, the subscription grants Premium
-- for one period from now, renews itself and has no failed attempts, and the account is switched
-- to Premium.
pub handle_event-activates :
    (svc : Service) (ev : WebhookEvent) (t : Tables) (pay : Payment) (sub : Subscription)
    → Works svc
    → ev.status ≡ succeeded
    → first_where (has_provider_id ev.provider_payment_id) t.payments ≡ some pay
    → first_where (is_payment pay.id) t.payments ≡ some pay
    → is_succeeded pay.status ≡ false
    → subscription_of pay.account_id t ≡ some sub
    → sub.account_id ≡ pay.account_id
    → (t' : Tables) × (handle_event svc ev t ≡ (ok tt, t'))
      × ((s : Subscription) × IsPremium svc pay t' s)
      × (t'.accounts ≡ (with_plan pay.account_id premium t).accounts)
unfolding grants_premium
handle_event-activates svc ev t pay sub w e found own fresh f a =
    let guard =
      subst (λ s. payment_status_equal pay.status s || is_succeeded pay.status ≡ false) (sym e)
        (success_fresh pay.status fresh) in
    let readable = w (reads_payment ev.provider_payment_id) in
    let mine = subst (λ x. subscription_of x t ≡ some sub) (sym a) f in
    let kept =
      (written_as svc.fails (activated svc pay ev sub) sub (paid svc pay ev t)
        (w (updates_subscription sub.account_id)) (unfold subscription_of in mine)).1 in
    (
      with_plan sub.account_id premium (saved (activated svc pay ev sub) (paid svc pay ev t)),
      handled_new svc ev t pay found guard
          ∙ ap (λ b. if b then (ok tt, t) else settle svc pay ev t) readable
          ∙ settles svc pay ev t e
          ∙ activates svc pay pay ev sub t w own f a,
      (
        written (activated svc pay ev sub) t.clock sub,
        record {
          stored =
              unfold subscription_of in
              (subst
                (λ x.
                  first_where (of_account x)
                    (saved (activated svc pay ev sub) (paid svc pay ev t)).subscriptions
                  ≡ some (written (activated svc pay ev sub) t.clock sub))
                a (unfold subscription_of in kept));
          grants = refl;
          until = refl;
          renews = refl;
          attempts = refl;
        },
      ),
      ap (λ x. (with_plan x premium t).accounts) a,
    )
