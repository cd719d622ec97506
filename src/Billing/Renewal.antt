-- ===== src/Billing/Renewal.antt =====
-- Renewals that fail (backend/internal/billing/service.go, renewOne and downgrade).
use healthpage.Prelude.{
  ◌+◌, ◌≤◌, ◌<◌, String, ◌≡◌, refl, ap, ◌∙◌, inl, inr, Bool, true, false, Option, none, some, [],
  ◌∷◌, ◌++◌, arith, leb, if◌then◌else◌, Bool-cases, ◌==◌, nat_comparable, string_comparable,
  equal_self,
}
use healthpage.Store.Rows.{first_where-update, first_where-holds, first_where-snoc}
use healthpage.Page.{Uuid}
use healthpage.Store.Queries.{first_where, update_where}
use healthpage.Billing.{
  BillingPeriod, Subscription, Payment, PaymentStatus, BillingPlan, free, canceled, failed,
  is_succeeded,
}
use healthpage.Billing.{past_due}
use healthpage.Page.{Time}
use healthpage.Billing.Repo.{
  creates_payment, updates_payment, sets_plan, bind-ok, pure, bind-ok, pure, updates_subscription,
  Tables, Call, ok, ◌>>◌, update_subscription, set_account_plan, create_payment,
  update_payment_result, is_payment, settled, subscription_of, of_account, written,
}
use healthpage.Billing.Service.{
  Service, ChargeResult, renew_one, renew, collect, dun, downgrade, overdue, charge,
  period_or_monthly, pending_payment,
}

-- Every call of the store succeeds.
abbrev pub Works : Service → Type 0
Works svc = (c : Call) → svc.fails c ≡ false

pub written_as :
    (fails : Call → Bool) (sub row : Subscription) (t : Tables)
    → fails (updates_subscription sub.account_id) ≡ false
    → subscription_of sub.account_id t ≡ some row
    → let t' = record t {
      subscriptions =
          update_where (of_account sub.account_id) (written sub t.clock) t.subscriptions;
    } in
      (update_subscription fails sub t ≡ (ok (written sub t.clock row), t'))
      × (subscription_of sub.account_id t' ≡ some (written sub t.clock row))
unfolding update_subscription subscription_of
written_as fails sub row t f e =
    let found =
      first_where-update (of_account sub.account_id) (of_account sub.account_id)
        (written sub t.clock) (λ _. refl) t.subscriptions row e in
    let held = first_where-holds (of_account sub.account_id) t.subscriptions row e in
    let back = found ∙ ap (λ b. some (if b then written sub t.clock row else row)) held in
    (ground (arith, back), back)

-- the tables once a subscription has been written, and the plan of its account set
abbrev pub saved : Subscription → Tables → Tables
saved sub t = record t {
  subscriptions = update_where (of_account sub.account_id) (written sub t.clock) t.subscriptions;
}

abbrev pub with_plan : Uuid → BillingPlan → Tables → Tables
with_plan account plan t = record t {
  accounts =
      update_where (λ a. a.id == account)
        (λ a. record a { billing_plan = plan; updated_at = t.clock }) t.accounts;
}

abbrev pub ended : Subscription → Subscription
ended sub = record sub { status = canceled; plan = free }

downgraded :
    (svc : Service) (sub row : Subscription) (t : Tables)
    → Works svc
    → subscription_of sub.account_id t ≡ some row
    → downgrade svc sub t ≡ (ok tt, with_plan sub.account_id free (saved (ended sub) t))
unfolding downgrade set_account_plan
downgraded svc sub row t w e =
    let plan = w (sets_plan sub.account_id) in
    let first =
      written_as svc.fails (ended sub) row t (w (updates_subscription sub.account_id)) e in
    bind-ok (update_subscription svc.fails (ended sub))
      (λ _. set_account_plan svc.fails sub.account_id free) first.0
    ∙ ground arith

-- No charge of this subscription succeeds.
abbrev pub succeeds : Option ChargeResult → Bool
succeeds none = false
succeeds (some c) = is_succeeded c.status

abbrev pub Declines : Service → Subscription → Type 0
Declines svc sub =
    (period : BillingPeriod) (key : Uuid) → succeeds (charge svc sub period key) ≡ false

collect_declined :
    (svc : Service) (sub : Subscription) (period : BillingPeriod) (key : Uuid) (pay : Payment)
    (t : Tables)
    → Declines svc sub
    → collect svc sub period key pay t ≡ dun svc sub pay t
collect_declined svc sub period key pay t d = ground (arith, d period key)

-- the payment of a renewal, and the tables once it is entered, and once it is marked as failed
abbrev pub renewal_payment : Service → Subscription → Tables → Payment
renewal_payment svc sub t =
    record (pending_payment svc sub sub.account_id (period_or_monthly sub.billing_period)
      (svc.new_key t)) { id = t.next_id; created_at = t.clock }

abbrev pub entered : Service → Subscription → Tables → Tables
entered svc sub t = record t {
  payments = t.payments ++ renewal_payment svc sub t ∷ [];
  next_id = t.next_id + 1;
}

abbrev pub billed : Service → Subscription → Tables → Tables
billed svc sub t = record (entered svc sub t) {
  payments =
      update_where (is_payment t.next_id) (settled failed none none (some svc.now))
        (entered svc sub t).payments;
}

-- the tables after a failed renewal
abbrev pub declined : Service → Subscription → Tables → Tables
declined svc sub t =
    let next = record sub { dunning_attempts = sub.dunning_attempts + 1 } in
    if leb svc.max_dunning (sub.dunning_attempts + 1)
    then with_plan sub.account_id free (saved (ended next) (billed svc sub t))
    else saved (overdue svc sub) (billed svc sub t)

dunned :
    (svc : Service) (sub row : Subscription) (t : Tables)
    → Works svc
    → subscription_of sub.account_id t ≡ some row
    → (if leb svc.max_dunning (sub.dunning_attempts + 1)
          then downgrade svc (record sub { dunning_attempts = sub.dunning_attempts + 1 })
          else (update_subscription svc.fails (overdue svc sub) >> pure tt))
        t
      ≡ (
        ok tt,
        if leb svc.max_dunning (sub.dunning_attempts + 1)
            then with_plan sub.account_id free
                (saved (ended (record sub { dunning_attempts = sub.dunning_attempts + 1 })) t)
            else saved (overdue svc sub) t,
      )
dunned svc sub row t w e =
    let next = record sub { dunning_attempts = sub.dunning_attempts + 1 } in
    elim (Bool-cases (leb svc.max_dunning (sub.dunning_attempts + 1))) [
      | inl exhausted ↦ rw exhausted (downgraded svc next row t w e)
      | inr grace ↦ rw grace (
          bind-ok (update_subscription svc.fails (overdue svc sub)) (λ _. pure tt)
            (written_as svc.fails (overdue svc sub) row t (w (updates_subscription sub.account_id))
              e).0)
    ]

pub marked :
    (svc : Service) (id : Uuid) (s : PaymentStatus) (r : Option String) (t : Tables) (p : Payment)
    → Works svc
    → first_where (is_payment id) t.payments ≡ some p
    → (q : Payment) × (update_payment_result svc.fails id s none r (some svc.now) t ≡ (
      ok q,
      record t {
        payments = update_where (is_payment id) (settled s none r (some svc.now)) t.payments;
      },
    ))
unfolding update_payment_result
marked svc id s r t p w e =
    let f = settled s none r (some svc.now) in
    let found = first_where-update (is_payment id) (is_payment id) f (λ _. refl) t.payments p e in
    let works = w (updates_payment id) in
    (if is_payment id p then f p else p, ground (arith, found))

-- what a renewal that is declined leaves
run_declined :
    (svc : Service) (sub row : Subscription) (t : Tables)
    → Works svc
    → subscription_of sub.account_id t ≡ some row
    → sub.cancel_at_period_end ≡ false
    → Declines svc sub
    → renew_one svc sub t ≡ (ok tt, declined svc sub t)
unfolding renew_one dun create_payment
run_declined svc sub row t w e c d =
    let pay = renewal_payment svc sub t in
    let period = period_or_monthly sub.billing_period in
    let here = first_where-snoc (is_payment t.next_id) t.payments pay (equal_self t.next_id) in
    let free_to_create = w (creates_payment sub.account_id) in
    let creates : create_payment svc.fails
          (pending_payment svc sub sub.account_id period (svc.new_key t)) t
        ≡ (ok pay, entered svc sub t) =
      ground arith in
    let mark = marked svc t.next_id failed none (entered svc sub t) here.0 w here.1 in
    ap (λ b. if b then downgrade svc sub t else renew svc sub t) c
    ∙ bind-ok
        (create_payment svc.fails (pending_payment svc sub sub.account_id period (svc.new_key t)))
        (λ p. collect svc sub period (svc.new_key t) p) creates
    ∙ collect_declined svc sub period (svc.new_key t) pay (entered svc sub t) d
    ∙ bind-ok (update_payment_result svc.fails t.next_id failed none none (some svc.now))
        (λ _.
          if leb svc.max_dunning (sub.dunning_attempts + 1)
          then downgrade svc (record sub { dunning_attempts = sub.dunning_attempts + 1 })
          else (update_subscription svc.fails (overdue svc sub) >> pure tt))
        mark.1
    ∙ dunned svc sub row (billed svc sub t) w (unfold subscription_of in e)

-- the payment of the renewal stands in the tables as failed
billed-failed :
    (svc : Service) (sub : Subscription) (t : Tables)
    → (p : Payment) × (first_where (is_payment t.next_id) (billed svc sub t).payments ≡ some p)
      × (p.status ≡ failed)
billed-failed svc sub t =
    let pay = renewal_payment svc sub t in
    let mark = settled failed none none (some svc.now) in
    let test = is_payment t.next_id in
    let (p, there) = first_where-snoc test t.payments pay (equal_self t.next_id) in
    let held = first_where-holds test (entered svc sub t).payments p there in
    (
      mark p,
      first_where-update test test mark (λ _. refl) (entered svc sub t).payments p there
          ∙ ap (λ b. some (if b then mark p else p)) held,
      refl,
    )

-- The subscription of the account is over: cancelled, on Free, with the attempt counted.
pub record IsOver (sub : Subscription) (t : Tables) : Type 0 where
  pub row : Subscription
  pub is_there : subscription_of sub.account_id t ≡ some row
  pub status : row.status ≡ canceled
  pub plan : row.plan ≡ free
  pub attempts : row.dunning_attempts ≡ sub.dunning_attempts + 1

-- The subscription is in the grace period: past due, on its plan, with the attempt counted, and
-- due again at a time.
pub record IsPastDue (sub : Subscription) (again : Time) (t : Tables) : Type 0 where
  pub row : Subscription
  pub is_there : subscription_of sub.account_id t ≡ some row
  pub status : row.status ≡ past_due
  pub plan : row.plan ≡ sub.plan
  pub attempts : row.dunning_attempts ≡ sub.dunning_attempts + 1
  pub due : row.current_period_end ≡ some again

declined-IsOver :
    (svc : Service) (sub row : Subscription) (t : Tables)
    → Works svc
    → subscription_of sub.account_id t ≡ some row
    → leb svc.max_dunning (sub.dunning_attempts + 1) ≡ true
    → IsOver sub (declined svc sub t)
      × ((declined svc sub t).accounts ≡ (with_plan sub.account_id free t).accounts)
      × ((declined svc sub t).payments ≡ (billed svc sub t).payments)
declined-IsOver svc sub row t w e h =
    let next = ended (record sub { dunning_attempts = sub.dunning_attempts + 1 }) in
    let over = (written_as svc.fails next row t (w (updates_subscription sub.account_id)) e).1 in
    (
      record {
        row = written next t.clock row;
        is_there = unfold subscription_of in (rw h (unfold subscription_of in over));
        status = refl;
        plan = refl;
        attempts = refl;
      },
      ground (arith, h),
      ground (arith, h),
    )

declined-IsPastDue :
    (svc : Service) (sub row : Subscription) (t : Tables)
    → Works svc
    → subscription_of sub.account_id t ≡ some row
    → leb svc.max_dunning (sub.dunning_attempts + 1) ≡ false
    → IsPastDue sub (svc.now + svc.retry_interval) (declined svc sub t)
      × ((declined svc sub t).accounts ≡ t.accounts)
      × ((declined svc sub t).payments ≡ (billed svc sub t).payments)
declined-IsPastDue svc sub row t w e h =
    let next = overdue svc sub in
    let late = (written_as svc.fails next row t (w (updates_subscription sub.account_id)) e).1 in
    (
      record {
        row = written next t.clock row;
        is_there = unfold subscription_of in (rw h (unfold subscription_of in late));
        status = refl;
        plan = refl;
        attempts = refl;
        due = refl;
      },
      ground (arith, h),
      ground (arith, h),
    )

-- the payment of the renewal is in the tables, and failed
abbrev pub HasFailedPayment : Uuid → Tables → Type 0
HasFailedPayment id t =
    (p : Payment) × (first_where (is_payment id) t.payments ≡ some p) × (p.status ≡ failed)

failed_payment :
    (svc : Service) (sub : Subscription) (t t' : Tables)
    → t'.payments ≡ (billed svc sub t).payments
    → HasFailedPayment t.next_id t'
failed_payment svc sub t t' e =
    let (p, there, status) = billed-failed svc sub t in
    (p, ap (first_where (is_payment t.next_id)) e ∙ there, status)

-- A renewal that is not cancelled and whose charge does not succeed, in a store that works: the
-- payment is entered and marked failed and the attempt is counted. If the attempts reach the
-- limit, the subscription is cancelled and it and the account fall back to Free; otherwise the
-- subscription keeps its plan, is past due, and is due again after the retry interval, and the
-- account stays as it is.
pub renew_one-declined :
    (svc : Service) (sub row : Subscription) (t : Tables)
    → Works svc
    → subscription_of sub.account_id t ≡ some row
    → sub.cancel_at_period_end ≡ false
    → Declines svc sub
    → (t' : Tables) × (renew_one svc sub t ≡ (ok tt, t'))
      × HasFailedPayment t.next_id t'
      × (svc.max_dunning ≤ sub.dunning_attempts + 1
          → IsOver sub t' × (t'.accounts ≡ (with_plan sub.account_id free t).accounts))
      × (sub.dunning_attempts + 1 < svc.max_dunning
          → IsPastDue sub (svc.now + svc.retry_interval) t' × (t'.accounts ≡ t.accounts))
renew_one-declined svc sub row t w e c d =
    let run = run_declined svc sub row t w e c d in
    let paid : (declined svc sub t).payments ≡ (billed svc sub t).payments =
      elim (Bool-cases (leb svc.max_dunning (sub.dunning_attempts + 1))) [
        | inl h ↦ (declined-IsOver svc sub row t w e h).2
        | inr h ↦ (declined-IsPastDue svc sub row t w e h).2
      ] in
    (
      declined svc sub t,
      run,
      failed_payment svc sub t (declined svc sub t) paid,
      λ over. let (a, b, _) = declined-IsOver svc sub row t w e (ground (arith, over)) in (a, b),
      λ grace.
          let (a, b, _) = declined-IsPastDue svc sub row t w e (ground (arith, grace)) in (a, b),
    )
