-- ===== src/Notify/Retry/Schedule.antt =====
-- The retries of a delivery that keeps failing (backend/internal/notify/engine.go, Retry).
use healthpage.Prelude.{
  ℕ, zero, suc, ◌+◌, ◌≤◌, ◌≡◌, refl, ap, ◌∙◌, true, false, none, some, List, [], ◌∷◌, ◌++◌, arith,
  ◌==◌, nat_comparable, string_comparable,
}
use healthpage.Store.Rows.{first_where-updated}
use healthpage.Page.{Uuid}
use healthpage.Store.Queries.{first_where, update_where}
use healthpage.Notify.{Notification, Message, Publication, State, Env, delayed}
use healthpage.Notify.Backoff.{get_elem?, retry_backoff, retry_schedule, max_attempts}
use healthpage.Notify.Retry.{
  retry, retry_attempt, notification_by_id, is_notification, update_notification, attempted,
  marked_failed, scheduled, increment_notification_attempts, mark_notification_failed,
}

pub update_where-found :
    (id : Uuid) (f : Notification → Notification)
    → ((n : Notification) → (f n).id ≡ n.id)
    → (l : List Notification) (n : Notification) → first_where (is_notification id) l ≡ some n
    → first_where (is_notification id) (update_where (is_notification id) f l) ≡ some (f n)
update_where-found id f k l n e =
    first_where-updated (is_notification id) f (λ m. ap (λ i. i == id) (k m)) l n e

-- the row after one more attempt
abbrev pub counted : Uuid → State → State
counted id st = update_notification id (attempted st) st

retry_counts :
    (env : Env) (msg : Message) (id : Uuid) (n : Notification) (st : State)
    → msg.notification_id ≡ some id
    → notification_by_id id st ≡ some n
    → env.increments id ≡ true
    → retry env msg st ≡ retry_attempt env msg id (n.attempts + 1) (counted id st)
unfolding retry notification_by_id increment_notification_attempts
retry_counts env msg id n st m e i =
    let row = update_where-found id (attempted st) (λ _. refl) st.journal n e in ground (arith, row)

backoff_within : (a d : ℕ) → get_elem? retry_schedule a ≡ some d → retry_backoff (a + 1) ≡ some d
unfolding retry_backoff
backoff_within zero d e = e
backoff_within (suc zero) d e = e
backoff_within (suc (suc zero)) d e = e
backoff_within (suc (suc (suc a))) d e = ground (arith, e)

backoff_after : (a : ℕ) → max_attempts ≤ a → retry_backoff (a + 1) ≡ none
unfolding retry_backoff
backoff_after a h = ground arith

-- A failed delivery of a message whose row is in the journal, with a store and a broker that
-- work: while the schedule has a delay for the attempts made so far, one copy of the message,
-- carrying the number of the new attempt, is published with that delay and nothing else is;
-- once the schedule is used up, nothing is published, the row is marked failed, and the worker is
-- told to give up. Each time the row counts one more attempt.
pub retry_lem :
    (env : Env) (msg : Message) (id : Uuid) (n : Notification) (st : State)
    → msg.notification_id ≡ some id
    → notification_by_id id st ≡ some n
    → env.increments id ≡ true
    → env.marks id ≡ true
    → ((p : Publication) → env.accepts p ≡ true)
    → ((d : ℕ)
        → get_elem? retry_schedule n.attempts ≡ some d
        → retry env msg st ≡ (
          scheduled true,
          record (counted id st) {
            published = st.published ++ delayed (record msg { attempt = n.attempts + 1 }) d ∷ [];
          },
        ))
      × (max_attempts ≤ n.attempts
          → retry env msg st
            ≡ (scheduled false, update_notification id (marked_failed st) (counted id st)))
unfolding retry_attempt mark_notification_failed
retry_lem env msg id n st m e inc marks acc = (
  λ d h.
      let next = backoff_within n.attempts d h in
      let accepts = acc (delayed (record msg { attempt = n.attempts + 1 }) d) in
      retry_counts env msg id n st m e inc ∙ ground (arith, next, accepts),
  λ h.
      let next = backoff_after n.attempts h in
      retry_counts env msg id n st m e inc ∙ ground (arith, next),
)
