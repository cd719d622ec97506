-- ===== src/Notify/Retry.antt =====
-- backend/internal/notify/engine.go (Retry) and the statements of
-- backend/internal/store/notifications.go on the journal.
pub mod Schedule
use healthpage.Prelude.{
  ℕ, suc, ◌+◌, ◌-◌, Bool, true, false, not, Option, none, some, if◌then◌else◌, ◌==◌, nat_comparable,
  string_comparable,
}
use healthpage.Page.{Uuid}
use healthpage.Store.Queries.{first_where, update_where}
use healthpage.Notify.{
  Notification, NotificationStatus, Message, Publication, State, Env, Error, emit, delayed,
  store_failed, bad_notification_id, failed, sent,
}
use healthpage.Notify.Backoff.{retry_backoff}

abbrev pub is_notification : Uuid → Notification → Bool
is_notification id n = n.id == id

-- NotificationByID, where the query succeeds
unfoldable pub notification_by_id : Uuid → State → Option Notification
notification_by_id id st = first_where (is_notification id) st.journal

abbrev pub attempted : State → Notification → Notification
attempted st n = record n { attempts = n.attempts + 1; updated_at = st.now }

abbrev pub marked_failed : State → Notification → Notification
marked_failed st n = record n { status = failed; updated_at = st.now }

abbrev pub marked_sent : State → Notification → Notification
marked_sent st n = record n { status = sent; sent_at = some st.now; updated_at = st.now }

-- an UPDATE of the row with this id
abbrev pub update_notification : Uuid → (Notification → Notification) → State → State
update_notification id f st = record st { journal = update_where (is_notification id) f st.journal }

-- IncrementNotificationAttempts: the new value, `none` where the row is missing or the query fails
unfoldable pub increment_notification_attempts : Env → Uuid → State → Option ℕ × State
unfolding notification_by_id
increment_notification_attempts env id st =
    if not (env.increments id)
    then (none, st)
    else let st' = update_notification id (attempted st) st in
      elim (notification_by_id id st') [ none ↦ (none, st) | some n ↦ (some n.attempts, st') ]

-- MarkNotificationFailed, MarkNotificationSent; a missing row is no error
unfoldable pub mark_notification_failed : Env → Uuid → State → Option Error × State
mark_notification_failed env id st =
    if not (env.marks id)
    then (some store_failed, st)
    else (none, update_notification id (marked_failed st) st)

unfoldable pub mark_notification_sent : Env → Uuid → State → Option Error × State
mark_notification_sent env id st =
    if not (env.marks id)
    then (some store_failed, st)
    else (none, update_notification id (marked_sent st) st)

-- the two results of Retry
pub data Scheduled : Type 0 where
  scheduled : Bool → Scheduled
  retry_error : Error → Scheduled

abbrev pub schedule_copy : Env → Message → ℕ → State → Scheduled × State
schedule_copy env copy delay st =
    let (failure, st') = emit env (delayed copy delay) st in
    elim failure [ none ↦ (scheduled true, st') | some e ↦ (retry_error e, st') ]

abbrev pub give_up : Env → Uuid → State → Scheduled × State
give_up env id st =
    let (failure, st') = mark_notification_failed env id st in
    elim failure [ none ↦ (scheduled false, st') | some e ↦ (retry_error e, st') ]

-- what Retry does with the number of this attempt
unfoldable pub retry_attempt : Env → Message → Uuid → ℕ → State → Scheduled × State
retry_attempt env msg id attempt st = elim (retry_backoff attempt) [
  | none ↦ give_up env id st
  | some delay ↦ schedule_copy env (record msg { attempt = attempt }) delay st
]

-- Engine.Retry
unfoldable pub retry : Env → Message → State → Scheduled × State
retry env msg st = elim msg.notification_id [
  | none ↦ (retry_error bad_notification_id, st)
  | some id ↦
      let (attempt, st') = increment_notification_attempts env id st in
      elim attempt [
        | none ↦ (retry_error store_failed, st')
        | some n ↦ retry_attempt env msg id n st'
      ]
]
