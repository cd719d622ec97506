-- ===== src/Notify/Worker.antt =====
-- The channel workers (Process of backend/internal/email/worker.go, telegram/worker.go,
-- slack/worker.go and webhookout/worker.go): what becomes of one message of the queue.
-- Loading the page, rendering the text and the delivery itself are given by `Outside`; a message
-- that is not JSON is `none`.
pub mod Once
use healthpage.Prelude.{
  ◌+◌, ◌-◌, String, ap, Bool, true, false, not, Option, none, some, List, [], ◌∷◌, ◌++◌,
  if◌then◌else◌, pos, nat_comparable, string_comparable,
}
use healthpage.Page.{Uuid}
use healthpage.Notify.{NotificationStatus, Message, State, Env, sent}
use healthpage.Notify.Retry.{
  scheduled, retry_error, notification_by_id, mark_notification_sent, retry, Scheduled,
}

-- Disposition
pub data Disposition : Type 0 where
  ack reject requeue : Disposition

-- what a delivery returns: no error, an error with Permanent set, or another one
pub data Delivery : Type 0 where
  delivered permanent_error transient_error : Delivery

-- The store and the broker, the reads that fail, and the world outside.
pub record Outside : Type 0 where
  pub engine : Env
  pub loads : Uuid → Bool
  pub builds : Message → Bool
  pub delivers : Message → Delivery

-- The journal and the queue, and the messages delivered so far.
pub record WorkerState : Type 0 where
  pub state : State
  pub deliveries : List Message

abbrev pub is_sent : NotificationStatus → Bool
is_sent sent = true
is_sent _ = false

-- handleSendFailure, the same in each worker
unfoldable pub handle_send_failure : Env → Message → WorkerState → Disposition × WorkerState
handle_send_failure env msg w =
    let (outcome, state') = retry env msg w.state in
    let w' = record w { state = state' } in
    elim outcome [
      | retry_error e ↦ (requeue, w')
      | scheduled again ↦ (if again then ack else reject, w')
    ]

-- MarkNotificationSent after a delivery
unfoldable pub finish : Env → Uuid → WorkerState → Disposition × WorkerState
finish env nid w =
    let (failure, state') = mark_notification_sent env nid w.state in
    let w' = record w { state = state' } in
    elim failure [ none ↦ (ack, w') | some e ↦ (requeue, w') ]

abbrev pub delivered_to : Message → WorkerState → WorkerState
delivered_to msg w = record w { deliveries = w.deliveries ++ msg ∷ [] }

-- the delivery and what follows it, where permanent errors are told apart (Telegram, Slack and
-- webhooks)
unfoldable pub deliver : Outside → Message → Uuid → WorkerState → Disposition × WorkerState
deliver out msg nid w = elim (out.delivers msg) [
  | delivered ↦ finish out.engine nid (delivered_to msg w)
  | permanent_error ↦ (ack, w)
  | transient_error ↦ handle_send_failure out.engine msg w
]

-- the same for e-mail, where every error is retried
unfoldable pub deliver_email : Outside → Message → Uuid → WorkerState → Disposition × WorkerState
deliver_email out msg nid w = elim (out.delivers msg) [
  | delivered ↦ finish out.engine nid (delivered_to msg w)
  | _ ↦ handle_send_failure out.engine msg w
]

-- the checks of Process before the delivery, given what follows them
unfoldable pub process_journaled :
    Outside
    → (Uuid → WorkerState → Disposition × WorkerState)
    → Uuid
    → WorkerState
    → Disposition × WorkerState
process_journaled out next nid w =
    if not (out.loads nid) then (requeue, w) else elim (notification_by_id nid w.state) [
      | none ↦ (ack, w)
      | some n ↦ if is_sent n.status then (ack, w) else next nid w
    ]

-- Process of Telegram, Slack and webhooks; `address_ok` is the worker's check of the address: not
-- empty, or a number for Telegram
unfoldable pub process :
    Outside → (String → Bool) → Option Message → WorkerState → Disposition × WorkerState
process out address_ok none w = (reject, w)
process out address_ok (some msg) w = elim msg.notification_id [
  | none ↦ (reject, w)
  | some nid ↦
      process_journaled out
        (λ nid w.
          if not (address_ok msg.address)
          then (reject, w)
          else if not (out.builds msg)
          then (reject, w)
          else deliver out msg nid w)
        nid w
]

-- processTransactional
unfoldable pub process_transactional : Outside → Message → WorkerState → Disposition × WorkerState
process_transactional out msg w =
    if not (out.builds msg)
    then (reject, w)
    else elim (out.delivers msg) [ delivered ↦ (ack, delivered_to msg w) | _ ↦ (reject, w) ]

-- Process of e-mail
unfoldable pub process_email : Outside → Option Message → WorkerState → Disposition × WorkerState
process_email out none w = (reject, w)
process_email out (some msg) w = elim msg.notification_id [
  | none ↦ process_transactional out msg w
  | some nid ↦
      process_journaled out
        (λ nid w. if not (out.builds msg) then (reject, w) else deliver_email out msg nid w) nid w
]
