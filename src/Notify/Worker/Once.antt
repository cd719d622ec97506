-- ===== src/Notify/Worker/Once.antt =====
-- What the workers promise of a message (Process of backend/internal/*/worker.go).
use healthpage.Prelude.{
  String, ◌≡◌, refl, sym, ap, ◌∙◌, subst, Bool, true, false, some, [], ◌∷◌, ◌++◌, arith,
  if◌then◌else◌, nat_comparable, string_comparable,
}
use healthpage.Page.{Uuid}
use healthpage.Notify.{Notification, Message, Env}
use healthpage.Notify.Retry.{notification_by_id, mark_notification_sent, marked_sent}
use healthpage.Notify.Retry.Schedule.{update_where-found}
use healthpage.Notify.Worker.{
  Outside, WorkerState, ack, requeue, delivered, is_sent, finish, deliver, deliver_email, process,
  process_email, process_journaled, delivered_to,
}

abbrev pub IsSent : Uuid → WorkerState → Type 0
IsSent nid w =
    (n : Notification) × (notification_by_id nid w.state ≡ some n) × (is_sent n.status ≡ true)

-- Once the journal says that a message is sent, no worker delivers it again, whatever the outside
-- world does: processing changes nothing, and the message is confirmed or, when the journal
-- cannot be read, queued again.
pub process-sent :
    (out : Outside) (address_ok : String → Bool) (msg : Message) (nid : Uuid) (w : WorkerState)
    → msg.notification_id ≡ some nid
    → IsSent nid w
    → (process out address_ok (some msg) w ≡ (if out.loads nid then ack else requeue, w))
      × (process_email out (some msg) w ≡ (if out.loads nid then ack else requeue, w))
unfolding process process_email process_journaled
process-sent out address_ok msg nid w m (n, found, is) = (ground arith, ground arith)

finish_sends :
    (env : Env) (msg : Message) (nid : Uuid) (n : Notification) (w : WorkerState)
    → notification_by_id nid w.state ≡ some n
    → env.marks nid ≡ true
    → let w' = (finish env nid (delivered_to msg w)).1 in
      ((finish env nid (delivered_to msg w)).0 ≡ ack)
      × IsSent nid w'
      × (w'.deliveries ≡ w.deliveries ++ msg ∷ [])
unfolding finish mark_notification_sent notification_by_id
finish_sends env msg nid n w e k =
    let row = update_where-found nid (marked_sent w.state) (λ _. refl) w.state.journal n e in
    (ground (arith), (marked_sent w.state n, ground (arith, row), refl), ground arith)

-- A pending message that is delivered, in a journal that can be read and written, is confirmed
-- and delivered once: however often and under whatever outside conditions the queue redelivers
-- it, to the workers of the messengers and webhooks or to the worker of e-mail, nothing more is
-- delivered and the journal keeps what it says.
pub process_once :
    (out later : Outside) (address_ok address_ok' : String → Bool) (msg : Message) (nid : Uuid)
    (n : Notification) (w : WorkerState)
    → msg.notification_id ≡ some nid
    → notification_by_id nid w.state ≡ some n
    → is_sent n.status ≡ false
    → out.loads nid ≡ true
    → out.engine.marks nid ≡ true
    → address_ok msg.address ≡ true
    → out.builds msg ≡ true
    → out.delivers msg ≡ delivered
    → let first = process out address_ok (some msg) w in
      (first.0 ≡ ack)
      × (first.1.deliveries ≡ w.deliveries ++ msg ∷ [])
      × (process_email out (some msg) w ≡ first)
      × ((process later address_ok' (some msg) first.1).1 ≡ first.1)
      × ((process_email later (some msg) first.1).1 ≡ first.1)
process_once out later a a' msg nid n w m e pending loads marks address builds sends =
    let after = finish out.engine nid (delivered_to msg w) in
    let first : process out a (some msg) w ≡ after =
      (unfold process process_journaled deliver in ground arith) in
    let email : process_email out (some msg) w ≡ after =
      (unfold process_email process_journaled deliver_email in ground arith) in
    let done = finish_sends out.engine msg nid n w e marks in
    let again = process-sent later a' msg nid after.1 m done.1 in
    (
      ap (λ r. r.0) first ∙ done.0,
      ap (λ r. r.1.deliveries) first ∙ done.2,
      email ∙ sym first,
      subst (λ r. (process later a' (some msg) r.1).1 ≡ r.1) (sym first) (ap (λ r. r.1) again.0),
      subst (λ r. (process_email later (some msg) r.1).1 ≡ r.1) (sym first) (ap (λ r. r.1) again.1),
    )
