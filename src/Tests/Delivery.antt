-- ===== src/Tests/Delivery.antt =====
-- The theorems on notifications and workers at a concrete message.
use healthpage.Prelude.{
  ℕ, ◌+◌, ◌≤◌, ◌≡◌, refl, true, false, some, [], ◌∷◌, ◌++◌, nat_comparable, string_comparable,
  length, keep,
}
use healthpage.Notify.{
  State, Env, Message, Notification, Payload, confirm, incident_new, new_notification, message_for,
  dispatch, is_eligible, delayed,
}
use healthpage.Notify.Fanout.{recorded, journal_rows, accepted, dispatch-exact}
use healthpage.Notify.Backoff.{retry_schedule, get_elem?, max_attempts}
use healthpage.Notify.Retry.{
  retry, scheduled, update_notification, marked_failed, notification_by_id,
}
use healthpage.Notify.Retry.Schedule.{counted, retry_lem}
use healthpage.Notify.Worker.{
  Outside, WorkerState, process, process_email, ack, delivered, transient_error,
}
use healthpage.Notify.Worker.Once.{process_once}
use healthpage.Tests.Data.{chat}

abbrev working : Env
working = record {
  confirmed_subscribers = λ page. some (chat ∷ []);
  creates = λ id event. true;
  accepts = λ p. true;
  increments = λ id. true;
  marks = λ id. true;
}

abbrev quiet : State
quiet = record { journal = []; published = []; next_id = 80; now = 60 }

abbrev text : Payload
text = confirm "token"

dispatch_example :
    let rows = recorded working (10 ∷ []) incident_new (chat ∷ []) 80 in
    let out = dispatch working 1 (10 ∷ []) incident_new text quiet in
    (out.1.journal ≡ [] ++ journal_rows incident_new text quiet rows)
    × (out.1.published ≡ [] ++ accepted working 1 incident_new text rows)
    × (length out.0 + length out.1.published
        ≡ 0 + length (keep (is_eligible (10 ∷ [])) (chat ∷ [])))
dispatch_example = dispatch-exact working 1 (10 ∷ []) incident_new text (chat ∷ []) quiet refl

abbrev row : Notification
row = new_notification 70 incident_new text quiet

abbrev journaled : State
journaled = record quiet { journal = row ∷ []; next_id = 81 }

abbrev message : Message
message = message_for 1 incident_new text chat 80

retry_example :
    ((d : ℕ)
      → get_elem? retry_schedule 0 ≡ some d
      → retry working message journaled ≡ (
        scheduled true,
        record (counted 80 journaled) {
          published = [] ++ delayed (record message { attempt = 1 }) d ∷ [];
        },
      ))
    × (max_attempts ≤ 0
        → retry working message journaled ≡ (
          scheduled false,
          update_notification 80 (marked_failed journaled) (counted 80 journaled),
        ))
unfolding notification_by_id healthpage.Store.Queries.first_where
retry_example = retry_lem working message 80 row journaled refl refl refl refl (λ p. refl)

abbrev reachable : Outside
reachable = record {
  engine = working;
  loads = λ id. true;
  builds = λ m. true;
  delivers = λ m. delivered;
}

abbrev unreachable : Outside
unreachable = record reachable { delivers = λ m. transient_error }

abbrev waiting : WorkerState
waiting = record { state = journaled; deliveries = [] }

process_example :
    let first = process reachable (λ a. true) (some message) waiting in
    (first.0 ≡ ack)
    × (first.1.deliveries ≡ [] ++ message ∷ [])
    × (process_email reachable (some message) waiting ≡ first)
    × ((process unreachable (λ a. false) (some message) first.1).1 ≡ first.1)
    × ((process_email unreachable (some message) first.1).1 ≡ first.1)
unfolding notification_by_id healthpage.Store.Queries.first_where
process_example =
    process_once reachable unreachable (λ a. true) (λ a. false) message 80 row waiting refl refl
      refl refl refl refl refl refl
