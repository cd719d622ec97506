-- ===== src/Notify.antt =====
-- backend/internal/notify and backend/internal/domain/notification.go: the journal of
-- notifications, the fan-out of an event to subscribers, and retries.
-- A payload is kept as a value: the JSON codec is left out. Which calls of the store and of the
-- broker fail is given by `Env`; the mutex of the engine makes its publications a sequence.
pub mod Backoff
pub mod Retry
pub mod Worker
pub mod Fanout
use healthpage.Prelude.{
  ℕ, suc, ◌+◌, ◌-◌, String, ap, Bool, not, ◌&&◌, Option, none, some, List, [], ◌∷◌, ◌++◌, map,
  if◌then◌else◌, nat_comparable, string_comparable,
}
use healthpage.Page.{Uuid, Time}
use healthpage.Incident.{IncidentStatus, IncidentImpact, Incident, IncidentUpdate}
use healthpage.Maintenance.{Maintenance, MaintenanceStatus}
use healthpage.Subscriber.{
  Subscriber, SubscriberChannel, email, is_webhook, deliverable, wants_event,
}
use healthpage.Notify.Backoff.{retry_backoff}

pub data NotificationStatus : Type 0 where
  pending sent failed : NotificationStatus
  other_status : String → NotificationStatus

pub data EventType : Type 0 where
  incident_new incident_update maintenance_scheduled maintenance_started maintenance_completed
        subscriber_confirm access_link :
      EventType
  other_event : String → EventType

pub record IncidentPayload : Type 0 where
  pub incident_id : Uuid
  pub title : String
  pub status : IncidentStatus
  pub impact : IncidentImpact
  pub body : String
  pub components : List Uuid

pub record MaintenancePayload : Type 0 where
  pub maintenance_id : Uuid
  pub title : String
  pub description : String
  pub status : MaintenanceStatus
  pub scheduled_start : Time
  pub scheduled_end : Time
  pub components : List Uuid

pub data Payload : Type 0 where
  of_incident : IncidentPayload → Payload
  of_maintenance : MaintenancePayload → Payload
  confirm access : String → Payload

pub record Notification : Type 0 where
  pub id : Uuid
  pub subscriber_id : Uuid
  pub event_type : EventType
  pub payload : Payload
  pub status : NotificationStatus
  pub attempts : ℕ
  pub sent_at : Option Time
  pub created_at : Time
  pub updated_at : Time

-- `none` is the empty string of a transactional message.
pub record Message : Type 0 where
  pub notification_id : Option Uuid
  pub subscriber_id : Option Uuid
  pub channel : SubscriberChannel
  pub event : EventType
  pub address : String
  pub attempt : ℕ
  pub payload : Payload
  pub status_page_id : Uuid

-- A publication: to webhooks.out, to notifications, or delayed.
pub data Publication : Type 0 where
  webhook_out notification : Message → Publication
  delayed : Message → ℕ → Publication

-- The journal and what has been published, in order.
pub record State : Type 0 where
  pub journal : List Notification
  pub published : List Publication
  pub next_id : Uuid
  pub now : Time

-- The subscribers that the store lists (`none` where the query fails), and which calls succeed.
pub record Env : Type 0 where
  pub confirmed_subscribers : Uuid → Option (List Subscriber)
  pub creates : Uuid → EventType → Bool
  pub accepts : Publication → Bool
  pub increments : Uuid → Bool
  pub marks : Uuid → Bool

pub data Error : Type 0 where
  list_failed create_failed publish_failed store_failed bad_notification_id : Error

-- incidentPayload
unfoldable pub incident_payload : Incident → String → Payload
incident_payload inc body = of_incident (record {
  incident_id = inc.id;
  title = inc.title;
  status = inc.current_status;
  impact = inc.impact;
  body = body;
  components = map (λ c. c.component_id) inc.components;
})

-- maintenancePayload
unfoldable pub maintenance_payload : Maintenance → Payload
maintenance_payload m = of_maintenance (record {
  maintenance_id = m.id;
  title = m.title;
  description = m.description;
  status = m.status;
  scheduled_start = m.scheduled_start;
  scheduled_end = m.scheduled_end;
  components = m.component_ids;
})

abbrev pub new_notification : Uuid → EventType → Payload → State → Notification
new_notification subscriber event payload st = record {
  id = st.next_id;
  subscriber_id = subscriber;
  event_type = event;
  payload = payload;
  status = pending;
  attempts = 0;
  sent_at = none;
  created_at = st.now;
  updated_at = st.now;
}

-- CreateNotification, where it succeeds
abbrev pub record_notification : Uuid → EventType → Payload → State → State
record_notification subscriber event payload st = record st {
  journal = st.journal ++ new_notification subscriber event payload st ∷ [];
  next_id = st.next_id + 1;
}

-- the exchange that `publish` picks
abbrev pub route : Message → Publication
route msg = if is_webhook msg.channel then webhook_out msg else notification msg

abbrev pub emit : Env → Publication → State → Option Error × State
emit env p st =
    if env.accepts p
    then (none, record st { published = st.published ++ p ∷ [] })
    else (some publish_failed, st)

-- Engine.publish
unfoldable pub publish : Env → Message → State → Option Error × State
publish env msg st = emit env (route msg) st

abbrev pub message_for : Uuid → EventType → Payload → Subscriber → Uuid → Message
message_for page event payload sub id = record {
  notification_id = some id;
  subscriber_id = some sub.id;
  channel = sub.channel;
  event = event;
  address = sub.address;
  attempt = 0;
  payload = payload;
  status_page_id = page;
}

-- the test at the head of the loop, negated
unfoldable pub is_eligible : List Uuid → Subscriber → Bool
is_eligible affected sub = deliverable sub.channel && wants_event sub affected

abbrev pub add_error : Option Error → List Error → List Error
add_error none errs = errs
add_error (some e) errs = errs ++ e ∷ []

-- one round of the loop, over the errors collected so far
unfoldable pub dispatch_one :
    Env
    → Uuid
    → List Uuid
    → EventType
    → Payload
    → Subscriber
    → List Error
    → State
    → List Error × State
unfolding is_eligible publish
dispatch_one env page affected event payload sub errs st =
    if not (is_eligible affected sub)
    then (errs, st)
    else if not (env.creates sub.id event)
    then (errs ++ create_failed ∷ [], st)
    else let (e, st') =
        publish env (message_for page event payload sub st.next_id)
          (record_notification sub.id event payload st) in
      (add_error e errs, st')

unfoldable pub dispatch_loop :
    Env
    → Uuid
    → List Uuid
    → EventType
    → Payload
    → List Subscriber
    → List Error
    → State
    → List Error × State
unfolding dispatch_one
dispatch_loop env page affected event payload [] errs st = (errs, st)
dispatch_loop env page affected event payload (sub ∷ rest) errs st =
    let (errs', st') = dispatch_one env page affected event payload sub errs st in
    dispatch_loop env page affected event payload rest errs' st'

-- Engine.dispatch; the empty list of errors is the nil error
unfoldable pub dispatch : Env → Uuid → List Uuid → EventType → Payload → State → List Error × State
unfolding dispatch_loop
dispatch env page affected event payload st = elim (env.confirmed_subscribers page) [
  | none ↦ (list_failed ∷ [], st)
  | some subs ↦ dispatch_loop env page affected event payload subs [] st
]

-- IncidentCreated, IncidentUpdated, MaintenanceEvent
unfoldable pub incident_created : Env → Incident → String → State → List Error × State
incident_created env inc body =
    dispatch env inc.status_page_id (map (λ c. c.component_id) inc.components) incident_new
      (incident_payload inc body)

unfoldable pub incident_updated : Env → Incident → IncidentUpdate → State → List Error × State
incident_updated env inc upd =
    dispatch env inc.status_page_id (map (λ c. c.component_id) inc.components) incident_update
      (incident_payload inc upd.body)

unfoldable pub maintenance_event : Env → Maintenance → EventType → State → List Error × State
maintenance_event env m event =
    dispatch env m.status_page_id m.component_ids event (maintenance_payload m)

-- SendConfirmation
unfoldable pub send_confirmation : Env → Subscriber → String → State → Option Error × State
send_confirmation env sub token st =
    if not (env.creates sub.id subscriber_confirm)
    then (some create_failed, st)
    else publish env
        (message_for sub.status_page_id subscriber_confirm (confirm token) sub st.next_id)
        (record_notification sub.id subscriber_confirm (confirm token) st)

-- SendAccessLink
unfoldable pub send_access_link : Env → Uuid → String → String → State → Option Error × State
send_access_link env page address token = publish env (record {
  notification_id = none;
  subscriber_id = none;
  channel = email;
  event = access_link;
  address = address;
  attempt = 0;
  payload = access token;
  status_page_id = page;
})
