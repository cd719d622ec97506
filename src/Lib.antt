-- ===== src/Lib.antt =====
-- The core of the status page service HealthPage, modelled after its Go sources under
-- backend/internal: how incidents and works drive the statuses of components, what the public
-- page shows, how subscribers are told, and how the Premium plan is paid for.
--
-- The parts and how they interact. A status page has components with a status. An incident
-- reports statuses for components, works that are under way impose under_maintenance; after each
-- change of an incident the store recomputes the statuses of the affected components and records
-- the history of each component. The page shows the worst of the statuses. Events on incidents
-- and works are journaled for each subscriber and published to the queue of the channel; a
-- worker delivers them and asks for a retry when that fails. Billing turns payments into a plan
-- of the account, and renews it.
--
-- - Prelude: shared names, tests, lists, integers and comparable types.
-- - Status: domain/status.go. WorstStatus is worst_status; Status/Worst has its laws.
-- - Page: domain/entities.go, page_status.go, summary.go. ComputeOverallStatus,
--   ComputeGroupStatus and BuildPublicSummary; Page/Summary has the laws.
-- - Incident, Maintenance: domain/incident.go, incident_template.go, maintenance.go. A method
--   with a pointer receiver becomes a function to the changed record and an optional error; the
--   modules Lifecycle prove what histories of changes give.
-- - Derive: domain/derive.go. DerivedComponentStatus; Derive/Sources and Derive/Laws.
-- - Store: store/incidents.go, maintenances.go and components.go with the statements of
--   store/db. Db holds the tables, Store/Queries the statements, Store/Recompute the recomputation
--   (recomputeComponentStatusesTx, changeComponentStatusTx), Store/Incidents the operations on
--   incidents, Store/Works and Store/Maintenances the statements and operations on works,
--   Store/Rows the lemmas on lookup and update. A transaction is a function of the tables to a
--   result; a failure carries no tables, which is the rollback.
-- - Subscriber: domain/subscriber.go.
-- - Notify: domain/notification.go and notify. Engine.dispatch is dispatch, Engine.Retry is
--   Notify/Retry, RetryBackoff is Notify/Backoff, and Notify/Worker is Process of the four
--   workers.
-- - Billing: domain/billing.go, features.go, billing and store/billing.go. Every call of
--   billing.Repo commits on its own and may fail as the oracle `fails` says; Billing/Repo has the
--   calls, Billing/Service the operations, Billing/Webhook, Billing/Activation and Billing/Renewal
--   the laws.
-- - Account, Api: domain/entities.go and api. Api has the principal, the authorisation of
--   access.go and the announcements of server.go; Api/Incidents is api/incidents.go and
--   Api/Maintenances is api/maintenances.go, with the children Refusals, Access, Fields and
--   Announcements for their laws; Api/Answers has what they share. A handler is a function of the
--   principal, the request and the world to an answer and a world.
-- - Webhook, Api/Ingest: webhook/mapping.go and api/integrations.go. Mapping.Resolve is resolve,
--   ingestAlert is ingest_alert and the loop over the alerts of a request ingest_alerts;
--   Webhook/Resolution and Api/Ingest/Once have the laws.
-- - Uptime: domain/uptime.go. ComputeUptime is compute_uptime, its loops over days and periods
--   days_from and account; the operations of float64 are a parameter, and what IEEE 754 says of
--   them a hypothesis. Uptime/Days has the law.
-- - Bytes, Subscription: subscription/token.go. Subscription has the tokens of links and their
--   parsers, Bytes what the code uses of strings, strconv and base64; Subscription/Laws what
--   issued tokens give, Subscription/Forgery which tokens are refused.
-- - Token: domain/apitoken.go, the scopes of API tokens. Tree: domain/tree.go, the effective
--   status of a component with its subcomponents.
-- - Tests: concrete data, and the theorems at concrete inputs.
--
-- Conventions. A Go string type with constants is a data type with one more constructor for all
-- other strings. An identifier is a natural number; gen_random_uuid is a counter. A time is a
-- number of nanoseconds; the clock stands still within an operation. A nil pointer is none. Rows
-- are listed in the order of insertion. All loops are over lists, so that no fuel is needed.
--
-- Parameters. uuid.Parse and time.Parse of the requests, and whether there is a notifier. The
-- printing and parsing of UUIDs and HMAC-SHA256 in the tokens of links. The operations of
-- float64 in the uptime. Whether the database is lost between the commit of an operation of the
-- store of incidents and the read of its result, the field reads_fail of Db. What the payment
-- provider answers, AddDate of the calendar, which calls of the store and of the broker fail,
-- whether a page can be loaded and a message rendered, and what a delivery returns.
--
-- Not modelled. Other requests between the steps of a handler. JSON and the texts of messages;
-- errors of the database connection within a transaction of the store of incidents or before it,
-- which roll it back, and its checks of enum columns; the HTTP handlers other than those on
-- incidents and works, the payloads and signatures of incoming webhooks, the certificates, the
-- import, the request for uptime and the front ends. A notification identifier that is neither
-- empty nor a UUID is not represented. Amounts of money are natural numbers and do not overflow.
pub mod Prelude
pub mod Status
pub mod Page
pub mod Incident
pub mod Maintenance
pub mod Derive
pub mod Store
pub mod Subscriber
pub mod Notify
pub mod Billing
pub mod Token
pub mod Tree
pub mod Bytes
pub mod Subscription
pub mod Webhook
pub mod Uptime
pub mod Account
pub mod Api
pub mod Tests
