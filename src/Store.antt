-- ===== src/Store.antt =====
-- backend/internal/store: the tables that carry incidents, works and components, and transactions
-- over them. A transaction that fails is rolled back, so that a failure carries no tables; an
-- error of the connection itself is not modelled. An identifier is drawn from `next_id`, which
-- stands for `gen_random_uuid()`, and `now` for the `now()` of the transaction.
pub mod Queries
pub mod Rows
pub mod Works
pub mod Recompute
pub mod Incidents
pub mod Maintenances
use healthpage.Prelude.{
  suc, ◌-◌, String, ◌≡◌, refl, ap, Bool, not, Option, none, some, List, map, if◌then◌else◌,
  nat_comparable, string_comparable,
}
use healthpage.Status.{ComponentStatus}
use healthpage.Page.{Uuid, Time, Component}
use healthpage.Incident.{IncidentStatus, IncidentComponent, IncidentUpdate, Incident}
use healthpage.Maintenance.{Maintenance, MaintenanceUpdate}

pub data HistorySource : Type 0 where
  manual incident maintenance api : HistorySource
  other_source : String → HistorySource

pub record ComponentStatusHistory : Type 0 where
  pub id : Uuid
  pub component_id : Uuid
  pub status : ComponentStatus
  pub started_at : Time
  pub ended_at : Option Time
  pub source : HistorySource
  pub created_at : Time
  pub updated_at : Time

pub record MaintenanceComponent : Type 0 where
  pub id : Uuid
  pub maintenance_id : Uuid
  pub component_id : Uuid
  pub created_at : Time
  pub updated_at : Time

-- A row of `incidents` is an `Incident` whose `components` and `updates` are empty, as
-- `mapIncident` leaves them; so too a row of `maintenances`. `reads_fail` says whether the database
-- is lost between the commit of the next operation and the read of its result.
pub record Db : Type 0 where
  pub components : List Component
  pub history : List ComponentStatusHistory
  pub incidents : List Incident
  pub incident_components : List IncidentComponent
  pub incident_updates : List IncidentUpdate
  pub maintenances : List Maintenance
  pub maintenance_components : List MaintenanceComponent
  pub maintenance_updates : List MaintenanceUpdate
  pub next_id : Uuid
  pub now : Time
  pub reads_fail : Bool

pub data StoreError : Type 0 where
  not_found dedup_conflict constraint_violation unavailable : StoreError
  invalid_status : IncidentStatus → StoreError

pub data Result {ℓ} (A : Type ℓ) : Type ℓ where
  ok : A → Result A
  err : StoreError → Result A

-- a read on a new connection, after the transaction of an operation on `db` has committed
abbrev pub after_commit : {B : Type 0} → Db → Result B → Result B
after_commit db r = if db.reads_fail then err unavailable else r

abbrev pub Tx : Type 0 → Type 0
Tx A = Db → Result (A × Db)

infixl 5 ◌>>=◌ ◌>>◌
abbrev pub ◌>>=◌ : {A B : Type 0} → Tx A → (A → Tx B) → Tx B
◌>>=◌ m f db = elim (m db) [ ok (a, db') ↦ f a db' | err e ↦ err e ]

abbrev pub ◌>>◌ : {A B : Type 0} → Tx A → Tx B → Tx B
m >> k = m >>= λ _. k

abbrev pub pure : {A : Type 0} → A → Tx A
pure a db = ok (a, db)

abbrev pub gets : {A : Type 0} → (Db → A) → Tx A
gets f db = ok (f db, db)

abbrev pub or_not_found : {A : Type 0} → Option A → Tx A
or_not_found none db = err not_found
or_not_found (some a) db = ok (a, db)

-- A bind goes on after a success, and stops at a failure.
pub bind-ok :
    {A B : Type 0} (m : Tx A) (f : A → Tx B) {db db' : Db} {a : A}
    → m db ≡ ok (a, db')
    → (m >>= f) db ≡ f a db'
bind-ok m f h = ap (λ r. elim r [ ok (a, db') ↦ f a db' | err e ↦ err e ]) h

pub bind-err :
    {A B : Type 0} (m : Tx A) (f : A → Tx B) {db : Db} {e : StoreError}
    → m db ≡ err e
    → (m >>= f) db ≡ err e
bind-err m f h = ap (λ r. elim r [ ok (a, db') ↦ f a db' | err e ↦ err e ]) h

-- A bind that succeeds is made of two steps that succeed.
pub bind-inv :
    {A B : Type 0} (m : Tx A) (f : A → Tx B) {db after : Db} {b : B}
    → (m >>= f) db ≡ ok (b, after)
    → (a : A) × (db' : Db) × (m db ≡ ok (a, db')) × (f a db' ≡ ok (b, after))
bind-inv {A} {B} m f {db} {after} {b} h = go (m db) refl h
  where
    go :
        (r : Result (A × Db))
        → m db ≡ r
        → (elim r [ ok (a, db') ↦ f a db' | err e ↦ err e ]) ≡ ok (b, after)
        → (a : A) × (db' : Db) × (m db ≡ ok (a, db')) × (f a db' ≡ ok (b, after))
    go (ok (a, db')) e k = (a, db', e, k)
    go (err x) e k = cc
