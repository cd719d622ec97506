-- ===== src/Store/Queries.antt =====
-- backend/internal/store/db: the SQL statements of the generated queries, read as functions on
-- the tables, with the unique indexes of backend/migrations that they can violate. Rows are
-- listed in the order in which they were inserted.
use healthpage.Prelude.{
  ◌+◌, String, Bool, false, not, ◌&&◌, ◌||◌, Option, none, some, List, [], ◌∷◌, ◌++◌, map,
  if◌then◌else◌, is_some, ◌==◌, nat_comparable, string_comparable, keep, any,
}
use healthpage.Status.{ComponentStatus}
use healthpage.Page.{Uuid, Time, Component}
use healthpage.Incident.{IncidentStatus, IncidentComponent, IncidentUpdate, Incident, is_terminal}
use healthpage.Maintenance.{Maintenance, status_in_progress}
use healthpage.Store.{
  HistorySource, ComponentStatusHistory, Db, ok, err, dedup_conflict, constraint_violation, Tx,
  or_not_found,
}

module _ {ℓ} {A : Type ℓ} where
  unfoldable pub first_where : (A → Bool) → List A → Option A
  first_where p [] = none
  first_where p (x ∷ xs) = let rest = first_where p xs in if p x then some x else rest

  -- UPDATE … SET … WHERE
  unfoldable pub update_where : (A → Bool) → (A → A) → List A → List A
  update_where p f [] = []
  update_where p f (x ∷ xs) = (if p x then f x else x) ∷ update_where p f xs

-- `WHERE id = $1 AND deleted_at IS NULL`
abbrev pub is_component : Uuid → Component → Bool
is_component id c = c.id == id && not (is_some c.deleted_at)

abbrev pub is_incident : Uuid → Incident → Bool
is_incident id i = i.id == id && not (is_some i.deleted_at)

abbrev pub is_maintenance : Uuid → Maintenance → Bool
is_maintenance id m = m.id == id && not (is_some m.deleted_at)

-- GetComponentByID
unfoldable pub find_component : Uuid → Db → Option Component
find_component id db = first_where (is_component id) db.components

-- SetComponentStatus, with the updated_at trigger
abbrev pub with_status : ComponentStatus → Time → Component → Component
with_status s now c = record c { current_status = s; updated_at = now }

unfoldable pub set_component_status : Uuid → ComponentStatus → Tx Component
set_component_status id s db =
    let db' = record db {
      components = update_where (is_component id) (with_status s db.now) db.components;
    } in
    or_not_found (find_component id db') db'

-- `WHERE component_id = $1 AND ended_at IS NULL`
abbrev pub is_open_for : Uuid → ComponentStatusHistory → Bool
is_open_for id h = h.component_id == id && not (is_some h.ended_at)

abbrev pub closed_at : Time → ComponentStatusHistory → ComponentStatusHistory
closed_at now h = record h { ended_at = some now; updated_at = now }

-- CloseOpenStatusPeriod
unfoldable pub close_open_status_period : Uuid → Tx (Unit {0})
close_open_status_period id db =
    ok (tt, record db { history = update_where (is_open_for id) (closed_at db.now) db.history })

abbrev pub new_period : Uuid → ComponentStatus → HistorySource → Db → ComponentStatusHistory
new_period id s source db = record {
  id = db.next_id;
  component_id = id;
  status = s;
  started_at = db.now;
  ended_at = none;
  source = source;
  created_at = db.now;
  updated_at = db.now;
}

-- OpenStatusPeriod, under the unique index csh_open_period_key
unfoldable pub open_status_period :
    Uuid → ComponentStatus → HistorySource → Tx ComponentStatusHistory
open_status_period id s source db =
    if any (is_open_for id) db.history
    then err constraint_violation
    else ok (
      new_period id s source db,
      record db {
        history = db.history ++ new_period id s source db ∷ [];
        next_id = db.next_id + 1;
      },
    )

-- GetIncidentByID
unfoldable pub find_incident : Uuid → Db → Option Incident
find_incident id db = first_where (is_incident id) db.incidents

-- the rows that the partial unique index incidents_open_dedup_key covers
abbrev pub has_open_dedup : Uuid → Option String → Incident → Bool
has_open_dedup page none i = false
has_open_dedup page (some key) i =
    i.status_page_id == page
    && (elim i.external_dedup_key [ none ↦ false | some k ↦ k == key ])
    && not (is_some i.resolved_at)
    && not (is_some i.deleted_at)

abbrev pub new_incident_row : Incident → Db → Incident
new_incident_row inc db = record inc {
  id = db.next_id;
  created_at = db.now;
  updated_at = db.now;
  deleted_at = none;
  components = [];
  updates = [];
}

-- CreateIncident; the index is checked where the new row itself is open
unfoldable pub insert_incident : Incident → Tx Incident
insert_incident inc db =
    if not (is_some inc.resolved_at)
      && any (has_open_dedup inc.status_page_id inc.external_dedup_key) db.incidents
    then err dedup_conflict
    else ok (
      new_incident_row inc db,
      record db {
        incidents = db.incidents ++ new_incident_row inc db ∷ [];
        next_id = db.next_id + 1;
      },
    )

-- GetOpenIncidentByDedup
unfoldable pub find_open_by_dedup : Uuid → String → Db → Option Incident
find_open_by_dedup page key db = first_where (has_open_dedup page (some key)) db.incidents

-- the columns that UpdateIncident sets
abbrev pub with_fields : Incident → Time → Incident → Incident
with_fields inc now row = record row {
  title = inc.title;
  current_status = inc.current_status;
  impact = inc.impact;
  resolved_at = inc.resolved_at;
  postmortem = inc.postmortem;
  is_visible = inc.is_visible;
  updated_at = now;
}

-- An incident that the UPDATE leaves open meets another open one with the key of its row, which
-- the statement does not set.
unfoldable pub reopens_taken : Incident → Db → Bool
unfolding find_incident
reopens_taken inc db = elim (find_incident inc.id db) [
  | none ↦ false
  | some row ↦
      not (is_some inc.resolved_at)
      && any
          (λ i. not (i.id == inc.id) && has_open_dedup row.status_page_id row.external_dedup_key i)
          db.incidents
]

-- UpdateIncident, under the unique index incidents_open_dedup_key
unfoldable pub update_incident_row : Incident → Tx Incident
update_incident_row inc db =
    let db' = record db {
      incidents = update_where (is_incident inc.id) (with_fields inc db.now) db.incidents;
    } in
    if reopens_taken inc db
    then err constraint_violation
    else or_not_found (find_incident inc.id db') db'

-- SoftDeleteIncident
unfoldable pub soft_delete_incident_row : Uuid → Tx (Unit {0})
soft_delete_incident_row id db = ok (
  tt,
  record db {
    incidents =
        update_where (is_incident id)
          (λ i. record i { deleted_at = some db.now; updated_at = db.now }) db.incidents;
  },
)

-- AddIncidentComponent, under the unique index incident_components_unique and the foreign key
-- to components
unfoldable pub add_incident_component : Uuid → Uuid → ComponentStatus → Tx (Unit {0})
add_incident_component incident_id component_id s db =
    if any (λ ic. ic.incident_id == incident_id && ic.component_id == component_id)
        db.incident_components
      || not (any (λ c. c.id == component_id) db.components)
    then err constraint_violation
    else ok (
      tt,
      record db {
        incident_components =
            db.incident_components
            ++ record {
              id = db.next_id;
              incident_id = incident_id;
              component_id = component_id;
              component_status_in_incident = s;
              created_at = db.now;
              updated_at = db.now;
            }
              ∷ [];
        next_id = db.next_id + 1;
      },
    )

-- ListIncidentComponents
unfoldable pub list_incident_components : Uuid → Db → List IncidentComponent
list_incident_components id db = keep (λ ic. ic.incident_id == id) db.incident_components

-- DeleteIncidentComponents
unfoldable pub delete_incident_components : Uuid → Tx (Unit {0})
delete_incident_components id db = ok (
  tt,
  record db {
    incident_components = keep (λ ic. not (ic.incident_id == id)) db.incident_components;
  },
)

-- AddIncidentUpdate
unfoldable pub add_incident_update_row : Uuid → IncidentStatus → String → Bool → Tx IncidentUpdate
add_incident_update_row incident_id status body notify db =
    let row : IncidentUpdate = record {
      id = db.next_id;
      incident_id = incident_id;
      status = status;
      body = body;
      notify_subscribers = notify;
      created_at = db.now;
      updated_at = db.now;
    } in
    ok (
      row,
      record db { incident_updates = db.incident_updates ++ row ∷ []; next_id = db.next_id + 1 },
    )

-- ListIncidentUpdates
unfoldable pub list_incident_updates : Uuid → Db → List IncidentUpdate
list_incident_updates id db = keep (λ u. u.incident_id == id) db.incident_updates

-- the WHERE clause of ListActiveIncidentComponentStatuses, on the joined incident
abbrev pub is_active_on : Uuid → Incident → Bool
is_active_on page i =
    i.status_page_id == page && not (is_some i.deleted_at) && not (is_terminal i.current_status)

-- ListActiveIncidentComponentStatuses
unfoldable pub list_active_incident_components : Uuid → Db → List IncidentComponent
list_active_incident_components page db =
    keep (λ ic. any (λ i. i.id == ic.incident_id && is_active_on page i) db.incidents)
      db.incident_components

-- the WHERE clause of ListActiveMaintenanceComponentIDs, on the joined works
abbrev pub is_under_way_on : Uuid → Maintenance → Bool
is_under_way_on page m =
    m.status_page_id == page && not (is_some m.deleted_at) && status_in_progress m.status

-- ListActiveMaintenanceComponentIDs
unfoldable pub list_active_maintenance_component_ids : Uuid → Db → List Uuid
list_active_maintenance_component_ids page db =
    map (λ mc. mc.component_id)
      (keep (λ mc. any (λ m. m.id == mc.maintenance_id && is_under_way_on page m) db.maintenances)
        db.maintenance_components)
