-- ===== src/Store/Incidents.antt =====
-- backend/internal/store/incidents.go: the operations on incidents. Each runs one transaction, and
-- reads the result back after the commit.
pub mod Sync
pub mod Updates
pub mod Creation
pub mod Keys
pub mod Changes
pub mod Commit
pub mod Atomic
use healthpage.Prelude.{
  ◌+◌, ◌-◌, String, ap, Bool, not, Option, none, some, List, [], ◌∷◌, ◌++◌, map, if◌then◌else◌,
  ◌==◌, nat_comparable, string_comparable, any,
}
use healthpage.Status.{ComponentStatus}
use healthpage.Page.{Uuid, Time}
use healthpage.Incident.{
  IncidentStatus, IncidentComponent, IncidentUpdate, Incident, Error, apply_status_change,
}
use healthpage.Store.{
  after_commit, Db, Result, ok, err, not_found, invalid_status, Tx, ◌>>=◌, ◌>>◌, pure, gets,
  or_not_found,
}
use healthpage.Store.Queries.{
  find_incident, insert_incident, find_open_by_dedup, update_incident_row, soft_delete_incident_row,
  add_incident_component, list_incident_components, delete_incident_components,
  add_incident_update_row, list_incident_updates,
}
use healthpage.Store.Recompute.{recompute_component_statuses_tx}

-- A store operation leaves the tables as they were where its transaction fails.
abbrev pub StoreOp : Type 0 → Type 0
StoreOp A = Db → Result A × Db

-- Commit, then read outside the transaction.
abbrev pub commit_then : {A B : Type 0} → Tx A → (A → Db → Result B) → StoreOp B
commit_then m after db = elim (m db) [ err e ↦ (err e, db) | ok (a, db') ↦ (after a db', db') ]

-- hydrateIncident
unfoldable pub hydrate_incident : Db → Incident → Incident
hydrate_incident db inc = record inc {
  components = list_incident_components inc.id db;
  updates = list_incident_updates inc.id db;
}

-- IncidentByID
unfoldable pub incident_by_id : Uuid → Db → Result Incident
incident_by_id id db = elim (find_incident id db) [
  | none ↦ err not_found
  | some row ↦ ok (hydrate_incident db row)
]

-- OpenIncidentByDedup
unfoldable pub open_incident_by_dedup : Uuid → String → Db → Result Incident
open_incident_by_dedup page key db = elim (find_open_by_dedup page key db) [
  | none ↦ err not_found
  | some row ↦ incident_by_id row.id db
]

-- incidentComponentIDs
abbrev pub component_ids : List IncidentComponent → List Uuid
component_ids = map (λ ic. ic.component_id)

-- the loop over `inc.Components` that adds the links
unfoldable pub add_components : Uuid → List IncidentComponent → Tx (Unit {0})
add_components id [] db = ok (tt, db)
add_components id (ic ∷ rest) db =
    elim (add_incident_component id ic.component_id ic.component_status_in_incident db) [
      | err e ↦ err e
      | ok (_, db') ↦ add_components id rest db'
    ]

unfoldable pub create_incident_tx : Incident → String → Bool → Tx Incident
create_incident_tx inc initial_body notify = do
  created ← insert_incident inc
  add_components created.id inc.components
  add_incident_update_row created.id created.current_status initial_body notify
  recompute_component_statuses_tx inc.status_page_id (component_ids inc.components)
  pure created

-- CreateIncident
unfoldable pub create_incident : Incident → String → Bool → StoreOp Incident
unfolding create_incident_tx
create_incident inc initial_body notify db =
    commit_then (create_incident_tx inc initial_body notify)
      (λ created after. after_commit db (incident_by_id created.id after)) db

-- `affected[id] = struct{}{}` on a map that serves as a set
abbrev pub add_key : List Uuid → Uuid → List Uuid
add_key keys id = if any (λ k. k == id) keys then keys else keys ++ id ∷ []

unfoldable pub add_keys : List Uuid → List Uuid → List Uuid
add_keys keys [] = keys
add_keys keys (id ∷ rest) = add_keys (add_key keys id) rest

abbrev pub replace_components : Incident → Tx (Unit {0})
replace_components inc = do delete_incident_components inc.id; add_components inc.id inc.components

unfoldable pub update_incident_tx : Incident → Bool → Tx (Unit {0})
unfolding add_keys
update_incident_tx inc replace db =
    let prev = list_incident_components inc.id db in
    let affected = add_keys [] (component_ids prev) in
    (do
      updated ← update_incident_row inc
      (if replace then replace_components inc else pure tt)
      recompute_component_statuses_tx updated.status_page_id
          (if replace then add_keys affected (component_ids inc.components) else affected))
      db

-- UpdateIncident
unfoldable pub update_incident : Incident → Bool → StoreOp Incident
unfolding update_incident_tx
update_incident inc replace db =
    commit_then (update_incident_tx inc replace)
      (λ _ after. after_commit db (incident_by_id inc.id after)) db

-- `if err := inc.ApplyStatusChange(status, at)`
abbrev pub changed_or_fail : IncidentStatus → Incident × Option Error → Tx Incident
changed_or_fail status (inc, none) = pure inc
changed_or_fail status (inc, some e) = λ db. err (invalid_status status)

unfoldable pub add_incident_update_tx :
    Uuid → IncidentStatus → String → Bool → Time → Tx IncidentUpdate
add_incident_update_tx id status body notify at db =
    (do
      row ← or_not_found (find_incident id db)
      inc ← changed_or_fail status (apply_status_change status at row)
      created ← add_incident_update_row id status body notify
      update_incident_row inc
      comps ← gets (list_incident_components id)
      recompute_component_statuses_tx inc.status_page_id (component_ids comps)
      pure created)
      db

abbrev pub with_update : IncidentUpdate → Result Incident → Result (IncidentUpdate × Incident)
with_update u (ok full) = ok (u, full)
with_update u (err e) = err e

-- AddIncidentUpdate
unfoldable pub add_incident_update :
    Uuid → IncidentStatus → String → Bool → Time → StoreOp (IncidentUpdate × Incident)
unfolding add_incident_update_tx
add_incident_update id status body notify at db =
    commit_then (add_incident_update_tx id status body notify at)
      (λ u after. with_update u (after_commit db (incident_by_id id after))) db

unfoldable pub soft_delete_incident_tx : Uuid → Tx (Unit {0})
soft_delete_incident_tx id db =
    (do
      row ← or_not_found (find_incident id db)
      comps ← gets (list_incident_components id)
      soft_delete_incident_row id
      recompute_component_statuses_tx row.status_page_id (component_ids comps))
      db

-- SoftDeleteIncident
unfoldable pub soft_delete_incident : Uuid → StoreOp (Unit {0})
unfolding soft_delete_incident_tx
soft_delete_incident id = commit_then (soft_delete_incident_tx id) (λ _ _. ok tt)
