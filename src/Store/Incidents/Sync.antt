-- ===== src/Store/Incidents/Sync.antt =====
-- After an operation on an incident (backend/internal/store/incidents.go) the statuses of the
-- components that it affects are those that the open incidents and works impose.
use mathlib.Core.Path.{ap₂}
use healthpage.Maintenance.{Maintenance}
use healthpage.Store.{bind-ok, bind-err, MaintenanceComponent}
use healthpage.Prelude.{
  ◌≡◌, refl, sym, ap, ◌∙◌, subst, true, false, ◌&&◌, none, some, List, [], ◌∷◌, map, arith, ◌==◌,
  nat_comparable, string_comparable, keep, any,
}
use healthpage.Status.{ComponentStatus}
use healthpage.Page.{Uuid, Time}
use healthpage.Incident.{IncidentComponent, Incident}
use healthpage.Store.{Db, ok, err, not_found, Tx, ◌>>=◌, ◌>>◌, gets, or_not_found}
use healthpage.Store.Recompute.Coherence.{IsCoherent, recomputed-IsCoherent}
use healthpage.Store.Queries.{
  is_active_on, is_under_way_on, list_active_incident_components,
  list_active_maintenance_component_ids, is_incident, first_where, update_where, find_incident,
  list_incident_components, soft_delete_incident_row,
}
use healthpage.Store.Incidents.{soft_delete_incident_tx, component_ids, soft_delete_incident}
use healthpage.Store.Recompute.{recompute_component_statuses_tx}
use healthpage.Store.Recompute.Laws.{
  derived_from, status_of-recomputed, status_of, recomputed, derived_on, recompute-ok, SameSources,
  recomputed-SameSources,
}

-- Every listed component that is not deleted has the status that the open incidents and works of
-- the page impose on it.
pub record IsSynced (page : Uuid) (ids : List Uuid) (db : Db) : Type 0 where
  pub at :
      (j : Uuid) (s : ComponentStatus)
      → any (λ c. c == j) ids ≡ true
      → status_of j db ≡ some s
      → s ≡ derived_on page db j

derived_on_same :
    (page : Uuid) (a b : Db) (j : Uuid)
    → SameSources a b
    → derived_on page a j ≡ derived_on page b j
unfolding derived_on list_active_incident_components list_active_maintenance_component_ids
derived_on_same page a b j h =
    ap₂ (λ rows works. derived_from rows works j)
      (ap₂
        (λ (l : List Incident) (r : List IncidentComponent).
          keep (λ ic. any (λ i. i.id == ic.incident_id && is_active_on page i) l) r)
        h.incidents h.incident_components)
      (ap₂
        (λ (l : List Maintenance) (r : List MaintenanceComponent).
          map (λ mc. mc.component_id)
            (keep (λ mc. any (λ m. m.id == mc.maintenance_id && is_under_way_on page m) l) r))
        h.maintenances h.maintenance_components)

recomputed-IsSynced :
    (page : Uuid) (ids : List Uuid) (db : Db)
    → IsSynced page ids (recomputed (derived_on page db) ids db)
recomputed-IsSynced page ids db = record {
  at = λ j s m e.
      let after = recomputed (derived_on page db) ids db in
      let same =
        derived_on_same page after db j (recomputed-SameSources (derived_on page db) ids db) in
      let found = status_of-recomputed (derived_on page db) j ids db in ground (arith, same, found);
}

-- Recomputing keeps the sources of the statuses, makes the listed components fit them and keeps
-- the history coherent.
pub record Recomputed (page : Uuid) (ids : List Uuid) (db db' : Db) : Type 0 where
  pub synced : IsSynced page ids db'
  pub sources : SameSources db' db
  pub coherent : IsCoherent db → IsCoherent db'
  pub others : (j : Uuid) → any (λ c. c == j) ids ≡ false → status_of j db' ≡ status_of j db

pub recomputed-Recomputed :
    (page : Uuid) (ids : List Uuid) (db : Db)
    → Recomputed page ids db (recomputed (derived_on page db) ids db)
recomputed-Recomputed page ids db = record {
  synced = recomputed-IsSynced page ids db;
  sources = recomputed-SameSources (derived_on page db) ids db;
  coherent = recomputed-IsCoherent (derived_on page db) ids db;
  others = λ j m. ground (arith, status_of-recomputed (derived_on page db) j ids db);
}

-- what SoftDeleteIncident does once it has the row
abbrev deletion : Uuid → Db → Incident → Tx (Unit {0})
deletion id db row = do
  comps ← gets (list_incident_components id)
  soft_delete_incident_row id
  recompute_component_statuses_tx row.status_page_id (component_ids comps)

-- the tables once the incident is marked deleted
abbrev pub without_incident : Uuid → Db → Db
without_incident id db = record db {
  incidents =
      update_where (is_incident id)
        (λ i. record i { deleted_at = some db.now; updated_at = db.now }) db.incidents;
}

no_incident_left :
    (id : Uuid) (now : Time) (l : List Incident)
    → first_where (is_incident id) (
        update_where (is_incident id) (λ i. record i { deleted_at = some now; updated_at = now }) l)
      ≡ none
unfolding first_where update_where
no_incident_left id now [] = refl
no_incident_left id now (i ∷ l) = ground (arith, no_incident_left id now l)

deleted :
    (id : Uuid) (db : Db) (row : Incident)
    → find_incident id db ≡ some row
    → soft_delete_incident_tx id db
      ≡ ok (
        tt,
        recomputed
            (derived_on row.status_page_id (without_incident id db))
            (component_ids (list_incident_components id db))
            (without_incident id db),
      )
unfolding soft_delete_incident_tx soft_delete_incident_row
deleted id db row e =
    bind-ok (or_not_found (find_incident id db)) (deletion id db) (ap (λ o. or_not_found o db) e)
    ∙ recompute-ok row.status_page_id (component_ids (list_incident_components id db))
        (without_incident id db)

not_deleted :
    (id : Uuid) (db : Db)
    → find_incident id db ≡ none
    → soft_delete_incident_tx id db ≡ err not_found
unfolding soft_delete_incident_tx
not_deleted id db e =
    bind-err (or_not_found (find_incident id db)) (deletion id db) (ap (λ o. or_not_found o db) e)

-- Deleting an incident that is there succeeds: the incident is gone, the components that it
-- affected have the statuses that the remaining incidents and works impose, all other components
-- keep theirs, and a coherent history stays coherent. Deleting one that is not there changes
-- nothing.
pub soft_delete_incident_lem :
    (id : Uuid) (db : Db)
    → ((row : Incident)
        → find_incident id db ≡ some row
        → (db' : Db) × (soft_delete_incident id db ≡ (ok tt, db'))
          × (find_incident id db' ≡ none)
          × Recomputed row.status_page_id
              (component_ids (list_incident_components id db))
              (without_incident id db)
              db')
      × (find_incident id db ≡ none → soft_delete_incident id db ≡ (err not_found, db))
unfolding soft_delete_incident find_incident
soft_delete_incident_lem id db = (
  λ row e.
      let ids = component_ids (list_incident_components id db) in
      let gone = without_incident id db in
      (
        recomputed (derived_on row.status_page_id gone) ids gone,
        ap (λ r. elim r [ err x ↦ (err x, db) | ok (_, after) ↦ (ok tt, after) ])
            (deleted id db row e),
        subst (λ l. first_where (is_incident id) l ≡ none)
            (sym (recomputed-SameSources (derived_on row.status_page_id gone) ids gone).incidents)
            (no_incident_left id db.now db.incidents),
        recomputed-Recomputed row.status_page_id ids gone,
      ),
  λ e.
      ap (λ r. elim r [ err x ↦ (err x, db) | ok (_, after) ↦ (ok tt, after) ])
        (not_deleted id db e),
)
