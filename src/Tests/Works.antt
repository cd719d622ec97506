-- ===== src/Tests/Works.antt =====
-- The theorems on works, and on the change of an incident, at a concrete page.
use healthpage.Prelude.{
  ◌≡◌, refl, true, ◌&&◌, ◌||◌, none, some, [], ◌∷◌, ◌==◌, nat_comparable, string_comparable, any,
}
use healthpage.Page.{Uuid}
use healthpage.Incident.{Incident}
use healthpage.Maintenance.{Maintenance}
use healthpage.Store.{Db, MaintenanceComponent, ok, err, not_found}
use healthpage.Store.Queries.{find_incident, with_fields, list_incident_components}
use healthpage.Store.Works.{find_maintenance, list_maintenance_components}
use healthpage.Store.Maintenances.{
  linked_ids, hydrate_maintenance, create_maintenance, update_maintenance, soft_delete_maintenance,
}
use healthpage.Store.Maintenances.Laws.{
  stored_works, create_maintenance_lem, soft_delete_maintenance_lem, planned, without_works,
}
use healthpage.Store.Maintenances.Changes.{
  saved_works, update_maintenance_lem, affected_by, changed_works,
}
use healthpage.Store.Incidents.Commit.{saved_incident}
use healthpage.Store.Incidents.{component_ids, update_incident, hydrate_incident}
use healthpage.Store.Incidents.Changes.{update_incident_lem, affected_by_change, changed_incident}
use healthpage.Store.Incidents.Sync.{Recomputed}
use healthpage.Tests.Data.{open_row, page_db, open_incident, api_link, planned_works}

abbrev web_works_link : MaintenanceComponent
web_works_link = record {
  id = 51;
  maintenance_id = 50;
  component_id = 11;
  created_at = 6;
  updated_at = 6;
}

-- the page with works stored on the component 11
abbrev works_db : Db
works_db = record page_db {
  maintenances = record planned_works { component_ids = [] } ∷ [];
  maintenance_components = web_works_link ∷ [];
}

create_maintenance_example :
    (db' : Db) × (create_maintenance planned_works page_db
      ≡ (ok (hydrate_maintenance db' (stored_works planned_works page_db)), db'))
    × Recomputed 1 (11 ∷ []) (planned planned_works page_db) db'
unfolding find_maintenance healthpage.Store.Queries.first_where any
create_maintenance_example =
    create_maintenance_lem planned_works page_db refl (record { exists = refl; fresh = refl }, tt)
      (tt, tt)

soft_delete_maintenance_example :
    ((row : Maintenance)
      → find_maintenance 50 works_db ≡ some row
      → (db' : Db) × (soft_delete_maintenance 50 works_db ≡ (ok tt, db'))
        × (find_maintenance 50 db' ≡ none)
        × Recomputed row.status_page_id
            (linked_ids (list_maintenance_components 50 works_db))
            (without_works 50 works_db)
            db')
    × (find_maintenance 50 works_db ≡ none
        → soft_delete_maintenance 50 works_db ≡ (err not_found, works_db))
soft_delete_maintenance_example = soft_delete_maintenance_lem 50 works_db

-- the works move to the component 10
abbrev moved_works : Maintenance
moved_works = record planned_works { component_ids = 10 ∷ [] }

abbrev unlinked_works : Maintenance
unlinked_works = record planned_works { component_ids = [] }

update_maintenance_example :
    (db' : Db) × (update_maintenance moved_works true works_db
      ≡ (ok (hydrate_maintenance db' (saved_works moved_works 60 unlinked_works)), db'))
    × Recomputed unlinked_works.status_page_id
        (affected_by moved_works true works_db)
        (changed_works moved_works true works_db)
        db'
    × ((j : Uuid)
        → any (λ c. c == j) (affected_by moved_works true works_db)
          ≡ any (λ c. c == j) (linked_ids (list_maintenance_components 50 works_db))
            || (true && any (λ c. c == j) (10 ∷ [])))
unfolding any find_maintenance healthpage.Store.Queries.first_where
update_maintenance_example =
    (update_maintenance_lem moved_works true works_db).0 unlinked_works refl ((refl, tt), (tt, tt))

-- the incident moves to the component 11
abbrev moved_incident : Incident
moved_incident = record open_incident { components = record api_link { component_id = 11 } ∷ [] }

update_incident_example :
    (db' : Db) × (update_incident moved_incident true page_db
      ≡ (ok (hydrate_incident db' (saved_incident moved_incident 60 open_row)), db'))
    × Recomputed open_row.status_page_id
        (affected_by_change moved_incident true page_db)
        (changed_incident moved_incident true page_db)
        db'
    × ((j : Uuid)
        → any (λ c. c == j) (affected_by_change moved_incident true page_db)
          ≡ any (λ c. c == j) (component_ids (list_incident_components 40 page_db))
            || (true && any (λ c. c == j) (11 ∷ [])))
unfolding any find_incident healthpage.Store.Queries.first_where
    healthpage.Store.Queries.reopens_taken
update_incident_example =
    (update_incident_lem moved_incident true page_db).0 open_row refl refl ((refl, tt), (tt, tt))
