-- ===== src/Tests/Tables.antt =====
-- The theorems on the tables at a concrete page.
use healthpage.Prelude.{
  ◌-◌, ◌≡◌, refl, ap, true, not, Option, none, some, [], ◌∷◌, map, if◌then◌else◌, ◌==◌,
  nat_comparable, string_comparable, keep, any,
}
use mathlib.Core.Option
use healthpage.Status.{ComponentStatus, major_outage}
use healthpage.Page.{Uuid, Component}
use healthpage.Incident
use healthpage.Incident.{resolved, Incident}
use healthpage.Store.{Db, ok, err, not_found, dedup_conflict, invalid_status, HistorySource, manual}
use healthpage.Store.Queries.{
  new_incident_row, find_component, find_incident, list_incident_components, with_fields,
  with_status,
}
use healthpage.Store.Recompute.{recompute_component_statuses_tx, change_component_status_tx}
use healthpage.Store.Recompute.Change.{change_component_status_tx_lem, changed}
use healthpage.Store.Recompute.Laws.{status_of}
use healthpage.Derive.{derived_component_status}
use healthpage.Store.Recompute.Joins.{page_incidents, page_works}
use healthpage.Store.Recompute.Refinement.{recompute_refines_rule}
use healthpage.Store.Recompute.Coherence.{IsCoherent, recompute_component_statuses_tx-IsCoherent}
use healthpage.Store.Incidents.Commit.{saved_incident}
use healthpage.Store.Incidents.Creation.{stored_incident, create_incident_lem, announced}
use healthpage.Store.Incidents.Updates.{add_incident_update_lem, new_update, with_new_update}
use healthpage.Store.Incidents.{
  create_incident, hydrate_incident, add_incident_update, component_ids, soft_delete_incident,
}
use healthpage.Store.Incidents.Sync.{Recomputed, without_incident, soft_delete_incident_lem}
use healthpage.Tests.Data.{page_db, open_row, api_link}

soft_delete_incident_example :
    ((row : Incident)
      → find_incident 40 page_db ≡ some row
      → (db' : Db) × (soft_delete_incident 40 page_db ≡ (ok tt, db'))
        × (find_incident 40 db' ≡ none)
        × Recomputed row.status_page_id
            (component_ids (list_incident_components 40 page_db))
            (without_incident 40 page_db)
            db')
    × (find_incident 40 page_db ≡ none → soft_delete_incident 40 page_db ≡ (err not_found, page_db))
soft_delete_incident_example = soft_delete_incident_lem 40 page_db

recompute_example :
    (db' : Db) × (recompute_component_statuses_tx 1 (10 ∷ []) page_db ≡ ok (tt, db'))
    × ((j : Uuid)
        → status_of j db' ≡ (
            if any (λ c. c == j) (10 ∷ [])
            then Option.map
                (λ _.
                  (derived_component_status j (page_incidents 1 page_db) (page_works 1 page_db)).0)
                (status_of j page_db)
            else status_of j page_db))
recompute_example = recompute_refines_rule 1 (10 ∷ []) page_db

change_example :
    change_component_status_tx 10 major_outage manual page_db ≡ elim (find_component 10 page_db) [
      | none ↦ err not_found
      | some c ↦ ok (with_status major_outage page_db.now c, changed 10 major_outage manual page_db)
    ]
change_example = change_component_status_tx_lem 10 major_outage manual page_db

page_db-IsCoherent : IsCoherent page_db
unfolding healthpage.Prelude.keep
page_db-IsCoherent = record { at = λ j. tt }

coherence_example :
    ((db' : Db) × (recompute_component_statuses_tx 1 (10 ∷ []) page_db ≡ ok (tt, db'))
      × IsCoherent db')
    × ((id : Uuid) (s : ComponentStatus) (source : HistorySource) (c : Component) (db' : Db)
        → change_component_status_tx id s source page_db ≡ ok (c, db')
        → IsCoherent db')
coherence_example =
    recompute_component_statuses_tx-IsCoherent 1 (10 ∷ []) page_db page_db-IsCoherent

abbrev fixed : Incident
unfolding Incident.apply_status_change
fixed = (Incident.apply_status_change resolved 59 open_row).0

add_update_example :
    (db' : Db) × (add_incident_update 40 resolved "fixed" true 59 page_db ≡ (
      ok (
        new_update 40 resolved "fixed" true page_db,
        hydrate_incident db' (saved_incident fixed page_db.now open_row),
      ),
      db',
    ))
    × (fixed.current_status ≡ resolved)
    × Recomputed fixed.status_page_id
        (component_ids (list_incident_components 40 page_db))
        (with_new_update 40 resolved "fixed" true fixed page_db)
        db'
unfolding find_incident healthpage.Store.Queries.first_where healthpage.Store.Queries.reopens_taken
    Incident.apply_status_change Incident.is_valid
add_update_example =
    (add_incident_update_lem 40 resolved "fixed" true 59 page_db).0 open_row refl refl refl

abbrev reported : Incident
reported = record open_row { components = api_link ∷ []; external_dedup_key = some "alert" }

create_example :
    (db' : Db) × (create_incident reported "down" true page_db
      ≡ (ok (hydrate_incident db' (stored_incident reported page_db)), db'))
    × Recomputed 1 (10 ∷ []) (announced reported "down" true page_db) db'
unfolding find_incident healthpage.Store.Queries.first_where any
create_example =
    create_incident_lem reported "down" true page_db refl
      (record { exists = refl; fresh = refl }, tt) (tt, tt) refl
