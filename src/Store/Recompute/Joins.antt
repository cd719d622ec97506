-- ===== src/Store/Recompute/Joins.antt =====
-- What the two SQL joins of the recomputation collect (backend/internal/store/incidents.go and
-- store/db) imposes what the incidents and works of the page impose.
use healthpage.Prelude.{
  ◌≡◌, refl, sym, subst, true, ◌&&◌, none, List, [], ◌∷◌, map, Memᴰ, arith, ◌==◌, nat_comparable,
  string_comparable, keep, any, mem-keep, keep-mem, keep-mem_holds, mem-map, map-mem, any-mem,
  mem-any,
}
use healthpage.Status.{ComponentStatus, under_maintenance}
use healthpage.Page.{Uuid}
use healthpage.Incident
use healthpage.Incident.{Incident, IncidentComponent, IncidentStatus}
use healthpage.Maintenance
use healthpage.Maintenance.{Maintenance, MaintenanceStatus}
use healthpage.Derive.Sources.{Imposes}
use healthpage.Store.{Db, MaintenanceComponent}
use healthpage.Store.Queries.{
  is_active_on, list_active_incident_components, is_under_way_on,
  list_active_maintenance_component_ids, list_incident_components,
}
use healthpage.Store.Works.{list_maintenance_components}
use healthpage.Store.Recompute.{active_incident, active_maintenance}
use healthpage.Store.Incidents.{hydrate_incident}
use healthpage.Store.Maintenances.{linked_ids, hydrate_maintenance}

-- the incidents and works of a page with their components, as the domain sees them
abbrev pub page_incidents : Uuid → Db → List Incident
page_incidents page db =
    map (hydrate_incident db) (keep (λ i. i.status_page_id == page) db.incidents)

abbrev pub page_works : Uuid → Db → List Maintenance
page_works page db =
    map (hydrate_maintenance db) (keep (λ m. m.status_page_id == page) db.maintenances)

-- the incident and the works that the recomputation makes of the rows of the joins
abbrev pub joined_incidents : Uuid → Db → List Incident
joined_incidents page db = active_incident (list_active_incident_components page db) ∷ []

abbrev pub joined_works : Uuid → Db → List Maintenance
joined_works page db = active_maintenance (list_active_maintenance_component_ids page db) ∷ []

active_parts :
    (page : Uuid) (i : Incident) (ic : IncidentComponent)
    → (i.id == ic.incident_id && is_active_on page i) ≡ true
    → ((i.status_page_id == page) ≡ true)
      × (i.deleted_at ≡ none)
      × (Incident.is_active i ≡ true)
      × ((ic.incident_id == i.id) ≡ true)
unfolding Incident.is_active Incident.is_resolved
active_parts page i ic h = ground (arith, h)

works_parts :
    (page : Uuid) (m : Maintenance) (mc : MaintenanceComponent)
    → (m.id == mc.maintenance_id && is_under_way_on page m) ≡ true
    → ((m.status_page_id == page) ≡ true)
      × (m.deleted_at ≡ none)
      × (Maintenance.is_active m ≡ true)
      × ((mc.maintenance_id == m.id) ≡ true)
unfolding Maintenance.is_active
works_parts page m mc h = ground (arith, h)

active_again :
    (page : Uuid) (i : Incident) (ic : IncidentComponent)
    → (i.status_page_id == page) ≡ true
    → i.deleted_at ≡ none
    → Incident.is_active i ≡ true
    → (ic.incident_id == i.id) ≡ true
    → (i.id == ic.incident_id && is_active_on page i) ≡ true
unfolding Incident.is_active Incident.is_resolved
active_again page i ic p d a e = ground (arith, p, d, a, e)

works_again :
    (page : Uuid) (m : Maintenance) (mc : MaintenanceComponent)
    → (m.status_page_id == page) ≡ true
    → m.deleted_at ≡ none
    → Maintenance.is_active m ≡ true
    → (mc.maintenance_id == m.id) ≡ true
    → (m.id == mc.maintenance_id && is_under_way_on page m) ≡ true
unfolding Maintenance.is_active
works_again page m mc p d a e = ground (arith, p, d, a, e)

module _ (page : Uuid) (db : Db) (id : Uuid) (s : ComponentStatus) where
  from_joined_incident :
      (ic : IncidentComponent)
      → Memᴰ ic (list_active_incident_components page db)
      → ic.component_id ≡ id
      → s ≡ ic.component_status_in_incident
      → Imposes id (page_incidents page db) (page_works page db) s
  unfolding list_active_incident_components hydrate_incident list_incident_components
      Incident.is_active Incident.is_resolved
  from_joined_incident ic listed same q =
      let test = λ (r : IncidentComponent).
        any (λ i. i.id == r.incident_id && is_active_on page i) db.incidents in
      let (i, there, fits) =
        any-mem (λ i. i.id == ic.incident_id && is_active_on page i) db.incidents
          (keep-mem_holds test db.incident_components listed) in
      let (on_page, alive, active, linked) = active_parts page i ic fits in
      Imposes.by_incident (hydrate_incident db i) ic
        (mem-map (hydrate_incident db) (keep (λ x. x.status_page_id == page) db.incidents)
          (mem-keep (λ x. x.status_page_id == page) db.incidents there on_page))
        alive active
        (mem-keep (λ r. r.incident_id == i.id) db.incident_components
          (keep-mem test db.incident_components listed) linked)
        same q

  from_joined_works :
      Memᴰ id (list_active_maintenance_component_ids page db)
      → s ≡ under_maintenance
      → Imposes id (page_incidents page db) (page_works page db) s
  unfolding list_active_maintenance_component_ids hydrate_maintenance list_maintenance_components
      Maintenance.is_active
  from_joined_works listed q =
      let test = λ (r : MaintenanceComponent).
        any (λ m. m.id == r.maintenance_id && is_under_way_on page m) db.maintenances in
      let (mc, kept, same) =
        map-mem (λ r. r.component_id) (keep test db.maintenance_components) listed in
      let (m, there, fits) =
        any-mem (λ m. m.id == mc.maintenance_id && is_under_way_on page m) db.maintenances
          (keep-mem_holds test db.maintenance_components kept) in
      let (on_page, alive, active, linked) = works_parts page m mc fits in
      let mine =
        keep (λ (r : MaintenanceComponent). r.maintenance_id == m.id) db.maintenance_components in
      Imposes.by_maintenance (hydrate_maintenance db m)
        (mem-map (hydrate_maintenance db) (keep (λ x. x.status_page_id == page) db.maintenances)
          (mem-keep (λ x. x.status_page_id == page) db.maintenances there on_page))
        alive active
        (subst (λ x. Memᴰ x (linked_ids mine)) (sym same)
          (mem-map (λ r. r.component_id) mine
            (mem-keep (λ r. r.maintenance_id == m.id) db.maintenance_components
              (keep-mem test db.maintenance_components kept) linked)))
        q

  only_incident :
      (inc : Incident)
      → Memᴰ inc (joined_incidents page db)
      → inc ≡ active_incident (list_active_incident_components page db)
  only_incident inc (Memᴰ.head e) = e
  only_incident inc (Memᴰ.tail m) = elim m [ ]

  only_works :
      (m : Maintenance)
      → Memᴰ m (joined_works page db)
      → m ≡ active_maintenance (list_active_maintenance_component_ids page db)
  only_works m (Memᴰ.head e) = e
  only_works m (Memᴰ.tail k) = elim k [ ]

  pub joined_sound :
      Imposes id (joined_incidents page db) (joined_works page db) s
      → Imposes id (page_incidents page db) (page_works page db) s
  joined_sound (Imposes.by_incident inc ic k _ _ listed same q) =
      from_joined_incident ic
        (subst (λ (x : Incident). Memᴰ ic x.components) (only_incident inc k) listed) same q
  joined_sound (Imposes.by_maintenance m k _ _ listed q) =
      from_joined_works
        (subst (λ (x : Maintenance). Memᴰ id x.component_ids) (only_works m k) listed) q

  to_joined_incident :
      (i : Incident) (ic : IncidentComponent)
      → Memᴰ i (keep (λ x. x.status_page_id == page) db.incidents)
      → i.deleted_at ≡ none
      → Incident.is_active i ≡ true
      → Memᴰ ic (list_incident_components i.id db)
      → Memᴰ ic (list_active_incident_components page db)
  unfolding list_active_incident_components list_incident_components
  to_joined_incident i ic kept alive active listed =
      let fits =
        active_again page i ic (keep-mem_holds (λ x. x.status_page_id == page) db.incidents kept)
          alive active
          (keep-mem_holds (λ r. r.incident_id == i.id) db.incident_components listed) in
      mem-keep (λ r. any (λ x. x.id == r.incident_id && is_active_on page x) db.incidents)
        db.incident_components (keep-mem (λ r. r.incident_id == i.id) db.incident_components listed)
        (mem-any (λ x. x.id == ic.incident_id && is_active_on page x) db.incidents
          (keep-mem (λ x. x.status_page_id == page) db.incidents kept) fits)

  to_joined_works :
      (m : Maintenance)
      → Memᴰ m (keep (λ x. x.status_page_id == page) db.maintenances)
      → m.deleted_at ≡ none
      → Maintenance.is_active m ≡ true
      → Memᴰ id (linked_ids (list_maintenance_components m.id db))
      → Memᴰ id (list_active_maintenance_component_ids page db)
  unfolding list_active_maintenance_component_ids list_maintenance_components
  to_joined_works m kept alive active listed =
      let mine = λ (r : MaintenanceComponent). r.maintenance_id == m.id in
      let test = λ (r : MaintenanceComponent).
        any (λ x. x.id == r.maintenance_id && is_under_way_on page x) db.maintenances in
      let (mc, linked, same) =
        map-mem (λ r. r.component_id) (keep mine db.maintenance_components) listed in
      let fits =
        works_again page m mc (keep-mem_holds (λ x. x.status_page_id == page) db.maintenances kept)
          alive active (keep-mem_holds mine db.maintenance_components linked) in
      subst (λ x. Memᴰ x (linked_ids (keep test db.maintenance_components))) (sym same)
        (mem-map (λ r. r.component_id) (keep test db.maintenance_components)
          (mem-keep test db.maintenance_components (keep-mem mine db.maintenance_components linked)
            (mem-any (λ x. x.id == mc.maintenance_id && is_under_way_on page x) db.maintenances
              (keep-mem (λ x. x.status_page_id == page) db.maintenances kept) fits)))

  pub joined_complete :
      Imposes id (page_incidents page db) (page_works page db) s
      → Imposes id (joined_incidents page db) (joined_works page db) s
  unfolding hydrate_incident hydrate_maintenance Incident.is_active Incident.is_resolved
      Maintenance.is_active
  joined_complete (Imposes.by_incident inc ic k alive active listed same q) =
      let (i, kept, e) =
        map-mem (hydrate_incident db) (keep (λ x. x.status_page_id == page) db.incidents) k in
      Imposes.by_incident (active_incident (list_active_incident_components page db)) ic
        (Memᴰ.head refl) refl refl
        (to_joined_incident i ic kept (subst (λ (x : Incident). x.deleted_at ≡ none) e alive)
          (subst (λ (x : Incident). Incident.is_active x ≡ true) e active)
          (subst (λ (x : Incident). Memᴰ ic x.components) e listed))
        same q
  joined_complete (Imposes.by_maintenance m k alive active listed q) =
      let (w, kept, e) =
        map-mem (hydrate_maintenance db) (keep (λ x. x.status_page_id == page) db.maintenances) k in
      Imposes.by_maintenance (active_maintenance (list_active_maintenance_component_ids page db))
        (Memᴰ.head refl) refl refl
        (to_joined_works w kept (subst (λ (x : Maintenance). x.deleted_at ≡ none) e alive)
          (subst (λ (x : Maintenance). Maintenance.is_active x ≡ true) e active)
          (subst (λ (x : Maintenance). Memᴰ id x.component_ids) e listed))
        q
