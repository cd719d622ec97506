-- ===== src/Store/Works.antt =====
-- backend/internal/store/db/maintenances.sql.go: the statements on maintenance works.
use healthpage.Prelude.{
  ◌+◌, String, Bool, not, ◌&&◌, ◌||◌, Option, none, some, List, [], ◌∷◌, ◌++◌, if◌then◌else◌, ◌==◌,
  nat_comparable, string_comparable, keep, any,
}
use healthpage.Page.{Uuid, Time}
use healthpage.Maintenance.{Maintenance, MaintenanceUpdate}
use healthpage.Store.{Db, MaintenanceComponent, ok, err, constraint_violation, Tx, or_not_found}
use healthpage.Store.Queries.{first_where, update_where, is_maintenance}

-- GetMaintenanceByID
unfoldable pub find_maintenance : Uuid → Db → Option Maintenance
find_maintenance id db = first_where (is_maintenance id) db.maintenances

abbrev pub new_maintenance_row : Maintenance → Db → Maintenance
new_maintenance_row m db = record m {
  id = db.next_id;
  created_at = db.now;
  updated_at = db.now;
  deleted_at = none;
  component_ids = [];
  updates = [];
}

-- CreateMaintenance
unfoldable pub insert_maintenance : Maintenance → Tx Maintenance
insert_maintenance m db = ok (
  new_maintenance_row m db,
  record db {
    maintenances = db.maintenances ++ new_maintenance_row m db ∷ [];
    next_id = db.next_id + 1;
  },
)

-- the columns that UpdateMaintenance sets
abbrev pub with_works_fields : Maintenance → Time → Maintenance → Maintenance
with_works_fields m now row = record row {
  title = m.title;
  description = m.description;
  status = m.status;
  scheduled_start = m.scheduled_start;
  scheduled_end = m.scheduled_end;
  started_at = m.started_at;
  completed_at = m.completed_at;
  updated_at = now;
}

-- UpdateMaintenance
unfoldable pub update_maintenance_row : Maintenance → Tx Maintenance
unfolding find_maintenance
update_maintenance_row m db =
    let db' = record db {
      maintenances =
          update_where (is_maintenance m.id) (with_works_fields m db.now) db.maintenances;
    } in
    or_not_found (find_maintenance m.id db') db'

abbrev pub deleted_works : Time → Maintenance → Maintenance
deleted_works now m = record m { deleted_at = some now; updated_at = now }

-- SoftDeleteMaintenance
unfoldable pub soft_delete_maintenance_row : Uuid → Tx (Unit {0})
soft_delete_maintenance_row id db = ok (
  tt,
  record db {
    maintenances = update_where (is_maintenance id) (deleted_works db.now) db.maintenances;
  },
)

abbrev pub new_works_link : Uuid → Uuid → Db → MaintenanceComponent
new_works_link id component db = record {
  id = db.next_id;
  maintenance_id = id;
  component_id = component;
  created_at = db.now;
  updated_at = db.now;
}

-- AddMaintenanceComponent, under the unique index maintenance_components_unique and the foreign
-- key to components
unfoldable pub add_maintenance_component : Uuid → Uuid → Tx (Unit {0})
add_maintenance_component id component db =
    if any (λ mc. mc.maintenance_id == id && mc.component_id == component) db.maintenance_components
      || not (any (λ c. c.id == component) db.components)
    then err constraint_violation
    else ok (
      tt,
      record db {
        maintenance_components = db.maintenance_components ++ new_works_link id component db ∷ [];
        next_id = db.next_id + 1;
      },
    )

-- ListMaintenanceComponents
unfoldable pub list_maintenance_components : Uuid → Db → List MaintenanceComponent
list_maintenance_components id db = keep (λ mc. mc.maintenance_id == id) db.maintenance_components

-- DeleteMaintenanceComponents
unfoldable pub delete_maintenance_components : Uuid → Tx (Unit {0})
delete_maintenance_components id db = ok (
  tt,
  record db {
    maintenance_components = keep (λ mc. not (mc.maintenance_id == id)) db.maintenance_components;
  },
)

abbrev pub new_works_update : Uuid → String → Bool → Db → MaintenanceUpdate
new_works_update id body notify db = record {
  id = db.next_id;
  maintenance_id = id;
  body = body;
  notify_subscribers = notify;
  created_at = db.now;
  updated_at = db.now;
}

-- AddMaintenanceUpdate
unfoldable pub add_maintenance_update_row : Uuid → String → Bool → Tx MaintenanceUpdate
add_maintenance_update_row id body notify db = ok (
  new_works_update id body notify db,
  record db {
    maintenance_updates = db.maintenance_updates ++ new_works_update id body notify db ∷ [];
    next_id = db.next_id + 1;
  },
)

-- ListMaintenanceUpdates
unfoldable pub list_maintenance_updates : Uuid → Db → List MaintenanceUpdate
list_maintenance_updates id db = keep (λ u. u.maintenance_id == id) db.maintenance_updates
