-- ===== src/Store/Maintenances.antt =====
-- backend/internal/store/maintenances.go: the operations on maintenance works. Each runs one
-- transaction, and reads the result back after the commit.
pub mod Links
pub mod Laws
pub mod Changes
pub mod Atomic
use healthpage.Prelude.{
  ◌-◌, String, ap, Bool, not, none, some, List, [], ◌∷◌, map, if◌then◌else◌, nat_comparable,
  string_comparable,
}
use healthpage.Page.{Uuid}
use healthpage.Maintenance.{Maintenance, MaintenanceUpdate}
use healthpage.Store.{
  after_commit, Db, MaintenanceComponent, Result, ok, err, not_found, Tx, ◌>>=◌, ◌>>◌, pure, gets,
  or_not_found,
}
use healthpage.Store.Works.{
  find_maintenance, insert_maintenance, update_maintenance_row, soft_delete_maintenance_row,
  add_maintenance_component, list_maintenance_components, delete_maintenance_components,
  add_maintenance_update_row, list_maintenance_updates,
}
use healthpage.Store.Recompute.{recompute_component_statuses_tx}
use healthpage.Store.Incidents.{StoreOp, commit_then, add_keys}

-- the component of each link
abbrev pub linked_ids : List MaintenanceComponent → List Uuid
linked_ids = map (λ mc. mc.component_id)

-- hydrateMaintenance
unfoldable pub hydrate_maintenance : Db → Maintenance → Maintenance
hydrate_maintenance db m = record m {
  component_ids = linked_ids (list_maintenance_components m.id db);
  updates = list_maintenance_updates m.id db;
}

-- MaintenanceByID
unfoldable pub maintenance_by_id : Uuid → Db → Result Maintenance
maintenance_by_id id db = elim (find_maintenance id db) [
  | none ↦ err not_found
  | some row ↦ ok (hydrate_maintenance db row)
]

-- the loop over `m.ComponentIDs` that adds the links
unfoldable pub link_components : Uuid → List Uuid → Tx (Unit {0})
link_components id [] db = ok (tt, db)
link_components id (cid ∷ rest) db = elim (add_maintenance_component id cid db) [
  | err e ↦ err e
  | ok (_, db') ↦ link_components id rest db'
]

unfoldable pub create_maintenance_tx : Maintenance → Tx Maintenance
create_maintenance_tx m = do
  created ← insert_maintenance m
  link_components created.id m.component_ids
  recompute_component_statuses_tx m.status_page_id m.component_ids
  pure created

-- CreateMaintenance
unfoldable pub create_maintenance : Maintenance → StoreOp Maintenance
unfolding create_maintenance_tx
create_maintenance m db =
    commit_then (create_maintenance_tx m)
      (λ created after. after_commit db (maintenance_by_id created.id after)) db

abbrev pub replace_links : Maintenance → Tx (Unit {0})
replace_links m = do delete_maintenance_components m.id; link_components m.id m.component_ids

unfoldable pub update_maintenance_tx : Maintenance → Bool → Tx (Unit {0})
unfolding add_keys
update_maintenance_tx m replace db =
    let prev = linked_ids (list_maintenance_components m.id db) in
    let affected = add_keys [] prev in
    (do
      updated ← update_maintenance_row m
      (if replace then replace_links m else pure tt)
      recompute_component_statuses_tx updated.status_page_id
          (if replace then add_keys affected m.component_ids else affected))
      db

-- UpdateMaintenance
unfoldable pub update_maintenance : Maintenance → Bool → StoreOp Maintenance
unfolding update_maintenance_tx
update_maintenance m replace db =
    commit_then (update_maintenance_tx m replace)
      (λ _ after. after_commit db (maintenance_by_id m.id after)) db

unfoldable pub add_maintenance_update_tx : Uuid → String → Bool → Tx MaintenanceUpdate
add_maintenance_update_tx id body notify db =
    (do _ ← or_not_found (find_maintenance id db); add_maintenance_update_row id body notify) db

abbrev pub with_works :
    MaintenanceUpdate → Result Maintenance → Result (MaintenanceUpdate × Maintenance)
with_works u (ok full) = ok (u, full)
with_works u (err e) = err e

-- AddMaintenanceUpdate
unfoldable pub add_maintenance_update :
    Uuid → String → Bool → StoreOp (MaintenanceUpdate × Maintenance)
unfolding add_maintenance_update_tx
add_maintenance_update id body notify db =
    commit_then (add_maintenance_update_tx id body notify)
      (λ u after. with_works u (after_commit db (maintenance_by_id id after))) db

unfoldable pub soft_delete_maintenance_tx : Uuid → Tx (Unit {0})
soft_delete_maintenance_tx id db =
    (do
      row ← or_not_found (find_maintenance id db)
      comps ← gets (list_maintenance_components id)
      soft_delete_maintenance_row id
      recompute_component_statuses_tx row.status_page_id (linked_ids comps))
      db

-- SoftDeleteMaintenance
unfoldable pub soft_delete_maintenance : Uuid → StoreOp (Unit {0})
unfolding soft_delete_maintenance_tx
soft_delete_maintenance id = commit_then (soft_delete_maintenance_tx id) (λ _ _. ok tt)
