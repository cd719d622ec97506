-- ===== src/Store/Maintenances/Laws.antt =====
-- Creating and deleting works, and their updates (CreateMaintenance, SoftDeleteMaintenance and
-- AddMaintenanceUpdate of backend/internal/store/maintenances.go).
use healthpage.Prelude.{
  ◌+◌, String, ◌≡◌, refl, sym, ap, ◌∙◌, subst, Bool, none, some, List, [], ◌∷◌, ◌++◌, arith,
  nat_comparable, string_comparable, All, equal_self,
}
use healthpage.Page.{Uuid, Time}
use healthpage.Maintenance.{Maintenance}
use healthpage.Store.{
  after_commit, Db, ok, err, not_found, Tx, ◌>>=◌, ◌>>◌, pure, gets, or_not_found, bind-ok,
  bind-err,
}
use healthpage.Store.Queries.{first_where, update_where, is_maintenance}
use healthpage.Store.Rows.{first_where-inserted}
use healthpage.Store.Works.{
  find_maintenance, insert_maintenance, new_maintenance_row, soft_delete_maintenance_row,
  deleted_works, list_maintenance_components, new_works_update, add_maintenance_update_row,
}
use healthpage.Store.Recompute.{recompute_component_statuses_tx}
use healthpage.Store.Recompute.Laws.{recomputed, derived_on, recompute-ok, recomputed-SameSources}
use healthpage.Store.Incidents.Sync.{Recomputed, recomputed-Recomputed}
use healthpage.Store.Maintenances.{
  linked_ids, hydrate_maintenance, maintenance_by_id, link_components, create_maintenance_tx,
  create_maintenance, add_maintenance_update_tx, add_maintenance_update, soft_delete_maintenance_tx,
  soft_delete_maintenance,
}
use healthpage.Store.Maintenances.Links.{
  with_works_links, IsLinkable, AreDistinct, link_components-ok, with_works_links-maintenances,
}

-- the tables once the works are there, and then their links
abbrev pub with_new_works : Maintenance → Db → Db
with_new_works m db = record db {
  maintenances = db.maintenances ++ new_maintenance_row m db ∷ [];
  next_id = db.next_id + 1;
}

abbrev pub planned : Maintenance → Db → Db
planned m db = with_works_links db.next_id m.component_ids (with_new_works m db)

-- what follows the insertion
after_insert : Maintenance → Maintenance → Tx Maintenance
after_insert m created = do
  link_components created.id m.component_ids
  recompute_component_statuses_tx m.status_page_id m.component_ids
  pure created

creates :
    (m : Maintenance) (db : Db)
    → All (IsLinkable db.next_id (with_new_works m db)) m.component_ids
    → AreDistinct m.component_ids
    → create_maintenance_tx m db
      ≡ ok (
        new_maintenance_row m db,
        recomputed (derived_on m.status_page_id (planned m db)) m.component_ids (planned m db),
      )
unfolding create_maintenance_tx after_insert insert_maintenance
creates m db h n =
    bind-ok (link_components db.next_id m.component_ids)
      (λ _. do
        recompute_component_statuses_tx m.status_page_id m.component_ids
        pure (new_maintenance_row m db))
      (link_components-ok db.next_id m.component_ids (with_new_works m db) h n)
    ∙ bind-ok (recompute_component_statuses_tx m.status_page_id m.component_ids)
        (λ _. pure (new_maintenance_row m db))
        (recompute-ok m.status_page_id m.component_ids (planned m db))

-- The row of new works has the fields that were given, under a new identifier.
abbrev pub stored_works : Maintenance → Db → Maintenance
stored_works m db = record {
  id = db.next_id;
  status_page_id = m.status_page_id;
  title = m.title;
  description = m.description;
  status = m.status;
  scheduled_start = m.scheduled_start;
  scheduled_end = m.scheduled_end;
  started_at = m.started_at;
  completed_at = m.completed_at;
  created_at = db.now;
  updated_at = db.now;
  deleted_at = none;
  component_ids = [];
  updates = [];
}

-- Creating works whose identifier is new, on components that are there and listed once: the works
-- are stored with their links, the components get the statuses that are then imposed on them,
-- other components keep theirs, a coherent history stays coherent, and the works are read back, where
-- the database is not lost after the commit.
pub create_maintenance_lem :
    (m : Maintenance) (db : Db)
    → find_maintenance db.next_id db ≡ none
    → All (IsLinkable db.next_id (with_new_works m db)) m.component_ids
    → AreDistinct m.component_ids
    → (db' : Db) × (create_maintenance m db
        ≡ (after_commit db (ok (hydrate_maintenance db' (stored_works m db))), db'))
      × Recomputed m.status_page_id m.component_ids (planned m db) db'
unfolding create_maintenance maintenance_by_id find_maintenance
create_maintenance_lem m db new h n =
    let stored = planned m db in
    let ids = m.component_ids in
    let db' = recomputed (derived_on m.status_page_id stored) ids stored in
    let rows : db'.maintenances ≡ db.maintenances ++ new_maintenance_row m db ∷ [] =
      (recomputed-SameSources (derived_on m.status_page_id stored) ids stored).maintenances
      ∙ with_works_links-maintenances db.next_id ids (with_new_works m db) in
    let self = equal_self db.next_id in
    let found =
      ap (first_where (is_maintenance db.next_id)) rows
      ∙ first_where-inserted (is_maintenance db.next_id) db.maintenances (new_maintenance_row m db)
          new (ground (arith, self)) in
    (
      db',
      ap
            (λ r. elim r [
              | err x ↦ (err x, db)
              | ok (created, after) ↦ (after_commit db (maintenance_by_id created.id after), after)
            ])
            (creates m db h n)
          ∙ ap
              (λ o. (
                after_commit db
                    (elim o [ none ↦ err not_found | some r ↦ ok (hydrate_maintenance db' r) ]),
                db',
              ))
              found,
      recomputed-Recomputed m.status_page_id ids stored,
    )

-- the tables once the works are marked deleted
abbrev pub without_works : Uuid → Db → Db
without_works id db = record db {
  maintenances = update_where (is_maintenance id) (deleted_works db.now) db.maintenances;
}

no_works_left :
    (id : Uuid) (now : Time) (l : List Maintenance)
    → first_where (is_maintenance id) (update_where (is_maintenance id) (deleted_works now) l)
      ≡ none
unfolding first_where update_where
no_works_left id now [] = refl
no_works_left id now (m ∷ l) = ground (arith, no_works_left id now l)

abbrev deletion : Uuid → Maintenance → Tx (Unit {0})
deletion id row = do
  comps ← gets (list_maintenance_components id)
  soft_delete_maintenance_row id
  recompute_component_statuses_tx row.status_page_id (linked_ids comps)

deletes :
    (id : Uuid) (db : Db) (row : Maintenance)
    → find_maintenance id db ≡ some row
    → soft_delete_maintenance_tx id db
      ≡ ok (
        tt,
        recomputed
            (derived_on row.status_page_id (without_works id db))
            (linked_ids (list_maintenance_components id db))
            (without_works id db),
      )
unfolding soft_delete_maintenance_tx soft_delete_maintenance_row
deletes id db row e =
    bind-ok (or_not_found (find_maintenance id db)) (deletion id) (ap (λ o. or_not_found o db) e)
    ∙ recompute-ok row.status_page_id (linked_ids (list_maintenance_components id db))
        (without_works id db)

-- Deleting works that are there succeeds: the works are gone, their components have the statuses
-- that the remaining incidents and works impose, all other components keep theirs, and a coherent
-- history stays coherent. Deleting works that are not there changes nothing.
pub soft_delete_maintenance_lem :
    (id : Uuid) (db : Db)
    → ((row : Maintenance)
        → find_maintenance id db ≡ some row
        → (db' : Db) × (soft_delete_maintenance id db ≡ (ok tt, db'))
          × (find_maintenance id db' ≡ none)
          × Recomputed row.status_page_id
              (linked_ids (list_maintenance_components id db))
              (without_works id db)
              db')
      × (find_maintenance id db ≡ none → soft_delete_maintenance id db ≡ (err not_found, db))
unfolding soft_delete_maintenance find_maintenance
soft_delete_maintenance_lem id db = (
  λ row e.
      let ids = linked_ids (list_maintenance_components id db) in
      let gone = without_works id db in
      (
        recomputed (derived_on row.status_page_id gone) ids gone,
        ap (λ r. elim r [ err x ↦ (err x, db) | ok (_, after) ↦ (ok tt, after) ])
            (deletes id db row e),
        subst (λ l. first_where (is_maintenance id) l ≡ none)
            (sym
              (recomputed-SameSources (derived_on row.status_page_id gone) ids gone).maintenances)
            (no_works_left id db.now db.maintenances),
        recomputed-Recomputed row.status_page_id ids gone,
      ),
  λ e.
      ap (λ r. elim r [ err x ↦ (err x, db) | ok (_, after) ↦ (ok tt, after) ])
        (unfold soft_delete_maintenance_tx in
          bind-err (or_not_found (find_maintenance id db)) (deletion id)
            (ap (λ o. or_not_found o db) e)),
)

-- the tables with one more entry of the feed of the works
abbrev pub with_works_update : Uuid → String → Bool → Db → Db
with_works_update id body notify db = record db {
  maintenance_updates = db.maintenance_updates ++ new_works_update id body notify db ∷ [];
  next_id = db.next_id + 1;
}

-- An update of works that are there is stored and nothing else changes: no status of a component,
-- no history, no stage of any works; both are returned, where the database is not lost after the
-- commit. For works that are not there the operation fails and changes
-- nothing.
pub add_maintenance_update_lem :
    (id : Uuid) (body : String) (notify : Bool) (db : Db)
    → ((row : Maintenance)
        → find_maintenance id db ≡ some row
        → let db' = with_works_update id body notify db in
          add_maintenance_update id body notify db ≡ (
            after_commit db (ok (new_works_update id body notify db, hydrate_maintenance db' row)),
            db',
          ))
      × (find_maintenance id db ≡ none
          → add_maintenance_update id body notify db ≡ (err not_found, db))
unfolding add_maintenance_update add_maintenance_update_tx add_maintenance_update_row
    maintenance_by_id find_maintenance
add_maintenance_update_lem id body notify db = (λ row e. ground (arith, e), λ e. ground (arith, e))
