-- ===== src/Store/Maintenances/Changes.antt =====
-- Changing works and their components (UpdateMaintenance of
-- backend/internal/store/maintenances.go).
use healthpage.Prelude.{
  ◌≡◌, refl, ap, ◌∙◌, Bool, true, false, ◌&&◌, ◌||◌, none, some, List, [], ◌∷◌, arith,
  if◌then◌else◌, ◌==◌, nat_comparable, string_comparable, All, any,
}
use healthpage.Page.{Time, Uuid}
use healthpage.Maintenance.{Maintenance}
use healthpage.Store.{
  after_commit, Db, ok, err, not_found, Tx, ◌>>◌, pure, or_not_found, bind-ok, bind-err,
}
use healthpage.Store.Queries.{first_where, update_where, is_maintenance}
use healthpage.Store.Rows.{first_where-updated, first_where-absent}
use healthpage.Store.Works.{
  find_maintenance, update_maintenance_row, with_works_fields, list_maintenance_components,
  delete_maintenance_components,
}
use healthpage.Store.Recompute.{recompute_component_statuses_tx}
use healthpage.Store.Recompute.Laws.{recomputed, derived_on, recompute-ok, recomputed-SameSources}
use healthpage.Store.Incidents.{add_keys}
use healthpage.Store.{Result, constraint_violation}
use healthpage.Store.Maintenances.{link_components}
use healthpage.Store.Maintenances.Links.{
  IsLinkable, link_components-err, link_components-AreDistinct,
}
use healthpage.Store.Incidents.Keys.{any-add_keys}
use healthpage.Store.Incidents.Sync.{Recomputed, recomputed-Recomputed}
use healthpage.Store.Maintenances.{
  linked_ids, hydrate_maintenance, maintenance_by_id, replace_links, update_maintenance_tx,
  update_maintenance,
}
use healthpage.Store.Maintenances.Links.{
  with_works_links, without_links, AreDistinct, link_components-ok, with_works_links-maintenances,
  existing-IsLinkable,
}

-- the tables with the changed row
abbrev pub with_changed_works : Maintenance → Db → Db
with_changed_works m db = record db {
  maintenances = update_where (is_maintenance m.id) (with_works_fields m db.now) db.maintenances;
}

-- the tables once the links are replaced, where they are
abbrev pub changed_works : Maintenance → Bool → Db → Db
changed_works m replace db =
    if replace
    then with_works_links m.id m.component_ids (without_links m.id (with_changed_works m db))
    else with_changed_works m db

-- the components whose statuses are recomputed
abbrev pub affected_by : Maintenance → Bool → Db → List Uuid
affected_by m replace db =
    let prev = add_keys [] (linked_ids (list_maintenance_components m.id db)) in
    if replace then add_keys prev m.component_ids else prev

-- Where the components are replaced, the new ones are there and listed once.
abbrev pub CanReplace : Maintenance → Bool → Db → Type 0
CanReplace m true db =
    All (λ cid. any (λ c. c.id == cid) db.components ≡ true) m.component_ids
    × AreDistinct m.component_ids
CanReplace m false db = Unit

after_row : Maintenance → Bool → List Uuid → Maintenance → Tx (Unit {0})
after_row m replace affected updated = do
  (if replace then replace_links m else pure tt)
  recompute_component_statuses_tx updated.status_page_id affected

row_changes :
    (m row : Maintenance) (db : Db)
    → find_maintenance m.id db ≡ some row
    → (find_maintenance m.id (with_changed_works m db) ≡ some (with_works_fields m db.now row))
      × (update_maintenance_row m db ≡ ok (with_works_fields m db.now row, with_changed_works m db))
unfolding find_maintenance update_maintenance_row
row_changes m row db e =
    let found =
      first_where-updated (is_maintenance m.id) (with_works_fields m db.now) (λ _. refl)
        db.maintenances row e in
    (found, ap (λ o. or_not_found o (with_changed_works m db)) found)

links_change :
    (m : Maintenance) (replace : Bool) (db : Db)
    → CanReplace m replace db
    → (if replace then replace_links m else pure tt) (with_changed_works m db)
      ≡ ok (tt, changed_works m replace db)
unfolding delete_maintenance_components
links_change m false db h = refl
links_change m true db h =
    link_components-ok m.id m.component_ids (without_links m.id (with_changed_works m db))
      (existing-IsLinkable m.id (with_changed_works m db) m.component_ids h.0) h.1

changed_works-maintenances :
    (m : Maintenance) (replace : Bool) (db : Db)
    → (changed_works m replace db).maintenances ≡ (with_changed_works m db).maintenances
changed_works-maintenances m false db = refl
changed_works-maintenances m true db =
    with_works_links-maintenances m.id m.component_ids
      (without_links m.id (with_changed_works m db))

changes :
    (m : Maintenance) (replace : Bool) (db : Db) (row : Maintenance)
    → find_maintenance m.id db ≡ some row
    → CanReplace m replace db
    → update_maintenance_tx m replace db
      ≡ ok (
        tt,
        recomputed
            (derived_on row.status_page_id (changed_works m replace db))
            (affected_by m replace db)
            (changed_works m replace db),
      )
unfolding update_maintenance_tx after_row
changes m replace db row e h =
    bind-ok (update_maintenance_row m) (after_row m replace (affected_by m replace db))
      (row_changes m row db e).1
    ∙ bind-ok (if replace then replace_links m else pure tt)
        (λ _. recompute_component_statuses_tx row.status_page_id (affected_by m replace db))
        (links_change m replace db h)
    ∙ recompute-ok row.status_page_id (affected_by m replace db) (changed_works m replace db)

there :
    (id : Uuid) (db : Db) (ids : List Uuid)
    → All (IsLinkable id db) ids
    → All (λ cid. any (λ c. c.id == cid) db.components ≡ true) ids
there id db [] h = tt
there id db (cid ∷ rest) h = (h.0.exists, there id db rest h.1)

relink_fails :
    (m : Maintenance) (replace : Bool) (db : Db)
    → ¬ CanReplace m replace db
    → (if replace then replace_links m else pure tt) (with_changed_works m db)
      ≡ err constraint_violation
unfolding delete_maintenance_components
relink_fails m false db n = absurd (n tt)
relink_fails m true db n =
    go (link_components m.id m.component_ids (without_links m.id (with_changed_works m db))) refl
  where
    go :
        (r : Result (Unit {0} × Db))
        → link_components m.id m.component_ids (without_links m.id (with_changed_works m db)) ≡ r
        → r ≡ err constraint_violation
    go (ok (u, d)) k = absurd (
        let (linkable, distinct) =
          link_components-AreDistinct m.id m.component_ids
            (without_links m.id (with_changed_works m db)) d k in
        n (
          there m.id (without_links m.id (with_changed_works m db)) m.component_ids linkable,
          distinct,
        ))
    go (err e) k =
        ap (λ x. err x)
          (link_components-err m.id m.component_ids (without_links m.id (with_changed_works m db)) e
            k)

unlinked :
    (m : Maintenance) (replace : Bool) (db : Db) (row : Maintenance)
    → find_maintenance m.id db ≡ some row
    → ¬ CanReplace m replace db
    → update_maintenance_tx m replace db ≡ err constraint_violation
unfolding update_maintenance_tx after_row
unlinked m replace db row e n =
    bind-ok (update_maintenance_row m) (after_row m replace (affected_by m replace db))
      (row_changes m row db e).1
    ∙ bind-err (if replace then replace_links m else pure tt)
        (λ _. recompute_component_statuses_tx row.status_page_id (affected_by m replace db))
        (relink_fails m replace db n)

unchanged :
    (m : Maintenance) (replace : Bool) (db : Db)
    → find_maintenance m.id db ≡ none
    → update_maintenance_tx m replace db ≡ err not_found
unfolding update_maintenance_tx after_row find_maintenance update_maintenance_row
unchanged m replace db e =
    bind-err (update_maintenance_row m) (after_row m replace (affected_by m replace db)) (
      ap (λ o. or_not_found o (with_changed_works m db))
        (first_where-absent (is_maintenance m.id) (is_maintenance m.id) (with_works_fields m db.now)
          (λ _. refl) db.maintenances e))

affected_iff :
    (m : Maintenance) (replace : Bool) (db : Db) (j : Uuid)
    → any (λ c. c == j) (affected_by m replace db)
      ≡ any (λ c. c == j) (linked_ids (list_maintenance_components m.id db))
        || (replace && any (λ c. c == j) m.component_ids)
unfolding any
affected_iff m replace db j =
    let prev = linked_ids (list_maintenance_components m.id db) in
    ground (arith, any-add_keys j [] prev, any-add_keys j (add_keys [] prev) m.component_ids)

-- The fields of the works are saved; the page and the time of creation stay.
abbrev pub saved_works : Maintenance → Time → Maintenance → Maintenance
saved_works m now row = record {
  id = row.id;
  status_page_id = row.status_page_id;
  title = m.title;
  description = m.description;
  status = m.status;
  scheduled_start = m.scheduled_start;
  scheduled_end = m.scheduled_end;
  started_at = m.started_at;
  completed_at = m.completed_at;
  created_at = row.created_at;
  updated_at = now;
  deleted_at = row.deleted_at;
  component_ids = row.component_ids;
  updates = row.updates;
}

-- Changing works that are there, with a replacement of their components by ones that exist and are
-- listed once, or without: the row gets the new fields and keeps the others, it gets the new links,
-- exactly the components that were linked before or are linked now are recomputed, they get the
-- statuses that are then imposed on them, all other components keep theirs, a coherent history
-- stays coherent, and the works are read back, where the database is not lost after the commit. A
-- replacement by a component that does not exist or is listed twice, and works that are not there,
-- give an error, and nothing changes.
pub update_maintenance_lem :
    (m : Maintenance) (replace : Bool) (db : Db)
    → ((row : Maintenance)
        → find_maintenance m.id db ≡ some row
        → CanReplace m replace db
        → (db' : Db) × (update_maintenance m replace db
            ≡ (after_commit db (ok (hydrate_maintenance db' (saved_works m db.now row))), db'))
          × Recomputed row.status_page_id
              (affected_by m replace db)
              (changed_works m replace db)
              db'
          × ((j : Uuid)
              → any (λ c. c == j) (affected_by m replace db)
                ≡ any (λ c. c == j) (linked_ids (list_maintenance_components m.id db))
                  || (replace && any (λ c. c == j) m.component_ids)))
      × ((row : Maintenance)
          → find_maintenance m.id db ≡ some row
          → ¬ CanReplace m replace db
          → update_maintenance m replace db ≡ (err constraint_violation, db))
      × (find_maintenance m.id db ≡ none → update_maintenance m replace db ≡ (err not_found, db))
unfolding update_maintenance maintenance_by_id find_maintenance
update_maintenance_lem m replace db = (
  λ row e h.
      let stored = changed_works m replace db in
      let ids = affected_by m replace db in
      let db' = recomputed (derived_on row.status_page_id stored) ids stored in
      let rows =
        (recomputed-SameSources (derived_on row.status_page_id stored) ids stored).maintenances
        ∙ changed_works-maintenances m replace db in
      let found = ap (first_where (is_maintenance m.id)) rows ∙ (row_changes m row db e).0 in
      (
        db',
        ap
              (λ r. elim r [
                | err x ↦ (err x, db)
                | ok (_, after) ↦ (after_commit db (maintenance_by_id m.id after), after)
              ])
              (changes m replace db row e h)
            ∙ ap
                (λ o. (
                  after_commit db
                      (elim o [ none ↦ err not_found | some r ↦ ok (hydrate_maintenance db' r) ]),
                  db',
                ))
                found,
        recomputed-Recomputed row.status_page_id ids stored,
        affected_iff m replace db,
      ),
  λ row e n.
      ap
        (λ r. elim r [
          | err x ↦ (err x, db)
          | ok (_, after) ↦ (after_commit db (maintenance_by_id m.id after), after)
        ])
        (unlinked m replace db row e n),
  λ e.
      ap
        (λ r. elim r [
          | err x ↦ (err x, db)
          | ok (_, after) ↦ (after_commit db (maintenance_by_id m.id after), after)
        ])
        (unchanged m replace db e),
)
