-- ===== src/Store/Maintenances/Atomic.antt =====
-- Operations on works that fail leave the tables as they were
-- (backend/internal/store/maintenances.go).
use healthpage.Prelude.{
  String, ◌≡◌, refl, sym, ap, ◌∙◌, subst, inl, inr, Bool, true, false, not, ◌&&◌, ◌||◌, Option,
  none, some, List, [], ◌∷◌, ◌++◌, arith, if◌then◌else◌, Bool-cases, Option-cases, ◌==◌,
  nat_comparable, string_comparable, any, equal_self,
}
use healthpage.Page.{Uuid}
use healthpage.Maintenance.{MaintenanceUpdate, Maintenance}
use healthpage.Store.{Db, Result, StoreError, ◌>>◌, ok, err, not_found, pure, bind-inv}
use healthpage.Store.Queries.{first_where, is_maintenance}
use healthpage.Store.Rows.{first_where-snoc, first_where-updated, first_where-absent}
use healthpage.Store.Works.{
  find_maintenance, insert_maintenance, new_maintenance_row, update_maintenance_row,
  with_works_fields, add_maintenance_component, list_maintenance_components,
  delete_maintenance_components,
}
use healthpage.Store.Recompute.{recompute_component_statuses_tx}
use healthpage.Store.Recompute.Laws.{derived_on, recompute-ok, recomputed-SameSources}
use healthpage.Store.Incidents.{add_keys}
use healthpage.Store.{after_commit}
use healthpage.Store.Incidents.Commit.{
  RolledBackOrLost, lost, commit_then-atomic, after_commit-ok, commit_then-err, commit_then-ok,
  state_of, looked_up,
}
use healthpage.Store.Maintenances.Links.{with_works_link, without_links}
use healthpage.Store.Maintenances.Changes.{with_changed_works}
use healthpage.Store.Maintenances.Laws.{with_new_works, add_maintenance_update_lem}
use healthpage.Store.Maintenances.{
  linked_ids, maintenance_by_id, hydrate_maintenance, link_components, create_maintenance_tx,
  create_maintenance, replace_links, update_maintenance_tx, update_maintenance,
  soft_delete_maintenance_tx, soft_delete_maintenance, add_maintenance_update,
}

recompute-keeps :
    (page : Uuid) (ids : List Uuid) (db db' : Db) (u : Unit {0})
    → recompute_component_statuses_tx page ids db ≡ ok (u, db')
    → db'.maintenances ≡ db.maintenances
recompute-keeps page ids db db' u h =
    ap (λ r. (state_of db r).maintenances) (sym h ∙ recompute-ok page ids db)
    ∙ (recomputed-SameSources (derived_on page db) ids db).maintenances

link_components-keeps :
    (id : Uuid) (ids : List Uuid) (db db' : Db) (u : Unit {0})
    → link_components id ids db ≡ ok (u, db')
    → db'.maintenances ≡ db.maintenances
unfolding link_components add_maintenance_component
link_components-keeps id [] db db' u h = ap (λ r. (state_of db r).maintenances) (sym h)
link_components-keeps id (cid ∷ rest) db db' u h =
    elim (Bool-cases (
      any (λ mc. mc.maintenance_id == id && mc.component_id == cid) db.maintenance_components
      || not (any (λ c. c.id == cid) db.components))) [
        | inl t ↦ ground (arith, t, h)
        | inr t ↦
            let next : link_components id rest (with_works_link id cid db) ≡ ok (u, db') =
              ground (arith, t, h) in
            link_components-keeps id rest (with_works_link id cid db) db' u next
      ]

-- works that are there after a transaction are read back
read_back :
    (id : Uuid) (db : Db) (row : Maintenance)
    → find_maintenance id db ≡ some row
    → (m : Maintenance) × (maintenance_by_id id db ≡ ok m)
unfolding maintenance_by_id
read_back id db row e = (
  hydrate_maintenance db row,
  ap (λ o. elim o [ none ↦ err not_found | some r ↦ ok (hydrate_maintenance db r) ]) e,
)

found_as :
    (id : Uuid) (a b : Db) (o : Option Maintenance)
    → b.maintenances ≡ a.maintenances
    → find_maintenance id a ≡ o
    → find_maintenance id b ≡ o
unfolding find_maintenance
found_as id a b o e f = ap (first_where (is_maintenance id)) e ∙ f

replaced-keeps :
    (m : Maintenance) (replace : Bool) (db db' : Db) (u : Unit {0})
    → (if replace then replace_links m else pure tt) db ≡ ok (u, db')
    → db'.maintenances ≡ db.maintenances
unfolding delete_maintenance_components
replaced-keeps m false db db' u h = ap (λ r. (state_of db r).maintenances) (sym h)
replaced-keeps m true db db' u h =
    link_components-keeps m.id m.component_ids (without_links m.id db) db' u h

-- a row that is found after an UPDATE was there before
updated_from :
    (m : Maintenance) (db : Db) (row : Maintenance)
    → find_maintenance m.id (with_changed_works m db) ≡ some row
    → (old : Maintenance) × (find_maintenance m.id db ≡ some old)
      × (row ≡ with_works_fields m db.now old)
unfolding find_maintenance
updated_from m db row h =
    let test = is_maintenance m.id in
    let change = with_works_fields m db.now in
    elim (Option-cases (find_maintenance m.id db)) [
      | inl n ↦ absurd (
          let gone = first_where-absent test test change (λ _. refl) db.maintenances n in
          let clash = sym gone ∙ h in (cc))
      | inr (old, e) ↦ (
        old,
        e,
        ap (λ o. elim o [ none ↦ row | some x ↦ x ])
            (sym h ∙ first_where-updated test change (λ _. refl) db.maintenances old e),
      )
    ]

-- A transaction that changes works leaves their row with the new fields.
pub update_maintenance_tx-ok :
    (m : Maintenance) (replace : Bool) (db : Db) (u : Unit {0}) (after : Db)
    → update_maintenance_tx m replace db ≡ ok (u, after)
    → (old : Maintenance) × (find_maintenance m.id db ≡ some old)
      × (find_maintenance m.id after ≡ some (with_works_fields m db.now old))
unfolding update_maintenance_tx update_maintenance_row
update_maintenance_tx-ok m replace db u after k =
    let prev = add_keys [] (linked_ids (list_maintenance_components m.id db)) in
    let affected = if replace then add_keys prev m.component_ids else prev in
    let links = if replace then replace_links m else pure tt in
    let (row, d1, e1, k1) =
      bind-inv (update_maintenance_row m)
        (λ updated. links >> recompute_component_statuses_tx updated.status_page_id affected) k in
    let (_, d2, e2, k2) =
      bind-inv links (λ _. recompute_component_statuses_tx row.status_page_id affected) k1 in
    let (found, same) =
      looked_up (find_maintenance m.id (with_changed_works m db)) (with_changed_works m db) d1 row
        e1 in
    let (old, there, fields) = updated_from m db row found in
    let now_there =
      found_as m.id d1 after (some row)
        (recompute-keeps row.status_page_id affected d2 after u k2
          ∙ replaced-keeps m replace d1 d2 tt e2)
        (subst (λ d. find_maintenance m.id d ≡ some row) (sym same) found) in
    (old, there, now_there ∙ ap (λ (x : Maintenance). some x) fields)

-- Changing works fails with a rollback, also where a component is listed twice or is gone, or
-- where the database is lost after the commit.
pub update_maintenance-err :
    (m : Maintenance) (replace : Bool) (db : Db) (e : StoreError) (db' : Db)
    → update_maintenance m replace db ≡ (err e, db')
    → RolledBackOrLost db e db'
unfolding update_maintenance
update_maintenance-err m replace db =
    commit_then-err (update_maintenance_tx m replace)
      (λ _ after. after_commit db (maintenance_by_id m.id after)) db
      (λ u after k.
        let (old, _, found) = update_maintenance_tx-ok m replace db u after k in
        let (full, back) = read_back m.id after (with_works_fields m db.now old) found in
        (full, ap (after_commit db) back))

-- Works that were changed have the new fields.
pub update_maintenance-ok :
    (m : Maintenance) (replace : Bool) (db : Db) (full : Maintenance) (db' : Db)
    → update_maintenance m replace db ≡ (ok full, db')
    → (old : Maintenance) × (find_maintenance m.id db ≡ some old)
      × (full ≡ hydrate_maintenance db' (with_works_fields m db.now old))
unfolding update_maintenance maintenance_by_id
update_maintenance-ok m replace db full db' h =
    let (u, k, r) =
      commit_then-ok (update_maintenance_tx m replace)
        (λ _ after. after_commit db (maintenance_by_id m.id after)) db full db' h in
    let (old, there, found) = update_maintenance_tx-ok m replace db u db' k in
    (
      old,
      there,
      ap (λ x. elim x [ ok y ↦ y | err _ ↦ full ])
          (sym (after_commit-ok db (maintenance_by_id m.id db') full r)
            ∙ ap (λ o. elim o [ none ↦ err not_found | some y ↦ ok (hydrate_maintenance db' y) ])
                found),
    )

-- Creating works fails with a rollback, or where the database is lost after the commit.
pub create_maintenance-err :
    (m : Maintenance) (db : Db) (e : StoreError) (db' : Db)
    → create_maintenance m db ≡ (err e, db')
    → RolledBackOrLost db e db'
unfolding create_maintenance create_maintenance_tx insert_maintenance find_maintenance
create_maintenance-err m db e db' h =
    let id = db.next_id in
    let row = new_maintenance_row m db in
    let recompute = recompute_component_statuses_tx m.status_page_id m.component_ids in
    commit_then-err (create_maintenance_tx m)
      (λ created after. after_commit db (maintenance_by_id created.id after)) db
      (λ created after k.
        let (_, d1, e1, k1) =
          bind-inv (link_components id m.component_ids) (λ _. recompute >> pure row) k in
        let (u, d2, e2, k2) = bind-inv recompute (λ _. pure row) k1 in
        let same : after.maintenances ≡ db.maintenances ++ row ∷ [] =
          ap (λ r. (state_of d2 r).maintenances) (sym k2)
          ∙ recompute-keeps m.status_page_id m.component_ids d1 d2 u e2
          ∙ link_components-keeps id m.component_ids (with_new_works m db) d1 tt e1 in
        let name : created ≡ row = ap (λ r. elim r [ ok (y, _) ↦ y | err _ ↦ row ]) (sym k2) in
        let self = equal_self id in
        let (there, found) =
          first_where-snoc (is_maintenance id) db.maintenances row (ground (arith, self)) in
        let (full, back) =
          read_back id after there (ap (first_where (is_maintenance id)) same ∙ found) in
        subst
          (λ (x : Maintenance).
            (b : Maintenance) × (after_commit db (maintenance_by_id x.id after)
              ≡ after_commit db (ok b)))
          (sym name) (full, ap (after_commit db) back))
      e db' h

-- Deleting works fails only with a rollback.
pub soft_delete_maintenance-err :
    (id : Uuid) (db : Db) (e : StoreError) (db' : Db)
    → soft_delete_maintenance id db ≡ (err e, db')
    → db' ≡ db
unfolding soft_delete_maintenance
soft_delete_maintenance-err id db = commit_then-atomic (soft_delete_maintenance_tx id) tt db

-- Adding an update fails with a rollback, or where the database is lost after the commit.
pub add_maintenance_update-err :
    (id : Uuid) (body : String) (notify : Bool) (db : Db) (e : StoreError) (db' : Db)
    → add_maintenance_update id body notify db ≡ (err e, db')
    → RolledBackOrLost db e db'
add_maintenance_update-err id body notify db e db' h =
    let law = add_maintenance_update_lem id body notify db in
    elim (Option-cases (find_maintenance id db)) [
      | inl n ↦
          inl (ap (λ (r : Result (MaintenanceUpdate × Maintenance) × Db). r.1) (sym h ∙ law.1 n))
      | inr (row, k) ↦ lost db _ _ e db' (sym (law.0 row k) ∙ h)
    ]
