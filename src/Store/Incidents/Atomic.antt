-- ===== src/Store/Incidents/Atomic.antt =====
-- Operations on incidents that fail leave the tables as they were
-- (backend/internal/store/incidents.go).
use healthpage.Prelude.{
  String, ◌≡◌, sym, ap, ◌∙◌, subst, inl, inr, Bool, true, false, not, ◌&&◌, ◌||◌, none, some, List,
  [], ◌∷◌, ◌++◌, arith, if◌then◌else◌, Bool-cases, Option-cases, is_some, ◌==◌, nat_comparable,
  string_comparable, any, equal_self,
}
use healthpage.Page.{Uuid, Time}
use healthpage.Incident
use healthpage.Incident.{Incident, IncidentStatus, IncidentComponent, IncidentUpdate}
use healthpage.Store.{Db, Result, StoreError, ◌>>◌, ok, err, not_found, Tx, pure, bind-inv}
use healthpage.Store.Queries.{
  first_where, is_incident, find_incident, insert_incident, new_incident_row, has_open_dedup,
  update_incident_row, add_incident_component, list_incident_components, delete_incident_components,
  add_incident_update_row,
}
use healthpage.Store.Rows.{first_where-snoc}
use healthpage.Store.Recompute.{recompute_component_statuses_tx}
use healthpage.Store.Recompute.Laws.{derived_on, recompute-ok, recomputed-SameSources}
use healthpage.Store.Incidents.{
  component_ids, add_keys, add_components, replace_components, create_incident_tx, create_incident,
  update_incident_tx, update_incident, incident_by_id, hydrate_incident, soft_delete_incident_tx,
  soft_delete_incident, add_incident_update,
}
use healthpage.Store.{after_commit, constraint_violation, invalid_status}
use healthpage.Store.Queries.{reopens_taken}
use healthpage.Incident.{apply_status_change}
use healthpage.Store.Incidents.Commit.{
  RolledBackOrLost, lost, commit_then-atomic, commit_then-err, commit_then-ok, state_of, looked_up,
}
use healthpage.Store.Incidents.Creation.{with_link, inserted}
use healthpage.Store.Incidents.Changes.{with_changed_incident, without_components}
use healthpage.Store.Incidents.Updates.{add_incident_update_lem}

recompute-keeps :
    (page : Uuid) (ids : List Uuid) (db db' : Db) (u : Unit {0})
    → recompute_component_statuses_tx page ids db ≡ ok (u, db')
    → db'.incidents ≡ db.incidents
recompute-keeps page ids db db' u h =
    ap (λ r. (state_of db r).incidents) (sym h ∙ recompute-ok page ids db)
    ∙ (recomputed-SameSources (derived_on page db) ids db).incidents

add_components-keeps :
    (id : Uuid) (comps : List IncidentComponent) (db db' : Db) (u : Unit {0})
    → add_components id comps db ≡ ok (u, db')
    → db'.incidents ≡ db.incidents
unfolding add_components add_incident_component
add_components-keeps id [] db db' u h = ap (λ r. (state_of db r).incidents) (sym h)
add_components-keeps id (ic ∷ rest) db db' u h =
    elim (Bool-cases (
      any (λ r. r.incident_id == id && r.component_id == ic.component_id) db.incident_components
      || not (any (λ c. c.id == ic.component_id) db.components))) [
        | inl t ↦ ground (arith, t, h)
        | inr t ↦
            let next : add_components id rest (with_link id ic db) ≡ ok (u, db') =
              ground (arith, t, h) in
            add_components-keeps id rest (with_link id ic db) db' u next
      ]

-- an incident that is there after a transaction is read back
read_back :
    (id : Uuid) (db : Db) (row : Incident)
    → find_incident id db ≡ some row
    → (i : Incident) × (incident_by_id id db ≡ ok i)
unfolding incident_by_id
read_back id db row e = (
  hydrate_incident db row,
  ap (λ o. elim o [ none ↦ err not_found | some r ↦ ok (hydrate_incident db r) ]) e,
)

replaced-keeps :
    (inc : Incident) (replace : Bool) (db db' : Db) (u : Unit {0})
    → (if replace then replace_components inc else pure tt) db ≡ ok (u, db')
    → db'.incidents ≡ db.incidents
unfolding delete_incident_components
replaced-keeps inc false db db' u h = ap (λ r. (state_of db r).incidents) (sym h)
replaced-keeps inc true db db' u h =
    add_components-keeps inc.id inc.components (without_components inc.id db) db' u h

-- an UPDATE that succeeds leaves the changed row
updated_row :
    (inc : Incident) (db d : Db) (row : Incident)
    → update_incident_row inc db ≡ ok (row, d)
    → (find_incident inc.id (with_changed_incident inc db) ≡ some row)
      × (d ≡ with_changed_incident inc db)
unfolding update_incident_row
updated_row inc db d row h = elim (Bool-cases (reopens_taken inc db)) [
  | inl t ↦ absurd (ground (arith, t, h))
  | inr t ↦
      looked_up (find_incident inc.id (with_changed_incident inc db)) (with_changed_incident inc db)
        d row (ground (arith, t, h))
]

-- Changing an incident fails with a rollback, also where a component is listed twice, or the
-- database is lost after the commit.
pub update_incident-err :
    (inc : Incident) (replace : Bool) (db : Db) (e : StoreError) (db' : Db)
    → update_incident inc replace db ≡ (err e, db')
    → RolledBackOrLost db e db'
unfolding update_incident update_incident_tx update_incident_row find_incident
update_incident-err inc replace db =
    let prev = add_keys [] (component_ids (list_incident_components inc.id db)) in
    let affected = if replace then add_keys prev (component_ids inc.components) else prev in
    let links = if replace then replace_components inc else pure tt in
    commit_then-err (update_incident_tx inc replace)
      (λ _ after. after_commit db (incident_by_id inc.id after)) db
      (λ u after k.
        let (row, d1, e1, k1) =
          bind-inv (update_incident_row inc)
            (λ updated. links >> recompute_component_statuses_tx updated.status_page_id affected)
            k in
        let (_, d2, e2, k2) =
          bind-inv links (λ _. recompute_component_statuses_tx row.status_page_id affected) k1 in
        let (found, same) = updated_row inc db d1 row e1 in
        let kept =
          recompute-keeps row.status_page_id affected d2 after u k2
          ∙ replaced-keeps inc replace d1 d2 tt e2
          ∙ ap (λ (d : Db). d.incidents) same in
        let (full, back) =
          read_back inc.id after row (ap (first_where (is_incident inc.id)) kept ∙ found) in
        (full, ap (after_commit db) back))

-- Deleting an incident fails only with a rollback.
pub soft_delete_incident-err :
    (id : Uuid) (db : Db) (e : StoreError) (db' : Db)
    → soft_delete_incident id db ≡ (err e, db')
    → db' ≡ db
unfolding soft_delete_incident
soft_delete_incident-err id db = commit_then-atomic (soft_delete_incident_tx id) tt db

-- Adding an update fails with a rollback, or where the database is lost after the commit.
pub add_incident_update-err :
    (id : Uuid) (status : IncidentStatus) (body : String) (notify : Bool) (at : Time) (db : Db)
    (e : StoreError) (db' : Db)
    → add_incident_update id status body notify at db ≡ (err e, db')
    → RolledBackOrLost db e db'
add_incident_update-err id status body notify at db e db' h =
    let (good, taken, invalid, absent) = add_incident_update_lem id status body notify at db in
    let kept =
      λ (x : StoreError) (run : add_incident_update id status body notify at db ≡ (err x, db)).
        (ap (λ (r : Result (IncidentUpdate × Incident) × Db). r.1) (sym h ∙ run)) in
    elim (Option-cases (find_incident id db)) [
      | inl n ↦ inl (kept not_found (absent n))
      | inr (row, k) ↦ elim (Bool-cases (Incident.is_valid status)) [
        | inr v ↦ inl (kept (invalid_status status) (invalid row k v))
        | inl v ↦ elim (Bool-cases (reopens_taken (apply_status_change status at row).0 db)) [
          | inl t ↦ inl (kept constraint_violation (taken row k v t))
          | inr free ↦ (let (d, run, _, _) = good row k v free in lost db _ d e db' (sym run ∙ h))
        ]
      ]
    ]

insertion :
    (inc created : Incident) (db d : Db)
    → insert_incident inc db ≡ ok (created, d)
    → (created ≡ new_incident_row inc db) × (d ≡ inserted inc db)
unfolding insert_incident
insertion inc created db d h =
    elim (Bool-cases (
      not (is_some inc.resolved_at)
      && any (has_open_dedup inc.status_page_id inc.external_dedup_key) db.incidents)) [
        | inl t ↦ absurd (ground (arith, t, h))
        | inr t ↦
            let run : insert_incident inc db ≡ ok (new_incident_row inc db, inserted inc db) =
              ground (arith, t) in
            let both = sym h ∙ run in
            (ap (λ r. elim r [ ok (x, _) ↦ x | err _ ↦ created ]) both, ap (state_of d) both)
      ]

-- what follows the links, and what follows the insertion
after_links : Incident → String → Bool → Incident → Tx Incident
after_links inc body notify x = do
  add_incident_update_row x.id x.current_status body notify
  recompute_component_statuses_tx inc.status_page_id (component_ids inc.components)
  pure x

after_insert : Incident → String → Bool → Incident → Tx Incident
after_insert inc body notify x = do
  add_components x.id inc.components
  after_links inc body notify x

after_links-keeps :
    (inc x created : Incident) (body : String) (notify : Bool) (db after : Db)
    → after_links inc body notify x db ≡ ok (created, after)
    → (created ≡ x) × (after.incidents ≡ db.incidents)
unfolding after_links add_incident_update_row
after_links-keeps inc x created body notify db after k =
    let ids = component_ids inc.components in
    let recompute = recompute_component_statuses_tx inc.status_page_id ids in
    let (_, d1, e1, k1) =
      bind-inv (add_incident_update_row x.id x.current_status body notify)
        (λ _. recompute >> pure x) k in
    let (u, d2, e2, k2) = bind-inv recompute (λ _. pure x) k1 in
    (
      ap (λ r. elim r [ ok (y, _) ↦ y | err _ ↦ x ]) (sym k2),
      ap (λ r. (state_of db r).incidents) (sym k2)
          ∙ recompute-keeps inc.status_page_id ids d1 d2 u e2
          ∙ ap (λ r. (state_of db r).incidents) (sym e1),
    )

-- A transaction that creates an incident leaves its row at the end of the table.
pub create_incident_tx-ok :
    (inc : Incident) (body : String) (notify : Bool) (db : Db) (created : Incident) (after : Db)
    → create_incident_tx inc body notify db ≡ ok (created, after)
    → (created ≡ new_incident_row inc db)
      × (after.incidents ≡ db.incidents ++ new_incident_row inc db ∷ [])
unfolding create_incident_tx after_insert after_links
create_incident_tx-ok inc body notify db created after k =
    let (x, d1, e1, k1) = bind-inv (insert_incident inc) (after_insert inc body notify) k in
    let (is_row, stored) = insertion inc x db d1 e1 in
    let (u, d2, e2, k2) =
      bind-inv (add_components x.id inc.components) (λ _. after_links inc body notify x) k1 in
    let (name, kept) = after_links-keeps inc x created body notify d2 after k2 in
    (
      name ∙ is_row,
      kept
          ∙ add_components-keeps x.id inc.components d1 d2 u e2
          ∙ ap (λ (d : Db). d.incidents) stored,
    )

-- Creating an incident fails with a rollback, or where the database is lost after the commit.
pub create_incident-err :
    (inc : Incident) (body : String) (notify : Bool) (db : Db) (e : StoreError) (db' : Db)
    → create_incident inc body notify db ≡ (err e, db')
    → RolledBackOrLost db e db'
unfolding create_incident find_incident
create_incident-err inc body notify db =
    let row = new_incident_row inc db in
    commit_then-err (create_incident_tx inc body notify)
      (λ created after. after_commit db (incident_by_id created.id after)) db
      (λ created after k.
        let (is_row, incidents) = create_incident_tx-ok inc body notify db created after k in
        let self = equal_self db.next_id in
        let (there, found) =
          first_where-snoc (is_incident db.next_id) db.incidents row (ground (arith, self)) in
        let (full, back) =
          read_back db.next_id after there
            (ap (first_where (is_incident db.next_id)) incidents ∙ found) in
        subst
          (λ (y : Incident).
            (b : Incident) × (after_commit db (incident_by_id y.id after) ≡ after_commit db (ok b)))
          (sym is_row) (full, ap (after_commit db) back))

-- An incident that was created is a row of the table.
pub create_incident-ok :
    (inc : Incident) (body : String) (notify : Bool) (db : Db) (full : Incident) (db' : Db)
    → create_incident inc body notify db ≡ (ok full, db')
    → db'.incidents ≡ db.incidents ++ new_incident_row inc db ∷ []
unfolding create_incident
create_incident-ok inc body notify db full db' h =
    let (created, k, _) =
      commit_then-ok (create_incident_tx inc body notify)
        (λ created after. after_commit db (incident_by_id created.id after)) db full db' h in
    (create_incident_tx-ok inc body notify db created db' k).1
