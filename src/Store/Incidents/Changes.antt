-- ===== src/Store/Incidents/Changes.antt =====
-- Changing an incident and its components (UpdateIncident of
-- backend/internal/store/incidents.go).
use healthpage.Prelude.{
  ◌≡◌, refl, ap, ◌∙◌, Bool, true, false, not, ◌&&◌, ◌||◌, none, some, List, [], ◌∷◌, arith,
  if◌then◌else◌, ◌==◌, nat_comparable, string_comparable, All, keep, any,
}
use healthpage.Page.{Uuid}
use healthpage.Incident.{Incident, IncidentComponent}
use healthpage.Store.{
  constraint_violation, after_commit, Db, ok, err, not_found, Tx, ◌>>◌, pure, or_not_found, bind-ok,
  bind-err,
}
use healthpage.Store.Queries.{
  reopens_taken, first_where, update_where, is_incident, find_incident, with_fields,
  update_incident_row, list_incident_components, delete_incident_components,
}
use healthpage.Store.Rows.{first_where-updated, first_where-absent}
use healthpage.Store.Recompute.{recompute_component_statuses_tx}
use healthpage.Store.Recompute.Laws.{recomputed, derived_on, recompute-ok, recomputed-SameSources}
use healthpage.Store.Incidents.{
  component_ids, add_keys, replace_components, update_incident_tx, update_incident, incident_by_id,
  hydrate_incident,
}
use healthpage.Store.{Result, after_commit, constraint_violation}
use healthpage.Store.Queries.{reopens_taken}
use healthpage.Store.Incidents.{add_components}
use healthpage.Store.Incidents.Creation.{add_components-err, add_components-NoRepeat}
use healthpage.Store.Incidents.Commit.{saved_incident}
use healthpage.Store.Incidents.Keys.{any-add_keys}
use healthpage.Store.Incidents.Creation.{
  with_links, Linkable, NoRepeat, add_components-ok, with_links-incidents,
}
use healthpage.Store.Incidents.Sync.{Recomputed, recomputed-Recomputed}

-- the tables with the changed row
abbrev pub with_changed_incident : Incident → Db → Db
with_changed_incident inc db = record db {
  incidents = update_where (is_incident inc.id) (with_fields inc db.now) db.incidents;
}

-- the tables without the links of an incident
abbrev pub without_components : Uuid → Db → Db
without_components id db = record db {
  incident_components = keep (λ ic. not (ic.incident_id == id)) db.incident_components;
}

-- the tables once the links are replaced, where they are
abbrev pub changed_incident : Incident → Bool → Db → Db
changed_incident inc replace db =
    if replace
    then with_links inc.id inc.components (without_components inc.id (with_changed_incident inc db))
    else with_changed_incident inc db

-- the components whose statuses are recomputed
abbrev pub affected_by_change : Incident → Bool → Db → List Uuid
affected_by_change inc replace db =
    let prev = add_keys [] (component_ids (list_incident_components inc.id db)) in
    if replace then add_keys prev (component_ids inc.components) else prev

-- Where the components are replaced, the new ones are there and listed once.
abbrev pub CanRelink : Incident → Bool → Db → Type 0
CanRelink inc true db =
    All (λ ic. any (λ c. c.id == ic.component_id) db.components ≡ true) inc.components
    × NoRepeat inc.components
CanRelink inc false db = Unit

no_component_left :
    (id cid : Uuid) (l : List IncidentComponent)
    → any
        (λ r. r.incident_id == id && r.component_id == cid)
        (keep (λ ic. not (ic.incident_id == id)) l)
      ≡ false
unfolding any keep
no_component_left id cid [] = refl
no_component_left id cid (ic ∷ l) = ground (arith, no_component_left id cid l)

existing-Linkable :
    (id : Uuid) (db : Db) (comps : List IncidentComponent)
    → All (λ ic. any (λ c. c.id == ic.component_id) db.components ≡ true) comps
    → All (Linkable id (without_components id db)) comps
existing-Linkable id db [] h = tt
existing-Linkable id db (ic ∷ rest) h = (
  record { exists = h.0; fresh = no_component_left id ic.component_id db.incident_components },
  existing-Linkable id db rest h.1,
)

after_row : Incident → Bool → List Uuid → Incident → Tx (Unit {0})
after_row inc replace affected updated = do
  (if replace then replace_components inc else pure tt)
  recompute_component_statuses_tx updated.status_page_id affected

row_changes :
    (inc row : Incident) (db : Db)
    → find_incident inc.id db ≡ some row
    → reopens_taken inc db ≡ false
    → (find_incident inc.id (with_changed_incident inc db) ≡ some (with_fields inc db.now row))
      × (update_incident_row inc db ≡ ok (with_fields inc db.now row, with_changed_incident inc db))
unfolding find_incident update_incident_row
row_changes inc row db e free =
    let found =
      first_where-updated (is_incident inc.id) (with_fields inc db.now) (λ _. refl) db.incidents row
        e in
    (
      found,
      ap
            (λ b.
              if b
              then err constraint_violation
              else or_not_found (find_incident inc.id (with_changed_incident inc db))
                  (with_changed_incident inc db))
            free
          ∙ ap (λ o. or_not_found o (with_changed_incident inc db)) found,
    )

links_change :
    (inc : Incident) (replace : Bool) (db : Db)
    → CanRelink inc replace db
    → (if replace then replace_components inc else pure tt) (with_changed_incident inc db)
      ≡ ok (tt, changed_incident inc replace db)
unfolding delete_incident_components
links_change inc false db h = refl
links_change inc true db h =
    add_components-ok inc.id inc.components
      (without_components inc.id (with_changed_incident inc db))
      (existing-Linkable inc.id (with_changed_incident inc db) inc.components h.0) h.1

changed-incidents :
    (inc : Incident) (replace : Bool) (db : Db)
    → (changed_incident inc replace db).incidents ≡ (with_changed_incident inc db).incidents
changed-incidents inc false db = refl
changed-incidents inc true db =
    with_links-incidents inc.id inc.components
      (without_components inc.id (with_changed_incident inc db))

changes :
    (inc : Incident) (replace : Bool) (db : Db) (row : Incident)
    → find_incident inc.id db ≡ some row
    → reopens_taken inc db ≡ false
    → CanRelink inc replace db
    → update_incident_tx inc replace db
      ≡ ok (
        tt,
        recomputed
            (derived_on row.status_page_id (changed_incident inc replace db))
            (affected_by_change inc replace db)
            (changed_incident inc replace db),
      )
unfolding update_incident_tx after_row
changes inc replace db row e free h =
    bind-ok (update_incident_row inc) (after_row inc replace (affected_by_change inc replace db))
      (row_changes inc row db e free).1
    ∙ bind-ok (if replace then replace_components inc else pure tt)
        (λ _.
          recompute_component_statuses_tx row.status_page_id (affected_by_change inc replace db))
        (links_change inc replace db h)
    ∙ recompute-ok row.status_page_id (affected_by_change inc replace db)
        (changed_incident inc replace db)

unchanged :
    (inc : Incident) (replace : Bool) (db : Db)
    → find_incident inc.id db ≡ none
    → update_incident_tx inc replace db ≡ err not_found
unfolding update_incident_tx after_row find_incident update_incident_row
unchanged inc replace db e =
    bind-err (update_incident_row inc) (after_row inc replace (affected_by_change inc replace db)) (
      unfold reopens_taken in
      let gone =
        first_where-absent (is_incident inc.id) (is_incident inc.id) (with_fields inc db.now)
          (λ _. refl) db.incidents e in
      ground (arith, e, gone))

there :
    (id : Uuid) (db : Db) (comps : List IncidentComponent)
    → All (Linkable id db) comps
    → All (λ ic. any (λ c. c.id == ic.component_id) db.components ≡ true) comps
there id db [] h = tt
there id db (ic ∷ rest) h = (h.0.exists, there id db rest h.1)

relink_fails :
    (inc : Incident) (replace : Bool) (db : Db)
    → ¬ CanRelink inc replace db
    → (if replace then replace_components inc else pure tt) (with_changed_incident inc db)
      ≡ err constraint_violation
unfolding delete_incident_components
relink_fails inc false db n = absurd (n tt)
relink_fails inc true db n =
    go
      (add_components inc.id inc.components
        (without_components inc.id (with_changed_incident inc db)))
      refl
  where
    go :
        (r : Result (Unit {0} × Db))
        → add_components inc.id inc.components
            (without_components inc.id (with_changed_incident inc db))
          ≡ r
        → r ≡ err constraint_violation
    go (ok (u, d)) k = absurd (
        let (linkable, distinct) =
          add_components-NoRepeat inc.id inc.components
            (without_components inc.id (with_changed_incident inc db)) d k in
        n (
          there inc.id (without_components inc.id (with_changed_incident inc db)) inc.components
              linkable,
          distinct,
        ))
    go (err e) k =
        ap (λ x. err x)
          (add_components-err inc.id inc.components
            (without_components inc.id (with_changed_incident inc db)) e k)

unlinked :
    (inc : Incident) (replace : Bool) (db : Db) (row : Incident)
    → find_incident inc.id db ≡ some row
    → reopens_taken inc db ≡ false
    → ¬ CanRelink inc replace db
    → update_incident_tx inc replace db ≡ err constraint_violation
unfolding update_incident_tx after_row
unlinked inc replace db row e free n =
    bind-ok (update_incident_row inc) (after_row inc replace (affected_by_change inc replace db))
      (row_changes inc row db e free).1
    ∙ bind-err (if replace then replace_components inc else pure tt)
        (λ _.
          recompute_component_statuses_tx row.status_page_id (affected_by_change inc replace db))
        (relink_fails inc replace db n)

collides :
    (inc : Incident) (replace : Bool) (db : Db)
    → reopens_taken inc db ≡ true
    → update_incident_tx inc replace db ≡ err constraint_violation
unfolding update_incident_tx after_row update_incident_row
collides inc replace db t =
    bind-err (update_incident_row inc) (after_row inc replace (affected_by_change inc replace db))
      (ground (arith, t))

affected_iff :
    (inc : Incident) (replace : Bool) (db : Db) (j : Uuid)
    → any (λ c. c == j) (affected_by_change inc replace db)
      ≡ any (λ c. c == j) (component_ids (list_incident_components inc.id db))
        || (replace && any (λ c. c == j) (component_ids inc.components))
unfolding any
affected_iff inc replace db j =
    let prev = component_ids (list_incident_components inc.id db) in
    ground (
      arith,
      any-add_keys j [] prev,
      any-add_keys j (add_keys [] prev) (component_ids inc.components),
    )

-- Changing an incident that is there, with a replacement of its components by ones that exist and
-- are listed once, or without, where no other open incident has its deduplication key if the
-- change leaves it open: the row gets the new fields and keeps the others, it gets the new links,
-- exactly the components that were linked before or are linked now are recomputed, they get the
-- statuses that are then imposed on them, all other components keep theirs, a coherent history
-- stays coherent, and the incident is read back, where the database is not lost after the commit.
-- A replacement by a component that does not exist or is listed twice, a key that another open
-- incident has, and an incident that is not there give an error, and nothing changes.
pub update_incident_lem :
    (inc : Incident) (replace : Bool) (db : Db)
    → ((row : Incident)
        → find_incident inc.id db ≡ some row
        → reopens_taken inc db ≡ false
        → CanRelink inc replace db
        → (db' : Db) × (update_incident inc replace db
            ≡ (after_commit db (ok (hydrate_incident db' (saved_incident inc db.now row))), db'))
          × Recomputed row.status_page_id
              (affected_by_change inc replace db)
              (changed_incident inc replace db)
              db'
          × ((j : Uuid)
              → any (λ c. c == j) (affected_by_change inc replace db)
                ≡ any (λ c. c == j) (component_ids (list_incident_components inc.id db))
                  || (replace && any (λ c. c == j) (component_ids inc.components))))
      × ((row : Incident)
          → find_incident inc.id db ≡ some row
          → reopens_taken inc db ≡ false
          → ¬ CanRelink inc replace db
          → update_incident inc replace db ≡ (err constraint_violation, db))
      × (reopens_taken inc db ≡ true
          → update_incident inc replace db ≡ (err constraint_violation, db))
      × (find_incident inc.id db ≡ none → update_incident inc replace db ≡ (err not_found, db))
unfolding update_incident incident_by_id find_incident
update_incident_lem inc replace db = (
  λ row e free h.
      let stored = changed_incident inc replace db in
      let ids = affected_by_change inc replace db in
      let db' = recomputed (derived_on row.status_page_id stored) ids stored in
      let rows =
        (recomputed-SameSources (derived_on row.status_page_id stored) ids stored).incidents
        ∙ changed-incidents inc replace db in
      let found = ap (first_where (is_incident inc.id)) rows ∙ (row_changes inc row db e free).0 in
      (
        db',
        ap
              (λ r. elim r [
                | err x ↦ (err x, db)
                | ok (_, after) ↦ (after_commit db (incident_by_id inc.id after), after)
              ])
              (changes inc replace db row e free h)
            ∙ ap
                (λ o. (
                  after_commit db
                      (elim o [ none ↦ err not_found | some r ↦ ok (hydrate_incident db' r) ]),
                  db',
                ))
                found,
        recomputed-Recomputed row.status_page_id ids stored,
        affected_iff inc replace db,
      ),
  λ row e free n.
      ap
        (λ r. elim r [
          | err x ↦ (err x, db)
          | ok (_, after) ↦ (after_commit db (incident_by_id inc.id after), after)
        ])
        (unlinked inc replace db row e free n),
  λ t.
      ap
        (λ r. elim r [
          | err x ↦ (err x, db)
          | ok (_, after) ↦ (after_commit db (incident_by_id inc.id after), after)
        ])
        (collides inc replace db t),
  λ e.
      ap
        (λ r. elim r [
          | err x ↦ (err x, db)
          | ok (_, after) ↦ (after_commit db (incident_by_id inc.id after), after)
        ])
        (unchanged inc replace db e),
)
