-- ===== src/Store/Incidents/Creation.antt =====
-- Creating an incident (backend/internal/store/incidents.go, CreateIncident).
use healthpage.Prelude.{
  ◌+◌, String, ◌≡◌, refl, sym, ap, ◌∙◌, inl, inr, Bool, true, false, not, ◌&&◌, ◌||◌, none, some,
  List, [], ◌∷◌, ◌++◌, arith, Bool-cases, is_some, ◌==◌, nat_comparable, string_comparable, All,
  any, equal_self, any-append,
}
use healthpage.Page.{Uuid}
use healthpage.Incident.{Incident, IncidentComponent}
use healthpage.Store.{
  after_commit, Db, ok, err, not_found, dedup_conflict, Tx, ◌>>◌, pure, bind-ok, bind-err,
}
use healthpage.Store.{StoreError, constraint_violation}
use healthpage.Store.Queries.{
  insert_incident, new_incident_row, has_open_dedup, add_incident_component,
  add_incident_update_row, find_incident, is_incident, first_where,
}
use healthpage.Store.Rows.{first_where-inserted}
use healthpage.Store.Recompute.{recompute_component_statuses_tx}
use healthpage.Store.Recompute.Laws.{recomputed, derived_on, recompute-ok, recomputed-SameSources}
use healthpage.Store.Incidents.{
  component_ids, add_components, create_incident_tx, create_incident, incident_by_id,
  hydrate_incident,
}
use healthpage.Store.Incidents.Sync.{Recomputed, recomputed-Recomputed}
use healthpage.Store.Incidents.Updates.{new_update}

-- the table of links, and the next identifier, after one more component
abbrev pub new_link : Uuid → IncidentComponent → Db → IncidentComponent
new_link id ic db = record {
  id = db.next_id;
  incident_id = id;
  component_id = ic.component_id;
  component_status_in_incident = ic.component_status_in_incident;
  created_at = db.now;
  updated_at = db.now;
}

abbrev pub with_link : Uuid → IncidentComponent → Db → Db
with_link id ic db = record db {
  incident_components = db.incident_components ++ new_link id ic db ∷ [];
  next_id = db.next_id + 1;
}

pub with_links : Uuid → List IncidentComponent → Db → Db
with_links id [] db = db
with_links id (ic ∷ rest) db = with_links id rest (with_link id ic db)

-- A component is there, and is not linked to the incident yet.
pub record Linkable (id : Uuid) (db : Db) (ic : IncidentComponent) : Type 0 where
  pub exists : any (λ c. c.id == ic.component_id) db.components ≡ true
  pub fresh :
      any (λ r. r.incident_id == id && r.component_id == ic.component_id) db.incident_components
      ≡ false

-- No component is listed twice.
abbrev pub NoRepeat : List IncidentComponent → Type 0
NoRepeat [] = Unit
NoRepeat (ic ∷ rest) = All (λ r. (ic.component_id == r.component_id) ≡ false) rest × NoRepeat rest

Linkable-with_link :
    (id : Uuid) (db : Db) (ic r : IncidentComponent)
    → (ic.component_id == r.component_id) ≡ false
    → Linkable id db r
    → Linkable id (with_link id ic db) r
unfolding any
Linkable-with_link id db ic r n h = record {
  exists = h.exists;
  fresh =
      any-append (λ x. x.incident_id == id && x.component_id == r.component_id)
        db.incident_components (new_link id ic db ∷ [])
      ∙ (let f = h.fresh in ground (arith, f, n));
}

-- the loop fails at a link that is there already, or whose component is not there
pub add_components-err :
    (id : Uuid) (comps : List IncidentComponent) (db : Db) (e : StoreError)
    → add_components id comps db ≡ err e
    → e ≡ constraint_violation
unfolding add_components add_incident_component
add_components-err id [] db e h = cc
add_components-err id (ic ∷ rest) db e h =
    elim (Bool-cases (
      any (λ r. r.incident_id == id && r.component_id == ic.component_id) db.incident_components
      || not (any (λ c. c.id == ic.component_id) db.components))) [
        | inl t ↦ ground (arith, t, h)
        | inr t ↦
            (let next : add_components id rest (with_link id ic db) ≡ err e =
                ground (arith, t, h) in
              add_components-err id rest (with_link id ic db) e next)
      ]

fresh_before :
    (id : Uuid) (db : Db) (ic : IncidentComponent) (rest : List IncidentComponent)
    → All (Linkable id (with_link id ic db)) rest
    → All (λ r. (ic.component_id == r.component_id) ≡ false) rest × All (Linkable id db) rest
unfolding any
fresh_before id db ic [] h = (tt, tt)
fresh_before id db ic (r ∷ rest) h =
    let both =
      sym (
        any-append (λ x. x.incident_id == id && x.component_id == r.component_id)
          db.incident_components (new_link id ic db ∷ []))
      ∙ h.0.fresh in
    let self = equal_self id in
    let later = fresh_before id db ic rest h.1 in
    (
      (ground (arith, both, self), later.0),
      (record { exists = h.0.exists; fresh = ground (arith, both) }, later.1),
    )

-- A loop that succeeds has linked distinct components that are there.
pub add_components-NoRepeat :
    (id : Uuid) (comps : List IncidentComponent) (db db' : Db)
    → add_components id comps db ≡ ok (tt, db')
    → All (Linkable id db) comps × NoRepeat comps
unfolding add_components add_incident_component
add_components-NoRepeat id [] db db' h = (tt, tt)
add_components-NoRepeat id (ic ∷ rest) db db' h =
    elim (Bool-cases (
      any (λ r. r.incident_id == id && r.component_id == ic.component_id) db.incident_components
      || not (any (λ c. c.id == ic.component_id) db.components))) [
        | inl t ↦ absurd (ground (arith, t, h))
        | inr t ↦
            (let next : add_components id rest (with_link id ic db) ≡ ok (tt, db') =
                ground (arith, t, h) in
              let (linkable, distinct) =
                add_components-NoRepeat id rest (with_link id ic db) db' next in
              let (others, before) = fresh_before id db ic rest linkable in
              (
                (record { exists = ground (arith, t); fresh = ground (arith, t) }, before),
                (others, distinct),
              ))
      ]

All-Linkable :
    (id : Uuid) (db : Db) (ic : IncidentComponent) (rest : List IncidentComponent)
    → All (λ r. (ic.component_id == r.component_id) ≡ false) rest
    → All (Linkable id db) rest
    → All (Linkable id (with_link id ic db)) rest
All-Linkable id db ic [] n h = tt
All-Linkable id db ic (r ∷ rest) n h =
    (Linkable-with_link id db ic r n.0 h.0, All-Linkable id db ic rest n.1 h.1)

pub add_components-ok :
    (id : Uuid) (comps : List IncidentComponent) (db : Db)
    → All (Linkable id db) comps
    → NoRepeat comps
    → add_components id comps db ≡ ok (tt, with_links id comps db)
unfolding add_components add_incident_component with_links
add_components-ok id [] db h n = refl
add_components-ok id (ic ∷ rest) db h n =
    let ih =
      add_components-ok id rest (with_link id ic db) (All-Linkable id db ic rest n.0 h.1) n.1 in
    let there = h.0.exists in let fresh = h.0.fresh in ground (arith, ih, there, fresh)

pub with_links-incidents :
    (id : Uuid) (comps : List IncidentComponent) (db : Db)
    → (with_links id comps db).incidents ≡ db.incidents
unfolding with_links
with_links-incidents id [] db = refl
with_links-incidents id (ic ∷ rest) db = with_links-incidents id rest (with_link id ic db)

-- the tables once the incident is there, then its links, then its first update
abbrev pub inserted : Incident → Db → Db
inserted inc db = record db {
  incidents = db.incidents ++ new_incident_row inc db ∷ [];
  next_id = db.next_id + 1;
}

abbrev pub with_first_update : Incident → String → Bool → Uuid → Db → Db
with_first_update inc body notify id db = record db {
  incident_updates = db.incident_updates ++ new_update id inc.current_status body notify db ∷ [];
  next_id = db.next_id + 1;
}

abbrev pub announced : Incident → String → Bool → Db → Db
announced inc body notify db =
    with_first_update inc body notify db.next_id
      (with_links db.next_id inc.components (inserted inc db))

-- No other open incident of the page has the same deduplication key.
abbrev pub IsUnique : Incident → Db → Type 0
IsUnique inc db =
    (not (is_some inc.resolved_at)
      && any (has_open_dedup inc.status_page_id inc.external_dedup_key) db.incidents)
    ≡ false

after_links : Incident → String → Bool → Incident → Tx Incident
after_links inc body notify created = do
  add_incident_update_row created.id created.current_status body notify
  recompute_component_statuses_tx inc.status_page_id (component_ids inc.components)
  pure created

creates :
    (inc : Incident) (body : String) (notify : Bool) (db : Db)
    → IsUnique inc db
    → All (Linkable db.next_id (inserted inc db)) inc.components
    → NoRepeat inc.components
    → create_incident_tx inc body notify db
      ≡ ok (
        new_incident_row inc db,
        recomputed
            (derived_on inc.status_page_id (announced inc body notify db))
            (component_ids inc.components)
            (announced inc body notify db),
      )
unfolding create_incident_tx after_links add_incident_update_row insert_incident
creates inc body notify db u h n =
    let stored = announced inc body notify db in
    let first : insert_incident inc db ≡ ok (new_incident_row inc db, inserted inc db) =
      ground (arith, u) in
    bind-ok (insert_incident inc)
      (λ created. add_components created.id inc.components >> after_links inc body notify created)
      first
    ∙ bind-ok (add_components db.next_id inc.components)
        (λ _. after_links inc body notify (new_incident_row inc db))
        (add_components-ok db.next_id inc.components (inserted inc db) h n)
    ∙ bind-ok (recompute_component_statuses_tx inc.status_page_id (component_ids inc.components))
        (λ _. pure (new_incident_row inc db))
        (recompute-ok inc.status_page_id (component_ids inc.components) stored)

refused :
    (inc : Incident) (body : String) (notify : Bool) (db : Db)
    → (not (is_some inc.resolved_at)
        && any (has_open_dedup inc.status_page_id inc.external_dedup_key) db.incidents)
      ≡ true
    → create_incident_tx inc body notify db ≡ err dedup_conflict
unfolding create_incident_tx after_links insert_incident
refused inc body notify db u =
    let first : insert_incident inc db ≡ err dedup_conflict = ground (arith, u) in
    bind-err (insert_incident inc)
      (λ created. add_components created.id inc.components >> after_links inc body notify created)
      first

-- The row of a new incident has the fields that were given, under a new identifier.
abbrev pub stored_incident : Incident → Db → Incident
stored_incident inc db = record {
  id = db.next_id;
  status_page_id = inc.status_page_id;
  title = inc.title;
  current_status = inc.current_status;
  impact = inc.impact;
  started_at = inc.started_at;
  resolved_at = inc.resolved_at;
  postmortem = inc.postmortem;
  is_visible = inc.is_visible;
  created_at = db.now;
  updated_at = db.now;
  deleted_at = none;
  integration_id = inc.integration_id;
  external_dedup_key = inc.external_dedup_key;
  components = [];
  updates = [];
}

-- Creating an incident whose identifier is new, on components that are there and listed once,
-- where no open incident has its deduplication key: the incident is stored with its links and its
-- first update, the components get the statuses that are then imposed on them, other components
-- keep theirs, a coherent history stays coherent, and the incident is read back, where the
-- database is not lost after the commit.
pub create_incident_lem :
    (inc : Incident) (body : String) (notify : Bool) (db : Db)
    → find_incident db.next_id db ≡ none
    → All (Linkable db.next_id (inserted inc db)) inc.components
    → NoRepeat inc.components
    → IsUnique inc db
    → (db' : Db) × (create_incident inc body notify db
        ≡ (after_commit db (ok (hydrate_incident db' (stored_incident inc db))), db'))
      × Recomputed inc.status_page_id
          (component_ids inc.components)
          (announced inc body notify db)
          db'
unfolding create_incident incident_by_id find_incident
create_incident_lem inc body notify db new h n u =
    let stored = announced inc body notify db in
    let ids = component_ids inc.components in
    let db' = recomputed (derived_on inc.status_page_id stored) ids stored in
    let rows : db'.incidents ≡ db.incidents ++ new_incident_row inc db ∷ [] =
      (recomputed-SameSources (derived_on inc.status_page_id stored) ids stored).incidents
      ∙ with_links-incidents db.next_id inc.components (inserted inc db) in
    let self = equal_self db.next_id in
    let found =
      ap (first_where (is_incident db.next_id)) rows
      ∙ first_where-inserted (is_incident db.next_id) db.incidents (new_incident_row inc db) new
          (ground (arith, self)) in
    (
      db',
      ap
            (λ r. elim r [
              | err x ↦ (err x, db)
              | ok (created, after) ↦ (after_commit db (incident_by_id created.id after), after)
            ])
            (creates inc body notify db u h n)
          ∙ ap
              (λ o. (
                after_commit db
                    (elim o [ none ↦ err not_found | some r ↦ ok (hydrate_incident db' r) ]),
                db',
              ))
              found,
      recomputed-Recomputed inc.status_page_id ids stored,
    )

-- Where an open incident has the deduplication key of an incident that is not resolved, creating
-- it fails with the conflict and changes nothing.
pub create_incident-conflict :
    (inc : Incident) (body : String) (notify : Bool) (db : Db)
    → (not (is_some inc.resolved_at)
        && any (has_open_dedup inc.status_page_id inc.external_dedup_key) db.incidents)
      ≡ true
    → create_incident inc body notify db ≡ (err dedup_conflict, db)
unfolding create_incident
create_incident-conflict inc body notify db u =
    ap
      (λ r. elim r [
        | err x ↦ (err x, db)
        | ok (created, after) ↦ (after_commit db (incident_by_id created.id after), after)
      ])
      (refused inc body notify db u)
