-- ===== src/Store/Incidents/Updates.antt =====
-- Adding an update to an incident (backend/internal/store/incidents.go, AddIncidentUpdate).
use healthpage.Prelude.{
  ◌+◌, String, ◌≡◌, refl, sym, ap, ◌∙◌, subst, Bool, true, false, Option, none, some, [], ◌∷◌, ◌++◌,
  arith, if◌then◌else◌, nat_comparable, string_comparable,
}
use healthpage.Store.Rows.{first_where-updated, first_where-holds}
use healthpage.Page.{Uuid, Time}
use healthpage.Incident.{
  IncidentStatus, IncidentUpdate, Incident, is_valid, Error, apply_status_change,
}
use healthpage.Incident.Lifecycle.{apply_status_change-IsConsistent}
use healthpage.Store.{
  Db, ok, err, not_found, invalid_status, Tx, ◌>>=◌, ◌>>◌, pure, gets, or_not_found, bind-ok,
  bind-err,
}
use healthpage.Store.Queries.{
  is_incident, with_fields, first_where, update_where, find_incident, list_incident_components,
  update_incident_row, add_incident_update_row,
}
use healthpage.Store.Recompute.{recompute_component_statuses_tx}
use healthpage.Store.Recompute.Laws.{recomputed, derived_on, recompute-ok, recomputed-SameSources}
use healthpage.Store.Incidents.{
  hydrate_incident, component_ids, changed_or_fail, add_incident_update_tx, add_incident_update,
  with_update, incident_by_id,
}
use healthpage.Store.{after_commit, constraint_violation}
use healthpage.Store.Queries.{reopens_taken}
use healthpage.Store.Incidents.Commit.{saved_incident}
use healthpage.Store.Incidents.Sync.{Recomputed, recomputed-Recomputed}

-- the update that is inserted
abbrev pub new_update : Uuid → IncidentStatus → String → Bool → Db → IncidentUpdate
new_update id status body notify db = record {
  id = db.next_id;
  incident_id = id;
  status = status;
  body = body;
  notify_subscribers = notify;
  created_at = db.now;
  updated_at = db.now;
}

-- the tables once the update is inserted and the incident changed
abbrev pub with_new_update : Uuid → IncidentStatus → String → Bool → Incident → Db → Db
with_new_update id status body notify inc db = record db {
  incident_updates = db.incident_updates ++ new_update id status body notify db ∷ [];
  next_id = db.next_id + 1;
  incidents = update_where (is_incident inc.id) (with_fields inc db.now) db.incidents;
}

module _ (id : Uuid) (status : IncidentStatus) (body : String) (notify : Bool) (at : Time)
    (db : Db) where
  after_insert : IncidentUpdate → Incident → Tx IncidentUpdate
  after_insert created inc = do
    update_incident_row inc
    comps ← gets (list_incident_components id)
    recompute_component_statuses_tx inc.status_page_id (component_ids comps)
    pure created

  after_change : Incident → Tx IncidentUpdate
  unfolding after_insert
  after_change inc = do
    created ← add_incident_update_row id status body notify
    after_insert created inc

  after_find : Incident → Tx IncidentUpdate
  unfolding after_change
  after_find row = changed_or_fail status (apply_status_change status at row) >>= after_change

  starts :
      (row : Incident)
      → find_incident id db ≡ some row
      → add_incident_update_tx id status body notify at db ≡ after_find row db
  unfolding add_incident_update_tx after_find after_insert
  starts row e =
      bind-ok (or_not_found (find_incident id db)) after_find (ap (λ o. or_not_found o db) e)

  changed : (p : Incident × Option Error) → p.1 ≡ none → changed_or_fail status p db ≡ ok (p.0, db)
  changed p e = ap (λ o. changed_or_fail status (p.0, o) db) e

  changes :
      (row : Incident)
      → is_valid status ≡ true
      → after_find row db ≡ after_change (apply_status_change status at row).0 db
  unfolding after_find
  changes row v =
      bind-ok (changed_or_fail status (apply_status_change status at row)) after_change (
        changed (apply_status_change status at row)
          ((apply_status_change-IsConsistent status at row).0 v).2)

  refuses :
      (row : Incident) → is_valid status ≡ false → after_find row db ≡ err (invalid_status status)
  unfolding after_find
  refuses row v =
      bind-err (changed_or_fail status (apply_status_change status at row)) after_change (
        ap (λ p. changed_or_fail status p db)
          ((apply_status_change-IsConsistent status at row).1 v))

  -- the incident row is there to be updated
  saves :
      (inc row : Incident)
      → inc.id ≡ id
      → find_incident id db ≡ some row
      → reopens_taken inc db ≡ false
      → (update_incident_row inc (record db {
        incident_updates = db.incident_updates ++ new_update id status body notify db ∷ [];
        next_id = db.next_id + 1;
      })
          ≡ ok (with_fields inc db.now row, with_new_update id status body notify inc db))
        × (find_incident id (with_new_update id status body notify inc db)
            ≡ some (with_fields inc db.now row))
  unfolding update_incident_row find_incident reopens_taken
  saves inc row h e free =
      let there = subst (λ j. first_where (is_incident j) db.incidents ≡ some row) (sym h) e in
      let found =
        first_where-updated (is_incident inc.id) (with_fields inc db.now) (λ _. refl) db.incidents
          row there in
      (
        ap
              (λ b.
                if b
                then err constraint_violation
                else or_not_found
                    (find_incident inc.id (with_new_update id status body notify inc db))
                    (with_new_update id status body notify inc db))
              free
            ∙ ap (λ o. or_not_found o (with_new_update id status body notify inc db)) found,
        subst
            (λ j.
              first_where (is_incident j)
                (update_where (is_incident inc.id) (with_fields inc db.now) db.incidents)
              ≡ some (with_fields inc db.now row))
            h found,
      )

  collides :
      (inc : Incident)
      → reopens_taken inc db ≡ true
      → after_change inc db ≡ err constraint_violation
  unfolding after_change after_insert add_incident_update_row update_incident_row reopens_taken
      find_incident
  collides inc t =
      bind-err (update_incident_row inc)
        (λ _. do
          comps ← gets (list_incident_components id)
          recompute_component_statuses_tx inc.status_page_id (component_ids comps)
          pure (new_update id status body notify db))
        (ap
          (λ b.
            if b
            then err constraint_violation
            else or_not_found (find_incident inc.id (with_new_update id status body notify inc db))
                (with_new_update id status body notify inc db))
          t)

  finishes :
      (inc row : Incident)
      → inc.id ≡ id
      → find_incident id db ≡ some row
      → reopens_taken inc db ≡ false
      → after_change inc db
        ≡ ok (
          new_update id status body notify db,
          recomputed
              (derived_on inc.status_page_id (with_new_update id status body notify inc db))
              (component_ids (list_incident_components id db))
              (with_new_update id status body notify inc db),
        )
  unfolding after_change after_insert add_incident_update_row list_incident_components
  finishes inc row h e free =
      bind-ok (update_incident_row inc)
        (λ _. do
          comps ← gets (list_incident_components id)
          recompute_component_statuses_tx inc.status_page_id (component_ids comps)
          pure (new_update id status body notify db))
        (saves inc row h e free).0
      ∙ bind-ok
          (recompute_component_statuses_tx inc.status_page_id
            (component_ids (list_incident_components id db)))
          (λ _. pure (new_update id status body notify db))
          (recompute-ok inc.status_page_id (component_ids (list_incident_components id db))
            (with_new_update id status body notify inc db))

  absent :
      find_incident id db ≡ none
      → add_incident_update_tx id status body notify at db ≡ err not_found
  unfolding add_incident_update_tx after_find after_insert
  absent e =
      bind-err (or_not_found (find_incident id db)) after_find (ap (λ o. or_not_found o db) e)

  kept_id :
      (row : Incident)
      → find_incident id db ≡ some row
      → (apply_status_change status at row).0.id ≡ id
  unfolding find_incident apply_status_change
  kept_id row e =
      let held = first_where-holds (is_incident id) db.incidents row e in ground (arith, held)

  reads_back :
      (inc row : Incident) (db' : Db)
      → find_incident id (with_new_update id status body notify inc db) ≡ some row
      → db'.incidents ≡ (with_new_update id status body notify inc db).incidents
      → incident_by_id id db' ≡ ok (hydrate_incident db' row)
  unfolding incident_by_id find_incident
  reads_back inc row db' e same =
      let found : first_where (is_incident id) db'.incidents ≡ some row =
        ap (first_where (is_incident id)) same ∙ e in
      ap (λ o. elim o [ none ↦ err not_found | some r ↦ ok (hydrate_incident db' r) ]) found

with_update-after_commit :
    (db : Db) (u : IncidentUpdate) (full : Incident)
    → with_update u (after_commit db (ok full)) ≡ after_commit db (ok (u, full))
with_update-after_commit db u full = ground arith

-- Adding an update to an incident that is there, with a status of the enum, where no other open
-- incident has its deduplication key if the update leaves it open: the update is stored, the
-- incident gets the status and the stamp of the change and keeps its other fields, the components
-- that it affects get the statuses that the open incidents and works then impose, other components
-- keep theirs, a coherent history stays coherent, and the result is the update with the incident
-- as it now is, where the database is not lost after the commit. Where the update would reopen an
-- incident whose key another open one has, with a status outside the enum, or on an incident that
-- is not there, the operation fails and changes nothing.
pub add_incident_update_lem :
    (id : Uuid) (status : IncidentStatus) (body : String) (notify : Bool) (at : Time) (db : Db)
    → ((row : Incident)
        → find_incident id db ≡ some row
        → is_valid status ≡ true
        → reopens_taken (apply_status_change status at row).0 db ≡ false
        → let inc = (apply_status_change status at row).0 in
          (db' : Db) × (add_incident_update id status body notify at db ≡ (
            after_commit db (
                ok (
                  new_update id status body notify db,
                  hydrate_incident db' (saved_incident inc db.now row),
                )),
            db',
          ))
          × (inc.current_status ≡ status)
          × Recomputed inc.status_page_id
              (component_ids (list_incident_components id db))
              (with_new_update id status body notify inc db)
              db')
      × ((row : Incident)
          → find_incident id db ≡ some row
          → is_valid status ≡ true
          → reopens_taken (apply_status_change status at row).0 db ≡ true
          → add_incident_update id status body notify at db ≡ (err constraint_violation, db))
      × ((row : Incident)
          → find_incident id db ≡ some row
          → is_valid status ≡ false
          → add_incident_update id status body notify at db ≡ (err (invalid_status status), db))
      × (find_incident id db ≡ none
          → add_incident_update id status body notify at db ≡ (err not_found, db))
unfolding add_incident_update
add_incident_update_lem id status body notify at db = (
  λ row e v free.
      let inc = (apply_status_change status at row).0 in
      let stored = with_new_update id status body notify inc db in
      let ids = component_ids (list_incident_components id db) in
      let db' = recomputed (derived_on inc.status_page_id stored) ids stored in
      let run =
        starts id status body notify at db row e
        ∙ changes id status body notify at db row v
        ∙ finishes id status body notify at db inc row (kept_id id status body notify at db row e) e
            free in
      let back =
        reads_back id status body notify at db inc (with_fields inc db.now row) db'
          (saves id status body notify at db inc row (kept_id id status body notify at db row e) e
            free).1
          (recomputed-SameSources (derived_on inc.status_page_id stored) ids stored).incidents in
      (
        db',
        ap
              (λ r. elim r [
                | err x ↦ (err x, db)
                | ok (u, after) ↦ (with_update u (after_commit db (incident_by_id id after)), after)
              ])
              run
            ∙ ap (λ r. (with_update (new_update id status body notify db) (after_commit db r), db'))
                back
            ∙ ap (λ r. (r, db'))
                (with_update-after_commit db (new_update id status body notify db)
                  (hydrate_incident db' (with_fields inc db.now row))),
        ((apply_status_change-IsConsistent status at row).0 v).1,
        recomputed-Recomputed inc.status_page_id ids stored,
      ),
  λ row e v t.
      ap
        (λ r. elim r [
          | err x ↦ (err x, db)
          | ok (u, after) ↦ (with_update u (after_commit db (incident_by_id id after)), after)
        ])
        (starts id status body notify at db row e
          ∙ changes id status body notify at db row v
          ∙ collides id status body notify at db (apply_status_change status at row).0 t),
  λ row e v.
      ap
        (λ r. elim r [
          | err x ↦ (err x, db)
          | ok (u, after) ↦ (with_update u (after_commit db (incident_by_id id after)), after)
        ])
        (starts id status body notify at db row e ∙ refuses id status body notify at db row v),
  λ e.
      ap
        (λ r. elim r [
          | err x ↦ (err x, db)
          | ok (u, after) ↦ (with_update u (after_commit db (incident_by_id id after)), after)
        ])
        (absent id status body notify at db e),
)
