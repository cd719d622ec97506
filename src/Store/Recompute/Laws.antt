-- ===== src/Store/Recompute/Laws.antt =====
-- What `recomputeComponentStatusesTx` (backend/internal/store/incidents.go) does to the tables.
use mathlib.Core.Option
use healthpage.Prelude.{
  ◌≡◌, refl, ap, ◌∙◌, Bool, true, false, Option, none, some, List, [], ◌∷◌, arith, if◌then◌else◌,
  ◌==◌, nat_comparable, string_comparable, any,
}
use healthpage.Status.{ComponentStatus, status_equal_iff, component_status_comparable}
use healthpage.Page.{Uuid, Component}
use healthpage.Incident.{IncidentComponent, Incident}
use healthpage.Maintenance.{Maintenance}
use healthpage.Derive.{derived_component_status}
use healthpage.Store.{not_found, Db, ok, err, ◌>>◌}
use healthpage.Store.Queries.{
  list_active_incident_components, list_active_maintenance_component_ids, find_component,
  with_status,
}
use healthpage.Store.Recompute.{
  change_component_status_tx, active_incident, active_maintenance, source_of, apply_derived,
  recompute_loop, recompute_component_statuses_tx,
}
use healthpage.Store.Recompute.Change.{
  changed, find_component-changed, change_component_status_tx_lem,
}

-- The status of a component that is not deleted.
abbrev pub status_of : Uuid → Db → Option ComponentStatus
status_of id db = Option.map (λ c. c.current_status) (find_component id db)

-- The tables after one round, and after all rounds, when `d` gives the derived statuses.
unfoldable pub recomputed_one : (Uuid → ComponentStatus) → Uuid → Db → Option Component → Db
recomputed_one d cid db none = db
recomputed_one d cid db (some c) =
    if c.current_status == d cid then db else changed cid (d cid) (source_of (d cid)) db

unfoldable pub recomputed : (Uuid → ComponentStatus) → List Uuid → Db → Db
recomputed d [] db = db
recomputed d (cid ∷ rest) db = recomputed d rest (recomputed_one d cid db (find_component cid db))

apply_derived_lem :
    (d : Uuid → ComponentStatus) (cid : Uuid) (db : Db) (o : Option Component)
    → find_component cid db ≡ o
    → apply_derived cid (d cid) o db ≡ ok (tt, recomputed_one d cid db o)
unfolding recomputed_one
apply_derived_lem d cid db none e = refl
apply_derived_lem d cid db (some c) e = go (c.current_status == d cid)
  where
    go :
        (b : Bool)
        → (if b
              then (λ (x : Db). ok (tt, x))
              else (change_component_status_tx cid (d cid) (source_of (d cid)) >> λ x. ok (tt, x)))
            db
          ≡ ok (tt, if b then db else changed cid (d cid) (source_of (d cid)) db)
    go true = refl
    go false =
        ap (λ r. elim r [ err x ↦ err x | ok (_, db') ↦ ok (tt, db') ])
          (change_component_status_tx_lem cid (d cid) (source_of (d cid)) db
            ∙ ap
                (λ q. elim q [
                  | none ↦ err not_found
                  | some x ↦
                      ok (with_status (d cid) db.now x, changed cid (d cid) (source_of (d cid)) db)
                ])
                e)

recompute_loop_lem :
    (inc : Incident) (m : Maintenance) (ids : List Uuid) (db : Db)
    → recompute_loop inc m ids db
      ≡ ok (tt, recomputed (λ id. (derived_component_status id (inc ∷ []) (m ∷ [])).0) ids db)
unfolding recompute_loop recomputed
recompute_loop_lem inc m [] db = refl
recompute_loop_lem inc m (cid ∷ rest) db =
    ap (λ r. elim r [ err x ↦ err x | ok (_, db') ↦ recompute_loop inc m rest db' ])
      (apply_derived_lem (λ id. (derived_component_status id (inc ∷ []) (m ∷ [])).0) cid db
        (find_component cid db) refl)
    ∙ recompute_loop_lem inc m rest (
        recomputed_one (λ id. (derived_component_status id (inc ∷ []) (m ∷ [])).0) cid db
          (find_component cid db))

-- The status that rows of open incidents and of works under way impose on a component.
abbrev pub derived_from : List IncidentComponent → List Uuid → Uuid → ComponentStatus
derived_from rows works id =
    (derived_component_status id (active_incident rows ∷ []) (active_maintenance works ∷ [])).0

-- The status that the open incidents and works of a page impose on a component, as the
-- recomputation reads it from the tables.
unfoldable pub derived_on : Uuid → Db → Uuid → ComponentStatus
derived_on page db =
    derived_from (list_active_incident_components page db)
      (list_active_maintenance_component_ids page db)

-- The recomputation never fails.
pub recompute-ok :
    (page : Uuid) (ids : List Uuid) (db : Db)
    → recompute_component_statuses_tx page ids db ≡ ok (tt, recomputed (derived_on page db) ids db)
unfolding recompute_component_statuses_tx recomputed derived_on
recompute-ok page [] db = refl
recompute-ok page (id ∷ ids) db =
    recompute_loop_lem (active_incident (list_active_incident_components page db))
      (active_maintenance (list_active_maintenance_component_ids page db)) (id ∷ ids) db

status_of-recomputed_one :
    (d : Uuid → ComponentStatus) (cid j : Uuid) (db : Db) (o : Option Component)
    → find_component cid db ≡ o
    → status_of j (recomputed_one d cid db o)
      ≡ (if cid == j then Option.map (λ _. d j) (status_of j db) else status_of j db)
unfolding recomputed_one
status_of-recomputed_one d cid j db none e = ground arith
status_of-recomputed_one d cid j db (some c) e = ground (
  arith,
  find_component-changed j cid (d cid) (source_of (d cid)) db,
  status_equal_iff c.current_status (d cid),
)

pub status_of-recomputed :
    (d : Uuid → ComponentStatus) (j : Uuid) (ids : List Uuid) (db : Db)
    → status_of j (recomputed d ids db)
      ≡ (if any (λ c. c == j) ids then Option.map (λ _. d j) (status_of j db) else status_of j db)
unfolding recomputed any
status_of-recomputed d j [] db = refl
status_of-recomputed d j (cid ∷ ids) db =
    status_of-recomputed d j ids (recomputed_one d cid db (find_component cid db))
    ∙ (unfold recomputed_one in
        ground (arith, status_of-recomputed_one d cid j db (find_component cid db) refl))

-- The tables from which statuses are derived.
pub record SameSources (a b : Db) : Type 0 where
  pub incidents : a.incidents ≡ b.incidents
  pub incident_components : a.incident_components ≡ b.incident_components
  pub incident_updates : a.incident_updates ≡ b.incident_updates
  pub maintenances : a.maintenances ≡ b.maintenances
  pub maintenance_components : a.maintenance_components ≡ b.maintenance_components
  pub maintenance_updates : a.maintenance_updates ≡ b.maintenance_updates
  pub now : a.now ≡ b.now

recomputed_one-SameSources :
    (d : Uuid → ComponentStatus) (cid : Uuid) (db : Db) (o : Option Component)
    → SameSources (recomputed_one d cid db o) db
unfolding recomputed_one changed
recomputed_one-SameSources d cid db none = ground arith
recomputed_one-SameSources d cid db (some c) = go (c.current_status == d cid)
  where
    go : (b : Bool) → SameSources (if b then db else changed cid (d cid) (source_of (d cid)) db) db
    go true = ground arith
    go false = ground arith

SameSources-trans : {a b c : Db} → SameSources a b → SameSources b c → SameSources a c
SameSources-trans h k = ground arith

pub recomputed-SameSources :
    (d : Uuid → ComponentStatus) (ids : List Uuid) (db : Db) → SameSources (recomputed d ids db) db
unfolding recomputed
recomputed-SameSources d [] db = ground arith
recomputed-SameSources d (cid ∷ ids) db =
    SameSources-trans
      (recomputed-SameSources d ids (recomputed_one d cid db (find_component cid db)))
      (recomputed_one-SameSources d cid db (find_component cid db))

-- The recomputation succeeds; afterwards each listed component that is not deleted has the status
-- that the open incidents and works of the page impose on it, every other component keeps its
-- status, and the incidents, the works and their links are as before.
pub recompute_sets_statuses :
    (page : Uuid) (ids : List Uuid) (db : Db)
    → (db' : Db) × (recompute_component_statuses_tx page ids db ≡ ok (tt, db'))
      × ((j : Uuid)
          → status_of j db' ≡ (
              if any (λ c. c == j) ids
              then Option.map (λ _. derived_on page db j) (status_of j db)
              else status_of j db))
      × SameSources db' db
recompute_sets_statuses page ids db = (
  recomputed (derived_on page db) ids db,
  recompute-ok page ids db,
  λ j. status_of-recomputed (derived_on page db) j ids db,
  recomputed-SameSources (derived_on page db) ids db,
)
