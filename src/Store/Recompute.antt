-- ===== src/Store/Recompute.antt =====
-- backend/internal/store/components.go and incidents.go: changing the status of a component with
-- its history, and recomputing the statuses that incidents and works impose.
pub mod Change
pub mod Laws
pub mod Coherence
pub mod Joins
pub mod Refinement
use healthpage.Prelude.{
  zero, ◌-◌, ap, false, Option, none, some, List, [], ◌∷◌, if◌then◌else◌, pos, ◌==◌, nat_comparable,
  string_comparable,
}
use healthpage.Status.{ComponentStatus, under_maintenance, component_status_comparable}
use healthpage.Page.{Uuid, Component}
use healthpage.Incident.{IncidentComponent, Incident, investigating, none_impact}
use healthpage.Incident
use healthpage.Maintenance.{Maintenance}
use healthpage.Maintenance
use healthpage.Derive.{derived_component_status}
use healthpage.Store.{HistorySource, Db, Tx, ok, ◌>>=◌, ◌>>◌, pure, gets}
use healthpage.Store
use healthpage.Store.Queries.{
  find_component, set_component_status, close_open_status_period, open_status_period,
  list_active_incident_components, list_active_maintenance_component_ids,
}

-- changeComponentStatusTx
unfoldable pub change_component_status_tx : Uuid → ComponentStatus → HistorySource → Tx Component
change_component_status_tx id s source = do
  close_open_status_period id
  updated ← set_component_status id s
  open_status_period id s source
  pure updated

-- ChangeComponentStatus: the same in a transaction of its own
unfoldable pub change_component_status : Uuid → ComponentStatus → HistorySource → Tx Component
unfolding change_component_status_tx
change_component_status id s source = change_component_status_tx id s source

-- `activeInc`: one aggregate that holds the rows of all active incidents; its other fields are
-- Go's zero values
abbrev pub active_incident : List IncidentComponent → Incident
active_incident rows = record {
  id = 0;
  status_page_id = 0;
  title = "";
  current_status = investigating;
  impact = Incident.other_impact "";
  started_at = 0;
  resolved_at = none;
  postmortem = none;
  is_visible = false;
  created_at = 0;
  updated_at = 0;
  deleted_at = none;
  integration_id = none;
  external_dedup_key = none;
  components = rows;
  updates = [];
}

-- `activeM`
abbrev pub active_maintenance : List Uuid → Maintenance
active_maintenance ids = record {
  id = 0;
  status_page_id = 0;
  title = "";
  description = "";
  status = Maintenance.in_progress;
  scheduled_start = 0;
  scheduled_end = 0;
  started_at = none;
  completed_at = none;
  created_at = 0;
  updated_at = 0;
  deleted_at = none;
  component_ids = ids;
  updates = [];
}

abbrev pub source_of : ComponentStatus → HistorySource
source_of s = if s == under_maintenance then Store.maintenance else Store.incident

-- the body of the loop over `componentIDs`, with the component that was read and the derived status
abbrev pub apply_derived : Uuid → ComponentStatus → Option Component → Tx (Unit {0})
apply_derived cid derived none = pure tt
apply_derived cid derived (some comp) =
    if comp.current_status == derived
    then pure tt
    else (do change_component_status_tx cid derived (source_of derived); pure tt)

pub recompute_loop : Incident → Maintenance → List Uuid → Tx (Unit {0})
recompute_loop inc m [] db = ok (tt, db)
recompute_loop inc m (cid ∷ rest) db =
    elim (apply_derived cid (derived_component_status cid (inc ∷ []) (m ∷ [])).0
      (find_component cid db) db) [
        | ok (_, db') ↦ recompute_loop inc m rest db'
        | Store.err e ↦ Store.err e
      ]

-- recomputeComponentStatusesTx
unfoldable pub recompute_component_statuses_tx : Uuid → List Uuid → Tx (Unit {0})
unfolding recompute_loop
recompute_component_statuses_tx page [] db = ok (tt, db)
recompute_component_statuses_tx page (id ∷ ids) db =
    recompute_loop (active_incident (list_active_incident_components page db))
      (active_maintenance (list_active_maintenance_component_ids page db)) (id ∷ ids) db
