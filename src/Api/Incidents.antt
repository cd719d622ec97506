-- ===== src/Api/Incidents.antt =====
-- backend/internal/api/incidents.go: the requests on incidents.
pub mod Refusals
pub mod Fields
pub mod Access
use healthpage.Prelude.{
  ◌-◌, String, ap, Bool, true, not, ◌&&◌, Option, none, some, List, [], ◌∷◌, if◌then◌else◌, is_some,
  pos, ◌==◌, nat_comparable, string_comparable,
}
use healthpage.Status.{ComponentStatus}
use healthpage.Status as ComponentStatuses
use healthpage.Page.{Uuid, Time}
use healthpage.Incident.{
  Incident, IncidentStatus, IncidentImpact, IncidentComponent, IncidentUpdate, other, is_valid,
  impact_is_valid, apply_status_change, set_postmortem, Error,
}
use healthpage.Store.{Db, Result, ok, err}
use healthpage.Store.Queries.{find_component}
use healthpage.Store.Incidents.{
  incident_by_id, create_incident, update_incident, soft_delete_incident, add_incident_update,
}
use healthpage.Notify.{incident_created, incident_updated}
use healthpage.Api.{
  Refusal, bad_request, invalid_request, internal, Answer, refused, granted, ◌>>=◌, or_refuse,
  ensure, when_some, Principal, World, Outside, authorize_page, resolve_managed_page, bool_or,
  loaded, emit_notify, answered,
}

pub record IncidentComponentDto : Type 0 where
  pub component_id : String
  pub component_status_in_incident : ComponentStatus

pub record CreateIncident : Type 0 where
  pub status_page_id : String
  pub title : String
  pub status : IncidentStatus
  pub impact : IncidentImpact
  pub body : String
  pub notify : Option Bool
  pub started_at : Option String
  pub components : List IncidentComponentDto

pub record PatchIncident : Type 0 where
  pub title : Option String
  pub impact : Option IncidentImpact
  pub postmortem : Option String
  pub is_visible : Option Bool
  pub components : Option (List IncidentComponentDto)

pub record AddIncidentUpdate : Type 0 where
  pub status : IncidentStatus
  pub body : String
  pub notify : Option Bool

-- a link whose other fields are left to the store
abbrev pub reported : Uuid → ComponentStatus → IncidentComponent
reported cid status = record {
  id = 0;
  incident_id = 0;
  component_id = cid;
  component_status_in_incident = status;
  created_at = 0;
  updated_at = 0;
}

-- parseIncidentComponents
unfoldable pub parse_incident_components :
    Outside → Uuid → Db → List IncidentComponentDto → Answer (List IncidentComponent)
unfolding ComponentStatuses.is_valid
parse_incident_components o page_id db [] = granted []
parse_incident_components o page_id db (ic ∷ rest) = do
  cid ← or_refuse (o.uuid_parse ic.component_id) invalid_request
  _ ← ensure (ComponentStatuses.is_valid ic.component_status_in_incident) invalid_request
  comp ← or_refuse (find_component cid db) invalid_request
  _ ← ensure (comp.status_page_id == page_id) invalid_request
  comps ← parse_incident_components o page_id db rest
  granted (reported cid ic.component_status_in_incident ∷ comps)

-- `err` of a method that changes an incident
abbrev pub changed_or_refused : Incident × Option Error → Answer Incident
changed_or_refused (inc, none) = granted inc
changed_or_refused (inc, some _) = refused invalid_request

-- `startedAt`
unfoldable pub started_at : Outside → Option String → Time → Answer Time
started_at o none now = granted now
started_at o (some raw) now =
    if raw == "" then granted now else or_refuse (o.parse_time raw) invalid_request

-- the incident that a request reports, before its status is set
abbrev pub new_incident : Uuid → CreateIncident → Time → List IncidentComponent → Incident
new_incident page_id req at comps = record {
  id = 0;
  status_page_id = page_id;
  title = req.title;
  current_status = other "";
  impact = req.impact;
  started_at = at;
  resolved_at = none;
  postmortem = none;
  is_visible = true;
  created_at = 0;
  updated_at = 0;
  deleted_at = none;
  integration_id = none;
  external_dedup_key = none;
  components = comps;
  updates = [];
}

-- the checks of handleCreateIncident once the page is known
unfoldable pub checked_report :
    Outside → Uuid → World → CreateIncident → Answer (Incident × CreateIncident)
unfolding is_valid impact_is_valid
checked_report o page_id w req = do
  _ ← ensure (not (req.title == "")) invalid_request
  _ ← ensure (not (req.body == "")) invalid_request
  _ ← ensure (is_valid req.status) invalid_request
  _ ← ensure (impact_is_valid req.impact) invalid_request
  comps ← parse_incident_components o page_id w.db req.components
  at ← started_at o req.started_at w.db.now
  inc ←
      changed_or_refused
        (apply_status_change req.status w.db.now (new_incident page_id req at comps))
  granted (inc, req)

-- the checks of handleCreateIncident, up to the record that is stored
unfoldable pub reported_incident :
    Outside → Option Principal → Option CreateIncident → World → Answer (Incident × CreateIncident)
reported_incident o principal body w = do
  req ← or_refuse body bad_request
  page ← resolve_managed_page o principal req.status_page_id w
  checked_report o page.id w req

-- the answer, once the incident is stored
abbrev pub announce_report :
    Outside → String → Bool → World → Result Incident × Db → Answer Incident × World
announce_report o body notify w (err e, db') = (refused internal, record w { db = db' })
announce_report o body notify w (ok created, db') =
    let w' = record w { db = db' } in
    (
      granted created,
      if notify && created.is_visible
          then emit_notify o (λ env. incident_created env created body) w'
          else w',
    )

-- handleCreateIncident
unfoldable pub handle_create_incident :
    Outside → Option Principal → Option CreateIncident → World → Answer Incident × World
handle_create_incident o principal body w = elim (reported_incident o principal body w) [
  | refused r ↦ (refused r, w)
  | granted (inc, req) ↦
      announce_report o req.body (bool_or req.notify true) w
        (create_incident inc req.body (bool_or req.notify true) w.db)
]

-- the incident of a request's path, where the principal may change it
unfoldable pub authorized_incident :
    Outside → Option Principal → String → World → Answer (Uuid × Incident)
authorized_incident o principal raw_id w = do
  id ← or_refuse (o.uuid_parse raw_id) bad_request
  inc ← loaded (incident_by_id id w.db)
  _ ← authorize_page principal inc.status_page_id w
  granted (id, inc)

-- the fields that a patch sets on the incident itself
unfoldable pub patch_incident_fields : PatchIncident → Incident → Answer Incident
unfolding impact_is_valid
patch_incident_fields req inc = do
  inc ← when_some req.title (λ title inc. granted (record inc { title = title })) inc
  inc ←
      when_some req.impact
        (λ impact inc. do
          _ ← ensure (impact_is_valid impact) invalid_request
          granted (record inc { impact = impact }))
        inc
  inc ← when_some req.is_visible (λ b inc. granted (record inc { is_visible = b })) inc
  when_some req.postmortem (λ text inc. changed_or_refused (set_postmortem text inc)) inc

-- the components that a patch sets
unfoldable pub patch_incident_components : Outside → PatchIncident → Db → Incident → Answer Incident
patch_incident_components o req db inc =
    when_some req.components
      (λ raw inc. do
        comps ← parse_incident_components o inc.status_page_id db raw
        granted (record inc { components = comps }))
      inc

-- the incident before a patch, and what is to be stored
pub record Patched : Type 0 where
  pub before : Incident
  pub after : Incident
  pub replaces : Bool

-- the checks of handlePatchIncident
unfoldable pub patched_incident :
    Outside → Option Principal → String → Option PatchIncident → World → Answer Patched
patched_incident o principal raw_id body w = do
  found ← authorized_incident o principal raw_id w
  req ← or_refuse body bad_request
  inc ← patch_incident_fields req found.1
  inc ← patch_incident_components o req w.db inc
  granted (record { before = found.1; after = inc; replaces = is_some req.components })

-- handlePatchIncident
unfoldable pub handle_patch_incident :
    Outside → Option Principal → String → Option PatchIncident → World → Answer Incident × World
handle_patch_incident o principal raw_id body w =
    elim (patched_incident o principal raw_id body w) [
      | refused r ↦ (refused r, w)
      | granted p ↦ answered w (update_incident p.after p.replaces w.db)
    ]

-- handleDeleteIncident
unfoldable pub handle_delete_incident :
    Outside → Option Principal → String → World → Answer (Unit {0}) × World
handle_delete_incident o principal raw_id w = elim (authorized_incident o principal raw_id w) [
  | refused r ↦ (refused r, w)
  | granted (id, _) ↦ answered w (soft_delete_incident id w.db)
]

-- the checks of handleAddIncidentUpdate
unfoldable pub checked_update :
    Outside
    → Option Principal
    → String
    → Option AddIncidentUpdate
    → World
    → Answer (Uuid × AddIncidentUpdate)
checked_update o principal raw_id body w = do
  found ← authorized_incident o principal raw_id w
  req ← or_refuse body bad_request
  _ ← ensure (is_valid req.status) invalid_request
  _ ← ensure (not (req.body == "")) invalid_request
  granted (found.0, req)

-- the answer, once the update is stored
abbrev pub announce_update :
    Outside
    → Bool
    → World
    → Result (IncidentUpdate × Incident) × Db
    → Answer (IncidentUpdate × Incident) × World
announce_update o notify w (err e, db') = (refused internal, record w { db = db' })
announce_update o notify w (ok (update, updated), db') =
    let w' = record w { db = db' } in
    (
      granted (update, updated),
      if notify && updated.is_visible
          then emit_notify o (λ env. incident_updated env updated update) w'
          else w',
    )

-- handleAddIncidentUpdate
unfoldable pub handle_add_incident_update :
    Outside
    → Option Principal
    → String
    → Option AddIncidentUpdate
    → World
    → Answer (IncidentUpdate × Incident) × World
handle_add_incident_update o principal raw_id body w =
    elim (checked_update o principal raw_id body w) [
      | refused r ↦ (refused r, w)
      | granted (id, req) ↦
          announce_update o (bool_or req.notify true) w
            (add_incident_update id req.status req.body (bool_or req.notify true) w.db.now w.db)
    ]
