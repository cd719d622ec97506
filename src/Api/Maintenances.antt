-- ===== src/Api/Maintenances.antt =====
-- backend/internal/api/maintenances.go: the requests on maintenance works.
pub mod Refusals
pub mod Fields
pub mod Access
pub mod Announcements
use healthpage.Prelude.{
  ◌-◌, String, ap, Bool, true, false, not, ◌||◌, Option, none, some, List, [], ◌∷◌, if◌then◌else◌,
  is_some, ◌==◌, nat_comparable, string_comparable,
}
use healthpage.Page.{Uuid, Time}
use healthpage.Maintenance.{
  Maintenance, MaintenanceUpdate, MaintenanceStatus, scheduled, in_progress, completed, other,
  is_valid, validate_schedule, apply_status_change, Error,
}
use healthpage.Store.{Db, Result, ok, err}
use healthpage.Store.Queries.{find_component}
use healthpage.Store.Maintenances.{
  maintenance_by_id, create_maintenance, update_maintenance, soft_delete_maintenance,
  add_maintenance_update,
}
use healthpage.Notify.{
  EventType, maintenance_scheduled, maintenance_started, maintenance_completed, maintenance_event,
}
use healthpage.Api.{
  bad_request, invalid_request, internal, Answer, refused, granted, ◌>>=◌, or_refuse, ensure,
  when_some, Principal, World, Outside, authorize_page, resolve_managed_page, bool_or, loaded,
  emit_notify, answered,
}

pub record CreateMaintenance : Type 0 where
  pub status_page_id : String
  pub title : String
  pub description : String
  pub scheduled_start : String
  pub scheduled_end : String
  pub component_ids : List String
  pub notify : Option Bool

pub record PatchMaintenance : Type 0 where
  pub title : Option String
  pub description : Option String
  pub status : Option MaintenanceStatus
  pub scheduled_start : Option String
  pub scheduled_end : Option String
  pub component_ids : Option (List String)

pub record AddMaintenanceUpdate : Type 0 where
  pub body : String
  pub notify : Option Bool

-- parseMaintenanceComponents
unfoldable pub parse_maintenance_components : Outside → Uuid → Db → List String → Answer (List Uuid)
parse_maintenance_components o page_id db [] = granted []
parse_maintenance_components o page_id db (raw ∷ rest) = do
  cid ← or_refuse (o.uuid_parse raw) invalid_request
  comp ← or_refuse (find_component cid db) invalid_request
  _ ← ensure (comp.status_page_id == page_id) invalid_request
  ids ← parse_maintenance_components o page_id db rest
  granted (cid ∷ ids)

-- parseRFC3339
unfoldable pub parse_rfc3339 : Outside → String → Answer Time
parse_rfc3339 o raw = do
  _ ← ensure (not (raw == "")) invalid_request
  or_refuse (o.parse_time raw) invalid_request

abbrev pub schedule_checked : Maintenance → Answer Maintenance
schedule_checked m = elim (validate_schedule m) [
  | none ↦ granted m
  | some _ ↦ refused invalid_request
]

-- the works that a request plans
abbrev pub new_maintenance : Uuid → CreateMaintenance → Time → Time → List Uuid → Maintenance
new_maintenance page_id req start end ids = record {
  id = 0;
  status_page_id = page_id;
  title = req.title;
  description = req.description;
  status = scheduled;
  scheduled_start = start;
  scheduled_end = end;
  started_at = none;
  completed_at = none;
  created_at = 0;
  updated_at = 0;
  deleted_at = none;
  component_ids = ids;
  updates = [];
}

-- the checks of handleCreateMaintenance, up to the record that is stored
unfoldable pub planned_maintenance :
    Outside
    → Option Principal
    → Option CreateMaintenance
    → World
    → Answer (Maintenance × CreateMaintenance)
planned_maintenance o principal body w = do
  req ← or_refuse body bad_request
  page ← resolve_managed_page o principal req.status_page_id w
  _ ← ensure (not (req.title == "")) invalid_request
  start ← parse_rfc3339 o req.scheduled_start
  end ← parse_rfc3339 o req.scheduled_end
  ids ← parse_maintenance_components o page.id w.db req.component_ids
  m ← schedule_checked (new_maintenance page.id req start end ids)
  granted (m, req)

-- the answer, once the works are stored
abbrev pub announce_plan :
    Outside → Bool → World → Result Maintenance × Db → Answer Maintenance × World
announce_plan o notify w (err e, db') = (refused internal, record w { db = db' })
announce_plan o notify w (ok created, db') =
    let w' = record w { db = db' } in
    (
      granted created,
      if notify
          then emit_notify o (λ env. maintenance_event env created maintenance_scheduled) w'
          else w',
    )

-- handleCreateMaintenance
unfoldable pub handle_create_maintenance :
    Outside → Option Principal → Option CreateMaintenance → World → Answer Maintenance × World
handle_create_maintenance o principal body w = elim (planned_maintenance o principal body w) [
  | refused r ↦ (refused r, w)
  | granted (m, req) ↦ announce_plan o (bool_or req.notify true) w (create_maintenance m w.db)
]

-- `err` of ApplyStatusChange
abbrev pub changed_or_refused : Maintenance × Option Error → Answer Maintenance
changed_or_refused (m, none) = granted m
changed_or_refused (m, some _) = refused invalid_request

-- the texts and the times that a patch sets, and the check of the schedule
unfoldable pub patch_schedule : Outside → PatchMaintenance → Maintenance → Answer Maintenance
patch_schedule o req m = do
  m ← when_some req.title (λ title m. granted (record m { title = title })) m
  m ← when_some req.description (λ text m. granted (record m { description = text })) m
  m ←
      when_some req.scheduled_start
        (λ raw m. do t ← parse_rfc3339 o raw; granted (record m { scheduled_start = t })) m
  m ←
      when_some req.scheduled_end
        (λ raw m. do t ← parse_rfc3339 o raw; granted (record m { scheduled_end = t })) m
  if is_some req.scheduled_start || is_some req.scheduled_end then schedule_checked m else granted m

-- the stage that a patch sets
unfoldable pub patch_status : PatchMaintenance → Time → Maintenance → Answer Maintenance
unfolding is_valid
patch_status req now m =
    when_some req.status
      (λ status m. do
        _ ← ensure (is_valid status) invalid_request
        changed_or_refused (apply_status_change status now m))
      m

-- the components that a patch sets
unfoldable pub patch_components : Outside → PatchMaintenance → Db → Maintenance → Answer Maintenance
patch_components o req db m =
    when_some req.component_ids
      (λ raw m. do
        ids ← parse_maintenance_components o m.status_page_id db raw
        granted (record m { component_ids = ids }))
      m

-- what a patch sets, in the order of handlePatchMaintenance
unfoldable pub patch_maintenance_fields :
    Outside → PatchMaintenance → Db → Maintenance → Answer Maintenance
patch_maintenance_fields o req db m = do
  m ← patch_schedule o req m
  m ← patch_status req db.now m
  patch_components o req db m

-- MaintenanceStatus values compared as texts
unfoldable pub status_equal : MaintenanceStatus → MaintenanceStatus → Bool
status_equal scheduled scheduled = true
status_equal in_progress in_progress = true
status_equal completed completed = true
status_equal (other a) (other b) = a == b
status_equal _ _ = false

-- maintenanceTransitionEvent
unfoldable pub maintenance_transition_event :
    MaintenanceStatus → MaintenanceStatus → Option EventType
unfolding status_equal
maintenance_transition_event from to = if status_equal from to then none else elim to [
  | in_progress ↦ some maintenance_started
  | completed ↦ some maintenance_completed
  | _ ↦ none
]

-- the works before a patch, and what is to be stored
pub record Patched : Type 0 where
  pub before : Maintenance
  pub after : Maintenance
  pub replaces : Bool

-- the works of a request's path, where the principal may change them
unfoldable pub authorized_maintenance :
    Outside → Option Principal → String → World → Answer (Uuid × Maintenance)
authorized_maintenance o principal raw_id w = do
  id ← or_refuse (o.uuid_parse raw_id) bad_request
  m ← loaded (maintenance_by_id id w.db)
  _ ← authorize_page principal m.status_page_id w
  granted (id, m)

-- the checks of handlePatchMaintenance
unfoldable pub patched_maintenance :
    Outside → Option Principal → String → Option PatchMaintenance → World → Answer Patched
patched_maintenance o principal raw_id body w = do
  found ← authorized_maintenance o principal raw_id w
  req ← or_refuse body bad_request
  changed ← patch_maintenance_fields o req w.db found.1
  granted (record { before = found.1; after = changed; replaces = is_some req.component_ids })

abbrev pub announce_change :
    Outside → MaintenanceStatus → World → Result Maintenance × Db → Answer Maintenance × World
announce_change o prev w (err e, db') = (refused internal, record w { db = db' })
announce_change o prev w (ok updated, db') =
    let w' = record w { db = db' } in
    (
      granted updated,
      elim (maintenance_transition_event prev updated.status) [
        | none ↦ w'
        | some event ↦ emit_notify o (λ env. maintenance_event env updated event) w'
      ],
    )

-- handlePatchMaintenance
unfoldable pub handle_patch_maintenance :
    Outside
    → Option Principal
    → String
    → Option PatchMaintenance
    → World
    → Answer Maintenance × World
handle_patch_maintenance o principal raw_id body w =
    elim (patched_maintenance o principal raw_id body w) [
      | refused r ↦ (refused r, w)
      | granted p ↦ announce_change o p.before.status w (update_maintenance p.after p.replaces w.db)
    ]

-- handleDeleteMaintenance
unfoldable pub handle_delete_maintenance :
    Outside → Option Principal → String → World → Answer (Unit {0}) × World
handle_delete_maintenance o principal raw_id w =
    elim (authorized_maintenance o principal raw_id w) [
      | refused r ↦ (refused r, w)
      | granted (id, _) ↦ answered w (soft_delete_maintenance id w.db)
    ]

-- the checks of handleAddMaintenanceUpdate
unfoldable pub checked_update :
    Outside
    → Option Principal
    → String
    → Option AddMaintenanceUpdate
    → World
    → Answer (Uuid × AddMaintenanceUpdate)
checked_update o principal raw_id body w = do
  found ← authorized_maintenance o principal raw_id w
  req ← or_refuse body bad_request
  _ ← ensure (not (req.body == "")) invalid_request
  granted (found.0, req)

-- handleAddMaintenanceUpdate
unfoldable pub handle_add_maintenance_update :
    Outside
    → Option Principal
    → String
    → Option AddMaintenanceUpdate
    → World
    → Answer (MaintenanceUpdate × Maintenance) × World
handle_add_maintenance_update o principal raw_id body w =
    elim (checked_update o principal raw_id body w) [
      | refused r ↦ (refused r, w)
      | granted (id, req) ↦
          answered w (add_maintenance_update id req.body (bool_or req.notify true) w.db)
    ]
