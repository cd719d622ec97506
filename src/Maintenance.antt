-- ===== src/Maintenance.antt =====
-- backend/internal/domain/maintenance.go: planned works, their schedule and their life cycle.
pub mod Lifecycle
use healthpage.Prelude.{
  ◌-◌, String, ap, Bool, true, false, not, Option, none, some, List, ltb, if◌then◌else◌, pos, ◌==◌,
  nat_comparable, string_comparable,
}
use healthpage.Status.{ComponentStatus, under_maintenance}
use healthpage.Page.{Uuid, Time}

pub data MaintenanceStatus : Type 0 where
  scheduled in_progress completed : MaintenanceStatus
  other : String → MaintenanceStatus

unfoldable pub is_valid : MaintenanceStatus → Bool
is_valid (other _) = false
is_valid _ = true

pub record MaintenanceUpdate : Type 0 where
  pub id : Uuid
  pub maintenance_id : Uuid
  pub body : String
  pub notify_subscribers : Bool
  pub created_at : Time
  pub updated_at : Time

pub record Maintenance : Type 0 where
  pub id : Uuid
  pub status_page_id : Uuid
  pub title : String
  pub description : String
  pub status : MaintenanceStatus
  pub scheduled_start : Time
  pub scheduled_end : Time
  pub started_at : Option Time
  pub completed_at : Option Time
  pub created_at : Time
  pub updated_at : Time
  pub deleted_at : Option Time
  pub component_ids : List Uuid
  pub updates : List MaintenanceUpdate

-- `s == MaintenanceInProgress`
abbrev pub status_in_progress : MaintenanceStatus → Bool
status_in_progress in_progress = true
status_in_progress _ = false

-- Maintenance.IsActive, by way of IsInProgress
unfoldable pub is_active : Maintenance → Bool
is_active m = status_in_progress m.status

-- Maintenance.ImposedComponentStatus; `none` is `ok = false`
unfoldable pub imposed_component_status : Maintenance → Option ComponentStatus
unfolding is_active
imposed_component_status m = if is_active m then some under_maintenance else none

pub data Error : Type 0 where
  invalid_maintenance_status : MaintenanceStatus → Error
  invalid_schedule : Error

-- Maintenance.ValidateSchedule
unfoldable pub validate_schedule : Maintenance → Option Error
validate_schedule m = if ltb m.scheduled_start m.scheduled_end then none else some invalid_schedule

-- `if x == nil { x = at }`
abbrev pub set_once : Option Time → Time → Option Time
set_once none at = some at
set_once (some t) at = some t

-- the `switch` of ApplyStatusChange
abbrev pub stamp : MaintenanceStatus → Time → Maintenance → Maintenance
stamp scheduled at m = record m { started_at = none; completed_at = none }
stamp in_progress at m = record m { started_at = set_once m.started_at at; completed_at = none }
stamp completed at m = record m { completed_at = set_once m.completed_at at }
stamp (other _) at m = m

-- Maintenance.ApplyStatusChange
unfoldable pub apply_status_change :
    MaintenanceStatus → Time → Maintenance → Maintenance × Option Error
unfolding is_valid
apply_status_change status at m =
    if not (is_valid status)
    then (m, some (invalid_maintenance_status status))
    else (stamp status at (record m { status = status }), none)
