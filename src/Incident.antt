-- ===== src/Incident.antt =====
-- backend/internal/domain/incident.go and incident_template.go: the incident, its life cycle and
-- its post-mortem. `other s` is a Go string outside the enum.
pub mod Lifecycle
use healthpage.Prelude.{
  suc, ◌-◌, ◌*◌, String, ap, Bool, true, false, not, Option, none, some, List, [], ◌∷◌, ltb,
  if◌then◌else◌, ℤ, pos, negsuc, ltb_ℤ, ◌==◌, nat_comparable, string_comparable,
}
use healthpage.Status.{ComponentStatus}
use healthpage.Page.{Uuid, Time}

pub data IncidentStatus : Type 0 where
  investigating identified monitoring resolved : IncidentStatus
  other : String → IncidentStatus

pub data IncidentImpact : Type 0 where
  none_impact minor major critical : IncidentImpact
  other_impact : String → IncidentImpact

-- IncidentStatus.IsValid
unfoldable pub is_valid : IncidentStatus → Bool
is_valid (other _) = false
is_valid _ = true

-- `s == IncidentResolved`
abbrev pub is_terminal : IncidentStatus → Bool
is_terminal resolved = true
is_terminal _ = false

-- IncidentImpact.IsValid
unfoldable pub impact_is_valid : IncidentImpact → Bool
impact_is_valid (other_impact _) = false
impact_is_valid _ = true

unfoldable pub impact_severity : IncidentImpact → ℤ
impact_severity none_impact = pos 0
impact_severity minor = pos 1
impact_severity major = pos 2
impact_severity critical = pos 3
impact_severity (other_impact _) = negsuc 0

-- the loop of WorstImpact, over `worst` and `worstSev`
pub worst_impact_from : IncidentImpact → ℤ → List IncidentImpact → IncidentImpact
worst_impact_from worst worst_sev [] = worst
worst_impact_from worst worst_sev (im ∷ rest) =
    let sev = impact_severity im in
    let higher = ltb_ℤ worst_sev sev in
    worst_impact_from (if higher then im else worst) (if higher then sev else worst_sev) rest

unfoldable pub worst_impact : List IncidentImpact → IncidentImpact
unfolding worst_impact_from impact_severity
worst_impact impacts = worst_impact_from none_impact (pos 0) impacts

pub record IncidentComponent : Type 0 where
  pub id : Uuid
  pub incident_id : Uuid
  pub component_id : Uuid
  pub component_status_in_incident : ComponentStatus
  pub created_at : Time
  pub updated_at : Time

pub record IncidentUpdate : Type 0 where
  pub id : Uuid
  pub incident_id : Uuid
  pub status : IncidentStatus
  pub body : String
  pub notify_subscribers : Bool
  pub created_at : Time
  pub updated_at : Time

pub record Incident : Type 0 where
  pub id : Uuid
  pub status_page_id : Uuid
  pub title : String
  pub current_status : IncidentStatus
  pub impact : IncidentImpact
  pub started_at : Time
  pub resolved_at : Option Time
  pub postmortem : Option String
  pub is_visible : Bool
  pub created_at : Time
  pub updated_at : Time
  pub deleted_at : Option Time
  pub integration_id : Option Uuid
  pub external_dedup_key : Option String
  pub components : List IncidentComponent
  pub updates : List IncidentUpdate

unfoldable pub is_resolved : Incident → Bool
is_resolved i = is_terminal i.current_status

unfoldable pub is_active : Incident → Bool
unfolding is_resolved
is_active i = not (is_resolved i)

pub data Error : Type 0 where
  invalid_incident_status : IncidentStatus → Error
  invalid_incident_impact postmortem_before_resolved invalid_template_name : Error

-- A method that mutates `*Incident` returns the new record, and `none` for the nil error.
-- Incident.ApplyStatusChange
unfoldable pub apply_status_change : IncidentStatus → Time → Incident → Incident × Option Error
unfolding is_valid
apply_status_change status at i =
    if not (is_valid status)
    then (i, some (invalid_incident_status status))
    else if is_terminal status
    then (
      record i {
        current_status = status;
        resolved_at = elim i.resolved_at [ none ↦ some at | some t ↦ some t ];
      },
      none,
    )
    else (record i { current_status = status; resolved_at = none }, none)

-- Incident.CanSetPostmortem
unfoldable pub can_set_postmortem : Incident → Bool
unfolding is_resolved
can_set_postmortem i = is_resolved i

-- Incident.SetPostmortem
unfoldable pub set_postmortem : String → Incident → Incident × Option Error
unfolding can_set_postmortem
set_postmortem text i =
    if not (can_set_postmortem i)
    then (i, some postmortem_before_resolved)
    else if text == ""
    then (record i { postmortem = none }, none)
    else (record i { postmortem = some text }, none)

pub record IncidentTemplate : Type 0 where
  pub id : Uuid
  pub status_page_id : Uuid
  pub name : String
  pub title_tmpl : String
  pub body_tmpl : String
  pub default_impact : IncidentImpact
  pub created_at : Time
  pub updated_at : Time
  pub default_components : List IncidentComponent

-- IncidentTemplate.Validate
unfoldable pub validate : IncidentTemplate → Option Error
unfolding impact_is_valid
validate t =
    if t.name == ""
    then some invalid_template_name
    else if not (impact_is_valid t.default_impact)
    then some invalid_incident_impact
    else none
