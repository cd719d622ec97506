-- ===== src/Tests/Requests.antt =====
-- The theorems on requests at a concrete page, its owner and a patch that starts its works.
use healthpage.Prelude.{
  ◌-◌, ◌≡◌, refl, ap, true, false, not, Option, none, some, [], ◌∷◌, nat_comparable,
  string_comparable, keep,
}
use healthpage.Page.{Uuid}
use healthpage.Account.{Account, StatusPage, public}
use healthpage.Billing.{free}
use healthpage.Maintenance.{Maintenance, in_progress, scheduled}
use healthpage.Notify.{State}
use healthpage.Api.{Answer, refused, granted, Principal, World, Outside}
use healthpage.Api.Maintenances.{
  CreateMaintenance, PatchMaintenance, AddMaintenanceUpdate, Patched, handle_create_maintenance,
  handle_patch_maintenance, handle_delete_maintenance, handle_add_maintenance_update,
  patched_maintenance, authorized_maintenance, checked_update, planned_maintenance,
}
use healthpage.Api.Answers.{KeepsOnRefusal}
use healthpage.Api.Maintenances.Refusals.{maintenance_requests-KeepsOnRefusal}
use healthpage.Api.Maintenances.Access as WorksAccess
use healthpage.Api.Maintenances.Access.{IsPlan, MayChange, maintenance_requests-authorized}
use healthpage.Api.Maintenances.Announcements.{CallsFor, handle_patch_maintenance-announces}
use healthpage.Incident.{Incident, is_valid}
use healthpage.Api.Incidents as Incidents
use healthpage.Api.Incidents.{
  CreateIncident, PatchIncident, AddIncidentUpdate, handle_create_incident, handle_patch_incident,
  handle_delete_incident, handle_add_incident_update, patched_incident, authorized_incident,
  reported_incident,
}
use healthpage.Api.Incidents.Refusals.{incident_requests-KeepsOnRefusal}
use healthpage.Api.Incidents.Access as IncidentAccess
use healthpage.Api.Incidents.Access.{IsPatch, IsReport, incident_requests-authorized}
use healthpage.Tests.Data.{page_db, planned_works}

abbrev team : Account
team = record {
  id = 2;
  name = "team";
  billing_plan = free;
  owner_user_id = 3;
  created_at = 0;
  updated_at = 0;
}

abbrev team_page : StatusPage
team_page = record {
  id = 1;
  account_id = 2;
  name = "status";
  description = "";
  slug = "status";
  timezone = "UTC";
  default_locale = "en";
  visibility = public;
  password_hash = none;
  custom_domain = none;
  domain_verified = false;
  dokploy_domain_id = none;
  theme = "{}";
  logo_url = none;
  favicon_url = none;
  hide_powered_by = false;
  smtp_config = none;
  from_email = none;
  redirect_url = none;
  created_at = 0;
  updated_at = 0;
  deleted_at = none;
}

abbrev stored_works : Maintenance
stored_works = record planned_works { component_ids = [] }

abbrev nothing_sent : State
nothing_sent = record { journal = []; published = []; next_id = 500; now = 60 }

abbrev pub site : World
site = record {
  db = record page_db { maintenances = stored_works ∷ [] };
  pages = team_page ∷ [];
  accounts = team ∷ [];
  sent = nothing_sent;
}

abbrev owner : Option Principal
owner = some (record { operator = some 3; token = none })

-- every identifier is that of the works
abbrev pub quiet : Outside
quiet = record { uuid_parse = λ s. some 50; parse_time = λ s. none; notifier = none }

abbrev starts : PatchMaintenance
starts = record {
  title = none;
  description = none;
  status = some in_progress;
  scheduled_start = none;
  scheduled_end = none;
  component_ids = none;
}

refusals_example :
    ((body : Option CreateMaintenance)
      → KeepsOnRefusal site (handle_create_maintenance quiet none body site))
    × ((body : Option PatchMaintenance)
        → KeepsOnRefusal site (handle_patch_maintenance quiet none "50" body site))
    × KeepsOnRefusal site (handle_delete_maintenance quiet none "50" site)
    × ((body : Option AddMaintenanceUpdate)
        → KeepsOnRefusal site (handle_add_maintenance_update quiet none "50" body site))
refusals_example = maintenance_requests-KeepsOnRefusal quiet none "50" site

access_example :
    ((body : Option PatchMaintenance) (p : Patched)
      → patched_maintenance quiet owner "50" body site ≡ granted p
      → WorksAccess.IsPatch quiet owner "50" site body p)
    × ((id : Uuid) (m : Maintenance)
        → authorized_maintenance quiet owner "50" site ≡ granted (id, m)
        → MayChange quiet owner "50" site id m)
    × ((body : Option AddMaintenanceUpdate) (id : Uuid) (req : AddMaintenanceUpdate)
        → checked_update quiet owner "50" body site ≡ granted (id, req)
        → (m : Maintenance) × MayChange quiet owner "50" site id m)
    × ((body : Option CreateMaintenance) (m : Maintenance) (req : CreateMaintenance)
        → planned_maintenance quiet owner body site ≡ granted (m, req)
        → IsPlan quiet owner body site m req)
access_example = maintenance_requests-authorized quiet owner site "50"

abbrev started : Patched
started = record {
  before = stored_works;
  after = record stored_works { status = in_progress; started_at = some 60 };
  replaces = false;
}

abbrev started_works : Maintenance
started_works = record stored_works { status = in_progress; started_at = some 60; updated_at = 60 }

abbrev started_site : World
started_site = record site { db = record page_db { maintenances = started_works ∷ [] } }

announcement_example :
    (started_works.status ≡ in_progress)
    × CallsFor quiet started_works scheduled in_progress nothing_sent nothing_sent
unfolding patched_maintenance authorized_maintenance healthpage.Store.Maintenances.maintenance_by_id
    healthpage.Store.Works.find_maintenance healthpage.Store.Queries.first_where
    healthpage.Api.authorize_page healthpage.Account.status_page_by_id
    healthpage.Store.Maintenances.hydrate_maintenance healthpage.Account.account_by_owner
    healthpage.Api.Maintenances.patch_maintenance_fields healthpage.Api.Maintenances.patch_schedule
    healthpage.Api.Maintenances.patch_status healthpage.Maintenance.apply_status_change
    healthpage.Api.Maintenances.patch_components healthpage.Store.Works.list_maintenance_components
    healthpage.Store.Works.list_maintenance_updates healthpage.Prelude.keep handle_patch_maintenance
    healthpage.Store.Maintenances.update_maintenance
    healthpage.Api.Maintenances.maintenance_transition_event healthpage.Api.emit_notify
    healthpage.Api.principal_owns_page healthpage.Store.Queries.list_active_incident_components
    healthpage.Store.Queries.list_active_maintenance_component_ids
    healthpage.Store.Queries.update_where healthpage.Store.Recompute.recompute_component_statuses_tx
    healthpage.Store.Works.update_maintenance_row
announcement_example =
    handle_patch_maintenance-announces quiet owner "50" (some starts) site started_site started
      started_works refl refl

incident_refusals_example :
    ((body : Option CreateIncident)
      → KeepsOnRefusal site (handle_create_incident quiet none body site))
    × ((body : Option PatchIncident)
        → KeepsOnRefusal site (handle_patch_incident quiet none "40" body site))
    × KeepsOnRefusal site (handle_delete_incident quiet none "40" site)
    × ((body : Option AddIncidentUpdate)
        → KeepsOnRefusal site (handle_add_incident_update quiet none "40" body site))
incident_refusals_example = incident_requests-KeepsOnRefusal quiet none "40" site

incident_access_example :
    ((body : Option PatchIncident) (p : Incidents.Patched)
      → patched_incident quiet owner "40" body site ≡ granted p
      → IsPatch quiet owner "40" site body p)
    × ((id : Uuid) (i : Incident)
        → authorized_incident quiet owner "40" site ≡ granted (id, i)
        → IncidentAccess.MayChange quiet owner "40" site id i)
    × ((body : Option AddIncidentUpdate) (id : Uuid) (req : AddIncidentUpdate)
        → Incidents.checked_update quiet owner "40" body site ≡ granted (id, req)
        → ((i : Incident) × IncidentAccess.MayChange quiet owner "40" site id i)
          × (is_valid req.status ≡ true))
    × ((body : Option CreateIncident) (i : Incident) (req : CreateIncident)
        → reported_incident quiet owner body site ≡ granted (i, req)
        → IsReport quiet owner body site i req)
incident_access_example = incident_requests-authorized quiet owner site "40"
