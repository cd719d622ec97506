-- ===== src/Tests/Alerts.antt =====
-- The theorems on alerts at a concrete page: an alert that fires and opens an incident.
use healthpage.Prelude.{
  ◌-◌, String, ◌≡◌, refl, ap, true, Option, none, some, [], ◌∷◌, pos, ◌==◌, nat_comparable,
  string_comparable, keep, any,
}
use healthpage.Incident.{major}
use healthpage.Webhook.{Alert, Mapping, raw_components, resolve}
use healthpage.Page.{Uuid}
use healthpage.Webhook.Resolution.{NoDuplicate, resolve_lem}
use healthpage.Api.{World, Outside}
use healthpage.Tests.Requests.{site, quiet}
use healthpage.Api.Ingest.{Integration, ingest_alert}
use healthpage.Api.Ingest.Once.{ingest_alert-again}

abbrev disk_full : Alert
disk_full = record {
  dedup_key = "disk";
  firing = true;
  title = "Disk full";
  body = "";
  labels = ("host", "db") ∷ [];
}

abbrev by_host : Mapping
by_host = record {
  entries = [];
  default_component_ids = "a" ∷ "a" ∷ [];
  match_label = "host";
  default_impact = major;
}

abbrev pager : Integration
pager = record { id = 5; status_page_id = 1 }

abbrev paged : Outside
paged = record quiet { uuid_parse = λ s. some 10 }

abbrev seen : World
seen = (ingest_alert paged pager by_host (10 ∷ []) disk_full site).1

again_example : ingest_alert paged pager by_host (10 ∷ []) disk_full seen ≡ (none, seen)
unfolding ingest_alert healthpage.Store.Incidents.open_incident_by_dedup
    healthpage.Store.Queries.find_open_by_dedup healthpage.Store.Queries.first_where
    healthpage.Api.Ingest.create_webhook_incident healthpage.Store.Incidents.create_incident
    healthpage.Store.Incidents.create_incident_tx healthpage.Store.Queries.insert_incident
    healthpage.Prelude.any healthpage.Store.Incidents.add_components
    healthpage.Api.Ingest.alert_components healthpage.Prelude.keep resolve
    healthpage.Store.Queries.add_incident_component healthpage.Store.Queries.add_incident_update_row
    healthpage.Store.Recompute.recompute_component_statuses_tx
    healthpage.Store.Queries.find_component healthpage.Derive.derived_component_status
    healthpage.Incident.is_active healthpage.Store.Queries.list_active_incident_components
    healthpage.Status.worst_status healthpage.Maintenance.imposed_component_status
    healthpage.Store.Queries.list_active_maintenance_component_ids healthpage.Webhook.impact_of
    healthpage.Store.Incidents.incident_by_id healthpage.Store.Queries.find_incident
again_example = ingest_alert-again paged pager by_host (10 ∷ []) disk_full site seen refl refl

abbrev parse_ten : String → Option Uuid
parse_ten s = some 10

resolve_example :
    NoDuplicate (resolve parse_ten by_host disk_full)
    × ((id : Uuid)
        → any (λ k. k == id) (resolve parse_ten by_host disk_full)
          ≡ any (λ (s : String). 10 == id) (raw_components by_host disk_full))
resolve_example = let r = resolve_lem parse_ten by_host disk_full in (r.0, r.1)
