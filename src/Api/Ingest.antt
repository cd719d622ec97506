-- ===== src/Api/Ingest.antt =====
-- backend/internal/api/integrations.go: alerts of other services become incidents and end them.
pub mod Once
use healthpage.Prelude.{
  ◌-◌, String, ap, true, not, ◌&&◌, Option, none, some, List, [], ◌∷◌, map, if◌then◌else◌, is_some,
  pos, ◌==◌, nat_comparable, string_comparable, keep, any,
}
use healthpage.Status.{ComponentStatus, major_outage, partial_outage, degraded_performance}
use healthpage.Page.{Uuid, Time, Component}
use healthpage.Incident.{
  Incident, IncidentImpact, IncidentComponent, IncidentUpdate, critical, major, other,
  investigating, resolved, apply_status_change, Error,
}
use healthpage.Store.{Db, StoreError, Result, ok, err, not_found, dedup_conflict, invalid_status}
use healthpage.Store.Incidents.{open_incident_by_dedup, create_incident, add_incident_update}
use healthpage.Notify.{incident_created, incident_updated}
use healthpage.Webhook.{Alert, Mapping, impact_of, resolve}
use healthpage.Api.{World, Outside, emit_notify}
use healthpage.Api.Incidents.{reported}

-- the fields of domain.WebhookIntegration that are read here
pub record Integration : Type 0 where
  pub id : Uuid
  pub status_page_id : Uuid

-- componentStatusForImpact
unfoldable pub component_status_for_impact : IncidentImpact → ComponentStatus
component_status_for_impact impact = elim impact [
  | critical ↦ major_outage
  | major ↦ partial_outage
  | _ ↦ degraded_performance
]

-- pageComponentSet, by way of ListComponentsByPage
unfoldable pub page_component_set : Uuid → Db → List Uuid
page_component_set page_id db =
    map (λ c. c.id)
      (keep (λ c. c.status_page_id == page_id && not (is_some c.deleted_at)) db.components)

-- the components of the mapping that are on the page, with the status for the impact
unfoldable pub alert_components : Outside → Mapping → List Uuid → Alert → List IncidentComponent
unfolding component_status_for_impact
alert_components o mapping on_page a =
    map (λ cid. reported cid (component_status_for_impact (impact_of mapping)))
      (keep (λ cid. any (λ k. k == cid) on_page) (resolve o.uuid_parse mapping a))

-- the incident of an alert, before its status is set
abbrev pub alert_incident :
    Integration → IncidentImpact → Time → Alert → List IncidentComponent → Incident
alert_incident integration impact now a comps = record {
  id = 0;
  status_page_id = integration.status_page_id;
  title = a.title;
  current_status = other "";
  impact = impact;
  started_at = now;
  resolved_at = none;
  postmortem = none;
  is_visible = true;
  created_at = 0;
  updated_at = 0;
  deleted_at = none;
  integration_id = some integration.id;
  external_dedup_key = some a.dedup_key;
  components = comps;
  updates = [];
}

-- the result, once the incident is stored; a conflict on the key is passed over
abbrev pub announce_alert :
    Outside → String → World → Result Incident × Db → Option StoreError × World
announce_alert o body w (err dedup_conflict, db') = (none, record w { db = db' })
announce_alert o body w (err e, db') = (some e, record w { db = db' })
announce_alert o body w (ok created, db') =
    (none, emit_notify o (λ env. incident_created env created body) (record w { db = db' }))

-- what follows ApplyStatusChange in createWebhookIncident
abbrev pub store_alert :
    Outside → String → World → Incident × Option Error → Option StoreError × World
store_alert o body w (inc, some _) = (some (invalid_status investigating), w)
store_alert o body w (inc, none) = announce_alert o body w (create_incident inc body true w.db)

-- createWebhookIncident
unfoldable pub create_webhook_incident :
    Outside → Integration → Mapping → List Uuid → Alert → World → Option StoreError × World
unfolding apply_status_change
create_webhook_incident o integration mapping on_page a w = store_alert o a.body w (
    apply_status_change investigating w.db.now (
      alert_incident integration (impact_of mapping) w.db.now a
        (alert_components o mapping on_page a)))

abbrev pub announce_end :
    Outside → World → Result (IncidentUpdate × Incident) × Db → Option StoreError × World
announce_end o w (err e, db') = (some e, record w { db = db' })
announce_end o w (ok (upd, updated), db') =
    (none, emit_notify o (λ env. incident_updated env updated upd) (record w { db = db' }))

-- ingestAlert; `none` is the nil error
unfoldable pub ingest_alert :
    Outside → Integration → Mapping → List Uuid → Alert → World → Option StoreError × World
ingest_alert o integration mapping on_page a w =
    if a.dedup_key == ""
    then (none, w)
    else elim (open_incident_by_dedup integration.status_page_id a.dedup_key w.db) [
      | ok existing ↦
          if a.firing
          then (none, w)
          else announce_end o w (add_incident_update existing.id resolved a.body true w.db.now w.db)
      | err not_found ↦
          if not a.firing
          then (none, w)
          else create_webhook_incident o integration mapping on_page a w
      | err e ↦ (some e, w)
    ]

-- `if err := …; err != nil { return err }` in the loop over the alerts
abbrev pub go_on :
    Option StoreError × World → (World → Option StoreError × World) → Option StoreError × World
go_on (some e, w) rest = (some e, w)
go_on (none, w) rest = rest w

-- the loop over the alerts of a request, which ends at the first error
unfoldable pub ingest_alerts :
    Outside → Integration → Mapping → List Uuid → List Alert → World → Option StoreError × World
unfolding ingest_alert
ingest_alerts o integration mapping on_page [] w = (none, w)
ingest_alerts o integration mapping on_page (a ∷ rest) w =
    go_on (ingest_alert o integration mapping on_page a w)
      (ingest_alerts o integration mapping on_page rest)
