-- ===== src/Tests/Data.antt =====
-- A small page: two components, an open incident, works under way, and a subscriber.
use healthpage.Prelude.{true, false, none, some, [], ◌∷◌, pos, nat_comparable, string_comparable}
use healthpage.Status.{operational, partial_outage}
use healthpage.Page.{ComponentGroup, Component}
use healthpage.Incident.{Incident, IncidentComponent, investigating, minor}
use healthpage.Maintenance.{Maintenance, scheduled}
use healthpage.Store.{Db}
use healthpage.Subscriber.{Subscriber, components, telegram}

abbrev pub api_group : ComponentGroup
api_group = record {
  id = 30;
  status_page_id = 1;
  name = "core";
  position = pos 0;
  created_at = 0;
  updated_at = 0;
  deleted_at = none;
}

abbrev pub api_component : Component
api_component = record {
  id = 10;
  status_page_id = 1;
  group_id = some 30;
  parent_id = none;
  name = "api";
  description = "";
  position = pos 0;
  current_status = partial_outage;
  is_private = false;
  show_uptime = true;
  display_state = true;
  created_at = 0;
  updated_at = 0;
  deleted_at = none;
}

abbrev pub web_component : Component
web_component = record api_component {
  id = 11;
  group_id = none;
  name = "web";
  current_status = operational;
}

abbrev pub api_link : IncidentComponent
api_link = record {
  id = 41;
  incident_id = 40;
  component_id = 10;
  component_status_in_incident = partial_outage;
  created_at = 5;
  updated_at = 5;
}

abbrev pub open_row : Incident
open_row = record {
  id = 40;
  status_page_id = 1;
  title = "down";
  current_status = investigating;
  impact = minor;
  started_at = 5;
  resolved_at = none;
  postmortem = none;
  is_visible = true;
  created_at = 5;
  updated_at = 5;
  deleted_at = none;
  integration_id = none;
  external_dedup_key = none;
  components = [];
  updates = [];
}

abbrev pub open_incident : Incident
open_incident = record open_row { components = api_link ∷ [] }

abbrev pub planned_works : Maintenance
planned_works = record {
  id = 50;
  status_page_id = 1;
  title = "upgrade";
  description = "";
  status = scheduled;
  scheduled_start = 20;
  scheduled_end = 30;
  started_at = none;
  completed_at = none;
  created_at = 6;
  updated_at = 6;
  deleted_at = none;
  component_ids = 11 ∷ [];
  updates = [];
}

abbrev pub page_db : Db
page_db = record {
  components = api_component ∷ web_component ∷ [];
  history = [];
  incidents = open_row ∷ [];
  incident_components = api_link ∷ [];
  incident_updates = [];
  reads_fail = false;
  maintenances = [];
  maintenance_components = [];
  maintenance_updates = [];
  next_id = 100;
  now = 60;
}

abbrev pub chat : Subscriber
chat = record {
  id = 70;
  status_page_id = 1;
  channel = telegram;
  address = "123";
  confirmed = true;
  confirm_token = none;
  unsubscribe_token = none;
  scope = components;
  component_ids = 10 ∷ [];
  created_at = 1;
  updated_at = 1;
}
