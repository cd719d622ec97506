-- ===== src/Api/Incidents/Refusals.antt =====
-- Refused requests on incidents change nothing (backend/internal/api/incidents.go).
use healthpage.Prelude.{
  String, ◌≡◌, refl, inl, Bool, true, Option, nat_comparable, string_comparable,
}
use healthpage.Incident.{Incident, IncidentUpdate}
use healthpage.Store.{Db, Result, StoreError, ok, err}
use healthpage.Store.Incidents.{
  create_incident, update_incident, soft_delete_incident, add_incident_update,
}
use healthpage.Store.Incidents.Atomic.{
  create_incident-err, update_incident-err, soft_delete_incident-err, add_incident_update-err,
}
use healthpage.Api.{Principal, World, Outside, bool_or, answered}
use healthpage.Store.Incidents.Commit.{RolledBackOrLost}
use healthpage.Api.Answers.{kept_or_lost, KeepsOnRefusal, answer_refused, handled_refused}
use healthpage.Api.Incidents.{
  CreateIncident, PatchIncident, AddIncidentUpdate, reported_incident, announce_report,
  handle_create_incident, patched_incident, handle_patch_incident, authorized_incident,
  handle_delete_incident, checked_update, announce_update, handle_add_incident_update,
}

report_refused :
    (o : Outside) (body : String) (notify : Bool) (w : World) (out : Result Incident × Db)
    → ((e : StoreError) (db' : Db) → out ≡ (err e, db') → RolledBackOrLost w.db e db')
    → KeepsOnRefusal w (announce_report o body notify w out)
report_refused o body notify w (err e, db') atomic r h = kept_or_lost w e db' (atomic e db' refl)
report_refused o body notify w (ok m, db') atomic r h = cc

update_refused :
    (o : Outside) (notify : Bool) (w : World) (out : Result (IncidentUpdate × Incident) × Db)
    → ((e : StoreError) (db' : Db) → out ≡ (err e, db') → RolledBackOrLost w.db e db')
    → KeepsOnRefusal w (announce_update o notify w out)
update_refused o notify w (err e, db') atomic r h = kept_or_lost w e db' (atomic e db' refl)
update_refused o notify w (ok (u, inc), db') atomic r h = cc

pub incident_requests-KeepsOnRefusal :
    (o : Outside) (principal : Option Principal) (raw_id : String) (w : World)
    → ((body : Option CreateIncident)
        → KeepsOnRefusal w (handle_create_incident o principal body w))
      × ((body : Option PatchIncident)
          → KeepsOnRefusal w (handle_patch_incident o principal raw_id body w))
      × KeepsOnRefusal w (handle_delete_incident o principal raw_id w)
      × ((body : Option AddIncidentUpdate)
          → KeepsOnRefusal w (handle_add_incident_update o principal raw_id body w))
unfolding handle_create_incident handle_patch_incident handle_delete_incident
    handle_add_incident_update
incident_requests-KeepsOnRefusal o principal raw_id w = (
  λ body.
      handled_refused w (reported_incident o principal body w)
        (λ (inc, req).
          announce_report o req.body (bool_or req.notify true) w
            (create_incident inc req.body (bool_or req.notify true) w.db))
        (λ (inc, req).
          report_refused o req.body (bool_or req.notify true) w
            (create_incident inc req.body (bool_or req.notify true) w.db)
            (λ e db'. create_incident-err inc req.body (bool_or req.notify true) w.db e db')),
  λ body.
      handled_refused w (patched_incident o principal raw_id body w)
        (λ p. answered w (update_incident p.after p.replaces w.db))
        (λ p.
          answer_refused w (update_incident p.after p.replaces w.db)
            (λ e db'. update_incident-err p.after p.replaces w.db e db')),
  handled_refused w (authorized_incident o principal raw_id w)
      (λ (id, _). answered w (soft_delete_incident id w.db))
      (λ (id, _).
        answer_refused w (soft_delete_incident id w.db)
          (λ e db' k. inl (soft_delete_incident-err id w.db e db' k))),
  λ body.
      handled_refused w (checked_update o principal raw_id body w)
        (λ (id, req).
          announce_update o (bool_or req.notify true) w
            (add_incident_update id req.status req.body (bool_or req.notify true) w.db.now w.db))
        (λ (id, req).
          update_refused o (bool_or req.notify true) w
            (add_incident_update id req.status req.body (bool_or req.notify true) w.db.now w.db)
            (λ e db'.
              add_incident_update-err id req.status req.body (bool_or req.notify true) w.db.now w.db
                e db')),
)
