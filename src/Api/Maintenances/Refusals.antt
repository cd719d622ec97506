-- ===== src/Api/Maintenances/Refusals.antt =====
-- Refused requests on works change nothing (backend/internal/api/maintenances.go).
use healthpage.Prelude.{
  String, ◌≡◌, refl, inl, Bool, true, Option, nat_comparable, string_comparable,
}
use healthpage.Maintenance.{Maintenance, MaintenanceStatus}
use healthpage.Store.{Db, Result, StoreError, ok, err}
use healthpage.Store.Maintenances.{
  create_maintenance, update_maintenance, soft_delete_maintenance, add_maintenance_update,
}
use healthpage.Store.Maintenances.Atomic.{
  create_maintenance-err, update_maintenance-err, soft_delete_maintenance-err,
  add_maintenance_update-err,
}
use healthpage.Api.{Principal, World, Outside, bool_or, answered}
use healthpage.Store.Incidents.Commit.{RolledBackOrLost}
use healthpage.Api.Answers.{kept_or_lost, KeepsOnRefusal, answer_refused, handled_refused}
use healthpage.Api.Maintenances.{
  CreateMaintenance, PatchMaintenance, AddMaintenanceUpdate, planned_maintenance, announce_plan,
  handle_create_maintenance, patched_maintenance, announce_change, handle_patch_maintenance,
  authorized_maintenance, handle_delete_maintenance, checked_update, handle_add_maintenance_update,
}

plan_refused :
    (o : Outside) (notify : Bool) (w : World) (out : Result Maintenance × Db)
    → ((e : StoreError) (db' : Db) → out ≡ (err e, db') → RolledBackOrLost w.db e db')
    → KeepsOnRefusal w (announce_plan o notify w out)
plan_refused o notify w (err e, db') atomic r h = kept_or_lost w e db' (atomic e db' refl)
plan_refused o notify w (ok m, db') atomic r h = cc

change_refused :
    (o : Outside) (prev : MaintenanceStatus) (w : World) (out : Result Maintenance × Db)
    → ((e : StoreError) (db' : Db) → out ≡ (err e, db') → RolledBackOrLost w.db e db')
    → KeepsOnRefusal w (announce_change o prev w out)
change_refused o prev w (err e, db') atomic r h = kept_or_lost w e db' (atomic e db' refl)
change_refused o prev w (ok m, db') atomic r h = cc

pub maintenance_requests-KeepsOnRefusal :
    (o : Outside) (principal : Option Principal) (raw_id : String) (w : World)
    → ((body : Option CreateMaintenance)
        → KeepsOnRefusal w (handle_create_maintenance o principal body w))
      × ((body : Option PatchMaintenance)
          → KeepsOnRefusal w (handle_patch_maintenance o principal raw_id body w))
      × KeepsOnRefusal w (handle_delete_maintenance o principal raw_id w)
      × ((body : Option AddMaintenanceUpdate)
          → KeepsOnRefusal w (handle_add_maintenance_update o principal raw_id body w))
unfolding handle_create_maintenance handle_patch_maintenance handle_delete_maintenance
    handle_add_maintenance_update
maintenance_requests-KeepsOnRefusal o principal raw_id w = (
  λ body.
      handled_refused w (planned_maintenance o principal body w)
        (λ (m, req). announce_plan o (bool_or req.notify true) w (create_maintenance m w.db))
        (λ (m, req).
          plan_refused o (bool_or req.notify true) w (create_maintenance m w.db)
            (λ e db'. create_maintenance-err m w.db e db')),
  λ body.
      handled_refused w (patched_maintenance o principal raw_id body w)
        (λ p. announce_change o p.before.status w (update_maintenance p.after p.replaces w.db))
        (λ p.
          change_refused o p.before.status w (update_maintenance p.after p.replaces w.db)
            (λ e db'. update_maintenance-err p.after p.replaces w.db e db')),
  handled_refused w (authorized_maintenance o principal raw_id w)
      (λ (id, _). answered w (soft_delete_maintenance id w.db))
      (λ (id, _).
        answer_refused w (soft_delete_maintenance id w.db)
          (λ e db' k. inl (soft_delete_maintenance-err id w.db e db' k))),
  λ body.
      handled_refused w (checked_update o principal raw_id body w)
        (λ (id, req).
          answered w (add_maintenance_update id req.body (bool_or req.notify true) w.db))
        (λ (id, req).
          answer_refused w (add_maintenance_update id req.body (bool_or req.notify true) w.db)
            (λ e db'. add_maintenance_update-err id req.body (bool_or req.notify true) w.db e db')),
)
