-- ===== src/Api/Maintenances/Announcements.antt =====
-- Which changes of works are announced (handlePatchMaintenance and maintenanceTransitionEvent of
-- backend/internal/api/maintenances.go).
use healthpage.Prelude.{
  String, ◌≡◌, refl, sym, ap, ◌∙◌, subst, ◌≢◌, ◌↔◌, true, Option, none, some, arith, eq_iff,
  nat_comparable, string_comparable,
}
use healthpage.Maintenance.{
  Maintenance, MaintenanceStatus, scheduled, in_progress, completed, other,
}
use healthpage.Store.{Db, Result, ok, err}
use healthpage.Store.Maintenances.{update_maintenance, hydrate_maintenance}
use healthpage.Store.Maintenances.Atomic.{update_maintenance-ok}
use healthpage.Notify.{
  State, EventType, maintenance_started, maintenance_completed, maintenance_event,
}
use healthpage.Api.{Answer, refused, granted, Principal, World, Outside, emit_notify}
use healthpage.Api.Maintenances.{
  PatchMaintenance, Patched, patched_maintenance, announce_change, handle_patch_maintenance,
  status_equal, maintenance_transition_event,
}

status_equal_iff : (a b : MaintenanceStatus) → (status_equal a b ≡ true) ↔ (a ≡ b)
unfolding status_equal
status_equal_iff scheduled scheduled = (λ _. refl, λ _. refl)
status_equal_iff scheduled in_progress = (λ h. cc, λ h. cc)
status_equal_iff scheduled completed = (λ h. cc, λ h. cc)
status_equal_iff scheduled (other s) = (λ h. cc, λ h. cc)
status_equal_iff in_progress scheduled = (λ h. cc, λ h. cc)
status_equal_iff in_progress in_progress = (λ _. refl, λ _. refl)
status_equal_iff in_progress completed = (λ h. cc, λ h. cc)
status_equal_iff in_progress (other s) = (λ h. cc, λ h. cc)
status_equal_iff completed scheduled = (λ h. cc, λ h. cc)
status_equal_iff completed in_progress = (λ h. cc, λ h. cc)
status_equal_iff completed completed = (λ _. refl, λ _. refl)
status_equal_iff completed (other s) = (λ h. cc, λ h. cc)
status_equal_iff (other s) scheduled = (λ h. cc, λ h. cc)
status_equal_iff (other s) in_progress = (λ h. cc, λ h. cc)
status_equal_iff (other s) completed = (λ h. cc, λ h. cc)
status_equal_iff (other s) (other t) =
    (λ h. ground (arith, h, eq_iff s t), λ h. ground (arith, h, eq_iff s t))

-- what has been announced after an event, where there is a notifier
abbrev pub announced : Outside → Maintenance → EventType → State → State
announced o m event sent = elim o.notifier [
  | none ↦ sent
  | some env ↦ (maintenance_event env m event sent).1
]

-- the announcements that a change of stage calls for
abbrev pub CallsFor :
    Outside → Maintenance → MaintenanceStatus → MaintenanceStatus → State → State → Type 0
CallsFor o m from to sent sent' =
    (from ≡ to → sent' ≡ sent)
    × (from ≢ to → to ≡ in_progress → sent' ≡ announced o m maintenance_started sent)
    × (from ≢ to → to ≡ completed → sent' ≡ announced o m maintenance_completed sent)
    × (to ≡ scheduled → sent' ≡ sent)

sent_after : Outside → Maintenance → MaintenanceStatus → World → World
sent_after o m prev w = elim (maintenance_transition_event prev m.status) [
  | none ↦ w
  | some event ↦ emit_notify o (λ env. maintenance_event env m event) w
]

transition_calls :
    (o : Outside) (m : Maintenance) (prev : MaintenanceStatus) (w : World)
    → CallsFor o m prev m.status w.sent (sent_after o m prev w).sent
unfolding sent_after maintenance_transition_event emit_notify
transition_calls o m prev w = (
  λ e. ground (arith, e, status_equal_iff prev m.status),
  λ n e. ground (arith, n, e, status_equal_iff prev m.status),
  λ n e. ground (arith, n, e, status_equal_iff prev m.status),
  λ e. ground (arith, e, status_equal_iff prev m.status),
)

-- A patch that is granted leaves the works in the stage that passed the checks. It announces the
-- start of the works exactly when they come into the stage in_progress from another one, their end
-- when they come into completed from another one, and nothing when the stage stays or becomes
-- scheduled; without a notifier nothing is announced.
pub handle_patch_maintenance-announces :
    (o : Outside) (principal : Option Principal) (raw_id : String) (body : Option PatchMaintenance)
    (w w' : World) (p : Patched) (updated : Maintenance)
    → patched_maintenance o principal raw_id body w ≡ granted p
    → handle_patch_maintenance o principal raw_id body w ≡ (granted updated, w')
    → (updated.status ≡ p.after.status)
      × CallsFor o updated p.before.status updated.status w.sent w'.sent
unfolding handle_patch_maintenance hydrate_maintenance sent_after
handle_patch_maintenance-announces o principal raw_id body w w' p updated checks h =
    go (update_maintenance p.after p.replaces w.db) refl (ground (arith, checks, h))
  where
    go :
        (out : Result Maintenance × Db)
        → update_maintenance p.after p.replaces w.db ≡ out
        → announce_change o p.before.status w out ≡ (granted updated, w')
        → (updated.status ≡ p.after.status)
          × CallsFor o updated p.before.status updated.status w.sent w'.sent
    go (err e, db') k r = cc
    go (ok full, db') k r =
        let (old, _, fields) = update_maintenance-ok p.after p.replaces w.db full db' k in
        let same : full ≡ updated =
          ap (λ (x : Answer Maintenance × World). elim x.0 [ granted y ↦ y | refused _ ↦ full ])
            r in
        let stored = record w { db = db' } in
        let world : sent_after o full p.before.status stored ≡ w' =
          ap (λ (x : Answer Maintenance × World). x.1) r in
        (
          ap (λ (x : Maintenance). x.status) (sym same ∙ fields),
          subst (λ (x : World). CallsFor o updated p.before.status updated.status w.sent x.sent)
              world
              (subst
                (λ (x : Maintenance).
                  CallsFor o x p.before.status x.status w.sent
                    (sent_after o full p.before.status stored).sent)
                same (transition_calls o full p.before.status stored)),
        )
