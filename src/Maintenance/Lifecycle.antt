-- ===== src/Maintenance/Lifecycle.antt =====
-- The life cycle of planned works (backend/internal/domain/maintenance.go): the actual start and
-- end over any history of status changes.
use healthpage.Prelude.{
  ◌≤◌, ◌<◌, ◌≡◌, refl, ◌↔◌, true, Option, none, some, List, [], ◌∷◌, arith, if◌then◌else◌, is_some,
  nat_comparable, string_comparable,
}
use healthpage.Status.{under_maintenance}
use healthpage.Page.{Time}
use healthpage.Maintenance.{
  set_once, status_in_progress, MaintenanceStatus, scheduled, in_progress, completed, other,
  Maintenance, is_valid, imposed_component_status, apply_status_change, validate_schedule,
  invalid_schedule,
}

-- What the stamps say at each stage.
abbrev pub StampsFit : MaintenanceStatus → Maintenance → Type 0
StampsFit scheduled m = (m.started_at ≡ none) × (m.completed_at ≡ none)
StampsFit in_progress m = (is_some m.started_at ≡ true) × (m.completed_at ≡ none)
StampsFit completed m = is_some m.completed_at ≡ true
StampsFit (other _) m = ⊥

abbrev pub NotAfter : Option Time → Time → Type 0
NotAfter none now = Unit
NotAfter (some t) now = t ≤ now

abbrev pub Ordered : Option Time → Option Time → Type 0
Ordered (some s) (some c) = s ≤ c
Ordered _ _ = Unit

-- At time `now` the stamps fit the stage, lie in the past, and the start is not after the end.
pub record IsStamped (now : Time) (m : Maintenance) : Type 0 where
  pub stamps : StampsFit m.status m
  pub started : NotAfter m.started_at now
  pub finished : NotAfter m.completed_at now
  pub ordered : Ordered m.started_at m.completed_at

NotAfter-later : (o : Option Time) {now at : Time} → now ≤ at → NotAfter o now → NotAfter o at
NotAfter-later none le h = tt
NotAfter-later (some t) le h = omega arith

set_once-NotAfter :
    (o : Option Time) {now at : Time} → now ≤ at → NotAfter o now → NotAfter (set_once o at) at
set_once-NotAfter none le h = omega arith
set_once-NotAfter (some t) le h = omega arith

set_once-is_some : (o : Option Time) (at : Time) → is_some (set_once o at) ≡ true
set_once-is_some none at = refl
set_once-is_some (some t) at = refl

set_once-Ordered :
    (s c : Option Time) {now at : Time}
    → now ≤ at
    → NotAfter s now
    → Ordered s c
    → Ordered s (set_once c at)
set_once-Ordered none none le h o = tt
set_once-Ordered none (some c) le h o = tt
set_once-Ordered (some s) none le h o = omega arith
set_once-Ordered (some s) (some c) le h o = o

Ordered-none : (s : Option Time) → Ordered s none
Ordered-none none = tt
Ordered-none (some s) = tt

-- A change at a time that is not before `now` keeps the invariant.
pub apply_status_change-IsStamped :
    (now at : Time) (s : MaintenanceStatus) (m : Maintenance)
    → now ≤ at
    → IsStamped now m
    → IsStamped at (apply_status_change s at m).0
unfolding apply_status_change is_valid
apply_status_change-IsStamped now at scheduled m le h = record {
  stamps = (refl, refl);
  started = tt;
  finished = tt;
  ordered = tt;
}
apply_status_change-IsStamped now at in_progress m le h = record {
  stamps = (set_once-is_some m.started_at at, refl);
  started = set_once-NotAfter m.started_at le h.started;
  finished = tt;
  ordered = Ordered-none (set_once m.started_at at);
}
apply_status_change-IsStamped now at completed m le h = record {
  stamps = set_once-is_some m.completed_at at;
  started = NotAfter-later m.started_at le h.started;
  finished = set_once-NotAfter m.completed_at le h.finished;
  ordered = set_once-Ordered m.started_at m.completed_at le h.started h.ordered;
}
apply_status_change-IsStamped now at (other x) m le h = record {
  stamps = h.stamps;
  started = NotAfter-later m.started_at le h.started;
  finished = NotAfter-later m.completed_at le h.finished;
  ordered = h.ordered;
}

-- A history of attempted changes, the latest first, and its time.
abbrev pub History : Type 0
History = List (MaintenanceStatus × Time)

pub replay : History → Maintenance → Maintenance
replay [] m = m
replay ((s, at) ∷ older) m = (apply_status_change s at (replay older m)).0

abbrev pub latest : History → Time → Time
latest [] now = now
latest ((_, at) ∷ _) now = at

abbrev pub InOrder : History → Time → Type 0
InOrder [] now = Unit
InOrder ((_, at) ∷ older) now = (latest older now ≤ at) × InOrder older now

-- After any history of changes, accepted or refused, at times that do not run backwards, the
-- stamps fit the stage of the works, none lies in the future, and the start is not after the end.
pub replay-IsStamped :
    (h : History) (now : Time) (m : Maintenance)
    → InOrder h now
    → IsStamped now m
    → IsStamped (latest h now) (replay h m)
unfolding replay
replay-IsStamped [] now m o c = c
replay-IsStamped ((s, at) ∷ older) now m o c =
    apply_status_change-IsStamped (latest older now) at s (replay older m) o.0
      (replay-IsStamped older now m o.1 c)

-- Works impose `under_maintenance` exactly from an accepted change to in_progress until an
-- accepted change to another stage.
pub imposed-apply_status_change :
    (s : MaintenanceStatus) (at : Time) (m : Maintenance)
    → imposed_component_status (apply_status_change s at m).0 ≡ (
        if is_valid s
        then (if status_in_progress s then some under_maintenance else none)
        else imposed_component_status m)
unfolding imposed_component_status apply_status_change is_valid
imposed-apply_status_change s at m = ground arith

-- A schedule is taken exactly when it ends strictly after it begins.
pub validate_schedule_iff :
    (m : Maintenance)
    → ((validate_schedule m ≡ none) ↔ (m.scheduled_start < m.scheduled_end))
      × ((validate_schedule m ≡ some invalid_schedule) ↔ (m.scheduled_end ≤ m.scheduled_start))
unfolding validate_schedule
validate_schedule_iff m =
    ((λ h. ground arith, λ h. ground arith), (λ h. ground arith, λ h. ground arith))
