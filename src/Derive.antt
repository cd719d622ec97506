-- ===== src/Derive.antt =====
-- backend/internal/domain/derive.go: the status that active incidents and works impose on a
-- component.
pub mod Sources
pub mod Laws
use healthpage.Prelude.{
  ◌+◌, ◌-◌, ap, Bool, true, false, not, ◌||◌, Option, none, some, List, [], ◌∷◌, ◌++◌, map,
  if◌then◌else◌, is_some, pos, ◌==◌, nat_comparable, string_comparable, keep, any,
}
use healthpage.Status.{ComponentStatus, operational, worst_status}
use healthpage.Page.{Uuid}
use healthpage.Incident.{IncidentComponent, Incident}
use healthpage.Incident
use healthpage.Maintenance.{Maintenance, imposed_component_status}

-- the inner loop over `inc.Components`
unfoldable pub statuses_for : Uuid → List IncidentComponent → List ComponentStatus
statuses_for id ics =
    map (λ ic. ic.component_status_in_incident) (keep (λ ic. ic.component_id == id) ics)

-- one round of the loop over the incidents; `[]` is `continue`
unfoldable pub imposed_by_incident : Uuid → Incident → List ComponentStatus
unfolding statuses_for
imposed_by_incident id inc =
    if is_some inc.deleted_at || not (Incident.is_active inc)
    then []
    else statuses_for id inc.components

pub imposed_by_incidents : Uuid → List Incident → List ComponentStatus
imposed_by_incidents id [] = []
imposed_by_incidents id (inc ∷ rest) = imposed_by_incident id inc ++ imposed_by_incidents id rest

-- the inner loop over `m.ComponentIDs`, which stops at the first hit
unfoldable pub imposed_on : Uuid → List Uuid → Option ComponentStatus → List ComponentStatus
imposed_on id ids none = []
imposed_on id ids (some ms) = if any (λ cid. cid == id) ids then ms ∷ [] else []

-- one round of the loop over the works
unfoldable pub imposed_by_maintenance : Uuid → Maintenance → List ComponentStatus
unfolding imposed_on
imposed_by_maintenance id m =
    if is_some m.deleted_at then [] else imposed_on id m.component_ids (imposed_component_status m)

pub imposed_by_maintenances : Uuid → List Maintenance → List ComponentStatus
imposed_by_maintenances id [] = []
imposed_by_maintenances id (m ∷ rest) =
    imposed_by_maintenance id m ++ imposed_by_maintenances id rest

-- the `imposed` slice when both loops are done
pub imposed : Uuid → List Incident → List Maintenance → List ComponentStatus
imposed id incidents maintenances =
    imposed_by_incidents id incidents ++ imposed_by_maintenances id maintenances

-- the two returns
abbrev pub conclude : List ComponentStatus → ComponentStatus × Bool
conclude [] = (operational, false)
conclude (s ∷ rest) = (worst_status (s ∷ rest), true)

-- DerivedComponentStatus
unfoldable pub derived_component_status :
    Uuid → List Incident → List Maintenance → ComponentStatus × Bool
unfolding imposed imposed_by_incidents imposed_by_maintenances imposed_by_incident
    imposed_by_maintenance
derived_component_status id incidents maintenances = conclude (imposed id incidents maintenances)
