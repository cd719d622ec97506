-- ===== src/Derive/Sources.antt =====
-- What is imposed on a component, and that the slice which `DerivedComponentStatus`
-- (backend/internal/domain/derive.go) collects holds exactly that.
use healthpage.Prelude.{
  ◌≡◌, refl, sym, ap, subst, ◌↔◌, ◌⊎◌, inl, inr, Bool, true, false, not, ◌||◌, Option, none, some,
  List, [], ◌∷◌, ◌++◌, Memᴰ, arith, if◌then◌else◌, is_some, ◌==◌, nat_equal_iff, nat_comparable,
  string_comparable, keep, any, equal_self, mem-keep, keep-mem, keep-mem_holds, mem-map, map-mem,
  append-mem, mem-append_left, mem-append_right, any-mem, mem-any,
}
use healthpage.Status.{ComponentStatus, under_maintenance}
use healthpage.Page.{Uuid}
use healthpage.Incident.{IncidentComponent, Incident}
use healthpage.Incident
use healthpage.Maintenance.{Maintenance, imposed_component_status}
use healthpage.Maintenance
use healthpage.Derive.{
  statuses_for, imposed_by_incident, imposed_by_incidents, imposed_on, imposed_by_maintenance,
  imposed_by_maintenances, imposed,
}

-- An active incident that is not deleted imposes the status that it reports for the component;
-- works that are under way and not deleted impose `under_maintenance` on theirs.
pub data Imposes (id : Uuid) (incidents : List Incident) (maintenances : List Maintenance)
    (s : ComponentStatus) : Type 0 where
  by_incident :
      (inc : Incident) (ic : IncidentComponent)
      → Memᴰ inc incidents
      → inc.deleted_at ≡ none
      → Incident.is_active inc ≡ true
      → Memᴰ ic inc.components
      → ic.component_id ≡ id
      → s ≡ ic.component_status_in_incident
      → Imposes id incidents maintenances s
  by_maintenance :
      (m : Maintenance)
      → Memᴰ m maintenances
      → m.deleted_at ≡ none
      → Maintenance.is_active m ≡ true
      → Memᴰ id m.component_ids
      → s ≡ under_maintenance
      → Imposes id incidents maintenances s

is_some-false {ℓ} : {A : Type ℓ} (o : Option A) → is_some o ≡ false → o ≡ none
is_some-false o h = ground arith

-- What one incident contributes.
pub record FromIncident (id : Uuid) (inc : Incident) (s : ComponentStatus) : Type 0 where
  pub ic : IncidentComponent
  pub alive : inc.deleted_at ≡ none
  pub active : Incident.is_active inc ≡ true
  pub listed : Memᴰ ic inc.components
  pub for_id : ic.component_id ≡ id
  pub status : s ≡ ic.component_status_in_incident

imposed_by_incident_sound :
    (id : Uuid) (inc : Incident) (s : ComponentStatus)
    → Memᴰ s (imposed_by_incident id inc)
    → FromIncident id inc s
unfolding imposed_by_incident
imposed_by_incident_sound id inc s m =
    go (is_some inc.deleted_at) refl (Incident.is_active inc) refl m
  where
    go :
        (d : Bool)
        → is_some inc.deleted_at ≡ d
        → (a : Bool) → Incident.is_active inc ≡ a
        → Memᴰ s (if d || not a then [] else statuses_for id inc.components)
        → FromIncident id inc s
    go true e _ f m = elim m [ ]
    go false e false f m = elim m [ ]
    go false e true f m =
        let mine = λ (ic : IncidentComponent). ic.component_id == id in
        let (ic, k, q) =
          map-mem (λ (ic : IncidentComponent). ic.component_status_in_incident)
            (keep mine inc.components) m in
        record {
          ic = ic;
          alive = is_some-false inc.deleted_at e;
          active = f;
          listed = keep-mem mine inc.components k;
          for_id = (nat_equal_iff ic.component_id id).0 (keep-mem_holds mine inc.components k);
          status = q;
        }

guard-mem {ℓ} :
    {A : Type ℓ} {x : A} {l : List A} (d a : Bool)
    → d ≡ false
    → a ≡ true
    → Memᴰ x l
    → Memᴰ x (if d || not a then [] else l)
guard-mem false true e f m = m
guard-mem true a e f m = cc
guard-mem false false e f m = cc

imposed_by_incident_complete :
    (id : Uuid) (inc : Incident) (s : ComponentStatus)
    → FromIncident id inc s
    → Memᴰ s (imposed_by_incident id inc)
unfolding imposed_by_incident
imposed_by_incident_complete id inc s r =
    let mine = λ (ic : IncidentComponent). ic.component_id == id in
    guard-mem (is_some inc.deleted_at) (Incident.is_active inc) (ap is_some r.alive) r.active (
      subst (λ x. Memᴰ x (statuses_for id inc.components)) (sym r.status)
        (unfold statuses_for in
          mem-map (λ (ic : IncidentComponent). ic.component_status_in_incident)
            (keep mine inc.components)
            (mem-keep mine inc.components r.listed
              ((nat_equal_iff r.ic.component_id id).1 r.for_id))))

imposed_by_incidents_sound :
    (id : Uuid) (l : List Incident) (s : ComponentStatus)
    → Memᴰ s (imposed_by_incidents id l)
    → (inc : Incident) × Memᴰ inc l × FromIncident id inc s
unfolding imposed_by_incidents
imposed_by_incidents_sound id [] s m = elim m [ ]
imposed_by_incidents_sound id (inc ∷ l) s m =
    go (append-mem (imposed_by_incident id inc) (imposed_by_incidents id l) m)
      (imposed_by_incidents_sound id l s)
  where
    go :
        Memᴰ s (imposed_by_incident id inc) ⊎ Memᴰ s (imposed_by_incidents id l)
        → (Memᴰ s (imposed_by_incidents id l) → (j : Incident) × Memᴰ j l × FromIncident id j s)
        → (j : Incident) × Memᴰ j (inc ∷ l) × FromIncident id j s
    go (inl k) f = (inc, Memᴰ.head refl, imposed_by_incident_sound id inc s k)
    go (inr k) f = let (j, mj, r) = f k in (j, Memᴰ.tail mj, r)

imposed_by_incidents_complete :
    (id : Uuid) (l : List Incident) (s : ComponentStatus) (inc : Incident)
    → Memᴰ inc l
    → FromIncident id inc s
    → Memᴰ s (imposed_by_incidents id l)
unfolding imposed_by_incidents
imposed_by_incidents_complete id [] s inc m r = elim m [ ]
imposed_by_incidents_complete id (j ∷ l) s inc (Memᴰ.head e) r =
    mem-append_left (imposed_by_incident id j) (imposed_by_incidents id l)
      (imposed_by_incident_complete id j s (subst (λ i. FromIncident id i s) e r))
imposed_by_incidents_complete id (j ∷ l) s inc (Memᴰ.tail m) r =
    mem-append_right (imposed_by_incident id j) (imposed_by_incidents id l)
      (imposed_by_incidents_complete id l s inc m r)

-- What one entry of the works contributes.
pub record FromMaintenance (id : Uuid) (m : Maintenance) (s : ComponentStatus) : Type 0 where
  pub alive : m.deleted_at ≡ none
  pub active : Maintenance.is_active m ≡ true
  pub listed : Memᴰ id m.component_ids
  pub status : s ≡ under_maintenance

imposed_by_maintenance_sound :
    (id : Uuid) (m : Maintenance) (s : ComponentStatus)
    → Memᴰ s (imposed_by_maintenance id m)
    → FromMaintenance id m s
unfolding imposed_by_maintenance imposed_component_status
imposed_by_maintenance_sound id m s h =
    go (is_some m.deleted_at) refl (Maintenance.is_active m) refl
      (any (λ cid. cid == id) m.component_ids) refl h
  where
    single : Memᴰ s (under_maintenance ∷ []) → s ≡ under_maintenance
    single (Memᴰ.head e) = e
    single (Memᴰ.tail k) = elim k [ ]

    go :
        (d : Bool)
        → is_some m.deleted_at ≡ d
        → (a : Bool) → Maintenance.is_active m ≡ a
        → (t : Bool) → any (λ cid. cid == id) m.component_ids ≡ t
        → Memᴰ s (
            if d
            then []
            else imposed_on id m.component_ids (if a then some under_maintenance else none))
        → FromMaintenance id m s
    go true e _ f _ g h = elim h [ ]
    go false e false f _ g h = elim h [ ]
    go false e true f false g h = elim (rw g at h) [ ]
    go false e true f true g h =
        let (x, k, q) = any-mem (λ cid. cid == id) m.component_ids g in
        record {
          alive = is_some-false m.deleted_at e;
          active = f;
          listed = subst (λ y. Memᴰ y m.component_ids) ((nat_equal_iff x id).0 q) k;
          status = single (rw g at h);
        }

imposed_on-mem :
    (id : Uuid) (ids : List Uuid) (d a : Bool) (s : ComponentStatus)
    → d ≡ false
    → a ≡ true
    → any (λ cid. cid == id) ids ≡ true
    → s ≡ under_maintenance
    → Memᴰ s (if d then [] else imposed_on id ids (if a then some under_maintenance else none))
unfolding imposed_on
imposed_on-mem id ids false true s e f g h = rw g (Memᴰ.head h)
imposed_on-mem id ids true a s e f g h = cc
imposed_on-mem id ids false false s e f g h = cc

imposed_by_maintenance_complete :
    (id : Uuid) (m : Maintenance) (s : ComponentStatus)
    → FromMaintenance id m s
    → Memᴰ s (imposed_by_maintenance id m)
unfolding imposed_by_maintenance imposed_component_status
imposed_by_maintenance_complete id m s r =
    imposed_on-mem id m.component_ids (is_some m.deleted_at) (Maintenance.is_active m) s
      (ap is_some r.alive) r.active
      (mem-any (λ cid. cid == id) m.component_ids r.listed (equal_self id)) r.status

imposed_by_maintenances_sound :
    (id : Uuid) (l : List Maintenance) (s : ComponentStatus)
    → Memᴰ s (imposed_by_maintenances id l)
    → (m : Maintenance) × Memᴰ m l × FromMaintenance id m s
unfolding imposed_by_maintenances
imposed_by_maintenances_sound id [] s h = elim h [ ]
imposed_by_maintenances_sound id (m ∷ l) s h =
    go (append-mem (imposed_by_maintenance id m) (imposed_by_maintenances id l) h)
      (imposed_by_maintenances_sound id l s)
  where
    go :
        Memᴰ s (imposed_by_maintenance id m) ⊎ Memᴰ s (imposed_by_maintenances id l)
        → (Memᴰ s (imposed_by_maintenances id l)
            → (n : Maintenance) × Memᴰ n l × FromMaintenance id n s)
        → (n : Maintenance) × Memᴰ n (m ∷ l) × FromMaintenance id n s
    go (inl k) f = (m, Memᴰ.head refl, imposed_by_maintenance_sound id m s k)
    go (inr k) f = let (n, mn, r) = f k in (n, Memᴰ.tail mn, r)

imposed_by_maintenances_complete :
    (id : Uuid) (l : List Maintenance) (s : ComponentStatus) (m : Maintenance)
    → Memᴰ m l
    → FromMaintenance id m s
    → Memᴰ s (imposed_by_maintenances id l)
unfolding imposed_by_maintenances
imposed_by_maintenances_complete id [] s m h r = elim h [ ]
imposed_by_maintenances_complete id (n ∷ l) s m (Memᴰ.head e) r =
    mem-append_left (imposed_by_maintenance id n) (imposed_by_maintenances id l)
      (imposed_by_maintenance_complete id n s (subst (λ i. FromMaintenance id i s) e r))
imposed_by_maintenances_complete id (n ∷ l) s m (Memᴰ.tail h) r =
    mem-append_right (imposed_by_maintenance id n) (imposed_by_maintenances id l)
      (imposed_by_maintenances_complete id l s m h r)

-- The collected slice holds exactly what is imposed.
pub imposed_iff :
    (id : Uuid) (incidents : List Incident) (works : List Maintenance) (s : ComponentStatus)
    → Memᴰ s (imposed id incidents works) ↔ Imposes id incidents works s
unfolding imposed
imposed_iff id incidents works s = (λ m. sound (append-mem first second m), complete)
  where
    first : List ComponentStatus
    first = imposed_by_incidents id incidents

    second : List ComponentStatus
    second = imposed_by_maintenances id works

    sound : Memᴰ s first ⊎ Memᴰ s second → Imposes id incidents works s
    sound (inl m) =
        let (inc, k, r) = imposed_by_incidents_sound id incidents s m in
        Imposes.by_incident inc r.ic k r.alive r.active r.listed r.for_id r.status
    sound (inr m) =
        let (w, k, r) = imposed_by_maintenances_sound id works s m in
        Imposes.by_maintenance w k r.alive r.active r.listed r.status

    complete : Imposes id incidents works s → Memᴰ s (first ++ second)
    complete (Imposes.by_incident inc ic k a f l i q) = mem-append_left first second (
        imposed_by_incidents_complete id incidents s inc k
          (record { ic = ic; alive = a; active = f; listed = l; for_id = i; status = q }))
    complete (Imposes.by_maintenance w k a f l q) = mem-append_right first second (
        imposed_by_maintenances_complete id works s w k
          (record { alive = a; active = f; listed = l; status = q }))
