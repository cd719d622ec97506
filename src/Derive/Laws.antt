-- ===== src/Derive/Laws.antt =====
-- What `DerivedComponentStatus` (backend/internal/domain/derive.go) computes, against a
-- description of it by what is imposed on the component.
use healthpage.Prelude.{
  ◌≡◌, refl, sym, subst, ◌↔◌, ◌⊎◌, inl, inr, true, List, [], ◌∷◌, Memᴰ, ◌≤ℤ◌, nat_comparable,
  string_comparable, All-mem,
}
use healthpage.Status.{ComponentStatus, operational, display_severity, worst_status}
use healthpage.Status.Worst.{worst_status_greatest}
use healthpage.Page.{Uuid}
use healthpage.Incident.{Incident}
use healthpage.Maintenance.{Maintenance}
use healthpage.Derive.{imposed, conclude, derived_component_status}
use healthpage.Derive.Sources.{Imposes, imposed_iff}

-- The status is the worst of the slice also where the slice is empty.
pub derived-eq-worst :
    (id : Uuid) (incidents : List Incident) (works : List Maintenance)
    → (derived_component_status id incidents works).0 ≡ worst_status (imposed id incidents works)
unfolding derived_component_status worst_status
derived-eq-worst id incidents works = go (imposed id incidents works)
  where
    go : (l : List ComponentStatus) → (conclude l).0 ≡ worst_status l
    go [] = refl
    go (s ∷ l) = refl

driven_iff :
    (id : Uuid) (incidents : List Incident) (works : List Maintenance)
    → ((derived_component_status id incidents works).1 ≡ true)
      ↔ ((s : ComponentStatus) × Imposes id incidents works s)
unfolding derived_component_status
driven_iff id incidents works = (
  λ h. go (imposed id incidents works) refl h,
  λ (s, i). back (imposed id incidents works) s ((imposed_iff id incidents works s).1 i),
)
  where
    go :
        (l : List ComponentStatus)
        → imposed id incidents works ≡ l
        → (conclude l).1 ≡ true
        → (s : ComponentStatus) × Imposes id incidents works s
    go [] e h = cc
    go (s ∷ l) e h =
        (s, (imposed_iff id incidents works s).0 (subst (λ x. Memᴰ s x) (sym e) (Memᴰ.head refl)))

    back : (l : List ComponentStatus) (s : ComponentStatus) → Memᴰ s l → (conclude l).1 ≡ true
    back [] s m = elim m [ ]
    back (t ∷ l) s m = refl

-- `DerivedComponentStatus` says `driven` exactly when something imposes a status on the
-- component; the status that it returns is itself imposed, or operational, and nothing that is
-- imposed is more severe.
pub derived_component_status_lem :
    (id : Uuid) (incidents : List Incident) (works : List Maintenance)
    → (((derived_component_status id incidents works).1 ≡ true)
        ↔ ((s : ComponentStatus) × Imposes id incidents works s))
      × ((s : ComponentStatus)
          → Imposes id incidents works s
          → display_severity s ≤ℤ display_severity (derived_component_status id incidents works).0)
      × (((derived_component_status id incidents works).0 ≡ operational)
          ⊎ Imposes id incidents works (derived_component_status id incidents works).0)
derived_component_status_lem id incidents works = rw (derived-eq-worst id incidents works) (
  driven_iff id incidents works,
  λ s i.
      All-mem
        (λ t. display_severity t ≤ℤ display_severity (worst_status (imposed id incidents works)))
        (imposed id incidents works) (worst_status_greatest (imposed id incidents works)).0
        ((imposed_iff id incidents works s).1 i),
  go (worst_status_greatest (imposed id incidents works)).1,
)
  where
    w : ComponentStatus
    w = worst_status (imposed id incidents works)

    go :
        (w ≡ operational) ⊎ Memᴰ w (imposed id incidents works)
        → (w ≡ operational) ⊎ Imposes id incidents works w
    go (inl e) = inl e
    go (inr m) = inr ((imposed_iff id incidents works w).0 m)
