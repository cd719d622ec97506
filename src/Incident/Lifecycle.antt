-- ===== src/Incident/Lifecycle.antt =====
-- The life cycle of an incident (backend/internal/domain/incident.go): `ResolvedAt` over any
-- history of status changes, and the worst impact.
use healthpage.Prelude.{
  String, ◌≡◌, refl, ap, true, false, none, some, List, [], ◌∷◌, ◌++◌, arith, if◌then◌else◌,
  is_some, ◌==◌, nat_comparable, string_comparable, All,
}
use healthpage.Page.{Time}
use healthpage.Incident.{
  IncidentStatus, Incident, is_valid, is_terminal, is_resolved, apply_status_change, set_postmortem,
  invalid_incident_status, postmortem_before_resolved,
}

-- `ResolvedAt` is set exactly while the incident is resolved.
abbrev pub IsConsistent : Incident → Type 0
IsConsistent i = is_resolved i ≡ is_some i.resolved_at

-- An accepted change establishes the invariant, whatever the incident was; a refused one, which
-- is exactly a change to a status outside the enum, leaves the incident as it was.
pub apply_status_change-IsConsistent :
    (s : IncidentStatus) (at : Time) (i : Incident)
    → (is_valid s ≡ true
        → IsConsistent (apply_status_change s at i).0
          × ((apply_status_change s at i).0.current_status ≡ s)
          × ((apply_status_change s at i).1 ≡ none))
      × (is_valid s ≡ false → apply_status_change s at i ≡ (i, some (invalid_incident_status s)))
unfolding apply_status_change is_resolved
apply_status_change-IsConsistent s at i = (λ h. ground arith, λ h. ground arith)

-- A history of attempted changes, the latest first.
abbrev pub History : Type 0
History = List (IncidentStatus × Time)

pub replay : History → Incident → Incident
replay [] i = i
replay ((s, at) ∷ older) i = (apply_status_change s at (replay older i)).0

pub replay-append : (xs ys : History) (i : Incident) → replay (xs ++ ys) i ≡ replay xs (replay ys i)
unfolding replay
replay-append [] ys i = refl
replay-append ((s, at) ∷ xs) ys i = ap (λ j. (apply_status_change s at j).0) (replay-append xs ys i)

replay_step-IsConsistent :
    (s : IncidentStatus) (at : Time) (i : Incident)
    → IsConsistent i
    → IsConsistent (apply_status_change s at i).0
unfolding apply_status_change is_resolved
replay_step-IsConsistent s at i h = ground arith

-- The invariant survives any history of changes, accepted or refused.
pub replay-IsConsistent : (h : History) (i : Incident) → IsConsistent i → IsConsistent (replay h i)
unfolding replay
replay-IsConsistent [] i c = c
replay-IsConsistent ((s, at) ∷ older) i c =
    replay_step-IsConsistent s at (replay older i) (replay-IsConsistent older i c)

-- A change that cannot reopen: to resolved, or outside the enum.
abbrev pub KeepsClosed : IncidentStatus × Time → Type 0
KeepsClosed c = is_terminal c.0 ≡ is_valid c.0

resolved_step :
    (s : IncidentStatus) (at t : Time) (i : Incident)
    → is_terminal s ≡ is_valid s
    → i.resolved_at ≡ some t
    → (apply_status_change s at i).0.resolved_at ≡ some t
unfolding apply_status_change is_valid
resolved_step s at t i k h = ground arith

stays_resolved :
    (later : History) (t : Time) (i : Incident)
    → All KeepsClosed later
    → i.resolved_at ≡ some t
    → (replay later i).resolved_at ≡ some t
unfolding replay
stays_resolved [] t i k h = h
stays_resolved ((s, at) ∷ later) t i k h =
    resolved_step s at t (replay later i) k.0 (stays_resolved later t i k.1 h)

resolved_after_reopen :
    (s closing : IncidentStatus) (t₀ t : Time) (i : Incident)
    → is_valid s ≡ true
    → is_terminal s ≡ false
    → is_terminal closing ≡ true
    → (apply_status_change closing t (apply_status_change s t₀ i).0).0.resolved_at ≡ some t
unfolding apply_status_change is_valid
resolved_after_reopen s closing t₀ t i v a c = ground arith

-- `ResolvedAt` is the moment of the first `resolved` since the incident was last active: later
-- repetitions of `resolved` and refused changes do not move it, and a reopening forgets the
-- moment of an earlier resolution.
pub resolved_at-replay :
    (later older : History) (s closing : IncidentStatus) (t₀ t : Time) (i : Incident)
    → All KeepsClosed later
    → is_valid s ≡ true
    → is_terminal s ≡ false
    → is_terminal closing ≡ true
    → (replay (later ++ (closing, t) ∷ (s, t₀) ∷ older) i).resolved_at ≡ some t
resolved_at-replay later older s closing t₀ t i k v a c =
    rw (replay-append later ((closing, t) ∷ (s, t₀) ∷ older) i) (
      stays_resolved later t (replay ((closing, t) ∷ (s, t₀) ∷ older) i) k
        (unfold replay in resolved_after_reopen s closing t₀ t (replay older i) v a c))

-- A post-mortem is taken exactly on a resolved incident; the empty text removes it, and nothing
-- else of the incident changes.
pub set_postmortem_iff :
    (text : String) (i : Incident)
    → (is_resolved i ≡ true
        → set_postmortem text i
          ≡ (record i { postmortem = if text == "" then none else some text }, none))
      × (is_resolved i ≡ false → set_postmortem text i ≡ (i, some postmortem_before_resolved))
unfolding set_postmortem
set_postmortem_iff text i = (λ h. ground arith, λ h. ground arith)
