-- ===== src/Status.antt =====
-- backend/internal/domain/status.go: the status of a component, and the worst of several.
-- `other s` is a Go string outside the enum: `ComponentStatus` is a string type.
pub mod Worst
use healthpage.Prelude.{
  String, Bool, true, false, List, [], ◌∷◌, ◌≡◌, ◌↔◌, refl, subst, arith, eq_iff, if◌then◌else◌, ℤ,
  pos, negsuc, ltb_ℤ, Comparable, ◌==◌, string_comparable,
}

pub data ComponentStatus : Type 0 where
  operational degraded_performance partial_outage major_outage under_maintenance : ComponentStatus
  other : String → ComponentStatus

abbrev pub status_equal : ComponentStatus → ComponentStatus → Bool
status_equal operational operational = true
status_equal degraded_performance degraded_performance = true
status_equal partial_outage partial_outage = true
status_equal major_outage major_outage = true
status_equal under_maintenance under_maintenance = true
status_equal (other s) (other t) = s == t
status_equal _ _ = false

status_equal_sound : (a b : ComponentStatus) → status_equal a b ≡ true → a ≡ b
status_equal_sound operational b h = ground arith
status_equal_sound degraded_performance b h = ground arith
status_equal_sound partial_outage b h = ground arith
status_equal_sound major_outage b h = ground arith
status_equal_sound under_maintenance b h = ground arith
status_equal_sound (other s) (other t) h = cc ((eq_iff s t).0 h)
status_equal_sound (other s) _ h = ground arith

status_equal_self : (a : ComponentStatus) → status_equal a a ≡ true
status_equal_self (other s) = (eq_iff s s).1 refl
status_equal_self _ = refl

pub status_equal_iff : (a b : ComponentStatus) → (status_equal a b ≡ true) ↔ (a ≡ b)
status_equal_iff a b =
    (status_equal_sound a b, λ e. subst (λ x. status_equal a x ≡ true) e (status_equal_self a))

instance abbrev pub component_status_comparable : Comparable ComponentStatus
component_status_comparable = record { equal = status_equal; equal_iff = status_equal_iff }

-- ComponentStatus.IsValid
unfoldable pub is_valid : ComponentStatus → Bool
is_valid (other _) = false
is_valid _ = true

-- displaySeverity
unfoldable pub display_severity : ComponentStatus → ℤ
display_severity operational = pos 0
display_severity degraded_performance = pos 1
display_severity under_maintenance = pos 2
display_severity partial_outage = pos 3
display_severity major_outage = pos 4
display_severity (other _) = negsuc 0

-- the loop of WorstStatus, over `worst` and `worstSev`
pub worst_from : ComponentStatus → ℤ → List ComponentStatus → ComponentStatus
worst_from worst worst_sev [] = worst
worst_from worst worst_sev (s ∷ rest) =
    let sev = display_severity s in
    let higher = ltb_ℤ worst_sev sev in
    worst_from (if higher then s else worst) (if higher then sev else worst_sev) rest

-- WorstStatus
unfoldable pub worst_status : List ComponentStatus → ComponentStatus
unfolding worst_from display_severity
worst_status statuses = worst_from operational (pos 0) statuses
