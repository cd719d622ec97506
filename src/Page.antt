-- ===== src/Page.antt =====
-- backend/internal/domain/entities.go, page_status.go and summary.go: the components of a status
-- page, the overall and group statuses, and the public summary.
pub mod Summary
use healthpage.Prelude.{
  ℕ, zero, ◌-◌, ◌*◌, String, ap, Bool, false, not, ◌&&◌, Option, none, some, List, map, is_some, ℤ,
  pos, ◌==◌, nat_comparable, string_comparable, keep,
}
use healthpage.Status.{ComponentStatus, worst_status}

-- uuid.UUID: an identifier with decidable equality.
abbrev pub Uuid : Type 0
Uuid = ℕ

-- time.Time, as nanoseconds from the zero time.
abbrev pub Time : Type 0
Time = ℕ

pub record ComponentGroup : Type 0 where
  pub id : Uuid
  pub status_page_id : Uuid
  pub name : String
  pub position : ℤ
  pub created_at : Time
  pub updated_at : Time
  pub deleted_at : Option Time

pub record Component : Type 0 where
  pub id : Uuid
  pub status_page_id : Uuid
  pub group_id : Option Uuid
  pub parent_id : Option Uuid
  pub name : String
  pub description : String
  pub position : ℤ
  pub current_status : ComponentStatus
  pub is_private : Bool
  pub show_uptime : Bool
  pub display_state : Bool
  pub created_at : Time
  pub updated_at : Time
  pub deleted_at : Option Time

-- Component.CountsTowardStatus
unfoldable pub counts_toward_status : Component → Bool
counts_toward_status c = not c.is_private && c.display_state

-- `c.GroupID != nil && *c.GroupID == groupID`
abbrev pub in_group : Uuid → Component → Bool
in_group g c = elim c.group_id [ none ↦ false | some h ↦ h == g ]

-- ComputeOverallStatus
unfoldable pub compute_overall_status : List Component → ComponentStatus
compute_overall_status components =
    worst_status (map (λ c. c.current_status) (keep counts_toward_status components))

-- ComputeGroupStatus
unfoldable pub compute_group_status : Uuid → List Component → ComponentStatus
compute_group_status group_id components = worst_status (
    map (λ c. c.current_status)
      (keep (λ c. in_group group_id c && counts_toward_status c) components))

pub record GroupSummary : Type 0 where
  pub group : ComponentGroup
  pub aggregated_status : ComponentStatus
  pub components : List Component

pub record PublicSummary : Type 0 where
  pub overall_status : ComponentStatus
  pub groups : List GroupSummary
  pub ungrouped : List Component

-- the first loop of BuildPublicSummary
unfoldable pub visible_components : List Component → List Component
visible_components = keep (λ c. not c.is_private)

-- the body of the second loop
unfoldable pub group_summary : List Component → ComponentGroup → GroupSummary
unfolding visible_components
group_summary components g = record {
  group = g;
  aggregated_status = compute_group_status g.id components;
  components = keep (in_group g.id) (visible_components components);
}

-- BuildPublicSummary
unfoldable pub build_public_summary : List ComponentGroup → List Component → PublicSummary
unfolding visible_components group_summary
build_public_summary groups components = record {
  overall_status = compute_overall_status components;
  groups = map (group_summary components) groups;
  ungrouped = keep (λ c. not (is_some c.group_id)) (visible_components components);
}
