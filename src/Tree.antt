-- ===== src/Tree.antt =====
-- backend/internal/domain/tree.go: a component with its subcomponents, and the status that it
-- shows for them all.
pub mod Effective
use healthpage.Prelude.{◌-◌, none, [], ◌∷◌, nat_comparable, string_comparable}
use healthpage.Status.{ComponentStatus, worst_status}
use healthpage.Page.{Component}

mutual
  -- ComponentNode
  pub data ComponentNode : Type 0 where
    node : Component → Children → ComponentNode

  pub data Children : Type 0 where
    none_left : Children
    child : ComponentNode → Children → Children

unfoldable mutual
  -- ComponentNode.EffectiveStatus
  pub effective_status : ComponentNode → ComponentStatus
  effective_status (node c children) = effective_from c.current_status children

  -- its loop, over `worst`
  pub effective_from : ComponentStatus → Children → ComponentStatus
  effective_from worst none_left = worst
  effective_from worst (child n rest) =
      effective_from (worst_status (worst ∷ effective_status n ∷ [])) rest
