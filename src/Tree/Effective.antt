-- ===== src/Tree/Effective.antt =====
-- The effective status of a node against the statuses of its subtree
-- (backend/internal/domain/tree.go).
use healthpage.Prelude.{
  ◌≡◌, refl, sym, ◌∙◌, subst, ◌⊎◌, inl, inr, List, [], ◌∷◌, ◌++◌, Memᴰ, arith, ◌≤ℤ◌, nat_comparable,
  string_comparable, All, All-append, mem-append_left, mem-append_right,
}
use healthpage.Status.{ComponentStatus, operational, display_severity, worst_status}
use healthpage.Status.Worst.{worst_status_greatest}
use healthpage.Tree.{
  ComponentNode, Children, node, none_left, child, effective_status, effective_from,
}

mutual
  -- The statuses of a node and of all that is below it.
  pub statuses : ComponentNode → List ComponentStatus
  statuses (node c children) = c.current_status ∷ statuses_below children

  pub statuses_below : Children → List ComponentStatus
  statuses_below none_left = []
  statuses_below (child n rest) = statuses n ++ statuses_below rest

AtMost : ComponentStatus → ComponentStatus → Type 0
AtMost w s = display_severity s ≤ℤ display_severity w

AtMost-trans :
    (a b : ComponentStatus) (l : List ComponentStatus)
    → AtMost b a
    → All (AtMost a) l
    → All (AtMost b) l
unfolding AtMost
AtMost-trans a b [] h k = tt
AtMost-trans a b (s ∷ l) h k = (ground arith, AtMost-trans a b l h k.1)

-- one round of the loop: the new worst bounds the old one and the child
round_upper :
    (w e : ComponentStatus)
    → AtMost (worst_status (w ∷ e ∷ [])) w × AtMost (worst_status (w ∷ e ∷ [])) e
unfolding AtMost
round_upper w e = let both = (worst_status_greatest (w ∷ e ∷ [])).0 in (both.0, both.1.0)

mutual
  unfolding effective_status effective_from statuses statuses_below AtMost

  effective_upper : (n : ComponentNode) → All (AtMost (effective_status n)) (statuses n)
  effective_upper (node c children) = effective_from-upper c.current_status children

  effective_from-upper :
      (w : ComponentStatus) (l : Children)
      → All (AtMost (effective_from w l)) (w ∷ statuses_below l)
  effective_from-upper w none_left = (ground arith, tt)
  effective_from-upper w (child n rest) =
      let e = effective_status n in
      let v = worst_status (w ∷ e ∷ []) in
      let last = effective_from v rest in
      let ih = effective_from-upper v rest in
      let round = round_upper w e in
      let over_e : AtMost last e = ground (arith, round, ih) in
      (
        ground (arith, round, ih),
        All-append (AtMost last) (statuses n) (statuses_below rest)
            (AtMost-trans e last (statuses n) over_e (effective_upper n)) ih.1,
      )

from_round :
    (w e v : ComponentStatus) (xs ys : List ComponentStatus) (last : ComponentStatus)
    → (v ≡ operational) ⊎ Memᴰ v (w ∷ e ∷ [])
    → (e ≡ operational) ⊎ Memᴰ e xs
    → (last ≡ operational) ⊎ Memᴰ last (v ∷ ys)
    → (last ≡ operational) ⊎ Memᴰ last (w ∷ xs ++ ys)
from_round w e v xs ys last a b (inl o) = inl o
from_round w e v xs ys last a b (inr (Memᴰ.tail m)) = inr (Memᴰ.tail (mem-append_right xs ys m))
from_round w e v xs ys last (inl o) b (inr (Memᴰ.head h)) = inl (h ∙ o)
from_round w e v xs ys last (inr (Memᴰ.head k)) b (inr (Memᴰ.head h)) = inr (Memᴰ.head (h ∙ k))
from_round w e v xs ys last (inr (Memᴰ.tail (Memᴰ.head k))) (inl o) (inr (Memᴰ.head h)) =
    inl (h ∙ k ∙ o)
from_round w e v xs ys last (inr (Memᴰ.tail (Memᴰ.head k))) (inr m) (inr (Memᴰ.head h)) =
    inr (Memᴰ.tail (mem-append_left xs ys (subst (λ x. Memᴰ x xs) (sym (h ∙ k)) m)))
from_round w e v xs ys last (inr (Memᴰ.tail (Memᴰ.tail m))) b c = elim m [ ]

-- what the loop returns: operational, the status it started with, or one from below
mutual
  unfolding effective_status effective_from statuses statuses_below

  effective_attained :
      (n : ComponentNode)
      → (effective_status n ≡ operational) ⊎ Memᴰ (effective_status n) (statuses n)
  effective_attained (node c children) = effective_from_attained c.current_status children

  effective_from_attained :
      (w : ComponentStatus) (l : Children)
      → (effective_from w l ≡ operational) ⊎ Memᴰ (effective_from w l) (w ∷ statuses_below l)
  effective_from_attained w none_left = inr (Memᴰ.head refl)
  effective_from_attained w (child n rest) =
      let e = effective_status n in
      let v = worst_status (w ∷ e ∷ []) in
      from_round w e v (statuses n) (statuses_below rest) (effective_from v rest)
        (worst_status_greatest (w ∷ e ∷ [])).1 (effective_attained n)
        (effective_from_attained v rest)

-- The effective status of a node is at least as severe as its own status and the status of every
-- node below it, at any depth, and it is one of these or operational.
pub effective_status_lem :
    (n : ComponentNode)
    → All (λ s. display_severity s ≤ℤ display_severity (effective_status n)) (statuses n)
      × ((effective_status n ≡ operational) ⊎ Memᴰ (effective_status n) (statuses n))
unfolding AtMost
effective_status_lem n = (effective_upper n, effective_attained n)
