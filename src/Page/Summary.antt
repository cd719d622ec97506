-- ===== src/Page/Summary.antt =====
-- What the public summary (backend/internal/domain/summary.go) shows, and what it hides.
use mathlib.Core.Path.{fun_ext}
use healthpage.Prelude.{
  ◌≡◌, ap, subst, ◌↔◌, ◌⊎◌, inl, inr, Bool, true, false, not, ◌&&◌, none, some, List, map, Memᴰ,
  arith, is_some, ◌≤ℤ◌, nat_comparable, string_comparable, keep, keep-keep, All-mem, mem-keep,
  keep-mem, keep-mem_holds, mem-map, map-mem,
}
use mathlib.Core.Path.{fun_ext}
use healthpage.Status.{ComponentStatus, operational, display_severity, worst_status}
use healthpage.Status.Worst.{worst_status_greatest, worst_status-ge-operational}
use healthpage.Page.{
  Uuid, ComponentGroup, Component, GroupSummary, counts_toward_status, in_group,
  compute_overall_status, compute_group_status, visible_components, group_summary,
  build_public_summary,
}

and_right : (a : Bool) {b : Bool} → (a && b) ≡ true → b ≡ true
and_right a h = ground arith

abbrev pub is_public : Component → Bool
is_public c = not c.is_private

counts→public : (c : Component) → counts_toward_status c ≡ true → is_public c ≡ true
unfolding counts_toward_status
counts→public c h = ground arith

in_group→public :
    (g : Uuid) (c : Component)
    → (in_group g c && counts_toward_status c) ≡ true
    → is_public c ≡ true
unfolding counts_toward_status
in_group→public g c h = ground arith

overall_of_public :
    (components : List Component)
    → compute_overall_status (keep is_public components) ≡ compute_overall_status components
unfolding compute_overall_status
overall_of_public components =
    rw (keep-keep counts_toward_status is_public counts→public components)

visible_of_public :
    (components : List Component)
    → visible_components (keep is_public components) ≡ visible_components components
unfolding visible_components
visible_of_public components = keep-keep is_public is_public (λ c h. h) components

group_summary_of_public :
    (components : List Component) (g : ComponentGroup)
    → group_summary (keep is_public components) g ≡ group_summary components g
unfolding group_summary compute_group_status
group_summary_of_public components g = cc (
  visible_of_public components,
  keep-keep (λ c. in_group g.id c && counts_toward_status c) is_public (in_group→public g.id)
      components,
)

-- A private component leaves no trace: the summary of a page is the summary of its public
-- components alone, in its overall status, in each group and among the ungrouped.
pub build_public_summary-private :
    (groups : List ComponentGroup) (components : List Component)
    → build_public_summary groups (keep is_public components)
      ≡ build_public_summary groups components
unfolding build_public_summary
build_public_summary-private groups components = cc (
  overall_of_public components,
  visible_of_public components,
  ap (λ f. map f groups) (fun_ext (group_summary_of_public components)),
)

-- Where a component stands in the summary.
abbrev pub ShownInGroup : List ComponentGroup → List Component → Component → Type 0
ShownInGroup groups components c =
    (s : GroupSummary) × Memᴰ s (build_public_summary groups components).groups
    × Memᴰ c s.components

abbrev pub ShownUngrouped : List ComponentGroup → List Component → Component → Type 0
ShownUngrouped groups components c = Memᴰ c (build_public_summary groups components).ungrouped

-- A public component without a group is shown ungrouped.
pub ungrouped_shown :
    (groups : List ComponentGroup) (components : List Component) (c : Component)
    → Memᴰ c components
    → c.is_private ≡ false
    → c.group_id ≡ none
    → ShownUngrouped groups components c
unfolding build_public_summary visible_components
ungrouped_shown groups components c m pub_c e =
    mem-keep (λ x. not (is_some x.group_id)) (keep is_public components)
      (mem-keep is_public components m (rw pub_c)) (rw e)

-- A public component of a listed group is shown in that group's block.
pub grouped_shown :
    (groups : List ComponentGroup) (components : List Component) (c : Component)
    (g : ComponentGroup)
    → Memᴰ c components
    → c.is_private ≡ false
    → Memᴰ g groups
    → c.group_id ≡ some g.id
    → ShownInGroup groups components c
unfolding build_public_summary visible_components group_summary
grouped_shown groups components c g m pub_c mg e = (
  group_summary components g,
  mem-map (group_summary components) groups mg,
  mem-keep (in_group g.id) (keep is_public components) (mem-keep is_public components m (rw pub_c))
      (ground arith),
)

in_group-listed : (c : Component) (g : Uuid) → in_group g c ≡ true → c.group_id ≡ some g
in_group-listed c g h = ground arith

abbrev pub IsListed : List ComponentGroup → Component → Type 0
IsListed groups c = (g : ComponentGroup) × Memᴰ g groups × (c.group_id ≡ some g.id)

ShownInGroup-only :
    (groups : List ComponentGroup) (components : List Component) (c : Component)
    → ShownInGroup groups components c
    → (c.is_private ≡ false) × IsListed groups c
unfolding build_public_summary visible_components group_summary
ShownInGroup-only groups components c (s, ms, mc) =
    let (g, mg, e) = map-mem (group_summary components) groups ms in
    let m = subst (λ (t : GroupSummary). Memᴰ c t.components) e mc in
    let inner = keep-mem (in_group g.id) (keep is_public components) m in
    let pub_c = keep-mem_holds is_public components inner in
    (
      ground arith,
      (
        g,
        mg,
        in_group-listed c g.id (keep-mem_holds (in_group g.id) (keep is_public components) m),
      ),
    )

ShownUngrouped-only :
    (groups : List ComponentGroup) (components : List Component) (c : Component)
    → ShownUngrouped groups components c
    → (c.is_private ≡ false) × (c.group_id ≡ none)
unfolding build_public_summary visible_components
ShownUngrouped-only groups components c m =
    let visible = keep is_public components in
    let free = keep-mem_holds (λ x. not (is_some x.group_id)) visible m in
    let pub_c =
      keep-mem_holds is_public components (keep-mem (λ x. not (is_some x.group_id)) visible m) in
    (ground arith, ground arith)

-- A component of the page is shown in the block of a group exactly when it is public and its
-- group is among the listed ones, and among the ungrouped exactly when it is public and has no
-- group. Hence a public component whose group is not listed is shown nowhere.
pub shown_iff :
    (groups : List ComponentGroup) (components : List Component) (c : Component)
    → Memᴰ c components
    → (ShownInGroup groups components c ↔ ((c.is_private ≡ false) × IsListed groups c))
      × (ShownUngrouped groups components c ↔ ((c.is_private ≡ false) × (c.group_id ≡ none)))
shown_iff groups components c m = (
  (
    ShownInGroup-only groups components c,
    λ h. grouped_shown groups components c h.1.0 m h.0 h.1.1 h.1.2,
  ),
  (ShownUngrouped-only groups components c, λ h. ungrouped_shown groups components c m h.0 h.1),
)

-- A component that counts is bounded by the overall status.
counted-le-overall :
    (components : List Component) (c : Component)
    → Memᴰ c components
    → counts_toward_status c ≡ true
    → display_severity c.current_status ≤ℤ display_severity (compute_overall_status components)
unfolding compute_overall_status
counted-le-overall components c m h =
    let statuses =
      map (λ (x : Component). x.current_status) (keep counts_toward_status components) in
    All-mem (λ s. display_severity s ≤ℤ display_severity (worst_status statuses)) statuses
      (worst_status_greatest statuses).0
      (mem-map (λ (x : Component). x.current_status) (keep counts_toward_status components)
        (mem-keep counts_toward_status components m h))

group-le-overall :
    (g : Uuid) (components : List Component)
    → display_severity (compute_group_status g components)
      ≤ℤ display_severity (compute_overall_status components)
unfolding compute_group_status
group-le-overall g components = go (worst_status_greatest statuses).1
  where
    member : List Component
    member = keep (λ c. in_group g c && counts_toward_status c) components

    statuses : List ComponentStatus
    statuses = map (λ (x : Component). x.current_status) member

    go :
        (worst_status statuses ≡ operational) ⊎ Memᴰ (worst_status statuses) statuses
        → display_severity (worst_status statuses)
          ≤ℤ display_severity (compute_overall_status components)
    go (inl e) = rw e (
        unfold compute_overall_status in
        worst_status-ge-operational
          (map (λ (x : Component). x.current_status) (keep counts_toward_status components)))
    go (inr k) =
        let (c, m, e) = map-mem (λ (x : Component). x.current_status) member k in
        let tested = λ (x : Component). in_group g x && counts_toward_status x in
        let h = keep-mem_holds tested components m in
        rw e (
          counted-le-overall components c (keep-mem tested components m)
            (and_right (in_group g c) h))

-- The overall status of a page is at least as severe as the status of any of its groups, and as
-- the status of any component that counts.
pub overall_bounds :
    (components : List Component)
    → ((g : Uuid)
        → display_severity (compute_group_status g components)
          ≤ℤ display_severity (compute_overall_status components))
      × ((c : Component)
          → Memᴰ c components
          → counts_toward_status c ≡ true
          → display_severity c.current_status
            ≤ℤ display_severity (compute_overall_status components))
overall_bounds components = (λ g. group-le-overall g components, counted-le-overall components)
