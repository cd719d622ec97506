-- ===== src/Tests/Domain.antt =====
-- The theorems on statuses, pages, incidents, works and subscribers at concrete inputs.
use healthpage.Prelude.{
  ℕ, String, ◌≡◌, refl, ◌↔◌, ◌⊎◌, true, false, not, none, some, List, [], ◌∷◌, ◌++◌, map, Memᴰ,
  arith, is_some, ◌≤ℤ◌, nat_comparable, string_comparable, All, keep, any,
}
use healthpage.Status.{display_severity, operational, ComponentStatus}
use healthpage.Page.{
  Component, ComponentGroup, compute_group_status, compute_overall_status, counts_toward_status,
  build_public_summary,
}
use healthpage.Page.Summary.{
  shown_iff, overall_bounds, build_public_summary-private, ShownInGroup, ShownUngrouped, IsListed,
  is_public,
}
use healthpage.Incident.{
  IncidentStatus, investigating, monitoring, resolved, Incident, is_resolved, set_postmortem,
  postmortem_before_resolved, worst_impact, impact_severity, IncidentImpact, minor, major,
}
use healthpage.Incident.Lifecycle.{
  IsConsistent, History, replay, replay-IsConsistent, resolved_at-replay,
}
use healthpage.Maintenance.{in_progress, completed}
use healthpage.Maintenance.Lifecycle.{replay as replay_works, replay-IsStamped, IsStamped, latest}
use healthpage.Derive.{derived_component_status}
use healthpage.Derive.Sources.{Imposes}
use healthpage.Derive.Laws.{derived_component_status_lem}
use healthpage.Subscriber.{is_page, wants_event}
use healthpage.Subscriber.Interest.{wants_event_iff}
use healthpage.Token.{
  ApiToken, TokenScope, write, scope_is_valid, token_scope, scopes_grant, normalize_scopes,
}
use healthpage.Token.Scopes.{normalize_scopes_lem}
use healthpage.Tree.{ComponentNode, node, child, none_left, effective_status}
use healthpage.Tree.Effective.{statuses, effective_status_lem}
use healthpage.Tests.Data.{
  api_group, api_component, web_component, open_incident, planned_works, chat,
}

abbrev two : List Component
two = api_component ∷ web_component ∷ []

abbrev one_group : List ComponentGroup
one_group = api_group ∷ []

shown_iff_example :
    (ShownInGroup one_group two api_component
      ↔ ((api_component.is_private ≡ false) × IsListed one_group api_component))
    × (ShownUngrouped one_group two api_component
        ↔ ((api_component.is_private ≡ false) × (api_component.group_id ≡ none)))
shown_iff_example = shown_iff one_group two api_component (Memᴰ.head refl)

overall_bounds_example :
    ((g : ℕ)
      → display_severity (compute_group_status g two)
        ≤ℤ display_severity (compute_overall_status two))
    × ((c : Component)
        → Memᴰ c two
        → counts_toward_status c ≡ true
        → display_severity c.current_status ≤ℤ display_severity (compute_overall_status two))
overall_bounds_example = overall_bounds two

build_public_summary-private_example :
    build_public_summary one_group (keep is_public two) ≡ build_public_summary one_group two
build_public_summary-private_example = build_public_summary-private one_group two

abbrev closing : History
closing = (resolved, 9) ∷ (monitoring, 8) ∷ []

replay_example : IsConsistent (replay closing open_incident)
unfolding is_resolved
replay_example = replay-IsConsistent closing open_incident refl

resolved_at_example :
    (replay
      (((resolved, 12) ∷ []) ++ (resolved, 9) ∷ (monitoring, 8) ∷ [])
      open_incident).resolved_at
    ≡ some 9
unfolding healthpage.Incident.is_valid
resolved_at_example =
    resolved_at-replay ((resolved, 12) ∷ []) [] monitoring resolved 8 9 open_incident (refl, tt)
      refl refl refl

works_example :
    IsStamped
      (latest ((completed, 9) ∷ (in_progress, 7) ∷ []) 6)
      (replay_works ((completed, 9) ∷ (in_progress, 7) ∷ []) planned_works)
works_example =
    replay-IsStamped ((completed, 9) ∷ (in_progress, 7) ∷ []) 6 planned_works
      (omega arith, (omega arith, tt))
      (record { stamps = (refl, refl); started = tt; finished = tt; ordered = tt })

derived_example :
    let derived = derived_component_status 10 (open_incident ∷ []) (planned_works ∷ []) in
    ((derived.1 ≡ true)
      ↔ ((s : ComponentStatus) × Imposes 10 (open_incident ∷ []) (planned_works ∷ []) s))
    × ((s : ComponentStatus)
        → Imposes 10 (open_incident ∷ []) (planned_works ∷ []) s
        → display_severity s ≤ℤ display_severity derived.0)
    × ((derived.0 ≡ operational) ⊎ Imposes 10 (open_incident ∷ []) (planned_works ∷ []) derived.0)
derived_example = derived_component_status_lem 10 (open_incident ∷ []) (planned_works ∷ [])

wants_event_example :
    (is_page chat.scope ≡ true → wants_event chat (10 ∷ []) ≡ true)
    × (is_page chat.scope ≡ false
        → (wants_event chat (10 ∷ []) ≡ true)
          ↔ ((id : ℕ) × Memᴰ id (10 ∷ []) × Memᴰ id chat.component_ids))
wants_event_example = wants_event_iff chat (10 ∷ [])

abbrev requested : List String
requested = "write" ∷ "read" ∷ "write" ∷ []

normalize_scopes_example :
    (is_some (normalize_scopes requested)
      ≡ not (any (λ s. not (scope_is_valid s)) (map token_scope requested)))
    × ((out : List TokenScope) (want : TokenScope)
        → normalize_scopes requested ≡ some out
        → scopes_grant want out ≡ scopes_grant want (map token_scope requested))
normalize_scopes_example = normalize_scopes_lem requested

abbrev writer : ApiToken
writer = record {
  id = 90;
  status_page_id = 1;
  name = "ci";
  scopes = write ∷ [];
  last_used_at = none;
  created_at = 1;
  updated_at = 1;
}

abbrev nested : ComponentNode
nested = node web_component (child (node api_component none_left) none_left)

effective_status_example :
    All (λ s. display_severity s ≤ℤ display_severity (effective_status nested)) (statuses nested)
    × ((effective_status nested ≡ operational) ⊎ Memᴰ (effective_status nested) (statuses nested))
effective_status_example = effective_status_lem nested
