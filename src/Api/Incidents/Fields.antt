-- ===== src/Api/Incidents/Fields.antt =====
-- What the checks of a request on incidents let through
-- (backend/internal/api/incidents.go, handlePatchIncident and parseIncidentComponents).
use healthpage.Prelude.{
  ◌≡◌, refl, sym, ap, ◌∙◌, subst, inl, inr, true, Option, none, some, List, [], ◌∷◌, map, arith,
  if◌then◌else◌, Option-cases, is_some, ◌==◌, nat_equal_iff, nat_comparable, string_comparable, All,
}
use healthpage.Page.{Uuid}
use healthpage.Status.{ComponentStatus}
use healthpage.Status as ComponentStatuses
use healthpage.Incident.{
  can_set_postmortem, Incident, IncidentComponent, is_resolved, set_postmortem, impact_is_valid,
}
use healthpage.Store.{Db}
use healthpage.Store.Queries.{find_component}
use healthpage.Api.{invalid_request, Answer, refused, granted, ◌>>=◌, or_refuse, ensure, Outside}
use healthpage.Api.Answers.{IsOnPage, granted-inv, ensure-inv, or_refuse-inv}
use healthpage.Api.Incidents.{
  IncidentComponentDto, PatchIncident, reported, parse_incident_components, patch_incident_fields,
  patch_incident_components,
}

-- The component is there, belongs to the page, and has a status of the enum reported.
pub record IsReportable (page_id : Uuid) (db : Db) (ic : IncidentComponent) : Type 0 where
  pub on_page : IsOnPage page_id db ic.component_id
  pub valid : ComponentStatuses.is_valid ic.component_status_in_incident ≡ true

-- the components that a request lists, in its order and with the statuses that it gives
abbrev pub ListsAs : Outside → List IncidentComponentDto → List IncidentComponent → Type 0
ListsAs o raw comps =
    map {B = Option Uuid × ComponentStatus}
      (λ ic. (some ic.component_id, ic.component_status_in_incident)) comps
    ≡ map {B = Option Uuid × ComponentStatus}
        (λ dto. (o.uuid_parse dto.component_id, dto.component_status_in_incident)) raw

-- the list that an answer grants
abbrev list_of : Answer (List IncidentComponent) → List IncidentComponent
list_of (granted l) = l
list_of (refused _) = []

module _ (o : Outside) (page_id : Uuid) (db : Db) where
  pub parse_incident_components-IsReportable :
      (raw : List IncidentComponentDto) (comps : List IncidentComponent)
      → parse_incident_components o page_id db raw ≡ granted comps
      → All (IsReportable page_id db) comps
  unfolding parse_incident_components
  parse_incident_components-IsReportable [] comps h =
      subst (All (IsReportable page_id db)) (ap list_of h) tt
  parse_incident_components-IsReportable (dto ∷ rest) comps h =
      let status = dto.component_status_in_incident in
      let last = λ (cid : Uuid).
        parse_incident_components o page_id db rest >>= λ l. granted (reported cid status ∷ l) in
      let (cid, _, h1) =
        granted-inv (or_refuse (o.uuid_parse dto.component_id) invalid_request)
          (λ cid. ensure (ComponentStatuses.is_valid status) invalid_request >>= λ _.
            or_refuse (find_component cid db) invalid_request >>= λ comp.
            ensure (comp.status_page_id == page_id) invalid_request >>= λ _. last cid)
          comps h in
      let (u, v, h2) =
        granted-inv (ensure (ComponentStatuses.is_valid status) invalid_request)
          (λ _. or_refuse (find_component cid db) invalid_request >>= λ comp.
            ensure (comp.status_page_id == page_id) invalid_request >>= λ _. last cid)
          comps h1 in
      let (comp, e, h3) =
        granted-inv (or_refuse (find_component cid db) invalid_request)
          (λ comp. ensure (comp.status_page_id == page_id) invalid_request >>= λ _. last cid) comps
          h2 in
      let (t, k, h4) =
        granted-inv (ensure (comp.status_page_id == page_id) invalid_request) (λ _. last cid) comps
          h3 in
      let (l, m, r) =
        granted-inv (parse_incident_components o page_id db rest)
          (λ l. granted (reported cid status ∷ l)) comps h4 in
      subst (All (IsReportable page_id db)) (ap list_of r) (
        record {
          on_page = record {
            component = comp;
            is_there = or_refuse-inv (find_component cid db) invalid_request comp e;
            belongs =
                (nat_equal_iff comp.status_page_id page_id).0
                  (ensure-inv (comp.status_page_id == page_id) invalid_request t k);
          };
          valid = ensure-inv (ComponentStatuses.is_valid status) invalid_request u v;
        },
        parse_incident_components-IsReportable rest l m,
      )

  pub parse_incident_components-ListsAs :
      (raw : List IncidentComponentDto) (comps : List IncidentComponent)
      → parse_incident_components o page_id db raw ≡ granted comps
      → ListsAs o raw comps
  unfolding parse_incident_components
  parse_incident_components-ListsAs [] comps h = subst (ListsAs o []) (ap list_of h) refl
  parse_incident_components-ListsAs (dto ∷ rest) comps h =
      let status = dto.component_status_in_incident in
      let last = λ (cid : Uuid).
        parse_incident_components o page_id db rest >>= λ l. granted (reported cid status ∷ l) in
      let (cid, parsed, h1) =
        granted-inv (or_refuse (o.uuid_parse dto.component_id) invalid_request)
          (λ cid. ensure (ComponentStatuses.is_valid status) invalid_request >>= λ _.
            or_refuse (find_component cid db) invalid_request >>= λ comp.
            ensure (comp.status_page_id == page_id) invalid_request >>= λ _. last cid)
          comps h in
      let (_, _, h2) =
        granted-inv (ensure (ComponentStatuses.is_valid status) invalid_request)
          (λ _. or_refuse (find_component cid db) invalid_request >>= λ comp.
            ensure (comp.status_page_id == page_id) invalid_request >>= λ _. last cid)
          comps h1 in
      let (comp, _, h3) =
        granted-inv (or_refuse (find_component cid db) invalid_request)
          (λ comp. ensure (comp.status_page_id == page_id) invalid_request >>= λ _. last cid) comps
          h2 in
      let (_, _, h4) =
        granted-inv (ensure (comp.status_page_id == page_id) invalid_request) (λ _. last cid) comps
          h3 in
      let (l, m, r) =
        granted-inv (parse_incident_components o page_id db rest)
          (λ l. granted (reported cid status ∷ l)) comps h4 in
      let first = or_refuse-inv (o.uuid_parse dto.component_id) invalid_request cid parsed in
      let later = parse_incident_components-ListsAs rest l m in
      let same : reported cid status ∷ l ≡ comps = ap list_of r in
      subst (ListsAs o (dto ∷ rest)) same (
        ap
          (λ (x : Option Uuid).
            (x, status)
            ∷ map
                (λ (ic : IncidentComponent).
                  let p : Option Uuid × ComponentStatus =
                    (some ic.component_id, ic.component_status_in_incident) in
                  p)
                l)
          (sym first)
        ∙ ap
            (λ (t : List (Option Uuid × ComponentStatus)).
              (o.uuid_parse dto.component_id, status) ∷ t)
            later)

-- what a patch asks for, or what was there
abbrev pub or_kept : {A : Type 0} → Option A → A → A
or_kept asked old = elim asked [ none ↦ old | some x ↦ x ]

-- The texts are those of the patch where it gives them, and the others stay. An empty text takes
-- the post-mortem away.
pub record IsAsked (req : PatchIncident) (i i' : Incident) : Type 0 where
  pub title : i'.title ≡ or_kept req.title i.title
  pub impact : i'.impact ≡ or_kept req.impact i.impact
  pub is_visible : i'.is_visible ≡ or_kept req.is_visible i.is_visible
  pub postmortem : i'.postmortem ≡ (elim req.postmortem [
    | none ↦ i.postmortem
    | some text ↦ if text == "" then none else some text
  ])
  pub started_at : i'.started_at ≡ i.started_at

-- The same incident, on the same page, in the same stage of its life.
pub record SameIncident (i i' : Incident) : Type 0 where
  pub id : i'.id ≡ i.id
  pub status_page_id : i'.status_page_id ≡ i.status_page_id
  pub current_status : i'.current_status ≡ i.current_status
  pub resolved_at : i'.resolved_at ≡ i.resolved_at

pub SameIncident-trans : {i j k : Incident} → SameIncident i j → SameIncident j k → SameIncident i k
SameIncident-trans a b = record {
  id = b.id ∙ a.id;
  status_page_id = b.status_page_id ∙ a.status_page_id;
  current_status = b.current_status ∙ a.current_status;
  resolved_at = b.resolved_at ∙ a.resolved_at;
}

pub patch_incident_fields_lem :
    (req : PatchIncident) (i i' : Incident)
    → patch_incident_fields req i ≡ granted i'
    → SameIncident i i' × (is_some req.postmortem ≡ true → is_resolved i ≡ true) × IsAsked req i i'
unfolding patch_incident_fields set_postmortem can_set_postmortem is_resolved impact_is_valid
patch_incident_fields_lem req i i' h = (
  record {
    id = ground (arith, h);
    status_page_id = ground (arith, h);
    current_status = ground (arith, h);
    resolved_at = ground (arith, h);
  },
  λ p. ground (arith, h, p),
  record {
    title = ground (arith, h);
    impact = ground (arith, h);
    is_visible = ground (arith, h);
    postmortem = ground (arith, h);
    started_at = ground (arith, h);
  },
)

-- a change of the components keeps the texts
pub IsAsked-components :
    (o : Outside) (req : PatchIncident) (db : Db) (i x y : Incident)
    → IsAsked req i x
    → patch_incident_components o req db x ≡ granted y
    → IsAsked req i y
unfolding patch_incident_components
IsAsked-components o req db i x y a h =
    let texts : (y.title ≡ x.title)
        × (y.impact ≡ x.impact)
        × (y.is_visible ≡ x.is_visible)
        × (y.postmortem ≡ x.postmortem)
        × (y.started_at ≡ x.started_at) =
      (
        ground (arith, h),
        ground (arith, h),
        ground (arith, h),
        ground (arith, h),
        ground (arith, h),
      ) in
    record {
      title = texts.0 ∙ a.title;
      impact = texts.1 ∙ a.impact;
      is_visible = texts.2 ∙ a.is_visible;
      postmortem = texts.3 ∙ a.postmortem;
      started_at = texts.4 ∙ a.started_at;
    }

pub patch_incident_components_lem :
    (o : Outside) (req : PatchIncident) (db : Db) (i i' : Incident)
    → patch_incident_components o req db i ≡ granted i'
    → SameIncident i i'
      × (is_some req.components ≡ true → All (IsReportable i.status_page_id db) i'.components)
      × ((raw : List IncidentComponentDto)
          → req.components ≡ some raw
          → ListsAs o raw i'.components)
unfolding patch_incident_components
patch_incident_components_lem o req db i i' h = elim (Option-cases req.components) [
  | inl n ↦ (
    record {
      id = ground (arith, h, n);
      status_page_id = ground (arith, h, n);
      current_status = ground (arith, h, n);
      resolved_at = ground (arith, h, n);
    },
    λ listed. absurd (ground (arith, n, listed)),
    λ raw e. absurd (ground (arith, n, e)),
  )
  | inr (raw, e) ↦
      let parse = parse_incident_components o i.status_page_id db raw in
      let next = λ (l : List IncidentComponent).
        let r : Answer Incident = granted (record i { components = l }) in r in
      let chain : (parse >>= next) ≡ granted i' = ground (arith, e, h) in
      let (l, k, r) = granted-inv parse next i' chain in
      let same : record i { components = l } ≡ i' =
        ap (λ (a : Answer Incident). elim a [ granted x ↦ x | refused _ ↦ i' ]) r in
      subst
        (λ (x : Incident).
          SameIncident i x
          × (is_some req.components ≡ true → All (IsReportable i.status_page_id db) x.components)
          × ((raw' : List IncidentComponentDto)
              → req.components ≡ some raw'
              → ListsAs o raw' x.components))
        same
        (
          record { id = refl; status_page_id = refl; current_status = refl; resolved_at = refl },
          λ _. parse_incident_components-IsReportable o i.status_page_id db raw l k,
          λ raw' e'.
              subst (λ q. ListsAs o q l) (ground (arith, e, e'))
                (parse_incident_components-ListsAs o i.status_page_id db raw l k),
        )
]
