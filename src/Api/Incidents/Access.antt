-- ===== src/Api/Incidents/Access.antt =====
-- Who may change incidents (backend/internal/api/incidents.go, with access.go).
use healthpage.Prelude.{
  String, ◌≡◌, refl, sym, ap, ◌∙◌, subst, Bool, true, false, not, Option, none, some, List, arith,
  if◌then◌else◌, is_some, ◌==◌, nat_comparable, string_comparable, All,
}
use healthpage.Page.{Uuid, Time}
use healthpage.Account.{StatusPage}
use healthpage.Incident.{
  Incident, IncidentComponent, is_valid, is_resolved, is_terminal, impact_is_valid,
  apply_status_change,
}
use healthpage.Store.{ok}
use healthpage.Store.Incidents.{incident_by_id}
use healthpage.Api.{
  bad_request, invalid_request, Answer, refused, granted, ◌>>=◌, or_refuse, ensure, Principal,
  World, Outside, loaded, authorize_page, resolve_managed_page,
}
use healthpage.Api.Answers.{
  granted_pair-inv, granted-inv, or_refuse-inv, ensure-inv, Owns, authorize_page-Owns, loaded-inv,
  resolve_managed_page-Owns,
}
use healthpage.Api.Incidents.{
  CreateIncident, PatchIncident, AddIncidentUpdate, reported_incident, checked_report, new_incident,
  started_at, changed_or_refused, authorized_incident, Patched, patched_incident,
  patch_incident_fields, patch_incident_components, checked_update, parse_incident_components,
}
use healthpage.Api.Incidents.{IncidentComponentDto}
use healthpage.Api.Incidents.Fields.{
  IsAsked, IsAsked-components, ListsAs, parse_incident_components-ListsAs, IsReportable,
  SameIncident, SameIncident-trans, patch_incident_fields_lem, patch_incident_components_lem,
  parse_incident_components-IsReportable,
}

-- The incident of the path is there, and the principal owns its page.
pub record MayChange (o : Outside) (principal : Option Principal) (raw_id : String) (w : World)
    (id : Uuid) (i : Incident) : Type 0 where
  pub parsed : o.uuid_parse raw_id ≡ some id
  pub is_there : incident_by_id id w.db ≡ ok i
  pub owner : Owns principal i.status_page_id w

-- What a patch lets through.
pub record IsPatch (o : Outside) (principal : Option Principal) (raw_id : String) (w : World)
    (body : Option PatchIncident) (p : Patched) : Type 0 where
  pub id : Uuid
  pub req : PatchIncident
  pub may_change : MayChange o principal raw_id w id p.before
  pub asked : body ≡ some req
  pub same : SameIncident p.before p.after
  pub postmortem : is_some req.postmortem ≡ true → is_resolved p.before ≡ true
  pub components :
      p.replaces ≡ true → All (IsReportable p.before.status_page_id w.db) p.after.components
  pub texts : IsAsked req p.before p.after
  pub replaces : p.replaces ≡ is_some req.components
  pub listed :
      (raw : List IncidentComponentDto)
      → req.components ≡ some raw
      → ListsAs o raw p.after.components

-- when a reported incident begins: now, where the request does not say it
abbrev pub Begins : Outside → Option String → Time → Time → Type 0
Begins o none now at = at ≡ now
Begins o (some raw) now at = elim (raw == "") [
  | true ↦ at ≡ now
  | false ↦ o.parse_time raw ≡ some at
]

started_at-Begins :
    (o : Outside) (raw : Option String) (now at : Time)
    → started_at o raw now ≡ granted at
    → Begins o raw now at
unfolding started_at
started_at-Begins o none now at h = ground (arith, h)
started_at-Begins o (some raw) now at h = go (raw == "") h
  where
    go :
        (b : Bool)
        → (if b then granted now else or_refuse (o.parse_time raw) invalid_request) ≡ granted at
        → (elim b as (λ _. Type 0) [ true ↦ at ≡ now | false ↦ o.parse_time raw ≡ some at ])
    go true h = ground (arith, h)
    go false h = or_refuse-inv (o.parse_time raw) invalid_request at h

-- What a report lets through.
pub record IsReport (o : Outside) (principal : Option Principal) (body : Option CreateIncident)
    (w : World) (i : Incident) (req : CreateIncident) : Type 0 where
  pub owner : Owns principal i.status_page_id w
  pub asked : body ≡ some req
  pub valid : is_valid req.status ≡ true
  pub status : i.current_status ≡ req.status
  pub resolved : i.resolved_at ≡ (if is_terminal req.status then some w.db.now else none)
  pub visible : i.is_visible ≡ true
  pub components : All (IsReportable i.status_page_id w.db) i.components
  pub listed : ListsAs o req.components i.components
  pub title : i.title ≡ req.title
  pub impact : i.impact ≡ req.impact
  pub begins : Begins o req.started_at w.db.now i.started_at

reported_as :
    (page_id : Uuid) (now : Time) (q : CreateIncident) (at : Time) (comps : List IncidentComponent)
    (x : Incident)
    → is_valid q.status ≡ true
    → changed_or_refused (apply_status_change q.status now (new_incident page_id q at comps))
      ≡ granted x
    → (x.status_page_id ≡ page_id)
      × (x.current_status ≡ q.status)
      × (x.resolved_at ≡ (if is_terminal q.status then some now else none))
      × (x.is_visible ≡ true)
      × (x.components ≡ comps)
      × (x.title ≡ q.title)
      × (x.impact ≡ q.impact)
      × (x.started_at ≡ at)
unfolding apply_status_change
reported_as page_id now q at comps x v h = (
  ground (arith, v, h),
  ground (arith, v, h),
  ground (arith, v, h),
  ground (arith, v, h),
  ground (arith, v, h),
  ground (arith, v, h),
  ground (arith, v, h),
  ground (arith, v, h),
)

module _ (o : Outside) (principal : Option Principal) (w : World) where
  authorized-MayChange :
      (raw_id : String) (id : Uuid) (i : Incident)
      → authorized_incident o principal raw_id w ≡ granted (id, i)
      → MayChange o principal raw_id w id i
  unfolding authorized_incident
  authorized-MayChange raw_id id i h =
      let (n, e, h1) =
        granted-inv (or_refuse (o.uuid_parse raw_id) bad_request)
          (λ n. loaded (incident_by_id n w.db) >>= λ x.
            authorize_page principal x.status_page_id w >>= λ _. granted (n, x))
          (id, i) h in
      let (x, k, h2) =
        granted-inv (loaded (incident_by_id n w.db))
          (λ x. authorize_page principal x.status_page_id w >>= λ _. granted (n, x)) (id, i) h1 in
      let (page, p, r) =
        granted-inv (authorize_page principal x.status_page_id w) (λ _. granted (n, x)) (id, i)
          h2 in
      let (same_id, same) = granted_pair-inv n id x i r in
      record {
        parsed = or_refuse-inv (o.uuid_parse raw_id) bad_request n e ∙ ap (λ z. some z) same_id;
        is_there =
            ap (λ z. incident_by_id z w.db) (sym same_id)
            ∙ loaded-inv (incident_by_id n w.db) x k
            ∙ ap (λ z. ok z) same;
        owner =
            subst (λ (z : Incident). Owns principal z.status_page_id w) same
              (authorize_page-Owns principal x.status_page_id w page p);
      }

  patched-IsPatch :
      (raw_id : String) (body : Option PatchIncident) (p : Patched)
      → patched_incident o principal raw_id body w ≡ granted p
      → IsPatch o principal raw_id w body p
  unfolding patched_incident
  patched-IsPatch raw_id body p h =
      let result = λ (i : Incident) (req : PatchIncident) (i' : Incident).
        let r : Patched = record { before = i; after = i'; replaces = is_some req.components } in
        r in
      let (found, e, h1) =
        granted-inv (authorized_incident o principal raw_id w)
          (λ found. or_refuse body bad_request >>= λ req. patch_incident_fields req found.1 >>= λ x.
            patch_incident_components o req w.db x >>= λ y. granted (result found.1 req y))
          p h in
      let (req, k, h2) =
        granted-inv (or_refuse body bad_request)
          (λ req. patch_incident_fields req found.1 >>= λ x.
            patch_incident_components o req w.db x >>= λ y. granted (result found.1 req y))
          p h1 in
      let (x, fields, h3) =
        granted-inv (patch_incident_fields req found.1)
          (λ x. patch_incident_components o req w.db x >>= λ y. granted (result found.1 req y)) p
          h2 in
      let (y, comps, r) =
        granted-inv (patch_incident_components o req w.db x) (λ y. granted (result found.1 req y)) p
          h3 in
      let same : result found.1 req y ≡ p =
        ap (λ (a : Answer Patched). elim a [ granted z ↦ z | refused _ ↦ p ]) r in
      let (first, resolved, texts) = patch_incident_fields_lem req found.1 x fields in
      let (second, listed, named) = patch_incident_components_lem o req w.db x y comps in
      subst (IsPatch o principal raw_id w body) same (record {
        id = found.0;
        req = req;
        may_change = authorized-MayChange raw_id found.0 found.1 e;
        asked = or_refuse-inv body bad_request req k;
        same = SameIncident-trans first second;
        postmortem = resolved;
        components = λ all.
            subst (λ page. All (IsReportable page w.db) y.components) first.status_page_id
              (listed all);
        texts = IsAsked-components o req w.db found.1 x y texts comps;
        replaces = refl;
        listed = named;
      })

  updated-MayChange :
      (raw_id : String) (body : Option AddIncidentUpdate) (id : Uuid) (req : AddIncidentUpdate)
      → checked_update o principal raw_id body w ≡ granted (id, req)
      → ((i : Incident) × MayChange o principal raw_id w id i) × (is_valid req.status ≡ true)
  unfolding checked_update
  updated-MayChange raw_id body id req h =
      let tests = λ (n : Uuid) (q : AddIncidentUpdate).
        ensure (is_valid q.status) invalid_request >>= λ _.
        ensure (not (q.body == "")) invalid_request >>= λ _. granted (n, q) in
      let (found, e, h1) =
        granted-inv (authorized_incident o principal raw_id w)
          (λ found. or_refuse body bad_request >>= λ q. tests found.0 q) (id, req) h in
      let (q, _, h2) =
        granted-inv (or_refuse body bad_request) (λ q. tests found.0 q) (id, req) h1 in
      let (u, v, h3) =
        granted-inv (ensure (is_valid q.status) invalid_request)
          (λ _. ensure (not (q.body == "")) invalid_request >>= λ _. granted (found.0, q)) (id, req)
          h2 in
      let (_, _, r) =
        granted-inv (ensure (not (q.body == "")) invalid_request) (λ _. granted (found.0, q))
          (id, req) h3 in
      let (same_id, same) = granted_pair-inv found.0 id q req r in
      (
        (
          found.1,
          subst (λ n. MayChange o principal raw_id w n found.1) same_id
              (authorized-MayChange raw_id found.0 found.1 e),
        ),
        subst (λ (x : AddIncidentUpdate). is_valid x.status ≡ true) same
            (ensure-inv (is_valid q.status) invalid_request u v),
      )

  checked-IsReport :
      (body : Option CreateIncident) (page : StatusPage) (q : CreateIncident) (i : Incident)
      (req : CreateIncident)
      → body ≡ some q
      → checked_report o page.id w q ≡ granted (i, req)
      → Owns principal page.id w
      → IsReport o principal body w i req
  unfolding checked_report
  checked-IsReport body page q i req asked h owner =
      let parse = parse_incident_components o page.id w.db q.components in
      let last = λ (comps : List IncidentComponent) (at : Time).
        changed_or_refused (apply_status_change q.status w.db.now (new_incident page.id q at comps))
        >>= λ x. granted (x, q) in
      let rest = λ (comps : List IncidentComponent).
        started_at o q.started_at w.db.now >>= λ at. last comps at in
      let (_, _, h1) =
        granted-inv (ensure (not (q.title == "")) invalid_request)
          (λ _. ensure (not (q.body == "")) invalid_request >>= λ _.
            ensure (is_valid q.status) invalid_request >>= λ _.
            ensure (impact_is_valid q.impact) invalid_request >>= λ _. parse >>= rest)
          (i, req) h in
      let (_, _, h2) =
        granted-inv (ensure (not (q.body == "")) invalid_request)
          (λ _. ensure (is_valid q.status) invalid_request >>= λ _.
            ensure (impact_is_valid q.impact) invalid_request >>= λ _. parse >>= rest)
          (i, req) h1 in
      let (u, v, h3) =
        granted-inv (ensure (is_valid q.status) invalid_request)
          (λ _. ensure (impact_is_valid q.impact) invalid_request >>= λ _. parse >>= rest) (i, req)
          h2 in
      let (_, _, h4) =
        granted-inv (ensure (impact_is_valid q.impact) invalid_request) (λ _. parse >>= rest)
          (i, req) h3 in
      let (comps, listed, h5) = granted-inv parse rest (i, req) h4 in
      let (at, time, h6) =
        granted-inv (started_at o q.started_at w.db.now) (λ at. last comps at) (i, req) h5 in
      let (x, k, r) =
        granted-inv
          (changed_or_refused
            (apply_status_change q.status w.db.now (new_incident page.id q at comps)))
          (λ x. granted (x, q)) (i, req) h6 in
      let valid = ensure-inv (is_valid q.status) invalid_request u v in
      let new = reported_as page.id w.db.now q at comps x valid k in
      let (is_i, is_req) = granted_pair-inv x i q req r in
      subst (λ y. IsReport o principal body w y req) is_i
        (subst (λ y. IsReport o principal body w x y) is_req
          (record {
            owner = subst (λ n. Owns principal n w) (sym new.0) owner;
            asked = asked;
            valid = valid;
            status = new.1;
            resolved = new.2;
            visible = new.3;
            components =
                subst (λ n. All (IsReportable n w.db) x.components) (sym new.0)
                  (subst (All (IsReportable page.id w.db)) (sym new.4) (
                    parse_incident_components-IsReportable o page.id w.db q.components comps
                      listed));
            listed =
                subst (ListsAs o q.components) (sym new.4)
                  (parse_incident_components-ListsAs o page.id w.db q.components comps listed);
            title = new.5;
            impact = new.6;
            begins =
                subst (Begins o q.started_at w.db.now) (sym new.7)
                  (started_at-Begins o q.started_at w.db.now at time);
          }))

  reported-IsReport :
      (body : Option CreateIncident) (i : Incident) (req : CreateIncident)
      → reported_incident o principal body w ≡ granted (i, req)
      → IsReport o principal body w i req
  unfolding reported_incident
  reported-IsReport body i req h =
      let (q, asked, h1) =
        granted-inv (or_refuse body bad_request)
          (λ q. resolve_managed_page o principal q.status_page_id w >>= λ page.
            checked_report o page.id w q)
          (i, req) h in
      let (page, e, h2) =
        granted-inv (resolve_managed_page o principal q.status_page_id w)
          (λ page. checked_report o page.id w q) (i, req) h1 in
      checked-IsReport body page q i req (or_refuse-inv body bad_request q asked) h2
        (resolve_managed_page-Owns o principal q.status_page_id w page e)

  pub incident_requests-authorized :
      (raw_id : String)
      → ((body : Option PatchIncident) (p : Patched)
          → patched_incident o principal raw_id body w ≡ granted p
          → IsPatch o principal raw_id w body p)
        × ((id : Uuid) (i : Incident)
            → authorized_incident o principal raw_id w ≡ granted (id, i)
            → MayChange o principal raw_id w id i)
        × ((body : Option AddIncidentUpdate) (id : Uuid) (req : AddIncidentUpdate)
            → checked_update o principal raw_id body w ≡ granted (id, req)
            → ((i : Incident) × MayChange o principal raw_id w id i) × (is_valid req.status ≡ true))
        × ((body : Option CreateIncident) (i : Incident) (req : CreateIncident)
            → reported_incident o principal body w ≡ granted (i, req)
            → IsReport o principal body w i req)
  incident_requests-authorized raw_id = (
    patched-IsPatch raw_id,
    authorized-MayChange raw_id,
    updated-MayChange raw_id,
    reported-IsReport,
  )
