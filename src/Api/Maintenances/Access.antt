-- ===== src/Api/Maintenances/Access.antt =====
-- Who may change works (backend/internal/api/maintenances.go, with access.go).
use healthpage.Prelude.{
  ◌<◌, String, ◌≡◌, refl, sym, ap, ◌∙◌, subst, true, not, Option, some, List, arith, is_some, ◌==◌,
  nat_comparable, string_comparable, All,
}
use healthpage.Page.{Uuid, Time}
use healthpage.Account.{StatusPage}
use healthpage.Maintenance.{Maintenance, scheduled, validate_schedule}
use healthpage.Store.{ok}
use healthpage.Store.Maintenances.{maintenance_by_id}
use healthpage.Api.{
  bad_request, invalid_request, Answer, refused, granted, ◌>>=◌, or_refuse, ensure, Principal,
  World, Outside, loaded, authorize_page, resolve_managed_page,
}
use healthpage.Api.Answers.{
  granted_pair-inv, IsOnPage, granted-inv, or_refuse-inv, Owns, authorize_page-Owns, loaded-inv,
  resolve_managed_page-Owns,
}
use healthpage.Api.Maintenances.{
  CreateMaintenance, PatchMaintenance, AddMaintenanceUpdate, planned_maintenance, new_maintenance,
  authorized_maintenance, Patched, patched_maintenance, patch_maintenance_fields, checked_update,
  parse_maintenance_components, parse_rfc3339, schedule_checked,
}
use healthpage.Api.Maintenances.Fields.{
  IsAsked, ListsAs, parse_maintenance_components-ListsAs, SameWorks, stage_after,
  patch_maintenance_fields_lem, parse_maintenance_components-IsOnPage,
}

-- The works of the path are there, and the principal owns their page.
pub record MayChange (o : Outside) (principal : Option Principal) (raw_id : String) (w : World)
    (id : Uuid) (m : Maintenance) : Type 0 where
  pub parsed : o.uuid_parse raw_id ≡ some id
  pub is_there : maintenance_by_id id w.db ≡ ok m
  pub owner : Owns principal m.status_page_id w

-- What a patch lets through.
pub record IsPatch (o : Outside) (principal : Option Principal) (raw_id : String) (w : World)
    (body : Option PatchMaintenance) (p : Patched) : Type 0 where
  pub id : Uuid
  pub req : PatchMaintenance
  pub may_change : MayChange o principal raw_id w id p.before
  pub asked : body ≡ some req
  pub same : SameWorks p.before p.after
  pub stage : p.after.status ≡ stage_after req p.before
  pub components :
      p.replaces ≡ true → All (IsOnPage p.before.status_page_id w.db) p.after.component_ids
  pub texts : IsAsked o req p.before p.after
  pub replaces : p.replaces ≡ is_some req.component_ids
  pub listed :
      (raw : List String) → req.component_ids ≡ some raw → ListsAs o raw p.after.component_ids

-- What a request for new works lets through.
pub record IsPlan (o : Outside) (principal : Option Principal) (body : Option CreateMaintenance)
    (w : World) (m : Maintenance) (req : CreateMaintenance) : Type 0 where
  pub owner : Owns principal m.status_page_id w
  pub asked : body ≡ some req
  pub stage : m.status ≡ scheduled
  pub ordered : m.scheduled_start < m.scheduled_end
  pub components : All (IsOnPage m.status_page_id w.db) m.component_ids
  pub title : m.title ≡ req.title
  pub description : m.description ≡ req.description
  pub start : o.parse_time req.scheduled_start ≡ some m.scheduled_start
  pub finish : o.parse_time req.scheduled_end ≡ some m.scheduled_end
  pub listed : ListsAs o req.component_ids m.component_ids

time_parsed :
    (o : Outside) (raw : String) (t : Time)
    → parse_rfc3339 o raw ≡ granted t
    → o.parse_time raw ≡ some t
unfolding parse_rfc3339
time_parsed o raw t h = ground (arith, h)

module _ (o : Outside) (principal : Option Principal) (w : World) where
  authorized-MayChange :
      (raw_id : String) (id : Uuid) (m : Maintenance)
      → authorized_maintenance o principal raw_id w ≡ granted (id, m)
      → MayChange o principal raw_id w id m
  unfolding authorized_maintenance
  authorized-MayChange raw_id id m h =
      let (i, e, h1) =
        granted-inv (or_refuse (o.uuid_parse raw_id) bad_request)
          (λ i. loaded (maintenance_by_id i w.db) >>= λ x.
            authorize_page principal x.status_page_id w >>= λ _. granted (i, x))
          (id, m) h in
      let (x, k, h2) =
        granted-inv (loaded (maintenance_by_id i w.db))
          (λ x. authorize_page principal x.status_page_id w >>= λ _. granted (i, x)) (id, m) h1 in
      let (page, p, r) =
        granted-inv (authorize_page principal x.status_page_id w) (λ _. granted (i, x)) (id, m)
          h2 in
      let same_id : i ≡ id =
        ap (λ (a : Answer (Uuid × Maintenance)). elim a [ granted y ↦ y.0 | refused _ ↦ i ]) r in
      let same : x ≡ m =
        ap (λ (a : Answer (Uuid × Maintenance)). elim a [ granted y ↦ y.1 | refused _ ↦ x ]) r in
      record {
        parsed = or_refuse-inv (o.uuid_parse raw_id) bad_request i e ∙ ap (λ z. some z) same_id;
        is_there =
            ap (λ z. maintenance_by_id z w.db) (sym same_id)
            ∙ loaded-inv (maintenance_by_id i w.db) x k
            ∙ ap (λ z. ok z) same;
        owner =
            subst (λ (z : Maintenance). Owns principal z.status_page_id w) same
              (authorize_page-Owns principal x.status_page_id w page p);
      }

  patched-IsPatch :
      (raw_id : String) (body : Option PatchMaintenance) (p : Patched)
      → patched_maintenance o principal raw_id body w ≡ granted p
      → IsPatch o principal raw_id w body p
  unfolding patched_maintenance
  patched-IsPatch raw_id body p h =
      let result = λ (m : Maintenance) (req : PatchMaintenance) (m' : Maintenance).
        let r : Patched = record { before = m; after = m'; replaces = is_some req.component_ids } in
        r in
      let (found, e, h1) =
        granted-inv (authorized_maintenance o principal raw_id w)
          (λ found. or_refuse body bad_request >>= λ req.
            patch_maintenance_fields o req w.db found.1 >>= λ m'. granted (result found.1 req m'))
          p h in
      let (req, k, h2) =
        granted-inv (or_refuse body bad_request)
          (λ req.
            patch_maintenance_fields o req w.db found.1 >>= λ m'. granted (result found.1 req m'))
          p h1 in
      let (m', f, r) =
        granted-inv (patch_maintenance_fields o req w.db found.1)
          (λ m'. granted (result found.1 req m')) p h2 in
      let same : result found.1 req m' ≡ p =
        ap (λ (a : Answer Patched). elim a [ granted y ↦ y | refused _ ↦ p ]) r in
      let (works, stage, listed, texts, named) =
        patch_maintenance_fields_lem o req w.db found.1 m' f in
      subst (IsPatch o principal raw_id w body) same (record {
        id = found.0;
        req = req;
        may_change = authorized-MayChange raw_id found.0 found.1 e;
        asked = or_refuse-inv body bad_request req k;
        same = works;
        stage = stage;
        components = listed;
        texts = texts;
        replaces = refl;
        listed = named;
      })

  updated-MayChange :
      (raw_id : String) (body : Option AddMaintenanceUpdate) (id : Uuid)
      (req : AddMaintenanceUpdate)
      → checked_update o principal raw_id body w ≡ granted (id, req)
      → (m : Maintenance) × MayChange o principal raw_id w id m
  unfolding checked_update
  updated-MayChange raw_id body id req h =
      let (found, e, h1) =
        granted-inv (authorized_maintenance o principal raw_id w)
          (λ found. or_refuse body bad_request >>= λ q.
            ensure (not (q.body == "")) invalid_request >>= λ _. granted (found.0, q))
          (id, req) h in
      let (q, _, h2) =
        granted-inv (or_refuse body bad_request)
          (λ q. ensure (not (q.body == "")) invalid_request >>= λ _. granted (found.0, q)) (id, req)
          h1 in
      let (_, _, r) =
        granted-inv (ensure (not (q.body == "")) invalid_request) (λ _. granted (found.0, q))
          (id, req) h2 in
      let same : found.0 ≡ id =
        ap
          (λ (a : Answer (Uuid × AddMaintenanceUpdate)). elim a [
            | granted y ↦ y.0
            | refused _ ↦ id
          ])
          r in
      (
        found.1,
        subst (λ i. MayChange o principal raw_id w i found.1) same
            (authorized-MayChange raw_id found.0 found.1 e),
      )

  -- what is left of the checks on new works, once the page and the title are known
  rest_of_plan : StatusPage → CreateMaintenance → Answer (Maintenance × CreateMaintenance)
  rest_of_plan page req = do
    start ← parse_rfc3339 o req.scheduled_start
    end ← parse_rfc3339 o req.scheduled_end
    ids ← parse_maintenance_components o page.id w.db req.component_ids
    m ← schedule_checked (new_maintenance page.id req start end ids)
    granted (m, req)

  schedule_lets :
      (m m' : Maintenance)
      → schedule_checked m ≡ granted m'
      → (m ≡ m') × (m.scheduled_start < m.scheduled_end)
  unfolding validate_schedule
  schedule_lets m m' h = (ground (arith, h), ground (arith, h))

  rest_of_plan-IsPlan :
      (body : Option CreateMaintenance) (page : StatusPage) (req : CreateMaintenance)
      (m : Maintenance) (q : CreateMaintenance)
      → body ≡ some req
      → rest_of_plan page req ≡ granted (m, q)
      → Owns principal page.id w
      → IsPlan o principal body w m q
  unfolding rest_of_plan
  rest_of_plan-IsPlan body page req m q asked h owner =
      let parse = parse_maintenance_components o page.id w.db req.component_ids in
      let last = λ (start end : Time) (ids : List Uuid).
        schedule_checked (new_maintenance page.id req start end ids) >>= λ x. granted (x, req) in
      let (start, starts, h1) =
        granted-inv (parse_rfc3339 o req.scheduled_start)
          (λ start.
            parse_rfc3339 o req.scheduled_end >>= λ end. parse >>= λ ids. last start end ids)
          (m, q) h in
      let (end, ends_at, h2) =
        granted-inv (parse_rfc3339 o req.scheduled_end) (λ end. parse >>= λ ids. last start end ids)
          (m, q) h1 in
      let (ids, e, h3) = granted-inv parse (λ ids. last start end ids) (m, q) h2 in
      let (x, k, r) =
        granted-inv (schedule_checked (new_maintenance page.id req start end ids))
          (λ x. granted (x, req)) (m, q) h3 in
      let (plan, ends) = schedule_lets (new_maintenance page.id req start end ids) x k in
      let (is_m, same_req) = granted_pair-inv x m req q r in
      let same = plan ∙ is_m in
      subst (λ y. IsPlan o principal body w m y) same_req
        (subst (λ y. IsPlan o principal body w y req) same
          (record {
            owner = owner;
            asked = asked;
            stage = refl;
            ordered = ends;
            components =
                parse_maintenance_components-IsOnPage o page.id w.db req.component_ids ids e;
            title = refl;
            description = refl;
            start = time_parsed o req.scheduled_start start starts;
            finish = time_parsed o req.scheduled_end end ends_at;
            listed = parse_maintenance_components-ListsAs o page.id w.db req.component_ids ids e;
          }))

  planned-IsPlan :
      (body : Option CreateMaintenance) (m : Maintenance) (req : CreateMaintenance)
      → planned_maintenance o principal body w ≡ granted (m, req)
      → IsPlan o principal body w m req
  unfolding planned_maintenance rest_of_plan
  planned-IsPlan body m req h =
      let (q, asked, h1) =
        granted-inv (or_refuse body bad_request)
          (λ q. resolve_managed_page o principal q.status_page_id w >>= λ page.
            ensure (not (q.title == "")) invalid_request >>= λ _. rest_of_plan page q)
          (m, req) h in
      let (page, e, h2) =
        granted-inv (resolve_managed_page o principal q.status_page_id w)
          (λ page. ensure (not (q.title == "")) invalid_request >>= λ _. rest_of_plan page q)
          (m, req) h1 in
      let (_, _, h3) =
        granted-inv (ensure (not (q.title == "")) invalid_request) (λ _. rest_of_plan page q)
          (m, req) h2 in
      rest_of_plan-IsPlan body page q m req (or_refuse-inv body bad_request q asked) h3
        (resolve_managed_page-Owns o principal q.status_page_id w page e)

  pub maintenance_requests-authorized :
      (raw_id : String)
      → ((body : Option PatchMaintenance) (p : Patched)
          → patched_maintenance o principal raw_id body w ≡ granted p
          → IsPatch o principal raw_id w body p)
        × ((id : Uuid) (m : Maintenance)
            → authorized_maintenance o principal raw_id w ≡ granted (id, m)
            → MayChange o principal raw_id w id m)
        × ((body : Option AddMaintenanceUpdate) (id : Uuid) (req : AddMaintenanceUpdate)
            → checked_update o principal raw_id body w ≡ granted (id, req)
            → (m : Maintenance) × MayChange o principal raw_id w id m)
        × ((body : Option CreateMaintenance) (m : Maintenance) (req : CreateMaintenance)
            → planned_maintenance o principal body w ≡ granted (m, req)
            → IsPlan o principal body w m req)
  maintenance_requests-authorized raw_id = (
    patched-IsPatch raw_id,
    authorized-MayChange raw_id,
    updated-MayChange raw_id,
    planned-IsPlan,
  )
