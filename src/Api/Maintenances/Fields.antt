-- ===== src/Api/Maintenances/Fields.antt =====
-- What the checks of a request on works let through
-- (backend/internal/api/maintenances.go, handlePatchMaintenance and parseMaintenanceComponents).
use healthpage.Prelude.{
  ◌<◌, String, ◌≡◌, refl, sym, ap, ◌∙◌, subst, inl, inr, true, ◌||◌, Option, none, some, List, [],
  ◌∷◌, map, arith, Option-cases, is_some, ◌==◌, nat_equal_iff, nat_comparable, string_comparable,
  All,
}
use healthpage.Page.{Uuid, Time}
use healthpage.Maintenance.{
  validate_schedule, Maintenance, MaintenanceStatus, is_valid, apply_status_change,
}
use healthpage.Store.{Db}
use healthpage.Store.Queries.{find_component}
use healthpage.Api.{
  Answer, invalid_request, Answer, refused, granted, ◌>>=◌, or_refuse, ensure, Outside,
}
use healthpage.Api.Answers.{IsOnPage, granted-inv, ensure-inv, or_refuse-inv}
use healthpage.Api.Maintenances.{
  PatchMaintenance, parse_maintenance_components, parse_rfc3339, patch_schedule, patch_status,
  patch_components, patch_maintenance_fields,
}

pub parse_maintenance_components-IsOnPage :
    (o : Outside) (page_id : Uuid) (db : Db) (raw : List String) (ids : List Uuid)
    → parse_maintenance_components o page_id db raw ≡ granted ids
    → All (IsOnPage page_id db) ids
unfolding parse_maintenance_components
parse_maintenance_components-IsOnPage o page_id db [] ids h =
    subst (All (IsOnPage page_id db)) (ap (λ a. elim a [ granted l ↦ l | refused _ ↦ [] ]) h) tt
parse_maintenance_components-IsOnPage o page_id db (raw ∷ rest) ids h =
    let (cid, _, h1) =
      granted-inv (or_refuse (o.uuid_parse raw) invalid_request)
        (λ cid. or_refuse (find_component cid db) invalid_request >>= λ comp.
          ensure (comp.status_page_id == page_id) invalid_request >>= λ _.
          parse_maintenance_components o page_id db rest >>= λ l. granted (cid ∷ l))
        ids h in
    let (comp, e, h2) =
      granted-inv (or_refuse (find_component cid db) invalid_request)
        (λ comp. ensure (comp.status_page_id == page_id) invalid_request >>= λ _.
          parse_maintenance_components o page_id db rest >>= λ l. granted (cid ∷ l))
        ids h1 in
    let (u, k, h3) =
      granted-inv (ensure (comp.status_page_id == page_id) invalid_request)
        (λ _. parse_maintenance_components o page_id db rest >>= λ l. granted (cid ∷ l)) ids h2 in
    let (l, m, h4) =
      granted-inv (parse_maintenance_components o page_id db rest) (λ l. granted (cid ∷ l)) ids
        h3 in
    subst (All (IsOnPage page_id db)) (ap (λ a. elim a [ granted l ↦ l | refused _ ↦ [] ]) h4) (
      record {
        component = comp;
        is_there = or_refuse-inv (find_component cid db) invalid_request comp e;
        belongs =
            (nat_equal_iff comp.status_page_id page_id).0
              (ensure-inv (comp.status_page_id == page_id) invalid_request u k);
      },
      parse_maintenance_components-IsOnPage o page_id db rest l m,
    )

-- the components that a request lists, in its order
abbrev pub ListsAs : Outside → List String → List Uuid → Type 0
ListsAs o raw ids = map {B = Option Uuid} (λ id. some id) ids ≡ map (λ text. o.uuid_parse text) raw

pub parse_maintenance_components-ListsAs :
    (o : Outside) (page_id : Uuid) (db : Db) (raw : List String) (ids : List Uuid)
    → parse_maintenance_components o page_id db raw ≡ granted ids
    → ListsAs o raw ids
unfolding parse_maintenance_components
parse_maintenance_components-ListsAs o page_id db [] ids h =
    subst (ListsAs o []) (ap (λ a. elim a [ granted l ↦ l | refused _ ↦ [] ]) h) refl
parse_maintenance_components-ListsAs o page_id db (raw ∷ rest) ids h =
    let (cid, parsed, h1) =
      granted-inv (or_refuse (o.uuid_parse raw) invalid_request)
        (λ cid. or_refuse (find_component cid db) invalid_request >>= λ comp.
          ensure (comp.status_page_id == page_id) invalid_request >>= λ _.
          parse_maintenance_components o page_id db rest >>= λ l. granted (cid ∷ l))
        ids h in
    let (comp, _, h2) =
      granted-inv (or_refuse (find_component cid db) invalid_request)
        (λ comp. ensure (comp.status_page_id == page_id) invalid_request >>= λ _.
          parse_maintenance_components o page_id db rest >>= λ l. granted (cid ∷ l))
        ids h1 in
    let (_, _, h3) =
      granted-inv (ensure (comp.status_page_id == page_id) invalid_request)
        (λ _. parse_maintenance_components o page_id db rest >>= λ l. granted (cid ∷ l)) ids h2 in
    let (l, m, h4) =
      granted-inv (parse_maintenance_components o page_id db rest) (λ l. granted (cid ∷ l)) ids
        h3 in
    let first = or_refuse-inv (o.uuid_parse raw) invalid_request cid parsed in
    let later = parse_maintenance_components-ListsAs o page_id db rest l m in
    subst (ListsAs o (raw ∷ rest)) (ap (λ a. elim a [ granted l ↦ l | refused _ ↦ [] ]) h4) (
      ap (λ (x : Option Uuid). x ∷ map (λ (id : Uuid). some id) l) (sym first)
      ∙ ap (λ (t : List (Option Uuid)). o.uuid_parse raw ∷ t) later)

-- a time that a patch sets or leaves
abbrev pub SetsTime : Outside → Option String → Time → Time → Type 0
SetsTime o none old new = new ≡ old
SetsTime o (some raw) old new = o.parse_time raw ≡ some new

-- The texts and times are those of the patch where it gives them, and the others stay; new times
-- are in order.
pub record IsAsked (o : Outside) (req : PatchMaintenance) (m m' : Maintenance) : Type 0 where
  pub title : m'.title ≡ (elim req.title [ none ↦ m.title | some x ↦ x ])
  pub description : m'.description ≡ (elim req.description [ none ↦ m.description | some x ↦ x ])
  pub start : SetsTime o req.scheduled_start m.scheduled_start m'.scheduled_start
  pub finish : SetsTime o req.scheduled_end m.scheduled_end m'.scheduled_end
  pub ordered :
      (is_some req.scheduled_start || is_some req.scheduled_end) ≡ true
      → m'.scheduled_start < m'.scheduled_end

start_set :
    (o : Outside) (req : PatchMaintenance) (m m' : Maintenance) (raw : Option String)
    → req.scheduled_start ≡ raw
    → patch_schedule o req m ≡ granted m'
    → SetsTime o raw m.scheduled_start m'.scheduled_start
unfolding patch_schedule parse_rfc3339
start_set o req m m' none e h = ground (arith, e, h)
start_set o req m m' (some raw) e h = ground (arith, e, h)

finish_set :
    (o : Outside) (req : PatchMaintenance) (m m' : Maintenance) (raw : Option String)
    → req.scheduled_end ≡ raw
    → patch_schedule o req m ≡ granted m'
    → SetsTime o raw m.scheduled_end m'.scheduled_end
unfolding patch_schedule parse_rfc3339
finish_set o req m m' none e h = ground (arith, e, h)
finish_set o req m m' (some raw) e h = ground (arith, e, h)

schedule-IsAsked :
    (o : Outside) (req : PatchMaintenance) (m m' : Maintenance)
    → patch_schedule o req m ≡ granted m'
    → IsAsked o req m m'
unfolding patch_schedule parse_rfc3339 validate_schedule
schedule-IsAsked o req m m' h = record {
  title = ground (arith, h);
  description = ground (arith, h);
  start = start_set o req m m' req.scheduled_start refl h;
  finish = finish_set o req m m' req.scheduled_end refl h;
  ordered = λ some_time. ground (arith, h, some_time);
}

status_keeps_texts :
    (req : PatchMaintenance) (now : Time) (m m' : Maintenance)
    → patch_status req now m ≡ granted m'
    → (m'.title ≡ m.title)
      × (m'.description ≡ m.description)
      × (m'.scheduled_start ≡ m.scheduled_start)
      × (m'.scheduled_end ≡ m.scheduled_end)
unfolding patch_status apply_status_change is_valid
status_keeps_texts req now m m' h =
    (ground (arith, h), ground (arith, h), ground (arith, h), ground (arith, h))

components_keep_texts :
    (o : Outside) (req : PatchMaintenance) (db : Db) (m m' : Maintenance)
    → patch_components o req db m ≡ granted m'
    → (m'.title ≡ m.title)
      × (m'.description ≡ m.description)
      × (m'.scheduled_start ≡ m.scheduled_start)
      × (m'.scheduled_end ≡ m.scheduled_end)
unfolding patch_components
components_keep_texts o req db m m' h =
    (ground (arith, h), ground (arith, h), ground (arith, h), ground (arith, h))

IsAsked-same :
    (o : Outside) (req : PatchMaintenance) (m x y : Maintenance)
    → IsAsked o req m x
    → (y.title ≡ x.title)
      × (y.description ≡ x.description)
      × (y.scheduled_start ≡ x.scheduled_start)
      × (y.scheduled_end ≡ x.scheduled_end)
    → IsAsked o req m y
IsAsked-same o req m x y a (t, d, s, e) = record {
  title = t ∙ a.title;
  description = d ∙ a.description;
  start = subst (SetsTime o req.scheduled_start m.scheduled_start) (sym s) a.start;
  finish = subst (SetsTime o req.scheduled_end m.scheduled_end) (sym e) a.finish;
  ordered = λ h. let before = a.ordered h in omega (arith, before, s, e);
}

-- The same works, on the same page.
pub record SameWorks (m m' : Maintenance) : Type 0 where
  pub id : m'.id ≡ m.id
  pub status_page_id : m'.status_page_id ≡ m.status_page_id

-- the stage after a patch
abbrev pub stage_after : PatchMaintenance → Maintenance → MaintenanceStatus
stage_after req m = elim req.status [ none ↦ m.status | some s ↦ s ]

schedule_kept :
    (o : Outside) (req : PatchMaintenance) (m m' : Maintenance)
    → patch_schedule o req m ≡ granted m'
    → SameWorks m m' × (m'.status ≡ m.status)
unfolding patch_schedule parse_rfc3339
schedule_kept o req m m' h =
    (record { id = ground (arith, h); status_page_id = ground (arith, h) }, ground (arith, h))

status_kept :
    (req : PatchMaintenance) (now : Time) (m m' : Maintenance)
    → patch_status req now m ≡ granted m'
    → SameWorks m m' × (m'.status ≡ stage_after req m)
unfolding patch_status apply_status_change is_valid
status_kept req now m m' h =
    (record { id = ground (arith, h); status_page_id = ground (arith, h) }, ground (arith, h))

components_kept :
    (o : Outside) (req : PatchMaintenance) (db : Db) (m m' : Maintenance)
    → patch_components o req db m ≡ granted m'
    → SameWorks m m' × (m'.status ≡ m.status)
unfolding patch_components
components_kept o req db m m' h =
    (record { id = ground (arith, h); status_page_id = ground (arith, h) }, ground (arith, h))

components_named :
    (o : Outside) (req : PatchMaintenance) (db : Db) (m m' : Maintenance) (raw : List String)
    → patch_components o req db m ≡ granted m'
    → req.component_ids ≡ some raw
    → ListsAs o raw m'.component_ids
unfolding patch_components
components_named o req db m m' raw h e =
    let parse = parse_maintenance_components o m.status_page_id db raw in
    let all : (parse >>= λ ids. granted (record m { component_ids = ids })) ≡ granted m' =
      ground (arith, e, h) in
    let (ids, k, r) =
      granted-inv parse (λ ids. granted (record m { component_ids = ids })) m' all in
    subst (ListsAs o raw)
      (ap (λ (a : Answer Maintenance). elim a [ granted x ↦ x.component_ids | refused _ ↦ [] ]) r)
      (parse_maintenance_components-ListsAs o m.status_page_id db raw ids k)

components_listed :
    (o : Outside) (req : PatchMaintenance) (db : Db) (m m' : Maintenance)
    → patch_components o req db m ≡ granted m'
    → is_some req.component_ids ≡ true
    → All (IsOnPage m.status_page_id db) m'.component_ids
unfolding patch_components
components_listed o req db m m' h listed = elim (Option-cases req.component_ids) [
  | inl n ↦ absurd (ground (arith, n, listed))
  | inr (raw, e) ↦
      let parse = parse_maintenance_components o m.status_page_id db raw in
      let all : (parse >>= λ ids. granted (record m { component_ids = ids })) ≡ granted m' =
        ground (arith, e, h) in
      let (ids, k, r) =
        granted-inv parse (λ ids. granted (record m { component_ids = ids })) m' all in
      subst (All (IsOnPage m.status_page_id db))
        (ap (λ (a : Answer Maintenance). elim a [ granted x ↦ x.component_ids | refused _ ↦ [] ]) r)
        (parse_maintenance_components-IsOnPage o m.status_page_id db raw ids k)
]

-- What a patch lets through are the same works, in the stage that it asks for, and the components
-- that it lists are on their page.
pub patch_maintenance_fields_lem :
    (o : Outside) (req : PatchMaintenance) (db : Db) (m m' : Maintenance)
    → patch_maintenance_fields o req db m ≡ granted m'
    → SameWorks m m'
      × (m'.status ≡ stage_after req m)
      × (is_some req.component_ids ≡ true → All (IsOnPage m.status_page_id db) m'.component_ids)
      × IsAsked o req m m'
      × ((raw : List String) → req.component_ids ≡ some raw → ListsAs o raw m'.component_ids)
unfolding patch_maintenance_fields
patch_maintenance_fields_lem o req db m m' h =
    let (m1, e1, h1) =
      granted-inv (patch_schedule o req m)
        (λ x. patch_status req db.now x >>= patch_components o req db) m' h in
    let (m2, e2, h2) = granted-inv (patch_status req db.now m1) (patch_components o req db) m' h1 in
    let (same1, stage1) = schedule_kept o req m m1 e1 in
    let (same2, stage2) = status_kept req db.now m1 m2 e2 in
    let (same3, stage3) = components_kept o req db m2 m' h2 in
    let page = same2.status_page_id ∙ same1.status_page_id in
    (
      record { id = same3.id ∙ same2.id ∙ same1.id; status_page_id = same3.status_page_id ∙ page },
      stage3 ∙ stage2 ∙ ap (λ s. elim req.status [ none ↦ s | some t ↦ t ]) stage1,
      λ listed.
          subst (λ p. All (IsOnPage p db) m'.component_ids) page
            (components_listed o req db m2 m' h2 listed),
      IsAsked-same o req m m2 m'
          (IsAsked-same o req m m1 m2 (schedule-IsAsked o req m m1 e1)
            (status_keeps_texts req db.now m1 m2 e2))
          (components_keep_texts o req db m2 m' h2),
      λ raw e. components_named o req db m2 m' raw h2 e,
    )
