-- ===== src/Store/Maintenances/Links.antt =====
-- Linking components to works (the loop over `m.ComponentIDs` of
-- backend/internal/store/maintenances.go).
use healthpage.Prelude.{
  ◌+◌, ◌≡◌, refl, sym, ◌∙◌, inl, inr, Bool, true, false, not, ◌&&◌, ◌||◌, List, [], ◌∷◌, ◌++◌,
  arith, Bool-cases, ◌==◌, nat_comparable, string_comparable, All, keep, any, equal_self,
  any-append,
}
use healthpage.Page.{Uuid}
use healthpage.Store.{constraint_violation, err, StoreError, Db, ok, MaintenanceComponent}
use healthpage.Store.Works.{new_works_link, add_maintenance_component}
use healthpage.Store.Maintenances.{link_components}

abbrev pub with_works_link : Uuid → Uuid → Db → Db
with_works_link id cid db = record db {
  maintenance_components = db.maintenance_components ++ new_works_link id cid db ∷ [];
  next_id = db.next_id + 1;
}

pub with_works_links : Uuid → List Uuid → Db → Db
with_works_links id [] db = db
with_works_links id (cid ∷ rest) db = with_works_links id rest (with_works_link id cid db)

abbrev pub is_link : Uuid → Uuid → MaintenanceComponent → Bool
is_link id cid mc = mc.maintenance_id == id && mc.component_id == cid

-- A component is there, and is not linked to the works yet.
pub record IsLinkable (id : Uuid) (db : Db) (cid : Uuid) : Type 0 where
  pub exists : any (λ c. c.id == cid) db.components ≡ true
  pub fresh : any (is_link id cid) db.maintenance_components ≡ false

-- No component is listed twice.
abbrev pub AreDistinct : List Uuid → Type 0
AreDistinct [] = Unit
AreDistinct (cid ∷ rest) = All (λ r. (cid == r) ≡ false) rest × AreDistinct rest

IsLinkable-with_link :
    (id : Uuid) (db : Db) (cid r : Uuid)
    → (cid == r) ≡ false
    → IsLinkable id db r
    → IsLinkable id (with_works_link id cid db) r
unfolding any
IsLinkable-with_link id db cid r n h = record {
  exists = h.exists;
  fresh =
      any-append (is_link id r) db.maintenance_components (new_works_link id cid db ∷ [])
      ∙ (let f = h.fresh in ground (arith, f, n));
}

All-IsLinkable :
    (id : Uuid) (db : Db) (cid : Uuid) (rest : List Uuid)
    → All (λ r. (cid == r) ≡ false) rest
    → All (IsLinkable id db) rest
    → All (IsLinkable id (with_works_link id cid db)) rest
All-IsLinkable id db cid [] n h = tt
All-IsLinkable id db cid (r ∷ rest) n h =
    (IsLinkable-with_link id db cid r n.0 h.0, All-IsLinkable id db cid rest n.1 h.1)

pub link_components-ok :
    (id : Uuid) (ids : List Uuid) (db : Db)
    → All (IsLinkable id db) ids
    → AreDistinct ids
    → link_components id ids db ≡ ok (tt, with_works_links id ids db)
unfolding link_components add_maintenance_component with_works_links
link_components-ok id [] db h n = refl
link_components-ok id (cid ∷ rest) db h n =
    let ih =
      link_components-ok id rest (with_works_link id cid db) (All-IsLinkable id db cid rest n.0 h.1)
        n.1 in
    let there = h.0.exists in let fresh = h.0.fresh in ground (arith, ih, there, fresh)

pub with_works_links-maintenances :
    (id : Uuid) (ids : List Uuid) (db : Db)
    → (with_works_links id ids db).maintenances ≡ db.maintenances
unfolding with_works_links
with_works_links-maintenances id [] db = refl
with_works_links-maintenances id (cid ∷ rest) db =
    with_works_links-maintenances id rest (with_works_link id cid db)

-- the loop fails at a link that is there already, or whose component is not there
pub link_components-err :
    (id : Uuid) (ids : List Uuid) (db : Db) (e : StoreError)
    → link_components id ids db ≡ err e
    → e ≡ constraint_violation
unfolding link_components add_maintenance_component
link_components-err id [] db e h = cc
link_components-err id (cid ∷ rest) db e h =
    elim (Bool-cases (
      any (is_link id cid) db.maintenance_components
      || not (any (λ c. c.id == cid) db.components))) [
        | inl t ↦ ground (arith, t, h)
        | inr t ↦
            (let next : link_components id rest (with_works_link id cid db) ≡ err e =
                ground (arith, t, h) in
              link_components-err id rest (with_works_link id cid db) e next)
      ]

fresh_before :
    (id : Uuid) (db : Db) (cid : Uuid) (rest : List Uuid)
    → All (IsLinkable id (with_works_link id cid db)) rest
    → All (λ r. (cid == r) ≡ false) rest × All (IsLinkable id db) rest
unfolding any
fresh_before id db cid [] h = (tt, tt)
fresh_before id db cid (r ∷ rest) h =
    let both =
      sym (any-append (is_link id r) db.maintenance_components (new_works_link id cid db ∷ []))
      ∙ h.0.fresh in
    let self = equal_self id in
    let later = fresh_before id db cid rest h.1 in
    (
      (ground (arith, both, self), later.0),
      (record { exists = h.0.exists; fresh = ground (arith, both) }, later.1),
    )

-- A loop that succeeds has linked distinct components that are there.
pub link_components-AreDistinct :
    (id : Uuid) (ids : List Uuid) (db db' : Db)
    → link_components id ids db ≡ ok (tt, db')
    → All (IsLinkable id db) ids × AreDistinct ids
unfolding link_components add_maintenance_component
link_components-AreDistinct id [] db db' h = (tt, tt)
link_components-AreDistinct id (cid ∷ rest) db db' h =
    elim (Bool-cases (
      any (is_link id cid) db.maintenance_components
      || not (any (λ c. c.id == cid) db.components))) [
        | inl t ↦ absurd (ground (arith, t, h))
        | inr t ↦
            (let next : link_components id rest (with_works_link id cid db) ≡ ok (tt, db') =
                ground (arith, t, h) in
              let (linkable, distinct) =
                link_components-AreDistinct id rest (with_works_link id cid db) db' next in
              let (others, before) = fresh_before id db cid rest linkable in
              (
                (record { exists = ground (arith, t); fresh = ground (arith, t) }, before),
                (others, distinct),
              ))
      ]

-- the tables without the links of some works
abbrev pub without_links : Uuid → Db → Db
without_links id db = record db {
  maintenance_components = keep (λ mc. not (mc.maintenance_id == id)) db.maintenance_components;
}

no_link_left :
    (id cid : Uuid) (l : List MaintenanceComponent)
    → any (is_link id cid) (keep (λ mc. not (mc.maintenance_id == id)) l) ≡ false
unfolding any keep
no_link_left id cid [] = refl
no_link_left id cid (mc ∷ l) = ground (arith, no_link_left id cid l)

-- Once the links of the works are gone, it is enough that the components are there.
pub existing-IsLinkable :
    (id : Uuid) (db : Db) (ids : List Uuid)
    → All (λ cid. any (λ c. c.id == cid) db.components ≡ true) ids
    → All (IsLinkable id (without_links id db)) ids
existing-IsLinkable id db [] h = tt
existing-IsLinkable id db (cid ∷ rest) h = (
  record { exists = h.0; fresh = no_link_left id cid db.maintenance_components },
  existing-IsLinkable id db rest h.1,
)
