-- ===== src/Api/Answers.antt =====
-- Inversion of the checks that handlers share (backend/internal/api/access.go).
use healthpage.Prelude.{
  String, ◌≡◌, refl, sym, ap, subst, ◌⊎◌, inl, inr, Bool, true, false, ◌||◌, Option, none, some,
  List, [], ◌∷◌, arith, Option-cases, ◌==◌, nat_equal_iff, nat_comparable, string_comparable,
}
use healthpage.Page.{Uuid}
use healthpage.Account.{StatusPage, status_page_by_id}
use healthpage.Page.{Component}
use healthpage.Store.Queries.{find_component}
use healthpage.Store.{Db, Result, StoreError, ok, err}
use healthpage.Store.Incidents.Commit.{RolledBackOrLost}
use healthpage.Store as Tables
use healthpage.Api.{
  Refusal, unauthorized, not_found, Answer, refused, granted, ◌>>=◌, or_refuse, ensure, Principal,
  World, answered, principal_owns_page, authorize_page, resolve_managed_page, loaded, Outside,
  invalid_request,
}

pub granted_pair-inv :
    {A B : Type 0} (a a' : A) (b b' : B)
    → ◌≡◌ {A = Answer (A × B)} (granted (a, b)) (granted (a', b'))
    → (a ≡ a') × (b ≡ b')
granted_pair-inv {A} {B} a a' b b' h = (
  ap (λ (x : Answer (A × B)). elim x [ granted y ↦ y.0 | refused _ ↦ a ]) h,
  ap (λ (x : Answer (A × B)). elim x [ granted y ↦ y.1 | refused _ ↦ b ]) h,
)

-- A chain of checks that passes is made of checks that pass.
pub granted-inv :
    {A B : Type 0} (check : Answer A) (next : A → Answer B) (b : B)
    → (check >>= next) ≡ granted b
    → (a : A) × (check ≡ granted a) × (next a ≡ granted b)
granted-inv (refused r) next b h = cc
granted-inv (granted a) next b h = (a, refl, h)

pub ensure-inv :
    (test : Bool) (r : Refusal) (u : Unit {0}) → ensure test r ≡ granted u → test ≡ true
ensure-inv true r u h = refl
ensure-inv false r u h = cc

pub or_refuse-inv :
    {A : Type 0} (o : Option A) (r : Refusal) (a : A) → or_refuse o r ≡ granted a → o ≡ some a
or_refuse-inv none r a h = cc
or_refuse-inv (some x) r a h = ground (arith, h)

-- The principal owns the page with this identifier, which is there.
pub record Owns (principal : Option Principal) (page_id : Uuid) (w : World) : Type 0 where
  pub who : Principal
  pub page : StatusPage
  pub is_authenticated : principal ≡ some who
  pub is_there : status_page_by_id page_id w.pages ≡ some page
  pub is_owned : principal_owns_page who page w ≡ true

pub authorize_page-Owns :
    (principal : Option Principal) (page_id : Uuid) (w : World) (page : StatusPage)
    → authorize_page principal page_id w ≡ granted page
    → Owns principal page_id w
unfolding authorize_page
authorize_page-Owns principal page_id w page h =
    let (who, e, h1) =
      granted-inv (or_refuse principal unauthorized)
        (λ p. or_refuse (status_page_by_id page_id w.pages) not_found >>= λ found.
          ensure (principal_owns_page p found w) not_found >>= λ _. granted found)
        page h in
    let (found, k, h2) =
      granted-inv (or_refuse (status_page_by_id page_id w.pages) not_found)
        (λ found. ensure (principal_owns_page who found w) not_found >>= λ _. granted found) page
        h1 in
    let (u, owned, _) =
      granted-inv (ensure (principal_owns_page who found w) not_found) (λ _. granted found) page
        h2 in
    record {
      who = who;
      page = found;
      is_authenticated = or_refuse-inv principal unauthorized who e;
      is_there = or_refuse-inv (status_page_by_id page_id w.pages) not_found found k;
      is_owned = ensure-inv (principal_owns_page who found w) not_found u owned;
    }

pub with_same_tables : (w : World) (db' : Db) → db' ≡ w.db → record w { db = db' } ≡ w
with_same_tables w db' e = ap (λ (d : Db). record w { db = d }) e

pub loaded-inv : {A : Type 0} (r : Tables.Result A) (a : A) → loaded r ≡ granted a → r ≡ Tables.ok a
loaded-inv (Tables.ok x) a h = ground (arith, h)
loaded-inv (Tables.err e) a h = cc

-- a page that is found has the identifier that was looked up
status_page_by_id-id :
    (id : Uuid) (pages : List StatusPage) (page : StatusPage)
    → status_page_by_id id pages ≡ some page
    → page.id ≡ id
unfolding status_page_by_id
status_page_by_id-id id [] page h = cc
status_page_by_id-id id (p ∷ pages) page h =
    ground (arith, h, status_page_by_id-id id pages page, nat_equal_iff p.id id)

authorized_page :
    (principal : Option Principal) (page_id : Uuid) (w : World) (page : StatusPage)
    → authorize_page principal page_id w ≡ granted page
    → status_page_by_id page_id w.pages ≡ some page
unfolding authorize_page
authorized_page principal page_id w page h = ground (arith, h)

owned_page :
    (principal : Option Principal) (page_id : Uuid) (w : World) (page : StatusPage)
    → authorize_page principal page_id w ≡ granted page
    → Owns principal page.id w
owned_page principal page_id w page h =
    subst (λ i. Owns principal i w)
      (sym (status_page_by_id-id page_id w.pages page (authorized_page principal page_id w page h)))
      (authorize_page-Owns principal page_id w page h)

-- The page that a request manages is owned by its principal.
pub resolve_managed_page-Owns :
    (o : Outside) (principal : Option Principal) (raw : String) (w : World) (page : StatusPage)
    → resolve_managed_page o principal raw w ≡ granted page
    → Owns principal page.id w
unfolding resolve_managed_page
resolve_managed_page-Owns o none raw w page h = cc
resolve_managed_page-Owns o (some p) raw w page h = elim (Option-cases p.token) [
  | inl n ↦
      let parse = or_refuse (o.uuid_parse raw) invalid_request in
      let rest = λ (id : Uuid). authorize_page (some p) id w in
      let chain : (parse >>= rest) ≡ granted page = ground (arith, n, h) in
      let (id, _, e) = granted-inv parse rest page chain in owned_page (some p) id w page e
  | inr (token, k) ↦
      let test =
        raw == ""
        || (elim (o.uuid_parse raw) [ none ↦ false | some id ↦ id == token.status_page_id ]) in
      let rest = λ (_ : Unit {0}). authorize_page (some p) token.status_page_id w in
      let chain : (ensure test not_found >>= rest) ≡ granted page = ground (arith, k, h) in
      let (_, _, e) = granted-inv (ensure test not_found) rest page chain in
      owned_page (some p) token.status_page_id w page e
]

-- An answer that is a refusal comes with the world as it was, or the database was lost after a
-- commit, and then nothing but the tables has changed.
abbrev pub KeepsOnRefusal : {A : Type 0} → World → Answer A × World → Type 0
KeepsOnRefusal w (answer, w') =
    (r : Refusal)
    → answer ≡ refused r
    → (w' ≡ w) ⊎ ((w.db.reads_fail ≡ true) × (w' ≡ record w { db = w'.db }))

-- what an operation that fails leaves, as the world of the answer
pub kept_or_lost :
    (w : World) (e : StoreError) (db' : Db)
    → RolledBackOrLost w.db e db'
    → (record w { db = db' } ≡ w)
      ⊎ ((w.db.reads_fail ≡ true) × (record w { db = db' } ≡ record w { db = db' }))
kept_or_lost w e db' (inl same) = inl (with_same_tables w db' same)
kept_or_lost w e db' (inr (fails, _)) = inr (fails, refl)

pub answer_refused :
    {A : Type 0} (w : World) (out : Result A × Db)
    → ((e : StoreError) (db' : Db) → out ≡ (err e, db') → RolledBackOrLost w.db e db')
    → KeepsOnRefusal w (answered w out)
answer_refused w (err e, db') atomic r h = kept_or_lost w e db' (atomic e db' refl)
answer_refused w (ok a, db') atomic r h = cc

-- the shape of every handler: checks, and then one operation
abbrev pub handled : {A B : Type 0} → World → Answer A → (A → Answer B × World) → Answer B × World
handled w checks run = elim checks [ refused r ↦ (refused r, w) | granted a ↦ run a ]

pub handled_refused :
    {A B : Type 0} (w : World) (checks : Answer A) (run : A → Answer B × World)
    → ((a : A) → KeepsOnRefusal w (run a))
    → KeepsOnRefusal w (handled w checks run)
handled_refused w (refused x) run keeps r h = inl refl
handled_refused w (granted a) run keeps r h = keeps a r h

-- The component is there and belongs to the page.
pub record IsOnPage (page_id : Uuid) (db : Db) (cid : Uuid) : Type 0 where
  pub component : Component
  pub is_there : find_component cid db ≡ some component
  pub belongs : component.status_page_id ≡ page_id
