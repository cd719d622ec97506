-- ===== src/Store/Incidents/Commit.antt =====
-- What a transaction and the read after its commit leave, where they succeed and where they fail
-- (backend/internal/store).
use healthpage.Prelude.{
  ◌≡◌, refl, sym, ap, ◌∙◌, ◌⊎◌, inl, inr, true, Option, none, some, arith, Bool-cases,
  nat_comparable, string_comparable,
}
use healthpage.Store.{Db, Result, StoreError, ok, err, Tx, or_not_found}
use healthpage.Store.{after_commit, unavailable}
use healthpage.Page.{Time}
use healthpage.Incident.{Incident}
use healthpage.Store.Incidents.{commit_then}

-- The fields of an incident are saved; its page, its start, its key and its creation stay.
abbrev pub saved_incident : Incident → Time → Incident → Incident
saved_incident inc now row = record {
  id = row.id;
  status_page_id = row.status_page_id;
  title = inc.title;
  current_status = inc.current_status;
  impact = inc.impact;
  started_at = row.started_at;
  resolved_at = inc.resolved_at;
  postmortem = inc.postmortem;
  is_visible = inc.is_visible;
  created_at = row.created_at;
  updated_at = now;
  deleted_at = row.deleted_at;
  integration_id = row.integration_id;
  external_dedup_key = row.external_dedup_key;
  components = row.components;
  updates = row.updates;
}

-- An operation that reads nothing back fails only with a rollback.
pub commit_then-atomic :
    {A B : Type 0} (m : Tx A) (b : B) (db : Db) (e : StoreError) (db' : Db)
    → commit_then m (λ _ _. ok b) db ≡ (err e, db')
    → db' ≡ db
commit_then-atomic {A} {B} m b db e db' h = go (m db) h
  where
    go :
        (r : Result (A × Db))
        → ◌≡◌ {A = Result B × Db}
            (elim r [ err x ↦ (err x, db) | ok (a, d) ↦ (ok b, d) ])
            (err e, db')
        → db' ≡ db
    go (err x) h = ground (arith, h)
    go (ok (a, d)) h = cc

-- A result that was read after the commit.
pub after_commit-ok :
    {B : Type 0} (db : Db) (r : Result B) (b : B) → after_commit db r ≡ ok b → r ≡ ok b
after_commit-ok db r b h = ground (arith, h)

-- Nothing has changed, or the result of a change that has committed cannot be read.
abbrev pub RolledBackOrLost : Db → StoreError → Db → Type 0
RolledBackOrLost db e db' = (db' ≡ db) ⊎ ((db.reads_fail ≡ true) × (e ≡ unavailable))

-- an answer after the commit that is an error
pub lost :
    {B : Type 0} (db : Db) (b : B) (d : Db) (e : StoreError) (db' : Db)
    → ◌≡◌ {A = Result B × Db} (after_commit db (ok b), d) (err e, db')
    → RolledBackOrLost db e db'
lost {B} db b d e db' h = elim (Bool-cases db.reads_fail) [
  | inl t ↦ inr (t, ground (arith, t, h))
  | inr t ↦ absurd (ground (arith, t, h))
]

-- An operation whose result is there to be read back fails with a rollback, or where the
-- database is lost after the commit.
pub commit_then-err :
    {A B : Type 0} (m : Tx A) (after : A → Db → Result B) (db : Db)
    → ((a : A) (db' : Db) → m db ≡ ok (a, db') → (b : B) × (after a db' ≡ after_commit db (ok b)))
    → (e : StoreError) (db' : Db) → commit_then m after db ≡ (err e, db')
    → RolledBackOrLost db e db'
commit_then-err {A} {B} m after db reads e db' h = go (m db) refl h
  where
    go :
        (r : Result (A × Db))
        → m db ≡ r
        → ◌≡◌ {A = Result B × Db}
            (elim r [ err x ↦ (err x, db) | ok (a, d) ↦ (after a d, d) ])
            (err e, db')
        → RolledBackOrLost db e db'
    go (err x) k h = inl (ground (arith, h))
    go (ok (a, d)) k h = elim (Bool-cases db.reads_fail) [
      | inl t ↦ (let read = reads a d k in inr (t, ground (arith, t, read.1, h)))
      | inr t ↦ (let read = reads a d k in absurd (ground (arith, t, read.1, h)))
    ]

-- the tables that a transaction leaves
abbrev pub state_of : {A : Type 0} → Db → Result (A × Db) → Db
state_of db (ok (_, db')) = db'
state_of db (err _) = db

pub looked_up :
    {A : Type 0} (o : Option A) (d d' : Db) (a : A)
    → or_not_found o d ≡ ok (a, d')
    → (o ≡ some a) × (d' ≡ d)
looked_up none d d' a h = cc
looked_up (some x) d d' a h =
    (ap (λ r. elim r [ ok (y, _) ↦ some y | err _ ↦ none ]) h, ap (state_of d) (sym h))

-- An operation that succeeds has committed, and has read the result back.
pub commit_then-ok :
    {A B : Type 0} (m : Tx A) (after : A → Db → Result B) (db : Db) (b : B) (db' : Db)
    → commit_then m after db ≡ (ok b, db')
    → (a : A) × (m db ≡ ok (a, db')) × (after a db' ≡ ok b)
commit_then-ok {A} {B} m after db b db' h = go (m db) refl h
  where
    go :
        (r : Result (A × Db))
        → m db ≡ r
        → ◌≡◌ {A = Result B × Db}
            (elim r [ err x ↦ (err x, db) | ok (a, d) ↦ (after a d, d) ])
            (ok b, db')
        → (a : A) × (m db ≡ ok (a, db')) × (after a db' ≡ ok b)
    go (err x) k h = cc
    go (ok (a, d)) k h =
        let same : d ≡ db' = ap (λ (r : Result B × Db). r.1) h in
        (
          a,
          k ∙ ap (λ x. ok (a, x)) same,
          ap (after a) (sym same) ∙ ap (λ (r : Result B × Db). r.0) h,
        )
