-- ===== src/Store/Recompute/Change.antt =====
-- What a change of status does to the tables: the component, its history, and nothing else.
use mathlib.Core.Option
use mathlib.Core.Path.{ap₂}
use mathlib.Core.List.{append-nil}
use healthpage.Prelude.{
  ◌+◌, ◌≡◌, refl, ap, ◌∙◌, Bool, true, false, Option, none, some, List, [], ◌∷◌, ◌++◌, arith,
  if◌then◌else◌, ◌==◌, nat_comparable, string_comparable, keep, any, equal_self, keep-append,
}
use healthpage.Status.{ComponentStatus}
use healthpage.Page.{Uuid, Time, Component}
use healthpage.Store.{
  ◌>>=◌, ◌>>◌, or_not_found, pure, HistorySource, ComponentStatusHistory, Db, ok, err, not_found,
}
use healthpage.Store.Queries.{
  first_where, update_where, is_component, find_component, with_status, set_component_status,
  is_open_for, closed_at, close_open_status_period, new_period, open_status_period,
}
use healthpage.Store.Recompute.{change_component_status_tx}

-- The tables after a change of status.
unfoldable pub changed : Uuid → ComponentStatus → HistorySource → Db → Db
changed id s source db = record db {
  components = update_where (is_component id) (with_status s db.now) db.components;
  history =
      update_where (is_open_for id) (closed_at db.now) db.history ++ new_period id s source db ∷ [];
  next_id = db.next_id + 1;
}

none_open :
    (id : Uuid) (now : Time) (l : List ComponentStatusHistory)
    → any (is_open_for id) (update_where (is_open_for id) (closed_at now) l) ≡ false
unfolding any update_where
none_open id now [] = refl
none_open id now (h ∷ l) = ground (arith, none_open id now l)

first_where-with_status :
    (j id : Uuid) (s : ComponentStatus) (now : Time) (l : List Component)
    → first_where (is_component j) (update_where (is_component id) (with_status s now) l) ≡ (
        if j == id
        then Option.map (with_status s now) (first_where (is_component j) l)
        else first_where (is_component j) l)
unfolding first_where update_where
first_where-with_status j id s now [] = ground arith
first_where-with_status j id s now (c ∷ l) = ground (arith, first_where-with_status j id s now l)

pub find_component-changed :
    (j id : Uuid) (s : ComponentStatus) (source : HistorySource) (db : Db)
    → find_component j (changed id s source db) ≡ (
        if j == id
        then Option.map (with_status s db.now) (find_component j db)
        else find_component j db)
unfolding find_component changed
find_component-changed j id s source db = first_where-with_status j id s db.now db.components

set_component_status_lem :
    (id : Uuid) (s : ComponentStatus) (db : Db)
    → set_component_status id s db
      ≡ or_not_found (Option.map (with_status s db.now) (find_component id db)) (record db {
        components = update_where (is_component id) (with_status s db.now) db.components;
      })
unfolding set_component_status find_component
set_component_status_lem id s db =
    rw (first_where-with_status id id s db.now db.components) (rw (equal_self id))

open_status_period_lem :
    (id : Uuid) (s : ComponentStatus) (source : HistorySource) (db : Db)
    → any (is_open_for id) db.history ≡ false
    → open_status_period id s source db
      ≡ ok (
        new_period id s source db,
        record db {
          history = db.history ++ new_period id s source db ∷ [];
          next_id = db.next_id + 1;
        },
      )
unfolding open_status_period
open_status_period_lem id s source db h = rw h

-- the state between the second and the third statement
abbrev status_set : Uuid → ComponentStatus → Db → Db
status_set id s db = record db {
  components = update_where (is_component id) (with_status s db.now) db.components;
  history = update_where (is_open_for id) (closed_at db.now) db.history;
}

set_after_close :
    (id : Uuid) (s : ComponentStatus) (db : Db)
    → (close_open_status_period id >>= λ _. set_component_status id s) db
      ≡ or_not_found (Option.map (with_status s db.now) (find_component id db)) (status_set id s db)
unfolding close_open_status_period find_component
set_after_close id s db =
    set_component_status_lem id s
      (record db { history = update_where (is_open_for id) (closed_at db.now) db.history })

open_after_set :
    (id : Uuid) (s : ComponentStatus) (source : HistorySource) (db : Db)
    → open_status_period id s source (status_set id s db)
      ≡ ok (new_period id s source db, changed id s source db)
unfolding changed
open_after_set id s source db =
    open_status_period_lem id s source (status_set id s db) (none_open id db.now db.history)

-- On a component that is there, the change succeeds: the open period of its history is closed, the
-- status is set, and a period with the new status is opened. Otherwise it fails.
pub change_component_status_tx_lem :
    (id : Uuid) (s : ComponentStatus) (source : HistorySource) (db : Db)
    → change_component_status_tx id s source db ≡ elim (find_component id db) [
      | none ↦ err not_found
      | some c ↦ ok (with_status s db.now c, changed id s source db)
    ]
unfolding change_component_status_tx close_open_status_period
change_component_status_tx_lem id s source db =
    ap
      (λ r. elim r [ err e ↦ err e | ok (u, db') ↦ (open_status_period id s source >> pure u) db' ])
      (set_after_close id s db)
    ∙ go (find_component id db)
  where
    go :
        (o : Option Component)
        → elim (or_not_found (Option.map (with_status s db.now) o) (status_set id s db)) [
          | err e ↦ err e
          | ok (u, db') ↦ (open_status_period id s source >> pure u) db'
        ]
          ≡ elim o [
            | none ↦ err not_found
            | some c ↦ ok (with_status s db.now c, changed id s source db)
          ]
    go none = refl
    go (some c) =
        ap (λ r. elim r [ err e ↦ err e | ok (_, db') ↦ ok (with_status s db.now c, db') ])
          (open_after_set id s source db)

-- The open periods of a component.
abbrev pub open_periods : Uuid → Db → List ComponentStatusHistory
open_periods id db = keep (is_open_for id) db.history

keep-closed :
    (j id : Uuid) (now : Time) (l : List ComponentStatusHistory)
    → keep (is_open_for j) (update_where (is_open_for id) (closed_at now) l)
      ≡ (if j == id then [] else keep (is_open_for j) l)
unfolding keep update_where
keep-closed j id now [] = ground arith
keep-closed j id now (h ∷ l) = ground (arith, keep-closed j id now l)

keep_new :
    (j id : Uuid) (s : ComponentStatus) (source : HistorySource) (db : Db)
    → keep (is_open_for j) (new_period id s source db ∷ [])
      ≡ (if j == id then new_period id s source db ∷ [] else [])
unfolding keep
keep_new j id s source db = ground arith

if-append {ℓ} :
    {A : Type ℓ} (b : Bool) (x : A) (l : List A)
    → (if b then [] else l) ++ (if b then x ∷ [] else []) ≡ (if b then x ∷ [] else l)
if-append true x l = refl
if-append false x l = append-nil l

pub open_periods-changed :
    (j id : Uuid) (s : ComponentStatus) (source : HistorySource) (db : Db)
    → open_periods j (changed id s source db)
      ≡ (if j == id then new_period id s source db ∷ [] else open_periods j db)
unfolding changed
open_periods-changed j id s source db =
    keep-append (is_open_for j) (update_where (is_open_for id) (closed_at db.now) db.history)
      (new_period id s source db ∷ [])
    ∙ ap₂ (λ xs ys. xs ++ ys) (keep-closed j id db.now db.history) (keep_new j id s source db)
    ∙ if-append (j == id) (new_period id s source db) (keep (is_open_for j) db.history)
