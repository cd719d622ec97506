-- ===== src/Store/Recompute/Coherence.antt =====
-- The history of statuses and the current status stay together (backend/internal/store/components.go).
use mathlib.Core.Option
use healthpage.Prelude.{
  ◌≡◌, refl, subst, inl, inr, Bool, true, false, Option, none, some, List, [], ◌∷◌, arith,
  if◌then◌else◌, Option-cases, ◌==◌, nat_comparable, string_comparable,
}
use healthpage.Status.{ComponentStatus, component_status_comparable}
use healthpage.Page.{Uuid, Time, Component}
use healthpage.Store.{ok, HistorySource, ComponentStatusHistory, Db}
use healthpage.Store.Queries.{find_component, with_status, new_period}
use healthpage.Store.Recompute.{
  change_component_status_tx, recompute_component_statuses_tx, source_of,
}
use healthpage.Store.Recompute.Change.{
  change_component_status_tx_lem, changed, find_component-changed, open_periods,
  open_periods-changed,
}
use healthpage.Store.Recompute.Laws.{
  recompute-ok, derived_on, status_of, recomputed_one, recomputed,
}

-- The history of a component fits its status: at most one period is open, and an open one has the
-- status that the component has.
abbrev pub HistoryFits : List ComponentStatusHistory → Option ComponentStatus → Type 0
HistoryFits [] _ = Unit
HistoryFits (h ∷ []) none = Unit
HistoryFits (h ∷ []) (some s) = h.status ≡ s
HistoryFits (_ ∷ _ ∷ _) _ = ⊥

pub record IsCoherent (db : Db) : Type 0 where
  pub at : (j : Uuid) → HistoryFits (open_periods j db) (status_of j db)

changed-fits :
    (b : Bool) (h : ComponentStatusHistory) (l : List ComponentStatusHistory) (s : ComponentStatus)
    (o : Option Component) (now : Time)
    → HistoryFits l (Option.map (λ (c : Component). c.current_status) o)
    → h.status ≡ s
    → HistoryFits (if b then h ∷ [] else l) (
        Option.map
          (λ (c : Component). c.current_status)
          (if b then Option.map (with_status s now) o else o))
changed-fits true h l s none now f e = tt
changed-fits true h l s (some c) now f e = e
changed-fits false h l s o now f e = f

-- A change of status keeps the history coherent.
pub changed-IsCoherent :
    (id : Uuid) (s : ComponentStatus) (source : HistorySource) (db : Db)
    → IsCoherent db
    → IsCoherent (changed id s source db)
changed-IsCoherent id s source db c = record {
  at = λ j.
      rw (open_periods-changed j id s source db, find_component-changed j id s source db)
        (changed-fits (j == id) (new_period id s source db) (open_periods j db) s
          (find_component j db) db.now (c.at j) refl);
}

recomputed_one-IsCoherent :
    (d : Uuid → ComponentStatus) (cid : Uuid) (db : Db) (o : Option Component)
    → IsCoherent db
    → IsCoherent (recomputed_one d cid db o)
unfolding recomputed_one
recomputed_one-IsCoherent d cid db none c = c
recomputed_one-IsCoherent d cid db (some x) c = go (x.current_status == d cid)
  where
    go : (b : Bool) → IsCoherent (if b then db else changed cid (d cid) (source_of (d cid)) db)
    go true = c
    go false = changed-IsCoherent cid (d cid) (source_of (d cid)) db c

pub recomputed-IsCoherent :
    (d : Uuid → ComponentStatus) (ids : List Uuid) (db : Db)
    → IsCoherent db
    → IsCoherent (recomputed d ids db)
unfolding recomputed
recomputed-IsCoherent d [] db c = c
recomputed-IsCoherent d (cid ∷ ids) db c =
    recomputed-IsCoherent d ids (recomputed_one d cid db (find_component cid db))
      (recomputed_one-IsCoherent d cid db (find_component cid db) c)

-- Recomputing the statuses of any components keeps the history coherent, and so does every change
-- of a single status that succeeds: no component ever has two open periods, and an open one tells
-- the status that the component has.
pub recompute_component_statuses_tx-IsCoherent :
    (page : Uuid) (ids : List Uuid) (db : Db)
    → IsCoherent db
    → ((db' : Db) × (recompute_component_statuses_tx page ids db ≡ ok (tt, db')) × IsCoherent db')
      × ((id : Uuid) (s : ComponentStatus) (source : HistorySource) (c : Component) (db' : Db)
          → change_component_status_tx id s source db ≡ ok (c, db')
          → IsCoherent db')
recompute_component_statuses_tx-IsCoherent page ids db coherent = (
  (
    recomputed (derived_on page db) ids db,
    recompute-ok page ids db,
    recomputed-IsCoherent (derived_on page db) ids db coherent,
  ),
  λ id s source c db' e.
      let run = change_component_status_tx_lem id s source db in
      let after = changed-IsCoherent id s source db coherent in
      elim (Option-cases (find_component id db)) [
        | inl missing ↦ ground (arith, run)
        | inr (row, found) ↦
            let same : changed id s source db ≡ db' = ground (arith, run) in
            subst IsCoherent same after
      ],
)
