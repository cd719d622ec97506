-- ===== src/Store/Recompute/Refinement.antt =====
-- The recomputation of backend/internal/store/incidents.go against the rule of
-- backend/internal/domain/derive.go.
use healthpage.Prelude.{
  ◌≡◌, sym, ap, ◌∙◌, List, if◌then◌else◌, ◌==◌, nat_comparable, string_comparable, any,
}
use mathlib.Core.Option
use healthpage.Status.Worst.{worst_status_ext}
use healthpage.Page.{Uuid}
use healthpage.Derive.{derived_component_status, imposed}
use healthpage.Derive.Sources.{imposed_iff}
use healthpage.Derive.Laws.{derived-eq-worst}
use healthpage.Store.{Db, ok}
use healthpage.Store.Recompute.{recompute_component_statuses_tx}
use healthpage.Store.Recompute.Laws.{derived_on, status_of, recompute_sets_statuses}
use healthpage.Store.Recompute.Joins.{
  page_incidents, page_works, joined_incidents, joined_works, joined_sound, joined_complete,
}

-- The status that the recomputation reads from the tables is the one that the rule gives for the
-- incidents and works of the page.
pub derived_on-eq-derived :
    (page : Uuid) (db : Db) (id : Uuid)
    → derived_on page db id
      ≡ (derived_component_status id (page_incidents page db) (page_works page db)).0
unfolding derived_on
derived_on-eq-derived page db id =
    derived-eq-worst id (joined_incidents page db) (joined_works page db)
    ∙ worst_status_ext (imposed id (joined_incidents page db) (joined_works page db))
        (imposed id (page_incidents page db) (page_works page db))
        (λ s. (
          λ m. (imposed_iff id (page_incidents page db) (page_works page db) s).1 (
              joined_sound page db id s
                ((imposed_iff id (joined_incidents page db) (joined_works page db) s).0 m)),
          λ m. (imposed_iff id (joined_incidents page db) (joined_works page db) s).1 (
              joined_complete page db id s
                ((imposed_iff id (page_incidents page db) (page_works page db) s).0 m)),
        ))
    ∙ sym (derived-eq-worst id (page_incidents page db) (page_works page db))

-- The recomputation never fails. Each component that it is given and that is there gets the status
-- that the rule gives for the incidents and works of the page, with their components as the domain
-- sees them; every other component keeps its status.
pub recompute_refines_rule :
    (page : Uuid) (ids : List Uuid) (db : Db)
    → (db' : Db) × (recompute_component_statuses_tx page ids db ≡ ok (tt, db'))
      × ((j : Uuid)
          → status_of j db' ≡ (
              if any (λ c. c == j) ids
              then Option.map
                  (λ _.
                    (derived_component_status j (page_incidents page db) (page_works page db)).0)
                  (status_of j db)
              else status_of j db))
recompute_refines_rule page ids db =
    let (db', run, statuses, _) = recompute_sets_statuses page ids db in
    (
      db',
      run,
      λ j.
          statuses j
          ∙ ap
              (λ d.
                if any (λ c. c == j) ids
                then Option.map (λ _. d) (status_of j db)
                else status_of j db)
              (derived_on-eq-derived page db j),
    )
