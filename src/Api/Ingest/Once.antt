-- ===== src/Api/Ingest/Once.antt =====
-- A redelivered alert changes nothing (ingestAlert of backend/internal/api/integrations.go).
use healthpage.Prelude.{
  String, ◌≡◌, refl, sym, ap, ◌∙◌, subst, inl, inr, true, false, Option, none, some, List, [], ◌∷◌,
  ◌++◌, arith, Bool-cases, ◌==◌, nat_comparable, string_comparable, equal_self,
}
use healthpage.Page.{Uuid}
use healthpage.Incident.{Incident, investigating, apply_status_change}
use healthpage.Store.{
  Db, StoreError, Result, ok, err, not_found, dedup_conflict, constraint_violation, invalid_status,
}
use healthpage.Store.Queries.{
  first_where, has_open_dedup, find_open_by_dedup, find_incident, is_incident, new_incident_row,
}
use healthpage.Store.Rows.{first_where-snoc, first_where-holds, first_where-some}
use healthpage.Store.Incidents.{
  open_incident_by_dedup, incident_by_id, hydrate_incident, create_incident,
}
use healthpage.Store.{unavailable}
use healthpage.Store.Incidents.Commit.{RolledBackOrLost}
use healthpage.Store.Incidents.Atomic.{create_incident-err, create_incident-ok}
use healthpage.Webhook.{Alert, Mapping, impact_of}
use healthpage.Notify as Notify
use healthpage.Notify.{Env, State, incident_created}
use healthpage.Api.{World, Outside, emit_notify}
use healthpage.Api.Answers.{with_same_tables}
use healthpage.Api.Ingest.{
  Integration, alert_components, alert_incident, announce_alert, create_webhook_incident,
  ingest_alert,
}

-- An open incident with the key is found again by its identifier.
open-is_found :
    (page : Uuid) (key : String) (db : Db) (row : Incident)
    → find_open_by_dedup page key db ≡ some row
    → (i : Incident) × (open_incident_by_dedup page key db ≡ ok i)
unfolding find_open_by_dedup open_incident_by_dedup incident_by_id find_incident
open-is_found page key db row h =
    let holds = first_where-holds (has_open_dedup page (some key)) db.incidents row h in
    let self = equal_self row.id in
    let (there, found) =
      first_where-some (has_open_dedup page (some key)) (is_incident row.id) db.incidents row h
        (ground (arith, holds, self)) in
    (hydrate_incident db there, ground (arith, h, found))

emit_notify-db :
    (o : Outside) (event : Env → State → List Notify.Error × State) (w : World)
    → (emit_notify o event w).db ≡ w.db
unfolding emit_notify
emit_notify-db o event w = ground arith

rolled_back : (db db' : Db) → RolledBackOrLost db dedup_conflict db' → db' ≡ db
rolled_back db db' (inl same) = same
rolled_back db db' (inr (_, e)) = cc

module _ (o : Outside) (integration : Integration) (mapping : Mapping) (on_page : List Uuid)
    (a : Alert) where
  abbrev ingest : World → Option StoreError × World
  ingest = ingest_alert o integration mapping on_page a

  -- with an open incident, an alert that fires is passed over
  passed_over :
      (w : World) (i : Incident)
      → a.firing ≡ true
      → open_incident_by_dedup integration.status_page_id a.dedup_key w.db ≡ ok i
      → ingest w ≡ (none, w)
  unfolding ingest_alert
  passed_over w i f e = ground (arith, f, e)

  -- the incident that the alert would open
  abbrev opened : World → Incident
  opened w =
      record (alert_incident integration (impact_of mapping) w.db.now a
        (alert_components o mapping on_page a)) { current_status = investigating }

  opened-is_open :
      (w : World) (db' : Db)
      → db'.incidents ≡ w.db.incidents ++ new_incident_row (opened w) w.db ∷ []
      → (row : Incident) × (find_open_by_dedup integration.status_page_id a.dedup_key db'
          ≡ some row)
  unfolding find_open_by_dedup
  opened-is_open w db' e =
      let test = has_open_dedup integration.status_page_id (some a.dedup_key) in
      let page = equal_self integration.status_page_id in
      let key = equal_self a.dedup_key in
      let (row, found) =
        first_where-snoc test w.db.incidents (new_incident_row (opened w) w.db)
          (ground (arith, page, key)) in
      (row, ap (first_where test) e ∙ found)

  after_creation :
      (w w' : World) (out : Result Incident × Db)
      → a.firing ≡ true
      → create_incident (opened w) a.body true w.db ≡ out
      → announce_alert o a.body w out ≡ (none, w')
      → ingest w ≡ (none, w')
      → ingest w' ≡ (none, w')
  after_creation w w' (err not_found, db') f k h once = cc
  after_creation w w' (err constraint_violation, db') f k h once = cc
  after_creation w w' (err unavailable, db') f k h once = cc
  after_creation w w' (err (invalid_status s), db') f k h once = cc
  after_creation w w' (err dedup_conflict, db') f k h once =
      let same : w ≡ w' =
        sym (
          with_same_tables w db' (
            rolled_back w.db db'
              (create_incident-err (opened w) a.body true w.db dedup_conflict db' k)))
        ∙ ap (λ (x : Option StoreError × World). x.1) h in
      subst (λ x. ingest x ≡ (none, w')) same once
  after_creation w w' (ok full, db') f k h once =
      let rows = create_incident-ok (opened w) a.body true w.db full db' k in
      let event = λ (env : Env). incident_created env full a.body in
      let tables : db' ≡ w'.db =
        sym (emit_notify-db o event (record w { db = db' }))
        ∙ ap (λ (x : Option StoreError × World). x.1.db) h in
      let (row, found) = opened-is_open w db' rows in
      let (i, there) = open-is_found integration.status_page_id a.dedup_key db' row found in
      passed_over w' i f (
        subst (λ d. open_incident_by_dedup integration.status_page_id a.dedup_key d ≡ ok i) tables
          there)

  after_lookup :
      (w w' : World) (r : Result Incident)
      → a.firing ≡ true
      → (a.dedup_key == "") ≡ false
      → open_incident_by_dedup integration.status_page_id a.dedup_key w.db ≡ r
      → ingest w ≡ (none, w')
      → ingest w' ≡ (none, w')
  unfolding ingest_alert create_webhook_incident apply_status_change
  after_lookup w w' (ok i) f n k h =
      let same : w ≡ w' =
        ap (λ (x : Option StoreError × World). x.1) (sym (passed_over w i f k) ∙ h) in
      subst (λ x. ingest x ≡ (none, w')) same h
  after_lookup w w' (err not_found) f n k h =
      after_creation w w' (create_incident (opened w) a.body true w.db) f refl
        (ground (arith, f, n, k, h)) h
  after_lookup w w' (err dedup_conflict) f n k h = absurd (ground (arith, n, k, h))
  after_lookup w w' (err constraint_violation) f n k h = absurd (ground (arith, n, k, h))
  after_lookup w w' (err unavailable) f n k h = absurd (ground (arith, n, k, h))
  after_lookup w w' (err (invalid_status s)) f n k h = absurd (ground (arith, n, k, h))

  -- An alert that fires and was ingested changes nothing when it is delivered again: no second
  -- incident is opened, no component changes and nothing is announced.
  pub ingest_alert-again :
      (w w' : World)
      → a.firing ≡ true
      → ingest_alert o integration mapping on_page a w ≡ (none, w')
      → ingest_alert o integration mapping on_page a w' ≡ (none, w')
  unfolding ingest_alert
  ingest_alert-again w w' f h = elim (Bool-cases (a.dedup_key == "")) [
    | inl e ↦ ground (arith, e)
    | inr n ↦
        after_lookup w w' (open_incident_by_dedup integration.status_page_id a.dedup_key w.db) f n
          refl h
  ]
