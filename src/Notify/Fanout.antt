-- ===== src/Notify/Fanout.antt =====
-- The fan-out of an event (backend/internal/notify/engine.go, dispatch): which subscribers get a
-- message, and what the failures of single calls change.
use healthpage.Prelude.{
  ◌+◌, ◌≡◌, refl, sym, inl, inr, ◌&&◌, some, List, [], ◌∷◌, ◌++◌, map, arith, if◌then◌else◌,
  Bool-cases, nat_comparable, string_comparable, length, keep,
}
use mathlib.Core.List.{append-nil, append_assoc}
use healthpage.Page.{Uuid}
use healthpage.Subscriber.{Subscriber}
use healthpage.Notify.{
  publish_failed, create_failed, EventType, Payload, Notification, Publication, State, Env,
  new_notification, route, message_for, is_eligible, dispatch_one, dispatch_loop, dispatch, Error,
  publish,
}

-- The subscribers that get a journal row, with the identifiers that the rows get.
pub recorded : Env → List Uuid → EventType → List Subscriber → Uuid → List (Subscriber × Uuid)
recorded env affected event [] id = []
recorded env affected event (sub ∷ rest) id =
    if is_eligible affected sub && env.creates sub.id event
    then (sub, id) ∷ recorded env affected event rest (id + 1)
    else recorded env affected event rest id

-- The journal rows of these subscribers, each one pending.
abbrev pub journal_rows : EventType → Payload → State → List (Subscriber × Uuid) → List Notification
journal_rows event payload st =
    map (λ r. new_notification r.0.id event payload (record st { next_id = r.1 }))

-- The messages of these subscribers that the broker accepts.
abbrev pub accepted : Env → Uuid → EventType → Payload → List (Subscriber × Uuid) → List Publication
accepted env page event payload rows =
    keep env.accepts (map (λ r. route (message_for page event payload r.0 r.1)) rows)

length-snoc {ℓ} : {A : Type ℓ} → (xs : List A) (x : A) → length (xs ++ x ∷ []) ≡ length xs + 1
length-snoc [] x = refl
length-snoc (_ ∷ xs) x = ground (arith, length-snoc xs x)

dispatch_loop-journal :
    (env : Env) (page : Uuid) (affected : List Uuid) (event : EventType) (payload : Payload)
    (subs : List Subscriber) (errs : List Error) (st : State)
    → (dispatch_loop env page affected event payload subs errs st).1.journal
      ≡ st.journal ++ journal_rows event payload st (recorded env affected event subs st.next_id)
unfolding dispatch_loop dispatch_one recorded publish
dispatch_loop-journal env page affected event payload [] errs st = sym (append-nil st.journal)
dispatch_loop-journal env page affected event payload (sub ∷ subs) errs st =
    let out = dispatch_one env page affected event payload sub errs st in
    let ih = dispatch_loop-journal env page affected event payload subs out.0 out.1 in
    let assoc =
      append_assoc st.journal (new_notification sub.id event payload st ∷ [])
        (journal_rows event payload st (recorded env affected event subs (st.next_id + 1))) in
    elim (Bool-cases (is_eligible affected sub)) [
      | inr skipped ↦ ground (arith, ih)
      | inl eligible ↦ elim (Bool-cases (env.creates sub.id event)) [
        | inr failing ↦ ground (arith, ih)
        | inl creates ↦ ground (arith, ih, assoc)
      ]
    ]

dispatch_loop-published :
    (env : Env) (page : Uuid) (affected : List Uuid) (event : EventType) (payload : Payload)
    (subs : List Subscriber) (errs : List Error) (st : State)
    → (dispatch_loop env page affected event payload subs errs st).1.published
      ≡ st.published
        ++ accepted env page event payload (recorded env affected event subs st.next_id)
unfolding dispatch_loop dispatch_one recorded publish keep
dispatch_loop-published env page affected event payload [] errs st = sym (append-nil st.published)
dispatch_loop-published env page affected event payload (sub ∷ subs) errs st =
    let out = dispatch_one env page affected event payload sub errs st in
    let ih = dispatch_loop-published env page affected event payload subs out.0 out.1 in
    let assoc =
      append_assoc st.published (route (message_for page event payload sub st.next_id) ∷ [])
        (accepted env page event payload (recorded env affected event subs (st.next_id + 1))) in
    elim (Bool-cases (is_eligible affected sub)) [
      | inr skipped ↦ ground (arith, ih)
      | inl eligible ↦ elim (Bool-cases (env.creates sub.id event)) [
        | inr failing ↦ ground (arith, ih)
        | inl creates ↦
            elim (Bool-cases
              (env.accepts (route (message_for page event payload sub st.next_id)))) [
                | inr refused ↦ ground (arith, ih)
                | inl accepts ↦ ground (arith, ih, assoc)
              ]
      ]
    ]

dispatch_loop-errors :
    (env : Env) (page : Uuid) (affected : List Uuid) (event : EventType) (payload : Payload)
    (subs : List Subscriber) (errs : List Error) (st : State)
    → length (dispatch_loop env page affected event payload subs errs st).0
        + length (dispatch_loop env page affected event payload subs errs st).1.published
      ≡ length errs + length st.published + length (keep (is_eligible affected) subs)
unfolding dispatch_loop dispatch_one publish keep
dispatch_loop-errors env page affected event payload [] errs st = ground arith
dispatch_loop-errors env page affected event payload (sub ∷ subs) errs st =
    let out = dispatch_one env page affected event payload sub errs st in
    let ih = dispatch_loop-errors env page affected event payload subs out.0 out.1 in
    let p = route (message_for page event payload sub st.next_id) in
    ground (
      arith,
      ih,
      length-snoc errs create_failed,
      length-snoc errs publish_failed,
      length-snoc st.published p,
    )

-- Dispatching over the subscribers that the store lists, in their order: the journal gains one
-- pending row for each eligible subscriber whose row could be created, with successive
-- identifiers; the broker gets, for each of these rows, the message that refers to it, less the
-- ones that it refuses; and there are as many errors as eligible subscribers without a message.
-- So one failure costs one subscriber its message and nobody else's.
pub dispatch-exact :
    (env : Env) (page : Uuid) (affected : List Uuid) (event : EventType) (payload : Payload)
    (subs : List Subscriber) (st : State)
    → env.confirmed_subscribers page ≡ some subs
    → let rows = recorded env affected event subs st.next_id in
      let out = dispatch env page affected event payload st in
      (out.1.journal ≡ st.journal ++ journal_rows event payload st rows)
      × (out.1.published ≡ st.published ++ accepted env page event payload rows)
      × (length out.0 + length out.1.published
          ≡ length st.published + length (keep (is_eligible affected) subs))
unfolding dispatch
dispatch-exact env page affected event payload subs st e =
    rw (dispatch, e)
      (
        dispatch_loop-journal env page affected event payload subs [] st,
        dispatch_loop-published env page affected event payload subs [] st,
        ground (arith, dispatch_loop-errors env page affected event payload subs [] st),
      )
