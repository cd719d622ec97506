-- ===== src/Subscriber/Interest.antt =====
-- When an event reaches a subscriber (backend/internal/domain/subscriber.go).
use healthpage.Prelude.{
  ◌≡◌, subst, ◌↔◌, Bool, true, false, List, [], ◌∷◌, Memᴰ, if◌then◌else◌, ◌==◌, nat_equal_iff,
  nat_comparable, string_comparable, any, equal_self, any-mem, mem-any,
}
use healthpage.Page.{Uuid}
use healthpage.Subscriber.{Subscriber, is_page, is_empty, wants_event}

-- A subscriber to components wants an event exactly when the event affects one of them; in
-- particular not an event that affects no component. A subscriber to the page wants every event.
pub wants_event_iff :
    (s : Subscriber) (affected : List Uuid)
    → (is_page s.scope ≡ true → wants_event s affected ≡ true)
      × (is_page s.scope ≡ false
          → (wants_event s affected ≡ true)
            ↔ ((id : Uuid) × Memᴰ id affected × Memᴰ id s.component_ids))
unfolding wants_event
wants_event_iff s affected = (λ h. rw h, λ h. (forward h affected, backward h affected))
  where
    wanted : Uuid → Bool
    wanted id = any (λ w. w == id) s.component_ids

    forward :
        is_page s.scope ≡ false
        → (l : List Uuid)
        → (if is_page s.scope then true else if is_empty l then false else any wanted l) ≡ true
        → (id : Uuid) × Memᴰ id l × Memᴰ id s.component_ids
    forward h [] e = cc
    forward h (x ∷ l) e =
        let (id, m, k) = any-mem wanted (x ∷ l) (rw h at e) in
        let (w, n, q) = any-mem (λ w. w == id) s.component_ids k in
        (id, m, subst (λ z. Memᴰ z s.component_ids) ((nat_equal_iff w id).0 q) n)

    backward :
        is_page s.scope ≡ false
        → (l : List Uuid) → ((id : Uuid) × Memᴰ id l × Memᴰ id s.component_ids)
        → (if is_page s.scope then true else if is_empty l then false else any wanted l) ≡ true
    backward h [] (id, m, n) = elim m [ ]
    backward h (x ∷ l) (id, m, n) =
        rw h (mem-any wanted (x ∷ l) m (mem-any (λ w. w == id) s.component_ids n (equal_self id)))
