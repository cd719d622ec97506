-- ===== src/Store/Incidents/Keys.antt =====
-- The set of affected components that UpdateIncident and UpdateMaintenance collect in a map
-- (backend/internal/store/incidents.go and maintenances.go).
use healthpage.Prelude.{
  ◌≡◌, sym, ap, ◌∙◌, inl, inr, ◌||◌, List, [], ◌∷◌, arith, Bool-cases, ◌==◌, nat_comparable,
  string_comparable, any, any-append,
}
use healthpage.Page.{Uuid}
use healthpage.Store.Incidents.{add_key, add_keys}

any-add_key :
    (j : Uuid) (keys : List Uuid) (id : Uuid)
    → any (λ c. c == j) (add_key keys id) ≡ any (λ c. c == j) keys || (id == j)
unfolding any
any-add_key j keys id = elim (Bool-cases (any (λ k. k == id) keys)) [
  | inl known ↦ rw known (elim (Bool-cases (id == j)) [
    | inl same ↦
        let e : id ≡ j = ground arith in
        ap (λ x. any (λ c. c == x) keys) (sym e) ∙ known ∙ ground (arith, same)
    | inr other ↦ ground (arith, other)
  ])
  | inr new ↦ rw new (any-append (λ c. c == j) keys (id ∷ []) ∙ ground arith)
]

-- A key is in the set exactly when it was, or is among those that are added.
pub any-add_keys :
    (j : Uuid) (keys ids : List Uuid)
    → any (λ c. c == j) (add_keys keys ids) ≡ any (λ c. c == j) keys || any (λ c. c == j) ids
unfolding add_keys any
any-add_keys j keys [] = ground arith
any-add_keys j keys (id ∷ rest) =
    ground (arith, any-add_keys j (add_key keys id) rest, any-add_key j keys id)
