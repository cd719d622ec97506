-- ===== src/Webhook/Resolution.antt =====
-- Which components an alert is resolved to (backend/internal/webhook/mapping.go).
use healthpage.Prelude.{
  String, ◌≡◌, refl, sym, ap, ◌∙◌, subst, ◌⊎◌, inl, inr, Bool, true, false, ◌||◌, Option, none,
  some, List, [], ◌∷◌, arith, eq_iff, Bool-cases, Option-cases, ◌==◌, nat_equal_iff, nat_comparable,
  string_comparable, All, any,
}
use healthpage.Page.{Uuid}
use healthpage.Webhook.{value_of, lookup, Alert, Mapping, raw_components, resolve_from, resolve}

-- No identifier is listed twice.
abbrev pub NoDuplicate : List Uuid → Type 0
NoDuplicate [] = Unit
NoDuplicate (id ∷ rest) = All (λ x. (id == x) ≡ false) rest × NoDuplicate rest

module _ (uuid_parse : String → Option Uuid) where
  -- what is listed after some identifiers have been seen
  abbrev IsNew : List Uuid → Uuid → Type 0
  IsNew seen id = any (λ k. k == id) seen ≡ false

  unseen_first :
      (first : Uuid) (seen l : List Uuid)
      → All (IsNew (first ∷ seen)) l
      → All (λ x. (first == x) ≡ false) l × All (IsNew seen) l
  unfolding any
  unseen_first first seen [] h = (tt, tt)
  unseen_first first seen (x ∷ l) h =
      let (a, b) = unseen_first first seen l h.1 in
      let new = h.0 in ((ground (arith, new), a), (ground (arith, new), b))

  -- the three ways of one round
  skips :
      (seen : List Uuid) (s : String) (rest : List String)
      → uuid_parse s ≡ none
      → resolve_from uuid_parse seen (s ∷ rest) ≡ resolve_from uuid_parse seen rest
  unfolding resolve_from
  skips seen s rest n = ground (arith, n)

  repeats :
      (seen : List Uuid) (s : String) (rest : List String) (id : Uuid)
      → uuid_parse s ≡ some id
      → any (λ k. k == id) seen ≡ true
      → resolve_from uuid_parse seen (s ∷ rest) ≡ resolve_from uuid_parse seen rest
  unfolding resolve_from
  repeats seen s rest id e old = ground (arith, e, old)

  takes :
      (seen : List Uuid) (s : String) (rest : List String) (id : Uuid)
      → uuid_parse s ≡ some id
      → any (λ k. k == id) seen ≡ false
      → resolve_from uuid_parse seen (s ∷ rest) ≡ id ∷ resolve_from uuid_parse (id ∷ seen) rest
  unfolding resolve_from
  takes seen s rest id e new = ground (arith, e, new)

  abbrev IsResolution : List Uuid → List Uuid → Type 0
  IsResolution seen l = NoDuplicate l × All (IsNew seen) l

  resolved_new :
      (seen : List Uuid) (raw : List String) → IsResolution seen (resolve_from uuid_parse seen raw)
  unfolding resolve_from
  resolved_new seen [] = (tt, tt)
  resolved_new seen (s ∷ rest) = elim (Option-cases (uuid_parse s)) [
    | inl n ↦ subst (IsResolution seen) (sym (skips seen s rest n)) (resolved_new seen rest)
    | inr (id, e) ↦ elim (Bool-cases (any (λ k. k == id) seen)) [
      | inl old ↦
          subst (IsResolution seen) (sym (repeats seen s rest id e old)) (resolved_new seen rest)
      | inr new ↦
          let (distinct, fresh) = resolved_new (id ∷ seen) rest in
          let (others, unseen) =
            unseen_first id seen (resolve_from uuid_parse (id ∷ seen) rest) fresh in
          subst (IsResolution seen) (sym (takes seen s rest id e new))
            ((others, distinct), (new, unseen))
    ]
  ]

  -- a text is the text of an identifier
  abbrev is_text_of : Uuid → String → Bool
  is_text_of id s = elim (uuid_parse s) [ none ↦ false | some k ↦ k == id ]

  old_is_seen :
      (first id : Uuid) (seen : List Uuid)
      → any (λ k. k == first) seen ≡ true
      → (first == id) ≡ true
      → any (λ k. k == id) seen ≡ true
  old_is_seen first id seen old e =
      subst (λ x. any (λ k. k == x) seen ≡ true) ((nat_equal_iff first id).0 e) old

  listed_exactly :
      (id : Uuid) (seen : List Uuid) (raw : List String)
      → (any (λ k. k == id) seen || any (λ k. k == id) (resolve_from uuid_parse seen raw))
        ≡ (any (λ k. k == id) seen || any (is_text_of id) raw)
  unfolding any resolve_from
  listed_exactly id seen [] = refl
  listed_exactly id seen (s ∷ rest) = elim (Option-cases (uuid_parse s)) [
    | inl n ↦
        let ih = listed_exactly id seen rest in
        let same = skips seen s rest n in ground (arith, ih, same, n)
    | inr (first, e) ↦ elim (Bool-cases (any (λ k. k == first) seen)) [
      | inl old ↦
          let ih = listed_exactly id seen rest in
          let same = repeats seen s rest first e old in
          elim (Bool-cases (first == id)) [
            | inl t ↦ (let there = old_is_seen first id seen old t in ground (arith, there))
            | inr t ↦ ground (arith, ih, same, e, t)
          ]
      | inr new ↦
          let ih = listed_exactly id (first ∷ seen) rest in
          let same = takes seen s rest first e new in ground (arith, ih, same, e)
    ]
  ]

  abbrev or_empty : Option String → String
  or_empty o = elim o [ none ↦ "" | some v ↦ v ]

  blank :
      (m : Mapping) (a : Alert) (o : Option String)
      → lookup m.match_label a.labels ≡ o
      → or_empty o ≡ ""
      → (value_of m.match_label a.labels == "") ≡ true
  blank m a o k e = (eq_iff (value_of m.match_label a.labels) "").1 (ap {B = String} or_empty k ∙ e)

  by_default :
      (m : Mapping) (a : Alert)
      → ((m.match_label == "") ≡ true)
        ⊎ (lookup m.match_label a.labels ≡ none)
        ⊎ (lookup m.match_label a.labels ≡ some "")
        ⊎ ((key : String) × (lookup m.match_label a.labels ≡ some key)
            × (lookup key m.entries ≡ none))
      → raw_components m a ≡ m.default_component_ids
  unfolding raw_components
  by_default m a (inl l) = ground (arith, l)
  by_default m a (inr (inl k)) = let empty = blank m a none k refl in ground (arith, empty)
  by_default m a (inr (inr (inl k))) =
      let empty = blank m a (some "") k refl in ground (arith, empty)
  by_default m a (inr (inr (inr (key, k, e)))) = ground (arith, k, e)

  -- The components of an alert are exactly those whose identifiers are texts of the mapping, each
  -- listed once. The texts are the one entry of the value of the alert's label, where the mapping
  -- names a label, the alert has it with a value that is not empty, and the mapping has an entry
  -- for it; otherwise they are the mapping's components by default.
  pub resolve_lem :
      (m : Mapping) (a : Alert)
      → NoDuplicate (resolve uuid_parse m a)
        × ((id : Uuid)
            → any (λ k. k == id) (resolve uuid_parse m a)
              ≡ any (is_text_of id) (raw_components m a))
        × ((key text : String)
            → (m.match_label == "") ≡ false
            → lookup m.match_label a.labels ≡ some key
            → (key == "") ≡ false
            → lookup key m.entries ≡ some text
            → raw_components m a ≡ text ∷ [])
        × (((m.match_label == "") ≡ true)
              ⊎ (lookup m.match_label a.labels ≡ none)
              ⊎ (lookup m.match_label a.labels ≡ some "")
              ⊎ ((key : String) × (lookup m.match_label a.labels ≡ some key)
                  × (lookup key m.entries ≡ none))
            → raw_components m a ≡ m.default_component_ids)
  unfolding resolve
  resolve_lem m a = (
    (resolved_new [] (raw_components m a)).0,
    λ id. (unfold any in listed_exactly id [] (raw_components m a)),
    λ key text l k n e. (unfold raw_components in ground (arith, l, k, n, e)),
    by_default m a,
  )
