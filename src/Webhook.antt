-- ===== src/Webhook.antt =====
-- backend/internal/webhook/mapping.go and the alerts of alert.go: which components an alert of
-- another service concerns. A Go map is an association list; the payload's parser is left out.
pub mod Resolution
use healthpage.Prelude.{
  String, Bool, ◌||◌, Option, none, some, List, [], ◌∷◌, if◌then◌else◌, ◌==◌, nat_comparable,
  string_comparable, any,
}
use healthpage.Page.{Uuid}
use healthpage.Incident.{IncidentImpact, major, impact_is_valid}

pub record Alert : Type 0 where
  pub dedup_key : String
  pub firing : Bool
  pub title : String
  pub body : String
  pub labels : List (String × String)

pub record Mapping : Type 0 where
  pub entries : List (String × String)
  pub default_component_ids : List String
  pub match_label : String
  pub default_impact : IncidentImpact

-- `m[key]` with its `ok`
unfoldable pub lookup : String → List (String × String) → Option String
lookup key [] = none
lookup key ((k, v) ∷ rest) = let later = lookup key rest in if k == key then some v else later

-- `m[key]`, which is empty on a missing key
abbrev pub value_of : String → List (String × String) → String
value_of key entries = elim (lookup key entries) [ none ↦ "" | some v ↦ v ]

-- Mapping.Impact
unfoldable pub impact_of : Mapping → IncidentImpact
unfolding impact_is_valid
impact_of m = if impact_is_valid m.default_impact then m.default_impact else major

-- `raw`: the entry of the label's value, or the components by default
unfoldable pub raw_components : Mapping → Alert → List String
unfolding lookup
raw_components m a =
    let key = value_of m.match_label a.labels in
    if m.match_label == "" || key == ""
    then m.default_component_ids
    else elim (lookup key m.entries) [ none ↦ m.default_component_ids | some id ↦ id ∷ [] ]

-- the loop over `raw`
unfoldable pub resolve_from : (String → Option Uuid) → List Uuid → List String → List Uuid
resolve_from uuid_parse seen [] = []
resolve_from uuid_parse seen (s ∷ rest) = elim (uuid_parse s) [
  | none ↦ resolve_from uuid_parse seen rest
  | some id ↦
      let again = resolve_from uuid_parse seen rest in
      let first = id ∷ resolve_from uuid_parse (id ∷ seen) rest in
      if any (λ k. k == id) seen then again else first
]

-- Mapping.Resolve
unfoldable pub resolve : (String → Option Uuid) → Mapping → Alert → List Uuid
unfolding raw_components resolve_from
resolve uuid_parse m a = resolve_from uuid_parse [] (raw_components m a)
