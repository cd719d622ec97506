-- ===== src/Subscriber.antt =====
-- backend/internal/domain/subscriber.go: channels and scopes of a subscription.
-- `other s` is a Go string outside the enum.
pub mod Interest
use healthpage.Prelude.{
  ◌-◌, String, ap, Bool, true, false, ◌||◌, Option, List, [], ◌∷◌, map, if◌then◌else◌, ◌==◌,
  nat_comparable, string_comparable, any,
}
use healthpage.Page.{Uuid, Time}

pub data SubscriberChannel : Type 0 where
  email telegram rss ical webhook max slack : SubscriberChannel
  other : String → SubscriberChannel

-- SubscriberChannel.IsValid
unfoldable pub is_valid : SubscriberChannel → Bool
is_valid (other _) = false
is_valid _ = true

-- SubscriberChannel.IsPush
unfoldable pub is_push : SubscriberChannel → Bool
is_push email = true
is_push telegram = true
is_push max = true
is_push slack = true
is_push _ = false

abbrev pub is_webhook : SubscriberChannel → Bool
is_webhook webhook = true
is_webhook _ = false

-- SubscriberChannel.Deliverable
unfoldable pub deliverable : SubscriberChannel → Bool
unfolding is_push
deliverable c = is_push c || is_webhook c

pub data SubscriberScope : Type 0 where
  page components : SubscriberScope
  other_scope : String → SubscriberScope

abbrev pub is_page : SubscriberScope → Bool
is_page page = true
is_page _ = false

-- SubscriberScope.IsValid
unfoldable pub scope_is_valid : SubscriberScope → Bool
scope_is_valid (other_scope _) = false
scope_is_valid _ = true

pub record Subscriber : Type 0 where
  pub id : Uuid
  pub status_page_id : Uuid
  pub channel : SubscriberChannel
  pub address : String
  pub confirmed : Bool
  pub confirm_token : Option String
  pub unsubscribe_token : Option String
  pub scope : SubscriberScope
  pub component_ids : List Uuid
  pub created_at : Time
  pub updated_at : Time

abbrev pub is_empty {ℓ} : {A : Type ℓ} → List A → Bool
is_empty [] = true
is_empty (_ ∷ _) = false

-- Subscriber.WantsEvent; the map `want` holds the keys of `ComponentIDs`
unfoldable pub wants_event : Subscriber → List Uuid → Bool
wants_event s affected =
    if is_page s.scope
    then true
    else if is_empty affected
    then false
    else any (λ id. any (λ w. w == id) s.component_ids) affected
