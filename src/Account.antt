-- ===== src/Account.antt =====
-- backend/internal/domain/entities.go: accounts and the status pages that they own, and the two
-- statements by which an owner's page is found. JSON columns are kept as texts.
use healthpage.Prelude.{
  String, Bool, true, false, not, ◌&&◌, Option, none, some, List, [], ◌∷◌, ltb, if◌then◌else◌,
  is_some, ◌==◌, nat_comparable, string_comparable,
}
use healthpage.Page.{Uuid, Time}
use healthpage.Billing.{BillingPlan}

pub record Account : Type 0 where
  pub id : Uuid
  pub name : String
  pub billing_plan : BillingPlan
  pub owner_user_id : Uuid
  pub created_at : Time
  pub updated_at : Time

pub data Visibility : Type 0 where
  public private : Visibility
  other_visibility : String → Visibility

pub record StatusPage : Type 0 where
  pub id : Uuid
  pub account_id : Uuid
  pub name : String
  pub description : String
  pub slug : String
  pub timezone : String
  pub default_locale : String
  pub visibility : Visibility
  pub password_hash : Option String
  pub custom_domain : Option String
  pub domain_verified : Bool
  pub dokploy_domain_id : Option String
  pub theme : String
  pub logo_url : Option String
  pub favicon_url : Option String
  pub hide_powered_by : Bool
  pub smtp_config : Option String
  pub from_email : Option String
  pub redirect_url : Option String
  pub created_at : Time
  pub updated_at : Time
  pub deleted_at : Option Time

-- StatusPage.IsPrivate
unfoldable pub is_private : StatusPage → Bool
is_private page = elim page.visibility [ private ↦ true | _ ↦ false ]

-- GetStatusPageByID
unfoldable pub status_page_by_id : Uuid → List StatusPage → Option StatusPage
status_page_by_id id [] = none
status_page_by_id id (page ∷ rest) =
    let later = status_page_by_id id rest in
    if page.id == id && not (is_some page.deleted_at) then some page else later

-- the earlier of two accounts by `created_at`, the first one where they are equal
abbrev pub earlier : Account → Option Account → Option Account
earlier acc none = some acc
earlier acc (some other) = if ltb other.created_at acc.created_at then some other else some acc

-- GetAccountByOwner: ORDER BY created_at LIMIT 1
unfoldable pub account_by_owner : Uuid → List Account → Option Account
account_by_owner owner [] = none
account_by_owner owner (acc ∷ rest) =
    let later = account_by_owner owner rest in
    if acc.owner_user_id == owner then earlier acc later else later
