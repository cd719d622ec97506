-- ===== src/Token.antt =====
-- backend/internal/domain/apitoken.go: the scopes of an API token. `other_scope s` is a Go string
-- outside the enum.
pub mod Scopes
use healthpage.Prelude.{
  ◌+◌, ◌-◌, String, Bool, true, false, not, ◌&&◌, Option, none, some, List, [], ◌∷◌, ◌++◌,
  if◌then◌else◌, ◌==◌, nat_comparable, string_comparable, any,
}
use healthpage.Page.{Uuid, Time}

pub data TokenScope : Type 0 where
  read write : TokenScope
  other_scope : String → TokenScope

-- TokenScope.IsValid
unfoldable pub scope_is_valid : TokenScope → Bool
scope_is_valid read = true
scope_is_valid write = true
scope_is_valid (other_scope _) = false

-- `==` on the strings
unfoldable pub scope_equal : TokenScope → TokenScope → Bool
scope_equal read read = true
scope_equal write write = true
scope_equal (other_scope a) (other_scope b) = a == b
scope_equal _ _ = false

-- the conversion TokenScope(r)
unfoldable pub token_scope : String → TokenScope
token_scope r = if r == "read" then read else if r == "write" then write else other_scope r

pub record ApiToken : Type 0 where
  pub id : Uuid
  pub status_page_id : Uuid
  pub name : String
  pub scopes : List TokenScope
  pub last_used_at : Option Time
  pub created_at : Time
  pub updated_at : Time

-- the loop of HasScope
unfoldable pub scopes_grant : TokenScope → List TokenScope → Bool
unfolding scope_equal
scopes_grant want [] = false
scopes_grant want (s ∷ rest) =
    let later = scopes_grant want rest in
    if scope_equal s want
    then true
    else if scope_equal want read && scope_equal s write
    then true
    else later

-- APIToken.HasScope
unfoldable pub has_scope : ApiToken → TokenScope → Bool
unfolding scopes_grant
has_scope t want = scopes_grant want t.scopes

-- APIToken.CanWrite
unfoldable pub can_write : ApiToken → Bool
unfolding has_scope
can_write t = has_scope t write

-- the loop of NormalizeScopes, over the keys of `seen` and `out`; `none` is `(nil, false)`
unfoldable pub normalize_from :
    List TokenScope → List TokenScope → List String → Option (List TokenScope)
unfolding scope_is_valid scope_equal token_scope
normalize_from seen out [] = some out
normalize_from seen out (r ∷ rest) =
    let s = token_scope r in
    let known = any (λ k. scope_equal k s) seen in
    let later =
      normalize_from (if known then seen else s ∷ seen) (if known then out else out ++ s ∷ [])
        rest in
    if not (scope_is_valid s) then none else later

-- NormalizeScopes
unfoldable pub normalize_scopes : List String → Option (List TokenScope)
unfolding normalize_from
normalize_scopes raw = normalize_from [] [] raw
