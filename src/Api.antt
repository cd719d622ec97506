-- ===== src/Api.antt =====
-- backend/internal/api: what the handlers of requests share: the principal, the authorisation of a
-- page (access.go), and the announcement of events (emitNotify of server.go). A request's body is
-- `none` where it cannot be decoded. Of an answer its refusal or its content is kept; a refusal
-- stands for the status and the code that the handler writes.
pub mod Answers
pub mod Maintenances
pub mod Incidents
pub mod Ingest
use healthpage.Prelude.{
  ◌-◌, String, Bool, true, false, not, ◌||◌, Option, none, some, List, ◌==◌, nat_comparable,
  string_comparable, any,
}
use healthpage.Page.{Uuid, Time}
use healthpage.Account.{Account, StatusPage, status_page_by_id, account_by_owner}
use healthpage.Token.{ApiToken}
use healthpage.Store.{Db, StoreError}
use healthpage.Store as Tables
use healthpage.Notify.{State, Env, Error}

pub data Refusal : Type 0 where
  bad_request unauthorized forbidden not_found invalid_request internal : Refusal

pub data Answer (A : Type 0) : Type 0 where
  refused : Refusal → Answer A
  granted : A → Answer A

-- `if !ok { return }` after a check that has written the answer
infixl 5 ◌>>=◌
abbrev pub ◌>>=◌ : {A B : Type 0} → Answer A → (A → Answer B) → Answer B
◌>>=◌ check next = elim check [ refused r ↦ refused r | granted a ↦ next a ]

abbrev pub or_refuse : {A : Type 0} → Option A → Refusal → Answer A
or_refuse o r = elim o [ none ↦ refused r | some a ↦ granted a ]

abbrev pub ensure : Bool → Refusal → Answer (Unit {0})
ensure test r = elim test [ false ↦ refused r | true ↦ granted tt ]

-- a change that a request asks for or leaves out
abbrev pub when_some : {A B : Type 0} → Option A → (A → B → Answer B) → B → Answer B
when_some o change b = elim o [ none ↦ granted b | some a ↦ change a b ]

-- the principal of a request: an operator, by the identifier of the user, or a page's token
pub record Principal : Type 0 where
  pub operator : Option Uuid
  pub token : Option ApiToken

-- The tables, the pages and accounts, and what has been announced.
pub record World : Type 0 where
  pub db : Db
  pub pages : List StatusPage
  pub accounts : List Account
  pub sent : State

-- uuid.Parse and time.Parse of RFC 3339, and the notifier, where there is one.
pub record Outside : Type 0 where
  pub uuid_parse : String → Option Uuid
  pub parse_time : String → Option Time
  pub notifier : Option Env

-- principalOwnsPage
unfoldable pub principal_owns_page : Principal → StatusPage → World → Bool
principal_owns_page p page w = elim p.token [
  | some token ↦ token.status_page_id == page.id
  | none ↦ elim p.operator [
    | none ↦ false
    | some operator ↦ elim (account_by_owner operator w.accounts) [
      | none ↦ false
      | some acc ↦ page.account_id == acc.id
    ]
  ]
]

-- authorizePage
unfoldable pub authorize_page : Option Principal → Uuid → World → Answer StatusPage
unfolding principal_owns_page
authorize_page principal page_id w = do
  p ← or_refuse principal unauthorized
  page ← or_refuse (status_page_by_id page_id w.pages) not_found
  _ ← ensure (principal_owns_page p page w) not_found
  granted page

-- resolveManagedPage; the empty text is an identifier that is not given
unfoldable pub resolve_managed_page :
    Outside → Option Principal → String → World → Answer StatusPage
resolve_managed_page o principal raw w = do
  p ← or_refuse principal unauthorized
  elim p.token [
    | some token ↦ (do
      _ ←
          ensure
            (raw == ""
              || (elim (o.uuid_parse raw) [ none ↦ false | some id ↦ id == token.status_page_id ]))
            not_found
      authorize_page principal token.status_page_id w)
    | none ↦ (do id ← or_refuse (o.uuid_parse raw) invalid_request; authorize_page principal id w)
  ]

-- boolOr
abbrev pub bool_or : Option Bool → Bool → Bool
bool_or none default = default
bool_or (some b) default = b

-- writeLoadError
abbrev pub load_error : StoreError → Refusal
load_error Tables.not_found = not_found
load_error _ = internal

abbrev pub loaded : {A : Type 0} → Tables.Result A → Answer A
loaded r = elim r [ Tables.ok a ↦ granted a | Tables.err e ↦ refused (load_error e) ]

-- emitNotify: errors of the notifier are only logged.
unfoldable pub emit_notify : Outside → (Env → State → List Error × State) → World → World
emit_notify o event w = elim o.notifier [
  | none ↦ w
  | some env ↦ record w { sent = (event env w.sent).1 }
]

-- the answer to an operation of the store: any error is an internal one
abbrev pub answered : {A : Type 0} → World → Tables.Result A × Db → Answer A × World
answered w (Tables.err e, db') = (refused internal, record w { db = db' })
answered w (Tables.ok a, db') = (granted a, record w { db = db' })
