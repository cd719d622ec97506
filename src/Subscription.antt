-- ===== src/Subscription.antt =====
-- backend/internal/subscription/token.go: the signed tokens of links: unsubscribing, access to a
-- private page, the state of Slack's OAuth, and access by e-mail. UUIDs and HMAC-SHA256 are a
-- parameter; a text is its bytes.
pub mod Laws
pub mod Forgery
use healthpage.Prelude.{
  ℕ, zero, ◌+◌, ◌-◌, ◌*◌, String, ◌≡◌, ap, Bool, true, false, not, ◌||◌, Option, none, some, List,
  [], ◌∷◌, ◌++◌, ltb, ℤ, pos, pos_part, neg_part, nat_comparable, string_comparable, keep,
}
use healthpage.Page.{Uuid, Time}
use healthpage.Bytes.{Bytes, equal_bytes, has_byte, cut, split}
use healthpage.Bytes.Decimal.{format_int, parse_int}
use healthpage.Bytes.Base64.{encode, decode}

abbrev pub dot : ℕ
dot = b'.'

-- uuid.UUID.String, uuid.Parse, and HMAC-SHA256 of a message under a key.
pub record Library : Type 0 where
  pub uuid_string : Uuid → Bytes
  pub uuid_parse : Bytes → Option Uuid
  pub hmac : Bytes → Bytes → Bytes

-- What the code relies on: a printed UUID parses to itself and has no dot.
pub record IsLibrary (lib : Library) : Type 0 where
  pub parse-string : (id : Uuid) → lib.uuid_parse (lib.uuid_string id) ≡ some id
  pub has_dot-string : (id : Uuid) → has_byte dot (lib.uuid_string id) ≡ false

pub data TokenError : Type 0 where
  malformed bad_id invalid_signature bad_time expired bad_email : TokenError

-- The two results of a parser, of which one is nil.
pub data Result (A : Type 0) : Type 0 where
  err : TokenError → Result A
  ok : A → Result A

-- `if v, err := …; err != nil { return err }` before what follows
infixl 5 ◌>>=◌
abbrev pub ◌>>=◌ : {A B : Type 0} → Result A → (A → Result B) → Result B
◌>>=◌ m next = elim m [ err e ↦ err e | ok v ↦ next v ]

abbrev pub or_fail : {A : Type 0} → Option A → TokenError → Result A
or_fail o e = elim o [ none ↦ err e | some v ↦ ok v ]

-- `if !test { return err }`
abbrev pub ensure : Bool → TokenError → Result (Unit {0})
ensure test e = elim test [ false ↦ err e | true ↦ ok tt ]

-- nanoseconds in a second, and the Unix epoch in nanoseconds from the zero time
abbrev pub second : ℕ
second = 1000000000

abbrev pub unix_epoch : Time
unix_epoch = 62135596800 * second

-- time.Unix keeps the seconds since the zero time in an int64: near its end they wrap to a time
-- before every other one.
abbrev pub unix_wraps : ℤ → Bool
unix_wraps at = ltb 9223372036854775807 (62135596800 + pos_part at)

-- `now.After(time.Unix(at, 0))`
abbrev pub after_unix : Time → ℤ → Bool
after_unix now at =
    unix_wraps at || ltb (unix_epoch + pos_part at * second) (now + neg_part at * second)

-- SlackStateTTL, in nanoseconds
abbrev pub slack_state_ttl : ℕ
slack_state_ttl = 3600 * second

-- `now.Sub(time.Unix(at, 0)) > SlackStateTTL`
abbrev pub too_old : Time → ℤ → Bool
too_old now at =
    unix_wraps at
    || ltb (unix_epoch + pos_part at * second + slack_state_ttl) (now + neg_part at * second)

-- parts joined by a dot
abbrev pub dotted : Bytes → Bytes → Bytes
dotted s t = s ++ dot ∷ t

module _ (lib : Library) where
  unfoldable pub sign : Bytes → Bytes → Bytes
  sign secret msg = encode (lib.hmac secret msg)

  -- UnsubscribeToken
  unfoldable pub unsubscribe_token : Bytes → Uuid → Bytes
  unsubscribe_token secret subscriber_id =
      let id = lib.uuid_string subscriber_id in dotted id (sign secret id)

  -- ParseUnsubscribeToken
  unfoldable pub parse_unsubscribe_token : Bytes → Bytes → Result Uuid
  parse_unsubscribe_token secret token = do
    parts ← or_fail (cut dot token) malformed
    id ← or_fail (lib.uuid_parse parts.0) bad_id
    _ ← ensure (equal_bytes parts.1 (sign secret parts.0)) invalid_signature
    ok id

  -- PageAccessToken
  unfoldable pub page_access_token : Bytes → Uuid → ℤ → Bytes
  page_access_token secret page_id expires_at =
      let msg = dotted (lib.uuid_string page_id) (format_int expires_at) in
      dotted msg (sign secret msg)

  -- ParsePageAccessToken
  unfoldable pub parse_page_access_token : Bytes → Bytes → Time → Result Uuid
  parse_page_access_token secret token now = do
    first ← or_fail (cut dot token) malformed
    second_part ← or_fail (cut dot first.1) malformed
    id ← or_fail (lib.uuid_parse first.0) bad_id
    _ ←
        ensure (equal_bytes second_part.1 (sign secret (dotted first.0 second_part.0)))
          invalid_signature
    exp ← or_fail (parse_int second_part.0) bad_time
    _ ← ensure (not (after_unix now exp)) expired
    ok id

  -- SignSlackState
  unfoldable pub sign_slack_state : Bytes → Uuid → ℤ → Bytes
  sign_slack_state secret page_id issued_at =
      let msg = dotted (lib.uuid_string page_id) (format_int issued_at) in
      dotted msg (sign secret msg)

  -- ParseSlackState
  unfoldable pub parse_slack_state : Bytes → Bytes → Time → Result Uuid
  parse_slack_state secret state now = do
    first ← or_fail (cut dot state) malformed
    second_part ← or_fail (cut dot first.1) malformed
    id ← or_fail (lib.uuid_parse first.0) bad_id
    _ ←
        ensure (equal_bytes second_part.1 (sign secret (dotted first.0 second_part.0)))
          invalid_signature
    issued ← or_fail (parse_int second_part.0) bad_time
    _ ← ensure (not (too_old now issued)) expired
    ok id

  -- AccessLinkToken
  unfoldable pub access_link_token : Bytes → Uuid → Bytes → ℤ → Bytes
  access_link_token secret page_id email expires_at =
      let msg = dotted (lib.uuid_string page_id) (dotted (encode email) (format_int expires_at)) in
      dotted msg (sign secret msg)

  -- the four parts of a link's token, checked in the order of the code
  abbrev parse_parts : Bytes → Time → List Bytes → Result (Uuid × Bytes)
  parse_parts secret now (id_str ∷ enc ∷ exp_str ∷ sig ∷ []) = do
    id ← or_fail (lib.uuid_parse id_str) bad_id
    _ ←
        ensure (equal_bytes sig (sign secret (dotted id_str (dotted enc exp_str))))
          invalid_signature
    exp ← or_fail (parse_int exp_str) bad_time
    _ ← ensure (not (after_unix now exp)) expired
    email ← or_fail (decode enc) bad_email
    ok (id, email)
  parse_parts secret now _ = err malformed

  -- ParseAccessLinkToken
  unfoldable pub parse_access_link_token : Bytes → Bytes → Time → Result (Uuid × Bytes)
  parse_access_link_token secret token now = parse_parts secret now (split dot token)
