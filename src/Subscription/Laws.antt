-- ===== src/Subscription/Laws.antt =====
-- What the tokens of links guarantee (backend/internal/subscription/token.go).
use healthpage.Prelude.{
  ◌≡◌, ap, ◌∙◌, false, some, [], ◌∷◌, arith, if◌then◌else◌, ℤ, nat_comparable, string_comparable,
}
use mathlib.Core.List.{append_assoc}
use healthpage.Page.{Uuid, Time}
use healthpage.Bytes.{
  Bytes, equal_bytes_self, has_byte, cut, split, cut-append, split-append, split-single,
}
use healthpage.Bytes.Decimal.{IsInt64, format_int, parse_int-format_int, has_dot-format_int}
use healthpage.Bytes.Base64.{AreBytes, encode, decode-encode, has_dot-encode}
use healthpage.Subscription.{
  dot, Library, IsLibrary, ok, err, expired, after_unix, too_old, dotted, sign, unsubscribe_token,
  parse_unsubscribe_token, page_access_token, parse_page_access_token, sign_slack_state,
  parse_slack_state, access_link_token, parse_access_link_token,
}

module _ (lib : Library) (laws : IsLibrary lib) (secret : Bytes) where
  pub has_dot-sign : (msg : Bytes) → has_byte dot (sign lib secret msg) ≡ false
  unfolding sign
  has_dot-sign msg = has_dot-encode (lib.hmac secret msg)

  -- A token for leaving a subscription names its subscriber, at any time.
  pub parse_unsubscribe-issued :
      (id : Uuid) → parse_unsubscribe_token lib secret (unsubscribe_token lib secret id) ≡ ok id
  unfolding parse_unsubscribe_token unsubscribe_token
  parse_unsubscribe-issued id =
      let s = lib.uuid_string id in
      let parsed = laws.parse-string id in
      let same = equal_bytes_self (sign lib secret s) in
      rw (cut-append dot s (sign lib secret s) (laws.has_dot-string id))
        (ground (arith, parsed, same))

  -- cutting a stamped token twice gives the identifier, the stamp and the signature
  pub cut_stamped :
      (id : Uuid) (at : ℤ) (sig : Bytes)
      → (cut dot (dotted (dotted (lib.uuid_string id) (format_int at)) sig)
          ≡ some (lib.uuid_string id, dotted (format_int at) sig))
        × (cut dot (dotted (format_int at) sig) ≡ some (format_int at, sig))
  cut_stamped id at sig = (
    ap (cut dot) (append_assoc (lib.uuid_string id) (dot ∷ format_int at) (dot ∷ sig))
        ∙ cut-append dot (lib.uuid_string id) (dotted (format_int at) sig) (laws.has_dot-string id),
    cut-append dot (format_int at) sig (has_dot-format_int at),
  )

  -- A token for access to a private page, with an expiry within int64, names its page until the
  -- expiry, and is refused as expired after it, or at once where time.Unix wraps the expiry.
  pub parse_page_access-issued :
      (id : Uuid) (at : ℤ) (now : Time)
      → IsInt64 at
      → parse_page_access_token lib secret (page_access_token lib secret id at) now
        ≡ (if after_unix now at then err expired else ok id)
  unfolding parse_page_access_token page_access_token
  parse_page_access-issued id at now h =
      let msg = dotted (lib.uuid_string id) (format_int at) in
      let (first, rest) = cut_stamped id at (sign lib secret msg) in
      let same = equal_bytes_self (sign lib secret msg) in
      let parsed = laws.parse-string id in
      rw (first, rest, parsed, same, parse_int-format_int at h) (ground arith)

  slack_stamped :
      (id : Uuid) (at : ℤ) (now : Time)
      → IsInt64 at
      → let msg = dotted (lib.uuid_string id) (format_int at) in
        parse_slack_state lib secret (dotted msg (sign lib secret msg)) now
        ≡ (if too_old now at then err expired else ok id)
  unfolding parse_slack_state
  slack_stamped id at now h =
      let msg = dotted (lib.uuid_string id) (format_int at) in
      let (first, rest) = cut_stamped id at (sign lib secret msg) in
      let same = equal_bytes_self (sign lib secret msg) in
      let parsed = laws.parse-string id in
      rw (first, rest, parsed, same, parse_int-format_int at h) (ground arith)

  -- A state issued for Slack, at a time within int64, names its page until it is too old, which it
  -- is at once where time.Unix wraps that time. A token for access to a private
  -- page is accepted in the place of such a state, with its expiry taken for the time of issue.
  pub parse_slack_state-sign :
      (id : Uuid) (at : ℤ) (now : Time)
      → IsInt64 at
      → (parse_slack_state lib secret (sign_slack_state lib secret id at) now
          ≡ (if too_old now at then err expired else ok id))
        × (parse_slack_state lib secret (page_access_token lib secret id at) now
            ≡ (if too_old now at then err expired else ok id))
  unfolding page_access_token sign_slack_state
  parse_slack_state-sign id at now h = (slack_stamped id at now h, slack_stamped id at now h)

  pub split_stamped :
      (id : Uuid) (at : ℤ) (msg : Bytes)
      → split dot (dotted (dotted (lib.uuid_string id) (format_int at)) (sign lib secret msg))
        ≡ lib.uuid_string id ∷ format_int at ∷ sign lib secret msg ∷ []
  split_stamped id at msg =
      let s = lib.uuid_string id in
      let sig = sign lib secret msg in
      ap (split dot) (append_assoc s (dot ∷ format_int at) (dot ∷ sig))
      ∙ split-append dot s (dotted (format_int at) sig) (laws.has_dot-string id)
      ∙ ap (λ l. s ∷ l)
          (split-append dot (format_int at) sig (has_dot-format_int at)
            ∙ ap (λ l. format_int at ∷ l) (split-single dot sig (has_dot-sign msg)))

  -- splitting a link's token gives its four parts
  pub split_link :
      (id : Uuid) (email : Bytes) (at : ℤ) (msg : Bytes)
      → split dot (
          dotted
            (dotted (lib.uuid_string id) (dotted (encode email) (format_int at)))
            (sign lib secret msg))
        ≡ lib.uuid_string id ∷ encode email ∷ format_int at ∷ sign lib secret msg ∷ []
  split_link id email at msg =
      let sig = sign lib secret msg in
      let s = lib.uuid_string id in
      ap (split dot) (
        append_assoc s (dot ∷ dotted (encode email) (format_int at)) (dot ∷ sig)
        ∙ ap (dotted s) (append_assoc (encode email) (dot ∷ format_int at) (dot ∷ sig)))
      ∙ split-append dot s (dotted (encode email) (dotted (format_int at) sig))
          (laws.has_dot-string id)
      ∙ ap (λ l. s ∷ l)
          (split-append dot (encode email) (dotted (format_int at) sig) (has_dot-encode email)
            ∙ ap (λ l. encode email ∷ l)
                (split-append dot (format_int at) sig (has_dot-format_int at)
                  ∙ ap (λ l. format_int at ∷ l) (split-single dot sig (has_dot-sign msg))))

  -- A link for access by e-mail, with an expiry within int64, gives its page and its address back
  -- until the expiry, and is refused as expired after it, or at once where time.Unix wraps the
  -- expiry.
  pub parse_access_link-issued :
      (id : Uuid) (email : Bytes) (at : ℤ) (now : Time)
      → AreBytes email
      → IsInt64 at
      → parse_access_link_token lib secret (access_link_token lib secret id email at) now
        ≡ (if after_unix now at then err expired else ok (id, email))
  unfolding parse_access_link_token access_link_token
  parse_access_link-issued id email at now b h =
      let msg = dotted (lib.uuid_string id) (dotted (encode email) (format_int at)) in
      let same = equal_bytes_self (sign lib secret msg) in
      let parsed = laws.parse-string id in
      rw
        (split_link id email at msg, parsed, same, parse_int-format_int at h, decode-encode email b)
        (ground arith)
