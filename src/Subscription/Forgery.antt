-- ===== src/Subscription/Forgery.antt =====
-- Which tokens the parsers of backend/internal/subscription/token.go refuse.
use healthpage.Prelude.{
  ◌≡◌, refl, ap, ◌∙◌, inl, inr, true, false, some, [], ◌∷◌, arith, Bool-cases, Option-cases, ℤ,
  nat_comparable, string_comparable, any,
}
use mathlib.Core.List.{append_assoc}
use healthpage.Page.{Uuid, Time}
use healthpage.Bytes.{
  Bytes, equal_bytes, equal_bytes_iff, has_byte, cut, cut-append, cut-none, cut-joins, split-append,
  split-single,
}
use healthpage.Bytes.Decimal.{format_int, parse_int}
use healthpage.Bytes.Base64.{encode, has_dot-encode}
use healthpage.Subscription.{
  dot, Library, IsLibrary, ok, err, malformed, invalid_signature, after_unix, dotted, sign,
  unsubscribe_token, parse_unsubscribe_token, page_access_token, parse_page_access_token,
  parse_slack_state, access_link_token, parse_access_link_token,
}
use healthpage.Subscription.Laws.{has_dot-sign, cut_stamped, split_stamped}

dotted-has_dot : (s t : Bytes) → has_byte dot (dotted s t) ≡ true
unfolding any
dotted-has_dot [] t = refl
dotted-has_dot (b ∷ s) t = ground (arith, dotted-has_dot s t)

module _ (lib : Library) (laws : IsLibrary lib) (secret : Bytes) where
  -- no text with a dot is a signature
  not_signed : (s t msg : Bytes) → equal_bytes (dotted s t) (sign lib secret msg) ≡ false
  not_signed s t msg = elim (Bool-cases (equal_bytes (dotted s t) (sign lib secret msg))) [
    | inl e ↦
        let same = (equal_bytes_iff (dotted s t) (sign lib secret msg)).0 e in
        let dots = ap (has_byte dot) same in
        ground (arith, dots, dotted-has_dot s t, has_dot-sign lib laws secret msg)
    | inr e ↦ e
  ]

  abbrev link_message : Uuid → Bytes → ℤ → Bytes
  link_message id email at = dotted (lib.uuid_string id) (dotted (encode email) (format_int at))

  -- cutting a link's token twice gives the identifier, the address and the rest
  cut_link :
      (id : Uuid) (email : Bytes) (at : ℤ)
      → let s = lib.uuid_string id in
        let rest = dotted (format_int at) (sign lib secret (link_message id email at)) in
        (cut dot (access_link_token lib secret id email at) ≡ some (s, dotted (encode email) rest))
        × (cut dot (dotted (encode email) rest) ≡ some (encode email, rest))
  unfolding access_link_token
  cut_link id email at =
      let s = lib.uuid_string id in
      let stamp = format_int at in
      let sig = sign lib secret (link_message id email at) in
      (
        ap (cut dot) (
              append_assoc s (dot ∷ dotted (encode email) stamp) (dot ∷ sig)
              ∙ ap (dotted s) (append_assoc (encode email) (dot ∷ stamp) (dot ∷ sig)))
            ∙ cut-append dot s (dotted (encode email) (dotted stamp sig)) (laws.has_dot-string id),
        cut-append dot (encode email) (dotted stamp sig) (has_dot-encode email),
      )

  page_access-refuses_link :
      (id : Uuid) (email : Bytes) (at : ℤ) (now : Time)
      → parse_page_access_token lib secret (access_link_token lib secret id email at) now
        ≡ err invalid_signature
  unfolding parse_page_access_token
  page_access-refuses_link id email at now =
      let stamp = format_int at in
      let (first, rest) = cut_link id email at in
      rw (
        first,
        rest,
        laws.parse-string id,
        not_signed stamp (sign lib secret (link_message id email at))
            (dotted (lib.uuid_string id) (encode email)),
      )

  slack-refuses_link :
      (id : Uuid) (email : Bytes) (at : ℤ) (now : Time)
      → parse_slack_state lib secret (access_link_token lib secret id email at) now
        ≡ err invalid_signature
  unfolding parse_slack_state
  slack-refuses_link id email at now =
      let stamp = format_int at in
      let (first, rest) = cut_link id email at in
      rw (
        first,
        rest,
        laws.parse-string id,
        not_signed stamp (sign lib secret (link_message id email at))
            (dotted (lib.uuid_string id) (encode email)),
      )

  unsubscribe-refuses_stamped :
      (id : Uuid) (at : ℤ)
      → parse_unsubscribe_token lib secret (page_access_token lib secret id at)
        ≡ err invalid_signature
  unfolding parse_unsubscribe_token page_access_token
  unsubscribe-refuses_stamped id at =
      let msg = dotted (lib.uuid_string id) (format_int at) in
      let (first, _) = cut_stamped lib laws secret id at (sign lib secret msg) in
      rw (
        first,
        laws.parse-string id,
        not_signed (format_int at) (sign lib secret msg) (lib.uuid_string id),
      )

  unsubscribe-refuses_link :
      (id : Uuid) (email : Bytes) (at : ℤ)
      → parse_unsubscribe_token lib secret (access_link_token lib secret id email at)
        ≡ err invalid_signature
  unfolding parse_unsubscribe_token
  unsubscribe-refuses_link id email at =
      let (first, _) = cut_link id email at in
      rw (
        first,
        laws.parse-string id,
        not_signed (encode email)
            (dotted (format_int at) (sign lib secret (link_message id email at)))
            (lib.uuid_string id),
      )

  page_access-refuses_unsubscribe :
      (id : Uuid) (now : Time)
      → parse_page_access_token lib secret (unsubscribe_token lib secret id) now ≡ err malformed
  unfolding parse_page_access_token unsubscribe_token
  page_access-refuses_unsubscribe id now =
      let s = lib.uuid_string id in
      let sig = sign lib secret s in
      rw (
        cut-append dot s sig (laws.has_dot-string id),
        cut-none dot sig (has_dot-sign lib laws secret s),
      )

  link-refuses :
      (id : Uuid) (at : ℤ) (now : Time)
      → (parse_access_link_token lib secret (unsubscribe_token lib secret id) now ≡ err malformed)
        × (parse_access_link_token lib secret (page_access_token lib secret id at) now
            ≡ err malformed)
  unfolding parse_access_link_token unsubscribe_token page_access_token
  link-refuses id at now =
      let s = lib.uuid_string id in
      let sig = sign lib secret s in
      let msg = dotted s (format_int at) in
      let two =
        split-append dot s sig (laws.has_dot-string id)
        ∙ ap (λ l. s ∷ l) (split-single dot sig (has_dot-sign lib laws secret s)) in
      (rw two, rw (split_stamped lib laws secret id at msg))

  pub tokens_separate :
      (id : Uuid) (email : Bytes) (at : ℤ) (now : Time)
      → let link = access_link_token lib secret id email at in
        let page = page_access_token lib secret id at in
        let leave = unsubscribe_token lib secret id in
        (parse_page_access_token lib secret link now ≡ err invalid_signature)
        × (parse_slack_state lib secret link now ≡ err invalid_signature)
        × (parse_unsubscribe_token lib secret link ≡ err invalid_signature)
        × (parse_access_link_token lib secret page now ≡ err malformed)
        × (parse_unsubscribe_token lib secret page ≡ err invalid_signature)
        × (parse_page_access_token lib secret leave now ≡ err malformed)
        × (parse_access_link_token lib secret leave now ≡ err malformed)
  tokens_separate id email at now = (
    page_access-refuses_link id email at now,
    slack-refuses_link id email at now,
    unsubscribe-refuses_link id email at,
    (link-refuses id at now).1,
    unsubscribe-refuses_stamped id at,
    page_access-refuses_unsubscribe id now,
    (link-refuses id at now).0,
  )

module _ (lib : Library) (secret : Bytes) where
  -- A token that is accepted for a private page carries the signature, under the secret, of its
  -- identifier and its expiry: they parse to the page and to a time that is not over.
  pub parse_page_access-signed :
      (token : Bytes) (now : Time) (id : Uuid)
      → parse_page_access_token lib secret token now ≡ ok id
      → (s t : Bytes) × (at : ℤ) × (token ≡ dotted s (dotted t (sign lib secret (dotted s t))))
        × (lib.uuid_parse s ≡ some id)
        × (parse_int t ≡ some at)
        × (after_unix now at ≡ false)
  unfolding parse_page_access_token
  parse_page_access-signed token now id h = elim (Option-cases (cut dot token)) [
    | inl n ↦ absurd (ground (arith, n, h))
    | inr ((s, rest), e) ↦ elim (Option-cases (cut dot rest)) [
      | inl n ↦ absurd (ground (arith, n, e, h))
      | inr ((t, sig), k) ↦ elim (Option-cases (parse_int t)) [
        | inl n ↦ absurd (ground (arith, n, k, e, h))
        | inr (at, p) ↦
            let signed : equal_bytes sig (sign lib secret (dotted s t)) ≡ true =
              ground (arith, e, k, p, h) in
            (
              s,
              t,
              at,
              cut-joins dot token s rest e
                  ∙ ap (dotted s) (
                      cut-joins dot rest t sig k
                      ∙ ap (dotted t)
                          ((equal_bytes_iff sig (sign lib secret (dotted s t))).0 signed)),
              ground (arith, e, k, p, h),
              p,
              ground (arith, e, k, p, h),
            )
      ]
    ]
  ]
