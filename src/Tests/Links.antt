-- ===== src/Tests/Links.antt =====
-- The tokens of links at a concrete library: UUIDs printed in base 10 and the message as its own
-- code.
use healthpage.Prelude.{
  ◌≡◌, false, some, ◌++◌, arith, if◌then◌else◌, ℤ, pos, nat_comparable, string_comparable,
}
use healthpage.Bytes.{Bytes, ascii, has_byte}
use healthpage.Bytes.Decimal.{
  format_nat, parse_nat, parse_nat-format_nat, has_dot-format_int, parse_int,
}
use healthpage.Subscription.{
  Library, IsLibrary, ok, err, malformed, invalid_signature, expired, after_unix, too_old, dotted,
  sign, unsubscribe_token, parse_unsubscribe_token, page_access_token, parse_page_access_token,
  sign_slack_state, parse_slack_state, access_link_token, parse_access_link_token,
}
use healthpage.Subscription.Laws.{
  parse_page_access-issued, parse_access_link-issued, parse_slack_state-sign,
}
use healthpage.Subscription.Forgery.{tokens_separate, parse_page_access-signed}

abbrev toy : Library
toy = record {
  uuid_string = format_nat;
  uuid_parse = parse_nat;
  hmac = λ secret msg. secret ++ msg;
}

toy-IsLibrary : IsLibrary toy
unfolding healthpage.Bytes.Decimal.format_int
toy-IsLibrary = record {
  parse-string = parse_nat-format_nat;
  has_dot-string = λ id. has_dot-format_int (pos id);
}

abbrev key : Bytes
key = ascii "key"

access_link_example :
    parse_access_link_token toy key (access_link_token toy key 7 (ascii "a@b.c") (pos 100)) 0
    ≡ (if after_unix 0 (pos 100) then err expired else ok (7, ascii "a@b.c"))
access_link_example =
    parse_access_link-issued toy toy-IsLibrary key 7 (ascii "a@b.c") (pos 100) 0 (omega arith)
      (omega arith)

slack_state_example :
    (parse_slack_state toy key (sign_slack_state toy key 7 (pos 100)) 0
      ≡ (if too_old 0 (pos 100) then err expired else ok 7))
    × (parse_slack_state toy key (page_access_token toy key 7 (pos 100)) 0
        ≡ (if too_old 0 (pos 100) then err expired else ok 7))
slack_state_example = parse_slack_state-sign toy toy-IsLibrary key 7 (pos 100) 0 (omega arith)

separate_example :
    let link = access_link_token toy key 7 (ascii "a@b.c") (pos 100) in
    let page = page_access_token toy key 7 (pos 100) in
    let leave = unsubscribe_token toy key 7 in
    (parse_page_access_token toy key link 0 ≡ err invalid_signature)
    × (parse_slack_state toy key link 0 ≡ err invalid_signature)
    × (parse_unsubscribe_token toy key link ≡ err invalid_signature)
    × (parse_access_link_token toy key page 0 ≡ err malformed)
    × (parse_unsubscribe_token toy key page ≡ err invalid_signature)
    × (parse_page_access_token toy key leave 0 ≡ err malformed)
    × (parse_access_link_token toy key leave 0 ≡ err malformed)
separate_example = tokens_separate toy toy-IsLibrary key 7 (ascii "a@b.c") (pos 100) 0

signed_example :
    (s t : Bytes) × (at : ℤ) × (page_access_token toy key 7 (pos 100)
      ≡ dotted s (dotted t (sign toy key (dotted s t))))
    × (toy.uuid_parse s ≡ some 7)
    × (parse_int t ≡ some at)
    × (after_unix 0 at ≡ false)
signed_example =
    parse_page_access-signed toy key (page_access_token toy key 7 (pos 100)) 0 7
      (parse_page_access-issued toy toy-IsLibrary key 7 (pos 100) 0 (omega arith))
