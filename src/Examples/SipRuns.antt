-- ===== src/Examples/SipRuns.antt =====
-- pkg/sip on concrete inputs.
use funsip.Base.{◌≡◌, refl, none, some, List, [], ◌∷◌, ◌++◌}
use funsip.Base.Int.{pos, negsuc}
use funsip.Text.{
  Text, lit, to_lower, to_upper, split_n2, split_n3, max_int, range_error, cut, cut_last, split,
  trim_space, atoi,
}
use funsip.Sip.Headers.{new_headers, set, add, get, get_all, remove, prepend, replace_first}
use funsip.Sip.Headers.Multimap.{
  Edit, sets, adds, prepends, removes, replaces, apply, apply_all, get_all-history,
}
use funsip.Sip.Uri.{parsed, failed, empty_host, parse_uri}
use funsip.Sip.Via.{parse_via}
use funsip.Sip.Address.{parse_address}
use funsip.Sip.Message.Wire.{
  ParseResult, message, error, parse_message, cut_at, split_header_lines, parse_request_line,
  add_header_lines, normalize_header_name,
}

abbrev history : List Edit
history =
    adds (lit "Via") (lit "a")
    ∷ sets (lit "To") (lit "b")
    ∷ prepends (lit "via") (lit "c")
    ∷ removes (lit "TO")
    ∷ replaces (lit "VIA") (lit "d")
    ∷ []

after_history : get_all (apply_all new_headers history) (lit "Via") ≡ lit "d" ∷ lit "a" ∷ []
unfolding apply_all apply new_headers get_all to_lower replace_first remove prepend set add
after_history = refl

get_all-history_example :
    get_all (apply_all new_headers history) (lit "via") ≡ lit "d" ∷ lit "a" ∷ []
unfolding to_lower
get_all-history_example = get_all-history history (lit "via")

parsed_uri :
    parse_uri (lit "SIP:bob@example.com:5062;transport=TCP;lr?x=1")
    ≡ parsed (record {
      scheme = lit "sip";
      user = lit "bob";
      host = lit "example.com";
      port = pos 5062;
      params = (lit "transport", lit "TCP") ∷ (lit "lr", []) ∷ [];
      headers = (lit "x", lit "1") ∷ [];
    })
unfolding parse_uri cut cut_last split split_n2 to_lower atoi
parsed_uri = refl

no_host : parse_uri (lit "sip:bob@") ≡ failed empty_host
unfolding parse_uri cut
no_host = refl

-- A port that is no number stays in the host.
odd_port :
    parse_uri (lit "sip:host:99999")
    ≡ parsed (record {
      scheme = lit "sip";
      user = [];
      host = lit "host:99999";
      port = pos 0;
      params = [];
      headers = [];
    })
unfolding parse_uri cut cut_last to_lower atoi
odd_port = refl

-- The wildcard of a de-registration is no address.
no_wildcard : parse_address (lit "*") ≡ none
unfolding parse_address trim_space cut parse_uri
no_wildcard = refl

branch_and_port :
    parse_via (lit "SIP/2.0/udp 10.0.0.1:5070;branch=z9;rport")
    ≡ some (record {
      transport = lit "UDP";
      host = lit "10.0.0.1";
      port = pos 5070;
      params = (lit "branch", lit "z9") ∷ (lit "rport", []) ∷ [];
    })
unfolding parse_via trim_space cut cut_last split to_lower atoi to_upper split_n2
branch_and_port = refl

smallest_int : atoi (lit "-9223372036854775809") ≡ (negsuc (max_int), some range_error)
unfolding atoi
smallest_int = refl

compact : normalize_header_name (lit "V") ≡ lit "Via"
unfolding normalize_header_name
compact = refl

abbrev ping : Text
ping =
    lit "OPTIONS sip:a SIP/2.0"
    ++ 13
      ∷ 10
      ∷ (lit "v: SIP/2.0/UDP h;branch=x" ++ 13 ∷ 10 ∷ (lit " ;y" ++ 13 ∷ 10 ∷ 13 ∷ 10 ∷ lit "hi"))

abbrev ping_fields : ParseResult → List Text
ping_fields (error e) = []
ping_fields (message m) = m.method ∷ get m.headers (lit "via") ∷ m.body ∷ []

parsed_ping :
    ping_fields (parse_message ping)
    ≡ lit "OPTIONS" ∷ lit "SIP/2.0/UDP h;branch=x ;y" ∷ lit "hi" ∷ []
unfolding parse_message cut_at split_header_lines parse_request_line parse_uri cut cut_last split
    to_lower trim_space add_header_lines normalize_header_name add get new_headers split_n3
parsed_ping = refl
