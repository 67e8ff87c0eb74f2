-- ===== src/Sip/Address.antt =====
-- type Address of pkg/sip/header.go, and ParseRouteHeader.
use funsip.Base.{ℕ, ◌==◌, Bool, Option, none, some, List, [], ◌∷◌, ◌++◌, if◌then◌else◌, lookup}
use funsip.Text.{
  Text, text_keys, lit, is_empty, trim_space, trim_left, trim_right, cut, split, split_n2,
}
use funsip.Sip.Uri.{
  Uri, UriResult, parsed, failed, uri_text, parse_uri, params_text, add_param, uri_or_nil,
}
use funsip.Sip.Via.{text_or_empty}

pub record Address : Type 0 where
  pub display_name : Text
  pub uri : Uri
  pub params : List (Text × Text)

unfoldable pub tag : Address → Text
tag a = text_or_empty (lookup text_keys (lit "tag") a.params)

abbrev quoted_name : Text → Text
quoted_name [] = []
quoted_name (c ∷ s) = b'"' ∷ ((c ∷ s) ++ b'"' ∷ b' ' ∷ [])

unfoldable pub address_text : Address → Text
address_text a =
    quoted_name a.display_name ++ b'<' ∷ (uri_text a.uri ++ b'>' ∷ params_text a.params)

-- parseAddrParams: a part that is blank is skipped.
abbrev add_addr_param : Text → List (Text × Text) → List (Text × Text)
add_addr_param [] m = m
add_addr_param (c ∷ s) m = add_param (split_n2 b'=' (c ∷ s)) m

abbrev addr_params_from : List Text → List (Text × Text) → List (Text × Text)
addr_params_from [] m = m
addr_params_from (p ∷ ps) m = addr_params_from ps (add_addr_param (trim_space p) m)

unfoldable pub parse_addr_params : Text → List (Text × Text)
parse_addr_params s = addr_params_from (split b';' s) []

abbrev is_quote : ℕ → Bool
is_quote c = c == b'"'

abbrev with_uri : Text → List (Text × Text) → UriResult → Option Address
with_uri name params (failed e) = none
with_uri name params (parsed u) = some (record { display_name = name; uri = u; params = params })

-- `name <uri> params`; without the closing bracket there is no address.
abbrev in_brackets : Text → Option (Text × Text) → Option Address
in_brackets before none = none
in_brackets before (some (uri, rest)) =
    with_uri (trim_right is_quote (trim_left is_quote (trim_space before))) (parse_addr_params rest)
      (parse_uri uri)

-- Without brackets the parameters belong to the address.
abbrev bare : Text → Option (Text × Text) → Option Address
bare s none = with_uri [] [] (parse_uri s)
bare s (some (uri, rest)) = with_uri [] (parse_addr_params (b';' ∷ rest)) (parse_uri uri)

abbrev by_bracket : Text → Option (Text × Text) → Option Address
by_bracket s none = bare s (cut b';' s)
by_bracket s (some (before, after)) = in_brackets before (cut b'>' after)

-- ParseAddress
unfoldable pub parse_address : Text → Option Address
parse_address s = if is_empty s then none else by_bracket (trim_space s) (cut b'<' (trim_space s))

abbrev in_route_brackets : Text → Option (Text × Text) → Text
in_route_brackets s none = s
in_route_brackets s (some (uri, rest)) = uri

abbrev unwrapped : Text → Text
unwrapped [] = []
unwrapped (c ∷ s) = if c == b'<' then in_route_brackets (c ∷ s) (cut b'>' s) else c ∷ s

-- ParseRouteHeader
unfoldable pub parse_route_header : Text → Option Uri
parse_route_header s = uri_or_nil (parse_uri (unwrapped (trim_space s)))
