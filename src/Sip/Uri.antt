-- ===== src/Sip/Uri.antt =====
-- pkg/sip/uri.go. A Go map is an association list here: a nil map reads as the empty one, and `String`,
-- which Go lets visit a map in any order, visits the list in its order, so that what holds of every
-- list holds of every order.
use funsip.Base.{ℕ, ◌&&◌, Option, none, some, List, [], ◌∷◌, ◌++◌, leb, if◌then◌else◌, insert}
use funsip.Base.Int.{ℤ, pos, negsuc, pos_part, gt_const}
use funsip.Text.{
  Text, text_keys, is_empty, to_lower, cut, cut_last, split, split_n2, itoa, atoi, AtoiError,
}

pub record Uri : Type 0 where
  pub scheme : Text
  pub user : Text
  pub host : Text
  pub port : ℤ
  pub params : List (Text × Text)
  pub headers : List (Text × Text)

pub data UriError : Type 0 where
  no_scheme empty_host : UriError

pub data UriResult : Type 0 where
  parsed : Uri → UriResult
  failed : UriError → UriResult

-- `":" + port` where the port is above 0
abbrev pub port_text : ℤ → Text
port_text p = if gt_const p 0 then b':' ∷ itoa (pos_part p) else []

unfoldable pub host_port : Uri → Text
host_port u = u.host ++ port_text u.port

unfoldable pub aor : Uri → Text
aor u =
    if is_empty u.user
    then u.scheme ++ b':' ∷ u.host
    else u.scheme ++ b':' ∷ (u.user ++ b'@' ∷ u.host)

abbrev pub user_text : Text → Text
user_text [] = []
user_text (c ∷ s) = (c ∷ s) ++ b'@' ∷ []

-- `k`, or `k=v` where the value is not empty
abbrev pub param_text : Text × Text → Text
param_text (k, []) = k
param_text (k, (c ∷ v)) = k ++ b'=' ∷ c ∷ v

abbrev pub params_text : List (Text × Text) → Text
params_text [] = []
params_text (p ∷ ps) = b';' ∷ (param_text p ++ params_text ps)

abbrev pub header_text : Text × Text → Text
header_text (k, v) = k ++ b'=' ∷ v

abbrev pub more_headers_text : List (Text × Text) → Text
more_headers_text [] = []
more_headers_text (p ∷ ps) = b'&' ∷ (header_text p ++ more_headers_text ps)

abbrev pub headers_text : List (Text × Text) → Text
headers_text [] = []
headers_text (p ∷ ps) = b'?' ∷ (header_text p ++ more_headers_text ps)

-- String
unfoldable pub uri_text : Uri → Text
uri_text u =
    u.scheme
    ++ b':'
      ∷ (user_text u.user
          ++ (u.host ++ (port_text u.port ++ (params_text u.params ++ headers_text u.headers))))

-- One `k=v` of the header part; a part without `=` is skipped.
abbrev add_header : List Text → List (Text × Text) → List (Text × Text)
add_header (k ∷ v ∷ _) m = insert text_keys k v m
add_header _ m = m

abbrev pub parse_headers : List Text → List (Text × Text) → List (Text × Text)
parse_headers [] m = m
parse_headers (p ∷ ps) m = parse_headers ps (add_header (split_n2 b'=' p) m)

-- `params[strings.ToLower(kv[0])] = kv[1]`, or `""` without `=`
abbrev pub add_param : List Text → List (Text × Text) → List (Text × Text)
add_param [] m = m
add_param (k ∷ []) m = insert text_keys (to_lower k) [] m
add_param (k ∷ v ∷ _) m = insert text_keys (to_lower k) v m

abbrev pub parse_params : List Text → List (Text × Text) → List (Text × Text)
parse_params [] m = m
parse_params (p ∷ ps) m = parse_params ps (add_param (split_n2 b'=' p) m)

-- The text in front of a part that starts at a mark, and that part as a map.
abbrev pub part_of :
    (Text → List (Text × Text)) → Text → Option (Text × Text) → Text × List (Text × Text)
part_of parse s none = (s, [])
part_of parse s (some (front, part)) = (front, parse part)

-- The port after the last colon counts if it is a number from 1 to 65535.
abbrev pub valid_port : ℤ × Option AtoiError → Option ℕ
valid_port (pos p, none) = if leb 1 p && leb p 65535 then some p else none
valid_port (pos p, some e) = none
valid_port (negsuc p, e) = none

abbrev port_or_host : Text → Text → Option ℕ → Text × ℤ
port_or_host rest host none = (rest, pos 0)
port_or_host rest host (some p) = (host, pos p)

abbrev pub split_port : Text → Option (Text × Text) → Text × ℤ
split_port rest none = (rest, pos 0)
split_port rest (some (host, port)) = port_or_host rest host (valid_port (atoi port))

abbrev pub split_user : Text → Option (Text × Text) → Text × Text
split_user rest none = ([], rest)
split_user rest (some (user, host)) = (user, host)

-- The text behind the scheme, once header part, parameters and user are cut off.
abbrev pub with_host : Text → Text → Text → List (Text × Text) → List (Text × Text) → UriResult
with_host scheme user [] params headers = failed empty_host
with_host scheme user (c ∷ s) params headers =
    let (host, port) = split_port (c ∷ s) (cut_last b':' (c ∷ s)) in
    parsed (record {
      scheme = scheme;
      user = user;
      host = host;
      port = port;
      params = params;
      headers = headers;
    })

abbrev pub parse_behind_scheme : Text → Text → UriResult
parse_behind_scheme scheme rest =
    let (front, headers) = part_of (λ t. parse_headers (split b'&' t) []) rest (cut b'?' rest) in
    let (place, params) = part_of (λ t. parse_params (split b';' t) []) front (cut b';' front) in
    let (user, host) = split_user place (cut b'@' place) in
    with_host scheme user host params headers

abbrev pub after_scheme : Option (Text × Text) → UriResult
after_scheme none = failed no_scheme
after_scheme (some (scheme, rest)) = parse_behind_scheme (to_lower scheme) rest

-- ParseURI
unfoldable pub parse_uri : Text → UriResult
parse_uri s = after_scheme (cut b':' s)

-- What `uri, _ := ParseURI(s)` leaves: nil after an error.
abbrev pub uri_or_nil : UriResult → Option Uri
uri_or_nil (parsed u) = some u
uri_or_nil (failed e) = none
