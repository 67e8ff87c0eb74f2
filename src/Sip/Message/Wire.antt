-- ===== src/Sip/Message/Wire.antt =====
-- Reading and writing messages: ParseMessage, Serialize and the header names of pkg/sip/message.go.
use funsip.Base.{
  ℕ, suc, ◌==◌, Bool, true, false, ◌||◌, Option, none, some, List, [], ◌∷◌, ◌++◌, length,
  if◌then◌else◌,
}
use funsip.Base.Int.{ℤ, pos, negsuc}
use funsip.Text.{
  Text, lit, text_eq, to_lower, trim_space, trim_right, cut, split, split_n3, has_prefix, itoa,
  atoi, AtoiError,
}
use funsip.Sip.Headers.{Headers, HeaderEntry, new_headers, set, add}
use funsip.Sip.Uri.{Uri, UriError, UriResult, parsed, failed, uri_text, parse_uri}
use funsip.Sip.Message.{Message}

abbrev crlf : Text
crlf = 13 ∷ 10 ∷ []

-- The short forms of header names with their long forms.
abbrev pub compact_names : List (Text × Text)
compact_names =
    (lit "v", lit "Via")
    ∷ (lit "f", lit "From")
    ∷ (lit "t", lit "To")
    ∷ (lit "i", lit "Call-ID")
    ∷ (lit "m", lit "Contact")
    ∷ (lit "l", lit "Content-Length")
    ∷ (lit "c", lit "Content-Type")
    ∷ (lit "k", lit "Supported")
    ∷ (lit "s", lit "Subject")
    ∷ (lit "e", lit "Content-Encoding")
    ∷ (lit "x", lit "Session-Expires")
    ∷ (lit "r", lit "Refer-To")
    ∷ (lit "b", lit "Referred-By")
    ∷ (lit "o", lit "Event")
    ∷ (lit "u", lit "Allow-Events")
    ∷ []

abbrev pub long_name : Text → Text → List (Text × Text) → Text
long_name low name [] = name
long_name low name ((short, long) ∷ rest) =
    if text_eq low short then long else long_name low name rest

-- NormalizeHeaderName
unfoldable pub normalize_header_name : Text → Text
unfolding to_lower
normalize_header_name name = long_name (to_lower name) name compact_names

-- strconv.Itoa, with a sign
abbrev pub int_text : ℤ → Text
int_text (pos n) = itoa n
int_text (negsuc n) = b'-' ∷ itoa (suc n)

abbrev uri_or_empty : Option Uri → Text
uri_or_empty none = []
uri_or_empty (some u) = uri_text u

abbrev pub start_line : Message → Text
start_line m =
    if m.is_request
    then m.method ++ b' ' ∷ (uri_or_empty m.request_uri ++ b' ' ∷ m.sip_version)
    else m.sip_version ++ b' ' ∷ (int_text m.status_code ++ b' ' ∷ m.reason_phrase)

abbrev entry_lines : Text → List Text → Text → Text
entry_lines name [] rest = rest
entry_lines name (v ∷ vs) rest = name ++ (lit ": " ++ (v ++ (crlf ++ entry_lines name vs rest)))

abbrev header_lines : List HeaderEntry → Text → Text
header_lines [] rest = rest
header_lines (e ∷ es) rest = entry_lines e.name e.values (header_lines es rest)

-- `Serialize` sets Content-Length in the message that it writes: the result is that message and its bytes.
-- A request without a URI, where Go follows a nil pointer, is written with an empty one.
unfoldable pub serialize : Message → Message × Text
serialize m =
    let h = set m.headers (lit "Content-Length") (itoa (length m.body)) in
    (record m { headers = h }, start_line m ++ (crlf ++ header_lines h.ordered (crlf ++ m.body)))

-- The text before and behind the first place where `sep` stands.
abbrev after_prefix : Text → Text → Option Text
after_prefix s [] = some s
after_prefix [] (d ∷ t) = none
after_prefix (c ∷ s) (d ∷ t) = if c == d then after_prefix s t else none

abbrev cons_first : ℕ → Option (Text × Text) → Option (Text × Text)
cons_first c none = none
cons_first c (some (s, t)) = some (c ∷ s, t)

abbrev or_later : ℕ → Option (Text × Text) → Option Text → Option (Text × Text)
or_later c later (some rest) = some ([], rest)
or_later c later none = cons_first c later

unfoldable pub cut_at : Text → Text → Option (Text × Text)
cut_at sep [] = none
cut_at sep (c ∷ s) = or_later c (cut_at sep s) (after_prefix (c ∷ s) sep)

pub data ParseError : Type 0 where
  no_separator invalid_request_line invalid_status_line invalid_status_code : ParseError
  invalid_uri : UriError → ParseError

pub data ParseResult : Type 0 where
  message : Message → ParseResult
  error : ParseError → ParseResult

abbrev is_cr : ℕ → Bool
is_cr c = c == 13

abbrev is_folded : Text → Bool
is_folded [] = false
is_folded (c ∷ s) = c == b' ' || c == 9

-- The lines read so far stand in reverse; a folded line goes on the last one.
abbrev add_line : Text → List Text → List Text
add_line r [] = r ∷ []
add_line r (l ∷ ls) = if is_folded r then (l ++ b' ' ∷ trim_space r) ∷ ls else r ∷ l ∷ ls

abbrev unfolded : List Text → List Text → List Text
unfolded [] lines = lines
unfolded (r ∷ rs) lines = unfolded rs (add_line (trim_right is_cr r) lines)

abbrev reverse_onto : List Text → List Text → List Text
reverse_onto [] out = out
reverse_onto (l ∷ ls) out = reverse_onto ls (l ∷ out)

unfoldable pub split_header_lines : Text → List Text
split_header_lines header = reverse_onto (unfolded (split 10 header) []) []

abbrev empty_message : Message
empty_message = record {
  is_request = false;
  method = [];
  request_uri = none;
  status_code = pos 0;
  reason_phrase = [];
  sip_version = [];
  headers = new_headers;
  body = [];
  source_ip = [];
  source_port = pos 0;
  transport = [];
}

abbrev with_request_uri : Text → Text → UriResult → ParseResult
with_request_uri method version (failed e) = error (invalid_uri e)
with_request_uri method version (parsed u) = message (record empty_message {
  is_request = true;
  method = method;
  request_uri = some u;
  sip_version = version;
})

abbrev request_words : List Text → ParseResult
request_words (method ∷ uri ∷ version ∷ []) = with_request_uri method version (parse_uri uri)
request_words _ = error invalid_request_line

-- parseRequestLine
unfoldable pub parse_request_line : Text → ParseResult
parse_request_line line = request_words (split_n3 b' ' line)

abbrev with_code : Text → Text → ℤ × Option AtoiError → ParseResult
with_code version reason (code, some e) = error invalid_status_code
with_code version reason (code, none) =
    message
      (record empty_message { sip_version = version; status_code = code; reason_phrase = reason })

abbrev status_words : List Text → ParseResult
status_words (version ∷ code ∷ []) = with_code version [] (atoi code)
status_words (version ∷ code ∷ reason ∷ _) = with_code version reason (atoi code)
status_words _ = error invalid_status_line

-- parseStatusLine
unfoldable pub parse_status_line : Text → ParseResult
parse_status_line line = status_words (split_n3 b' ' line)

abbrev add_header_parts : Option (Text × Text) → Headers → Headers
add_header_parts none h = h
add_header_parts (some (name, value)) h =
    add h (normalize_header_name (trim_space name)) (trim_space value)

-- The loop over the header lines; a line without a colon is skipped.
unfoldable pub add_header_lines : List Text → Headers → Headers
add_header_lines [] h = h
add_header_lines (l ∷ ls) h = add_header_lines ls (add_header_parts (cut b':' l) h)

abbrev finish_message : List Text → Text → ParseResult → ParseResult
finish_message ls body (error e) = error e
finish_message ls body (message m) =
    message (record m { headers = add_header_lines ls m.headers; body = body })

-- `strings.Split` gives at least one line, so that the code's test for none never holds.
abbrev parse_lines : List Text → Text → ParseResult
parse_lines [] body = error no_separator
parse_lines (first ∷ ls) body =
    finish_message ls body
      (if has_prefix first (lit "SIP/") then parse_status_line first else parse_request_line first)

abbrev or_bare_lines : Text → Option (Text × Text) → Option (Text × Text)
or_bare_lines s (some p) = some p
or_bare_lines s none = cut_at (10 ∷ 10 ∷ []) s

abbrev parse_parts : Option (Text × Text) → ParseResult
parse_parts none = error no_separator
parse_parts (some (header, body)) = parse_lines (split_header_lines header) body

-- ParseMessage
unfoldable pub parse_message : Text → ParseResult
parse_message s = parse_parts (or_bare_lines s (cut_at (13 ∷ 10 ∷ 13 ∷ 10 ∷ []) s))
