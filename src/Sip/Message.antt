-- ===== src/Sip/Message.antt =====
-- type Message of pkg/sip/message.go: the record, its readers, and the response to a request.
pub mod Wire
pub mod Responses
use funsip.Base.{ℕ, Bool, true, false, Option, none, some, List, [], ◌∷◌, if◌then◌else◌}
use funsip.Base.Int.{ℤ, pos, negsuc}
use funsip.Text.{Text, lit, is_empty, trim_space, fields, atoi}
use funsip.Sip.Headers.{Headers, new_headers, get, get_all, set, add, clone}
use funsip.Sip.Uri.{Uri}
use funsip.Sip.Via.{Via, parsed_vias}
use funsip.Sip.Address.{Address, parse_address}

pub record Message : Type 0 where
  pub is_request : Bool
  pub method : Text
  pub request_uri : Option Uri
  pub status_code : ℤ
  pub reason_phrase : Text
  pub sip_version : Text
  pub headers : Headers
  pub body : Text
  pub source_ip : Text
  pub source_port : ℤ
  pub transport : Text

unfoldable pub new_request : Text → Option Uri → Message
unfolding new_headers
new_request method ruri = record {
  is_request = true;
  method = method;
  request_uri = ruri;
  status_code = pos 0;
  reason_phrase = [];
  sip_version = lit "SIP/2.0";
  headers = new_headers;
  body = [];
  source_ip = [];
  source_port = pos 0;
  transport = [];
}

unfoldable pub new_response : ℤ → Text → Message
unfolding new_headers
new_response code reason = record {
  is_request = false;
  method = [];
  request_uri = none;
  status_code = code;
  reason_phrase = reason;
  sip_version = lit "SIP/2.0";
  headers = new_headers;
  body = [];
  source_ip = [];
  source_port = pos 0;
  transport = [];
}

-- `Clone`: all but the headers are values here.
unfoldable pub clone_message : Message → Message
unfolding clone
clone_message m = record m { headers = clone m.headers }

unfoldable pub call_id : Message → Text
call_id m = get m.headers (lit "Call-ID")

abbrev number_of : List Text → ℤ
number_of [] = pos 0
number_of (w ∷ ws) = (atoi w).0

abbrev second_word : List Text → Text
second_word (a ∷ b ∷ ws) = b
second_word _ = []

unfoldable pub cseq_num : Message → ℤ
cseq_num m = number_of (fields (get m.headers (lit "CSeq")))

unfoldable pub cseq_method : Message → Text
cseq_method m = second_word (fields (get m.headers (lit "CSeq")))

-- Vias of header.go, and the first of them
unfoldable pub vias : Headers → List Via
vias h = parsed_vias (get_all h (lit "Via"))

abbrev first_via : List Via → Option Via
first_via [] = none
first_via (v ∷ vs) = some v

unfoldable pub top_via : Message → Option Via
unfolding vias
top_via m = first_via (vias m.headers)

unfoldable pub from_address : Message → Option Address
from_address m = parse_address (get m.headers (lit "From"))

unfoldable pub to_address : Message → Option Address
to_address m = parse_address (get m.headers (lit "To"))

abbrev parsed_addresses : List Text → List Address
parsed_addresses [] = []
parsed_addresses (s ∷ ss) = elim (parse_address s) [
  | none ↦ parsed_addresses ss
  | some a ↦ a ∷ parsed_addresses ss
]

unfoldable pub contacts : Message → List Address
contacts m = parsed_addresses (get_all m.headers (lit "Contact"))

unfoldable pub content_length : Message → ℤ
content_length m =
    let cl = get m.headers (lit "Content-Length") in
    if is_empty cl then pos 0 else (atoi (trim_space cl)).0

-- -1 where the header is missing
unfoldable pub max_forwards : Message → ℤ
max_forwards m =
    let mf = get m.headers (lit "Max-Forwards") in
    if is_empty mf then negsuc 0 else (atoi (trim_space mf)).0

abbrev pub add_each : Text → List Text → Headers → Headers
add_each name [] h = h
add_each name (v ∷ vs) h = add_each name vs (add h name v)

-- `h.Set(name, from.Get(name))`
abbrev pub copy_header : Text → Headers → Headers → Headers
copy_header name from h = set h name (get from name)

-- CreateResponseFromRequest
unfoldable pub create_response : Message → ℤ → Text → Message
unfolding new_response
create_response req code reason =
    let vias = add_each (lit "Via") (get_all req.headers (lit "Via")) new_headers in
    let from = copy_header (lit "From") req.headers vias in
    let to = copy_header (lit "To") req.headers from in
    let call = copy_header (lit "Call-ID") req.headers to in
    record (new_response code reason) { headers = copy_header (lit "CSeq") req.headers call }
