-- ===== src/Events.antt =====
-- The events of pkg/events/events.go: a map of keys to values. The time as text, the digits of SHA-1 and
-- the date of an expiry, which is none for the zero time, are parameters.
pub mod Sink
pub mod Delivery
use funsip.Base.{
  ℕ, ◌==◌, Bool, true, false, not, Option, none, some, List, [], ◌∷◌, ◌++◌, lookup, insert,
  if◌then◌else◌,
}
use funsip.Base.Int.{ℤ, pos}
use funsip.Base.Wire.{take}
use funsip.Text.{Text, lit, text_eq, text_keys, is_empty, to_lower}
use funsip.Sip.Headers.{Headers, get, names}
use funsip.Sip.Uri.{Uri, uri_text}
use funsip.Sip.Address.{Address, tag}
use funsip.Sip.Via.{Via, branch}
use funsip.Sip.Message.{Message, call_id, from_address, to_address, top_via, contacts}
use funsip.Registrar.Binding.{Binding}

pub data Value : Type 0 where
  text : Text → Value
  number : ℤ → Value

abbrev pub Event : Type 0
Event = List (Text × Value)

-- Set
abbrev pub set_key : Text → Value → Event → Event
set_key key value e = insert text_keys key value e

abbrev type_of : Option Value → Text
type_of none = []
type_of (some (text t)) = t
type_of (some (number n)) = []

-- Type
unfoldable pub event_type : Event → Text
event_type e = type_of (lookup text_keys (lit "type") e)

-- A literal of a map, whose keys are different.
abbrev set_all : List (Text × Value) → Event → Event
set_all [] e = e
set_all ((key, value) ∷ rest) e = set_all rest (set_key key value e)

abbrev if_full : Text → (Text → Event → Event) → Event → Event
if_full t put e = if is_empty t then e else put t e

-- hdrCode, as the letters that it adds to a signature
abbrev pub hdr_code : Text → Text
hdr_code name =
    let low = to_lower name in
    if text_eq low (lit "via")
    then lit "V"
    else if text_eq low (lit "from")
    then lit "F"
    else if text_eq low (lit "to")
    then lit "T"
    else if text_eq low (lit "call-id")
    then lit "I"
    else if text_eq low (lit "cseq")
    then lit "C"
    else if text_eq low (lit "contact")
    then lit "O"
    else if text_eq low (lit "max-forwards")
    then lit "M"
    else if text_eq low (lit "user-agent")
    then lit "U"
    else []

abbrev pub hdr_codes : List Text → Text
hdr_codes [] = []
hdr_codes (name ∷ rest) = hdr_code name ++ hdr_codes rest

abbrev from_tag_of : Option Address → Text
from_tag_of none = []
from_tag_of (some a) = tag a

abbrev branch_of : Option Via → Text
branch_of none = []
branch_of (some v) = branch v

module _ (sha1_hex : Text → Text) where
  -- Signature
  unfoldable pub signature : Message → Text
  signature req =
      let hashed =
        req.method
        ++ (0 ∷ call_id req
            ++ (0 ∷ from_tag_of (from_address req) ++ (0 ∷ branch_of (top_via req)))) in
      req.method
      ++ (lit ":" ++ (hdr_codes (names req.headers) ++ (lit ":" ++ take 12 (sha1_hex hashed))))

  abbrev with_from : Option Address → Event → Event
  with_from none e = e
  with_from (some a) e =
      set_all
        ((lit "sip.from", text (uri_text a.uri))
          ∷ (lit "sip.fromtag", text (tag a))
          ∷ (lit "attrs.from", text (uri_text a.uri))
          ∷ (lit "attrs.from-domain", text a.uri.host)
          ∷ [])
        e

  abbrev with_to : Option Address → Event → Event
  with_to none e = e
  with_to (some a) e = set_key (lit "attrs.to") (text (uri_text a.uri)) (
      if_full (tag a) (λ t. set_key (lit "sip.totag") (text t))
        (set_key (lit "sip.to") (text (uri_text a.uri)) e))

  abbrev with_uri : Option Uri → Event → Event
  with_uri none e = e
  with_uri (some u) e =
      set_key (lit "attrs.r-uri") (text (uri_text u))
        (set_key (lit "sip.request.uri") (text (uri_text u)) e)

  abbrev with_agent : Text → Event → Event
  with_agent agent e =
      if_full agent
        (λ t e. set_key (lit "attrs.from-ua") (text t) (set_key (lit "sip.user_agent") (text t) e))
        e

  abbrev with_contact : List Address → Event → Event
  with_contact [] e = e
  with_contact (c ∷ rest) e =
      set_key (lit "attrs.contact") (text (uri_text c.uri))
        (set_key (lit "sip.contact") (text (uri_text c.uri)) e)

  -- FromRequest
  unfoldable pub from_request : Text → Text → Message → Event
  unfolding signature
  from_request now type req =
      let transport = to_lower req.transport in
      with_contact (contacts req) (
        with_agent (get req.headers (lit "User-Agent")) (
          with_uri req.request_uri (
            with_to (to_address req) (
              with_from (from_address req) (
                (lit "@timestamp", text now)
                ∷ (lit "type", text type)
                ∷ (lit "sip.call_id", text (call_id req))
                ∷ (lit "sip.request.method", text req.method)
                ∷ (lit "sip.request.sig", text (signature req))
                ∷ (lit "client.ip", text req.source_ip)
                ∷ (lit "client.port", number req.source_port)
                ∷ (lit "client.transport", text transport)
                ∷ (lit "attrs.method", text req.method)
                ∷ (lit "attrs.call-id", text (call_id req))
                ∷ (lit "attrs.source", text req.source_ip)
                ∷ (lit "attrs.src-port", number req.source_port)
                ∷ (lit "attrs.transport", text transport)
                ∷ [])))))

  abbrev with_expiry : Option Text → Event → Event
  with_expiry none e = e
  with_expiry (some date) e = set_key (lit "attrs.expires_at") (text date) e

  abbrev to_of_binding : Option Address → Event → Event
  to_of_binding none e = e
  to_of_binding (some a) e =
      set_key (lit "attrs.to") (text (uri_text a.uri))
        (set_key (lit "sip.to") (text (uri_text a.uri)) e)

  abbrev with_request : Option Message → Event → Event
  unfolding signature
  with_request none e = e
  with_request (some req) e = with_uri req.request_uri (
      to_of_binding (to_address req)
        (with_from (from_address req) (set_key (lit "sip.request.sig") (text (signature req)) e)))

  -- FromBinding
  unfoldable pub from_binding : Text → (ℤ → Option Text) → Text → Binding → Option Message → Event
  unfolding signature
  from_binding now date type b req =
      let transport = to_lower b.transport in
      with_request req (
        with_expiry (date b.expires_at) (
          with_agent b.user_agent (
            (lit "@timestamp", text now)
            ∷ (lit "type", text type)
            ∷ (lit "sip.call_id", text b.call_id)
            ∷ (lit "sip.contact", text b.contact)
            ∷ (lit "sip.request.method", text (lit "REGISTER"))
            ∷ (lit "client.ip", text b.received_ip)
            ∷ (lit "client.port", number b.received_port)
            ∷ (lit "client.transport", text transport)
            ∷ (lit "attrs.aor", text b.aor)
            ∷ (lit "attrs.call-id", text b.call_id)
            ∷ (lit "attrs.contact", text b.contact)
            ∷ (lit "attrs.source", text b.received_ip)
            ∷ (lit "attrs.src-port", number b.received_port)
            ∷ (lit "attrs.transport", text transport)
            ∷ [])))

-- WithResponse
unfoldable pub with_response : ℤ → Text → Event → Event
with_response code reason e =
    set_all
      ((lit "sip.response.status", number code)
        ∷ (lit "sip.response.last", number code)
        ∷ (lit "sip.reason", text reason)
        ∷ (lit "attrs.sip-code", number code)
        ∷ (lit "attrs.reason", text reason)
        ∷ [])
      e

-- WithDuration, in whole seconds
unfoldable pub with_duration : ℕ → Text → Event → Event
with_duration seconds originator e =
    if_full originator (λ t. set_key (lit "sip.originator") (text t))
      (set_key (lit "attrs.duration") (number (pos seconds))
        (set_key (lit "event.duration") (number (pos seconds)) e))
