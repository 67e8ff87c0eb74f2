-- ===== src/Sdp/Data.antt =====
-- The types of pkg/sdp/sdp.go and the methods on one media. A nil slice is the empty list.
use funsip.Base.{Bool, true, false, Option, none, some, List, [], ◌∷◌, ◌++◌, if◌then◌else◌}
use funsip.Base.Int.{ℤ}
use funsip.Text.{Text, lit, text_eq, fields, atoi, AtoiError}
use funsip.Sip.Message.Wire.{int_text}

pub record Connection : Type 0 where
  pub net_type : Text
  pub addr_type : Text
  pub address : Text

pub record Attribute : Type 0 where
  pub name : Text
  pub value : Text

pub record Media : Type 0 where
  pub type : Text
  pub port : ℤ
  pub port_count : ℤ
  pub proto : Text
  pub formats : List Text
  pub info : Text
  pub connection : Option Connection
  pub bandwidth : List Text
  pub key : Text
  pub attributes : List Attribute

pub record Sdp : Type 0 where
  pub version : Text
  pub origin : Text
  pub session_name : Text
  pub info : Text
  pub uri : Text
  pub email : Text
  pub phone : Text
  pub connection : Option Connection
  pub bandwidth : List Text
  pub times : List Text
  pub repeats : List Text
  pub zone : Text
  pub key : Text
  pub attributes : List Attribute
  pub media : List Media

abbrev pub new_sdp : Sdp
new_sdp = record {
  version = [];
  origin = [];
  session_name = [];
  info = [];
  uri = [];
  email = [];
  phone = [];
  connection = none;
  bandwidth = [];
  times = [];
  repeats = [];
  zone = [];
  key = [];
  attributes = [];
  media = [];
}

abbrev pub rtcp_addr : List Text → Text
rtcp_addr (a ∷ b ∷ addr ∷ _) = addr
rtcp_addr _ = []

abbrev pub rtcp_port : ℤ × Option AtoiError → List Text → Option (ℤ × Text)
rtcp_port (p, none) rest = some (p, rtcp_addr rest)
rtcp_port (p, some e) rest = none

abbrev pub rtcp_of : List Text → Option (ℤ × Text)
rtcp_of [] = none
rtcp_of (port ∷ rest) = rtcp_port (atoi port) rest

abbrev pub find_rtcp : List Attribute → Option (ℤ × Text)
find_rtcp [] = none
find_rtcp (a ∷ rest) =
    if text_eq a.name (lit "rtcp") then rtcp_of (fields a.value) else find_rtcp rest

-- RTCPAttr: the first attribute of that name decides.
unfoldable pub rtcp_attr : Media → Option (ℤ × Text)
rtcp_attr m = find_rtcp m.attributes

abbrev pub rtcp_value : ℤ → Text → Text
rtcp_value port [] = int_text port
rtcp_value port (c ∷ addr) = int_text port ++ (lit " IN IP4 " ++ c ∷ addr)

abbrev pub put_attr : Text → Text → List Attribute → List Attribute
put_attr name value [] = record { name = name; value = value } ∷ []
put_attr name value (a ∷ rest) =
    if text_eq a.name name then record a { value = value } ∷ rest else a ∷ put_attr name value rest

-- SetRTCPAttr
unfoldable pub set_rtcp_attr : ℤ → Text → Media → Media
set_rtcp_attr port addr m = record m {
  attributes = put_attr (lit "rtcp") (rtcp_value port addr) m.attributes;
}

abbrev pub has_name : Text → List Attribute → Bool
has_name name [] = false
has_name name (a ∷ rest) = if text_eq a.name name then true else has_name name rest

-- HasAttr
unfoldable pub has_attr : Media → Text → Bool
has_attr m name = has_name name m.attributes
