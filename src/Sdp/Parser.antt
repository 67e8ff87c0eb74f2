-- ===== src/Sdp/Parser.antt =====
-- Parse of pkg/sdp/sdp.go. `current` of Parse points to the description's last media.
use funsip.Base.{ℕ, ◌==◌, Bool, true, false, Option, none, some, List, [], ◌∷◌, ◌++◌, if◌then◌else◌}
use funsip.Base.Int.{ℤ, pos}
use funsip.Text.{Text, trim_right, cut, split, fields, atoi, AtoiError}
use funsip.Sdp.Data.{Connection, Attribute, Media, Sdp, new_sdp}

abbrev pub connection_of : List Text → Option Connection
connection_of (n ∷ t ∷ a ∷ _) = some (record { net_type = n; addr_type = t; address = a })
connection_of _ = none

-- parseConnection; `none` is its error.
unfoldable pub parse_connection : Text → Option Connection
parse_connection s = connection_of (fields s)

-- The port and the count behind a slash that is not the first byte.
abbrev pub port_parts : Text → Option (Text × Text) → Text × ℤ
port_parts s none = (s, pos 0)
port_parts s (some ([], count)) = (s, pos 0)
port_parts s (some ((c ∷ front), count)) = (c ∷ front, (atoi count).0)

abbrev pub media_at : Text → Text → List Text → ℤ → ℤ × Option AtoiError → Option Media
media_at type proto formats count (port, some e) = none
media_at type proto formats count (port, none) = some (record {
  type = type;
  port = port;
  port_count = count;
  proto = proto;
  formats = formats;
  info = [];
  connection = none;
  bandwidth = [];
  key = [];
  attributes = [];
})

abbrev pub media_of : List Text → Option Media
media_of (type ∷ port ∷ proto ∷ formats) =
    let (digits, count) = port_parts port (cut b'/' port) in
    media_at type proto formats count (atoi digits)
media_of _ = none

-- parseMedia; `none` is its error.
unfoldable pub parse_media : Text → Option Media
parse_media s = media_of (fields s)

abbrev attribute_of : Text → Option (Text × Text) → Attribute
attribute_of s none = record { name = s; value = [] }
attribute_of s (some (name, value)) = record { name = name; value = value }

-- parseAttribute
unfoldable pub parse_attribute : Text → Attribute
parse_attribute s = attribute_of s (cut b':' s)

abbrev pub update_last : (Media → Media) → List Media → List Media
update_last f [] = []
update_last f (m ∷ []) = f m ∷ []
update_last f (m ∷ n ∷ ms) = m ∷ update_last f (n ∷ ms)

abbrev pub has_media : List Media → Bool
has_media [] = false
has_media (m ∷ ms) = true

-- A line that belongs to the current media, or to the session before the first one.
abbrev pub here : (Sdp → Sdp) → (Media → Media) → Sdp → Sdp
here on_session on_media s =
    if has_media s.media then record s { media = update_last on_media s.media } else on_session s

abbrev pub put_connection : Option Connection → Sdp → Sdp
put_connection none s = s
put_connection (some c) s =
    here (λ t. record t { connection = some c }) (λ m. record m { connection = some c }) s

abbrev pub put_media : Option Media → Sdp → Sdp
put_media none s = s
put_media (some m) s = record s { media = s.media ++ m ∷ [] }

abbrev pub put_attribute : Attribute → Sdp → Sdp
put_attribute a s =
    here (λ t. record t { attributes = t.attributes ++ a ∷ [] })
      (λ m. record m { attributes = m.attributes ++ a ∷ [] }) s

-- The switch of Parse.
unfoldable pub parse_field : ℕ → Text → Sdp → Sdp
parse_field key v s =
    if key == b'v'
    then record s { version = v }
    else if key == b'o'
    then record s { origin = v }
    else if key == b's'
    then record s { session_name = v }
    else if key == b'i'
    then here (λ t. record t { info = v }) (λ m. record m { info = v }) s
    else if key == b'u'
    then record s { uri = v }
    else if key == b'e'
    then record s { email = v }
    else if key == b'p'
    then record s { phone = v }
    else if key == b'c'
    then put_connection (parse_connection v) s
    else if key == b'b'
    then here (λ t. record t { bandwidth = t.bandwidth ++ v ∷ [] })
        (λ m. record m { bandwidth = m.bandwidth ++ v ∷ [] }) s
    else if key == b't'
    then record s { times = s.times ++ v ∷ [] }
    else if key == b'r'
    then record s { repeats = s.repeats ++ v ∷ [] }
    else if key == b'z'
    then record s { zone = v }
    else if key == b'k'
    then here (λ t. record t { key = v }) (λ m. record m { key = v }) s
    else if key == b'a'
    then put_attribute (parse_attribute v) s
    else if key == b'm'
    then put_media (parse_media v) s
    else s

abbrev pub is_return : ℕ → Bool
is_return c = c == 13

abbrev pub parse_line : Text → Sdp → Sdp
parse_line (key ∷ mark ∷ value) s = if mark == b'=' then parse_field key value s else s
parse_line _ s = s

abbrev pub parse_lines : List Text → Sdp → Sdp
parse_lines [] s = s
parse_lines (l ∷ ls) s = parse_lines ls (parse_line (trim_right is_return l) s)

-- Parse, which has no error.
unfoldable pub parse : Text → Sdp
parse input = parse_lines (split 10 input) new_sdp
