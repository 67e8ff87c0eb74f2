-- ===== src/Sdp/Printer.antt =====
-- Bytes of pkg/sdp/sdp.go, as the lines that it writes.
use funsip.Base.{ℕ, Option, none, some, List, [], ◌∷◌, ◌++◌, if◌then◌else◌}
use funsip.Base.Int.{gt_const}
use funsip.Text.{Text, lit, is_empty}
use funsip.Sip.Message.Wire.{int_text}
use funsip.Sdp.Data.{Connection, Attribute, Media, Sdp}

unfoldable pub connection_text : Connection → Text
connection_text c = c.net_type ++ b' ' ∷ (c.addr_type ++ b' ' ∷ c.address)

-- The lines that Bytes writes, without their ends.
abbrev pub line : ℕ → Text → Text
line key value = key ∷ b'=' ∷ value

abbrev pub line_if : ℕ → Text → List Text
line_if key [] = []
line_if key (c ∷ value) = line key (c ∷ value) ∷ []

abbrev pub line_or : ℕ → Text → Text → List Text
line_or key default [] = line key default ∷ []
line_or key default (c ∷ value) = line key (c ∷ value) ∷ []

abbrev pub lines_each : ℕ → List Text → List Text
lines_each key [] = []
lines_each key (v ∷ vs) = line key v ∷ lines_each key vs

abbrev pub times_lines : List Text → List Text
times_lines [] = line b't' (lit "0 0") ∷ []
times_lines (t ∷ ts) = lines_each b't' (t ∷ ts)

abbrev pub connection_line : Option Connection → List Text
connection_line none = []
connection_line (some c) = line b'c' (connection_text c) ∷ []

abbrev pub attribute_text : Attribute → Text
attribute_text a = if is_empty a.value then a.name else a.name ++ b':' ∷ a.value

-- writeAttrs
abbrev pub attribute_lines : List Attribute → List Text
attribute_lines [] = []
attribute_lines (a ∷ rest) = line b'a' (attribute_text a) ∷ attribute_lines rest

abbrev pub port_digits : Media → Text
port_digits m =
    if gt_const m.port_count 0
    then int_text m.port ++ b'/' ∷ int_text m.port_count
    else int_text m.port

abbrev pub formats_text : List Text → Text
formats_text [] = []
formats_text (f ∷ fs) = b' ' ∷ (f ++ formats_text fs)

abbrev pub media_text : Media → Text
media_text m = m.type ++ b' ' ∷ (port_digits m ++ b' ' ∷ (m.proto ++ formats_text m.formats))

-- writeMedia
unfoldable pub media_lines : Media → List Text
unfolding connection_text
media_lines m =
    line b'm' (media_text m)
    ∷ (line_if b'i' m.info
        ++ (connection_line m.connection
            ++ (lines_each b'b' m.bandwidth
                ++ (line_if b'k' m.key ++ attribute_lines m.attributes))))

abbrev pub all_media_lines : List Media → List Text
all_media_lines [] = []
all_media_lines (m ∷ ms) = media_lines m ++ all_media_lines ms

unfoldable pub sdp_lines : Sdp → List Text
unfolding media_lines connection_text
sdp_lines s =
    line_or b'v' (lit "0") s.version
    ++ (line_if b'o' s.origin
        ++ (line_or b's' (lit "-") s.session_name
            ++ (line_if b'i' s.info
                ++ (line_if b'u' s.uri
                    ++ (line_if b'e' s.email
                        ++ (line_if b'p' s.phone
                            ++ (connection_line s.connection
                                ++ (lines_each b'b' s.bandwidth
                                    ++ (times_lines s.times
                                        ++ (lines_each b'r' s.repeats
                                            ++ (line_if b'z' s.zone
                                                ++ (line_if b'k' s.key
                                                    ++ (attribute_lines s.attributes
                                                        ++ all_media_lines s.media)))))))))))))

abbrev pub with_ends : List Text → Text
with_ends [] = []
with_ends (l ∷ ls) = l ++ 13 ∷ 10 ∷ with_ends ls

-- Bytes
unfoldable pub bytes : Sdp → Text
unfolding sdp_lines
bytes s = with_ends (sdp_lines s)
