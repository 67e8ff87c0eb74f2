-- ===== src/Sip/Via.antt =====
-- type Via of pkg/sip/header.go.
use funsip.Base.{Option, none, some, List, [], ◌∷◌, ◌++◌, lookup}
use funsip.Base.Int.{ℤ, pos}
use funsip.Text.{
  Text, text_keys, lit, to_upper, trim_space, cut_last, split, split_n2, atoi, AtoiError,
}
use funsip.Sip.Uri.{port_text, params_text, add_param}

pub record Via : Type 0 where
  pub transport : Text
  pub host : Text
  pub port : ℤ
  pub params : List (Text × Text)

-- A missing key of a map of strings reads as the empty text.
abbrev pub text_or_empty : Option Text → Text
text_or_empty none = []
text_or_empty (some v) = v

unfoldable pub branch : Via → Text
branch v = text_or_empty (lookup text_keys (lit "branch") v.params)

unfoldable pub sent_by : Via → Text
sent_by v = v.host ++ port_text v.port

unfoldable pub via_text : Via → Text
via_text v =
    lit "SIP/2.0/" ++ (v.transport ++ b' ' ∷ (v.host ++ (port_text v.port ++ params_text v.params)))

abbrev via_transport : List Text → Text
via_transport (a ∷ b ∷ c ∷ []) = to_upper c
via_transport _ = lit "UDP"

abbrev port_if_number : ℤ × Option AtoiError → ℤ
port_if_number (p, none) = p
port_if_number (p, some e) = pos 0

abbrev via_host : Text → Option (Text × Text) → Text × ℤ
via_host s none = (s, pos 0)
via_host s (some (host, port)) = (host, port_if_number (atoi port))

abbrev via_params : List Text → List (Text × Text) → List (Text × Text)
via_params [] m = m
via_params (p ∷ ps) m = via_params ps (add_param (split_n2 b'=' (trim_space p)) m)

abbrev via_parts : List Text → List Text → Option Via
via_parts proto [] = none
via_parts proto (host_part ∷ params) =
    let (host, port) = via_host (trim_space host_part) (cut_last b':' (trim_space host_part)) in
    some (record {
      transport = via_transport proto;
      host = host;
      port = port;
      params = via_params params [];
    })

abbrev via_words : List Text → Option Via
via_words (proto ∷ rest ∷ []) = via_parts (split b'/' proto) (split b';' rest)
via_words _ = none

-- ParseVia
unfoldable pub parse_via : Text → Option Via
parse_via s = via_words (split_n2 b' ' (trim_space s))

abbrev pub parsed_vias : List Text → List Via
parsed_vias [] = []
parsed_vias (s ∷ ss) = elim (parse_via s) [ none ↦ parsed_vias ss | some v ↦ v ∷ parsed_vias ss ]
