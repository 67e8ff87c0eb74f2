-- ===== src/Transport/Received.antt =====
-- applyReceivedRport of pkg/transport/transport.go, and what onPacket notes in a message.
use funsip.Base.{
  Bool, false, not, ◌||◌, Option, none, some, List, [], ◌∷◌, if◌then◌else◌, lookup, insert,
}
use funsip.Base.Int.{ℤ}
use funsip.Text.{Text, text_keys, text_eq, lit, is_empty}
use funsip.Sip.Headers.{get_all, replace_first}
use funsip.Sip.Message.{Message}
use funsip.Sip.Message.Wire.{int_text}
use funsip.Sip.Via.{Via, parse_via, via_text}

abbrev pub asks_rport : Option Text → Bool
asks_rport none = false
asks_rport (some v) = is_empty v

abbrev pub note_received : Text → Via → Via
note_received ip v =
    if text_eq v.host ip
    then v
    else record v { params = insert text_keys (lit "received") ip v.params }

abbrev pub note_rport : ℤ → Via → Via
note_rport port v =
    if asks_rport (lookup text_keys (lit "rport") v.params)
    then record v { params = insert text_keys (lit "rport") (int_text port) v.params }
    else v

abbrev pub is_noted : Text → Via → Bool
is_noted ip v = not (text_eq v.host ip) || asks_rport (lookup text_keys (lit "rport") v.params)

abbrev note_in : Option Via → Message → Message
note_in none msg = msg
note_in (some v) msg =
    if is_noted msg.source_ip v
    then record msg {
      headers =
          (replace_first msg.headers (lit "Via")
            (via_text (note_rport msg.source_port (note_received msg.source_ip v)))).0;
    }
    else msg

abbrev note_top : List Text → Message → Message
note_top [] msg = msg
note_top (v ∷ vs) msg = note_in (parse_via v) msg

-- applyReceivedRport
unfoldable pub apply_received_rport : Message → Message
apply_received_rport msg = note_top (get_all msg.headers (lit "Via")) msg

-- What onPacket makes of a parsed message before it calls the handler.
unfoldable pub note_source : Text → ℤ → Text → Message → Message
unfolding apply_received_rport
note_source ip port transport msg =
    let noted = record msg { source_ip = ip; source_port = port; transport = transport } in
    if msg.is_request then apply_received_rport noted else noted
