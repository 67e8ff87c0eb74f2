-- ===== src/Proxy/Back.antt =====
-- Responses in pkg/proxy/proxy.go: those that come back from a branch, and those of the proxy itself.
use funsip.Base.{
  Bool, true, false, ◌&&◌, ◌||◌, Option, none, some, List, [], ◌∷◌, length, if◌then◌else◌,
}
use funsip.Base.Int.{ℤ, pos, ge_const, lt_const}
use funsip.Text.{Text, lit, text_eq, is_empty}
use funsip.Sip.Headers.{Headers, get_all, remove_first, set, add}
use funsip.Sip.Message.{Message, clone_message, create_response, call_id, contacts, to_address}
use funsip.Sip.Message.Wire.{int_text}
use funsip.Sip.Address.{Address, address_text, tag}
use funsip.Sip.Via.{Via, parse_via}
use funsip.Sdp.Data.{Sdp}
use funsip.Sdp.Parser.{parse}
use funsip.Sdp.Printer.{bytes}
use funsip.Transaction.Layer.Respond.{respond_to_request}
use funsip.Transaction.Client.{is_success}
use funsip.Proxy.Config.{
  Config, Surroundings, EventKind, auth_failed, call_start, call_attempt, World, is_zero, same_port,
}
use funsip.Proxy.Forward.{on_layer}

abbrev pub emit : EventKind → Message → ℤ → World → World
emit kind req code w = record w {
  emitted = record { kind = kind; about = req; code = code } ∷ w.emitted;
}

-- emitResponseEvent, with an event sink
unfoldable pub emit_response_event : Message → ℤ → World → World
emit_response_event req code w =
    if lt_const code 200
    then w
    else if same_port code (pos 401) || same_port code (pos 407)
    then emit auth_failed req code w
    else if text_eq req.method (lit "INVITE") && is_success code
    then emit call_start req code w
    else if text_eq req.method (lit "INVITE") && ge_const code 300
    then emit call_attempt req code w
    else w

module _ (cfg : Config) where
  abbrev pub is_own_via : Option Via → Bool
  is_own_via none = false
  is_own_via (some v) =
      text_eq v.host cfg.local_ip
      && (same_port v.port cfg.local_port
          || (is_zero v.port && same_port cfg.local_port (pos 5060)))

  abbrev pub top_is_own : List Text → Bool
  top_is_own [] = false
  top_is_own (v ∷ vs) = is_own_via (parse_via v)

  -- The response without the Via that this proxy put on top of the request.
  abbrev pub without_own_via : Message → Message
  without_own_via resp =
      if top_is_own (get_all resp.headers (lit "Via"))
      then record resp { headers = remove_first resp.headers (lit "Via") }
      else resp

module _ (around : Surroundings) where
  abbrev pub with_body : Option Sdp → Message → Message
  with_body none resp = resp
  with_body (some sdp) resp = record resp {
    body = bytes sdp;
    headers = set resp.headers (lit "Content-Length") (int_text (pos (length (bytes sdp))));
  }

  abbrev pub anchored : Option (Sdp → Option Sdp) → Message → Message
  anchored none resp = resp
  anchored (some answer) resp = with_body (answer (parse resp.body)) resp

  -- maybeAnchorAnswer, with a media manager
  unfoldable pub maybe_anchor_answer : Message → Message
  maybe_anchor_answer resp =
      if is_empty resp.body then resp else anchored (around.anchor_answer (call_id resp)) resp

-- forwardResponse, with a callback for dialogs
unfoldable pub forward_response : Config → Surroundings → Message → Message → World → World
unfolding maybe_anchor_answer emit_response_event
forward_response cfg around req resp w =
    let fwd = maybe_anchor_answer around (without_own_via cfg (clone_message resp)) in
    let told = record w { confirmed = fwd ∷ w.confirmed } in
    on_layer (respond_to_request req fwd) (emit_response_event req fwd.status_code told)

-- SendResponseMsg, and SendResponse
unfoldable pub send_response_msg : Message → Message → World → World
unfolding emit_response_event
send_response_msg req resp w =
    on_layer (respond_to_request req resp) (emit_response_event req resp.status_code w)

unfoldable pub send_response : Message → ℤ → Text → World → World
unfolding send_response_msg
send_response req code reason w = send_response_msg req (create_response req code reason) w

abbrev tag_is_set : Option Address → Bool
tag_is_set none = false
tag_is_set (some a) = if is_empty (tag a) then false else true

-- IsInDialog
unfoldable pub is_in_dialog : Message → Bool
is_in_dialog req = tag_is_set (to_address req)

abbrev at_source : Message → Address → Text
at_source req c =
    address_text (record c { uri = record c.uri { host = req.source_ip; port = req.source_port } })

abbrev add_contacts : Message → List Address → Headers → Headers
add_contacts req [] h = h
add_contacts req (c ∷ cs) h = add_contacts req cs (add h (lit "Contact") (at_source req c))

abbrev fix_contacts : Message → List Address → Message
fix_contacts req [] = req
fix_contacts req (c ∷ cs) = record req {
  headers = add_contacts req cs (set req.headers (lit "Contact") (at_source req c));
}

-- FixContact
unfoldable pub fix_contact : Message → Message
fix_contact req = fix_contacts req (contacts req)
