-- ===== src/Proxy/Forward.antt =====
-- The four ways in which pkg/proxy/proxy.go forwards a request. The branch that GenerateBranch draws is
-- an argument. Where the code changes the request that it was given (the Route that ForwardInDialog
-- takes off), the model changes its copy of it.
use funsip.Base.{ℕ, ◌+◌, Bool, false, Option, none, some, List, [], ◌∷◌, if◌then◌else◌, lookup}
use funsip.Base.Int.{ℤ, pos, negsuc, sub_ℕ, gt_const}
use funsip.Text.{Text, text_keys, lit, to_upper}
use funsip.Sip.Headers.{Headers, get_all, prepend, remove, remove_first, set}
use funsip.Sip.Message.{Message, clone_message, create_response, max_forwards}
use funsip.Sip.Message.Wire.{int_text}
use funsip.Sip.Uri.{Uri, UriResult, parsed, failed, parse_uri}
use funsip.Sip.Address.{parse_route_header}
use funsip.Sip.Via.{via_text, text_or_empty}
use funsip.Registrar.Binding.{Binding}
use funsip.Transaction.Layer.State.{Layer}
use funsip.Transaction.Layer.Branches.{new_client_tx}
use funsip.Transaction.Layer.Respond.{respond_to_request}
use funsip.Proxy.Config.{
  Config, Surroundings, World, or_5060, or_udp, address_of, own_via, record_route, is_our_route,
  resolve_destination,
}

pub data ForwardError : Type 0 where
  no_request_uri no_route bad_route : ForwardError

pub data Forwarded : Type 0 where
  forwarded : World → Forwarded
  refused : ForwardError → Forwarded

abbrev pub on_layer : (Layer → Layer) → World → World
on_layer f w = record w { layer = f w.layer }

-- RespondToRequest with a response that is made from the request
abbrev pub answer_with : Message → ℤ → Text → World → World
answer_with req code reason w =
    on_layer (respond_to_request req (create_response req code reason)) w

abbrev pub one_less : ℤ → ℤ
one_less (pos n) = sub_ℕ n 1
one_less (negsuc n) = negsuc (n + 1)

abbrev pub transport_param : List (Text × Text) → Text
transport_param params = to_upper (text_or_empty (lookup text_keys (lit "transport") params))

module _ (cfg : Config) where
  -- What all four do to the headers of the copy: Max-Forwards, Via, Record-Route, Proxy-Authorization.
  abbrev pub with_hop : ℤ → Text → Text → Bool → Headers → Headers
  with_hop mf transport branch record_routed h =
      let counted = set h (lit "Max-Forwards") (int_text (one_less mf)) in
      let via = prepend counted (lit "Via") (via_text (own_via cfg transport branch)) in
      let routed =
        if record_routed then prepend via (lit "Record-Route") (record_route cfg) else via in
      remove routed (lit "Proxy-Authorization")

  abbrev pub next_hop : Message → Text → Text → Bool → Message
  next_hop req transport branch record_routed =
      let fwd = clone_message req in
      record fwd {
        headers = with_hop (max_forwards fwd) transport branch record_routed fwd.headers;
      }

  -- Where Max-Forwards is used up, 483; else the copy goes on in a client transaction of `req`.
  abbrev pub hop : Message → Message → Text → Text → ℕ → World → World
  hop req fwd dst transport now w =
      if gt_const (max_forwards (clone_message req)) 0
      then on_layer (new_client_tx (some req) fwd dst transport now) w
      else answer_with req (pos 483) (lit "Too Many Hops") w

  abbrev pub user_of : Option Uri → Text
  user_of none = []
  user_of (some u) = u.user

  abbrev pub sip_uri : Text → Text → ℤ → Uri
  sip_uri user host port = record {
    scheme = lit "sip";
    user = user;
    host = host;
    port = port;
    params = [];
    headers = [];
  }

  module _ (around : Surroundings) where
    -- ForwardRequest
    unfoldable pub forward_request : Message → Text → Text → Bool → Text → ℕ → World → World
    unfolding resolve_destination
    forward_request req dst transport record_routed branch now w =
        let (host, port) = resolve_destination around dst in
        hop req
          (record (next_hop req (to_upper transport) branch record_routed) {
            request_uri = some (sip_uri (user_of req.request_uri) host port);
          })
          (address_of host port) transport now w

    abbrev pub to_request_uri : Option Uri → Message → Bool → Text → ℕ → World → Forwarded
    to_request_uri none req record_routed branch now w = refused no_request_uri
    to_request_uri (some uri) req record_routed branch now w =
        let transport = or_udp (transport_param uri.params) in
        let (host, port) = resolve_destination around (address_of uri.host (or_5060 uri.port)) in
        forwarded (
          hop req (next_hop req transport branch record_routed) (address_of host port) transport now
            w)

    -- ForwardToRequestURI
    unfoldable pub forward_to_request_uri : Message → Bool → Text → ℕ → World → Forwarded
    unfolding resolve_destination
    forward_to_request_uri req record_routed branch now w =
        to_request_uri req.request_uri req record_routed branch now w

  abbrev pub contact_or : UriResult → Option Uri → Option Uri
  contact_or (parsed u) ruri = some u
  contact_or (failed e) ruri = ruri

  -- ForwardToBinding
  unfoldable pub forward_to_binding : Message → Binding → Bool → Text → ℕ → World → World
  forward_to_binding req binding record_routed branch now w =
      let transport = or_udp (to_upper binding.transport) in
      let fwd = next_hop req transport branch record_routed in
      hop req (record fwd { request_uri = contact_or (parse_uri binding.contact) fwd.request_uri })
        (address_of binding.received_ip binding.received_port) transport now w

  abbrev uri_place : Uri → Text
  uri_place u = address_of u.host (or_5060 u.port)

  abbrev place_of : Option Uri → Text
  place_of none = []
  place_of (some u) = uri_place u

  -- The next place: the top Route if it can be read, else the Request-URI.
  abbrev next_place : Option Uri → Option Uri → Text × Text
  next_place none ruri = (place_of ruri, lit "UDP")
  next_place (some u) ruri = (uri_place u, or_udp (transport_param u.params))

  abbrev top_route : List Text → Option Uri
  top_route [] = none
  top_route (r ∷ rs) = parse_route_header r

  -- The request behind the test of its top Route: ours is taken off.
  abbrev behind_our_route : Message → Uri → Message
  behind_our_route req top =
      if is_our_route cfg top
      then record req { headers = remove_first req.headers (lit "Route") }
      else req

  abbrev along_route : Message → Text → ℕ → World → World
  along_route req branch now w =
      let (dst, transport) =
        next_place (top_route (get_all req.headers (lit "Route"))) req.request_uri in
      hop req (next_hop req transport branch false) dst transport now w

  abbrev in_dialog : List Text → Message → Text → ℕ → World → Forwarded
  in_dialog [] req branch now w = refused no_route
  in_dialog (r ∷ rs) req branch now w = elim (parse_route_header r) [
    | none ↦ refused bad_route
    | some top ↦ forwarded (along_route (behind_our_route req top) branch now w)
  ]

  -- ForwardInDialog
  unfoldable pub forward_in_dialog : Message → Text → ℕ → World → Forwarded
  forward_in_dialog req branch now w =
      in_dialog (get_all req.headers (lit "Route")) req branch now w
