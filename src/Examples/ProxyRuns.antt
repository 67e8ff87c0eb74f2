-- ===== src/Examples/ProxyRuns.antt =====
-- Forwarding (pkg/proxy/proxy.go) on concrete inputs.
use funsip.Base.{◌≡◌, refl, arith, true, false, none, some, [], ◌∷◌, ◌++◌}
use funsip.Base.Int.{pos, gt_const}
use funsip.Text.{Text, lit, to_upper, to_lower, atoi, trim_space}
use funsip.Sip.Headers.{new_headers, get, get_all, set, add}
use funsip.Sip.Headers.Invariant.{IsIndexed, new_headers-IsIndexed, set-IsIndexed, add-IsIndexed}
use funsip.Sip.Uri.{Uri}
use funsip.Sip.Message.{Message, new_request, new_response, max_forwards}
use funsip.Registrar.Binding.{Binding}
use funsip.Transaction.Client.{ClientTx}
use funsip.Transaction.Layer.State.{new_layer}
use funsip.Transaction.Layer.Respond.{respond_to_request}
use funsip.Sip.Via.{via_text}
use funsip.Proxy.Config.{Config, Surroundings, World, own_via}
use funsip.Proxy.Back.{forward_response}
use funsip.Proxy.Returns.{IsPlace, response_returns}
use funsip.Proxy.Forward.{forward_request}
use funsip.Proxy.Hops.{IsNextHop, forward_request_adds_hop}

abbrev here : Config
here = record {
  local_ip = lit "10.0.0.2";
  local_port = pos 5060;
  domain = lit "example.com";
  rport_first = true;
}

abbrev around : Surroundings
around = record { lookup_host = λ host. some (lit "10.0.0.9"); anchor_answer = λ call_id. none }

abbrev empty_world : World
empty_world = record { layer = new_layer; confirmed = []; emitted = [] }

abbrev bob : Uri
bob = record {
  scheme = lit "sip";
  user = lit "bob";
  host = lit "example.com";
  port = pos 0;
  params = [];
  headers = [];
}

abbrev invite_with : Text → Message
invite_with forwards = record (new_request (lit "INVITE") (some bob)) {
  headers =
      set
        (set (add new_headers (lit "Via") (lit "SIP/2.0/UDP 10.0.0.1:5070;branch=z9hG4bKa"))
          (lit "CSeq") (lit "1 INVITE"))
        (lit "Max-Forwards") forwards;
  source_ip = lit "10.0.0.1";
  source_port = pos 5070;
  transport = lit "UDP";
}

invite-IsIndexed : (forwards : Text) → IsIndexed (invite_with forwards).headers
unfolding new_request
invite-IsIndexed forwards =
    set-IsIndexed _ _ _ (set-IsIndexed _ _ _ (add-IsIndexed new_headers _ _ new_headers-IsIndexed))

seventy_left : gt_const (max_forwards (invite_with (lit "70"))) 0 ≡ true
unfolding max_forwards get set add new_headers to_lower atoi trim_space new_request
seventy_left = refl

none_left : gt_const (max_forwards (invite_with (lit "0"))) 0 ≡ false
unfolding max_forwards get set add new_headers to_lower atoi trim_space new_request
none_left = refl

bob_asked : (invite_with (lit "0")).request_uri ≡ some bob
unfolding new_request
bob_asked = refl

forward_request_adds_hop_example :
    (tx : ClientTx) × ((forward_request here around
        (invite_with (lit "70"))
        (lit "example.com:5080")
        (lit "udp")
        true
        (lit "z9hG4bKp")
        0
        empty_world).layer.client_heap
      ≡ empty_world.layer.client_heap ++ tx ∷ [])
    × IsNextHop here
        (invite_with (lit "70"))
        tx.request
        (to_upper (lit "udp"))
        (lit "z9hG4bKp")
        true
forward_request_adds_hop_example =
    forward_request_adds_hop here around (invite_with (lit "70")) (lit "example.com:5080")
      (lit "udp") (lit "z9hG4bKp") true 0 empty_world (invite-IsIndexed (lit "70")) seventy_left

abbrev bob_phone : Binding
bob_phone = record {
  aor = lit "sip:bob@example.com";
  contact = lit "sip:bob@10.0.0.7";
  expires_at = pos 60;
  received_ip = lit "10.0.0.7";
  received_port = pos 5060;
  transport = lit "UDP";
  user_agent = [];
  call_id = lit "r1";
  cseq = pos 1;
}

abbrev own : Text
own = via_text (own_via here (lit "UDP") (lit "z9hG4bKp"))

abbrev old : Text
old = lit "SIP/2.0/UDP 10.0.0.1:5070;branch=z9hG4bKa"

abbrev ringing : Message
ringing = record (new_response (pos 180) (lit "Ringing")) {
  headers = add (add new_headers (lit "Via") own) (lit "Via") old;
}

ringing-IsIndexed : IsIndexed ringing.headers
unfolding new_response
ringing-IsIndexed = add-IsIndexed _ _ _ (add-IsIndexed new_headers _ _ new_headers-IsIndexed)

here-IsPlace : IsPlace here 5060
here-IsPlace = record {
  unspaced = ground arith;
  no_semicolon = ground arith;
  local_port = refl;
  positive = omega arith;
  in_range = omega arith;
}

ringing_vias : get_all ringing.headers (lit "Via") ≡ own ∷ old ∷ []
unfolding new_response get_all add new_headers to_lower
ringing_vias = refl

response_returns_example :
    (fwd : Message) × ((forward_response here around
        (invite_with (lit "70"))
        ringing
        empty_world).layer
      ≡ respond_to_request (invite_with (lit "70")) fwd empty_world.layer)
    × (get_all fwd.headers (lit "Via") ≡ old ∷ [])
    × (fwd.status_code ≡ ringing.status_code)
response_returns_example =
    response_returns here around 5060 (invite_with (lit "70")) ringing (lit "UDP") (lit "z9hG4bKp")
      (old ∷ []) empty_world here-IsPlace (ground arith) ringing-IsIndexed ringing_vias
