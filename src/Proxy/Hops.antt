-- ===== src/Proxy/Hops.antt =====
-- What a hop through the proxy of pkg/proxy/proxy.go does to the headers of a request.
use funsip.Base.{
  ℕ, ◌≡◌, refl, ◌∙◌, ap, Bool, true, false, ◌&&◌, Option, some, [], ◌∷◌, ◌++◌, arith, if◌then◌else◌,
}
use funsip.Base.Int.{ℤ, pos, gt_const}
use funsip.Text.{Text, lit, text_eq, to_lower, to_upper}
use funsip.Sip.Headers.{Headers, get_all, set, prepend, clone}
use funsip.Sip.Headers.Invariant.{IsIndexed, clone-IsIndexed, set-IsIndexed, prepend-IsIndexed}
use funsip.Sip.Headers.Multimap.{get-first_value}
use funsip.Sip.Headers.Reads.{get_all-prepend, get_all-remove, get_all-clone}
use funsip.Sip.Message.{Message, clone_message, max_forwards}
use funsip.Sip.Message.Responses.{get_all-set}
use funsip.Sip.Message.Wire.{int_text}
use funsip.Sip.Uri.{Uri}
use funsip.Sip.Via.{via_text}
use funsip.Transaction.Client.{ClientTx, new_client_invite_tx, new_client_non_invite_tx}
use funsip.Transaction.Layer.State.{Layer}
use funsip.Transaction.Layer.Branches.{new_client_tx, client_tx_for}
use funsip.Proxy.Config.{
  Config, Surroundings, World, own_via, record_route, resolve_destination, address_of,
}
use funsip.Proxy.Forward.{
  one_less, with_hop, next_hop, hop, answer_with, forward_request, forwarded, forward_to_binding,
  forward_to_request_uri, sip_uri, user_of, to_request_uri,
}
use funsip.Registrar.Binding.{Binding}

max_forwards-clone :
    (req : Message) → IsIndexed req.headers → max_forwards (clone_message req) ≡ max_forwards req
unfolding max_forwards clone_message
max_forwards-clone req w =
    rw
      (
        get-first_value (clone req.headers) (lit "Max-Forwards"),
        get_all-clone req.headers (lit "Max-Forwards") w,
        get-first_value req.headers (lit "Max-Forwards"),
      )
      refl

module _ (cfg : Config) (mf : ℤ) (transport branch : Text) (h : Headers) (w : IsIndexed h) where
  abbrev counted : Headers
  counted = set h (lit "Max-Forwards") (int_text (one_less mf))

  abbrev own : Text
  own = via_text (own_via cfg transport branch)

  abbrev via : Headers
  via = prepend counted (lit "Via") own

  counted-IsIndexed : IsIndexed counted
  counted-IsIndexed = set-IsIndexed h (lit "Max-Forwards") (int_text (one_less mf)) w

  via-IsIndexed : IsIndexed via
  via-IsIndexed = prepend-IsIndexed counted (lit "Via") own counted-IsIndexed

  via_values :
      (m : Text)
      → get_all via m ≡ (
          if text_eq (to_lower (lit "Via")) (to_lower m)
          then own ∷ get_all counted m
          else get_all counted m)
  via_values m = get_all-prepend counted (lit "Via") own m counted-IsIndexed

  counted_values :
      (m : Text)
      → get_all counted m ≡ (
          if text_eq (to_lower (lit "Max-Forwards")) (to_lower m)
          then int_text (one_less mf) ∷ []
          else get_all h m)
  counted_values m = get_all-set h (lit "Max-Forwards") (int_text (one_less mf)) m w

  hop_values :
      (rr : Bool) (m : Text)
      → get_all (with_hop cfg mf transport branch rr h) m ≡ (
          if text_eq (to_lower (lit "Proxy-Authorization")) (to_lower m)
          then []
          else if text_eq (to_lower (lit "Record-Route")) (to_lower m) && rr
          then record_route cfg ∷ get_all via m
          else get_all via m)
  hop_values true m = ground (
    arith,
    get_all-remove (prepend via (lit "Record-Route") (record_route cfg)) (lit "Proxy-Authorization")
        m (prepend-IsIndexed via (lit "Record-Route") (record_route cfg) via-IsIndexed),
    get_all-prepend via (lit "Record-Route") (record_route cfg) m via-IsIndexed,
  )
  hop_values false m =
      ground (arith, get_all-remove via (lit "Proxy-Authorization") m via-IsIndexed)

-- `fwd` is `req` one hop further.
pub record IsNextHop (cfg : Config) (req fwd : Message) (transport branch : Text) (rr : Bool)
    : Type 0 where
  pub vias :
      get_all fwd.headers (lit "Via")
      ≡ via_text (own_via cfg transport branch) ∷ get_all req.headers (lit "Via")
  pub forwards :
      get_all fwd.headers (lit "Max-Forwards") ≡ int_text (one_less (max_forwards req)) ∷ []
  pub routes : get_all fwd.headers (lit "Record-Route") ≡ (
      if rr
      then record_route cfg ∷ get_all req.headers (lit "Record-Route")
      else get_all req.headers (lit "Record-Route"))
  pub secret : get_all fwd.headers (lit "Proxy-Authorization") ≡ []
  pub others :
      (m : Text)
      → text_eq (to_lower (lit "Via")) (to_lower m) ≡ false
      → text_eq (to_lower (lit "Max-Forwards")) (to_lower m) ≡ false
      → text_eq (to_lower (lit "Record-Route")) (to_lower m) ≡ false
      → text_eq (to_lower (lit "Proxy-Authorization")) (to_lower m) ≡ false
      → get_all fwd.headers m ≡ get_all req.headers m
  pub body : fwd.body ≡ req.body

client_tx_for-request :
    (fwd : Message) (dst transport : Text) (now : ℕ)
    → (client_tx_for fwd dst transport now).request ≡ fwd
unfolding new_client_invite_tx new_client_non_invite_tx
client_tx_for-request fwd dst transport now = ground arith

hop-forwards :
    (cfg : Config) (req fwd : Message) (dst transport : Text) (now : ℕ) (w : World)
    → IsIndexed req.headers
    → gt_const (max_forwards req) 0 ≡ true
    → (hop cfg req fwd dst transport now w).layer
      ≡ new_client_tx (some req) fwd dst transport now w.layer
hop-forwards cfg req fwd dst transport now w v m = rw (max_forwards-clone req v, m) refl

pub hop-refuses :
    (cfg : Config) (req fwd : Message) (dst transport : Text) (now : ℕ) (w : World)
    → IsIndexed req.headers
    → gt_const (max_forwards req) 0 ≡ false
    → hop cfg req fwd dst transport now w ≡ answer_with req (pos 483) (lit "Too Many Hops") w
hop-refuses cfg req fwd dst transport now w v m = rw (max_forwards-clone req v, m) refl

next_hop-IsNextHop :
    (cfg : Config) (req : Message) (transport branch : Text) (rr : Bool) (ruri : Option Uri)
    → IsIndexed req.headers
    → IsNextHop cfg req
        (record (next_hop cfg req transport branch rr) { request_uri = ruri })
        transport
        branch
        rr
unfolding clone_message to_lower
next_hop-IsNextHop cfg req transport branch rr ruri v =
    let h = clone req.headers in
    let w = clone-IsIndexed req.headers v in
    let mf = max_forwards (clone_message req) in
    let values = hop_values cfg mf transport branch h w rr in
    let vias = via_values cfg mf transport branch h w in
    let counts = counted_values cfg mf transport branch h w in
    let same = λ (m : Text). get_all-clone req.headers m v in
    record {
      vias =
          values (lit "Via")
          ∙ vias (lit "Via")
          ∙ ap (λ t. via_text (own_via cfg transport branch) ∷ t)
              (counts (lit "Via") ∙ same (lit "Via"));
      forwards =
          values (lit "Max-Forwards")
          ∙ vias (lit "Max-Forwards")
          ∙ counts (lit "Max-Forwards")
          ∙ ap (λ n. int_text (one_less n) ∷ []) (max_forwards-clone req v);
      routes =
          values (lit "Record-Route")
          ∙ ap (λ t. if rr then record_route cfg ∷ t else t)
              (vias (lit "Record-Route") ∙ counts (lit "Record-Route") ∙ same (lit "Record-Route"));
      secret = values (lit "Proxy-Authorization");
      others = λ m a b c d. ground (arith, values m, vias m, counts m, same m);
      body = refl;
    }

-- A request with Max-Forwards left, forwarded: one client transaction is added, behind the others, and
-- its request has the proxy's own Via on top of the Vias of the received one, Max-Forwards one less, a
-- Record-Route on top where one was asked for, no Proxy-Authorization, and else the same headers, and the
-- same body.
pub forward_request_adds_hop :
    (cfg : Config) (around : Surroundings) (req : Message) (dst transport branch : Text) (rr : Bool)
    (now : ℕ) (w : World)
    → IsIndexed req.headers
    → gt_const (max_forwards req) 0 ≡ true
    → (tx : ClientTx) × ((forward_request cfg around req dst transport rr branch now
          w).layer.client_heap
        ≡ w.layer.client_heap ++ tx ∷ [])
      × IsNextHop cfg req tx.request (to_upper transport) branch rr
unfolding forward_request new_client_tx
forward_request_adds_hop cfg around req dst transport branch rr now w v m =
    let (host, port) = resolve_destination around dst in
    let ruri = some (sip_uri cfg (user_of cfg req.request_uri) host port) in
    let fwd = record (next_hop cfg req (to_upper transport) branch rr) { request_uri = ruri } in
    let tx = client_tx_for fwd (address_of host port) transport now in
    (
      tx,
      ap (λ (l : Layer). l.client_heap)
          (hop-forwards cfg req fwd (address_of host port) transport now w v m),
      rw (client_tx_for-request fwd (address_of host port) transport now)
          (next_hop-IsNextHop cfg req (to_upper transport) branch rr ruri v),
    )

-- A request whose Max-Forwards is not above 0 is answered 483, and nothing else happens, whether it was to
-- go to a place, to its Request-URI or to a binding.
used_up_is_refused :
    (cfg : Config) (around : Surroundings) (req : Message) (binding : Binding) (uri : Uri)
    (dst transport branch : Text) (rr : Bool) (now : ℕ) (w : World)
    → IsIndexed req.headers
    → gt_const (max_forwards req) 0 ≡ false
    → req.request_uri ≡ some uri
    → let refused_world = answer_with req (pos 483) (lit "Too Many Hops") w in
      (forward_request cfg around req dst transport rr branch now w ≡ refused_world)
      × (forward_to_request_uri cfg around req rr branch now w ≡ forwarded refused_world)
      × (forward_to_binding cfg req binding rr branch now w ≡ refused_world)
unfolding forward_request forward_to_request_uri forward_to_binding
used_up_is_refused cfg around req binding uri dst transport branch rr now w v m u = (
  hop-refuses cfg req _ _ transport now w v m,
  ap (λ o. to_request_uri cfg around o req rr branch now w) u
      ∙ ap forwarded (hop-refuses cfg req _ _ _ now w v m),
  hop-refuses cfg req _ _ _ now w v m,
)
