-- ===== src/Proxy/Returns.antt =====
-- The way back of a response through the proxy of pkg/proxy/proxy.go.
use funsip.Base.{
  ℕ, ◌==◌, ◌≤◌, ◌<◌, ◌≡◌, refl, ◌∙◌, sym, ap, Bool, true, false, ◌&&◌, ◌||◌, Option, none, some,
  List, [], ◌∷◌, ◌++◌, arith, if-both, All, All-join, ltb,
}
use mathlib.Core.List.{append_assoc}
use funsip.Base.Int.{ℤ, pos}
use funsip.Text.{
  Text, lit, text_eq, text_eq_iff, is_empty, is_space, to_lower, itoa, max_int, trim_space,
  split_n2, trim_right,
}
use funsip.Text.Numbers.{All-map, IsDigit, itoa-All, atoi-itoa}
use funsip.Text.Words.{
  Lacks, cut-first, split-first, cut_last-last, trim_right-behind, trim_space-unspaced,
}
use funsip.Sip.Uri.{port_text, param_text, params_text}
use funsip.Sip.Via.{via_text, parse_via}
use funsip.Sip.Headers.{get_all, remove_first, rest_values}
use funsip.Sip.Headers.Invariant.{IsIndexed, clone-IsIndexed, remove_first-IsIndexed}
use funsip.Sip.Headers.Reads.{get_all-clone, get_all-remove_first}
use funsip.Sip.Message.{Message, clone_message, call_id}
use funsip.Sip.Message.Responses.{get_all-set}
use funsip.Sdp.Data.{Sdp}
use funsip.Transaction.Layer.Respond.{respond_to_request}
use funsip.Proxy.Config.{Config, Surroundings, World, own_via, own_params, same_port, is_zero}
use funsip.Proxy.Back.{
  with_body, anchored, top_is_own, is_own_via, without_own_via, maybe_anchor_answer,
  emit_response_event, forward_response,
}

-- What the proxy's own address needs to be read back from a Via.
pub record IsPlace (cfg : Config) (port : ℕ) : Type 0 where
  pub unspaced : All (λ c. is_space c ≡ false) cfg.local_ip
  pub no_semicolon : Lacks b';' cfg.local_ip
  pub local_port : cfg.local_port ≡ pos port
  pub positive : 0 < port
  pub in_range : port ≤ max_int

module _ (cfg : Config) (port : ℕ) (place : IsPlace cfg port) (transport branch : Text) where
  abbrev host_port : Text
  host_port = cfg.local_ip ++ b':' ∷ itoa port

  abbrev front : Text
  front = param_text (lit "branch", branch)

  abbrev proto : Text
  proto = lit "SIP/2.0/" ++ transport

  -- The parameters as they are printed, without the first semicolon.
  abbrev printed : Bool → Text
  printed true = lit "rport" ++ b';' ∷ (front ++ [])
  printed false = front ++ lit ";rport"

  printed-own_params :
      (rport_first : Bool)
      → params_text (own_params rport_first branch) ≡ b';' ∷ printed rport_first
  printed-own_params true = refl
  printed-own_params false = refl

  abbrev rest : Text
  rest = printed cfg.rport_first

  abbrev behind_proto : Text
  behind_proto = host_port ++ b';' ∷ rest

  port_digits : port_text cfg.local_port ≡ b':' ∷ itoa port
  port_digits =
      let above : ltb 0 port ≡ true = ground (arith, place.positive) in
      simp (place.local_port, above)

  own-shape : via_text (own_via cfg transport branch) ≡ proto ++ b' ' ∷ behind_proto
  unfolding via_text
  own-shape =
      ap (λ t. proto ++ b' ' ∷ (cfg.local_ip ++ (port_text cfg.local_port ++ t)))
        (printed-own_params cfg.rport_first)
      ∙ ap (λ t. proto ++ b' ' ∷ (cfg.local_ip ++ (t ++ b';' ∷ rest))) port_digits
      ∙ ap (λ t. proto ++ b' ' ∷ t)
          (sym (append_assoc cfg.local_ip (b':' ∷ itoa port) (b';' ∷ rest)))

  -- Trimming reaches the last parameter at most.
  own-trimmed :
      trim_space (proto ++ b' ' ∷ behind_proto)
      ≡ proto ++ b' ' ∷ (host_port ++ b';' ∷ trim_right is_space rest)
  unfolding trim_space
  own-trimmed =
      ap (trim_right is_space) (sym (append_assoc proto (b' ' ∷ host_port) (b';' ∷ rest)))
      ∙ trim_right-behind is_space (proto ++ b' ' ∷ host_port) b';' rest refl
      ∙ append_assoc proto (b' ' ∷ host_port) (b';' ∷ trim_right is_space rest)

  digits_lack : (b : ℕ) → ltb 57 b ≡ true → Lacks b (itoa port)
  digits_lack b high =
      All-map IsDigit (λ c. (c == b) ≡ false) (itoa port) (λ c e. ground (arith, e, high))
        (itoa-All port)

  digits_unspaced : All (λ c. is_space c ≡ false) (itoa port)
  digits_unspaced =
      All-map IsDigit (λ c. is_space c ≡ false) (itoa port) (λ c e. ground (arith, e))
        (itoa-All port)

  own_end :
      (text_eq cfg.local_ip cfg.local_ip
        && (same_port (pos port) cfg.local_port
            || (is_zero (pos port) && same_port cfg.local_port (pos 5060))))
      ≡ true
  own_end =
      let same_host : text_eq cfg.local_ip cfg.local_ip ≡ true =
        (text_eq_iff cfg.local_ip cfg.local_ip).1 refl in
      let same_number : (port == port) ≡ true = ground arith in
      simp (same_host, place.local_port, same_number)

  own-read :
      Lacks b' ' transport
      → is_own_via cfg (parse_via (via_text (own_via cfg transport branch))) ≡ true
  unfolding parse_via split_n2
  own-read t =
      rw
        (
          own-shape,
          own-trimmed,
          cut-first b' ' proto (host_port ++ b';' ∷ trim_right is_space rest)
              (refl, (refl, (refl, (refl, (refl, (refl, (refl, (refl, t)))))))),
          split-first b';' host_port (trim_right is_space rest) (
              All-join (λ c. (c == b';') ≡ false) cfg.local_ip (b':' ∷ itoa port) place.no_semicolon
                (refl, digits_lack b';' refl)),
          trim_space-unspaced host_port (
              All-join (λ c. is_space c ≡ false) cfg.local_ip (b':' ∷ itoa port) place.unspaced
                (refl, digits_unspaced)),
          cut_last-last b':' cfg.local_ip (itoa port) (digits_lack b':' refl),
          atoi-itoa port place.in_range,
        )
        own_end

-- What an answer keeps that is anchored.
abbrev Keeps : Message → Message → Type 0
Keeps resp fwd =
    (get_all fwd.headers (lit "Via") ≡ get_all resp.headers (lit "Via"))
    × (fwd.status_code ≡ resp.status_code)

with_body-Keeps :
    (around : Surroundings) (o : Option Sdp) (resp : Message)
    → IsIndexed resp.headers
    → Keeps resp (with_body around o resp)
unfolding to_lower
with_body-Keeps around none resp v = (refl, refl)
with_body-Keeps around (some sdp) resp v =
    (get_all-set resp.headers (lit "Content-Length") _ (lit "Via") v, refl)

anchored-Keeps :
    (around : Surroundings) (o : Option (Sdp → Option Sdp)) (resp : Message)
    → IsIndexed resp.headers
    → Keeps resp (anchored around o resp)
anchored-Keeps around none resp v = (refl, refl)
anchored-Keeps around (some answer) resp v = with_body-Keeps around _ resp v

maybe_anchor_answer-Keeps :
    (around : Surroundings) (resp : Message)
    → IsIndexed resp.headers
    → Keeps resp (maybe_anchor_answer around resp)
unfolding maybe_anchor_answer
maybe_anchor_answer-Keeps around resp v =
    if-both (Keeps resp) (is_empty resp.body) (refl, refl)
      (anchored-Keeps around (around.anchor_answer (call_id resp)) resp v)

emit_response_event-layer :
    (req : Message) (code : ℤ) (w : World) → (emit_response_event req code w).layer ≡ w.layer
unfolding emit_response_event
emit_response_event-layer req code w = ground arith

-- A response that comes back with the Via of this proxy on top, as the forwarding of a request put it
-- there, goes to the request's server transaction without it and with the other Vias in order, with the
-- same status code, whether or not its body is anchored, and the proxy's address is such that it can be
-- read back.
pub response_returns :
    (cfg : Config) (around : Surroundings) (port : ℕ) (req resp : Message) (transport branch : Text)
    (vias : List Text) (w : World)
    → IsPlace cfg port
    → Lacks b' ' transport
    → IsIndexed resp.headers
    → get_all resp.headers (lit "Via") ≡ via_text (own_via cfg transport branch) ∷ vias
    → (fwd : Message) × ((forward_response cfg around req resp w).layer
        ≡ respond_to_request req fwd w.layer)
      × (get_all fwd.headers (lit "Via") ≡ vias)
      × (fwd.status_code ≡ resp.status_code)
unfolding forward_response clone_message
response_returns cfg around port req resp transport branch vias w place t v own =
    let copy = clone_message resp in
    let sent = maybe_anchor_answer around (without_own_via cfg copy) in
    let copied = get_all-clone resp.headers (lit "Via") v ∙ own in
    let top : top_is_own cfg (get_all copy.headers (lit "Via")) ≡ true =
      rw copied (own-read cfg port place transport branch t) in
    let stripped : without_own_via cfg copy
        ≡ record copy { headers = remove_first copy.headers (lit "Via") } =
      simp top in
    let copy_indexed = clone-IsIndexed resp.headers v in
    let keeps =
      maybe_anchor_answer-Keeps around
        (record copy { headers = remove_first copy.headers (lit "Via") })
        (remove_first-IsIndexed copy.headers (lit "Via") copy_indexed) in
    (
      maybe_anchor_answer around (record copy { headers = remove_first copy.headers (lit "Via") }),
      ap (respond_to_request req sent) (
            emit_response_event-layer req sent.status_code
              (record w { confirmed = sent ∷ w.confirmed }))
          ∙ ap (λ m. respond_to_request req (maybe_anchor_answer around m) w.layer) stripped,
      keeps.0 ∙ get_all-remove_first copy.headers (lit "Via") copy_indexed ∙ ap rest_values copied,
      keeps.1,
    )
