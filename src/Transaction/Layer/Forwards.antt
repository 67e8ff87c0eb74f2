-- ===== src/Transaction/Layer/Forwards.antt =====
-- What receiveRequest (pkg/transaction/layer.go) hands to the script.
use funsip.Base.{ℕ, ◌≡◌, refl, ◌∙◌, ap, inl, inr, false, ◌&&◌, none, ◌∷◌, Bool-cases, if-both}
use funsip.Base.Int.{pos, is_negative, gt_const}
use funsip.Text.{lit, text_eq, to_lower, atoi, trim_space}
use funsip.Sip.Headers.{Headers, get, set, first_value}
use funsip.Sip.Headers.Multimap.{sets, apply, get_all-apply, get-first_value}
use funsip.Sip.Headers.Invariant.{IsIndexed}
use funsip.Sip.Message.{Message, max_forwards}
use funsip.Transaction.Layer.State.{Layer, find_server_tx}
use funsip.Transaction.Layer.Receive.{
  start_request, as_request, with_max_forwards, dispatch, receive_request, is_invite,
}
use funsip.Transaction.Layer.Requests.{receive_request-dispatch}

start_request-handed :
    (req : Message) (now : ℕ) (l : Layer) → (start_request req now l).handed ≡ req ∷ l.handed
start_request-handed req now l =
    if-both (λ (k : Layer). req ∷ k.handed ≡ req ∷ l.handed)
      (is_invite req && gt_const l.invite_timeout 0) refl refl

dispatch-new :
    (req : Message) (now : ℕ) (l : Layer)
    → text_eq req.method (lit "CANCEL") ≡ false
    → find_server_tx req l ≡ none
    → (dispatch req now l).handed ≡ req ∷ l.handed
dispatch-new req now l h e = rw (h, as_request, e) (start_request-handed req now l)

with_max_forwards-method : (req : Message) → (with_max_forwards req).method ≡ req.method
with_max_forwards-method req =
    if-both (λ (m : Message). m.method ≡ req.method) (is_negative (max_forwards req)) refl refl

get-max_forwards :
    (h : Headers)
    → IsIndexed h
    → get (set h (lit "Max-Forwards") (lit "70")) (lit "Max-Forwards") ≡ lit "70"
unfolding apply to_lower
get-max_forwards h w =
    get-first_value (set h (lit "Max-Forwards") (lit "70")) (lit "Max-Forwards")
    ∙ ap first_value (get_all-apply h (sets (lit "Max-Forwards") (lit "70")) (lit "Max-Forwards") w)

given-max_forwards :
    (req : Message)
    → IsIndexed req.headers
    → max_forwards (record req { headers = set req.headers (lit "Max-Forwards") (lit "70") })
      ≡ pos 70
unfolding max_forwards atoi trim_space
given-max_forwards req w = rw (get-max_forwards req.headers w) refl

with_max_forwards-max_forwards :
    (req : Message)
    → IsIndexed req.headers
    → is_negative (max_forwards (with_max_forwards req)) ≡ false
with_max_forwards-max_forwards req w = elim (Bool-cases (is_negative (max_forwards req))) [
  | inl e ↦ rw (e, given-max_forwards req w) refl
  | inr e ↦ rw e e
]

-- A request that is neither an ACK nor a CANCEL and has no transaction yet is handed to the script once,
-- and, where its header entries are indexed, as it came, with `Max-Forwards: 70` in the place of a
-- Max-Forwards that is missing or negative, so that the script never sees a negative one.
new_request_handed :
    (req : Message) (now : ℕ) (l : Layer)
    → text_eq req.method (lit "ACK") ≡ false
    → text_eq req.method (lit "CANCEL") ≡ false
    → find_server_tx (with_max_forwards req) l ≡ none
    → IsIndexed req.headers
    → ((receive_request req now l).handed ≡ with_max_forwards req ∷ l.handed)
      × (is_negative (max_forwards (with_max_forwards req)) ≡ false)
new_request_handed req now l ack cancel unknown indexed = (
  ap (λ (k : Layer). k.handed) (receive_request-dispatch req now l ack)
      ∙ dispatch-new (with_max_forwards req) now l (rw (with_max_forwards-method req) cancel)
          unknown,
  with_max_forwards-max_forwards req indexed,
)
