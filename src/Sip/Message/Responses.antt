-- ===== src/Sip/Message/Responses.antt =====
-- CreateResponseFromRequest of pkg/sip/message.go: what a response takes over from its request.
use funsip.Base.{◌≡◌, refl, List, [], ◌∷◌, ◌++◌, arith, if◌then◌else◌}
use mathlib.Core.List.{append-nil, append_assoc}
use funsip.Base.Int.{ℤ}
use funsip.Text.{Text, lit, text_eq, to_lower}
use funsip.Sip.Headers.{Headers, new_headers, get, get_all, set, add}
use funsip.Sip.Headers.Invariant.{IsIndexed, new_headers-IsIndexed, set-IsIndexed, add-IsIndexed}
use funsip.Sip.Headers.Multimap.{
  sets, adds, apply, get_all-apply, get-first_value, get_all-history, apply_all,
}
use funsip.Sip.Message.{Message, create_response, add_each, copy_header, cseq_method, top_via}

-- Reading one name after writing another, and after writing the same one.
pub get_all-set :
    (h : Headers) (n v m : Text)
    → IsIndexed h
    → get_all (set h n v) m ≡ (if text_eq (to_lower n) (to_lower m) then v ∷ [] else get_all h m)
get_all-set h n v m w = unfold apply in get_all-apply h (sets n v) m w

pub get_all-add :
    (h : Headers) (n v m : Text)
    → IsIndexed h
    → get_all (add h n v) m
      ≡ (if text_eq (to_lower n) (to_lower m) then get_all h m ++ v ∷ [] else get_all h m)
get_all-add h n v m w = unfold apply in get_all-apply h (adds n v) m w

add_each-IsIndexed :
    (n : Text) (vs : List Text) (h : Headers) → IsIndexed h → IsIndexed (add_each n vs h)
add_each-IsIndexed n [] h w = w
add_each-IsIndexed n (v ∷ vs) h w = add_each-IsIndexed n vs (add h n v) (add-IsIndexed h n v w)

pub get_all-add_each :
    (n : Text) (vs : List Text) (h : Headers) (m : Text)
    → IsIndexed h
    → get_all (add_each n vs h) m
      ≡ (if text_eq (to_lower n) (to_lower m) then get_all h m ++ vs else get_all h m)
get_all-add_each n [] h m w = ground (arith, append-nil (get_all h m))
get_all-add_each n (v ∷ vs) h m w = ground (
  arith,
  get_all-add_each n vs (add h n v) m (add-IsIndexed h n v w),
  get_all-add h n v m w,
  append_assoc (get_all h m) (v ∷ []) vs,
)

get_all-new_headers : (m : Text) → get_all new_headers m ≡ []
unfolding apply_all
get_all-new_headers m = get_all-history [] m

-- The headers of a response, one method call after the other.
module _ (req : Message) where
  abbrev with_vias : Headers
  with_vias = add_each (lit "Via") (get_all req.headers (lit "Via")) new_headers

  abbrev with_from : Headers
  with_from = copy_header (lit "From") req.headers with_vias

  abbrev with_to : Headers
  with_to = copy_header (lit "To") req.headers with_from

  abbrev with_call_id : Headers
  with_call_id = copy_header (lit "Call-ID") req.headers with_to

  with_vias-IsIndexed : IsIndexed with_vias
  with_vias-IsIndexed =
      add_each-IsIndexed (lit "Via") (get_all req.headers (lit "Via")) new_headers
        new_headers-IsIndexed

  with_from-IsIndexed : IsIndexed with_from
  with_from-IsIndexed =
      set-IsIndexed with_vias (lit "From") (get req.headers (lit "From")) with_vias-IsIndexed

  with_to-IsIndexed : IsIndexed with_to
  with_to-IsIndexed =
      set-IsIndexed with_from (lit "To") (get req.headers (lit "To")) with_from-IsIndexed

  with_call_id-IsIndexed : IsIndexed with_call_id
  with_call_id-IsIndexed =
      set-IsIndexed with_to (lit "Call-ID") (get req.headers (lit "Call-ID")) with_to-IsIndexed

  -- Each name in turn: what the response holds is what the copies before it left.
  pub response_values :
      (m : Text) (c : ℤ) (r : Text)
      → get_all (create_response req c r).headers m ≡ (
          if text_eq (to_lower (lit "CSeq")) (to_lower m)
          then get req.headers (lit "CSeq") ∷ []
          else if text_eq (to_lower (lit "Call-ID")) (to_lower m)
          then get req.headers (lit "Call-ID") ∷ []
          else if text_eq (to_lower (lit "To")) (to_lower m)
          then get req.headers (lit "To") ∷ []
          else if text_eq (to_lower (lit "From")) (to_lower m)
          then get req.headers (lit "From") ∷ []
          else if text_eq (to_lower (lit "Via")) (to_lower m)
          then get_all req.headers (lit "Via")
          else [])
  unfolding create_response
  response_values m c r = rw (
    get_all-set with_call_id (lit "CSeq") (get req.headers (lit "CSeq")) m with_call_id-IsIndexed,
    get_all-set with_to (lit "Call-ID") (get req.headers (lit "Call-ID")) m with_to-IsIndexed,
    get_all-set with_from (lit "To") (get req.headers (lit "To")) m with_from-IsIndexed,
    get_all-set with_vias (lit "From") (get req.headers (lit "From")) m with_vias-IsIndexed,
    get_all-add_each (lit "Via") (get_all req.headers (lit "Via")) new_headers m
        new_headers-IsIndexed,
    get_all-new_headers m,
  )

-- The index of a response's headers is exact.
pub create_response-IsIndexed :
    (req : Message) (c : ℤ) (r : Text) → IsIndexed (create_response req c r).headers
unfolding create_response
create_response-IsIndexed req c r =
    set-IsIndexed (with_call_id req) (lit "CSeq") (get req.headers (lit "CSeq"))
      (with_call_id-IsIndexed req)

-- Whatever the request's headers are, a response made from it carries its code, the request's Via
-- values all and in order, and exactly one From, To, Call-ID and CSeq, with the request's value of each.
create_response-copies :
    (req : Message) (c : ℤ) (r : Text)
    → ((create_response req c r).status_code ≡ c)
      × (get_all (create_response req c r).headers (lit "Via") ≡ get_all req.headers (lit "Via"))
      × (get_all (create_response req c r).headers (lit "From") ≡ get req.headers (lit "From") ∷ [])
      × (get_all (create_response req c r).headers (lit "To") ≡ get req.headers (lit "To") ∷ [])
      × (get_all (create_response req c r).headers (lit "Call-ID")
          ≡ get req.headers (lit "Call-ID") ∷ [])
      × (get_all (create_response req c r).headers (lit "CSeq") ≡ get req.headers (lit "CSeq") ∷ [])
unfolding create_response to_lower
create_response-copies req c r = (
  refl,
  response_values req (lit "Via") c r,
  response_values req (lit "From") c r,
  response_values req (lit "To") c r,
  response_values req (lit "Call-ID") c r,
  response_values req (lit "CSeq") c r,
)

-- So the response and the request have the same top Via and the same method in CSeq.
create_response-reads :
    (req : Message) (c : ℤ) (r : Text)
    → (top_via (create_response req c r) ≡ top_via req)
      × (cseq_method (create_response req c r) ≡ cseq_method req)
unfolding top_via cseq_method
create_response-reads req c r =
    let copies = create_response-copies req c r in
    (rw copies.1, rw (get-first_value (create_response req c r).headers (lit "CSeq"), copies.5))
