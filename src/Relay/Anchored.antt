-- ===== src/Relay/Anchored.antt =====
-- What is said of an offer that AnchorOffer of pkg/media/media.go has anchored.
use funsip.Base.{
  ℕ, zero, suc, ◌+◌, ◌<◌, ◌≡◌, refl, sym, subst, true, false, Option, none, some, List, [], ◌∷◌,
  get_elem?, arith, All, All-get_elem?, if◌then◌else◌,
}
use funsip.Base.Int.{pos}
use funsip.Sdp.Data.{Sdp, Media}
use funsip.Relay.Sockets.{Sockets, AllocateError}
use funsip.Relay.Stream.{Stream}
use funsip.Relay.Anchor.{
  Session, Around, address_of, is_hold, at_ip, relayed, rtcp_port_of, is_refused, with_media,
}
use funsip.Relay.Adding.{HasPorts, AreConsecutive}
use funsip.Relay.Announcing.{Announces, relayed-Announces, says_both}

-- A media that is anchored, with its stream.
pub record Anchored (around : Around) (sdp : Sdp) (m n : Media) (st : Stream) : Type 0 where
  pub media : n ≡ relayed around.local_ip st.a_pair m
  pub held : st.hold_a ≡ is_hold m sdp.connection sdp.attributes
  pub known :
      (ip : List ℕ)
      → around.parse_ip (address_of m.connection (address_of sdp.connection [])) ≡ some ip
      → (st.a_sdp_rtp ≡ some (record { ip = ip; port = m.port }))
        × (st.a_sdp_rtcp ≡ some (record { ip = ip; port = rtcp_port_of m }))

abbrev pub AnchoredAt : Around → Sdp → ℕ → List Media → Session → List Media → ℕ → Type 0
AnchoredAt around sdp i ms t out j =
    (m : Media)
    → get_elem? ms j ≡ some m
    → is_refused m.port ≡ false
    → (n : Media) × (st : Stream) × (get_elem? out j ≡ some n)
      × (get_elem? t.streams (i + j) ≡ some st)
      × Anchored around sdp m n st

abbrev pub RefusedAt : List Media → List Media → ℕ → Type 0
RefusedAt ms out j =
    (m : Media) → get_elem? ms j ≡ some m → is_refused m.port ≡ true → get_elem? out j ≡ some m

-- What the loop from place i on has made of the media ms, the session s before.
pub record Offered (around : Around) (sdp : Sdp) (i : ℕ) (ms : List Media) (s : Session)
    (out : List Media) (t : Session) : Type 0 where
  pub kept :
      (j : ℕ) (st : Stream)
      → j < i
      → get_elem? s.streams j ≡ some st
      → get_elem? t.streams j ≡ some st
  pub ports : All HasPorts t.streams
  pub refused_ones : (j : ℕ) → RefusedAt ms out j
  pub others : (j : ℕ) → AnchoredAt around sdp i ms t out j

abbrev pub OfferedTo :
    Around
    → Sdp
    → ℕ
    → List Media
    → Session
    → Option AllocateError × (List Media × (Session × Sockets))
    → Type 0
OfferedTo around sdp i ms s (some e, rest) = Unit
OfferedTo around sdp i ms s (none, (out, (t, w))) = Offered around sdp i ms s out t

module _ (around : Around) (sdp : Sdp) where
  pub refused-cons :
      (m n : Media) (ms out : List Media)
      → RefusedAt (m ∷ ms) (n ∷ out) 0
      → ((j : ℕ) → RefusedAt ms out j)
      → (j : ℕ) → RefusedAt (m ∷ ms) (n ∷ out) j
  refused-cons m n ms out first later zero = first
  refused-cons m n ms out first later (suc j) = later j

  pub others-cons :
      (i : ℕ) (m n : Media) (ms : List Media) (t : Session) (out : List Media)
      → AnchoredAt around sdp i (m ∷ ms) t (n ∷ out) 0
      → ((j : ℕ) → AnchoredAt around sdp (suc i) ms t out j)
      → (j : ℕ) → AnchoredAt around sdp i (m ∷ ms) t (n ∷ out) j
  others-cons i m n ms t out first later zero = first
  others-cons i m n ms t out first later (suc j) = λ x e r.
      let (y, st, eo, es, a) = later j x e r in
      (y, st, eo, subst (λ p. get_elem? t.streams p ≡ some st) (omega arith) es, a)

-- The offer as AnchorOffer hands it back, with the session; of an error nothing is said.
abbrev pub OfferAnchored :
    Around → Sdp → Option AllocateError × (Sdp × (Session × Sockets)) → Type 0
OfferAnchored around sdp (some e, rest) = Unit
OfferAnchored around sdp (none, (out, (t, w))) =
    All HasPorts t.streams
    × (out.connection ≡ at_ip around.local_ip sdp.connection)
    × ((j : ℕ) (m : Media)
        → get_elem? sdp.media j ≡ some m
        → is_refused m.port ≡ true
        → get_elem? out.media j ≡ some m)
    × ((j : ℕ) (m : Media)
        → get_elem? sdp.media j ≡ some m
        → is_refused m.port ≡ false
        → (n : Media) × (st : Stream) × (get_elem? out.media j ≡ some n)
          × (get_elem? t.streams j ≡ some st)
          × Anchored around sdp m n st
          × Announces (pos st.a_pair.rtp_port)
              (if says_both m then pos st.a_pair.rtp_port else pos st.a_pair.rtcp_port)
              (at_ip around.local_ip m.connection) n)

Anchored-Announces :
    (around : Around) (sdp : Sdp) (m n : Media) (st : Stream)
    → Anchored around sdp m n st
    → AreConsecutive st.a_pair
    → Announces
        (pos st.a_pair.rtp_port)
        (if says_both m then pos st.a_pair.rtp_port else pos st.a_pair.rtcp_port)
        (at_ip around.local_ip m.connection)
        n
Anchored-Announces around sdp m n st a p =
    subst
      (Announces (pos st.a_pair.rtp_port)
        (if says_both m then pos st.a_pair.rtp_port else pos st.a_pair.rtcp_port)
        (at_ip around.local_ip m.connection))
      (sym a.media) (relayed-Announces around.local_ip st.a_pair m p.0 p.1)

pub with_media-OfferAnchored :
    (around : Around) (sdp : Sdp) (s : Session)
    (r : Option AllocateError × (List Media × (Session × Sockets)))
    → OfferedTo around sdp 0 sdp.media s r
    → OfferAnchored around sdp (with_media around sdp r)
with_media-OfferAnchored around sdp s (some e, (ms, (t, w))) o = tt
with_media-OfferAnchored around sdp s (none, (ms, (t, w))) o = (
  o.ports,
  refl,
  o.refused_ones,
  λ j m e r.
      let (n, st, eo, es, a) = o.others j m e r in
      let here = subst (λ p. get_elem? t.streams p ≡ some st) (omega arith) es in
      let ports = All-get_elem? HasPorts t.streams j st o.ports here in
      (n, st, eo, here, a, Anchored-Announces around sdp m n st a ports.0),
)
