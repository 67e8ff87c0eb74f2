-- ===== src/Relay/Announcing.antt =====
-- What an anchored description of pkg/media/media.go announces.
use funsip.Base.{
  ℕ, zero, suc, ◌+◌, ◌≤◌, ◌≡◌, refl, ap, ◌∙◌, Bool, true, false, ◌&&◌, Option, none, some,
  some-injective, List, [], ◌∷◌, get_elem?, arith, if◌then◌else◌, Bool-cases, Option-cases, inl,
  inr,
}
use funsip.Base.Int.{ℤ, pos}
use funsip.Text.{Text, lit, text_eq, fields, max_int}
use funsip.Text.Numbers.{atoi-itoa}
use funsip.Text.Words.{fields-last}
use funsip.Sip.Message.Wire.{int_text}
use funsip.Sdp.Data.{
  Sdp, Media, Connection, Attribute, has_attr, rtcp_attr, find_rtcp, rtcp_of, put_attr,
  set_rtcp_attr, rtcp_value,
}
use funsip.Sdp.Medias.{itoa-IsWord}
use funsip.Relay.Sockets.{Pair}
use funsip.Relay.Stream.{Stream, is_none}
use funsip.Relay.Anchor.{
  Session, Around, address_of, is_hold, rewrite_rtcp, at_ip, relayed, rtcp_port_of, explicit_or,
  next_port, is_refused, answer_stream, answer_media, anchor_answer, b_relayed,
}

rtcp_of-value : (p : ℕ) → p ≤ max_int → rtcp_of (fields (rtcp_value (pos p) [])) ≡ some (pos p, [])
rtcp_of-value p fits = rw (fields-last (int_text (pos p)) (itoa-IsWord p), atoi-itoa p fits) refl

find_rtcp-put_attr :
    (value : Text) (attrs : List Attribute)
    → find_rtcp (put_attr (lit "rtcp") value attrs) ≡ rtcp_of (fields value)
find_rtcp-put_attr value [] = refl
find_rtcp-put_attr value (a ∷ rest) = elim (Bool-cases (text_eq a.name (lit "rtcp"))) [
  | inl same ↦ simp same
  | inr other ↦ simp (other, find_rtcp-put_attr value rest)
]

-- A description that says its RTCP port says the new one afterwards.
rtcp_attr-set_rtcp_attr :
    (p : ℕ) (m : Media) → p ≤ max_int → rtcp_attr (set_rtcp_attr (pos p) [] m) ≡ some (pos p, [])
unfolding rtcp_attr set_rtcp_attr
rtcp_attr-set_rtcp_attr p m fits =
    find_rtcp-put_attr (rtcp_value (pos p) []) m.attributes ∙ rtcp_of-value p fits

set_rtcp_attr-rest :
    (p : ℤ) (m : Media)
    → ((set_rtcp_attr p [] m).port ≡ m.port) × ((set_rtcp_attr p [] m).connection ≡ m.connection)
unfolding set_rtcp_attr
set_rtcp_attr-rest p m = (refl, refl)

-- Whether a description of RTP and RTCP on one port says so twice.
abbrev pub says_both : Media → Bool
says_both m = has_attr m (lit "rtcp-mux") && (if is_none (rtcp_attr m) then false else true)

-- The ports that a description announces, and its address.
pub record Announces (rtp rtcp : ℤ) (connection : Option Connection) (m : Media) : Type 0 where
  pub port : m.port ≡ rtp
  pub address : m.connection ≡ connection
  pub rtcp_at : rtcp_port_of m ≡ rtcp

next_port-pos : (a b : ℕ) → b ≡ a + 1 → b ≤ max_int → next_port (pos a) ≡ pos b
next_port-pos a b next fits = ground arith

-- rewriteRTCP, on a description that has the new port already.
rewrite_rtcp-Announces :
    (a b : ℕ) (m : Media)
    → m.port ≡ pos a
    → b ≡ a + 1
    → b ≤ max_int
    → Announces
        (pos a)
        (if says_both m then pos a else pos b)
        m.connection
        (rewrite_rtcp (pos a) (pos b) m)
unfolding rewrite_rtcp
rewrite_rtcp-Announces a b m port next fits = elim (Option-cases (rtcp_attr m)) [
  | inl implicit ↦ elim (Bool-cases (has_attr m (lit "rtcp-mux"))) [
    | inl mux ↦ simp (implicit, mux) (unchanged implicit)
    | inr plain ↦ simp (implicit, plain) (unchanged implicit)
  ]
  | inr (found, explicit) ↦ elim (Bool-cases (has_attr m (lit "rtcp-mux"))) [
    | inl mux ↦ simp (explicit, mux) (changed a (omega (arith, next, fits)))
    | inr plain ↦ simp (explicit, plain) (changed b fits)
  ]
]
  where
    unchanged : rtcp_attr m ≡ none → Announces (pos a) (pos b) m.connection m
    unchanged implicit = record {
      port = port;
      address = refl;
      rtcp_at =
          ap (λ o. explicit_or o m.port) implicit
          ∙ ap (explicit_or none) port
          ∙ next_port-pos a b next fits;
    }

    changed :
        (p : ℕ) → p ≤ max_int → Announces (pos a) (pos p) m.connection (set_rtcp_attr (pos p) [] m)
    changed p small = record {
      port = (set_rtcp_attr-rest (pos p) m).0 ∙ port;
      address = (set_rtcp_attr-rest (pos p) m).1;
      rtcp_at =
          ap (λ o. explicit_or o (set_rtcp_attr (pos p) [] m).port)
            (rtcp_attr-set_rtcp_attr p m small);
    }

pub relayed-Announces :
    (local_ip : Text) (p : Pair) (m : Media)
    → p.rtcp_port ≡ p.rtp_port + 1
    → p.rtcp_port ≤ max_int
    → Announces
        (pos p.rtp_port)
        (if says_both m then pos p.rtp_port else pos p.rtcp_port)
        (at_ip local_ip m.connection)
        (relayed local_ip p m)
unfolding relayed has_attr rtcp_attr
relayed-Announces local_ip p m next fits =
    rewrite_rtcp-Announces p.rtp_port p.rtcp_port
      (record m { port = pos p.rtp_port; connection = at_ip local_ip m.connection }) refl next fits

-- The loop over the media, at one place.
answer_media-at :
    (around : Around) (sdp : Sdp) (ms : List Media) (sts : List Stream) (i : ℕ) (m : Media)
    (st : Stream)
    → get_elem? ms i ≡ some m
    → get_elem? sts i ≡ some st
    → (let done = answer_media around sdp ms sts in
        (get_elem? done.0 i ≡ some (b_relayed around m st))
        × (get_elem? done.1 i ≡ some (answer_stream around sdp m st)))
answer_media-at around sdp [] sts i m st em es = absurd cc
answer_media-at around sdp (n ∷ ms) [] i m st em es = absurd cc
answer_media-at around sdp (n ∷ ms) (t ∷ sts) zero m st em es = (
  ap some (
      ap (λ x. b_relayed around x t) (some-injective _ _ em)
      ∙ ap (b_relayed around m) (some-injective _ _ es)),
  ap some (
      ap (λ x. answer_stream around sdp x t) (some-injective _ _ em)
      ∙ ap (answer_stream around sdp m) (some-injective _ _ es)),
)
answer_media-at around sdp (n ∷ ms) (t ∷ sts) (suc i) m st em es =
    answer_media-at around sdp ms sts i m st em es

-- AnchorAnswer, on a media that is not refused and has its stream, whose B side has ports that follow one
-- another. The media then announces the relay in place of its sender: the port of the B side for RTP, the
-- relay's address where it has an address of its own, and for RTCP, in words or by the rule of the next
-- port, the port of the B side for RTCP, or that of RTP where both share it and the media says so. The
-- stream knows the sender's own addresses, as the media announced them, if ParseIP reads the address, and
-- whether the sender holds the call; so does the description's own address become the relay's.
anchored_answer-Announces :
    (around : Around) (sdp : Sdp) (s : Session) (i : ℕ) (m : Media) (st : Stream) (ip : List ℕ)
    → get_elem? sdp.media i ≡ some m
    → get_elem? s.streams i ≡ some st
    → is_refused m.port ≡ false
    → st.b_pair.rtcp_port ≡ st.b_pair.rtp_port + 1
    → st.b_pair.rtcp_port ≤ max_int
    → around.parse_ip (address_of m.connection (address_of sdp.connection [])) ≡ some ip
    → (let out = anchor_answer around sdp s in
        (n : Media) × (t : Stream) × (get_elem? out.0.media i ≡ some n)
        × (get_elem? out.1.streams i ≡ some t)
        × Announces
            (pos st.b_pair.rtp_port)
            (if says_both m then pos st.b_pair.rtp_port else pos st.b_pair.rtcp_port)
            (at_ip around.local_ip m.connection)
            n
        × (t.b_sdp_rtp ≡ some (record { ip = ip; port = m.port }))
        × (t.b_sdp_rtcp ≡ some (record { ip = ip; port = rtcp_port_of m }))
        × (t.hold_b ≡ is_hold m sdp.connection sdp.attributes)
        × (out.0.connection ≡ at_ip around.local_ip sdp.connection))
unfolding anchor_answer
anchored_answer-Announces around sdp s i m st ip em es taken next fits parses =
    let here = answer_media-at around sdp sdp.media s.streams i m st em es in
    let held = record st { hold_b = is_hold m sdp.connection sdp.attributes } in
    let known = record held {
      b_sdp_rtp = some (record { ip = ip; port = m.port });
      b_sdp_rtcp = some (record { ip = ip; port = rtcp_port_of m });
    } in
    let stream : answer_stream around sdp m st ≡ known = simp (taken, parses) in
    let media : b_relayed around m st ≡ relayed around.local_ip st.b_pair m = simp taken in
    (
      relayed around.local_ip st.b_pair m,
      known,
      here.0 ∙ ap some media,
      here.1 ∙ ap some stream,
      relayed-Announces around.local_ip st.b_pair m next fits,
      refl,
      refl,
      refl,
      refl,
    )
