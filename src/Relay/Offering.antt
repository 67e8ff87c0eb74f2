-- ===== src/Relay/Offering.antt =====
-- What AnchorOffer of pkg/media/media.go makes of an offer.
use funsip.Base.{
  ℕ, zero, suc, ◌-◌, ◌<◌, ◌==◌, ◌≡◌, refl, ap, ◌∙◌, sym, subst, Bool, true, false, Option, none,
  some, some-injective, List, [], ◌∷◌, length, length-append, get_elem?, get_elem?-append,
  get_elem?-update_same, get_elem?-update_other, update, arith, All, All-update, All-join,
  if◌then◌else◌, Bool-cases, inl, inr,
}
use mathlib.Core.Bool.{true≢false}
use funsip.Text.{Text}
use funsip.Sdp.Data.{Sdp, Media}
use funsip.Relay.Sockets.{Sockets, AllocateError}
use funsip.Relay.Stream.{Stream}
use funsip.Relay.Analyzer.{configure_analyzer}
use funsip.Relay.Anchor.{
  Session, Around, address_of, relayed, is_refused, ensure_stream, offer_stream, a_relayed,
  prepend_media, with_stream, offer_media, anchor_offer,
}
use funsip.Relay.Adding.{HasPorts, BindsPorts, Added, AddedTo, add_streams-AddedTo}
use funsip.Relay.Anchored.{
  Anchored, OfferedTo, OfferAnchored, refused-cons, others-cons, with_media-OfferAnchored,
}

get_elem?-there :
    (sts : List Stream) (i : ℕ) → i < length sts → (st : Stream) × (get_elem? sts i ≡ some st)
get_elem?-there [] i h = absurd (omega arith)
get_elem?-there (st ∷ sts) zero h = (st, refl)
get_elem?-there (st ∷ sts) (suc i) h = get_elem?-there sts i (omega arith)

module _ (around : Around) (sdp : Sdp) where
  offer_stream-Anchored :
      (s : Session) (m : Media) (st : Stream)
      → (let addr = address_of m.connection (address_of sdp.connection []) in
          Anchored around sdp m
            (relayed around.local_ip st.a_pair m)
            (offer_stream around s sdp addr m st))
  unfolding configure_analyzer
  offer_stream-Anchored s m st = record {
    media = refl;
    held = refl;
    known = λ ip parses. simp parses (refl, refl);
  }

  offer_stream-HasPorts :
      (s : Session) (addr : Text) (m : Media) (st : Stream)
      → HasPorts st
      → HasPorts (offer_stream around s sdp addr m st)
  unfolding configure_analyzer
  offer_stream-HasPorts s addr m st h = h

  -- A refused media, before the others.
  skipped-OfferedTo :
      (i : ℕ) (m : Media) (ms : List Media) (s : Session)
      (r : Option AllocateError × (List Media × (Session × Sockets)))
      → is_refused m.port ≡ true
      → OfferedTo around sdp (suc i) ms s r
      → OfferedTo around sdp i (m ∷ ms) s (prepend_media around m r)
  skipped-OfferedTo i m ms s (some e, rest) refused o = tt
  skipped-OfferedTo i m ms s (none, (out, (t, w))) refused o = record {
    kept = λ j st lt. o.kept j st (omega (arith, lt));
    ports = o.ports;
    refused_ones = refused-cons around sdp m m ms out (λ n e r. e) o.refused_ones;
    others =
        others-cons around sdp i m m ms t out
          (λ n e r. absurd (
            true≢false
              (sym refused ∙ ap (λ (x : Media). is_refused x.port) (some-injective m n e) ∙ r)))
          o.others;
  }

  -- A media with its stream, before the others.
  anchored-OfferedTo :
      (i : ℕ) (m : Media) (ms : List Media) (s s1 : Session) (st : Stream) (missing : ℕ)
      (r : Option AllocateError × (List Media × (Session × Sockets)))
      → is_refused m.port ≡ false
      → Added missing s s1
      → get_elem? s1.streams i ≡ some st
      → (let addr = address_of m.connection (address_of sdp.connection []) in
          OfferedTo around sdp
            (suc i)
            ms
            (record s1 { streams = update (offer_stream around s1 sdp addr m) i s1.streams })
            r)
      → OfferedTo around sdp i (m ∷ ms) s (prepend_media around (a_relayed around m (some st)) r)
  anchored-OfferedTo i m ms s s1 st missing (some e, rest) taken a here o = tt
  anchored-OfferedTo i m ms s s1 st missing (none, (out, (t, w))) taken a here o =
      let addr = address_of m.connection (address_of sdp.connection []) in
      let f = offer_stream around s1 sdp addr m in
      record {
        kept = λ j old lt e.
            let other : (i == j) ≡ false = ground (arith, lt) in
            o.kept j old (omega (arith, lt)) (
              get_elem?-update_other f i j s1.streams old other (
                subst (λ sts. get_elem? sts j ≡ some old) (sym a.behind)
                  (get_elem?-append s.streams a.news j old e)));
        ports = o.ports;
        refused_ones =
            refused-cons around sdp m (relayed around.local_ip st.a_pair m) ms out
              (λ n e r. absurd (
                true≢false (
                  sym r
                  ∙ ap (λ (x : Media). is_refused x.port) (sym (some-injective m n e))
                  ∙ taken)))
              o.refused_ones;
        others =
            others-cons around sdp i m (relayed around.local_ip st.a_pair m) ms t out
              (λ n e r. (
                relayed around.local_ip st.a_pair m,
                f st,
                refl,
                subst (λ p. get_elem? t.streams p ≡ some (f st)) (omega arith)
                    (o.kept i (f st) (omega arith) (get_elem?-update_same f i s1.streams st here)),
                subst (λ x. Anchored around sdp x (relayed around.local_ip st.a_pair m) (f st))
                    (some-injective m n e) (offer_stream-Anchored s1 m st),
              ))
              o.others;
      }

  with_stream-OfferedTo :
      (later : Session → Sockets → Option AllocateError × (List Media × (Session × Sockets)))
      (i : ℕ) (m : Media) (ms : List Media) (s : Session)
      (r : Option AllocateError × (Session × Sockets))
      → is_refused m.port ≡ false
      → All HasPorts s.streams
      → AddedTo (suc i - length s.streams) s r
      → ((t : Session) (w : Sockets)
          → All HasPorts t.streams
          → OfferedTo around sdp (suc i) ms t (later t w))
      → OfferedTo around sdp i (m ∷ ms) s (with_stream around later sdp i m ms r)
  with_stream-OfferedTo later i m ms s (some e, (t, w)) taken ports a next = tt
  with_stream-OfferedTo later i m ms s (none, (t, w)) taken ports a next =
      let addr = address_of m.connection (address_of sdp.connection []) in
      let anchored = record t { streams = update (offer_stream around t sdp addr m) i t.streams } in
      let (st, here) = get_elem?-there t.streams i (
        omega (
          arith,
          a.all_of_them,
          length-append s.streams a.news,
          ap (λ (x : List Stream). length x) a.behind,
        )) in
      let all : All HasPorts t.streams =
        subst (All HasPorts) (sym a.behind)
          (All-join HasPorts s.streams a.news ports a.with_ports) in
      let all_anchored =
        All-update HasPorts (offer_stream around t sdp addr m) i t.streams
          (λ x h. offer_stream-HasPorts t addr m x h) all in
      subst
        (λ o.
          OfferedTo around sdp i (m ∷ ms) s
            (prepend_media around (a_relayed around m o) (later anchored w)))
        (sym here)
        (anchored-OfferedTo i m ms s t st (suc i - length s.streams) (later anchored w) taken a here
          (next anchored w all_anchored))

  offer_media-OfferedTo :
      BindsPorts around.listen
      → (now i : ℕ) (ms : List Media) (s : Session) (w : Sockets) → All HasPorts s.streams
      → OfferedTo around sdp i ms s (offer_media around sdp now i ms s w)
  offer_media-OfferedTo binds now i [] s w ports = record {
    kept = λ j st lt e. e;
    ports = ports;
    refused_ones = λ j m e r. absurd cc;
    others = λ j m e r. absurd cc;
  }
  offer_media-OfferedTo binds now i (m ∷ ms) s w ports =
      let skipped = prepend_media around m (offer_media around sdp now (suc i) ms s w) in
      let anchored =
        with_stream around (offer_media around sdp now (suc i) ms) sdp i m ms
          (ensure_stream around i now s w) in
      elim (Bool-cases (is_refused m.port)) [
        | inl refused ↦
            subst
              (λ (b : Bool). OfferedTo around sdp i (m ∷ ms) s (if b then skipped else anchored))
              (sym refused)
              (skipped-OfferedTo i m ms s (offer_media around sdp now (suc i) ms s w) refused
                (offer_media-OfferedTo binds now (suc i) ms s w ports))
        | inr taken ↦
            subst
              (λ (b : Bool). OfferedTo around sdp i (m ∷ ms) s (if b then skipped else anchored))
              (sym taken)
              (with_stream-OfferedTo (offer_media around sdp now (suc i) ms) i m ms s
                (ensure_stream around i now s w) taken ports
                (add_streams-AddedTo around binds (suc i - length s.streams) now s w)
                (offer_media-OfferedTo binds now (suc i) ms))
      ]

-- AnchorOffer, where bound ports are ports of UDP. If it succeeds, then of the media of the offer those
-- with port 0 are as they were, and each of the others has a stream at its place whose sockets on each
-- side have ports that follow one another, and is rewritten for the ports of its A side. In words or by
-- the rule of the next port it then announces these ports for RTP and RTCP, or that of RTP for both where
-- they share it and the media says so. The stream knows whether the sender holds the call, and, where
-- ParseIP reads it, the address that the media had announced for RTP and for RTCP. So it is on a first
-- offer and on every later one, with more media or fewer.
pub offer_anchors_all :
    (around : Around) (now : ℕ) (sdp : Sdp) (s : Session) (w : Sockets)
    → BindsPorts around.listen
    → All HasPorts s.streams
    → OfferAnchored around sdp (anchor_offer around now sdp s w)
unfolding anchor_offer
offer_anchors_all around now sdp s w binds ports =
    with_media-OfferAnchored around sdp s (offer_media around sdp now 0 sdp.media s w)
      (offer_media-OfferedTo around sdp binds now 0 sdp.media s w ports)
