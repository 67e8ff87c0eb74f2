-- ===== src/Relay/Places.antt =====
-- What a datagram changes of the fields by which relay of pkg/media/media.go finds the destination.
use funsip.Base.{
  ℕ, ◌/◌, ◌≡◌, refl, ◌∙◌, Bool, true, false, Option, none, some, List, if◌then◌else◌, if-both,
}
use funsip.Rtp.{Header, parse}
use funsip.Base.Wire.{drop}
use funsip.Capture.{PcapWriter}
use funsip.Audio.Player.{UdpAddr}
use funsip.Relay.Stream.{Stream, Socket, a_rtp, a_rtcp, b_rtp, b_rtcp}
use funsip.Relay.Analyzer.{Speaker, by_a, by_b, observe_rtp, for_speaker, of_packet, has_tracker}
use funsip.Relay.Forwarding.{
  Datagram, store_src, peer_src, peer_sdp, opposite, received, observe_from, capture_some, port_of,
}

-- The fields of a stream that decide where it forwards to.
record SamePlaces (s t : Stream) : Type 0 where
  symmetric : t.symmetric ≡ s.symmetric
  closed : t.closed ≡ s.closed
  peers : (k : Socket) → peer_src k t ≡ peer_src k s
  sdps : (k : Socket) → peer_sdp k t ≡ peer_sdp k s

itself-SamePlaces : (s : Stream) → SamePlaces s s
itself-SamePlaces s = record {
  symmetric = refl;
  closed = refl;
  peers = λ k. refl;
  sdps = λ k. refl;
}

-- What a speaker's packet changes.
for_speaker-places :
    (speaker : Speaker) (k : Socket) (h : Header) (payload : List ℕ) (now : ℕ) (s : Stream)
    → (peer_src k (for_speaker speaker h payload now s) ≡ peer_src k s)
      × (peer_sdp k (for_speaker speaker h payload now s) ≡ peer_sdp k s)
for_speaker-places by_a a_rtp h payload now s = (refl, refl)
for_speaker-places by_a a_rtcp h payload now s = (refl, refl)
for_speaker-places by_a b_rtp h payload now s = (refl, refl)
for_speaker-places by_a b_rtcp h payload now s = (refl, refl)
for_speaker-places by_b a_rtp h payload now s = (refl, refl)
for_speaker-places by_b a_rtcp h payload now s = (refl, refl)
for_speaker-places by_b b_rtp h payload now s = (refl, refl)
for_speaker-places by_b b_rtcp h payload now s = (refl, refl)

for_speaker-SamePlaces :
    (speaker : Speaker) (h : Header) (payload : List ℕ) (now : ℕ) (s : Stream)
    → SamePlaces s (for_speaker speaker h payload now s)
for_speaker-SamePlaces by_a h payload now s = record {
  symmetric = refl;
  closed = refl;
  peers = λ k. (for_speaker-places by_a k h payload now s).0;
  sdps = λ k. (for_speaker-places by_a k h payload now s).1;
}
for_speaker-SamePlaces by_b h payload now s = record {
  symmetric = refl;
  closed = refl;
  peers = λ k. (for_speaker-places by_b k h payload now s).0;
  sdps = λ k. (for_speaker-places by_b k h payload now s).1;
}

of_packet-SamePlaces :
    (h : Option Header) (speaker : Speaker) (buf : List ℕ) (now : ℕ) (s : Stream)
    → SamePlaces s (of_packet h speaker buf now s)
of_packet-SamePlaces none speaker buf now s = itself-SamePlaces s
of_packet-SamePlaces (some h) speaker buf now s =
    for_speaker-SamePlaces speaker h (drop h.payload_offset buf) now s

observe_rtp-SamePlaces :
    (speaker : Speaker) (buf : List ℕ) (now : ℕ) (s : Stream)
    → SamePlaces s (observe_rtp speaker buf now s)
unfolding observe_rtp
observe_rtp-SamePlaces speaker buf now s =
    if-both (SamePlaces s) (has_tracker s) {x = of_packet (parse buf) speaker buf now s} {y = s}
      (of_packet-SamePlaces (parse buf) speaker buf now s) (itself-SamePlaces s)

observe_from-SamePlaces :
    (k : Socket) (buf : List ℕ) (now : ℕ) (s : Stream) → SamePlaces s (observe_from k buf now s)
observe_from-SamePlaces a_rtp buf now s = observe_rtp-SamePlaces by_b buf now s
observe_from-SamePlaces b_rtp buf now s = observe_rtp-SamePlaces by_a buf now s
observe_from-SamePlaces a_rtcp buf now s = itself-SamePlaces s
observe_from-SamePlaces b_rtcp buf now s = itself-SamePlaces s

-- The socket that a socket forwards for and the datagrams that it reads.
abbrev pub is_same : Socket → Socket → Bool
is_same a_rtp a_rtp = true
is_same a_rtcp a_rtcp = true
is_same b_rtp b_rtp = true
is_same b_rtcp b_rtcp = true
is_same _ _ = false

abbrev pub source_at : Socket → Datagram → Option UdpAddr → Option UdpAddr
source_at k d before = if is_same k d.at then some d.src else before

store_src-places :
    (at k : Socket) (src : UdpAddr) (s : Stream)
    → (peer_src k (store_src at src s)
        ≡ (if is_same (opposite k) at then some src else peer_src k s))
      × (peer_sdp k (store_src at src s) ≡ peer_sdp k s)
store_src-places a_rtp a_rtp src s = (refl, refl)
store_src-places a_rtp a_rtcp src s = (refl, refl)
store_src-places a_rtp b_rtp src s = (refl, refl)
store_src-places a_rtp b_rtcp src s = (refl, refl)
store_src-places a_rtcp a_rtp src s = (refl, refl)
store_src-places a_rtcp a_rtcp src s = (refl, refl)
store_src-places a_rtcp b_rtp src s = (refl, refl)
store_src-places a_rtcp b_rtcp src s = (refl, refl)
store_src-places b_rtp a_rtp src s = (refl, refl)
store_src-places b_rtp a_rtcp src s = (refl, refl)
store_src-places b_rtp b_rtp src s = (refl, refl)
store_src-places b_rtp b_rtcp src s = (refl, refl)
store_src-places b_rtcp a_rtp src s = (refl, refl)
store_src-places b_rtcp a_rtcp src s = (refl, refl)
store_src-places b_rtcp b_rtp src s = (refl, refl)
store_src-places b_rtcp b_rtcp src s = (refl, refl)

noted-places :
    (k : Socket) (now : ℕ) (pcap : Option PcapWriter) (s : Stream)
    → (peer_src k (record s { last_activity = now; pcap = pcap }) ≡ peer_src k s)
      × (peer_sdp k (record s { last_activity = now; pcap = pcap }) ≡ peer_sdp k s)
noted-places a_rtp now pcap s = (refl, refl)
noted-places a_rtcp now pcap s = (refl, refl)
noted-places b_rtp now pcap s = (refl, refl)
noted-places b_rtcp now pcap s = (refl, refl)

store_src-flags :
    (at : Socket) (src : UdpAddr) (s : Stream)
    → ((store_src at src s).symmetric ≡ s.symmetric) × ((store_src at src s).closed ≡ s.closed)
store_src-flags a_rtp src s = (refl, refl)
store_src-flags a_rtcp src s = (refl, refl)
store_src-flags b_rtp src s = (refl, refl)
store_src-flags b_rtcp src s = (refl, refl)

-- What relay has changed when it looks for the destination.
pub received-places :
    (local_ip : List ℕ) (d : Datagram) (now : ℕ) (s : Stream)
    → (let after = received local_ip d now s in
        (after.symmetric ≡ s.symmetric)
        × (after.closed ≡ s.closed)
        × ((k : Socket) → peer_src k after ≡ source_at (opposite k) d (peer_src k s))
        × ((k : Socket) → peer_sdp k after ≡ peer_sdp k s))
received-places local_ip d now s =
    let pcap = capture_some local_ip d (port_of d.at s) now s.pcap in
    let stored = store_src d.at d.src s in
    let same =
      observe_from-SamePlaces d.at d.bytes (now / 1000000)
        (record stored { last_activity = now; pcap = pcap }) in
    let flags = store_src-flags d.at d.src s in
    (
      same.symmetric ∙ flags.0,
      same.closed ∙ flags.1,
      λ k. same.peers k ∙ (noted-places k now pcap stored).0 ∙ (store_src-places d.at k d.src s).0,
      λ k. same.sdps k ∙ (noted-places k now pcap stored).1 ∙ (store_src-places d.at k d.src s).1,
    )
