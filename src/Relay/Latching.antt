-- ===== src/Relay/Latching.antt =====
-- Where relay of pkg/media/media.go forwards to.
use funsip.Base.{
  ℕ, ◌≡◌, refl, ap, ◌∙◌, sym, subst, Bool, false, Option, none, some, List, [], ◌∷◌, if◌then◌else◌,
}
use funsip.Audio.Player.{UdpAddr}
use funsip.Relay.Stream.{Stream, Socket, a_rtp, a_rtcp, b_rtp, b_rtcp}
use funsip.Relay.Forwarding.{Datagram, Sent, peer_src, peer_sdp, opposite, received, relay, sent_to}
use funsip.Relay.Places.{is_same, source_at, received-places}

-- The datagrams that a stream has read, each with its time.
abbrev pub relay_all : List ℕ → List (Datagram × ℕ) → Stream → Stream
relay_all local_ip [] s = s
relay_all local_ip ((d, now) ∷ rest) s = relay_all local_ip rest (relay local_ip d now s).0

-- The source of the last of them that a socket has read.
abbrev pub last_source : Socket → List (Datagram × ℕ) → Option UdpAddr → Option UdpAddr
last_source k [] before = before
last_source k ((d, now) ∷ rest) before = last_source k rest (source_at k d before)

relay-open :
    (local_ip : List ℕ) (d : Datagram) (now : ℕ) (s : Stream)
    → s.closed ≡ false
    → relay local_ip d now s ≡ (
      received local_ip d now s,
      sent_to d (
          if s.symmetric
          then peer_src d.at (received local_ip d now s)
          else peer_sdp d.at (received local_ip d now s)),
    )
unfolding relay
relay-open local_ip d now s e =
    let after = received local_ip d now s in
    ap
      (λ (shut : Bool).
        if shut
        then (s, none)
        else (after, sent_to d (if s.symmetric then peer_src d.at after else peer_sdp d.at after)))
      e

-- An open stream after what it has read.
record Went (history : List (Datagram × ℕ)) (s t : Stream) : Type 0 where
  symmetric : t.symmetric ≡ s.symmetric
  closed : t.closed ≡ false
  peers : (k : Socket) → peer_src k t ≡ last_source (opposite k) history (peer_src k s)
  sdps : (k : Socket) → peer_sdp k t ≡ peer_sdp k s

relay_all-Went :
    (local_ip : List ℕ) (history : List (Datagram × ℕ)) (s : Stream)
    → s.closed ≡ false
    → Went history s (relay_all local_ip history s)
relay_all-Went local_ip [] s e = record {
  symmetric = refl;
  closed = e;
  peers = λ k. refl;
  sdps = λ k. refl;
}
relay_all-Went local_ip ((d, now) ∷ rest) s e =
    let step = ap (λ (r : Stream × Option Sent). r.0) (relay-open local_ip d now s e) in
    let (symmetric, closed, peers, sdps) = received-places local_ip d now s in
    let later = relay_all-Went local_ip rest (received local_ip d now s) (closed ∙ e) in
    subst (λ t. Went ((d, now) ∷ rest) s (relay_all local_ip rest t)) (sym step)
      (record {
        symmetric = later.symmetric ∙ symmetric;
        closed = later.closed;
        peers = λ k. later.peers k ∙ ap (last_source (opposite k) rest) (peers k);
        sdps = λ k. later.sdps k ∙ sdps k;
      })

opposite-other : (k : Socket) → is_same (opposite k) k ≡ false
opposite-other a_rtp = refl
opposite-other a_rtcp = refl
opposite-other b_rtp = refl
opposite-other b_rtcp = refl

-- An open stream forwards what one of its sockets reads, after any history of datagrams on all four
-- sockets and whatever its analyzers make of them: it writes the same bytes on the opposite socket of
-- the same kind. In symmetric mode the destination is the source of the last datagram which that
-- opposite socket has read, so that it follows a peer whose address changes; in the other mode it is the
-- peer's address from the SDP. Without such an address nothing is written.
pub forwards_to_peer :
    (local_ip : List ℕ) (history : List (Datagram × ℕ)) (d : Datagram) (now : ℕ) (s : Stream)
    → s.closed ≡ false
    → (relay local_ip d now (relay_all local_ip history s)).1
      ≡ sent_to d (
          if s.symmetric
          then last_source (opposite d.at) history (peer_src d.at s)
          else peer_sdp d.at s)
forwards_to_peer local_ip history d now s e =
    let t = relay_all local_ip history s in
    let went = relay_all-Went local_ip history s e in
    let (symmetric, closed, peers, sdps) = received-places local_ip d now t in
    let unchanged : source_at (opposite d.at) d (peer_src d.at t) ≡ peer_src d.at t =
      ap (λ (b : Bool). if b then some d.src else peer_src d.at t) (opposite-other d.at) in
    let src = peers d.at ∙ unchanged ∙ went.peers d.at in
    let sdp = sdps d.at ∙ went.sdps d.at in
    ap (λ (r : Stream × Option Sent). r.1) (relay-open local_ip d now t went.closed)
    ∙ ap
        (λ (b : Bool). sent_to d (
          if b
          then peer_src d.at (received local_ip d now t)
          else peer_sdp d.at (received local_ip d now t)))
        went.symmetric
    ∙ ap (λ x. sent_to d (if s.symmetric then x else peer_sdp d.at (received local_ip d now t))) src
    ∙ ap
        (λ y.
          sent_to d
            (if s.symmetric then last_source (opposite d.at) history (peer_src d.at s) else y))
        sdp
