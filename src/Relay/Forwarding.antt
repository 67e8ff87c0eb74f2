-- ===== src/Relay/Forwarding.antt =====
-- start and relay of pkg/media/media.go: what a stream makes of a datagram that one of its sockets
-- reads. Times are nanoseconds. `local_ip` is the address that the sockets are bound to.
use funsip.Base.{ℕ, ◌/◌, ◌%◌, Option, none, some, List, if◌then◌else◌}
use funsip.Capture.{PcapWriter, capture}
use funsip.Audio.Player.{UdpAddr}
use funsip.Relay.Stream.{Stream, Socket, a_rtp, a_rtcp, b_rtp, b_rtcp}
use funsip.Relay.Analyzer.{by_a, by_b, observe_rtp, to_width}

abbrev pub store_src : Socket → UdpAddr → Stream → Stream
store_src a_rtp src s = record s { b_src_rtp = some src }
store_src a_rtcp src s = record s { b_src_rtcp = some src }
store_src b_rtp src s = record s { a_src_rtp = some src }
store_src b_rtcp src s = record s { a_src_rtcp = some src }

abbrev pub peer_src : Socket → Stream → Option UdpAddr
peer_src a_rtp s = s.a_src_rtp
peer_src a_rtcp s = s.a_src_rtcp
peer_src b_rtp s = s.b_src_rtp
peer_src b_rtcp s = s.b_src_rtcp

abbrev pub peer_sdp : Socket → Stream → Option UdpAddr
peer_sdp a_rtp s = s.a_sdp_rtp
peer_sdp a_rtcp s = s.a_sdp_rtcp
peer_sdp b_rtp s = s.b_sdp_rtp
peer_sdp b_rtcp s = s.b_sdp_rtcp

-- The socket that forwards what another has read.
abbrev pub opposite : Socket → Socket
opposite a_rtp = b_rtp
opposite a_rtcp = b_rtcp
opposite b_rtp = a_rtp
opposite b_rtcp = a_rtcp

abbrev pub port_of : Socket → Stream → ℕ
port_of a_rtp s = s.a_pair.rtp_port
port_of a_rtcp s = s.a_pair.rtcp_port
port_of b_rtp s = s.b_pair.rtp_port
port_of b_rtcp s = s.b_pair.rtcp_port

abbrev pub observe_from : Socket → List ℕ → ℕ → Stream → Stream
observe_from a_rtp buf now s = observe_rtp by_b buf now s
observe_from b_rtp buf now s = observe_rtp by_a buf now s
observe_from _ buf now s = s

pub record Datagram : Type 0 where
  pub at : Socket
  pub src : UdpAddr
  pub bytes : List ℕ

-- What is written: the socket, the destination, and the bytes.
pub record Sent : Type 0 where
  pub by : Socket
  pub to : UdpAddr
  pub bytes : List ℕ

abbrev pub sent_to : Datagram → Option UdpAddr → Option Sent
sent_to d none = none
sent_to d (some dst) = some (record { by = opposite d.at; to = dst; bytes = d.bytes })

abbrev pub capture_some : List ℕ → Datagram → ℕ → ℕ → Option PcapWriter → Option PcapWriter
capture_some local_ip d port now none = none
capture_some local_ip d port now (some w) = some (
    capture
      (record {
        seconds = now / 1000000000;
        nanos = now % 1000000000;
        src_ip = d.src.ip;
        src_port = to_width 65536 d.src.port;
        dst_ip = local_ip;
        dst_port = port;
        payload = d.bytes;
      })
      w)

abbrev pub received : List ℕ → Datagram → ℕ → Stream → Stream
received local_ip d now s =
    let noted = record (store_src d.at d.src s) {
      last_activity = now;
      pcap = capture_some local_ip d (port_of d.at s) now s.pcap;
    } in
    observe_from d.at d.bytes (now / 1000000) noted

-- One turn of relay's loop, on a datagram; a closed stream reads none.
unfoldable pub relay : List ℕ → Datagram → ℕ → Stream → Stream × Option Sent
relay local_ip d now s =
    let after = received local_ip d now s in
    let dst = if s.symmetric then peer_src d.at after else peer_sdp d.at after in
    if s.closed then (s, none) else (after, sent_to d dst)
