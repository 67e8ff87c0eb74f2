-- ===== src/Examples/RelayRuns.antt =====
-- The relay of media (pkg/media/media.go) on concrete inputs.
use funsip.Base.{
  ℕ, ◌≡◌, refl, ◌+◌, ◌%◌, ◌==◌, true, false, Option, none, some, List, [], ◌∷◌, map, get_elem?,
  arith, if◌then◌else◌,
}
use funsip.Base.Int.{ℤ, pos}
use funsip.Text.{lit}
use funsip.Sdp.Data.{Sdp, new_sdp, Media, Attribute}
use funsip.Audio.Player.{UdpAddr}
use funsip.Relay.Sockets.{Sockets, Pair, allocate}
use funsip.Relay.Allocation.{Allocated, allocation_leaks_nothing}
use funsip.Relay.Stream.{Stream, default_options, new_stream, a_rtp, b_rtp, b_rtcp}
use funsip.Relay.Forwarding.{Datagram, relay}
use funsip.Relay.Latching.{relay_all, forwards_to_peer}
use funsip.Relay.Anchor.{Session, Around, anchor_offer, close_streams}
use funsip.Relay.Adding.{BindsPorts}
use funsip.Relay.Anchored.{OfferAnchored}
use funsip.Relay.Offering.{offer_anchors_all}
use funsip.Relay.Manager.{Manager, get_session, sweep_session}
use funsip.Relay.Sweeping.{sweep_closes_idle}

-- A system that binds the ports in turn, and has one taken.
abbrev listen_here : ℕ → ℕ → Option ℕ
listen_here call asked =
    if call == 1
    then none
    else if asked == 0
    then some (30000 + call % 1000)
    else some (asked % 65536)

listen_here-BindsPorts : BindsPorts listen_here
listen_here-BindsPorts call asked port e = ground arith

abbrev no_sockets : Sockets
no_sockets = record { calls = 0; open_now = [] }

allocation_leaks_nothing_example :
    Allocated listen_here no_sockets (allocate listen_here no_sockets)
allocation_leaks_nothing_example = allocation_leaks_nothing listen_here no_sockets tt

abbrev pair_at : ℕ → Pair
pair_at port = record { rtp = port; rtcp = port + 1; rtp_port = port; rtcp_port = port + 1 }

abbrev fresh : Stream
fresh = new_stream default_options 5 (pair_at 30000, pair_at 30002)

abbrev phone : ℕ → UdpAddr
phone port = record { ip = 10 ∷ 0 ∷ 0 ∷ 7 ∷ []; port = pos port }

-- The phone behind the B side moves from one port to another.
abbrev moves : List (Datagram × ℕ)
moves =
    (record { at = b_rtp; src = phone 4000; bytes = 1 ∷ [] }, 10)
    ∷ (record { at = b_rtcp; src = phone 4001; bytes = 2 ∷ [] }, 11)
    ∷ (record { at = b_rtp; src = phone 5000; bytes = 3 ∷ [] }, 12)
    ∷ []

forwards_to_peer_example :
    (relay []
      (record { at = a_rtp; src = phone 9; bytes = 4 ∷ [] })
      13
      (relay_all [] moves fresh)).1
    ≡ some (record { by = b_rtp; to = phone 5000; bytes = 4 ∷ [] })
forwards_to_peer_example =
    forwards_to_peer [] moves (record { at = a_rtp; src = phone 9; bytes = 4 ∷ [] }) 13 fresh refl

abbrev around : Around
around = record {
  local_ip = lit "10.0.0.1";
  parse_ip = λ address. some (10 ∷ 0 ∷ 0 ∷ 7 ∷ []);
  to4 = λ ip. some ip;
  listen = listen_here;
  creates = λ path. true;
  join_path = λ dir name. name;
}

-- One stream is idle, the other is on hold.
abbrev session : Session
session = record {
  call_id = lit "c1";
  streams = fresh ∷ record fresh { hold_a = true } ∷ [];
  opts = default_options;
}

abbrev manager : Manager
manager = record {
  sessions = (lit "c1", 0) ∷ [];
  heap = session ∷ [];
  sockets = record { calls = 40000; open_now = 30000 ∷ 30001 ∷ 30002 ∷ 30003 ∷ 7 ∷ [] };
  sweeping = true;
}

sweep_closes_idle_example :
    let after = sweep_session around 200000000000 0 manager in
    (streams : List Stream) × (get_elem? after.heap 0 ≡ some (record session { streams = streams }))
    × (map (λ (st : Stream). st.closed) streams ≡ true ∷ false ∷ [])
    × (after.sockets ≡ close_streams around (fresh ∷ []) manager.sockets)
    × (get_session (lit "c1") after ≡ some 0)
sweep_closes_idle_example = sweep_closes_idle around 200000000000 0 session manager refl refl

abbrev audio : ℤ → List Attribute → Media
audio port attributes = record {
  type = lit "audio";
  port = port;
  port_count = pos 0;
  proto = lit "RTP/AVP";
  formats = lit "0" ∷ [];
  info = [];
  connection = none;
  bandwidth = [];
  key = [];
  attributes = attributes;
}

abbrev offer : Sdp
offer = record new_sdp {
  connection =
      some (record { net_type = lit "IN"; addr_type = lit "IP4"; address = lit "10.0.0.7" });
  media =
      audio (pos 4000) (record { name = lit "rtcp"; value = lit "4011" } ∷ [])
      ∷ audio (pos 0) []
      ∷ audio (pos 4004) []
      ∷ [];
}

abbrev new_session : Session
new_session = record { call_id = lit "c2"; streams = []; opts = default_options }

offer_anchors_all_example :
    OfferAnchored around offer (anchor_offer around 5 offer new_session no_sockets)
offer_anchors_all_example =
    offer_anchors_all around 5 offer new_session no_sockets listen_here-BindsPorts tt
