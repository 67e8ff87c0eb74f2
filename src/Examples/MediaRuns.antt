-- ===== src/Examples/MediaRuns.antt =====
-- The analyzer of RTP (pkg/media/analyzer.go) on concrete inputs.
use funsip.Base.{ℕ, ◌≡◌, false, List, [], ◌∷◌}
use funsip.Rtp.{Header}
use funsip.Media.Dtmf.{new_dtmf_tracker, flush}
use funsip.Media.Events.{Packet, observe_packets, event_packets, reported, reports_count_packets}

abbrev numbered : ℕ → ℕ → Header
numbered sequence timestamp = record {
  version = 2;
  padding = false;
  extension = false;
  csrc_count = 0;
  marker = false;
  payload_type = 101;
  sequence = sequence;
  timestamp = timestamp;
  ssrc = 9;
  payload_offset = 12;
}

-- The second packet of the digit 5 ends it; the digit 6 never ends, and one packet is too short.
abbrev two_digits : List Packet
two_digits =
    record { header = numbered 1 800; payload = 5 ∷ 10 ∷ 1 ∷ 64 ∷ []; at = 0 }
    ∷ record { header = numbered 2 800; payload = 5 ∷ 138 ∷ 3 ∷ 32 ∷ []; at = 20 }
    ∷ record { header = numbered 3 1600; payload = 6 ∷ 10 ∷ 1 ∷ 64 ∷ []; at = 90 }
    ∷ record { header = numbered 4 1600; payload = 6 ∷ []; at = 110 }
    ∷ []

reports_count_packets_example :
    let flushed = flush 200 (observe_packets two_digits (new_dtmf_tracker 101 8000)) in
    (reported flushed.0 ≡ event_packets 101 two_digits) × ((flush 300 flushed.1).0 ≡ [])
reports_count_packets_example = reports_count_packets 101 8000 200 300 two_digits

abbrev around_zero : List Header
around_zero = numbered 65534 0 ∷ numbered 65535 160 ∷ numbered 0 320 ∷ numbered 1 480 ∷ []
