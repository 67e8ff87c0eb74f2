-- ===== src/Examples/CounterRuns.antt =====
-- The packages that count and write behind a queue (pkg/pcap, pkg/metrics, pkg/events) on concrete inputs.
use funsip.Base.{
  ℕ, ◌≡◌, refl, ◌+◌, ◌≤◌, ◌<◌, false, Option, some, List, [], ◌∷◌, ◌++◌, length, arith,
}
use funsip.Text.{lit, trim_space}
use funsip.Capture.{
  Captured, PcapWriter, file_header, new_writer, close, default_queue, flush_batch,
}
use funsip.Capture.Kept.{records}
use funsip.Capture.Written.{
  Event, offered, taken, ticked, happen_all, accepted, capture_file_complete,
}
use funsip.Metrics.{stats}
use funsip.Metrics.Window.{Entry, add_all, stats_exact}
use funsip.Events.Sink.{Sink, Posting, refused, new_sink, send}
use funsip.Events.Sink
use funsip.Events.Delivery.{Step, sent, worked, step_all, sink_accounts}

abbrev to4 : List ℕ → Option (List ℕ)
to4 ip = some ip

abbrev from_port : ℕ → Captured
from_port port = record {
  seconds = 1700000000;
  nanos = 5000;
  src_ip = 10 ∷ 0 ∷ 0 ∷ 7 ∷ [];
  src_port = port;
  dst_ip = 10 ∷ 0 ∷ 0 ∷ 1 ∷ [];
  dst_port = 5060;
  payload = 1 ∷ 2 ∷ 3 ∷ [];
}

abbrev writer : PcapWriter
writer = record {
  path = lit "c.pcap";
  file = file_header;
  channel = [];
  pending = [];
  closed = false;
  done = false;
  count = 0;
  dropped = 0;
}

abbrev captures : List Event
captures =
    offered (from_port 1)
    ∷ taken
    ∷ offered (from_port 2)
    ∷ ticked
    ∷ taken
    ∷ offered (from_port 3)
    ∷ []

capture_file_complete_example :
    let last = happen_all to4 captures writer in
    let shut = close to4 last in
    (shut.file ≡ file_header ++ records to4 (accepted to4 captures writer))
    × (shut.count ≡ length (accepted to4 captures writer))
    × (shut.count + shut.dropped ≡ 3)
    × (length last.channel ≤ default_queue)
    × (length last.pending < flush_batch)
unfolding new_writer
capture_file_complete_example = capture_file_complete to4 (lit "c.pcap") writer captures refl

-- The bucket of minute 110 was that of minute 50.
abbrev log : List Entry
log =
    record { minute = 110; count = 1; sum_ms = 30 }
    ∷ record { minute = 109; count = 2; sum_ms = 80 }
    ∷ record { minute = 50; count = 5; sum_ms = 700 }
    ∷ []

stats_exact_example : stats 112 60 (add_all log) ≡ (3, 36)
stats_exact_example = stats_exact 112 60 log (omega arith) (ground arith)

abbrev steps : List (Step ℕ)
steps = sent 1 ∷ sent 2 ∷ worked refused ∷ sent 3 ∷ []

sink_accounts_example :
    let last : Sink ℕ = step_all steps (new_sink (lit "http://collector/")) in
    let shut = funsip.Events.Sink.close [] last in
    (shut.enqueued + shut.dropped ≡ 3)
    × (shut.posted + shut.failed ≡ shut.enqueued)
    × (shut.queue ≡ [])
    × (length last.queue ≤ 1024)
    × ((e : ℕ) → send e shut ≡ shut)
unfolding trim_space
sink_accounts_example = sink_accounts (lit "http://collector/") steps [] refl
