-- ===== src/Relay/Stream.antt =====
-- Options and Stream of pkg/media/media.go, and what a stream is closed and reported with. A duration
-- and a time are natural numbers of nanoseconds. The channel `done` of a stream, which nothing reads, is
-- left out, and so are the numbers of a QoSReport with a fraction.
use funsip.Base.{
  ℕ, Bool, true, false, ◌&&◌, ◌||◌, Option, none, some, List, [], ◌∷◌, ◌++◌, ltb, if◌then◌else◌,
}
use funsip.Text.{Text, is_empty}
use funsip.Media.Dtmf.{DtmfReport, DtmfTracker, flush}
use funsip.Media.Qos.{QosTracker}
use funsip.Capture.{PcapWriter}
use funsip.Audio.Writer.{WavWriter, complete}
use funsip.Audio.Player.{UdpAddr}
use funsip.Relay.Sockets.{Sockets, Pair, close_all}

pub record Options : Type 0 where
  pub symmetric : Bool
  pub idle_timeout : ℕ
  pub pcap : Bool
  pub wav : Bool
  pub dtmf : Bool
  pub qos : Bool
  pub dir : Text

abbrev pub default_options : Options
default_options = record {
  symmetric = true;
  idle_timeout = 120000000000;
  pcap = false;
  wav = false;
  dtmf = false;
  qos = false;
  dir = [];
}

-- The four sockets of a stream: `a_rtp` is `aRtpConn`, which B sends to.
pub data Socket : Type 0 where
  a_rtp a_rtcp b_rtp b_rtcp : Socket

pub record Stream : Type 0 where
  pub symmetric : Bool
  pub a_pair : Pair
  pub b_pair : Pair
  pub a_sdp_rtp : Option UdpAddr
  pub a_sdp_rtcp : Option UdpAddr
  pub b_sdp_rtp : Option UdpAddr
  pub b_sdp_rtcp : Option UdpAddr
  pub a_src_rtp : Option UdpAddr
  pub a_src_rtcp : Option UdpAddr
  pub b_src_rtp : Option UdpAddr
  pub b_src_rtcp : Option UdpAddr
  pub last_activity : ℕ
  pub idle_timeout : ℕ
  pub hold_a : Bool
  pub hold_b : Bool
  pub pcap : Option PcapWriter
  pub wav_a : Option WavWriter
  pub wav_b : Option WavWriter
  pub dtmf_a : Option DtmfTracker
  pub dtmf_b : Option DtmfTracker
  pub qos_a : Option QosTracker
  pub qos_b : Option QosTracker
  pub audio_pt : ℕ
  pub dtmf_pt : ℕ
  pub has_dtmf : Bool
  pub rate : ℕ
  pub closed : Bool

-- The stream that ensureStream makes, with the sockets that allocate opened at the time `now`.
abbrev pub new_stream : Options → ℕ → Pair × Pair → Stream
new_stream opts now (a, b) = record {
  symmetric = opts.symmetric;
  a_pair = a;
  b_pair = b;
  a_sdp_rtp = none;
  a_sdp_rtcp = none;
  b_sdp_rtp = none;
  b_sdp_rtcp = none;
  a_src_rtp = none;
  a_src_rtcp = none;
  b_src_rtp = none;
  b_src_rtcp = none;
  last_activity = now;
  idle_timeout = opts.idle_timeout;
  hold_a = false;
  hold_b = false;
  pcap = none;
  wav_a = none;
  wav_b = none;
  dtmf_a = none;
  dtmf_b = none;
  qos_a = none;
  qos_b = none;
  audio_pt = 0;
  dtmf_pt = 0;
  has_dtmf = false;
  rate = 8000;
  closed = false;
}

-- IsOnHold
abbrev pub is_on_hold : Stream → Bool
is_on_hold s = s.hold_a || s.hold_b

abbrev close_wav : Option WavWriter → Option WavWriter
close_wav none = none
close_wav (some w) = some (funsip.Audio.Writer.close [] true complete w)

abbrev close_pcap : (List ℕ → Option (List ℕ)) → Option PcapWriter → Option PcapWriter
close_pcap to4 none = none
close_pcap to4 (some w) = some (funsip.Capture.close to4 w)

-- Close, with files that can be written.
unfoldable pub close_stream : (List ℕ → Option (List ℕ)) → Stream × Sockets → Stream × Sockets
close_stream to4 (s, w) = if s.closed then (s, w) else (
  record s {
    closed = true;
    wav_a = close_wav s.wav_a;
    wav_b = close_wav s.wav_b;
    pcap = close_pcap to4 s.pcap;
  },
  close_all (s.a_pair, s.b_pair) w,
)

-- AnalyzerReport; `qos` is the tracker whose numbers the report has.
pub record AnalyzerReport : Type 0 where
  pub dtmf : List DtmfReport
  pub qos : Option QosTracker
  pub wav : List Text
  pub pcap : Text

abbrev pub no_report : AnalyzerReport
no_report = record { dtmf = []; qos = none; wav = []; pcap = [] }

abbrev flush_some : ℕ → Option DtmfTracker → List DtmfReport × Option DtmfTracker
flush_some now none = ([], none)
flush_some now (some t) = let flushed = flush now t in (flushed.0, some flushed.1)

abbrev active_or : Option QosTracker → Option QosTracker → Option QosTracker
active_or none other = other
active_or (some q) other = if ltb 0 q.received then some q else other

abbrev wav_path : Option WavWriter → List Text
wav_path none = []
wav_path (some w) = w.path ∷ []

abbrev pcap_path : Option PcapWriter → Text
pcap_path none = []
pcap_path (some w) = w.path

abbrev pub is_nil {ℓ} : {A : Type ℓ} → List A → Bool
is_nil [] = true
is_nil (a ∷ rest) = false

abbrev pub is_none {ℓ} : {A : Type ℓ} → Option A → Bool
is_none none = true
is_none (some a) = false

abbrev if_any : AnalyzerReport → Option AnalyzerReport
if_any r =
    if is_nil r.dtmf && is_none r.qos && is_nil r.wav && is_empty r.pcap then none else some r

-- Report of a stream: it empties the trackers of DTMF.
unfoldable pub report_stream : ℕ → Stream → Option AnalyzerReport × Stream
report_stream now s =
    let a = flush_some now s.dtmf_a in
    let b = flush_some now s.dtmf_b in
    (
      if_any (record {
        dtmf = a.0 ++ b.0;
        qos = active_or s.qos_a (active_or s.qos_b none);
        wav = wav_path s.wav_a ++ wav_path s.wav_b;
        pcap = pcap_path s.pcap;
      }),
      record s { dtmf_a = a.1; dtmf_b = b.1 },
    )
