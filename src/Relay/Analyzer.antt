-- ===== src/Relay/Analyzer.antt =====
-- The analyzers of a stream of pkg/media/media.go: configureAnalyzer, observeRTP, and the names of their
-- files. What Create answers for a path, and the join of a directory and a name, are parameters.
use funsip.Base.{
  ℕ, ◌-◌, ◌%◌, ◌^◌, ◌==◌, Bool, true, false, not, ◌&&◌, ◌||◌, Option, none, some, List, [], ◌∷◌,
  ◌++◌, if◌then◌else◌,
}
use funsip.Base.Int.{ℤ, pos, negsuc}
use funsip.Base.Wire.{drop}
use funsip.Text.{Text, lit, text_eq, is_empty, fields, cut, atoi, AtoiError, to_lower, has_prefix}
use funsip.Sdp.Data.{Media, Attribute}
use funsip.Dialog.State.{safe_part}
use funsip.Rtp.{Header, parse, pt_pcmu, pt_pcma}
use funsip.Rtp.G711.{is_audio_pt, decode_pcmu, decode_pcma}
use funsip.Media.Dtmf.{DtmfTracker, new_dtmf_tracker}
use funsip.Media.Qos.{QosTracker, new_qos_tracker}
use funsip.Capture.{PcapWriter, new_writer}
use funsip.Audio.Writer.{WavWriter, new_wav_writer, push}
use funsip.Relay.Stream.{Options, Stream, is_none}

-- `uint8(pt)` and `uint32(r)` of an int
abbrev pub to_width : ℕ → ℤ → ℕ
to_width size (pos n) = n % size
to_width size (negsuc n) = size - 1 - n % size

-- What the loops over the formats and the attributes have found.
pub record Found : Type 0 where
  pub audio_pt : ℕ
  pub audio_found : Bool
  pub dtmf_pt : ℕ
  pub dtmf_found : Bool
  pub clock_rate : ℕ

abbrev pub nothing_found : Found
nothing_found = record {
  audio_pt = 0;
  audio_found = false;
  dtmf_pt = 0;
  dtmf_found = false;
  clock_rate = 8000;
}

abbrev is_number : ℤ → ℕ → Bool
is_number (pos n) m = n == m
is_number (negsuc n) m = false

abbrev with_format : ℤ × Option AtoiError → Found → Found
with_format (pt, some e) found = found
with_format (pt, none) found =
    if not found.audio_found || is_number pt 0 || is_number pt 8
    then record found { audio_pt = to_width 256 pt; audio_found = true }
    else found

abbrev pub over_formats : List Text → Found → Found
over_formats [] found = found
over_formats (f ∷ rest) found = over_formats rest (with_format (atoi f) found)

abbrev with_rate : ℤ → Text → ℤ × Option AtoiError → Found → Found
with_rate pt encoding (rate, some e) found = found
with_rate pt encoding (rate, none) found =
    if has_prefix (lit "telephone-event") (to_lower encoding)
    then record found { dtmf_pt = to_width 256 pt; dtmf_found = true }
    else if is_number pt found.audio_pt
    then record found { clock_rate = to_width (2 ^ 32) rate }
    else found

abbrev before_slash : Text → Option (Text × Text) → Text
before_slash whole none = whole
before_slash whole (some (front, behind)) = front

abbrev with_encoding : ℤ → Text → Option (Text × Text) → Found → Found
with_encoding pt encoding none found = found
with_encoding pt encoding (some (name, rate)) found =
    with_rate pt encoding (atoi (before_slash rate (cut b'/' rate))) found

abbrev with_type : ℤ × Option AtoiError → Text → Found → Found
with_type (pt, some e) encoding found = found
with_type (pt, none) encoding found = with_encoding pt encoding (cut b'/' encoding) found

abbrev with_rtpmap : List Text → Found → Found
with_rtpmap [] found = found
with_rtpmap (type ∷ []) found = found
with_rtpmap (type ∷ encoding ∷ rest) found = with_type (atoi type) encoding found

abbrev pub over_attributes : List Attribute → Found → Found
over_attributes [] found = found
over_attributes (a ∷ rest) found =
    let mapped = with_rtpmap (fields a.value) found in
    over_attributes rest (if text_eq a.name (lit "rtpmap") then mapped else found)

unfoldable pub found_in : Media → Found
found_in m = over_attributes m.attributes (over_formats m.formats nothing_found)

-- safeFilename
abbrev pub safe_filename : Text → Text → Text
safe_filename name ext = safe_part 0 name ++ ext

abbrev pub media_pcap_name : Text → Text
media_pcap_name call_id = safe_filename (lit "media-" ++ call_id) (lit ".pcap")

abbrev pub wav_name : Text → Text → Text
wav_name call_id side = safe_filename (lit "audio-" ++ (call_id ++ (lit "-" ++ side))) (lit ".wav")

-- A tracker is made once.
abbrev pub or_new {ℓ} : {A : Type ℓ} → Bool → Option A → Option A → Option A
or_new wanted none new = if wanted then new else none
or_new wanted (some old) new = some old

module _ (creates : Text → Bool) (join_path : Text → Text → Text) where
  abbrev pub open_pcap : Text → Options → Option PcapWriter
  open_pcap call_id opts =
      let path = join_path opts.dir (media_pcap_name call_id) in new_writer path (creates path) true

  abbrev pub open_wav : Text → Text → ℕ → Options → Option WavWriter
  open_wav call_id side rate opts =
      let path = join_path opts.dir (wav_name call_id side) in
      new_wav_writer path rate (creates path) true

  -- configureAnalyzer
  unfoldable pub configure_analyzer : Text → Media → Options → Stream → Stream
  unfolding found_in
  configure_analyzer call_id m opts s =
      let found = found_in m in
      let with_files = not (is_empty opts.dir) in
      let records = opts.wav && with_files && is_audio_pt found.audio_pt in
      let detects = opts.dtmf && found.dtmf_found in
      let tracker = new_dtmf_tracker found.dtmf_pt found.clock_rate in
      record s {
        audio_pt = found.audio_pt;
        rate = found.clock_rate;
        dtmf_pt = if found.dtmf_found then found.dtmf_pt else s.dtmf_pt;
        has_dtmf = if found.dtmf_found then true else s.has_dtmf;
        pcap = or_new (opts.pcap && with_files) s.pcap (open_pcap call_id opts);
        wav_a = or_new records s.wav_a (open_wav call_id (lit "a") found.clock_rate opts);
        wav_b = or_new records s.wav_b (open_wav call_id (lit "b") found.clock_rate opts);
        dtmf_a = or_new detects s.dtmf_a (some tracker);
        dtmf_b = or_new detects s.dtmf_b (some tracker);
        qos_a = or_new opts.qos s.qos_a (some new_qos_tracker);
        qos_b = or_new opts.qos s.qos_b (some new_qos_tracker);
      }

-- decodeAudio
abbrev pub decode_audio : ℕ → List ℕ → List ℤ
decode_audio pt payload =
    if pt == pt_pcmu then decode_pcmu payload else if pt == pt_pcma then decode_pcma payload else []

-- Whose packets they are.
pub data Speaker : Type 0 where
  by_a by_b : Speaker

abbrev observe_dtmf : Header → List ℕ → ℕ → Option DtmfTracker → Option DtmfTracker
observe_dtmf h payload now none = none
observe_dtmf h payload now (some t) = some (funsip.Media.Dtmf.observe h payload now t)

abbrev observe_qos : Bool → Header → Option QosTracker → Option QosTracker
observe_qos counted h none = none
observe_qos counted h (some q) = some (if counted then funsip.Media.Qos.observe h q else q)

abbrev record_audio : Bool → Header → List ℕ → Option WavWriter → Option WavWriter
record_audio heard h payload none = none
record_audio heard h payload (some w) =
    some (if heard then push (decode_audio h.payload_type payload) w else w)

abbrev pub for_speaker : Speaker → Header → List ℕ → ℕ → Stream → Stream
for_speaker by_a h payload now s = record s {
  dtmf_a = observe_dtmf h payload now s.dtmf_a;
  qos_a = observe_qos (not s.has_dtmf || not (h.payload_type == s.dtmf_pt)) h s.qos_a;
  wav_a = record_audio (h.payload_type == s.audio_pt) h payload s.wav_a;
}
for_speaker by_b h payload now s = record s {
  dtmf_b = observe_dtmf h payload now s.dtmf_b;
  qos_b = observe_qos (not s.has_dtmf || not (h.payload_type == s.dtmf_pt)) h s.qos_b;
  wav_b = record_audio (h.payload_type == s.audio_pt) h payload s.wav_b;
}

abbrev pub of_packet : Option Header → Speaker → List ℕ → ℕ → Stream → Stream
of_packet none speaker buf now s = s
of_packet (some h) speaker buf now s = for_speaker speaker h (drop h.payload_offset buf) now s

abbrev pub has_tracker : Stream → Bool
has_tracker s = not (
    is_none s.dtmf_a
    && is_none s.dtmf_b
    && is_none s.qos_a
    && is_none s.qos_b
    && is_none s.wav_a
    && is_none s.wav_b)

-- observeRTP, at a time in milliseconds
unfoldable pub observe_rtp : Speaker → List ℕ → ℕ → Stream → Stream
observe_rtp speaker buf now s =
    let observed = of_packet (parse buf) speaker buf now s in if has_tracker s then observed else s
