-- ===== src/Relay/Anchor.antt =====
-- Session of pkg/media/media.go: AnchorOffer, AnchorAnswer, and the closing of a session. An SDP that is
-- changed in place is handed back. ParseIP is a parameter, with what opening files and sockets gives.
use funsip.Base.{
  ◌==◌, ℕ, zero, suc, ◌+◌, ◌-◌, Bool, true, false, ◌||◌, Option, none, some, List, [], ◌∷◌, ◌++◌,
  length, get_elem?, update, if◌then◌else◌,
}
use funsip.Base.Int.{ℤ, pos, negsuc, neg_ℕ}
use funsip.Text.{Text, lit, text_eq, max_int}
use funsip.Sdp.Data.{Sdp, Media, Connection, Attribute, has_attr, rtcp_attr, set_rtcp_attr}
use funsip.Audio.Player.{UdpAddr}
use funsip.Relay.Sockets.{Sockets, Pair, Bound, got, failed, AllocateError, allocate}
use funsip.Relay.Stream.{
  Options, Stream, new_stream, close_stream, report_stream, AnalyzerReport, no_report, is_none,
}
use funsip.Relay.Analyzer.{configure_analyzer}

pub record Session : Type 0 where
  pub call_id : Text
  pub streams : List Stream
  pub opts : Options

-- mediaDirection
abbrev is_direction : Text → Bool
is_direction name =
    text_eq name (lit "sendrecv")
    || text_eq name (lit "sendonly")
    || text_eq name (lit "recvonly")
    || text_eq name (lit "inactive")

abbrev first_direction : List Attribute → Text → Text
first_direction [] default = default
first_direction (a ∷ rest) default =
    if is_direction a.name then a.name else first_direction rest default

abbrev pub media_direction : Media → List Attribute → Text
media_direction m session_attrs =
    first_direction m.attributes (first_direction session_attrs (lit "sendrecv"))

abbrev pub address_of : Option Connection → Text → Text
address_of none default = default
address_of (some c) default = c.address

-- isHold
unfoldable pub is_hold : Media → Option Connection → List Attribute → Bool
is_hold m session_conn session_attrs =
    let dir = media_direction m session_attrs in
    text_eq dir (lit "sendonly")
    || text_eq dir (lit "inactive")
    || text_eq (address_of m.connection (address_of session_conn [])) (lit "0.0.0.0")

-- rewriteRTCP
unfoldable pub rewrite_rtcp : ℤ → ℤ → Media → Media
rewrite_rtcp rtp_port rtcp_port m =
    let has_explicit = if is_none (rtcp_attr m) then false else true in
    if has_attr m (lit "rtcp-mux")
    then (if has_explicit then set_rtcp_attr rtp_port [] m else m)
    else if has_explicit
    then set_rtcp_attr rtcp_port [] m
    else m

abbrev pub at_ip : Text → Option Connection → Option Connection
at_ip local_ip none = none
at_ip local_ip (some c) = some (record c { address = local_ip })

-- The media with the relay's address and ports.
unfoldable pub relayed : Text → Pair → Media → Media
relayed local_ip p m =
    rewrite_rtcp (pos p.rtp_port) (pos p.rtcp_port)
      (record m { port = pos p.rtp_port; connection = at_ip local_ip m.connection })

abbrev pub next_port : ℤ → ℤ
next_port (pos n) = if n == max_int then negsuc max_int else pos (n + 1)
next_port (negsuc n) = neg_ℕ n

abbrev pub explicit_or : Option (ℤ × Text) → ℤ → ℤ
explicit_or none port = next_port port
explicit_or (some (p, addr)) port = p

-- The port for RTCP that the media announces.
abbrev pub rtcp_port_of : Media → ℤ
rtcp_port_of m = explicit_or (rtcp_attr m) m.port

abbrev pub is_refused : ℤ → Bool
is_refused (pos zero) = true
is_refused (pos (suc n)) = false
is_refused (negsuc n) = false

abbrev pub keep_or_set : Option (List ℕ) → ℤ → Option UdpAddr → Option UdpAddr
keep_or_set none port old = old
keep_or_set (some ip) port old = some (record { ip = ip; port = port })

-- The surroundings of a session.
pub record Around : Type 0 where
  pub local_ip : Text
  pub parse_ip : Text → Option (List ℕ)
  pub to4 : List ℕ → Option (List ℕ)
  pub listen : ℕ → ℕ → Option ℕ
  pub creates : Text → Bool
  pub join_path : Text → Text → Text

module _ (around : Around) where
  -- ensureStream: how many streams are to be added at the time `now`.
  abbrev pub add_if_some :
      (Session → Sockets → Option AllocateError × (Session × Sockets))
      → ℕ
      → Session
      → Bound (Pair × Pair) × Sockets
      → Option AllocateError × (Session × Sockets)
  add_if_some more now s (failed e, w) = (some e, (s, w))
  add_if_some more now s (got pairs, w) =
      more (record s { streams = s.streams ++ new_stream s.opts now pairs ∷ [] }) w

  abbrev pub add_streams : ℕ → ℕ → Session → Sockets → Option AllocateError × (Session × Sockets)
  add_streams zero now s w = (none, (s, w))
  add_streams (suc missing) now s w =
      add_if_some (add_streams missing now) now s (allocate around.listen w)

  abbrev pub ensure_stream : ℕ → ℕ → Session → Sockets → Option AllocateError × (Session × Sockets)
  ensure_stream i now s w = add_streams (suc i - length s.streams) now s w

  -- What AnchorOffer does with the stream of a media.
  abbrev pub offer_stream : Session → Sdp → Text → Media → Stream → Stream
  offer_stream s sdp addr m st =
      let configured = configure_analyzer around.creates around.join_path s.call_id m s.opts st in
      record configured {
        hold_a = is_hold m sdp.connection sdp.attributes;
        a_sdp_rtp = keep_or_set (around.parse_ip addr) m.port st.a_sdp_rtp;
        a_sdp_rtcp = keep_or_set (around.parse_ip addr) (rtcp_port_of m) st.a_sdp_rtcp;
      }

  abbrev pub a_relayed : Media → Option Stream → Media
  a_relayed m none = m
  a_relayed m (some st) = relayed around.local_ip st.a_pair m

  -- The media from place i on: with an error, those that are left are as they were.
  abbrev pub prepend_media :
      Media
      → Option AllocateError × (List Media × (Session × Sockets))
      → Option AllocateError × (List Media × (Session × Sockets))
  prepend_media m (e, (rest, state)) = (e, (m ∷ rest, state))

  abbrev pub with_stream :
      (Session → Sockets → Option AllocateError × (List Media × (Session × Sockets)))
      → Sdp
      → ℕ
      → Media
      → List Media
      → Option AllocateError × (Session × Sockets)
      → Option AllocateError × (List Media × (Session × Sockets))
  with_stream later sdp i m rest (some e, (s, w)) = (some e, (m ∷ rest, (s, w)))
  with_stream later sdp i m rest (none, (s, w)) =
      let addr = address_of m.connection (address_of sdp.connection []) in
      let anchored = record s { streams = update (offer_stream s sdp addr m) i s.streams } in
      prepend_media (a_relayed m (get_elem? s.streams i)) (later anchored w)

  abbrev pub offer_media :
      Sdp
      → ℕ
      → ℕ
      → List Media
      → Session
      → Sockets
      → Option AllocateError × (List Media × (Session × Sockets))
  offer_media sdp now i [] s w = (none, ([], (s, w)))
  offer_media sdp now i (m ∷ rest) s w =
      let skipped = prepend_media m (offer_media sdp now (suc i) rest s w) in
      let anchored =
        with_stream (offer_media sdp now (suc i) rest) sdp i m rest (ensure_stream i now s w) in
      if is_refused m.port then skipped else anchored

  abbrev pub with_media :
      Sdp
      → Option AllocateError × (List Media × (Session × Sockets))
      → Option AllocateError × (Sdp × (Session × Sockets))
  with_media sdp (some e, (ms, state)) = (some e, (record sdp { media = ms }, state))
  with_media sdp (none, (ms, state)) =
      (none, (record sdp { media = ms; connection = at_ip around.local_ip sdp.connection }, state))

  -- AnchorOffer
  unfoldable pub anchor_offer :
      ℕ → Sdp → Session → Sockets → Option AllocateError × (Sdp × (Session × Sockets))
  anchor_offer now sdp s w = with_media sdp (offer_media sdp now 0 sdp.media s w)

  abbrev pub answer_stream : Sdp → Media → Stream → Stream
  answer_stream sdp m st =
      let addr = address_of m.connection (address_of sdp.connection []) in
      let held = record st { hold_b = is_hold m sdp.connection sdp.attributes } in
      if is_refused m.port then held else record held {
        b_sdp_rtp = keep_or_set (around.parse_ip addr) m.port st.b_sdp_rtp;
        b_sdp_rtcp = keep_or_set (around.parse_ip addr) (rtcp_port_of m) st.b_sdp_rtcp;
      }

  abbrev pub b_relayed : Media → Stream → Media
  b_relayed m st = if is_refused m.port then m else relayed around.local_ip st.b_pair m

  -- The loop ends where there are no more streams.
  abbrev pub answer_media : Sdp → List Media → List Stream → List Media × List Stream
  answer_media sdp [] streams = ([], streams)
  answer_media sdp (m ∷ rest) [] = (m ∷ rest, [])
  answer_media sdp (m ∷ rest) (st ∷ streams) =
      let later = answer_media sdp rest streams in
      (b_relayed m st ∷ later.0, answer_stream sdp m st ∷ later.1)

  -- AnchorAnswer, which always succeeds.
  unfoldable pub anchor_answer : Sdp → Session → Sdp × Session
  anchor_answer sdp s =
      let done = answer_media sdp sdp.media s.streams in
      (
        record sdp { media = done.0; connection = at_ip around.local_ip sdp.connection },
        record s { streams = done.1 },
      )

  abbrev pub close_streams : List Stream → Sockets → Sockets
  close_streams [] w = w
  close_streams (st ∷ rest) w = close_streams rest (close_stream around.to4 (st, w)).1

  -- Close of a session
  unfoldable pub close_session : Session → Sockets → Session × Sockets
  unfolding close_stream
  close_session s w = (record s { streams = [] }, close_streams s.streams w)

abbrev qos_or : Option AnalyzerReport → AnalyzerReport → AnalyzerReport
qos_or none out = out
qos_or (some r) out = record {
  dtmf = out.dtmf ++ r.dtmf;
  qos = if is_none out.qos then r.qos else out.qos;
  wav = out.wav ++ r.wav;
  pcap = if text_eq out.pcap [] then r.pcap else out.pcap;
}

abbrev out_or : Option AnalyzerReport → AnalyzerReport
out_or none = no_report
out_or (some r) = r

abbrev merged : Option AnalyzerReport → Option AnalyzerReport → Option AnalyzerReport
merged out none = out
merged out (some r) = some (qos_or (some r) (out_or out))

abbrev report_streams :
    ℕ → Option AnalyzerReport → List Stream → Option AnalyzerReport × List Stream
report_streams now out [] = (out, [])
report_streams now out (st ∷ rest) =
    let one = report_stream now st in
    let later = report_streams now (merged out one.0) rest in (later.0, one.1 ∷ later.1)

-- Report of a session
unfoldable pub report_session : ℕ → Session → Option AnalyzerReport × Session
unfolding report_stream
report_session now s =
    let done = report_streams now none s.streams in (done.0, record s { streams = done.1 })
