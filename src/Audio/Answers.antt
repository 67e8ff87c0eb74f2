-- ===== src/Audio/Answers.antt =====
-- What the other side reads in the answer of PlayAudio of pkg/proxy/proxy.go.
use mathlib.Core.List.{append_assoc}
use funsip.Base.{ℕ, ◌≤◌, ◌==◌, ◌≡◌, ap, ◌∙◌, false, Option, none, some, List, [], ◌∷◌, ◌++◌, arith}
use funsip.Base.Int.{pos}
use funsip.Text.{Text, lit, itoa, max_int}
use funsip.Text.Words.{IsWord}
use funsip.Sip.Message.{Message}
use funsip.Sdp.Data.{Sdp, new_sdp}
use funsip.Sdp.Parser.{parse}
use funsip.Sdp.Printer.{bytes, sdp_lines, media_lines, connection_text}
use funsip.Sdp.Lines.{IsValue}
use funsip.Sdp.Medias.{unspaced-IsValue, value-join, itoa-IsWord}
use funsip.Sdp.RoundTrip.{IsWritable, parse-bytes}
use funsip.Proxy.Config.{Config}
use funsip.Audio.Player.{PlaySession, sdp_body}
use funsip.Audio.Answer.{address_or, audio_dest, caller_rtp_dest, ok_response}

-- What the body says.
abbrev pub answer_sdp : ℕ → PlaySession → Sdp
answer_sdp t s = record new_sdp {
  version = lit "0";
  origin = lit "funsip " ++ (itoa t ++ (lit " " ++ (itoa t ++ (lit " IN IP4 " ++ s.local_ip))));
  session_name = lit "funsip-play";
  connection = some (record { net_type = lit "IN"; addr_type = lit "IP4"; address = s.local_ip });
  times = lit "0 0" ∷ [];
  media =
      record {
        type = lit "audio";
        port = pos s.local_port;
        port_count = pos 0;
        proto = lit "RTP/AVP";
        formats = lit "0" ∷ [];
        info = [];
        connection = none;
        bandwidth = [];
        key = [];
        attributes =
            record { name = lit "rtpmap"; value = lit "0 PCMU/8000" }
            ∷ record { name = lit "sendrecv"; value = [] }
            ∷ [];
      }
      ∷ [];
}

sdp_body-bytes : (t : ℕ) (s : PlaySession) → sdp_body t s ≡ bytes (answer_sdp t s)
unfolding sdp_body bytes sdp_lines media_lines connection_text
sdp_body-bytes t s = simp append_assoc

itoa-IsValue : (n : ℕ) → IsValue (itoa n)
itoa-IsValue n = unspaced-IsValue (itoa n) (itoa-IsWord n).1

origin-IsValue : (t : ℕ) (s : PlaySession) → IsWord s.local_ip → IsValue (answer_sdp t s).origin
origin-IsValue t s w =
    let at_ip = lit " IN IP4 " ++ s.local_ip in
    let behind : IsValue at_ip =
      value-join (lit " IN IP4 ") s.local_ip (ground arith) (unspaced-IsValue s.local_ip w.1) in
    let second : IsValue (itoa t ++ at_ip) = value-join (itoa t) at_ip (itoa-IsValue t) behind in
    let between : IsValue (lit " " ++ (itoa t ++ at_ip)) =
      value-join (lit " ") (itoa t ++ at_ip) (ground arith) second in
    value-join (lit "funsip ") (itoa t ++ (lit " " ++ (itoa t ++ at_ip))) (ground arith)
      (value-join (itoa t) (lit " " ++ (itoa t ++ at_ip)) (itoa-IsValue t) between)

answer_sdp-IsWritable :
    (t : ℕ) (s : PlaySession)
    → IsWord s.local_ip
    → s.local_port ≤ max_int
    → IsWritable (answer_sdp t s)
answer_sdp-IsWritable t s w p = record {
  version = ground arith;
  origin = origin-IsValue t s w;
  session_name = ground arith;
  info = (tt, tt);
  uri = (tt, tt);
  email = (tt, tt);
  phone = (tt, tt);
  connection = (ground arith, ground arith, w);
  bandwidth = tt;
  times = ground arith;
  repeats = tt;
  zone = (tt, tt);
  key = (tt, tt);
  attributes = tt;
  media = (
    record {
      type = ground arith;
      port = p;
      port_count = ground arith;
      proto = ground arith;
      formats = ground arith;
      info = (tt, tt);
      connection = tt;
      bandwidth = tt;
      key = (tt, tt);
      attributes = ground arith;
    },
    tt,
  );
}

-- The body of the 200 with which PlayAudio answers a call, where the local address is one word and the
-- port a number that Atoi reads: pkg/sdp reads it as one audio stream in PCMU at that address and port,
-- and callerRTPDest, on a request with this body, finds the port and what ParseIP makes of the address,
-- if it is not 0.
pub play_answer_reads :
    (cfg : Config) (t : ℕ) (s : PlaySession) (req : Message) (parse_ip : Text → Option (List ℕ))
    (ip : List ℕ)
    → IsWord s.local_ip
    → s.local_port ≤ max_int
    → (s.local_port == 0) ≡ false
    → parse_ip s.local_ip ≡ some ip
    → (let body = (ok_response cfg t s req).body in
        (parse body ≡ answer_sdp t s)
        × (caller_rtp_dest parse_ip body ≡ some (record { ip = ip; port = pos s.local_port })))
unfolding ok_response caller_rtp_dest
play_answer_reads cfg t s req parse_ip ip w p positive known =
    let reads : parse (sdp_body t s) ≡ answer_sdp t s =
      ap parse (sdp_body-bytes t s)
      ∙ parse-bytes (answer_sdp t s) (answer_sdp-IsWritable t s w p) in
    (
      reads,
      ap (λ (d : Sdp). audio_dest parse_ip (address_or [] d.connection) d.media) reads
          ∙ simp (positive, known),
    )
