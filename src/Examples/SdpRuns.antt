-- ===== src/Examples/SdpRuns.antt =====
-- A session description (pkg/sdp/sdp.go) written and read.
use funsip.Base.{◌≡◌, some, [], ◌∷◌, arith}
use funsip.Base.Int.{pos}
use funsip.Text.{lit}
use funsip.Sdp.Data.{Connection, Media, Sdp, new_sdp}
use funsip.Sdp.Parser.{parse}
use funsip.Sdp.Printer.{bytes}
use funsip.Sdp.Medias.{IsMedia}
use funsip.Sdp.RoundTrip.{IsWritable, parse-bytes}

abbrev here : Connection
here = record { net_type = lit "IN"; addr_type = lit "IP4"; address = lit "10.0.0.1" }

abbrev audio : Media
audio = record {
  type = lit "audio";
  port = pos 4000;
  port_count = pos 2;
  proto = lit "RTP/AVP";
  formats = lit "8" ∷ lit "101" ∷ [];
  info = [];
  connection = some here;
  bandwidth = lit "AS:64" ∷ [];
  key = [];
  attributes =
      record { name = lit "rtpmap"; value = lit "8 PCMA/8000" }
      ∷ record { name = lit "sendrecv"; value = [] }
      ∷ [];
}

abbrev call : Sdp
call = record new_sdp {
  version = lit "0";
  session_name = lit "call";
  times = lit "0 0" ∷ [];
  media = audio ∷ audio ∷ [];
}

audio-IsMedia : IsMedia audio
audio-IsMedia = record {
  type = ground arith;
  port = omega arith;
  port_count = omega arith;
  proto = ground arith;
  formats = ground arith;
  info = ground arith;
  connection = ground arith;
  bandwidth = ground arith;
  key = ground arith;
  attributes = ground arith;
}

call-IsWritable : IsWritable call
call-IsWritable = record {
  version = ground arith;
  origin = ground arith;
  session_name = ground arith;
  info = ground arith;
  uri = ground arith;
  email = ground arith;
  phone = ground arith;
  connection = ground arith;
  bandwidth = ground arith;
  times = ground arith;
  repeats = ground arith;
  zone = ground arith;
  key = ground arith;
  attributes = ground arith;
  media = (audio-IsMedia, (audio-IsMedia, tt));
}

parse-bytes_example : parse (bytes call) ≡ call
parse-bytes_example = parse-bytes call call-IsWritable
