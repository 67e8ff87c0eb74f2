-- ===== src/Examples/RtpRuns.antt =====
-- pkg/rtp on concrete inputs.
use funsip.Base.{ℕ, ◌≡◌, refl, ◌≢◌, true, false, some, List, [], ◌∷◌, arith}
use funsip.Base.Int.{negsuc}
use funsip.Rtp.{Header, parse}
use funsip.Rtp.Parsing.{Extension, Fits, packet, parse-packet}
use funsip.Rtp.G711.{ulaw_decode_one}
use funsip.Rtp.G711.Companding.{ulaw_reference, ulaw_decode-ne-reference}

abbrev tone : Header
tone = record {
  version = 2;
  padding = false;
  extension = true;
  csrc_count = 1;
  marker = true;
  payload_type = 101;
  sequence = 513;
  timestamp = 70000;
  ssrc = 9;
  payload_offset = 24;
}

abbrev one_word : Extension
one_word = record { profile = 0xbede; words = 1; content = 1 ∷ 2 ∷ 3 ∷ 4 ∷ [] }

abbrev tone_packet : List ℕ
tone_packet = packet tone (0 ∷ 0 ∷ 0 ∷ 7 ∷ []) one_word (42 ∷ [])

tone-Fits : Fits tone (0 ∷ 0 ∷ 0 ∷ 7 ∷ []) one_word
tone-Fits = omega arith

parse-packet_example : parse tone_packet ≡ some tone
parse-packet_example = parse-packet tone (0 ∷ 0 ∷ 0 ∷ 7 ∷ []) one_word (42 ∷ []) tone-Fits

silence : ulaw_decode_one 0xff ≡ negsuc 123
unfolding ulaw_decode_one
silence = refl

ulaw_decode-ne-reference_example : ulaw_decode_one 0xff ≢ ulaw_reference 0xff
ulaw_decode-ne-reference_example = ulaw_decode-ne-reference 0xff (omega arith)
