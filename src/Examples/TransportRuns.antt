-- ===== src/Examples/TransportRuns.antt =====
-- Framing of messages on a stream (pkg/transport/tcp.go) on a concrete input.
use funsip.Base.{◌≡◌, refl, ◌∷◌, ◌++◌}
use funsip.Text.{Text, lit, trim_space, to_lower, split_n2, atoi}
use funsip.Transport.Framing.{read_sip_message}
use funsip.Transport.Whole.{read_sip_message_whole}

abbrev message_text : Text
message_text =
    lit "INFO sip:a SIP/2.0" ++ 13 ∷ 10 ∷ (lit "Content-Length: 2" ++ 13 ∷ 10 ∷ 13 ∷ 10 ∷ lit "hi")

abbrev stream : Text
stream = message_text ++ lit "OPTIONS"

read_sip_message_whole_example : stream ≡ message_text ++ lit "OPTIONS"
unfolding read_sip_message trim_space to_lower split_n2 atoi
read_sip_message_whole_example = read_sip_message_whole stream message_text (lit "OPTIONS") refl
