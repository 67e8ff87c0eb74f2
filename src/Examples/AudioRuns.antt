-- ===== src/Examples/AudioRuns.antt =====
-- Recorded and played audio (pkg/media/wav.go, pkg/play, PlayAudio of pkg/proxy/proxy.go) on concrete
-- inputs.
use funsip.Base.{
  ℕ, ◌≡◌, refl, true, false, Option, none, some, List, [], ◌∷◌, ◌++◌, map, All, length, arith,
}
use funsip.Base.Int.{pos, negsuc}
use funsip.Base.Wire.{fill, le16, le32}
use funsip.Text.{lit}
use funsip.Rtp.{Header, parse}
use funsip.Rtp.G711.{encode_pcmu}
use funsip.Media.Losses.{Consecutive, count_of}
use funsip.Media.Qos.{new_qos_tracker, observe_all}
use funsip.Audio.Reader.{WavFile, Opened, opened, open_wav, behind_riff, read_chunks, next_chunk}
use funsip.Audio.Chunks.{HasResult, open_wav_ends}
use funsip.Audio.Writer.{WavWriter, new_wav_writer, close, complete}
use funsip.Audio.Recording.{Action, pushed, worked, accepted, record_all}
use funsip.Audio.RoundTrip.{frames, recorded_plays}
use funsip.Audio.Player.{
  UdpAddr, PlaySession, Sender, WriteResult, written, other_error, connection_closed,
}
use funsip.Audio.Sending.{given, sent, Timed, player_in_sequence}
use funsip.Audio.Truncated.{truncated, IsSilence, truncated_file_stalls}
use funsip.Audio.Plays.{Answers, new_plays}
use funsip.Audio.Calls.{Request, to_open, to_start, to_clean, serve_all, Reached}
use funsip.Audio.Registered.{plays_run-IsRegistered}
use funsip.Audio.Answer.{ok_response, caller_rtp_dest}
use funsip.Audio.Answers.{answer_sdp, play_answer_reads}
use funsip.Sdp.Parser
use funsip.Proxy.Config.{Config}
use funsip.Examples.Messages.{invite}

-- A chunk that is not known, the format, and four bytes of µ-law.
abbrev joined : List (List ℕ) → List ℕ
joined [] = []
joined (part ∷ rest) = part ++ joined rest

abbrev small_file : List ℕ
small_file = joined (
    lit "RIFF"
    ∷ le32 44
    ∷ lit "WAVE"
    ∷ lit "LIST"
    ∷ le32 2
    ∷ (7 ∷ 7 ∷ [])
    ∷ lit "fmt "
    ∷ le32 16
    ∷ le16 7
    ∷ le16 1
    ∷ le32 8000
    ∷ le32 8000
    ∷ le16 1
    ∷ le16 8
    ∷ lit "data"
    ∷ le32 4
    ∷ (1 ∷ 2 ∷ 3 ∷ 4 ∷ [])
    ∷ [])

small_file_opens :
    open_wav small_file
    ≡ some
        (opened (record { left = 1 ∷ 2 ∷ 3 ∷ 4 ∷ []; format = 7; sample_bytes = 1; data_left = 4 }))
unfolding open_wav behind_riff read_chunks next_chunk
small_file_opens = refl

open_wav_ends_example : HasResult (open_wav small_file)
open_wav_ends_example = open_wav_ends small_file

abbrev recorder : WavWriter
recorder = record {
  path = lit "a.wav";
  sample_rate = 8000;
  file = fill 44 0;
  queue = [];
  closed = false;
  done = false;
  written = 0;
  dropped = 0;
}

abbrev some_actions : List Action
some_actions = pushed (pos 5 ∷ negsuc 99 ∷ []) ∷ worked ∷ pushed (pos 32000 ∷ []) ∷ []

recorded_plays_example :
    (f : WavFile) × (open_wav (close [] true complete (record_all some_actions recorder)).file
      ≡ some (opened f))
    × (frames 4 f ≡ encode_pcmu (accepted some_actions recorder))
unfolding new_wav_writer funsip.Audio.Writer.push funsip.Audio.Writer.work
recorded_plays_example =
    recorded_plays (lit "a.wav") recorder some_actions 4 refl (ground arith) (omega arith)
      (omega arith)

abbrev here : UdpAddr
here = record { ip = 10 ∷ 0 ∷ 0 ∷ 9 ∷ []; port = pos 4000 }

abbrev player : PlaySession
player = record {
  call_id = lit "c1";
  filename = lit "a.wav";
  local_ip = lit "10.0.0.1";
  local_port = 30000;
  dest = some here;
  ssrc = 77;
  started = true;
  stopped = false;
}

abbrev little_file : WavFile
little_file = record { left = 1 ∷ 2 ∷ 3 ∷ []; format = 7; sample_bytes = 1; data_left = 3 }

-- The file is opened again, and the numbers go around.
abbrev little_turns : List (Option (Opened WavFile))
little_turns =
    some (opened little_file) ∷ some (opened little_file) ∷ some (opened little_file) ∷ none ∷ []

abbrev little_sender : Sender
little_sender = record { file = little_file; seq = 65535; ts = 4294967200 }

abbrev failing_turns : List (Option (Opened WavFile) × WriteResult)
failing_turns =
    (some (opened little_file), written)
    ∷ (some (opened little_file), other_error)
    ∷ (some (opened little_file), written)
    ∷ (none, connection_closed)
    ∷ []

player_in_sequence_example :
    (headers : List Header) × (map parse (given failing_turns player little_sender)
      ≡ map some headers)
    × Consecutive 65535 headers
    × Timed 4294967200 headers
    × ((observe_all headers new_qos_tracker).received ≡ count_of headers)
    × ((observe_all headers new_qos_tracker).lost ≡ 0)
player_in_sequence_example =
    player_in_sequence player here failing_turns little_sender refl (omega arith) (omega arith)
      (omega arith)

truncated_file_stalls_example :
    let sender : Sender = record { file = truncated 7 1 100; seq = 1; ts = 2 } in
    All IsSilence (sent little_turns player sender) × (length (sent little_turns player sender) ≡ 4)
truncated_file_stalls_example =
    truncated_file_stalls player here little_turns 7 1 100 1 2 refl refl refl

abbrev granted : ℕ → Answers
granted port = record { file = some small_file; ip_parses = true; bound = some port; random = port }

abbrev requests : List Request
requests =
    to_open (granted 30000) (lit "c1") (lit "a.wav")
    ∷ to_start 0
    ∷ to_open (granted 30002) (lit "c2") (lit "a.wav")
    ∷ to_start 1
    ∷ to_open (granted 30004) (lit "c1") (lit "b.wav")
    ∷ to_clean (lit "c2")
    ∷ []

plays_run-IsRegistered_example : Reached (serve_all requests (new_plays (lit "10.0.0.1")))
plays_run-IsRegistered_example = plays_run-IsRegistered (lit "10.0.0.1") requests

abbrev proxy : Config
proxy = record {
  local_ip = lit "10.0.0.1";
  local_port = pos 5060;
  domain = lit "example.com";
  rport_first = true;
}

play_answer_reads_example :
    let body = (ok_response proxy 1700000000 player invite).body in
    (funsip.Sdp.Parser.parse body ≡ answer_sdp 1700000000 player)
    × (caller_rtp_dest (λ address. some (10 ∷ 0 ∷ 0 ∷ 1 ∷ [])) body
        ≡ some (record { ip = 10 ∷ 0 ∷ 0 ∷ 1 ∷ []; port = pos 30000 }))
play_answer_reads_example =
    play_answer_reads proxy 1700000000 player invite (λ address. some (10 ∷ 0 ∷ 0 ∷ 1 ∷ []))
      (10 ∷ 0 ∷ 0 ∷ 1 ∷ []) (ground arith) (omega arith) refl refl
