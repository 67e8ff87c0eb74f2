-- ===== src/Audio/Player.antt =====
-- Session of pkg/play/session.go. A turn of the sender's loop is one step; the file that is opened
-- again, and what the operating system makes of a write, are arguments.
use funsip.Base.{
  ℕ, ◌+◌, ◌-◌, ◌%◌, ◌^◌, Bool, true, Option, none, some, List, [], ◌∷◌, ◌++◌, length, ltb,
  if◌then◌else◌,
}
use funsip.Base.Int.{ℤ}
use funsip.Base.Wire.{fill, be16, be32}
use funsip.Text.{Text, lit, itoa}
use funsip.Audio.Reader.{WavFile, FrameError, Opened, opened, failed, next_frame, frame_samples}

-- An address of UDP: the bytes of the IP address, and the port.
pub record UdpAddr : Type 0 where
  pub ip : List ℕ
  pub port : ℤ

-- `stopped` is the closed channel `stop`, behind which the socket is closed; `started` says that Start was
-- called, whose goroutine closes the channel `done` when it ends.
pub record PlaySession : Type 0 where
  pub call_id : Text
  pub filename : Text
  pub local_ip : Text
  pub local_port : ℕ
  pub dest : Option UdpAddr
  pub ssrc : ℕ
  pub started : Bool
  pub stopped : Bool

-- SetDestination
abbrev pub set_destination : UdpAddr → PlaySession → PlaySession
set_destination addr s = record s { dest = some addr }

-- Start
abbrev pub start : PlaySession → PlaySession
start s = record s { started = true }

abbrev crlf : Text
crlf = 13 ∷ 10 ∷ []

abbrev joined : List Text → Text
joined [] = []
joined (part ∷ rest) = part ++ joined rest

-- SDPBody at the time t
unfoldable pub sdp_body : ℕ → PlaySession → Text
sdp_body t s = joined (
    lit "v=0"
    ∷ crlf
    ∷ lit "o=funsip "
    ∷ itoa t
    ∷ lit " "
    ∷ itoa t
    ∷ lit " IN IP4 "
    ∷ s.local_ip
    ∷ crlf
    ∷ lit "s=funsip-play"
    ∷ crlf
    ∷ lit "c=IN IP4 "
    ∷ s.local_ip
    ∷ crlf
    ∷ lit "t=0 0"
    ∷ crlf
    ∷ lit "m=audio "
    ∷ itoa s.local_port
    ∷ lit " RTP/AVP 0"
    ∷ crlf
    ∷ lit "a=rtpmap:0 PCMU/8000"
    ∷ crlf
    ∷ lit "a=sendrecv"
    ∷ crlf
    ∷ [])

-- The variables of `run`.
pub record Sender : Type 0 where
  pub file : WavFile
  pub seq : ℕ
  pub ts : ℕ

pub data WriteResult : Type 0 where
  written connection_closed other_error : WriteResult

-- How a turn ends: the loop goes on, with the packet that was written, or after a write that failed, or
-- is left.
pub data Turn : Type 0 where
  goes_on : Sender → Option (List ℕ × UdpAddr) → Turn
  not_written : Sender → List ℕ × UdpAddr → Turn
  ends : Turn

abbrev pub padded : List ℕ → List ℕ
padded frame =
    if ltb (length frame) frame_samples
    then frame ++ fill (frame_samples - length frame) 0xff
    else frame

abbrev pub packet : ℕ → ℕ → ℕ → List ℕ → List ℕ
packet seq ts ssrc frame = 0x80 ∷ 0x00 ∷ be16 seq ++ (be32 ts ++ (be32 ssrc ++ padded frame))

-- `seq++` and `ts += samplesPerFrame`
abbrev pub next : WavFile → Sender → Sender
next file sender = record {
  file = file;
  seq = (sender.seq + 1) % 2 ^ 16;
  ts = (sender.ts + frame_samples) % 2 ^ 32;
}

abbrev pub after_write : WriteResult → Sender → List ℕ × UdpAddr → Turn
after_write written sender p = goes_on sender (some p)
after_write connection_closed sender p = ends
after_write other_error sender p = not_written sender p

-- The file, opened again at its end.
abbrev pub looped : Option (Opened WavFile) → Sender → Turn
looped (some (opened file)) sender = goes_on (record sender { file = file }) none
looped (some (failed e)) sender = ends
looped none sender = ends

abbrev pub with_next :
    Option (Opened WavFile)
    → WriteResult
    → ℕ
    → UdpAddr
    → Sender
    → (Option (List ℕ) × Option FrameError) × WavFile
    → Turn
with_next again result ssrc dst sender ((frame, some e), file) = ends
with_next again result ssrc dst sender ((none, none), file) = looped again sender
with_next again result ssrc dst sender ((some frame, none), file) =
    after_write result (next file sender) (packet sender.seq sender.ts ssrc frame, dst)

abbrev pub send_next : Option (Opened WavFile) → WriteResult → ℕ → Option UdpAddr → Sender → Turn
send_next again result ssrc none sender = goes_on (next sender.file sender) none
send_next again result ssrc (some dst) sender =
    with_next again result ssrc dst sender (next_frame sender.file)

-- One turn of `for` in run, at a tick.
unfoldable pub tick : Option (Opened WavFile) → WriteResult → PlaySession → Sender → Turn
tick again result s sender =
    let turn = send_next again result s.ssrc s.dest sender in if s.stopped then ends else turn
