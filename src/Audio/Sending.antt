-- ===== src/Audio/Sending.antt =====
-- The packets that the sender of pkg/play/session.go writes.
use funsip.Base.{
  ℕ, suc, ◌+◌, ◌%◌, ◌^◌, ◌<◌, ◌≡◌, refl, ap, ◌∙◌, sym, false, Option, none, some, List, [], ◌∷◌,
  arith, map, if-both, subst,
}
use funsip.Rtp.{Header, parse}
use funsip.Media.Losses.{Consecutive, Consecutive-congruent, count_of, in_order_loses_nothing}
use funsip.Media.Qos.{new_qos_tracker, observe_all}
use funsip.Audio.Reader.{WavFile, FrameError, Opened, opened, failed, next_frame}
use funsip.Audio.Player.{
  UdpAddr, PlaySession, Sender, Turn, goes_on, not_written, ends, WriteResult, written, other_error,
  connection_closed, after_write, packet, next, looped, with_next, send_next, tick,
}

-- The packets that the turns of the loop hand to the socket, in order, also those whose write fails.
abbrev pub collect : (Sender → List (List ℕ)) → Turn → List (List ℕ)
collect again ends = []
collect again (goes_on sender none) = again sender
collect again (goes_on sender (some (p, dst))) = p ∷ again sender
collect again (not_written sender (p, dst)) = p ∷ again sender

-- For each turn, what opening the file again gives and how the write ends.
abbrev pub given :
    List (Option (Opened WavFile) × WriteResult) → PlaySession → Sender → List (List ℕ)
given [] s sender = []
given ((again, result) ∷ rest) s sender = collect (given rest s) (tick again result s sender)

abbrev pub all_written :
    List (Option (Opened WavFile)) → List (Option (Opened WavFile) × WriteResult)
all_written [] = []
all_written (again ∷ rest) = (again, written) ∷ all_written rest

-- The packets that are sent where each write succeeds.
abbrev pub sent : List (Option (Opened WavFile)) → PlaySession → Sender → List (List ℕ)
sent turns s sender = given (all_written turns) s sender

-- Timestamps that are 160 apart from `ts` on, modulo 2 ^ 32.
abbrev pub Timed : ℕ → List Header → Type 0
Timed ts [] = Unit
Timed ts (h ∷ hs) = (h.timestamp ≡ ts % 2 ^ 32) × Timed (ts + 160) hs

-- The header that the receiver of a packet reads.
abbrev pub header_of : ℕ → ℕ → ℕ → Header
header_of seq ts ssrc = record {
  version = 2;
  padding = false;
  extension = false;
  csrc_count = 0;
  marker = false;
  payload_type = 0;
  sequence = seq;
  timestamp = ts;
  ssrc = ssrc;
  payload_offset = 12;
}

parse-packet :
    (seq ts ssrc : ℕ) (frame : List ℕ)
    → seq < 2 ^ 16
    → ts < 2 ^ 32
    → ssrc < 2 ^ 32
    → parse (packet seq ts ssrc frame) ≡ some (header_of seq ts ssrc)
unfolding parse
parse-packet seq ts ssrc frame a b c = ground arith

Timed-congruent : (a b : ℕ) (hs : List Header) → a % 2 ^ 32 ≡ b % 2 ^ 32 → Timed a hs → Timed b hs
Timed-congruent a b [] e t = tt
Timed-congruent a b (h ∷ hs) e t =
    (t.0 ∙ e, Timed-congruent (a + 160) (b + 160) hs (omega arith) t.1)

record InSequence (seq ts : ℕ) (packets : List (List ℕ)) : Type 0 where
  headers : List Header
  parsed : map parse packets ≡ map some headers
  numbered : Consecutive seq headers
  timed : Timed ts headers

nothing-InSequence : (seq ts : ℕ) → InSequence seq ts []
nothing-InSequence seq ts = record { headers = []; parsed = refl; numbered = tt; timed = tt }

-- A packet, and those of the sender that comes out of writing it.
packet-InSequence :
    (ssrc : ℕ) (file : WavFile) (frame : List ℕ) (sender : Sender) (later : List (List ℕ))
    → sender.seq < 2 ^ 16
    → sender.ts < 2 ^ 32
    → ssrc < 2 ^ 32
    → InSequence (next file sender).seq (next file sender).ts later
    → InSequence sender.seq sender.ts (packet sender.seq sender.ts ssrc frame ∷ later)
packet-InSequence ssrc file frame sender later a b c h = record {
  headers = header_of sender.seq sender.ts ssrc ∷ h.headers;
  parsed =
      ap (λ p. p ∷ map parse later) (parse-packet sender.seq sender.ts ssrc frame a b c)
      ∙ ap (λ r. some (header_of sender.seq sender.ts ssrc) ∷ r) h.parsed;
  numbered = (
    omega arith,
    Consecutive-congruent (next file sender).seq (suc sender.seq) h.headers (omega arith)
        h.numbered,
  );
  timed = (
    omega arith,
    Timed-congruent (next file sender).ts (sender.ts + 160) h.headers (omega arith) h.timed,
  );
}

-- One turn, where the turns that follow are in sequence.
module _ (s : PlaySession) (rest : List (Option (Opened WavFile) × WriteResult))
    (later : (sender : Sender)
      → sender.seq < 2 ^ 16
      → sender.ts < 2 ^ 32
      → InSequence sender.seq sender.ts (given rest s sender))
    (sender : Sender) (a : sender.seq < 2 ^ 16) (b : sender.ts < 2 ^ 32) (c : s.ssrc < 2 ^ 32) where
  looped-InSequence :
      (again : Option (Opened WavFile))
      → InSequence sender.seq sender.ts (collect (given rest s) (looped again sender))
  looped-InSequence none = nothing-InSequence sender.seq sender.ts
  looped-InSequence (some (failed e)) = nothing-InSequence sender.seq sender.ts
  looped-InSequence (some (opened file)) = later (record sender { file = file }) a b

  after_write-InSequence :
      (result : WriteResult) (dst : UdpAddr) (frame : List ℕ) (file : WavFile)
      → InSequence sender.seq sender.ts (
          collect
            (given rest s)
            (after_write result (next file sender) (packet sender.seq sender.ts s.ssrc frame, dst)))
  after_write-InSequence written dst frame file =
      packet-InSequence s.ssrc file frame sender (given rest s (next file sender)) a b c
        (later (next file sender) (omega arith) (omega arith))
  after_write-InSequence other_error dst frame file =
      packet-InSequence s.ssrc file frame sender (given rest s (next file sender)) a b c
        (later (next file sender) (omega arith) (omega arith))
  after_write-InSequence connection_closed dst frame file = nothing-InSequence sender.seq sender.ts

  with_next-InSequence :
      (again : Option (Opened WavFile)) (result : WriteResult) (dst : UdpAddr)
      (f : (Option (List ℕ) × Option FrameError) × WavFile)
      → InSequence sender.seq sender.ts
          (collect (given rest s) (with_next again result s.ssrc dst sender f))
  with_next-InSequence again result dst ((frame, some e), file) =
      nothing-InSequence sender.seq sender.ts
  with_next-InSequence again result dst ((none, none), file) = looped-InSequence again
  with_next-InSequence again result dst ((some frame, none), file) =
      after_write-InSequence result dst frame file

  tick-InSequence :
      (again : Option (Opened WavFile)) (result : WriteResult) (dst : UdpAddr)
      → s.dest ≡ some dst
      → InSequence sender.seq sender.ts (collect (given rest s) (tick again result s sender))
  unfolding tick
  tick-InSequence again result dst e =
      if-both (λ t. InSequence sender.seq sender.ts (collect (given rest s) t)) s.stopped {x = ends}
        {y = send_next again result s.ssrc s.dest sender} (nothing-InSequence sender.seq sender.ts)
        (subst
          (λ d.
            InSequence sender.seq sender.ts
              (collect (given rest s) (send_next again result s.ssrc d sender)))
          (sym e) (with_next-InSequence again result dst (next_frame sender.file)))

given-InSequence :
    (s : PlaySession) (dst : UdpAddr) (turns : List (Option (Opened WavFile) × WriteResult))
    → s.dest ≡ some dst
    → s.ssrc < 2 ^ 32
    → (sender : Sender) → sender.seq < 2 ^ 16
    → sender.ts < 2 ^ 32
    → InSequence sender.seq sender.ts (given turns s sender)
given-InSequence s dst [] e c sender a b = nothing-InSequence sender.seq sender.ts
given-InSequence s dst ((again, result) ∷ rest) e c sender a b =
    tick-InSequence s rest (given-InSequence s dst rest e c) sender a b c again result dst e

-- A player that knows where to send, on any file, over any number of turns of its loop, which reach the
-- end of the file and open it again, or fail to, as often as may be, and whose writes may fail: every
-- packet that it hands to the socket can be parsed, the sequence numbers are one apart from the first one
-- on, and the timestamps 160, over the wraps of both. A packet whose write fails has its number like any
-- other. So a tracker of the relay that sees all of these packets counts each as received and none as
-- lost.
pub player_in_sequence :
    (s : PlaySession) (dst : UdpAddr) (turns : List (Option (Opened WavFile) × WriteResult))
    (sender : Sender)
    → s.dest ≡ some dst
    → s.ssrc < 2 ^ 32
    → sender.seq < 2 ^ 16
    → sender.ts < 2 ^ 32
    → (headers : List Header) × (map parse (given turns s sender) ≡ map some headers)
      × Consecutive sender.seq headers
      × Timed sender.ts headers
      × ((observe_all headers new_qos_tracker).received ≡ count_of headers)
      × ((observe_all headers new_qos_tracker).lost ≡ 0)
player_in_sequence s dst turns sender e c a b =
    let h = given-InSequence s dst turns e c sender a b in
    let counted = in_order_loses_nothing sender.seq h.headers h.numbered in
    (h.headers, h.parsed, h.numbered, h.timed, counted.1, counted.0)
