-- ===== src/Audio/Writer.antt =====
-- wavWriter of pkg/media/wav.go. The file is the list of its bytes. The worker goroutine is one step for
-- each slice that it takes from the queue; what the operating system makes of a write is an argument.
use funsip.Base.{
  ℕ, ◌+◌, ◌-◌, ◌*◌, ◌/◌, ◌%◌, ◌^◌, Bool, true, false, ◌||◌, Option, none, some, List, [], ◌∷◌, ◌++◌,
  length, ltb, if◌then◌else◌,
}
use funsip.Base.Int.{ℤ, pos, negsuc}
use funsip.Base.Wire.{take, drop, fill, le16, le32}
use funsip.Text.{Text, lit}

pub record WavWriter : Type 0 where
  pub path : Text
  pub sample_rate : ℕ
  pub file : List ℕ
  pub queue : List (List ℤ)
  pub closed : Bool
  pub done : Bool
  pub written : ℕ
  pub dropped : ℕ

-- newWavWriter, where `created` and `reserved` say whether Create and the first Write succeed.
unfoldable pub new_wav_writer : Text → ℕ → Bool → Bool → Option WavWriter
new_wav_writer path sample_rate created reserved =
    if created
    then if reserved
      then some (record {
        path = path;
        sample_rate = sample_rate;
        file = fill 44 0;
        queue = [];
        closed = false;
        done = false;
        written = 0;
        dropped = 0;
      })
      else none
    else none

abbrev pub queue_limit : ℕ
queue_limit = 256

abbrev pub is_nothing : List ℤ → Bool
is_nothing [] = true
is_nothing (s ∷ rest) = false

-- The `select` of Push
abbrev pub enqueue : List ℤ → WavWriter → WavWriter
enqueue samples w =
    if ltb (length w.queue) queue_limit
    then record w { queue = w.queue ++ samples ∷ [] }
    else record w { dropped = w.dropped + 1 }

-- Push
unfoldable pub push : List ℤ → WavWriter → WavWriter
push samples w = if w.closed || is_nothing samples then w else enqueue samples w

-- An int16 as the 16 bits that `byte(s)` and `byte(s>>8)` read.
abbrev pub bits_of : ℤ → ℕ
bits_of (pos n) = n % 65536
bits_of (negsuc n) = 65535 - n % 65536

abbrev pub sample_bytes : List ℤ → List ℕ
sample_bytes [] = []
sample_bytes (s ∷ rest) = (bits_of s % 256) ∷ (bits_of s / 256) ∷ sample_bytes rest

-- How a write ends: all bytes written, or an error behind some of them.
pub data WriteResult : Type 0 where
  complete : WriteResult
  broken_after : ℕ → WriteResult

abbrev pub append_samples : List ℤ → WriteResult → WavWriter → WavWriter
append_samples samples complete w = record w {
  file = w.file ++ sample_bytes samples;
  written = w.written + length samples;
}
append_samples samples (broken_after n) w = record w {
  file = w.file ++ take n (sample_bytes samples);
}

abbrev pub write_first : List (List ℤ) → WriteResult → WavWriter → WavWriter
write_first [] result w = w
write_first (samples ∷ rest) result w = append_samples samples result (record w { queue = rest })

-- One turn of the worker's loop.
unfoldable pub work : WriteResult → WavWriter → WavWriter
work result w = write_first w.queue result w

abbrev pub size_limit : ℕ
size_limit = 0xffffffff - 36

-- `uint32(samples * 2)`, then cut to the greatest size that the header can say.
abbrev pub data_size : ℕ → ℕ
data_size samples =
    let size : ℕ = samples * 2 % 2 ^ 64 % 2 ^ 32 in if ltb size_limit size then size_limit else size

abbrev pub riff_header : ℕ → ℕ → List ℕ
riff_header sample_rate size =
    lit "RIFF"
    ++ (le32 (36 + size)
        ++ (lit "WAVE"
            ++ (lit "fmt "
                ++ (le32 16
                    ++ (le16 1
                        ++ (le16 1
                            ++ (le32 sample_rate
                                ++ (le32 (sample_rate * 2)
                                    ++ (le16 2 ++ (le16 16 ++ (lit "data" ++ le32 size)))))))))))

abbrev pub header_of : WavWriter → List ℕ
header_of w = riff_header w.sample_rate (data_size w.written)

-- The write of the header at the start of the file.
abbrev pub rewrite_header : WriteResult → WavWriter → WavWriter
rewrite_header complete w = record w { file = header_of w ++ drop 44 w.file }
rewrite_header (broken_after n) w = record w {
  file = take n (header_of w) ++ drop (length (take n (header_of w))) w.file;
}

-- finalize, where `sought` says whether Seek succeeds.
unfoldable pub finalize : Bool → WriteResult → WavWriter → WavWriter
finalize sought result w =
    let rewritten = rewrite_header result w in
    record (if sought then rewritten else w) { done = true }

-- The worker's loop over what is queued; behind the last result that is given, writes succeed.
abbrev pub drain_queue : List (List ℤ) → List WriteResult → WavWriter → WavWriter
drain_queue [] results w = w
drain_queue (samples ∷ rest) [] w =
    drain_queue rest [] (append_samples samples complete (record w { queue = rest }))
drain_queue (samples ∷ rest) (result ∷ results) w =
    drain_queue rest results (append_samples samples result (record w { queue = rest }))

-- Close: the queue is closed, the worker drains it, and the header is written.
unfoldable pub close : List WriteResult → Bool → WriteResult → WavWriter → WavWriter
unfolding finalize
close results sought result w =
    if w.closed
    then w
    else finalize sought result (drain_queue w.queue results (record w { closed = true }))
