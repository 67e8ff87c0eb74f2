-- ===== src/Audio/Reader.antt =====
-- pkg/play/wav.go. An open file is the list of the bytes that are left to read; a read gives as many of
-- them as it is asked for, or as there are.
use funsip.Base.{
  ℕ, zero, suc, ◌+◌, ◌-◌, ◌*◌, ◌==◌, not, ◌||◌, Option, none, some, List, [], ◌∷◌, ◌++◌, length,
  ltb, if◌then◌else◌,
}
use funsip.Base.Int.{ℤ, pos, negsuc}
use funsip.Base.Wire.{take, drop, fill, uint16_le, uint32_le}
use funsip.Text.{lit, text_eq}
use funsip.Audio.Codec.{decode_alaw_inline, encode_ulaw_inline}

abbrev pub wav_fmt_pcm : ℕ
wav_fmt_pcm = 1

abbrev pub wav_fmt_alaw : ℕ
wav_fmt_alaw = 6

abbrev pub wav_fmt_ulaw : ℕ
wav_fmt_ulaw = 7

pub record WavFile : Type 0 where
  pub left : List ℕ
  pub format : ℕ
  pub sample_bytes : ℕ
  pub data_left : ℕ

pub data WavError : Type 0 where
  read_riff_header not_riff_wave read_chunk_header read_fmt_chunk fmt_chunk_too_short no_fmt_chunk
        only_mono only_8000_hz only_16_bit unsupported_format :
      WavError

-- `f.Read(buf)` on a buffer of n bytes of 0: the buffer, and what is left of the file.
abbrev pub read : ℕ → List ℕ → Option (List ℕ × List ℕ)
read zero file = some ([], file)
read (suc n) [] = none
read (suc n) (b ∷ rest) =
    let got = take (suc n) (b ∷ rest) in
    some (got ++ fill (suc n - length got) 0, drop (suc n) (b ∷ rest))

-- What a chunk `fmt ` says.
pub record Format : Type 0 where
  pub format : ℕ
  pub channels : ℕ
  pub sample_rate : ℕ
  pub bits_per_samp : ℕ

abbrev pub format_of : List ℕ → Format
format_of body = record {
  format = uint16_le body;
  channels = uint16_le (drop 2 body);
  sample_rate = uint32_le (drop 4 body);
  bits_per_samp = uint16_le (drop 14 body);
}

pub data Opened (A : Type 0) : Type 0 where
  opened : A → Opened A
  failed : WavError → Opened A

pub data Chunk : Type 0 where
  fmt_chunk : Format → List ℕ → Chunk
  data_chunk : ℕ → List ℕ → Chunk
  other_chunk : List ℕ → Chunk
  broken_chunk : WavError → Chunk

abbrev pub read_fmt : ℕ → Option (List ℕ × List ℕ) → Chunk
read_fmt size none = broken_chunk read_fmt_chunk
read_fmt size (some (body, rest)) =
    if ltb size 16 then broken_chunk fmt_chunk_too_short else fmt_chunk (format_of body) rest

-- The body of the loop over the chunks.
abbrev pub chunk_of : Option (List ℕ × List ℕ) → Chunk
chunk_of none = broken_chunk read_chunk_header
chunk_of (some (header, rest)) =
    let size : ℕ = uint32_le (drop 4 header) in
    let body = read_fmt size (read size rest) in
    if text_eq (take 4 header) (lit "fmt ")
    then body
    else if text_eq (take 4 header) (lit "data")
    then data_chunk size rest
    else other_chunk (drop size rest)

unfoldable pub next_chunk : List ℕ → Chunk
next_chunk file = chunk_of (read 8 file)

-- The format that was seen last, the size of the data, and the file behind the header of the data.
pub record Chunks : Type 0 where
  pub format : Option Format
  pub data_len : ℕ
  pub rest : List ℕ

-- What a turn of the loop makes of its chunk.
abbrev pub turn :
    (Option Format → List ℕ → Option (Opened Chunks))
    → Option Format
    → Chunk
    → Option (Opened Chunks)
turn again seen (fmt_chunk f rest) = again (some f) rest
turn again seen (data_chunk size rest) =
    some (opened (record { format = seen; data_len = size; rest = rest }))
turn again seen (other_chunk rest) = again seen rest
turn again seen (broken_chunk e) = some (failed e)

-- The loop `for !seenData`; `none` when it runs out of fuel.
unfoldable pub read_chunks : ℕ → Option Format → List ℕ → Option (Opened Chunks)
unfolding next_chunk
read_chunks zero seen file = none
read_chunks (suc fuel) seen file = turn (read_chunks fuel) seen (next_chunk file)

abbrev pub wav_file : Format → Chunks → ℕ → WavFile
wav_file f c n = record {
  left = c.rest;
  format = f.format;
  sample_bytes = n;
  data_left = c.data_len;
}

-- What openWav requires of the format.
abbrev pub checked : Option Format → Chunks → Opened WavFile
checked none c = failed no_fmt_chunk
checked (some f) c =
    if not (f.channels == 1)
    then failed only_mono
    else if not (f.sample_rate == 8000)
    then failed only_8000_hz
    else if f.format == wav_fmt_pcm
    then if not (f.bits_per_samp == 16) then failed only_16_bit else opened (wav_file f c 2)
    else if f.format == wav_fmt_ulaw || f.format == wav_fmt_alaw
    then opened (wav_file f c 1)
    else failed unsupported_format

abbrev pub check_chunks : Option (Opened Chunks) → Option (Opened WavFile)
check_chunks none = none
check_chunks (some (failed e)) = some (failed e)
check_chunks (some (opened c)) = some (checked c.format c)

unfoldable pub behind_riff : Option (List ℕ × List ℕ) → Option (Opened WavFile)
unfolding read_chunks
behind_riff none = some (failed read_riff_header)
behind_riff (some (header, rest)) =
    let found = check_chunks (read_chunks (suc (length rest)) none rest) in
    if text_eq (take 4 header) (lit "RIFF")
    then if text_eq (drop 8 header) (lit "WAVE") then found else some (failed not_riff_wave)
    else some (failed not_riff_wave)

-- openWav on the bytes of a file that could be opened.
unfoldable pub open_wav : List ℕ → Option (Opened WavFile)
unfolding behind_riff
open_wav file = behind_riff (read 12 file)

abbrev pub smaller : ℕ → ℕ → ℕ
smaller a b = if ltb b a then b else a

-- readN: what was read, and the file afterwards.
unfoldable pub read_n : ℕ → WavFile → List ℕ × WavFile
read_n size w =
    let got = take (smaller size w.data_left) w.left in
    (got, record w { left = drop (length got) w.left; data_left = w.data_left - length got })

-- `int16(binary.LittleEndian.Uint16(...))`
abbrev pub int16_of : ℕ → ℤ
int16_of u = if ltb u 32768 then pos u else negsuc (65535 - u)

abbrev pub pcm_samples : List ℕ → List ℤ
pcm_samples (a ∷ b ∷ rest) = int16_of (a + b * 256) ∷ pcm_samples rest
pcm_samples _ = []

pub data FrameError : Type 0 where
  format_not_supported : FrameError

abbrev pub frame_samples : ℕ
frame_samples = 160

-- nextFrame: no frame at the end of the data, else the bytes of one.
unfoldable pub next_frame : WavFile → (Option (List ℕ) × Option FrameError) × WavFile
next_frame w =
    let narrow = read_n frame_samples w in
    let wide = read_n (2 * frame_samples) w in
    if w.data_left == 0
    then ((none, none), w)
    else if w.format == wav_fmt_ulaw
    then ((some narrow.0, none), narrow.1)
    else if w.format == wav_fmt_alaw
    then ((some (encode_ulaw_inline (decode_alaw_inline narrow.0)), none), narrow.1)
    else if w.format == wav_fmt_pcm
    then ((some (encode_ulaw_inline (pcm_samples wide.0)), none), wide.1)
    else ((none, some format_not_supported), w)
