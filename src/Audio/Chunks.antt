-- ===== src/Audio/Chunks.antt =====
-- The loop over the chunks of a file in openWav of pkg/play/wav.go.
use funsip.Base.{
  ℕ, zero, suc, ◌-◌, ◌<◌, ◌≡◌, refl, Option, none, some, List, [], ◌∷◌, ◌++◌, length, arith,
  if-both, ltb, if◌then◌else◌,
}
use funsip.Base.Wire.{take, drop, fill, length-drop, uint32_le}
use funsip.Text.{lit, text_eq}
use funsip.Audio.Reader.{
  Chunk, fmt_chunk, data_chunk, other_chunk, broken_chunk, read, read_fmt, format_of, chunk_of,
  next_chunk, turn, read_chunks, check_chunks, behind_riff, open_wav, Format, Opened, opened,
  failed, WavError, Chunks,
}

-- What is left of the file behind the chunk is shorter than n.
abbrev Shorter : ℕ → Chunk → Type 0
Shorter n (fmt_chunk f rest) = length rest < n
Shorter n (data_chunk size rest) = Unit
Shorter n (other_chunk rest) = length rest < n
Shorter n (broken_chunk e) = Unit

read_fmt-Shorter :
    (size n : ℕ) (file : List ℕ) → length file < n → Shorter n (read_fmt size (read size file))
read_fmt-Shorter zero n file h = tt
read_fmt-Shorter (suc size) n [] h = tt
read_fmt-Shorter (suc size) n (b ∷ rest) h =
    if-both (Shorter n) (ltb (suc size) 16) {x = broken_chunk WavError.fmt_chunk_too_short}
      {y = fmt_chunk
        (format_of
          (take (suc size) (b ∷ rest) ++ fill (suc size - length (take (suc size) (b ∷ rest))) 0))
        (drop (suc size) (b ∷ rest))}
      tt (omega (arith, length-drop (suc size) (b ∷ rest)))

chunk_of-Shorter :
    (n : ℕ) (header rest : List ℕ) → length rest < n → Shorter n (chunk_of (some (header, rest)))
chunk_of-Shorter n header rest h =
    let size = uint32_le (drop 4 header) in
    if-both (Shorter n) (text_eq (take 4 header) (lit "fmt ")) {x = read_fmt size (read size rest)}
      {y = if text_eq (take 4 header) (lit "data")
        then data_chunk size rest
        else other_chunk (drop size rest)}
      (read_fmt-Shorter size n rest h)
      (if-both (Shorter n) (text_eq (take 4 header) (lit "data")) {x = data_chunk size rest}
        {y = other_chunk (drop size rest)} tt (omega (arith, length-drop size rest)))

next_chunk-Shorter : (file : List ℕ) → Shorter (length file) (next_chunk file)
unfolding next_chunk
next_chunk-Shorter [] = tt
next_chunk-Shorter (b ∷ rest) =
    chunk_of-Shorter (suc (length rest))
      (take 8 (b ∷ rest) ++ fill (8 - length (take 8 (b ∷ rest))) 0) (drop 7 rest)
      (omega (arith, length-drop 7 rest))

abbrev pub HasResult {ℓ} : {A : Type ℓ} → Option A → Type ℓ
HasResult {A = A} o = (r : A) × (o ≡ some r)

-- One turn, where the turns that follow have a result.
turn-HasResult :
    (again : Option Format → List ℕ → Option (Opened Chunks)) (seen : Option Format) (n : ℕ)
    (c : Chunk)
    → ((later : Option Format) (rest : List ℕ) → length rest < n → HasResult (again later rest))
    → Shorter n c
    → HasResult (turn again seen c)
turn-HasResult again seen n (fmt_chunk f rest) later s = later (some f) rest s
turn-HasResult again seen n (data_chunk size rest) later s = (_, refl)
turn-HasResult again seen n (other_chunk rest) later s = later seen rest s
turn-HasResult again seen n (broken_chunk x) later s = (_, refl)

read_chunks-HasResult :
    (fuel : ℕ) (seen : Option Format) (file : List ℕ)
    → length file < fuel
    → HasResult (read_chunks fuel seen file)
unfolding read_chunks
read_chunks-HasResult zero seen file h = absurd (omega arith)
read_chunks-HasResult (suc fuel) seen file h =
    turn-HasResult (read_chunks fuel) seen (length file) (next_chunk file)
      (λ later rest l. read_chunks-HasResult fuel later rest (omega arith))
      (next_chunk-Shorter file)

check_chunks-HasResult :
    (found : Option (Opened Chunks)) → HasResult found → HasResult (check_chunks found)
check_chunks-HasResult none h = absurd cc
check_chunks-HasResult (some (opened c)) h = (_, refl)
check_chunks-HasResult (some (failed e)) h = (_, refl)

behind_riff-HasResult : (start : Option (List ℕ × List ℕ)) → HasResult (behind_riff start)
unfolding behind_riff
behind_riff-HasResult none = (_, refl)
behind_riff-HasResult (some (header, rest)) =
    if-both HasResult (text_eq (take 4 header) (lit "RIFF"))
      {x = if text_eq (drop 8 header) (lit "WAVE")
        then check_chunks (read_chunks (suc (length rest)) none rest)
        else some (failed WavError.not_riff_wave)}
      {y = some (failed WavError.not_riff_wave)}
      (if-both HasResult (text_eq (drop 8 header) (lit "WAVE"))
        {x = check_chunks (read_chunks (suc (length rest)) none rest)}
        {y = some (failed WavError.not_riff_wave)}
        (check_chunks-HasResult _
          (read_chunks-HasResult (suc (length rest)) none rest (omega arith)))
        (_, refl))
      (_, refl)

-- Opening a file comes to an end for every file, with the file ready to be played or with an error:
-- the loop over its chunks, which stops at the chunk of the data, never turns more often than the file
-- has bytes.
pub open_wav_ends : (file : List ℕ) → HasResult (open_wav file)
unfolding open_wav
open_wav_ends file = behind_riff-HasResult (read 12 file)
