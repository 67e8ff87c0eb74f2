-- ===== src/Audio/RoundTrip.antt =====
-- What wavWriter of pkg/media/wav.go records, the reader of pkg/play/wav.go plays.
use funsip.Base.{
  ℕ, zero, suc, ◌-◌, ◌*◌, ◌^◌, ◌<◌, ◌≤◌, ◌==◌, ◌≡◌, refl, ap, ◌∙◌, true, false, Option, none, some,
  List, [], ◌∷◌, ◌++◌, length, arith, All,
}
use funsip.Base.Int.{ℤ}
use funsip.Base.Wire.{length-take, length-drop, All-take, All-drop, take, drop, uint32_le-le32}
use funsip.Text.{Text}
use funsip.Rtp.G711.{encode_pcmu, ulaw_encode_one}
use funsip.Audio.Codec.{encode_ulaw_inline-eq}
use funsip.Audio.Reader.{
  FrameError, WavFile, open_wav, behind_riff, smaller, frame_samples, opened, next_frame, read_n,
  read_chunks, next_chunk,
}
use funsip.Audio.Recording.{Action, accepted, record_all, close-file}
use funsip.Audio.Samples.{
  IsInt16, pcm_samples-sample_bytes, length-sample_bytes, take-sample_bytes, drop-sample_bytes,
}
use funsip.Audio.Writer.{
  WavWriter, new_wav_writer, close, complete, sample_bytes, riff_header, size_limit,
}

-- What openWav makes of a file with the header of the recorder.
pub open_wav-riff :
    (size : ℕ) (body : List ℕ)
    → size < 2 ^ 32
    → open_wav (riff_header 8000 size ++ body)
      ≡ some (opened (record { left = body; format = 1; sample_bytes = 2; data_left = size }))
unfolding open_wav behind_riff read_chunks next_chunk
open_wav-riff size body h =
    ap (λ n. some (opened (record { left = body; format = 1; sample_bytes = 2; data_left = n })))
      (uint32_le-le32 size h)

-- A file of 16-bit samples of which the samples xs are still to be played.
abbrev pcm_file : List ℤ → WavFile
pcm_file xs = record {
  left = sample_bytes xs;
  format = 1;
  sample_bytes = 2;
  data_left = length xs * 2;
}

read_n-pcm_file :
    (k : ℕ) (xs : List ℤ)
    → smaller (2 * frame_samples) (length xs * 2) ≡ k * 2
    → k ≤ length xs
    → read_n (2 * frame_samples) (pcm_file xs) ≡ (sample_bytes (take k xs), pcm_file (drop k xs))
unfolding read_n
read_n-pcm_file k xs e h =
    let got : take (smaller 320 (length xs * 2)) (sample_bytes xs) ≡ sample_bytes (take k xs) =
      rw e (take-sample_bytes (k * 2) k xs refl) in
    let size : length (sample_bytes (take k xs)) ≡ k * 2 =
      omega (arith, length-sample_bytes (take k xs), length-take k xs h) in
    let left : length xs * 2 - k * 2 ≡ length (drop k xs) * 2 = omega (arith, length-drop k xs) in
    simp (got, size, left, drop-sample_bytes (k * 2) k xs refl)

-- Some samples are left to be played: a frame has at most 160 of them.
next_frame-pcm_file :
    (x : ℤ) (xs : List ℤ)
    → All IsInt16 (x ∷ xs)
    → (let k = smaller frame_samples (suc (length xs)) in
        next_frame (pcm_file (x ∷ xs))
        ≡ ((some (encode_pcmu (take k (x ∷ xs))), none), pcm_file (drop k (x ∷ xs))))
unfolding next_frame
next_frame-pcm_file x xs h =
    let k = smaller frame_samples (suc (length xs)) in
    let read_it = read_n-pcm_file k (x ∷ xs) (ground arith) (ground arith) in
    let some_left : (suc (length xs) * 2 == 0) ≡ false = ground arith in
    simp (
      read_it,
      some_left,
      pcm_samples-sample_bytes (take k (x ∷ xs)) (All-take IsInt16 k (x ∷ xs) h),
      encode_ulaw_inline-eq (take k (x ∷ xs)),
    )

abbrev pub with_frame :
    (WavFile → List ℕ) → (Option (List ℕ) × Option FrameError) × WavFile → List ℕ
with_frame again ((none, e), w) = []
with_frame again ((some frame, e), w) = frame ++ again w

-- The frames that nextFrame gives up to the end of the data.
unfoldable pub frames : ℕ → WavFile → List ℕ
frames zero w = []
frames (suc fuel) w = with_frame (frames fuel) (next_frame w)

encode_pcmu-take-drop :
    (k : ℕ) (xs : List ℤ) → encode_pcmu (take k xs) ++ encode_pcmu (drop k xs) ≡ encode_pcmu xs
unfolding encode_pcmu
encode_pcmu-take-drop zero xs = refl
encode_pcmu-take-drop (suc k) [] = refl
encode_pcmu-take-drop (suc k) (x ∷ xs) =
    ap (λ r. ulaw_encode_one x ∷ r) (encode_pcmu-take-drop k xs)

frames-pcm_file :
    (fuel : ℕ) (xs : List ℤ)
    → All IsInt16 xs
    → length xs < fuel
    → frames fuel (pcm_file xs) ≡ encode_pcmu xs
unfolding frames next_frame encode_pcmu
frames-pcm_file zero xs h e = absurd (omega arith)
frames-pcm_file (suc fuel) [] h e = refl
frames-pcm_file (suc fuel) (x ∷ xs) h e =
    let k = smaller frame_samples (suc (length xs)) in
    let positive : 1 ≤ k = ground arith in
    ap (with_frame (frames fuel)) (next_frame-pcm_file x xs h)
    ∙ ap (λ r. encode_pcmu (take k (x ∷ xs)) ++ r)
        (frames-pcm_file fuel (drop k (x ∷ xs)) (All-drop IsInt16 k (x ∷ xs) h)
          (omega (arith, length-drop k (x ∷ xs), positive)))
    ∙ encode_pcmu-take-drop k (x ∷ xs)

-- A recorder at 8000 samples a second is given slices of samples while its worker writes, in any order of
-- these steps, and is closed; no write fails, and the samples that found room in the queue are at most
-- as many as a header can say. Then the player opens the file, and its frames up to the end of the data,
-- which need no more calls than there are samples and one more, are these samples in order, in µ-law.
pub recorded_plays :
    (path : Text) (w : WavWriter) (actions : List Action) (fuel : ℕ)
    → new_wav_writer path 8000 true true ≡ some w
    → All IsInt16 (accepted actions w)
    → length (accepted actions w) * 2 ≤ size_limit
    → length (accepted actions w) < fuel
    → (f : WavFile) × (open_wav (close [] true complete (record_all actions w)).file
        ≡ some (opened f))
      × (frames fuel f ≡ encode_pcmu (accepted actions w))
recorded_plays path w actions fuel made h fits enough =
    let samples = accepted actions w in
    (
      pcm_file samples,
      ap open_wav (close-file path 8000 w actions made fits)
          ∙ open_wav-riff (length samples * 2) (sample_bytes samples) (omega arith),
      frames-pcm_file fuel samples h enough,
    )
