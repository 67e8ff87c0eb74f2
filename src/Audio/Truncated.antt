-- ===== src/Audio/Truncated.antt =====
-- A file that ends before its data does, in pkg/play.
use funsip.Base.{
  ℕ, zero, suc, ◌+◌, ◌-◌, ◌%◌, ◌^◌, ◌==◌, ◌≡◌, refl, ap, sym, false, true, Option, none, some, List,
  [], ◌∷◌, length, arith, All, Bool, ◌||◌, subst, ◌⊎◌, inl, inr,
}
use funsip.Base.Wire.{take, drop, fill}
use funsip.Audio.Codec.{encode_ulaw_inline, decode_alaw_inline}
use funsip.Audio.Reader.{
  WavFile, Opened, next_frame, read_n, smaller, wav_fmt_pcm, wav_fmt_alaw, wav_fmt_ulaw,
  frame_samples,
}
use funsip.Audio.Player.{UdpAddr, PlaySession, Sender, goes_on, written, packet, tick}
use funsip.Audio.Sending.{sent, collect}

-- A file with nothing left to be read, whose data should have d + 1 more bytes.
abbrev pub truncated : ℕ → ℕ → ℕ → WavFile
truncated format width d = record {
  left = [];
  format = format;
  sample_bytes = width;
  data_left = suc d;
}

abbrev pub is_known : ℕ → Bool
is_known format = format == wav_fmt_pcm || (format == wav_fmt_alaw || format == wav_fmt_ulaw)

take-nil : (n : ℕ) → take {A = ℕ} n [] ≡ []
take-nil zero = refl
take-nil (suc n) = refl

read_n-truncated :
    (n format width d : ℕ) → read_n n (truncated format width d) ≡ ([], truncated format width d)
unfolding read_n
read_n-truncated n format width d =
    let nothing_read : suc d - 0 ≡ suc d = omega arith in
    simp (take-nil (smaller n (suc d)), nothing_read)

known_cases : (format : ℕ) → is_known format ≡ true → (format ≡ 1) ⊎ ((format ≡ 6) ⊎ (format ≡ 7))
known_cases format h = ground arith

next_frame-truncated :
    (format width d : ℕ)
    → is_known format ≡ true
    → next_frame (truncated format width d) ≡ ((some [], none), truncated format width d)
unfolding next_frame encode_ulaw_inline decode_alaw_inline
next_frame-truncated format width d known =
    let claims : (suc d == 0) ≡ false = ground arith in
    elim (known_cases format known) [
      | inl pcm ↦
          subst (λ f. next_frame (truncated f width d) ≡ ((some [], none), truncated f width d))
            (sym pcm) (simp (claims, read_n-truncated 320 1 width d))
      | inr (inl alaw) ↦
          subst (λ f. next_frame (truncated f width d) ≡ ((some [], none), truncated f width d))
            (sym alaw) (simp (claims, read_n-truncated 160 6 width d))
      | inr (inr ulaw) ↦
          subst (λ f. next_frame (truncated f width d) ≡ ((some [], none), truncated f width d))
            (sym ulaw) (simp (claims, read_n-truncated 160 7 width d))
    ]

abbrev pub IsSilence : List ℕ → Type 0
IsSilence p = drop 12 p ≡ fill frame_samples 0xff

abbrev at : ℕ → ℕ → ℕ → ℕ → ℕ → Sender
at format width d seq ts = record { file = truncated format width d; seq = seq; ts = ts }

-- A turn at the end of such a file: a packet without samples, and the file as it was.
tick-truncated :
    (s : PlaySession) (dst : UdpAddr) (again : Option (Opened WavFile)) (format width d seq ts : ℕ)
    → s.dest ≡ some dst
    → s.stopped ≡ false
    → is_known format ≡ true
    → tick again written s (at format width d seq ts)
      ≡ goes_on
          (at format width d ((seq + 1) % 2 ^ 16) ((ts + frame_samples) % 2 ^ 32))
          (some (packet seq ts s.ssrc [], dst))
unfolding tick
tick-truncated s dst again format width d seq ts e running known =
    simp (running, e, next_frame-truncated format width d known)

-- A player that knows where to send, at the end of a file that is shorter than its data chunk says: in
-- every turn from then on it sends 160 bytes of silence. It never takes this for the end of the file,
-- and so never opens it again, whatever that would give.
pub truncated_file_stalls :
    (s : PlaySession) (dst : UdpAddr) (turns : List (Option (Opened WavFile)))
    (format width d seq ts : ℕ)
    → s.dest ≡ some dst
    → s.stopped ≡ false
    → is_known format ≡ true
    → (let sender : Sender = record { file = truncated format width d; seq = seq; ts = ts } in
        All IsSilence (sent turns s sender) × (length (sent turns s sender) ≡ length turns))
truncated_file_stalls s dst [] format width d seq ts e running known = (tt, refl)
truncated_file_stalls s dst (again ∷ rest) format width d seq ts e running known =
    let later =
      truncated_file_stalls s dst rest format width d ((seq + 1) % 2 ^ 16)
        ((ts + frame_samples) % 2 ^ 32) e running known in
    subst
      (λ t.
        All IsSilence (collect (sent rest s) t)
        × (length (collect (sent rest s) t) ≡ suc (length rest)))
      (sym (tick-truncated s dst again format width d seq ts e running known))
      ((refl, later.0), ap suc later.1)
