-- ===== src/Audio/Samples.antt =====
-- The bytes of 16-bit samples.
use funsip.Base.{
  ℕ, zero, suc, ◌+◌, ◌*◌, ◌/◌, ◌%◌, ◌<◌, ◌≡◌, refl, ap, ◌∙◌, List, [], ◌∷◌, ◌++◌, length, arith,
  All,
}
use funsip.Base.Int.{ℤ, pos, negsuc}
use funsip.Base.Wire.{take, drop}
use funsip.Audio.Reader.{pcm_samples, int16_of}
use funsip.Audio.Writer.{sample_bytes, bits_of}

-- The values of an int16.
abbrev pub IsInt16 : ℤ → Type 0
IsInt16 (pos n) = n < 32768
IsInt16 (negsuc n) = n < 32768

pub int16_of-bits_of : (s : ℤ) → IsInt16 s → int16_of (bits_of s % 256 + bits_of s / 256 * 256) ≡ s
int16_of-bits_of (pos n) h = ground arith
int16_of-bits_of (negsuc n) h = ground arith

pub pcm_samples-sample_bytes : (xs : List ℤ) → All IsInt16 xs → pcm_samples (sample_bytes xs) ≡ xs
pcm_samples-sample_bytes [] h = refl
pcm_samples-sample_bytes (x ∷ xs) h =
    ap (λ s. s ∷ pcm_samples (sample_bytes xs)) (int16_of-bits_of x h.0)
    ∙ ap (λ r. x ∷ r) (pcm_samples-sample_bytes xs h.1)

pub sample_bytes-append :
    (xs ys : List ℤ) → sample_bytes (xs ++ ys) ≡ sample_bytes xs ++ sample_bytes ys
sample_bytes-append [] ys = refl
sample_bytes-append (x ∷ xs) ys =
    ap (λ r. (bits_of x % 256) ∷ (bits_of x / 256) ∷ r) (sample_bytes-append xs ys)

pub length-sample_bytes : (xs : List ℤ) → length (sample_bytes xs) ≡ length xs * 2
length-sample_bytes [] = refl
length-sample_bytes (x ∷ xs) = omega (arith, length-sample_bytes xs)

pub take-sample_bytes :
    (n k : ℕ) (xs : List ℤ) → n ≡ k * 2 → take n (sample_bytes xs) ≡ sample_bytes (take k xs)
take-sample_bytes zero zero xs e = refl
take-sample_bytes zero (suc k) xs e = absurd (omega arith)
take-sample_bytes (suc n) zero xs e = absurd (omega arith)
take-sample_bytes (suc n) (suc k) [] e = refl
take-sample_bytes (suc zero) (suc k) (x ∷ xs) e = absurd (omega arith)
take-sample_bytes (suc (suc n)) (suc k) (x ∷ xs) e =
    ap (λ r. (bits_of x % 256) ∷ (bits_of x / 256) ∷ r) (take-sample_bytes n k xs (omega arith))

pub drop-sample_bytes :
    (n k : ℕ) (xs : List ℤ) → n ≡ k * 2 → drop n (sample_bytes xs) ≡ sample_bytes (drop k xs)
drop-sample_bytes zero zero xs e = refl
drop-sample_bytes zero (suc k) xs e = absurd (omega arith)
drop-sample_bytes (suc n) zero xs e = absurd (omega arith)
drop-sample_bytes (suc n) (suc k) [] e = refl
drop-sample_bytes (suc zero) (suc k) (x ∷ xs) e = absurd (omega arith)
drop-sample_bytes (suc (suc n)) (suc k) (x ∷ xs) e = drop-sample_bytes n k xs (omega arith)
