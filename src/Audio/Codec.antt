-- ===== src/Audio/Codec.antt =====
-- pkg/play/codec.go, the package's own copy of two of the conversions of pkg/rtp/g711.go. The widths of
-- the local variables change nothing: every value fits.
use Prim.Native.Nat.{bit_and, bit_or, bit_xor}
use funsip.Base.{
  ℕ, zero, suc, ◌+◌, ◌-◌, ◌*◌, ◌/◌, ◌^◌, ◌<◌, ◌==◌, ◌≡◌, refl, ap, ◌∙◌, Bool, true, not, ◌&&◌, List,
  [], ◌∷◌, map, ltb, if◌then◌else◌, arith, All,
}
use funsip.Base.Int.{ℤ, pos, negsuc, neg_ℕ, pos_part, neg_part}
use funsip.Base.Tables.{table_holds, table-entry}
use funsip.Rtp.G711.{
  alaw_decode_one, ulaw_encode_one, decode_pcma, encode_pcmu, ulaw_exponent, complement,
}

abbrev alaw_sample : ℕ → ℕ → ℕ
alaw_sample exponent mantissa =
    if not (exponent == 0)
    then (mantissa * 2 ^ 4 + 0x108) * 2 ^ (exponent - 1)
    else mantissa * 2 ^ 4 + 8

abbrev alaw_inline : ℕ → ℤ
alaw_inline a =
    let sample : ℕ = alaw_sample (bit_and (a / 2 ^ 4) 0x07) (bit_and a 0x0f) in
    if not (bit_and a 0x80 == 0) then neg_ℕ sample else pos sample

-- decodeALawInline
unfoldable pub decode_alaw_inline : List ℕ → List ℤ
decode_alaw_inline bytes = map (λ a. alaw_inline (bit_xor a 0x55)) bytes

-- `for mask := int32(0x4000); mask&v == 0 && exp > 0; mask >>= 1 { exp-- }`
unfoldable inline_exponent : ℕ → ℕ → ℕ → ℕ
inline_exponent zero mask v = 0
inline_exponent (suc e) mask v =
    let shifted = inline_exponent e (mask / 2) v in if bit_and mask v == 0 then shifted else suc e

abbrev clipped : ℕ → ℕ
clipped v = (if ltb 32635 v then 32635 else v) + 0x84

abbrev ulaw_of : ℕ → ℕ → ℕ
unfolding inline_exponent
ulaw_of sign v =
    let exp : ℕ = inline_exponent 7 0x4000 v in
    complement (bit_or (bit_or sign (exp * 2 ^ 4)) (bit_and (v / 2 ^ (exp + 3)) 0x0f))

abbrev ulaw_inline : ℤ → ℕ
unfolding inline_exponent
ulaw_inline (pos n) = ulaw_of 0 (clipped n)
ulaw_inline (negsuc n) = ulaw_of 0x80 (clipped (suc n))

-- encodeULawInline
unfoldable pub encode_ulaw_inline : List ℤ → List ℕ
unfolding inline_exponent
encode_ulaw_inline samples = map ulaw_inline samples

abbrev same_sample : ℤ → ℤ → Bool
same_sample x y = pos_part x == pos_part y && neg_part x == neg_part y

eq_of_same_sample : (x y : ℤ) → same_sample x y ≡ true → x ≡ y
eq_of_same_sample x y h = ground arith

alaw_table :
    table_holds 256 (λ b. same_sample (alaw_inline (bit_xor b 0x55)) (alaw_decode_one b)) ≡ true
unfolding table_holds alaw_decode_one
alaw_table = refl

alaw_inline-eq : (b : ℕ) → b < 256 → alaw_inline (bit_xor b 0x55) ≡ alaw_decode_one b
alaw_inline-eq b h = eq_of_same_sample _ _ (table-entry 256 _ b alaw_table h)

inline_exponent-eq : (e mask v : ℕ) → inline_exponent e mask v ≡ ulaw_exponent e mask v
unfolding inline_exponent ulaw_exponent
inline_exponent-eq zero mask v = refl
inline_exponent-eq (suc e) mask v =
    ap (λ r. if bit_and mask v == 0 then r else suc e) (inline_exponent-eq e (mask / 2) v)

-- The byte for a magnitude, with the exponent that the other file's loop finds.
ulaw_of-eq :
    (sign n m : ℕ)
    → n ≡ m
    → ulaw_of sign (clipped n) ≡ (
        let v : ℕ = clipped m in
        let exp : ℕ = ulaw_exponent 7 0x4000 v in
        complement (bit_or (bit_or sign (exp * 2 ^ 4)) (bit_and (v / 2 ^ (exp + 3)) 0x0f)))
unfolding ulaw_of
ulaw_of-eq sign n m e =
    ap (λ k. ulaw_of sign (clipped k)) e
    ∙ ap
        (λ exp.
          complement
            (bit_or (bit_or sign (exp * 2 ^ 4)) (bit_and (clipped m / 2 ^ (exp + 3)) 0x0f)))
        (inline_exponent-eq 7 0x4000 (clipped m))

ulaw_inline-eq : (s : ℤ) → ulaw_inline s ≡ ulaw_encode_one s
unfolding ulaw_encode_one ulaw_exponent ulaw_inline ulaw_of
ulaw_inline-eq (pos n) = ulaw_of-eq 0 n (n + 0) (omega arith)
ulaw_inline-eq (negsuc n) = ulaw_of-eq 0x80 (suc n) (0 + suc n) (omega arith)

pub encode_ulaw_inline-eq : (samples : List ℤ) → encode_ulaw_inline samples ≡ encode_pcmu samples
unfolding encode_ulaw_inline encode_pcmu
encode_ulaw_inline-eq [] = refl
encode_ulaw_inline-eq (s ∷ rest) =
    ap (λ b. b ∷ map ulaw_inline rest) (ulaw_inline-eq s)
    ∙ ap (λ r. ulaw_encode_one s ∷ r) (encode_ulaw_inline-eq rest)

decode_alaw_inline-eq :
    (bytes : List ℕ) → All (λ b. b < 256) bytes → decode_alaw_inline bytes ≡ decode_pcma bytes
unfolding decode_alaw_inline decode_pcma
decode_alaw_inline-eq [] h = refl
decode_alaw_inline-eq (b ∷ rest) h =
    ap (λ s. s ∷ map (λ a. alaw_inline (bit_xor a 0x55)) rest) (alaw_inline-eq b h.0)
    ∙ ap (λ r. alaw_decode_one b ∷ r) (decode_alaw_inline-eq rest h.1)

-- The package's own conversions give what those of pkg/rtp give, for all bytes and all samples.
codecs_agree :
    (bytes : List ℕ) (samples : List ℤ)
    → All (λ b. b < 256) bytes
    → (decode_alaw_inline bytes ≡ decode_pcma bytes)
      × (encode_ulaw_inline samples ≡ encode_pcmu samples)
codecs_agree bytes samples h = (decode_alaw_inline-eq bytes h, encode_ulaw_inline-eq samples)
