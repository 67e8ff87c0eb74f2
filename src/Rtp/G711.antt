-- ===== src/Rtp/G711.antt =====
-- pkg/rtp/g711.go. A sample is an integer; the conversions to int16 change nothing, since every value
-- fits. A byte is a number below 256.
pub mod Companding
use Prim.Native.Nat.{bit_and, bit_or, bit_xor}
use funsip.Base.{
  ℕ, zero, suc, ◌+◌, ◌-◌, ◌*◌, ◌/◌, ◌^◌, ◌==◌, Bool, true, false, List, [], ◌∷◌, map, ltb,
  if◌then◌else◌, ◌||◌,
}
use funsip.Base.Int.{ℤ, pos, negsuc, sub_ℕ, pos_part, neg_part, is_negative}
use funsip.Rtp.{pt_pcmu, pt_pcma}

-- `^u` on a byte
abbrev pub complement : ℕ → ℕ
complement u = 255 - u

-- `-x`
abbrev pub negate : ℤ → ℤ
negate x = sub_ℕ (neg_part x) (pos_part x)

abbrev signed : ℕ → ℤ → ℤ
signed sign x = if sign == 0 then x else negate x

abbrev ulaw_parts : ℕ → ℤ
ulaw_parts u =
    signed (bit_and u 0x80) (sub_ℕ ((bit_and u 0x0f * 16 + 8) * 2 ^ bit_and (u / 16) 0x07) 0x84)

-- ulawDecodeOne
unfoldable pub ulaw_decode_one : ℕ → ℤ
ulaw_decode_one u = ulaw_parts (complement u)

abbrev alaw_magnitude : ℕ → ℕ → ℕ
alaw_magnitude zero mantissa = mantissa * 16 + 8
alaw_magnitude (suc e) mantissa = (mantissa * 16 + 0x108) * 2 ^ e

abbrev alaw_parts : ℕ → ℤ
alaw_parts a =
    signed (bit_and a 0x80) (pos (alaw_magnitude (bit_and (a / 16) 0x07) (bit_and a 0x0f)))

-- alawDecodeOne
unfoldable pub alaw_decode_one : ℕ → ℤ
alaw_decode_one a = alaw_parts (bit_xor a 0x55)

-- DecodePCMU and DecodePCMA read the tables that `init` fills by these two functions.
unfoldable pub decode_pcmu : List ℕ → List ℤ
decode_pcmu bytes = map ulaw_decode_one bytes

unfoldable pub decode_pcma : List ℕ → List ℤ
decode_pcma bytes = map alaw_decode_one bytes

-- The loop over `mask`, which starts at 0x4000 with exponent 7.
unfoldable pub ulaw_exponent : ℕ → ℕ → ℕ → ℕ
ulaw_exponent zero mask v = 0
ulaw_exponent (suc e) mask v =
    let rest = ulaw_exponent e (mask / 2) v in if bit_and mask v == 0 then rest else suc e

abbrev pub at_most : ℕ → ℕ → ℕ
at_most limit v = if ltb limit v then limit else v

-- `^(sign | (exp << 4) | mantissa)` for the biased magnitude `v`
abbrev ulaw_byte : ℕ → ℕ → ℕ → ℕ
ulaw_byte sign e v = complement (bit_or (bit_or sign (e * 16)) (bit_and (v / 2 ^ (e + 3)) 0x0f))

-- ulawEncodeOne
unfoldable pub ulaw_encode_one : ℤ → ℕ
unfolding ulaw_exponent
ulaw_encode_one s =
    let sign : ℕ = if is_negative s then 0x80 else 0 in
    let v : ℕ = at_most 32635 (pos_part s + neg_part s) + 0x84 in
    ulaw_byte sign (ulaw_exponent 7 0x4000 v) v

-- The loop `for x > 1`, with fuel; a value below 2 ^ (fuel + 1) does not run out of it.
unfoldable pub alaw_exponent : ℕ → ℕ → ℕ → ℕ
alaw_exponent zero x e = e
alaw_exponent (suc f) x e =
    let rest = alaw_exponent f (x / 2) (e + 1) in if ltb 1 x then rest else e

abbrev alaw_compressed : ℕ → ℕ
alaw_compressed v =
    let e = alaw_exponent 7 (v / 256) 1 in
    if ltb v 256 then v / 16 else bit_or (e * 16) (bit_and (v / 2 ^ (e + 3)) 0x0f)

-- `-v - 1` of a negative sample, and the sample itself of another
abbrev alaw_folded : ℤ → ℕ
alaw_folded (pos n) = n
alaw_folded (negsuc n) = n

-- alawEncodeOne
unfoldable pub alaw_encode_one : ℤ → ℕ
unfolding alaw_exponent
alaw_encode_one s =
    let sign : ℕ = if is_negative s then 0x80 else 0 in
    bit_xor (bit_or sign (alaw_compressed (at_most 32767 (alaw_folded s)))) 0x55

unfoldable pub encode_pcmu : List ℤ → List ℕ
encode_pcmu samples = map ulaw_encode_one samples

unfoldable pub encode_pcma : List ℤ → List ℕ
encode_pcma samples = map alaw_encode_one samples

unfoldable pub is_audio_pt : ℕ → Bool
is_audio_pt pt = pt == pt_pcmu || pt == pt_pcma
