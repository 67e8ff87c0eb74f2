-- ===== src/Rtp/G711/Companding.antt =====
-- pkg/rtp/g711.go against ITU-T G.711.
use Prim.Native.Nat.{bit_xor}
use funsip.Base.{
  ℕ, ◌+◌, ◌-◌, ◌*◌, ◌/◌, ◌%◌, ◌^◌, ◌<◌, ◌≡◌, refl, ◌≢◌, ◌⊎◌, ◌≤◌, Bool, true, not, ◌||◌, ◌&&◌, List,
  [], ◌∷◌, ltb, leb, ◌==◌, ==_iff, if◌then◌else◌, arith, All,
}
use funsip.Base.Tables.{table_holds, table-entry}
use funsip.Base.Int.{ℤ, pos, negsuc, neg_ℕ, pos_part, neg_part}
use funsip.Rtp.G711.{
  ulaw_decode_one, alaw_decode_one, ulaw_encode_one, alaw_encode_one, decode_pcma, encode_pcma,
  negate,
}

abbrev same_int : ℤ → ℤ → Bool
same_int x y = pos_part x == pos_part y && neg_part x == neg_part y

same_int_of_eq : (x y : ℤ) → x ≡ y → same_int x y ≡ true
same_int_of_eq x y e = ground arith

eq_of_same_int : (x y : ℤ) → same_int x y ≡ true → x ≡ y
eq_of_same_int x y h = ground arith

-- The µ-law sample of G.711: bias 132, three bits of segment and four of step, inverted in the byte.
abbrev pub ulaw_reference : ℕ → ℤ
ulaw_reference b =
    let c : ℕ = 255 - b in
    let m : ℕ = (c % 16 * 8 + 132) * 2 ^ (c / 16 % 8) - 132 in if ltb c 128 then pos m else neg_ℕ m

-- The A-law sample of G.711 on a scale of 16 bits: even bits inverted, and the top bit set on positive
-- samples.
abbrev pub alaw_reference : ℕ → ℤ
alaw_reference b =
    let c = bit_xor b 0x55 in
    let m : ℕ =
      if ltb (c / 16 % 8) 1 then c % 16 * 16 + 8 else (c % 16 * 16 + 264) * 2 ^ (c / 16 % 8 - 1) in
    if ltb c 128 then neg_ℕ m else pos m

alaw_table : table_holds 256 (λ b. alaw_encode_one (alaw_decode_one b) == b) ≡ true
unfolding table_holds alaw_encode_one alaw_decode_one
alaw_table = refl

-- Every byte comes back when its A-law sample is encoded again.
pub alaw_round_trip : (b : ℕ) → b < 256 → alaw_encode_one (alaw_decode_one b) ≡ b
alaw_round_trip b h = (==_iff _ b).0 (table-entry 256 _ b alaw_table h)

ulaw_table : table_holds 256 (λ b. b == 0x7f || ulaw_encode_one (ulaw_reference b) == b) ≡ true
unfolding table_holds ulaw_encode_one
ulaw_table = refl

-- The encoder inverts the µ-law decoding of G.711 on every byte but 0x7f, the second zero.
ulaw_encode_reference : (b : ℕ) → b < 256 → b ≢ 0x7f → ulaw_encode_one (ulaw_reference b) ≡ b
ulaw_encode_reference b h n = ground (
  arith,
  table-entry 256 (λ b. b == 0x7f || ulaw_encode_one (ulaw_reference b) == b) b ulaw_table h,
)

differ_table : table_holds 256 (λ b. not (same_int (ulaw_decode_one b) (ulaw_reference b))) ≡ true
unfolding table_holds ulaw_decode_one
differ_table = refl

-- The decoder gives the µ-law sample of G.711 for no byte at all.
pub ulaw_decode-ne-reference : (b : ℕ) → b < 256 → ulaw_decode_one b ≢ ulaw_reference b
ulaw_decode-ne-reference b h e = ground (
  arith,
  same_int_of_eq (ulaw_decode_one b) (ulaw_reference b) e,
  table-entry 256 (λ b. not (same_int (ulaw_decode_one b) (ulaw_reference b))) b differ_table h,
)

polarity_table :
    table_holds 256 (λ b. same_int (alaw_decode_one b) (negate (alaw_reference b))) ≡ true
unfolding table_holds alaw_decode_one
polarity_table = refl

-- The decoder's A-law samples are those of G.711 with the opposite sign, at every byte.
alaw_decode-negates : (b : ℕ) → b < 256 → alaw_decode_one b ≡ negate (alaw_reference b)
alaw_decode-negates b h = eq_of_same_int _ _ (
    table-entry 256 (λ b. same_int (alaw_decode_one b) (negate (alaw_reference b))) b polarity_table
      h)

-- The distance of two integers.
abbrev pub distance : ℤ → ℤ → ℕ
distance x y =
    (pos_part x + neg_part y - (pos_part y + neg_part x))
    + (pos_part y + neg_part x - (pos_part x + neg_part y))

-- At most 8 away, or at most a 32nd of the magnitude.
abbrev alaw_near : ℤ → Bool
alaw_near s =
    let d = distance (alaw_decode_one (alaw_encode_one s)) s in
    leb d 8 || leb (32 * d) (pos_part s + neg_part s)

alaw_near_pos : table_holds 32768 (λ n. alaw_near (pos n)) ≡ true
unfolding table_holds alaw_encode_one alaw_decode_one
alaw_near_pos = refl

alaw_near_neg : table_holds 32768 (λ n. alaw_near (negsuc n)) ≡ true
unfolding table_holds alaw_encode_one alaw_decode_one
alaw_near_neg = refl

-- The samples of 16 bits.
abbrev pub IsInt16 : ℤ → Type 0
IsInt16 (pos n) = n < 32768
IsInt16 (negsuc n) = n < 32768

-- A 16-bit sample that is sent as A-law and decoded by this code comes back within 8, or within a 32nd
-- of its magnitude.
alaw_error :
    (s : ℤ)
    → IsInt16 s
    → let d = distance (alaw_decode_one (alaw_encode_one s)) s in
      (d ≤ 8) ⊎ (32 * d ≤ pos_part s + neg_part s)
alaw_error (pos n) h = ground (arith, table-entry 32768 (λ n. alaw_near (pos n)) n alaw_near_pos h)
alaw_error (negsuc n) h =
    ground (arith, table-entry 32768 (λ n. alaw_near (negsuc n)) n alaw_near_neg h)

abbrev ulaw_near : ℤ → Bool
ulaw_near s =
    leb (32 * distance (ulaw_reference (ulaw_encode_one s)) s) (pos_part s + neg_part s + 132)

ulaw_near_pos : table_holds 32768 (λ n. ulaw_near (pos n)) ≡ true
unfolding table_holds ulaw_encode_one
ulaw_near_pos = refl

ulaw_near_neg : table_holds 32768 (λ n. ulaw_near (negsuc n)) ≡ true
unfolding table_holds ulaw_encode_one
ulaw_near_neg = refl

-- A 16-bit sample that is sent as µ-law and decoded as G.711 says comes back within a 32nd of its
-- magnitude and bias.
ulaw_error :
    (s : ℤ)
    → IsInt16 s
    → 32 * distance (ulaw_reference (ulaw_encode_one s)) s ≤ pos_part s + neg_part s + 132
ulaw_error (pos n) h = ground (arith, table-entry 32768 (λ n. ulaw_near (pos n)) n ulaw_near_pos h)
ulaw_error (negsuc n) h =
    ground (arith, table-entry 32768 (λ n. ulaw_near (negsuc n)) n ulaw_near_neg h)

-- Decoding a buffer of A-law bytes and encoding the samples gives the buffer back.
encode_pcma-decode_pcma :
    (bytes : List ℕ) → All (λ b. b < 256) bytes → encode_pcma (decode_pcma bytes) ≡ bytes
unfolding encode_pcma decode_pcma
encode_pcma-decode_pcma [] h = refl
encode_pcma-decode_pcma (b ∷ bytes) h =
    cc (alaw_round_trip b h.0, encode_pcma-decode_pcma bytes h.1)
