-- ===== src/Rtp/Parsing.antt =====
-- What the parser of pkg/rtp/rtp.go accepts.
use Prim.Native.Nat.{bit_and}
use funsip.Base.{
  ℕ, zero, suc, ◌+◌, ◌*◌, ◌/◌, ◌%◌, ◌^◌, ◌≤◌, ◌<◌, ◌≡◌, refl, ◌≢◌, ◌↔◌, Bool, true, false, not,
  ◌&&◌, some, List, [], ◌∷◌, ◌++◌, arith, ◌==◌, ==_iff, length, length-append, All,
}
use funsip.Base.Tables.{table_holds, table-entry}
use funsip.Rtp.{Header, byte_at, uint16_at, has_bit, parse, event_digit}

low4_table : table_holds 256 (λ b. bit_and b 0x0f == b % 16) ≡ true
unfolding table_holds
low4_table = refl

low7_table : table_holds 256 (λ b. bit_and b 0x7f == b % 128) ≡ true
unfolding table_holds
low7_table = refl

low4 : (b : ℕ) → b < 256 → bit_and b 0x0f ≡ b % 16
low4 b h = (==_iff _ _).0 (table-entry 256 (λ b. bit_and b 0x0f == b % 16) b low4_table h)

low7 : (b : ℕ) → b < 256 → bit_and b 0x7f ≡ b % 128
low7 b h = (==_iff _ _).0 (table-entry 256 (λ b. bit_and b 0x7f == b % 128) b low7_table h)

byte_at-lt : (buf : List ℕ) (i : ℕ) → All (λ b. b < 256) buf → byte_at buf i < 256
byte_at-lt [] i h = omega arith
byte_at-lt (b ∷ buf) zero h = h.0
byte_at-lt (b ∷ buf) (suc i) h = byte_at-lt buf i h.1

-- A header that `Parse` returns has version 2, its payload starts within the buffer and behind the
-- fixed part, the CSRCs and, where the extension bit is set, the extension with the length that it
-- gives.
parse_offset :
    (buf : List ℕ) (h : Header)
    → parse buf ≡ some h
    → (h.version ≡ 2)
      × (h.payload_offset ≤ length buf)
      × (h.extension ≡ false → h.payload_offset ≡ 12 + h.csrc_count * 4)
      × (h.extension ≡ true
          → h.payload_offset
            ≡ 16 + h.csrc_count * 4 + uint16_at buf (12 + h.csrc_count * 4 + 2) * 4)
unfolding parse
parse_offset buf h e = ground arith

abbrev same_bool : Bool → Bool → Bool
same_bool true b = b
same_bool false b = not b

eq_of_same_bool : (b c : Bool) → same_bool b c ≡ true → b ≡ c
eq_of_same_bool b c h = ground arith

bit_table :
    table_holds 256 (λ b.
      same_bool (has_bit b 0x20) (b / 32 % 2 == 1)
      && (same_bool (has_bit b 0x10) (b / 16 % 2 == 1)
          && same_bool (has_bit b 0x80) (b / 128 == 1)))
    ≡ true
unfolding table_holds
bit_table = refl

bits :
    (b : ℕ)
    → b < 256
    → (has_bit b 0x20 ≡ (b / 32 % 2 == 1))
      × (has_bit b 0x10 ≡ (b / 16 % 2 == 1))
      × (has_bit b 0x80 ≡ (b / 128 == 1))
bits b h =
    let t =
      table-entry 256
        (λ b.
          same_bool (has_bit b 0x20) (b / 32 % 2 == 1)
          && (same_bool (has_bit b 0x10) (b / 16 % 2 == 1)
              && same_bool (has_bit b 0x80) (b / 128 == 1)))
        b bit_table h in
    (
      eq_of_same_bool _ _ (ground arith),
      eq_of_same_bool _ _ (ground arith),
      eq_of_same_bool _ _ (ground arith),
    )

-- The header extension: its profile, how many words of 32 bits it has, and their bytes.
pub record Extension : Type 0 where
  pub profile : ℕ
  pub words : ℕ
  pub content : List ℕ

abbrev extension_bytes : Bool → Extension → List ℕ
extension_bytes false e = []
extension_bytes true e =
    (e.profile / 256) ∷ (e.profile % 256) ∷ (e.words / 256) ∷ (e.words % 256) ∷ e.content

abbrev flag : ℕ → Bool → ℕ
flag n false = 0
flag n true = n

abbrev fixed_part : Header → List ℕ
fixed_part h =
    (128 + flag 32 h.padding + flag 16 h.extension + h.csrc_count)
    ∷ (flag 128 h.marker + h.payload_type)
    ∷ (h.sequence / 256)
    ∷ (h.sequence % 256)
    ∷ (h.timestamp / 16777216)
    ∷ (h.timestamp / 65536 % 256)
    ∷ (h.timestamp / 256 % 256)
    ∷ (h.timestamp % 256)
    ∷ (h.ssrc / 16777216)
    ∷ (h.ssrc / 65536 % 256)
    ∷ (h.ssrc / 256 % 256)
    ∷ (h.ssrc % 256)
    ∷ []

-- The bytes of RFC 3550, section 5.1.
abbrev pub packet : Header → List ℕ → Extension → List ℕ → List ℕ
packet h csrcs e payload = fixed_part h ++ (csrcs ++ (extension_bytes h.extension e ++ payload))

abbrev extension_length : Bool → Extension → ℕ
extension_length false e = 0
extension_length true e = 4 + e.words * 4

-- A header whose fields fit their places, with CSRCs and an extension of the lengths that it says.
pub record Fits (h : Header) (csrcs : List ℕ) (e : Extension) : Type 0 where
  pub of_version : h.version ≡ 2
  pub csrcs_fit : h.csrc_count < 16
  pub type_fits : h.payload_type < 128
  pub sequence_fits : h.sequence < 65536
  pub timestamp_fits : h.timestamp < 2 ^ 32
  pub ssrc_fits : h.ssrc < 2 ^ 32
  pub csrcs_there : length csrcs ≡ h.csrc_count * 4
  pub words_fit : e.words < 65536
  pub words_there : length e.content ≡ e.words * 4
  pub starts : h.payload_offset ≡ 12 + h.csrc_count * 4 + extension_length h.extension e

byte_at-append :
    (xs ys : List ℕ) (i j : ℕ) → j ≡ length xs + i → byte_at (xs ++ ys) j ≡ byte_at ys i
byte_at-append [] ys i j e = ground arith
byte_at-append (x ∷ xs) ys i zero e = absurd (omega arith)
byte_at-append (x ∷ xs) ys i (suc j) e = byte_at-append xs ys i j (omega arith)

first_byte :
    (h : Header) (csrcs : List ℕ) (e : Extension)
    → Fits h csrcs e
    → let b = 128 + flag 32 h.padding + flag 16 h.extension + h.csrc_count in
      (b < 256)
      × (b / 64 ≡ 2)
      × (has_bit b 0x20 ≡ h.padding)
      × (has_bit b 0x10 ≡ h.extension)
      × (bit_and b 0x0f ≡ h.csrc_count)
first_byte h csrcs e f =
    let b = 128 + flag 32 h.padding + flag 16 h.extension + h.csrc_count in
    let lt : b < 256 = ground arith in
    (
      lt,
      ground arith,
      ground (arith, bits b lt),
      ground (arith, bits b lt),
      ground (arith, low4 b lt),
    )

second_byte :
    (marker : Bool) (type : ℕ)
    → type < 128
    → let b = flag 128 marker + type in
      (b < 256) × (has_bit b 0x80 ≡ marker) × (bit_and b 0x7f ≡ type)
second_byte marker type h =
    let b = flag 128 marker + type in
    let lt : b < 256 = ground arith in (lt, ground (arith, bits b lt), ground (arith, low7 b lt))

word32 :
    (n : ℕ)
    → n < 2 ^ 32
    → (n / 16777216 * 256 + n / 65536 % 256) * 65536 + (n / 256 % 256 * 256 + n % 256) ≡ n
word32 n h = omega arith

words_at :
    (h : Header) (csrcs : List ℕ) (e : Extension) (payload : List ℕ)
    → Fits h csrcs e
    → h.extension ≡ true
    → uint16_at (packet h csrcs e payload) (12 + h.csrc_count * 4 + 2) ≡ e.words
words_at h csrcs e payload f x =
    let rest = extension_bytes h.extension e ++ payload in
    let n = 12 + h.csrc_count * 4 + 2 in
    ground (
      arith,
      byte_at-append (fixed_part h) (csrcs ++ rest) (h.csrc_count * 4 + 2) n (omega arith),
      byte_at-append (fixed_part h) (csrcs ++ rest) (h.csrc_count * 4 + 3) (n + 1) (omega arith),
      byte_at-append csrcs rest 2 (h.csrc_count * 4 + 2) (omega arith),
      byte_at-append csrcs rest 3 (h.csrc_count * 4 + 3) (omega arith),
    )

length-packet :
    (h : Header) (csrcs : List ℕ) (e : Extension) (payload : List ℕ)
    → Fits h csrcs e
    → length (packet h csrcs e payload) ≡ h.payload_offset + length payload
length-packet h csrcs e payload f = ground (
  arith,
  length-append csrcs (extension_bytes h.extension e ++ payload),
  length-append (extension_bytes h.extension e) payload,
)

-- Parsing a packet that was laid out as RFC 3550 says gives back its header, with the offset at which
-- its payload starts: whatever the flags are, with and without an extension, for every payload.
pub parse-packet :
    (h : Header) (csrcs : List ℕ) (e : Extension) (payload : List ℕ)
    → Fits h csrcs e
    → parse (packet h csrcs e payload) ≡ some h
unfolding parse
parse-packet h csrcs e payload f = ground (
  arith,
  first_byte h csrcs e f,
  second_byte h.marker h.payload_type f.type_fits,
  length-packet h csrcs e payload f,
  words_at h csrcs e payload f,
)

-- A telephone event has a label exactly if its code is at most 15, and no two codes up to 15 share one.
event_digit-injective :
    (c d : ℕ) → (event_digit c ≢ [] ↔ c ≤ 15) × (c ≤ 15 → event_digit c ≡ event_digit d → c ≡ d)
unfolding event_digit
event_digit-injective c d = ((λ h. ground arith, λ h e. ground arith), λ h e. ground arith)
