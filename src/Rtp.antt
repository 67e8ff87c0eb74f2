-- ===== src/Rtp.antt =====
-- pkg/rtp/rtp.go. Bytes are numbers below 256; shifts and masks are written on numbers.
pub mod G711
pub mod Parsing
use Prim.Native.Nat.{bit_and}
use funsip.Base.{
  ℕ, zero, suc, ◌+◌, ◌-◌, ◌*◌, ◌/◌, ◌^◌, ◌==◌, Bool, true, false, not, ◌&&◌, Option, none, some,
  List, [], ◌∷◌, ltb, leb, if◌then◌else◌, length,
}
use funsip.Text.{Text, lit}

abbrev pub pt_pcmu : ℕ
pt_pcmu = 0

abbrev pub pt_pcma : ℕ
pt_pcma = 8

pub record Header : Type 0 where
  pub version : ℕ
  pub padding : Bool
  pub extension : Bool
  pub csrc_count : ℕ
  pub marker : Bool
  pub payload_type : ℕ
  pub sequence : ℕ
  pub timestamp : ℕ
  pub ssrc : ℕ
  pub payload_offset : ℕ

-- `buf[i]`, where the tests on the length keep `i` in range; out of range, where Go panics, it reads 0.
abbrev pub byte_at : List ℕ → ℕ → ℕ
byte_at [] i = 0
byte_at (c ∷ buf) zero = c
byte_at (c ∷ buf) (suc i) = byte_at buf i

-- binary.BigEndian
abbrev pub uint16_at : List ℕ → ℕ → ℕ
uint16_at buf i = byte_at buf i * 256 + byte_at buf (i + 1)

abbrev pub uint32_at : List ℕ → ℕ → ℕ
uint32_at buf i = uint16_at buf i * 65536 + uint16_at buf (i + 2)

-- `b & mask != 0`
abbrev pub has_bit : ℕ → ℕ → Bool
has_bit b mask = not (bit_and b mask == 0)

abbrev read_header : List ℕ → Header
read_header buf = record {
  version = byte_at buf 0 / 2 ^ 6;
  padding = has_bit (byte_at buf 0) 0x20;
  extension = has_bit (byte_at buf 0) 0x10;
  csrc_count = bit_and (byte_at buf 0) 0x0f;
  marker = has_bit (byte_at buf 1) 0x80;
  payload_type = bit_and (byte_at buf 1) 0x7f;
  sequence = uint16_at buf 2;
  timestamp = uint32_at buf 4;
  ssrc = uint32_at buf 8;
  payload_offset = 0;
}

-- The header ends at `offset`, if the buffer reaches that far.
abbrev with_offset : List ℕ → Header → ℕ → Option Header
with_offset buf h offset =
    if ltb (length buf) offset then none else some (record h { payload_offset = offset })

abbrev past_extension : List ℕ → Header → ℕ → Option Header
past_extension buf h offset =
    if h.extension
    then (if ltb (length buf) (offset + 4)
        then none
        else with_offset buf h (offset + (4 + uint16_at buf (offset + 2) * 4)))
    else with_offset buf h offset

abbrev of_version_2 : List ℕ → Header → Option Header
of_version_2 buf h = if h.version == 2 then past_extension buf h (12 + h.csrc_count * 4) else none

-- Parse
unfoldable pub parse : List ℕ → Option Header
parse buf = if ltb (length buf) 12 then none else of_version_2 buf (read_header buf)

pub record TelephoneEvent : Type 0 where
  pub event : ℕ
  pub end_bit : Bool
  pub volume : ℕ
  pub duration : ℕ

-- ParseTelephoneEvent
unfoldable pub parse_telephone_event : List ℕ → Option TelephoneEvent
parse_telephone_event payload =
    if ltb (length payload) 4
    then none
    else some (record {
      event = byte_at payload 0;
      end_bit = has_bit (byte_at payload 1) 0x80;
      volume = bit_and (byte_at payload 1) 0x3f;
      duration = uint16_at payload 2;
    })

-- EventDigit
unfoldable pub event_digit : ℕ → Text
event_digit e =
    if leb e 9
    then (b'0' + e) ∷ []
    else if e == 10
    then lit "*"
    else if e == 11
    then lit "#"
    else if leb 12 e && leb e 15
    then (b'A' + (e - 12)) ∷ []
    else []
