-- ===== src/Capture.antt =====
-- pkg/pcap/pcap.go. The file is the list of its bytes, and writes to it succeed: the code passes over
-- their errors. The goroutine of flushLoop is one step for each thing that it selects. `To4` is a
-- parameter.
pub mod Kept
pub mod Written
use funsip.Base.{
  ℕ, ◌+◌, ◌/◌, ◌%◌, ◌^◌, Bool, true, false, Option, none, some, List, [], ◌∷◌, ◌++◌, length, ltb,
  if◌then◌else◌,
}
use funsip.Base.Wire.{le16, le32, be16, drop, fill}
use funsip.Text.{Text}

-- `capture`; the time in seconds and nanoseconds.
pub record Captured : Type 0 where
  pub seconds : ℕ
  pub nanos : ℕ
  pub src_ip : List ℕ
  pub src_port : ℕ
  pub dst_ip : List ℕ
  pub dst_port : ℕ
  pub payload : List ℕ

-- `ch` is the channel, and `pending` the local variable of flushLoop.
pub record PcapWriter : Type 0 where
  pub path : Text
  pub file : List ℕ
  pub channel : List Captured
  pub pending : List Captured
  pub closed : Bool
  pub done : Bool
  pub count : ℕ
  pub dropped : ℕ

abbrev pub default_queue : ℕ
default_queue = 1024

abbrev pub flush_batch : ℕ
flush_batch = 64

abbrev pub file_header : List ℕ
file_header =
    le32 0xa1b2c3d4 ++ (le16 2 ++ (le16 4 ++ (le32 0 ++ (le32 0 ++ (le32 65535 ++ le32 101)))))

-- NewWriter, where `created` and `wrote` say whether Create and the first Write succeed.
unfoldable pub new_writer : Text → Bool → Bool → Option PcapWriter
new_writer path created wrote =
    let w = some (record {
      path = path;
      file = file_header;
      channel = [];
      pending = [];
      closed = false;
      done = false;
      count = 0;
      dropped = 0;
    }) in
    if created then (if wrote then w else none) else none

abbrev pub enqueue : Captured → PcapWriter → PcapWriter
enqueue c w =
    if ltb (length w.channel) default_queue
    then record w { channel = w.channel ++ c ∷ []; count = w.count + 1 }
    else record w { dropped = w.dropped + 1 }

-- Capture
unfoldable pub capture : Captured → PcapWriter → PcapWriter
capture c w = if w.closed then w else enqueue c w

-- `copy(pkt[12:16], src4)` into four bytes of 0
abbrev pub four_bytes : List ℕ → List ℕ
four_bytes (a ∷ b ∷ c ∷ d ∷ rest) = a ∷ b ∷ c ∷ d ∷ []
four_bytes (a ∷ b ∷ c ∷ []) = a ∷ b ∷ c ∷ 0 ∷ []
four_bytes (a ∷ b ∷ []) = a ∷ b ∷ 0 ∷ 0 ∷ []
four_bytes (a ∷ []) = a ∷ 0 ∷ 0 ∷ 0 ∷ []
four_bytes [] = 0 ∷ 0 ∷ 0 ∷ 0 ∷ []

module _ (to4 : List ℕ → Option (List ℕ)) where
  abbrev pub ip4 : Option (List ℕ) → List ℕ
  ip4 none = 0 ∷ 0 ∷ 0 ∷ 0 ∷ []
  ip4 (some bytes) = four_bytes bytes

  -- The packet: the headers of IPv4 and of UDP, and the payload.
  abbrev pub packet_bytes : Captured → List ℕ
  packet_bytes c =
      let udp_len : ℕ = 8 + length c.payload in
      0x45 ∷ 0 ∷ be16 (20 + udp_len)
      ++ (be16 0
          ++ (be16 0x4000
              ++ (64 ∷ 17 ∷ be16 0
                  ++ (ip4 (to4 c.src_ip)
                      ++ (ip4 (to4 c.dst_ip)
                          ++ (be16 c.src_port
                              ++ (be16 c.dst_port ++ (be16 udp_len ++ (be16 0 ++ c.payload)))))))))

  abbrev pub packet_length : Captured → ℕ
  packet_length c = 20 + (8 + length c.payload)

  -- What writeOne appends.
  unfoldable pub record_bytes : Captured → List ℕ
  record_bytes c =
      le32 c.seconds
      ++ (le32 (c.nanos / 1000)
          ++ (le32 (packet_length c) ++ (le32 (packet_length c) ++ packet_bytes c)))

  abbrev pub write_all : List Captured → List ℕ → List ℕ
  write_all [] file = file
  write_all (c ∷ rest) file = write_all rest (file ++ record_bytes c)

  -- flush
  unfoldable pub flush : PcapWriter → PcapWriter
  flush w = record w { file = write_all w.pending w.file; pending = [] }

  -- The worker takes a packet from the channel.
  abbrev pub take_packet : Captured → PcapWriter → PcapWriter
  take_packet c w =
      let more = record w { pending = w.pending ++ c ∷ [] } in
      if ltb (length more.pending) flush_batch then more else flush more

  abbrev pub receive_from : List Captured → PcapWriter → PcapWriter
  receive_from [] w = w
  receive_from (c ∷ rest) w = take_packet c (record w { channel = rest })

  -- The case of flushLoop that takes a packet.
  unfoldable pub receive : PcapWriter → PcapWriter
  receive w = receive_from w.channel w

  abbrev pub drain : List Captured → PcapWriter → PcapWriter
  drain [] w = w
  drain (c ∷ rest) w = drain rest (take_packet c (record w { channel = rest }))

  -- Close: the channel is closed, and flushLoop drains it.
  unfoldable pub close : PcapWriter → PcapWriter
  close w =
      let drained = flush (drain w.channel (record w { closed = true })) in
      if w.closed then w else record drained { done = true }
