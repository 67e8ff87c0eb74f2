-- ===== src/Capture/Written.antt =====
-- What the file of a writer of pkg/pcap/pcap.go holds.
use mathlib.Core.List.{append_assoc, append-nil}
use funsip.Base.{
  ℕ, suc, ◌+◌, ◌≤◌, ◌<◌, ◌≡◌, refl, ap, ◌∙◌, sym, subst, Bool, true, false, Option, some, List, [],
  ◌∷◌, ◌++◌, length, length-append, arith, ltb, ltb→lt, if◌then◌else◌, Bool-cases, inl, inr,
}
use funsip.Text.{Text}
use funsip.Capture.{
  Captured, PcapWriter, new_writer, file_header, capture, enqueue, flush, receive, drain, close,
  default_queue, flush_batch,
}
use funsip.Capture.Kept.{
  Keeps, records, flush-Keeps, receive_from-Keeps, drain-Keeps, fresh-Keeps, closed-Keeps,
  flush-file,
}

-- What reaches the writer: a packet, the goroutine's turn to take one, or its tick.
pub data Event : Type 0 where
  offered : Captured → Event
  taken ticked : Event

-- The packets that find room in the channel.
abbrev pub room_for : Event → PcapWriter → List Captured
room_for (offered c) w = if ltb (length w.channel) default_queue then c ∷ [] else []
room_for taken w = []
room_for ticked w = []

abbrev pub offers : List Event → ℕ
offers [] = 0
offers (offered c ∷ rest) = suc (offers rest)
offers (taken ∷ rest) = offers rest
offers (ticked ∷ rest) = offers rest

offers-cons :
    (e : Event) (rest : List Event) (n : ℕ)
    → offers rest + (offers (e ∷ []) + n) ≡ offers (e ∷ rest) + n
offers-cons (offered c) rest n = omega arith
offers-cons taken rest n = omega arith
offers-cons ticked rest n = omega arith

module _ (to4 : List ℕ → Option (List ℕ)) where
  abbrev pub happen : Event → PcapWriter → PcapWriter
  happen (offered c) w = capture c w
  happen taken w = receive to4 w
  happen ticked w = flush to4 w

  abbrev pub happen_all : List Event → PcapWriter → PcapWriter
  happen_all [] w = w
  happen_all (e ∷ rest) w = happen_all rest (happen e w)

  abbrev pub accepted : List Event → PcapWriter → List Captured
  accepted [] w = []
  accepted (e ∷ rest) w = room_for e w ++ accepted rest (happen e w)

  enqueue-Keeps :
      (packets : List Captured) (n : ℕ) (c : Captured) (w : PcapWriter)
      → Keeps to4 false packets n w
      → Keeps to4 false (packets ++ room_for (offered c) w) (suc n) (enqueue c w)
  enqueue-Keeps packets n c w k = elim (Bool-cases (ltb (length w.channel) default_queue)) [
    | inl room ↦ rw room (record {
      out = k.out;
      state = k.state;
      in_file = k.in_file;
      in_order =
          ap (λ p. p ++ c ∷ []) k.in_order
          ∙ append_assoc k.out (w.pending ++ w.channel) (c ∷ [])
          ∙ ap (λ r. k.out ++ r) (append_assoc w.pending w.channel (c ∷ []));
      counted = omega (arith, k.counted, length-append packets (c ∷ []));
      none_lost = omega (arith, k.none_lost);
      bounded = omega (arith, ltb→lt _ _ room, length-append w.channel (c ∷ []));
      batched = k.batched;
    })
    | inr full ↦
        rw (full, append-nil packets)
          (record {
            out = k.out;
            state = k.state;
            in_file = k.in_file;
            in_order = k.in_order;
            counted = k.counted;
            none_lost = omega (arith, k.none_lost);
            bounded = k.bounded;
            batched = k.batched;
          })
  ]

  happen-Keeps :
      (packets : List Captured) (n : ℕ) (e : Event) (w : PcapWriter)
      → Keeps to4 false packets n w
      → Keeps to4 false (packets ++ room_for e w) (offers (e ∷ []) + n) (happen e w)
  unfolding capture receive
  happen-Keeps packets n (offered c) w k =
      subst
        (λ (shut : Bool).
          Keeps to4 false (packets ++ room_for (offered c) w) (1 + n)
            (if shut then w else enqueue c w))
        (sym k.state)
        (subst (λ m. Keeps to4 false (packets ++ room_for (offered c) w) m (enqueue c w))
          (omega arith) (enqueue-Keeps packets n c w k))
  happen-Keeps packets n taken w k = rw (append-nil packets) (
      subst (λ m. Keeps to4 false packets m (receive to4 w)) (omega arith)
        (receive_from-Keeps to4 packets w.channel n w k refl))
  happen-Keeps packets n ticked w k = rw (append-nil packets) (
      subst (λ m. Keeps to4 false packets m (flush to4 w)) (omega arith)
        (flush-Keeps to4 false packets n w k.state k.out k.in_file k.in_order k.counted k.none_lost
          k.bounded))

  happen_all-Keeps :
      (events : List Event) (packets : List Captured) (n : ℕ) (w : PcapWriter)
      → Keeps to4 false packets n w
      → Keeps to4 false (packets ++ accepted events w) (offers events + n) (happen_all events w)
  happen_all-Keeps [] packets n w k =
      rw (append-nil packets) (subst (λ m. Keeps to4 false packets m w) (omega arith) k)
  happen_all-Keeps (e ∷ rest) packets n w k =
      rw (sym (append_assoc packets (room_for e w) (accepted rest (happen e w)))) (
        subst
          (λ m.
            Keeps to4 false ((packets ++ room_for e w) ++ accepted rest (happen e w)) m
              (happen_all rest (happen e w)))
          (offers-cons e rest n)
          (happen_all-Keeps rest (packets ++ room_for e w) (offers (e ∷ []) + n) (happen e w)
            (happen-Keeps packets n e w k)))

-- Packets are offered to a writer, whose goroutine takes them from the channel and writes what it has
-- taken, in batches and at its ticks, in any order of these steps; then it is closed. The file is its
-- header and, in order, the record of each packet that found room in the channel, of none twice and of
-- none left out. These packets are the counted ones, and every other that was offered is counted as
-- dropped. Until the close the channel never held more than it may, nor the goroutine a full batch.
pub capture_file_complete :
    (to4 : List ℕ → Option (List ℕ)) (path : Text) (w : PcapWriter) (events : List Event)
    → new_writer path true true ≡ some w
    → (let last = happen_all to4 events w in
        let shut = close to4 last in
        (shut.file ≡ file_header ++ records to4 (accepted to4 events w))
        × (shut.count ≡ length (accepted to4 events w))
        × (shut.count + shut.dropped ≡ offers events)
        × (length last.channel ≤ default_queue)
        × (length last.pending < flush_batch))
unfolding close
capture_file_complete to4 path w events made =
    let last = happen_all to4 events w in
    let k = happen_all-Keeps to4 events [] 0 w (fresh-Keeps to4 path w made) in
    let total : offers events + 0 ≡ offers events = omega arith in
    let drained =
      drain-Keeps to4 (accepted to4 events w) last.channel (offers events + 0)
        (record last { closed = true })
        (closed-Keeps to4 (accepted to4 events w) (offers events + 0) last k) refl in
    let (file, count, sum) =
      flush-file to4 (accepted to4 events w) (offers events + 0)
        (drain to4 last.channel (record last { closed = true })) drained.0 drained.1 in
    subst
      (λ (shut : Bool).
        let v =
          if shut
          then last
          else record (flush to4 (drain to4 last.channel (record last { closed = true }))) {
            done = true;
          } in
        (v.file ≡ file_header ++ records to4 (accepted to4 events w))
        × (v.count ≡ length (accepted to4 events w))
        × (v.count + v.dropped ≡ offers events)
        × (length last.channel ≤ default_queue)
        × (length last.pending < flush_batch))
      (sym k.state) (file, count, sum ∙ total, k.bounded, k.batched)
