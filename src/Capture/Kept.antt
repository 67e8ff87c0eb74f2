-- ===== src/Capture/Kept.antt =====
-- What a writer of pkg/pcap/pcap.go has done with the packets that it accepted.
use mathlib.Core.List.{append_assoc, append-nil}
use funsip.Base.{
  ℕ, ◌+◌, ◌≤◌, ◌<◌, ◌≡◌, refl, ap, ◌∙◌, sym, subst, Bool, true, false, Option, some, some-injective,
  List, [], ◌∷◌, ◌++◌, length, arith, ltb, ltb→lt, Bool-cases, if-both, inl, inr,
}
use funsip.Text.{Text}
use funsip.Capture.{
  Captured, PcapWriter, new_writer, file_header, record_bytes, write_all, flush, take_packet,
  receive_from, drain, default_queue, flush_batch,
}

module _ (to4 : List ℕ → Option (List ℕ)) where
  abbrev pub records : List Captured → List ℕ
  records [] = []
  records (c ∷ rest) = record_bytes to4 c ++ records rest

  records-append : (xs ys : List Captured) → records (xs ++ ys) ≡ records xs ++ records ys
  records-append [] ys = refl
  records-append (c ∷ xs) ys =
      ap (λ r. record_bytes to4 c ++ r) (records-append xs ys)
      ∙ sym (append_assoc (record_bytes to4 c) (records xs) (records ys))

  write_all-records :
      (cs : List Captured) (file : List ℕ) → write_all to4 cs file ≡ file ++ records cs
  write_all-records [] file = sym (append-nil file)
  write_all-records (c ∷ rest) file =
      write_all-records rest (file ++ record_bytes to4 c)
      ∙ append_assoc file (record_bytes to4 c) (records rest)

  -- The writer has accepted the packets: some are in the file, and the rest wait, in order.
  pub record Keeps (shut : Bool) (packets : List Captured) (offers_made : ℕ) (w : PcapWriter)
      : Type 0 where
    pub out : List Captured
    pub state : w.closed ≡ shut
    pub in_file : w.file ≡ file_header ++ records out
    pub in_order : packets ≡ out ++ (w.pending ++ w.channel)
    pub counted : w.count ≡ length packets
    pub none_lost : w.count + w.dropped ≡ offers_made
    pub bounded : length w.channel ≤ default_queue
    pub batched : length w.pending < flush_batch

  pub flush-Keeps :
      (shut : Bool) (packets : List Captured) (n : ℕ) (w : PcapWriter)
      → w.closed ≡ shut
      → (out : List Captured) → w.file ≡ file_header ++ records out
      → packets ≡ out ++ (w.pending ++ w.channel)
      → w.count ≡ length packets
      → w.count + w.dropped ≡ n
      → length w.channel ≤ default_queue
      → Keeps shut packets n (flush to4 w)
  unfolding flush
  flush-Keeps shut packets n w state out in_file in_order counted none_lost bounded = record {
    out = out ++ w.pending;
    state = state;
    in_file =
        write_all-records w.pending w.file
        ∙ ap (λ f. f ++ records w.pending) in_file
        ∙ append_assoc file_header (records out) (records w.pending)
        ∙ ap (λ r. file_header ++ r) (sym (records-append out w.pending));
    in_order = in_order ∙ sym (append_assoc out w.pending w.channel);
    counted = counted;
    none_lost = none_lost;
    bounded = bounded;
    batched = omega arith;
  }

  take_packet-Keeps :
      (shut : Bool) (packets : List Captured) (n : ℕ) (c : Captured) (rest : List Captured)
      (w : PcapWriter)
      → Keeps shut packets n w
      → w.channel ≡ c ∷ rest
      → Keeps shut packets n (take_packet to4 c (record w { channel = rest }))
  take_packet-Keeps shut packets n c rest w k e =
      let order : packets ≡ k.out ++ ((w.pending ++ c ∷ []) ++ rest) =
        k.in_order
        ∙ ap (λ ch. k.out ++ (w.pending ++ ch)) e
        ∙ ap (λ r. k.out ++ r) (sym (append_assoc w.pending (c ∷ []) rest)) in
      let bounded : length rest ≤ default_queue =
        omega (arith, k.bounded, ap (λ (xs : List Captured). length xs) e) in
      let more = record w { channel = rest; pending = w.pending ++ c ∷ [] } in
      elim (Bool-cases (ltb (length (w.pending ++ c ∷ [])) flush_batch)) [
        | inl small ↦ rw small (record {
          out = k.out;
          state = k.state;
          in_file = k.in_file;
          in_order = order;
          counted = k.counted;
          none_lost = k.none_lost;
          bounded = bounded;
          batched = ltb→lt _ _ small;
        })
        | inr full ↦ rw full (
            flush-Keeps shut packets n more k.state k.out k.in_file order k.counted k.none_lost
              bounded)
      ]

  pub receive_from-Keeps :
      (packets channel : List Captured) (n : ℕ) (w : PcapWriter)
      → Keeps false packets n w
      → w.channel ≡ channel
      → Keeps false packets n (receive_from to4 channel w)
  receive_from-Keeps packets [] n w k e = k
  receive_from-Keeps packets (c ∷ rest) n w k e = take_packet-Keeps false packets n c rest w k e

  take_packet-channel :
      (c : Captured) (rest : List Captured) (w : PcapWriter)
      → (take_packet to4 c (record w { channel = rest })).channel ≡ rest
  unfolding flush
  take_packet-channel c rest w =
      let more = record w { channel = rest; pending = w.pending ++ c ∷ [] } in
      if-both (λ (v : PcapWriter). v.channel ≡ rest) (ltb (length more.pending) flush_batch)
        {x = more} {y = flush to4 more} refl refl

  pub drain-Keeps :
      (packets channel : List Captured) (n : ℕ) (w : PcapWriter)
      → Keeps true packets n w
      → w.channel ≡ channel
      → Keeps true packets n (drain to4 channel w) × ((drain to4 channel w).channel ≡ [])
  drain-Keeps packets [] n w k e = (k, e)
  drain-Keeps packets (c ∷ rest) n w k e =
      drain-Keeps packets rest n (take_packet to4 c (record w { channel = rest }))
        (take_packet-Keeps true packets n c rest w k e) (take_packet-channel c rest w)

  pub fresh-Keeps :
      (path : Text) (w : PcapWriter) → new_writer path true true ≡ some w → Keeps false [] 0 w
  unfolding new_writer
  fresh-Keeps path w made = subst (Keeps false [] 0) (some-injective _ _ made) (record {
    out = [];
    state = refl;
    in_file = refl;
    in_order = refl;
    counted = refl;
    none_lost = refl;
    bounded = omega arith;
    batched = omega arith;
  })

  -- A writer that was just closed.
  pub closed-Keeps :
      (packets : List Captured) (n : ℕ) (w : PcapWriter)
      → Keeps false packets n w
      → Keeps true packets n (record w { closed = true })
  closed-Keeps packets n w k = record {
    out = k.out;
    state = refl;
    in_file = k.in_file;
    in_order = k.in_order;
    counted = k.counted;
    none_lost = k.none_lost;
    bounded = k.bounded;
    batched = k.batched;
  }

  -- The file once everything that waited is written.
  pub flush-file :
      (packets : List Captured) (n : ℕ) (w : PcapWriter)
      → Keeps true packets n w
      → w.channel ≡ []
      → ((flush to4 w).file ≡ file_header ++ records packets)
        × ((flush to4 w).count ≡ length packets)
        × ((flush to4 w).count + (flush to4 w).dropped ≡ n)
  unfolding flush
  flush-file packets n w k empty =
      let all_out : packets ≡ k.out ++ w.pending =
        k.in_order
        ∙ ap (λ ch. k.out ++ (w.pending ++ ch)) empty
        ∙ ap (λ p. k.out ++ p) (append-nil w.pending) in
      (
        write_all-records w.pending w.file
            ∙ ap (λ f. f ++ records w.pending) k.in_file
            ∙ append_assoc file_header (records k.out) (records w.pending)
            ∙ ap (λ r. file_header ++ r)
                (sym (records-append k.out w.pending) ∙ ap records (sym all_out)),
        k.counted,
        k.none_lost,
      )
