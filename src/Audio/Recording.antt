-- ===== src/Audio/Recording.antt =====
-- What the file of a wavWriter of pkg/media/wav.go holds while it records, and once it is closed.
use mathlib.Core.List.{append_assoc, append-nil}
use funsip.Base.{
  ℕ, ◌+◌, ◌*◌, ◌≤◌, ◌≡◌, refl, sym, ap, ◌∙◌, Bool, true, false, ◌||◌, some, some-injective, subst,
  List, [], ◌∷◌, ◌++◌, length, length-append, arith, ltb, if◌then◌else◌, Bool-cases, inl, inr,
}
use funsip.Base.Int.{ℤ}
use funsip.Base.Wire.{fill}
use funsip.Text.{Text}
use funsip.Audio.Samples.{sample_bytes-append}
use funsip.Audio.Writer.{
  WavWriter, new_wav_writer, push, enqueue, work, write_first, append_samples, drain_queue, close,
  finalize, complete, sample_bytes, riff_header, size_limit, queue_limit, data_size,
}

-- The relay pushes samples, and the worker writes the first that are queued.
pub data Action : Type 0 where
  pushed : List ℤ → Action
  worked : Action

abbrev pub act : Action → WavWriter → WavWriter
act (pushed samples) w = push samples w
act worked w = work complete w

abbrev pub record_all : List Action → WavWriter → WavWriter
record_all [] w = w
record_all (a ∷ rest) w = record_all rest (act a w)

-- The samples that find room in the queue.
abbrev pub taken : Action → WavWriter → List ℤ
taken (pushed samples) w = if ltb (length w.queue) queue_limit then samples else []
taken worked w = []

abbrev pub accepted : List Action → WavWriter → List ℤ
accepted [] w = []
accepted (a ∷ rest) w = taken a w ++ accepted rest (act a w)

abbrev pub join : List (List ℤ) → List ℤ
join [] = []
join (samples ∷ rest) = samples ++ join rest

join-snoc : (queue : List (List ℤ)) (last : List ℤ) → join (queue ++ last ∷ []) ≡ join queue ++ last
join-snoc [] last = append-nil last
join-snoc (s ∷ rest) last =
    ap (λ r. s ++ r) (join-snoc rest last) ∙ sym (append_assoc s (join rest) last)

-- A recorder that was given the samples: some are in the file, behind the place of the header,
-- and the others in the queue, in order.
record Holds (shut : Bool) (rate : ℕ) (samples : List ℤ) (w : WavWriter) : Type 0 where
  on_file : List ℤ
  state : w.closed ≡ shut
  of_rate : w.sample_rate ≡ rate
  in_order : samples ≡ on_file ++ join w.queue
  file_there : w.file ≡ fill 44 0 ++ sample_bytes on_file
  counted : w.written ≡ length on_file

-- Samples moved from the queue to the file.
append_samples-Holds :
    (shut : Bool) (rate : ℕ) (samples first : List ℤ) (rest : List (List ℤ)) (w : WavWriter)
    → Holds shut rate samples w
    → w.queue ≡ first ∷ rest
    → Holds shut rate samples (append_samples first complete (record w { queue = rest }))
append_samples-Holds shut rate samples first rest w h e = record {
  on_file = h.on_file ++ first;
  state = h.state;
  of_rate = h.of_rate;
  in_order =
      h.in_order ∙ ap (λ q. h.on_file ++ join q) e ∙ sym (append_assoc h.on_file first (join rest));
  file_there =
      ap (λ f. f ++ sample_bytes first) h.file_there
      ∙ append_assoc (fill 44 0) (sample_bytes h.on_file) (sample_bytes first)
      ∙ ap (λ f. fill 44 0 ++ f) (sym (sample_bytes-append h.on_file first));
  counted = omega (arith, h.counted, length-append h.on_file first);
}

write_first-Holds :
    (shut : Bool) (rate : ℕ) (samples : List ℤ) (queue : List (List ℤ)) (w : WavWriter)
    → Holds shut rate samples w
    → w.queue ≡ queue
    → Holds shut rate samples (write_first queue complete w)
write_first-Holds shut rate samples [] w h e = h
write_first-Holds shut rate samples (first ∷ rest) w h e =
    append_samples-Holds shut rate samples first rest w h e

-- Samples put into the queue.
queue-Holds :
    (shut : Bool) (rate : ℕ) (samples last : List ℤ) (w : WavWriter)
    → Holds shut rate samples w
    → Holds shut rate (samples ++ last) (record w { queue = w.queue ++ last ∷ [] })
queue-Holds shut rate samples last w h = record {
  on_file = h.on_file;
  state = h.state;
  of_rate = h.of_rate;
  in_order =
      ap (λ s. s ++ last) h.in_order
      ∙ append_assoc h.on_file (join w.queue) last
      ∙ ap (λ r. h.on_file ++ r) (sym (join-snoc w.queue last));
  file_there = h.file_there;
  counted = h.counted;
}

-- A counter that the file does not depend on.
dropped-Holds :
    (rate : ℕ) (samples : List ℤ) (n : ℕ) (w : WavWriter)
    → Holds false rate samples w
    → Holds false rate samples (record w { dropped = n })
dropped-Holds rate samples n w h = record {
  on_file = h.on_file;
  state = h.state;
  of_rate = h.of_rate;
  in_order = h.in_order;
  file_there = h.file_there;
  counted = h.counted;
}

-- The flag that Close sets.
closed-Holds :
    (shut later : Bool) (rate : ℕ) (samples : List ℤ) (w : WavWriter)
    → Holds shut rate samples w
    → Holds later rate samples (record w { closed = later })
closed-Holds shut later rate samples w h = record {
  on_file = h.on_file;
  state = refl;
  of_rate = h.of_rate;
  in_order = h.in_order;
  file_there = h.file_there;
  counted = h.counted;
}

enqueue-Holds :
    (rate : ℕ) (before samples : List ℤ) (w : WavWriter)
    → Holds false rate before w
    → Holds false rate (before ++ taken (pushed samples) w) (enqueue samples w)
enqueue-Holds rate before samples w h = elim (Bool-cases (ltb (length w.queue) queue_limit)) [
  | inl e ↦ rw e (queue-Holds false rate before samples w h)
  | inr e ↦ rw (e, append-nil before) (dropped-Holds rate before (w.dropped + 1) w h)
]

nothing_taken : (w : WavWriter) → taken (pushed []) w ≡ []
nothing_taken w = ground arith

push-Holds :
    (rate : ℕ) (before samples : List ℤ) (w : WavWriter)
    → Holds false rate before w
    → Holds false rate (before ++ taken (pushed samples) w) (push samples w)
unfolding push
push-Holds rate before [] w h =
    let nothing : (w.closed || true) ≡ true = ground arith in
    rw (nothing_taken w, append-nil before, nothing) h
push-Holds rate before (x ∷ xs) w h =
    subst
      (λ (shut : Bool).
        Holds false rate (before ++ taken (pushed (x ∷ xs)) w)
          (if shut || false then w else enqueue (x ∷ xs) w))
      (sym h.state) (enqueue-Holds rate before (x ∷ xs) w h)

act-Holds :
    (rate : ℕ) (before : List ℤ) (a : Action) (w : WavWriter)
    → Holds false rate before w
    → Holds false rate (before ++ taken a w) (act a w)
unfolding work
act-Holds rate before (pushed samples) w h = push-Holds rate before samples w h
act-Holds rate before worked w h =
    rw (append-nil before) (write_first-Holds false rate before w.queue w h refl)

record_all-Holds :
    (rate : ℕ) (actions : List Action) (before : List ℤ) (w : WavWriter)
    → Holds false rate before w
    → Holds false rate (before ++ accepted actions w) (record_all actions w)
record_all-Holds rate [] before w h = rw (append-nil before) h
record_all-Holds rate (a ∷ rest) before w h =
    rw (sym (append_assoc before (taken a w) (accepted rest (act a w))))
      (record_all-Holds rate rest (before ++ taken a w) (act a w) (act-Holds rate before a w h))

drain_queue-Holds :
    (rate : ℕ) (samples : List ℤ) (queue : List (List ℤ)) (w : WavWriter)
    → Holds true rate samples w
    → w.queue ≡ queue
    → Holds true rate samples (drain_queue queue [] w) × ((drain_queue queue [] w).queue ≡ [])
drain_queue-Holds rate samples [] w h e = (h, e)
drain_queue-Holds rate samples (first ∷ rest) w h e =
    drain_queue-Holds rate samples rest (append_samples first complete (record w { queue = rest }))
      (append_samples-Holds true rate samples first rest w h e) refl

-- A recorder that was just opened.
fresh-Holds :
    (path : Text) (rate : ℕ) (w : WavWriter)
    → new_wav_writer path rate true true ≡ some w
    → Holds false rate [] w
unfolding new_wav_writer
fresh-Holds path rate w made = subst (Holds false rate []) (some-injective _ _ made) (record {
  on_file = [];
  state = refl;
  of_rate = refl;
  in_order = refl;
  file_there = refl;
  counted = refl;
})

-- The file once the queue is empty and the header is written.
finalize-file :
    (rate : ℕ) (samples : List ℤ) (w : WavWriter)
    → Holds true rate samples w
    → w.queue ≡ []
    → length samples * 2 ≤ size_limit
    → (finalize true complete w).file
      ≡ riff_header rate (length samples * 2) ++ sample_bytes samples
unfolding finalize
finalize-file rate samples w h empty fits =
    let all_there : samples ≡ h.on_file =
      h.in_order ∙ ap (λ q. h.on_file ++ join q) empty ∙ append-nil h.on_file in
    let size : data_size w.written ≡ length samples * 2 =
      ground (arith, h.counted, ap length all_there) in
    rw (size, h.of_rate, h.file_there, all_there) refl

-- The file of a recorder that is closed: the header, and all samples that it was given.
pub close-file :
    (path : Text) (rate : ℕ) (w : WavWriter) (actions : List Action)
    → new_wav_writer path rate true true ≡ some w
    → length (accepted actions w) * 2 ≤ size_limit
    → (close [] true complete (record_all actions w)).file
      ≡ riff_header rate (length (accepted actions w) * 2) ++ sample_bytes (accepted actions w)
unfolding close
close-file path rate w actions made fits =
    let last = record_all actions w in
    let h = record_all-Holds rate actions [] w (fresh-Holds path rate w made) in
    let drained =
      drain_queue-Holds rate (accepted actions w) last.queue (record last { closed = true })
        (closed-Holds false true rate (accepted actions w) last h) refl in
    rw (h.state) (
      finalize-file rate (accepted actions w)
        (drain_queue last.queue [] (record last { closed = true })) drained.0 drained.1 fits)
