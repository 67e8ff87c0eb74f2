-- ===== src/Events/Delivery.antt =====
-- That the counters of a sink of pkg/events/events.go account for every event.
use funsip.Base.{
  ℕ, suc, ◌+◌, ◌≤◌, ◌≡◌, refl, ap, sym, subst, Bool, true, false, ◌||◌, List, [], ◌∷◌, length,
  length-append, ltb, if◌then◌else◌, Bool-cases, inl, inr, arith, ltb→lt,
}
use funsip.Text.{Text, is_empty, trim_space}
use funsip.Events.Sink.{
  Posting, not_encoded, not_sent, refused, accepted, Sink, default_queue_size, new_sink, send,
  enqueue, post, work_on, work, drain, close,
}

-- The callers send, and the worker posts.
pub data Step (A : Type 0) : Type 0 where
  sent : A → Step A
  worked : Posting → Step A

module _ {A : Type 0} where
  abbrev pub step : Step A → Sink A → Sink A
  step (sent e) s = send e s
  step (worked result) s = work result s

  abbrev pub step_all : List (Step A) → Sink A → Sink A
  step_all [] s = s
  step_all (x ∷ rest) s = step_all rest (step x s)

  abbrev pub sends : List (Step A) → ℕ
  sends [] = 0
  sends (sent e ∷ rest) = suc (sends rest)
  sends (worked result ∷ rest) = sends rest

  -- A sink with a URL, to which n events were sent.
  pub record Accounts (shut : Bool) (n : ℕ) (s : Sink A) : Type 0 where
    pub has_url : is_empty s.url ≡ false
    pub state : s.closed ≡ shut
    pub all_sent : s.enqueued + s.dropped ≡ n
    pub all_queued : s.posted + s.failed + length s.queue ≡ s.enqueued
    pub bounded : length s.queue ≤ default_queue_size

  post-Accounts :
      (shut : Bool) (n : ℕ) (result : Posting) (e : A) (rest : List A) (s : Sink A)
      → Accounts shut n s
      → s.queue ≡ e ∷ rest
      → Accounts shut n (post result (record s { queue = rest }))
  post-Accounts shut n accepted e rest s a q =
      let size = ap (λ (xs : List A). length xs) q in
      record {
        has_url = a.has_url;
        state = a.state;
        all_sent = a.all_sent;
        all_queued = omega (arith, a.all_queued, size);
        bounded = omega (arith, a.bounded, size);
      }
  post-Accounts shut n not_encoded e rest s a q =
      let size = ap (λ (xs : List A). length xs) q in
      record {
        has_url = a.has_url;
        state = a.state;
        all_sent = a.all_sent;
        all_queued = omega (arith, a.all_queued, size);
        bounded = omega (arith, a.bounded, size);
      }
  post-Accounts shut n not_sent e rest s a q =
      let size = ap (λ (xs : List A). length xs) q in
      record {
        has_url = a.has_url;
        state = a.state;
        all_sent = a.all_sent;
        all_queued = omega (arith, a.all_queued, size);
        bounded = omega (arith, a.bounded, size);
      }
  post-Accounts shut n refused e rest s a q =
      let size = ap (λ (xs : List A). length xs) q in
      record {
        has_url = a.has_url;
        state = a.state;
        all_sent = a.all_sent;
        all_queued = omega (arith, a.all_queued, size);
        bounded = omega (arith, a.bounded, size);
      }

  work_on-Accounts :
      (n : ℕ) (result : Posting) (queue : List A) (s : Sink A)
      → Accounts false n s
      → s.queue ≡ queue
      → Accounts false n (work_on queue result s)
  work_on-Accounts n result [] s a q = a
  work_on-Accounts n result (e ∷ rest) s a q = post-Accounts false n result e rest s a q

  enqueue-Accounts :
      (n : ℕ) (e : A) (s : Sink A) → Accounts false n s → Accounts false (suc n) (enqueue e s)
  enqueue-Accounts n e s a = elim (Bool-cases (ltb (length s.queue) default_queue_size)) [
    | inl room ↦ rw room (record {
      has_url = a.has_url;
      state = a.state;
      all_sent = omega (arith, a.all_sent);
      all_queued = omega (arith, a.all_queued, length-append s.queue (e ∷ []));
      bounded = omega (arith, ltb→lt _ _ room, length-append s.queue (e ∷ []));
    })
    | inr full ↦ rw full (record {
      has_url = a.has_url;
      state = a.state;
      all_sent = omega (arith, a.all_sent);
      all_queued = a.all_queued;
      bounded = a.bounded;
    })
  ]

  step-Accounts :
      (n : ℕ) (x : Step A) (s : Sink A)
      → Accounts false n s
      → Accounts false (sends (x ∷ []) + n) (step x s)
  unfolding send work
  step-Accounts n (sent e) s a =
      let open_for : (is_empty s.url || s.closed) ≡ false = ground (arith, a.has_url, a.state) in
      subst (λ (idle : Bool). Accounts false (1 + n) (if idle then s else enqueue e s))
        (sym open_for)
        (subst (λ m. Accounts false m (enqueue e s)) (omega arith) (enqueue-Accounts n e s a))
  step-Accounts n (worked result) s a =
      subst (λ m. Accounts false m (work result s)) (omega arith)
        (work_on-Accounts n result s.queue s a refl)

  sends-cons :
      (x : Step A) (rest : List (Step A)) (n : ℕ)
      → sends rest + (sends (x ∷ []) + n) ≡ sends (x ∷ rest) + n
  sends-cons (sent e) rest n = omega arith
  sends-cons (worked result) rest n = omega arith

  step_all-Accounts :
      (xs : List (Step A)) (n : ℕ) (s : Sink A)
      → Accounts false n s
      → Accounts false (sends xs + n) (step_all xs s)
  step_all-Accounts [] n s a = subst (λ m. Accounts false m s) (omega arith) a
  step_all-Accounts (x ∷ rest) n s a =
      subst (λ m. Accounts false m (step_all rest (step x s))) (sends-cons x rest n)
        (step_all-Accounts rest (sends (x ∷ []) + n) (step x s) (step-Accounts n x s a))

  post-queue : (result : Posting) (s : Sink A) → (post result s).queue ≡ s.queue
  post-queue accepted s = refl
  post-queue not_encoded s = refl
  post-queue not_sent s = refl
  post-queue refused s = refl

  drain-Accounts :
      (n : ℕ) (queue : List A) (results : List Posting) (s : Sink A)
      → Accounts true n s
      → s.queue ≡ queue
      → Accounts true n (drain queue results s) × ((drain queue results s).queue ≡ [])
  drain-Accounts n [] results s a q = (a, q)
  drain-Accounts n (e ∷ rest) [] s a q =
      drain-Accounts n rest [] (post accepted (record s { queue = rest }))
        (post-Accounts true n accepted e rest s a q) refl
  drain-Accounts n (e ∷ rest) (result ∷ results) s a q =
      drain-Accounts n rest results (post result (record s { queue = rest }))
        (post-Accounts true n result e rest s a q) (post-queue result (record s { queue = rest }))

-- Events are sent to a sink with a URL while its worker posts them, in any order of these steps and
-- however the posts end; then it is closed. Every event was put into the queue or counted as dropped,
-- and once the sink is closed every event from the queue has been posted or counted as failed, and none
-- is left. Until then the queue never held more than it may; and what is sent afterwards changes nothing.
pub sink_accounts :
    {A : Type 0} (url : Text) (xs : List (Step A)) (results : List Posting)
    → is_empty (trim_space url) ≡ false
    → (let last : Sink A = step_all xs (new_sink url) in
        let shut = close results last in
        (shut.enqueued + shut.dropped ≡ sends xs)
        × (shut.posted + shut.failed ≡ shut.enqueued)
        × (shut.queue ≡ [])
        × (length last.queue ≤ default_queue_size)
        × ((e : A) → send e shut ≡ shut))
unfolding close send new_sink
sink_accounts {A = A} url xs results full =
    let last : Sink A = step_all xs (new_sink url) in
    let a = step_all-Accounts xs 0 (new_sink url) (record {
      has_url = full;
      state = refl;
      all_sent = refl;
      all_queued = refl;
      bounded = omega arith;
    }) in
    let shut = drain last.queue results (record last { closed = true }) in
    let (b, empty) =
      drain-Accounts (sends xs + 0) last.queue results (record last { closed = true })
        (record {
          has_url = a.has_url;
          state = refl;
          all_sent = a.all_sent;
          all_queued = a.all_queued;
          bounded = a.bounded;
        })
        refl in
    subst
      (λ (was : Bool).
        let v = if was then last else shut in
        (v.enqueued + v.dropped ≡ sends xs)
        × (v.posted + v.failed ≡ v.enqueued)
        × (v.queue ≡ [])
        × (length last.queue ≤ default_queue_size)
        × ((e : A) → (if is_empty v.url || v.closed then v else enqueue e v) ≡ v))
      (sym a.state)
      (
        omega (arith, b.all_sent),
        omega (arith, b.all_queued, ap (λ (q : List A). length q) empty),
        empty,
        a.bounded,
        λ e.
            let over : (is_empty shut.url || shut.closed) ≡ true =
              ground (arith, b.has_url, b.state) in
            ap (λ (idle : Bool). if idle then shut else enqueue e shut) over,
      )
