-- ===== src/Relay/Allocation.antt =====
-- What allocate of pkg/media/media.go opens, and that nothing else is left open.
use funsip.Base.{
  ℕ, zero, suc, ◌+◌, ◌<◌, ◌≤◌, ◌==◌, ◌≡◌, refl, ap, ◌∙◌, true, false, not, Option, none, some, List,
  [], ◌∷◌, arith, All, keep_if,
}
use funsip.Relay.Sockets.{
  Sockets, Pair, Bound, got, failed, close, after_listen, with_rtcp, with_rtp, attempt,
  allocate_consecutive_pair, with_b_side, with_a_side, allocate, close_all, max_attempts,
}

-- The open sockets were opened by calls that were made.
abbrev pub AreOpened : Sockets → Type 0
AreOpened w = All (λ socket. socket < w.calls) w.open_now

keep_others :
    (n : ℕ) (sockets : List ℕ)
    → All (λ s. s < n) sockets
    → keep_if (λ s. not (s == n)) sockets ≡ sockets
keep_others n [] h = refl
keep_others n (s ∷ rest) h =
    let other : (s == n) ≡ false = ground (arith, h.0) in
    rw other (ap (λ r. s ∷ r) (keep_others n rest h.1))

All-lt-later :
    (n m : ℕ) (sockets : List ℕ) → n ≤ m → All (λ s. s < n) sockets → All (λ s. s < m) sockets
All-lt-later n m [] le h = tt
All-lt-later n m (s ∷ rest) le h = (omega (arith, h.0), All-lt-later n m rest le h.1)

-- Closing a pair that was opened last.
without_pair :
    (r t : ℕ) (rest : List ℕ)
    → t ≡ suc r
    → All (λ s. s < r) rest
    → keep_if (λ s. not (s == t)) (keep_if (λ s. not (s == r)) (t ∷ r ∷ rest)) ≡ rest
without_pair r t rest e h =
    let other : (t == r) ≡ false = ground (arith, e) in
    let rtp : (r == r) ≡ true = ground arith in
    let rtcp : (t == t) ≡ true = ground arith in
    rw (other, rtp, keep_others r rest h, rtcp)
      (keep_others t rest (All-lt-later r t rest (omega (arith, e)) h))

-- Closing one socket below two others.
below_pair :
    (n b1 b2 : ℕ) (rest : List ℕ)
    → n < b1
    → b2 ≡ suc b1
    → keep_if (λ s. not (s == n)) (b2 ∷ b1 ∷ rest) ≡ b2 ∷ b1 ∷ keep_if (λ s. not (s == n)) rest
below_pair n b1 b2 rest h e =
    let one : (b1 == n) ≡ false = ground (arith, h) in
    let two : (b2 == n) ≡ false = ground (arith, h, e) in simp (one, two)

-- A pair that was just opened: its ports follow one another, as do its sockets, which no other call has opened.
pub record Opens (before after : Sockets) (p : Pair) : Type 0 where
  pub consecutive : p.rtcp_port ≡ p.rtp_port + 1
  pub its_own : p.rtcp ≡ suc p.rtp
  pub new_ones : before.calls ≤ p.rtp
  pub known : suc p.rtp < after.calls
  pub only_these : after.open_now ≡ p.rtcp ∷ p.rtp ∷ before.open_now

-- The outcome of an allocation: one of the two, and the sockets that it says.
abbrev Outcome : Sockets → Bound Pair × Sockets → Type 0
Outcome before (got p, after) = Opens before after p
Outcome before (failed e, after) = (before.calls ≤ after.calls) × (after.open_now ≡ before.open_now)

-- What holds from a later start with the same open sockets.
Outcome-earlier :
    (before later : Sockets) (r : Bound Pair × Sockets)
    → before.calls ≤ later.calls
    → later.open_now ≡ before.open_now
    → Outcome later r
    → Outcome before r
Outcome-earlier before later (got p, after) le e h = record {
  consecutive = h.consecutive;
  its_own = h.its_own;
  new_ones = omega (arith, h.new_ones);
  known = h.known;
  only_these = h.only_these ∙ ap (λ r. p.rtcp ∷ p.rtp ∷ r) e;
}
Outcome-earlier before later (failed x, after) le e h = (omega (arith, h.0), h.1 ∙ e)

module _ (listen : ℕ → ℕ → Option ℕ) where
  -- The second half of an attempt, which may go on to others.
  with_rtcp-Outcome :
      (again : Sockets → Bound Pair × Sockets) (w : Sockets) (port : ℕ) (bound : Option ℕ)
      → AreOpened w
      → ((v : Sockets) → AreOpened v → Outcome v (again v))
      → (let first = after_listen listen (some port) w in
          Outcome w (
            with_rtcp listen again w.calls first.calls port
              (bound, after_listen listen bound first)))
  with_rtcp-Outcome again w port (some b) h next = record {
    consecutive = refl;
    its_own = refl;
    new_ones = omega arith;
    known = omega arith;
    only_these = refl;
  }
  with_rtcp-Outcome again w port none h next =
      let later = close w.calls (after_listen listen none (after_listen listen (some port) w)) in
      let itself : (w.calls == w.calls) ≡ true = ground arith in
      let same : later.open_now ≡ w.open_now = rw itself (keep_others w.calls w.open_now h) in
      Outcome-earlier w later (again later) (omega arith) same
        (next later (rw same (All-lt-later w.calls later.calls w.open_now (omega arith) h)))

  with_rtp-Outcome :
      (again : Sockets → Bound Pair × Sockets) (w : Sockets) (bound : Option ℕ)
      → AreOpened w
      → ((v : Sockets) → AreOpened v → Outcome v (again v))
      → Outcome w (with_rtp listen again w.calls (bound, after_listen listen bound w))
  with_rtp-Outcome again w none h next = (omega arith, refl)
  with_rtp-Outcome again w (some port) h next =
      with_rtcp-Outcome again w port (listen (suc w.calls) (port + 1)) h next

  attempt-Outcome : (left : ℕ) (w : Sockets) → AreOpened w → Outcome w (attempt listen left w)
  attempt-Outcome zero w h = (omega arith, refl)
  attempt-Outcome (suc left) w h =
      with_rtp-Outcome (attempt listen left) w (listen w.calls 0) h (attempt-Outcome left)

  -- The sockets of both pairs, closed again.
  close_all-open :
      (before between after : Sockets) (a b : Pair)
      → AreOpened before
      → Opens before between a
      → Opens between after b
      → (close_all (a, b) after).open_now ≡ before.open_now
  close_all-open before between after a b h oa ob =
      let below : All (λ s. s < a.rtp) before.open_now =
        All-lt-later before.calls a.rtp before.open_now oa.new_ones h in
      let known : (a.rtp < b.rtp) × (a.rtcp < b.rtp) =
        (omega (arith, oa.known, ob.new_ones), omega (arith, oa.known, oa.its_own, ob.new_ones)) in
      let first =
        below_pair a.rtp b.rtp b.rtcp (a.rtcp ∷ a.rtp ∷ before.open_now) known.0 ob.its_own in
      let second =
        below_pair a.rtcp b.rtp b.rtcp
          (keep_if (λ s. not (s == a.rtp)) (a.rtcp ∷ a.rtp ∷ before.open_now)) known.1 ob.its_own in
      let pair = without_pair a.rtp a.rtcp before.open_now oa.its_own below in
      let all_below : All (λ s. s < b.rtp) before.open_now =
        All-lt-later a.rtp b.rtp before.open_now (omega (arith, known.0)) below in
      rw (ob.only_these, oa.only_these, first, second, pair)
        (without_pair b.rtp b.rtcp before.open_now ob.its_own all_below)

  -- What allocate did: four sockets more, or none, and an error.
  abbrev pub Allocated : Sockets → Bound (Pair × Pair) × Sockets → Type 0
  Allocated before (got (a, b), after) =
      (a.rtcp_port ≡ a.rtp_port + 1)
      × (b.rtcp_port ≡ b.rtp_port + 1)
      × (after.open_now ≡ b.rtcp ∷ b.rtp ∷ a.rtcp ∷ a.rtp ∷ before.open_now)
      × ((close_all (a, b) after).open_now ≡ before.open_now)
  Allocated before (failed e, after) = after.open_now ≡ before.open_now

  pair-AreOpened : (w v : Sockets) (p : Pair) → AreOpened w → Opens w v p → AreOpened v
  pair-AreOpened w v p h o = rw (o.only_these) (
    omega (arith, o.its_own, o.known),
    (
      omega (arith, o.known),
      All-lt-later w.calls v.calls w.open_now (omega (arith, o.new_ones, o.known)) h,
    ),
  )

  -- The B side, once the A side is open.
  with_b_side-Allocated :
      (before between : Sockets) (a : Pair) (r : Bound Pair × Sockets)
      → AreOpened before
      → Opens before between a
      → Outcome between r
      → Allocated before (with_b_side listen a r)
  with_b_side-Allocated before between a (got b, after) h oa ob = (
    oa.consecutive,
    ob.consecutive,
    ob.only_these ∙ ap (λ r. b.rtcp ∷ b.rtp ∷ r) oa.only_these,
    close_all-open before between after a b h oa ob,
  )
  with_b_side-Allocated before between a (failed e, after) h oa ob =
      let below : All (λ s. s < a.rtp) before.open_now =
        All-lt-later before.calls a.rtp before.open_now oa.new_ones h in
      rw (ob.1, oa.only_these) (without_pair a.rtp a.rtcp before.open_now oa.its_own below)

  with_a_side-Allocated :
      (before : Sockets) (r : Bound Pair × Sockets)
      → AreOpened before
      → Outcome before r
      → Allocated before (with_a_side listen r)
  unfolding allocate_consecutive_pair
  with_a_side-Allocated before (got a, between) h oa =
      with_b_side-Allocated before between a (attempt listen max_attempts between) h oa
        (attempt-Outcome max_attempts between (pair-AreOpened before between a h oa))
  with_a_side-Allocated before (failed e, after) h o = o.1

-- Whatever the system answers to the calls, the allocation of a stream comes to an end within the
-- attempts that it has, in one of two ways. It succeeds: then exactly four more sockets are open, on
-- each side the port of RTCP is the one behind that of RTP, and closing the stream closes them and no
-- other. Or it fails with an error: then exactly those sockets are open that were open before.
pub allocation_leaks_nothing :
    (listen : ℕ → ℕ → Option ℕ) (w : Sockets) → AreOpened w → Allocated listen w (allocate listen w)
unfolding allocate allocate_consecutive_pair
allocation_leaks_nothing listen w h =
    with_a_side-Allocated listen w (attempt listen max_attempts w) h
      (attempt-Outcome listen max_attempts w h)
