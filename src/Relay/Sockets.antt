-- ===== src/Relay/Sockets.antt =====
-- The sockets of pkg/media/media.go: allocateConsecutivePair, allocate and closeAll. The operating
-- system is a parameter: what ListenUDP answers to a call, which is named by its number, for a port that
-- is asked for (0: any), is the port that is bound, or nothing.
use funsip.Base.{ℕ, zero, suc, ◌+◌, ◌==◌, not, Option, none, some, List, ◌∷◌, keep_if}

-- The calls made so far, and the sockets that are open, each named by the call that opened it.
pub record Sockets : Type 0 where
  pub calls : ℕ
  pub open_now : List ℕ

abbrev pub close : ℕ → Sockets → Sockets
close socket w = record w { open_now = keep_if (λ other. not (other == socket)) w.open_now }

-- What a pair of sockets is: those of RTP and of RTCP, with their ports.
pub record Pair : Type 0 where
  pub rtp : ℕ
  pub rtcp : ℕ
  pub rtp_port : ℕ
  pub rtcp_port : ℕ

pub data AllocateError : Type 0 where
  listen_failed too_many_attempts : AllocateError

-- What is bound, or an error.
pub data Bound (A : Type 0) : Type 0 where
  got : A → Bound A
  failed : AllocateError → Bound A

abbrev pub max_attempts : ℕ
max_attempts = 50

module _ (listen : ℕ → ℕ → Option ℕ) where
  abbrev pub after_listen : Option ℕ → Sockets → Sockets
  after_listen none w = record w { calls = suc w.calls }
  after_listen (some port) w = record { calls = suc w.calls; open_now = w.calls ∷ w.open_now }

  -- ListenUDP
  abbrev pub listen_udp : ℕ → Sockets → Option ℕ × Sockets
  listen_udp port w = (listen w.calls port, after_listen (listen w.calls port) w)

  -- The second half of an attempt: the socket `rtp` is bound to `port`, and the next port was tried for
  -- the socket `rtcp`.
  abbrev pub with_rtcp :
      (Sockets → Bound Pair × Sockets) → ℕ → ℕ → ℕ → Option ℕ × Sockets → Bound Pair × Sockets
  with_rtcp again rtp rtcp port (none, w) = again (close rtp w)
  with_rtcp again rtp rtcp port (some bound, w) =
      (got (record { rtp = rtp; rtcp = rtcp; rtp_port = port; rtcp_port = port + 1 }), w)

  abbrev pub with_rtp :
      (Sockets → Bound Pair × Sockets) → ℕ → Option ℕ × Sockets → Bound Pair × Sockets
  with_rtp again rtp (none, w) = (failed listen_failed, w)
  with_rtp again rtp (some port, w) = with_rtcp again rtp w.calls port (listen_udp (port + 1) w)

  -- The loop of allocateConsecutivePair, with the attempts that are left.
  abbrev pub attempt : ℕ → Sockets → Bound Pair × Sockets
  attempt zero w = (failed too_many_attempts, w)
  attempt (suc left) w = with_rtp (attempt left) w.calls (listen_udp 0 w)

  -- allocateConsecutivePair
  unfoldable pub allocate_consecutive_pair : Sockets → Bound Pair × Sockets
  allocate_consecutive_pair w = attempt max_attempts w

  abbrev pub with_b_side : Pair → Bound Pair × Sockets → Bound (Pair × Pair) × Sockets
  with_b_side a (failed e, w) = (failed e, close a.rtcp (close a.rtp w))
  with_b_side a (got b, w) = (got (a, b), w)

  abbrev pub with_a_side : Bound Pair × Sockets → Bound (Pair × Pair) × Sockets
  unfolding allocate_consecutive_pair
  with_a_side (failed e, w) = (failed e, w)
  with_a_side (got a, w) = with_b_side a (allocate_consecutive_pair w)

  -- allocate: the pairs of the two sides, or an error.
  unfoldable pub allocate : Sockets → Bound (Pair × Pair) × Sockets
  unfolding allocate_consecutive_pair
  allocate w = with_a_side (allocate_consecutive_pair w)

-- closeAll, of a stream with these pairs
abbrev pub close_all : Pair × Pair → Sockets → Sockets
close_all (a, b) w = close b.rtcp (close b.rtp (close a.rtcp (close a.rtp w)))
