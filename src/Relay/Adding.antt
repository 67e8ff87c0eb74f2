-- ===== src/Relay/Adding.antt =====
-- The streams that ensureStream of pkg/media/media.go adds, and their ports.
use funsip.Base.{
  ℕ, zero, suc, ◌+◌, ◌<◌, ◌≤◌, ◌≡◌, refl, ◌∙◌, sym, Option, none, some, List, [], ◌∷◌, ◌++◌, length,
  arith, All,
}
use mathlib.Core.List.{append_assoc, append-nil}
use funsip.Text.{max_int}
use funsip.Relay.Sockets.{
  Sockets, Pair, Bound, got, failed, AllocateError, with_rtcp, with_rtp, attempt, max_attempts,
  allocate_consecutive_pair, with_b_side, with_a_side, allocate, listen_udp,
}
use funsip.Relay.Stream.{Stream, new_stream}
use funsip.Relay.Anchor.{Session, Around, add_if_some, add_streams}

-- Ports that follow one another, and that are such.
abbrev pub AreConsecutive : Pair → Type 0
AreConsecutive p = (p.rtcp_port ≡ p.rtp_port + 1) × (p.rtcp_port ≤ max_int)

abbrev pub HasPorts : Stream → Type 0
HasPorts st = AreConsecutive st.a_pair × AreConsecutive st.b_pair

-- A bound port is one of UDP.
abbrev pub BindsPorts : (ℕ → ℕ → Option ℕ) → Type 0
BindsPorts listen = (call asked port : ℕ) → listen call asked ≡ some port → port < 65536

abbrev PairPorts : Bound Pair × Sockets → Type 0
PairPorts (got p, w) = AreConsecutive p
PairPorts (failed e, w) = Unit

abbrev BothPorts : Bound (Pair × Pair) × Sockets → Type 0
BothPorts (got (a, b), w) = AreConsecutive a × AreConsecutive b
BothPorts (failed e, w) = Unit

module _ (listen : ℕ → ℕ → Option ℕ) (binds : BindsPorts listen) where
  with_rtcp-ports :
      (again : Sockets → Bound Pair × Sockets) (rtp rtcp port : ℕ) (tried : Option ℕ × Sockets)
      → port < 65536
      → ((w : Sockets) → PairPorts (again w))
      → PairPorts (with_rtcp listen again rtp rtcp port tried)
  with_rtcp-ports again rtp rtcp port (none, w) small next = next _
  with_rtcp-ports again rtp rtcp port (some p, w) small next = (refl, omega arith)

  with_rtp-ports :
      (again : Sockets → Bound Pair × Sockets) (rtp : ℕ) (tried : Option ℕ) (w : Sockets)
      → ((port : ℕ) → tried ≡ some port → port < 65536)
      → ((v : Sockets) → PairPorts (again v))
      → PairPorts (with_rtp listen again rtp (tried, w))
  with_rtp-ports again rtp none w small next = tt
  with_rtp-ports again rtp (some port) w small next =
      with_rtcp-ports again rtp w.calls port (listen_udp listen (port + 1) w) (small port refl) next

  attempt-ports : (left : ℕ) (w : Sockets) → PairPorts (attempt listen left w)
  attempt-ports zero w = tt
  attempt-ports (suc left) w =
      with_rtp-ports (attempt listen left) w.calls (listen w.calls 0) (listen_udp listen 0 w).1
        (binds w.calls 0) (attempt-ports left)

  with_b_side-ports :
      (a : Pair) (r : Bound Pair × Sockets)
      → AreConsecutive a
      → PairPorts r
      → BothPorts (with_b_side listen a r)
  with_b_side-ports a (got b, w) ha hb = (ha, hb)
  with_b_side-ports a (failed e, w) ha hb = tt

  with_a_side-ports : (r : Bound Pair × Sockets) → PairPorts r → BothPorts (with_a_side listen r)
  unfolding allocate_consecutive_pair
  with_a_side-ports (got a, w) h =
      with_b_side-ports a (attempt listen max_attempts w) h (attempt-ports max_attempts w)
  with_a_side-ports (failed e, w) h = tt

  allocate-ports : (w : Sockets) → BothPorts (allocate listen w)
  unfolding allocate allocate_consecutive_pair
  allocate-ports w =
      with_a_side-ports (attempt listen max_attempts w) (attempt-ports max_attempts w)

-- Streams added behind those of a session.
pub record Added (missing : ℕ) (s t : Session) : Type 0 where
  pub news : List Stream
  pub behind : t.streams ≡ s.streams ++ news
  pub all_of_them : length news ≡ missing
  pub with_ports : All HasPorts news

abbrev pub AddedTo : ℕ → Session → Option AllocateError × (Session × Sockets) → Type 0
AddedTo missing s (some e, state) = Unit
AddedTo missing s (none, (t, w)) = Added missing s t

module _ (around : Around) (binds : BindsPorts around.listen) where
  one_more-AddedTo :
      (missing now : ℕ) (s : Session) (pairs : Pair × Pair)
      (r : Option AllocateError × (Session × Sockets))
      → HasPorts (new_stream s.opts now pairs)
      → AddedTo missing (record s { streams = s.streams ++ new_stream s.opts now pairs ∷ [] }) r
      → AddedTo (suc missing) s r
  one_more-AddedTo missing now s pairs (some e, state) h a = tt
  one_more-AddedTo missing now s pairs (none, (t, w)) h a = record {
    news = new_stream s.opts now pairs ∷ a.news;
    behind = a.behind ∙ append_assoc s.streams (new_stream s.opts now pairs ∷ []) a.news;
    all_of_them = omega (arith, a.all_of_them);
    with_ports = (h, a.with_ports);
  }

  add_if_some-AddedTo :
      (missing now : ℕ) (s : Session) (r : Bound (Pair × Pair) × Sockets)
      → BothPorts r
      → ((t : Session) (w : Sockets) → AddedTo missing t (add_streams around missing now t w))
      → AddedTo (suc missing) s (add_if_some around (add_streams around missing now) now s r)
  add_if_some-AddedTo missing now s (failed e, w) h next = tt
  add_if_some-AddedTo missing now s (got (a, b), w) h next =
      one_more-AddedTo missing now s (a, b)
        (add_streams around missing now
          (record s { streams = s.streams ++ new_stream s.opts now (a, b) ∷ [] }) w)
        h (next _ w)

  pub add_streams-AddedTo :
      (missing now : ℕ) (s : Session) (w : Sockets)
      → AddedTo missing s (add_streams around missing now s w)
  add_streams-AddedTo zero now s w = record {
    news = [];
    behind = sym (append-nil s.streams);
    all_of_them = refl;
    with_ports = tt;
  }
  add_streams-AddedTo (suc missing) now s w =
      add_if_some-AddedTo missing now s (allocate around.listen w)
        (allocate-ports around.listen binds w) (add_streams-AddedTo missing now)
