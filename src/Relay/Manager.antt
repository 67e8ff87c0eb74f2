-- ===== src/Relay/Manager.antt =====
-- Manager of pkg/media/media.go. The map holds the places of its sessions in `heap`, where also those
-- are that it has let go; the sockets of all of them are one state. A sweep is the sequence of what it
-- does under the locks: the sessions are taken from the map first, and each is then looked at.
use funsip.Base.{
  ℕ, ◌-◌, ◌==◌, Bool, true, false, ◌&&◌, ◌||◌, Option, none, some, List, [], ◌∷◌, ◌++◌, length,
  get_elem?, update, lookup, insert, delete, ltb, if◌then◌else◌,
}
use funsip.Text.{Text, text_keys}
use funsip.Relay.Sockets.{Sockets}
use funsip.Relay.Stream.{Options, Stream, is_on_hold, close_stream, AnalyzerReport}
use funsip.Relay.Anchor.{Session, Around, close_session, report_session}

pub record Manager : Type 0 where
  pub sessions : List (Text × ℕ)
  pub heap : List Session
  pub sockets : Sockets
  pub sweeping : Bool

-- NewManager, on the sockets that are open
abbrev pub new_manager : Sockets → Manager
new_manager w = record { sessions = []; heap = []; sockets = w; sweeping = true }

-- Stop
abbrev pub stop : Manager → Manager
stop m = record m { sweeping = false }

-- Get
abbrev pub get_session : Text → Manager → Option ℕ
get_session call_id m = lookup text_keys call_id m.sessions

-- ActiveSessions
abbrev pub active_sessions : Manager → ℕ
active_sessions m = length m.sessions

abbrev create_if_none : Option ℕ → Text → Options → Manager → ℕ × Manager
create_if_none (some i) call_id opts m = (i, m)
create_if_none none call_id opts m = (
  length m.heap,
  record m {
    heap = m.heap ++ record { call_id = call_id; streams = []; opts = opts } ∷ [];
    sessions = insert text_keys call_id (length m.heap) m.sessions;
  },
)

-- GetOrCreate
unfoldable pub get_or_create : Text → Options → Manager → ℕ × Manager
get_or_create call_id opts m = create_if_none (lookup text_keys call_id m.sessions) call_id opts m

-- Whether the stream has been idle for too long at the time `now`.
abbrev pub is_idle : ℕ → Stream → Bool
is_idle now st =
    ltb 0 st.idle_timeout && ltb 0 st.last_activity && ltb st.idle_timeout (now - st.last_activity)

-- The second lock: the session is let go if the map still leads to it.
abbrev pub forget : ℕ → Option ℕ → Text → Manager → Manager
forget i none call_id m = m
forget i (some j) call_id m =
    if i == j then record m { sessions = delete text_keys call_id m.sessions } else m

module _ (around : Around) where
  abbrev close_at : Option Session → ℕ → Manager → Manager
  unfolding close_session
  close_at none i m = m
  close_at (some s) i m = record m {
    heap = update (λ old. record old { streams = [] }) i m.heap;
    sockets = (close_session around s m.sockets).1;
  }

  abbrev close_found : Option ℕ → Manager → Manager
  unfolding close_session
  close_found none m = m
  close_found (some i) m = close_at (get_elem? m.heap i) i m

  -- Delete
  unfoldable pub delete_session : Text → Manager → Manager
  unfolding close_session
  delete_session call_id m =
      close_found (lookup text_keys call_id m.sessions)
        (record m { sessions = delete text_keys call_id m.sessions })

  -- What a sweep does with one stream, and whether it is alive afterwards.
  abbrev pub sweep_stream : ℕ → Stream → Sockets → Bool × (Stream × Sockets)
  sweep_stream now st w =
      let released = close_stream around.to4 (st, w) in
      if st.closed
      then (false, (st, w))
      else if is_on_hold st
      then (true, (st, w))
      else if is_idle now st
      then (false, released)
      else (true, (st, w))

  abbrev pub sweep_streams : ℕ → List Stream → Sockets → Bool × (List Stream × Sockets)
  sweep_streams now [] w = (false, ([], w))
  sweep_streams now (st ∷ rest) w =
      let one = sweep_stream now st w in
      let later = sweep_streams now rest one.1.1 in
      (one.0 || later.0, (one.1.0 ∷ later.1.0, later.1.1))

  abbrev pub sweep_found : ℕ → ℕ → Option Session → Manager → Manager
  sweep_found now i none m = m
  sweep_found now i (some s) m =
      let swept = sweep_streams now s.streams m.sockets in
      let after = record m {
        heap = update (λ old. record old { streams = swept.1.0 }) i m.heap;
        sockets = swept.1.1;
      } in
      if swept.0
      then after
      else forget i (lookup text_keys s.call_id after.sessions) s.call_id after

  -- What a sweep does with one session.
  unfoldable pub sweep_session : ℕ → ℕ → Manager → Manager
  unfolding close_stream
  sweep_session now i m = sweep_found now i (get_elem? m.heap i) m

  abbrev sweep_each : ℕ → List (Text × ℕ) → Manager → Manager
  unfolding sweep_session
  sweep_each now [] m = m
  sweep_each now ((k, i) ∷ rest) m = sweep_each now rest (sweep_session now i m)

  -- sweepIdle
  unfoldable pub sweep_idle : ℕ → Manager → Manager
  unfolding sweep_session
  sweep_idle now m = sweep_each now m.sessions m

abbrev with_report : ℕ → Option AnalyzerReport × Session → Manager → Option AnalyzerReport × Manager
with_report i (r, s) m = (r, record m { heap = update (λ old. s) i m.heap })

abbrev report_at : ℕ → ℕ → Option Session → Manager → Option AnalyzerReport × Manager
unfolding report_session
report_at now i none m = (none, m)
report_at now i (some s) m = with_report i (report_session now s) m

abbrev report_found : ℕ → Option ℕ → Manager → Option AnalyzerReport × Manager
unfolding report_session
report_found now none m = (none, m)
report_found now (some i) m = report_at now i (get_elem? m.heap i) m

-- ReportFor
unfoldable pub report_for : ℕ → Text → Manager → Option AnalyzerReport × Manager
unfolding report_session
report_for now call_id m = report_found now (lookup text_keys call_id m.sessions) m
