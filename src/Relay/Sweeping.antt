-- ===== src/Relay/Sweeping.antt =====
-- What a sweep of pkg/media/media.go closes and forgets.
use funsip.Base.{
  ℕ, ◌==◌, ◌≡◌, refl, ap, ◌∙◌, sym, subst, Bool, true, false, not, ◌&&◌, ◌||◌, Option, none, some,
  List, [], ◌∷◌, map, keep_if, lookup, delete, lookup-delete, update, get_elem?,
  get_elem?-update_same, if◌then◌else◌, Bool-cases, inl, inr, arith,
}
use funsip.Text.{Text, text_eq, text_eq_iff, text_keys}
use funsip.Relay.Sockets.{Sockets}
use funsip.Relay.Stream.{Stream, is_on_hold, close_stream}
use funsip.Relay.Anchor.{Session, Around, close_streams}
use funsip.Relay.Manager.{
  Manager, get_session, is_idle, sweep_stream, sweep_streams, forget, sweep_found, sweep_session,
}

-- A stream that a sweep leaves open: it is open, and on hold or not idle for too long.
abbrev pub is_alive : ℕ → Stream → Bool
is_alive now st = not st.closed && (is_on_hold st || not (is_idle now st))

-- A stream that a sweep closes.
abbrev pub is_released : ℕ → Stream → Bool
is_released now st = not st.closed && not (is_on_hold st || not (is_idle now st))

abbrev pub any_alive : ℕ → List Stream → Bool
any_alive now [] = false
any_alive now (st ∷ rest) = is_alive now st || any_alive now rest

-- What a sweep makes of one stream.
record Swept (around : Around) (now : ℕ) (st : Stream) (w : Sockets) (r : Bool × (Stream × Sockets))
    : Type 0 where
  alive : r.0 ≡ is_alive now st
  closed : r.1.0.closed ≡ not (is_alive now st)
  sockets : r.1.1 ≡ close_streams around (if is_released now st then st ∷ [] else []) w

close_stream-closed :
    (to4 : List ℕ → Option (List ℕ)) (st : Stream) (w : Sockets)
    → st.closed ≡ false
    → (close_stream to4 (st, w)).0.closed ≡ true
unfolding close_stream
close_stream-closed to4 st w e = simp e

sweep_stream-Swept :
    (around : Around) (now : ℕ) (st : Stream) (w : Sockets)
    → Swept around now st w (sweep_stream around now st w)
sweep_stream-Swept around now st w = elim (Bool-cases st.closed) [
  | inl c ↦ record { alive = simp (c); closed = simp (c); sockets = simp (c) }
  | inr o ↦ elim (Bool-cases (is_on_hold st)) [
    | inl h ↦ record { alive = simp (o, h); closed = simp (o, h); sockets = simp (o, h) }
    | inr n ↦ elim (Bool-cases (is_idle now st)) [
      | inl i ↦ record {
        alive = simp (o, n, i);
        closed = simp (o, n, i) (close_stream-closed around.to4 st w o);
        sockets = simp (o, n, i);
      }
      | inr a ↦ record { alive = simp (o, n, a); closed = simp (o, n, a); sockets = simp (o, n, a) }
    ]
  ]
]

close_streams-append :
    (around : Around) (b : Bool) (st : Stream) (rest : List Stream) (w : Sockets)
    → close_streams around (if b then st ∷ rest else rest) w
      ≡ close_streams around rest (close_streams around (if b then st ∷ [] else []) w)
close_streams-append around true st rest w = refl
close_streams-append around false st rest w = refl

-- What a sweep makes of the streams of a session.
record AllSwept (around : Around) (now : ℕ) (sts : List Stream) (w : Sockets)
    (r : Bool × (List Stream × Sockets)) : Type 0 where
  alive : r.0 ≡ any_alive now sts
  closed : map (λ (st : Stream). st.closed) r.1.0 ≡ map (λ st. not (is_alive now st)) sts
  sockets : r.1.1 ≡ close_streams around (keep_if (is_released now) sts) w

sweep_streams-AllSwept :
    (around : Around) (now : ℕ) (sts : List Stream) (w : Sockets)
    → AllSwept around now sts w (sweep_streams around now sts w)
sweep_streams-AllSwept around now [] w = record { alive = refl; closed = refl; sockets = refl }
sweep_streams-AllSwept around now (st ∷ rest) w =
    let one = sweep_stream-Swept around now st w in
    let v = (sweep_stream around now st w).1.1 in
    let later = sweep_streams-AllSwept around now rest v in
    record {
      alive = rw (one.alive, later.alive) refl;
      closed =
          ap (λ b. b ∷ map (λ (t : Stream). t.closed) (sweep_streams around now rest v).1.0)
            one.closed
          ∙ ap (λ bs. not (is_alive now st) ∷ bs) later.closed;
      sockets =
          later.sockets
          ∙ ap (close_streams around (keep_if (is_released now) rest)) one.sockets
          ∙ sym (
              close_streams-append around (is_released now st) st (keep_if (is_released now) rest)
                w);
    }

-- The state once the streams have been looked at, and what the second lock makes of it.
abbrev looked_at : ℕ → Manager → Bool × (List Stream × Sockets) → Manager
looked_at i m swept = record m {
  heap = update (λ (old : Session). record old { streams = swept.1.0 }) i m.heap;
  sockets = swept.1.1;
}

abbrev second_lock : ℕ → Text → Manager → Bool → Manager
second_lock i call_id after alive =
    if alive then after else forget i (lookup text_keys call_id after.sessions) call_id after

-- The second lock changes the map only.
record Locked (i : ℕ) (call_id : Text) (alive : Bool) (after locked : Manager) : Type 0 where
  heap : locked.heap ≡ after.heap
  sockets : locked.sockets ≡ after.sockets
  found : get_session call_id locked ≡ (if alive then some i else none)

second_lock-Locked :
    (i : ℕ) (call_id : Text) (alive : Bool) (after : Manager)
    → lookup text_keys call_id after.sessions ≡ some i
    → Locked i call_id alive after (second_lock i call_id after alive)
second_lock-Locked i call_id true after known = record {
  heap = refl;
  sockets = refl;
  found = known;
}
second_lock-Locked i call_id false after known =
    let same : (i == i) ≡ true = ground arith in
    let itself : text_eq call_id call_id ≡ true = (text_eq_iff call_id call_id).1 refl in
    let forgotten : second_lock i call_id after false
        ≡ record after { sessions = delete text_keys call_id after.sessions } =
      ap (λ o. forget i o call_id after) known
      ∙ ap
          (λ (b : Bool).
            if b
            then record after { sessions = delete text_keys call_id after.sessions }
            else after)
          same in
    subst (Locked i call_id false after) (sym forgotten) (record {
      heap = refl;
      sockets = refl;
      found =
          lookup-delete text_keys call_id call_id after.sessions
          ∙ ap (λ (b : Bool). if b then none else lookup text_keys call_id after.sessions) itself;
    })

-- The session of a Call-ID that a sweep looks at. Of its streams, those stay open that are open and are
-- on hold or not idle for longer than they may be, and all others are closed afterwards; the sockets
-- that it closes are those of the streams that were open and are not any more. The map keeps the session
-- if one of its streams stays open, and has none for the Call-ID if not.
pub sweep_closes_idle :
    (around : Around) (now i : ℕ) (s : Session) (m : Manager)
    → get_elem? m.heap i ≡ some s
    → lookup text_keys s.call_id m.sessions ≡ some i
    → (let after = sweep_session around now i m in
        (streams : List Stream) × (get_elem? after.heap i ≡ some (record s { streams = streams }))
        × (map (λ (st : Stream). st.closed) streams ≡ map (λ st. not (is_alive now st)) s.streams)
        × (after.sockets ≡ close_streams around (keep_if (is_released now) s.streams) m.sockets)
        × (get_session s.call_id after ≡ (if any_alive now s.streams then some i else none)))
unfolding sweep_session
sweep_closes_idle around now i s m there known =
    let swept = sweep_streams around now s.streams m.sockets in
    let all = sweep_streams-AllSwept around now s.streams m.sockets in
    let after = looked_at i m swept in
    let reached : sweep_session around now i m
        ≡ second_lock i s.call_id after (any_alive now s.streams) =
      ap (λ o. sweep_found around now i o m) there ∙ ap (second_lock i s.call_id after) all.alive in
    let locked = second_lock-Locked i s.call_id (any_alive now s.streams) after known in
    (
      swept.1.0,
      ap (λ (n : Manager). get_elem? n.heap i) reached
          ∙ ap (λ h. get_elem? h i) locked.heap
          ∙ get_elem?-update_same (λ (old : Session). record old { streams = swept.1.0 }) i m.heap s
              there,
      all.closed,
      ap (λ (n : Manager). n.sockets) reached ∙ locked.sockets ∙ all.sockets,
      ap (get_session s.call_id) reached ∙ locked.found,
    )
