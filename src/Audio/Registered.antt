-- ===== src/Audio/Registered.antt =====
-- Which sessions of pkg/play are running.
use funsip.Base.{
  ℕ, ◌≡◌, refl, sym, true, Bool, some, List, [], ◌∷◌, get_elem?, subst, if◌then◌else◌, update, inl,
  inr, Bool-cases,
}
use mathlib.Core.List.{append-nil}
use funsip.Text.{Text, text_eq}
use funsip.Audio.Player.{PlaySession}
use funsip.Audio.Plays.{
  Plays, new_plays, new_session, stop, open_session, stop_each, close_all, opened_file, Called,
  returns, waits, stop_returns,
}
use funsip.Audio.Calls.{
  Request, to_open, to_start, to_clean, to_close, serve, serve_all, IsRegistered, WaitsFor, Closed,
  Reached, go_on, Known, Kept, old_waits, running_before, cleanup-Kept, outcome-Kept,
  start-IsRegistered, with_file-Names,
}

-- What CloseAll leaves, where it comes back: nothing runs.
abbrev Emptied : Called → Type 0
Emptied (returns m) = IsRegistered m × Closed (returns m)
Emptied (waits m) = WaitsFor m

nothing_known :
    (heap : List PlaySession)
    → Known [] heap
    → (i : ℕ) (s : PlaySession) → get_elem? heap i ≡ some s
    → s.stopped ≡ true
nothing_known heap known i s e = elim (Bool-cases s.stopped) [
  | inl stopped ↦ stopped
  | inr r ↦ let found = known i s e r in absurd cc
]

-- Stopping one session leaves those that the rest of the map has.
known_rest :
    (k : Text) (i : ℕ) (rest : List (Text × ℕ)) (heap : List PlaySession)
    → Known ((k, i) ∷ rest) heap
    → Known rest (update stop i heap)
known_rest k i rest heap known j s e r =
    let before = running_before (some i) heap j s e r in
    let found = known j s before.0 r in
    elim (Bool-cases (text_eq k s.call_id)) [
      | inl same ↦ absurd (before.1 (rw same at found))
      | inr other ↦ rw other at found
    ]

stop_each-Emptied :
    (ids : List (Text × ℕ)) (m : Plays)
    → m.sessions ≡ []
    → Known ids m.heap
    → Emptied (stop_each ids m)
stop_each-Emptied [] m none_left known =
    (record { found = rw none_left known }, nothing_known m.heap known)
stop_each-Emptied ((k, i) ∷ rest) m none_left known =
    let after : Plays = record m { heap = update stop i m.heap } in
    elim (Bool-cases (stop_returns (get_elem? m.heap i))) [
      | inl e ↦
          subst (λ (b : Bool). Emptied (if b then stop_each rest after else waits after)) (sym e)
            (stop_each-Emptied rest after none_left (known_rest k i rest m.heap known))
      | inr e ↦
          let (j, s, there, never) = old_waits (some i) m.heap [] e in
          subst (λ (b : Bool). Emptied (if b then stop_each rest after else waits after)) (sym e)
            (record {
              place = j;
              session = stop s;
              there = subst (λ h. get_elem? h j ≡ some (stop s)) (append-nil _) there;
              stopped = refl;
              not_started = never;
            })
    ]

close_all-Emptied : (m : Plays) → IsRegistered m → Emptied (close_all m)
unfolding close_all
close_all-Emptied m known =
    stop_each-Emptied m.sessions (record m { sessions = [] }) refl known.found

Emptied-Kept : (c : Called) → Emptied c → Kept c
Emptied-Kept (returns m) h = h.0
Emptied-Kept (waits m) h = h

Emptied-Closed : (c : Called) → Emptied c → Closed c
Emptied-Closed (returns m) h = h.1
Emptied-Closed (waits m) h = h

serve-Kept : (r : Request) (m : Plays) → IsRegistered m → Kept (serve r m)
unfolding open_session new_session
serve-Kept (to_open a call_id filename) m known =
    outcome-Kept m call_id (new_session a m.local_ip call_id filename) known
      (with_file-Names (opened_file a.file) a m.local_ip call_id filename)
serve-Kept (to_start i) m known = start-IsRegistered m i known
serve-Kept (to_clean call_id) m known = cleanup-Kept m known call_id
serve-Kept to_close m known = Emptied-Kept (close_all m) (close_all-Emptied m known)

go_on-Reached :
    (next : Plays → Called) (c : Called)
    → ((m : Plays) → IsRegistered m → Reached (next m))
    → Kept c
    → Reached (go_on next c)
go_on-Reached next (returns m) h k = h m k
go_on-Reached next (waits m) h k = k

serve_all-Reached : (rs : List Request) (m : Plays) → IsRegistered m → Reached (serve_all rs m)
serve_all-Reached [] m known = (known, Emptied-Closed (close_all m) (close_all-Emptied m known))
serve_all-Reached (r ∷ rest) m known =
    go_on-Reached (serve_all rest) (serve r m) (serve_all-Reached rest) (serve-Kept r m known)

-- After any sequence of Open, of CleanupForCallID, of CloseAll and of Start, failed ones included, either
-- some call waits in Stop for a session that was never started; or all have come back. Then a session
-- that runs is the one that the map has for its Call-ID, so that no two of one call run; and CloseAll,
-- called then, waits for a session that was never started, or leaves no session that runs, and so no
-- open socket.
pub plays_run-IsRegistered :
    (local_ip : Text) (rs : List Request) → Reached (serve_all rs (new_plays local_ip))
plays_run-IsRegistered local_ip rs =
    serve_all-Reached rs (new_plays local_ip) (record { found = λ i s e r. absurd cc })
