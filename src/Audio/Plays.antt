-- ===== src/Audio/Plays.antt =====
-- Manager of pkg/play/session.go, and New. The manager's map holds the places of its sessions in `heap`,
-- where also those are that it has let go. Stop waits until `run` has ended, which it does once it was
-- started; a call that waits for this is a result of its own, with the state in which it waits.
use funsip.Base.{
  ℕ, Bool, true, false, Option, none, some, List, [], ◌∷◌, ◌++◌, length, update, get_elem?, lookup,
  insert, delete, if◌then◌else◌,
}
use funsip.Text.{Text, text_keys}
use funsip.Audio.Reader.{WavFile, WavError, Opened, opened, failed, open_wav}
use funsip.Audio.Player.{PlaySession}

pub data OpenError : Type 0 where
  no_file invalid_local_ip no_socket : OpenError
  bad_audio : WavError → OpenError

pub data NewSession : Type 0 where
  created : PlaySession → NewSession
  refused : OpenError → NewSession

-- What the system answers: the file's bytes if it can be opened, whether ParseIP accepts the local
-- address, the port that ListenUDP binds, and a random number.
pub record Answers : Type 0 where
  pub file : Option (List ℕ)
  pub ip_parses : Bool
  pub bound : Option ℕ
  pub random : ℕ

abbrev pub on_socket : Option ℕ → Text → Text → Text → ℕ → NewSession
on_socket none local_ip call_id filename random = refused no_socket
on_socket (some port) local_ip call_id filename random = created (record {
  call_id = call_id;
  filename = filename;
  local_ip = local_ip;
  local_port = port;
  dest = none;
  ssrc = random;
  started = false;
  stopped = false;
})

abbrev pub at_address : Bool → Answers → Text → Text → Text → NewSession
at_address true a local_ip call_id filename = on_socket a.bound local_ip call_id filename a.random
at_address false a local_ip call_id filename = refused invalid_local_ip

abbrev pub with_file : Option (Opened WavFile) → Answers → Text → Text → Text → NewSession
with_file none a local_ip call_id filename = refused no_file
with_file (some (failed e)) a local_ip call_id filename = refused (bad_audio e)
with_file (some (opened f)) a local_ip call_id filename =
    at_address a.ip_parses a local_ip call_id filename

abbrev pub opened_file : Option (List ℕ) → Option (Opened WavFile)
opened_file none = none
opened_file (some bytes) = open_wav bytes

-- New
unfoldable pub new_session : Answers → Text → Text → Text → NewSession
new_session a local_ip call_id filename = with_file (opened_file a.file) a local_ip call_id filename

pub record Plays : Type 0 where
  pub local_ip : Text
  pub heap : List PlaySession
  pub sessions : List (Text × ℕ)

abbrev pub new_plays : Text → Plays
new_plays local_ip = record { local_ip = local_ip; heap = []; sessions = [] }

-- What Stop of a session does before it waits.
abbrev pub stop : PlaySession → PlaySession
stop s = record s { stopped = true }

-- Whether Stop of the session at a place comes back: `run` closes `done`, if Start was called.
abbrev pub stop_returns : Option PlaySession → Bool
stop_returns none = true
stop_returns (some s) = s.started

-- The session that is let go, if any: what Stop leaves, and whether it comes back.
abbrev pub stop_old : Option ℕ → List PlaySession → List PlaySession
stop_old none heap = heap
stop_old (some i) heap = update stop i heap

abbrev pub old_returns : Option ℕ → List PlaySession → Bool
old_returns none heap = true
old_returns (some i) heap = stop_returns (get_elem? heap i)

-- How Open ends: with an error; with the place of the new session; or it waits for the old session of
-- the call, and holds the manager's lock.
pub data Opening : Type 0 where
  not_opened : OpenError → Opening
  opened_at : ℕ → Plays → Opening
  open_waits : Plays → Opening

abbrev pub with_new : NewSession → Text → Plays → Opening
with_new (refused e) call_id m = not_opened e
with_new (created s) call_id m =
    let heap = stop_old (lookup text_keys call_id m.sessions) m.heap in
    if old_returns (lookup text_keys call_id m.sessions) m.heap
    then opened_at (length heap) (record m {
      heap = heap ++ s ∷ [];
      sessions = insert text_keys call_id (length heap) m.sessions;
    })
    else open_waits (record m { heap = heap ++ s ∷ [] })

-- Open
unfoldable pub open_session : Answers → Text → Text → Plays → Opening
unfolding new_session
open_session a call_id filename m = with_new (new_session a m.local_ip call_id filename) call_id m

-- Get
abbrev pub get_session : Text → Plays → Option ℕ
get_session call_id m = lookup text_keys call_id m.sessions

-- How the other calls end.
pub data Called : Type 0 where
  returns : Plays → Called
  waits : Plays → Called

-- CleanupForCallID
unfoldable pub cleanup : Text → Plays → Called
cleanup call_id m =
    let after = record m {
      heap = stop_old (lookup text_keys call_id m.sessions) m.heap;
      sessions = delete text_keys call_id m.sessions;
    } in
    if old_returns (lookup text_keys call_id m.sessions) m.heap then returns after else waits after

-- ActiveCount
abbrev pub active_count : Plays → ℕ
active_count m = length m.sessions

-- The sessions, stopped one after the other, up to the first whose Stop waits.
abbrev pub stop_each : List (Text × ℕ) → Plays → Called
stop_each [] m = returns m
stop_each ((k, i) ∷ rest) m =
    let after = record m { heap = update stop i m.heap } in
    let later = stop_each rest after in
    if stop_returns (get_elem? m.heap i) then later else waits after

-- CloseAll
unfoldable pub close_all : Plays → Called
close_all m = stop_each m.sessions (record m { sessions = [] })
