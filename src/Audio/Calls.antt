-- ===== src/Audio/Calls.antt =====
-- Calls of the manager of pkg/play, one after the other, and what each leaves running.
use funsip.Base.{
  ℕ, ◌≡◌, refl, ap, ◌∙◌, sym, true, false, Bool, Option, none, some, some-injective, List, [], ◌∷◌,
  get_elem?, get_elem?-append, get_elem?-update_same, Option-cases, subst, ◌++◌, length, insert,
  delete, if◌then◌else◌, get_elem?-snoc, get_elem?-update_inv, update, lookup, lookup-insert,
  lookup-delete, arith, inl, inr, Bool-cases,
}
use mathlib.Core.Bool.{true≢false}
use mathlib.Core.List.{append-nil}
use funsip.Text.{Text, text_eq, text_eq_iff, text_keys}
use funsip.Audio.Player.{PlaySession, start}
use funsip.Audio.Reader.{Opened, opened, failed, WavFile}
use funsip.Audio.Plays.{
  Answers, NewSession, created, refused, Plays, stop, stop_old, with_new, open_session, on_socket,
  at_address, with_file, cleanup, close_all, Opening, not_opened, opened_at, open_waits, Called,
  returns, waits, old_returns,
}

-- Whoever calls the manager or starts a session.
pub data Request : Type 0 where
  to_open : Answers → Text → Text → Request
  to_start : ℕ → Request
  to_clean : Text → Request
  to_close : Request

abbrev pub after_open : Opening → Plays → Called
after_open (not_opened e) m = returns m
after_open (opened_at i after) m = returns after
after_open (open_waits after) m = waits after

abbrev pub serve : Request → Plays → Called
serve (to_open a call_id filename) m = after_open (open_session a call_id filename m) m
serve (to_start i) m = returns (record m { heap = update start i m.heap })
serve (to_clean call_id) m = cleanup call_id m
serve to_close m = close_all m

abbrev pub go_on : (Plays → Called) → Called → Called
go_on next (returns m) = next m
go_on next (waits m) = waits m

-- The calls, one after the other, up to one that waits.
abbrev pub serve_all : List Request → Plays → Called
serve_all [] m = returns m
serve_all (r ∷ rest) m = go_on (serve_all rest) (serve r m)

abbrev pub Known : List (Text × ℕ) → List PlaySession → Type 0
Known ids heap =
    (i : ℕ) (s : PlaySession)
    → get_elem? heap i ≡ some s
    → s.stopped ≡ false
    → lookup text_keys s.call_id ids ≡ some i

-- Every session that runs is the one that the map has for its Call-ID.
pub record IsRegistered (m : Plays) : Type 0 where
  pub found : Known m.sessions m.heap

-- Some session was stopped and never started.
pub record WaitsFor (m : Plays) : Type 0 where
  pub place : ℕ
  pub session : PlaySession
  pub there : get_elem? m.heap place ≡ some session
  pub stopped : session.stopped ≡ true
  pub not_started : session.started ≡ false

-- After CloseAll
abbrev pub Closed : Called → Type 0
Closed (returns m) = (i : ℕ) (s : PlaySession) → get_elem? m.heap i ≡ some s → s.stopped ≡ true
Closed (waits m) = WaitsFor m

abbrev pub Kept : Called → Type 0
Kept (returns m) = IsRegistered m
Kept (waits m) = WaitsFor m

abbrev pub Reached : Called → Type 0
Reached (returns m) = IsRegistered m × Closed (close_all m)
Reached (waits m) = WaitsFor m

pub old_waits :
    (o : Option ℕ) (heap rest : List PlaySession)
    → old_returns o heap ≡ false
    → (i : ℕ) × (s : PlaySession) × (get_elem? (stop_old o heap ++ rest) i ≡ some (stop s))
      × (s.started ≡ false)
old_waits none heap rest e = absurd cc
old_waits (some i) heap rest e = elim (Option-cases (get_elem? heap i)) [
  | inl missing ↦ absurd (true≢false (simp missing at e))
  | inr (s, there) ↦ (
    i,
    s,
    get_elem?-append (update stop i heap) rest i (stop s)
        (get_elem?-update_same stop i heap s there),
    simp there at e,
  )
]

-- What runs after one place has been stopped ran before, at another place.
pub running_before :
    (at : Option ℕ) (heap : List PlaySession) (i : ℕ) (s : PlaySession)
    → get_elem? (stop_old at heap) i ≡ some s
    → s.stopped ≡ false
    → (get_elem? heap i ≡ some s) × ((at ≡ some i) → ⊥)
running_before none heap i s e r = (e, λ h. cc)
running_before (some j) heap i s e r = elim (get_elem?-update_inv stop j i heap s e) [
  | inl (other, there) ↦ (there, λ h. ground (arith, other, some-injective j i h))
  | inr (same, (b, (there, is))) ↦
      absurd (true≢false (sym (ap (λ (t : PlaySession). t.stopped) is) ∙ r))
]

-- Looking up the session of another Call-ID than the one that was opened or cleaned up.
module _ (m : Plays) (known : IsRegistered m) (call_id : Text) where
  other_call :
      (i : ℕ) (s : PlaySession)
      → get_elem? (stop_old (lookup text_keys call_id m.sessions) m.heap) i ≡ some s
      → s.stopped ≡ false
      → (text_eq call_id s.call_id ≡ false) × (lookup text_keys s.call_id m.sessions ≡ some i)
  other_call i s e r =
      let before = running_before (lookup text_keys call_id m.sessions) m.heap i s e r in
      let there = known.found i s before.0 r in
      elim (Bool-cases (text_eq call_id s.call_id)) [
        | inl same ↦ absurd (
            before.1 (
              ap (λ k. lookup text_keys k m.sessions) ((text_eq_iff call_id s.call_id).0 same)
              ∙ there))
        | inr other ↦ (other, there)
      ]

  new_session_found :
      (new : PlaySession)
      → new.call_id ≡ call_id
      → (let heap = stop_old (lookup text_keys call_id m.sessions) m.heap in
          Known (insert text_keys call_id (length heap) m.sessions) (heap ++ new ∷ []))
  new_session_found new named i s e r =
      lookup-insert text_keys call_id s.call_id _ m.sessions
      ∙ elim (get_elem?-snoc (stop_old (lookup text_keys call_id m.sessions) m.heap) new i s e) [
        | inl old ↦ let (other, there) = other_call i s old r in rw other there
        | inr (last, is) ↦
            let same : text_eq call_id s.call_id ≡ true =
              (text_eq_iff call_id s.call_id).1
                (sym named ∙ sym (ap (λ (t : PlaySession). t.call_id) is)) in
            rw same (ap some (sym last))
      ]

  pub cleanup-Kept : Kept (cleanup call_id m)
  unfolding cleanup
  cleanup-Kept =
      let after : Plays = record m {
        heap = stop_old (lookup text_keys call_id m.sessions) m.heap;
        sessions = delete text_keys call_id m.sessions;
      } in
      elim (Bool-cases (old_returns (lookup text_keys call_id m.sessions) m.heap)) [
        | inl e ↦
            subst (λ (b : Bool). Kept (if b then returns after else waits after)) (sym e)
              (record {
                found = λ i s e r.
                    let (other, there) = other_call i s e r in
                    lookup-delete text_keys call_id s.call_id m.sessions ∙ rw other there;
              })
        | inr e ↦
            let (i, s, there, never) =
              old_waits (lookup text_keys call_id m.sessions) m.heap [] e in
            subst (λ (b : Bool). Kept (if b then returns after else waits after)) (sym e)
              (record {
                place = i;
                session = stop s;
                there = subst (λ h. get_elem? h i ≡ some (stop s)) (append-nil _) there;
                stopped = refl;
                not_started = never;
              })
      ]

  with_new-Kept :
      (s : PlaySession) → s.call_id ≡ call_id → Kept (after_open (with_new (created s) call_id m) m)
  with_new-Kept new named =
      let o = lookup text_keys call_id m.sessions in
      let heap = stop_old o m.heap in
      let after : Plays = record m {
        heap = heap ++ new ∷ [];
        sessions = insert text_keys call_id (length heap) m.sessions;
      } in
      let held : Plays = record m { heap = heap ++ new ∷ [] } in
      elim (Bool-cases (old_returns o m.heap)) [
        | inl e ↦
            subst
              (λ (b : Bool).
                Kept (after_open (if b then opened_at (length heap) after else open_waits held) m))
              (sym e) (record { found = new_session_found new named })
        | inr e ↦
            let (i, s, there, never) = old_waits o m.heap (new ∷ []) e in
            subst
              (λ (b : Bool).
                Kept (after_open (if b then opened_at (length heap) after else open_waits held) m))
              (sym e)
              (record {
                place = i;
                session = stop s;
                there = there;
                stopped = refl;
                not_started = never;
              })
      ]

-- The session that New makes has the Call-ID that it was given.
abbrev pub Names : Text → NewSession → Type 0
Names call_id (created s) = s.call_id ≡ call_id
Names call_id (refused e) = Unit

on_socket-Names :
    (bound : Option ℕ) (local_ip call_id filename : Text) (random : ℕ)
    → Names call_id (on_socket bound local_ip call_id filename random)
on_socket-Names none local_ip call_id filename random = tt
on_socket-Names (some port) local_ip call_id filename random = refl

at_address-Names :
    (parses : Bool) (a : Answers) (local_ip call_id filename : Text)
    → Names call_id (at_address parses a local_ip call_id filename)
at_address-Names true a local_ip call_id filename =
    on_socket-Names a.bound local_ip call_id filename a.random
at_address-Names false a local_ip call_id filename = tt

pub with_file-Names :
    (file : Option (Opened WavFile)) (a : Answers) (local_ip call_id filename : Text)
    → Names call_id (with_file file a local_ip call_id filename)
with_file-Names none a local_ip call_id filename = tt
with_file-Names (some (failed e)) a local_ip call_id filename = tt
with_file-Names (some (opened f)) a local_ip call_id filename =
    at_address-Names a.ip_parses a local_ip call_id filename

pub outcome-Kept :
    (m : Plays) (call_id : Text) (new : NewSession)
    → IsRegistered m
    → Names call_id new
    → Kept (after_open (with_new new call_id m) m)
outcome-Kept m call_id (created s) known named = with_new-Kept m known call_id s named
outcome-Kept m call_id (refused e) known named = known

pub start-IsRegistered :
    (m : Plays) (i : ℕ) → IsRegistered m → IsRegistered (record m { heap = update start i m.heap })
start-IsRegistered m i known = record {
  found = λ j s e r. elim (get_elem?-update_inv start i j m.heap s e) [
    | inl (other, there) ↦ known.found j s there r
    | inr (same, (b, (there, is))) ↦
        let ran = ap (λ (t : PlaySession). t.stopped) (sym is) ∙ r in
        ap (λ (t : PlaySession). lookup text_keys t.call_id m.sessions) is
        ∙ known.found j b there ran
  ];
}
