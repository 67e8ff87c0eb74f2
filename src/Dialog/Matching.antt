-- ===== src/Dialog/Matching.antt =====
-- Which requests belong to a dialog of pkg/dialog/dialog.go, what its timeout sends, and what a second
-- Setup does.
use funsip.Base.{
  ℕ, ◌+◌, ◌-◌, ◌<◌, ◌≡◌, refl, ◌∙◌, ap, sym, subst, List, true, false, Option, none, some, [], ◌∷◌,
  ◌++◌, arith, get_elem?, lookup-delete, delete, inl, inr, Bool-cases,
}
use funsip.Text.{Text, text_eq, text_eq_iff, text_keys, lit, is_empty}
use funsip.Sip.Message.{Message, from_address, to_address, call_id}
use funsip.Sip.Address.{Address, tag}
use funsip.Proxy.Config.{or_udp}
use funsip.Dialog.State.{Options, Side, Dialog, CallEnd, Manager, find_dialog, on_dialog}
use funsip.Dialog.Manager.{setup, find_for, matches, matches_callee}
use funsip.Dialog.Endings.{
  bye_between, fire_timeout, close_file, time_out, spend_timer, send_byes, count_bye, forget,
}
use funsip.Dialog.Byes.{IsBye, bye_between-IsBye}
use funsip.Dialog.Steps.{manager_of}
use funsip.Dialog.Invariant.{IsSound}

matches_comm : (d : Dialog) (s t : Text) → d.confirmed ≡ true → matches d s t ≡ matches d t s
matches_comm d s t c = simp c (callee_comm d.callee)
  where
    callee_comm : (o : Option Side) → matches_callee o d s t ≡ matches_callee o d t s
    callee_comm none = refl
    callee_comm (some x) = ground arith

-- A confirmed dialog is found for a request of either side, or for neither: two requests of its
-- Call-ID, whose From and To are swapped, get the same answer.
find_for_both_ways :
    (m : Manager) (req back : Message) (a b : Address) (i : ℕ) (d : Dialog)
    → from_address req ≡ some a
    → to_address req ≡ some b
    → from_address back ≡ some b
    → to_address back ≡ some a
    → call_id back ≡ call_id req
    → find_dialog (call_id req) m ≡ some i
    → get_elem? m.heap i ≡ some d
    → d.confirmed ≡ true
    → find_for back m ≡ find_for req m
unfolding find_for
find_for_both_ways m req back a b i d fr tr fb tb c f g confirmed =
    rw (fr, tr, fb, tb, c, f, g, matches_comm d (tag b) (tag a) confirmed) refl

fire_timeout-time_out :
    (m : Manager) (i : ℕ) (d : Dialog) (branch_1 branch_2 : Text) (now : ℕ)
    → IsSound m
    → get_elem? m.heap i ≡ some d
    → d.timer ≡ true
    → fire_timeout i branch_1 branch_2 now m ≡ time_out i d branch_1 branch_2 now (spend_timer i m)
unfolding fire_timeout
fire_timeout-time_out m i d branch_1 branch_2 now v g t = simp (g, t, v.running i d g t)

-- What hanging up sends, the last message first: to each side of a dialog that has both, a BYE as if from
-- the other, with a CSeq number higher than the dialog's, the second with the next one; and nothing to
-- a side that has never answered.
abbrev pub HangsUp :
    Dialog → Option Side → List (Message × Text × Text) → List (Message × Text × Text) → Type 0
HangsUp d none before after = after ≡ before
HangsUp d (some callee) before after =
    (to_callee : Message) × (to_caller : Message) × (cseq : ℕ) × (d.cseq < cseq)
    × IsBye d.call_id d.caller callee cseq to_callee
    × IsBye d.call_id callee d.caller (cseq + 1) to_caller
    × (after
        ≡ (to_caller, d.caller.addr, or_udp callee.transport)
          ∷ (to_callee, callee.addr, or_udp d.caller.transport)
          ∷ before)

send_byes-HangsUp :
    (d : Dialog) (o : Option Side) (branch_1 branch_2 : Text) (m : Manager)
    → HangsUp d o m.sent (send_byes o d branch_1 branch_2 m).sent
send_byes-HangsUp d none branch_1 branch_2 m = refl
send_byes-HangsUp d (some callee) branch_1 branch_2 m =
    let base = d.cseq + 1 + 1000000 in
    (
      bye_between m.local_ip m.local_port d.call_id d.caller callee base branch_1,
      bye_between m.local_ip m.local_port d.call_id callee d.caller (base + 1) branch_2,
      base,
      omega arith,
      bye_between-IsBye m.local_ip m.local_port d.call_id d.caller callee base branch_1,
      bye_between-IsBye m.local_ip m.local_port d.call_id callee d.caller (base + 1) branch_2,
      refl,
    )

send_byes-rest :
    (d : Dialog) (o : Option Side) (branch_1 branch_2 : Text) (m : Manager)
    → (let n = send_byes o d branch_1 branch_2 m in
        (n.dialogs ≡ m.dialogs) × (n.ends ≡ m.ends) × (n.cleaned ≡ m.cleaned))
send_byes-rest d none branch_1 branch_2 m = (refl, refl, refl)
send_byes-rest d (some callee) branch_1 branch_2 m = (refl, refl, refl)

-- What the timeout of the dialog at place `i` does.
pub record TimesOut (i now : ℕ) (d : Dialog) (m n : Manager) : Type 0 where
  pub hung_up : HangsUp d d.callee m.sent n.sent
  pub gone : n.dialogs ≡ delete text_keys d.call_id m.dialogs
  pub told :
      n.ends
      ≡ record { place = i; originator = lit "timeout"; seconds = now - d.created_at } ∷ m.ends
  pub cleaned : n.cleaned ≡ d.call_id ∷ m.cleaned

close_file-TimesOut :
    (o : Option ℕ) (i now : ℕ) (d : Dialog) (m n : Manager)
    → TimesOut i now d m n
    → TimesOut i now d m (close_file o n)
close_file-TimesOut none i now d m n h = h
close_file-TimesOut (some j) i now d m n h = record {
  hung_up = h.hung_up;
  gone = h.gone;
  told = h.told;
  cleaned = h.cleaned;
}

time_out-TimesOut :
    (m : Manager) (i : ℕ) (d : Dialog) (branch_1 branch_2 : Text) (now : ℕ)
    → TimesOut i now d m (time_out i d branch_1 branch_2 now (spend_timer i m))
time_out-TimesOut m i d branch_1 branch_2 now =
    let counted = on_dialog i (count_bye d.callee) (forget d.call_id (spend_timer i m)) in
    let rest = send_byes-rest d d.callee branch_1 branch_2 counted in
    close_file-TimesOut d.pcap i now d m _ (record {
      hung_up = send_byes-HangsUp d d.callee branch_1 branch_2 counted;
      gone = rest.0;
      told =
          ap
            (λ (es : List CallEnd).
              record { place = i; originator = lit "timeout"; seconds = now - d.created_at } ∷ es)
            rest.1;
      cleaned = ap (λ cs. d.call_id ∷ cs) rest.2;
    })

-- When the timeout of a running dialog comes: if the dialog has both sides, a BYE goes to each of them
-- whose From, To, target and Call-ID are those of a BYE from the other side, the second with the next
-- CSeq number after the first, and nothing else is sent; if the call was never answered, nothing is. Once
-- the end is told, with `timeout` as its originator and the dialog's age, the media of the call are
-- cleaned up once, and the dialog is forgotten, and no other.
pub timeout_hangs_up :
    (m : Manager) (i : ℕ) (d : Dialog) (branch_1 branch_2 : Text) (now : ℕ)
    → IsSound m
    → get_elem? m.heap i ≡ some d
    → d.timer ≡ true
    → let n = fire_timeout i branch_1 branch_2 now m in
      TimesOut i now d m n × (find_dialog d.call_id n ≡ none)
unfolding fire_timeout
timeout_hangs_up m i d branch_1 branch_2 now v g t =
    let ends = fire_timeout-time_out m i d branch_1 branch_2 now v g t in
    let done = time_out-TimesOut m i d branch_1 branch_2 now in
    (
      subst (TimesOut i now d m) (sym ends) done,
      ap (find_dialog d.call_id) ends
          ∙ rw
              (
                done.gone,
                lookup-delete text_keys d.call_id d.call_id m.dialogs,
                (text_eq_iff d.call_id d.call_id).1 refl,
              )
              refl,
    )

-- Setting up a dialog for a Call-ID that has one returns the old one; but where a capture was asked for
-- and its file could be opened, one more file is open, which no dialog has.
setup_again_leaks :
    (m : Manager) (req : Message) (opts : Options) (now i : ℕ) (a b : Address)
    → text_eq req.method (lit "INVITE") ≡ true
    → from_address req ≡ some a
    → to_address req ≡ some b
    → is_empty (tag b) ≡ true
    → opts.pcap ≡ true
    → is_empty m.pcap_dir ≡ false
    → find_dialog (call_id req) m ≡ some i
    → let n = manager_of (setup req opts true now m) in
      (n.files ≡ m.files ++ true ∷ []) × (n.heap ≡ m.heap) × (n.dialogs ≡ m.dialogs)
unfolding setup
setup_again_leaks m req opts now i a b inv fr to tg p dir f = elim (Bool-cases opts.dlg_gate) [
  | inl e ↦ simp (inv, fr, to, tg, p, dir, f, e) (refl, refl, refl)
  | inr e ↦ simp (inv, fr, to, tg, p, dir, f, e) (refl, refl, refl)
]
