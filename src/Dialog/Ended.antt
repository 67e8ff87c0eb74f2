-- ===== src/Dialog/Ended.antt =====
-- Every event of pkg/dialog/dialog.go keeps the dialogs sound, so that a dialog ends once.
use funsip.Base.{
  ℕ, ◌≤◌, ◌≡◌, refl, ◌∙◌, sym, ap, subst, ==_iff, inl, inr, Option, none, some, List, [], ◌∷◌,
  arith, if◌then◌else◌, get_elem?, update, length-update, get_elem?-update_inv,
  get_elem?-update_rest, Option-cases, Bool-cases,
}
use mathlib.Core.Bool.{true≢false}
use funsip.Base.Int.{ℤ}
use funsip.Text.{Text, lit}
use funsip.Sip.Message.{Message}
use funsip.Dialog.State.{Side, Dialog, CallEnd, Manager, find_dialog, on_dialog, new_manager}
use funsip.Dialog.Endings.{
  terminate, fire_timeout, stop_timer, count_bye, close_file, report_bye, report_end, forget,
  spend_timer, send_byes, time_out_at, time_out_known, clean_media,
}
use funsip.Dialog.Steps.{DialogEvent, sets_up, confirms, terminates, times_out, step, run}
use funsip.Dialog.Invariant.{IsSound, no_place, end_count, Serves-dialog}
use funsip.Dialog.SetUps.{same_dialogs-IsSound, setup-IsSound, confirm_from_response-IsSound}
use funsip.Dialog.Finish.{Stops, Reports, finish-IsSound}

stop-Stops : (i : ℕ) (heap : List Dialog) → Stops i heap (update stop_timer i heap)
stop-Stops i heap = record {
  size = length-update stop_timer i heap;
  rest = λ j other. get_elem?-update_rest stop_timer i j heap other;
  dead = λ d h. elim (get_elem?-update_inv stop_timer i i heap d h) [
    | inl (n, e) ↦ absurd (true≢false (sym ((==_iff i i).1 refl) ∙ n))
    | inr (n, (b, (e, c))) ↦ rw c refl
  ];
}

change-Stops :
    (f : Dialog → Dialog) (i : ℕ) (heap heap' : List Dialog)
    → ((d : Dialog) → (f d).timer ≡ d.timer)
    → Stops i heap heap'
    → Stops i heap (update f i heap')
change-Stops f i heap heap' keeps s = record {
  size = length-update f i heap' ∙ s.size;
  rest = λ j other. get_elem?-update_rest f i j heap' other ∙ s.rest j other;
  dead = λ d h. elim (get_elem?-update_inv f i i heap' d h) [
    | inl (n, e) ↦ s.dead d e
    | inr (n, (b, (e, c))) ↦ ap (λ (x : Dialog). x.timer) c ∙ keeps b ∙ s.dead b e
  ];
}

no-Reports : (i : ℕ) (ends : List CallEnd) → Reports i ends ends
no-Reports i ends = record { others = λ j other. refl; own = omega arith }

one-Reports :
    (i : ℕ) (originator : Text) (seconds : ℕ) (ends : List CallEnd)
    → Reports i ends (record { place = i; originator = originator; seconds = seconds } ∷ ends)
one-Reports i originator seconds ends = record {
  others = λ j other. rw other refl;
  own = rw ((==_iff i i).1 refl) (omega arith);
}

close_file-IsSound : (o : Option ℕ) (m : Manager) → IsSound m → IsSound (close_file o m)
close_file-IsSound none m v = v
close_file-IsSound (some i) m v = same_dialogs-IsSound m _ refl refl refl v

report_bye-IsSound :
    (bye : Option Message) (i : ℕ) (d : Dialog) (now : ℕ) (key : Text) (m : Manager)
    → find_dialog key m ≡ some i
    → IsSound m
    → IsSound (report_bye bye i d now (on_dialog i stop_timer (forget key m)))
report_bye-IsSound none i d now key m e v =
    finish-IsSound m _ v key i e refl (stop-Stops i m.heap) (no-Reports i m.ends)
report_bye-IsSound (some bye) i d now key m e v =
    finish-IsSound m _ v key i e refl (stop-Stops i m.heap) (one-Reports i _ _ m.ends)

terminate-IsSound :
    (key : Text) (bye : Option Message) (now : ℕ) (m : Manager)
    → IsSound m
    → IsSound (terminate key bye now m).0
unfolding terminate
terminate-IsSound key bye now m v = elim (Option-cases (find_dialog key m)) [
  | inl e ↦ rw (terminate, e) v
  | inr (i, e) ↦
      let (d, (g, served)) = Serves-dialog (get_elem? m.heap i) key (v.listed key i e) in
      rw (terminate, e, g) (close_file-IsSound d.pcap _ (report_bye-IsSound bye i d now key m e v))
]

count_bye-timer : (callee : Option Side) (d : Dialog) → (count_bye callee d).timer ≡ d.timer
count_bye-timer none d = refl
count_bye-timer (some callee) d = refl

hang_up-IsSound :
    (callee : Option Side) (d : Dialog) (i now : ℕ) (branch_1 branch_2 key : Text) (m : Manager)
    → find_dialog key m ≡ some i
    → IsSound m
    → IsSound (
        report_end i d (lit "timeout") now (
          clean_media key (
            send_byes callee d branch_1 branch_2
              (on_dialog i (count_bye callee) (forget key (spend_timer i m))))))
hang_up-IsSound none d i now branch_1 branch_2 key m e v =
    finish-IsSound m _ v key i e refl
      (change-Stops (count_bye none) i m.heap _ (count_bye-timer none) (stop-Stops i m.heap))
      (one-Reports i _ _ m.ends)
hang_up-IsSound (some callee) d i now branch_1 branch_2 key m e v =
    finish-IsSound m _ v key i e refl
      (change-Stops (count_bye (some callee)) i m.heap _ (count_bye-timer (some callee))
        (stop-Stops i m.heap))
      (one-Reports i _ _ m.ends)

time_out_at-IsSound :
    (i : ℕ) (d : Dialog) (branch_1 branch_2 : Text) (now : ℕ) (m : Manager)
    → get_elem? m.heap i ≡ some d
    → IsSound m
    → IsSound (time_out_at (some d) i branch_1 branch_2 now m)
time_out_at-IsSound i d branch_1 branch_2 now m g v = elim (Bool-cases d.timer) [
  | inl t ↦
      let ended =
        close_file-IsSound d.pcap _
          (hang_up-IsSound d.callee d i now branch_1 branch_2 d.call_id m (v.running i d g t) v) in
      subst
        (λ b. IsSound (
          if b
          then time_out_known (find_dialog d.call_id m) i d branch_1 branch_2 now (spend_timer i m)
          else m))
        (sym t)
        (subst (λ o. IsSound (time_out_known o i d branch_1 branch_2 now (spend_timer i m)))
          (sym (v.running i d g t)) ended)
  | inr t ↦ simp t v
]

fire_timeout-IsSound :
    (i : ℕ) (branch_1 branch_2 : Text) (now : ℕ) (m : Manager)
    → IsSound m
    → IsSound (fire_timeout i branch_1 branch_2 now m)
unfolding fire_timeout
fire_timeout-IsSound i branch_1 branch_2 now m v = elim (Option-cases (get_elem? m.heap i)) [
  | inl e ↦ rw e v
  | inr (d, e) ↦ rw e (time_out_at-IsSound i d branch_1 branch_2 now m e v)
]

-- Every event keeps the dialogs sound: each entry of the map leads to a dialog of that Call-ID whose
-- timer is running, each dialog whose timer is running is in the map under its Call-ID and has not been
-- reported as ended, and no dialog has been reported twice.
pub dialog_step-IsSound : (m : Manager) (c : DialogEvent) → IsSound m → IsSound (step m c)
unfolding step
dialog_step-IsSound m (sets_up req opts opens now) v = setup-IsSound req opts opens now m v
dialog_step-IsSound m (confirms resp) v = confirm_from_response-IsSound resp m v
dialog_step-IsSound m (terminates key bye now) v = terminate-IsSound key bye now m v
dialog_step-IsSound m (times_out i branch_1 branch_2 now) v =
    fire_timeout-IsSound i branch_1 branch_2 now m v

pub dialog_run-IsSound : (m : Manager) (cs : List DialogEvent) → IsSound m → IsSound (run m cs)
unfolding run
dialog_run-IsSound m [] v = v
dialog_run-IsSound m (c ∷ cs) v = dialog_run-IsSound (step m c) cs (dialog_step-IsSound m c v)

pub new_manager-IsSound :
    (local_ip : Text) (local_port : ℤ) (pcap_dir : Text)
    → IsSound (new_manager local_ip local_port pcap_dir)
unfolding new_manager
new_manager-IsSound local_ip local_port pcap_dir = record {
  listed = λ k i h. absurd (no_place i h);
  running = λ i d h t. absurd (no_dialog d h);
  open_yet = λ i d h t. refl;
  unborn = λ i h. refl;
  once = λ i. omega arith;
}
  where
    no_dialog : (d : Dialog) → ◌≡◌ {A = Option Dialog} none (some d) → ⊥
    no_dialog d h = cc

-- Whatever INVITEs are set up, responses and BYEs come and timers run out, in whatever order, no dialog
-- is reported as ended more than once.
pub dialog_ends_once :
    (local_ip : Text) (local_port : ℤ) (pcap_dir : Text) (cs : List DialogEvent) (i : ℕ)
    → end_count i (run (new_manager local_ip local_port pcap_dir) cs).ends ≤ 1
dialog_ends_once local_ip local_port pcap_dir cs i =
    (dialog_run-IsSound _ cs (new_manager-IsSound local_ip local_port pcap_dir)).once i
