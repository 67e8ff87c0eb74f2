-- ===== src/Dialog/SetUps.antt =====
-- Setting up and confirming keeps the dialogs of pkg/dialog/dialog.go sound.
use funsip.Base.{
  ℕ, ◌≡◌, refl, ◌||◌, inl, inr, Bool, ◌&&◌, not, Option, none, some, Option-cases, if-both,
}
use funsip.Text.{text_eq, lit, is_empty}
use funsip.Sip.Message.{Message, from_address, to_address, call_id}
use funsip.Sip.Address.{Address, tag}
use funsip.Dialog.State.{Options, Dialog, Manager, find_dialog}
use funsip.Dialog.Manager.{
  setup, set_up_from, open_pcap, new_dialog, confirm_from_response, confirm_dialog, with_to,
  with_from, raise_gate, confirm_at, is_confirming,
}
use funsip.Dialog.Steps.{manager_of}
use funsip.Dialog.Invariant.{IsSound, change-IsSound, add_dialog-IsSound}

-- Files, calls of the sender and the like do not count.
pub same_dialogs-IsSound :
    (m n : Manager)
    → n.heap ≡ m.heap
    → n.dialogs ≡ m.dialogs
    → n.ends ≡ m.ends
    → IsSound m
    → IsSound n
same_dialogs-IsSound m n h d e v = record {
  listed = rw (h, d) v.listed;
  running = rw (h, d) v.running;
  open_yet = rw (h, e) v.open_yet;
  unborn = rw (h, e) v.unborn;
  once = rw e v.once;
}

set_up_from-IsSound :
    (req : Message) (from : Address) (opts : Options) (opens : Bool) (now : ℕ) (m : Manager)
    → IsSound m
    → IsSound (manager_of (set_up_from req from opts opens now m))
set_up_from-IsSound req from opts opens now m v =
    elim (Option-cases (find_dialog (call_id req) (open_pcap opts opens m).1)) [
      | inl e ↦ rw e (
          add_dialog-IsSound _ (new_dialog req from opts (open_pcap opts opens m).0 now) refl e
            opened)
      | inr (i, e) ↦ rw e opened
    ]
  where
    opened : IsSound (open_pcap opts opens m).1
    opened =
        if-both (λ (p : Option ℕ × Manager). IsSound p.1)
          (opts.pcap && (not (is_empty m.pcap_dir) && opens))
          (same_dialogs-IsSound m _ refl refl refl v) v

with_to-IsSound :
    (to : Option Address) (req : Message) (from : Address) (opts : Options) (opens : Bool) (now : ℕ)
    (m : Manager)
    → IsSound m
    → IsSound (manager_of (with_to to req from opts opens now m))
with_to-IsSound none req from opts opens now m v = v
with_to-IsSound (some to) req from opts opens now m v =
    if-both (λ r. IsSound (manager_of r)) (is_empty (tag to))
      (set_up_from-IsSound req from opts opens now m v) v

with_from-IsSound :
    (from : Option Address) (req : Message) (opts : Options) (opens : Bool) (now : ℕ) (m : Manager)
    → IsSound m
    → IsSound (manager_of (with_from from req opts opens now m))
with_from-IsSound none req opts opens now m v = v
with_from-IsSound (some from) req opts opens now m v =
    with_to-IsSound (to_address req) req from opts opens now m v

pub setup-IsSound :
    (req : Message) (opts : Options) (opens : Bool) (now : ℕ) (m : Manager)
    → IsSound m
    → IsSound (manager_of (setup req opts opens now m))
unfolding setup
setup-IsSound req opts opens now m v =
    if-both (λ r. IsSound (manager_of r)) (text_eq req.method (lit "INVITE"))
      (with_from-IsSound (from_address req) req opts opens now (raise_gate opts m) raised) v
  where
    raised : IsSound (raise_gate opts m)
    raised = if-both IsSound opts.dlg_gate (same_dialogs-IsSound m _ refl refl refl v) v

confirm_dialog-keeps :
    (to : Option Address) (resp : Message) (d : Dialog)
    → ((confirm_dialog to resp d).call_id ≡ d.call_id)
      × ((confirm_dialog to resp d).timer ≡ d.timer)
confirm_dialog-keeps none resp d = (refl, refl)
confirm_dialog-keeps (some to) resp d =
    if-both (λ (x : Dialog). (x.call_id ≡ d.call_id) × (x.timer ≡ d.timer))
      (d.confirmed || is_empty (tag to)) (refl, refl) (refl, refl)

confirm_at-IsSound :
    (o : Option ℕ) (resp : Message) (m : Manager) → IsSound m → IsSound (confirm_at o resp m)
confirm_at-IsSound none resp m v = v
confirm_at-IsSound (some i) resp m v =
    change-IsSound m i (confirm_dialog (to_address resp) resp)
      (confirm_dialog-keeps (to_address resp) resp) v

pub confirm_from_response-IsSound :
    (resp : Message) (m : Manager) → IsSound m → IsSound (confirm_from_response resp m)
unfolding confirm_from_response
confirm_from_response-IsSound resp m v =
    if-both IsSound (is_confirming resp)
      (confirm_at-IsSound (find_dialog (call_id resp) m) resp m v) v
