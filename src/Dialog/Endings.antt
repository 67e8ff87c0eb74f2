-- ===== src/Dialog/Endings.antt =====
-- How a dialog of pkg/dialog/dialog.go ends: Terminate, fireTimeout and CloseAll.
use funsip.Base.{
  ℕ, ◌+◌, ◌-◌, Bool, true, false, Option, none, some, List, [], ◌∷◌, ◌++◌, if◌then◌else◌, get_elem?,
  update, delete,
}
use funsip.Base.Int.{ℤ}
use funsip.Text.{Text, text_keys, text_eq, lit, to_upper, itoa}
use funsip.Sip.Headers.{set}
use funsip.Sip.Message.{Message, new_request, from_address}
use funsip.Sip.Address.{Address, tag}
use funsip.Sip.Uri.{Uri, uri_text}
use funsip.Proxy.Config.{address_of, or_udp}
use funsip.Dialog.State.{Side, Dialog, Manager, find_dialog, on_dialog}

abbrev pub contact_or_aor : Side → Uri
contact_or_aor s = elim s.contact [ none ↦ s.aor | some u ↦ u ]

-- `<aor>;tag=tag`
abbrev pub tagged : Side → Text
tagged s = b'<' ∷ (uri_text s.aor ++ (lit ">;tag=" ++ s.tag))

-- The BYE that sendBYE builds, with the branch that GenerateBranch draws.
unfoldable pub bye_between : Text → ℤ → Text → Side → Side → ℕ → Text → Message
unfolding new_request
bye_between local_ip local_port call_id from to cseq branch =
    let bye = new_request (lit "BYE") (some (contact_or_aor to)) in
    let via = set bye.headers (lit "Via") (
      lit "SIP/2.0/"
      ++ (to_upper (or_udp from.transport)
          ++ b' '
            ∷ (address_of local_ip local_port ++ (lit ";branch=" ++ (branch ++ lit ";rport"))))) in
    let forwards = set via (lit "Max-Forwards") (lit "70") in
    let sender = set forwards (lit "From") (tagged from) in
    let receiver = set sender (lit "To") (tagged to) in
    let call = set receiver (lit "Call-ID") call_id in
    let numbered = set call (lit "CSeq") (itoa cseq ++ lit " BYE") in
    record bye { headers = set numbered (lit "Content-Length") (lit "0") }

-- sendBYE; the aor of a side is never nil.
abbrev pub send_bye : Text → Side → Side → ℕ → Text → Manager → Manager
send_bye call_id from to cseq branch m = record m {
  sent =
      (
        bye_between m.local_ip m.local_port call_id from to cseq branch,
        to.addr,
        or_udp from.transport,
      )
      ∷ m.sent;
}

abbrev pub by_callee : Option Side → Text → Text
by_callee none t = []
by_callee (some callee) t = if text_eq t callee.tag then lit "callee-terminated" else []

abbrev pub by_tag : Dialog → Option Address → Text
by_tag d none = []
by_tag d (some from) =
    if text_eq (tag from) d.caller.tag
    then lit "caller-terminated"
    else by_callee d.callee (tag from)

-- whoTerminated
unfoldable pub who_terminated : Dialog → Option Message → Text
who_terminated d none = []
who_terminated d (some bye) = by_tag d (from_address bye)

abbrev pub close_file : Option ℕ → Manager → Manager
close_file none m = m
close_file (some i) m = record m { files = update (λ was. false) i m.files }

abbrev pub stop_timer : Dialog → Dialog
stop_timer d = record d { timer = false }

abbrev pub forget : Text → Manager → Manager
forget call_id m = record m { dialogs = delete text_keys call_id m.dialogs }

abbrev pub report_end : ℕ → Dialog → Text → ℕ → Manager → Manager
report_end i d originator now m = record m {
  ends = record { place = i; originator = originator; seconds = now - d.created_at } ∷ m.ends;
}

-- Terminate's event, which it sends for a BYE that it was given.
abbrev pub report_bye : Option Message → ℕ → Dialog → ℕ → Manager → Manager
report_bye none i d now m = m
report_bye (some bye) i d now m = report_end i d (who_terminated d (some bye)) now m

abbrev pub end_at : Option Dialog → ℕ → Option Message → ℕ → Manager → Manager
end_at none i bye now m = m
end_at (some d) i bye now m = close_file d.pcap (report_bye bye i d now (on_dialog i stop_timer m))

-- Terminate, with the event sink
unfoldable pub terminate : Text → Option Message → ℕ → Manager → Manager × Bool
terminate call_id bye now m = elim (find_dialog call_id m) [
  | none ↦ (m, false)
  | some i ↦ (end_at (get_elem? m.heap i) i bye now (forget call_id m), true)
]

-- The two BYEs of a dialog that has both sides, with the branches that are drawn for them.
abbrev pub send_byes : Option Side → Dialog → Text → Text → Manager → Manager
send_byes none d branch_1 branch_2 m = m
send_byes (some callee) d branch_1 branch_2 m =
    let base = d.cseq + 1 + 1000000 in
    send_bye d.call_id callee d.caller (base + 1) branch_2
      (send_bye d.call_id d.caller callee base branch_1 m)

abbrev pub count_bye : Option Side → Dialog → Dialog
count_bye none d = d
count_bye (some callee) d = record d { cseq = d.cseq + 1 }

abbrev pub clean_media : Text → Manager → Manager
clean_media call_id m = record m { cleaned = call_id ∷ m.cleaned }

abbrev pub time_out : ℕ → Dialog → Text → Text → ℕ → Manager → Manager
time_out i d branch_1 branch_2 now m =
    let counted = on_dialog i (count_bye d.callee) (forget d.call_id m) in
    let ended = send_byes d.callee d branch_1 branch_2 counted in
    close_file d.pcap (report_end i d (lit "timeout") now (clean_media d.call_id ended))

abbrev pub spend_timer : ℕ → Manager → Manager
spend_timer i m = on_dialog i stop_timer m

abbrev pub time_out_known : Option ℕ → ℕ → Dialog → Text → Text → ℕ → Manager → Manager
time_out_known none i d branch_1 branch_2 now m = m
time_out_known (some j) i d branch_1 branch_2 now m = time_out i d branch_1 branch_2 now m

abbrev pub time_out_at : Option Dialog → ℕ → Text → Text → ℕ → Manager → Manager
time_out_at none i branch_1 branch_2 now m = m
time_out_at (some d) i branch_1 branch_2 now m =
    if d.timer
    then time_out_known (find_dialog d.call_id m) i d branch_1 branch_2 now (spend_timer i m)
    else m

-- fireTimeout: the timer of the dialog at place `i` runs out, if it is running.
unfoldable pub fire_timeout : ℕ → Text → Text → ℕ → Manager → Manager
fire_timeout i branch_1 branch_2 now m = time_out_at (get_elem? m.heap i) i branch_1 branch_2 now m

abbrev close_one : Option Dialog → ℕ → Manager → Manager
close_one none i m = m
close_one (some d) i m = close_file d.pcap (on_dialog i stop_timer m)

abbrev close_each : List (Text × ℕ) → Manager → Manager
close_each [] m = m
close_each ((k, i) ∷ rest) m = close_each rest (close_one (get_elem? m.heap i) i m)

-- CloseAll
unfoldable pub close_all : Manager → Manager
close_all m = close_each m.dialogs (record m { dialogs = [] })
