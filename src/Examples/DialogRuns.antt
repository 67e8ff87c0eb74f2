-- ===== src/Examples/DialogRuns.antt =====
-- Dialogs (pkg/dialog/dialog.go) on concrete inputs.
use funsip.Base.{◌≡◌, ◌≤◌, refl, true, none, some, List, [], ◌∷◌, ◌++◌}
use funsip.Base.Int.{pos}
use funsip.Text.{Text, lit}
use funsip.Sip.Headers.{new_headers, set}
use funsip.Sip.Uri.{Uri}
use funsip.Sip.Address.{Address, tag}
use funsip.Sip.Message.{Message, new_request}
use funsip.Dialog.State.{Options, Side, Dialog, Manager, new_manager, find_dialog}
use funsip.Dialog.Manager.{add_dialog}
use funsip.Dialog.Endings.{fire_timeout}
use funsip.Dialog.Steps.{DialogEvent, sets_up, terminates, times_out, step, run}
use funsip.Dialog.Invariant.{IsSound, end_count, add_dialog-IsSound}
use funsip.Dialog.Ended.{
  dialog_step-IsSound, dialog_run-IsSound, new_manager-IsSound, dialog_ends_once,
}
use funsip.Dialog.Matching.{TimesOut, timeout_hangs_up}

abbrev uri_at : Text → Uri
uri_at host = record {
  scheme = lit "sip";
  user = [];
  host = host;
  port = pos 0;
  params = [];
  headers = [];
}

abbrev address_at : Text → Text → Address
address_at host tag = record {
  display_name = [];
  uri = uri_at host;
  params = (lit "tag", tag) ∷ [];
}

abbrev side_at : Text → Text → Side
side_at host tag = record {
  aor = uri_at host;
  tag = tag;
  contact = none;
  addr = host ++ lit ":5060";
  transport = lit "UDP";
}

abbrev talk : Dialog
talk = record {
  call_id = lit "c1";
  caller = side_at (lit "a") (lit "1");
  callee = some (side_at (lit "b") (lit "2"));
  confirmed = true;
  dlg_gate = true;
  pcap = none;
  timer = true;
  timeout = 60;
  created_at = 5;
  cseq = 0;
}

abbrev idle : Manager
idle = new_manager (lit "10.0.0.2") (pos 5060) (lit "/tmp")

abbrev talking : Manager
talking = add_dialog talk idle

idle-IsSound : IsSound idle
idle-IsSound = new_manager-IsSound (lit "10.0.0.2") (pos 5060) (lit "/tmp")

talking-IsSound : IsSound talking
unfolding new_manager
talking-IsSound = add_dialog-IsSound idle talk refl refl idle-IsSound

abbrev between : Text → Text → Text → Message
between method from to = record (new_request method none) {
  headers = set (set (set new_headers (lit "From") from) (lit "To") to) (lit "Call-ID") (lit "c1");
}

abbrev call : Message
call = between (lit "INVITE") (lit "<sip:a>;tag=1") (lit "<sip:b>")

abbrev watched : Options
watched = record { dlg_gate = true; pcap = true; timeout = 60 }

abbrev call_events : List DialogEvent
call_events =
    sets_up call watched true 0
    ∷ times_out 0 (lit "z9hG4bKa") (lit "z9hG4bKb") 60
    ∷ terminates (lit "c1") none 61
    ∷ []

dialog_step-IsSound_example : IsSound (step (run idle call_events) (sets_up call watched true 70))
dialog_step-IsSound_example =
    dialog_step-IsSound (run idle call_events) (sets_up call watched true 70)
      (dialog_run-IsSound idle call_events idle-IsSound)

dialog_ends_once_example : end_count 0 (run idle call_events).ends ≤ 1
dialog_ends_once_example = dialog_ends_once (lit "10.0.0.2") (pos 5060) (lit "/tmp") call_events 0

timeout_hangs_up_example :
    let n = fire_timeout 0 (lit "z1") (lit "z2") 60 talking in
    TimesOut 0 60 talk talking n × (find_dialog (lit "c1") n ≡ none)
unfolding new_manager
timeout_hangs_up_example =
    timeout_hangs_up talking 0 talk (lit "z1") (lit "z2") 60 talking-IsSound refl refl
