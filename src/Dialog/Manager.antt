-- ===== src/Dialog/Manager.antt =====
-- Setup, ConfirmFromResponse, FindFor and CapturePacket of pkg/dialog/dialog.go.
use funsip.Base.{
  ℕ, Bool, true, false, ◌&&◌, ◌||◌, not, Option, none, some, List, [], ◌∷◌, ◌++◌, if◌then◌else◌,
  length, get_elem?, insert,
}
use funsip.Base.Int.{ℤ}
use funsip.Text.{Text, text_keys, text_eq, lit, is_empty}
use funsip.Sip.Message.{Message, from_address, to_address, contacts, call_id, cseq_method}
use funsip.Sip.Message.Wire.{serialize}
use funsip.Sip.Address.{Address, tag}
use funsip.Sip.Uri.{Uri}
use funsip.Transaction.Client.{is_success}
use funsip.Proxy.Config.{address_of}
use funsip.Dialog.State.{
  Options, timeout_of, Side, Dialog, Capture, Manager, find_dialog, on_dialog,
}

pub data SetupError : Type 0 where
  not_invite missing_from missing_to has_to_tag : SetupError

-- The dialog's place, and the manager as it is left after an error too.
pub data SetupResult : Type 0 where
  set_up : ℕ → Manager → SetupResult
  not_set_up : SetupError → Manager → SetupResult

abbrev first_uri : List Address → Option Uri
first_uri [] = none
first_uri (a ∷ rest) = some a.uri

abbrev pub side_of : Address → Message → Side
side_of a msg = record {
  aor = a.uri;
  tag = tag a;
  contact = first_uri (contacts msg);
  addr = address_of msg.source_ip msg.source_port;
  transport = msg.transport;
}

-- The capture file that Setup opens; `opens` says whether NewWriter succeeds.
abbrev pub open_pcap : Options → Bool → Manager → Option ℕ × Manager
open_pcap opts opens m =
    if opts.pcap && (not (is_empty m.pcap_dir) && opens)
    then (some (length m.files), record m { files = m.files ++ true ∷ [] })
    else (none, m)

abbrev pub add_dialog : Dialog → Manager → Manager
add_dialog d m = record m {
  heap = m.heap ++ d ∷ [];
  dialogs = insert text_keys d.call_id (length m.heap) m.dialogs;
}

abbrev pub enter_dialog : Dialog → Option ℕ → Manager → SetupResult
enter_dialog d (some i) m = set_up i m
enter_dialog d none m = set_up (length m.heap) (add_dialog d m)

abbrev pub new_dialog : Message → Address → Options → Option ℕ → ℕ → Dialog
new_dialog req from opts file now = record {
  call_id = call_id req;
  caller = side_of from req;
  callee = none;
  confirmed = false;
  dlg_gate = opts.dlg_gate;
  pcap = file;
  timer = true;
  timeout = timeout_of opts;
  created_at = now;
  cseq = 0;
}

abbrev pub set_up_from : Message → Address → Options → Bool → ℕ → Manager → SetupResult
set_up_from req from opts opens now m =
    let (file, opened) = open_pcap opts opens m in
    enter_dialog (new_dialog req from opts file now) (find_dialog (call_id req) opened) opened

abbrev pub with_to : Option Address → Message → Address → Options → Bool → ℕ → Manager → SetupResult
with_to none req from opts opens now m = not_set_up missing_to m
with_to (some to) req from opts opens now m =
    if is_empty (tag to) then set_up_from req from opts opens now m else not_set_up has_to_tag m

abbrev pub with_from : Option Address → Message → Options → Bool → ℕ → Manager → SetupResult
with_from none req opts opens now m = not_set_up missing_from m
with_from (some from) req opts opens now m = with_to (to_address req) req from opts opens now m

abbrev pub raise_gate : Options → Manager → Manager
raise_gate opts m = if opts.dlg_gate then record m { dlg_gate = true } else m

-- Setup
unfoldable pub setup : Message → Options → Bool → ℕ → Manager → SetupResult
setup req opts opens now m =
    if text_eq req.method (lit "INVITE")
    then with_from (from_address req) req opts opens now (raise_gate opts m)
    else not_set_up not_invite m

abbrev pub confirm_dialog : Option Address → Message → Dialog → Dialog
confirm_dialog none resp d = d
confirm_dialog (some to) resp d =
    if d.confirmed || is_empty (tag to)
    then d
    else record d { callee = some (side_of to resp); confirmed = true }

abbrev pub is_confirming : Message → Bool
is_confirming resp =
    not resp.is_request
    && (text_eq (cseq_method resp) (lit "INVITE") && is_success resp.status_code)

abbrev pub confirm_at : Option ℕ → Message → Manager → Manager
confirm_at none resp m = m
confirm_at (some i) resp m = on_dialog i (confirm_dialog (to_address resp) resp) m

-- ConfirmFromResponse
unfoldable pub confirm_from_response : Message → Manager → Manager
confirm_from_response resp m =
    if is_confirming resp then confirm_at (find_dialog (call_id resp) m) resp m else m

abbrev pub tag_pair : Dialog → Side → Text → Text → Bool
tag_pair d callee from to =
    (text_eq from d.caller.tag && text_eq to callee.tag)
    || (text_eq from callee.tag && text_eq to d.caller.tag)

abbrev pub matches_callee : Option Side → Dialog → Text → Text → Bool
matches_callee none d from to = false
matches_callee (some callee) d from to = tag_pair d callee from to

abbrev pub matches : Dialog → Text → Text → Bool
matches d from to =
    if d.confirmed then matches_callee d.callee d from to else text_eq from d.caller.tag

abbrev match_at : Option Dialog → ℕ → Text → Text → Option ℕ
match_at none i from to = none
match_at (some d) i from to = if matches d from to then some i else none

abbrev match_of : Option ℕ → Text → Text → Manager → Option ℕ
match_of none from to m = none
match_of (some i) from to m = match_at (get_elem? m.heap i) i from to

abbrev find_between : Option Address → Option Address → Message → Manager → Option ℕ
find_between (some from) (some to) req m =
    match_of (find_dialog (call_id req) m) (tag from) (tag to) m
find_between _ _ req m = none

-- FindFor
unfoldable pub find_for : Message → Manager → Option ℕ
find_for req m = find_between (from_address req) (to_address req) req m

pub data Direction : Type 0 where
  in_ out_ : Direction

abbrev packet : Direction → ℕ → Text → ℤ → Message → Manager → Capture
packet in_ file peer port msg m = record {
  file = file;
  src = peer;
  src_port = port;
  dst = m.local_ip;
  dst_port = m.local_port;
  payload = (serialize msg).1;
}
packet out_ file peer port msg m = record {
  file = file;
  src = m.local_ip;
  src_port = m.local_port;
  dst = peer;
  dst_port = port;
  payload = (serialize msg).1;
}

abbrev capture_in : Option ℕ → Direction → Message → Text → ℤ → Manager → Manager
capture_in none way msg peer port m = m
capture_in (some file) way msg peer port m = record m {
  captured = packet way file peer port msg m ∷ m.captured;
}

abbrev pcap_of : Option Dialog → Option ℕ
pcap_of none = none
pcap_of (some d) = d.pcap

abbrev capture_at : Option ℕ → Direction → Message → Text → ℤ → Manager → Manager
capture_at none way msg peer port m = m
capture_at (some i) way msg peer port m =
    capture_in (pcap_of (get_elem? m.heap i)) way msg peer port m

-- CapturePacket
unfoldable pub capture_packet : Direction → Message → Text → ℤ → Manager → Manager
capture_packet way msg peer port m =
    if is_empty (call_id msg)
    then m
    else capture_at (find_dialog (call_id msg) m) way msg peer port m
