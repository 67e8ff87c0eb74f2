-- ===== src/Transaction/Layer/Receive.antt =====
-- How pkg/transaction/layer.go receives a request.
use funsip.Base.{ℕ, Bool, true, ◌&&◌, none, some, if◌then◌else◌, length, insert}
use funsip.Base.Int.{is_negative, gt_const}
use funsip.Text.{Text, lit, text_eq, text_keys}
use funsip.Sip.Headers.{set}
use funsip.Sip.Message.{Message, max_forwards}
use funsip.Transaction.Keys.{key_text, make_invite_key_from_cancel}
use funsip.Transaction.Server.{ServerTx, new_server_invite_tx, new_server_non_invite_tx}
use funsip.Transaction.Server as Server
use funsip.Transaction.Layer.State.{
  Layer, hand, on_server, server_key, find_server, find_server_tx, add_server, server_end,
}
use funsip.Transaction.Layer.Branches.{handle_cancel_matched}

-- armInviteTimeout
abbrev pub arm_invite_timeout : Text → ℕ → Layer → Layer
arm_invite_timeout key i l = record l {
  invite_timers = insert text_keys key (record { owner = i; live = true }) l.invite_timers;
}

abbrev pub is_invite : Message → Bool
is_invite req = text_eq req.method (lit "INVITE")

abbrev pub server_tx_for : Message → ℕ → ServerTx
server_tx_for req now =
    if is_invite req then new_server_invite_tx req now else new_server_non_invite_tx req now

abbrev pub start_request : Message → ℕ → Layer → Layer
start_request req now l =
    let key = server_key req in
    let i = length l.server_heap in
    let known = add_server key (server_tx_for req now) (server_end i key) l in
    hand req (
      if is_invite req && gt_const l.invite_timeout 0
      then arm_invite_timeout key i known
      else known)

abbrev pub as_request : Message → ℕ → Layer → Layer
as_request req now l = elim (find_server_tx req l) [
  | none ↦ start_request req now l
  | some i ↦ on_server i (Server.receive_request req) l
]

-- The request after `req.Headers.Set("Max-Forwards", "70")` where it has none.
abbrev pub with_max_forwards : Message → Message
with_max_forwards req =
    if is_negative (max_forwards req)
    then record req { headers = set req.headers (lit "Max-Forwards") (lit "70") }
    else req

abbrev pub invite_key_of : Message → Text
invite_key_of cancel = key_text (make_invite_key_from_cancel cancel)

abbrev pub cancel_or_request : Message → ℕ → Layer → Layer
cancel_or_request req now l = elim (find_server (invite_key_of req) l) [
  | none ↦ as_request req now l
  | some i ↦ handle_cancel_matched req i (invite_key_of req) now l
]

-- handleACK
unfoldable pub handle_ack : Message → Layer → Layer
handle_ack ack l = elim (find_server_tx ack l) [
  | none ↦ hand ack l
  | some i ↦ on_server i Server.receive_ack l
]

abbrev pub dispatch : Message → ℕ → Layer → Layer
dispatch req now l =
    if text_eq req.method (lit "CANCEL") then cancel_or_request req now l else as_request req now l

-- receiveRequest
unfoldable pub receive_request : Message → ℕ → Layer → Layer
receive_request req now l =
    if text_eq req.method (lit "ACK")
    then handle_ack req l
    else dispatch (with_max_forwards req) now l
