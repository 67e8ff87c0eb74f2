-- ===== src/Transaction/Layer/Respond.antt =====
-- Responses in pkg/transaction/layer.go: received, given by the code, and given for it by the INVITE timer.
use funsip.Base.{
  ℕ, suc, ◌+◌, ◌-◌, Bool, false, Option, none, some, ◌∷◌, ◌++◌, if◌then◌else◌, get_elem?, lookup,
  insert,
}
use funsip.Base.Int.{pos, ge_const}
use funsip.Text.{Text, lit, text_keys}
use funsip.Sip.Message.{Message, create_response}
use funsip.Sip.Message.Wire.{int_text}
use funsip.Transaction.Keys.{is_proceeding, key_text, make_client_key}
use funsip.Transaction.Client.{ClientTx, new_client_invite_tx, new_client_non_invite_tx, is_calling}
use funsip.Transaction.Client as Client
use funsip.Transaction.Server.{ServerTx, new_server_invite_tx, new_server_non_invite_tx}
use funsip.Transaction.Server as Server
use funsip.Transaction.Layer.State.{InviteTimer, Layer, on_server, on_client, find_server_tx}
use funsip.Transaction.Layer.Branches.{cancel_pending}
use funsip.Transaction.Layer.Receive.{receive_request}

abbrev pub time_since : Option ClientTx → ℕ → ℕ
time_since none now = 0
time_since (some tx) now = now - tx.created_at

abbrev pub count_answer : ℕ → Message → ℕ → Layer → Layer
count_answer i resp now l =
    if ge_const resp.status_code 200
    then record l {
      total_resp_time = l.total_resp_time + time_since (get_elem? l.client_heap i) now;
      resp_count = suc l.resp_count;
    }
    else l

-- receiveResponse
unfoldable pub receive_response : Message → ℕ → Layer → Layer
receive_response resp now l =
    elim (lookup text_keys (key_text (make_client_key resp)) l.client_txs) [
      | none ↦ l
      | some i ↦ on_client i (Client.receive_response resp) (count_answer i resp now l)
    ]

-- ReceiveMessage
abbrev pub receive_message : Message → ℕ → Layer → Layer
receive_message msg now l =
    if msg.is_request then receive_request msg now l else receive_response msg now l

-- RespondToRequest
unfoldable pub respond_to_request : Message → Message → Layer → Layer
respond_to_request req resp l = elim (find_server_tx req l) [
  | none ↦ record l {
    stateless =
        (resp, req.source_ip ++ b':' ∷ int_text req.source_port, req.transport) ∷ l.stateless;
  }
  | some i ↦ on_server i (Server.respond resp) l
]

abbrev pub server_proceeds : Option ServerTx → Bool
server_proceeds none = false
server_proceeds (some tx) = is_proceeding tx.state

abbrev time_out_server : ServerTx → ServerTx
time_out_server tx =
    Server.respond (create_response tx.request (pos 408) (lit "Request Timeout")) tx

abbrev pub expire : Text → InviteTimer → ℕ → Layer → Layer
expire key t now l =
    let fired = record l {
      invite_timers = insert text_keys key (record t { live = false }) l.invite_timers;
    } in
    if server_proceeds (get_elem? l.server_heap t.owner)
    then on_server t.owner time_out_server (cancel_pending key now fired)
    else fired

-- The INVITE timer of the key runs out, if it is running.
unfoldable pub expire_invite : Text → ℕ → Layer → Layer
expire_invite key now l = elim (lookup text_keys key l.invite_timers) [
  | none ↦ l
  | some t ↦ if t.live then expire key t now l else l
]
