-- ===== src/Transaction/Client.antt =====
-- pkg/transaction/client.go. A method that runs under the lock takes the transaction and returns the new
-- one. `out` records the calls of `sendFunc` and `onResp`, the last one first: what they do is the
-- caller's code, and an error of `sendFunc` is only logged. A channel `done` is the Boolean that says
-- whether it is closed.
pub mod Invariant
pub mod Progress
pub mod Retransmits
use funsip.Base.{
  ℕ, ◌*◌, Bool, true, false, ◌&&◌, Option, none, some, List, [], ◌∷◌, ◌++◌, if◌then◌else◌, ltb,
}
use funsip.Base.Int.{ℤ, pos, ge_const, lt_const}
use funsip.Text.{Text, lit, text_eq}
use funsip.Sip.Headers.{Headers, get, set}
use funsip.Sip.Message.{Message, new_request, create_response, copy_header, cseq_num}
use funsip.Sip.Message.Wire.{int_text}
use funsip.Transaction.Keys.{
  State, trying, calling, proceeding, completed, confirmed, terminated, TxType, ict, nict, ist,
  nist, is_ict, is_terminated, Key, make_client_key,
}
use funsip.Transaction.Timers.{
  TimerName, ta, tb, td, te, tf, tk, Timer, Timers, no_timers, put_timer, start_timer, cancel_timer,
  timer_a_initial, timer_b, timer_d, timer_e, timer_f, timer_k, doubled_to_t2,
}

pub data Effect : Type 0 where
  sent : Message → Text → Text → Effect
  delivered : Message → Effect

pub record ClientTx : Type 0 where
  pub key : Key
  pub tx_type : TxType
  pub request : Message
  pub state : State
  pub transport : Text
  pub dest : Text
  pub timers : Timers
  pub done : Bool
  pub created_at : ℕ
  pub out : List Effect

abbrev pub is_udp : Text → Bool
is_udp transport = text_eq transport (lit "UDP")

abbrev pub send : Message → ClientTx → ClientTx
send m tx = record tx { out = sent m tx.dest tx.transport ∷ tx.out }

abbrev pub deliver : Message → ClientTx → ClientTx
deliver m tx = record tx { out = delivered m ∷ tx.out }

abbrev pub start : TimerName → ℕ → ClientTx → ClientTx
start n delay tx = record tx { timers = start_timer n delay tx.timers }

abbrev pub cancel : TimerName → ClientTx → ClientTx
cancel n tx = record tx { timers = cancel_timer n tx.timers }

abbrev pub cancel_all : ClientTx → ClientTx
cancel_all tx = record tx { timers = no_timers }

abbrev pub enter : State → ClientTx → ClientTx
enter s tx = record tx { state = s }

-- terminate: closes `done` unless it is closed.
abbrev pub terminate : ClientTx → ClientTx
terminate tx = record tx { done = true }

-- The transaction as both constructors set it up, before anything is sent.
abbrev pub fresh_tx : TxType → State → Message → Text → Text → ℕ → ClientTx
fresh_tx type state req dest transport now = record {
  key = record (make_client_key req) { is_client = true };
  tx_type = type;
  request = req;
  state = state;
  transport = transport;
  dest = dest;
  timers = no_timers;
  done = false;
  created_at = now;
  out = [];
}

abbrev pub start_if_udp : TimerName → ℕ → ClientTx → ClientTx
start_if_udp n delay tx = if is_udp tx.transport then start n delay tx else tx

-- NewClientInviteTx
unfoldable pub new_client_invite_tx : Message → Text → Text → ℕ → ClientTx
new_client_invite_tx req dest transport now =
    start tb timer_b
      (start_if_udp ta timer_a_initial (send req (fresh_tx ict calling req dest transport now)))

-- NewClientNonInviteTx
unfoldable pub new_client_non_invite_tx : Message → Text → Text → ℕ → ClientTx
new_client_non_invite_tx req dest transport now =
    start tf timer_f
      (start_if_udp te timer_e (send req (fresh_tx nict trying req dest transport now)))

-- The headers of the ACK to a response of a final code from 300 on.
unfoldable pub ack_for : Message → Message → Message
unfolding new_request
ack_for req resp =
    let ack = new_request (lit "ACK") req.request_uri in
    let via = copy_header (lit "Via") req.headers ack.headers in
    let from = copy_header (lit "From") req.headers via in
    let to = copy_header (lit "To") resp.headers from in
    let call = copy_header (lit "Call-ID") req.headers to in
    let cseq = set call (lit "CSeq") (int_text (cseq_num req) ++ lit " ACK") in
    record ack { headers = set cseq (lit "Max-Forwards") (lit "70") }

-- sendACK
abbrev pub send_ack : Message → ClientTx → ClientTx
send_ack resp tx = send (ack_for tx.request resp) tx

abbrev pub is_provisional : ℤ → Bool
is_provisional code = ge_const code 100 && lt_const code 200

abbrev pub is_success : ℤ → Bool
is_success code = ge_const code 200 && lt_const code 300

-- Over UDP the transaction waits for retransmissions, else it ends.
abbrev pub wait_or_end : TimerName → ℕ → ClientTx → ClientTx
wait_or_end n delay tx = if is_udp tx.transport then start n delay tx else terminate tx

-- The same two final branches stand under Calling and under Proceeding.
abbrev pub ict_final : Message → ClientTx → ClientTx
ict_final resp tx =
    if is_success resp.status_code
    then terminate (deliver resp (cancel_all (enter terminated tx)))
    else if ge_const resp.status_code 300
    then wait_or_end td timer_d (send_ack resp (deliver resp (cancel_all (enter completed tx))))
    else tx

abbrev ict_in : State → Message → ClientTx → ClientTx
ict_in calling resp tx =
    if is_provisional resp.status_code
    then deliver resp (cancel tb (cancel ta (enter proceeding tx)))
    else ict_final resp tx
ict_in proceeding resp tx =
    if is_provisional resp.status_code then deliver resp tx else ict_final resp tx
ict_in completed resp tx = if ge_const resp.status_code 300 then send_ack resp tx else tx
ict_in _ resp tx = tx

-- ictReceiveResponse
unfoldable pub ict_receive_response : Message → ClientTx → ClientTx
ict_receive_response resp tx = ict_in tx.state resp tx

abbrev pub nict_final : Message → ClientTx → ClientTx
nict_final resp tx =
    if ge_const resp.status_code 200
    then wait_or_end tk timer_k (deliver resp (cancel_all (enter completed tx)))
    else tx

abbrev nict_in : State → Message → ClientTx → ClientTx
nict_in trying resp tx =
    if is_provisional resp.status_code
    then deliver resp (enter proceeding tx)
    else nict_final resp tx
nict_in proceeding resp tx =
    if is_provisional resp.status_code then deliver resp tx else nict_final resp tx
nict_in _ resp tx = tx

-- nictReceiveResponse
unfoldable pub nict_receive_response : Message → ClientTx → ClientTx
nict_receive_response resp tx = nict_in tx.state resp tx

-- ReceiveResponse
unfoldable pub receive_response : Message → ClientTx → ClientTx
unfolding ict_receive_response nict_receive_response
receive_response resp tx =
    if is_terminated tx.state
    then tx
    else if is_ict tx.tx_type
    then ict_receive_response resp tx
    else nict_receive_response resp tx

abbrev pub is_calling : State → Bool
is_calling calling = true
is_calling _ = false

abbrev pub is_open : State → Bool
is_open trying = true
is_open proceeding = true
is_open _ = false

-- The 408 that timers B and F deliver in place of an answer.
abbrev pub time_out : ClientTx → ClientTx
time_out tx = terminate (
    deliver (create_response tx.request (pos 408) (lit "Request Timeout"))
      (cancel_all (enter terminated tx)))

-- The callback of a timer that was started with `delay`.
abbrev pub callback : TimerName → ℕ → ClientTx → ClientTx
callback ta delay tx = if is_calling tx.state then start ta (delay * 2) (send tx.request tx) else tx
callback tb delay tx = if is_calling tx.state then time_out tx else tx
callback td delay tx = terminate (enter terminated tx)
callback te delay tx =
    if is_open tx.state then start te (doubled_to_t2 delay) (send tx.request tx) else tx
callback tf delay tx = if is_open tx.state then time_out tx else tx
callback tk delay tx = terminate (enter terminated tx)
callback _ delay tx = tx

abbrev fire_timer : TimerName → Option Timer → ClientTx → ClientTx
fire_timer n none tx = tx
fire_timer n (some t) tx =
    if t.live
    then callback n t.delay
        (record tx { timers = put_timer n (some (record t { live = false })) tx.timers })
    else tx

-- The timer under this name runs out, if it is running.
unfoldable pub fire : TimerName → ClientTx → ClientTx
fire n tx = fire_timer n (tx.timers n) tx

pub data ClientEvent : Type 0 where
  receives : Message → ClientEvent
  fires : TimerName → ClientEvent

unfoldable pub step : ClientTx → ClientEvent → ClientTx
unfolding receive_response fire
step tx (receives resp) = receive_response resp tx
step tx (fires n) = fire n tx

unfoldable pub run : ClientTx → List ClientEvent → ClientTx
run tx [] = tx
run tx (c ∷ cs) = run (step tx c) cs
